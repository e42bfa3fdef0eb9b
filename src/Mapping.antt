-- ===== src/Mapping.antt =====
-- src/lib.rs: `Mapping`, and how mappings are applied to a tree of nodes: `split_abs_path`,
-- `apply_mapping` and `create_root`.
pub mod Parts
pub mod Found
use sandboxfs_rust.Base.{ℕ, Bool, not, none, List, [], ◌∷◌, is_empty, if◌then◌else◌}
use sandboxfs_rust.Path.{FilePath, Component, cur_dir, parent_dir, normal, has_no_parent}
use sandboxfs_rust.Errors.{
  Cause, Failure, failure, context, MappingError, path_not_absolute, path_not_normalized,
  root_mapped_twice, root_stat_failed, root_is_not_a_directory, cannot_map,
}
use sandboxfs_rust.Attr.{fs_is_dir}
use sandboxfs_rust.Os.{Os}
use sandboxfs_rust.Monad.{
  M, Outcome, ok, err, panic, not_normalized, ◌>>=◌, ◌>>◌, pure, gets, raise_if, map_err, next,
  invoke,
}
use sandboxfs_rust.Nodes.New.{new_empty, new_mapped_dir}
use sandboxfs_rust.Nodes.Map

pub record Mapping : Type 0 where
  pub path : FilePath
  pub underlying_path : FilePath
  pub writable : Bool

-- The search for a component that is not normal. A dot in an absolute path would panic.
unfoldable pub check_components : FilePath → List Component → Outcome MappingError (Unit {0})
check_components path [] = ok tt
check_components path (normal _ ∷ cs) = check_components path cs
check_components path (parent_dir ∷ cs) = err (path_not_normalized path)
check_components path (cur_dir ∷ cs) = panic not_normalized

-- `Mapping::from_parts`
unfoldable pub from_parts : FilePath → FilePath → Bool → Outcome MappingError Mapping
unfolding check_components
from_parts path underlying_path writable =
    if not path.absolute
    then err (path_not_absolute path)
    else elim (check_components path path.components) [
      | err e ↦ err e
      | panic p ↦ panic p
      | ok _ ↦
          if not underlying_path.absolute
          then err (path_not_absolute underlying_path)
          else ok (record { path = path; underlying_path = underlying_path; writable = writable })
    ]

-- `Mapping::is_root`
unfoldable pub is_root : Mapping → Bool
unfolding has_no_parent
is_root m = has_no_parent m.path

-- `split_abs_path` drops the root component, which a path here does not list.
abbrev pub split_abs_path : FilePath → List Component
split_abs_path p = p.components

abbrev pub cannot_map_it : Mapping → Failure → Failure
cannot_map_it m = context (cannot_map m.path m.underlying_path m.writable)

module _ {W : Type 0} (os : Os W) where
  -- `apply_mapping`, with the root node at the address `root`.
  unfoldable pub apply_mapping : Mapping → ℕ → M W Failure ℕ
  unfolding Map.map
  apply_mapping m root = do
    raise_if (is_empty (split_abs_path m.path)) (failure root_mapped_twice)
    Map.map os root (split_abs_path m.path) m.underlying_path m.writable

  -- The loops that apply mappings one by one, up to the first that fails.
  unfoldable pub apply_mappings : List Mapping → ℕ → M W Failure (Unit {0})
  unfolding apply_mapping
  apply_mappings [] root = pure tt
  apply_mappings (m ∷ rest) root = do
    _node ← map_err (cannot_map_it m) (apply_mapping m root)
    apply_mappings rest root

  -- The root node when the first mapping is one of the root.
  unfoldable pub new_root_mapped : Mapping → M W Failure ℕ
  unfolding invoke next new_mapped_dir
  new_root_mapped m = do
    fs_attr ←
        invoke (λ e. context (root_stat_failed m.underlying_path) (failure (Cause.io e)))
          (os.symlink_metadata m.underlying_path)
    raise_if (not (fs_is_dir fs_attr.file_type))
        (failure (root_is_not_a_directory m.underlying_path))
    inode ← next
    new_mapped_dir inode m.underlying_path fs_attr m.writable

  unfoldable pub new_root_empty : M W Failure ℕ
  unfolding next new_empty
  new_root_empty = do now ← gets (λ s. os.now s.world); inode ← next; new_empty os inode none now

  -- `create_root`
  unfoldable pub create_root : List Mapping → M W Failure ℕ
  unfolding new_root_empty new_root_mapped apply_mappings is_root
  create_root [] = new_root_empty
  create_root (first ∷ others) =
      if is_root first
      then (do root ← new_root_mapped first; apply_mappings others root; pure root)
      else (do root ← new_root_empty; apply_mappings (first ∷ others) root; pure root)
