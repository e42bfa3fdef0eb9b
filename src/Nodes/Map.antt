-- ===== src/Nodes/Map.antt =====
-- src/nodes/dir.rs: mapping and unmapping. `find_subdir`, `map`, `unmap` and `unmap_subdir`.
pub mod Found
use sandboxfs_rust.Base.{
  ℕ, zero, suc, Bool, not, ◌&&◌, Option, none, some, List, [], ◌∷◌, ◌++◌, Bytes, nat_eq, list_eq,
  list_beq, is_empty, if◌then◌else◌,
}
use sandboxfs_rust.Base.Assoc.{get, insert, remove}
use sandboxfs_rust.Path.{FilePath, Component, cur_dir, parent_dir, normal, join_name}
use sandboxfs_rust.Errors.{
  Result, Cause, Failure, failure, context, already_mapped, not_a_mapping, unknown_entry,
  entry_is_not_a_mapping, stat_failed,
}
use sandboxfs_rust.Attr.{fs_is_dir, is_dir}
use sandboxfs_rust.Os.{Os}
use sandboxfs_rust.State.{Children, Node, dir, file, symlink}
use sandboxfs_rust.Monad.{
  M, ◌>>=◌, ◌>>◌, pure, raise, abort, gets, raise_if, next, fetch, attempt, invoke, not_normalized,
  no_components, out_of_fuel,
}
use sandboxfs_rust.Nodes.New.{new_empty}
use sandboxfs_rust.Nodes.Cache.{get_or_create, new_directory}
use sandboxfs_rust.Nodes.Attrs.{file_type_of}
use sandboxfs_rust.Nodes.Dir.{Dir, get_dir, set_children, explicit}

module _ {W : Type 0} (os : Os W) where
  -- The default of `new_scaffold_child`: an empty directory that knows its parent.
  unfoldable pub new_scaffold_empty : Dir → M W Failure ℕ
  unfolding next new_empty
  new_scaffold_empty d = do
    now ← gets (λ s. os.now s.world)
    inode ← next
    new_empty os inode (some d.inode) now

  -- `Dir::new_scaffold_child`. Errors are logged, and the directory is created anyway.
  unfoldable pub new_scaffold_child : Dir → Option FilePath → Bytes → M W Failure ℕ
  unfolding new_scaffold_empty attempt new_directory join_name
  new_scaffold_child d none name = new_scaffold_empty d
  new_scaffold_child d (some path) name = do
    result ← attempt (os.symlink_metadata (join_name path name))
    elim result [
      | Result.err _ ↦ new_scaffold_empty d
      | Result.ok fs_attr ↦
          if fs_is_dir fs_attr.file_type
          then new_directory (join_name path name) fs_attr d.writable
          else new_scaffold_empty d
    ]

  -- `Dir::find_subdir`
  unfoldable pub find_subdir : ℕ → Bytes → M W Failure ℕ
  unfolding get_dir get set_children insert new_scaffold_child list_beq
  find_subdir a name = do
    d ← get_dir a
    elim (get name d.state.children) [
      | some dirent ↦ do
        raise_if (not dirent.explicit_mapping) (failure not_a_mapping)
        pure dirent.node
      | none ↦ do
        child ← new_scaffold_child d none name
        set_children a (insert name (explicit child))
        pure child
    ]

  -- `split_components` takes the first component, which must be a normal one.
  abbrev pub normal_name : Component → M W Failure Bytes
  normal_name (normal name) = pure name
  normal_name cur_dir = abort not_normalized
  normal_name parent_dir = abort not_normalized

  -- The node that `map` creates for a component: the last one is the mapping itself.
  unfoldable pub map_child : Dir → Bytes → Bool → FilePath → Bool → M W Failure ℕ
  unfolding invoke get_or_create new_scaffold_child
  map_child d name last path writable =
      if last
      then (do
        fs_attr ←
            invoke (λ e. context (stat_failed path) (failure (Cause.io e)))
              (os.symlink_metadata path)
        get_or_create path fs_attr writable)
      else new_scaffold_child d d.state.underlying_path name

  -- `Dir::map`
  unfoldable pub map : ℕ → List Component → FilePath → Bool → M W Failure ℕ
  unfolding get_dir get set_children insert map_child fetch list_beq
  map a [] path writable = abort no_components
  map a (component ∷ remainder) path writable = do
    name ← normal_name component
    d ← get_dir a
    elim (get name d.state.children) [
      | some dirent ↦ do
        n ← fetch dirent.node
        raise_if (not (is_dir (file_type_of n) && not (is_empty remainder)))
            (failure already_mapped)
        map dirent.node remainder path writable
      | none ↦ do
        child ← map_child d name (is_empty remainder) path writable
        set_children a (insert name (explicit child))
        elim remainder [
          | [] ↦ pure child
          | _ ∷ _ ↦ do
            n ← fetch child
            raise_if (not (is_dir (file_type_of n))) (failure already_mapped)
            map child remainder path writable
        ]
    ]

module _ {W E : Type 0} where
  -- The loop of `Dir::unmap` over the children, with the recursive call as `rec`.
  unfoldable pub unmap_children : (ℕ → List ℕ → M W E (List ℕ)) → Children → List ℕ → M W E (List ℕ)
  unmap_children rec [] inodes = pure inodes
  unmap_children rec ((name, d) ∷ rest) inodes = do
    inodes ← rec d.node inodes
    unmap_children rec rest inodes

  -- `unmap` of the three types: the inodes that it adds to the vector come last.
  unfoldable pub unmap_node : (ℕ → List ℕ → M W E (List ℕ)) → ℕ → List ℕ → Node → M W E (List ℕ)
  unfolding unmap_children set_children get_dir
  unmap_node rec a inodes (dir i w st) = do
    inodes ← unmap_children rec st.children inodes
    set_children a (λ _. [])
    pure (inodes ++ i ∷ [])
  unmap_node rec a inodes (file i w st) = pure (inodes ++ i ∷ [])
  unmap_node rec a inodes (symlink i w st) = pure (inodes ++ i ∷ [])

  unfoldable pub unmap_walk : ℕ → ℕ → List ℕ → M W E (List ℕ)
  unfolding fetch unmap_node
  unmap_walk zero a inodes = abort out_of_fuel
  unmap_walk (suc fuel) a inodes = do n ← fetch a; unmap_node (unmap_walk fuel) a inodes n

  -- `Node::unmap`. A walk down the tree is no deeper than there are nodes.
  unfoldable pub unmap : ℕ → List ℕ → M W E (List ℕ)
  unfolding unmap_walk
  unmap a inodes = do nodes ← gets (λ s. s.last_id); unmap_walk (suc nodes) a inodes

module _ {W : Type 0} where
  -- `Dir::unmap_subdir`. An entry that is no mapping is put back.
  unfoldable pub unmap_subdir : ℕ → Bytes → M W Failure (List ℕ)
  unfolding get_dir get set_children insert remove unmap list_beq
  unmap_subdir a name = do
    d ← get_dir a
    elim (get name d.state.children) [
      | none ↦ raise (failure unknown_entry)
      | some dirent ↦ do
        set_children a (remove name)
        if dirent.explicit_mapping then unmap dirent.node [] else (do
          set_children a (insert name dirent)
          raise (failure (entry_is_not_a_mapping name)))
    ]
