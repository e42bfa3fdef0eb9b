-- ===== src/Sandbox/Reconfigure.antt =====
-- src/lib.rs: `impl ReconfigurableFS for ReconfigurableSandboxFS`. A sandbox is a top-level
-- directory of the file system whose root node is at the address `root_node`.
use sandboxfs_rust.Base.{ℕ, Option, none, List, [], ◌∷◌, Bytes, ◌==◌, if◌then◌else◌}
use sandboxfs_rust.Path.{root, path_eq, path_beq}
use sandboxfs_rust.Errors.{Cause, Failure, failure, MappingError}
use sandboxfs_rust.Os.{Os}
use sandboxfs_rust.State.{State}
use sandboxfs_rust.Monad.{
  M, Outcome, ok, err, panic, ◌>>=◌, pure, raise, abort, modify, map_err, update,
}
use sandboxfs_rust.Mapping.{Mapping, from_parts, apply_mapping, apply_mappings, cannot_map_it}
use sandboxfs_rust.Nodes.Map.{find_subdir, unmap_subdir}
use sandboxfs_rust.Reconfig.{ReconfigurableFs, make_path}

-- `nodes.remove(&inode)` for each of the inodes
unfoldable pub forget_all : List ℕ → (ℕ → Option ℕ) → ℕ → Option ℕ
forget_all [] nodes = nodes
forget_all (i ∷ is) nodes = forget_all is (update nodes i none)

module _ {W : Type 0} (os : Os W) (root_node : ℕ) where
  abbrev pub lift_failure : {A : Type 0} → Outcome Failure A → M W Failure A
  lift_failure (ok a) = pure a
  lift_failure (err e) = raise e
  lift_failure (panic p) = abort p

  abbrev pub lift_mapping : Outcome MappingError Mapping → M W Failure Mapping
  lift_mapping (ok m) = pure m
  lift_mapping (err e) = raise (failure (Cause.mapping e))
  lift_mapping (panic p) = abort p

  -- A first mapping of the root of the sandbox maps the top-level directory itself.
  unfoldable pub map_sandbox_root : Bytes → Mapping → M W Failure ℕ
  unfolding make_path from_parts apply_mapping
  map_sandbox_root id mapping = do
    path ← lift_failure (make_path id mapping.path)
    m ← lift_mapping (from_parts path mapping.underlying_path mapping.writable)
    map_err (cannot_map_it mapping) (apply_mapping os m root_node)

  unfoldable pub create_sandbox : Bytes → List Mapping → M W Failure (Unit {0})
  unfolding find_subdir map_sandbox_root apply_mappings path_beq
  create_sandbox id [] = do _node ← find_subdir os root_node id; pure tt
  create_sandbox id (first ∷ rest) =
      if first.path == root
      then (do node ← map_sandbox_root id first; apply_mappings os rest node)
      else (do node ← find_subdir os root_node id; apply_mappings os (first ∷ rest) node)

  -- The inodes of the unmapped nodes leave the table.
  unfoldable pub destroy_sandbox : Bytes → M W Failure (Unit {0})
  unfolding unmap_subdir forget_all
  destroy_sandbox id = do
    inodes ← unmap_subdir root_node id
    modify (λ s. record s { nodes = forget_all inodes s.nodes })

  abbrev pub reconfigurable : ReconfigurableFs (State W)
  reconfigurable = record { create = create_sandbox; destroy = destroy_sandbox }
