-- ===== src/Sandbox/Creation.antt =====
-- The creation of an instance and its reconfigurations keep the memory valid (src/lib.rs).
use sandboxfs_rust.Base.{
  ℕ, Option, Bool, none, some, List, [], ◌∷◌, Bytes, ◌≡◌, not, refl, sym, ◌∙◌, inl, arith, ◌==◌,
  nat_eq, nat_beq_iff, is_empty,
}
use mathlib.Core.Path.{subst}
use sandboxfs_rust.Path.{FilePath, Component, normal, parent_dir, cur_dir, root, path_eq}
use sandboxfs_rust.Attr.{fs_is_dir}
use sandboxfs_rust.Errors.{
  Cause, Failure, failure, context, root_mapped_twice, root_stat_failed, root_is_not_a_directory,
  MappingError,
}
use sandboxfs_rust.Os.{Os}
use sandboxfs_rust.State.{State, inode_of}
use sandboxfs_rust.State.Valid.{Has-Grows, Is-Grows}
use sandboxfs_rust.Monad.{Outcome, ok, err, panic, Panic, update, wrong_root, not_normalized}
use sandboxfs_rust.Monad.Keeps.{
  Post, IsExpected, Anything, Post-pure, Post-raise, Post-abort, Post-if, Post-after, with_valid,
  bind, gets_lem, assert_lem, raise_if_lem, map_err_lem,
}
use sandboxfs_rust.Monad.Steps.{fetch_lem, next_lem, invoke_lem, set_nodes_lem, inode_of-Has}
use sandboxfs_rust.Nodes.Valid.{IsNode}
use sandboxfs_rust.Nodes.Valid.New.{new_empty_lem, new_mapped_dir_lem}
use sandboxfs_rust.Nodes.Valid.Map.{map_lem, find_subdir_lem, unmap_subdir_lem}
use sandboxfs_rust.Mapping.{
  Mapping, check_components, from_parts, is_root, split_abs_path, cannot_map_it, apply_mapping,
  apply_mappings, new_root_mapped, new_root_empty, create_root,
}
use sandboxfs_rust.Reconfig.{make_path}
use sandboxfs_rust.Sandbox.{fuse_root_id, create_fs}
use sandboxfs_rust.Sandbox.Valid.{update-IsNode}
use sandboxfs_rust.Sandbox.Reconfigure.{
  forget_all, lift_failure, lift_mapping, map_sandbox_root, create_sandbox, destroy_sandbox,
}

module _ {W : Type 0} (os : Os W) where
  apply_mapping_lem :
      (m : Mapping) (a : ℕ) {s : State W} → IsNode a s → Post IsNode (apply_mapping os m a) s
  unfolding apply_mapping
  apply_mapping_lem m a k =
      bind (raise_if_lem (is_empty (split_abs_path m.path)) (failure root_mapped_twice)) (λ _ t g _.
        map_lem os a (split_abs_path m.path) m.underlying_path m.writable (Is-Grows g k))

  apply_mappings_lem :
      (ms : List Mapping) (a : ℕ) {s : State W}
      → IsNode a s
      → Post Anything (apply_mappings os ms a) s
  unfolding apply_mappings
  apply_mappings_lem [] a k = Post-pure tt tt
  apply_mappings_lem (m ∷ ms) a k =
      bind (map_err_lem (cannot_map_it m) (apply_mapping_lem m a k))
        (λ _ t g _. apply_mappings_lem ms a (Is-Grows g k))

  pub new_root_mapped_lem : (m : Mapping) {s : State W} → Post IsNode (new_root_mapped os m) s
  unfolding new_root_mapped
  new_root_mapped_lem m =
      bind
        (invoke_lem (λ e. context (root_stat_failed m.underlying_path) (failure (Cause.io e)))
          (os.symlink_metadata m.underlying_path))
        (λ attr t g _.
          bind
            (raise_if_lem (not (fs_is_dir attr.file_type))
              (failure (root_is_not_a_directory m.underlying_path)))
            (λ _ t1 g1 (right, _). bind next_lem (λ inode t2 g2 (_, fresh).
              new_mapped_dir_lem m.underlying_path attr m.writable inode (ground arith) fresh)))

  pub new_root_empty_lem : {s : State W} → Post IsNode (new_root_empty os) s
  unfolding new_root_empty
  new_root_empty_lem =
      bind (gets_lem (λ s. os.now s.world)) (λ now t g _.
        bind next_lem (λ inode t1 g1 (_, fresh). new_empty_lem os inode none now fresh))

  create_root_lem : (ms : List Mapping) {s : State W} → Post IsNode (create_root os ms) s
  unfolding create_root
  create_root_lem [] = new_root_empty_lem
  create_root_lem (m ∷ ms) =
      Post-if (is_root m)
        (λ _.
          bind (new_root_mapped_lem m)
            (λ a t g k. bind (apply_mappings_lem ms a k) (λ _ _ g1 _. Post-pure a (Is-Grows g1 k))))
        (λ _. bind new_root_empty_lem (λ a t g k.
          bind (apply_mappings_lem (m ∷ ms) a k) (λ _ _ g1 _. Post-pure a (Is-Grows g1 k))))

  pub create_fs_lem :
      (ms : List Mapping) {s : State W} → Post (λ _ t. IsNode fuse_root_id t) (create_fs os ms) s
  unfolding create_fs
  create_fs_lem ms = bind (create_root_lem ms) (λ a t g k. bind (fetch_lem a k) (λ n t1 g1 (h, _).
      bind (assert_lem (fuse_root_id == inode_of n) wrong_root (λ _. tt)) (λ _ t2 g2 (right, here).
        with_valid λ v.
          let known = Is-Grows g2 (Is-Grows g1 k) in
          let own : inode_of n ≡ a = inode_of-Has t2 v a n (Has-Grows g2 h) in
          let first = (nat_beq_iff fuse_root_id (inode_of n)).0 right in
          Post-after (λ t3 g3. subst (λ x. IsNode x t3) (sym (first ∙ own)) (Is-Grows g3 known))
            (set_nodes_lem (λ ns. update ns (inode_of n) (some a))
              (update-IsNode t2 (inode_of n) a own known)))))

pub make_path_runs :
    (id : Bytes) (p : FilePath) (q : Panic) → make_path id p ≡ panic q → IsExpected q
unfolding make_path
make_path_runs id p q e = absurd (ground arith)

check_components_panic :
    (p : FilePath) (cs : List Component) (q : Panic)
    → check_components p cs ≡ panic q
    → q ≡ not_normalized
unfolding check_components
check_components_panic p [] q e = absurd (ground arith)
check_components_panic p (normal n ∷ cs) q e = check_components_panic p cs q e
check_components_panic p (parent_dir ∷ cs) q e = absurd (ground arith)
check_components_panic p (cur_dir ∷ cs) q e = ground arith

pub from_parts_panic :
    (p u : FilePath) (w : Bool) (q : Panic) → from_parts p u w ≡ panic q → IsExpected q
unfolding from_parts
from_parts_panic p u w q e =
    let same : q ≡ not_normalized = ground (arith, check_components_panic p p.components q) in
    subst IsExpected (sym same) tt

forget_all-eq-some :
    (is : List ℕ) (nodes : ℕ → Option ℕ) (i a : ℕ)
    → forget_all is nodes i ≡ some a
    → nodes i ≡ some a
unfolding forget_all
forget_all-eq-some [] nodes i a e = e
forget_all-eq-some (j ∷ js) nodes i a e =
    let rest = forget_all-eq-some js (update nodes j none) i a e in ground (arith, rest)

module _ {W : Type 0} (os : Os W) (a : ℕ) where
  pub lift_failure_lem :
      {A : Type 0} (o : Outcome Failure A) {s : State W}
      → ((q : Panic) → o ≡ panic q → IsExpected q)
      → Post (λ x t. (o ≡ ok x) × (t ≡ s)) (lift_failure os a o) s
  lift_failure_lem (ok x) k = Post-pure x (refl, refl)
  lift_failure_lem (err e) k = Post-raise e
  lift_failure_lem (panic q) k = Post-abort q (k q refl)

  pub lift_mapping_lem :
      (o : Outcome MappingError Mapping) {s : State W}
      → ((q : Panic) → o ≡ panic q → IsExpected q)
      → Post (λ x t. (o ≡ ok x) × (t ≡ s)) (lift_mapping os a o) s
  lift_mapping_lem (ok x) k = Post-pure x (refl, refl)
  lift_mapping_lem (err e) k = Post-raise (failure (Cause.mapping e))
  lift_mapping_lem (panic q) k = Post-abort q (k q refl)

  map_sandbox_root_lem :
      (id : Bytes) (m : Mapping) {s : State W}
      → IsNode a s
      → Post IsNode (map_sandbox_root os a id m) s
  unfolding map_sandbox_root
  map_sandbox_root_lem id m k =
      bind (lift_failure_lem (make_path id m.path) (make_path_runs id m.path)) (λ path t g _.
        bind
          (lift_mapping_lem (from_parts path m.underlying_path m.writable)
            (from_parts_panic path m.underlying_path m.writable))
          (λ m' t1 g1 _.
            map_err_lem (cannot_map_it m) (apply_mapping_lem os m' a (Is-Grows g1 (Is-Grows g k)))))

  pub create_sandbox_lem :
      (id : Bytes) (ms : List Mapping) {s : State W}
      → IsNode a s
      → Post Anything (create_sandbox os a id ms) s
  unfolding create_sandbox
  create_sandbox_lem id [] k = bind (find_subdir_lem os a id k) (λ _ _ _ _. Post-pure tt tt)
  create_sandbox_lem id (m ∷ ms) k =
      Post-if (m.path == root)
        (λ _. bind (map_sandbox_root_lem id m k) (λ b t g known. apply_mappings_lem os ms b known))
        (λ _.
          bind (find_subdir_lem os a id k) (λ b t g known. apply_mappings_lem os (m ∷ ms) b known))

  pub destroy_sandbox_lem :
      (id : Bytes) {s : State W} → IsNode a s → Post Anything (destroy_sandbox os a id) s
  unfolding destroy_sandbox
  destroy_sandbox_lem id k = bind (unmap_subdir_lem a id k) (λ is t g _.
      set_nodes_lem (forget_all is) (λ i b e. inl (forget_all-eq-some is t.nodes i b e)))
