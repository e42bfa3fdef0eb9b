-- ===== src/Sandbox/Mounted.antt =====
-- What is in the tree once an instance has been created or reconfigured (src/lib.rs).
use mathlib.Core.Path.{subst}
use sandboxfs_rust.Base.{
  ℕ, not, none, some, List, [], ◌∷◌, Bytes, ◌≡◌, refl, sym, ap, ◌∙◌, arith, ◌==◌, nat_eq, list_eq,
  nat_beq_iff, if◌then◌else◌,
}
use sandboxfs_rust.Base.Assoc.{get}
use sandboxfs_rust.Path.{normal, root, path_eq, without_dots}
use sandboxfs_rust.Errors.{failure, not_a_mapping}
use sandboxfs_rust.Os.{Os}
use sandboxfs_rust.State.{State, Cache, inode_of}
use sandboxfs_rust.State.Entries.{get-ChildrenKnown}
use sandboxfs_rust.State.Valid.{IsValid, Is-Grows, Has-Grows}
use sandboxfs_rust.State.Walk.{
  child_at, entry_at-last, child_in, Extends, Extends-eq, Preserves, Preserves-trans,
  Extends-Preserves,
}
use sandboxfs_rust.Monad.{ok, wrong_root, update}
use sandboxfs_rust.Monad.Keeps.{
  Post, Post-pure, Post-if, Post-mono, Post-option, bind, with_valid, assert_lem, map_err_lem,
}
use sandboxfs_rust.Monad.Steps.{inode_of-Has, set_nodes_lem}
use sandboxfs_rust.Monad.Extending.{after_fetch, after_raise_if, with_state, with_growth, Post-ok}
use sandboxfs_rust.Nodes.Dir.{explicit}
use sandboxfs_rust.Nodes.Map.{find_subdir}
use sandboxfs_rust.Nodes.Valid.{IsNode}
use sandboxfs_rust.Nodes.Valid.Dir.{node_of}
use sandboxfs_rust.Nodes.Valid.Grown.{after_get_dir, insert_absent, new_scaffold_child-Extending}
use sandboxfs_rust.Mapping.{
  Mapping, split_abs_path, cannot_map_it, from_parts, is_root, create_root,
}
use sandboxfs_rust.Mapping.Found.{
  AreFound, IsFound, IsFound-Preserves, AreFound-Preserves, AreFound-below, apply_mapping-IsMapped,
  apply_mappings-AreFound,
}
use sandboxfs_rust.Sandbox.{fuse_root_id, initial, create_fs}
use sandboxfs_rust.Reconfig.{make_path}
use sandboxfs_rust.Reconfig.Inside.{IsName, make_path_inside}
use sandboxfs_rust.Mapping.Parts.{from_parts_iff}
use sandboxfs_rust.Nodes.Map.Found.{IsMapped}
use sandboxfs_rust.Nodes.Valid.New.{IsOf-IsNode}
use sandboxfs_rust.Sandbox.Reconfigure.{map_sandbox_root, create_sandbox}
use sandboxfs_rust.Sandbox.Creation.{
  new_root_mapped_lem, new_root_empty_lem, lift_failure_lem, lift_mapping_lem, make_path_runs,
  from_parts_panic,
}
use sandboxfs_rust.Sandbox.Valid.{update-IsNode}
use sandboxfs_rust.Sandbox.Reach.{IsEmpty, initial-IsValid}

-- The mappings that are not the root's: only the first may be that.
abbrev pub others_of : List Mapping → List Mapping
others_of [] = []
others_of (m ∷ ms) = if is_root m then ms else m ∷ ms

module _ {W : Type 0} (os : Os W) where
  create_root-AreFound :
      (ms : List Mapping) {s : State W}
      → Post (λ a t. IsNode a t × AreFound a [] (others_of ms) t) (create_root os ms) s
  unfolding create_root
  create_root-AreFound [] = Post-mono (λ a t k. (k, tt)) (new_root_empty_lem os)
  create_root-AreFound (m ∷ ms) =
      Post-if (is_root m)
        (λ yes. bind (new_root_mapped_lem os m) (λ a t g k.
          bind (apply_mappings-AreFound os ms a k)
            (λ _ u g1 r. Post-pure a (Is-Grows g1 k, rw yes r.1))))
        (λ no. bind (new_root_empty_lem os) (λ a t g k.
          bind (apply_mappings-AreFound os (m ∷ ms) a k)
            (λ _ u g1 r. Post-pure a (Is-Grows g1 k, rw no r.1))))

  create_fs-AreFound :
      (ms : List Mapping) {s : State W}
      → Post (λ _ t. AreFound fuse_root_id [] (others_of ms) t) (create_fs os ms) s
  unfolding create_fs
  create_fs-AreFound ms = bind (create_root-AreFound ms) (λ a t g (k, found).
      after_fetch a k (λ n there h _.
        bind (assert_lem (fuse_root_id == inode_of n) wrong_root (λ _. tt)) (λ _ u g1 (right, same).
          with_valid λ v.
            let own : inode_of n ≡ a = inode_of-Has u v a n (Has-Grows g1 h) in
            let here : fuse_root_id ≡ a = (nat_beq_iff fuse_root_id (inode_of n)).0 right ∙ own in
            with_growth
              (with_state {B = Extends u} (Extends-eq refl) (
                set_nodes_lem (λ ns. update ns (inode_of n) (some a))
                  (update-IsNode u (inode_of n) a own (Is-Grows g1 k))))
              (λ _ w g2 r.
                subst (λ x. AreFound x [] (others_of ms) w) (sym here)
                  (AreFound-Preserves (Extends-Preserves r.0) g2 a [] (others_of ms)
                    (subst (AreFound a [] (others_of ms)) (sym same) found))))))

  -- When an instance is created, each of its mappings but the root's is found in the tree at its
  -- path: an explicit mapping, with a node that is writable exactly when the mapping is.
  pub create_fs_found :
      (w : W) (c : Cache) (ms : List Mapping) (t : State W)
      → IsEmpty c
      → create_fs os ms (initial w c) ≡ (ok tt, t)
      → AreFound fuse_root_id [] (others_of ms) t
  create_fs_found w c ms t empty = Post-ok (create_fs-AreFound ms) (initial-IsValid w c empty)

  find_subdir-explicit :
      (a : ℕ) (name : Bytes) {s : State W}
      → IsNode a s
      → Post
          (λ b t. Preserves s t × (child_at t a name ≡ some (explicit b)) × IsNode b t)
          (find_subdir os a name)
          s
  unfolding find_subdir
  find_subdir-explicit a name {s} k = after_get_dir a k (λ d there h.
      Post-option (get name d.state.children)
        (λ missing. bind (new_scaffold_child-Extending os d none name) (λ child t g (more, known).
          let same : child_at t a name ≡ none =
            ap (λ o. child_in o name) (more.nodes a (node_of d) there) ∙ missing in
          bind (insert_absent a name (explicit child) (Is-Grows g k) known same) (λ _ u g' r.
            Post-pure child
              (Preserves-trans (Extends-Preserves more) r.0, r.1, Is-Grows g' known))))
        (λ dirent found.
          after_raise_if (not dirent.explicit_mapping) (failure not_a_mapping) (λ mapped.
            let is_explicit : dirent ≡ explicit dirent.node = ground arith in
            Post-pure dirent.node (
              record { entries = λ b other e h. h },
              ap (λ o. child_in o name) there ∙ found ∙ ap some is_explicit,
              get-ChildrenKnown s name d.state.children dirent h.below found,
            ))))

  -- A first mapping of the root of a sandbox takes the place of its top-level directory.
  map_sandbox_root-IsMapped :
      (a : ℕ) (id : Bytes) (m : Mapping) {s : State W}
      → IsNode a s
      → IsName id
      → m.path ≡ root
      → Post (IsMapped a (normal id ∷ []) m.writable s) (map_sandbox_root os a id m) s
  unfolding map_sandbox_root without_dots
  map_sandbox_root-IsMapped a id m {s} k name top =
      bind (lift_failure_lem os a (make_path id m.path) (make_path_runs id m.path))
        (λ path t g (made, same).
          bind
            (lift_mapping_lem os a (from_parts path m.underlying_path m.writable)
              (from_parts_panic path m.underlying_path m.writable))
            (λ m' t1 g1 (parsed, same1).
              let (_, _, _, parts) =
                (from_parts_iff path m.underlying_path m.writable m').0 parsed in
              let inside : path.components ≡ normal id ∷ [] =
                (make_path_inside id m.path path name made).2
                ∙ ap (λ p. normal id ∷ without_dots p.components) top in
              let there : split_abs_path m'.path ≡ normal id ∷ [] =
                ap (λ x. x.path.components) parts ∙ inside in
              Post-mono
                (λ n u r.
                  subst (λ cs. IsMapped a cs m.writable s n u) there
                    (subst (λ w. IsMapped a (split_abs_path m'.path) w s n u)
                      (ap (λ x. x.writable) parts)
                      (subst (λ x. IsMapped a (split_abs_path m'.path) m'.writable x n u)
                        (same1 ∙ same) r)))
                (map_err_lem (cannot_map_it m)
                  (apply_mapping-IsMapped os m' a (Is-Grows g1 (Is-Grows g k))))))

  create_sandbox-AreFound :
      (a : ℕ) (id : Bytes) (ms : List Mapping) {s : State W}
      → IsNode a s
      → IsName id
      → Post (λ _ t. Preserves s t × AreFound a (normal id ∷ []) ms t) (create_sandbox os a id ms) s
  unfolding create_sandbox
  create_sandbox-AreFound a id [] k name =
      bind (find_subdir-explicit a id k) (λ b t g r. Post-pure tt (r.0, tt))
  create_sandbox-AreFound a id (m ∷ ms) k name =
      Post-if (m.path == root)
        (λ yes.
          let top : m.path ≡ root = (path_eq.decides m.path root).0 yes in
          bind (map_sandbox_root-IsMapped a id m k name top) (λ b t g r.
            with_growth (apply_mappings-AreFound os ms b (IsOf-IsNode r.mode)) (λ _ u g1 q.
              let first : IsFound a (normal id ∷ split_abs_path m.path) m.writable t =
                subst (λ p. IsFound a (normal id ∷ p.components) m.writable t) (sym top)
                  (record { node = b; found = r.found; mode = r.mode }) in
              (
                Preserves-trans r.kept q.0,
                (
                  IsFound-Preserves q.0 g1 a (normal id ∷ split_abs_path m.path) m.writable first,
                  AreFound-below u a b id
                      (q.0.entries a id (explicit b) (entry_at-last t a id (explicit b) r.found)) ms
                      q.1,
                ),
              ))))
        (λ no. bind (find_subdir-explicit a id k) (λ b t g r.
          Post-mono
            (λ _ u q. (
              Preserves-trans r.0 q.0,
              AreFound-below u a b id (q.0.entries a id (explicit b) r.1) (m ∷ ms) q.1,
            ))
            (apply_mappings-AreFound os (m ∷ ms) b r.2)))

  -- In a valid memory, a sandbox that is created, under an identifier that is accepted and is not
  -- one or two dots, has each of its mappings at its path below the directory of that name: an
  -- explicit mapping, with a node that is writable exactly when the mapping is. Each entry that any
  -- directory had is still there as it was.
  pub create_sandbox_found :
      (a : ℕ) (id : Bytes) (ms : List Mapping) (s t : State W)
      → IsValid s
      → IsNode a s
      → IsName id
      → create_sandbox os a id ms s ≡ (ok tt, t)
      → Preserves s t × AreFound a (normal id ∷ []) ms t
  create_sandbox_found a id ms s t v k name = Post-ok (create_sandbox-AreFound a id ms k name) v
