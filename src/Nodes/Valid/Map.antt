-- ===== src/Nodes/Valid/Map.antt =====
-- Mapping and unmapping keep the memory valid.
use sandboxfs_rust.Base.{
  ℕ, zero, suc, Bool, not, Option, none, List, [], ◌∷◌, ◌++◌, Bytes, nat_eq, list_eq,
}
use sandboxfs_rust.Base.Assoc.{get}
use sandboxfs_rust.Path.{FilePath, Component}
use sandboxfs_rust.Errors.{failure, not_a_mapping, unknown_entry, entry_is_not_a_mapping}
use sandboxfs_rust.Os.{Os}
use sandboxfs_rust.State.{State, Children, Node, dir, file, symlink}
use sandboxfs_rust.State.Entries.{get-ChildrenKnown}
use sandboxfs_rust.State.Valid.{Has, ChildrenKnown, Is-Grows, ChildrenKnown-Grows}
use sandboxfs_rust.Monad.{M, out_of_fuel}
use sandboxfs_rust.Monad.Keeps.{
  Post, Anything, Post-mono, Post-pure, Post-raise, Post-abort, Post-weaken, Post-if, Post-option,
  bind, gets_lem, raise_if_lem,
}
use sandboxfs_rust.Monad.Steps.{fetch_lem}
use sandboxfs_rust.Nodes.Dir.{Dir, explicit}
use sandboxfs_rust.Nodes.Map
use sandboxfs_rust.Nodes.Map.Found.{map-IsMapped}
use sandboxfs_rust.Nodes.Map.{
  new_scaffold_empty, new_scaffold_child, find_subdir, normal_name, map_child, unmap_children,
  unmap_node, unmap_walk, unmap, unmap_subdir,
}
use sandboxfs_rust.Nodes.Valid.{IsNode}
use sandboxfs_rust.Nodes.Valid.New.{IsOf-IsNode}
use sandboxfs_rust.Nodes.Valid.Grown.{new_scaffold_child-Extending}
use sandboxfs_rust.Nodes.Valid.Dir.{
  Has-IsNode, get_dir_lem, set_children_lem, insert_child_lem, remove_child_lem,
}

module _ {W : Type 0} (os : Os W) where
  new_scaffold_child_lem :
      (d : Dir) (path : Option FilePath) (name : Bytes) {s : State W}
      → Post IsNode (new_scaffold_child os d path name) s
  new_scaffold_child_lem d path name = Post-weaken (new_scaffold_child-Extending os d path name)

  pub find_subdir_lem :
      (a : ℕ) (name : Bytes) {s : State W} → IsNode a s → Post IsNode (find_subdir os a name) s
  unfolding find_subdir
  find_subdir_lem a name k = bind (get_dir_lem a k) (λ d t g h.
      Post-option (get name d.state.children)
        (λ _. bind (new_scaffold_child_lem d none name) (λ child t1 g1 known.
          bind (insert_child_lem a name (explicit child) (Is-Grows g1 (Is-Grows g k)) known)
            (λ _ t2 g2 _. Post-pure child (Is-Grows g2 known))))
        (λ dirent found.
          let known = get-ChildrenKnown t name d.state.children dirent h.below found in
          bind (raise_if_lem (not dirent.explicit_mapping) (failure not_a_mapping))
            (λ _ t1 g1 _. Post-pure dirent.node (Is-Grows g1 known))))

  pub map_lem :
      (a : ℕ) (cs : List Component) (path : FilePath) (writable : Bool) {s : State W}
      → IsNode a s
      → Post IsNode (Map.map os a cs path writable) s
  map_lem a cs path writable k =
      Post-mono (λ n t r. IsOf-IsNode r.mode) (map-IsMapped os path writable a cs k)

module _ {W E : Type 0} where
  unmap_children_lem :
      (rec : ℕ → List ℕ → M W E (List ℕ))
      → ((a : ℕ) (is : List ℕ) (s : State W) → IsNode a s → Post Anything (rec a is) s)
      → (cs : Children) (is : List ℕ) {s : State W} → ChildrenKnown s cs
      → Post Anything (unmap_children rec cs is) s
  unfolding unmap_children
  unmap_children_lem rec keeps [] is k = Post-pure is tt
  unmap_children_lem rec keeps ((name, d) ∷ rest) is {s} k =
      bind (keeps d.node is s k.0)
        (λ is' t g _. unmap_children_lem rec keeps rest is' (ChildrenKnown-Grows g rest k.1))

  unmap_node_lem :
      (rec : ℕ → List ℕ → M W E (List ℕ))
      → ((a : ℕ) (is : List ℕ) (s : State W) → IsNode a s → Post Anything (rec a is) s)
      → (a : ℕ) (is : List ℕ) (n : Node) {s : State W} → Has s a n
      → Post Anything (unmap_node rec a is n) s
  unfolding unmap_node
  unmap_node_lem rec keeps a is (dir i w st) h =
      bind (unmap_children_lem rec keeps st.children is h.below) (λ is' t g _.
        bind (set_children_lem a (λ _. []) (Is-Grows g (Has-IsNode h)) (λ _ _ _ _. tt))
          (λ _ _ _ _. Post-pure (is' ++ i ∷ []) tt))
  unmap_node_lem rec keeps a is (file i w st) h = Post-pure (is ++ i ∷ []) tt
  unmap_node_lem rec keeps a is (symlink i w st) h = Post-pure (is ++ i ∷ []) tt

  unmap_walk_lem :
      (fuel a : ℕ) (is : List ℕ) (s : State W)
      → IsNode a s
      → Post {E = E} Anything (unmap_walk fuel a is) s
  unfolding unmap_walk
  unmap_walk_lem zero a is s k = Post-abort out_of_fuel tt
  unmap_walk_lem (suc fuel) a is s k =
      bind (fetch_lem a k)
        (λ n t g (h, _). unmap_node_lem (unmap_walk fuel) (unmap_walk_lem fuel) a is n h)

  unmap_lem :
      (a : ℕ) (is : List ℕ) {s : State W} → IsNode a s → Post {E = E} Anything (unmap a is) s
  unfolding unmap
  unmap_lem a is k =
      bind (gets_lem (λ s. s.last_id))
        (λ fuel t g _. unmap_walk_lem (suc fuel) a is t (Is-Grows g k))

module _ {W : Type 0} where
  pub unmap_subdir_lem :
      (a : ℕ) (name : Bytes) {s : State W} → IsNode a s → Post Anything (unmap_subdir a name) s
  unfolding unmap_subdir
  unmap_subdir_lem a name k = bind (get_dir_lem a k) (λ d t g h.
      Post-option (get name d.state.children) (λ _. Post-raise (failure unknown_entry))
        (λ dirent found.
          let known = get-ChildrenKnown t name d.state.children dirent h.below found in
          bind (remove_child_lem a name (Is-Grows g k)) (λ _ t1 g1 _.
            Post-if dirent.explicit_mapping (λ _. unmap_lem dirent.node [] (Is-Grows g1 known))
              (λ _.
                bind
                  (insert_child_lem a name dirent (Is-Grows g1 (Is-Grows g k)) (Is-Grows g1 known))
                  (λ _ _ _ _. Post-raise (failure (entry_is_not_a_mapping name)))))))
