-- ===== src/Nodes/Valid/Paths.antt =====
-- Removing and renaming nodes, and the operations on attributes, keep the memory valid.
use sandboxfs_rust.Base.{ℕ, zero, suc, none, some, [], ◌∷◌, ◌≡◌, refl, leb}
use sandboxfs_rust.Path.{FilePath, join_name}
use sandboxfs_rust.Attr.{FileAttr}
use sandboxfs_rust.Os.{Os}
use sandboxfs_rust.State.{State, Children, Node, dir, file, symlink}
use sandboxfs_rust.State.Valid.{
  tag_of, Has, ChildrenKnown, Is-Grows, Has-Grows, ChildrenKnown-Grows, children_of,
}
use sandboxfs_rust.Monad.{
  M, store, debug_assert, deleted_twice, renamed_deleted_node, link_count, out_of_fuel,
}
use sandboxfs_rust.Monad.Keeps.{
  Post, Anything, Post-pure, Post-abort, Post-mono, bind, gets_lem, debug_assert_lem, expect_lem,
}
use sandboxfs_rust.Monad.Steps.{fetch_lem, rewrite_lem}
use sandboxfs_rust.Nodes.Valid.{IsNode, cache_delete_lem, cache_rename_lem}
use sandboxfs_rust.Nodes.Paths.{
  sub_links, delete_node, delete, rename_children, rename_node, rename_walk, set_underlying_path,
}

module _ {W E : Type 0} (os : Os W) where
  write_lem :
      (a : ℕ) (n n' : Node) {s : State W}
      → Has s a n
      → tag_of n' ≡ tag_of n
      → ChildrenKnown s (children_of n')
      → Post {E = E} Anything (store a n') s
  write_lem a n n' h same below = Post-mono (λ _ _ _. tt) (rewrite_lem a n n' h same below)

  links_lem :
      (k : ℕ) (attr : FileAttr) {s : State W}
      → Post {E = E} (λ _ t. t ≡ s) (debug_assert os (leb k attr.nlink) link_count) s
  links_lem k attr = debug_assert_lem os (leb k attr.nlink) link_count tt

  delete_node_lem :
      (a : ℕ) (n : Node) {s : State W} → Has s a n → Post {E = E} Anything (delete_node os a n) s
  unfolding delete_node
  delete_node_lem a (dir i w st) h =
      bind (expect_lem st.underlying_path deleted_twice tt) (λ path t g _.
        bind (cache_delete_lem os path st.attr.kind) (λ _ t1 g1 _.
          bind (links_lem 2 st.attr) (λ _ t2 g2 _.
            let h' = Has-Grows g2 (Has-Grows g1 (Has-Grows g h)) in
            write_lem a (dir i w st)
              (dir i w (record st { underlying_path = none; attr = sub_links 2 st.attr })) h' refl
              h'.below)))
  delete_node_lem a (file i w st) h =
      bind (expect_lem st.underlying_path deleted_twice tt) (λ path t g _.
        bind (cache_delete_lem os path st.attr.kind) (λ _ t1 g1 _.
          bind (links_lem 1 st.attr) (λ _ t2 g2 _.
            let h' = Has-Grows g2 (Has-Grows g1 (Has-Grows g h)) in
            write_lem a (file i w st)
              (file i w (record st { underlying_path = none; attr = sub_links 1 st.attr })) h' refl
              tt)))
  delete_node_lem a (symlink i w st) h =
      bind (expect_lem st.underlying_path deleted_twice tt) (λ path t g _.
        bind (cache_delete_lem os path st.attr.kind) (λ _ t1 g1 _.
          write_lem a (symlink i w st) (symlink i w (record st { underlying_path = none }))
            (Has-Grows g1 (Has-Grows g h)) refl tt))

  pub delete_lem : (a : ℕ) {s : State W} → IsNode a s → Post {E = E} Anything (delete os a) s
  unfolding delete
  delete_lem a k = bind (fetch_lem a k) (λ n t g (h, _). delete_node_lem a n h)

  rename_children_lem :
      (rec : ℕ → FilePath → M W E (Unit {0}))
      → ((a : ℕ) (p : FilePath) (s : State W) → IsNode a s → Post Anything (rec a p) s)
      → (path : FilePath) (cs : Children) {s : State W} → ChildrenKnown s cs
      → Post Anything (rename_children os rec path cs) s
  unfolding rename_children
  rename_children_lem rec keeps path [] k = Post-pure tt tt
  rename_children_lem rec keeps path ((name, d) ∷ rest) {s} k =
      bind (keeps d.node (join_name path name) s k.0)
        (λ _ t g _. rename_children_lem rec keeps path rest (ChildrenKnown-Grows g rest k.1))

  rename_node_lem :
      (rec : ℕ → FilePath → M W E (Unit {0}))
      → ((a : ℕ) (p : FilePath) (s : State W) → IsNode a s → Post Anything (rec a p) s)
      → (a : ℕ) (path : FilePath) (n : Node) {s : State W} → Has s a n
      → Post Anything (rename_node os rec a path n) s
  unfolding rename_node
  rename_node_lem rec keeps a path (dir i w st) h =
      bind (expect_lem st.underlying_path renamed_deleted_node tt) (λ old t g _.
        bind (cache_rename_lem os old path st.attr.kind) (λ _ t1 g1 _.
          let h' = Has-Grows g1 (Has-Grows g h) in
          bind
            (write_lem a (dir i w st) (dir i w (record st { underlying_path = some path })) h' refl
              h'.below)
            (λ _ t2 g2 _.
              rename_children_lem rec keeps path st.children
                (ChildrenKnown-Grows g2 st.children h'.below))))
  rename_node_lem rec keeps a path (file i w st) h =
      bind (expect_lem st.underlying_path renamed_deleted_node tt) (λ old t g _.
        bind (cache_rename_lem os old path st.attr.kind) (λ _ t1 g1 _.
          write_lem a (file i w st) (file i w (record st { underlying_path = some path }))
            (Has-Grows g1 (Has-Grows g h)) refl tt))
  rename_node_lem rec keeps a path (symlink i w st) h =
      bind (expect_lem st.underlying_path renamed_deleted_node tt) (λ old t g _.
        bind (cache_rename_lem os old path st.attr.kind) (λ _ t1 g1 _.
          bind (links_lem 1 st.attr) (λ _ t2 g2 _.
            write_lem a (symlink i w st)
              (symlink i w (record st { underlying_path = some path; attr = sub_links 1 st.attr }))
              (Has-Grows g2 (Has-Grows g1 (Has-Grows g h))) refl tt)))

  rename_walk_lem :
      (fuel a : ℕ) (path : FilePath) (s : State W)
      → IsNode a s
      → Post {E = E} Anything (rename_walk os fuel a path) s
  unfolding rename_walk
  rename_walk_lem zero a path s k = Post-abort out_of_fuel tt
  rename_walk_lem (suc fuel) a path s k =
      bind (fetch_lem a k)
        (λ n t g (h, _). rename_node_lem (rename_walk os fuel) (rename_walk_lem fuel) a path n h)

  pub set_underlying_path_lem :
      (a : ℕ) (path : FilePath) {s : State W}
      → IsNode a s
      → Post {E = E} Anything (set_underlying_path os a path) s
  unfolding set_underlying_path
  set_underlying_path_lem a path k =
      bind (gets_lem (λ s. s.last_id))
        (λ fuel t g _. rename_walk_lem (suc fuel) a path t (Is-Grows g k))
