-- ===== src/Nodes/Valid/Dir.antt =====
-- The operations of directories on their entries keep the memory valid.
use sandboxfs_rust.Base.{ℕ, Bytes, refl, nat_eq, list_eq}
use sandboxfs_rust.Base.Assoc.{get, insert, remove}
use sandboxfs_rust.Path.{FilePath, join_name}
use sandboxfs_rust.Conv.{attr_fs_to_fuse}
use sandboxfs_rust.Errors.{from_errno, kernel_of_io}
use sandboxfs_rust.Errors.Errno
use sandboxfs_rust.Os.{Os}
use sandboxfs_rust.State.{State, Dirent, Children, MutableDir, Node, dir, file, symlink, inode_of}
use sandboxfs_rust.State.Entries.{get-ChildrenKnown, insert-ChildrenKnown, remove-ChildrenKnown}
use sandboxfs_rust.State.Valid.{tag_of, Has, ChildrenKnown, Grows, Is-Grows}
use sandboxfs_rust.Monad.{M, pure, abort, unimplemented}
use sandboxfs_rust.Monad.Keeps.{
  Post, Anything, Post-pure, Post-raise, Post-abort, Post-mono, Post-option, bind, raise_if_lem,
}
use sandboxfs_rust.Monad.Steps.{fetch_lem, rewrite_lem, invoke_lem}
use sandboxfs_rust.Nodes.Valid.{IsNode}
use sandboxfs_rust.Nodes.Valid.New.{get_or_create_lem}
use sandboxfs_rust.Nodes.Valid.Attrs.{getattr_lem}
use sandboxfs_rust.Nodes.Dir
use sandboxfs_rust.Nodes.Dir.{
  Dir, get_dir, set_children, get_writable_path, is_explicit, implicit, lookup_unknown,
  lookup_locked,
}

abbrev pub node_of : Dir → Node
node_of d = dir d.inode d.writable d.state

-- The first part of the result is the address of a node.
abbrev pub FirstIsNode : {W A : Type 0} → ℕ × A → State W → Type 0
FirstIsNode r s = IsNode r.0 s

module _ {W : Type 0} where
  pub Has-IsNode : {s : State W} {a : ℕ} {n : Node} → Has s a n → IsNode a s
  Has-IsNode {n} h = record { tag = tag_of n; there = h.there; passes = refl }

module _ {W E : Type 0} where
  as_dir_lem :
      (a : ℕ) (n : Node) {s : State W}
      → Has s a n
      → Post {E = E} {A = Dir}
          (λ d t. Has t a (node_of d))
          (elim n as (λ _. M W E Dir) [
            | dir i w st ↦ pure (record { inode = i; writable = w; state = st })
            | file _ _ _ ↦ abort unimplemented
            | symlink _ _ _ ↦ abort unimplemented
          ])
          s
  as_dir_lem a (dir i w st) h = Post-pure (record { inode = i; writable = w; state = st }) h
  as_dir_lem a (file i w st) h = Post-abort unimplemented tt
  as_dir_lem a (symlink i w st) h = Post-abort unimplemented tt

  pub get_dir_lem :
      (a : ℕ) {s : State W} → IsNode a s → Post {E = E} (λ d t. Has t a (node_of d)) (get_dir a) s
  unfolding get_dir
  get_dir_lem a k = bind (fetch_lem a k) (λ n t g (h, _). as_dir_lem a n h)

  pub set_children_lem :
      (a : ℕ) (f : Children → Children) {s : State W}
      → IsNode a s
      → ((t : State W) (cs : Children) → Grows s t → ChildrenKnown t cs → ChildrenKnown t (f cs))
      → Post {E = E} Anything (set_children a f) s
  unfolding set_children
  set_children_lem a f k keeps = bind (get_dir_lem a k) (λ d t g h.
      Post-mono (λ _ _ _. tt)
        (rewrite_lem a (node_of d)
          (dir d.inode d.writable (record d.state { children = f d.state.children })) h refl
          (keeps t d.state.children g h.below)))

  pub insert_child_lem :
      (a : ℕ) (name : Bytes) (d : Dirent) {s : State W}
      → IsNode a s
      → IsNode d.node s
      → Post {E = E} Anything (set_children a (insert name d)) s
  insert_child_lem a name d k child =
      set_children_lem a (insert name d) k
        (λ t cs g known. insert-ChildrenKnown t name d cs (Is-Grows g child) known)

  pub remove_child_lem :
      (a : ℕ) (name : Bytes) {s : State W}
      → IsNode a s
      → Post {E = E} Anything (set_children a (remove name)) s
  remove_child_lem a name k =
      set_children_lem a (remove name) k (λ t cs g known. remove-ChildrenKnown t name cs known)

module _ {W : Type 0} where
  pub get_writable_path_lem :
      (st : MutableDir) (name : Bytes) {s : State W} → Post Anything (get_writable_path st name) s
  unfolding get_writable_path
  get_writable_path_lem st name =
      Post-option st.underlying_path (λ _. Post-raise (from_errno Errno.eperm))
        (λ path _.
          bind (raise_if_lem (is_explicit (get name st.children)) (from_errno Errno.eperm))
            (λ _ _ _ _. Post-pure (join_name path name) tt))

module _ {W : Type 0} (os : Os W) where
  lookup_unknown_lem :
      (a : ℕ) (d : Dir) (name : Bytes) (path : FilePath) {s : State W}
      → IsNode a s
      → Post FirstIsNode (lookup_unknown os a d name path) s
  unfolding lookup_unknown
  lookup_unknown_lem a d name path k =
      bind (invoke_lem (kernel_of_io os.from_i32) (os.symlink_metadata path)) (λ fs_attr t g _.
        bind (get_or_create_lem path fs_attr d.writable) (λ node t1 g1 known.
          bind (fetch_lem node known) (λ n t2 g2 _.
            bind (getattr_lem os node (Is-Grows g2 known)) (λ old t3 g3 _.
              let known' = Is-Grows g3 (Is-Grows g2 known) in
              bind
                (insert_child_lem a name (implicit node)
                  (Is-Grows g3 (Is-Grows g2 (Is-Grows g1 (Is-Grows g k)))) known')
                (λ _ t4 g4 _.
                  Post-pure (node, attr_fs_to_fuse (inode_of n) old.nlink fs_attr)
                    (Is-Grows g4 known'))))))

  pub lookup_locked_lem :
      (a : ℕ) (d : Dir) (name : Bytes) {s : State W}
      → Has s a (node_of d)
      → Post FirstIsNode (lookup_locked os a d name) s
  unfolding lookup_locked
  lookup_locked_lem a d name {s} h =
      Post-option (get name d.state.children)
        (λ _.
          Post-option d.state.underlying_path (λ _. Post-raise (from_errno Errno.enoent))
            (λ path _. lookup_unknown_lem a d name (join_name path name) (Has-IsNode h)))
        (λ dirent found.
          let known = get-ChildrenKnown s name d.state.children dirent h.below found in
          bind (getattr_lem os dirent.node known)
            (λ attr t g _. Post-pure (dirent.node, attr) (Is-Grows g known)))

  pub lookup_lem :
      (a : ℕ) (name : Bytes) {s : State W} → IsNode a s → Post FirstIsNode (Dir.lookup os a name) s
  unfolding Dir.lookup
  lookup_lem a name k = bind (get_dir_lem a k) (λ d t g h. lookup_locked_lem a d name h)
