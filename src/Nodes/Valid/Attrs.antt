-- ===== src/Nodes/Valid/Attrs.antt =====
-- The operations on the attributes of nodes keep the memory valid.
use sandboxfs_rust.Base.{ℕ, not, none, some, Bytes, ◌≡◌, refl, is_some}
use sandboxfs_rust.Path.{FilePath}
use sandboxfs_rust.Attr.{FileAttr}
use sandboxfs_rust.Conv.{attr_fs_to_fuse}
use sandboxfs_rust.Errors.{KernelError, from_errno, kernel_of_io, kernel_of_nix}
use sandboxfs_rust.Errors.Errno
use sandboxfs_rust.Os.{Os}
use sandboxfs_rust.State.{State, Node, dir, file, symlink, inode_of}
use sandboxfs_rust.State.Valid.{tag_of, Has, Has-Grows, ChildrenKnown, children_of}
use sandboxfs_rust.Monad.{M, ◌>>=◌, store, expect, io, abort, unimplemented, deleted_symlink}
use sandboxfs_rust.Monad.Keeps.{
  Post, Anything, Post-pure, Post-raise, Post-abort, Post-mono, Post-option, bind, assert_lem,
  raise_if_lem, expect_lem,
}
use sandboxfs_rust.Monad.Steps.{fetch_lem, rewrite_lem, invoke_lem}
use sandboxfs_rust.Nodes.Valid.{IsNode}
use sandboxfs_rust.Nodes.Setattr.{AttrDelta, setattr}
use sandboxfs_rust.Nodes.Attrs
use sandboxfs_rust.Nodes.Attrs.{
  path_of, attr_of, with_attr, supports, getattr_locked, set_attributes, assert_symlink_path,
}

tag_of-with_attr : (n : Node) (attr : FileAttr) → tag_of (with_attr n attr) ≡ tag_of n
tag_of-with_attr (dir i w st) attr = refl
tag_of-with_attr (file i w st) attr = refl
tag_of-with_attr (symlink i w st) attr = refl

with_attr-ChildrenKnown :
    {W : Type 0} (s : State W) (n : Node) (attr : FileAttr)
    → ChildrenKnown s (children_of n)
    → ChildrenKnown s (children_of (with_attr n attr))
with_attr-ChildrenKnown s (dir i w st) attr k = k
with_attr-ChildrenKnown s (file i w st) attr k = tt
with_attr-ChildrenKnown s (symlink i w st) attr k = tt

-- New attributes for a node.
pub store_attr_lem :
    {W E : Type 0} (a : ℕ) (n : Node) (attr : FileAttr) {s : State W}
    → Has s a n
    → Post {E = E} Anything (store a (with_attr n attr)) s
store_attr_lem a n attr {s} h =
    Post-mono (λ _ _ _. tt)
      (rewrite_lem a n (with_attr n attr) h (tag_of-with_attr n attr)
        (with_attr-ChildrenKnown s n attr h.below))

module _ {W : Type 0} (os : Os W) where
  getattr_locked_lem :
      (a : ℕ) (n : Node) {s : State W} → Has s a n → Post Anything (getattr_locked os a n) s
  unfolding getattr_locked
  getattr_locked_lem a n h =
      Post-option (path_of n) (λ _. Post-pure (attr_of n) tt)
        (λ path _.
          bind (invoke_lem (kernel_of_io os.from_i32) (os.symlink_metadata path)) (λ fs_attr t g _.
            bind (raise_if_lem (not (supports n fs_attr.file_type)) (from_errno Errno.eio))
              (λ _ t1 g1 _.
                bind
                  (store_attr_lem a n (attr_fs_to_fuse (inode_of n) (attr_of n).nlink fs_attr)
                    (Has-Grows g1 (Has-Grows g h)))
                  (λ _ _ _ _.
                    Post-pure (attr_fs_to_fuse (inode_of n) (attr_of n).nlink fs_attr) tt))))

  pub getattr_lem : (a : ℕ) {s : State W} → IsNode a s → Post Anything (Attrs.getattr os a) s
  unfolding Attrs.getattr
  getattr_lem a k = bind (fetch_lem a k) (λ n t g (h, _). getattr_locked_lem a n h)

  pub set_attributes_lem :
      (a : ℕ) (delta : AttrDelta) {s : State W}
      → IsNode a s
      → Post Anything (set_attributes os a delta) s
  unfolding set_attributes
  set_attributes_lem a delta k = bind (fetch_lem a k) (λ n t g (h, _).
      bind (invoke_lem kernel_of_nix (setattr os (path_of n) (attr_of n) delta)) (λ attr t1 g1 _.
        bind (store_attr_lem a n attr (Has-Grows g1 h)) (λ _ _ _ _. Post-pure attr tt)))

  assert_symlink_path_lem : (n : Node) {s : State W} → Post Anything (assert_symlink_path os n) s
  assert_symlink_path_lem (dir i w st) = Post-pure tt tt
  assert_symlink_path_lem (file i w st) = Post-pure tt tt
  assert_symlink_path_lem (symlink i w st) =
      Post-mono (λ _ _ _. tt) (assert_lem (is_some st.underlying_path) deleted_symlink (λ _. tt))

  -- The extended attributes and `readlink` ask the system only.
  pub getxattr_lem :
      (a : ℕ) (name : Bytes) {s : State W} → IsNode a s → Post Anything (Attrs.getxattr os a name) s
  unfolding Attrs.getxattr
  getxattr_lem a name k = bind (fetch_lem a k) (λ n t g _.
      bind (assert_symlink_path_lem n) (λ _ _ _ _.
        Post-option (path_of n) (λ _. Post-pure none tt)
          (λ path _. invoke_lem (kernel_of_io os.from_i32) (os.xattr_get path name))))

  pub listxattr_lem : (a : ℕ) {s : State W} → IsNode a s → Post Anything (Attrs.listxattr os a) s
  unfolding Attrs.listxattr
  listxattr_lem a k = bind (fetch_lem a k) (λ n t g _. bind (assert_symlink_path_lem n) (λ _ _ _ _.
      Post-option (path_of n) (λ _. Post-pure none tt)
        (λ path _.
          bind (invoke_lem (kernel_of_io os.from_i32) (os.xattr_list path))
            (λ names _ _ _. Post-pure (some names) tt))))

  pub removexattr_lem :
      (a : ℕ) (name : Bytes) {s : State W}
      → IsNode a s
      → Post Anything (Attrs.removexattr os a name) s
  unfolding Attrs.removexattr
  removexattr_lem a name k = bind (fetch_lem a k) (λ n t g _.
      bind (assert_symlink_path_lem n) (λ _ _ _ _.
        Post-option (path_of n) (λ _. Post-raise (from_errno Errno.eacces))
          (λ path _. invoke_lem (kernel_of_io os.from_i32) (os.xattr_remove path name))))

  pub setxattr_lem :
      (a : ℕ) (name value : Bytes) {s : State W}
      → IsNode a s
      → Post Anything (Attrs.setxattr os a name value) s
  unfolding Attrs.setxattr
  setxattr_lem a name value k = bind (fetch_lem a k) (λ n t g _.
      bind (assert_symlink_path_lem n) (λ _ _ _ _.
        Post-option (path_of n) (λ _. Post-raise (from_errno Errno.eacces))
          (λ path _. invoke_lem (kernel_of_io os.from_i32) (os.xattr_set path name value))))

  readlink_node_lem :
      (n : Node) {s : State W}
      → Post {E = KernelError} {A = FilePath} Anything
          (elim n as (λ _. M W KernelError FilePath) [
            | dir _ _ _ ↦ abort unimplemented
            | file _ _ _ ↦ abort unimplemented
            | symlink _ _ st ↦ do
              path ← expect st.underlying_path deleted_symlink
              io os (os.read_link path)
          ])
          s
  readlink_node_lem (dir i w st) = Post-abort unimplemented tt
  readlink_node_lem (file i w st) = Post-abort unimplemented tt
  readlink_node_lem (symlink i w st) =
      bind (expect_lem st.underlying_path deleted_symlink tt)
        (λ path _ _ _. invoke_lem (kernel_of_io os.from_i32) (os.read_link path))

  pub readlink_lem : (a : ℕ) {s : State W} → IsNode a s → Post Anything (Attrs.readlink os a) s
  unfolding Attrs.readlink
  readlink_lem a k = bind (fetch_lem a k) (λ n t g _. readlink_node_lem n)
