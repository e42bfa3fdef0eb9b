-- ===== src/Nodes/Attrs/Typed.antt =====
-- The attributes that a node answers with are those of a file of its type (`getattr` of src/nodes).
use mathlib.Core.Path.{subst}
use sandboxfs_rust.Base.{
  ℕ, not, Bool, true, false, some, ◌≡◌, refl, ap, sym, ◌∙◌, arith, eq_refl, nat_eq,
}
use sandboxfs_rust.Path.{FilePath}
use sandboxfs_rust.Attr.{FileAttr, Metadata, fs_is_dir, fs_is_symlink, is_dir, is_symlink}
use sandboxfs_rust.Conv.{attr_fs_to_fuse}
use sandboxfs_rust.Conv.Laws.{attr_fs_to_fuse_bounds, attr_fs_to_fuse-kind}
use sandboxfs_rust.Errors.{from_errno, kernel_of_io}
use sandboxfs_rust.Errors.Errno
use sandboxfs_rust.Os.{Os}
use sandboxfs_rust.State.{State, Node, dir, file, symlink, inode_of}
use sandboxfs_rust.State.Valid.{IsValid, Has, Has-Grows}
use sandboxfs_rust.Monad.{ok, store}
use sandboxfs_rust.Monad.Keeps.{Post, Post-option, Post-pure, Post-mono, bind}
use sandboxfs_rust.Monad.Steps.{invoke_lem}
use sandboxfs_rust.Monad.Extending.{after_fetch, after_raise_if, with_state, Post-ok}
use sandboxfs_rust.Nodes.Attrs.{path_of, attr_of, with_attr, supports, getattr_locked, getattr}
use sandboxfs_rust.Nodes.Valid.{IsNode}
use sandboxfs_rust.Nodes.Valid.Attrs.{store_attr_lem}

abbrev is_dir_node : Node → Bool
is_dir_node (dir _ _ _) = true
is_dir_node (file _ _ _) = false
is_dir_node (symlink _ _ _) = false

abbrev is_symlink_node : Node → Bool
is_symlink_node (dir _ _ _) = false
is_symlink_node (file _ _ _) = false
is_symlink_node (symlink _ _ _) = true

-- Attributes of a file of the type of the node, with the node's inode and number of links.
pub record IsTyped (n : Node) (attr : FileAttr) : Type 0 where
  pub inode : attr.ino ≡ inode_of n
  pub links : attr.nlink ≡ (attr_of n).nlink
  pub directory : is_dir attr.kind ≡ is_dir_node n
  pub link : is_symlink attr.kind ≡ is_symlink_node n

supports-IsTyped :
    (n : Node) (m : Metadata)
    → not (supports n m.file_type) ≡ false
    → IsTyped n (attr_fs_to_fuse (inode_of n) (attr_of n).nlink m)
supports-IsTyped n m fits =
    let (ino, links, _, _, _, _) = attr_fs_to_fuse_bounds (inode_of n) (attr_of n).nlink m in
    let (d, l) = attr_fs_to_fuse-kind (inode_of n) (attr_of n).nlink m in
    record {
      inode = ino;
      links = links;
      directory = d ∙ is_dir_of n fits;
      link = l ∙ is_link_of n fits;
    }
  where
    is_dir_of :
        (n : Node) → not (supports n m.file_type) ≡ false → fs_is_dir m.file_type ≡ is_dir_node n
    is_dir_of (dir i w st) fits = ground arith
    is_dir_of (file i w st) fits = ground arith
    is_dir_of (symlink i w st) fits = ground arith

    is_link_of :
        (n : Node)
        → not (supports n m.file_type) ≡ false
        → fs_is_symlink m.file_type ≡ is_symlink_node n
    is_link_of (dir i w st) fits = ground arith
    is_link_of (file i w st) fits = ground arith
    is_link_of (symlink i w st) fits = ground arith

module _ {W : Type 0} (os : Os W) where
  getattr_locked-IsTyped :
      (a : ℕ) (n : Node) (path : FilePath) {s : State W}
      → Has s a n
      → path_of n ≡ some path
      → Post
          (λ attr t. (t.arena a ≡ some (with_attr n attr)) × IsTyped n attr)
          (getattr_locked os a n)
          s
  unfolding getattr_locked store
  getattr_locked-IsTyped a n path h mapped =
      Post-option (path_of n) (λ missing. absurd (ground arith))
        (λ p _. bind (invoke_lem (kernel_of_io os.from_i32) (os.symlink_metadata p)) (λ m t g _.
          after_raise_if (not (supports n m.file_type)) (from_errno Errno.eio) (λ fits.
            let attr = attr_fs_to_fuse (inode_of n) (attr_of n).nlink m in
            bind
              (with_state {B = λ u. u.arena a ≡ some (with_attr n attr)} (rw (eq_refl a) refl)
                (store_attr_lem a n attr (Has-Grows g h)))
              (λ _ u _ r. Post-pure attr (r.0, supports-IsTyped n m fits)))))

  getattr-Post :
      (a : ℕ) (n : Node) (path : FilePath) {s : State W}
      → IsNode a s
      → s.arena a ≡ some n
      → path_of n ≡ some path
      → Post (λ attr t. (t.arena a ≡ some (with_attr n attr)) × IsTyped n attr) (getattr os a) s
  unfolding getattr
  getattr-Post a n path {s} k there mapped = after_fetch a k (λ n' there' h _.
      let same : n ≡ n' = ground arith in
      Post-mono
        (λ attr t r.
          subst (λ x. (t.arena a ≡ some (with_attr x attr)) × IsTyped x attr) (sym same) r)
        (getattr_locked-IsTyped a n' path h (ap path_of (sym same) ∙ mapped)))

  -- In a valid memory, a node with a path on disk that tells its attributes tells those of a file
  -- of its own type: of a directory exactly when the node is one, and of a symlink exactly when it
  -- is one. They have the node's inode and its number of links, and the node remembers them.
  pub getattr-IsTyped :
      (a : ℕ) (n : Node) (path : FilePath) (s t : State W) (attr : FileAttr)
      → IsValid s
      → IsNode a s
      → s.arena a ≡ some n
      → path_of n ≡ some path
      → getattr os a s ≡ (ok attr, t)
      → (t.arena a ≡ some (with_attr n attr)) × IsTyped n attr
  getattr-IsTyped a n path s t attr v k there mapped =
      Post-ok (getattr-Post a n path k there mapped) v
