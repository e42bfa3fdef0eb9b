-- ===== src/Nodes/Attrs.antt =====
-- The operations of `Node` on attributes: `file_type_cached`, `getattr`, `setattr` and the extended
-- attributes, for each type of node (src/nodes/dir.rs, file.rs and symlink.rs).
pub mod Typed
use sandboxfs_rust.Base.{ℕ, Bool, not, Option, none, some, List, Bytes, is_some}
use sandboxfs_rust.Path.{FilePath}
use sandboxfs_rust.Errors.{KernelError, from_errno}
use sandboxfs_rust.Errors.Errno
use sandboxfs_rust.Attr.{FileType, FsType, FileAttr, fs_is_dir, fs_is_symlink}
use sandboxfs_rust.Conv.{attr_fs_to_fuse}
use sandboxfs_rust.Os.{Os}
use sandboxfs_rust.State.{Node, dir, file, symlink, inode_of}
use sandboxfs_rust.Monad.{
  M, ◌>>=◌, ◌>>◌, pure, raise, abort, expect, assert, raise_if, fetch, store, io, nix,
  deleted_symlink, unimplemented,
}
use sandboxfs_rust.Nodes.New.{supports_type}
use sandboxfs_rust.Nodes.Setattr.{AttrDelta, setattr}

-- `Node::file_type_cached`
abbrev pub file_type_of : Node → FileType
file_type_of (dir _ _ _) = FileType.directory
file_type_of (file _ _ st) = st.attr.kind
file_type_of (symlink _ _ _) = FileType.symlink

abbrev pub path_of : Node → Option FilePath
path_of (dir _ _ st) = st.underlying_path
path_of (file _ _ st) = st.underlying_path
path_of (symlink _ _ st) = st.underlying_path

abbrev pub attr_of : Node → FileAttr
attr_of (dir _ _ st) = st.attr
attr_of (file _ _ st) = st.attr
attr_of (symlink _ _ st) = st.attr

abbrev pub with_attr : Node → FileAttr → Node
with_attr (dir i w st) a = dir i w (record st { attr = a })
with_attr (file i w st) a = file i w (record st { attr = a })
with_attr (symlink i w st) a = symlink i w (record st { attr = a })

-- The types that the path behind a node may have: the test of `getattr_locked`.
abbrev pub supports : Node → FsType → Bool
supports (dir _ _ _) = fs_is_dir
supports (file _ _ _) = supports_type
supports (symlink _ _ _) = fs_is_symlink

module _ {W : Type 0} (os : Os W) where
  -- `getattr_locked` of the three types, with the node at its address.
  unfoldable pub getattr_locked : ℕ → Node → M W KernelError FileAttr
  unfolding store
  getattr_locked a n = elim (path_of n) [
    | none ↦ pure (attr_of n)
    | some path ↦ do
      fs_attr ← io os (os.symlink_metadata path)
      raise_if (not (supports n fs_attr.file_type)) (from_errno Errno.eio)
      let attr = attr_fs_to_fuse (inode_of n) (attr_of n).nlink fs_attr
      store a (with_attr n attr)
      pure attr
  ]

  -- `Node::getattr`
  unfoldable pub getattr : ℕ → M W KernelError FileAttr
  unfolding fetch getattr_locked
  getattr a = do n ← fetch a; getattr_locked a n

  -- `Node::setattr`: the attributes of the node change only if the whole call succeeds.
  unfoldable pub set_attributes : ℕ → AttrDelta → M W KernelError FileAttr
  unfolding fetch store
  set_attributes a delta = do
    n ← fetch a
    attr ← nix os (setattr os (path_of n) (attr_of n) delta)
    store a (with_attr n attr)
    pure attr

  -- A symlink asserts that it has a path; the other types answer without one.
  abbrev pub assert_symlink_path : Node → M W KernelError (Unit {0})
  assert_symlink_path (symlink _ _ st) = assert (is_some st.underlying_path) deleted_symlink
  assert_symlink_path (dir _ _ _) = pure tt
  assert_symlink_path (file _ _ _) = pure tt

  unfoldable pub getxattr : ℕ → Bytes → M W KernelError (Option Bytes)
  unfolding fetch
  getxattr a name = do
    n ← fetch a
    assert_symlink_path n
    elim (path_of n) [ none ↦ pure none | some path ↦ io os (os.xattr_get path name) ]

  unfoldable pub listxattr : ℕ → M W KernelError (Option (List Bytes))
  unfolding fetch
  listxattr a = do
    n ← fetch a
    assert_symlink_path n
    elim (path_of n) [
      | none ↦ pure none
      | some path ↦ do xattrs ← io os (os.xattr_list path); pure (some xattrs)
    ]

  unfoldable pub removexattr : ℕ → Bytes → M W KernelError (Unit {0})
  unfolding fetch
  removexattr a name = do
    n ← fetch a
    assert_symlink_path n
    elim (path_of n) [
      | none ↦ raise (from_errno Errno.eacces)
      | some path ↦ io os (os.xattr_remove path name)
    ]

  unfoldable pub setxattr : ℕ → Bytes → Bytes → M W KernelError (Unit {0})
  unfolding fetch
  setxattr a name value = do
    n ← fetch a
    assert_symlink_path n
    elim (path_of n) [
      | none ↦ raise (from_errno Errno.eacces)
      | some path ↦ io os (os.xattr_set path name value)
    ]

  -- `Symlink::readlink`; the other types leave the default, which panics.
  unfoldable pub readlink : ℕ → M W KernelError FilePath
  unfolding fetch
  readlink a = do
    n ← fetch a
    elim n [
      | dir _ _ _ ↦ abort unimplemented
      | file _ _ _ ↦ abort unimplemented
      | symlink _ _ st ↦ do
        path ← expect st.underlying_path deleted_symlink
        io os (os.read_link path)
    ]
