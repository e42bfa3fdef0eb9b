-- ===== src/Nodes/Dir.antt =====
-- src/nodes/dir.rs: the operations of a directory on its entries. An operation takes the address
-- of the directory.
pub mod Create
pub mod Move
pub mod Guard
use sandboxfs_rust.Base.{ℕ, Bool, true, false, Option, none, some, Bytes, nat_eq, list_eq, list_beq}
use sandboxfs_rust.Base.Assoc.{get, insert, remove}
use sandboxfs_rust.Path.{FilePath, join_name}
use sandboxfs_rust.Errors.{KernelError, from_errno}
use sandboxfs_rust.Errors.Errno
use sandboxfs_rust.Attr.{FileAttr}
use sandboxfs_rust.Conv.{attr_fs_to_fuse}
use sandboxfs_rust.Os.{Os}
use sandboxfs_rust.State.{State, Dirent, Children, MutableDir, Node, dir, file, symlink, inode_of}
use sandboxfs_rust.Monad.{
  M, ◌>>=◌, ◌>>◌, pure, raise, abort, raise_if, fetch, store, io, unimplemented,
}
use sandboxfs_rust.Nodes.Cache.{get_or_create}
use sandboxfs_rust.Nodes.Attrs.{getattr}

-- A directory: its inode, whether it is writable, and its state.
pub record Dir : Type 0 where
  pub inode : ℕ
  pub writable : Bool
  pub state : MutableDir

module _ {W E : Type 0} where
  -- The directory at an address. On a node of another type the trait's default panics.
  unfoldable pub get_dir : ℕ → M W E Dir
  unfolding fetch
  get_dir a = do
    n ← fetch a
    elim n [
      | dir i w st ↦ pure (record { inode = i; writable = w; state = st })
      | file _ _ _ ↦ abort unimplemented
      | symlink _ _ _ ↦ abort unimplemented
    ]

  unfoldable pub set_children : ℕ → (Children → Children) → M W E (Unit {0})
  unfolding get_dir store
  set_children a f = do
    d ← get_dir a
    store a (dir d.inode d.writable (record d.state { children = f d.state.children }))

-- `Dir::get_writable_path`
abbrev pub is_explicit : Option Dirent → Bool
is_explicit none = false
is_explicit (some d) = d.explicit_mapping

module _ {W : Type 0} where
  unfoldable pub get_writable_path : MutableDir → Bytes → M W KernelError FilePath
  unfolding get join_name list_beq
  get_writable_path st name = elim (st.underlying_path) [
    | none ↦ raise (from_errno Errno.eperm)
    | some path ↦ do
      raise_if (is_explicit (get name st.children)) (from_errno Errno.eperm)
      pure (join_name path name)
  ]

abbrev pub implicit : ℕ → Dirent
implicit node = record { node = node; explicit_mapping = false }

abbrev pub explicit : ℕ → Dirent
explicit node = record { node = node; explicit_mapping = true }

module _ {W : Type 0} (os : Os W) where
  -- The part of `lookup_locked` for an entry that is not known yet.
  unfoldable pub lookup_unknown : ℕ → Dir → Bytes → FilePath → M W KernelError (ℕ × FileAttr)
  unfolding get_or_create getattr fetch set_children insert list_beq
  lookup_unknown a d name path = do
    fs_attr ← io os (os.symlink_metadata path)
    node ← get_or_create path fs_attr d.writable
    n ← fetch node
    old ← getattr os node
    set_children a (insert name (implicit node))
    pure (node, attr_fs_to_fuse (inode_of n) old.nlink fs_attr)

  -- `Dir::lookup_locked`
  unfoldable pub lookup_locked : ℕ → Dir → Bytes → M W KernelError (ℕ × FileAttr)
  unfolding lookup_unknown get getattr join_name list_beq
  lookup_locked a d name = elim (get name d.state.children) [
    | some dirent ↦ do refreshed_attr ← getattr os dirent.node; pure (dirent.node, refreshed_attr)
    | none ↦ elim (d.state.underlying_path) [
      | none ↦ raise (from_errno Errno.enoent)
      | some underlying_path ↦ lookup_unknown a d name (join_name underlying_path name)
    ]
  ]

  -- `Dir::lookup`
  unfoldable pub lookup : ℕ → Bytes → M W KernelError (ℕ × FileAttr)
  unfolding lookup_locked get_dir
  lookup a name = do d ← get_dir a; lookup_locked a d name
