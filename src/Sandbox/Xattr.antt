-- ===== src/Sandbox/Xattr.antt =====
-- src/lib.rs: the extended attributes. The handlers with their replies, `xattrs_to_u8` and
-- `reply_xattr`.
pub mod Laws
use sandboxfs_rust.Base.{
  ℕ, ◌-◌, ◌^◌, Bool, not, Option, none, some, List, [], ◌∷◌, ◌++◌, Bytes, ◌==◌, nat_eq, ltb, length,
  if◌then◌else◌,
}
use sandboxfs_rust.Errors.{KernelError, from_errno}
use sandboxfs_rust.Errors.Errno
use sandboxfs_rust.Os.{Os}
use sandboxfs_rust.Monad.{M, ◌>>=◌, ◌>>◌, pure, raise, raise_if}
use sandboxfs_rust.Nodes.Attrs
use sandboxfs_rust.Sandbox.{find_node, find_writable_node}

-- `xattrs_to_u8`: every name is followed by a zero byte.
unfoldable pub xattrs_to_u8 : List Bytes → Bytes
xattrs_to_u8 [] = []
xattrs_to_u8 (xa ∷ xattrs) = xa ++ (0 ∷ xattrs_to_u8 xattrs)

-- What a `fuse::ReplyXattr` is told.
pub data Reply : Type 0 where
  size : ℕ → Reply
  content : Bytes → Reply
  error : ℕ → Reply

unfoldable pub reply_xattr : ℕ → Bytes → Reply
reply_xattr limit value =
    if limit == 0
    then (if ltb (2 ^ 32 - 1) (length value) then error Errno.eio else size (length value))
    else if ltb limit (length value)
    then error Errno.erange
    else content value

module _ {W : Type 0} (os : Os W) where
  unfoldable pub getxattr2 : ℕ → Bytes → M W KernelError Bytes
  unfolding find_node Attrs.getxattr
  getxattr2 inode name = do
    node ← find_node inode
    value ← Attrs.getxattr os node name
    elim value [ some v ↦ pure v | none ↦ raise (from_errno Errno.enodata) ]

  unfoldable pub listxattr2 : ℕ → M W KernelError (Option (List Bytes))
  unfolding find_node Attrs.listxattr
  listxattr2 inode = do node ← find_node inode; Attrs.listxattr os node

  unfoldable pub setxattr2 : ℕ → Bytes → Bytes → M W KernelError (Unit {0})
  unfolding find_writable_node Attrs.setxattr
  setxattr2 inode name value = do node ← find_writable_node inode; Attrs.setxattr os node name value

  unfoldable pub removexattr2 : ℕ → Bytes → M W KernelError (Unit {0})
  unfolding find_writable_node Attrs.removexattr
  removexattr2 inode name = do node ← find_writable_node inode; Attrs.removexattr os node name

  -- The four handlers, where `xattrs` says whether the support is enabled.
  abbrev pub if_enabled : {A : Type 0} → Bool → M W KernelError A → M W KernelError A
  if_enabled xattrs m = do raise_if (not xattrs) (from_errno Errno.enosys); m

  unfoldable pub setxattr : Bool → ℕ → Bytes → Bytes → M W KernelError (Unit {0})
  unfolding setxattr2
  setxattr xattrs inode name value = if_enabled xattrs (setxattr2 inode name value)

  unfoldable pub getxattr : Bool → ℕ → Bytes → ℕ → M W KernelError Reply
  unfolding getxattr2 reply_xattr
  getxattr xattrs inode name limit =
      if_enabled xattrs do value ← getxattr2 inode name; pure (reply_xattr limit value)

  unfoldable pub listxattr : Bool → ℕ → ℕ → M W KernelError Reply
  unfolding listxattr2 reply_xattr xattrs_to_u8
  listxattr xattrs inode limit = if_enabled xattrs do
    names ← listxattr2 inode
    elim names [
      | some found ↦ pure (reply_xattr limit (xattrs_to_u8 found))
      | none ↦ pure (if limit == 0 then size 0 else content [])
    ]

  unfoldable pub removexattr : Bool → ℕ → Bytes → M W KernelError (Unit {0})
  unfolding removexattr2
  removexattr xattrs inode name = if_enabled xattrs (removexattr2 inode name)
