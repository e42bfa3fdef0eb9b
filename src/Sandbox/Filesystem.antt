-- ===== src/Sandbox/Filesystem.antt =====
-- src/lib.rs: `impl fuse::Filesystem for SandboxFS`. A request of the kernel is a constructor with
-- the arguments that its handler uses, and a handler gives exactly one reply or panics.
use sandboxfs_rust.Base.{ℕ, Bool, Option, List, Bytes}
use sandboxfs_rust.Path.{FilePath}
use sandboxfs_rust.Attr.{Timespec, FileAttr}
use sandboxfs_rust.Errors.{KernelError, errno_as_i32}
use sandboxfs_rust.Errors.Errno
use sandboxfs_rust.Os.{Os}
use sandboxfs_rust.State.{ReplyEntry}
use sandboxfs_rust.Monad.{M, ok, err, panic, pure}
use sandboxfs_rust.Sandbox
use sandboxfs_rust.Sandbox.{
  create2, getattr2, lookup2, mkdir2, mknod2, symlink2, open2, readlink2, release2, rename2, rmdir2,
  unlink2, setattr2,
}
use sandboxfs_rust.Sandbox.Xattr

pub data Request : Type 0 where
  create : ℕ → Bytes → ℕ → ℕ → ℕ → ℕ → Request
  getattr link : ℕ → Request
  lookup : ℕ → Bytes → Request
  mkdir : ℕ → Bytes → ℕ → ℕ → ℕ → Request
  mknod : ℕ → Bytes → ℕ → ℕ → ℕ → ℕ → Request
  open_file opendir : ℕ → ℕ → Request
  read readdir : ℕ → ℕ → ℕ → Request
  readlink release releasedir : ℕ → Request
  rename : ℕ → Bytes → ℕ → Bytes → Request
  rmdir unlink : ℕ → Bytes → Request
  setattr :
      ℕ → Option ℕ → Option ℕ → Option ℕ → Option ℕ → Option Timespec → Option Timespec → Request
  symlink : ℕ → Bytes → FilePath → ℕ → ℕ → Request
  write : ℕ → ℕ → Bytes → Request
  setxattr : ℕ → Bytes → Bytes → Request
  getxattr : ℕ → Bytes → ℕ → Request
  listxattr : ℕ → ℕ → Request
  removexattr : ℕ → Bytes → Request

-- What the reply objects of `fuse` are told, with the time to live of attributes.
pub data Reply : Type 0 where
  error : ℕ → Reply
  created : Timespec → FileAttr → ℕ → ℕ → Reply
  attributes : Timespec → FileAttr → Reply
  entry : Timespec → FileAttr → ℕ → Reply
  opened written size : ℕ → Reply
  content : Bytes → Reply
  target : FilePath → Reply
  directory : List (ℕ × ReplyEntry) → Reply
  done : Reply

-- `IdGenerator::GENERATION`
abbrev pub generation : ℕ
generation = 0

-- A result becomes a reply, and an error the reply with its errno.
unfoldable pub reply_with : {W A : Type 0} → (A → Reply) → M W KernelError A → M W KernelError Reply
unfolding errno_as_i32
reply_with f m s =
    let (r, s') = m s in
    elim r [
      | ok a ↦ (ok (f a), s')
      | err e ↦ (ok (error (errno_as_i32 e)), s')
      | panic p ↦ (panic p, s')
    ]

abbrev xattr_reply : Xattr.Reply → Reply
xattr_reply (Xattr.Reply.size n) = size n
xattr_reply (Xattr.Reply.content value) = content value
xattr_reply (Xattr.Reply.error e) = error e

abbrev pub done_with : {A : Type 0} → A → Reply
done_with _ = done

-- The fields `ttl` and `xattrs` of `SandboxFS` never change.
module _ {W : Type 0} (os : Os W) (ttl : Timespec) (xattrs : Bool) where
  unfoldable pub handle : Request → M W KernelError Reply
  unfolding reply_with create2 getattr2 lookup2 mkdir2 mknod2 symlink2 open2 readlink2 release2
      rename2 rmdir2 unlink2 setattr2 Sandbox.read Sandbox.write Sandbox.readdir Xattr.setxattr
      Xattr.getxattr Xattr.listxattr Xattr.removexattr
  handle (create parent name uid gid mode flags) =
      reply_with (λ r. created ttl r.0 generation r.1) (create2 os parent name uid gid mode flags)
  handle (getattr inode) = reply_with (attributes ttl) (getattr2 os inode)
  handle (link inode) = pure (error Errno.eperm)
  handle (lookup parent name) = reply_with (λ a. entry ttl a generation) (lookup2 os parent name)
  handle (mkdir parent name uid gid mode) =
      reply_with (λ a. entry ttl a generation) (mkdir2 os parent name uid gid mode)
  handle (mknod parent name uid gid mode rdev) =
      reply_with (λ a. entry ttl a generation) (mknod2 os parent name uid gid mode rdev)
  handle (open_file inode flags) = reply_with opened (open2 os inode flags)
  handle (opendir inode flags) = reply_with opened (open2 os inode flags)
  handle (read fh offset limit) = reply_with content (Sandbox.read os fh offset limit)
  handle (readdir fh offset room) = reply_with directory (Sandbox.readdir os fh offset room)
  handle (readlink inode) = reply_with target (readlink2 os inode)
  handle (release fh) = reply_with done_with (release2 os fh)
  handle (releasedir fh) = reply_with done_with (release2 os fh)
  handle (rename parent name new_parent new_name) =
      reply_with done_with (rename2 os parent name new_parent new_name)
  handle (rmdir parent name) = reply_with done_with (rmdir2 os parent name)
  handle (unlink parent name) = reply_with done_with (unlink2 os parent name)
  handle (setattr inode mode uid gid limit atime mtime) =
      reply_with (attributes ttl) (setattr2 os inode mode uid gid limit atime mtime)
  handle (symlink parent name to uid gid) =
      reply_with (λ a. entry ttl a generation) (symlink2 os parent name to uid gid)
  handle (write fh offset data_bytes) = reply_with written (Sandbox.write os fh offset data_bytes)
  handle (setxattr inode name value) =
      reply_with done_with (Xattr.setxattr os xattrs inode name value)
  handle (getxattr inode name limit) =
      reply_with xattr_reply (Xattr.getxattr os xattrs inode name limit)
  handle (listxattr inode limit) = reply_with xattr_reply (Xattr.listxattr os xattrs inode limit)
  handle (removexattr inode name) = reply_with done_with (Xattr.removexattr os xattrs inode name)
