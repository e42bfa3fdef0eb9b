-- ===== src/Sandbox/Replies.antt =====
-- Every handler of `fuse::Filesystem` keeps the memory valid.
use sandboxfs_rust.Base.{ℕ, Bool, not, [], Bytes, ◌==◌, nat_eq, if◌then◌else◌}
use sandboxfs_rust.Attr.{Timespec}
use sandboxfs_rust.Errors.{KernelError, from_errno}
use sandboxfs_rust.Errors.Errno
use sandboxfs_rust.Os.{Os}
use sandboxfs_rust.State.{State}
use sandboxfs_rust.Monad.{M, Outcome, ok, err, panic}
use sandboxfs_rust.Monad.Keeps.{
  Post, Holds, Anything, Post-pure, Post-raise, Post-option, bind, raise_if_lem,
}
use sandboxfs_rust.Nodes.Valid.Attrs.{getxattr_lem, listxattr_lem, removexattr_lem, setxattr_lem}
use sandboxfs_rust.Sandbox.Xattr
use sandboxfs_rust.Sandbox.Xattr.{
  getxattr2, listxattr2, setxattr2, removexattr2, if_enabled, reply_xattr, xattrs_to_u8, size,
  content,
}
use sandboxfs_rust.Sandbox.Filesystem.{
  Request, create, getattr, link, lookup, mkdir, mknod, open_file, opendir, read, readdir, readlink,
  release, releasedir, rename, rmdir, unlink, setattr, symlink, write, setxattr, getxattr,
  listxattr, removexattr, Reply, error, reply_with, handle,
}
use sandboxfs_rust.Sandbox.Valid.{
  find_node_lem, find_writable_node_lem, create2_lem, getattr2_lem, lookup2_lem, mkdir2_lem,
  mknod2_lem, symlink2_lem, open2_lem, readlink2_lem, release2_lem, rename2_lem, rmdir2_lem,
  unlink2_lem, setattr2_lem, read_request_lem, write_request_lem, readdir_request_lem,
}

module _ {W : Type 0} (os : Os W) where
  enabled_lem :
      {A : Type 0} (xattrs : Bool) {m : M W KernelError A} {s : State W}
      → ((t : State W) → Post Anything m t)
      → Post Anything (if_enabled os xattrs m) s
  enabled_lem xattrs k = bind (raise_if_lem (not xattrs) (from_errno Errno.enosys)) (λ _ t _ _. k t)

  setxattr_request_lem :
      (xattrs : Bool) (inode : ℕ) (name value : Bytes) {s : State W}
      → Post Anything (Xattr.setxattr os xattrs inode name value) s
  unfolding Xattr.setxattr setxattr2
  setxattr_request_lem xattrs inode name value = enabled_lem xattrs (λ t.
      bind (find_writable_node_lem inode) (λ a _ _ (_, known). setxattr_lem os a name value known))

  getxattr_request_lem :
      (xattrs : Bool) (inode : ℕ) (name : Bytes) (limit : ℕ) {s : State W}
      → Post Anything (Xattr.getxattr os xattrs inode name limit) s
  unfolding Xattr.getxattr getxattr2
  getxattr_request_lem xattrs inode name limit = enabled_lem xattrs (λ t.
      bind
        (bind (find_node_lem inode) (λ a _ _ (_, known).
          bind (getxattr_lem os a name known) (λ value _ _ _.
            Post-option value (λ _. Post-raise (from_errno Errno.enodata))
              (λ v _. Post-pure v tt))))
        (λ value _ _ _. Post-pure (reply_xattr limit value) tt))

  listxattr_request_lem :
      (xattrs : Bool) (inode limit : ℕ) {s : State W}
      → Post Anything (Xattr.listxattr os xattrs inode limit) s
  unfolding Xattr.listxattr listxattr2
  listxattr_request_lem xattrs inode limit = enabled_lem xattrs (λ t.
      bind (bind (find_node_lem inode) (λ a _ _ (_, known). listxattr_lem os a known))
        (λ names _ _ _.
          Post-option names (λ _. Post-pure (if limit == 0 then size 0 else content []) tt)
            (λ found _. Post-pure (reply_xattr limit (xattrs_to_u8 found)) tt)))

  removexattr_request_lem :
      (xattrs : Bool) (inode : ℕ) (name : Bytes) {s : State W}
      → Post Anything (Xattr.removexattr os xattrs inode name) s
  unfolding Xattr.removexattr removexattr2
  removexattr_request_lem xattrs inode name = enabled_lem xattrs (λ t.
      bind (find_writable_node_lem inode) (λ a _ _ (_, known). removexattr_lem os a name known))

  reply_with_lem :
      {A : Type 0} (f : A → Reply) {m : M W KernelError A} {s : State W}
      → Post Anything m s
      → Post Anything (reply_with f m) s
  unfolding reply_with
  reply_with_lem {A} f {m} {s} h = record { holds = λ v. go (m s).0 (m s).1 (h.holds v) }
    where
      go :
          (r : Outcome KernelError A) (t : State W)
          → Holds s Anything r t
          → Holds s Anything
              (reply_with {W = W} f (λ _. (r, t)) s).0
              (reply_with {W = W} f (λ _. (r, t)) s).1
      go (ok a) t h = h
      go (panic p) t h = h
      go (err e) t (v, g) = (v, g, tt)

  module _ (ttl : Timespec) (xattrs : Bool) where
    pub handle_lem : (r : Request) {s : State W} → Post Anything (handle os ttl xattrs r) s
    unfolding handle
    handle_lem (create p n u g m f) = reply_with_lem _ (create2_lem os p n u g m f)
    handle_lem (getattr i) = reply_with_lem _ (getattr2_lem os i)
    handle_lem (link i) = Post-pure (error Errno.eperm) tt
    handle_lem (lookup p n) = reply_with_lem _ (lookup2_lem os p n)
    handle_lem (mkdir p n u g m) = reply_with_lem _ (mkdir2_lem os p n u g m)
    handle_lem (mknod p n u g m r) = reply_with_lem _ (mknod2_lem os p n u g m r)
    handle_lem (open_file i f) = reply_with_lem _ (open2_lem os i f)
    handle_lem (opendir i f) = reply_with_lem _ (open2_lem os i f)
    handle_lem (read fh o l) = reply_with_lem _ (read_request_lem os fh o l)
    handle_lem (readdir fh o l) = reply_with_lem _ (readdir_request_lem os fh o l)
    handle_lem (readlink i) = reply_with_lem _ (readlink2_lem os i)
    handle_lem (release fh) = reply_with_lem _ (release2_lem os fh)
    handle_lem (releasedir fh) = reply_with_lem _ (release2_lem os fh)
    handle_lem (rename p n q m) = reply_with_lem _ (rename2_lem os p n q m)
    handle_lem (rmdir p n) = reply_with_lem _ (rmdir2_lem os p n)
    handle_lem (unlink p n) = reply_with_lem _ (unlink2_lem os p n)
    handle_lem (setattr i m u g l a b) = reply_with_lem _ (setattr2_lem os i m u g l a b)
    handle_lem (symlink p n t u g) = reply_with_lem _ (symlink2_lem os p n t u g)
    handle_lem (write fh o c) = reply_with_lem _ (write_request_lem os fh o c)
    handle_lem (setxattr i n v) = reply_with_lem _ (setxattr_request_lem xattrs i n v)
    handle_lem (getxattr i n l) = reply_with_lem _ (getxattr_request_lem xattrs i n l)
    handle_lem (listxattr i l) = reply_with_lem _ (listxattr_request_lem xattrs i l)
    handle_lem (removexattr i n) = reply_with_lem _ (removexattr_request_lem xattrs i n)
