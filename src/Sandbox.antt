-- ===== src/Sandbox.antt =====
-- src/lib.rs: `SandboxFS`. The table of nodes by inode, the table of handles, and one operation
-- for each request of the kernel. The operations here return what the source replies.
pub mod Xattr
pub mod ReadOnly
pub mod Filesystem
pub mod Valid
pub mod Replies
pub mod Creation
pub mod Frozen
pub mod Reach
pub mod Mounted
pub mod Reconfigure
use sandboxfs_rust.Base.{
  ℕ, ◌%◌, Bool, true, false, not, Option, none, some, List, [], Bytes, nat_eq, ◌==◌, is_some,
  if◌then◌else◌,
}
use mathlib.Core.Option
use sandboxfs_rust.Path.{FilePath}
use sandboxfs_rust.Errors.{KernelError, from_errno, Failure}
use sandboxfs_rust.Errors.Errno
use sandboxfs_rust.Attr.{Timespec, FileAttr}
use sandboxfs_rust.Conv.{timespec_to_timeval}
use sandboxfs_rust.Os.{Os}
use sandboxfs_rust.State.{
  State, Cache, Handle, open_dir, open_file, ReplyEntry, inode_of, writable_of,
}
use sandboxfs_rust.Monad.{
  M, Outcome, ◌>>=◌, ◌>>◌, pure, raise, abort, gets, modify, expect, assert, debug_assert, update,
  next, fetch, unknown_handle, handle_in_use, unimplemented, wrong_root,
}
use sandboxfs_rust.Mapping.{Mapping, create_root}
use sandboxfs_rust.Nodes.Setattr.{AttrDelta}
use sandboxfs_rust.Nodes.Attrs
use sandboxfs_rust.Nodes.Dir
use sandboxfs_rust.Nodes.Dir.Create
use sandboxfs_rust.Nodes.Dir.Move
use sandboxfs_rust.Nodes.Handles

-- `fuse::FUSE_ROOT_ID`
abbrev pub fuse_root_id : ℕ
fuse_root_id = 1

module _ {W : Type 0} where
  -- `find_node`
  unfoldable pub find_node : ℕ → M W KernelError ℕ
  find_node inode = do
    found ← gets (λ s. s.nodes inode)
    elim found [ some a ↦ pure a | none ↦ raise (from_errno Errno.enoent) ]

  -- `find_writable_node`
  unfoldable pub find_writable_node : ℕ → M W KernelError ℕ
  unfolding find_node fetch
  find_writable_node inode = do
    a ← find_node inode
    n ← fetch a
    if not (writable_of n) then raise (from_errno Errno.eperm) else pure a

  -- `find_handle`
  unfoldable pub find_handle : ℕ → M W KernelError Handle
  find_handle fh = do found ← gets (λ s. s.handles fh); expect found unknown_handle

  -- `insert_handle`
  unfoldable pub insert_handle : Os W → Handle → M W KernelError ℕ
  unfolding next
  insert_handle os handle = do
    fh ← next
    found ← gets (λ s. s.handles fh)
    debug_assert os (not (is_some found)) handle_in_use
    modify (λ s. record s { handles = update s.handles fh (some handle) })
    pure fh

  -- `insert_node`: a node that is known stays.
  unfoldable pub insert_node : ℕ → M W KernelError (Unit {0})
  unfolding fetch
  insert_node a = do
    n ← fetch a
    modify (λ s.
        if is_some (s.nodes (inode_of n))
        then s
        else record s { nodes = update s.nodes (inode_of n) (some a) })

-- `SandboxFS::create`: the state before, with nothing in it, and the operation that fills it.
abbrev pub initial : {W : Type 0} → W → Cache → State W
initial world cache = record {
  world = world;
  last_id = fuse_root_id;
  arena = λ _. none;
  cache = cache;
  nodes = λ _. none;
  handles = λ _. none;
}

module _ {W : Type 0} (os : Os W) where
  unfoldable pub create_fs : List Mapping → M W Failure (Unit {0})
  unfolding create_root fetch
  create_fs mappings = do
    root ← create_root os mappings
    n ← fetch root
    assert (fuse_root_id == inode_of n) wrong_root
    modify (λ s. record s { nodes = update s.nodes (inode_of n) (some root) })

  unfoldable pub create2 : ℕ → Bytes → ℕ → ℕ → ℕ → ℕ → M W KernelError (FileAttr × ℕ)
  unfolding find_writable_node Create.create insert_node insert_handle
  create2 parent name uid gid mode flags = do
    dir_node ← find_writable_node parent
    (node, handle, attr) ← Create.create os dir_node name uid gid mode flags
    insert_node node
    fh ← insert_handle os handle
    pure (attr, fh)

  unfoldable pub getattr2 : ℕ → M W KernelError FileAttr
  unfolding find_node Attrs.getattr
  getattr2 inode = do node ← find_node inode; Attrs.getattr os node

  unfoldable pub lookup2 : ℕ → Bytes → M W KernelError FileAttr
  unfolding find_node Dir.lookup insert_node
  lookup2 parent name = do
    dir_node ← find_node parent
    (node, attr) ← Dir.lookup os dir_node name
    insert_node node
    pure attr

  unfoldable pub mkdir2 : ℕ → Bytes → ℕ → ℕ → ℕ → M W KernelError FileAttr
  unfolding find_writable_node Create.mkdir insert_node
  mkdir2 parent name uid gid mode = do
    dir_node ← find_writable_node parent
    (node, attr) ← Create.mkdir os dir_node name uid gid mode
    insert_node node
    pure attr

  unfoldable pub mknod2 : ℕ → Bytes → ℕ → ℕ → ℕ → ℕ → M W KernelError FileAttr
  unfolding find_writable_node Create.mknod insert_node
  mknod2 parent name uid gid mode rdev = do
    dir_node ← find_writable_node parent
    (node, attr) ← Create.mknod os dir_node name uid gid mode rdev
    insert_node node
    pure attr

  unfoldable pub symlink2 : ℕ → Bytes → FilePath → ℕ → ℕ → M W KernelError FileAttr
  unfolding find_writable_node Create.symlink_at insert_node
  symlink2 parent name link uid gid = do
    dir_node ← find_writable_node parent
    (node, attr) ← Create.symlink_at os dir_node name link uid gid
    insert_node node
    pure attr

  unfoldable pub open2 : ℕ → ℕ → M W KernelError ℕ
  unfolding find_node Handles.open_node insert_handle
  open2 inode flags = do
    node ← find_node inode
    handle ← Handles.open_node os node flags
    insert_handle os handle

  unfoldable pub readlink2 : ℕ → M W KernelError FilePath
  unfolding find_node Attrs.readlink
  readlink2 inode = do node ← find_node inode; Attrs.readlink os node

  unfoldable pub release2 : ℕ → M W KernelError (Unit {0})
  release2 fh = do
    found ← gets (λ s. s.handles fh)
    _handle ← expect found unknown_handle
    modify (λ s. record s { handles = update s.handles fh none })

  unfoldable pub rename2 : ℕ → Bytes → ℕ → Bytes → M W KernelError (Unit {0})
  unfolding find_writable_node Move.rename Move.rename_and_move_source
  rename2 parent name new_parent new_name = do
    dir_node ← find_writable_node parent
    if parent == new_parent then Move.rename os dir_node name new_name else (do
      new_dir_node ← find_writable_node new_parent
      Move.rename_and_move_source os dir_node name new_dir_node new_name)

  unfoldable pub rmdir2 : ℕ → Bytes → M W KernelError (Unit {0})
  unfolding find_writable_node Create.rmdir
  rmdir2 parent name = do dir_node ← find_writable_node parent; Create.rmdir os dir_node name

  unfoldable pub unlink2 : ℕ → Bytes → M W KernelError (Unit {0})
  unfolding find_writable_node Create.unlink
  unlink2 parent name = do dir_node ← find_writable_node parent; Create.unlink os dir_node name

  -- The new values as the kernel sends them. `Mode::from_bits_truncate` keeps twelve bits.
  unfoldable pub delta_of :
      Option ℕ → Option ℕ → Option ℕ → Option ℕ → Option Timespec → Option Timespec → AttrDelta
  unfolding timespec_to_timeval
  delta_of mode uid gid size atime mtime = record {
    mode = Option.map (λ m. m % 4096) mode;
    uid = uid;
    gid = gid;
    atime = Option.map (timespec_to_timeval os.seconds_nanoseconds) atime;
    mtime = Option.map (timespec_to_timeval os.seconds_nanoseconds) mtime;
    size = size;
  }

  unfoldable pub setattr2 :
      ℕ
      → Option ℕ
      → Option ℕ
      → Option ℕ
      → Option ℕ
      → Option Timespec
      → Option Timespec
      → M W KernelError FileAttr
  unfolding find_writable_node delta_of Attrs.set_attributes
  setattr2 inode mode uid gid size atime mtime = do
    node ← find_writable_node inode
    Attrs.set_attributes os node (delta_of mode uid gid size atime mtime)

  -- `read`, `write` and `readdir` of `fuse::Filesystem`. The handle is of the kind that opened it;
  -- the other kind leaves the default, which panics.
  unfoldable pub read : ℕ → ℕ → ℕ → M W KernelError Bytes
  unfolding find_handle Handles.read
  read fh offset size = do
    handle ← find_handle fh
    elim handle [
      | open_dir _ _ _ _ _ ↦ abort unimplemented
      | open_file _ fd ↦ Handles.read os fd offset size
    ]

  unfoldable pub write : ℕ → ℕ → Bytes → M W KernelError ℕ
  unfolding find_handle Handles.write
  write fh offset data_bytes = do
    handle ← find_handle fh
    elim handle [
      | open_dir _ _ _ _ _ ↦ abort unimplemented
      | open_file a fd ↦ Handles.write os a fd offset data_bytes
    ]

  unfoldable pub readdir : ℕ → ℕ → ℕ → M W KernelError (List (ℕ × ReplyEntry))
  unfolding find_handle Handles.readdir
  readdir fh offset room = do
    handle ← find_handle fh
    elim handle [
      | open_file _ _ ↦ abort unimplemented
      | open_dir i w a fd contents ↦ do
        (contents', reply) ← Handles.readdir os i w a fd contents offset room
        modify
            (λ s. record s { handles = update s.handles fh (some (open_dir i w a fd contents')) })
        pure reply
    ]
