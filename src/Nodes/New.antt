-- ===== src/Nodes/New.antt =====
-- The constructors of nodes: `Dir::new_empty`, and `new_mapped` of `Dir`, `File` and `Symlink`.
-- Each stores the node at the address `inode`, and returns the address.
use sandboxfs_rust.Base.{ℕ, Bool, false, not, ◌&&◌, Option, none, some, [], unwrap_or}
use sandboxfs_rust.Path.{FilePath}
use sandboxfs_rust.Attr.{FileType, FsType, FileAttr, Timespec, Metadata, fs_is_dir, fs_is_symlink}
use sandboxfs_rust.Conv.{attr_fs_to_fuse}
use sandboxfs_rust.Os.{Os}
use sandboxfs_rust.State.{MutableFile, Node, dir, file, symlink}
use sandboxfs_rust.Monad.{M, ◌>>=◌, ◌>>◌, pure, gets, assert, store, wrong_type_for_node}

-- `File::supports_type`
abbrev pub supports_type : FsType → Bool
supports_type t = not (fs_is_dir t) && not (fs_is_symlink t)

-- The attributes of a scaffold directory. 365 is 0555 in octal.
abbrev empty_attr : ℕ → Timespec → ℕ → ℕ → FileAttr
empty_attr inode now uid gid = record {
  ino = inode;
  kind = FileType.directory;
  nlink = 2;
  size = 2;
  blocks = 1;
  atime = now;
  mtime = now;
  ctime = now;
  crtime = now;
  perm = 365;
  uid = uid;
  gid = gid;
  rdev = 0;
  flags = 0;
}

abbrev pub empty_dir : ℕ → ℕ → Timespec → ℕ → ℕ → Node
empty_dir inode parent now uid gid = dir inode false (record {
  parent = parent;
  underlying_path = none;
  attr = empty_attr inode now uid gid;
  children = [];
})

abbrev pub mapped_dir : ℕ → FilePath → Metadata → Bool → Node
mapped_dir inode path fs_attr writable = dir inode writable (record {
  parent = inode;
  underlying_path = some path;
  attr = attr_fs_to_fuse inode 2 fs_attr;
  children = [];
})

abbrev pub mapped_file : ℕ → FilePath → Metadata → MutableFile
mapped_file inode path fs_attr = record {
  underlying_path = some path;
  attr = attr_fs_to_fuse inode 1 fs_attr;
}

module _ {W E : Type 0} where
  unfoldable pub new_empty : Os W → ℕ → Option ℕ → Timespec → M W E ℕ
  unfolding store
  new_empty os inode parent now = do
    uid ← gets (λ s. os.getuid s.world)
    gid ← gets (λ s. os.getgid s.world)
    store inode (empty_dir inode (unwrap_or parent inode) now uid gid)
    pure inode

  unfoldable pub new_mapped_dir : ℕ → FilePath → Metadata → Bool → M W E ℕ
  unfolding store
  new_mapped_dir inode path fs_attr writable = do
    assert (fs_is_dir fs_attr.file_type) wrong_type_for_node
    store inode (mapped_dir inode path fs_attr writable)
    pure inode

  unfoldable pub new_mapped_file : ℕ → FilePath → Metadata → Bool → M W E ℕ
  unfolding store
  new_mapped_file inode path fs_attr writable = do
    assert (supports_type fs_attr.file_type) wrong_type_for_node
    store inode (file inode writable (mapped_file inode path fs_attr))
    pure inode

  unfoldable pub new_mapped_symlink : ℕ → FilePath → Metadata → Bool → M W E ℕ
  unfolding store
  new_mapped_symlink inode path fs_attr writable = do
    assert (fs_is_symlink fs_attr.file_type) wrong_type_for_node
    store inode (symlink inode writable (mapped_file inode path fs_attr))
    pure inode
