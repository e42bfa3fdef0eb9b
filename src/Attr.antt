-- ===== src/Attr.antt =====
-- The attributes of files: `fuse::FileAttr` and `fuse::FileType`, what the program reads of
-- `fs::Metadata`, and the two kinds of time stamps. A field of width w holds a number below 2^w.
use sandboxfs_rust.Base.{ℕ, Bool, true, false, Option, ◌&&◌, ◌||◌, ◌==◌, nat_eq, ltb}
use sandboxfs_rust.Base.Int.{ℤ, ltb_ℤ, int_eq}

-- `fuse::FileType`
pub data FileType : Type 0 where
  block_device char_device directory named_pipe regular_file socket symlink : FileType

abbrev pub is_dir : FileType → Bool
is_dir FileType.directory = true
is_dir _ = false

abbrev pub is_symlink : FileType → Bool
is_symlink FileType.symlink = true
is_symlink _ = false

abbrev pub tag : FileType → ℕ
tag FileType.block_device = 0
tag FileType.char_device = 1
tag FileType.directory = 2
tag FileType.named_pipe = 3
tag FileType.regular_file = 4
tag FileType.socket = 5
tag FileType.symlink = 6

-- `==` on file types
abbrev pub type_eq : FileType → FileType → Bool
type_eq s t = tag s == tag t

-- `fs::FileType`: the answers of its `is_...` methods. `invalid` answers no to all.
pub data FsType : Type 0 where
  block_device char_device dir fifo file socket symlink invalid : FsType

abbrev pub fs_is_dir : FsType → Bool
fs_is_dir FsType.dir = true
fs_is_dir _ = false

abbrev pub fs_is_symlink : FsType → Bool
fs_is_symlink FsType.symlink = true
fs_is_symlink _ = false

-- `time::Timespec`. The nanoseconds are an i32 that is never negative here.
pub record Timespec : Type 0 where
  pub sec : ℤ
  pub nsec : ℕ

-- `<` and `==` on time stamps, field by field.
abbrev pub ltb_time : Timespec → Timespec → Bool
ltb_time a b = ltb_ℤ a.sec b.sec || ((a.sec == b.sec) && ltb a.nsec b.nsec)

abbrev pub time_eq : Timespec → Timespec → Bool
time_eq a b = (a.sec == b.sec) && (a.nsec == b.nsec)

-- `sys::time::TimeVal`
pub record TimeVal : Type 0 where
  pub tv_sec : ℤ
  pub tv_usec : ℕ

-- The result of asking `fs::Metadata` for a time: an error, a time before the epoch, or seconds
-- and nanoseconds since.
pub data SystemTime : Type 0 where
  unavailable before_epoch : SystemTime
  since_epoch : ℕ → ℕ → SystemTime

-- `fs::Metadata`
pub record Metadata : Type 0 where
  pub file_type : FsType
  pub len : ℕ
  pub mode : ℕ
  pub rdev : ℕ
  pub uid : ℕ
  pub gid : ℕ
  pub ctime : ℤ
  pub ctime_nsec : ℕ
  pub accessed : SystemTime
  pub modified : SystemTime
  pub created : SystemTime

-- `fuse::FileAttr`
pub record FileAttr : Type 0 where
  pub ino : ℕ
  pub kind : FileType
  pub nlink : ℕ
  pub size : ℕ
  pub blocks : ℕ
  pub atime : Timespec
  pub mtime : Timespec
  pub ctime : Timespec
  pub crtime : Timespec
  pub perm : ℕ
  pub uid : ℕ
  pub gid : ℕ
  pub rdev : ℕ
  pub flags : ℕ

-- `fs::OpenOptions`
pub record OpenOptions : Type 0 where
  pub read : Bool
  pub write : Bool
  pub create : Bool
  pub mode : Option ℕ
  pub custom_flags : ℕ
