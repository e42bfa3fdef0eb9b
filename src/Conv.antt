-- ===== src/Conv.antt =====
-- src/nodes/conv.rs: conversions between the types of the file system, of FUSE and of `nix`.
-- `TimeVal::seconds(s) + TimeVal::nanoseconds(n)` and `TimeSpec::nanoseconds(n)` are `nix`'s: they
-- are arguments of what calls them.
pub mod Laws
use sandboxfs_rust.Base.{
  ℕ, ◌+◌, ◌-◌, ◌*◌, ◌%◌, ◌/◌, ◌^◌, Bool, true, false, none, ◌&&◌, ◌||◌, ◌==◌, nat_eq, ltb, not,
  if◌then◌else◌,
}
use sandboxfs_rust.Base.Int.{ℤ, pos, negsuc}
use sandboxfs_rust.Errors.{Result, ok, err, KernelError, from_errno}
use sandboxfs_rust.Errors.Errno
use sandboxfs_rust.Attr.{
  FileType, FsType, Timespec, TimeVal, SystemTime, Metadata, FileAttr, OpenOptions, unavailable,
  before_epoch, since_epoch, fs_is_dir, type_eq, time_eq,
}

abbrev pub bad_time : Timespec
bad_time = record { sec = pos 0; nsec = 0 }

-- `as i64` of a u64
abbrev as_i64 : ℕ → ℤ
as_i64 n = if ltb n (2 ^ 63) then pos n else negsuc (2 ^ 64 - 1 - n)

unfoldable pub system_time_to_timespec : SystemTime → Timespec
system_time_to_timespec unavailable = bad_time
system_time_to_timespec before_epoch = bad_time
system_time_to_timespec (since_epoch secs nanos) = record { sec = as_i64 secs; nsec = nanos }

-- The first argument is `nix`'s sum of so many seconds and so many nanoseconds.
unfoldable pub timespec_to_timeval : (ℤ → ℕ → TimeVal) → Timespec → TimeVal
timespec_to_timeval seconds_nanoseconds spec = seconds_nanoseconds spec.sec spec.nsec

abbrev usec_or_zero : ℕ → ℕ
usec_or_zero usec = if ltb (2 ^ 31 - 1) usec then 0 else usec

-- The microseconds become the nanoseconds as they are.
unfoldable pub timeval_to_timespec : TimeVal → Timespec
timeval_to_timespec val = record { sec = val.tv_sec; nsec = usec_or_zero val.tv_usec }

-- An i64 that wraps around, as in a release build: the number modulo 2^64, from -2^63 on.
abbrev wrap_i64 : ℤ → ℤ
wrap_i64 (pos n) = as_i64 (n % 2 ^ 64)
wrap_i64 (negsuc n) = as_i64 (2 ^ 64 - 1 - n % 2 ^ 64)

-- `sec * 1_000_000_000`
abbrev seconds_in_nanoseconds : ℤ → ℤ
seconds_in_nanoseconds (pos s) = wrap_i64 (pos (s * 1000000000))
seconds_in_nanoseconds (negsuc s) = wrap_i64 (negsuc ((s + 1) * 1000000000 - 1))

abbrev plus : ℤ → ℕ → ℤ
plus (pos n) usec = pos (n + usec)
plus (negsuc n) usec = if ltb n usec then pos (usec - n - 1) else negsuc (n - usec)

-- `sec * 1_000_000_000 + usec`
unfoldable pub nanoseconds_of : ℤ → ℕ → ℤ
nanoseconds_of sec usec = wrap_i64 (plus (seconds_in_nanoseconds sec) usec)

-- The first argument is `nix`'s `TimeSpec::nanoseconds`.
unfoldable pub timeval_to_nix_timespec : (ℤ → Timespec) → TimeVal → Timespec
unfolding nanoseconds_of
timeval_to_nix_timespec nanoseconds val =
    nanoseconds (nanoseconds_of val.tv_sec (usec_or_zero val.tv_usec))

unfoldable pub filetype_fs_to_fuse : FsType → FileType
filetype_fs_to_fuse FsType.block_device = FileType.block_device
filetype_fs_to_fuse FsType.char_device = FileType.char_device
filetype_fs_to_fuse FsType.dir = FileType.directory
filetype_fs_to_fuse FsType.fifo = FileType.named_pipe
filetype_fs_to_fuse FsType.file = FileType.regular_file
filetype_fs_to_fuse FsType.socket = FileType.socket
filetype_fs_to_fuse FsType.symlink = FileType.symlink
filetype_fs_to_fuse FsType.invalid = FileType.regular_file

-- `mode & !S_IFMT` keeps the low twelve bits of a u16. 256 is 0400 in octal.
abbrev perm_of_mode : ℕ → ℕ
perm_of_mode mode = if ltb (2 ^ 16 - 1) mode then 256 else mode % 4096

abbrev rdev_or_zero : ℕ → ℕ
rdev_or_zero rdev = if ltb (2 ^ 32 - 1) rdev then 0 else rdev

unfoldable pub attr_fs_to_fuse : ℕ → ℕ → Metadata → FileAttr
unfolding system_time_to_timespec filetype_fs_to_fuse
attr_fs_to_fuse inode nlink attr = record {
  ino = inode;
  kind = filetype_fs_to_fuse attr.file_type;
  nlink = nlink;
  size = if fs_is_dir attr.file_type then 2 else attr.len;
  blocks = 0;
  atime = system_time_to_timespec attr.accessed;
  mtime = system_time_to_timespec attr.modified;
  ctime = record { sec = attr.ctime; nsec = attr.ctime_nsec };
  crtime = system_time_to_timespec attr.created;
  perm = perm_of_mode attr.mode;
  uid = attr.uid;
  gid = attr.gid;
  rdev = rdev_or_zero attr.rdev;
  flags = 0;
}

-- `O_WRONLY` is bit 0 of the flags and `O_RDWR` is bit 1.
abbrev pub has_wronly : ℕ → Bool
has_wronly flags = flags % 2 == 1

abbrev pub has_rdwr : ℕ → Bool
has_rdwr flags = flags / 2 % 2 == 1

unfoldable pub flags_to_openoptions : ℕ → Bool → Result KernelError OpenOptions
flags_to_openoptions flags allow_writes =
    if has_wronly flags || has_rdwr flags
    then (if not allow_writes
        then err (from_errno Errno.eperm)
        else ok (record {
          read = not (has_wronly flags);
          write = true;
          create = false;
          mode = none;
          custom_flags = flags;
        }))
    else ok
        (record { read = true; write = false; create = false; mode = none; custom_flags = flags })

unfoldable pub fileattrs_eq : FileAttr → FileAttr → Bool
fileattrs_eq a b =
    (a.ino == b.ino)
    && type_eq a.kind b.kind
    && (a.nlink == b.nlink)
    && (a.size == b.size)
    && (a.blocks == b.blocks)
    && time_eq a.atime b.atime
    && time_eq a.mtime b.mtime
    && time_eq a.ctime b.ctime
    && time_eq a.crtime b.crtime
    && (a.perm == b.perm)
    && (a.uid == b.uid)
    && (a.gid == b.gid)
    && (a.rdev == b.rdev)
    && (a.flags == b.flags)
