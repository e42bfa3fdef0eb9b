-- ===== src/Conv/Laws.antt =====
-- Bounds and losses of the conversions in src/nodes/conv.rs.
use sandboxfs_rust.Base.{
  ℕ, ◌/◌, ◌^◌, ◌<◌, Bool, true, false, ◌||◌, ◌≡◌, ◌↔◌, arith, ◌==◌, nat_eq, if◌then◌else◌,
}
use sandboxfs_rust.Base.Int.{ℤ}
use sandboxfs_rust.Errors.{ok, err, from_errno}
use sandboxfs_rust.Errors.Errno
use sandboxfs_rust.Attr.{
  FileType, FsType, Timespec, TimeVal, Metadata, OpenOptions, is_dir, is_symlink, fs_is_dir,
  fs_is_symlink,
}
use sandboxfs_rust.Conv.{
  timespec_to_timeval, timeval_to_timespec, attr_fs_to_fuse, has_wronly, has_rdwr,
  flags_to_openoptions,
}

abbrev fs_tag : FsType → ℕ
fs_tag FsType.block_device = 0
fs_tag FsType.char_device = 1
fs_tag FsType.dir = 2
fs_tag FsType.fifo = 3
fs_tag FsType.file = 4
fs_tag FsType.socket = 5
fs_tag FsType.symlink = 6
fs_tag FsType.invalid = 7

abbrev pub fs_eq : FsType → FsType → Bool
fs_eq s t = fs_tag s == fs_tag t

-- What the types of FUSE stand for: a regular file also for a type that is none of the seven.
abbrev pub is_type : FileType → FsType → Bool
is_type FileType.block_device t = fs_eq t FsType.block_device
is_type FileType.char_device t = fs_eq t FsType.char_device
is_type FileType.directory t = fs_eq t FsType.dir
is_type FileType.named_pipe t = fs_eq t FsType.fifo
is_type FileType.socket t = fs_eq t FsType.socket
is_type FileType.symlink t = fs_eq t FsType.symlink
is_type FileType.regular_file t = fs_eq t FsType.file || fs_eq t FsType.invalid

-- The attributes that the kernel gets have the given inode and number of links, permissions of
-- twelve bits, a device number of 32 bits, and the one type of the seven that the file has, or that
-- of a regular file if the file system tells no type; a directory has the size 2, and any other
-- file the size that it has on disk.
pub attr_fs_to_fuse_bounds :
    (inode nlink : ℕ) (m : Metadata)
    → let a = attr_fs_to_fuse inode nlink m in
      (a.ino ≡ inode)
      × (a.nlink ≡ nlink)
      × (a.perm < 4096)
      × (a.rdev < 2 ^ 32)
      × (is_type a.kind m.file_type ≡ true)
      × (a.size ≡ (if fs_eq m.file_type FsType.dir then 2 else m.len))
unfolding attr_fs_to_fuse
attr_fs_to_fuse_bounds inode nlink m = ground arith

-- A type of FUSE that stands for a type of file is that of a directory, or of a symlink, as the
-- file is.
pub attr_fs_to_fuse-kind :
    (inode nlink : ℕ) (m : Metadata)
    → (is_dir (attr_fs_to_fuse inode nlink m).kind ≡ fs_is_dir m.file_type)
      × (is_symlink (attr_fs_to_fuse inode nlink m).kind ≡ fs_is_symlink m.file_type)
unfolding attr_fs_to_fuse
attr_fs_to_fuse-kind inode nlink m = ground arith

-- Opening is refused, and then with EPERM, exactly when the flags ask for writes and writes are not
-- allowed; options that let writes through come only where writes are allowed.
pub flags_to_openoptions_iff :
    (flags : ℕ) (allow_writes : Bool)
    → ((flags_to_openoptions flags allow_writes ≡ err (from_errno Errno.eperm))
        ↔ (((has_wronly flags || has_rdwr flags) ≡ true) × (allow_writes ≡ false)))
      × ((o : OpenOptions)
          → flags_to_openoptions flags allow_writes ≡ ok o
          → o.write ≡ true
          → allow_writes ≡ true)
unfolding flags_to_openoptions
flags_to_openoptions_iff flags allow_writes = (ground arith, λ o h w. ground arith)

-- With a sum of `nix` that turns nanoseconds into microseconds, a time stamp that is converted to a
-- `TimeVal` and back has its nanoseconds divided by a thousand. Only a time stamp without
-- nanoseconds comes back as it was.
pub timeval_to_timespec-timespec_to_timeval :
    (seconds_nanoseconds : ℤ → ℕ → TimeVal) (t : Timespec)
    → seconds_nanoseconds t.sec t.nsec ≡ record { tv_sec = t.sec; tv_usec = t.nsec / 1000 }
    → t.nsec < 1000000000
    → (timeval_to_timespec (timespec_to_timeval seconds_nanoseconds t)
        ≡ record { sec = t.sec; nsec = t.nsec / 1000 })
      × ((timeval_to_timespec (timespec_to_timeval seconds_nanoseconds t) ≡ t) ↔ (t.nsec ≡ 0))
unfolding timeval_to_timespec timespec_to_timeval
timeval_to_timespec-timespec_to_timeval seconds_nanoseconds t documented h =
    (ground arith, ground arith)
