-- ===== src/Tests/World.antt =====
-- A world that is a table of files by path. Calls that change anything but the table succeed and
-- change nothing; a directory that is open has two entries besides the dots.
use sandboxfs_rust.Base.{◌/◌, ◌%◌, Bool, true, none, some, List, [], ◌∷◌, Bytes, bytes}
use sandboxfs_rust.Base.Assoc.{get, insert, remove}
use sandboxfs_rust.Base.Int.{pos, pos_part}
use sandboxfs_rust.Path.{FilePath, path_eq, from_bytes}
use sandboxfs_rust.Errors.{ok, err, IoError, NixError}
use sandboxfs_rust.Errors.Errno
use sandboxfs_rust.Attr.{FsType, Metadata, SystemTime}
use sandboxfs_rust.Os.{Os, Call}

abbrev pub Files : Type 0
Files = List (FilePath × Metadata)

abbrev pub metadata : FsType → Metadata
metadata t = record {
  file_type = t;
  len = 10;
  mode = 0o100644;
  rdev = 0;
  uid = 7;
  gid = 8;
  ctime = pos 50;
  ctime_nsec = 0;
  accessed = SystemTime.since_epoch 40 0;
  modified = SystemTime.since_epoch 41 0;
  created = SystemTime.before_epoch;
}

abbrev pub path : Bytes → FilePath
path = from_bytes

abbrev no_entry : IoError
no_entry = record { raw_os_error = some Errno.enoent }

abbrev stat : FilePath → Call Files IoError Metadata
stat p files = elim (get p files) [ some m ↦ (ok m, files) | none ↦ (err no_entry, files) ]

abbrev remove_path : FilePath → Call Files IoError (Unit {0})
remove_path p files = elim (get p files) [
  | some m ↦ (ok tt, remove p files)
  | none ↦ (err no_entry, files)
]

abbrev move_path : FilePath → FilePath → Call Files IoError (Unit {0})
move_path p q files = elim (get p files) [
  | some m ↦ (ok tt, insert q m (remove p files))
  | none ↦ (err no_entry, files)
]

abbrev works : Call Files NixError (Unit {0})
works files = (ok tt, files)

abbrev works_io : Call Files IoError (Unit {0})
works_io files = (ok tt, files)

abbrev pub test_os : Bool → Os Files
test_os debug = record {
  debug_assertions = debug;
  have_utimensat = true;
  from_i32 = λ n. n;
  seconds_nanoseconds = λ s n. record { tv_sec = s; tv_usec = n / 1000 };
  nanoseconds = λ n. record { sec = pos (pos_part n / 1000000000); nsec = pos_part n % 1000000000 };
  now = λ _. record { sec = pos 100; nsec = 5 };
  getuid = λ _. 1;
  getgid = λ _. 2;
  symlink_metadata = stat;
  read_link = λ p files. (ok (path (bytes "target")), files);
  remove_file = remove_path;
  remove_dir = remove_path;
  rename = move_path;
  create_dir = λ mode p files. (ok tt, insert p (metadata FsType.dir) files);
  symlink = λ link p files. (ok tt, insert p (metadata FsType.symlink) files);
  mknod = λ p sflag perm rdev files. (ok tt, insert p (metadata FsType.fifo) files);
  unlink = λ p files. (ok tt, remove p files);
  fchownat = λ p u g. works;
  fchmodat = λ p m. works;
  utimensat = λ p a m. works;
  utimes = λ p a m. works;
  truncate = λ p n. works;
  open_file = λ options p files. (ok 3, insert p (metadata FsType.file) files);
  read_at = λ fd offset size files. (ok (bytes "abc"), files);
  write_at = λ fd content offset files. (ok 3, files);
  open_dir = λ p flags files. (ok 4, files);
  entries = λ fd files. ok (bytes ".") ∷ ok (bytes "..") ∷ ok (bytes "a") ∷ ok (bytes "b") ∷ [];
  xattr_get = λ p n files. (ok none, files);
  xattr_list = λ p files. (ok [], files);
  xattr_set = λ p n v. works_io;
  xattr_remove = λ p n. works_io;
}
