-- ===== src/Tests/Life.antt =====
-- The theorems on the life of an instance, for one without mappings.
use sandboxfs_rust.Base.{true, false, none, List, [], ◌∷◌, bytes, refl}
use sandboxfs_rust.Base.Int.{pos}
use sandboxfs_rust.Attr.{Timespec, FileType, FsType}
use sandboxfs_rust.Errors.Errno
use sandboxfs_rust.State.{State, MutableDir, dir, no_cache}
use sandboxfs_rust.State.Valid.{IsValid, Grows}
use sandboxfs_rust.Monad.{unknown_entry}
use sandboxfs_rust.Monad.Keeps.{IsExpected}
use sandboxfs_rust.Nodes.Valid.{IsNode}
use sandboxfs_rust.Sandbox.{fuse_root_id, initial, create_fs}
use sandboxfs_rust.Sandbox.Filesystem.{getattr, unlink, handle}
use sandboxfs_rust.Sandbox.Reach.{
  IsCreated, Steps, here, then_step, answer, disk, valid_forever, answer-IsExpected,
}
use sandboxfs_rust.Path.{root}
use sandboxfs_rust.Mapping.{Mapping}
use sandboxfs_rust.Tests.World.{Files, path, metadata, test_os}

abbrev ttl : Timespec
ttl = record { sec = pos 60; nsec = 0 }

abbrev born : State Files
born = (create_fs (test_os true) [] (initial [] no_cache)).1

born-IsCreated : IsCreated (test_os true) born
unfolding create_fs
born-IsCreated = record { world = []; cache = no_cache; mappings = []; empty = tt; created = refl }

abbrev now : Timespec
now = record { sec = pos 100; nsec = 5 }

abbrev born_root : MutableDir
born_root = record {
  parent = 1;
  underlying_path = none;
  attr = record {
    ino = 1;
    kind = FileType.directory;
    nlink = 2;
    size = 2;
    blocks = 1;
    atime = now;
    mtime = now;
    ctime = now;
    crtime = now;
    perm = 0o555;
    uid = 1;
    gid = 2;
    rdev = 0;
    flags = 0;
  };
  children = [];
}

-- The instance once it has told the attributes of its root, and the disk has then changed.
abbrev asked : State Files
asked = (handle (test_os true) ttl false (getattr 1) born).1

asked-Steps : Steps (test_os true) ttl false born asked
unfolding handle create_fs
asked-Steps = then_step here (answer (getattr 1) tt)

other_disk : Files
other_disk = (path (bytes "/new"), metadata FsType.file) ∷ []

later : State Files
later = record asked { world = other_disk }

valid_forever_example : IsValid later × IsNode fuse_root_id later × Grows born later
unfolding later
valid_forever_example =
    valid_forever (test_os true) ttl false born-IsCreated here
      (then_step asked-Steps (disk other_disk))

-- An instance that shows a directory of the disk with a file in it, which no request has looked up.
abbrev shared_disk : Files
shared_disk =
    (path (bytes "/base"), metadata FsType.dir)
    ∷ (path (bytes "/base/d"), metadata FsType.file)
    ∷ []

abbrev show_base : List Mapping
show_base = record { path = root; underlying_path = path (bytes "/base"); writable = true } ∷ []

abbrev shared : State Files
shared = (create_fs (test_os true) show_base (initial shared_disk no_cache)).1

shared-IsCreated : IsCreated (test_os true) shared
unfolding create_fs sandboxfs_rust.Path.path_beq sandboxfs_rust.Path.from_bytes
    sandboxfs_rust.Path.to_components sandboxfs_rust.Path.split
shared-IsCreated = record {
  world = shared_disk;
  cache = no_cache;
  mappings = show_base;
  empty = tt;
  created = refl;
}

answer-IsExpected_example : IsExpected unknown_entry
unfolding handle create_fs sandboxfs_rust.Path.path_beq sandboxfs_rust.Path.from_bytes
    sandboxfs_rust.Path.to_components sandboxfs_rust.Path.split sandboxfs_rust.Path.join
    sandboxfs_rust.Path.without_dots
answer-IsExpected_example =
    answer-IsExpected (test_os true) ttl false shared-IsCreated here (unlink 1 (bytes "d"))
      unknown_entry refl
