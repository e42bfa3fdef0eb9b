-- ===== src/Os.antt =====
-- The operating system and the libraries under the program, none of which are in the repository:
-- a type `W` of states of the world and one function for each call. Proofs use nothing of the
-- functions but what a theorem states as a hypothesis.
use sandboxfs_rust.Base.{ℕ, Bool, Option, List, Bytes}
use sandboxfs_rust.Base.Int.{ℤ}
use sandboxfs_rust.Path.{FilePath}
use sandboxfs_rust.Errors.{Result, IoError, NixError}
use sandboxfs_rust.Attr.{Timespec, TimeVal, Metadata, OpenOptions}

-- A call that may change the world and may fail with an `E`.
abbrev pub Call : Type 0 → Type 0 → Type 0 → Type 0
Call W E A = W → Result E A × W

pub record Os (W : Type 0) : Type 0 where
  -- `cfg!(debug_assertions)` and `cfg!(have_utimensat = "1")`
  pub debug_assertions : Bool
  pub have_utimensat : Bool
  -- `Errno::from_i32`
  pub from_i32 : ℕ → ℕ
  -- `TimeVal::seconds(s) + TimeVal::nanoseconds(n)` and `TimeSpec::nanoseconds(n)`
  pub seconds_nanoseconds : ℤ → ℕ → TimeVal
  pub nanoseconds : ℤ → Timespec
  -- `time::get_time()`, `time::now().to_timespec()`, `getuid()` and `getgid()`
  pub now : W → Timespec
  pub getuid : W → ℕ
  pub getgid : W → ℕ
  -- `fs::symlink_metadata` and `fs::read_link`
  pub symlink_metadata : FilePath → Call W IoError Metadata
  pub read_link : FilePath → Call W IoError FilePath
  pub remove_file : FilePath → Call W IoError (Unit {0})
  pub remove_dir : FilePath → Call W IoError (Unit {0})
  pub rename : FilePath → FilePath → Call W IoError (Unit {0})
  pub create_dir : ℕ → FilePath → Call W IoError (Unit {0})
  pub symlink : FilePath → FilePath → Call W IoError (Unit {0})
  pub mknod : FilePath → ℕ → ℕ → ℕ → Call W NixError (Unit {0})
  pub unlink : FilePath → Call W NixError (Unit {0})
  -- Attribute changes: owners, mode, times and size.
  pub fchownat : FilePath → Option ℕ → Option ℕ → Call W NixError (Unit {0})
  pub fchmodat : FilePath → ℕ → Call W NixError (Unit {0})
  pub utimensat : FilePath → Timespec → Timespec → Call W NixError (Unit {0})
  pub utimes : FilePath → TimeVal → TimeVal → Call W NixError (Unit {0})
  pub truncate : FilePath → ℕ → Call W NixError (Unit {0})
  -- Open files, by descriptor.
  pub open_file : OpenOptions → FilePath → Call W IoError ℕ
  pub read_at : ℕ → ℕ → ℕ → Call W IoError Bytes
  pub write_at : ℕ → Bytes → ℕ → Call W IoError ℕ
  -- Open directories, by descriptor: the entries of one iteration, each a name or an error.
  pub open_dir : FilePath → ℕ → Call W NixError ℕ
  pub entries : ℕ → W → List (Result NixError Bytes)
  -- Extended attributes.
  pub xattr_get : FilePath → Bytes → Call W IoError (Option Bytes)
  pub xattr_list : FilePath → Call W IoError (List Bytes)
  pub xattr_set : FilePath → Bytes → Bytes → Call W IoError (Unit {0})
  pub xattr_remove : FilePath → Bytes → Call W IoError (Unit {0})
