-- ===== src/Reconfig/Files.antt =====
-- src/reconfig.rs: `open_input` and `open_output`.
use sandboxfs_rust.Base.{ℕ, Option, none, some}
use sandboxfs_rust.Path.{FilePath}
use sandboxfs_rust.Errors.{Result, IoError, NixError, Failure, failure, Cause, nix}
use sandboxfs_rust.Errors
use sandboxfs_rust.Os.{Call}
use sandboxfs_rust.Monad.{ok, err}
use sandboxfs_rust.Run.{Run}

-- `fs::File::open`, `OpenOptions::new().write(true).open` and `dup`, each with a new descriptor.
pub record Files (W : Type 0) : Type 0 where
  pub open_to_read : FilePath → Call W IoError ℕ
  pub open_to_write : FilePath → Call W IoError ℕ
  pub dup : ℕ → Call W NixError ℕ

-- The operator `?`, which keeps the error as the cause.
abbrev question : {W E : Type 0} → (E → Cause) → Call W E ℕ → Run W Failure ℕ
question cause c w =
    let (r, w') = c w in
    elim r [ Errors.ok fd ↦ (ok fd, w') | Errors.err e ↦ (err (failure (cause e)), w') ]

module _ {W : Type 0} (files : Files W) where
  -- The descriptor of `stdin` is 0, and that of `stdout` is 1.
  unfoldable pub open_input : Option FilePath → Run W Failure ℕ
  open_input (some path) = question Cause.io (files.open_to_read path)
  open_input none = question nix (files.dup 0)

  unfoldable pub open_output : Option FilePath → Run W Failure ℕ
  open_output (some path) = question Cause.io (files.open_to_write path)
  open_output none = question nix (files.dup 1)
