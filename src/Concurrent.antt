-- ===== src/Concurrent.antt =====
-- src/concurrent.rs: threads that share a file, and signals. What the calls of the system do to the
-- world is a parameter.
pub mod Shareable
pub mod Signals
use sandboxfs_rust.Base.{
  ℕ, Bool, true, false, Option, none, some, List, [], ◌∷◌, ◌||◌, ◌==◌, nat_eq, if◌then◌else◌, ◌≡◌,
  ap,
}
use sandboxfs_rust.Errors.{Result, IoError, NixError, sys, other}
use sandboxfs_rust.Errors
use sandboxfs_rust.Monad.{not_a_system_error}
use sandboxfs_rust.Run.{Run, raise, abort}

-- `nix_to_io_error`, as the end of an operation.
unfoldable pub nix_to_io_error : {S A : Type 0} → NixError → Run S IoError A
nix_to_io_error (sys errno) = raise (record { raw_os_error = some errno })
nix_to_io_error other = abort not_a_system_error

abbrev pub has : ℕ → List ℕ → Bool
has n [] = false
has n (m ∷ ms) = (n == m) || has n ms
