-- ===== src/Concurrent/Shareable.antt =====
-- src/concurrent.rs: `ShareableFile` and `ShareableFileReader`.
pub mod Ends
use sandboxfs_rust.Base.{
  ℕ, Bool, true, false, not, ◌||◌, Option, none, some, List, [], ◌∷◌, ◌++◌, Bytes, leb,
  if◌then◌else◌,
}
use sandboxfs_rust.Errors.{Result, IoError, NixError, sys, other}
use sandboxfs_rust.Errors
use sandboxfs_rust.Os.{Call}
use sandboxfs_rust.Monad.{
  Outcome, ok, err, panic, Panic, not_a_system_error, nothing_ready, too_many_ready,
}
use sandboxfs_rust.Concurrent.{nix_to_io_error, has}
use sandboxfs_rust.Run.{Run, ◌>>=◌, ◌>>◌, pure, raise, abort, assert, modify, returned}

-- The calls of `nix` on descriptors. `pipe` gives the end to read from and the end to write to, and
-- `select` the number of descriptors of a set that are ready for reading and the set that is left.
pub record Descriptors (W : Type 0) : Type 0 where
  pub debug_assertions : Bool
  pub pipe : Call W NixError (ℕ × ℕ)
  pub write : ℕ → Bytes → Call W NixError ℕ
  pub close : ℕ → Call W NixError (Unit {0})
  pub select : List ℕ → Call W NixError (ℕ × List ℕ)
  pub read : ℕ → ℕ → Call W NixError Bytes

pub record ShareableFile : Type 0 where
  pub fd : ℕ
  pub watchers : List ℕ

pub record ShareableFileReader : Type 0 where
  pub fd : ℕ
  pub notifier : ℕ

-- What the threads share: the world, and the flag `closed` of one file and its readers.
pub record Shared (W : Type 0) : Type 0 where
  pub world : W
  pub closed : Bool

-- `ShareableFile::from`, for the descriptor of the file.
abbrev pub from : ℕ → ShareableFile
from fd = record { fd = fd; watchers = [] }

-- A call on descriptors, and its result or error.
abbrev pub invoke : {W E A : Type 0} → Call W NixError A → Run (Shared W) E (Result NixError A)
invoke c s = let (r, w) = c s.world in (ok r, record s { world = w })

module _ {W : Type 0} (d : Descriptors W) where
  -- `ShareableFile::reader`
  unfoldable pub reader :
      ShareableFile → Run (Shared W) IoError (ShareableFileReader × ShareableFile)
  unfolding nix_to_io_error
  reader file = do
    ends ← invoke d.pipe
    elim ends [
      | Errors.err e ↦ nix_to_io_error e
      | Errors.ok (notifier, watcher) ↦ pure (
        record { fd = file.fd; notifier = notifier },
        record file { watchers = file.watchers ++ watcher ∷ [] },
      )
    ]

  -- `e.as_errno().expect(...)`. Which errno it is decides only what is logged.
  abbrev expect_errno : {A : Type 0} → Result NixError A → Run (Shared W) IoError (Unit {0})
  expect_errno (Errors.ok a) = pure tt
  expect_errno (Errors.err (sys errno)) = pure tt
  expect_errno (Errors.err other) = abort not_a_system_error

  -- The body of the loop of `drop`, for one reader.
  unfoldable pub tell_watcher : ℕ → Run (Shared W) IoError (Unit {0})
  tell_watcher watcher = do
    written ← invoke (d.write watcher (0 ∷ []))
    expect_errno written
    closed ← invoke (d.close watcher)
    pure tt

  unfoldable pub tell_watchers : List ℕ → Run (Shared W) IoError (Unit {0})
  unfolding tell_watcher
  tell_watchers [] = pure tt
  tell_watchers (watcher ∷ rest) = do tell_watcher watcher; tell_watchers rest

  -- `unistd::close`, where a failure is only logged
  abbrev pub close_quietly : ℕ → Run (Shared W) IoError (Unit {0})
  close_quietly fd = do closed ← invoke (d.close fd); pure tt

  -- `ShareableFile::drop`
  unfoldable pub drop_file : ShareableFile → Run (Shared W) IoError (Unit {0})
  unfolding tell_watchers
  drop_file file = do
    modify (λ s. record s { closed = true })
    tell_watchers file.watchers
    close_quietly file.fd

  -- `ShareableFileReader::drop`
  unfoldable pub drop_reader : ShareableFileReader → Run (Shared W) IoError (Unit {0})
  drop_reader r = close_quietly r.notifier

  abbrev read_file : ShareableFileReader → ℕ → List ℕ → Run (Shared W) NixError Bytes
  read_file r size read_set = do
    assert (has r.fd read_set) nothing_ready
    content ← invoke (d.read r.fd size)
    λ s. (returned content, s)

  -- The closure of `and_then` in `read`: the notifier comes before the file.
  unfoldable pub read_ready : ShareableFileReader → ℕ → ℕ × List ℕ → Run (Shared W) NixError Bytes
  read_ready r size (ready_count, read_set) = do
    assert (not d.debug_assertions || leb ready_count 2) too_many_ready
    if has r.notifier read_set then pure [] else read_file r size read_set

  unfoldable pub wait_and_read : ShareableFileReader → ℕ → Run (Shared W) NixError Bytes
  unfolding read_ready
  wait_and_read r size = do
    selected ← invoke (d.select (r.fd ∷ r.notifier ∷ []))
    elim selected [ Errors.err e ↦ raise e | Errors.ok ready ↦ read_ready r size ready ]

  -- The `match` at the end of `read`, after `map_err`.
  unfoldable pub end_if_closed : NixError → Run (Shared W) IoError Bytes
  unfolding nix_to_io_error
  end_if_closed other s = nix_to_io_error other s
  end_if_closed (sys errno) s = if s.closed then (ok [], s) else nix_to_io_error (sys errno) s

  -- `ShareableFileReader::read`, into a buffer of a size
  unfoldable pub read : ShareableFileReader → ℕ → Run (Shared W) IoError Bytes
  unfolding wait_and_read end_if_closed
  read r size s =
      let (o, t) = wait_and_read r size s in
      elim o [ ok content ↦ (ok content, t) | panic p ↦ (panic p, t) | err e ↦ end_if_closed e t ]
