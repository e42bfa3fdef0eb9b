-- ===== src/Unmount.antt =====
-- src/concurrent.rs: `retry_unmount`. The results of the attempts to unmount are given as a list;
-- durations are in milliseconds.
pub mod Backoff
use sandboxfs_rust.Base.{ℕ, ◌*◌, Bool, true, false, List, [], ◌∷◌, ltb, if◌then◌else◌}
use Prim.Native.Nat.{min}

abbrev pub goal : ℕ
goal = 1000

unfoldable pub next_backoff : ℕ → ℕ
next_backoff backoff = if ltb backoff goal then min goal (backoff * 2) else backoff

-- The times that the loop sleeps, from a first backoff on, up to the first attempt that succeeds.
unfoldable pub sleeps : ℕ → List Bool → List ℕ
unfolding next_backoff
sleeps backoff [] = []
sleeps backoff (true ∷ results) = []
sleeps backoff (false ∷ results) = backoff ∷ sleeps (next_backoff backoff) results

unfoldable pub retry_unmount : List Bool → List ℕ
unfolding sleeps
retry_unmount results = sleeps 10 results
