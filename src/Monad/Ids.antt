-- ===== src/Monad/Ids.antt =====
-- The identifiers of src/lib.rs (`IdGenerator`).
use sandboxfs_rust.Base.{ℕ, ◌-◌, ◌^◌, ◌≤◌, ◌<◌, ◌≡◌, arith}
use sandboxfs_rust.State.{State}
use sandboxfs_rust.Monad.{ok, panic, out_of_identifiers, next}

module _ {W E : Type 0} where
  -- An identifier that is handed out is the counter's value, the next one handed out is larger, and
  -- the counter then stands above both.
  pub next-next :
      (s s1 s2 : State W) (i j : ℕ)
      → next {W = W} {E = E} s ≡ (ok i, s1)
      → next {W = W} {E = E} s1 ≡ (ok j, s2)
      → (i ≡ s.last_id) × (i < j) × (j < s2.last_id)
  unfolding next
  next-next s s1 s2 i j h k = ground arith

  -- The generator panics once its counter has reached the largest u64.
  pub next_exhausted :
      (s : State W) → 2 ^ 64 - 1 ≤ s.last_id → (next {W = W} {E = E} s).0 ≡ panic out_of_identifiers
  unfolding next
  next_exhausted s h = ground arith
