-- ===== src/Unmount/Backoff.antt =====
-- The waiting times of `retry_unmount` in src/concurrent.rs.
use sandboxfs_rust.Base.{
  ℕ, zero, suc, ◌*◌, Bool, true, false, List, [], ◌∷◌, ◌≡◌, ◌∙◌, refl, ap, arith,
}
use Prim.Native.Nat.{min}
use sandboxfs_rust.Unmount.{next_backoff, sleeps, retry_unmount}

abbrev pub failures : List Bool → ℕ
failures [] = 0
failures (true ∷ results) = 0
failures (false ∷ results) = suc (failures results)

-- So many times, each twice the one before it and none cut off, and of each the part up to a
-- second.
abbrev pub doubling : ℕ → ℕ → List ℕ
doubling t zero = []
doubling t (suc n) = min 1000 t ∷ doubling (t * 2) n

next_backoff-min : (t : ℕ) → next_backoff (min 1000 t) ≡ min 1000 (t * 2)
unfolding next_backoff
next_backoff-min t = ground arith

sleeps-doubling :
    (t : ℕ) (results : List Bool) → sleeps (min 1000 t) results ≡ doubling t (failures results)
unfolding sleeps
sleeps-doubling t [] = refl
sleeps-doubling t (true ∷ results) = refl
sleeps-doubling t (false ∷ results) =
    ap (λ b. min 1000 t ∷ sleeps b results) (next_backoff-min t)
    ∙ ap (λ ts. min 1000 t ∷ ts) (sleeps-doubling (t * 2) results)

-- The loop sleeps once for each failure before the first success: the n-th time for ten
-- milliseconds doubled n - 1 times, or for a second where that is longer.
pub retry_unmount-doubling :
    (results : List Bool) → retry_unmount results ≡ doubling 10 (failures results)
unfolding retry_unmount
retry_unmount-doubling results = sleeps-doubling 10 results
