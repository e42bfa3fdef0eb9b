-- ===== src/Monad/Bind.antt =====
-- What a sequence of operations that ended well has done.
use sandboxfs_rust.Base.{◌≡◌, refl, arith}
use sandboxfs_rust.State.{State}
use sandboxfs_rust.Monad.{M, Outcome, ok, err, panic, ◌>>=◌}

module _ {W E A B : Type 0} where
  continue_ok :
      (r : Outcome E A) (s1 : State W) (f : A → M W E B) (b : B) (s' : State W)
      → (◌>>=◌ {W = W} {E = E} {A = A} {B = B} (λ _. (r, s1)) f s1) ≡ (ok b, s')
      → (a : A) × (r ≡ ok a) × (f a s1 ≡ (ok b, s'))
  continue_ok (ok a) s1 f b s' h = (a, refl, h)
  continue_ok (err e) s1 f b s' h = ground arith
  continue_ok (panic p) s1 f b s' h = ground arith

  -- The first operation has returned a value, with which the second has gone on.
  pub >>=-eq-ok :
      (m : M W E A) (f : A → M W E B) (s : State W) (b : B) (s' : State W)
      → (m >>= f) s ≡ (ok b, s')
      → (a : A) × (s1 : State W) × (m s ≡ (ok a, s1)) × (f a s1 ≡ (ok b, s'))
  >>=-eq-ok m f s b s' h =
      let (a, e, rest) = continue_ok (m s).0 (m s).1 f b s' h in
      (a, (m s).1, λ i. (e i, (m s).1), rest)
