-- ===== src/Run.antt =====
-- Operations of the parts of the program around the file system: each returns, fails or panics, and
-- what it has done to its state stays done.
use sandboxfs_rust.Base.{Bool, true, false, ◌≡◌, refl, ap, sym, ◌∙◌}
use sandboxfs_rust.Errors.{Result}
use sandboxfs_rust.Errors
use sandboxfs_rust.Monad.{Outcome, ok, err, panic, Panic}

abbrev pub Run : Type 0 → Type 0 → Type 0 → Type 0
Run S E A = S → Outcome E A × S

module _ {S E : Type 0} where
  infixl 5 ◌>>=◌ ◌>>◌
  abbrev pub ◌>>=◌ : {A B : Type 0} → Run S E A → (A → Run S E B) → Run S E B
  ◌>>=◌ m f s =
      let (r, t) = m s in elim r [ ok a ↦ f a t | err e ↦ (err e, t) | panic p ↦ (panic p, t) ]

  abbrev pub ◌>>◌ : {B : Type 0} → Run S E (Unit {0}) → Run S E B → Run S E B
  m >> k = m >>= λ _. k

  module _ {A : Type 0} where
    abbrev pub pure : A → Run S E A
    pure a s = (ok a, s)

    abbrev pub raise : E → Run S E A
    raise e s = (err e, s)

    abbrev pub abort : Panic → Run S E A
    abort p s = (panic p, s)

  abbrev pub assert : Bool → Panic → Run S E (Unit {0})
  assert true p = pure tt
  assert false p = abort p

  abbrev pub modify : (S → S) → Run S E (Unit {0})
  modify f s = (ok tt, f s)

-- What is done with the result of an operation.
abbrev after : {S E A B : Type 0} → (A → Run S E B) → Outcome E A × S → Outcome E B × S
after f (r, u) = elim r [ ok x ↦ f x u | err x ↦ (err x, u) | panic p ↦ (panic p, u) ]

-- What follows an operation that returned.
pub >>=-ok :
    {S E A B : Type 0} (m : Run S E A) (f : A → Run S E B) (a : A) (s t : S)
    → m s ≡ (ok a, t)
    → (m >>= f) s ≡ f a t
>>=-ok m f a s t e = ap (after f) e

-- Two ways to go on from an operation agree if they agree on what it gives.
pub >>=-cong :
    {S E A B : Type 0} (m : Run S E A) (f g : A → Run S E B) (s : S)
    → ((a : A) (t : S) → m s ≡ (ok a, t) → f a t ≡ g a t)
    → (m >>= f) s ≡ (m >>= g) s
>>=-cong {S} {E} {A} {B} m f g s same = by_result (m s).0 (m s).1 refl
  where
    by_result : (r : Outcome E A) (t : S) → m s ≡ (r, t) → (m >>= f) s ≡ (m >>= g) s
    by_result (ok a) t e = ap (after f) e ∙ same a t e ∙ sym (ap (after g) e)
    by_result (err x) t e = ap (after f) e ∙ sym (ap (after g) e)
    by_result (panic p) t e = ap (after f) e ∙ sym (ap (after g) e)

abbrev pub returned : {E A : Type 0} → Result E A → Outcome E A
returned (Errors.ok a) = ok a
returned (Errors.err e) = err e

-- A result instead of an error; a panic goes on.
abbrev pub attempt : {S E F A : Type 0} → Run S E A → Run S F (Result E A)
attempt m s =
    let (r, t) = m s in
    elim r [
      | ok a ↦ (ok (Errors.ok a), t)
      | err e ↦ (ok (Errors.err e), t)
      | panic p ↦ (panic p, t)
    ]
