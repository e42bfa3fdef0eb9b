-- ===== src/Monad/Keeps.antt =====
-- Operations that keep the memory valid and its nodes as they are, with one rule for each way to
-- build an operation.
use sandboxfs_rust.Base.{
  Bool, true, false, Option, none, some, not, ◌&&◌, ◌≡◌, refl, nat_eq, if◌then◌else◌,
}
use sandboxfs_rust.Os.{Os}
use sandboxfs_rust.State.{State}
use sandboxfs_rust.State.Valid.{IsValid, Grows, Grows-refl, Grows-trans}
use sandboxfs_rust.Monad.{
  M, Outcome, ok, err, panic, Panic, dangling, handle_in_use, wrong_type_for_node, same_directory,
  pure, raise, abort, gets, expect, assert, debug_assert, raise_if, ◌>>=◌, ◌>>◌, on_error, map_err,
}

-- The panics that no request can bring about.
abbrev pub IsExpected : Panic → Type 0
IsExpected dangling = ⊥
IsExpected handle_in_use = ⊥
IsExpected wrong_type_for_node = ⊥
IsExpected same_directory = ⊥
IsExpected _ = Unit

abbrev pub Holds :
    {W E A : Type 0} → State W → (A → State W → Type 0) → Outcome E A → State W → Type 0
Holds s Q (ok a) s' = IsValid s' × Grows s s' × Q a s'
Holds s Q (err e) s' = IsValid s' × Grows s s'
Holds s Q (panic p) s' = IsExpected p

-- From a valid memory the operation leads to a valid one in which each node is still there with its
-- tag, and a result has the property `Q`; or it panics in an expected way.
pub record Post {W E A : Type 0} (Q : A → State W → Type 0) (m : M W E A) (s : State W)
    : Type 0 where
  pub holds : IsValid s → Holds s Q (m s).0 (m s).1

abbrev pub Anything : {W A : Type 0} → A → State W → Type 0
Anything _ _ = Unit

module _ {W E A : Type 0} (Q : A → State W → Type 0) where
  Holds-from : (r : Outcome E A) (s s1 s2 : State W) → Grows s s1 → Holds s1 Q r s2 → Holds s Q r s2
  Holds-from (ok a) s s1 s2 g (v, h, q) = (v, Grows-trans g h, q)
  Holds-from (err e) s s1 s2 g (v, h) = (v, Grows-trans g h)
  Holds-from (panic p) s s1 s2 g h = h

module _ {W E A : Type 0} {Q : A → State W → Type 0} where
  pub Post-pure : (a : A) {s : State W} → Q a s → Post {E = E} Q (pure a) s
  Post-pure a q = record { holds = λ v. (v, Grows-refl, q) }

  pub Post-raise : (e : E) {s : State W} → Post Q (raise e) s
  Post-raise e = record { holds = λ v. (v, Grows-refl) }

  pub Post-abort : (p : Panic) {s : State W} → IsExpected p → Post {E = E} Q (abort p) s
  Post-abort p q = record { holds = λ v. q }

  -- What the memory's validity says may be used.
  pub with_valid : {m : M W E A} {s : State W} → (IsValid s → Post Q m s) → Post Q m s
  with_valid k = record { holds = λ v. (k v).holds v }

  pub Post-if :
      (b : Bool) {m n : M W E A} {s : State W}
      → (b ≡ true → Post Q m s)
      → (b ≡ false → Post Q n s)
      → Post Q (if b then m else n) s
  Post-if true k l = k refl
  Post-if false k l = l refl

module _ {W E A B : Type 0} {Q : B → State W → Type 0} where
  continue :
      {P : A → State W → Type 0} (f : A → M W E B) (s s1 : State W) (r : Outcome E A)
      → ((a : A) (t : State W) → Grows s t → P a t → Post Q (f a) t)
      → Holds s P r s1
      → Holds s Q
          (◌>>=◌ {W = W} {E = E} {A = A} {B = B} (λ _. (r, s1)) f s).0
          (◌>>=◌ {W = W} {E = E} {A = A} {B = B} (λ _. (r, s1)) f s).1
  continue f s s1 (ok a) k (v, g, p) =
      Holds-from Q (f a s1).0 s s1 (f a s1).1 g ((k a s1 g p).holds v)
  continue f s s1 (err e) k h = h
  continue f s s1 (panic p) k h = h

  pub bind :
      {P : A → State W → Type 0} {m : M W E A} {f : A → M W E B} {s : State W}
      → Post P m s
      → ((a : A) (t : State W) → Grows s t → P a t → Post Q (f a) t)
      → Post Q (m >>= f) s
  bind {P} {m} {f} {s} h k = record { holds = λ v. continue f s (m s).1 (m s).0 k (h.holds v) }

-- Steps that leave the memory alone.
module _ {W E : Type 0} {s : State W} where
  pub gets_lem :
      {A : Type 0} (f : State W → A) → Post {E = E} (λ a t. (a ≡ f s) × (t ≡ s)) (gets f) s
  gets_lem f = record { holds = λ v. (v, Grows-refl, (refl, refl)) }

  pub assert_lem :
      (b : Bool) (p : Panic)
      → (b ≡ false → IsExpected p)
      → Post {E = E} (λ _ t. (b ≡ true) × (t ≡ s)) (assert b p) s
  assert_lem true p q = Post-pure tt (refl, refl)
  assert_lem false p q = Post-abort p (q refl)

  pub debug_assert_lem :
      (os : Os W) (b : Bool) (p : Panic)
      → IsExpected p
      → Post {E = E} (λ _ t. t ≡ s) (debug_assert os b p) s
  debug_assert_lem os b p q = go (not (os.debug_assertions && not b))
    where
      go : (c : Bool) → Post {E = E} (λ _ t. t ≡ s) (assert c p) s
      go true = Post-pure tt refl
      go false = Post-abort p q

  pub raise_if_lem : (b : Bool) (e : E) → Post (λ _ t. (b ≡ false) × (t ≡ s)) (raise_if b e) s
  raise_if_lem false e = Post-pure tt (refl, refl)
  raise_if_lem true e = Post-raise e

  pub expect_lem :
      {A : Type 0} (o : Option A) (p : Panic)
      → IsExpected p
      → Post {E = E} (λ a t. (o ≡ some a) × (t ≡ s)) (expect o p) s
  expect_lem none p q = Post-abort p q
  expect_lem (some a) p q = Post-pure a (refl, refl)

module _ {W E A : Type 0} {Q : A → State W → Type 0} where
  pub on_error_lem :
      {m : M W E A} {handler : M W E (Unit {0})} {s : State W}
      → Post Q m s
      → ((t : State W) → Grows s t → Post Anything handler t)
      → Post Q (on_error m handler) s
  on_error_lem {m} {handler} {s} h k = record { holds = λ v. go (m s).0 (m s).1 (h.holds v) }
    where
      go :
          (r : Outcome E A) (t : State W)
          → Holds s Q r t
          → Holds s Q
              (on_error {W = W} {E = E} {A = A} (λ _. (r, t)) handler s).0
              (on_error {W = W} {E = E} {A = A} (λ _. (r, t)) handler s).1
      go (ok a) t h = h
      go (panic p) t h = h
      go (err e) t (v, g) =
          let after : Post Q (handler >> raise e) t =
            bind {f = λ _. raise e} (k t g) (λ _ u _ _. Post-raise e) in
          Holds-from Q (◌>>◌ handler (raise e) t).0 s t (◌>>◌ handler (raise e) t).1 g
            (after.holds v)

  pub map_err_lem : (f : E → E) {m : M W E A} {s : State W} → Post Q m s → Post Q (map_err f m) s
  map_err_lem f {m} {s} h = record { holds = λ v. go (m s).0 (m s).1 (h.holds v) }
    where
      go :
          (r : Outcome E A) (t : State W)
          → Holds s Q r t
          → Holds s Q
              (map_err {W = W} {E = E} {A = A} f (λ _. (r, t)) s).0
              (map_err {W = W} {E = E} {A = A} f (λ _. (r, t)) s).1
      go (ok a) t h = h
      go (panic p) t h = h
      go (err e) t h = h

module _ {W E A : Type 0} {P Q : A → State W → Type 0} where
  pub Post-mono :
      {m : M W E A} {s : State W}
      → ((a : A) (t : State W) → P a t → Q a t)
      → Post P m s
      → Post Q m s
  Post-mono {m} {s} f h = record { holds = λ v. go (m s).0 (m s).1 (h.holds v) }
    where
      go : (r : Outcome E A) (t : State W) → Holds s P r t → Holds s Q r t
      go (ok a) t (v, g, p) = (v, g, f a t p)
      go (err e) t h = h
      go (panic p) t h = h

  -- The second part of what is known of the result.
  pub Post-weaken : {m : M W E A} {s : State W} → Post (λ a t. P a t × Q a t) m s → Post Q m s
  Post-weaken {m} {s} h = record { holds = λ v. go (m s).0 (m s).1 (h.holds v) }
    where
      go : (r : Outcome E A) (t : State W) → Holds s (λ a t. P a t × Q a t) r t → Holds s Q r t
      go (ok a) t (v, g, p) = (v, g, p.1)
      go (err e) t h = h
      go (panic p) t h = h

module _ {W E A B : Type 0} {Q : B → State W → Type 0} where
  pub Post-option :
      (o : Option A) {m : M W E B} {f : A → M W E B} {s : State W}
      → (o ≡ none → Post Q m s)
      → ((a : A) → o ≡ some a → Post Q (f a) s)
      → Post Q (elim o [ none ↦ m | some a ↦ f a ]) s
  Post-option none k l = k refl
  Post-option (some a) k l = l a refl

module _ {W E A : Type 0} {P : A → State W → Type 0} where
  -- A result has what follows from the memory having grown.
  pub Post-after :
      {B : State W → Type 0} {m : M W E A} {s : State W}
      → ((t : State W) → Grows s t → B t)
      → Post P m s
      → Post (λ _ t. B t) m s
  Post-after {B} {m} {s} f h = record { holds = λ v. go (m s).0 (m s).1 (h.holds v) }
    where
      go : (r : Outcome E A) (t : State W) → Holds s P r t → Holds s (λ (_ : A) t. B t) r t
      go (ok a) t (v, g, p) = (v, g, f t g)
      go (err e) t h = h
      go (panic p) t h = h
