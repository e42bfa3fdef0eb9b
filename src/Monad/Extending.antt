-- ===== src/Monad/Extending.antt =====
-- Operations that keep the memory valid and leave every node as it is: they only add nodes.
use mathlib.Core.Path.{subst}
use sandboxfs_rust.Base.{
  ℕ, ◌-◌, ◌^◌, Bool, true, false, Option, none, some, ◌≡◌, refl, sym, inl, inr, arith, ◌==◌, nat_eq,
  nat_beq_iff, leb, Bool-cases,
}
use sandboxfs_rust.State.{State, Node, Cache, inode_of}
use sandboxfs_rust.State.Valid.{
  IsValid, Grows, Grows-refl, Is, Has, Tag, tag_of, CacheKnown, ChildrenKnown, children_of,
}
use sandboxfs_rust.State.Walk.{Extends, Extends-eq, Extends-trans}
use sandboxfs_rust.Errors.{Result}
use sandboxfs_rust.Os.{Call}
use sandboxfs_rust.Monad.{
  M, Outcome, Panic, assert, expect, dangling, ok, err, panic, ◌>>=◌, ◌>>◌, pure, raise_if, fetch,
  next, store, set_cache, attempt, invoke, update,
}
use sandboxfs_rust.Monad.Keeps.{
  Post, Holds, IsExpected, Anything, Post-pure, Post-mono, bind, with_valid,
}
use sandboxfs_rust.Monad.Steps.{
  IsFresh, node_at, next_lem, store_lem, attempt_lem, invoke_lem, set_cache_lem,
}

-- A result comes with all nodes as they were, and has the property `Q`.
abbrev pub Extending : {W E A : Type 0} → (A → State W → Type 0) → M W E A → State W → Type 0
Extending Q m s = Post (λ a t. Extends s t × Q a t) m s

module _ {W E A : Type 0} {Q : A → State W → Type 0} where
  -- The state that the operation leaves is known.
  pub with_state :
      {B : State W → Type 0} {m : M W E A} {s : State W}
      → B (m s).1
      → Post Q m s
      → Post (λ a t. B t × Q a t) m s
  with_state {B} {m} {s} known h = record { holds = λ v. go (m s).0 (m s).1 known (h.holds v) }
    where
      go : (r : Outcome E A) (t : State W) → B t → Holds s Q r t → Holds s (λ a t. B t × Q a t) r t
      go (ok a) t known (v, g, q) = (v, g, (known, q))
      go (err e) t known h = h
      go (panic p) t known h = h

  pub Extending-pure : (a : A) {s : State W} → Q a s → Extending {E = E} Q (pure a) s
  Extending-pure a q = Post-pure a (Extends-eq refl, q)

module _ {W E A B : Type 0} {Q : B → State W → Type 0} where
  pub extend :
      {P : A → State W → Type 0} {m : M W E A} {f : A → M W E B} {s : State W}
      → Extending P m s
      → ((a : A) (t : State W) → Grows s t → Extends s t → P a t → Extending Q (f a) t)
      → Extending Q (m >>= f) s
  extend h k = bind h (λ a t g (more, p).
      Post-mono (λ b u (later, q). (Extends-trans more later, q)) (k a t g more p))

-- The first step leaves the memory alone, and the rest goes on with what it has found.
module _ {W E B : Type 0} {Q : B → State W → Type 0} where
  pub after_fetch :
      (a : ℕ) {f : Node → M W E B} {s : State W} {p : Tag → Bool}
      → Is s p a
      → ((n : Node) → s.arena a ≡ some n → Has s a n → p (tag_of n) ≡ true → Post Q (f n) s)
      → Post Q (fetch a >>= f) s
  unfolding fetch
  after_fetch a {f} {s} {p} k rest = with_valid λ v.
      let (n, there, tagged) = node_at s a k.tag k.there in
      let h : Has s a n = record { there = rw there refl; below = (v.own a n there).2 } in
      record {
        holds = λ v.
            subst
              (λ o.
                Holds s Q (◌>>=◌ {W = W} {E = E} {A = Node} {B = B} (expect o dangling) f s).0
                  (◌>>=◌ {W = W} {E = E} {A = Node} {B = B} (expect o dangling) f s).1)
              (sym there) ((rest n there h (rw tagged k.passes)).holds v);
      }

  pub after_raise_if :
      (b : Bool) (e : E) {m : M W E B} {s : State W}
      → (b ≡ false → Post Q m s)
      → Post Q (raise_if b e >> m) s
  after_raise_if true e rest = record { holds = λ v. (v, Grows-refl) }
  after_raise_if false e rest = record { holds = λ v. (rest refl).holds v }

  -- An operation that computes to another at this state.
  pub Post-eq : {m n : M W E B} {s : State W} → m s ≡ n s → Post Q n s → Post Q m s
  Post-eq {s} e rest = record { holds = λ v. subst (λ r. Holds s Q r.0 r.1) (sym e) (rest.holds v) }

  pub after_expect :
      {A : Type 0} (o : Option A) (p : Panic) {f : A → M W E B} {s : State W}
      → IsExpected p
      → ((x : A) → o ≡ some x → Post Q (f x) s)
      → Post Q (expect o p >>= f) s
  after_expect none p {f} {s} q rest = record { holds = λ v. q }
  after_expect (some x) p {f} {s} q rest = record { holds = λ v. (rest x refl).holds v }

  -- An assertion that is true is no step.
  pub after_assert :
      (b : Bool) (p : Panic) {m : M W E B} {s : State W}
      → b ≡ true
      → Post Q m s
      → Post Q (assert b p >> m) s
  after_assert true p right rest = record { holds = λ v. rest.holds v }
  after_assert false p wrong rest = absurd (ground arith)

  -- The second part of what is known of the result.
  pub second :
      {P : B → State W → Type 0} {m : M W E B} {s : State W}
      → Extending (λ a t. P a t × Q a t) m s
      → Extending Q m s
  second h = Post-mono (λ a t r. (r.0, r.1.1)) h

module _ {W : Type 0} where
  next_arena : (E : Type 0) (s : State W) → (next {E = E} s).1.arena ≡ s.arena
  unfolding next
  next_arena E s = elim (Bool-cases (leb (2 ^ 64 - 1) s.last_id)) [
    | inl full ↦ rw full refl
    | inr room ↦ rw room refl
  ]

  update-Extends :
      (a : ℕ) (n : Node) (s : State W)
      → s.arena a ≡ none
      → Extends s (record s { arena = update s.arena a (some n) })
  update-Extends a n s missing = record {
    nodes = λ b m there. elim (Bool-cases (a == b)) [
      | inl here ↦
          absurd (ground (arith, subst (λ x. s.arena x ≡ none) ((nat_beq_iff a b).0 here) missing))
      | inr elsewhere ↦ rw elsewhere there
    ];
  }

module _ {W E : Type 0} where
  pub next-Extending : {s : State W} → Extending {E = E} IsFresh next s
  next-Extending {s} =
      with_state {B = Extends s} (Extends-eq (next_arena E s))
        (Post-mono (λ _ _ (_, fresh). fresh) next_lem)

  pub attempt-Extending :
      {F A : Type 0} (call : Call W F A) {s : State W} → Extending {E = E} Anything (attempt call) s
  unfolding attempt
  attempt-Extending call {s} = with_state {B = Extends s} (Extends-eq refl) (attempt_lem call)

  invoke_arena :
      {F A : Type 0} (convert : F → E) (call : Call W F A) (s : State W)
      → (invoke convert call s).1.arena ≡ s.arena
  unfolding invoke
  invoke_arena {F} {A} convert call s = go (call s.world).0 (call s.world).1
    where
      go : (r : Result F A) (w : W) → (invoke {W = W} convert (λ _. (r, w)) s).1.arena ≡ s.arena
      go (Result.ok a) w = refl
      go (Result.err e) w = refl

  pub invoke-Extending :
      {F A : Type 0} (convert : F → E) (call : Call W F A) {s : State W}
      → Extending Anything (invoke convert call) s
  invoke-Extending convert call {s} =
      with_state {B = Extends s} (Extends-eq (invoke_arena convert call s))
        (invoke_lem convert call)

  pub set_cache-Extending :
      (c : Cache) {s : State W} → CacheKnown s c → Extending {E = E} Anything (set_cache c) s
  set_cache-Extending c {s} known =
      with_state {B = Extends s} (Extends-eq refl) (set_cache_lem c known)

  pub store-Extending :
      (a : ℕ) (n : Node) {s : State W}
      → IsFresh a s
      → inode_of n ≡ a
      → ChildrenKnown s (children_of n)
      → Extending {E = E} (λ _ t. Has t a n) (store a n) s
  unfolding store
  store-Extending a n {s} fresh own below =
      with_state {B = Extends s} (update-Extends a n s fresh.no_node)
        (store_lem a n own fresh.given below (λ t e. absurd (ground (arith, fresh.no_node))))

-- What is shown of an operation holds of a result that it has given.
pub Post-ok :
    {W E A : Type 0} {Q : A → State W → Type 0} {m : M W E A} {s t : State W} {a : A}
    → Post Q m s
    → IsValid s
    → m s ≡ (ok a, t)
    → Q a t
Post-ok {Q} {s} h v e = let (_, _, q) = subst (λ r. Holds s Q r.0 r.1) e (h.holds v) in q

-- A result's property may use that the memory has grown.
pub with_growth :
    {W E A : Type 0} {P Q : A → State W → Type 0} {m : M W E A} {s : State W}
    → Post P m s
    → ((a : A) (t : State W) → Grows s t → P a t → Q a t)
    → Post Q m s
with_growth {W} {E} {A} {P} {Q} {m} {s} h f = record { holds = λ v. go (m s).0 (m s).1 (h.holds v) }
  where
    go : (r : Outcome E A) (t : State W) → Holds s P r t → Holds s Q r t
    go (ok a) t (v, g, p) = (v, g, f a t g p)
    go (err e) t h = h
    go (panic p) t h = h
