-- ===== src/Monad/Steps.antt =====
-- The steps that operations are built from keep the memory valid.
use mathlib.Core.Path.{subst}
use sandboxfs_rust.Base.{
  ℕ, ◌+◌, ◌-◌, ◌^◌, ◌%◌, ◌<◌, ◌≤◌, Bool, leb, nat_beq_iff, ◌∙◌, true, Option, none, some, ◌≡◌, refl,
  eq_refl, sym, ap, ◌⊎◌, inl, inr, arith, ◌==◌, nat_eq, Option-cases, Bool-cases,
}
use sandboxfs_rust.State.{State, Node, dir, file, symlink, Cache, Handle, inode_of}
use sandboxfs_rust.State.Valid.{
  Tag, tag_of, tag_at, any, children_of, Is, Has, CacheKnown, ChildrenKnown, HandleKnown, IsValid,
  Grows, Grows-refl, ChildrenKnown-Grows, CacheKnown-Grows, HandleKnown-Grows, Is-Grows,
}
use sandboxfs_rust.Os.{Call}
use sandboxfs_rust.Errors.{Result}
use sandboxfs_rust.Monad.{modify, fetch, next, store, set_cache, attempt, invoke, update, lift}
use sandboxfs_rust.Monad.Keeps.{with_valid, Post-pure, Post-raise, Post, Holds, Anything}

inode_of-tag_of : (n : Node) → (tag_of n).inode ≡ inode_of n
inode_of-tag_of (dir i w st) = refl
inode_of-tag_of (file i w st) = refl
inode_of-tag_of (symlink i w st) = refl

-- The node of a tag that is found.
pub node_at :
    {W : Type 0} (s : State W) (a : ℕ) (t : Tag)
    → tag_at s a ≡ some t
    → (n : Node) × (s.arena a ≡ some n) × (tag_of n ≡ t)
node_at s a t e = elim (Option-cases (s.arena a)) [
  | inl missing ↦ absurd (ground arith)
  | inr (n, there) ↦ (n, there, ground arith)
]

-- An identifier that nothing has yet.
pub record IsFresh {W : Type 0} (i : ℕ) (s : State W) : Type 0 where
  pub given : i < s.last_id
  pub no_node : s.arena i ≡ none
  pub no_handle : s.handles i ≡ none

module _ {W : Type 0} (s : State W) (v : IsValid s) where
  last_id_IsFree : (s.arena s.last_id ≡ none) × (s.handles s.last_id ≡ none)
  last_id_IsFree = (
    elim (Option-cases (s.arena s.last_id)) [
      | inl missing ↦ missing
      | inr (n, there) ↦ absurd (omega (arith, (v.own s.last_id n there).1))
    ],
    elim (Option-cases (s.handles s.last_id)) [
      | inl missing ↦ missing
      | inr (h, there) ↦ absurd (omega (arith, (v.opened s.last_id h there).0))
    ],
  )

  module _ (w : W) (k : ℕ) (more : s.last_id ≤ k) where
    abbrev pub moved : State W
    moved = record s { world = w; last_id = k }

    moved-Grows : Grows s moved
    moved-Grows = record { ids = more; tags = λ a t e. e }

    -- The world and the counter may change.
    pub moved-IsValid : IsValid moved
    moved-IsValid = record {
      own = λ a n e.
          let (i, lt, below) = v.own a n e in
          (i, omega arith, ChildrenKnown-Grows moved-Grows (children_of n) below);
      named = λ i a e. let (same, known) = v.named i a e in (same, Is-Grows moved-Grows known);
      opened = λ fh h e.
          let (lt, known) = v.opened fh h e in (omega arith, HandleKnown-Grows moved-Grows h known);
      cached = CacheKnown-Grows moved-Grows s.cache v.cached;
    }

  module _ (a : ℕ) (n : Node) (given : inode_of n ≡ a) (lt : a < s.last_id)
      (below : ChildrenKnown s (children_of n))
      (same : (t : Tag) → tag_at s a ≡ some t → t ≡ tag_of n) where
    abbrev written : State W
    written = record s { arena = update s.arena a (some n) }

    written-Grows : Grows s written
    written-Grows = record {
      ids = omega arith;
      tags = λ b t e. elim (Bool-cases (a == b)) [
        | inl here ↦
            let p = (nat_beq_iff a b).0 here in
            rw here (ap some (sym (same t (subst (λ x. tag_at s x ≡ some t) (sym p) e))))
        | inr there ↦ rw there e
      ];
    }

    written-IsValid : IsValid written
    written-IsValid = record {
      own = λ b m e. elim (Bool-cases (a == b)) [
        | inl here ↦
            let p = (nat_beq_iff a b).0 here in
            let eq : n ≡ m = ground arith in
            subst (λ x. (inode_of x ≡ b) × (b < s.last_id) × ChildrenKnown written (children_of x))
              eq (given ∙ p, omega arith, ChildrenKnown-Grows written-Grows (children_of n) below)
        | inr there ↦
            let old : s.arena b ≡ some m = ground arith in
            let (i, given', known) = v.own b m old in
            (i, given', ChildrenKnown-Grows written-Grows (children_of m) known)
      ];
      named = λ i b e. let (eq, known) = v.named i b e in (eq, Is-Grows written-Grows known);
      opened = λ fh h e.
          let (given, known) = v.opened fh h e in (given, HandleKnown-Grows written-Grows h known);
      cached = CacheKnown-Grows written-Grows s.cache v.cached;
    }

module _ {W : Type 0} (s : State W) (v : IsValid s) (c : Cache) (ns : ℕ → Option ℕ)
    (hs : ℕ → Option Handle) (cached : CacheKnown s c)
    (named : (i a : ℕ) → ns i ≡ some a → (a ≡ i) × Is s any a)
    (opened : (fh : ℕ) (h : Handle) → hs fh ≡ some h → (fh < s.last_id) × HandleKnown s h) where
  abbrev listed : State W
  listed = record s { cache = c; nodes = ns; handles = hs }

  listed-Grows : Grows s listed
  listed-Grows = record { ids = omega arith; tags = λ a t e. e }

  -- The cache and the tables may change as long as they name nodes.
  listed-IsValid : IsValid listed
  listed-IsValid = record {
    own = λ a n e.
        let (i, lt, below) = v.own a n e in
        (i, lt, ChildrenKnown-Grows listed-Grows (children_of n) below);
    named = λ i a e. let (same, known) = named i a e in (same, Is-Grows listed-Grows known);
    opened =
        λ fh h e. let (lt, known) = opened fh h e in (lt, HandleKnown-Grows listed-Grows h known);
    cached = CacheKnown-Grows listed-Grows c cached;
  }

module _ {W : Type 0} where
  pub inode_of-Has : (s : State W) → IsValid s → (a : ℕ) (n : Node) → Has s a n → inode_of n ≡ a
  inode_of-Has s v a n h =
      let (old, there, tagged) = node_at s a (tag_of n) h.there in
      sym (inode_of-tag_of n)
      ∙ ap (λ t. t.inode) (sym tagged)
      ∙ inode_of-tag_of old
      ∙ (v.own a old there).0

module _ {W E : Type 0} where
  pub fetch_lem :
      (a : ℕ) {p : Tag → Bool} {s : State W}
      → Is s p a
      → Post {E = E} (λ n t. Has t a n × (p (tag_of n) ≡ true)) (fetch a) s
  unfolding fetch
  fetch_lem a {p} {s} k =
      let (n, there, tagged) = node_at s a k.tag k.there in
      record {
        holds = λ v. rw there (
          v,
          Grows-refl,
          (record { there = rw there refl; below = (v.own a n there).2 }, rw tagged k.passes),
        );
      }

  pub next_lem : {s : State W} → Post {E = E} (λ i t. (i ≡ s.last_id) × IsFresh i t) next s
  unfolding next
  next_lem {s} = elim (Bool-cases (leb (2 ^ 64 - 1) s.last_id)) [
    | inl full ↦ record { holds = λ v. rw full tt }
    | inr room ↦
        let wraps : (s.last_id + 1) % 2 ^ 64 ≡ s.last_id + 1 = ground arith in
        record {
          holds = λ v.
              let (no_node, no_handle) = last_id_IsFree s v in
              rw (room, wraps)
                (
                  moved-IsValid s v s.world (s.last_id + 1) (omega arith),
                  moved-Grows s v s.world (s.last_id + 1) (omega arith),
                  (refl, record { given = omega arith; no_node = no_node; no_handle = no_handle }),
                );
        }
  ]

  -- A node is written where there is none, or one with the same tag.
  pub store_lem :
      (a : ℕ) (n : Node) {s : State W}
      → inode_of n ≡ a
      → a < s.last_id
      → ChildrenKnown s (children_of n)
      → ((t : Tag) → tag_at s a ≡ some t → t ≡ tag_of n)
      → Post {E = E} (λ _ t. Has t a n) (store a n) s
  unfolding store
  store_lem a n {s} own given below same = record {
    holds = λ v. (
      written-IsValid s v a n own given below same,
      written-Grows s v a n own given below same,
      record {
        there = ground (arith, eq_refl a);
        below =
            ChildrenKnown-Grows (written-Grows s v a n own given below same) (children_of n) below;
      },
    );
  }

  -- A node whose tag stays is written again.
  pub rewrite_lem :
      (a : ℕ) (n n' : Node) {s : State W}
      → Has s a n
      → tag_of n' ≡ tag_of n
      → ChildrenKnown s (children_of n')
      → Post {E = E} (λ _ t. Has t a n') (store a n') s
  rewrite_lem a n n' {s} h same below = with_valid λ v.
      let (old, there, tagged) = node_at s a (tag_of n) h.there in
      let (i, lt, _) = v.own a old there in
      let inode : inode_of n' ≡ a =
        sym (inode_of-tag_of n')
        ∙ ap (λ t. t.inode) (same ∙ sym tagged)
        ∙ inode_of-tag_of old
        ∙ i in
      store_lem a n' inode lt below (λ t e. ground arith)

  pub attempt_lem :
      {F A : Type 0} (call : Call W F A) {s : State W} → Post {E = E} Anything (attempt call) s
  unfolding attempt
  attempt_lem call {s} = record {
    holds = λ v.
        let w = (call s.world).1 in
        (
          moved-IsValid s v w s.last_id (omega arith),
          moved-Grows s v w s.last_id (omega arith),
          tt,
        );
  }

  pub invoke_lem :
      {F A : Type 0} (convert : F → E) (call : Call W F A) {s : State W}
      → Post Anything (invoke convert call) s
  unfolding invoke
  invoke_lem {F} {A} convert call {s} = record {
    holds = λ v. go (call s.world).0 (call s.world).1 v;
  }
    where
      go :
          (r : Result F A) (w : W)
          → IsValid s
          → Holds s Anything
              (invoke {W = W} convert (λ _. (r, w)) s).0
              (invoke {W = W} convert (λ _. (r, w)) s).1
      go (Result.ok a) w v = (
        moved-IsValid s v w s.last_id (omega arith),
        moved-Grows s v w s.last_id (omega arith),
        tt,
      )
      go (Result.err e) w v =
          (moved-IsValid s v w s.last_id (omega arith), moved-Grows s v w s.last_id (omega arith))

  pub lift_lem : {A : Type 0} (r : Result E A) {s : State W} → Post Anything (lift r) s
  unfolding lift
  lift_lem (Result.ok a) = Post-pure a tt
  lift_lem (Result.err e) = Post-raise e

  pub set_cache_lem :
      (c : Cache) {s : State W} → CacheKnown s c → Post {E = E} Anything (set_cache c) s
  set_cache_lem c {s} known = record {
    holds = λ v. (
      listed-IsValid s v c s.nodes s.handles known v.named v.opened,
      listed-Grows s v c s.nodes s.handles known v.named v.opened,
      tt,
    );
  }

  pub set_nodes_lem :
      (f : (ℕ → Option ℕ) → ℕ → Option ℕ) {s : State W}
      → ((i a : ℕ) → f s.nodes i ≡ some a → (s.nodes i ≡ some a) ⊎ ((a ≡ i) × Is s any a))
      → Post {E = E} Anything (modify (λ s. record s { nodes = f s.nodes })) s
  set_nodes_lem f {s} listed_ok = record {
    holds = λ v.
        let named = λ (i a : ℕ) (e : f s.nodes i ≡ some a). named_of v i a (listed_ok i a e) in
        (
          listed-IsValid s v s.cache (f s.nodes) s.handles v.cached named v.opened,
          listed-Grows s v s.cache (f s.nodes) s.handles v.cached named v.opened,
          tt,
        );
  }
    where
      named_of :
          IsValid s
          → (i a : ℕ) → (s.nodes i ≡ some a) ⊎ ((a ≡ i) × Is s any a)
          → (a ≡ i) × Is s any a
      named_of v i a (inl old) = v.named i a old
      named_of v i a (inr new) = new

  pub set_handles_lem :
      (f : (ℕ → Option Handle) → ℕ → Option Handle) {s : State W}
      → ((fh : ℕ) (h : Handle)
          → f s.handles fh ≡ some h
          → (s.handles fh ≡ some h) ⊎ ((fh < s.last_id) × HandleKnown s h))
      → Post {E = E} Anything (modify (λ s. record s { handles = f s.handles })) s
  set_handles_lem f {s} listed_ok = record {
    holds = λ v.
        let opened = λ (fh : ℕ) (h : Handle) (e : f s.handles fh ≡ some h).
          opened_of v fh h (listed_ok fh h e) in
        (
          listed-IsValid s v s.cache s.nodes (f s.handles) v.cached v.named opened,
          listed-Grows s v s.cache s.nodes (f s.handles) v.cached v.named opened,
          tt,
        );
  }
    where
      opened_of :
          IsValid s
          → (fh : ℕ) (h : Handle) → (s.handles fh ≡ some h) ⊎ ((fh < s.last_id) × HandleKnown s h)
          → (fh < s.last_id) × HandleKnown s h
      opened_of v fh h (inl old) = v.opened fh h old
      opened_of v fh h (inr new) = new
