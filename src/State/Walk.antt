-- ===== src/State/Walk.antt =====
-- The entries of the directories in memory, found by name and by path. An operation that maps adds
-- nodes and entries, and takes nothing away.
use sandboxfs_rust.Base.{
  ℕ, Option, none, some, List, [], ◌∷◌, Bytes, ◌≡◌, ◌∙◌, sym, ap, inl, inr, arith, nat_eq, list_eq,
  Option-cases,
}
use sandboxfs_rust.Base.Assoc.{get}
use sandboxfs_rust.Path.{Component, normal, cur_dir, parent_dir}
use sandboxfs_rust.State.{State, Node, Dirent}
use sandboxfs_rust.State.Valid.{children_of}

abbrev pub child_in : Option Node → Bytes → Option Dirent
child_in none name = none
child_in (some n) name = get name (children_of n)

module _ {W : Type 0} where
  -- The entry of that name in the directory at the address.
  abbrev pub child_at : State W → ℕ → Bytes → Option Dirent
  child_at s a name = child_in (s.arena a) name

  abbrev pub step_at : State W → ℕ → Component → Option Dirent
  step_at s a (normal name) = child_at s a name
  step_at s a cur_dir = none
  step_at s a parent_dir = none

  -- The entry that the last component names, reached from the directory at the address.
  unfoldable pub entry_at : State W → ℕ → List Component → Option Dirent
  entry_at s a [] = none
  entry_at s a (c ∷ rest) = elim (step_at s a c) [
    | none ↦ none
    | some d ↦ elim rest [ [] ↦ some d | _ ∷ _ ↦ entry_at s d.node rest ]
  ]

module _ {W : Type 0} (s t : State W) where
  -- Each node is there as it was.
  pub record Extends : Type 0 where
    pub nodes : (a : ℕ) (n : Node) → s.arena a ≡ some n → t.arena a ≡ some n

  -- Each entry is there as it was.
  pub record Preserves : Type 0 where
    pub entries :
        (a : ℕ) (name : Bytes) (d : Dirent)
        → child_at s a name ≡ some d
        → child_at t a name ≡ some d

module _ {W : Type 0} {s t : State W} where
  pub Extends-eq : t.arena ≡ s.arena → Extends s t
  Extends-eq e = record { nodes = λ a n h. rw e h }

  pub Extends-trans : {u : State W} → Extends s t → Extends t u → Extends s u
  Extends-trans p q = record { nodes = λ a n h. q.nodes a n (p.nodes a n h) }

  pub Preserves-trans : {u : State W} → Preserves s t → Preserves t u → Preserves s u
  Preserves-trans p q = record { entries = λ a name d h. q.entries a name d (p.entries a name d h) }

  pub Extends-Preserves : Extends s t → Preserves s t
  Extends-Preserves p = record {
    entries = λ a name d h. elim (Option-cases (s.arena a)) [
      | inl missing ↦ absurd (ground (arith, ap (λ o. child_in o name) missing))
      | inr (n, there) ↦ ap (λ o. child_in o name) (p.nodes a n there ∙ sym there) ∙ h
    ];
  }

  -- A path that led to an entry still leads to it.
  pub entry_at-Preserves :
      (a : ℕ) (cs : List Component) (d : Dirent)
      → Preserves s t
      → entry_at s a cs ≡ some d
      → entry_at t a cs ≡ some d
  unfolding entry_at
  entry_at-Preserves a [] d p e = absurd (ground arith)
  entry_at-Preserves a (cur_dir ∷ rest) d p e = absurd (ground arith)
  entry_at-Preserves a (parent_dir ∷ rest) d p e = absurd (ground arith)
  entry_at-Preserves a (normal name ∷ []) d p e = elim (Option-cases (child_at s a name)) [
    | inl missing ↦ absurd (ground arith)
    | inr (c, there) ↦ let kept = p.entries a name c there in ground arith
  ]
  entry_at-Preserves a (normal name ∷ c ∷ cs) d p e = elim (Option-cases (child_at s a name)) [
    | inl missing ↦ absurd (ground arith)
    | inr (dirent, there) ↦
        let kept = p.entries a name dirent there in
        let below = entry_at-Preserves dirent.node (c ∷ cs) d p (ground arith) in ground arith
  ]

module _ {W : Type 0} (t : State W) where
  pub entry_at-last :
      (a : ℕ) (name : Bytes) (d : Dirent)
      → entry_at t a (normal name ∷ []) ≡ some d
      → child_at t a name ≡ some d
  unfolding entry_at
  entry_at-last a name d e = elim (Option-cases (child_at t a name)) [
    | inl missing ↦ absurd (ground arith)
    | inr (c, there) ↦ ground arith
  ]
