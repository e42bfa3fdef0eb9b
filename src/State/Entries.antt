-- ===== src/State/Entries.antt =====
-- The entries of directories and of the cache still name nodes after a change.
use sandboxfs_rust.Base.{
  ℕ, some, List, [], ◌∷◌, Bytes, ◌≡◌, inl, inr, arith, ◌==◌, nat_eq, list_eq, Bool-cases,
}
use sandboxfs_rust.Base.Assoc.{get, insert, remove}
use sandboxfs_rust.Path.{FilePath, path_eq}
use sandboxfs_rust.State.{State, Dirent, Children}
use sandboxfs_rust.State.Valid.{any, Is, ChildrenKnown, EntriesKnown}

module _ {W : Type 0} (s : State W) where
  pub get-ChildrenKnown :
      (name : Bytes) (cs : Children) (d : Dirent)
      → ChildrenKnown s cs
      → get name cs ≡ some d
      → Is s any d.node
  unfolding get
  get-ChildrenKnown name [] d k e = absurd (ground arith)
  get-ChildrenKnown name ((n, c) ∷ rest) d k e = elim (Bool-cases (n == name)) [
    | inl here ↦ let same : c ≡ d = ground arith in rw (← same) k.0
    | inr there ↦ get-ChildrenKnown name rest d k.1 (ground arith)
  ]

  pub insert-ChildrenKnown :
      (name : Bytes) (d : Dirent) (cs : Children)
      → Is s any d.node
      → ChildrenKnown s cs
      → ChildrenKnown s (insert name d cs)
  unfolding insert
  insert-ChildrenKnown name d [] h k = (h, tt)
  insert-ChildrenKnown name d ((n, c) ∷ rest) h k = elim (Bool-cases (n == name)) [
    | inl here ↦ rw here (h, k.1)
    | inr there ↦ rw there (k.0, insert-ChildrenKnown name d rest h k.1)
  ]

  pub remove-ChildrenKnown :
      (name : Bytes) (cs : Children) → ChildrenKnown s cs → ChildrenKnown s (remove name cs)
  unfolding remove
  remove-ChildrenKnown name [] k = tt
  remove-ChildrenKnown name ((n, c) ∷ rest) k = elim (Bool-cases (n == name)) [
    | inl here ↦ rw here (remove-ChildrenKnown name rest k.1)
    | inr there ↦ rw there (k.0, remove-ChildrenKnown name rest k.1)
  ]

  pub get-EntriesKnown :
      (path : FilePath) (es : List (FilePath × ℕ)) (a : ℕ)
      → EntriesKnown s es
      → get path es ≡ some a
      → Is s any a
  unfolding get
  get-EntriesKnown path [] a k e = absurd (ground arith)
  get-EntriesKnown path ((p, b) ∷ rest) a k e = elim (Bool-cases (p == path)) [
    | inl here ↦ let same : b ≡ a = ground arith in rw (← same) k.0
    | inr there ↦ get-EntriesKnown path rest a k.1 (ground arith)
  ]

  pub insert-EntriesKnown :
      (path : FilePath) (a : ℕ) (es : List (FilePath × ℕ))
      → Is s any a
      → EntriesKnown s es
      → EntriesKnown s (insert path a es)
  unfolding insert
  insert-EntriesKnown path a [] h k = (h, tt)
  insert-EntriesKnown path a ((p, b) ∷ rest) h k = elim (Bool-cases (p == path)) [
    | inl here ↦ rw here (h, k.1)
    | inr there ↦ rw there (k.0, insert-EntriesKnown path a rest h k.1)
  ]

  pub remove-EntriesKnown :
      (path : FilePath) (es : List (FilePath × ℕ))
      → EntriesKnown s es
      → EntriesKnown s (remove path es)
  unfolding remove
  remove-EntriesKnown path [] k = tt
  remove-EntriesKnown path ((p, b) ∷ rest) k = elim (Bool-cases (p == path)) [
    | inl here ↦ rw here (remove-EntriesKnown path rest k.1)
    | inr there ↦ rw there (k.0, remove-EntriesKnown path rest k.1)
  ]
