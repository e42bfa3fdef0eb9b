-- ===== src/Errors/Chain.antt =====
-- The text of a chain of causes (`flatten_causes` in src/errors.rs).
use sandboxfs_rust.Base.{ℕ, ◌≡◌, ◌≢◌, ◌∙◌, sym, List, [], ◌∷◌, ◌++◌, Bytes, bytes, refl, ap, map}
use mathlib.Core.List.{append_assoc, append-nil}
use sandboxfs_rust.Errors.{Cause, Failure, flatten_step, flatten_from, flatten_causes}

-- The texts joined by a colon and a blank.
abbrev pub joined : List Bytes → Bytes
joined [] = []
joined (t ∷ []) = t
joined (t ∷ u ∷ ts) = t ++ (bytes ": " ++ joined (u ∷ ts))

abbrev pub AllNonempty : List Bytes → Type 0
AllNonempty [] = Unit
AllNonempty (t ∷ ts) = (t ≢ []) × AllNonempty ts

-- What each further cause adds.
suffix : List Bytes → Bytes
suffix [] = []
suffix (t ∷ ts) = bytes ": " ++ (t ++ suffix ts)

joined-cons : (t : Bytes) (ts : List Bytes) → joined (t ∷ ts) ≡ t ++ suffix ts
unfolding suffix
joined-cons t [] = sym (append-nil t)
joined-cons t (u ∷ ts) = ap (λ r. t ++ (bytes ": " ++ r)) (joined-cons u ts)

flatten_from-suffix :
    (c : ℕ) (acc : Bytes) (ts : List Bytes) → flatten_from (c ∷ acc) ts ≡ (c ∷ acc) ++ suffix ts
unfolding flatten_from flatten_step suffix
flatten_from-suffix c acc [] = sym (append-nil (c ∷ acc))
flatten_from-suffix c acc (t ∷ ts) =
    flatten_from-suffix c ((acc ++ bytes ": ") ++ t) ts ∙ simp append_assoc

-- The text of an error is the texts of its causes, the outermost first, with a colon and a blank
-- between two, if no text is empty.
pub flatten_causes-joined :
    (display : Cause → Bytes) (f : Failure)
    → AllNonempty (map display f.chain)
    → flatten_causes display f ≡ joined (map display f.chain)
unfolding flatten_causes
flatten_causes-joined display f h = go (map display f.chain) h
  where
    go : (ts : List Bytes) → AllNonempty ts → flatten_from [] ts ≡ joined ts
    go [] h = unfold flatten_from in refl
    go ([] ∷ ts) h = absurd (h.0 refl)
    go ((c ∷ t) ∷ ts) h =
        (unfold flatten_from flatten_step in flatten_from-suffix c t ts)
        ∙ sym (joined-cons (c ∷ t) ts)
