-- ===== src/Reconfig/Loop/Tally.antt =====
-- Sums over the lists of the loop of src/reconfig.rs, which do not depend on their order.
use sandboxfs_rust.Base.{ℕ, ◌+◌, List, [], ◌∷◌, ◌++◌, ◌≡◌, refl, arith}

abbrev pub tally : {A : Type 0} → (A → ℕ) → List A → ℕ
tally f [] = 0
tally f (x ∷ xs) = f x + tally f xs

pub tally-insert :
    {A : Type 0} (f : A → ℕ) (xs : List A) (y : A) (ys : List A)
    → tally f (xs ++ y ∷ ys) ≡ f y + tally f (xs ++ ys)
tally-insert f [] y ys = refl
tally-insert f (x ∷ xs) y ys = let h = tally-insert f xs y ys in omega arith
