-- ===== src/Mapping/Parts.antt =====
-- Which mappings are accepted (`Mapping::from_parts` in src/lib.rs).
use sandboxfs_rust.Base.{Bool, true, ◌≡◌, ◌↔◌, List, [], ◌∷◌, refl, arith}
use sandboxfs_rust.Path.{FilePath, Component, cur_dir, parent_dir, normal}
use sandboxfs_rust.Monad.{ok}
use sandboxfs_rust.Mapping.{Mapping, check_components, from_parts}

abbrev pub AllNormal : List Component → Type 0
AllNormal [] = Unit
AllNormal (normal _ ∷ cs) = AllNormal cs
AllNormal (parent_dir ∷ cs) = ⊥
AllNormal (cur_dir ∷ cs) = ⊥

check_components_iff :
    (p : FilePath) (cs : List Component) → (check_components p cs ≡ ok tt) ↔ AllNormal cs
unfolding check_components
check_components_iff p [] = (λ _. tt, λ _. refl)
check_components_iff p (normal n ∷ cs) = check_components_iff p cs
check_components_iff p (parent_dir ∷ cs) = (λ h. absurd (ground arith), λ h. absurd h)
check_components_iff p (cur_dir ∷ cs) = (λ h. absurd (ground arith), λ h. absurd h)

-- A mapping is accepted exactly when both of its paths are absolute and the path inside the sandbox
-- has only normal components; it then consists of the parts that were given.
pub from_parts_iff :
    (p u : FilePath) (w : Bool) (m : Mapping)
    → (from_parts p u w ≡ ok m) ↔ (
        (p.absolute ≡ true)
        × AllNormal p.components
        × (u.absolute ≡ true)
        × (m ≡ record { path = p; underlying_path = u; writable = w }))
unfolding from_parts
from_parts_iff p u w m = ground (arith, check_components_iff p p.components)
