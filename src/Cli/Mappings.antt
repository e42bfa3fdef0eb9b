-- ===== src/Cli/Mappings.antt =====
-- The mappings that the command line's flags give (`parse_mappings` in src/main.rs).
use sandboxfs_rust.Base.{Bool, true, List, [], ◌∷◌, Bytes, ◌≡◌, arith, length}
use sandboxfs_rust.Path.{FilePath}
use sandboxfs_rust.Monad.{ok}
use sandboxfs_rust.Mapping.{Mapping, from_parts}
use sandboxfs_rust.Mapping.Parts.{AllNormal, from_parts_iff}
use sandboxfs_rust.Cli.{parse_mapping, parse_mappings}

abbrev pub IsValid : Mapping → Type 0
IsValid m =
    (m.path.absolute ≡ true) × AllNormal m.path.components × (m.underlying_path.absolute ≡ true)

abbrev pub AllValid : List Mapping → Type 0
AllValid [] = Unit
AllValid (m ∷ ms) = IsValid m × AllValid ms

from_parts-IsValid : (p u : FilePath) (w : Bool) (m : Mapping) → from_parts p u w ≡ ok m → IsValid m
from_parts-IsValid p u w m h = let parts = (from_parts_iff p u w m).0 h in grind (arith, parts)

parse_mapping-IsValid : (arg : Bytes) (m : Mapping) → parse_mapping arg ≡ ok m → IsValid m
unfolding parse_mapping
parse_mapping-IsValid arg m h = grind (arith, from_parts-IsValid)

-- Arguments that are accepted give one mapping each, and every one of them has absolute paths, with
-- only normal components inside the sandbox.
pub parse_mappings-AllValid :
    (args : List Bytes) (ms : List Mapping)
    → parse_mappings args ≡ ok ms
    → (length ms ≡ length args) × AllValid ms
unfolding parse_mappings
parse_mappings-AllValid [] ms h = ground arith
parse_mappings-AllValid (arg ∷ args) [] h = absurd (ground arith)
parse_mappings-AllValid (arg ∷ args) (m ∷ ms) h =
    let first : parse_mapping arg ≡ ok m = ground arith in
    let rest : parse_mappings args ≡ ok ms = ground arith in
    let valid = parse_mapping-IsValid arg m first in
    let others = parse_mappings-AllValid args ms rest in ground (arith, valid, others)
