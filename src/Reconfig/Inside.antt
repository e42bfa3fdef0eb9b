-- ===== src/Reconfig/Inside.antt =====
-- Where the paths of a request end up: in the directory of its sandbox (src/reconfig.rs).
use sandboxfs_rust.Base.{
  ℕ, true, false, [], ◌∷◌, Bytes, bytes, ◌≡◌, ◌≢◌, ◌==◌, nat_eq, list_eq, list_beq_iff, refl, arith,
}
use sandboxfs_rust.Path.{
  FilePath, normal, from_bytes, split, to_components, join, join_name, without_dots, strip_root,
  path_eq, path_beq,
}
use sandboxfs_rust.Monad.{ok}
use sandboxfs_rust.Reconfig.{contains, validate_id, make_path}

split_whole : (sep : ℕ) (s : Bytes) → contains sep s ≡ false → split sep s ≡ s ∷ []
unfolding split contains
split_whole sep [] h = refl
split_whole sep (c ∷ s) h = ground (arith, split_whole sep s)

-- The name of a directory.
abbrev pub IsName : Bytes → Type 0
IsName id = (validate_id id ≡ ok tt) × (id ≢ bytes ".") × (id ≢ bytes "..")

validate_id-contains :
    (id : Bytes) → validate_id id ≡ ok tt → (id ≢ []) × (contains b'/' id ≡ false)
unfolding validate_id
validate_id-contains [] h = absurd (ground arith)
validate_id-contains (c ∷ cs) h = ground arith

from_bytes-name :
    (id : Bytes)
    → IsName id
    → from_bytes id ≡ record { absolute = false; components = normal id ∷ [] }
unfolding from_bytes to_components
from_bytes-name [] h = absurd ((validate_id-contains [] h.0).0 refl)
from_bytes-name (c ∷ cs) h =
    let plain = (validate_id-contains (c ∷ cs) h.0).1 in
    let no_slash : (c == b'/') ≡ false = unfold contains in ground arith in
    ground (
      arith,
      split_whole b'/' (c ∷ cs) plain,
      list_beq_iff (c ∷ cs) (bytes "."),
      list_beq_iff (c ∷ cs) (bytes ".."),
    )

-- For an identifier that is accepted and is not one or two dots, the path of a mapping lies in the
-- directory of that name: it begins with the identifier and goes on with the path as it was given,
-- without dots.
pub make_path_inside :
    (id : Bytes) (p q : FilePath)
    → IsName id
    → make_path id p ≡ ok q
    → (p.absolute ≡ true)
      × (q.absolute ≡ true)
      × (q.components ≡ normal id ∷ without_dots p.components)
unfolding make_path join join_name strip_root path_beq without_dots
make_path_inside id p q h k = ground (arith, from_bytes-name id h)
