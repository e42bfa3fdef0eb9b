-- ===== src/Path.antt =====
-- `std::path` as far as the program uses it. Two paths are equal in Rust when their components
-- are, so a path is its components: whether there is a root, and what follows.
use sandboxfs_rust.Base.{
  ℕ, Bool, true, false, not, ◌&&◌, ◌||◌, List, [], ◌∷◌, ◌++◌, ◌≡◌, ◌↔◌, arith, PartialEq, ◌==◌,
  list_beq, list_beq_iff, list_eq, nat_eq, Option, none, some, if◌then◌else◌, Bytes, is_empty,
}

-- `Component` without `RootDir`, which is the field `absolute` of a path, and without `Prefix`,
-- which Unix does not have.
pub data Component : Type 0 where
  cur_dir parent_dir : Component
  normal : Bytes → Component

abbrev pub component_beq : Component → Component → Bool
component_beq cur_dir cur_dir = true
component_beq parent_dir parent_dir = true
component_beq (normal a) (normal b) = a == b
component_beq _ _ = false

pub component_beq_iff : (a b : Component) → (component_beq a b ≡ true) ↔ (a ≡ b)
component_beq_iff cur_dir cur_dir = ground arith
component_beq_iff cur_dir parent_dir = ground arith
component_beq_iff cur_dir (normal b) = ground arith
component_beq_iff parent_dir cur_dir = ground arith
component_beq_iff parent_dir parent_dir = ground arith
component_beq_iff parent_dir (normal b) = ground arith
component_beq_iff (normal a) cur_dir = ground arith
component_beq_iff (normal a) parent_dir = ground arith
component_beq_iff (normal a) (normal b) = ground (arith, list_beq_iff a b)

instance abbrev pub component_eq : PartialEq Component
component_eq = record { same = component_beq; decides = component_beq_iff }

pub record FilePath : Type 0 where
  pub absolute : Bool
  pub components : List Component

abbrev bool_beq : Bool → Bool → Bool
bool_beq true b = b
bool_beq false b = not b

unfoldable pub path_beq : FilePath → FilePath → Bool
path_beq p q = bool_beq p.absolute q.absolute && list_beq p.components q.components

pub path_beq_iff : (p q : FilePath) → (path_beq p q ≡ true) ↔ (p ≡ q)
unfolding path_beq
path_beq_iff p q = ground (arith, list_beq_iff p.components q.components)

instance abbrev pub path_eq : PartialEq FilePath
path_eq = record { same = path_beq; decides = path_beq_iff }

-- `str::split` on one byte: always at least one field.
abbrev cons_head : ℕ → List Bytes → List Bytes
cons_head c [] = (c ∷ []) ∷ []
cons_head c (f ∷ fs) = (c ∷ f) ∷ fs

unfoldable pub split : ℕ → Bytes → List Bytes
split sep [] = [] ∷ []
split sep (c ∷ s) = let rest = split sep s in if c == sep then [] ∷ rest else cons_head c rest

abbrev dot : Bytes
dot = b'.' ∷ []

abbrev dot_dot : Bytes
dot_dot = b'.' ∷ b'.' ∷ []

-- A field between two separators. Empty fields and dots are skipped.
abbrev to_component : Bytes → List Component → List Component
to_component f rest =
    if is_empty f || f == dot
    then rest
    else if f == dot_dot
    then parent_dir ∷ rest
    else normal f ∷ rest

unfoldable pub to_components : List Bytes → List Component
to_components [] = []
to_components (f ∷ fs) = to_component f (to_components fs)

-- A dot counts only at the beginning of a relative path.
abbrev parse_relative : List Bytes → List Component
parse_relative [] = []
parse_relative (f ∷ fs) =
    if f == dot then cur_dir ∷ to_components fs else to_component f (to_components fs)

abbrev parse_fields : Bytes → List Bytes → FilePath
parse_fields [] fs = record { absolute = false; components = [] }
parse_fields (c ∷ _) fs =
    if c == b'/'
    then record { absolute = true; components = to_components fs }
    else record { absolute = false; components = parse_relative fs }

-- `Path::new`
unfoldable pub from_bytes : Bytes → FilePath
from_bytes s = parse_fields s (split b'/' s)

-- `Path::new("/")` and `PathBuf::from("")`
abbrev pub root : FilePath
root = record { absolute = true; components = [] }

abbrev pub empty : FilePath
empty = record { absolute = false; components = [] }

unfoldable pub without_dots : List Component → List Component
without_dots [] = []
without_dots (cur_dir ∷ cs) = without_dots cs
without_dots (parent_dir ∷ cs) = parent_dir ∷ without_dots cs
without_dots (normal n ∷ cs) = normal n ∷ without_dots cs

-- `Path::join`: an absolute argument replaces the path.
unfoldable pub join : FilePath → FilePath → FilePath
join p q =
    if q.absolute
    then q
    else if p == empty
    then q
    else record p { components = p.components ++ without_dots q.components }

-- `path.join(name)`, where the name is read as a path.
unfoldable pub join_name : FilePath → Bytes → FilePath
join_name p n = join p (from_bytes n)

-- `path.parent().is_none()`
unfoldable pub has_no_parent : FilePath → Bool
has_no_parent p = is_empty p.components

-- `path.strip_prefix("/").unwrap()` of an absolute path
unfoldable pub strip_root : FilePath → FilePath
strip_root p = record { absolute = false; components = p.components }

unfoldable pub is_prefix : List Component → List Component → Bool
is_prefix [] _ = true
is_prefix (_ ∷ _) [] = false
is_prefix (a ∷ cs) (b ∷ ds) = component_beq a b && is_prefix cs ds

-- `Path::starts_with`
unfoldable pub starts_with : FilePath → FilePath → Bool
unfolding is_prefix
starts_with p q = bool_beq p.absolute q.absolute && is_prefix q.components p.components

-- `Path::file_name`: the last component, if it is a normal one.
abbrev last_name : List Component → Option Bytes
last_name [] = none
last_name (normal n ∷ []) = some n
last_name (c ∷ []) = none
last_name (c ∷ d ∷ cs) = last_name (d ∷ cs)

unfoldable pub file_name : FilePath → Option Bytes
file_name p = last_name p.components
