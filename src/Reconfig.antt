-- ===== src/Reconfig.antt =====
-- src/reconfig.rs: the requests, the table of path prefixes, and how a request becomes a call of
-- the file system. Reading and writing JSON is a library's work: a request is the data.
pub mod Tables
pub mod Inside
pub mod Answers
pub mod Loop
pub mod Files
use sandboxfs_rust.Base.{
  ℕ, ◌+◌, ◌-◌, ◌*◌, ◌^◌, Bool, false, not, ◌&&◌, ◌||◌, Option, none, some, List, [], ◌∷◌, Bytes,
  ◌==◌, nat_eq, ltb, leb, is_empty, is_some, if◌then◌else◌,
}
use sandboxfs_rust.Base.Assoc.{get, insert}
use sandboxfs_rust.Path.{FilePath, path_eq, path_beq, root, empty, join, join_name, strip_root}
use sandboxfs_rust.Errors.{
  Cause, Failure, failure, context, MappingError, path_not_absolute, bad_prefix_number, bad_number,
  prefix_conflict, no_such_prefix, suffix_not_relative, empty_identifier, identifier_not_basename,
}
use sandboxfs_rust.Monad.{Outcome, ok, err, panic, unknown_prefix}
use sandboxfs_rust.Mapping.{Mapping, from_parts}

pub record JsonMapping : Type 0 where
  pub path_prefix : ℕ
  pub path : Bytes
  pub underlying_path_prefix : ℕ
  pub underlying_path : Bytes
  pub writable : Bool

pub record CreateSandboxRequest : Type 0 where
  pub id : Bytes
  pub mappings : List JsonMapping
  pub prefixes : List (Bytes × FilePath)

pub data Request : Type 0 where
  create_sandbox : CreateSandboxRequest → Request
  destroy_sandbox : Bytes → Request

-- The identifier of the sandbox in a request.
abbrev pub id_of : Request → Bytes
id_of (create_sandbox r) = r.id
id_of (destroy_sandbox id) = id

-- `str::parse::<u32>`: an optional plus sign and at least one digit, below 2^32.
abbrev is_digit : ℕ → Bool
is_digit c = leb b'0' c && leb c b'9'

unfoldable pub digits_value : ℕ → Bytes → Option ℕ
digits_value acc [] = if ltb acc (2 ^ 32) then some acc else none
digits_value acc (c ∷ cs) =
    let rest = digits_value (acc * 10 + (c - b'0')) cs in if is_digit c then rest else none

abbrev digits_or_none : Bytes → Option ℕ
digits_or_none [] = none
digits_or_none (c ∷ cs) = digits_value 0 (c ∷ cs)

unfoldable pub parse_u32 : Bytes → Option ℕ
unfolding digits_value
parse_u32 [] = none
parse_u32 (c ∷ cs) = if c == b'+' then digits_or_none cs else digits_or_none (c ∷ cs)

-- `Prefixes`: the paths by the identifiers of their prefixes.
abbrev pub Prefixes : Type 0
Prefixes = List (ℕ × FilePath)

-- `Prefixes::new`
abbrev pub new_prefixes : Prefixes
new_prefixes = (0, empty) ∷ []

-- The first loop of `register`. What it has added stays if it fails.
unfoldable pub register_prefixes :
    List (Bytes × FilePath) → Prefixes → Outcome Failure (Unit {0}) × Prefixes
register_prefixes [] known = (ok tt, known)
register_prefixes ((number, path) ∷ rest) known = elim (parse_u32 number) [
  | none ↦ (err (context bad_prefix_number (failure bad_number)), known)
  | some id ↦ elim (get id known) [
    | some previous ↦
        if previous == path
        then register_prefixes rest known
        else (err (failure (prefix_conflict id previous path)), known)
    | none ↦ register_prefixes rest (insert id path known)
  ]
]

-- `used_prefixes.entry(id).or_insert_with(...)`
abbrev or_insert : ℕ → FilePath → Prefixes → Prefixes
or_insert id path used = if is_some (get id used) then used else insert id path used

unfoldable pub use_prefix : ℕ → Prefixes → Prefixes → Outcome Failure Prefixes
use_prefix id known used = elim (get id known) [
  | none ↦ err (failure (no_such_prefix id))
  | some path ↦ ok (or_insert id path used)
]

-- The second loop of `register`: the prefixes that the mappings use.
unfoldable pub used_prefixes : List JsonMapping → Prefixes → Prefixes → Outcome Failure Prefixes
used_prefixes [] known used = ok used
used_prefixes (m ∷ rest) known used = elim (use_prefix m.path_prefix known used) [
  | err e ↦ err e
  | panic p ↦ panic p
  | ok used1 ↦ elim (use_prefix m.underlying_path_prefix known used1) [
    | err e ↦ err e
    | panic p ↦ panic p
    | ok used2 ↦ used_prefixes rest known used2
  ]
]

-- `Prefixes::register`
unfoldable pub register : Request → Prefixes → Outcome Failure Prefixes × Prefixes
register (destroy_sandbox id) known = (ok [], known)
register (create_sandbox r) known =
    let (result, known') = register_prefixes r.prefixes known in
    (
      elim result [ ok _ ↦ used_prefixes r.mappings known' [] | err e ↦ err e | panic p ↦ panic p ],
      known',
    )

abbrev starts_with_slash : Bytes → Bool
starts_with_slash [] = false
starts_with_slash (c ∷ _) = c == b'/'

-- `Prefixes::build_path`. `register` has seen to it that the prefix is there.
unfoldable pub build_path : Prefixes → ℕ → Bytes → Outcome Failure FilePath
unfolding get join_name
build_path known prefix suffix =
    if not (prefix == 0) && starts_with_slash suffix
    then err (failure (suffix_not_relative suffix))
    else elim (get prefix known) [
      | none ↦ panic unknown_prefix
      | some path ↦ if is_empty suffix then ok path else ok (join_name path suffix)
    ]

unfoldable pub contains : ℕ → Bytes → Bool
contains c [] = false
contains c (d ∷ ds) = (d == c) || contains c ds

-- `validate_id`
unfoldable pub validate_id : Bytes → Outcome Failure (Unit {0})
unfolding contains
validate_id id =
    if is_empty id
    then err (failure empty_identifier)
    else if contains b'/' id
    then err (failure (identifier_not_basename id))
    else ok tt

-- `make_path`
unfoldable pub make_path : Bytes → FilePath → Outcome Failure FilePath
make_path id abs_path =
    if not abs_path.absolute
    then err (failure (Cause.mapping (path_not_absolute abs_path)))
    else ok (
        if is_empty (strip_root abs_path).components
        then join_name root id
        else join (join_name root id) (strip_root abs_path))

-- The trait `ReconfigurableFS`, over a type `S` of states.
pub record ReconfigurableFs (S : Type 0) : Type 0 where
  pub create : Bytes → List Mapping → S → Outcome Failure (Unit {0}) × S
  pub destroy : Bytes → S → Outcome Failure (Unit {0}) × S

abbrev mapping_failure : MappingError → Failure
mapping_failure e = failure (Cause.mapping e)

-- The body of the loop of `handle_request` for one mapping.
unfoldable pub build_mapping : Prefixes → JsonMapping → Outcome Failure Mapping
unfolding build_path from_parts
build_mapping known m = elim (build_path known m.path_prefix m.path) [
  | err e ↦ err e
  | panic p ↦ panic p
  | ok path ↦ elim (build_path known m.underlying_path_prefix m.underlying_path) [
    | err e ↦ err e
    | panic p ↦ panic p
    | ok underlying ↦ elim (from_parts path underlying m.writable) [
      | err e ↦ err (mapping_failure e)
      | panic p ↦ panic p
      | ok built ↦ ok built
    ]
  ]
]

unfoldable pub build_mappings : Prefixes → List JsonMapping → Outcome Failure (List Mapping)
unfolding build_mapping
build_mappings known [] = ok []
build_mappings known (m ∷ rest) = elim (build_mapping known m) [
  | err e ↦ err e
  | panic p ↦ panic p
  | ok first ↦ elim (build_mappings known rest) [
    | err e ↦ err e
    | panic p ↦ panic p
    | ok others ↦ ok (first ∷ others)
  ]
]

module _ {S : Type 0} (fs : ReconfigurableFs S) where
  -- The branch of `handle_request` for a valid identifier, once the mappings are built.
  unfoldable pub apply_request : Request → Prefixes → S → Outcome Failure (Unit {0}) × S
  unfolding build_mappings
  apply_request (destroy_sandbox id) known s = fs.destroy id s
  apply_request (create_sandbox r) known s = elim (build_mappings known r.mappings) [
    | err e ↦ (err e, s)
    | panic p ↦ (panic p, s)
    | ok mappings ↦ fs.create r.id mappings s
  ]

  -- `handle_request`
  unfoldable pub handle_request :
      Request → Outcome Failure Prefixes → S → Outcome Failure (Unit {0}) × S
  unfolding apply_request validate_id
  handle_request request (err e) s = (err e, s)
  handle_request request (panic p) s = (panic p, s)
  handle_request request (ok known) s = elim (validate_id (id_of request)) [
    | err e ↦ (err e, s)
    | panic p ↦ (panic p, s)
    | ok _ ↦ apply_request request known s
  ]
