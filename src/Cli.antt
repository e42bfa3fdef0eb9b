-- ===== src/Cli.antt =====
-- src/main.rs: the parsers of the command line's flags. The text of an error is left out, and what
-- it is about is kept.
pub mod Mappings
use sandboxfs_rust.Base.{
  ℕ, Bool, true, false, ◌&&◌, ◌||◌, Option, none, some, List, [], ◌∷◌, Bytes, bytes, ◌==◌, nat_eq,
  list_eq, list_beq, leb, if◌then◌else◌,
}
use sandboxfs_rust.Base.Int.{pos}
use sandboxfs_rust.Path.{FilePath, from_bytes, split}
use sandboxfs_rust.Errors.{MappingError}
use sandboxfs_rust.Attr.{Timespec}
use sandboxfs_rust.Monad.{Outcome, ok, err, panic}
use sandboxfs_rust.Mapping.{Mapping, from_parts}
use sandboxfs_rust.Reconfig.{parse_u32}

pub data UsageError : Type 0 where
  bad_allow broken_allow_root : UsageError
  missing_unit bad_seconds bad_thread_count wrong_argument_count : UsageError
  unsupported_unit : Bytes → UsageError
  wrong_field_count wrong_type : Bytes → UsageError
  bad_mapping : MappingError → UsageError

-- `parse_allow`, where `linux` is `cfg!(target_os = "linux")`. The error for the root is no
-- `UsageError` in the source.
unfoldable pub parse_allow : Bool → Bytes → Outcome UsageError (List Bytes)
unfolding list_beq
parse_allow linux s =
    if s == bytes "other"
    then ok (bytes "-o" ∷ bytes "allow_other" ∷ [])
    else if s == bytes "root"
    then (if linux then err broken_allow_root else ok (bytes "-o" ∷ bytes "allow_root" ∷ []))
    else if s == bytes "self"
    then ok []
    else err bad_allow

-- `s.find(...)` and `s.split_at(pos)`: the longest prefix of digits and minus signs, and the rest.
abbrev is_value_byte : ℕ → Bool
is_value_byte c = (leb b'0' c && leb c b'9') || (c == b'-')

unfoldable pub split_value : Bytes → Bytes × Bytes
split_value [] = ([], [])
split_value (c ∷ s) =
    let (value, unit) = split_value s in if is_value_byte c then (c ∷ value, unit) else ([], c ∷ s)

abbrev seconds : ℕ → Timespec
seconds n = record { sec = pos n; nsec = 0 }

abbrev parse_seconds : Bytes → Outcome UsageError Timespec
parse_seconds value = elim (parse_u32 value) [ none ↦ err bad_seconds | some n ↦ ok (seconds n) ]

abbrev check_unit : Bytes × Bytes → Outcome UsageError Timespec
check_unit (value, []) = err missing_unit
check_unit (value, c ∷ unit) =
    if (c ∷ unit) == bytes "s" then parse_seconds value else err (unsupported_unit (c ∷ unit))

-- `parse_duration`
unfoldable pub parse_duration : Bytes → Outcome UsageError Timespec
unfolding split_value parse_u32 list_beq
parse_duration s = check_unit (split_value s)

-- `parse_mappings`, for one argument that has been split at its colons.
unfoldable pub parse_type : Bytes → Option Bool
unfolding list_beq
parse_type field =
    if field == bytes "ro" then some false else if field == bytes "rw" then some true else none

abbrev usage_of : Outcome MappingError Mapping → Outcome UsageError Mapping
usage_of (ok m) = ok m
usage_of (err e) = err (bad_mapping e)
usage_of (panic p) = panic p

abbrev parse_fields : Bytes → List Bytes → Outcome UsageError Mapping
parse_fields arg (type ∷ path ∷ underlying ∷ []) = elim (parse_type type) [
  | none ↦ err (wrong_type arg)
  | some writable ↦ usage_of (from_parts (from_bytes path) (from_bytes underlying) writable)
]
parse_fields arg _ = err (wrong_field_count arg)

unfoldable pub parse_mapping : Bytes → Outcome UsageError Mapping
unfolding parse_type from_parts split from_bytes
parse_mapping arg = parse_fields arg (split b':' arg)

-- `parse_mappings`
unfoldable pub parse_mappings : List Bytes → Outcome UsageError (List Mapping)
unfolding parse_mapping
parse_mappings [] = ok []
parse_mappings (arg ∷ args) = elim (parse_mapping arg) [
  | err e ↦ err e
  | panic p ↦ panic p
  | ok m ↦ elim (parse_mappings args) [ err e ↦ err e | panic p ↦ panic p | ok ms ↦ ok (m ∷ ms) ]
]

-- `file_flag`, with `DEFAULT_INOUT`
unfoldable pub file_flag : Option Bytes → Option FilePath
unfolding list_beq from_bytes
file_flag none = none
file_flag (some value) = if value == bytes "-" then none else some (from_bytes value)
