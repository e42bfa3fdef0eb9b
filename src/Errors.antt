-- ===== src/Errors.antt =====
-- src/errors.rs: errors for the kernel, errors of mappings, and chains of causes.
-- `nix`, `std::io` and `failure` are outside the repository: their errors are data here, an errno
-- is its number, and `Errno::from_i32` is an argument.
pub mod Errno
pub mod Chain
use sandboxfs_rust.Base.{
  ℕ, Bool, Option, none, some, List, [], ◌∷◌, ◌++◌, map, if◌then◌else◌, Bytes, bytes, is_empty,
}
use sandboxfs_rust.Path.{FilePath}

-- `Result`
pub data Result (E A : Type 0) : Type 0 where
  ok : A → Result E A
  err : E → Result E A

-- `io::Error`: the errno if there is one.
pub record IoError : Type 0 where
  pub raw_os_error : Option ℕ

-- `nix::Error`
pub data NixError : Type 0 where
  sys : ℕ → NixError
  other : NixError

pub record KernelError : Type 0 where
  pub errno : ℕ

abbrev pub from_errno : ℕ → KernelError
from_errno e = record { errno = e }

unfoldable pub errno_as_i32 : KernelError → ℕ
errno_as_i32 e = e.errno

-- `impl From<io::Error> for KernelError`
abbrev pub kernel_of_io : (ℕ → ℕ) → IoError → KernelError
kernel_of_io from_i32 e = elim (e.raw_os_error) [
  | some errno ↦ from_errno (from_i32 errno)
  | none ↦ from_errno Errno.eio
]

-- `impl From<nix::Error> for KernelError`
abbrev pub kernel_of_nix : NixError → KernelError
kernel_of_nix (sys errno) = from_errno errno
kernel_of_nix other = from_errno Errno.eio

pub data MappingError : Type 0 where
  path_not_absolute path_not_normalized : FilePath → MappingError

-- One cause in a chain: the `format_err!`, `ensure!` and `with_context` calls of the program.
pub data Cause : Type 0 where
  mapping : MappingError → Cause
  io : IoError → Cause
  already_mapped not_a_mapping unknown_entry root_mapped_twice : Cause
  entry_is_not_a_mapping : Bytes → Cause
  stat_failed root_stat_failed root_is_not_a_directory : FilePath → Cause
  cannot_map : FilePath → FilePath → Bool → Cause
  bad_prefix_number bad_number : Cause
  prefix_conflict : ℕ → FilePath → FilePath → Cause
  no_such_prefix : ℕ → Cause
  suffix_not_relative : Bytes → Cause
  empty_identifier : Cause
  identifier_not_basename : Bytes → Cause
  bad_request : Bytes → Cause
  open_input_failed open_output_failed : Bytes → Cause
  mount_failed : FilePath → Cause
  start_profile_failed profiling_disabled : Cause
  nix : NixError → Cause

-- `failure::Error`: the chain of causes, the outermost first.
pub record Failure : Type 0 where
  pub chain : List Cause

abbrev pub failure : Cause → Failure
failure c = record { chain = c ∷ [] }

-- `with_context`
abbrev pub context : Cause → Failure → Failure
context c f = record { chain = c ∷ f.chain }

-- The closure that `flatten_causes` folds with.
unfoldable pub flatten_step : Bytes → Bytes → Bytes
flatten_step flattened cause =
    (if is_empty flattened then flattened else flattened ++ bytes ": ") ++ cause

unfoldable pub flatten_from : Bytes → List Bytes → Bytes
unfolding flatten_step
flatten_from flattened [] = flattened
flatten_from flattened (c ∷ cs) = flatten_from (flatten_step flattened c) cs

-- `flatten_causes`, where `display` is the text of a cause.
unfoldable pub flatten_causes : (Cause → Bytes) → Failure → Bytes
unfolding flatten_from
flatten_causes display f = flatten_from [] (map display f.chain)
