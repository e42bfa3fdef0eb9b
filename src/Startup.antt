-- ===== src/Startup.antt =====
-- src/main.rs: `safe_main`, which puts the flags together and mounts, and `main`, which reports its
-- error. Option parsing is `getopts`'s work: its result is the data here. Log messages are left
-- out.
pub mod Sound
use sandboxfs_rust.Base.{
  ℕ, ◌+◌, ◌-◌, ◌*◌, ◌^◌, Bool, true, false, ◌&&◌, Option, none, some, List, [], ◌∷◌, ◌++◌, Bytes,
  bytes, ltb, leb, ◌==◌, nat_eq, if◌then◌else◌, unwrap_or,
}
use sandboxfs_rust.Path.{FilePath, from_bytes, file_name}
use sandboxfs_rust.Attr.{Timespec}
use sandboxfs_rust.Errors.{
  Result, Failure, Cause, failure, context, open_input_failed, open_output_failed, mount_failed,
  start_profile_failed, flatten_causes,
}
use sandboxfs_rust.Errors
use sandboxfs_rust.State.{Cache, no_cache, path_cache}
use sandboxfs_rust.Monad.{Outcome, ok, err, panic, bad_default_ttl, no_arguments}
use sandboxfs_rust.Run.{Run, ◌>>=◌, ◌>>◌, pure, raise, abort}
use sandboxfs_rust.Mapping.{Mapping}
use sandboxfs_rust.Reconfig.Files.{Files, open_input, open_output}
use sandboxfs_rust.Profiling.{CpuProfiler, start_profiler, stop_profiler}
use sandboxfs_rust.Cli.{
  UsageError, broken_allow_root, bad_thread_count, wrong_argument_count, parse_allow,
  parse_duration, parse_mappings, file_flag,
}

-- What `opts.parse` finds on the command line.
pub record Matches : Type 0 where
  pub help : Bool
  pub version : Bool
  pub node_cache : Bool
  pub xattrs : Bool
  pub allow : Option Bytes
  pub cpu_profile : Option Bytes
  pub input : Option Bytes
  pub output : Option Bytes
  pub reconfig_threads : Option Bytes
  pub ttl : Option Bytes
  pub mapping : List Bytes
  pub free : List Bytes

-- The error of `safe_main`, as far as `main` tells them apart.
pub data Fault : Type 0 where
  usage : UsageError → Fault
  -- `getopts::Fail`, by its text
  bad_option : Bytes → Fault
  -- The error of `--allow=root` on Linux
  allow_root_is_broken : Fault
  failed : Failure → Fault

-- The arguments of `sandboxfs::mount`.
pub record Setup : Type 0 where
  pub mount_point : FilePath
  pub options : List Bytes
  pub mappings : List Mapping
  pub ttl : Timespec
  pub cache : Cache
  pub xattrs : Bool
  pub input : ℕ
  pub output : ℕ
  pub threads : ℕ

-- What `safe_main` calls: other libraries, the standard streams, and `mount`.
pub record Services (W : Type 0) : Type 0 where
  -- `cfg!(target_os = "linux")` and `num_cpus::get()`
  pub linux : Bool
  pub cpus : ℕ
  pub parse : List Bytes → Result Bytes Matches
  pub print_usage : Bytes → W → W
  pub print_version : W → W
  pub files : Files W
  pub profiler : CpuProfiler W
  pub mount : Setup → Run W Failure (Unit {0})

abbrev allow_fault : UsageError → Fault
allow_fault broken_allow_root = allow_root_is_broken
allow_fault e = usage e

-- The value of a parser, or its error as another one.
abbrev pub lift : {W E A : Type 0} → (E → Fault) → Outcome E A → Run W Fault A
lift f (ok a) = pure a
lift f (err e) = raise (f e)
lift f (panic p) = abort p

-- The options for the mount, with those of `--allow`.
unfoldable pub mount_options : {W : Type 0} → Bool → Option Bytes → Run W Fault (List Bytes)
mount_options linux none = pure (bytes "-o" ∷ bytes "fsname=sandboxfs" ∷ [])
mount_options linux (some value) = do
  args ← lift allow_fault (parse_allow linux value)
  pure (bytes "-o" ∷ bytes "fsname=sandboxfs" ∷ args)

-- `DEFAULT_TTL` and the default's `expect`
abbrev pub default_ttl : Bytes
default_ttl = bytes "60s"

unfoldable pub ttl_flag : {W : Type 0} → Option Bytes → Run W Fault Timespec
ttl_flag (some value) = lift usage (parse_duration value)
ttl_flag none = elim (parse_duration default_ttl) [
  | ok ttl ↦ pure ttl
  | err e ↦ abort bad_default_ttl
  | panic p ↦ abort p
]

-- `str::parse::<usize>`, of 64 bits: an optional plus sign and digits
unfoldable pub usize_digits : ℕ → Bytes → Option ℕ
usize_digits acc [] = if ltb acc (2 ^ 64) then some acc else none
usize_digits acc (c ∷ cs) =
    let rest = usize_digits (acc * 10 + (c - b'0')) cs in
    if leb b'0' c && leb c b'9' then rest else none

abbrev usize_or_none : Bytes → Option ℕ
usize_or_none [] = none
usize_or_none (c ∷ cs) = usize_digits 0 (c ∷ cs)

unfoldable pub parse_usize : Bytes → Option ℕ
unfolding usize_digits
parse_usize [] = none
parse_usize (c ∷ cs) = if c == b'+' then usize_or_none cs else usize_or_none (c ∷ cs)

unfoldable pub threads_flag : {W : Type 0} → ℕ → Option Bytes → Run W Fault ℕ
threads_flag cpus none = pure cpus
threads_flag cpus (some value) = elim (parse_usize value) [
  | some n ↦ pure n
  | none ↦ raise (usage bad_thread_count)
]

unfoldable pub mount_point_of : {W : Type 0} → List Bytes → Run W Fault FilePath
mount_point_of (point ∷ []) = pure (from_bytes point)
mount_point_of _ = raise (usage wrong_argument_count)

-- `with_context` and `?`
abbrev pub with_context : {W A : Type 0} → Cause → Run W Failure A → Run W Fault A
with_context c m w =
    let (r, w') = m w in
    elim r [
      | ok a ↦ (ok a, w')
      | err e ↦ (err (failed (context c e)), w')
      | panic p ↦ (panic p, w')
    ]

-- The arguments that `safe_main` gives `mount`; the cache is chosen by a flag.
abbrev pub setup_of : Matches → List Bytes → List Mapping → Timespec → ℕ → ℕ → ℕ → FilePath → Setup
setup_of m options mappings ttl input output threads mount_point = record {
  mount_point = mount_point;
  options = options;
  mappings = mappings;
  ttl = ttl;
  cache = if m.node_cache then path_cache [] else no_cache;
  xattrs = m.xattrs;
  input = input;
  output = output;
  threads = threads;
}

module _ {W : Type 0} (services : Services W) where
  open services use {linux, cpus, parse, print_usage, print_version, files, profiler, mount}

  -- The scope of `_profiler`: it stops when the rest returns or fails, and also when a panic
  -- unwinds.
  abbrev stop_after : Outcome Fault (Unit {0}) → Run W Fault (Unit {0})
  stop_after o w =
      let (r, w') = stop_profiler profiler w in
      elim r [ ok a ↦ (o, w') | err e ↦ (err (failed e), w') | panic p ↦ (panic p, w') ]

  unfoldable pub profiled : Option Bytes → Run W Fault (Unit {0}) → Run W Fault (Unit {0})
  profiled none rest = rest
  profiled (some path) rest = do
    with_context start_profile_failed (start_profiler profiler path)
    λ w.
        let (o, w') = rest w in
        elim o [
          | panic p ↦ let (_stopped, w'') = stop_profiler profiler w' in (panic p, w'')
          | other ↦ stop_after other w'
        ]

  abbrev pub input_flag : Matches → Run W Fault ℕ
  input_flag m =
      with_context (open_input_failed (unwrap_or m.input (bytes "-")))
        (open_input files (file_flag m.input))

  abbrev pub output_flag : Matches → Run W Fault ℕ
  output_flag m =
      with_context (open_output_failed (unwrap_or m.output (bytes "-")))
        (open_output files (file_flag m.output))

  -- `safe_main` from the first flag on that asks for work
  unfoldable pub mount_with : Matches → Run W Fault (Unit {0})
  mount_with m = do
    options ← mount_options linux m.allow
    mappings ← lift usage (parse_mappings m.mapping)
    ttl ← ttl_flag m.ttl
    input ← input_flag m
    output ← output_flag m
    threads ← threads_flag cpus m.reconfig_threads
    mount_point ← mount_point_of m.free
    profiled m.cpu_profile (
        with_context (mount_failed mount_point)
          (mount (setup_of m options mappings ttl input output threads mount_point)))

  -- `safe_main`
  unfoldable pub safe_main : Bytes → List Bytes → Run W Fault (Unit {0})
  safe_main program args = elim (parse args) [
    | Errors.err text ↦ raise (bad_option text)
    | Errors.ok m ↦
        if m.help
        then (λ w. (ok tt, print_usage program w))
        else if m.version
        then (λ w. (ok tt, print_version w))
        else mount_with m
  ]

-- `program_name`: the last component of the first argument. An argument is text.
unfoldable pub program_name : List Bytes → Bytes → Bytes
unfolding file_name
program_name [] default = default
program_name (arg0 ∷ _) default = unwrap_or (file_name (from_bytes arg0)) default

-- What `main` writes to the standard error stream, and how the process exits.
pub data Line : Type 0 where
  usage_error : Fault → Line
  help_hint : Bytes → Line
  error : Bytes → Bytes → Line

pub record Exit : Type 0 where
  pub status : ℕ
  pub lines : List Line

abbrev exit_usage : Bytes → Fault → Exit
exit_usage program fault = record { status = 2; lines = usage_error fault ∷ help_hint program ∷ [] }

-- The branches of `main` on the error of `safe_main`. `display` gives the texts of causes, and
-- `broken` that of the error for `--allow=root`.
unfoldable pub exit_with : (Cause → Bytes) → Bytes → Bytes → Fault → Exit
exit_with display broken program (usage e) = exit_usage program (usage e)
exit_with display broken program (bad_option text) = exit_usage program (bad_option text)
exit_with display broken program allow_root_is_broken = record {
  status = 1;
  lines = error program broken ∷ [];
}
exit_with display broken program (failed f) = record {
  status = 1;
  lines = error program (flatten_causes display f) ∷ [];
}

module _ {W : Type 0} (services : Services W) (display : Cause → Bytes) (broken : Bytes) where
  -- `main`; the slice of the arguments after the first panics where there is none.
  unfoldable pub main : List Bytes → Run W ⊥ Exit
  unfolding safe_main exit_with
  main [] w = (panic no_arguments, w)
  main (arg0 ∷ args) w =
      let program = program_name (arg0 ∷ args) (bytes "sandboxfs") in
      let (r, w') = safe_main services program args w in
      elim r [
        | ok _ ↦ (ok (record { status = 0; lines = [] }), w')
        | err fault ↦ (ok (exit_with display broken program fault), w')
        | panic p ↦ (panic p, w')
      ]
