-- ===== src/Startup/Sound.antt =====
-- What `safe_main` of src/main.rs mounts, whatever the command line is.
use sandboxfs_rust.Base.{
  ℕ, ◌^◌, ◌<◌, Bool, Option, none, some, List, [], ◌∷◌, Bytes, bytes, ◌≡◌, unwrap_or, if◌then◌else◌,
}
use sandboxfs_rust.Path.{from_bytes}
use sandboxfs_rust.State.{no_cache, path_cache}
use sandboxfs_rust.Reconfig.Files.{open_input, open_output}
use sandboxfs_rust.Base.Int.{pos, pos_part}
use sandboxfs_rust.Attr.{Timespec}
use sandboxfs_rust.Errors
use sandboxfs_rust.Errors.{Failure}
use sandboxfs_rust.Monad.{ok}
use sandboxfs_rust.Run.{Run}
use sandboxfs_rust.Cli.{parse_allow, parse_duration, parse_mappings, file_flag}
use sandboxfs_rust.Cli.Mappings.{AllValid}
use sandboxfs_rust.Startup.{Matches, Setup, Services, default_ttl, parse_usize}

abbrev pub IsSeconds : Timespec → Type 0
IsSeconds t = (t.sec ≡ pos (pos_part t.sec)) × (pos_part t.sec < 2 ^ 32) × (t.nsec ≡ 0)

-- The options that the flag `--allow` adds.
abbrev pub AllowArgs : Bool → Option Bytes → List Bytes → Type 0
AllowArgs linux none args = args ≡ []
AllowArgs linux (some value) args = parse_allow linux value ≡ ok args

-- The number of threads is the one that the flag gives, which has 64 bits, or else that of
-- processors.
abbrev pub IsThreads : ℕ → Option Bytes → ℕ → Type 0
IsThreads cpus none n = n ≡ cpus
IsThreads cpus (some value) n = (parse_usize value ≡ some n) × (n < 2 ^ 64)

-- Some call of it gives the value.
abbrev pub Gives : {W E A : Type 0} → Run W E A → A → Type 0
Gives {W} m a = (w : W) × (t : W) × (m w ≡ (ok a, t))

-- Each argument of `mount` is what the flags of the command line say: valid mappings, a time to
-- live of whole seconds of 32 bits, the descriptors that opening the input and the output gave, and
-- the only free argument as the mount point.
pub record IsSetupOf {W : Type 0} (services : Services W) (m : Matches) (s : Setup) : Type 0 where
  pub mount_point : (point : Bytes) × (m.free ≡ point ∷ []) × (s.mount_point ≡ from_bytes point)
  pub options :
      (args : List Bytes) × AllowArgs services.linux m.allow args
      × (s.options ≡ bytes "-o" ∷ bytes "fsname=sandboxfs" ∷ args)
  pub mappings : parse_mappings m.mapping ≡ ok s.mappings
  pub valid : AllValid s.mappings
  pub ttl : parse_duration (unwrap_or m.ttl default_ttl) ≡ ok s.ttl
  pub seconds : IsSeconds s.ttl
  pub cache : s.cache ≡ (if m.node_cache then path_cache [] else no_cache)
  pub xattrs : s.xattrs ≡ m.xattrs
  pub input : Gives (open_input services.files (file_flag m.input)) s.input
  pub output : Gives (open_output services.files (file_flag m.output)) s.output
  pub threads : IsThreads services.cpus m.reconfig_threads s.threads

module _ {W : Type 0} where
  module _ (services : Services W) (args : List Bytes) (mount' : Setup → Run W Failure (Unit {0}))
      (same : (m : Matches) (s : Setup)
        → services.parse args ≡ Errors.ok m
        → IsSetupOf services m s
        → services.mount s ≡ mount' s) where
    abbrev other_services : Services W
    other_services = record services { mount = mount' }
