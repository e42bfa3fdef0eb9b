-- ===== src/Profiling.antt =====
-- src/profiling.rs: `ScopedProfiler`, with the feature `profiling` or without it. The path is text.
use sandboxfs_rust.Base.{Bool, Bytes, if◌then◌else◌}
use sandboxfs_rust.Errors.{Result, Failure, failure, profiling_disabled}
use sandboxfs_rust.Errors
use sandboxfs_rust.Os.{Call}
use sandboxfs_rust.Monad.{ok, err, panic, profiler_failed}
use sandboxfs_rust.Run.{Run}

-- `PROFILER` of `cpuprofiler`.
pub record CpuProfiler (W : Type 0) : Type 0 where
  -- The feature `profiling`
  pub enabled : Bool
  pub start : Bytes → Call W (Unit {0}) (Unit {0})
  pub stop : Call W (Unit {0}) (Unit {0})

module _ {W : Type 0} (p : CpuProfiler W) where
  -- `unwrap()` and `expect(...)`
  abbrev unwrap : Call W (Unit {0}) (Unit {0}) → Run W Failure (Unit {0})
  unwrap c w =
      let (r, w') = c w in
      elim r [ Errors.ok a ↦ (ok a, w') | Errors.err e ↦ (panic profiler_failed, w') ]

  -- `real_start`, as it is compiled with the feature and without it
  unfoldable pub start_profiler : Bytes → Run W Failure (Unit {0})
  start_profiler path w =
      if p.enabled then unwrap (p.start path) w else (err (failure profiling_disabled), w)

  -- `real_stop`, which the end of the scope calls
  unfoldable pub stop_profiler : Run W Failure (Unit {0})
  stop_profiler w = if p.enabled then unwrap p.stop w else (ok tt, w)
