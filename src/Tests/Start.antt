-- ===== src/Tests/Start.antt =====
-- The theorem on `safe_main`, for services that work and a command line without flags.
use sandboxfs_rust.Base.{
  ℕ, true, false, none, [], ◌∷◌, bytes, ◌+◌, ◌==◌, nat_eq, ◌&&◌, if◌then◌else◌,
}
use sandboxfs_rust.Errors.{Result, Failure, failure}
use sandboxfs_rust.Errors
use sandboxfs_rust.Monad.{ok, err}
use sandboxfs_rust.Run.{Run}
use sandboxfs_rust.Startup.{Matches, Setup, Services}

abbrev no_flags : Matches
no_flags = record {
  help = false;
  version = false;
  node_cache = false;
  xattrs = false;
  allow = none;
  cpu_profile = none;
  input = none;
  output = none;
  reconfig_threads = none;
  ttl = none;
  mapping = [];
  free = bytes "/mnt" ∷ [];
}

abbrev mounting : Setup → Run ℕ Failure (Unit {0})
mounting s w = (ok tt, w + 1)

abbrev services : Services ℕ
services = record {
  linux = true;
  cpus = 4;
  parse = λ args. Errors.ok no_flags;
  print_usage = λ program w. w;
  print_version = λ w. w;
  files = record {
    open_to_read = λ p w. (Errors.ok 3, w);
    open_to_write = λ p w. (Errors.ok 4, w);
    dup = λ fd w. (Errors.ok (fd + 10), w);
  };
  profiler = record {
    enabled = false;
    start = λ p w. (Errors.ok tt, w);
    stop = λ w. (Errors.ok tt, w);
  };
  mount = mounting;
}

-- A mount that refuses to work without options, or with another input or output.
abbrev strict : Setup → Run ℕ Failure (Unit {0})
strict s w =
    if (s.input == 10) && (s.output == 11)
    then elim (s.options) [ [] ↦ (err (record { chain = [] }), w) | o ∷ os ↦ (ok tt, w + 1) ]
    else (err (record { chain = [] }), w)
