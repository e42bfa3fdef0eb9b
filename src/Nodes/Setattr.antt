-- ===== src/Nodes/Setattr.antt =====
-- src/nodes/mod.rs: `AttrDelta`, `setattr` and its helpers. A helper changes the attributes in
-- place, so it maps them to new ones beside its result.
pub mod Laws
use sandboxfs_rust.Base.{ℕ, ◌-◌, ◌^◌, Option, none, some, ltb, unwrap_or, if◌then◌else◌}
use sandboxfs_rust.Path.{FilePath}
use sandboxfs_rust.Errors.{Result, ok, err, NixError, sys}
use sandboxfs_rust.Errors.Errno
use sandboxfs_rust.Attr.{Timespec, TimeVal, FileAttr, is_symlink, ltb_time}
use sandboxfs_rust.Conv.{
  timespec_to_timeval, timeval_to_timespec, timeval_to_nix_timespec, fileattrs_eq,
}
use sandboxfs_rust.Os.{Os, Call}

pub record AttrDelta : Type 0 where
  pub mode : Option ℕ
  pub uid : Option ℕ
  pub gid : Option ℕ
  pub atime : Option TimeVal
  pub mtime : Option TimeVal
  pub size : Option ℕ

-- The time stamps after a change: BSD semantics roll `crtime` back to an earlier `mtime`.
unfoldable pub with_times : TimeVal → TimeVal → FileAttr → FileAttr
unfolding timeval_to_timespec
with_times atime mtime a =
    let m = timeval_to_timespec mtime in
    record a {
      atime = timeval_to_timespec atime;
      mtime = m;
      crtime = if ltb_time m a.crtime then m else a.crtime;
    }

-- The ctime for a change at `now`, which counts in whole seconds and never goes back.
unfoldable pub updated_ctime : FileAttr → Timespec → Timespec
updated_ctime attr now =
    let whole = record now { nsec = 0 } in if ltb_time whole attr.ctime then attr.ctime else whole

-- A helper of `setattr`: its result, the attributes after it, and the world after it.
abbrev pub Helper : Type 0 → Type 0
Helper W = FileAttr → W → Result NixError (Unit {0}) × FileAttr × W

module _ {W : Type 0} where
  unfoldable pub try_path :
      Option FilePath → (FilePath → Call W NixError (Unit {0})) → Call W NixError (Unit {0})
  try_path none op w = (ok tt, w)
  try_path (some p) op w = op p w

  abbrev pub skip : Helper W
  skip attr w = (ok tt, attr, w)

  abbrev pub refuse : ℕ → Helper W
  refuse errno attr w = (err (sys errno), attr, w)

  -- `if result.is_ok() { ... } result`
  unfoldable pub apply_if_ok : Call W NixError (Unit {0}) → (FileAttr → FileAttr) → Helper W
  apply_if_ok call f attr w =
      let (r, w') = call w in elim r [ ok _ ↦ (ok tt, f attr, w') | err e ↦ (err e, attr, w') ]

  -- `first.and(second)`: both have run, and the first error is kept.
  unfoldable pub and_then : Helper W → Helper W → Helper W
  and_then first second attr w =
      let (r, attr', w') = first attr w in
      let (q, attr'', w'') = second attr' w' in (elim r [ ok _ ↦ q | err e ↦ err e ], attr'', w'')

  module _ (os : Os W) (path : Option FilePath) where
    unfoldable pub setattr_mode : Option ℕ → Helper W
    unfolding try_path apply_if_ok
    setattr_mode none attr = skip attr
    setattr_mode (some mode) attr =
        if ltb (2 ^ 16 - 1) mode
        then refuse Errno.eio attr
        else if is_symlink attr.kind
        then refuse Errno.eopnotsupp attr
        else apply_if_ok (try_path path (λ p. os.fchmodat p mode)) (λ a. record a { perm = mode })
            attr

    unfoldable pub setattr_owners : Option ℕ → Option ℕ → Helper W
    unfolding try_path apply_if_ok
    setattr_owners none none = skip
    setattr_owners (some u) gid =
        apply_if_ok (try_path path (λ p. os.fchownat p (some u) gid))
          (λ a. record a { uid = u; gid = unwrap_or gid a.gid })
    setattr_owners none (some g) =
        apply_if_ok (try_path path (λ p. os.fchownat p none (some g))) (λ a. record a { gid = g })

    unfoldable pub set_times : TimeVal → TimeVal → Helper W
    unfolding try_path apply_if_ok with_times timeval_to_nix_timespec
    set_times atime mtime attr =
        if os.have_utimensat
        then apply_if_ok
            (try_path path (λ p.
              os.utimensat p (timeval_to_nix_timespec os.nanoseconds atime)
                (timeval_to_nix_timespec os.nanoseconds mtime)))
            (with_times atime mtime) attr
        else if is_symlink attr.kind
        then refuse Errno.eopnotsupp attr
        else apply_if_ok (try_path path (λ p. os.utimes p atime mtime)) (with_times atime mtime)
            attr

    unfoldable pub setattr_times : Option TimeVal → Option TimeVal → Helper W
    unfolding set_times timespec_to_timeval
    setattr_times none none attr = skip attr
    setattr_times (some a) mtime attr =
        set_times a (unwrap_or mtime (timespec_to_timeval os.seconds_nanoseconds attr.mtime)) attr
    setattr_times none (some m) attr =
        set_times (timespec_to_timeval os.seconds_nanoseconds attr.atime) m attr

    unfoldable pub setattr_size : Option ℕ → Helper W
    unfolding try_path apply_if_ok
    setattr_size none = skip
    setattr_size (some size) =
        if ltb (2 ^ 63 - 1) size
        then refuse Errno.einval
        else apply_if_ok (try_path path (λ p. os.truncate p size)) (λ a. record a { size = size })

    unfoldable pub helpers : AttrDelta → Helper W
    unfolding and_then
    helpers delta =
        and_then
          (and_then (and_then (setattr_mode delta.mode) (setattr_owners delta.uid delta.gid))
            (setattr_times delta.atime delta.mtime))
          (setattr_size delta.size)

    unfoldable pub setattr : FileAttr → AttrDelta → Call W NixError FileAttr
    setattr attr delta w =
        let ctime = updated_ctime attr (os.now w) in
        let (r, new_attr, w') = helpers delta attr w in
        let result =
          if fileattrs_eq attr new_attr then new_attr else record new_attr { ctime = ctime } in
        (elim r [ ok _ ↦ ok result | err e ↦ err e ], w')
