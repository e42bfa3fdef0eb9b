-- ===== src/Concurrent/Signals.antt =====
-- src/concurrent.rs: `SignalsInstaller` and its use in `mount` of src/lib.rs. The thread that waits
-- for a signal is started here; what it does is in Mount.
pub mod Restored
use sandboxfs_rust.Base.{ℕ, Option, none, some, List, [], ◌∷◌}
use sandboxfs_rust.Errors.{Result, IoError, NixError}
use sandboxfs_rust.Errors
use sandboxfs_rust.Os.{Call}
use sandboxfs_rust.Monad.{Outcome, ok, err, panic, sigmask_failed}
use sandboxfs_rust.Run.{Run, ◌>>=◌, ◌>>◌, pure, raise, abort}

pub data SigmaskHow : Type 0 where
  sig_block sig_setmask : SigmaskHow

-- The calls of `nix` and of `signal_hook`, and the start of the thread.
pub record Signalling (W : Type 0) : Type 0 where
  -- The result is the set that was blocked before.
  pub pthread_sigmask : SigmaskHow → List ℕ → Call W NixError (List ℕ)
  pub new_signals : List ℕ → Call W IoError (Unit {0})
  pub spawn_handler : W → W

-- `CAPTURED_SIGNALS`: SIGHUP, SIGTERM, SIGINT and SIGQUIT.
abbrev pub captured_signals : List ℕ
captured_signals = 1 ∷ 15 ∷ 2 ∷ 3 ∷ []

pub record SignalsInstaller : Type 0 where
  pub old_sigset : List ℕ

module _ {W : Type 0} (k : Signalling W) where
  abbrev pub sigmask : SigmaskHow → List ℕ → Run W IoError (List ℕ)
  sigmask how set w =
      let (r, w') = k.pthread_sigmask how set w in
      elim r [ Errors.ok old ↦ (ok old, w') | Errors.err e ↦ (panic sigmask_failed, w') ]

  -- `SignalsInstaller::prepare`
  unfoldable pub prepare : Run W IoError SignalsInstaller
  prepare = do old ← sigmask sig_block captured_signals; pure (record { old_sigset = old })

  -- `SignalsInstaller::drop`
  unfoldable pub drop_installer : SignalsInstaller → Run W IoError (Unit {0})
  drop_installer i = do old ← sigmask sig_setmask i.old_sigset; pure tt

  -- `SignalsInstaller::install`, which drops the installer in both cases
  unfoldable pub install : SignalsInstaller → Run W IoError (Unit {0})
  install i w =
      let (r, w') = k.new_signals captured_signals w in
      elim r [
        | Errors.ok _ ↦ drop_installer i (k.spawn_handler w')
        | Errors.err e ↦ (do drop_installer i; raise e) w'
      ]

  module _ {T : Type 0} (new_session : Call W IoError T) (drop_session : T → W → W) where
    -- `installer.install(...)?` in `mount`: a session that is not returned is dropped.
    unfoldable pub install_or_drop : SignalsInstaller → T → Run W IoError T
    install_or_drop installer session w =
        let (r, w') = install installer w in
        elim r [
          | ok _ ↦ (ok session, w')
          | err e ↦ (err e, drop_session session w')
          | panic p ↦ (panic p, w')
        ]

    -- `fuse::Session::new(...)?` in `mount`, with the installer in scope
    unfoldable pub open_session : SignalsInstaller → Run W IoError T
    open_session installer w =
        let (r, w') = new_session w in
        elim r [
          | Errors.ok session ↦ install_or_drop installer session w'
          | Errors.err e ↦ (do drop_installer installer; raise e) w'
        ]

    -- The block of `mount` that makes the session.
    unfoldable pub make_session : Run W IoError T
    make_session = do installer ← prepare; open_session installer
