-- ===== src/Concurrent/Signals/Restored.antt =====
-- The mask of signals of the main thread (src/concurrent.rs, and `mount` of src/lib.rs).
use sandboxfs_rust.Base.{ℕ, Bool, ◌||◌, List, ◌≡◌}
use sandboxfs_rust.Errors
use sandboxfs_rust.Monad.{Outcome, ok, err, panic}
use sandboxfs_rust.Concurrent.{has}
use sandboxfs_rust.Concurrent.Signals.{Signalling, sig_block, sig_setmask, SignalsInstaller}

-- What is documented of `pthread_sigmask`, where `blocked` is the mask of the thread.
pub record MaskLaws {W : Type 0} (k : Signalling W) : Type 0 where
  pub blocked : W → ℕ → Bool
  pub block-blocked :
      (set old : List ℕ) (w : W)
      → (k.pthread_sigmask sig_block set w).0 ≡ Errors.ok old
      → (x : ℕ) → blocked (k.pthread_sigmask sig_block set w).1 x ≡ (has x set || blocked w x)
  pub block-old :
      (set old : List ℕ) (w : W)
      → (k.pthread_sigmask sig_block set w).0 ≡ Errors.ok old
      → (x : ℕ) → has x old ≡ blocked w x
  pub setmask-blocked :
      (set old : List ℕ) (w : W)
      → (k.pthread_sigmask sig_setmask set w).0 ≡ Errors.ok old
      → (x : ℕ) → blocked (k.pthread_sigmask sig_setmask set w).1 x ≡ has x set

-- The outcome is no panic.
abbrev pub Runs : {E A : Type 0} → Outcome E A → Type 0
Runs (ok a) = Unit {0}
Runs (err e) = Unit {0}
Runs (panic p) = ⊥

module _ {W : Type 0} (k : Signalling W) (laws : MaskLaws k) where
  -- The installer's set is the mask of a world.
  abbrev Remembers : SignalsInstaller → W → Type 0
  Remembers i w = (x : ℕ) → has x i.old_sigset ≡ laws.blocked w x
