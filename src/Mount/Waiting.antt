-- ===== src/Mount/Waiting.antt =====
-- `mount` of src/lib.rs waits for its threads and never for ever.
use sandboxfs_rust.Base.{Bool, true, false, ◌≡◌, arith}
use sandboxfs_rust.Mount.{
  End, success, Main, running, dropping, returned, finished, Mounted, started, check_caught, Step,
  run_fails, run_returns, drop_input, check, join, loop_ends, loop_panics, signal, send, unmount,
  close_input, unmount_outside, Steps, here, then_step,
}

-- The main thread has left `session.run()` well.
abbrev has_run : Main → Bool
has_run running = false
has_run (returned e) = false
has_run _ = true

abbrev has_dropped : Main → Bool
has_dropped running = false
has_dropped dropping = false
has_dropped _ = true

-- The session is over before the input is dropped, and the input is dropped before the main thread
-- waits for the one that reads it.
record IsOrdered (s : Mounted) : Type 0 where
  over : has_run s.main ≡ true → s.mounted ≡ false
  dropped : has_dropped s.main ≡ true → s.input_open ≡ false
  well : s.main ≡ returned success → (s.config_handler ≡ finished) × (s.mounted ≡ false)

-- The threads get to a return of `mount` by themselves: nothing outside unmounts the file system or
-- ends the input.
abbrev CanReturn : Mounted → Type 0
CanReturn s = (u : Mounted) × Steps false false s u × ((e : End) × (u.main ≡ returned e))

module _ {outside closes : Bool} where
  Step-IsOrdered : {s t : Mounted} → Step outside closes s t → IsOrdered s → IsOrdered t
  unfolding check_caught
  Step-IsOrdered {s} (run_fails p) v = ground arith
  Step-IsOrdered {s} (run_returns p q) v = ground arith
  Step-IsOrdered {s} (drop_input p) v = ground arith
  Step-IsOrdered {s} (check p) v = ground arith
  Step-IsOrdered {s} (join e p q) v = ground arith
  Step-IsOrdered {s} (loop_ends p q) v = ground arith
  Step-IsOrdered {s} (loop_panics p) v = ground arith
  Step-IsOrdered {s} (signal n p) v = ground arith
  Step-IsOrdered {s} (send n p) v = ground arith
  Step-IsOrdered {s} (unmount n p) v = ground arith
  Step-IsOrdered {s} (close_input p) v = ground arith
  Step-IsOrdered {s} (unmount_outside p) v = ground arith

  Steps-IsOrdered : {s t : Mounted} → Steps outside closes s t → IsOrdered s → IsOrdered t
  Steps-IsOrdered here v = v
  Steps-IsOrdered (then_step steps step) v = Step-IsOrdered step (Steps-IsOrdered steps v)

  -- When `mount` has returned success, the file system is not mounted, the input is closed and the
  -- thread that reads it has ended without a panic, whoever unmounted the file system.
  pub started-success :
      {s : Mounted}
      → Steps outside closes started s
      → s.main ≡ returned success
      → (s.mounted ≡ false) × (s.input_open ≡ false) × (s.config_handler ≡ finished)
  started-success steps r =
      let v : IsOrdered _ = Steps-IsOrdered steps (ground arith) in ground arith
