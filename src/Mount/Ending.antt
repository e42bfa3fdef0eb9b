-- ===== src/Mount/Ending.antt =====
-- How `mount` of src/lib.rs ends.
use sandboxfs_rust.Base.{ℕ, Bool, true, false, List, [], ◌∷◌, ◌≡◌, ◌≢◌, ◌⊎◌, inl, inr, refl, arith}
use sandboxfs_rust.Mount.{
  End, success, session_failed, thread_panicked, caught_signal, Main, running, dropping, checking,
  joining, returned, SignalsThread, waiting, sending, unmounting, done, Mounted, started,
  check_caught, Step, run_fails, run_returns, drop_input, check, join, loop_ends, loop_panics,
  signal, send, unmount, close_input, unmount_outside, Steps, here, then_step,
}

-- What the signals' thread has sent.
abbrev sent_by : SignalsThread → List ℕ
sent_by waiting = []
sent_by (sending n) = []
sent_by (unmounting n) = n ∷ []
sent_by (done n) = n ∷ []

abbrev is_done : SignalsThread → Bool
is_done (done n) = true
is_done _ = false

-- The main thread has seen the session end, and has not looked for a signal yet.
abbrev is_leaving : Main → Bool
is_leaving dropping = true
is_leaving checking = true
is_leaving _ = false

abbrev is_before_check : Main → Bool
is_before_check running = true
is_before_check main = is_leaving main

-- The signal that `mount` returns.
abbrev signal_of : Main → List ℕ
signal_of (returned (caught_signal n)) = n ∷ []
signal_of _ = []

abbrev has_signal : Main → Bool
has_signal (returned (caught_signal n)) = true
has_signal _ = false

-- While no other program unmounts the file system: it goes only after its signal was sent, so the
-- main thread finds the signal.
record IsOwn (s : Mounted) : Type 0 where
  unmounted : s.mounted ≡ false → is_done s.signals_thread ≡ true
  leaving : is_leaving s.main ≡ true → is_done s.signals_thread ≡ true
  pending : is_before_check s.main ≡ true → s.sent ≡ sent_by s.signals_thread
  found :
      has_signal s.main ≡ true
      → (signal_of s.main ≡ sent_by s.signals_thread) × (is_done s.signals_thread ≡ true)
  not_joining : s.main ≢ joining
  not_well : s.main ≢ returned success
  not_panicked : s.main ≢ returned thread_panicked

Step-IsOwn : {closes : Bool} {s t : Mounted} → Step false closes s t → IsOwn s → IsOwn t
unfolding check_caught
Step-IsOwn {s = s} (run_fails p) v = ground arith
Step-IsOwn {s = s} (run_returns p q) v = ground arith
Step-IsOwn {s = s} (drop_input p) v = ground arith
Step-IsOwn {s = s} (check p) v = ground arith
Step-IsOwn {s = s} (join e p q) v = ground arith
Step-IsOwn {s = s} (loop_ends p q) v = ground arith
Step-IsOwn {s = s} (loop_panics p) v = ground arith
Step-IsOwn {s = s} (signal n p) v = ground arith
Step-IsOwn {s = s} (send n p) v = ground arith
Step-IsOwn {s = s} (unmount n p) v = ground arith
Step-IsOwn {s = s} (close_input p) v = ground arith
Step-IsOwn {s = s} (unmount_outside p) v = absurd (ground arith)

Steps-IsOwn : {closes : Bool} {s t : Mounted} → Steps false closes s t → IsOwn s → IsOwn t
Steps-IsOwn here v = v
Steps-IsOwn (then_step steps step) v = Step-IsOwn step (Steps-IsOwn steps v)

-- If no other program unmounts the file system and `mount` returns, then it returns the error of
-- the session, or the signal that its signals' thread caught and unmounted the file system for:
-- never success, and never without the signal having been handled.
pub started-ends :
    {closes : Bool} {s : Mounted} (e : End)
    → Steps false closes started s
    → s.main ≡ returned e
    → (e ≡ session_failed) ⊎ ((n : ℕ) × (e ≡ caught_signal n) × (s.signals_thread ≡ done n))
started-ends {s = s} e steps r = by_end e r s.signals_thread refl
  where
    v : IsOwn s
    v = Steps-IsOwn steps (ground arith)

    by_end :
        (e : End)
        → s.main ≡ returned e
        → (t : SignalsThread) → s.signals_thread ≡ t
        → (e ≡ session_failed) ⊎ ((n : ℕ) × (e ≡ caught_signal n) × (s.signals_thread ≡ done n))
    by_end session_failed r t q = inl refl
    by_end success r t q = absurd (v.not_well r)
    by_end thread_panicked r t q = absurd (v.not_panicked r)
    by_end (caught_signal n) r (done m) q = inr (n, refl, ground (arith, v.found))
    by_end (caught_signal n) r t q = absurd (ground (arith, v.found))
