-- ===== src/Tests/Threads.antt =====
-- The theorems on shared files, signals and `mount`, for a small kernel.
use sandboxfs_rust.Base.{
  ℕ, true, false, ◌||◌, List, [], ◌∷◌, ◌++◌, nat_eq, ◌≡◌, ◌⊎◌, inr, refl, if◌then◌else◌, arith,
}
use sandboxfs_rust.Errors.{Result, IoError, NixError}
use sandboxfs_rust.Errors
use sandboxfs_rust.Os.{Call}
use sandboxfs_rust.Monad.{ok}
use sandboxfs_rust.Concurrent.{has}
use sandboxfs_rust.Concurrent.Shareable.{
  Descriptors, ShareableFile, ShareableFileReader, Shared, drop_file, read,
}
use sandboxfs_rust.Concurrent.Shareable.Ends.{PipeLaws, drop_file-ends}
use sandboxfs_rust.Concurrent.Signals.{Signalling, SigmaskHow, sig_block, sig_setmask}
use sandboxfs_rust.Concurrent.Signals.Restored.{MaskLaws}
use sandboxfs_rust.Mount.{
  success, session_failed, caught_signal, done, returned, finished, Mounted, started, check_caught,
  run_returns, drop_input, check, join, loop_ends, signal, send, unmount, unmount_outside, Steps,
  here, then_step,
}
use sandboxfs_rust.Mount.Ending.{started-ends}
use sandboxfs_rust.Mount.Waiting.{started-success}

-- The world is the list of closed descriptors. Descriptor 5 reads from the pipe that 6 writes to,
-- and 4 is a file that has nothing to read.
abbrev closed_now : ℕ → Call (List ℕ) NixError (Unit {0})
closed_now fd w = (Errors.ok tt, fd ∷ w)

abbrev select_now : List ℕ → Call (List ℕ) NixError (ℕ × List ℕ)
select_now set w = (Errors.ok (if has 6 w then (1, set) else (0, [])), w)

abbrev kernel : Descriptors (List ℕ)
kernel = record {
  debug_assertions = true;
  pipe = λ w. (Errors.ok (5, 6), w);
  write = λ fd b w. (Errors.ok 1, w);
  close = closed_now;
  select = select_now;
  read = λ fd size w. (Errors.ok [], w);
}

kernel_laws : PipeLaws kernel
kernel_laws = record {
  Wakes = λ v n w. v ≡ 6;
  IsReady = λ n w. has 6 w ≡ true;
  write-IsSystem = λ v b w. tt;
  select-IsSystem = λ set w. tt;
  write-Wakes = λ u v n b w h. h;
  close-Wakes = λ u v n w p q h. h;
  close-IsReady = λ v n w h. ground arith;
  write-IsReady_stays = λ u n b w h. h;
  close-IsReady_stays = λ u n w p h. ground arith;
  select_count = λ m n w c left e. ground arith;
  select_ready = λ m n w c left h e. ground arith;
}

abbrev shared_file : ShareableFile
shared_file = record { fd = 4; watchers = 6 ∷ [] }

abbrev shared_reader : ShareableFileReader
shared_reader = record { fd = 4; notifier = 5 }

abbrev before_drop : Shared (List ℕ)
before_drop = record { world = []; closed = false }

drop_file-ends_example :
    ((drop_file kernel shared_file before_drop).0 ≡ ok tt)
    × ((read kernel shared_reader 10 (drop_file kernel shared_file before_drop).1).0 ≡ ok [])
unfolding kernel_laws
drop_file-ends_example =
    drop_file-ends kernel kernel_laws shared_file shared_reader [] [] 6 10 before_drop refl refl tt
      tt tt (omega arith)

-- The world is the mask of signals.
abbrev mask_now : SigmaskHow → List ℕ → Call (List ℕ) NixError (List ℕ)
mask_now sig_block set w = (Errors.ok w, set ++ w)
mask_now sig_setmask set w = (Errors.ok w, set)

abbrev masks : Signalling (List ℕ)
masks = record {
  pthread_sigmask = mask_now;
  new_signals = λ set w. (Errors.ok tt, w);
  spawn_handler = λ w. w;
}

has-append : (xs ys : List ℕ) (x : ℕ) → has x (xs ++ ys) ≡ (has x xs || has x ys)
has-append [] ys x = refl
has-append (z ∷ xs) ys x = ground (arith, has-append xs ys x)

masks_laws : MaskLaws masks
masks_laws = record {
  blocked = λ w x. has x w;
  block-blocked = λ set old w e x. has-append set w x;
  block-old = λ set old w e x. ground arith;
  setmask-blocked = λ set old w e x. refl;
}

abbrev session : Call (List ℕ) IoError ℕ
session w = (Errors.ok 7, w)

-- A signal comes, is sent, and unmounts the file system.
abbrev stopped : Mounted
stopped = record started {
  main = returned (caught_signal 15);
  signals_thread = done 15;
  mounted = false;
  input_open = false;
}

stopped-Steps : Steps false false started stopped
unfolding check_caught
stopped-Steps =
    then_step
      (then_step
        (then_step
          (then_step (then_step (then_step here (signal 15 refl)) (send 15 refl)) (unmount 15 refl))
          (run_returns refl refl))
        (drop_input refl))
      (check refl)

started-ends_example :
    (caught_signal 15 ≡ session_failed)
    ⊎ ((n : ℕ) × (caught_signal 15 ≡ caught_signal n) × (stopped.signals_thread ≡ done n))
started-ends_example = started-ends (caught_signal 15) stopped-Steps refl

-- Another program unmounts the file system.
abbrev unmounted : Mounted
unmounted = record started { mounted = false }

unmounted-Steps : Steps true false started unmounted
unmounted-Steps = then_step here (unmount_outside refl)

abbrev over : Mounted
over = record started {
  main = returned success;
  config_handler = finished;
  mounted = false;
  input_open = false;
}

over-Steps : Steps true false started over
unfolding check_caught
over-Steps =
    then_step
      (then_step
        (then_step (then_step (then_step unmounted-Steps (run_returns refl refl)) (drop_input refl))
          (check refl))
        (loop_ends refl (inr refl)))
      (join success refl refl)

started-success_example :
    (over.mounted ≡ false) × (over.input_open ≡ false) × (over.config_handler ≡ finished)
started-success_example = started-success over-Steps refl
