-- ===== src/Mount.antt =====
-- src/lib.rs: `mount`, from the session on, with the threads that it starts: the one that reads
-- reconfigurations and the one that waits for a signal (`SignalsHandler` of src/concurrent.rs).
-- Their work is modelled elsewhere: here is in which order they start, wait for one another and
-- end.
pub mod Ending
pub mod Waiting
use sandboxfs_rust.Base.{ℕ, Bool, true, false, Option, none, some, List, [], ◌∷◌, ◌++◌, ◌≡◌, ◌⊎◌}

-- How `mount` ends: `Ok(())`, or its error.
pub data End : Type 0 where
  success session_failed thread_panicked : End
  caught_signal : ℕ → End

-- The main thread: in `session.run()`, at the end of the block that owns the input, at
-- `signals.caught()`, in `config_handler.join()`, or back.
pub data Main : Type 0 where
  running dropping checking joining : Main
  returned : End → Main

pub data ConfigHandler : Type 0 where
  looping finished panicked : ConfigHandler

-- `SignalsHandler::handler`: it waits, has a signal to send, unmounts, or has unmounted. That
-- `retry_unmount` then returns and the thread ends is no step: nothing waits for it.
pub data SignalsThread : Type 0 where
  waiting : SignalsThread
  sending unmounting done : ℕ → SignalsThread

pub record Mounted : Type 0 where
  pub main : Main
  pub config_handler : ConfigHandler
  pub signals_thread : SignalsThread
  -- The channel between the signals' thread and the main one.
  pub sent : List ℕ
  -- The file system is mounted, so the session serves requests.
  pub mounted : Bool
  -- The input of the reconfigurations has not been dropped.
  pub input_open : Bool
  -- What writes the input has closed its end, or has written what is no request.
  pub at_end : Bool

-- The threads have started.
abbrev pub started : Mounted
started = record {
  main = running;
  config_handler = looping;
  signals_thread = waiting;
  sent = [];
  mounted = true;
  input_open = true;
  at_end = false;
}

-- `SignalsHandler::caught`, and the `if let` on it in `mount`.
unfoldable pub check_caught : List ℕ → Mounted → Mounted
check_caught [] s = record s { main = joining }
check_caught (signo ∷ rest) s = record s { main = returned (caught_signal signo); sent = rest }

-- The `match` on `config_handler.join()`, which waits for the thread.
abbrev pub joined : ConfigHandler → Option End
joined looping = none
joined finished = some success
joined panicked = some thread_panicked

-- What the loop of reconfigurations ends for: the end of the input or an error in it, or its being
-- dropped, which ends every read of it (Concurrent.Shareable). Until then `stream.next()` waits.
abbrev pub EndsInput : Mounted → Type 0
EndsInput s = (s.at_end ≡ true) ⊎ (s.input_open ≡ false)

-- One step of a thread. `outside` says whether other programs may unmount the file system, and
-- `closes` whether what writes the input may end the loop, by closing it or by an error in it.
pub data Step (outside closes : Bool) (s : Mounted) : Mounted → Type 0 where
  -- The main thread. `session.run()?` returns well once nothing is mounted.
  run_fails :
      s.main ≡ running
      → Step outside closes s (record s { main = returned session_failed; input_open = false })
  run_returns :
      s.main ≡ running → s.mounted ≡ false → Step outside closes s (record s { main = dropping })
  drop_input :
      s.main ≡ dropping → Step outside closes s (record s { main = checking; input_open = false })
  check : s.main ≡ checking → Step outside closes s (check_caught s.sent s)
  join :
      (e : End)
      → s.main ≡ joining
      → joined s.config_handler ≡ some e
      → Step outside closes s (record s { main = returned e })
  -- The thread that reads reconfigurations ends once its input does, or panics.
  loop_ends :
      s.config_handler ≡ looping
      → EndsInput s
      → Step outside closes s (record s { config_handler = finished })
  loop_panics :
      s.config_handler ≡ looping → Step outside closes s (record s { config_handler = panicked })
  -- The signals' thread: the signal is sent before the file system is unmounted.
  signal :
      (signo : ℕ)
      → s.signals_thread ≡ waiting
      → Step outside closes s (record s { signals_thread = sending signo })
  send :
      (signo : ℕ)
      → s.signals_thread ≡ sending signo
      → Step outside closes s
          (record s { signals_thread = unmounting signo; sent = s.sent ++ signo ∷ [] })
  unmount :
      (signo : ℕ)
      → s.signals_thread ≡ unmounting signo
      → Step outside closes s (record s { signals_thread = done signo; mounted = false })
  -- What writes the input closes it, or writes what is no request.
  close_input : closes ≡ true → Step outside closes s (record s { at_end = true })
  -- Another program unmounts the file system.
  unmount_outside : outside ≡ true → Step outside closes s (record s { mounted = false })

pub data Steps (outside closes : Bool) (s : Mounted) : Mounted → Type 0 where
  here : Steps outside closes s s
  then_step :
      {t u : Mounted}
      → Steps outside closes s t
      → Step outside closes t u
      → Steps outside closes s u
