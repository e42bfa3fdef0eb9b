-- ===== src/Reconfig/Loop.antt =====
-- src/reconfig.rs: `respond` and `run_loop_aux`, as steps of the thread that reads the requests and
-- of the workers of the pool. A worker may take any request that waits, so the steps are those of a
-- pool of any size. What the stream of requests gives is a list, and writing a response is a
-- parameter.
--
-- A step takes the whole handling of one request. So the steps are the runs in which no two workers
-- are inside the file system at one time: what the reads, the answers and the order of the requests
-- can do, and not how the calls of two requests mix that are handled at the same time. The source
-- holds no lock over a request, and create_sandbox takes the locks of the tree once for each
-- mapping. With one worker there is nothing to mix (OneWorker). Waiting for a lock or for input is
-- no step either.
pub mod Tally
pub mod Ends
pub mod Answered
pub mod OneWorker
pub mod Prefixed
use sandboxfs_rust.Base.{
  ℕ, suc, Bool, true, false, Option, none, some, List, [], ◌∷◌, ◌++◌, Bytes, ◌≡◌,
}
use mathlib.Core.Option
use sandboxfs_rust.Errors.{Cause, Failure, failure, bad_request, flatten_causes}
use sandboxfs_rust.Monad.{Outcome, ok, err, panic, Panic}
use sandboxfs_rust.Reconfig.{
  Request, id_of, Prefixes, new_prefixes, register, ReconfigurableFs, handle_request,
}

-- What `stream.next()` gives: a request, or an error with its `is_eof` and its text.
pub data Item : Type 0 where
  request : Request → Item
  syntax_error : Bool → Bytes → Item

pub record Response : Type 0 where
  pub id : Option Bytes
  pub error : Option Bytes

-- A request that waits for a worker, with the view that its registration gave.
pub record Job : Type 0 where
  pub request : Request
  pub used_prefixes : Outcome Failure Prefixes

-- A request that a worker has handled, with its error.
pub record Handled : Type 0 where
  pub id : Bytes
  pub error : Option Failure

-- How `run_loop_aux` ends: `Ok(())`, an error, or its assertion.
pub data End : Type 0 where
  success : End
  failed : Failure → End
  assertion : End

pub record Loop (S V : Type 0) : Type 0 where
  pub state : S
  pub writer : V
  pub input : List Item
  pub prefixes : Prefixes
  pub waiting : List Job
  pub handled : List Handled
  -- The responses given to the writer, the last one first.
  pub written : List Response
  -- The identifiers of requests whose worker panicked, with the panic.
  pub crashed : List (Bytes × Panic)
  pub end : Option End

-- `run_loop_aux` before its loop, with what the stream will give.
abbrev pub start : {S V : Type 0} → S → V → List Item → Loop S V
start s v items = record {
  state = s;
  writer = v;
  input = items;
  prefixes = new_prefixes;
  waiting = [];
  handled = [];
  written = [];
  crashed = [];
  end = none;
}

module _ {S V : Type 0} (fs : ReconfigurableFs S) (display : Cause → Bytes)
    (write : Response → V → Option Failure × V) where
  unfoldable pub respond : Option Bytes → Option Failure → Loop S V → Option Failure × Loop S V
  unfolding flatten_causes
  respond id error l =
      let response : Response = record {
        id = id;
        error = Option.map (flatten_causes display) error;
      } in
      let (failure, v) = write response l.writer in
      (failure, record l { writer = v; written = response ∷ l.written })

  -- The branch of the loop for an error of the stream.
  unfoldable pub stop_at : Bool → Bytes → Loop S V → Loop S V
  unfolding respond
  stop_at true text l = record l { end = some assertion }
  stop_at false text l =
      let (unwritten, l') = respond none (some (failure (bad_request text))) l in
      elim unwritten [
        | none ↦ record l' { end = some (failed (failure (bad_request text))) }
        | some e ↦ record l' { end = some (failed e) }
      ]

  -- The body of the loop.
  unfoldable pub read_item : List Item → Loop S V → Loop S V
  unfolding stop_at register
  read_item [] l = record l { end = some success }
  read_item (syntax_error is_eof text ∷ rest) l = stop_at is_eof text (record l { input = rest })
  read_item (request r ∷ rest) l =
      let (used, known) = register r l.prefixes in
      record l {
        input = rest;
        prefixes = known;
        waiting = record { request = r; used_prefixes = used } ∷ l.waiting;
      }

  -- The closure that the pool executes, up to its response: a panic ends it.
  unfoldable pub run_job : Job → Loop S V → Loop S V
  unfolding handle_request
  run_job j l =
      let (result, s) = handle_request fs j.request j.used_prefixes l.state in
      elim result [
        | ok _ ↦ record l {
          state = s;
          handled = record { id = id_of j.request; error = none } ∷ l.handled;
        }
        | err e ↦ record l {
          state = s;
          handled = record { id = id_of j.request; error = some e } ∷ l.handled;
        }
        | panic p ↦ record l { state = s; crashed = (id_of j.request, p) ∷ l.crashed }
      ]

  -- The rest of the closure. That a response cannot be written is only logged.
  unfoldable pub answer_job : Handled → Loop S V → Loop S V
  unfolding respond
  answer_job h l = (respond (some h.id) h.error l).1

  pub data Step (l : Loop S V) : Loop S V → Type 0 where
    read : l.end ≡ none → Step l (read_item l.input l)
    work :
        (before : List Job) (j : Job) (after : List Job)
        → l.waiting ≡ before ++ j ∷ after
        → Step l (run_job j (record l { waiting = before ++ after }))
    answer :
        (before : List Handled) (h : Handled) (after : List Handled)
        → l.handled ≡ before ++ h ∷ after
        → Step l (answer_job h (record l { handled = before ++ after }))

  -- Steps one after the other, with their number.
  pub data Steps (l : Loop S V) : ℕ → Loop S V → Type 0 where
    here : Steps l 0 l
    then_step : {n : ℕ} {t u : Loop S V} → Steps l n t → Step t u → Steps l (suc n) u
