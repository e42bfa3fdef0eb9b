-- ===== src/Reconfig/Loop/Answered.antt =====
-- Each request that the loop of src/reconfig.rs reads is answered once.
use sandboxfs_rust.Base.{
  ℕ, ◌+◌, true, false, Option, none, some, List, [], ◌∷◌, Bytes, ◌==◌, list_eq, nat_eq, ◌≡◌, refl,
  if◌then◌else◌, arith,
}
use sandboxfs_rust.Errors.{Cause, Failure}
use sandboxfs_rust.Monad.{Panic}
use sandboxfs_rust.Reconfig.{ReconfigurableFs, id_of}
use sandboxfs_rust.Reconfig.Loop.{
  Item, request, syntax_error, Response, Job, Handled, Loop, start, respond, stop_at, read_item,
  run_job, answer_job, Step, read, work, answer, Steps, here, then_step,
}
use sandboxfs_rust.Reconfig.Loop.Tally.{tally, tally-insert}
use sandboxfs_rust.Reconfig.Loop.Ends.{IsFinished}

-- How often an identifier stands in the parts of the loop.
module _ (x : Bytes) where
  abbrev pub is_id : Bytes → ℕ
  is_id id = if id == x then 1 else 0

  abbrev pub asks : Item → ℕ
  asks (request r) = is_id (id_of r)
  asks (syntax_error _ _) = 0

  abbrev pub answers : Response → ℕ
  answers r = elim r.id [ none ↦ 0 | some id ↦ is_id id ]

  abbrev pub crashes : Bytes × Panic → ℕ
  crashes c = is_id c.0

  abbrev in_flight : {S V : Type 0} → Loop S V → ℕ
  in_flight l =
      tally asks l.input
      + tally (λ j. is_id (id_of (Job.request j))) l.waiting
      + tally (λ h. is_id (Handled.id h)) l.handled
      + tally answers l.written
      + tally crashes l.crashed

  module _ {S V : Type 0} (fs : ReconfigurableFs S) (display : Cause → Bytes)
      (write : Response → V → Option Failure × V) where
    read_item-in_flight :
        (items : List Item) (l : Loop S V)
        → l.input ≡ items
        → in_flight (read_item fs display write items l) ≡ in_flight l
    unfolding read_item stop_at respond
    read_item-in_flight [] l e = ground arith
    read_item-in_flight (request r ∷ rest) l e = ground arith
    read_item-in_flight (syntax_error true text ∷ rest) l e = ground arith
    read_item-in_flight (syntax_error false text ∷ rest) l e = ground arith

    Step-in_flight : {l t : Loop S V} → Step fs display write l t → in_flight t ≡ in_flight l
    unfolding run_job answer_job respond
    Step-in_flight {l} (read q) = read_item-in_flight l.input l refl
    Step-in_flight {l} (work before j after e) =
        ground (arith, tally-insert (λ j. is_id (id_of (Job.request j))) before j after)
    Step-in_flight {l} (answer before h after e) =
        ground (arith, tally-insert (λ h. is_id (Handled.id h)) before h after)

    Steps-in_flight :
        {l t : Loop S V} {n : ℕ} → Steps fs display write l n t → in_flight t ≡ in_flight l
    Steps-in_flight here = refl
    Steps-in_flight (then_step steps step) =
        let a = Steps-in_flight steps in let b = Step-in_flight step in omega arith

  -- When the loop has finished, an identifier stands in as many responses as in requests that were
  -- read and whose worker did not panic, whatever the order of the workers was.
  pub answered_once :
      {S V : Type 0} (fs : ReconfigurableFs S) (display : Cause → Bytes)
      (write : Response → V → Option Failure × V) (s : S) (v : V) (items : List Item) {t : Loop S V}
      {n : ℕ}
      → Steps fs display write (start s v items) n t
      → IsFinished t
      → tally answers t.written + tally crashes t.crashed + tally asks t.input ≡ tally asks items
  answered_once fs display write s v items steps (_, w, h) =
      ground (arith, Steps-in_flight fs display write steps, w, h)
