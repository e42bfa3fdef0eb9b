-- ===== src/Tests/Stream.antt =====
-- The theorems on the loop, for one request that a file system of no state accepts.
use sandboxfs_rust.Base.{
  ◌+◌, ◌≤◌, arith, Option, none, some, List, [], ◌∷◌, ◌++◌, map, Bytes, bytes, ◌≡◌, refl,
}
use sandboxfs_rust.Errors.{Cause, Failure}
use sandboxfs_rust.Monad.{ok}
use sandboxfs_rust.Reconfig.{ReconfigurableFs, destroy_sandbox, new_prefixes}
use sandboxfs_rust.Reconfig.Loop.{
  Item, request, Response, Job, success, Loop, start, read_item, run_job, answer_job, read, work,
  answer, Steps, here, then_step,
}
use sandboxfs_rust.Reconfig.Loop.Tally.{tally}
use sandboxfs_rust.Reconfig.Loop.OneWorker.{
  registered, serve, response_of, numbered, OneWorker, at_start, then_read, then_work, then_answer,
  served_in_order,
}
use sandboxfs_rust.Reconfig.Loop.Prefixed.{All, HasReason, Steps-HasReason}
use sandboxfs_rust.Reconfig.Loop.Ends.{work_left, Steps-bounded}
use sandboxfs_rust.Reconfig.Loop.Answered.{crashes, asks, answers, answered_once}

abbrev accepting : ReconfigurableFs (Unit {0})
accepting = record { create = λ id ms s. (ok tt, s); destroy = λ id s. (ok tt, s) }

abbrev show_cause : Cause → Bytes
show_cause _ = bytes "cause"

abbrev written : Response → Unit {0} → Option Failure × Unit {0}
written _ s = (none, s)

abbrev input : List Item
input = request (destroy_sandbox (bytes "a")) ∷ []

abbrev final : Loop (Unit {0}) (Unit {0})
final = record (start tt tt []) {
  written = record { id = some (bytes "a"); error = none } ∷ [];
  end = some success;
}

run : Steps accepting show_cause written (start tt tt input) 4 final
unfolding read_item run_job answer_job
run =
    then_step
      (then_step (then_step (then_step here (read refl)) (work [] _ [] refl)) (answer [] _ [] refl))
      (read refl)

Steps-bounded_example : 4 + work_left final ≤ work_left (start (tt {0}) (tt {0}) input)
Steps-bounded_example = Steps-bounded accepting show_cause written run

answered_once_example :
    tally (answers (bytes "a")) final.written
      + tally (crashes (bytes "a")) final.crashed
      + tally (asks (bytes "a")) final.input
    ≡ tally (asks (bytes "a")) input
answered_once_example =
    answered_once (bytes "a") accepting show_cause written tt tt input run
      ((success, refl), refl, refl)

-- Two requests, for a file system that notes the identifiers. Both are read before the worker
-- starts.
abbrev noting : ReconfigurableFs (List Bytes)
noting = record { create = λ id ms s. (ok tt, s); destroy = λ id s. (ok tt, id ∷ s) }

abbrev two_requests : List Item
two_requests = request (destroy_sandbox (bytes "a")) ∷ request (destroy_sandbox (bytes "b")) ∷ []

abbrev response : Bytes → Response
response id = record { id = some id; error = none }

abbrev both_done : Loop (List Bytes) (Unit {0})
both_done = record (start (bytes "b" ∷ bytes "a" ∷ []) tt []) {
  written = response (bytes "b") ∷ response (bytes "a") ∷ [];
  end = some success;
}

abbrev job : Bytes → Job
job id = record { request = destroy_sandbox id; used_prefixes = ok [] }

serial_run : OneWorker noting show_cause written (start [] tt two_requests) both_done
unfolding read_item run_job answer_job
serial_run =
    then_read
      (then_answer _
        (then_work [] _
          (then_answer _
            (then_work (job (bytes "b") ∷ []) (job (bytes "a"))
              (then_read (then_read at_start refl) refl) refl refl)
            refl)
          refl refl)
        refl)
      refl

served_in_order_example :
    (order : List Job) × (order ++ registered both_done.input both_done.prefixes
      ≡ registered two_requests new_prefixes)
    × (both_done.state ≡ (serve noting order []).1)
    × (numbered both_done.written ≡ map (response_of show_cause) (serve noting order []).0)
served_in_order_example =
    served_in_order noting show_cause written two_requests [] tt serial_run
      ((success, refl), refl, refl)

Steps-HasReason_example : All HasReason final.crashed
Steps-HasReason_example =
    Steps-HasReason accepting show_cause written (λ id ms s. λ h. ground arith)
      (λ id s. λ h. ground arith) tt tt input run
