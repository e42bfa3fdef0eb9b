-- ===== src/Reconfig/Loop/OneWorker.antt =====
-- The loop of src/reconfig.rs with a pool of one thread, against a server without workers, which
-- handles one request after the other.
use sandboxfs_rust.Base.{
  ℕ, suc, Bool, true, false, Option, none, some, List, [], ◌∷◌, ◌++◌, map, Bytes, ◌≡◌, refl, sym,
  ap, ◌∙◌, arith,
}
use mathlib.Core.Option
use mathlib.Core.Path.{subst}
use mathlib.Core.List.{append-nil, append_assoc, reverse, reverse-append, map-append}
use sandboxfs_rust.Errors.{Cause, Failure, flatten_causes}
use sandboxfs_rust.Monad.{Outcome, ok, err, panic}
use sandboxfs_rust.Reconfig.{
  ReconfigurableFs, Prefixes, new_prefixes, register, id_of, handle_request,
}
use sandboxfs_rust.Reconfig.Loop.{
  Item, request, syntax_error, Response, Job, Handled, Loop, start, respond, stop_at, read_item,
  run_job, answer_job, Step, read, work, answer, Steps, here, then_step,
}
use sandboxfs_rust.Reconfig.Loop.Ends.{IsFinished}

-- The requests of a stream, each with the view of its registration, in the order of the stream.
abbrev pub registered : List Item → Prefixes → List Job
registered [] known = []
registered (syntax_error _ _ ∷ rest) known = registered rest known
registered (request r ∷ rest) known =
    record { request = r; used_prefixes = (register r known).0 }
    ∷ registered rest (register r known).1

-- What a request that was handled leaves to be answered: nothing after a panic.
abbrev pub outcome_of : Job → Outcome Failure (Unit {0}) → List Handled
outcome_of j (ok _) = record { id = id_of j.request; error = none } ∷ []
outcome_of j (err e) = record { id = id_of j.request; error = some e } ∷ []
outcome_of j (panic p) = []

abbrev pub response_of : (Cause → Bytes) → Handled → Response
response_of display h = record {
  id = some h.id;
  error = Option.map (flatten_causes display) h.error;
}

module _ {S : Type 0} (fs : ReconfigurableFs S) where
  -- The server without workers.
  pub serve : List Job → S → List Handled × S
  serve [] s = ([], s)
  serve (j ∷ js) s =
      let (result, s1) = handle_request fs j.request j.used_prefixes s in
      let (answers, s2) = serve js s1 in (outcome_of j result ++ answers, s2)

  serve_last :
      (js : List Job) (j : Job) (s : S)
      → serve (js ++ j ∷ []) s ≡ (
        (serve js s).0
            ++ outcome_of j (handle_request fs j.request j.used_prefixes (serve js s).1).0,
        (handle_request fs j.request j.used_prefixes (serve js s).1).1,
      )
  unfolding serve
  serve_last [] j s = simp append-nil
  serve_last (i ∷ js) j s = simp (serve_last js j, append_assoc)

-- The responses with an identifier, in the order in which they were written.
abbrev pub numbered : List Response → List Response
numbered [] = []
numbered (r ∷ rs) = elim (r.id) [ none ↦ numbered rs | some id ↦ numbered rs ++ r ∷ [] ]

module _ {S V : Type 0} (fs : ReconfigurableFs S) (display : Cause → Bytes)
    (write : Response → V → Option Failure × V) where
  -- The runs with a pool of one thread (`--reconfig_threads=1`): the worker takes the request that
  -- has waited longest, which is the last of the list, and answers it before it takes another.
  -- Requests are read in the meantime.
  pub data OneWorker (l : Loop S V) : Loop S V → Type 0 where
    at_start : OneWorker l l
    then_read :
        {t : Loop S V}
        → OneWorker l t
        → t.end ≡ none
        → OneWorker l (read_item fs display write t.input t)
    then_work :
        {t : Loop S V} (before : List Job) (j : Job)
        → OneWorker l t
        → t.waiting ≡ before ++ j ∷ []
        → t.handled ≡ []
        → OneWorker l (run_job fs display write j (record t { waiting = before }))
    then_answer :
        {t : Loop S V} (h : Handled)
        → OneWorker l t
        → t.handled ≡ h ∷ []
        → OneWorker l (answer_job fs display write h (record t { handled = [] }))

  -- They are runs of the loop, so what holds of every order of the workers holds of them.
  pub OneWorker-Steps : {l t : Loop S V} → OneWorker l t → (n : ℕ) × Steps fs display write l n t
  OneWorker-Steps at_start = (0, here)
  OneWorker-Steps (then_read run q) =
      let (n, steps) = OneWorker-Steps run in (suc n, then_step steps (read q))
  OneWorker-Steps (then_work {t = t} before j run e h) =
      let (n, steps) = OneWorker-Steps run in
      (
        suc n,
        then_step steps (
            subst
              (λ js.
                Step fs display write t (run_job fs display write j (record t { waiting = js })))
              (append-nil before) (work before j [] e)),
      )
  OneWorker-Steps (then_answer h run e) =
      let (n, steps) = OneWorker-Steps run in (suc n, then_step steps (answer [] h [] e))

  -- Neither the end of the stream nor a worker touches what is still to be read and handled.
  stop_at-rest :
      (is_eof : Bool) (text : Bytes) (l : Loop S V)
      → ((stop_at fs display write is_eof text l).waiting ≡ l.waiting)
        × ((stop_at fs display write is_eof text l).input ≡ l.input)
        × ((stop_at fs display write is_eof text l).prefixes ≡ l.prefixes)
  unfolding stop_at respond
  stop_at-rest true text l = (refl, refl, refl)
  stop_at-rest false text l = (ground arith, ground arith, ground arith)

  run_job-rest :
      (j : Job) (l : Loop S V)
      → ((run_job fs display write j l).waiting ≡ l.waiting)
        × ((run_job fs display write j l).input ≡ l.input)
        × ((run_job fs display write j l).prefixes ≡ l.prefixes)
        × ((run_job fs display write j l).written ≡ l.written)
  unfolding run_job
  run_job-rest j l = (ground arith, ground arith, ground arith, ground arith)

  run_job-state :
      (j : Job) (l : Loop S V)
      → (run_job fs display write j l).state
        ≡ (handle_request fs j.request j.used_prefixes l.state).1
  unfolding run_job
  run_job-state j l = ground arith

  run_job-handled :
      (j : Job) (l : Loop S V)
      → (run_job fs display write j l).handled
        ≡ outcome_of j (handle_request fs j.request j.used_prefixes l.state).0 ++ l.handled
  unfolding run_job
  run_job-handled j l = ground arith

  module _ (items : List Item) (s : S) where
    -- The worker has handled a first part of the requests, one after the other, and has answered
    -- all of them but the one that it is busy with.
    record IsInOrder (t : Loop S V) : Type 0 where
      order : List Job
      state : t.state ≡ (serve fs order s).1
      taken :
          order ++ (reverse t.waiting ++ registered t.input t.prefixes)
          ≡ registered items new_prefixes
      answered :
          numbered t.written ++ map (response_of display) t.handled
          ≡ map (response_of display) (serve fs order s).0

    read_item-IsInOrder :
        (rest : List Item) (t : Loop S V)
        → t.input ≡ rest
        → IsInOrder t
        → IsInOrder (read_item fs display write rest t)
    unfolding read_item stop_at respond
    read_item-IsInOrder [] t e v = record {
      order = v.order;
      state = v.state;
      taken = v.taken;
      answered = v.answered;
    }
    read_item-IsInOrder (request r ∷ rest) t e v = record {
      order = v.order;
      state = v.state;
      taken =
          let j : Job = record { request = r; used_prefixes = (register r t.prefixes).0 } in
          ap (λ js. v.order ++ js)
            (ap (λ js. js ++ registered rest (register r t.prefixes).1)
                (reverse-append (j ∷ []) t.waiting)
              ∙ append_assoc (reverse t.waiting) (j ∷ [])
                  (registered rest (register r t.prefixes).1)
              ∙ ap (λ is. reverse t.waiting ++ registered is t.prefixes) (sym e))
          ∙ v.taken;
      answered = v.answered;
    }
    read_item-IsInOrder (syntax_error true text ∷ rest) t e v = record {
      order = v.order;
      state = v.state;
      taken =
          ap (λ is. v.order ++ (reverse t.waiting ++ registered is t.prefixes)) (sym e) ∙ v.taken;
      answered = v.answered;
    }
    read_item-IsInOrder (syntax_error false text ∷ rest) t e v = record {
      order = v.order;
      state = ground (arith, v.state);
      taken =
          let l : Loop S V = record t { input = rest } in
          let (w, i, p) = stop_at-rest false text l in
          rw w (
            rw i (
              rw p (
                ap (λ is. v.order ++ (reverse t.waiting ++ registered is t.prefixes)) (sym e)
                ∙ v.taken)));
      answered = ground (arith, v.answered);
    }

    run_job-IsInOrder :
        (before : List Job) (j : Job) (t : Loop S V)
        → t.waiting ≡ before ++ j ∷ []
        → t.handled ≡ []
        → IsInOrder t
        → IsInOrder (run_job fs display write j (record t { waiting = before }))
    run_job-IsInOrder before j t e h v = record {
      order = v.order ++ j ∷ [];
      state = run_job-state j l ∙ ap (λ u. (handle_j u).1) v.state ∙ sym (ap (λ r. r.1) last);
      taken = rw rest.0 (rw rest.1 (rw rest.2 (append_assoc v.order (j ∷ []) later ∙ next_taken)));
      answered = rw rest.3 (
          rw (run_job-handled j l)
            (now_answered ∙ ap (λ r. map (response_of display) r.0) (sym last)));
    }
      where
        l : Loop S V
        l = record t { waiting = before }

        rest :
            ((run_job fs display write j l).waiting ≡ l.waiting)
            × ((run_job fs display write j l).input ≡ l.input)
            × ((run_job fs display write j l).prefixes ≡ l.prefixes)
            × ((run_job fs display write j l).written ≡ l.written)
        rest = run_job-rest j l

        handle_j : S → Outcome Failure (Unit {0}) × S
        handle_j = handle_request fs j.request j.used_prefixes

        last : serve fs (v.order ++ j ∷ []) s ≡ (
          (serve fs v.order s).0 ++ outcome_of j (handle_j (serve fs v.order s).1).0,
          (handle_j (serve fs v.order s).1).1,
        )
        last = serve_last fs v.order j s

        later : List Job
        later = reverse before ++ registered t.input t.prefixes

        next_taken : v.order ++ (j ∷ later) ≡ registered items new_prefixes
        next_taken =
            ap (λ js. v.order ++ (js ++ registered t.input t.prefixes))
              (sym (ap reverse e ∙ reverse-append before (j ∷ [])))
            ∙ v.taken

        answers : List Handled
        answers = outcome_of j (handle_j (serve fs v.order s).1).0

        now_answered :
            numbered t.written
              ++ map (response_of display) (outcome_of j (handle_j t.state).0 ++ t.handled)
            ≡ map (response_of display) ((serve fs v.order s).0 ++ answers)
        now_answered =
            ap
              (λ hs.
                numbered t.written
                ++ map (response_of display) (outcome_of j (handle_j t.state).0 ++ hs))
              h
            ∙ ap (λ hs. numbered t.written ++ map (response_of display) hs)
                (append-nil (outcome_of j (handle_j t.state).0)
                  ∙ ap (λ u. outcome_of j (handle_j u).0) v.state)
            ∙ ap (λ rs. rs ++ map (response_of display) answers)
                (sym (append-nil (numbered t.written))
                  ∙ ap (λ hs. numbered t.written ++ map (response_of display) hs) (sym h)
                  ∙ v.answered)
            ∙ sym (map-append (response_of display) (serve fs v.order s).0 answers)

    answer_job-IsInOrder :
        (h : Handled) (t : Loop S V)
        → t.handled ≡ h ∷ []
        → IsInOrder t
        → IsInOrder (answer_job fs display write h (record t { handled = [] }))
    unfolding answer_job respond
    answer_job-IsInOrder h t e v = record {
      order = v.order;
      state = v.state;
      taken = v.taken;
      answered =
          append-nil (numbered t.written ++ response_of display h ∷ [])
          ∙ ap (λ hs. numbered t.written ++ map (response_of display) hs) (sym e)
          ∙ v.answered;
    }

    OneWorker-IsInOrder : {l t : Loop S V} → OneWorker l t → IsInOrder l → IsInOrder t
    OneWorker-IsInOrder at_start v = v
    OneWorker-IsInOrder (then_read {t = t} run q) v =
        read_item-IsInOrder t.input t refl (OneWorker-IsInOrder run v)
    OneWorker-IsInOrder (then_work {t = t} before j run e h) v =
        run_job-IsInOrder before j t e h (OneWorker-IsInOrder run v)
    OneWorker-IsInOrder (then_answer {t = t} h run e) v =
        answer_job-IsInOrder h t e (OneWorker-IsInOrder run v)

    start-IsInOrder : (v : V) → IsInOrder (start s v items)
    unfolding serve
    start-IsInOrder v = record { order = []; state = refl; taken = refl; answered = refl }

    -- With a pool of one thread the loop does what a server without workers does: when it has
    -- finished, the requests that were read have been handled in the order in which they were read,
    -- each with the view that its registration gave, the file system is in the state that this
    -- leaves, and the responses with an identifier are those of these requests, in the same order.
    -- A request whose handling panics has no response.
    pub served_in_order :
        (v : V) {t : Loop S V}
        → OneWorker (start s v items) t
        → IsFinished t
        → (order : List Job) × (order ++ registered t.input t.prefixes
            ≡ registered items new_prefixes)
          × (t.state ≡ (serve fs order s).1)
          × (numbered t.written ≡ map (response_of display) (serve fs order s).0)
    served_in_order v {t} run (_, w, h) =
        let r = OneWorker-IsInOrder run (start-IsInOrder v) in
        (
          r.order,
          ap (λ js. r.order ++ (reverse js ++ registered t.input t.prefixes)) (sym w) ∙ r.taken,
          r.state,
          sym (append-nil (numbered t.written))
              ∙ ap (λ hs. numbered t.written ++ map (response_of display) hs) (sym h)
              ∙ r.answered,
        )
