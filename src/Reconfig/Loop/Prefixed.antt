-- ===== src/Reconfig/Loop/Prefixed.antt =====
-- No worker of the loop of src/reconfig.rs panics for want of a prefix.
use sandboxfs_rust.Base.{
  ℕ, true, false, Option, List, [], ◌∷◌, ◌++◌, Bytes, ◌≡◌, ◌≢◌, refl, sym, ap, arith,
}
use mathlib.Core.Path.{subst}
use sandboxfs_rust.Path.{FilePath}
use sandboxfs_rust.Errors.{Cause, Failure}
use sandboxfs_rust.Monad.{Outcome, ok, err, panic, Panic, unknown_prefix}
use sandboxfs_rust.Mapping.{Mapping}
use sandboxfs_rust.Reconfig.{
  ReconfigurableFs, Request, id_of, JsonMapping, create_sandbox, destroy_sandbox, Prefixes,
  register, register_prefixes, used_prefixes, use_prefix, validate_id, apply_request,
  handle_request,
}
use sandboxfs_rust.Reconfig.Answers.{HasPrefixes, handle_request-HasPrefixes}
use sandboxfs_rust.Reconfig.Loop.{
  Item, request, syntax_error, Response, Job, Loop, start, respond, stop_at, read_item, run_job,
  answer_job, Step, read, work, answer, Steps, here, then_step,
}

abbrev pub All : {A : Type 0} → (A → Type 0) → List A → Type 0
All P [] = Unit {0}
All P (x ∷ xs) = P x × All P xs

All-split :
    {A : Type 0} (P : A → Type 0) (xs : List A) (y : A) (ys : List A)
    → All P (xs ++ y ∷ ys)
    → P y × All P (xs ++ ys)
All-split P [] y ys h = h
All-split P (x ∷ xs) y ys (p, h) = let (q, r) = All-split P xs y ys h in (q, (p, r))

-- The view of a request that waits is that of its registration.
abbrev IsRegistered : Job → Type 0
IsRegistered j = (known : Prefixes) × (j.used_prefixes ≡ (register j.request known).0)

-- A panic that is not for want of a prefix.
abbrev pub HasReason : Bytes × Panic → Type 0
HasReason c = c.1 ≢ unknown_prefix

register_prefixes_returns :
    (ps : List (Bytes × FilePath)) (known : Prefixes) (p : Panic)
    → (register_prefixes ps known).0 ≢ panic p
unfolding register_prefixes
register_prefixes_returns [] known p h = ground arith
register_prefixes_returns ((number, path) ∷ rest) known p h =
    grind (arith, λ (k : Prefixes). register_prefixes_returns rest k p)

used_prefixes_returns :
    (ms : List JsonMapping) (known used : Prefixes) (p : Panic)
    → used_prefixes ms known used ≢ panic p
unfolding used_prefixes use_prefix
used_prefixes_returns [] known used p h = ground arith
used_prefixes_returns (m ∷ rest) known used p h =
    grind (arith, λ (u : Prefixes). used_prefixes_returns rest known u p)

register_returns : (r : Request) (known : Prefixes) (p : Panic) → (register r known).0 ≢ panic p
unfolding register
register_returns (destroy_sandbox id) known p h = ground arith
register_returns (create_sandbox r) known p h = ground (
  arith,
  register_prefixes_returns r.prefixes known p,
  used_prefixes_returns r.mappings (register_prefixes r.prefixes known).1 [] p,
)

module _ {S V : Type 0} (fs : ReconfigurableFs S) (display : Cause → Bytes)
    (write : Response → V → Option Failure × V)
    (creates : (id : Bytes) (ms : List Mapping) (s : S) → HasPrefixes (fs.create id ms s).0)
    (destroys : (id : Bytes) (s : S) → HasPrefixes (fs.destroy id s).0) where
  handle-HasPrefixes :
      (r : Request) (known : Prefixes) (view : Outcome Failure Prefixes) (s : S)
      → view ≡ (register r known).0
      → HasPrefixes (handle_request fs r view s).0
  unfolding handle_request apply_request validate_id
  handle-HasPrefixes r known (err e) s q = λ h. ground arith
  handle-HasPrefixes r known (panic p) s q = absurd (register_returns r known p (sym q))
  handle-HasPrefixes (create_sandbox r) known (ok used) s q =
      handle_request-HasPrefixes fs r known used s creates (sym q)
  handle-HasPrefixes (destroy_sandbox id) known (ok used) s q = λ h. ground (arith, destroys id s)

  record IsPrefixed (l : Loop S V) : Type 0 where
    waiting : All IsRegistered l.waiting
    crashed : All HasReason l.crashed

  read_item-IsPrefixed :
      (rest : List Item) (l : Loop S V)
      → IsPrefixed l
      → IsPrefixed (read_item fs display write rest l)
  unfolding read_item stop_at respond
  read_item-IsPrefixed [] l v = record { waiting = v.waiting; crashed = v.crashed }
  read_item-IsPrefixed (request r ∷ rest) l v = record {
    waiting = ((l.prefixes, refl), v.waiting);
    crashed = v.crashed;
  }
  read_item-IsPrefixed (syntax_error true text ∷ rest) l v = record {
    waiting = v.waiting;
    crashed = v.crashed;
  }
  read_item-IsPrefixed (syntax_error false text ∷ rest) l v =
      let l' = read_item fs display write (syntax_error false text ∷ rest) l in
      let same_waiting : l.waiting ≡ l'.waiting = ground arith in
      let same_crashed : l.crashed ≡ l'.crashed = ground arith in
      record {
        waiting = subst (All IsRegistered) same_waiting v.waiting;
        crashed = subst (All HasReason) same_crashed v.crashed;
      }

  run_job-crashed :
      (j : Job) (l : Loop S V) (o : Outcome Failure (Unit {0}))
      → (handle_request fs j.request j.used_prefixes l.state).0 ≡ o
      → HasPrefixes o
      → All HasReason l.crashed
      → All HasReason (run_job fs display write j l).crashed
  unfolding run_job
  run_job-crashed j l (ok a) e h c =
      let same : l.crashed ≡ (run_job fs display write j l).crashed = ground arith in
      subst (All HasReason) same c
  run_job-crashed j l (err f) e h c =
      let same : l.crashed ≡ (run_job fs display write j l).crashed = ground arith in
      subst (All HasReason) same c
  run_job-crashed j l (panic p) e h c =
      let one_more : ((id_of j.request, p) ∷ l.crashed) ≡ (run_job fs display write j l).crashed =
        ground arith in
      subst (All HasReason) one_more ((λ q. h (ap panic q)), c)

  run_job-IsPrefixed :
      (j : Job) (l : Loop S V)
      → IsRegistered j
      → IsPrefixed l
      → IsPrefixed (run_job fs display write j l)
  unfolding run_job
  run_job-IsPrefixed j l (known, q) v =
      let same : l.waiting ≡ (run_job fs display write j l).waiting = ground arith in
      record {
        waiting = subst (All IsRegistered) same v.waiting;
        crashed =
            run_job-crashed j l _ refl
              (handle-HasPrefixes j.request known j.used_prefixes l.state q) v.crashed;
      }

  Step-IsPrefixed : {l t : Loop S V} → Step fs display write l t → IsPrefixed l → IsPrefixed t
  unfolding answer_job respond
  Step-IsPrefixed {l} (read q) v = read_item-IsPrefixed l.input l v
  Step-IsPrefixed {l} (work before j after e) v =
      let (known, others) =
        All-split IsRegistered before j after (subst (All IsRegistered) e v.waiting) in
      run_job-IsPrefixed j (record l { waiting = before ++ after }) known
        (record { waiting = others; crashed = v.crashed })
  Step-IsPrefixed {l} (answer before h after e) v = record {
    waiting = v.waiting;
    crashed = v.crashed;
  }

  Steps-IsPrefixed :
      {l t : Loop S V} {n : ℕ} → Steps fs display write l n t → IsPrefixed l → IsPrefixed t
  Steps-IsPrefixed here v = v
  Steps-IsPrefixed (then_step steps step) v = Step-IsPrefixed step (Steps-IsPrefixed steps v)

  -- If the file system does not panic for want of a prefix, then no worker of a run of the loop
  -- does, whatever its input is and in whatever order requests are read and handled.
  pub Steps-HasReason :
      (s : S) (v : V) (items : List Item) {t : Loop S V} {n : ℕ}
      → Steps fs display write (start s v items) n t
      → All HasReason t.crashed
  Steps-HasReason s v items steps =
      (Steps-IsPrefixed steps (record { waiting = tt; crashed = tt })).crashed
