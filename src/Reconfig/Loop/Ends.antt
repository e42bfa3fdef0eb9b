-- ===== src/Reconfig/Loop/Ends.antt =====
-- The loop of src/reconfig.rs ends, whatever the order of its workers.
use sandboxfs_rust.Base.{
  ℕ, suc, ◌+◌, ◌*◌, ◌≤◌, true, false, Option, none, some, List, [], ◌∷◌, ◌++◌, Bytes, ◌≡◌, ap, refl,
  length, arith,
}
use sandboxfs_rust.Errors.{Cause, Failure}
use sandboxfs_rust.Reconfig.{ReconfigurableFs}
use sandboxfs_rust.Reconfig.Loop.{
  Item, request, syntax_error, Response, Loop, End, respond, stop_at, read_item, run_job,
  answer_job, Step, read, work, answer, Steps, here, then_step,
}

length-insert :
    {A : Type 0} (xs : List A) (y : A) (ys : List A)
    → length (xs ++ y ∷ ys) ≡ suc (length (xs ++ ys))
length-insert [] y ys = refl
length-insert (x ∷ xs) y ys = ap suc (length-insert xs y ys)

-- One while the thread that reads has not returned.
abbrev running : Option End → ℕ
running none = 1
running (some e) = 0

-- What is left to do: a request is read, handled and answered.
abbrev pub work_left : {S V : Type 0} → Loop S V → ℕ
work_left l = 3 * length l.input + 2 * length l.waiting + length l.handled + running l.end

-- The thread that reads has returned, and every worker is idle.
abbrev pub IsFinished : {S V : Type 0} → Loop S V → Type 0
IsFinished {S} l = ((e : End) × (l.end ≡ some e)) × (l.waiting ≡ []) × (l.handled ≡ [])

module _ {S V : Type 0} (fs : ReconfigurableFs S) (display : Cause → Bytes)
    (write : Response → V → Option Failure × V) where
  read_item_less :
      (items : List Item) (l : Loop S V)
      → l.input ≡ items
      → l.end ≡ none
      → suc (work_left (read_item fs display write items l)) ≤ work_left l
  unfolding read_item stop_at respond
  read_item_less [] l e q = ground arith
  read_item_less (request r ∷ rest) l e q = ground arith
  read_item_less (syntax_error true text ∷ rest) l e q = ground arith
  read_item_less (syntax_error false text ∷ rest) l e q = ground arith

  Step-work_left : {l t : Loop S V} → Step fs display write l t → suc (work_left t) ≤ work_left l
  unfolding run_job answer_job respond
  Step-work_left {l} (read q) = read_item_less l.input l refl q
  Step-work_left {l} (work before j after e) = ground (arith, length-insert before j after)
  Step-work_left {l} (answer before h after e) = ground (arith, length-insert before h after)

  -- A run of the loop takes at most three steps for each item of its input and one more, whatever
  -- the order of the reads and of the workers.
  pub Steps-bounded :
      {l t : Loop S V} {n : ℕ} → Steps fs display write l n t → n + work_left t ≤ work_left l
  Steps-bounded here = omega arith
  Steps-bounded (then_step steps step) =
      let a = Steps-bounded steps in let b = Step-work_left step in omega arith
