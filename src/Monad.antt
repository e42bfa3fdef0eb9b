-- ===== src/Monad.antt =====
-- How an operation runs: it returns, fails with an error or panics, and what it has written to the
-- state stays written in every case.
pub mod Ids
pub mod Bind
pub mod Keeps
pub mod Steps
pub mod Extending
use sandboxfs_rust.Base.{
  ℕ, ◌+◌, ◌-◌, ◌%◌, ◌^◌, Bool, true, false, Option, none, some, ◌==◌, nat_eq, leb, not, ◌&&◌,
  if◌then◌else◌,
}
use sandboxfs_rust.Errors.{Result, IoError, NixError, KernelError, kernel_of_io, kernel_of_nix}
use sandboxfs_rust.Os.{Os, Call}
use sandboxfs_rust.State.{State, Node, Cache}

-- The `panic!`, `expect`, `assert!` and `debug_assert!` calls of the program. `unimplemented` is a
-- method that a type of node leaves to the default of the trait. `dangling` cannot happen in Rust:
-- it is an address with no node.
pub data Panic : Type 0 where
  out_of_identifiers unimplemented dangling : Panic
  wrong_type_for_node deleted_twice renamed_deleted_node link_count : Panic
  directory_cached unknown_cached_path : Panic
  unknown_entry reopened_deleted_file deleted_symlink : Panic
  unknown_handle handle_in_use same_directory wrong_root : Panic
  not_normalized no_components handle_and_path_disagree : Panic
  out_of_fuel unknown_prefix : Panic
  unmatched_name write_too_long size_overflow : Panic
  not_a_system_error nothing_ready too_many_ready sigmask_failed : Panic
  bad_default_ttl profiler_failed no_arguments : Panic

pub data Outcome (E A : Type 0) : Type 0 where
  ok : A → Outcome E A
  err : E → Outcome E A
  panic : Panic → Outcome E A

abbrev pub M : Type 0 → Type 0 → Type 0 → Type 0
M W E A = State W → Outcome E A × State W

module _ {W E A : Type 0} where
  abbrev pub pure : A → M W E A
  pure a s = (ok a, s)

  abbrev pub raise : E → M W E A
  raise e s = (err e, s)

  abbrev pub abort : Panic → M W E A
  abort p s = (panic p, s)

  abbrev pub gets : (State W → A) → M W E A
  gets f s = (ok (f s), s)

  -- `expect` and `unwrap`
  abbrev pub expect : Option A → Panic → M W E A
  expect none p = abort p
  expect (some a) p = pure a

module _ {W E A B : Type 0} where
  infixl 5 ◌>>=◌
  abbrev pub ◌>>=◌ : M W E A → (A → M W E B) → M W E B
  ◌>>=◌ m f s =
      let (r, s') = m s in elim r [ ok a ↦ f a s' | err e ↦ (err e, s') | panic p ↦ (panic p, s') ]

infixl 5 ◌>>◌
abbrev pub ◌>>◌ : {W E B : Type 0} → M W E (Unit {0}) → M W E B → M W E B
m >> k = m >>= λ _. k

module _ {W E : Type 0} where
  abbrev pub modify : (State W → State W) → M W E (Unit {0})
  modify f s = (ok tt, f s)

  -- `assert!`
  abbrev pub assert : Bool → Panic → M W E (Unit {0})
  assert true p = pure tt
  assert false p = abort p

  -- `if cond { return Err(e) }`
  abbrev pub raise_if : Bool → E → M W E (Unit {0})
  raise_if true e = raise e
  raise_if false e = pure tt

  -- `debug_assert!`
  abbrev pub debug_assert : Os W → Bool → Panic → M W E (Unit {0})
  debug_assert os b p = assert (not (os.debug_assertions && not b)) p

  -- `fetch_add(1)` wraps around, and a usize has 64 bits.
  unfoldable pub next : M W E ℕ
  next s =
      let s' = record s { last_id = (s.last_id + 1) % 2 ^ 64 } in
      if leb (2 ^ 64 - 1) s.last_id then (panic out_of_identifiers, s') else (ok s.last_id, s')

  unfoldable pub fetch : ℕ → M W E Node
  fetch a s = expect (s.arena a) dangling s

abbrev pub update {ℓ} : {A : Type ℓ} → (ℕ → Option A) → ℕ → Option A → ℕ → Option A
update f a v b = if a == b then v else f b

module _ {W E : Type 0} where
  unfoldable pub store : ℕ → Node → M W E (Unit {0})
  store a n s = (ok tt, record s { arena = update s.arena a (some n) })

  abbrev pub set_cache : Cache → M W E (Unit {0})
  set_cache c s = (ok tt, record s { cache = c })

-- A call to the system: its result as it is, or with its error converted and raised.
module _ {W E E' A : Type 0} where
  unfoldable pub attempt : Call W E A → M W E' (Result E A)
  attempt call s = let (r, w) = call s.world in (ok r, record s { world = w })

  unfoldable pub invoke : (E → E') → Call W E A → M W E' A
  invoke convert call s =
      let (r, w) = call s.world in
      elim r [
        | Result.ok a ↦ (ok a, record s { world = w })
        | Result.err e ↦ (err (convert e), record s { world = w })
      ]

-- `result?`
unfoldable pub lift : {W E A : Type 0} → Result E A → M W E A
lift (Result.ok a) = pure a
lift (Result.err e) = raise e

-- `call()?` in a function that returns a `NodeResult`
module _ {W A : Type 0} (os : Os W) where
  abbrev pub io : Call W IoError A → M W KernelError A
  io = invoke (kernel_of_io os.from_i32)

  abbrev pub nix : Call W NixError A → M W KernelError A
  nix = invoke kernel_of_nix

-- Runs `handler` on an error, and goes on with the error.
abbrev pub on_error : {W E A : Type 0} → M W E A → M W E (Unit {0}) → M W E A
on_error m handler s =
    let (r, s') = m s in
    elim r [ ok a ↦ (ok a, s') | err e ↦ (handler >> raise e) s' | panic p ↦ (panic p, s') ]

-- `with_context`
abbrev pub map_err : {W E A : Type 0} → (E → E) → M W E A → M W E A
map_err f m s =
    let (r, s') = m s in
    elim r [ ok a ↦ (ok a, s') | err e ↦ (err (f e), s') | panic p ↦ (panic p, s') ]
