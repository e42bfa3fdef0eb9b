-- ===== src/Reconfig/Tables.antt =====
-- The table of prefixes of src/reconfig.rs: what a request adds, and what it may use.
use mathlib.Core.Path.{subst}
use sandboxfs_rust.Base.{
  ℕ, true, none, some, List, [], ◌∷◌, Bytes, ◌≡◌, inl, inr, nat_eq, is_some, refl, arith,
  Option-cases,
}
use sandboxfs_rust.Base.Assoc.{get, insert, get-insert}
use sandboxfs_rust.Path.{FilePath}
use sandboxfs_rust.Errors.{Failure}
use sandboxfs_rust.Monad.{Outcome, ok, err, panic}
use sandboxfs_rust.Reconfig.{
  JsonMapping, CreateSandboxRequest, create_sandbox, Prefixes, parse_u32, register_prefixes,
  use_prefix, used_prefixes, register,
}

-- Every entry of the first table is in the second one.
abbrev pub Extends : Prefixes → Prefixes → Type 0
Extends old new = (id : ℕ) (p : FilePath) → get id old ≡ some p → get id new ≡ some p

insert-Extends : (i : ℕ) (q : FilePath) (m : Prefixes) → get i m ≡ none → Extends m (insert i q m)
insert-Extends i q m missing id p h = ground (arith, get-insert i id q m)

register_prefixes-Extends :
    (new : List (Bytes × FilePath)) (known : Prefixes)
    → Extends known (register_prefixes new known).1
unfolding register_prefixes
register_prefixes-Extends [] known id p h = h
register_prefixes-Extends ((number, path) ∷ rest) known id p h =
    elim (Option-cases (parse_u32 number)) [
      | inl bad ↦ ground arith
      | inr (i, parsed) ↦ elim (Option-cases (get i known)) [
        | inl missing ↦ ground (
          arith,
          register_prefixes-Extends rest (insert i path known) id p,
          insert-Extends i path known missing id p h,
        )
        | inr (q, there) ↦ ground (arith, register_prefixes-Extends rest known id p h)
      ]
    ]

abbrev pub Covers : Prefixes → List JsonMapping → Type 0
Covers used [] = Unit
Covers used (m ∷ ms) =
    (is_some (get m.path_prefix used) ≡ true)
    × (is_some (get m.underlying_path_prefix used) ≡ true)
    × Covers used ms

is_some-Extends :
    (id : ℕ) (old new : Prefixes)
    → Extends old new
    → is_some (get id old) ≡ true
    → is_some (get id new) ≡ true
is_some-Extends id old new e h = elim (Option-cases (get id old)) [
  | inl missing ↦ absurd (ground arith)
  | inr (p, there) ↦ ground (arith, e id p there)
]

module _ (id : ℕ) (known used used' : Prefixes) (h : use_prefix id known used ≡ ok used') where
  use_prefix-Extends : Extends used used'
  unfolding use_prefix
  use_prefix-Extends i p there = elim (Option-cases (get id known)) [
    | inl missing ↦ absurd (ground arith)
    | inr (q, e) ↦ ground (arith, get-insert id i q used)
  ]

  use_prefix_known : Extends used known → Extends used' known
  unfolding use_prefix
  use_prefix_known before i p there = elim (Option-cases (get id known)) [
    | inl missing ↦ absurd (ground arith)
    | inr (q, e) ↦ ground (arith, get-insert id i q used, before i p)
  ]

  use_prefix_there : is_some (get id used') ≡ true
  unfolding use_prefix
  use_prefix_there = elim (Option-cases (get id known)) [
    | inl missing ↦ absurd (ground arith)
    | inr (q, e) ↦ ground (arith, get-insert id id q used)
  ]

-- The steps of `used_prefixes` for one mapping.
abbrev Step : JsonMapping → Prefixes → Prefixes → Prefixes → Prefixes → Type 0
Step m known used used1 used2 =
    (use_prefix m.path_prefix known used ≡ ok used1)
    × (use_prefix m.underlying_path_prefix known used1 ≡ ok used2)

used_prefixes-Step :
    (m : JsonMapping) (rest : List JsonMapping) (known used final : Prefixes)
    → used_prefixes (m ∷ rest) known used ≡ ok final
    → (used1 : Prefixes) × (used2 : Prefixes) × Step m known used used1 used2
      × (used_prefixes rest known used2 ≡ ok final)
unfolding used_prefixes
used_prefixes-Step m rest known used final h = first (use_prefix m.path_prefix known used) refl
  where
    Goal : Type 0
    Goal =
        (used1 : Prefixes) × (used2 : Prefixes) × Step m known used used1 used2
        × (used_prefixes rest known used2 ≡ ok final)

    second :
        (used1 : Prefixes)
        → use_prefix m.path_prefix known used ≡ ok used1
        → (r : Outcome Failure Prefixes) → use_prefix m.underlying_path_prefix known used1 ≡ r
        → Goal
    second used1 e (ok used2) e2 = (used1, used2, (e, e2), ground arith)
    second used1 e (err f) e2 = absurd (ground arith)
    second used1 e (panic p) e2 = absurd (ground arith)

    first : (r : Outcome Failure Prefixes) → use_prefix m.path_prefix known used ≡ r → Goal
    first (ok used1) e = second used1 e (use_prefix m.underlying_path_prefix known used1) refl
    first (err f) e = absurd (ground arith)
    first (panic p) e = absurd (ground arith)

-- The table that `used_prefixes` returns.
pub record IsView (ms : List JsonMapping) (known used final : Prefixes) : Type 0 where
  pub grows : Extends used final
  pub sound : Extends final known
  pub covers : Covers final ms

used_prefixes-IsView :
    (ms : List JsonMapping) (known used final : Prefixes)
    → Extends used known
    → used_prefixes ms known used ≡ ok final
    → IsView ms known used final
unfolding used_prefixes
used_prefixes-IsView [] known used final before h =
    let same : used ≡ final = ground arith in
    subst (λ t. IsView [] known used t) same
      (record { grows = λ i p there. there; sound = before; covers = tt })
used_prefixes-IsView (m ∷ rest) known used final before h =
    let (used1, used2, (e1, e2), more) = used_prefixes-Step m rest known used final h in
    let grow1 = use_prefix-Extends m.path_prefix known used used1 e1 in
    let grow2 = use_prefix-Extends m.underlying_path_prefix known used1 used2 e2 in
    let known1 = use_prefix_known m.path_prefix known used used1 e1 before in
    let known2 = use_prefix_known m.underlying_path_prefix known used1 used2 e2 known1 in
    let there1 = use_prefix_there m.path_prefix known used used1 e1 in
    let there2 = use_prefix_there m.underlying_path_prefix known used1 used2 e2 in
    let view = used_prefixes-IsView rest known used2 final known2 more in
    record {
      grows = λ i p h'. view.grows i p (grow2 i p (grow1 i p h'));
      sound = view.sound;
      covers = (
        is_some-Extends m.path_prefix used1 final (λ i p h'. view.grows i p (grow2 i p h')) there1,
        is_some-Extends m.underlying_path_prefix used2 final view.grows there2,
        view.covers,
      );
    }

-- A request that registers well leaves a table which extends the one before it, and gets a view of
-- the table that has a path for every prefix of its mappings, and only paths of the table. A
-- request that fails leaves a table which extends the one before it as well.
pub register-IsView :
    (r : CreateSandboxRequest) (known : Prefixes)
    → let (result, known') = register (create_sandbox r) known in
      Extends known known'
      × ((used : Prefixes) → result ≡ ok used → Extends used known' × Covers used r.mappings)
unfolding register
register-IsView r known =
    (register_prefixes-Extends r.prefixes known, go (register_prefixes r.prefixes known).0)
  where
    known' : Prefixes
    known' = (register_prefixes r.prefixes known).1

    Registered : Outcome Failure (Unit {0}) → Type 0
    Registered result =
        (used : Prefixes)
        → ◌≡◌ {A = Outcome Failure Prefixes}
            (elim result [
              | ok _ ↦ used_prefixes r.mappings known' []
              | err e ↦ err e
              | panic p ↦ panic p
            ])
            (ok used)
        → Extends used known' × Covers used r.mappings

    go : (result : Outcome Failure (Unit {0})) → Registered result
    go (ok _) used h =
        let view =
          used_prefixes-IsView r.mappings known' [] used
            (λ i p there. absurd (unfold get in ground arith)) h in
        (view.sound, view.covers)
    go (err e) used h = absurd (ground arith)
    go (panic p) used h = absurd (ground arith)
