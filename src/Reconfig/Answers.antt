-- ===== src/Reconfig/Answers.antt =====
-- What a request that was registered may rely on when it is handled (src/reconfig.rs).
use sandboxfs_rust.Base.{ℕ, Bool, true, List, [], ◌∷◌, Bytes, ◌≡◌, ◌≢◌, nat_eq, is_some, arith}
use sandboxfs_rust.Base.Assoc.{get}
use sandboxfs_rust.Path.{FilePath, Component, normal, parent_dir, cur_dir}
use sandboxfs_rust.Monad.{Outcome, ok, panic, unknown_prefix}
use sandboxfs_rust.Mapping.{Mapping, check_components, from_parts}
use sandboxfs_rust.Reconfig.{
  JsonMapping, CreateSandboxRequest, create_sandbox, Prefixes, build_path, build_mapping,
  build_mappings, register, ReconfigurableFs, validate_id, apply_request, handle_request,
}
use sandboxfs_rust.Reconfig.Tables.{Covers, register-IsView}

-- The result is not the panic of a prefix that is missing.
abbrev pub HasPrefixes : {E A : Type 0} → Outcome E A → Type 0
HasPrefixes o = o ≢ panic unknown_prefix

check_components-HasPrefixes :
    (p : FilePath) (cs : List Component) → HasPrefixes (check_components p cs)
unfolding check_components
check_components-HasPrefixes p [] = λ h. ground arith
check_components-HasPrefixes p (normal n ∷ cs) = check_components-HasPrefixes p cs
check_components-HasPrefixes p (parent_dir ∷ cs) = λ h. ground arith
check_components-HasPrefixes p (cur_dir ∷ cs) = λ h. ground arith

build_path-HasPrefixes :
    (known : Prefixes) (prefix : ℕ) (suffix : Bytes)
    → is_some (get prefix known) ≡ true
    → HasPrefixes (build_path known prefix suffix)
unfolding build_path
build_path-HasPrefixes known prefix suffix there h = ground arith

from_parts-HasPrefixes : (p u : FilePath) (w : Bool) → HasPrefixes (from_parts p u w)
unfolding from_parts
from_parts-HasPrefixes p u w h = ground (arith, check_components-HasPrefixes p p.components)

build_mapping-HasPrefixes :
    (known : Prefixes) (m : JsonMapping)
    → is_some (get m.path_prefix known) ≡ true
    → is_some (get m.underlying_path_prefix known) ≡ true
    → HasPrefixes (build_mapping known m)
unfolding build_mapping
build_mapping-HasPrefixes known m there there' h =
    let path = build_path-HasPrefixes known m.path_prefix m.path there in
    let underlying =
      build_path-HasPrefixes known m.underlying_path_prefix m.underlying_path there' in
    grind (arith, path, underlying, from_parts-HasPrefixes)

build_mappings-HasPrefixes :
    (known : Prefixes) (ms : List JsonMapping)
    → Covers known ms
    → HasPrefixes (build_mappings known ms)
unfolding build_mappings
build_mappings-HasPrefixes known [] c = λ h. ground arith
build_mappings-HasPrefixes known (m ∷ ms) (there, there', c) = λ h.
    ground
      (arith, build_mapping-HasPrefixes known m there there', build_mappings-HasPrefixes known ms c)

module _ {S : Type 0} (fs : ReconfigurableFs S) where
  -- A request that registered well, and is handled with the view that its registration gave, does
  -- not panic for want of a prefix, if the file system does not.
  pub handle_request-HasPrefixes :
      (r : CreateSandboxRequest) (known used : Prefixes) (s : S)
      → ((id : Bytes) (ms : List Mapping) (t : S) → HasPrefixes (fs.create id ms t).0)
      → (register (create_sandbox r) known).0 ≡ ok used
      → HasPrefixes (handle_request fs (create_sandbox r) (ok used) s).0
  unfolding handle_request apply_request validate_id
  handle_request-HasPrefixes r known used s creates registered h =
      let covered = ((register-IsView r known).1 used registered).1 in
      let built = build_mappings-HasPrefixes used r.mappings covered in
      grind (arith, built, creates)
