-- ===== src/Mapping/Found.antt =====
-- The mappings that have been applied are found in the tree (src/lib.rs: `apply_mapping` and the
-- loops that call it).
use sandboxfs_rust.Base.{ℕ, Bool, some, List, [], ◌∷◌, ◌++◌, Bytes, ◌≡◌, arith, is_empty}
use sandboxfs_rust.Path.{Component, normal}
use sandboxfs_rust.Errors.{failure, root_mapped_twice}
use sandboxfs_rust.Os.{Os}
use sandboxfs_rust.State.{State}
use sandboxfs_rust.State.Valid.{Grows, Is-Grows}
use sandboxfs_rust.State.Walk.{child_at, entry_at, Preserves, Preserves-trans, entry_at-Preserves}
use sandboxfs_rust.Monad.Keeps.{Post, Post-pure, bind, map_err_lem}
use sandboxfs_rust.Monad.Extending.{after_raise_if, with_growth}
use sandboxfs_rust.Nodes.Dir.{explicit}
use sandboxfs_rust.Nodes.Map.Found.{IsMapped, map-IsMapped}
use sandboxfs_rust.Nodes.Valid.{IsNode}
use sandboxfs_rust.Nodes.Valid.New.{IsOf}
use sandboxfs_rust.Mapping.{Mapping, split_abs_path, cannot_map_it, apply_mapping, apply_mappings}

module _ {W : Type 0} (a : ℕ) where
  -- From the directory at `a` the path leads to an explicit mapping, with a node that is writable
  -- exactly when `w` says so.
  pub record IsFound (cs : List Component) (w : Bool) (t : State W) : Type 0 where
    pub node : ℕ
    pub found : entry_at t a cs ≡ some (explicit node)
    pub mode : IsOf w node t

  -- Each mapping of the list is found, with its path below the prefix.
  abbrev pub AreFound : List Component → List Mapping → State W → Type 0
  AreFound prefix [] t = Unit
  AreFound prefix (m ∷ ms) t =
      IsFound (prefix ++ split_abs_path m.path) m.writable t × AreFound prefix ms t

module _ {W : Type 0} {s t : State W} (p : Preserves s t) (g : Grows s t) (a : ℕ) where
  pub IsFound-Preserves : (cs : List Component) (w : Bool) → IsFound a cs w s → IsFound a cs w t
  IsFound-Preserves cs w f = record {
    node = f.node;
    found = entry_at-Preserves a cs (explicit f.node) p f.found;
    mode = Is-Grows g f.mode;
  }

  pub AreFound-Preserves :
      (prefix : List Component) (ms : List Mapping)
      → AreFound a prefix ms s
      → AreFound a prefix ms t
  AreFound-Preserves prefix [] f = tt
  AreFound-Preserves prefix (m ∷ ms) f = (
    IsFound-Preserves (prefix ++ split_abs_path m.path) m.writable f.0,
    AreFound-Preserves prefix ms f.1,
  )

module _ {W : Type 0} (t : State W) (a b : ℕ) (id : Bytes)
    (there : child_at t a id ≡ some (explicit b)) where
  IsFound-below :
      (cs : List Component) (w : Bool) → IsFound b cs w t → IsFound a (normal id ∷ cs) w t
  unfolding entry_at
  IsFound-below [] w f = let e = f.found in absurd (ground arith)
  IsFound-below (c ∷ cs) w f = record {
    node = f.node;
    found = let e = f.found in ground arith;
    mode = f.mode;
  }

  -- What is found from an entry of a directory is found from the directory.
  pub AreFound-below : (ms : List Mapping) → AreFound b [] ms t → AreFound a (normal id ∷ []) ms t
  AreFound-below [] f = tt
  AreFound-below (m ∷ ms) f =
      (IsFound-below (split_abs_path m.path) m.writable f.0, AreFound-below ms f.1)

module _ {W : Type 0} (os : Os W) where
  pub apply_mapping-IsMapped :
      (m : Mapping) (a : ℕ) {s : State W}
      → IsNode a s
      → Post (IsMapped a (split_abs_path m.path) m.writable s) (apply_mapping os m a) s
  unfolding apply_mapping
  apply_mapping-IsMapped m a k =
      after_raise_if (is_empty (split_abs_path m.path)) (failure root_mapped_twice)
        (λ _. map-IsMapped os m.underlying_path m.writable a (split_abs_path m.path) k)

  pub apply_mappings-AreFound :
      (ms : List Mapping) (a : ℕ) {s : State W}
      → IsNode a s
      → Post (λ _ t. Preserves s t × AreFound a [] ms t) (apply_mappings os ms a) s
  unfolding apply_mappings
  apply_mappings-AreFound [] a k = Post-pure tt (record { entries = λ b name d e. e }, tt)
  apply_mappings-AreFound (m ∷ ms) a k =
      bind (map_err_lem (cannot_map_it m) (apply_mapping-IsMapped m a k)) (λ n t g r.
        with_growth (apply_mappings-AreFound ms a (Is-Grows g k)) (λ _ u g' q.
          let first : IsFound a (split_abs_path m.path) m.writable t = record {
            node = n;
            found = r.found;
            mode = r.mode;
          } in
          (
            Preserves-trans r.kept q.0,
            (IsFound-Preserves q.0 g' a (split_abs_path m.path) m.writable first, q.1),
          )))
