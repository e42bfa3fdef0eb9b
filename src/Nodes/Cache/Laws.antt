-- ===== src/Nodes/Cache/Laws.antt =====
-- What the path cache of src/nodes/caches.rs gives back.
use sandboxfs_rust.Base.{
  ℕ, Bool, true, false, Option, none, some, ◌≡◌, ◌⊎◌, refl, inl, inr, arith, Bool-cases,
  Option-cases, if◌then◌else◌,
}
use sandboxfs_rust.Base.Assoc.{get, insert, get-insert_self}
use sandboxfs_rust.Path.{FilePath, path_eq}
use sandboxfs_rust.Attr.{Metadata, fs_is_dir, fs_is_symlink}
use sandboxfs_rust.State.{State, path_cache, Node, file, symlink, writable_of}
use sandboxfs_rust.Monad.{ok, pure, set_cache, ◌>>◌}
use sandboxfs_rust.Monad.Bind.{>>=-eq-ok}
use sandboxfs_rust.Nodes.New.{mapped_file}
use sandboxfs_rust.Nodes.Cache.{
  Entries, bool_eq, new_leaf, new_directory, create_cached, get_or_create_cached, get_or_create,
}

-- The cache has a node for the path, and the node is as writable as asked.
pub record IsCached {W : Type 0} (path : FilePath) (writable : Bool) (a : ℕ) (s : State W)
    : Type 0 where
  pub entries : Entries
  pub node : Node
  pub cached : s.cache ≡ path_cache entries
  pub found : get path entries ≡ some a
  pub there : s.arena a ≡ some node
  pub agrees : bool_eq (writable_of node) writable ≡ true

module _ (path : FilePath) (writable : Bool) where
  -- The node that a file or a symlink gets.
  abbrev leaf : Metadata → ℕ → Node
  leaf attr a =
      if fs_is_symlink attr.file_type
      then symlink a writable (mapped_file a path attr)
      else file a writable (mapped_file a path attr)

  leaf_agrees : (attr : Metadata) (a : ℕ) → bool_eq (writable_of (leaf attr a)) writable ≡ true
  leaf_agrees attr a = ground arith

module _ {W E : Type 0} (path : FilePath) (writable : Bool) where
  new_leaf_there :
      (attr : Metadata) (a : ℕ) (s s' : State W)
      → new_leaf {W = W} {E = E} path attr writable s ≡ (ok a, s')
      → s'.arena a ≡ some (leaf path writable attr a)
  unfolding new_leaf
  new_leaf_there attr a s s' h = ground arith

  create_cached-IsCached :
      (es : Entries) (attr : Metadata) (a : ℕ) (s s' : State W)
      → create_cached {W = W} {E = E} es path attr writable s ≡ (ok a, s')
      → IsCached path writable a s'
  unfolding create_cached
  create_cached-IsCached es attr a s s' h =
      let (b, s1, e, rest) =
        >>=-eq-ok (new_leaf {W = W} {E = E} path attr writable)
          (λ node. do set_cache (path_cache (insert path node es)); pure node) s a s' h in
      let there = new_leaf_there attr b s s1 e in
      record {
        entries = insert path a es;
        node = leaf path writable attr a;
        cached = ground arith;
        found = get-insert_self path a es;
        there = ground arith;
        agrees = leaf_agrees path writable attr a;
      }

  -- A hit returns the node of the table; on a miss the new node takes its place.
  hit-IsCached :
      (es : Entries) (attr : Metadata) (a b : ℕ) (o : Option Node) (s s' : State W)
      → s.cache ≡ path_cache es
      → get path es ≡ some b
      → s.arena b ≡ o
      → get_or_create_cached {W = W} {E = E} es path attr writable s ≡ (ok a, s')
      → IsCached path writable a s'
  unfolding get_or_create_cached
  hit-IsCached es attr a b none s s' c e there h = absurd (ground arith)
  hit-IsCached es attr a b (some n) s s' c e there h =
      elim (Bool-cases (bool_eq (writable_of n) writable)) [
        | inl same ↦
            let unchanged : ◌≡◌ {A = State W} s s' = ground arith in
            let this : a ≡ b = ground arith in
            record {
              entries = es;
              node = n;
              cached = ground arith;
              found = ground arith;
              there = ground arith;
              agrees = same;
            }
        | inr other ↦ create_cached-IsCached es attr a s s' (ground arith)
      ]

  get_or_create_cached-IsCached :
      (es : Entries) (attr : Metadata) (a : ℕ) (s s' : State W)
      → s.cache ≡ path_cache es
      → get_or_create_cached {W = W} {E = E} es path attr writable s ≡ (ok a, s')
      → IsCached path writable a s'
  get_or_create_cached-IsCached es attr a s s' c h = elim (Option-cases (get path es)) [
    | inl missing ↦
        create_cached-IsCached es attr a s s' (unfold get_or_create_cached in ground arith)
    | inr (b, e) ↦ hit-IsCached es attr a b (s.arena b) s s' c e refl h
  ]

  -- An answer for a file or a symlink is in the table.
  pub get_or_create-IsCached :
      (es : Entries) (attr : Metadata) (a : ℕ) (s s' : State W)
      → s.cache ≡ path_cache es
      → fs_is_dir attr.file_type ≡ false
      → get_or_create {W = W} {E = E} path attr writable s ≡ (ok a, s')
      → IsCached path writable a s'
  unfolding get_or_create
  get_or_create-IsCached es attr a s s' c plain h =
      get_or_create_cached-IsCached es attr a s s' c (ground arith)

  -- A node in the table is the answer, whatever the metadata say of the file by then, as long as
  -- they do not say that it is a directory; and nothing changes.
  pub IsCached-get_or_create :
      (attr : Metadata) (a : ℕ) (s : State W)
      → fs_is_dir attr.file_type ≡ false
      → IsCached path writable a s
      → get_or_create {W = W} {E = E} path attr writable s ≡ (ok a, s)
  unfolding get_or_create get_or_create_cached
  IsCached-get_or_create attr a s plain k = ground (arith, k)

  create_cached-cache :
      (es : Entries) (attr : Metadata) (a : ℕ) (s s' : State W)
      → create_cached {W = W} {E = E} es path attr writable s ≡ (ok a, s')
      → s'.cache ≡ path_cache (insert path a es)
  unfolding create_cached
  create_cached-cache es attr a s s' h =
      let (b, s1, e, rest) =
        >>=-eq-ok (new_leaf {W = W} {E = E} path attr writable)
          (λ node. do set_cache (path_cache (insert path node es)); pure node) s a s' h in
      ground arith

  get_or_create_cached-cache :
      (es : Entries) (attr : Metadata) (a : ℕ) (s s' : State W)
      → s.cache ≡ path_cache es
      → get_or_create_cached {W = W} {E = E} es path attr writable s ≡ (ok a, s')
      → (s'.cache ≡ path_cache es) ⊎ (s'.cache ≡ path_cache (insert path a es))
  unfolding get_or_create_cached
  get_or_create_cached-cache es attr a s s' c h = elim (Option-cases (get path es)) [
    | inl missing ↦ inr (create_cached-cache es attr a s s' (ground arith))
    | inr (b, e) ↦ elim (Option-cases (s.arena b)) [
      | inl dangling ↦ absurd (ground arith)
      | inr (n, there) ↦ elim (Bool-cases (bool_eq (writable_of n) writable)) [
        | inl same ↦ inl (ground arith)
        | inr other ↦ inr (create_cached-cache es attr a s s' (ground arith))
      ]
    ]
  ]

  -- A request leaves the table as it is, or puts its answer there under its path.
  pub get_or_create-cache :
      (es : Entries) (attr : Metadata) (a : ℕ) (s s' : State W)
      → s.cache ≡ path_cache es
      → get_or_create {W = W} {E = E} path attr writable s ≡ (ok a, s')
      → (s'.cache ≡ path_cache es)
        ⊎ ((fs_is_dir attr.file_type ≡ false) × (s'.cache ≡ path_cache (insert path a es)))
  unfolding get_or_create
  get_or_create-cache es attr a s s' c h = elim (Bool-cases (fs_is_dir attr.file_type)) [
    | inl directory ↦ inl (unfold new_directory in ground arith)
    | inr plain ↦ elim (get_or_create_cached-cache es attr a s s' c (ground arith)) [
      | inl kept ↦ inl kept
      | inr put ↦ inr (plain, put)
    ]
  ]
