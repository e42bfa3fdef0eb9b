-- ===== src/State/Valid.antt =====
-- What holds of the memory of an instance between two operations, and how memory may change.
use sandboxfs_rust.Base.{
  ℕ, ◌<◌, ◌≤◌, Bool, true, false, Option, none, some, List, [], ◌∷◌, ◌≡◌, arith,
}
use sandboxfs_rust.Path.{FilePath}
use sandboxfs_rust.State.{
  State, Children, Node, dir, file, symlink, Handle, open_dir, open_file, Cache, no_cache,
  path_cache, inode_of,
}

-- What never changes of a node: its type, its inode, and whether it is writable.
pub data Kind : Type 0 where
  directory regular symbolic : Kind

pub record Tag : Type 0 where
  pub kind : Kind
  pub inode : ℕ
  pub writable : Bool

abbrev pub tag_of : Node → Tag
tag_of (dir i w _) = record { kind = Kind.directory; inode = i; writable = w }
tag_of (file i w _) = record { kind = Kind.regular; inode = i; writable = w }
tag_of (symlink i w _) = record { kind = Kind.symbolic; inode = i; writable = w }

abbrev pub tag_in : Option Node → Option Tag
tag_in none = none
tag_in (some n) = some (tag_of n)

abbrev pub tag_at : {W : Type 0} → State W → ℕ → Option Tag
tag_at s a = tag_in (s.arena a)

abbrev pub children_of : Node → Children
children_of (dir _ _ st) = st.children
children_of (file _ _ _) = []
children_of (symlink _ _ _) = []

module _ {W : Type 0} (s : State W) where
  -- There is a node at the address, with a tag that passes the test.
  pub record Is (p : Tag → Bool) (a : ℕ) : Type 0 where
    pub tag : Tag
    pub there : tag_at s a ≡ some tag
    pub passes : p tag ≡ true

abbrev pub any : Tag → Bool
any _ = true

abbrev kind_is_dir : Kind → Bool
kind_is_dir Kind.directory = true
kind_is_dir Kind.regular = false
kind_is_dir Kind.symbolic = false

abbrev pub is_directory : Tag → Bool
is_directory t = kind_is_dir t.kind

abbrev kind_is_file : Kind → Bool
kind_is_file Kind.directory = false
kind_is_file Kind.regular = true
kind_is_file Kind.symbolic = false

abbrev pub is_file : Tag → Bool
is_file t = kind_is_file t.kind

module _ {W : Type 0} (s : State W) where
  abbrev pub ChildrenKnown : Children → Type 0
  ChildrenKnown [] = Unit
  ChildrenKnown ((_, d) ∷ rest) = Is s any d.node × ChildrenKnown rest

  abbrev pub EntriesKnown : List (FilePath × ℕ) → Type 0
  EntriesKnown [] = Unit
  EntriesKnown ((_, a) ∷ rest) = Is s any a × EntriesKnown rest

  abbrev pub CacheKnown : Cache → Type 0
  CacheKnown no_cache = Unit
  CacheKnown (path_cache entries) = EntriesKnown entries

  abbrev pub HandleKnown : Handle → Type 0
  HandleKnown (open_dir _ _ a _ _) = Is s is_directory a
  HandleKnown (open_file a _) = Is s is_file a

  -- The node at the address has the tag of `n`, and the children of `n` are nodes.
  pub record Has (a : ℕ) (n : Node) : Type 0 where
    pub there : tag_at s a ≡ some (tag_of n)
    pub below : ChildrenKnown (children_of n)

  -- Every node stands at its inode, which has been handed out; children, entries of the cache and
  -- the tables of nodes and handles name nodes only; a node is listed under its own inode, and a
  -- handle has been handed out and is of the type of its node.
  pub record IsValid : Type 0 where
    pub own :
        (a : ℕ) (n : Node)
        → s.arena a ≡ some n
        → (inode_of n ≡ a) × (a < s.last_id) × ChildrenKnown (children_of n)
    pub named : (i a : ℕ) → s.nodes i ≡ some a → (a ≡ i) × Is s any a
    pub opened : (fh : ℕ) (h : Handle) → s.handles fh ≡ some h → (fh < s.last_id) × HandleKnown h
    pub cached : CacheKnown s.cache

-- Identifiers only grow, and a node stays with its tag.
pub record Grows {W : Type 0} (s s' : State W) : Type 0 where
  pub ids : s.last_id ≤ s'.last_id
  pub tags : (a : ℕ) (t : Tag) → tag_at s a ≡ some t → tag_at s' a ≡ some t

module _ {W : Type 0} {s : State W} where
  pub Grows-refl : Grows s s
  Grows-refl = record { ids = omega arith; tags = λ a t e. e }

  pub Grows-trans : {s' s'' : State W} → Grows s s' → Grows s' s'' → Grows s s''
  Grows-trans g h = record {
    ids = omega (arith, g.ids, h.ids);
    tags = λ a t e. h.tags a t (g.tags a t e);
  }

module _ {W : Type 0} {s s' : State W} (g : Grows s s') where
  pub Is-Grows : {p : Tag → Bool} {a : ℕ} → Is s p a → Is s' p a
  Is-Grows {p} {a} k = record { tag = k.tag; there = g.tags a k.tag k.there; passes = k.passes }

  pub ChildrenKnown-Grows : (cs : Children) → ChildrenKnown s cs → ChildrenKnown s' cs
  ChildrenKnown-Grows [] k = tt
  ChildrenKnown-Grows ((_, d) ∷ rest) k = (Is-Grows k.0, ChildrenKnown-Grows rest k.1)

  pub EntriesKnown-Grows : (es : List (FilePath × ℕ)) → EntriesKnown s es → EntriesKnown s' es
  EntriesKnown-Grows [] k = tt
  EntriesKnown-Grows ((_, a) ∷ rest) k = (Is-Grows k.0, EntriesKnown-Grows rest k.1)

  pub CacheKnown-Grows : (c : Cache) → CacheKnown s c → CacheKnown s' c
  CacheKnown-Grows no_cache k = tt
  CacheKnown-Grows (path_cache es) k = EntriesKnown-Grows es k

  pub HandleKnown-Grows : (h : Handle) → HandleKnown s h → HandleKnown s' h
  HandleKnown-Grows (open_dir _ _ a _ _) k = Is-Grows k
  HandleKnown-Grows (open_file a _) k = Is-Grows k

  pub Has-Grows : {a : ℕ} {n : Node} → Has s a n → Has s' a n
  Has-Grows {a} {n} k = record {
    there = g.tags a (tag_of n) k.there;
    below = ChildrenKnown-Grows (children_of n) k.below;
  }
