-- ===== src/Nodes/Valid/New.antt =====
-- The creation of nodes (the constructors of src/nodes and the factories of src/nodes/caches.rs)
-- keeps the memory valid and leaves the nodes that are there as they are.
use sandboxfs_rust.Base.{ℕ, Bool, true, false, Option, ◌≡◌, refl, ap, ◌∙◌, arith, unwrap_or}
use sandboxfs_rust.Base.Assoc.{get, insert}
use sandboxfs_rust.Path.{FilePath, path_eq}
use sandboxfs_rust.Attr.{Timespec, Metadata, fs_is_dir, fs_is_symlink}
use sandboxfs_rust.Os.{Os}
use sandboxfs_rust.State.{
  State, Node, dir, file, symlink, Cache, no_cache, path_cache, inode_of, writable_of,
}
use sandboxfs_rust.State.Entries.{insert-EntriesKnown, get-EntriesKnown}
use sandboxfs_rust.State.Valid.{
  Tag, tag_of, Is, ChildrenKnown, EntriesKnown, CacheKnown, Is-Grows, EntriesKnown-Grows,
  children_of,
}
use sandboxfs_rust.Monad.{pure, store, wrong_type_for_node, ◌>>◌}
use sandboxfs_rust.Monad.Keeps.{Post, Post-if, Post-option, Post-mono, with_valid}
use sandboxfs_rust.Monad.Steps.{IsFresh}
use sandboxfs_rust.Monad.Extending.{
  Extending, Extending-pure, extend, after_fetch, next-Extending, set_cache-Extending,
  store-Extending, after_assert, Post-eq, second,
}
use sandboxfs_rust.Nodes.New.{
  empty_dir, mapped_dir, mapped_file, supports_type, new_empty, new_mapped_dir, new_mapped_file,
  new_mapped_symlink,
}
use sandboxfs_rust.Nodes.Cache.{
  Entries, bool_eq, new_leaf, new_directory, create_cached, get_or_create_cached, get_or_create,
}
use sandboxfs_rust.Nodes.Valid.{IsNode}

abbrev pub has_writable : Bool → Tag → Bool
has_writable w t = bool_eq t.writable w

-- The result is the address of a node that is writable or not as it is asked to be.
abbrev pub IsOf : {W : Type 0} → Bool → ℕ → State W → Type 0
IsOf w a s = Is s (has_writable w) a

pub IsOf-IsNode : {W : Type 0} {w : Bool} {a : ℕ} {s : State W} → IsOf w a s → IsNode a s
IsOf-IsNode k = record { tag = k.tag; there = k.there; passes = refl }

bool_eq_refl : (b : Bool) → bool_eq b b ≡ true
bool_eq_refl true = refl
bool_eq_refl false = refl

writable_of-tag_of : (n : Node) → (tag_of n).writable ≡ writable_of n
writable_of-tag_of (dir i w st) = refl
writable_of-tag_of (file i w st) = refl
writable_of-tag_of (symlink i w st) = refl

module _ {W E : Type 0} where
  -- A new node at a fresh address.
  new_node :
      (a : ℕ) (n : Node) (w : Bool) {s : State W}
      → IsFresh a s
      → inode_of n ≡ a
      → writable_of n ≡ w
      → ChildrenKnown s (children_of n)
      → Extending {E = E} (λ b t. (b ≡ a) × IsOf w b t) (store a n >> pure a) s
  new_node a n w fresh own mode below =
      extend (store-Extending a n fresh own below) (λ _ t g more h. Extending-pure a (
        refl,
        record {
          tag = tag_of n;
          there = h.there;
          passes = ap (λ b. bool_eq b w) (writable_of-tag_of n ∙ mode) ∙ bool_eq_refl w;
        },
      ))

  pub new_empty-Extending :
      (os : Os W) (a : ℕ) (parent : Option ℕ) (now : Timespec) {s : State W}
      → IsFresh a s
      → Extending {E = E} (λ b t. (b ≡ a) × IsOf false b t) (new_empty os a parent now) s
  unfolding new_empty
  new_empty-Extending os a parent now {s} fresh = Post-eq refl (
      new_node a (empty_dir a (unwrap_or parent a) now (os.getuid s.world) (os.getgid s.world))
        false fresh refl refl tt)

  pub new_empty_lem :
      (os : Os W) (a : ℕ) (parent : Option ℕ) (now : Timespec) {s : State W}
      → IsFresh a s
      → Post {E = E} IsNode (new_empty os a parent now) s
  new_empty_lem os a parent now fresh =
      Post-mono (λ b t (_, k). IsOf-IsNode k) (second (new_empty-Extending os a parent now fresh))

  module _ (path : FilePath) (attr : Metadata) (writable : Bool) where
    pub new_mapped_dir-Extending :
        (a : ℕ) {s : State W}
        → fs_is_dir attr.file_type ≡ true
        → IsFresh a s
        → Extending {E = E}
            (λ b t. (b ≡ a) × IsOf writable b t)
            (new_mapped_dir a path attr writable)
            s
    unfolding new_mapped_dir
    new_mapped_dir-Extending a right fresh =
        after_assert (fs_is_dir attr.file_type) wrong_type_for_node right
          (new_node a (mapped_dir a path attr writable) writable fresh refl refl tt)

    new_mapped_file-Extending :
        (a : ℕ) {s : State W}
        → supports_type attr.file_type ≡ true
        → IsFresh a s
        → Extending {E = E}
            (λ b t. (b ≡ a) × IsOf writable b t)
            (new_mapped_file a path attr writable)
            s
    unfolding new_mapped_file
    new_mapped_file-Extending a right fresh =
        after_assert (supports_type attr.file_type) wrong_type_for_node right
          (new_node a (file a writable (mapped_file a path attr)) writable fresh refl refl tt)

    new_mapped_symlink-Extending :
        (a : ℕ) {s : State W}
        → fs_is_symlink attr.file_type ≡ true
        → IsFresh a s
        → Extending {E = E}
            (λ b t. (b ≡ a) × IsOf writable b t)
            (new_mapped_symlink a path attr writable)
            s
    unfolding new_mapped_symlink
    new_mapped_symlink-Extending a right fresh =
        after_assert (fs_is_symlink attr.file_type) wrong_type_for_node right
          (new_node a (symlink a writable (mapped_file a path attr)) writable fresh refl refl tt)

    new_leaf-Extending :
        {s : State W}
        → fs_is_dir attr.file_type ≡ false
        → Extending {E = E} (IsOf writable) (new_leaf path attr writable) s
    unfolding new_leaf
    new_leaf-Extending plain = extend next-Extending (λ a t g more fresh.
        Post-if (fs_is_symlink attr.file_type)
          (λ right. second (new_mapped_symlink-Extending a right fresh))
          (λ wrong. second (new_mapped_file-Extending a (ground arith) fresh)))

    pub new_directory-Extending :
        {s : State W}
        → fs_is_dir attr.file_type ≡ true
        → Extending {E = E} (IsOf writable) (new_directory path attr writable) s
    unfolding new_directory
    new_directory-Extending right =
        extend next-Extending (λ a t g more fresh. second (new_mapped_dir-Extending a right fresh))

    create_cached-Extending :
        (es : Entries) {s : State W}
        → fs_is_dir attr.file_type ≡ false
        → EntriesKnown s es
        → Extending {E = E} (IsOf writable) (create_cached es path attr writable) s
    unfolding create_cached
    create_cached-Extending es plain k = extend (new_leaf-Extending plain) (λ a t g more node.
        extend
          (set_cache-Extending (path_cache (insert path a es))
            (insert-EntriesKnown t path a es (IsOf-IsNode node) (EntriesKnown-Grows g es k)))
          (λ _ u g' _ _. Extending-pure a (Is-Grows g' node)))

    -- A node of the cache is shared when it is writable or not as it is asked to be.
    get_or_create_cached-Extending :
        (es : Entries) {s : State W}
        → fs_is_dir attr.file_type ≡ false
        → EntriesKnown s es
        → Extending {E = E} (IsOf writable) (get_or_create_cached es path attr writable) s
    unfolding get_or_create_cached
    get_or_create_cached-Extending es {s} plain k =
        Post-option (get path es) (λ _. create_cached-Extending es plain k)
          (λ a found. after_fetch a (get-EntriesKnown s path es a k found) (λ n there h _.
            Post-if (bool_eq (writable_of n) writable)
              (λ same. Extending-pure a (record {
                tag = tag_of n;
                there = h.there;
                passes = ap (λ b. bool_eq b writable) (writable_of-tag_of n) ∙ same;
              }))
              (λ _. create_cached-Extending es plain k)))

    pub get_or_create-Extending :
        {s : State W} → Extending {E = E} (IsOf writable) (get_or_create path attr writable) s
    unfolding get_or_create
    get_or_create-Extending {s} = with_valid λ v. Post-eq refl (
        Post-if (fs_is_dir attr.file_type) new_directory-Extending
          (λ plain. go s.cache plain v.cached))
      where
        go :
            (c : Cache)
            → fs_is_dir attr.file_type ≡ false
            → CacheKnown s c
            → Extending {E = E}
                (IsOf writable)
                (elim c [
                  | no_cache ↦ new_leaf path attr writable
                  | path_cache es ↦ get_or_create_cached es path attr writable
                ])
                s
        go no_cache plain k = new_leaf-Extending plain
        go (path_cache es) plain k = get_or_create_cached-Extending es plain k

    pub new_mapped_dir_lem :
        (a : ℕ) {s : State W}
        → fs_is_dir attr.file_type ≡ true
        → IsFresh a s
        → Post {E = E} IsNode (new_mapped_dir a path attr writable) s
    new_mapped_dir_lem a right fresh =
        Post-mono (λ b t (_, k). IsOf-IsNode k) (second (new_mapped_dir-Extending a right fresh))

    pub get_or_create_lem : {s : State W} → Post {E = E} IsNode (get_or_create path attr writable) s
    get_or_create_lem = Post-mono (λ a t (_, k). IsOf-IsNode k) get_or_create-Extending
