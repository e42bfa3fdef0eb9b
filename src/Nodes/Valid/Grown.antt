-- ===== src/Nodes/Valid/Grown.antt =====
-- The nodes that a mapping creates, and the entry that it adds to a directory (src/nodes/dir.rs):
-- what is there already stays as it is.
use mathlib.Core.Path.{subst}
use sandboxfs_rust.Base.{
  ℕ, Bool, true, false, Option, none, some, Bytes, ◌≡◌, refl, ap, sym, ◌∙◌, inl, inr, arith, ◌==◌,
  nat_eq, nat_beq_iff, list_eq, Bool-cases, eq_refl, if◌then◌else◌,
}
use sandboxfs_rust.Base.Assoc.{get, insert, get-insert, get-insert_absent, get-insert_self}
use sandboxfs_rust.Path.{FilePath, join_name}
use sandboxfs_rust.Attr.{Metadata, fs_is_dir}
use sandboxfs_rust.Errors.{Result, Failure, IoError, Cause, failure, context, stat_failed}
use sandboxfs_rust.Os.{Os}
use sandboxfs_rust.State.{State, Dirent, Node, dir, file, symlink}
use sandboxfs_rust.State.Entries.{insert-ChildrenKnown}
use sandboxfs_rust.State.Valid.{Has, children_of, ChildrenKnown}
use sandboxfs_rust.State.Walk.{child_at, Preserves}
use sandboxfs_rust.Monad.{
  M, ◌>>=◌, pure, abort, pure, abort, expect, dangling, unimplemented, fetch, store, update,
}
use sandboxfs_rust.Monad.Keeps.{Post, Post-if, Post-mono, Post-abort, with_valid}
use sandboxfs_rust.Monad.Steps.{rewrite_lem, node_at}
use sandboxfs_rust.Monad.Extending.{
  Extending, extend, next-Extending, attempt-Extending, invoke-Extending, Post-eq, with_state,
}
use sandboxfs_rust.Nodes.Cache.{new_directory}
use sandboxfs_rust.Nodes.Dir.{Dir, get_dir, set_children}
use sandboxfs_rust.Nodes.Map.{new_scaffold_empty, new_scaffold_child, map_child}
use sandboxfs_rust.Nodes.Valid.{IsNode}
use sandboxfs_rust.Nodes.Valid.New.{
  IsOf, IsOf-IsNode, new_empty-Extending, new_directory-Extending, get_or_create-Extending,
}
use sandboxfs_rust.Nodes.Valid.Dir.{node_of}

abbrev with_child : Bytes → Dirent → Dir → Node
with_child name child d =
    dir d.inode d.writable (record d.state { children = insert name child d.state.children })

module _ {W : Type 0} (os : Os W) where
  new_scaffold_empty-Extending :
      (d : Dir) {s : State W} → Extending IsNode (new_scaffold_empty os d) s
  unfolding new_scaffold_empty
  new_scaffold_empty-Extending d {s} = Post-eq refl (
      extend next-Extending (λ inode t g more fresh.
        Post-mono (λ a u r. (r.0, IsOf-IsNode r.1.1))
          (new_empty-Extending os inode (some d.inode) (os.now s.world) fresh)))

  after_stat :
      (d : Dir) (path : FilePath) (r : Result IoError Metadata) {s : State W}
      → Extending {E = Failure} {A = ℕ} IsNode
          (elim r as (λ _. M W Failure ℕ) [
            | Result.err _ ↦ new_scaffold_empty os d
            | Result.ok fs_attr ↦
                if fs_is_dir fs_attr.file_type
                then new_directory path fs_attr d.writable
                else new_scaffold_empty os d
          ])
          s
  after_stat d path (Result.err e) = new_scaffold_empty-Extending d
  after_stat d path (Result.ok m) =
      Post-if (fs_is_dir m.file_type)
        (λ right.
          Post-mono (λ a u r. (r.0, IsOf-IsNode r.1))
            (new_directory-Extending path m d.writable right))
        (λ _. new_scaffold_empty-Extending d)

  pub new_scaffold_child-Extending :
      (d : Dir) (path : Option FilePath) (name : Bytes) {s : State W}
      → Extending IsNode (new_scaffold_child os d path name) s
  unfolding new_scaffold_child
  new_scaffold_child-Extending d none name = new_scaffold_empty-Extending d
  new_scaffold_child-Extending d (some path) name =
      extend (attempt-Extending (os.symlink_metadata (join_name path name)))
        (λ r t g more _. after_stat d (join_name path name) r)

  -- The node of the mapping itself is writable or not as the mapping is.
  pub map_last-Extending :
      (d : Dir) (name : Bytes) (path : FilePath) (writable : Bool) {s : State W}
      → Extending (IsOf writable) (map_child os d name true path writable) s
  unfolding map_child
  map_last-Extending d name path writable =
      extend
        (invoke-Extending (λ e. context (stat_failed path) (failure (Cause.io e)))
          (os.symlink_metadata path))
        (λ attr t g more _. get_or_create-Extending path attr writable)

  pub map_inner-Extending :
      (d : Dir) (name : Bytes) (path : FilePath) (writable : Bool) {s : State W}
      → Extending IsNode (map_child os d name false path writable) s
  unfolding map_child
  map_inner-Extending d name path writable =
      new_scaffold_child-Extending d d.state.underlying_path name

module _ {W E : Type 0} where
  -- `get_dir` of the node that is there.
  abbrev dir_in : Option Node → M W E Dir
  dir_in o = do
    n ← expect o dangling
    elim n [
      | dir i w st ↦ pure (record { inode = i; writable = w; state = st })
      | file _ _ _ ↦ abort unimplemented
      | symlink _ _ _ ↦ abort unimplemented
    ]

module _ {W E B : Type 0} {Q : B → State W → Type 0} where
  -- A directory is read, and what follows knows that it is the node at the address.
  pub after_get_dir :
      (a : ℕ) {f : Dir → M W E B} {s : State W}
      → IsNode a s
      → ((d : Dir) → s.arena a ≡ some (node_of d) → Has s a (node_of d) → Post Q (f d) s)
      → Post Q (get_dir a >>= f) s
  unfolding get_dir fetch
  after_get_dir a {f} {s} k rest =
      with_valid
        λ v. let (n, there, tagged) = node_at s a k.tag k.there in go n there (v.own a n there).2
    where
      read :
          (o : Option Node) → s.arena a ≡ o → Post Q (dir_in o >>= f) s → Post Q (get_dir a >>= f) s
      read o e = Post-eq (ap (λ x. ◌>>=◌ {W = W} {E = E} {A = Dir} {B = B} (dir_in x) f s) e)

      go :
          (n : Node)
          → s.arena a ≡ some n
          → ChildrenKnown s (children_of n)
          → Post Q (get_dir a >>= f) s
      go (dir i w st) there below =
          let d : Dir = record { inode = i; writable = w; state = st } in
          let h : Has s a (node_of d) = record { there = rw there refl; below = below } in
          read (some (node_of d)) there (Post-eq refl (rest d there h))
      go (file i w st) there below =
          read (some (file i w st)) there (Post-eq refl (Post-abort unimplemented tt))
      go (symlink i w st) there below =
          read (some (symlink i w st)) there (Post-eq refl (Post-abort unimplemented tt))

module _ {W : Type 0} where
  inserted-Preserves :
      (a : ℕ) (name : Bytes) (child : Dirent) (d : Dir) (s : State W)
      → s.arena a ≡ some (node_of d)
      → get name d.state.children ≡ none
      → let t : State W = record s { arena = update s.arena a (some (with_child name child d)) } in
        Preserves s t × (child_at t a name ≡ some child)
  inserted-Preserves a name child d s there absent = (
    record {
      entries = λ b other e found. elim (Bool-cases (a == b)) [
        | inl here ↦
            let old : child_at s b other ≡ get other d.state.children =
              subst (λ x. child_at s x other ≡ get other d.state.children)
                ((nat_beq_iff a b).0 here) (rw there refl) in
            rw here (get-insert_absent name other child e d.state.children absent (sym old ∙ found))
        | inr elsewhere ↦ rw elsewhere found
      ];
    },
    rw (eq_refl a) (get-insert_self name child d.state.children),
  )

module _ {W E : Type 0} where
  -- A new entry is added next to the others.
  pub insert_absent :
      (a : ℕ) (name : Bytes) (child : Dirent) {s : State W}
      → IsNode a s
      → IsNode child.node s
      → child_at s a name ≡ none
      → Post {E = E}
          (λ _ t. Preserves s t × (child_at t a name ≡ some child))
          (set_children a (insert name child))
          s
  unfolding set_children store
  insert_absent a name child {s} k known absent = after_get_dir a k (λ d there h.
      let missing : get name d.state.children ≡ none = ground arith in
      Post-mono (λ _ t r. r.0)
        (with_state {B = λ t. Preserves s t × (child_at t a name ≡ some child)}
          (inserted-Preserves a name child d s there missing)
          (rewrite_lem a (node_of d) (with_child name child d) h refl
            (insert-ChildrenKnown s name child d.state.children known h.below))))

  -- A new entry leaves what other names lead to.
  pub insert_others :
      (a : ℕ) (name : Bytes) (child : Dirent) {s : State W}
      → IsNode a s
      → IsNode child.node s
      → Post {E = E}
          (λ _ t.
            (other : Bytes)
            → child_at t a other ≡ (if name == other then some child else child_at s a other))
          (set_children a (insert name child))
          s
  unfolding set_children store
  insert_others a name child {s} k known = after_get_dir a k (λ d there h.
      Post-mono (λ _ t r. r.0)
        (with_state
          {B = λ t.
            (other : Bytes)
            → child_at t a other ≡ (if name == other then some child else child_at s a other)}
          (λ other. rw (eq_refl a, there) (get-insert name other child d.state.children))
          (rewrite_lem a (node_of d) (with_child name child d) h refl
            (insert-ChildrenKnown s name child d.state.children known h.below))))
