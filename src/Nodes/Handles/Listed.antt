-- ===== src/Nodes/Handles/Listed.antt =====
-- What a directory lists: `OpenDir::readdirall` of src/nodes/dir.rs.
use mathlib.Core.Path.{subst}
use sandboxfs_rust.Base.{
  ℕ, Bool, true, false, ◌||◌, ◌&&◌, is_some, not, Option, none, some, List, [], ◌∷◌, ◌++◌, Bytes,
  bytes, ◌≡◌, refl, sym, ap, ◌∙◌, inl, inr, ◌==◌, nat_eq, list_eq, Bool-cases, if◌then◌else◌,
}
use sandboxfs_rust.Base.Assoc.{get}
use sandboxfs_rust.Path.{join_name}
use sandboxfs_rust.Errors.{Result, NixError, kernel_of_io, kernel_of_nix}
use sandboxfs_rust.Os.{Os}
use sandboxfs_rust.State.{State, Children, ReplyEntry, Node, inode_of}
use sandboxfs_rust.Conv.{filetype_fs_to_fuse}
use sandboxfs_rust.State.Entries.{get-ChildrenKnown}
use sandboxfs_rust.State.Valid.{IsValid, Is-Grows, ChildrenKnown, children_of}
use sandboxfs_rust.State.Walk.{child_at, child_in}
use sandboxfs_rust.Monad.{ok, handle_and_path_disagree}
use sandboxfs_rust.Monad.Keeps.{
  Post, Post-pure, Post-raise, Post-if, Post-option, Post-mono, bind, assert_lem, gets_lem,
}
use sandboxfs_rust.Monad.Extending.{after_fetch, after_expect, invoke-Extending, Post-ok}
use sandboxfs_rust.Nodes.Dir.{Dir, implicit, is_explicit}
use sandboxfs_rust.Nodes.Handles.{
  entry_of, dir_entry, mapped_entries, readdirall, disk_entry, disk_entries,
}
use sandboxfs_rust.Nodes.Valid.{IsNode}
use sandboxfs_rust.Nodes.Valid.New.{IsOf-IsNode, get_or_create-Extending}
use sandboxfs_rust.Nodes.Valid.Dir.{node_of}
use sandboxfs_rust.Nodes.Valid.Grown.{after_get_dir, insert_others}

abbrev pub names_of : List ReplyEntry → List Bytes
names_of [] = []
names_of (e ∷ es) = e.name ∷ names_of es

names_of-append : (es fs : List ReplyEntry) → names_of (es ++ fs) ≡ names_of es ++ names_of fs
names_of-append [] fs = refl
names_of-append (e ∷ es) fs = ap (λ x. e.name ∷ x) (names_of-append es fs)

-- The names on disk but for the dots and those that are mapped, up to the first that cannot be
-- read.
unfoldable pub unmapped_names : (Bytes → Bool) → List (Result NixError Bytes) → List Bytes
unmapped_names mapped [] = []
unmapped_names mapped (Result.err e ∷ rest) = []
unmapped_names mapped (Result.ok name ∷ rest) =
    let more = unmapped_names mapped rest in
    if (name == bytes ".") || (name == bytes "..")
    then more
    else (if mapped name then [] else name ∷ []) ++ more

module _ {W : Type 0} where
  -- Whether the directory at the address has an explicit mapping of that name.
  abbrev pub mapped_at : State W → ℕ → Bytes → Bool
  mapped_at s a name = is_explicit (child_at s a name)

names_of-if :
    (b : Bool) (e : ReplyEntry)
    → names_of (if b then [] else e ∷ []) ≡ (if b then [] else e.name ∷ [])
names_of-if true e = refl
names_of-if false e = refl

module _ {W : Type 0} where
  -- An entry that is no mapping, under a new name, changes no name's being mapped.
  unmapped-kept :
      (s t u : State W) (a : ℕ) (name : Bytes) (child : ℕ)
      → t.arena a ≡ s.arena a
      → child_at s a name ≡ none
      → ((other : Bytes)
          → child_at u a other
            ≡ (if name == other then some (implicit child) else child_at t a other))
      → mapped_at u a ≡ mapped_at s a
  unmapped-kept s t u a name child same absent others = λ i other. go other i
    where
      go : (other : Bytes) → mapped_at u a other ≡ mapped_at s a other
      go other = elim (Bool-cases (name == other)) [
        | inl here ↦
            let missing : child_at s a other ≡ none =
              subst (λ x. child_at s a x ≡ none) ((list_eq.decides name other).0 here) absent in
            let now : child_at u a other ≡ some (implicit child) =
              subst
                (λ b.
                  child_at u a other ≡ (if b then some (implicit child) else child_at t a other))
                here (others other) in
            ap is_explicit now ∙ sym (ap is_explicit missing)
        | inr elsewhere ↦
            let now : child_at u a other ≡ child_at t a other =
              subst
                (λ b.
                  child_at u a other ≡ (if b then some (implicit child) else child_at t a other))
                elsewhere (others other) in
            ap is_explicit (now ∙ ap (λ o. child_in o other) same)
      ]

module _ {W : Type 0} (os : Os W) (a : ℕ) (writable : Bool) where
  disk_entry-names :
      (name : Bytes) {s : State W}
      → IsNode a s
      → Post
          (λ es t.
            (mapped_at t a ≡ mapped_at s a)
            × (names_of es ≡ (if mapped_at s a name then [] else name ∷ [])))
          (disk_entry os a writable name)
          s
  unfolding disk_entry
  disk_entry-names name {s} k = after_get_dir a k (λ d there h.
      let before : (other : Bytes) → child_at s a other ≡ get other d.state.children =
        λ other. ap (λ o. child_in o other) there in
      Post-option (get name d.state.children)
        (λ missing.
          after_expect d.state.underlying_path handle_and_path_disagree tt (λ underlying _.
            bind
              (invoke-Extending (kernel_of_io os.from_i32)
                (os.symlink_metadata (join_name underlying name)))
              (λ attr t g (more, _).
                bind (get_or_create-Extending (join_name underlying name) attr writable)
                  (λ child t1 g1 (more1, mode). after_fetch child mode (λ n here h' _.
                    bind
                      (insert_others a name (implicit child) (Is-Grows g1 (Is-Grows g k))
                        (IsOf-IsNode mode))
                      (λ _ u g2 others.
                        Post-pure
                          (record {
                            inode = inode_of n;
                            fs_type = filetype_fs_to_fuse attr.file_type;
                            name = name;
                          }
                            ∷ [])
                          (
                            unmapped-kept s t1 u a name child
                                (more1.nodes a (node_of d) (more.nodes a (node_of d) there)
                                  ∙ sym there)
                                (before name ∙ missing) others,
                            sym (
                                ap (λ o. if is_explicit o then [] else name ∷ [])
                                  (before name ∙ missing)),
                          )))))))
        (λ dirent found.
          after_fetch dirent.node (get-ChildrenKnown s name d.state.children dirent h.below found)
            (λ n here h' _.
              Post-pure (if dirent.explicit_mapping then [] else entry_of n name ∷ []) (
                refl,
                names_of-if dirent.explicit_mapping (entry_of n name)
                    ∙ sym (ap (λ o. if is_explicit o then [] else name ∷ []) (before name ∙ found)),
              ))))

  pub disk_entries-names :
      (names : List (Result NixError Bytes)) {s : State W}
      → IsNode a s
      → Post
          (λ es t. names_of es ≡ unmapped_names (mapped_at s a) names)
          (disk_entries os a writable names)
          s
  unfolding disk_entries unmapped_names
  disk_entries-names [] k = Post-pure [] refl
  disk_entries-names (Result.err e ∷ rest) k = Post-raise (kernel_of_nix e)
  disk_entries-names (Result.ok name ∷ rest) {s} k =
      Post-if ((name == bytes ".") || (name == bytes ".."))
        (λ dots. Post-mono (λ es t r. rw dots r) (disk_entries-names rest k))
        (λ real. bind (disk_entry-names name k) (λ first t g (kept, one).
          bind (disk_entries-names rest (Is-Grows g k)) (λ others u _ r.
            Post-pure (first ++ others) (
              rw real (
                names_of-append first others
                ∙ (λ i. one i ++ r i)
                ∙ ap (λ f. (if mapped_at s a name then [] else name ∷ []) ++ unmapped_names f rest)
                    kept)))))

-- The names of the explicit mappings among the entries.
unfoldable pub mapped_names : Children → List Bytes
mapped_names [] = []
mapped_names ((name, d) ∷ rest) =
    let more = mapped_names rest in if d.explicit_mapping then name ∷ more else more

abbrev children_in : Option Node → Children
children_in none = []
children_in (some n) = children_of n

module _ {W : Type 0} (os : Os W) where
  mapped_entries-names :
      (cs : Children) {s : State W}
      → ChildrenKnown s cs
      → Post (λ es t. (t ≡ s) × (names_of es ≡ mapped_names cs)) (mapped_entries os cs) s
  unfolding mapped_entries mapped_names
  mapped_entries-names [] k = Post-pure [] (refl, refl)
  mapped_entries-names ((name, d) ∷ rest) {s} k =
      Post-if d.explicit_mapping
        (λ yes. after_fetch d.node k.0 (λ n here h _.
          bind (mapped_entries-names rest k.1)
            (λ es t g r. Post-pure (entry_of n name ∷ es) (r.0, rw yes (ap (λ x. name ∷ x) r.1)))))
        (λ no. Post-mono (λ es t r. (r.0, rw no r.1)) (mapped_entries-names rest k.1))

  readdirall-names :
      (inode : ℕ) (writable : Bool) (a fd : ℕ) (d : Dir) {s : State W}
      → IsNode a s
      → s.arena a ≡ some (node_of d)
      → Post
          (λ es t.
            names_of es
            ≡ bytes "." ∷ bytes ".." ∷ mapped_names d.state.children
              ++ unmapped_names (mapped_at s a) (os.entries fd s.world))
          (readdirall os inode writable a (some fd))
          s
  unfolding readdirall
  readdirall-names inode writable a fd d {s} k there = after_get_dir a k (λ d' there' h.
      bind (mapped_entries-names d'.state.children h.below) (λ mapped t g (same, first).
        bind
          (assert_lem (not (os.debug_assertions && not (is_some d'.state.underlying_path)))
            handle_and_path_disagree (λ _. tt))
          (λ _ t1 g1 (_, same1).
            bind (gets_lem (λ s. os.entries fd s.world)) (λ names t2 g2 (these, same2).
              bind
                (disk_entries-names os a writable names (Is-Grows g2 (Is-Grows g1 (Is-Grows g k))))
                (λ disk u _ r.
                  Post-pure
                    ((dir_entry inode (bytes ".") ∷ dir_entry d'.state.parent (bytes "..") ∷ mapped)
                      ++ disk)
                    (ap (λ x. bytes "." ∷ bytes ".." ∷ x)
                      (names_of-append mapped disk ∙ (λ i. first i ++ r i) ∙ (λ i.
                        mapped_names (children_in ((sym there' ∙ there) i))
                        ++ unmapped_names (mapped_at ((same2 ∙ same1 ∙ same) i) a)
                            ((these ∙ ap (λ x. os.entries fd x.world) (same1 ∙ same)) i)))))))))

  -- In a valid memory, an open directory with a path on disk that lists its entries lists the two
  -- dots, then its explicit mappings, and then, in the order of the disk, the entries on disk whose
  -- names are not those of explicit mappings.
  pub readdirall_lists :
      (inode : ℕ) (writable : Bool) (a fd : ℕ) (d : Dir) (s t : State W) (es : List ReplyEntry)
      → IsValid s
      → IsNode a s
      → s.arena a ≡ some (node_of d)
      → readdirall os inode writable a (some fd) s ≡ (ok es, t)
      → names_of es
        ≡ bytes "." ∷ bytes ".." ∷ mapped_names d.state.children
          ++ unmapped_names (mapped_at s a) (os.entries fd s.world)
  readdirall_lists inode writable a fd d s t es v k there =
      Post-ok (readdirall-names inode writable a fd d k there) v
