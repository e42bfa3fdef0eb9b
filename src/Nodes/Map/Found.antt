-- ===== src/Nodes/Map/Found.antt =====
-- What a mapping does to the directories in memory (`Dir::map` of src/nodes/dir.rs).
use mathlib.Core.Path.{subst}
use sandboxfs_rust.Base.{
  ℕ, Bool, true, false, not, ◌&&◌, none, some, List, [], ◌∷◌, Bytes, ◌≡◌, refl, sym, ap, ◌∙◌, arith,
  nat_eq, list_eq,
}
use sandboxfs_rust.Base.Assoc.{get, insert}
use sandboxfs_rust.Path.{FilePath, Component, cur_dir, parent_dir, normal}
use sandboxfs_rust.Errors.{Failure, failure, already_mapped}
use sandboxfs_rust.Attr.{is_dir}
use sandboxfs_rust.Os.{Os}
use sandboxfs_rust.State.{State, Dirent}
use sandboxfs_rust.State.Entries.{get-ChildrenKnown}
use sandboxfs_rust.State.Valid.{IsValid, Is-Grows}
use sandboxfs_rust.State.Walk.{
  child_at, child_in, entry_at, Preserves, Preserves-trans, Extends-Preserves,
}
use sandboxfs_rust.Monad.{M, ok, ◌>>=◌, ◌>>◌, pure, not_normalized, no_components}
use sandboxfs_rust.Monad.Keeps.{Post, Post-pure, Post-abort, Post-mono, Post-option, bind}
use sandboxfs_rust.Monad.Extending.{after_fetch, after_raise_if, Post-ok}
use sandboxfs_rust.Nodes.Attrs.{file_type_of}
use sandboxfs_rust.Nodes.Dir.{Dir, explicit, set_children}
use sandboxfs_rust.Nodes.Map
use sandboxfs_rust.Nodes.Map.{map_child, normal_name}
use sandboxfs_rust.Nodes.Valid.{IsNode}
use sandboxfs_rust.Nodes.Valid.New.{IsOf, IsOf-IsNode}
use sandboxfs_rust.Nodes.Valid.Dir.{node_of}
use sandboxfs_rust.Nodes.Valid.Grown.{
  after_get_dir, insert_absent, map_last-Extending, map_inner-Extending,
}

-- Between `s` and `t` the path from the directory at `a` got the node `n` as an explicit mapping:
-- there was no entry before, and all others stay.
pub record IsMapped {W : Type 0} (a : ℕ) (cs : List Component) (w : Bool) (s : State W) (n : ℕ)
    (t : State W) : Type 0 where
  pub kept : Preserves s t
  pub absent : entry_at s a cs ≡ none
  pub found : entry_at t a cs ≡ some (explicit n)
  pub mode : IsOf w n t

module _ {W : Type 0} {s : State W} (a : ℕ) (name : Bytes) (c : Component) (cs : List Component)
    (w : Bool) where
  -- The first component leads to an entry that was there.
  IsMapped-there :
      (d : Dirent) (n : ℕ) (t : State W)
      → child_at s a name ≡ some d
      → IsMapped d.node (c ∷ cs) w s n t
      → IsMapped a (normal name ∷ c ∷ cs) w s n t
  unfolding entry_at
  IsMapped-there d n t there m = record {
    kept = m.kept;
    absent = let e = m.absent in ground arith;
    found = let e = m.found in let still = m.kept.entries a name d there in ground arith;
    mode = m.mode;
  }

  -- The first component leads to an entry that is new.
  IsMapped-new :
      (child n : ℕ) (t u : State W)
      → child_at s a name ≡ none
      → Preserves s t
      → child_at t a name ≡ some (explicit child)
      → IsMapped child (c ∷ cs) w t n u
      → IsMapped a (normal name ∷ c ∷ cs) w s n u
  unfolding entry_at
  IsMapped-new child n t u missing kept there m = record {
    kept = Preserves-trans kept m.kept;
    absent = ground arith;
    found =
        let e = m.found in let still = m.kept.entries a name (explicit child) there in ground arith;
    mode = m.mode;
  }

module _ {W : Type 0} {s : State W} where
  IsMapped-last :
      (a : ℕ) (name : Bytes) (w : Bool) (n : ℕ) (t : State W)
      → child_at s a name ≡ none
      → Preserves s t
      → child_at t a name ≡ some (explicit n)
      → IsOf w n t
      → IsMapped a (normal name ∷ []) w s n t
  unfolding entry_at
  IsMapped-last a name w n t missing kept there mode = record {
    kept = kept;
    absent = ground arith;
    found = ground arith;
    mode = mode;
  }

module _ {W : Type 0} (os : Os W) (path : FilePath) (w : Bool) where
  -- The last component, which has no entry yet.
  map_last :
      (a : ℕ) (name : Bytes) (d : Dir) {s : State W}
      → IsNode a s
      → s.arena a ≡ some (node_of d)
      → get name d.state.children ≡ none
      → Post
          (IsMapped a (normal name ∷ []) w s)
          (do
            child ← map_child os d name true path w
            set_children a (insert name (explicit child))
            pure child)
          s
  map_last a name d {s} k there missing =
      bind (map_last-Extending os d name path w) (λ child t g (more, mode).
        let same : child_at t a name ≡ none =
          ap (λ o. child_in o name) (more.nodes a (node_of d) there) ∙ missing in
        bind (insert_absent a name (explicit child) (Is-Grows g k) (IsOf-IsNode mode) same)
          (λ _ u g' r. Post-pure child (
            IsMapped-last a name w child u (ap (λ o. child_in o name) there ∙ missing)
              (Preserves-trans (Extends-Preserves more) r.0) r.1 (Is-Grows g' mode))))

  normal_name_lem :
      (c : Component) {s : State W}
      → Post (λ name t. (c ≡ normal name) × (t ≡ s)) (normal_name os c) s
  normal_name_lem (normal name) = Post-pure name (refl, refl)
  normal_name_lem cur_dir = Post-abort not_normalized tt
  normal_name_lem parent_dir = Post-abort not_normalized tt

  -- What is shown for the name of the component, in the state that is the same.
  named :
      (a : ℕ) {c : Component} {name : Bytes} {cs : List Component} {m : M W Failure ℕ}
      {s t : State W}
      → c ≡ normal name
      → t ≡ s
      → Post (IsMapped a (normal name ∷ cs) w t) m t
      → Post (IsMapped a (c ∷ cs) w s) m t
  named a {name} {cs} {s} e same = Post-mono (λ n u r.
      subst (λ x. IsMapped a (x ∷ cs) w s n u) (sym e)
        (subst (λ x. IsMapped a (normal name ∷ cs) w x n u) same r))

  pub map-IsMapped :
      (a : ℕ) (cs : List Component) {s : State W}
      → IsNode a s
      → Post (IsMapped a cs w s) (Map.map os a cs path w) s
  unfolding Map.map
  map-IsMapped a [] k = Post-abort no_components tt
  map-IsMapped a (component ∷ []) k = bind (normal_name_lem component) (λ name t0 g0 (e, same0).
      named a e same0 (
        after_get_dir a (Is-Grows g0 k) (λ d there h.
          Post-option (get name d.state.children) (map_last a name d (Is-Grows g0 k) there)
            (λ dirent found.
              after_fetch dirent.node
                (get-ChildrenKnown _ name d.state.children dirent h.below found)
                (λ n here h' _.
                  after_raise_if (not (is_dir (file_type_of n) && not true))
                    (failure already_mapped) {m = Map.map os dirent.node [] path w}
                    (λ wrong. absurd (ground arith)))))))
  map-IsMapped a (component ∷ c ∷ cs) k = bind (normal_name_lem component) (λ name t0 g0 (e, same0).
      named a e same0 (
        after_get_dir a (Is-Grows g0 k) (λ d there h.
          Post-option (get name d.state.children)
            (λ missing. bind (map_inner-Extending os d name path w) (λ child t g (more, known).
              let same : child_at t a name ≡ none =
                ap (λ o. child_in o name) (more.nodes a (node_of d) there) ∙ missing in
              bind (insert_absent a name (explicit child) (Is-Grows g (Is-Grows g0 k)) known same)
                (λ _ u g' r. after_fetch child (Is-Grows g' known) (λ n here h' _.
                  after_raise_if (not (is_dir (file_type_of n))) (failure already_mapped) (λ _.
                    Post-mono
                      (λ m v.
                        IsMapped-new a name c cs w child m u v
                          (ap (λ o. child_in o name) there ∙ missing)
                          (Preserves-trans (Extends-Preserves more) r.0) r.1)
                      (map-IsMapped child (c ∷ cs) (Is-Grows g' known)))))))
            (λ dirent found.
              let known = get-ChildrenKnown _ name d.state.children dirent h.below found in
              after_fetch dirent.node known (λ n here h' _.
                after_raise_if (not (is_dir (file_type_of n) && not false)) (failure already_mapped)
                  (λ _.
                    Post-mono
                      (λ m v.
                        IsMapped-there a name c cs w dirent m v
                          (ap (λ o. child_in o name) there ∙ found))
                      (map-IsMapped dirent.node (c ∷ cs) known)))))))

module _ {W : Type 0} (os : Os W) where
  -- In a valid memory, a call of `map` that succeeds for a path from a directory has found no entry
  -- at the path, and makes one: an explicit mapping, whose node is writable exactly when the
  -- mapping is. Each entry that any directory had is still there as it was.
  pub map_found :
      (a : ℕ) (cs : List Component) (path : FilePath) (w : Bool) (s t : State W) (n : ℕ)
      → IsValid s
      → IsNode a s
      → Map.map os a cs path w s ≡ (ok n, t)
      → IsMapped a cs w s n t
  map_found a cs path w s t n v k = Post-ok (map-IsMapped os path w a cs k) v
