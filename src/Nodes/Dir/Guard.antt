-- ===== src/Nodes/Dir/Guard.antt =====
-- The guard of a directory's entries (`get_writable_path` in src/nodes/dir.rs).
use sandboxfs_rust.Base.{
  ℕ, Bool, true, false, refl, sym, ap, ◌∙◌, none, some, Bytes, ◌≡◌, ◌≢◌, ◌⊎◌, inl, inr, arith,
  list_eq, nat_eq, ◌==◌, eq_refl, Bool-cases, Option-cases,
}
use mathlib.Core.Path.{subst}
use sandboxfs_rust.Base.Assoc.{get, insert, remove, get-insert, get-remove}
use sandboxfs_rust.Path.{FilePath, join_name}
use sandboxfs_rust.Errors.{KernelError, from_errno}
use sandboxfs_rust.Errors.Errno
use sandboxfs_rust.Os.{Os}
use sandboxfs_rust.State.{State, Dirent, Children, MutableDir, Node, dir, inode_of}
use sandboxfs_rust.State.Walk.{child_at, child_in}
use sandboxfs_rust.Monad.{M, err, ok, update, fetch, store}
use sandboxfs_rust.Nodes.Dir.{get_dir, set_children, get_writable_path, is_explicit}
use sandboxfs_rust.Nodes.Dir.Create.{create, mkdir, mknod, symlink_at, unlink, rmdir}
use sandboxfs_rust.Nodes.Dir.Move.{rename, rename_and_move_source, rename_and_move_target}

-- The operation fails with `EPERM` and changes neither the memory nor the world.
abbrev pub Denied : {W A : Type 0} → M W KernelError A → State W → Type 0
Denied m s = m s ≡ (err (from_errno Errno.eperm), s)

-- The entry is an explicit mapping, or the directory has no directory under it.
abbrev pub IsProtected : MutableDir → Bytes → Type 0
IsProtected st name = (st.underlying_path ≡ none) ⊎ (is_explicit (get name st.children) ≡ true)

get_writable_path-Denied :
    {W : Type 0} (st : MutableDir) (name : Bytes) (s : State W)
    → IsProtected st name
    → Denied (get_writable_path st name) s
unfolding get_writable_path
get_writable_path-Denied st name s (inl scaffold) = ground arith
get_writable_path-Denied st name s (inr mapped) = ground arith

get_writable_path-either :
    {W : Type 0} (st : MutableDir) (name : Bytes) (s : State W)
    → ((path : FilePath) × (get_writable_path st name s ≡ (ok path, s)))
      ⊎ Denied (get_writable_path st name) s
unfolding get_writable_path
get_writable_path-either st name s = elim (Option-cases st.underlying_path) [
  | inl scaffold ↦ inr (ground arith)
  | inr (path, below) ↦ elim (Bool-cases (is_explicit (get name st.children))) [
    | inl mapped ↦ inr (ground arith)
    | inr plain ↦ inl (join_name path name, ground arith)
  ]
]

get_dir-eq :
    {W E : Type 0} (s : State W) (a i : ℕ) (w : Bool) (st : MutableDir)
    → s.arena a ≡ some (dir i w st)
    → get_dir {W = W} {E = E} a s ≡ (ok (record { inode = i; writable = w; state = st }), s)
unfolding get_dir
get_dir-eq s a i w st there = ground arith

-- Either name of a rename is enough.
rename-Denied :
    {W : Type 0} (os : Os W) (s : State W) (a i : ℕ) (w : Bool) (st : MutableDir)
    (old_name new_name : Bytes)
    → s.arena a ≡ some (dir i w st)
    → IsProtected st new_name
    → Denied (rename os a old_name new_name) s
unfolding rename
rename-Denied os s a i w st old_name new_name there guarded =
    let found = get_dir-eq {E = KernelError} s a i w st there in
    let denied = get_writable_path-Denied st new_name s guarded in
    elim (get_writable_path-either st old_name s) [
      | inl (path, passed) ↦ ground (arith, found, denied, passed)
      | inr refused ↦ ground (arith, found, refused)
    ]

-- The operation fails with `EPERM`, the world stays as it is, and every directory has the entries
-- that it had.
abbrev pub Undone : {W A : Type 0} → M W KernelError A → State W → Type 0
Undone m s =
    ((m s).0 ≡ err (from_errno Errno.eperm))
    × ((m s).1.world ≡ s.world)
    × ((x : ℕ) (name : Bytes) → child_at (m s).1 x name ≡ child_at s x name)

Denied-Undone : {W A : Type 0} (m : M W KernelError A) (s : State W) → Denied m s → Undone m s
Denied-Undone m s h =
    (ap (λ r. r.0) h, ap (λ r. r.1.world) h, λ x name. ap (λ r. child_at r.1 x name) h)

rename_and_move_target-Denied :
    {W : Type 0} (os : Os W) (s : State W) (a i : ℕ) (w : Bool) (st : MutableDir) (name : Bytes)
    → s.arena a ≡ some (dir i w st)
    → IsProtected st name
    → (d : Dirent) (old_path : FilePath) → Denied (rename_and_move_target os a d old_path name) s
unfolding rename_and_move_target fetch
rename_and_move_target-Denied os s a i w st name there guarded d old_path =
    ground (arith, get_writable_path-Denied st name s guarded)

rename_and_move_source-Denied :
    {W : Type 0} (os : Os W) (s : State W) (a i : ℕ) (w : Bool) (st : MutableDir) (name : Bytes)
    → s.arena a ≡ some (dir i w st)
    → IsProtected st name
    → (b : ℕ) (m : Node) (new_name : Bytes) → s.arena b ≡ some m
    → i ≢ inode_of m
    → Denied (rename_and_move_source os a name b new_name) s
unfolding rename_and_move_source fetch
rename_and_move_source-Denied os s a i w st name there guarded b m new_name listed apart = ground (
  arith,
  get_dir-eq {E = KernelError} s a i w st there,
  get_writable_path-Denied st name s guarded,
  (nat_eq.decides i (inode_of m)).0,
)

-- The state in which the children of the directory at `b` are others.
abbrev with_children : {W : Type 0} → State W → ℕ → ℕ → Bool → MutableDir → Children → State W
with_children s b j v from children = record s {
  arena = update s.arena b (some (dir j v (record from { children = children })));
}

set_children-eq :
    {W E : Type 0} (s : State W) (b j : ℕ) (v : Bool) (from : MutableDir) (f : Children → Children)
    → s.arena b ≡ some (dir j v from)
    → set_children {W = W} {E = E} b f s ≡ (ok tt, with_children s b j v from (f from.children))
unfolding set_children get_dir store
set_children-eq s b j v from f there = ground arith

-- Taken out and put back, an entry is there as before.
get-put_back :
    (old : Bytes) (d : Dirent) (cs : Children) (name : Bytes)
    → get old cs ≡ some d
    → get name (insert old d (remove old cs)) ≡ get name cs
get-put_back old d cs name found = elim (Bool-cases (old == name)) [
  | inl same ↦
      let e = (list_eq.decides old name).0 same in
      get-insert old name d (remove old cs) ∙ rw same (sym (subst (λ n. get n cs ≡ some d) e found))
  | inr differ ↦
      get-insert old name d (remove old cs) ∙ rw differ (get-remove old name cs ∙ rw differ refl)
]

module _ {W : Type 0} (os : Os W) (s : State W) (a i : ℕ) (w : Bool) (st : MutableDir)
    (name : Bytes) (there : s.arena a ≡ some (dir i w st)) (guarded : IsProtected st name) (b j : ℕ)
    (v : Bool) (from : MutableDir) (old : Bytes) (d : Dirent)
    (source : s.arena b ≡ some (dir j v from)) (apart : j ≢ i)
    (found : get old from.children ≡ some d) where
  addresses_differ : (b == a) ≡ false
  addresses_differ = elim (Bool-cases (b == a)) [
    | inr differ ↦ differ
    | inl same ↦
        let e : b ≡ a = (nat_eq.decides b a).0 same in
        let both : some (dir j v from) ≡ some (dir i w st) =
          sym source ∙ subst (λ x. s.arena x ≡ some (dir i w st)) (sym e) there in
        absurd (apart (ground arith))
  ]

  abbrev taken : State W
  taken = with_children s b j v from (remove old from.children)

  abbrev put_back : State W
  put_back = with_children taken b j v from (insert old d (remove old from.children))

  put_back_child : (x : ℕ) (n : Bytes) → child_at put_back x n ≡ child_at s x n
  put_back_child x n = elim (Bool-cases (b == x)) [
    | inr differ ↦ rw differ refl
    | inl same ↦
        let e : b ≡ x = (nat_eq.decides b x).0 same in
        rw same (
          get-put_back old d from.children n found
          ∙ ap (λ o. child_in o n) (sym source ∙ ap s.arena e))
  ]

  moved_back :
      (path : FilePath)
      → get_writable_path from old s ≡ (ok path, s)
      → rename_and_move_source os b old a name s ≡ (err (from_errno Errno.eperm), put_back)
  unfolding rename_and_move_source fetch
  moved_back path passed =
      let kept : taken.arena a ≡ some (dir i w st) = rw addresses_differ there in
      let here : taken.arena b
          ≡ some (dir j v (record from { children = remove old from.children })) =
        rw (eq_refl b) refl in
      ground (
        arith,
        passed,
        found,
        get_dir-eq {E = KernelError} s b j v from source,
        (nat_eq.decides j i).0,
        set_children-eq {E = KernelError} s b j v from (remove old) source,
        rename_and_move_target-Denied os taken a i w st name kept guarded d path,
        set_children-eq {E = KernelError} taken b j v
            (record from { children = remove old from.children }) (insert old d) here,
      )

  rename_and_move_source-Undone : Undone (rename_and_move_source os b old a name) s
  rename_and_move_source-Undone = elim (get_writable_path-either from old s) [
    | inr refused ↦ Denied-Undone (rename_and_move_source os b old a name) s (
        unfold rename_and_move_source fetch in
        ground (
          arith,
          refused,
          get_dir-eq {E = KernelError} s b j v from source,
          (nat_eq.decides j i).0,
        ))
    | inl (path, passed) ↦
        let e = moved_back path passed in
        (
          ap (λ r. r.0) e,
          ap (λ r. r.1.world) e,
          λ x n. ap (λ r. child_at r.1 x n) e ∙ put_back_child x n,
        )
  ]

-- Every operation that would create, remove or replace an entry that is an explicit mapping, or any
-- entry of a directory that stands for none on disk, fails with EPERM and changes nothing: the
-- memory and the world stay as they are. A rename within the directory fails so if either of its
-- names is that of such an entry, and a move to another directory if the entry that it takes is
-- one. A move of an entry that is known from another directory onto such an entry fails with EPERM,
-- and then the world is as it was and every directory has the entries that it had.
pub protected_Denied :
    {W : Type 0} (os : Os W) (s : State W) (a i : ℕ) (w : Bool) (st : MutableDir) (name : Bytes)
    → s.arena a ≡ some (dir i w st)
    → IsProtected st name
    → ((uid gid mode flags : ℕ) → Denied (create os a name uid gid mode flags) s)
      × ((uid gid mode : ℕ) → Denied (mkdir os a name uid gid mode) s)
      × ((uid gid mode rdev : ℕ) → Denied (mknod os a name uid gid mode rdev) s)
      × ((link : FilePath) (uid gid : ℕ) → Denied (symlink_at os a name link uid gid) s)
      × Denied (unlink os a name) s
      × Denied (rmdir os a name) s
      × ((new_name : Bytes) → Denied (rename os a name new_name) s)
      × ((old_name : Bytes) → Denied (rename os a old_name name) s)
      × ((b : ℕ) (m : Node) (new_name : Bytes)
          → s.arena b ≡ some m
          → i ≢ inode_of m
          → Denied (rename_and_move_source os a name b new_name) s)
      × ((b j : ℕ) (v : Bool) (from : MutableDir) (old_name : Bytes) (d : Dirent)
          → s.arena b ≡ some (dir j v from)
          → j ≢ i
          → get old_name from.children ≡ some d
          → Undone (rename_and_move_source os b old_name a name) s)
unfolding create mkdir mknod symlink_at unlink rename rmdir
protected_Denied os s a i w st name there guarded =
    let found = get_dir-eq {E = KernelError} s a i w st there in
    let denied = get_writable_path-Denied st name s guarded in
    (
      λ uid gid mode flags. ground (arith, found, denied),
      λ uid gid mode. ground (arith, found, denied),
      λ uid gid mode rdev. ground (arith, found, denied),
      λ link uid gid. ground (arith, found, denied),
      ground (arith, found, denied),
      ground (arith, found, denied),
      λ new_name. ground (arith, found, denied),
      λ old_name. rename-Denied os s a i w st old_name name there guarded,
      λ b m new_name listed apart.
          rename_and_move_source-Denied os s a i w st name there guarded b m new_name listed apart,
      λ b j v from old_name d source apart known.
          rename_and_move_source-Undone os s a i w st name there guarded b j v from old_name d
            source apart known,
    )
