-- ===== src/Sandbox/Valid.antt =====
-- Every request of the kernel keeps the memory valid.
use sandboxfs_rust.Base.{
  ℕ, ◌<◌, not, ◌&&◌, Option, none, some, List, Bytes, ◌≡◌, refl, sym, ◌∙◌, ◌⊎◌, inl, inr, arith,
  nat_eq, ◌==◌, nat_beq_iff, is_some, if◌then◌else◌, Bool-cases,
}
use mathlib.Core.Path.{subst}
use sandboxfs_rust.Path.{FilePath}
use sandboxfs_rust.Attr.{Timespec, FileAttr}
use sandboxfs_rust.Errors.{KernelError, from_errno}
use sandboxfs_rust.Errors.Errno
use sandboxfs_rust.Os.{Os}
use sandboxfs_rust.State.{
  State, Node, Handle, open_dir, open_file, ReplyEntry, inode_of, writable_of,
}
use sandboxfs_rust.State.Valid.{HandleKnown, Is-Grows, HandleKnown-Grows, Grows-refl}
use sandboxfs_rust.Monad.{
  M, ◌>>=◌, ◌>>◌, pure, raise, abort, update, modify, unknown_handle, handle_in_use, unimplemented,
}
use sandboxfs_rust.Monad.Keeps.{
  Post, Anything, Post-pure, Post-raise, Post-abort, Post-if, Post-mono, with_valid, bind, gets_lem,
  assert_lem, expect_lem,
}
use sandboxfs_rust.Monad.Steps.{fetch_lem, next_lem, set_nodes_lem, set_handles_lem, inode_of-Has}
use sandboxfs_rust.Nodes.Valid.{IsNode}
use sandboxfs_rust.Nodes.Valid.Attrs.{getattr_lem, set_attributes_lem, readlink_lem}
use sandboxfs_rust.Nodes.Valid.Dir.{lookup_lem}
use sandboxfs_rust.Nodes.Valid.Create.{
  create_lem, mkdir_lem, mknod_lem, symlink_at_lem, unlink_lem, rmdir_lem,
}
use sandboxfs_rust.Nodes.Valid.Move.{rename_lem, rename_and_move_source_lem}
use sandboxfs_rust.Nodes.Valid.Handles.{open_node_lem, read_lem, write_lem, readdir_lem}
use sandboxfs_rust.Nodes.Handles
use sandboxfs_rust.Sandbox
use sandboxfs_rust.Sandbox.{
  find_node, find_writable_node, find_handle, insert_handle, insert_node, create2, getattr2,
  lookup2, mkdir2, mknod2, symlink2, open2, readlink2, release2, rename2, rmdir2, unlink2, setattr2,
  delta_of,
}

module _ {W : Type 0} where
  pub find_node_lem :
      (inode : ℕ) {s : State W} → Post (λ a t. (a ≡ inode) × IsNode a t) (find_node inode) s
  unfolding find_node
  find_node_lem inode {s} = with_valid λ v.
      bind (gets_lem (λ s. s.nodes inode)) (λ o t g (same, here).
        go o t (λ a e. let (eq, known) = v.named inode a (sym same ∙ e) in (eq, Is-Grows g known)))
    where
      go :
          (o : Option ℕ) (t : State W)
          → ((a : ℕ) → o ≡ some a → (a ≡ inode) × IsNode a t)
          → Post {E = KernelError} {A = ℕ}
              (λ a t. (a ≡ inode) × IsNode a t)
              (elim o as (λ _. M W KernelError ℕ) [
                | some a ↦ pure a
                | none ↦ raise (from_errno Errno.enoent)
              ])
              t
      go none t known = Post-raise (from_errno Errno.enoent)
      go (some a) t known = Post-pure a (known a refl)

  pub find_writable_node_lem :
      (inode : ℕ) {s : State W}
      → Post (λ a t. (a ≡ inode) × IsNode a t) (find_writable_node inode) s
  unfolding find_writable_node
  find_writable_node_lem inode = bind (find_node_lem inode) (λ a t g (same, known).
      bind (fetch_lem a known) (λ n t1 g1 _.
        Post-if (not (writable_of n)) (λ _. Post-raise (from_errno Errno.eperm))
          (λ _. Post-pure a (same, Is-Grows g1 known))))

  find_handle_lem :
      (fh : ℕ) {s : State W} → Post (λ h t. (fh < t.last_id) × HandleKnown t h) (find_handle fh) s
  unfolding find_handle
  find_handle_lem fh {s} = with_valid λ v.
      bind (gets_lem (λ s. s.handles fh)) (λ o t g (same, here).
        Post-mono
          (λ h u (found, there).
            let (lt, known) = v.opened fh h (sym same ∙ found) in
            subst (λ x. (fh < x.last_id) × HandleKnown x h) (sym (there ∙ here)) (lt, known))
          (expect_lem o unknown_handle tt))

  update_handle :
      (s : State W) (fh : ℕ) (o : Option Handle)
      → ((h : Handle) → o ≡ some h → (fh < s.last_id) × HandleKnown s h)
      → (i : ℕ) (h : Handle) → update s.handles fh o i ≡ some h
      → (s.handles i ≡ some h) ⊎ ((i < s.last_id) × HandleKnown s h)
  update_handle s fh o known i h e = elim (Bool-cases (fh == i)) [
    | inl here ↦
        let p = (nat_beq_iff fh i).0 here in
        let same : o ≡ some h = ground arith in
        inr (subst (λ x. (x < s.last_id) × HandleKnown s h) p (known h same))
    | inr there ↦ inl (ground arith)
  ]

  set_handle_lem :
      (fh : ℕ) (h : Handle) {s : State W}
      → fh < s.last_id
      → HandleKnown s h
      → Post {E = KernelError} Anything
          (modify (λ s. record s { handles = update s.handles fh (some h) }))
          s
  set_handle_lem fh h {s} lt known =
      set_handles_lem (λ hs. update hs fh (some h))
        (update_handle s fh (some h)
          (λ h' e. let same : h ≡ h' = ground arith in (lt, subst (HandleKnown s) same known)))

  insert_handle_lem :
      (os : Os W) (h : Handle) {s : State W}
      → HandleKnown s h
      → Post Anything (insert_handle os h) s
  unfolding insert_handle
  insert_handle_lem os h known = bind next_lem (λ fh t g (_, fresh).
      bind (gets_lem (λ s. s.handles fh)) (λ found t1 g1 (same, here).
        bind
          (assert_lem (not (os.debug_assertions && not (not (is_some found)))) handle_in_use
            (λ wrong. ground (arith, same, fresh.no_handle)))
          (λ _ t2 g2 (_, here').
            bind
              (set_handle_lem fh h (subst (λ x. fh < x.last_id) (sym (here' ∙ here)) fresh.given)
                (HandleKnown-Grows g2 h (HandleKnown-Grows g1 h (HandleKnown-Grows g h known))))
              (λ _ _ _ _. Post-pure fh tt))))

  pub update-IsNode :
      (s : State W) (i a : ℕ)
      → i ≡ a
      → IsNode a s
      → (j b : ℕ) → update s.nodes i (some a) j ≡ some b
      → (s.nodes j ≡ some b) ⊎ ((b ≡ j) × IsNode b s)
  update-IsNode s i a own known j b e = elim (Bool-cases (i == j)) [
    | inl here ↦
        let p = (nat_beq_iff i j).0 here in
        let same : a ≡ b = ground arith in
        inr (sym same ∙ sym own ∙ p, subst (λ x. IsNode x s) same known)
    | inr there ↦ inl (ground arith)
  ]

  pub insert_node_lem : (a : ℕ) {s : State W} → IsNode a s → Post Anything (insert_node a) s
  unfolding insert_node
  insert_node_lem a k =
      bind (fetch_lem a k)
        (λ n t g (h, _). with_valid λ v. go n t (inode_of-Has t v a n h) (Is-Grows g k))
    where
      go :
          (n : Node) (t : State W)
          → inode_of n ≡ a
          → IsNode a t
          → Post {E = KernelError} Anything
              (modify (λ s.
                if is_some (s.nodes (inode_of n))
                then s
                else record s { nodes = update s.nodes (inode_of n) (some a) }))
              t
      go n t own known = elim (Bool-cases (is_some (t.nodes (inode_of n)))) [
        | inl old ↦ record { holds = λ v. rw old (v, Grows-refl, tt) }
        | inr new ↦ record {
          holds = λ v. rw new (
              (set_nodes_lem {E = KernelError} (λ ns. update ns (inode_of n) (some a)) {s = t}
                  (λ i b e. update-IsNode t (inode_of n) a own known i b e)).holds
                v);
        }
      ]

module _ {W : Type 0} (os : Os W) where
  pub create2_lem :
      (parent : ℕ) (name : Bytes) (uid gid mode flags : ℕ) {s : State W}
      → Post Anything (create2 os parent name uid gid mode flags) s
  unfolding create2
  create2_lem parent name uid gid mode flags =
      bind (find_writable_node_lem parent) (λ a t g (_, known).
        bind (create_lem os a name uid gid mode flags known) (λ r t1 g1 (node, opened).
          bind (insert_node_lem r.0 node) (λ _ t2 g2 _.
            bind (insert_handle_lem os r.1 (HandleKnown-Grows g2 r.1 opened))
              (λ fh _ _ _. Post-pure (r.2, fh) tt))))

  pub getattr2_lem : (inode : ℕ) {s : State W} → Post Anything (getattr2 os inode) s
  unfolding getattr2
  getattr2_lem inode = bind (find_node_lem inode) (λ a t g (_, known). getattr_lem os a known)

  -- The node that an operation returns is listed.
  list_it :
      (r : ℕ × FileAttr) {s : State W}
      → IsNode r.0 s
      → Post {E = KernelError} Anything (insert_node r.0 >> pure r.1) s
  list_it r node = bind (insert_node_lem r.0 node) (λ _ _ _ _. Post-pure r.1 tt)

  pub lookup2_lem :
      (parent : ℕ) (name : Bytes) {s : State W} → Post Anything (lookup2 os parent name) s
  unfolding lookup2
  lookup2_lem parent name =
      bind (find_node_lem parent)
        (λ a t g (_, known). bind (lookup_lem os a name known) (λ r t1 g1 node. list_it r node))

  pub mkdir2_lem :
      (parent : ℕ) (name : Bytes) (uid gid mode : ℕ) {s : State W}
      → Post Anything (mkdir2 os parent name uid gid mode) s
  unfolding mkdir2
  mkdir2_lem parent name uid gid mode = bind (find_writable_node_lem parent) (λ a t g (_, known).
      bind (mkdir_lem os a name uid gid mode known) (λ r t1 g1 node. list_it r node))

  pub mknod2_lem :
      (parent : ℕ) (name : Bytes) (uid gid mode rdev : ℕ) {s : State W}
      → Post Anything (mknod2 os parent name uid gid mode rdev) s
  unfolding mknod2
  mknod2_lem parent name uid gid mode rdev =
      bind (find_writable_node_lem parent) (λ a t g (_, known).
        bind (mknod_lem os a name uid gid mode rdev known) (λ r t1 g1 node. list_it r node))

  pub symlink2_lem :
      (parent : ℕ) (name : Bytes) (link : FilePath) (uid gid : ℕ) {s : State W}
      → Post Anything (symlink2 os parent name link uid gid) s
  unfolding symlink2
  symlink2_lem parent name link uid gid = bind (find_writable_node_lem parent) (λ a t g (_, known).
      bind (symlink_at_lem os a name link uid gid known) (λ r t1 g1 node. list_it r node))

  pub open2_lem : (inode flags : ℕ) {s : State W} → Post Anything (open2 os inode flags) s
  unfolding open2
  open2_lem inode flags = bind (find_node_lem inode) (λ a t g (_, known).
      bind (open_node_lem os a flags known)
        (λ handle t1 g1 opened. insert_handle_lem os handle opened))

  pub readlink2_lem : (inode : ℕ) {s : State W} → Post Anything (readlink2 os inode) s
  unfolding readlink2
  readlink2_lem inode = bind (find_node_lem inode) (λ a t g (_, known). readlink_lem os a known)

  pub release2_lem : (fh : ℕ) {s : State W} → Post Anything (release2 os fh) s
  unfolding release2
  release2_lem fh = bind (gets_lem (λ s. s.handles fh)) (λ found t g _.
      bind (expect_lem found unknown_handle tt) (λ _ t1 g1 _.
        set_handles_lem (λ hs. update hs fh none)
          (update_handle t1 fh none (λ h e. absurd (ground arith)))))

  pub rename2_lem :
      (parent : ℕ) (name : Bytes) (new_parent : ℕ) (new_name : Bytes) {s : State W}
      → Post Anything (rename2 os parent name new_parent new_name) s
  unfolding rename2
  rename2_lem parent name new_parent new_name =
      bind (find_writable_node_lem parent) (λ a t g (same, known).
        Post-if (parent == new_parent) (λ _. rename_lem os a name new_name known)
          (λ other. bind (find_writable_node_lem new_parent) (λ b t1 g1 (same', known').
            rename_and_move_source_lem os a name b new_name (Is-Grows g1 known) known'
              (λ e. ground (arith, same, same')))))

  pub rmdir2_lem :
      (parent : ℕ) (name : Bytes) {s : State W} → Post Anything (rmdir2 os parent name) s
  unfolding rmdir2
  rmdir2_lem parent name =
      bind (find_writable_node_lem parent) (λ a t g (_, known). rmdir_lem os a name known)

  pub unlink2_lem :
      (parent : ℕ) (name : Bytes) {s : State W} → Post Anything (unlink2 os parent name) s
  unfolding unlink2
  unlink2_lem parent name =
      bind (find_writable_node_lem parent) (λ a t g (_, known). unlink_lem os a name known)

  pub setattr2_lem :
      (inode : ℕ) (mode uid gid size : Option ℕ) (atime mtime : Option Timespec) {s : State W}
      → Post Anything (setattr2 os inode mode uid gid size atime mtime) s
  unfolding setattr2
  setattr2_lem inode mode uid gid size atime mtime =
      bind (find_writable_node_lem inode) (λ a t g (_, known).
        set_attributes_lem os a (delta_of os mode uid gid size atime mtime) known)

  read_from :
      (h : Handle) (offset size : ℕ) {s : State W}
      → Post {E = KernelError} {A = Bytes} Anything
          (elim h as (λ _. M W KernelError Bytes) [
            | open_dir _ _ _ _ _ ↦ abort unimplemented
            | open_file _ fd ↦ Handles.read os fd offset size
          ])
          s
  read_from (open_dir i w a fd cs) offset size = Post-abort unimplemented tt
  read_from (open_file a fd) offset size = read_lem os fd offset size

  pub read_request_lem :
      (fh offset size : ℕ) {s : State W} → Post Anything (Sandbox.read os fh offset size) s
  unfolding Sandbox.read
  read_request_lem fh offset size = bind (find_handle_lem fh) (λ h t g _. read_from h offset size)

  write_to :
      (h : Handle) (offset : ℕ) (content : Bytes) {s : State W}
      → HandleKnown s h
      → Post {E = KernelError} {A = ℕ} Anything
          (elim h as (λ _. M W KernelError ℕ) [
            | open_dir _ _ _ _ _ ↦ abort unimplemented
            | open_file a fd ↦ Handles.write os a fd offset content
          ])
          s
  write_to (open_dir i w a fd cs) offset content k = Post-abort unimplemented tt
  write_to (open_file a fd) offset content k = write_lem os a fd offset content k

  pub write_request_lem :
      (fh offset : ℕ) (content : Bytes) {s : State W}
      → Post Anything (Sandbox.write os fh offset content) s
  unfolding Sandbox.write
  write_request_lem fh offset content =
      bind (find_handle_lem fh) (λ h t g (_, known). write_to h offset content known)

  read_entries :
      (fh : ℕ) (h : Handle) (offset room : ℕ) {s : State W}
      → fh < s.last_id
      → HandleKnown s h
      → Post {E = KernelError} {A = List (ℕ × ReplyEntry)} Anything
          (elim h as (λ _. M W KernelError (List (ℕ × ReplyEntry))) [
            | open_file _ _ ↦ abort unimplemented
            | open_dir i w a fd contents ↦ do
              (contents', reply) ← Handles.readdir os i w a fd contents offset room
              modify (λ s. record s {
                handles = update s.handles fh (some (open_dir i w a fd contents'));
              })
              pure reply
          ])
          s
  read_entries fh (open_file a fd) offset room lt k = Post-abort unimplemented tt
  read_entries fh (open_dir i w a fd cs) offset room lt k =
      bind
        (readdir_lem os i w a fd cs offset room
          (record { tag = k.tag; there = k.there; passes = refl }))
        (λ r t g _.
          bind (set_handle_lem fh (open_dir i w a fd r.0) (omega (arith, g.ids)) (Is-Grows g k))
            (λ _ _ _ _. Post-pure r.1 tt))

  pub readdir_request_lem :
      (fh offset room : ℕ) {s : State W} → Post Anything (Sandbox.readdir os fh offset room) s
  unfolding Sandbox.readdir
  readdir_request_lem fh offset room =
      bind (find_handle_lem fh) (λ h t g (lt, known). read_entries fh h offset room lt known)
