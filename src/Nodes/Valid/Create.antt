-- ===== src/Nodes/Valid/Create.antt =====
-- The operations that create or remove an entry keep the memory valid.
use sandboxfs_rust.Base.{ℕ, ◌%◌, not, true, some, Bytes, refl, nat_eq, list_eq}
use sandboxfs_rust.Base.Assoc.{get}
use sandboxfs_rust.Path.{FilePath}
use sandboxfs_rust.Attr.{FileType, type_eq}
use sandboxfs_rust.Conv.{flags_to_openoptions}
use sandboxfs_rust.Errors.{IoError, sys, KernelError, from_errno, kernel_of_io, kernel_of_nix}
use sandboxfs_rust.Errors.Errno
use sandboxfs_rust.Os.{Os, Call}
use sandboxfs_rust.State.{State, Node, dir, file, symlink, Handle, open_file}
use sandboxfs_rust.State.Entries.{get-ChildrenKnown}
use sandboxfs_rust.State.Valid.{tag_of, Has, HandleKnown, Is-Grows, Has-Grows}
use sandboxfs_rust.Monad.{M, pure, abort, unimplemented, unknown_entry, unmatched_name}
use sandboxfs_rust.Monad.Keeps.{
  Post, Anything, Post-pure, Post-raise, Post-abort, Post-option, bind, raise_if_lem, expect_lem,
  debug_assert_lem, on_error_lem,
}
use sandboxfs_rust.Monad.Steps.{fetch_lem, attempt_lem, invoke_lem, lift_lem}
use sandboxfs_rust.Nodes.Attrs.{file_type_of}
use sandboxfs_rust.Nodes.Valid.{IsNode}
use sandboxfs_rust.Nodes.Valid.Paths.{delete_lem}
use sandboxfs_rust.Nodes.Valid.Dir.{
  node_of, FirstIsNode, get_dir_lem, remove_child_lem, get_writable_path_lem, lookup_locked_lem,
}
use sandboxfs_rust.Nodes.Dir.{Dir}
use sandboxfs_rust.Nodes.Dir.Create
use sandboxfs_rust.Nodes.Dir.Create.{
  create_as, io_of_errno, sflag_of, exp_filetype, has_name, post_create_lookup, remove_any,
  handle_from,
}

module _ {W : Type 0} (os : Os W) where
  post_create_lookup_lem :
      (a : ℕ) (d : Dir) (path : FilePath) (name : Bytes) (t : FileType) {s : State W}
      → Has s a (node_of d)
      → Post FirstIsNode (post_create_lookup os a d path name t) s
  unfolding post_create_lookup
  post_create_lookup_lem a d path name exp_type h =
      bind (debug_assert_lem os (has_name path name) unmatched_name tt) (λ _ t0 g0 _.
        bind
          (on_error_lem (lookup_locked_lem os a d name (Has-Grows g0 h))
            (λ t g. bind (attempt_lem (os.remove_file path)) (λ _ _ _ _. Post-pure tt tt)))
          (λ r t g known. bind (fetch_lem r.0 known) (λ n t1 g1 _.
            bind (raise_if_lem (not (type_eq (file_type_of n) exp_type)) (from_errno Errno.eio))
              (λ _ t2 g2 _. Post-pure (r.0, r.1) (Is-Grows g2 (Is-Grows g1 known))))))

  remove_any_lem :
      (a : ℕ) (name : Bytes) (call : FilePath → Call W IoError (Unit {0})) {s : State W}
      → IsNode a s
      → Post Anything (remove_any os a name call) s
  unfolding remove_any
  remove_any_lem a name call k = bind (get_dir_lem a k) (λ d t g h.
      bind (get_writable_path_lem d.state name) (λ path t1 g1 _.
        bind (invoke_lem (kernel_of_io os.from_i32) (call path)) (λ _ t2 g2 _.
          bind (expect_lem (get name d.state.children) unknown_entry tt) (λ entry t3 g3 (found, _).
            let known = Is-Grows g3 (
              Is-Grows g2
                (Is-Grows g1 (get-ChildrenKnown t name d.state.children entry h.below found))) in
            bind (remove_child_lem a name (Is-Grows g3 (Is-Grows g2 (Is-Grows g1 (Is-Grows g k)))))
              (λ _ t4 g4 _. delete_lem os entry.node (Is-Grows g4 known))))))

  pub unlink_lem :
      (a : ℕ) (name : Bytes) {s : State W} → IsNode a s → Post Anything (Create.unlink os a name) s
  unfolding Create.unlink
  unlink_lem a name k = remove_any_lem a name os.remove_file k

  pub rmdir_lem :
      (a : ℕ) (name : Bytes) {s : State W} → IsNode a s → Post Anything (Create.rmdir os a name) s
  unfolding Create.rmdir
  rmdir_lem a name k = remove_any_lem a name os.remove_dir k

  handle_of_lem :
      (a fd : ℕ) (n : Node) {s : State W}
      → Has s a n
      → Post {E = KernelError} {A = Handle}
          (λ handle t. HandleKnown t handle)
          (elim n as (λ _. M W KernelError Handle) [
            | dir _ _ _ ↦ abort unimplemented
            | file _ _ _ ↦ pure (open_file a fd)
            | symlink _ _ _ ↦ abort unimplemented
          ])
          s
  handle_of_lem a fd (dir i w st) h = Post-abort unimplemented tt
  handle_of_lem a fd (file i w st) h =
      Post-pure (open_file a fd)
        (record { tag = tag_of (file i w st); there = h.there; passes = refl })
  handle_of_lem a fd (symlink i w st) h = Post-abort unimplemented tt

  handle_from_lem :
      (a fd : ℕ) {s : State W}
      → IsNode a s
      → Post (λ handle t. HandleKnown t handle) (handle_from os a fd) s
  unfolding handle_from
  handle_from_lem a fd k = bind (fetch_lem a k) (λ n t g (h, _). handle_of_lem a fd n h)

  pub create_lem :
      (a : ℕ) (name : Bytes) (uid gid mode flags : ℕ) {s : State W}
      → IsNode a s
      → Post
          (λ r t. IsNode r.0 t × HandleKnown t r.1)
          (Create.create os a name uid gid mode flags)
          s
  unfolding Create.create
  create_lem a name uid gid mode flags k = bind (get_dir_lem a k) (λ d t g h.
      bind (get_writable_path_lem d.state name) (λ path t1 g1 _.
        bind (lift_lem (flags_to_openoptions flags d.writable)) (λ options t2 g2 _.
          bind
            (invoke_lem (kernel_of_io os.from_i32) (
              create_as os io_of_errno path uid gid
                (os.open_file (record options { create = true; mode = some mode }) path)
                (os.remove_file path)))
            (λ fd t3 g3 _.
              bind
                (post_create_lookup_lem a d path name FileType.regular_file
                  (Has-Grows g3 (Has-Grows g2 (Has-Grows g1 h))))
                (λ r t4 g4 known. bind (handle_from_lem r.0 fd known) (λ handle t5 g5 opened.
                  Post-pure (r.0, handle, r.1) (Is-Grows g5 known, opened)))))))

  pub mkdir_lem :
      (a : ℕ) (name : Bytes) (uid gid mode : ℕ) {s : State W}
      → IsNode a s
      → Post FirstIsNode (Create.mkdir os a name uid gid mode) s
  unfolding Create.mkdir
  mkdir_lem a name uid gid mode k = bind (get_dir_lem a k) (λ d t g h.
      bind (get_writable_path_lem d.state name) (λ path t1 g1 _.
        bind
          (invoke_lem (kernel_of_io os.from_i32)
            (create_as os io_of_errno path uid gid (os.create_dir mode path) (os.remove_dir path)))
          (λ _ t2 g2 _.
            post_create_lookup_lem a d path name FileType.directory
              (Has-Grows g2 (Has-Grows g1 h)))))

  pub mknod_lem :
      (a : ℕ) (name : Bytes) (uid gid mode rdev : ℕ) {s : State W}
      → IsNode a s
      → Post FirstIsNode (Create.mknod os a name uid gid mode rdev) s
  unfolding Create.mknod
  mknod_lem a name uid gid mode rdev k = bind (get_dir_lem a k) (λ d t g h.
      bind (get_writable_path_lem d.state name) (λ path t1 g1 _.
        Post-option (exp_filetype (sflag_of mode)) (λ _. Post-raise (from_errno Errno.eio))
          (λ type _.
            bind
              (invoke_lem kernel_of_nix (
                create_as os sys path uid gid (os.mknod path (sflag_of mode) (mode % 4096) rdev)
                  (os.unlink path)))
              (λ _ t2 g2 _.
                post_create_lookup_lem a d path name type (Has-Grows g2 (Has-Grows g1 h))))))

  pub symlink_at_lem :
      (a : ℕ) (name : Bytes) (link : FilePath) (uid gid : ℕ) {s : State W}
      → IsNode a s
      → Post FirstIsNode (Create.symlink_at os a name link uid gid) s
  unfolding Create.symlink_at
  symlink_at_lem a name link uid gid k = bind (get_dir_lem a k) (λ d t g h.
      bind (get_writable_path_lem d.state name) (λ path t1 g1 _.
        bind
          (invoke_lem (kernel_of_io os.from_i32)
            (create_as os io_of_errno path uid gid (os.symlink link path) (os.remove_file path)))
          (λ _ t2 g2 _.
            post_create_lookup_lem a d path name FileType.symlink (Has-Grows g2 (Has-Grows g1 h)))))
