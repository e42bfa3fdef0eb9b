-- ===== src/Nodes/Valid/Move.antt =====
-- Renames keep the memory valid.
use sandboxfs_rust.Base.{ℕ, true, not, ◌&&◌, Bytes, ◌≡◌, ◌≢◌, arith, ◌==◌, nat_eq, list_eq}
use sandboxfs_rust.Base.Assoc.{get, insert}
use sandboxfs_rust.Path.{FilePath}
use sandboxfs_rust.Errors.{KernelError, from_errno, kernel_of_io}
use sandboxfs_rust.Errors.Errno
use sandboxfs_rust.Os.{Os}
use sandboxfs_rust.State.{State, Dirent, Node, dir, file, symlink, inode_of}
use sandboxfs_rust.State.Entries.{get-ChildrenKnown}
use sandboxfs_rust.State.Valid.{Has, Is-Grows, Has-Grows}
use sandboxfs_rust.Monad.{M, ◌>>=◌, ◌>>◌, raise, io, unknown_entry, same_directory}
use sandboxfs_rust.Monad.Keeps.{
  Post, Anything, Post-raise, bind, with_valid, assert_lem, expect_lem, on_error_lem,
}
use sandboxfs_rust.Monad.Steps.{fetch_lem, invoke_lem, inode_of-Has}
use sandboxfs_rust.Nodes.Paths.{set_underlying_path}
use sandboxfs_rust.Nodes.Dir.{set_children, get_writable_path}
use sandboxfs_rust.Nodes.Dir.Move
use sandboxfs_rust.Nodes.Dir.Move.{rename_and_move_target}
use sandboxfs_rust.Nodes.Valid.{IsNode}
use sandboxfs_rust.Nodes.Valid.Paths.{set_underlying_path_lem}
use sandboxfs_rust.Nodes.Valid.Dir.{
  node_of, Has-IsNode, get_dir_lem, insert_child_lem, remove_child_lem, get_writable_path_lem,
}

module _ {W : Type 0} (os : Os W) where
  pub rename_lem :
      (a : ℕ) (old_name new_name : Bytes) {s : State W}
      → IsNode a s
      → Post Anything (Move.rename os a old_name new_name) s
  unfolding Move.rename
  rename_lem a old_name new_name k = bind (get_dir_lem a k) (λ d t g h.
      bind (get_writable_path_lem d.state old_name) (λ old_path t1 g1 _.
        bind (get_writable_path_lem d.state new_name) (λ new_path t2 g2 _.
          bind (invoke_lem (kernel_of_io os.from_i32) (os.rename old_path new_path)) (λ _ t3 g3 _.
            bind (expect_lem (get old_name d.state.children) unknown_entry tt)
              (λ dirent t4 g4 (found, _).
                let child = Is-Grows g4 (
                  Is-Grows g3 (
                    Is-Grows g2 (
                      Is-Grows g1
                        (get-ChildrenKnown t old_name d.state.children dirent h.below found)))) in
                let here = Is-Grows g4 (Is-Grows g3 (Is-Grows g2 (Is-Grows g1 (Is-Grows g k)))) in
                bind (remove_child_lem a old_name here) (λ _ t5 g5 _.
                  bind (set_underlying_path_lem os dirent.node new_path (Is-Grows g5 child))
                    (λ _ t6 g6 _.
                      insert_child_lem a new_name dirent (Is-Grows g6 (Is-Grows g5 here))
                        (Is-Grows g6 (Is-Grows g5 child)))))))))

  move_into_lem :
      (a : ℕ) (n : Node) (dirent : Dirent) (old_path : FilePath) (new_name : Bytes) {s : State W}
      → Has s a n
      → IsNode dirent.node s
      → Post {E = KernelError} {A = Unit {0}} Anything
          (elim n as (λ _. M W KernelError (Unit {0})) [
            | file _ _ _ ↦ raise (from_errno Errno.enotdir)
            | symlink _ _ _ ↦ raise (from_errno Errno.enotdir)
            | dir _ _ st ↦ do
              new_path ← get_writable_path st new_name
              io os (os.rename old_path new_path)
              set_underlying_path os dirent.node new_path
              set_children a (insert new_name dirent)
          ])
          s
  move_into_lem a (dir i w st) dirent old_path new_name h child =
      bind (get_writable_path_lem st new_name) (λ new_path t g _.
        bind (invoke_lem (kernel_of_io os.from_i32) (os.rename old_path new_path)) (λ _ t1 g1 _.
          bind (set_underlying_path_lem os dirent.node new_path (Is-Grows g1 (Is-Grows g child)))
            (λ _ t2 g2 _.
              insert_child_lem a new_name dirent
                (Is-Grows g2 (Is-Grows g1 (Is-Grows g (Has-IsNode h))))
                (Is-Grows g2 (Is-Grows g1 (Is-Grows g child))))))
  move_into_lem a (file i w st) dirent old_path new_name h child =
      Post-raise (from_errno Errno.enotdir)
  move_into_lem a (symlink i w st) dirent old_path new_name h child =
      Post-raise (from_errno Errno.enotdir)

  rename_and_move_target_lem :
      (a : ℕ) (dirent : Dirent) (old_path : FilePath) (new_name : Bytes) {s : State W}
      → IsNode a s
      → IsNode dirent.node s
      → Post Anything (rename_and_move_target os a dirent old_path new_name) s
  unfolding rename_and_move_target
  rename_and_move_target_lem a dirent old_path new_name k child =
      bind (fetch_lem a k)
        (λ n t g (h, _). move_into_lem a n dirent old_path new_name h (Is-Grows g child))

  differ :
      (a b i j : ℕ) → i ≡ a → j ≡ b → a ≢ b → not (os.debug_assertions && not (not (i == j))) ≡ true
  differ a b i j p q r = ground (arith, r)

  pub rename_and_move_source_lem :
      (a : ℕ) (old_name : Bytes) (b : ℕ) (new_name : Bytes) {s : State W}
      → IsNode a s
      → IsNode b s
      → a ≢ b
      → Post Anything (Move.rename_and_move_source os a old_name b new_name) s
  unfolding Move.rename_and_move_source
  rename_and_move_source_lem a old_name b new_name k k' other = bind (get_dir_lem a k) (λ d t g h.
      bind (fetch_lem b (Is-Grows g k')) (λ n t1 g1 (h', _). with_valid λ v.
        let apart =
          differ a b d.inode (inode_of n) (inode_of-Has t1 v a (node_of d) (Has-Grows g1 h))
            (inode_of-Has t1 v b n h') other in
        bind
          (assert_lem (not (os.debug_assertions && not (not (d.inode == inode_of n))))
            same_directory (λ wrong. ground arith))
          (λ _ t2 g2 _. bind (get_writable_path_lem d.state old_name) (λ old_path t3 g3 _.
            bind (expect_lem (get old_name d.state.children) unknown_entry tt)
              (λ dirent t4 g4 (found, _).
                let child = Is-Grows g4 (
                  Is-Grows g3 (
                    Is-Grows g2 (
                      Is-Grows g1
                        (get-ChildrenKnown t old_name d.state.children dirent h.below found)))) in
                let here = Is-Grows g4 (Is-Grows g3 (Is-Grows g2 (Is-Grows g1 (Is-Grows g k)))) in
                let there = Is-Grows g4 (Is-Grows g3 (Is-Grows g2 (Is-Grows g1 (Is-Grows g k')))) in
                bind (remove_child_lem a old_name here) (λ _ t5 g5 _.
                  on_error_lem
                    (rename_and_move_target_lem b dirent old_path new_name (Is-Grows g5 there)
                      (Is-Grows g5 child))
                    (λ t6 g6.
                      insert_child_lem a old_name dirent (Is-Grows g6 (Is-Grows g5 here))
                        (Is-Grows g6 (Is-Grows g5 child)))))))))
