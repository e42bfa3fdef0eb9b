-- ===== src/Nodes/Dir/Move.antt =====
-- Renames: within one directory, and from one to another in two halves.
use sandboxfs_rust.Base.{ℕ, not, ◌==◌, nat_eq, list_eq, list_beq, Bytes}
use sandboxfs_rust.Base.Assoc.{get, insert, remove}
use sandboxfs_rust.Path.{FilePath}
use sandboxfs_rust.Errors.{KernelError, from_errno}
use sandboxfs_rust.Errors.Errno
use sandboxfs_rust.Os.{Os}
use sandboxfs_rust.State.{Dirent, dir, file, symlink, inode_of}
use sandboxfs_rust.Monad.{
  M, ◌>>=◌, ◌>>◌, raise, expect, debug_assert, on_error, fetch, invoke, io, unknown_entry,
  same_directory,
}
use sandboxfs_rust.Nodes.Paths.{set_underlying_path}
use sandboxfs_rust.Nodes.Dir.{get_dir, set_children, get_writable_path}

module _ {W : Type 0} (os : Os W) where
  unfoldable pub rename : ℕ → Bytes → Bytes → M W KernelError (Unit {0})
  unfolding get_dir get_writable_path invoke get set_children remove insert set_underlying_path
      list_beq
  rename a old_name new_name = do
    d ← get_dir a
    old_path ← get_writable_path d.state old_name
    new_path ← get_writable_path d.state new_name
    io os (os.rename old_path new_path)
    dirent ← expect (get old_name d.state.children) unknown_entry
    set_children a (remove old_name)
    set_underlying_path os dirent.node new_path
    set_children a (insert new_name dirent)

  -- Of the three types only a directory takes entries; the default fails.
  unfoldable pub rename_and_move_target : ℕ → Dirent → FilePath → Bytes → M W KernelError (Unit {0})
  unfolding fetch get_writable_path invoke set_children insert set_underlying_path list_beq
  rename_and_move_target a dirent old_path new_name = do
    n ← fetch a
    elim n [
      | file _ _ _ ↦ raise (from_errno Errno.enotdir)
      | symlink _ _ _ ↦ raise (from_errno Errno.enotdir)
      | dir _ _ st ↦ do
        new_path ← get_writable_path st new_name
        io os (os.rename old_path new_path)
        set_underlying_path os dirent.node new_path
        set_children a (insert new_name dirent)
    ]

  unfoldable pub rename_and_move_source : ℕ → Bytes → ℕ → Bytes → M W KernelError (Unit {0})
  unfolding get_dir fetch get_writable_path get set_children remove insert rename_and_move_target
      list_beq
  rename_and_move_source a old_name new_dir new_name = do
    d ← get_dir a
    n ← fetch new_dir
    debug_assert os (not (d.inode == inode_of n)) same_directory
    old_path ← get_writable_path d.state old_name
    dirent ← expect (get old_name d.state.children) unknown_entry
    set_children a (remove old_name)
    on_error (rename_and_move_target new_dir dirent old_path new_name)
        (set_children a (insert old_name dirent))
