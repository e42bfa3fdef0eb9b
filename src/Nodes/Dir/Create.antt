-- ===== src/Nodes/Dir/Create.antt =====
-- The operations of a directory that create or remove an entry, with `create_as` of src/lib.rs.
use sandboxfs_rust.Base.{
  ℕ, ◌*◌, ◌%◌, ◌/◌, Bool, true, false, not, Option, none, some, Bytes, ◌==◌, nat_eq, list_eq,
  list_beq, if◌then◌else◌,
}
use sandboxfs_rust.Base.Assoc.{get, remove}
use sandboxfs_rust.Path.{FilePath, file_name}
use sandboxfs_rust.Errors.{Result, IoError, NixError, sys, other, KernelError, from_errno}
use sandboxfs_rust.Errors.Errno
use sandboxfs_rust.Attr.{FileType, FileAttr, type_eq}
use sandboxfs_rust.Conv.{flags_to_openoptions}
use sandboxfs_rust.Os.{Os, Call}
use sandboxfs_rust.State.{Handle, open_file, dir, file, symlink}
use sandboxfs_rust.Monad.{
  M, ◌>>=◌, ◌>>◌, pure, raise, abort, expect, raise_if, debug_assert, on_error, fetch, attempt,
  invoke, lift, io, nix, unimplemented, unknown_entry, unmatched_name,
}
use sandboxfs_rust.Nodes.Attrs.{file_type_of}
use sandboxfs_rust.Nodes.Paths.{delete}
use sandboxfs_rust.Nodes.Dir.{Dir, get_dir, set_children, get_writable_path, lookup_locked}

-- `create_as` in src/lib.rs. An error of the change of owner wins over one of the cleanup.
abbrev chown_errno : NixError → ℕ
chown_errno (sys e) = e
chown_errno other = Errno.eio

unfoldable pub create_as :
    {W E A : Type 0}
    → Os W
    → (ℕ → E)
    → FilePath
    → ℕ
    → ℕ
    → Call W E A
    → Call W E (Unit {0})
    → Call W E A
create_as os of_errno path uid gid create cleanup w =
    let (r, w1) = create w in
    elim r [
      | Result.err e ↦ (Result.err e, w1)
      | Result.ok a ↦
          let (c, w2) = os.fchownat path (some uid) (some gid) w1 in
          elim c [
            | Result.ok _ ↦ (Result.ok a, w2)
            | Result.err e ↦
                let (_ignored, w3) = cleanup w2 in (Result.err (of_errno (chown_errno e)), w3)
          ]
    ]

abbrev pub io_of_errno : ℕ → IoError
io_of_errno e = record { raw_os_error = some e }

-- The file type bits of a mode (`S_IFMT`), and the type that `mknod` expects for them.
abbrev pub sflag_of : ℕ → ℕ
sflag_of mode = mode / 4096 % 16 * 4096

unfoldable pub exp_filetype : ℕ → Option FileType
exp_filetype sflag =
    if sflag == 0o060000
    then some FileType.block_device
    else if sflag == 0o020000
    then some FileType.char_device
    else if sflag == 0o010000
    then some FileType.named_pipe
    else if sflag == 0o100000
    then some FileType.regular_file
    else none

-- `path.file_name().unwrap() == name`
abbrev pub has_name : FilePath → Bytes → Bool
has_name path name = elim (file_name path) [ none ↦ false | some n ↦ n == name ]

module _ {W : Type 0} (os : Os W) where
  -- `Dir::post_create_lookup`. A file that cannot be looked up is removed again.
  unfoldable pub post_create_lookup :
      ℕ → Dir → FilePath → Bytes → FileType → M W KernelError (ℕ × FileAttr)
  unfolding lookup_locked attempt fetch file_name list_beq
  post_create_lookup a d path name exp_type = do
    debug_assert os (has_name path name) unmatched_name
    (node, attr) ←
        on_error (lookup_locked os a d name) (do _ignored ← attempt (os.remove_file path); pure tt)
    n ← fetch node
    raise_if (not (type_eq (file_type_of n) exp_type)) (from_errno Errno.eio)
    pure (node, attr)

  -- `Dir::remove_any`. That the child is known is the kernel's duty, which looks it up before.
  unfoldable pub remove_any :
      ℕ → Bytes → (FilePath → Call W IoError (Unit {0})) → M W KernelError (Unit {0})
  unfolding get_dir get_writable_path invoke get set_children remove delete list_beq
  remove_any a name remove_call = do
    d ← get_dir a
    path ← get_writable_path d.state name
    io os (remove_call path)
    entry ← expect (get name d.state.children) unknown_entry
    set_children a (remove name)
    delete os entry.node

  unfoldable pub unlink : ℕ → Bytes → M W KernelError (Unit {0})
  unfolding remove_any
  unlink a name = remove_any a name os.remove_file

  unfoldable pub rmdir : ℕ → Bytes → M W KernelError (Unit {0})
  unfolding remove_any
  rmdir a name = remove_any a name os.remove_dir

  -- `Node::handle_from`
  unfoldable pub handle_from : ℕ → ℕ → M W KernelError Handle
  unfolding fetch
  handle_from a fd = do
    n ← fetch a
    elim n [
      | dir _ _ _ ↦ abort unimplemented
      | file _ _ _ ↦ pure (open_file a fd)
      | symlink _ _ _ ↦ abort unimplemented
    ]

  unfoldable pub create : ℕ → Bytes → ℕ → ℕ → ℕ → ℕ → M W KernelError (ℕ × Handle × FileAttr)
  unfolding get_dir get_writable_path flags_to_openoptions lift create_as invoke post_create_lookup
      handle_from
  create a name uid gid mode flags = do
    d ← get_dir a
    path ← get_writable_path d.state name
    options ← lift (flags_to_openoptions flags d.writable)
    let options = record options { create = true; mode = some mode }
    fd ←
        io os
          (create_as os io_of_errno path uid gid (os.open_file options path) (os.remove_file path))
    (node, attr) ← post_create_lookup a d path name FileType.regular_file
    handle ← handle_from node fd
    pure (node, handle, attr)

  unfoldable pub mkdir : ℕ → Bytes → ℕ → ℕ → ℕ → M W KernelError (ℕ × FileAttr)
  unfolding get_dir get_writable_path create_as invoke post_create_lookup
  mkdir a name uid gid mode = do
    d ← get_dir a
    path ← get_writable_path d.state name
    io os (create_as os io_of_errno path uid gid (os.create_dir mode path) (os.remove_dir path))
    post_create_lookup a d path name FileType.directory

  unfoldable pub mknod : ℕ → Bytes → ℕ → ℕ → ℕ → ℕ → M W KernelError (ℕ × FileAttr)
  unfolding get_dir get_writable_path exp_filetype create_as invoke post_create_lookup
  mknod a name uid gid mode rdev = do
    d ← get_dir a
    path ← get_writable_path d.state name
    let sflag = sflag_of mode
    elim (exp_filetype sflag) [
      | none ↦ raise (from_errno Errno.eio)
      | some file_type ↦ do
        nix os (
            create_as os sys path uid gid (os.mknod path sflag (mode % 4096) rdev) (os.unlink path))
        post_create_lookup a d path name file_type
    ]

  unfoldable pub symlink_at : ℕ → Bytes → FilePath → ℕ → ℕ → M W KernelError (ℕ × FileAttr)
  unfolding get_dir get_writable_path create_as invoke post_create_lookup
  symlink_at a name link uid gid = do
    d ← get_dir a
    path ← get_writable_path d.state name
    io os (create_as os io_of_errno path uid gid (os.symlink link path) (os.remove_file path))
    post_create_lookup a d path name FileType.symlink
