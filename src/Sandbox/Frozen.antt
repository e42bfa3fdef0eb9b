-- ===== src/Sandbox/Frozen.antt =====
-- A node that is not writable stays so: the write gate over the whole life of an instance
-- (src/lib.rs).
use sandboxfs_rust.Base.{ℕ, Bool, true, some, ◌≡◌, ◌⊎◌}
use sandboxfs_rust.Errors.Errno
use sandboxfs_rust.Os.{Os}
use sandboxfs_rust.State.{State, symlink}
use sandboxfs_rust.Sandbox.Filesystem
use sandboxfs_rust.Sandbox.Filesystem.{
  Request, create, mkdir, mknod, rename, rmdir, unlink, setattr, setxattr, removexattr,
}
use sandboxfs_rust.Sandbox.Xattr
use sandboxfs_rust.Sandbox.Reach.{Steps}

-- The request changes the node with that inode: its attributes, or its entries. A rename from a
-- directory that is listed also changes the directory that it moves the entry to. `xattrs` says
-- whether extended attributes are enabled.
abbrev pub Changes : {W : Type 0} → Bool → State W → Request → ℕ → Type 0
Changes xattrs s (create p _ _ _ _ _) i = p ≡ i
Changes xattrs s (mkdir p _ _ _ _) i = p ≡ i
Changes xattrs s (mknod p _ _ _ _ _) i = p ≡ i
Changes xattrs s (Filesystem.symlink p _ _ _ _) i = p ≡ i
Changes xattrs s (rename p _ q _) i = (p ≡ i) ⊎ ((q ≡ i) × (b : ℕ) × (s.nodes p ≡ some b))
Changes xattrs s (rmdir p _) i = p ≡ i
Changes xattrs s (unlink p _) i = p ≡ i
Changes xattrs s (setattr p _ _ _ _ _ _) i = p ≡ i
Changes xattrs s (setxattr p _ _) i = (xattrs ≡ true) × (p ≡ i)
Changes xattrs s (removexattr p _) i = (xattrs ≡ true) × (p ≡ i)
Changes _ _ _ _ = ⊥
