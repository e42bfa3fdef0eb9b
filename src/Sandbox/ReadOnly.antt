-- ===== src/Sandbox/ReadOnly.antt =====
-- The write gate of src/lib.rs: what the kernel asks of a node that is not writable.
use sandboxfs_rust.Base.{◌≡◌}
use sandboxfs_rust.Errors.{KernelError, from_errno}
use sandboxfs_rust.Errors.Errno
use sandboxfs_rust.Os.{Os}
use sandboxfs_rust.State.{State}
use sandboxfs_rust.Monad.{M, err}

-- The operation fails with `EPERM` and changes neither the memory nor the world.
abbrev pub Refused : {W A : Type 0} → M W KernelError A → State W → Type 0
Refused m s = m s ≡ (err (from_errno Errno.eperm), s)
