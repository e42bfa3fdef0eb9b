-- ===== src/Lib.antt =====
-- sandboxfs: a FUSE file system that shows parts of the disk, the mappings, under paths of its own.
--
-- The parts of the program, and the modules that model them:
--
-- - Errors (src/errors.rs): errors for the kernel and errors of mappings. An error of another
--   library is its errno.
-- - Attr, Conv (src/nodes/conv.rs): attributes and time stamps, and their conversions between the
--   disk, FUSE and `nix`.
-- - State, Monad: the memory of an instance (`SandboxFS` and `IdGenerator` in src/lib.rs, the nodes
--   of src/nodes) and how an operation runs on it. An operation returns, fails or panics, and what
--   it has written stays written in every case. `IdGenerator::next` is Monad's `next`.
-- - Nodes (src/nodes): Setattr is src/nodes/mod.rs, Cache is src/nodes/caches.rs, New has the
--   constructors of the nodes, Attrs, Paths, Dir, Map and Handles have the operations of `Dir`,
--   `File` and `Symlink` (src/nodes/dir.rs, file.rs, symlink.rs), by what they are about: attributes,
--   removal and renaming, entries, mappings, open files and directories.
-- - Mapping (src/lib.rs): `Mapping`, `apply_mapping` and `create_root`.
-- - Sandbox (src/lib.rs): `SandboxFS`, with one operation for each request of the kernel, in
--   Sandbox.Filesystem the methods of `fuse::Filesystem` that reply to the kernel, and in
--   Sandbox.Reconfigure the sandboxes that a request adds and removes. Sandbox.Reach has the steps of
--   an instance: a request, a reconfiguration, or a change of the disk by another program.
-- - State.Valid, Monad.Keeps, Nodes.Valid and Sandbox.Valid: when the memory is valid, what it means
--   for an operation to keep it so, and the lemmas on this, by operation.
-- - State.Walk: the entries of directories by name and by path. Monad.Extending, Nodes.Valid.Grown,
--   Nodes.Map.Found, Mapping.Found and Sandbox.Mounted: what mappings add to the tree, from a new
--   node up to a whole instance.
-- - Reconfig (src/reconfig.rs): requests, the table of path prefixes, and how a request becomes a
--   call of a file system, which is any record of the two operations of `ReconfigurableFS`;
--   Sandbox.Reconfigure fills it. Reconfig.Loop is `run_loop_aux` with `respond`: the thread that
--   reads the requests and the workers of its pool, as steps in any order, and in
--   Reconfig.Loop.OneWorker with one worker.
-- - Cli (src/main.rs): the parsers of flags. Startup (src/main.rs): `safe_main` and `main`, over the
--   services they call. Profiling (src/profiling.rs): `ScopedProfiler`.
-- - Concurrent (src/concurrent.rs): Shareable has `ShareableFile` and its readers, Signals has
--   `SignalsInstaller` and the part of `mount` that makes the session under it. Unmount:
--   `retry_unmount`. Run is how these operations run.
-- - Mount (`mount` in src/lib.rs, `SignalsHandler` in src/concurrent.rs): the main thread from the
--   session on, the thread that reads reconfigurations and the one that waits for a signal, as steps
--   in any order.
-- - Path, Os: `std::path`, and a record of the calls of the system and of other libraries.
-- - Base: the names, tests and lemmas that all of them share. Tests: a small system to run on.
--
-- A request of the kernel names a node by its inode. Sandbox finds the node's address in the table of
-- nodes, refuses a change of a node that is not writable, and calls the node's operation, which asks
-- the system (Os), changes the node's state, and may create nodes through the cache. A
-- reconfiguration passes through Reconfig and Sandbox.Reconfigure to Nodes.Map.
--
-- How the model stands for the code:
--
-- - An `Arc` to a node is the address of the node in an arena, so two holders of one node see the
--   same state. A node's address is its inode.
-- - A `HashMap` is an association list or a function. A string of the system is a list of bytes. A
--   path is whether it has a root, and its components.
-- - Nodes are locked by mutexes in the source, and FUSE serializes its requests, so an operation here
--   runs by itself. A worker of the loop handles a request in one step and answers it in another:
--   runs in which two workers are inside the file system at one time are not modelled, nor is waiting
--   for a lock. The loop of reconfigurations in `mount` waits for the end of its input, or for its
--   being dropped. A reply buffer is the number of entries that it takes. The entries of a directory
--   stream are a list that is read in order.
-- - Debug assertions panic where the system's record says that they are on. Widths are those of a
--   64-bit machine. The conversion of a time to nanoseconds wraps around, as in a release build. The
--   nanoseconds of a time stamp are not negative.
-- - Fuel: renaming and unmapping walk the tree of nodes, with one unit for each level. The fuel is
--   one more than the counter of inodes, so no less than the number of nodes, and no path down a
--   tree is longer than that.
-- - Results of other libraries are parameters: the system's calls, the sums of `nix`'s time types,
--   the texts that `Display` writes.
--
-- Not modelled: logging, JSON, the parsing of options, the texts of usage and version, the thread
-- pool and the FUSE session, which are the work of other libraries; the process that one attempt to
-- unmount runs, and the start of the threads in `mount`, whose failure ends it; the helpers of tests
-- (src/testutils.rs), build.rs, the scripts under admin and the Go tests under integration.
pub mod Base
pub mod Path
pub mod Errors
pub mod Attr
pub mod Conv
pub mod Os
pub mod State
pub mod Monad
pub mod Run
pub mod Nodes
pub mod Mapping
pub mod Reconfig
pub mod Sandbox
pub mod Cli
pub mod Profiling
pub mod Startup
pub mod Unmount
pub mod Concurrent
pub mod Mount
pub mod Tests
