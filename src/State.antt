-- ===== src/State.antt =====
-- The memory of a sandboxfs instance (src/lib.rs: `SandboxFS`, `IdGenerator`; the node types of
-- src/nodes), as one record that each operation maps to a new one. An `Arc` to a node is the
-- address of the node in `arena`; a node lives there as long as the instance.
pub mod Valid
pub mod Entries
pub mod Walk
use sandboxfs_rust.Base.{ℕ, Bool, Option, List, Bytes}
use sandboxfs_rust.Path.{FilePath}
use sandboxfs_rust.Attr.{FileType, FileAttr}

-- `Dirent`: the address of a node, and whether the entry is an explicit mapping.
pub record Dirent : Type 0 where
  pub node : ℕ
  pub explicit_mapping : Bool

abbrev pub Children : Type 0
Children = List (Bytes × Dirent)

pub record MutableDir : Type 0 where
  pub parent : ℕ
  pub underlying_path : Option FilePath
  pub attr : FileAttr
  pub children : Children

-- `MutableFile` and `MutableSymlink`
pub record MutableFile : Type 0 where
  pub underlying_path : Option FilePath
  pub attr : FileAttr

-- The three implementations of `Node`: the inode, whether the node is writable, and the state.
pub data Node : Type 0 where
  dir : ℕ → Bool → MutableDir → Node
  file : ℕ → Bool → MutableFile → Node
  symlink : ℕ → Bool → MutableFile → Node

-- `ReplyEntry`
pub record ReplyEntry : Type 0 where
  pub inode : ℕ
  pub fs_type : FileType
  pub name : Bytes

-- The two implementations of `Handle`. The shared state of the node is named by its address;
-- `OpenDir` has the inode, whether it is writable, that address, the descriptor and the pending
-- entries; `OpenFile` has the address and the descriptor.
pub data Handle : Type 0 where
  open_dir : ℕ → Bool → ℕ → Option ℕ → List ReplyEntry → Handle
  open_file : ℕ → ℕ → Handle

-- The two implementations of `Cache`.
pub data Cache : Type 0 where
  no_cache : Cache
  path_cache : List (FilePath × ℕ) → Cache

pub record State (W : Type 0) : Type 0 where
  pub world : W
  pub last_id : ℕ
  pub arena : ℕ → Option Node
  pub cache : Cache
  pub nodes : ℕ → Option ℕ
  pub handles : ℕ → Option Handle

-- `Node::inode` and `Node::writable`
abbrev pub inode_of : Node → ℕ
inode_of (dir i _ _) = i
inode_of (file i _ _) = i
inode_of (symlink i _ _) = i

abbrev pub writable_of : Node → Bool
writable_of (dir _ w _) = w
writable_of (file _ w _) = w
writable_of (symlink _ w _) = w
