-- ===== src/Nodes/Handles.antt =====
-- Open handles: `open` and `OpenFile` of src/nodes/file.rs, `open` and `OpenDir` of
-- src/nodes/dir.rs. A reply to `readdir` is the list of what fits in its buffer.
pub mod Pages
pub mod Listed
use sandboxfs_rust.Base.{
  ℕ, zero, suc, ◌+◌, ◌-◌, ◌%◌, ◌^◌, Bool, not, ◌||◌, Option, none, some, List, [], ◌∷◌, ◌++◌, Bytes,
  bytes, nat_eq, list_eq, list_beq, ◌==◌, ltb, leb, length, take, drop, is_some, if◌then◌else◌,
}
use sandboxfs_rust.Base.Assoc.{get, insert}
use sandboxfs_rust.Path.{join_name}
use sandboxfs_rust.Errors.{Result, NixError, KernelError, kernel_of_nix}
use sandboxfs_rust.Attr.{FileType, FileAttr}
use sandboxfs_rust.Conv.{filetype_fs_to_fuse, flags_to_openoptions}
use sandboxfs_rust.Os.{Os}
use sandboxfs_rust.State.{
  Children, Node, dir, file, symlink, Handle, open_dir, open_file, ReplyEntry, inode_of,
}
use sandboxfs_rust.Monad.{
  M, ◌>>=◌, ◌>>◌, pure, raise, abort, gets, expect, debug_assert, fetch, store, lift, io, nix,
  invoke, unimplemented, reopened_deleted_file, handle_and_path_disagree, write_too_long,
  size_overflow,
}
use sandboxfs_rust.Nodes.Cache.{get_or_create}
use sandboxfs_rust.Nodes.Attrs.{file_type_of, attr_of, with_attr}
use sandboxfs_rust.Nodes.Dir.{get_dir, set_children, implicit}

module _ {W : Type 0} (os : Os W) where
  -- `Node::open` of the three types. A symlink leaves the default, which panics.
  unfoldable pub open_node : ℕ → ℕ → M W KernelError Handle
  unfolding fetch lift flags_to_openoptions invoke
  open_node a flags = do
    n ← fetch a
    elim n [
      | dir i w st ↦ elim (st.underlying_path) [
        | none ↦ pure (open_dir i w a none [])
        | some path ↦ do fd ← nix os (os.open_dir path flags); pure (open_dir i w a (some fd) [])
      ]
      | file i w st ↦ do
        options ← lift (flags_to_openoptions flags w)
        path ← expect st.underlying_path reopened_deleted_file
        fd ← io os (os.open_file options path)
        pure (open_file a fd)
      | symlink _ _ _ ↦ abort unimplemented
    ]

  -- `OpenFile::read`: at most `size` bytes.
  unfoldable pub read : ℕ → ℕ → ℕ → M W KernelError Bytes
  unfolding invoke
  read fd offset size = io os (os.read_at fd offset size)

  -- The size of a file after a write of `n` bytes at `offset`; u64 arithmetic.
  abbrev pub grown : ℕ → ℕ → FileAttr → FileAttr
  grown offset n attr =
      let new_size = (offset + n) % 2 ^ 64 in
      if ltb attr.size new_size then record attr { size = new_size } else attr

  -- `OpenFile::write`: the descriptor `fd` of the node at `a`. In a debug build the sum for the new
  -- size panics when it overflows.
  unfoldable pub write : ℕ → ℕ → ℕ → Bytes → M W KernelError ℕ
  unfolding invoke fetch store
  write a fd offset data_bytes = do
    let chunk =
        if ltb (2 ^ 32 - 1) (length data_bytes) then take (2 ^ 32 - 1) data_bytes else data_bytes
    n ← io os (os.write_at fd chunk offset)
    debug_assert os (leb n (2 ^ 32 - 1)) write_too_long
    debug_assert os (ltb (offset + n) (2 ^ 64)) size_overflow
    node ← fetch a
    store a (with_attr node (grown offset n (attr_of node)))
    pure (n % 2 ^ 32)

-- The entry of a reply for a known child.
abbrev pub entry_of : Node → Bytes → ReplyEntry
entry_of n name = record { inode = inode_of n; fs_type = file_type_of n; name = name }

abbrev pub dir_entry : ℕ → Bytes → ReplyEntry
dir_entry inode name = record { inode = inode; fs_type = FileType.directory; name = name }

module _ {W : Type 0} (os : Os W) where
  -- The first loop of `readdirall`: the explicit mappings.
  unfoldable pub mapped_entries : Children → M W KernelError (List ReplyEntry)
  unfolding fetch
  mapped_entries [] = pure []
  mapped_entries ((name, d) ∷ rest) =
      if d.explicit_mapping
      then (do n ← fetch d.node; entries ← mapped_entries rest; pure (entry_of n name ∷ entries))
      else mapped_entries rest

  -- The body of the second loop for a name on disk: what it adds to the reply.
  unfoldable pub disk_entry : ℕ → Bool → Bytes → M W KernelError (List ReplyEntry)
  unfolding get_dir get list_beq fetch invoke get_or_create set_children insert join_name
      filetype_fs_to_fuse
  disk_entry a writable name = do
    d ← get_dir a
    elim (get name d.state.children) [
      | some dirent ↦ do
        n ← fetch dirent.node
        pure (if dirent.explicit_mapping then [] else entry_of n name ∷ [])
      | none ↦ do
        underlying ← expect d.state.underlying_path handle_and_path_disagree
        let path = join_name underlying name
        fs_attr ← io os (os.symlink_metadata path)
        child ← get_or_create path fs_attr writable
        n ← fetch child
        set_children a (insert name (implicit child))
        pure (
            record {
              inode = inode_of n;
              fs_type = filetype_fs_to_fuse fs_attr.file_type;
              name = name;
            }
            ∷ [])
    ]

  -- The second loop: the entries on disk, but for the two dots.
  unfoldable pub disk_entries :
      ℕ → Bool → List (Result NixError Bytes) → M W KernelError (List ReplyEntry)
  unfolding disk_entry list_beq
  disk_entries a writable [] = pure []
  disk_entries a writable (Result.err e ∷ rest) = raise (kernel_of_nix e)
  disk_entries a writable (Result.ok name ∷ rest) =
      if (name == bytes ".") || (name == bytes "..") then disk_entries a writable rest else (do
        first ← disk_entry a writable name
        more ← disk_entries a writable rest
        pure (first ++ more))

  -- `OpenDir::readdirall`
  unfoldable pub readdirall : ℕ → Bool → ℕ → Option ℕ → M W KernelError (List ReplyEntry)
  unfolding get_dir mapped_entries disk_entries
  readdirall inode writable a handle = do
    d ← get_dir a
    mapped ← mapped_entries d.state.children
    let known = dir_entry inode (bytes ".") ∷ dir_entry d.state.parent (bytes "..") ∷ mapped
    elim handle [
      | none ↦ do
        debug_assert os (not (is_some d.state.underlying_path)) handle_and_path_disagree
        pure known
      | some fd ↦ do
        debug_assert os (is_some d.state.underlying_path) handle_and_path_disagree
        names ← gets (λ s. os.entries fd s.world)
        disk ← disk_entries a writable names
        pure (known ++ disk)
    ]

-- The loop of `OpenDir::readdir`: the entries from `offset` on, each with its own offset, until the
-- buffer is full. `room` is how many more entries the buffer takes.
unfoldable pub fill : ℕ → ℕ → List ReplyEntry → List (ℕ × ReplyEntry)
fill room offset [] = []
fill zero offset (e ∷ es) = []
fill (suc room) offset (e ∷ es) = (offset, e) ∷ fill room (offset + 1) es

-- The index of the first entry to return: 0 starts afresh, and any other offset is that of the last
-- entry which the kernel has.
abbrev pub start_of : ℕ → ℕ
start_of offset = if offset == 0 then 0 else offset + 1

-- The page of a directory stream that answers a request with the given offset.
unfoldable pub page : ℕ → ℕ → List ReplyEntry → List (ℕ × ReplyEntry)
unfolding fill
page room offset contents = fill room (start_of offset) (drop (start_of offset) contents)

module _ {W : Type 0} (os : Os W) where
  -- `OpenDir::readdir`: the new pending entries, and the page.
  unfoldable pub readdir :
      ℕ
      → Bool
      → ℕ
      → Option ℕ
      → List ReplyEntry
      → ℕ
      → ℕ
      → M W KernelError (List ReplyEntry × List (ℕ × ReplyEntry))
  unfolding readdirall page
  readdir inode writable a handle contents offset room = do
    contents ← (if offset == 0 then readdirall os inode writable a handle else pure contents)
    pure (contents, page room offset contents)
