-- ===== src/Nodes/Valid/Handles.antt =====
-- Open files and directories keep the memory valid.
use sandboxfs_rust.Base.{
  ℕ, ◌+◌, ◌%◌, ◌^◌, ◌-◌, Bool, not, ◌&&◌, ◌||◌, Option, none, some, List, [], ◌∷◌, ◌++◌, Bytes,
  bytes, refl, nat_eq, list_eq, ◌==◌, ltb, leb, length, take, is_some, if◌then◌else◌,
}
use sandboxfs_rust.Base.Assoc.{get}
use sandboxfs_rust.Path.{join_name}
use sandboxfs_rust.Errors.{Result, NixError, KernelError, kernel_of_io, kernel_of_nix}
use sandboxfs_rust.Conv.{filetype_fs_to_fuse, flags_to_openoptions}
use sandboxfs_rust.Os.{Os}
use sandboxfs_rust.State.{
  State, Children, Node, dir, file, symlink, Handle, open_dir, open_file, ReplyEntry, inode_of,
}
use sandboxfs_rust.State.Entries.{get-ChildrenKnown}
use sandboxfs_rust.State.Valid.{
  tag_of, is_directory, Is, Has, ChildrenKnown, HandleKnown, is_file, Is-Grows, ChildrenKnown-Grows,
}
use sandboxfs_rust.Monad.{
  M, ◌>>=◌, pure, abort, expect, lift, io, nix, unimplemented, reopened_deleted_file,
  handle_and_path_disagree, write_too_long, size_overflow,
}
use sandboxfs_rust.Monad.Keeps.{
  Post, Anything, Post-pure, Post-raise, Post-abort, Post-if, Post-option, bind, gets_lem,
  assert_lem, debug_assert_lem, expect_lem,
}
use sandboxfs_rust.Monad.Steps.{fetch_lem, invoke_lem, lift_lem}
use sandboxfs_rust.Nodes.Attrs.{attr_of}
use sandboxfs_rust.Nodes.Dir.{implicit}
use sandboxfs_rust.Nodes.Handles
use sandboxfs_rust.Nodes.Handles.{
  open_node, grown, entry_of, dir_entry, mapped_entries, disk_entry, disk_entries, readdirall, page,
}
use sandboxfs_rust.Nodes.Valid.{IsNode}
use sandboxfs_rust.Nodes.Valid.New.{get_or_create_lem}
use sandboxfs_rust.Nodes.Valid.Attrs.{store_attr_lem}
use sandboxfs_rust.Nodes.Valid.Dir.{get_dir_lem, insert_child_lem}

module _ {W : Type 0} (os : Os W) where
  open_it_lem :
      (a flags : ℕ) (n : Node) {s : State W}
      → Has s a n
      → Post {E = KernelError} {A = Handle}
          (λ handle t. HandleKnown t handle)
          (elim n as (λ _. M W KernelError Handle) [
            | dir i w st ↦ elim (st.underlying_path) [
              | none ↦ pure (open_dir i w a none [])
              | some path ↦ do
                fd ← nix os (os.open_dir path flags)
                pure (open_dir i w a (some fd) [])
            ]
            | file i w st ↦ do
              options ← lift (flags_to_openoptions flags w)
              path ← expect st.underlying_path reopened_deleted_file
              fd ← io os (os.open_file options path)
              pure (open_file a fd)
            | symlink _ _ _ ↦ abort unimplemented
          ])
          s
  open_it_lem a flags (dir i w st) {s} h =
      let known : Is s is_directory a = record {
        tag = tag_of (dir i w st);
        there = h.there;
        passes = refl;
      } in
      Post-option st.underlying_path (λ _. Post-pure (open_dir i w a none []) known)
        (λ path _.
          bind (invoke_lem kernel_of_nix (os.open_dir path flags))
            (λ fd t g _. Post-pure (open_dir i w a (some fd) []) (Is-Grows g known)))
  open_it_lem a flags (file i w st) {s} h =
      let known : Is s is_file a = record {
        tag = tag_of (file i w st);
        there = h.there;
        passes = refl;
      } in
      bind (lift_lem (flags_to_openoptions flags w)) (λ options t g _.
        bind (expect_lem st.underlying_path reopened_deleted_file tt) (λ path t1 g1 _.
          bind (invoke_lem (kernel_of_io os.from_i32) (os.open_file options path)) (λ fd t2 g2 _.
            Post-pure (open_file a fd) (Is-Grows g2 (Is-Grows g1 (Is-Grows g known))))))
  open_it_lem a flags (symlink i w st) h = Post-abort unimplemented tt

  pub open_node_lem :
      (a flags : ℕ) {s : State W}
      → IsNode a s
      → Post (λ handle t. HandleKnown t handle) (open_node os a flags) s
  unfolding open_node
  open_node_lem a flags k = bind (fetch_lem a k) (λ n t g (h, _). open_it_lem a flags n h)

  pub read_lem :
      (fd offset size : ℕ) {s : State W} → Post Anything (Handles.read os fd offset size) s
  unfolding Handles.read
  read_lem fd offset size = invoke_lem (kernel_of_io os.from_i32) (os.read_at fd offset size)

  pub write_lem :
      (a fd offset : ℕ) (content : Bytes) {s : State W}
      → Is s is_file a
      → Post Anything (Handles.write os a fd offset content) s
  unfolding Handles.write
  write_lem a fd offset content k =
      bind
        (invoke_lem (kernel_of_io os.from_i32) (
          os.write_at fd
            (if ltb (2 ^ 32 - 1) (length content) then take (2 ^ 32 - 1) content else content)
            offset))
        (λ n t g _. bind (debug_assert_lem os (leb n (2 ^ 32 - 1)) write_too_long tt) (λ _ t1 g1 _.
          bind (debug_assert_lem os (ltb (offset + n) (2 ^ 64)) size_overflow tt) (λ _ t2 g2 _.
            bind (fetch_lem a (Is-Grows g2 (Is-Grows g1 (Is-Grows g k)))) (λ node t3 g3 (h, _).
              bind (store_attr_lem a node (grown os offset n (attr_of node)) h)
                (λ _ _ _ _. Post-pure (n % 2 ^ 32) tt)))))

  mapped_entries_lem :
      (cs : Children) {s : State W} → ChildrenKnown s cs → Post Anything (mapped_entries os cs) s
  unfolding mapped_entries
  mapped_entries_lem [] k = Post-pure [] tt
  mapped_entries_lem ((name, d) ∷ rest) k =
      Post-if d.explicit_mapping
        (λ _. bind (fetch_lem d.node k.0) (λ n t g _.
          bind (mapped_entries_lem rest (ChildrenKnown-Grows g rest k.1))
            (λ es _ _ _. Post-pure (entry_of n name ∷ es) tt)))
        (λ _. mapped_entries_lem rest k.1)

  disk_entry_lem :
      (a : ℕ) (writable : Bool) (name : Bytes) {s : State W}
      → IsNode a s
      → Post Anything (disk_entry os a writable name) s
  unfolding disk_entry
  disk_entry_lem a writable name k = bind (get_dir_lem a k) (λ d t g h.
      Post-option (get name d.state.children)
        (λ _. bind (expect_lem d.state.underlying_path handle_and_path_disagree tt) (λ path t1 g1 _.
          bind (invoke_lem (kernel_of_io os.from_i32) (os.symlink_metadata (join_name path name)))
            (λ attr t2 g2 _.
              bind (get_or_create_lem (join_name path name) attr writable) (λ child t3 g3 known.
                bind (fetch_lem child known) (λ n t4 g4 _.
                  bind
                    (insert_child_lem a name (implicit child)
                      (Is-Grows g4 (Is-Grows g3 (Is-Grows g2 (Is-Grows g1 (Is-Grows g k)))))
                      (Is-Grows g4 known))
                    (λ _ _ _ _.
                      Post-pure
                        (record {
                          inode = inode_of n;
                          fs_type = filetype_fs_to_fuse attr.file_type;
                          name = name;
                        }
                          ∷ [])
                        tt))))))
        (λ dirent found.
          bind
            (fetch_lem dirent.node (get-ChildrenKnown t name d.state.children dirent h.below found))
            (λ n _ _ _.
              Post-pure (if dirent.explicit_mapping then [] else entry_of n name ∷ []) tt)))

  disk_entries_lem :
      (a : ℕ) (writable : Bool) (names : List (Result NixError Bytes)) {s : State W}
      → IsNode a s
      → Post Anything (disk_entries os a writable names) s
  unfolding disk_entries
  disk_entries_lem a writable [] k = Post-pure [] tt
  disk_entries_lem a writable (Result.err e ∷ rest) k = Post-raise (kernel_of_nix e)
  disk_entries_lem a writable (Result.ok name ∷ rest) k =
      Post-if ((name == bytes ".") || (name == bytes ".."))
        (λ _. disk_entries_lem a writable rest k)
        (λ _. bind (disk_entry_lem a writable name k) (λ first t g _.
          bind (disk_entries_lem a writable rest (Is-Grows g k))
            (λ more _ _ _. Post-pure (first ++ more) tt)))

  readdirall_lem :
      (inode : ℕ) (writable : Bool) (a : ℕ) (handle : Option ℕ) {s : State W}
      → IsNode a s
      → Post Anything (readdirall os inode writable a handle) s
  unfolding readdirall
  readdirall_lem inode writable a handle k = bind (get_dir_lem a k) (λ d t g h.
      bind (mapped_entries_lem d.state.children h.below) (λ mapped t1 g1 _.
        Post-option handle
          (λ _.
            bind
              (assert_lem (not (os.debug_assertions && not (not (is_some d.state.underlying_path))))
                handle_and_path_disagree (λ _. tt))
              (λ _ _ _ _.
                Post-pure
                  (dir_entry inode (bytes ".") ∷ dir_entry d.state.parent (bytes "..") ∷ mapped)
                  tt))
          (λ fd _.
            bind
              (assert_lem (not (os.debug_assertions && not (is_some d.state.underlying_path)))
                handle_and_path_disagree (λ _. tt))
              (λ _ t2 g2 _. bind (gets_lem (λ s. os.entries fd s.world)) (λ names t3 g3 _.
                bind
                  (disk_entries_lem a writable names
                    (Is-Grows g3 (Is-Grows g2 (Is-Grows g1 (Is-Grows g k)))))
                  (λ disk _ _ _.
                    Post-pure
                      ((dir_entry inode (bytes ".")
                          ∷ dir_entry d.state.parent (bytes "..")
                          ∷ mapped)
                        ++ disk)
                      tt))))))

  pub readdir_lem :
      (inode : ℕ) (writable : Bool) (a : ℕ) (handle : Option ℕ) (contents : List ReplyEntry)
      (offset room : ℕ) {s : State W}
      → IsNode a s
      → Post Anything (Handles.readdir os inode writable a handle contents offset room) s
  unfolding Handles.readdir
  readdir_lem inode writable a handle contents offset room k =
      bind
        (Post-if (offset == 0) (λ _. readdirall_lem inode writable a handle k)
          (λ _. Post-pure contents tt))
        (λ cs _ _ _. Post-pure (cs, page room offset cs) tt)
