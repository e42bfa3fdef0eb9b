-- ===== src/Nodes/Valid.antt =====
-- The operations of src/nodes keep the memory valid. Here those of the caches on what is deleted or
-- renamed.
pub mod New
pub mod Grown
pub mod Paths
pub mod Attrs
pub mod Dir
pub mod Create
pub mod Move
pub mod Map
pub mod Handles
use mathlib.Core.Path.{subst}
use sandboxfs_rust.Base.{
  ℕ, zero, suc, ◌<◌, Bool, true, false, not, ◌&&◌, Option, none, some, List, [], ◌∷◌, Bytes, ◌≡◌,
  refl, sym, ap, ◌∙◌, arith, is_some, unwrap_or, if◌then◌else◌,
}
use sandboxfs_rust.Base.Assoc.{get, insert, remove}
use sandboxfs_rust.Path.{FilePath, path_eq}
use sandboxfs_rust.Attr.{
  FileType, FsType, FileAttr, Timespec, Metadata, fs_is_dir, fs_is_symlink, is_dir,
}
use sandboxfs_rust.Os.{Os, Call}
use sandboxfs_rust.State.{
  State, Children, MutableDir, Node, dir, file, symlink, Cache, no_cache, path_cache, inode_of,
  writable_of,
}
use sandboxfs_rust.State.Entries.{
  insert-EntriesKnown, get-EntriesKnown, remove-EntriesKnown, get-ChildrenKnown,
  insert-ChildrenKnown, remove-ChildrenKnown,
}
use sandboxfs_rust.State.Valid.{
  Tag, tag_of, tag_at, any, is_directory, is_file, Kind, Is, Has, ChildrenKnown, EntriesKnown,
  CacheKnown, Is-Grows, Has-Grows, Grows-refl, EntriesKnown-Grows, CacheKnown-Grows,
  ChildrenKnown-Grows, children_of,
}
use sandboxfs_rust.Monad.{
  M, pure, gets, store, fetch, next, expect, debug_assert, directory_cached, unknown_cached_path,
  set_cache, wrong_type_for_node, ◌>>=◌, ◌>>◌,
}
use sandboxfs_rust.Monad.Keeps.{
  Post, Anything, Post-pure, Post-raise, Post-abort, Post-if, Post-mono, Post-weaken, bind,
  gets_lem, assert_lem, raise_if_lem, expect_lem, with_valid, IsExpected,
}
use sandboxfs_rust.Monad.Steps.{
  IsFresh, fetch_lem, next_lem, store_lem, rewrite_lem, set_cache_lem, invoke_lem,
}
use sandboxfs_rust.Nodes.New.{
  empty_dir, mapped_dir, mapped_file, supports_type, new_empty, new_mapped_dir, new_mapped_file,
  new_mapped_symlink,
}
use sandboxfs_rust.Nodes.Cache.{
  Entries, bool_eq, new_leaf, new_directory, create_cached, get_or_create_cached, get_or_create,
  cache_delete, cache_rename,
}

-- The result is the address of a node.
abbrev pub IsNode : {W : Type 0} → ℕ → State W → Type 0
IsNode a s = Is s any a

module _ {W E : Type 0} where
  known_cache : {s : State W} → Post {E = E} (λ c t. CacheKnown t c) (gets (λ s. s.cache)) s
  known_cache = with_valid λ v. record { holds = λ _. (v, Grows-refl, v.cached) }

module _ {W E : Type 0} (os : Os W) where
  pub cache_delete_lem :
      (path : FilePath) (t : FileType) {s : State W}
      → Post {E = E} Anything (cache_delete os path t) s
  unfolding cache_delete
  cache_delete_lem path type {s} = bind known_cache (λ c t g known. go c t known)
    where
      go :
          (c : Cache) (t : State W)
          → CacheKnown t c
          → Post {E = E} Anything
              (elim c [
                | no_cache ↦ pure tt
                | path_cache entries ↦
                    if is_dir type
                    then debug_assert os (not (is_some (get path entries))) directory_cached
                    else (do
                      _node ← expect (get path entries) unknown_cached_path
                      set_cache (path_cache (remove path entries)))
              ])
              t
      go no_cache t k = Post-pure tt tt
      go (path_cache es) t k =
          Post-if (is_dir type)
            (λ _.
              Post-mono (λ _ _ _. tt)
                (assert_lem (not (os.debug_assertions && not (not (is_some (get path es)))))
                  directory_cached (λ _. tt)))
            (λ _. bind (expect_lem (get path es) unknown_cached_path tt) (λ a u g _.
              set_cache_lem (path_cache (remove path es))
                (remove-EntriesKnown u path es (EntriesKnown-Grows g es k))))

  pub cache_rename_lem :
      (old new : FilePath) (t : FileType) {s : State W}
      → Post {E = E} Anything (cache_rename os old new t) s
  unfolding cache_rename
  cache_rename_lem old new type {s} = bind known_cache (λ c t g known. go c t known)
    where
      go :
          (c : Cache) (t : State W)
          → CacheKnown t c
          → Post {E = E} Anything
              (elim c [
                | no_cache ↦ pure tt
                | path_cache entries ↦
                    if is_dir type
                    then debug_assert os (not (is_some (get old entries))) directory_cached
                    else (do
                      node ← expect (get old entries) unknown_cached_path
                      set_cache (path_cache (insert new node (remove old entries))))
              ])
              t
      go no_cache t k = Post-pure tt tt
      go (path_cache es) t k =
          Post-if (is_dir type)
            (λ _.
              Post-mono (λ _ _ _. tt)
                (assert_lem (not (os.debug_assertions && not (not (is_some (get old es)))))
                  directory_cached (λ _. tt)))
            (λ _. bind (expect_lem (get old es) unknown_cached_path tt) (λ a u g (found, _).
              let known = EntriesKnown-Grows g es k in
              set_cache_lem (path_cache (insert new a (remove old es))) (
                insert-EntriesKnown u new a (remove old es)
                  (get-EntriesKnown u old es a known found) (remove-EntriesKnown u old es known))))
