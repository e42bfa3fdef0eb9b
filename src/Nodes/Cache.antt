-- ===== src/Nodes/Cache.antt =====
-- src/nodes/caches.rs: the two node factories, `NoCache` and `PathCache`. The methods dispatch on
-- the instance that the state holds.
pub mod Laws
pub mod Again
use sandboxfs_rust.Base.{ℕ, Bool, true, false, not, none, some, List, is_some, if◌then◌else◌}
use sandboxfs_rust.Base.Assoc.{get, insert, remove}
use sandboxfs_rust.Path.{FilePath, path_eq, path_beq}
use sandboxfs_rust.Attr.{FileType, Metadata, fs_is_dir, fs_is_symlink, is_dir}
use sandboxfs_rust.Os.{Os}
use sandboxfs_rust.State.{no_cache, path_cache, writable_of}
use sandboxfs_rust.Monad.{
  M, ◌>>=◌, ◌>>◌, pure, gets, expect, debug_assert, next, fetch, set_cache, directory_cached,
  unknown_cached_path,
}
use sandboxfs_rust.Nodes.New.{new_mapped_dir, new_mapped_file, new_mapped_symlink}

abbrev pub bool_eq : Bool → Bool → Bool
bool_eq true b = b
bool_eq false b = not b

abbrev pub Entries : Type 0
Entries = List (FilePath × ℕ)

module _ {W E : Type 0} where
  -- The part that both factories share: a new symlink or file.
  unfoldable pub new_leaf : FilePath → Metadata → Bool → M W E ℕ
  unfolding next new_mapped_file new_mapped_symlink
  new_leaf path attr writable = do
    inode ← next
    if fs_is_symlink attr.file_type
        then new_mapped_symlink inode path attr writable
        else new_mapped_file inode path attr writable

  unfoldable pub new_directory : FilePath → Metadata → Bool → M W E ℕ
  unfolding next new_mapped_dir
  new_directory path attr writable = do inode ← next; new_mapped_dir inode path attr writable

  -- Creates the node and puts it in the table, in place of any other at the path.
  unfoldable pub create_cached : Entries → FilePath → Metadata → Bool → M W E ℕ
  create_cached entries path attr writable = do
    node ← new_leaf path attr writable
    set_cache (path_cache (insert path node entries))
    pure node

  -- `PathCache::get_or_create` for what is no directory.
  unfoldable pub get_or_create_cached : Entries → FilePath → Metadata → Bool → M W E ℕ
  unfolding fetch
  get_or_create_cached entries path attr writable = elim (get path entries) [
    | none ↦ create_cached entries path attr writable
    | some a ↦ do
      node ← fetch a
      if bool_eq (writable_of node) writable
          then pure a
          else create_cached entries path attr writable
  ]

  unfoldable pub get_or_create : FilePath → Metadata → Bool → M W E ℕ
  get_or_create path attr writable = do
    cache ← gets (λ s. s.cache)
    if fs_is_dir attr.file_type then new_directory path attr writable else elim cache [
      | no_cache ↦ new_leaf path attr writable
      | path_cache entries ↦ get_or_create_cached entries path attr writable
    ]

  -- `Cache::delete`
  unfoldable pub cache_delete : Os W → FilePath → FileType → M W E (Unit {0})
  unfolding get remove path_beq
  cache_delete os path file_type = do
    cache ← gets (λ s. s.cache)
    elim cache [
      | no_cache ↦ pure tt
      | path_cache entries ↦
          if is_dir file_type
          then debug_assert os (not (is_some (get path entries))) directory_cached
          else (do
            _node ← expect (get path entries) unknown_cached_path
            set_cache (path_cache (remove path entries)))
    ]

  -- `Cache::rename`
  unfoldable pub cache_rename : Os W → FilePath → FilePath → FileType → M W E (Unit {0})
  unfolding get insert remove path_beq
  cache_rename os old_path new_path file_type = do
    cache ← gets (λ s. s.cache)
    elim cache [
      | no_cache ↦ pure tt
      | path_cache entries ↦
          if is_dir file_type
          then debug_assert os (not (is_some (get old_path entries))) directory_cached
          else (do
            node ← expect (get old_path entries) unknown_cached_path
            set_cache (path_cache (insert new_path node (remove old_path entries))))
    ]
