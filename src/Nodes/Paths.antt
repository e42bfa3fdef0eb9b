-- ===== src/Nodes/Paths.antt =====
-- `Node::delete` and `Node::set_underlying_path` of the three types of node: what becomes of a node
-- and of the cache when its file is removed or renamed (src/nodes/dir.rs, file.rs, symlink.rs).
pub mod Links
use sandboxfs_rust.Base.{ℕ, zero, suc, ◌+◌, ◌-◌, ◌%◌, ◌^◌, none, some, [], ◌∷◌, leb}
use sandboxfs_rust.Path.{FilePath, join_name}
use sandboxfs_rust.Os.{Os}
use sandboxfs_rust.State.{Children, Node, dir, file, symlink}
use sandboxfs_rust.Attr.{FileAttr}
use sandboxfs_rust.Monad.{
  M, ◌>>=◌, ◌>>◌, pure, abort, gets, expect, debug_assert, fetch, store, deleted_twice,
  renamed_deleted_node, link_count, out_of_fuel,
}
use sandboxfs_rust.Nodes.Cache.{cache_delete, cache_rename}

-- `nlink -= k` on a u32, which wraps around in a release build.
abbrev pub sub_links : ℕ → FileAttr → FileAttr
sub_links k attr = record attr { nlink = (attr.nlink + 2 ^ 32 - k) % 2 ^ 32 }

module _ {W E : Type 0} (os : Os W) where
  -- `delete` of `Dir`, `File` and `Symlink`, with the node at its address.
  unfoldable pub delete_node : ℕ → Node → M W E (Unit {0})
  unfolding cache_delete store
  delete_node a (dir i w st) = do
    path ← expect st.underlying_path deleted_twice
    cache_delete os path st.attr.kind
    debug_assert os (leb 2 st.attr.nlink) link_count
    store a (dir i w (record st { underlying_path = none; attr = sub_links 2 st.attr }))
  delete_node a (file i w st) = do
    path ← expect st.underlying_path deleted_twice
    cache_delete os path st.attr.kind
    debug_assert os (leb 1 st.attr.nlink) link_count
    store a (file i w (record st { underlying_path = none; attr = sub_links 1 st.attr }))
  delete_node a (symlink i w st) = do
    path ← expect st.underlying_path deleted_twice
    cache_delete os path st.attr.kind
    store a (symlink i w (record st { underlying_path = none }))

  unfoldable pub delete : ℕ → M W E (Unit {0})
  unfolding fetch delete_node
  delete a = do n ← fetch a; delete_node a n

  -- The loop of `Dir::set_underlying_path` over the children, with the recursive call as `rec`.
  unfoldable pub rename_children :
      (ℕ → FilePath → M W E (Unit {0})) → FilePath → Children → M W E (Unit {0})
  unfolding join_name
  rename_children rec path [] = pure tt
  rename_children rec path ((name, d) ∷ rest) = do
    rec d.node (join_name path name)
    rename_children rec path rest

  -- `set_underlying_path` of the three types, with the recursive call for the children as `rec`.
  -- The links of a symlink are taken off here, and not by `delete`.
  unfoldable pub rename_node :
      (ℕ → FilePath → M W E (Unit {0})) → ℕ → FilePath → Node → M W E (Unit {0})
  unfolding cache_rename store rename_children
  rename_node rec a path (dir i w st) = do
    old ← expect st.underlying_path renamed_deleted_node
    cache_rename os old path st.attr.kind
    store a (dir i w (record st { underlying_path = some path }))
    rename_children rec path st.children
  rename_node rec a path (file i w st) = do
    old ← expect st.underlying_path renamed_deleted_node
    cache_rename os old path st.attr.kind
    store a (file i w (record st { underlying_path = some path }))
  rename_node rec a path (symlink i w st) = do
    old ← expect st.underlying_path renamed_deleted_node
    cache_rename os old path st.attr.kind
    debug_assert os (leb 1 st.attr.nlink) link_count
    store a (symlink i w (record st { underlying_path = some path; attr = sub_links 1 st.attr }))

  unfoldable pub rename_walk : ℕ → ℕ → FilePath → M W E (Unit {0})
  unfolding fetch rename_node
  rename_walk zero a path = abort out_of_fuel
  rename_walk (suc fuel) a path = do n ← fetch a; rename_node (rename_walk fuel) a path n

  -- `Node::set_underlying_path`. A walk down the tree is no deeper than there are nodes.
  unfoldable pub set_underlying_path : ℕ → FilePath → M W E (Unit {0})
  unfolding rename_walk
  set_underlying_path a path = do nodes ← gets (λ s. s.last_id); rename_walk (suc nodes) a path
