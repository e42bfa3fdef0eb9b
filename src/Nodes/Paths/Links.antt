-- ===== src/Nodes/Paths/Links.antt =====
-- The number of links of a node that is removed or renamed (src/nodes/file.rs and symlink.rs).
use sandboxfs_rust.Base.{ℕ, Bool, some, ◌≡◌}
use sandboxfs_rust.Path.{FilePath}
use sandboxfs_rust.Os.{Os}
use sandboxfs_rust.State.{State, MutableFile, symlink, no_cache}
use sandboxfs_rust.Monad.{update}
use sandboxfs_rust.Nodes.Paths.{sub_links}

module _ {W : Type 0} (a i : ℕ) (w : Bool) where
  -- The memory after the rename of a symlink.
  abbrev renamed : MutableFile → FilePath → State W → State W
  renamed st q s = record s {
    arena =
        update s.arena a
          (some (symlink i w (record st { underlying_path = some q; attr = sub_links 1 st.attr })));
  }

  abbrev IsSymlink : MutableFile → FilePath → State W → Type 0
  IsSymlink st p s =
      (s.arena a ≡ some (symlink i w st)) × (st.underlying_path ≡ some p) × (s.cache ≡ no_cache)
