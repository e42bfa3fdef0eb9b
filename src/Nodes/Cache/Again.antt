-- ===== src/Nodes/Cache/Again.antt =====
-- What the path cache of src/nodes/caches.rs still answers after other requests.
use sandboxfs_rust.Base.{ℕ, Bool, true, ◌≡◌, ◌≢◌, ◌⊎◌, nat_eq}
use sandboxfs_rust.Path.{FilePath}
use sandboxfs_rust.Attr.{Metadata, fs_is_dir}
use sandboxfs_rust.State.{State}
use sandboxfs_rust.Monad.{ok}
use sandboxfs_rust.Nodes.Cache.{get_or_create}

module _ (path : FilePath) (writable : Bool) where
  -- The request is for another path, for a directory, or for the same writability.
  abbrev pub Spares : FilePath → Metadata → Bool → Type 0
  Spares p attr w = (p ≢ path) ⊎ ((fs_is_dir attr.file_type ≡ true) ⊎ (w ≡ writable))

module _ {W : Type 0} (E : Type 0) where
  module _ (path : FilePath) (writable : Bool) where
    -- Requests to the cache, one after the other, none of which asks for the path with the other
    -- writability.
    pub data Asked (s : State W) : State W → Type 0 where
      not_yet : Asked s s
      then_ask :
          {t u : State W} (p : FilePath) (attr : Metadata) (w : Bool) (b : ℕ)
          → Asked s t
          → Spares path writable p attr w
          → get_or_create {W = W} {E = E} p attr w t ≡ (ok b, u)
          → Asked s u
