-- ===== src/Sandbox/Reach.antt =====
-- What holds of an instance from its creation on, whatever the kernel and the reconfigurations ask
-- for and in whatever order, and whatever other programs do to the disk in between (src/lib.rs).
use sandboxfs_rust.Base.{Bool, List, [], Bytes, ◌≡◌, sym, arith}
use mathlib.Core.Path.{subst}
use sandboxfs_rust.Attr.{Timespec}
use sandboxfs_rust.Errors.{Failure}
use sandboxfs_rust.Os.{Os}
use sandboxfs_rust.State.{State, Cache, no_cache, path_cache}
use sandboxfs_rust.State.Valid.{
  CacheKnown, EntriesKnown, IsValid, Grows, Grows-refl, Grows-trans, Is-Grows,
}
use sandboxfs_rust.Monad.{Outcome, ok, err, panic, Panic}
use sandboxfs_rust.Monad.Keeps.{Holds, IsExpected, Anything}
use sandboxfs_rust.Monad.Steps.{moved-IsValid}
use sandboxfs_rust.Nodes.Valid.{IsNode}
use sandboxfs_rust.Mapping.{Mapping}
use sandboxfs_rust.Sandbox.{fuse_root_id, initial, create_fs}
use sandboxfs_rust.Sandbox.Creation.{create_fs_lem, create_sandbox_lem, destroy_sandbox_lem}
use sandboxfs_rust.Sandbox.Reconfigure.{create_sandbox, destroy_sandbox}
use sandboxfs_rust.Sandbox.Filesystem.{Request, handle}
use sandboxfs_rust.Sandbox.Replies.{handle_lem}

-- A result, not a panic.
abbrev pub Returns : {E A : Type 0} → Outcome E A → Type 0
Returns (ok a) = Unit
Returns (err e) = Unit
Returns (panic p) = ⊥

-- A cache as it is at first.
abbrev pub IsEmpty : Cache → Type 0
IsEmpty no_cache = Unit
IsEmpty (path_cache entries) = entries ≡ []

-- The instance as `mount` has created it.
pub record IsCreated {W : Type 0} (os : Os W) (s : State W) : Type 0 where
  pub world : W
  pub cache : Cache
  pub mappings : List Mapping
  pub empty : IsEmpty cache
  pub created : create_fs os mappings (initial world cache) ≡ (ok tt, s)

module _ {W : Type 0} where
  pub initial-IsValid : (w : W) (c : Cache) → IsEmpty c → IsValid (initial w c)
  initial-IsValid w c e = record {
    own = λ a n h. absurd (ground arith);
    named = λ i a h. absurd (ground arith);
    opened = λ fh h e'. absurd (ground arith);
    cached = empty_known c e;
  }
    where
      empty_known : (c : Cache) → IsEmpty c → CacheKnown (initial w c) c
      empty_known no_cache e = tt
      empty_known (path_cache es) e = subst (EntriesKnown (initial w (path_cache es))) (sym e) tt

module _ {W : Type 0} (os : Os W) where
  pub IsCreated-IsValid : {s : State W} → IsCreated os s → IsValid s × IsNode fuse_root_id s
  IsCreated-IsValid {s} c =
      let h = (create_fs_lem os c.mappings).holds (initial-IsValid c.world c.cache c.empty) in
      let (v, _, k) : Holds {E = Failure} (initial c.world c.cache) (λ _ t. IsNode fuse_root_id t)
          (ok tt) s =
        subst (λ r. Holds (initial c.world c.cache) (λ _ t. IsNode fuse_root_id t) r.0 r.1)
          c.created h in
      (v, k)

module _ {W : Type 0} (os : Os W) (ttl : Timespec) (xattrs : Bool) where
  -- One request that is answered, one reconfiguration that ends, or a change of the disk.
  pub data Step (s : State W) : State W → Type 0 where
    answer :
        (r : Request) → Returns (handle os ttl xattrs r s).0 → Step s (handle os ttl xattrs r s).1
    add :
        (id : Bytes) (ms : List Mapping)
        → Returns (create_sandbox os fuse_root_id id ms s).0
        → Step s (create_sandbox os fuse_root_id id ms s).1
    drop :
        (id : Bytes)
        → Returns (destroy_sandbox os fuse_root_id id s).0
        → Step s (destroy_sandbox os fuse_root_id id s).1
    disk : (w : W) → Step s (record s { world = w })

  pub data Steps (s : State W) : State W → Type 0 where
    here : Steps s s
    then_step : {t u : State W} → Steps s t → Step t u → Steps s u

  Holds-Returns :
      {E A : Type 0} (s t : State W) (r : Outcome E A)
      → Returns r
      → Holds s Anything r t
      → IsValid t × Grows s t
  Holds-Returns s t (ok a) q (v, g, _) = (v, g)
  Holds-Returns s t (err e) q h = h
  Holds-Returns s t (panic _) q h = elim q [ ]

  Step-IsValid :
      {s t : State W} → Step s t → IsNode fuse_root_id s → IsValid s → IsValid t × Grows s t
  Step-IsValid {s} (answer r q) k v = Holds-Returns s _ _ q ((handle_lem os ttl xattrs r).holds v)
  Step-IsValid {s} (add id ms q) k v =
      Holds-Returns s _ _ q ((create_sandbox_lem os fuse_root_id id ms k).holds v)
  Step-IsValid {s} (drop id q) k v =
      Holds-Returns s _ _ q ((destroy_sandbox_lem os fuse_root_id id k).holds v)
  Step-IsValid {s} (disk w) k v =
      (moved-IsValid s v w s.last_id (omega arith), record { ids = omega arith; tags = λ a t e. e })

  Steps-IsValid :
      {s t : State W} → Steps s t → IsNode fuse_root_id s → IsValid s → IsValid t × Grows s t
  Steps-IsValid here k v = (v, Grows-refl)
  Steps-IsValid (then_step steps step) k v =
      let (v1, g1) = Steps-IsValid steps k v in
      let (v2, g2) = Step-IsValid step (Is-Grows g1 k) v1 in (v2, Grows-trans g1 g2)

  -- From its creation on, whatever requests and reconfigurations are answered and however the disk
  -- changes in between, the memory is valid: every address in it is that of a node, nodes stand at
  -- their inodes, and identifiers are below the counter. The root is a node, and each node of an
  -- earlier moment is there with the same type, inode and writability.
  pub valid_forever :
      {s t u : State W}
      → IsCreated os s
      → Steps s t
      → Steps t u
      → IsValid u × IsNode fuse_root_id u × Grows t u
  valid_forever c before after =
      let (v, k) = IsCreated-IsValid os c in
      let (v1, g1) = Steps-IsValid before k v in
      let (v2, g2) = Steps-IsValid after (Is-Grows g1 k) v1 in (v2, Is-Grows g2 (Is-Grows g1 k), g2)

  -- A panic in answer to a request is never one of a missing node, of a handle that is in use, of a
  -- node that is created for a file of another type, or of a move within one directory.
  pub answer-IsExpected :
      {s t : State W}
      → IsCreated os s
      → Steps s t
      → (r : Request) (p : Panic) → (handle os ttl xattrs r t).0 ≡ panic p
      → IsExpected p
  answer-IsExpected {t} c steps r p e =
      let (v, k, _) = valid_forever c steps here in
      let h = (handle_lem os ttl xattrs r).holds v in
      subst (λ o. Holds t Anything o (handle os ttl xattrs r t).1) e h
