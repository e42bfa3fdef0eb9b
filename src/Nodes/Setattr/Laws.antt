-- ===== src/Nodes/Setattr/Laws.antt =====
-- What `setattr` of src/nodes/mod.rs does to the attributes of a node.
use sandboxfs_rust.Base.{
  ℕ, Option, none, some, ◌≡◌, arith, unwrap_or, false, is_some, ◌||◌, ◌&&◌, ◌∙◌, sym, ap,
  if◌then◌else◌,
}
use mathlib.Core.Path.{subst}
use sandboxfs_rust.Path.{FilePath}
use sandboxfs_rust.Errors.{ok}
use sandboxfs_rust.Attr.{Timespec, TimeVal, FileAttr, ltb_time}
use sandboxfs_rust.Conv.{timeval_to_timespec, timespec_to_timeval}
use sandboxfs_rust.Os.{Os}
use sandboxfs_rust.Nodes.Setattr.{
  AttrDelta, Helper, setattr_mode, setattr_owners, setattr_times, set_times, with_times,
  setattr_size, and_then, helpers, updated_ctime, setattr,
}

-- The fields that no helper touches.
pub record SameNode (a b : FileAttr) : Type 0 where
  pub ino : a.ino ≡ b.ino
  pub kind : a.kind ≡ b.kind
  pub nlink : a.nlink ≡ b.nlink
  pub blocks : a.blocks ≡ b.blocks
  pub rdev : a.rdev ≡ b.rdev
  pub flags : a.flags ≡ b.flags

-- The fields of mode, owners and size have the new value if one is asked for, else the old one.
pub record HasValues (delta : AttrDelta) (old new : FileAttr) : Type 0 where
  pub perm : new.perm ≡ unwrap_or delta.mode old.perm
  pub uid : new.uid ≡ unwrap_or delta.uid old.uid
  pub gid : new.gid ≡ unwrap_or delta.gid old.gid
  pub size : new.size ≡ unwrap_or delta.size old.size

module _ {W : Type 0} (os : Os W) where
  -- The time stamp that is asked for, or else the old one, as it comes back from its conversion to
  -- what the system takes.
  abbrev pub time_or : Option TimeVal → Timespec → Timespec
  time_or asked old =
      timeval_to_timespec (unwrap_or asked (timespec_to_timeval os.seconds_nanoseconds old))

  -- Without a time to set the time stamps stay. Else the atime and the mtime are those asked for,
  -- or the converted old ones, and the crtime is no later than the mtime.
  pub record HasTimes (atime mtime : Option TimeVal) (old new : FileAttr) : Type 0 where
    pub atime_set :
        new.atime ≡ (if is_some atime || is_some mtime then time_or atime old.atime else old.atime)
    pub mtime_set :
        new.mtime ≡ (if is_some atime || is_some mtime then time_or mtime old.mtime else old.mtime)
    pub crtime_set : new.crtime ≡ (
        if (is_some atime || is_some mtime) && ltb_time new.mtime old.crtime
        then new.mtime
        else old.crtime)

  abbrev timed : Option TimeVal → Option TimeVal → FileAttr → FileAttr
  timed none none a = a
  timed none (some m) a = with_times (timespec_to_timeval os.seconds_nanoseconds a.atime) m a
  timed (some t) mtime a =
      with_times t (unwrap_or mtime (timespec_to_timeval os.seconds_nanoseconds a.mtime)) a

  timed-HasTimes :
      (atime mtime : Option TimeVal) (a : FileAttr) → HasTimes atime mtime a (timed atime mtime a)
  unfolding with_times
  timed-HasTimes none none a = ground arith
  timed-HasTimes none (some m) a = ground arith
  timed-HasTimes (some t) none a = ground arith
  timed-HasTimes (some t) (some m) a = ground arith

  -- What the times become is read off the old time stamps only, and keeps the other fields.
  timed-rest :
      (atime mtime : Option TimeVal) (a : FileAttr)
      → timed atime mtime a ≡ record a {
        atime = (timed atime mtime a).atime;
        mtime = (timed atime mtime a).mtime;
        crtime = (timed atime mtime a).crtime;
      }
  unfolding with_times
  timed-rest none none a = ground arith
  timed-rest none (some m) a = ground arith
  timed-rest (some t) mtime a = ground arith

module _ {W : Type 0} (os : Os W) (path : Option FilePath) where
  -- A helper that succeeds sets its own fields and keeps the others.
  mode_effect :
      (mode : Option ℕ) (a : FileAttr) (w : W)
      → (setattr_mode os path mode a w).0 ≡ ok tt
      → (setattr_mode os path mode a w).1 ≡ record a { perm = unwrap_or mode a.perm }
  unfolding setattr_mode
  mode_effect none a w h = ground arith
  mode_effect (some m) a w h = ground arith

  owners_effect :
      (uid gid : Option ℕ) (a : FileAttr) (w : W)
      → (setattr_owners os path uid gid a w).0 ≡ ok tt
      → (setattr_owners os path uid gid a w).1
        ≡ record a { uid = unwrap_or uid a.uid; gid = unwrap_or gid a.gid }
  unfolding setattr_owners
  owners_effect none none a w h = ground arith
  owners_effect none (some g) a w h = ground arith
  owners_effect (some u) none a w h = ground arith
  owners_effect (some u) (some g) a w h = ground arith

  size_effect :
      (size : Option ℕ) (a : FileAttr) (w : W)
      → (setattr_size os path size a w).0 ≡ ok tt
      → (setattr_size os path size a w).1 ≡ record a { size = unwrap_or size a.size }
  unfolding setattr_size
  size_effect none a w h = ground arith
  size_effect (some n) a w h = ground arith

  set_times_effect :
      (atime mtime : TimeVal) (a : FileAttr) (w : W)
      → (set_times os path atime mtime a w).0 ≡ ok tt
      → (set_times os path atime mtime a w).1 ≡ with_times atime mtime a
  unfolding set_times
  set_times_effect atime mtime a w h = ground arith

  times_effect :
      (atime mtime : Option TimeVal) (a : FileAttr) (w : W)
      → (setattr_times os path atime mtime a w).0 ≡ ok tt
      → (setattr_times os path atime mtime a w).1 ≡ timed os atime mtime a
  unfolding setattr_times
  times_effect none none a w h = ground arith
  times_effect none (some m) a w h =
      set_times_effect (timespec_to_timeval os.seconds_nanoseconds a.atime) m a w h
  times_effect (some t) none a w h =
      set_times_effect t (timespec_to_timeval os.seconds_nanoseconds a.mtime) a w h
  times_effect (some t) (some m) a w h = set_times_effect t m a w h

-- An `and` that succeeds has run both parts, and both have succeeded.
and_then-ok :
    {W : Type 0} (f g : Helper W) (a : FileAttr) (w : W)
    → (and_then f g a w).0 ≡ ok tt
    → ((f a w).0 ≡ ok tt)
      × ((g (f a w).1 (f a w).2).0 ≡ ok tt)
      × ((and_then f g a w).1 ≡ (g (f a w).1 (f a w).2).1)
unfolding and_then
and_then-ok f g a w h = ground arith

ltb_time_irrefl : (t : Timespec) → ltb_time t t ≡ false
ltb_time_irrefl t = ground arith

ltb_time-updated_ctime :
    (a : FileAttr) (now : Timespec) → ltb_time (updated_ctime a now) a.ctime ≡ false
unfolding updated_ctime
ltb_time-updated_ctime a now = ground (arith, ltb_time_irrefl a.ctime)

-- The four steps, one after the other.
chain :
    {W : Type 0} (os : Os W) (delta : AttrDelta) (a a1 a2 a3 a4 : FileAttr)
    → a1 ≡ record a { perm = unwrap_or delta.mode a.perm }
    → a2 ≡ record a1 { uid = unwrap_or delta.uid a1.uid; gid = unwrap_or delta.gid a1.gid }
    → a3 ≡ record a2 { atime = a3.atime; mtime = a3.mtime; crtime = a3.crtime }
    → HasTimes os delta.atime delta.mtime a2 a3
    → a4 ≡ record a3 { size = unwrap_or delta.size a3.size }
    → SameNode a a4
      × HasValues delta a a4
      × HasTimes os delta.atime delta.mtime a a4
      × (a4.ctime ≡ a.ctime)
chain os delta a a1 a2 a3 a4 e1 e2 e3 t e4 = (
  ground arith,
  ground arith,
  record {
    atime_set = ground (arith, t.atime_set);
    mtime_set = ground (arith, t.mtime_set);
    crtime_set = ground (arith, t.crtime_set);
  },
  ground arith,
)

module _ {W : Type 0} (os : Os W) (path : Option FilePath) (delta : AttrDelta) where
  helpers_effect :
      (a : FileAttr) (w : W)
      → (helpers os path delta a w).0 ≡ ok tt
      → SameNode a (helpers os path delta a w).1
        × HasValues delta a (helpers os path delta a w).1
        × HasTimes os delta.atime delta.mtime a (helpers os path delta a w).1
        × ((helpers os path delta a w).1.ctime ≡ a.ctime)
  unfolding helpers
  helpers_effect a w h =
      let mode = setattr_mode os path delta.mode in
      let owners = setattr_owners os path delta.uid delta.gid in
      let times = setattr_times os path delta.atime delta.mtime in
      let size = setattr_size os path delta.size in
      let last = and_then-ok (and_then (and_then mode owners) times) size a w h in
      let third = and_then-ok (and_then mode owners) times a w last.0 in
      let second = and_then-ok mode owners a w third.0 in
      let (r1, a1, w1) = mode a w in
      let (r2, a2, w2) = owners a1 w1 in
      let (r3, a3, w3) = times a2 w2 in
      let timed_now = times_effect os path delta.atime delta.mtime a2 w2 third.1 in
      chain os delta a a1 a2 a3 _ (mode_effect os path delta.mode a w second.0)
        (owners_effect os path delta.uid delta.gid a1 w1 second.1)
        (timed_now
          ∙ timed-rest os delta.atime delta.mtime a2
          ∙ ap (λ t. record a2 { atime = t.atime; mtime = t.mtime; crtime = t.crtime })
              (sym timed_now))
        (subst (HasTimes os delta.atime delta.mtime a2) (sym timed_now)
          (timed-HasTimes os delta.atime delta.mtime a2))
        (size_effect os path delta.size a3 w3 last.1)

  -- A `setattr` that succeeds returns attributes in which the mode, the owner, the group and the
  -- size are those asked for, or the old ones where none was asked for; the inode, the kind, the
  -- number of links, the blocks, the device and the flags are the old ones; and the ctime has not
  -- gone back. If no time is asked for, the atime, the mtime and the crtime are the old ones. If
  -- one is, then the atime and the mtime are those asked for, the one that is not asked for being
  -- the old one as its conversions leave it, and the crtime is the mtime if that is earlier than
  -- the old crtime, else the old crtime.
  pub setattr_ok :
      (a : FileAttr) (w : W) (new : FileAttr)
      → (setattr os path a delta w).0 ≡ ok new
      → SameNode a new
        × HasValues delta a new
        × HasTimes os delta.atime delta.mtime a new
        × (ltb_time new.ctime a.ctime ≡ false)
  unfolding setattr
  setattr_ok a w new h =
      ground
        (arith, helpers_effect a w, ltb_time-updated_ctime a (os.now w), ltb_time_irrefl a.ctime)
