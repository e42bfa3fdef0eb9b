-- ===== src/Tests/Examples.antt =====
-- The theorems at concrete inputs.
use sandboxfs_rust.Base.{
  ℕ, ◌^◌, ◌-◌, ◌/◌, ◌<◌, Bool, true, false, ◌||◌, none, some, List, [], ◌∷◌, ◌++◌, Bytes, bytes,
  ◌≡◌, ◌↔◌, inr, refl, arith, list_beq, length, replicate, map, list_eq, nat_eq,
}
use sandboxfs_rust.Base.Assoc.{get, insert}
use sandboxfs_rust.Base.Int.{pos}
use sandboxfs_rust.Path.{
  empty, path_beq, join, join_name, strip_root, FilePath, from_bytes, split, to_components,
  without_dots, normal,
}
use sandboxfs_rust.Errors.{
  Result, Cause, Failure, already_mapped, unknown_entry, flatten_causes, from_errno,
}
use sandboxfs_rust.Errors.Errno
use sandboxfs_rust.Errors.Chain.{flatten_causes-joined}
use sandboxfs_rust.Attr.{FileType, FsType, Timespec, FileAttr, ltb_time}
use sandboxfs_rust.Conv.{
  fileattrs_eq, attr_fs_to_fuse, flags_to_openoptions, timeval_to_timespec, timespec_to_timeval,
  has_wronly, has_rdwr,
}
use sandboxfs_rust.Conv.Laws.{
  is_type, attr_fs_to_fuse_bounds, flags_to_openoptions_iff,
  timeval_to_timespec-timespec_to_timeval,
}
use sandboxfs_rust.State.{
  State, MutableDir, MutableFile, Node, dir, symlink, Cache, no_cache, path_cache, ReplyEntry,
}
use sandboxfs_rust.Monad.{ok, next}
use sandboxfs_rust.Monad.Ids.{next-next}
use sandboxfs_rust.Cli.{parse_mappings, parse_mapping, parse_type}
use sandboxfs_rust.Cli.Mappings.{AllValid, parse_mappings-AllValid}
use sandboxfs_rust.Mapping.{Mapping, check_components, from_parts}
use sandboxfs_rust.Mapping.Parts.{from_parts_iff}
use sandboxfs_rust.Nodes.Setattr.{
  setattr_mode, setattr_owners, setattr_times, setattr_size, AttrDelta, setattr, helpers,
  updated_ctime,
}
use sandboxfs_rust.Nodes.Setattr.Laws.{SameNode, HasValues, HasTimes, setattr_ok}
use sandboxfs_rust.Nodes.Cache.{get_or_create}
use sandboxfs_rust.Nodes.Dir.{implicit, explicit}
use sandboxfs_rust.Nodes.Dir.Create.{unlink}
use sandboxfs_rust.Nodes.Dir.Guard.{Denied, protected_Denied}
use sandboxfs_rust.Nodes.Handles.Pages.{stream, numbered, stream_all, stream_repeats}
use sandboxfs_rust.Sandbox.{initial}
use sandboxfs_rust.Sandbox.Xattr.{xattrs_to_u8, reply_xattr}
use sandboxfs_rust.Sandbox.Xattr.Laws.{
  decode, decode-xattrs_to_u8, read_whole, reply_xattr_protocol,
}
use sandboxfs_rust.Reconfig.{
  Prefixes, ReconfigurableFs, handle_request, register_prefixes, used_prefixes, use_prefix,
  parse_u32, digits_value, validate_id, contains, JsonMapping, CreateSandboxRequest, create_sandbox,
  register, make_path, new_prefixes,
}
use sandboxfs_rust.Reconfig.Tables.{Extends, register-IsView}
use sandboxfs_rust.Reconfig.Answers.{HasPrefixes, handle_request-HasPrefixes}
use sandboxfs_rust.Reconfig.Inside.{make_path_inside}
use sandboxfs_rust.Unmount.{retry_unmount}
use sandboxfs_rust.Unmount.Backoff.{retry_unmount-doubling}
use sandboxfs_rust.Tests.World.{Files, metadata, test_os}

abbrev time : ℕ → Timespec
time n = record { sec = pos n; nsec = 0 }

abbrev attr : FileType → FileAttr
attr kind = record {
  ino = 2;
  kind = kind;
  nlink = 1;
  size = 10;
  blocks = 0;
  atime = time 40;
  mtime = time 41;
  ctime = time 50;
  crtime = time 0;
  perm = 420;
  uid = 7;
  gid = 8;
  rdev = 0;
  flags = 0;
}

abbrev base : FilePath
base = record { absolute = true; components = normal (bytes "base") ∷ [] }

abbrev link : MutableFile
link = record { underlying_path = some base; attr = attr FileType.symlink }

-- A directory with one explicit mapping, `m`, and one entry of the disk, `d`.
abbrev folder : MutableDir
folder = record {
  parent = 1;
  underlying_path = some base;
  attr = attr FileType.directory;
  children = (bytes "m", explicit 3) ∷ (bytes "d", implicit 4) ∷ [];
}

abbrev with_node : Node → Cache → State Files
with_node n c = record {
  world = [];
  last_id = 5;
  arena = λ a. elim (get a ((2, n) ∷ [])) [ none ↦ none | some m ↦ some m ];
  cache = c;
  nodes = λ i. get i ((2, 2) ∷ []);
  handles = λ _. none;
}

abbrev read_only_dir : State Files
read_only_dir = with_node (dir 2 false folder) no_cache

abbrev writable_dir : State Files
writable_dir = with_node (dir 2 true folder) no_cache

protected_Denied_example : Denied (unlink (test_os true) 2 (bytes "m")) writable_dir
unfolding get sandboxfs_rust.Base.list_beq
protected_Denied_example =
    (protected_Denied (test_os true) writable_dir 2 2 true folder (bytes "m") refl (inr refl)).4

abbrev chmod : AttrDelta
chmod = record {
  mode = some 384;
  uid = none;
  gid = some 9;
  atime = none;
  mtime = none;
  size = some 3;
}

abbrev changed : FileAttr
changed = record (attr FileType.regular_file) { perm = 384; gid = 9; size = 3; ctime = time 100 }

setattr_ok_example :
    SameNode (attr FileType.regular_file) changed
    × HasValues chmod (attr FileType.regular_file) changed
    × HasTimes (test_os true) none none (attr FileType.regular_file) changed
    × (ltb_time changed.ctime (time 50) ≡ false)
unfolding setattr setattr_mode setattr_owners setattr_times setattr_size helpers updated_ctime
    fileattrs_eq
setattr_ok_example =
    setattr_ok (test_os true) (some base) chmod (attr FileType.regular_file) [] changed refl

abbrev cached : State Files
cached = record (initial [] (path_cache [])) { last_id = 5 }

after_create : State Files
unfolding get_or_create
after_create = (get_or_create {E = Failure} base (metadata FsType.file) true cached).1

-- A request for another file comes in between, with the other writability.
abbrev other : FilePath
other = record { absolute = true; components = normal (bytes "other") ∷ [] }

after_other : State Files
unfolding get_or_create after_create
after_other = (get_or_create {E = Failure} other (metadata FsType.file) false after_create).1

abbrev counted : ℕ → State Files
counted n = record cached { last_id = n }

next-next_example : (◌≡◌ {A = ℕ} 5 5) × (5 < 6) × (6 < 7)
unfolding next
next-next_example = next-next {E = Failure} (counted 5) (counted 6) (counted 7) 5 6 refl refl

abbrev entry : Bytes → ReplyEntry
entry name = record { inode = 2; fs_type = FileType.directory; name = name }

abbrev listing : List ReplyEntry
listing = entry (bytes ".") ∷ entry (bytes "..") ∷ entry (bytes "a") ∷ []

stream_all_example : stream 4 2 0 listing ≡ numbered 0 listing
stream_all_example = stream_all 4 2 listing (omega arith) (omega arith) (omega arith)

stream_repeats_example : stream 3 1 0 listing ≡ replicate 3 (0, entry (bytes "."))
stream_repeats_example =
    stream_repeats 3 (entry (bytes ".")) (entry (bytes "..") ∷ entry (bytes "a") ∷ [])

decode-xattrs_to_u8_example :
    decode (xattrs_to_u8 (bytes "user.a" ∷ bytes "b" ∷ [])) ≡ bytes "user.a" ∷ bytes "b" ∷ []
decode-xattrs_to_u8_example = decode-xattrs_to_u8 (bytes "user.a" ∷ bytes "b" ∷ []) (omega arith)

reply_xattr_protocol_example :
    read_whole (λ limit. reply_xattr limit (bytes "abc")) ≡ some (bytes "abc")
reply_xattr_protocol_example = (reply_xattr_protocol (bytes "abc")).0

abbrev display : Cause → Bytes
display _ = bytes "cause"

abbrev two_causes : Failure
two_causes = record { chain = already_mapped ∷ unknown_entry ∷ [] }

flatten_causes-joined_example : flatten_causes display two_causes ≡ bytes "cause: cause"
flatten_causes-joined_example =
    flatten_causes-joined display two_causes ((λ h. cc), ((λ h. cc), tt))

from_parts_iff_example :
    from_parts base base true ≡ ok (record { path = base; underlying_path = base; writable = true })
from_parts_iff_example =
    (from_parts_iff base base true
        (record { path = base; underlying_path = base; writable = true })).1
      (refl, tt, refl, refl)

attr_fs_to_fuse_bounds_example :
    is_type (attr_fs_to_fuse 9 2 (metadata FsType.fifo)).kind FsType.fifo ≡ true
attr_fs_to_fuse_bounds_example = (attr_fs_to_fuse_bounds 9 2 (metadata FsType.fifo)).4

flags_to_openoptions_iff_example :
    (flags_to_openoptions 2 false ≡ Result.err (from_errno Errno.eperm))
    ↔ (((has_wronly 2 || has_rdwr 2) ≡ true) × (◌≡◌ {A = Bool} false false))
flags_to_openoptions_iff_example = (flags_to_openoptions_iff 2 false).0

abbrev half_past : Timespec
half_past = record { sec = pos 12; nsec = 500000000 }

timeval_to_timespec-timespec_to_timeval_example :
    timeval_to_timespec (timespec_to_timeval (test_os true).seconds_nanoseconds half_past)
    ≡ record { sec = pos 12; nsec = 500000 }
timeval_to_timespec-timespec_to_timeval_example =
    (timeval_to_timespec-timespec_to_timeval (test_os true).seconds_nanoseconds half_past refl
      (omega arith)).0

abbrev linked : State Files
linked = with_node (symlink 2 true link) no_cache

retry_unmount-doubling_example :
    retry_unmount (replicate 8 false ++ (true ∷ []))
    ≡ 10 ∷ 20 ∷ 40 ∷ 80 ∷ 160 ∷ 320 ∷ 640 ∷ 1000 ∷ []
retry_unmount-doubling_example = retry_unmount-doubling (replicate 8 false ++ (true ∷ []))

abbrev one_mapping : JsonMapping
one_mapping = record {
  path_prefix = 0;
  path = bytes "/a";
  underlying_path_prefix = 1;
  underlying_path = bytes "b";
  writable = false;
}

abbrev request : CreateSandboxRequest
request = record {
  id = bytes "box";
  mappings = one_mapping ∷ [];
  prefixes = (bytes "1", base) ∷ [];
}

register-IsView_example : Extends new_prefixes (register (create_sandbox request) new_prefixes).1
register-IsView_example = (register-IsView request new_prefixes).0

-- A file system that lists the sandboxes.
abbrev names : ReconfigurableFs (List Bytes)
names = record { create = λ id ms s. (ok tt, id ∷ s); destroy = λ id s. (ok tt, s) }

abbrev used_by_request : Prefixes
used_by_request = (0, empty) ∷ (1, base) ∷ []

handle_request-HasPrefixes_example :
    HasPrefixes (handle_request names (create_sandbox request) (ok used_by_request) []).0
unfolding register register_prefixes used_prefixes use_prefix parse_u32 digits_value get insert
handle_request-HasPrefixes_example =
    handle_request-HasPrefixes names request new_prefixes used_by_request []
      (λ id ms t h. ground arith) refl

abbrev argument_mapping : Mapping
argument_mapping = record { path = base; underlying_path = base; writable = true }

parse_mappings-AllValid_example : (◌≡◌ {A = ℕ} 1 1) × AllValid (argument_mapping ∷ [])
unfolding parse_mappings parse_mapping parse_type from_parts check_components split from_bytes
    to_components list_beq
parse_mappings-AllValid_example =
    parse_mappings-AllValid (bytes "rw:/base:/base" ∷ []) (argument_mapping ∷ []) refl

make_path_inside_example :
    (base.absolute ≡ true)
    × (◌≡◌ {A = Bool} true true)
    × (normal (bytes "box") ∷ normal (bytes "base") ∷ []
        ≡ normal (bytes "box") ∷ without_dots base.components)
unfolding make_path validate_id contains join join_name strip_root from_bytes split to_components
    without_dots path_beq list_beq
make_path_inside_example =
    make_path_inside (bytes "box") base
      (record { absolute = true; components = normal (bytes "box") ∷ normal (bytes "base") ∷ [] })
      (refl, (λ e. cc), (λ e. cc)) refl
