-- ===== src/Tests/Mapped.antt =====
-- The theorems on mappings, for an instance that shows a directory of the disk.
use sandboxfs_rust.Base.{true, false, Option, none, some, ◌≡◌, List, [], ◌∷◌, ◌++◌, bytes, refl}
use sandboxfs_rust.Path.{
  normal, root, path_beq, from_bytes, to_components, split, join, without_dots, strip_root,
}
use sandboxfs_rust.Reconfig.{validate_id}
use sandboxfs_rust.Nodes.Cache.{get_or_create_cached, create_cached, new_leaf}
use sandboxfs_rust.Attr.{FsType, FileType, FileAttr}
use sandboxfs_rust.Conv.{attr_fs_to_fuse}
use sandboxfs_rust.Nodes.Attrs.{getattr, with_attr}
use sandboxfs_rust.Nodes.Attrs.Typed.{IsTyped, getattr-IsTyped}
use sandboxfs_rust.State.{State, Node, dir, file, symlink, ReplyEntry, no_cache, path_cache}
use sandboxfs_rust.Nodes.Dir.{Dir}
use sandboxfs_rust.Nodes.Handles.{readdirall}
use sandboxfs_rust.Nodes.Handles.Listed.{
  names_of, mapped_names, unmapped_names, mapped_at, readdirall_lists,
}
use sandboxfs_rust.State.Walk.{Preserves}
use sandboxfs_rust.Nodes.Map
use sandboxfs_rust.Nodes.Map.Found.{IsMapped, map_found}
use sandboxfs_rust.Mapping.{Mapping}
use sandboxfs_rust.Mapping.Found.{AreFound}
use sandboxfs_rust.Sandbox.{fuse_root_id, initial, create_fs}
use sandboxfs_rust.Sandbox.Mounted.{create_fs_found, create_sandbox_found}
use sandboxfs_rust.Sandbox.Reconfigure.{create_sandbox}
use sandboxfs_rust.Sandbox.Reach.{IsCreated, IsCreated-IsValid}
use sandboxfs_rust.Tests.World.{Files, path, metadata, test_os}

abbrev disk : Files
disk =
    (path (bytes "/base"), metadata FsType.dir)
    ∷ (path (bytes "/base/d"), metadata FsType.file)
    ∷ []

abbrev base : Mapping
base = record { path = root; underlying_path = path (bytes "/base"); writable = true }

abbrev deep : Mapping
deep = record {
  path = path (bytes "/m/x");
  underlying_path = path (bytes "/base/d");
  writable = false;
}

abbrev shown : State Files
shown = (create_fs (test_os true) (base ∷ deep ∷ []) (initial disk (path_cache []))).1

create_fs_found_example : AreFound fuse_root_id [] (deep ∷ []) shown
unfolding create_fs path_beq from_bytes to_components split join without_dots get_or_create_cached
    create_cached new_leaf
create_fs_found_example =
    create_fs_found (test_os true) disk (path_cache []) (base ∷ deep ∷ []) shown refl refl

shown-IsCreated : IsCreated (test_os true) shown
unfolding create_fs path_beq from_bytes to_components split join without_dots get_or_create_cached
    create_cached new_leaf
shown-IsCreated = record {
  world = disk;
  cache = path_cache [];
  mappings = base ∷ deep ∷ [];
  empty = refl;
  created = refl;
}

-- A second mapping of the same file, writable and next to the first.
abbrev more : State Files
more =
    (Map.map (test_os true) 1 (normal (bytes "m") ∷ normal (bytes "y") ∷ [])
      (path (bytes "/base/d")) true shown).1

map_found_example : IsMapped 1 (normal (bytes "m") ∷ normal (bytes "y") ∷ []) true shown 4 more
unfolding create_fs Map.map path_beq from_bytes to_components split join without_dots
    get_or_create_cached create_cached new_leaf
map_found_example =
    map_found (test_os true) 1 (normal (bytes "m") ∷ normal (bytes "y") ∷ [])
      (path (bytes "/base/d")) true shown more 4
      (IsCreated-IsValid (test_os true) shown-IsCreated).0
      (IsCreated-IsValid (test_os true) shown-IsCreated).1 refl

-- A sandbox whose root is a directory of the disk, with a mapping in it.
abbrev boxed : State Files
boxed = (create_sandbox (test_os true) 1 (bytes "box") (base ∷ deep ∷ []) shown).1

create_sandbox_found_example :
    Preserves shown boxed × AreFound 1 (normal (bytes "box") ∷ []) (base ∷ deep ∷ []) boxed
unfolding create_fs create_sandbox validate_id path_beq from_bytes to_components split join
    without_dots get_or_create_cached create_cached new_leaf strip_root
create_sandbox_found_example =
    create_sandbox_found (test_os true) 1 (bytes "box") (base ∷ deep ∷ []) shown boxed
      (IsCreated-IsValid (test_os true) shown-IsCreated).0
      (IsCreated-IsValid (test_os true) shown-IsCreated).1 (refl, (λ e. cc), (λ e. cc)) refl

abbrev told : FileAttr
told = attr_fs_to_fuse 1 2 (metadata FsType.dir)

-- The root of the instance tells its attributes.
abbrev root_of : Option Node → Node
root_of none = file 0 false (record { underlying_path = none; attr = told })
root_of (some n) = n

abbrev root_node : Node
root_node = root_of (shown.arena 1)

getattr-IsTyped_example :
    ((getattr (test_os true) 1 shown).1.arena 1 ≡ some (with_attr root_node told))
    × IsTyped root_node told
unfolding create_fs getattr attr_fs_to_fuse path_beq from_bytes to_components split join
    without_dots get_or_create_cached create_cached new_leaf
getattr-IsTyped_example =
    getattr-IsTyped (test_os true) 1 root_node (path (bytes "/base")) shown
      (getattr (test_os true) 1 shown).1 told (IsCreated-IsValid (test_os true) shown-IsCreated).0
      (IsCreated-IsValid (test_os true) shown-IsCreated).1 refl refl refl

-- A directory of the disk with the entries `a` and `b`, and a mapping that stands before `b`.
abbrev two_files : Files
two_files =
    (path (bytes "/base"), metadata FsType.dir)
    ∷ (path (bytes "/base/a"), metadata FsType.file)
    ∷ (path (bytes "/base/b"), metadata FsType.file)
    ∷ []

abbrev before_b : Mapping
before_b = record {
  path = path (bytes "/b");
  underlying_path = path (bytes "/base/a");
  writable = false;
}

abbrev listing : State Files
listing = (create_fs (test_os true) (base ∷ before_b ∷ []) (initial two_files no_cache)).1

listing-IsCreated : IsCreated (test_os true) listing
unfolding create_fs path_beq from_bytes to_components split join without_dots get_or_create_cached
    create_cached new_leaf
listing-IsCreated = record {
  world = two_files;
  cache = no_cache;
  mappings = base ∷ before_b ∷ [];
  empty = tt;
  created = refl;
}

abbrev no_dir : Dir
no_dir = record {
  inode = 0;
  writable = false;
  state = record { parent = 0; underlying_path = none; attr = told; children = [] };
}

abbrev dir_of : Node → Dir
dir_of (dir i w st) = record { inode = i; writable = w; state = st }
dir_of (file i w st) = no_dir
dir_of (symlink i w st) = no_dir

abbrev listed_dir : Dir
listed_dir = dir_of (root_of (listing.arena 1))

abbrev listed : List ReplyEntry
listed =
    record { inode = 1; fs_type = FileType.directory; name = bytes "." }
    ∷ record { inode = 1; fs_type = FileType.directory; name = bytes ".." }
    ∷ record { inode = 2; fs_type = FileType.regular_file; name = bytes "b" }
    ∷ record { inode = 3; fs_type = FileType.regular_file; name = bytes "a" }
    ∷ []

readdirall_lists_example :
    names_of listed
    ≡ bytes "." ∷ bytes ".." ∷ mapped_names listed_dir.state.children
      ++ unmapped_names (mapped_at listing 1) ((test_os true).entries 4 listing.world)
unfolding create_fs readdirall attr_fs_to_fuse path_beq from_bytes to_components split join
    without_dots get_or_create_cached create_cached new_leaf
readdirall_lists_example =
    readdirall_lists (test_os true) 1 true 1 4 listed_dir listing
      (readdirall (test_os true) 1 true 1 (some 4) listing).1 listed
      (IsCreated-IsValid (test_os true) listing-IsCreated).0
      (IsCreated-IsValid (test_os true) listing-IsCreated).1 refl refl
