-- ===== src/Vfs/Metadata.antt =====
-- Metadata and extended attributes of src/vfs.cpp: `touch_meta_`, `Utime`, `GetMeta`, `GetImmutable`,
-- `XAttrSet`, `XAttrGet`, `XAttrList`, `XAttrRm`, `PruneOrphans`, the umask and `can_write_`. Each
-- reading of the clock is an argument.
pub mod Laws
use neon_world_os.Base.{
  ℕ, ◌+◌, ◌/◌, ◌%◌, Bool, true, false, ◌&&◌, List, [], ◌∷◌, Option, none, some, Bytes,
  if◌then◌else◌, ◌==◌, str_lt, Dict, find, assign, remove,
}
use neon_world_os.Vfs.Path.{normalize_path}
use neon_world_os.Vfs.State.{Vfs, Meta, new_meta}
use neon_world_os.Vfs.Files.{exists}

-- `meta_[k]`.
unfoldable pub meta_at : Bytes → Vfs → Meta
meta_at k v = elim (find k v.meta) [ none ↦ new_meta | some m ↦ m ]

-- What `touch_meta_` makes of an entry, with its two readings of the clock.
unfoldable pub touched : Bool → ℕ → ℕ → Meta → Meta
touched is_new now₁ now₂ m = record m {
  mode = if m.mode == 0 then 0o100644 else m.mode;
  ctime = if is_new && m.ctime == 0 then now₁ else m.ctime;
  mtime = now₂;
}

unfoldable pub touch_meta : Bytes → Bool → ℕ → ℕ → Vfs → Vfs
unfolding meta_at touched
touch_meta p is_new now₁ now₂ v = record v {
  meta = assign p (touched is_new now₁ now₂ (meta_at p v)) v.meta;
}

unfoldable pub utime : Bytes → ℕ → Vfs → Vfs × Bool
unfolding meta_at
utime path epoch v =
    let norm = normalize_path path in
    let m = meta_at norm v in
    if exists norm v
    then (
      record v {
        meta =
            assign norm
              (record m { ctime = if m.ctime == 0 then epoch else m.ctime; mtime = epoch }) v.meta;
      },
      true,
    )
    else (v, false)

unfoldable pub get_meta : Bytes → Vfs → Option Meta
get_meta path v = find (normalize_path path) v.meta

unfoldable pub get_immutable : Bytes → Vfs → Bool
get_immutable path v = elim (find (normalize_path path) v.meta) [
  | none ↦ false
  | some m ↦ m.immutable
]

-- `xattrs_[p]`.
unfoldable pub xattrs_at : Bytes → Vfs → Dict Bytes
xattrs_at p v = elim (find p v.xattrs) [ none ↦ [] | some m ↦ m ]

unfoldable pub xattr_set : Bytes → Bytes → Bytes → ℕ → ℕ → Vfs → Vfs × Bool
unfolding xattrs_at touch_meta
xattr_set path key value now₁ now₂ v =
    let p = normalize_path path in
    if exists p v
    then (
      touch_meta p false now₁ now₂
          (record v { xattrs = assign p (assign key value (xattrs_at p v)) v.xattrs }),
      true,
    )
    else (v, false)

unfoldable pub xattr_get : Bytes → Bytes → Vfs → Option Bytes
xattr_get path key v = elim (find (normalize_path path) v.xattrs) [
  | none ↦ none
  | some m ↦ find key m
]

-- The keys in order: `std::map` keeps them so, and they are sorted once more.
unfoldable pub insert_key : Bytes → List Bytes → List Bytes
insert_key k [] = k ∷ []
insert_key k (j ∷ ks) = if str_lt k j then k ∷ j ∷ ks else j ∷ insert_key k ks

unfoldable pub keys_of : Dict Bytes → List Bytes
unfolding insert_key
keys_of [] = []
keys_of ((k, x) ∷ m) = insert_key k (keys_of m)

unfoldable pub xattr_list : Bytes → Vfs → List Bytes
unfolding keys_of
xattr_list path v = elim (find (normalize_path path) v.xattrs) [ none ↦ [] | some m ↦ keys_of m ]

-- `XAttrRm`, with what `find` gave.
unfoldable pub xattr_rm_in : Bytes → Bytes → Option (Dict Bytes) → ℕ → ℕ → Vfs → Vfs × Bool
unfolding touch_meta
xattr_rm_in p key none now₁ now₂ v = (v, false)
xattr_rm_in p key (some m) now₁ now₂ v = elim (find key m) [
  | none ↦ (v, false)
  | some _ ↦
      (touch_meta p false now₁ now₂ (record v { xattrs = assign p (remove key m) v.xattrs }), true)
]

unfoldable pub xattr_rm : Bytes → Bytes → ℕ → ℕ → Vfs → Vfs × Bool
unfolding xattr_rm_in
xattr_rm path key now₁ now₂ v =
    xattr_rm_in (normalize_path path) key (find (normalize_path path) v.xattrs) now₁ now₂ v

unfoldable pub set_umask : ℕ → Vfs → Vfs
set_umask m v = record v { umask = m % 0o1000 }

unfoldable pub set_default_modes : ℕ → ℕ → Vfs → Vfs
set_default_modes file_mode dir_mode v = record v {
  def_file_mode = file_mode;
  def_dir_mode = dir_mode;
}

-- The flag tells whether the macro `NEON_ENFORCE_PERMS` is set.
unfoldable pub can_write : Bool → Bytes → Vfs → Bool
can_write enforced norm v =
    if enforced
    then elim (find norm v.meta) [ none ↦ true | some m ↦ m.mode / 0o200 % 2 == 1 ]
    else true

-- The entries whose path exists, and how many others there are.
unfoldable pub kept {ℓ} : {A : Type ℓ} → Vfs → Dict A → Dict A
kept v [] = []
kept v ((k, x) ∷ m) = if exists k v then (k, x) ∷ kept v m else kept v m

unfoldable pub dead {ℓ} : {A : Type ℓ} → Vfs → Dict A → ℕ
dead v [] = 0
dead v ((k, x) ∷ m) = if exists k v then dead v m else dead v m + 1

unfoldable pub prune_orphans : Vfs → Vfs × ℕ
unfolding kept dead
prune_orphans v =
    (record v { meta = kept v v.meta; xattrs = kept v v.xattrs }, dead v v.meta + dead v v.xattrs)
