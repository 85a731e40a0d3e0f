-- ===== src/Vfs/Metadata/Laws.antt =====
-- What the attributes of a path are after each operation, and what `PruneOrphans` leaves.
use neon_world_os.Base.{
  ℕ, ◌+◌, ◌&&◌, [], ◌∷◌, Option, none, some, ◌≡◌, refl, arith, Bytes, if◌then◌else◌, length, str_eq,
  str_eq_iff, Dict, find, assign, find-assign, Option-cases, Bool-cases, inl, inr,
}
use neon_world_os.Vfs.Path.{normalize_path}
use neon_world_os.Vfs.State.{Vfs}
use neon_world_os.Vfs.Files.{exists}
use neon_world_os.Vfs.Metadata.{
  xattr_set, xattr_get, xattrs_at, touch_meta, kept, dead, prune_orphans,
}

-- The attribute of a normalised path, if the path and the attribute are there.
attr : Bytes → Bytes → Dict (Dict Bytes) → Option Bytes
attr p key xs = elim (find p xs) [ none ↦ none | some m ↦ find key m ]

-- A dictionary with no entry, and with one.
find-nil : {A : Type 0} (k : Bytes) → find {V = A} k [] ≡ none
unfolding find
find-nil k = refl

attr-assign :
    (p q key j : Bytes) (value : Bytes) (v : Vfs)
    → attr q j (assign p (assign key value (xattrs_at p v)) v.xattrs)
      ≡ (if str_eq p q && str_eq key j then some value else attr q j v.xattrs)
unfolding attr xattrs_at
attr-assign p q key j value v = elim (Option-cases (find p v.xattrs)) [
  | inl e ↦ ground (
    arith,
    e,
    find-assign p q (assign key value []) v.xattrs,
    find-assign key j value [],
    find-nil {A = Bytes} j,
    str_eq_iff p q,
  )
  | inr (m, e) ↦ ground (
    arith,
    e,
    find-assign p q (assign key value m) v.xattrs,
    find-assign key j value m,
    str_eq_iff p q,
  )
]

-- `XAttrSet` succeeds exactly if the path exists, and then `XAttrGet` gives the new value for this
-- path and key, and what it gave before for any other; if the path does not exist, it gives what it
-- gave before for all of them.
pub xattr_get-xattr_set :
    (path other key j value : Bytes) (now₁ now₂ : ℕ) (v : Vfs)
    → let r = xattr_set path key value now₁ now₂ v in
      (r.1 ≡ exists (normalize_path path) v)
      × (xattr_get other j r.0 ≡ (
          if exists (normalize_path path) v
            && (str_eq (normalize_path path) (normalize_path other) && str_eq key j)
          then some value
          else xattr_get other j v))
unfolding xattr_set xattr_get touch_meta
xattr_get-xattr_set path other key j value now₁ now₂ v =
    elim (Bool-cases (exists (normalize_path path) v)) [
      | inl e ↦ rw e (
        refl,
        unfold attr in attr-assign (normalize_path path) (normalize_path other) key j value v,
      )
      | inr e ↦ rw e (refl, refl)
    ]

find-kept :
    {A : Type 0} (k : Bytes) (v : Vfs) (m : Dict A)
    → find k (kept v m) ≡ (if exists k v then find k m else none)
unfolding find kept
find-kept k v [] = ground arith
find-kept k v ((j, x) ∷ m) = elim (Bool-cases (str_eq j k)) [
  | inl e ↦ ground (arith, e, str_eq_iff j k, find-kept k v m)
  | inr e ↦ ground (arith, e, find-kept k v m)
]

length-kept : {A : Type 0} (v : Vfs) (m : Dict A) → length (kept v m) + dead v m ≡ length m
unfolding kept dead
length-kept v [] = refl
length-kept v ((j, x) ∷ m) = ground (arith, length-kept v m)

-- `PruneOrphans` keeps the metadata and the attributes of a path exactly if the path exists, and it
-- returns the number of entries that are gone.
pub prune_orphans_lem :
    (k : Bytes) (v : Vfs)
    → let r = prune_orphans v in
      (find k r.0.meta ≡ (if exists k v then find k v.meta else none))
      × (find k r.0.xattrs ≡ (if exists k v then find k v.xattrs else none))
      × (length r.0.meta + length r.0.xattrs + r.1 ≡ length v.meta + length v.xattrs)
unfolding prune_orphans
prune_orphans_lem k v = (
  find-kept k v v.meta,
  find-kept k v v.xattrs,
  omega (arith, length-kept v v.meta, length-kept v v.xattrs),
)
