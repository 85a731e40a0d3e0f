-- ===== src/Crypto/Merkle.antt =====
-- include/neon/merkle.hpp: the hashes of files and directories, alone, with metadata, and with extended
-- attributes. A path that is missing hashes to the empty text.
pub mod Root
pub mod Files
use neon_world_os.Base.{
  ℕ, zero, suc, ◌+◌, Bool, true, false, List, [], ◌∷◌, ◌++◌, Option, none, some, Bytes, codes,
  if◌then◌else◌, str_eq, str_lt, length, find,
}
use mathlib.Core.Option
use neon_world_os.Vfs.Path.{slash}
use neon_world_os.Vfs.State.{Vfs, Meta, new_meta}
use neon_world_os.Vfs.Files.{read, stat, list}
use neon_world_os.Vfs.Metadata.{get_meta, xattr_list, xattr_get}
use neon_world_os.Vfs.Dump.{decimal}
use neon_world_os.Crypto.Sha.{hex}
use neon_world_os.Crypto.Hmac.{digest_one, digest_two}

-- `BlobHash`.
unfoldable pub blob_hash : Bytes → Option Bytes
unfolding digest_two hex decimal
blob_hash content =
    Option.map hex (digest_two (codes "blob " ++ (decimal (length content) ++ 0 ∷ [])) content)

unfoldable pub is_dir : Vfs → Bytes → Bool
is_dir v path = elim (stat path v) [ none ↦ false | some (d, size) ↦ d ]

unfoldable pub child_of : Bytes → Bytes → Bytes
child_of path name = if str_eq path (slash ∷ []) then slash ∷ name else path ++ (slash ∷ name)

-- The line of a child.
unfoldable pub child_line : Vfs → Bytes → Bytes → Bytes → Bytes
unfolding is_dir
child_line v child name hash =
    name
    ++ (9 ∷ ((if is_dir v child then codes "dir" else codes "file") ++ (9 ∷ (hash ++ 10 ∷ []))))

-- `std::sort` on the lines.
unfoldable pub insert_line : Bytes → List Bytes → List Bytes
insert_line l [] = l ∷ []
insert_line l (m ∷ ls) = if str_lt l m then l ∷ m ∷ ls else m ∷ insert_line l ls

unfoldable pub sort_lines : List Bytes → List Bytes
unfolding insert_line
sort_lines [] = []
sort_lines (l ∷ ls) = insert_line l (sort_lines ls)

unfoldable pub concat_lines : List Bytes → Bytes
concat_lines [] = []
concat_lines (l ∷ ls) = l ++ concat_lines ls

-- The hash of a directory with these lines, and what `MerklePathMetaX` puts before them.
unfoldable pub tree_hash : Bytes → Option (List Bytes) → Option Bytes
unfolding digest_one hex decimal sort_lines concat_lines
tree_hash extra none = none
tree_hash extra (some lines) = Option.map hex (
    digest_one
      ((codes "tree " ++ (decimal (length lines) ++ 0 ∷ extra)) ++ concat_lines (sort_lines lines)))

-- The loop over the names, with the function for a path; `none` is out of fuel.
unfoldable pub lines_of : (Bytes → Option Bytes) → Vfs → Bytes → List Bytes → Option (List Bytes)
unfolding child_of child_line
lines_of hash v path [] = some []
lines_of hash v path (name ∷ names) = elim (hash (child_of path name)) [
  | none ↦ none
  | some h ↦
      Option.map (λ ls. child_line v (child_of path name) name h ∷ ls) (lines_of hash v path names)
]

-- The metadata as it is hashed.
unfoldable pub meta_line : Meta → Bytes
unfolding decimal
meta_line m =
    codes "meta "
    ++ (decimal m.mode ++ (32 ∷ (decimal m.mtime ++ (32 ∷ (decimal m.ctime ++ 10 ∷ [])))))

-- `Meta mt{}; v.GetMeta(path, mt)`.
unfoldable pub meta_or_new : Bytes → Vfs → Meta
meta_or_new path v = elim (get_meta path v) [ none ↦ new_meta | some m ↦ m ]

-- `xastr`: the attributes in the order of their keys.
unfoldable pub xattr_text : Bytes → Vfs → List Bytes → Bytes
xattr_text path v [] = []
xattr_text path v (k ∷ ks) =
    (k ++ (b'=' ∷ (elim (xattr_get path k v) [ none ↦ [] | some x ↦ x ] ++ 10 ∷ [])))
    ++ xattr_text path v ks

-- The hash of a file with what is hashed behind the hash of its content.
unfoldable pub file_hash : Bytes → Option Bytes → Option Bytes
unfolding digest_one hex
file_hash behind none = none
file_hash behind (some d) = Option.map hex (digest_one (d ++ behind))

-- `MerklePath`, `MerklePathMeta` and `MerklePathMetaX`.
pub data Kind : Type 0 where
  bare meta meta_x : Kind

-- What each of them makes of the content of a file.
unfoldable pub content_hash : Kind → Vfs → Bytes → Option Bytes → Option Bytes
unfolding blob_hash file_hash meta_line meta_or_new xattr_text digest_one hex
content_hash kind v path none = some []
content_hash bare v path (some s) = blob_hash s
content_hash meta v path (some s) =
    elim (Option.map hex (digest_one (meta_line (meta_or_new path v)))) [
      | none ↦ none
      | some m ↦ file_hash m (blob_hash s)
    ]
content_hash meta_x v path (some s) =
    file_hash (meta_line (meta_or_new path v) ++ xattr_text path v (xattr_list path v))
      (blob_hash s)

-- What stands before the lines of a directory.
unfoldable pub dir_extra : Kind → Vfs → Bytes → Bytes
unfolding xattr_text
dir_extra bare v path = []
dir_extra meta v path = []
dir_extra meta_x v path = xattr_text path v (xattr_list path v)

unfoldable pub merkle_path : ℕ → Kind → Vfs → Bytes → Option Bytes
unfolding content_hash tree_hash lines_of dir_extra
merkle_path zero kind v path = none
merkle_path (suc fuel) kind v path = elim (stat path v) [
  | none ↦ some []
  | some (d, size) ↦ elim d [
    | false ↦ content_hash kind v path (read path v)
    | true ↦
        tree_hash (dir_extra kind v path) (lines_of (merkle_path fuel kind v) v path (list path v))
  ]
]

unfoldable pub merkle_root : ℕ → Vfs → Option Bytes
unfolding merkle_path
merkle_root fuel v = merkle_path fuel bare v (slash ∷ [])
