-- ===== src/Crypto/Merkle/Files.antt =====
-- The hashes of files.
use neon_world_os.Base.{[], ◌∷◌, ◌++◌, Bytes, codes, length}
use mathlib.Core.Option
use neon_world_os.Vfs.Tree
use neon_world_os.Vfs.State.{Vfs}
use neon_world_os.Vfs.Metadata.{xattr_list}
use neon_world_os.Vfs.Dump.{decimal}
use neon_world_os.Crypto.Sha.{hex}
use neon_world_os.Crypto.Sha.Digest.{sha_of}
use neon_world_os.Crypto.Merkle.{Kind, bare, meta, meta_x, meta_line, meta_or_new, xattr_text}

-- The digest of a text in hexadecimal, and of a content behind its header.
abbrev pub hex_of : Bytes → Bytes
hex_of s = hex (sha_of s)

abbrev pub blob_of : Bytes → Bytes
blob_of s = hex_of ((codes "blob " ++ (decimal (length s) ++ 0 ∷ [])) ++ s)

-- What a file with this content hashes to: its blob; the blob and the hash of its metadata; or the blob,
-- its metadata and its attributes.
abbrev pub hash_of : Kind → Vfs → Bytes → Bytes → Bytes
hash_of bare v path s = blob_of s
hash_of meta v path s = hex_of (blob_of s ++ hex_of (meta_line (meta_or_new path v)))
hash_of meta_x v path s =
    hex_of (blob_of s ++ (meta_line (meta_or_new path v) ++ xattr_text path v (xattr_list path v)))
