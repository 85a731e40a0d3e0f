-- ===== src/Tests/CryptoTests.antt =====
-- The hashes of include/neon/crypto.hpp and include/neon/merkle.hpp on concrete inputs.
use neon_world_os.Base.{true, false, [], ◌∷◌, ◌++◌, some, ◌≡◌, refl, codes}
use neon_world_os.Vfs.State.{Vfs, new_vfs}
use neon_world_os.Vfs.Tree.{node, nil, entry}
use neon_world_os.Crypto.Sha.{Sha, new_sha, update, digest_of, hex, rotr, update_loop, flush_block}
use neon_world_os.Crypto.Sha.Digest.{sha_of, digest-sha_of}
use neon_world_os.Crypto.Hmac.{hmac_sha256, xor_key}
use neon_world_os.Crypto.Hmac.Keyed.{hmac_sha256_lem, key_of}

rotr_runs : rotr 1 2 ≡ 0x40000000
unfolding rotr
rotr_runs = refl

-- After two bytes.
abbrev started : Sha
started = record new_sha { bitlen = 16; buf = 97 ∷ 98 ∷ [] }

two_bytes : update (97 ∷ 98 ∷ []) new_sha ≡ some started
unfolding update update_loop flush_block
two_bytes = refl

digest-sha_of_example : digest_of (update (codes "abc") new_sha) ≡ some (sha_of (codes "abc"))
digest-sha_of_example = digest-sha_of (codes "abc")

hmac_sha256_example :
    hmac_sha256 (codes "key") (codes "text")
    ≡ some (
        hex (
          sha_of (
            xor_key 0x5c (key_of (codes "key"))
            ++ sha_of (xor_key 0x36 (key_of (codes "key")) ++ codes "text"))))
hmac_sha256_example = hmac_sha256_lem (codes "key") (codes "text")

-- A file system with a file, and the new one.
abbrev with_file : Vfs
with_file = record new_vfs {
  root =
      node true (codes "/") [] (entry (codes "a") (node false (codes "a") (codes "hello") nil) nil);
}
