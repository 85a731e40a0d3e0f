-- ===== src/Crypto/Hmac/Keyed.antt =====
-- `HmacSha256` is the construction of RFC 2104 over the digest of the class.
use neon_world_os.Base.{
  ◌++◌, Option, some, Bytes, ◌≡◌, ap, ◌∙◌, arith, if◌then◌else◌, ltb, length, Bool-cases, inl, inr,
}
use mathlib.Core.Option
use neon_world_os.Crypto.Sha.{new_sha, update, digest_of, hex}
use neon_world_os.Crypto.Sha.Feed.{update-append, update-feed}
use neon_world_os.Crypto.Sha.Digest.{sha_of, digest-sha_of}
use neon_world_os.Crypto.Hmac.{
  update_more, digest_two, digest_one, pad_key, block_key, xor_key, outer, hmac_with, hmac_sha256,
}

pub digest_one-sha_of : (s : Bytes) → digest_one s ≡ some (sha_of s)
unfolding digest_one
digest_one-sha_of s = digest-sha_of s

update_more-append : (s t : Bytes) → update_more t (update s new_sha) ≡ update (s ++ t) new_sha
update_more-append s t =
    let e = update-feed s new_sha (omega arith) in
    rw e (unfold update_more in update-append s t new_sha _ (omega arith) e)

pub digest_two-sha_of : (s t : Bytes) → digest_two s t ≡ some (sha_of (s ++ t))
unfolding digest_two
digest_two-sha_of s t = ap digest_of (update_more-append s t) ∙ digest-sha_of (s ++ t)

-- The key of one block.
unfoldable pub key_of : Bytes → Bytes
unfolding pad_key
key_of key = if ltb 64 (length key) then pad_key (sha_of key) else pad_key key

block_key-key_of : (key : Bytes) → block_key key ≡ some (key_of key)
unfolding block_key key_of
block_key-key_of key = elim (Bool-cases (ltb 64 (length key))) [
  | inl e ↦ rw (e, block_key, digest_one-sha_of key)
  | inr e ↦ rw (e, block_key)
]

-- `HmacSha256` ends, and is the digest of the outer key followed by the digest of the inner key followed
-- by the text, in hexadecimal; the keys are the key, or its digest if it is longer than a block, filled up
-- with zeros, under the two masks.
pub hmac_sha256_lem :
    (key text : Bytes)
    → hmac_sha256 key text
      ≡ some
          (hex (sha_of (xor_key 0x5c (key_of key) ++ sha_of (xor_key 0x36 (key_of key) ++ text))))
unfolding hmac_sha256
hmac_sha256_lem key text =
    let i : Bytes = xor_key 0x36 (key_of key) in
    let o : Bytes = xor_key 0x5c (key_of key) in
    ap (λ (k : Option Bytes). hmac_with k text) (block_key-key_of key)
    ∙ (unfold hmac_with in ap (outer (key_of key)) (digest_two-sha_of i text))
    ∙ (unfold outer in ap (Option.map hex) (digest_two-sha_of o (sha_of (i ++ text))))
