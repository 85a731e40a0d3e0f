-- ===== src/Crypto/Hmac.antt =====
-- `HmacSha256` of include/neon/crypto.hpp.
pub mod Keyed
use Prim.Native.Nat.{bit_xor}
use neon_world_os.Base.{
  ℕ, zero, suc, ◌-◌, true, false, List, [], ◌∷◌, ◌++◌, Option, none, some, Bytes, if◌then◌else◌,
  ltb, length,
}
use mathlib.Core.Option
use neon_world_os.Crypto.Sha.{Sha, new_sha, update, zeros, digest_of, hex}

-- A second `update`, after a first.
unfoldable pub update_more : Bytes → Option Sha → Option Sha
update_more s none = none
update_more s (some c) = update s c

-- `Sha256 h; h.update(s); h.update(t); h.digest()`, and with one `update`.
unfoldable pub digest_two : Bytes → Bytes → Option Bytes
unfolding update_more digest_of
digest_two s t = digest_of (update_more t (update s new_sha))

unfoldable pub digest_one : Bytes → Option Bytes
unfolding digest_of
digest_one s = digest_of (update s new_sha)

-- `k` after the two tests on its size.
unfoldable pub pad_key : Bytes → Bytes
pad_key k = if ltb (length k) 64 then k ++ zeros (64 - length k) else k

unfoldable pub block_key : Bytes → Option Bytes
unfolding digest_one pad_key
block_key key = elim (ltb 64 (length key)) [
  | true ↦ Option.map pad_key (digest_one key)
  | false ↦ some (pad_key key)
]

-- The byte `b`, 64 times, with the key: `o` and `i`.
unfoldable pub xor_key : ℕ → Bytes → Bytes
xor_key b [] = []
xor_key b (c ∷ k) = bit_xor b c ∷ xor_key b k

-- The outer digest, with the result of the inner one.
unfoldable pub outer : Bytes → Option Bytes → Option Bytes
unfolding digest_two hex xor_key
outer k none = none
outer k (some d) = Option.map hex (digest_two (xor_key 0x5c k) d)

unfoldable pub hmac_with : Option Bytes → Bytes → Option Bytes
unfolding outer digest_two xor_key
hmac_with none text = none
hmac_with (some k) text = outer k (digest_two (xor_key 0x36 k) text)

unfoldable pub hmac_sha256 : Bytes → Bytes → Option Bytes
unfolding hmac_with block_key
hmac_sha256 key text = hmac_with (block_key key) text
