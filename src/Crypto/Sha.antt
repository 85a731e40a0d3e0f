-- ===== src/Crypto/Sha.antt =====
-- `class Sha256` of include/neon/crypto.hpp. A word is a number below 2 ^ 32, a byte one below 256.
-- `buf_` and `buflen_` are the list of the bytes of `buf_` below `buflen_`; those above are never read.
pub mod Feed
pub mod Digest
use Prim.Native.Nat.{bit_and, bit_or, bit_xor}
use neon_world_os.Base.{
  ℕ, zero, suc, ◌+◌, ◌-◌, ◌*◌, ◌/◌, ◌%◌, ◌^◌, min, Bool, true, false, List, [], ◌∷◌, ◌++◌, Option,
  none, some, Bytes, codes, if◌then◌else◌, ltb, ◌==◌, length, get_or, take, drop,
}
use mathlib.Core.Option

abbrev pub word_mod : ℕ
word_mod = 2 ^ 32

unfoldable pub rotr : ℕ → ℕ → ℕ
rotr x n = bit_or (x / 2 ^ n) (x * 2 ^ (32 - n) % word_mod)

unfoldable pub ch : ℕ → ℕ → ℕ → ℕ
ch x y z = bit_xor (bit_and x y) (bit_and (bit_xor x 0xffffffff) z)

unfoldable pub maj : ℕ → ℕ → ℕ → ℕ
maj x y z = bit_xor (bit_xor (bit_and x y) (bit_and x z)) (bit_and y z)

unfoldable pub bsig0 : ℕ → ℕ
unfolding rotr
bsig0 x = bit_xor (bit_xor (rotr x 2) (rotr x 13)) (rotr x 22)

unfoldable pub bsig1 : ℕ → ℕ
unfolding rotr
bsig1 x = bit_xor (bit_xor (rotr x 6) (rotr x 11)) (rotr x 25)

unfoldable pub ssig0 : ℕ → ℕ
unfolding rotr
ssig0 x = bit_xor (bit_xor (rotr x 7) (rotr x 18)) (x / 2 ^ 3)

unfoldable pub ssig1 : ℕ → ℕ
unfolding rotr
ssig1 x = bit_xor (bit_xor (rotr x 17) (rotr x 19)) (x / 2 ^ 10)

-- `K`.
unfoldable pub round_constants : List ℕ
round_constants =
    0x428a2f98 ∷ 0x71374491 ∷ 0xb5c0fbcf ∷ 0xe9b5dba5 ∷ 0x3956c25b ∷ 0x59f111f1 ∷ 0x923f82a4
    ∷ 0xab1c5ed5 ∷ 0xd807aa98 ∷ 0x12835b01 ∷ 0x243185be ∷ 0x550c7dc3 ∷ 0x72be5d74 ∷ 0x80deb1fe
    ∷ 0x9bdc06a7 ∷ 0xc19bf174 ∷ 0xe49b69c1 ∷ 0xefbe4786 ∷ 0x0fc19dc6 ∷ 0x240ca1cc ∷ 0x2de92c6f
    ∷ 0x4a7484aa ∷ 0x5cb0a9dc ∷ 0x76f988da ∷ 0x983e5152 ∷ 0xa831c66d ∷ 0xb00327c8 ∷ 0xbf597fc7
    ∷ 0xc6e00bf3 ∷ 0xd5a79147 ∷ 0x06ca6351 ∷ 0x14292967 ∷ 0x27b70a85 ∷ 0x2e1b2138 ∷ 0x4d2c6dfc
    ∷ 0x53380d13 ∷ 0x650a7354 ∷ 0x766a0abb ∷ 0x81c2c92e ∷ 0x92722c85 ∷ 0xa2bfe8a1 ∷ 0xa81a664b
    ∷ 0xc24b8b70 ∷ 0xc76c51a3 ∷ 0xd192e819 ∷ 0xd6990624 ∷ 0xf40e3585 ∷ 0x106aa070 ∷ 0x19a4c116
    ∷ 0x1e376c08 ∷ 0x2748774c ∷ 0x34b0bcb5 ∷ 0x391c0cb3 ∷ 0x4ed8aa4a ∷ 0x5b9cca4f ∷ 0x682e6ff3
    ∷ 0x748f82ee ∷ 0x78a5636f ∷ 0x84c87814 ∷ 0x8cc70208 ∷ 0x90befffa ∷ 0xa4506ceb ∷ 0xbef9a3f7
    ∷ 0xc67178f2 ∷ []

-- The eight words of `state_`, and the eight variables of `transform`.
pub record Words : Type 0 where
  pub a : ℕ
  pub b : ℕ
  pub c : ℕ
  pub d : ℕ
  pub e : ℕ
  pub f : ℕ
  pub g : ℕ
  pub h : ℕ

abbrev pub start_words : Words
start_words = record {
  a = 0x6a09e667;
  b = 0xbb67ae85;
  c = 0x3c6ef372;
  d = 0xa54ff53a;
  e = 0x510e527f;
  f = 0x9b05688c;
  g = 0x1f83d9ab;
  h = 0x5be0cd19;
}

-- The first 16 words of `w`.
unfoldable pub load_words : Bytes → List ℕ
load_words (p ∷ q ∷ r ∷ s ∷ block) = (p * 2 ^ 24 + q * 2 ^ 16 + r * 2 ^ 8 + s) ∷ load_words block
load_words block = []

-- The other words, from the index `i` on.
unfoldable pub extend_words : ℕ → ℕ → List ℕ → List ℕ
unfolding ssig0 ssig1
extend_words zero i w = w
extend_words (suc n) i w = extend_words n (i + 1) (
    w
    ++ ((ssig1 (get_or w (i - 2) 0)
          + get_or w (i - 7) 0
          + ssig0 (get_or w (i - 15) 0)
          + get_or w (i - 16) 0)
        % word_mod)
      ∷ [])

-- One round, with `K[i]` and `w[i]`.
unfoldable pub round : ℕ → ℕ → Words → Words
unfolding bsig0 bsig1 ch maj
round k w r =
    let t1 = (r.h + bsig1 r.e + ch r.e r.f r.g + k + w) % word_mod in
    let t2 = (bsig0 r.a + maj r.a r.b r.c) % word_mod in
    record {
      a = (t1 + t2) % word_mod;
      b = r.a;
      c = r.b;
      d = r.c;
      e = (r.d + t1) % word_mod;
      f = r.e;
      g = r.f;
      h = r.g;
    }

unfoldable pub rounds : List ℕ → List ℕ → Words → Words
unfolding round
rounds [] ws r = r
rounds (k ∷ ks) [] r = r
rounds (k ∷ ks) (w ∷ ws) r = rounds ks ws (round k w r)

unfoldable pub add_words : Words → Words → Words
add_words s r = record {
  a = (s.a + r.a) % word_mod;
  b = (s.b + r.b) % word_mod;
  c = (s.c + r.c) % word_mod;
  d = (s.d + r.d) % word_mod;
  e = (s.e + r.e) % word_mod;
  f = (s.f + r.f) % word_mod;
  g = (s.g + r.g) % word_mod;
  h = (s.h + r.h) % word_mod;
}

unfoldable pub transform : Bytes → Words → Words
unfolding load_words extend_words rounds round_constants add_words
transform block state =
    add_words state (rounds round_constants (extend_words 48 16 (load_words block)) state)

pub record Sha : Type 0 where
  pub bitlen : ℕ
  pub state : Words
  pub buf : Bytes

abbrev pub new_sha : Sha
new_sha = record { bitlen = 0; state = start_words; buf = [] }

-- `if (buflen_==64){ transform(buf_.data()); buflen_=0; }`.
unfoldable pub flush_block : Sha → Sha
flush_block c =
    if length c.buf == 64 then record c { state = transform c.buf c.state; buf = [] } else c

-- The loop of `update`; `none` is out of fuel.
unfoldable pub update_loop : ℕ → Bytes → Sha → Option Sha
unfolding flush_block
update_loop fuel [] c = some c
update_loop zero (p ∷ s) c = none
update_loop (suc fuel) (p ∷ s) c =
    let t = min (64 - length c.buf) (length (p ∷ s)) in
    update_loop fuel (drop t (p ∷ s)) (flush_block (record c { buf = c.buf ++ take t (p ∷ s) }))

unfoldable pub update : Bytes → Sha → Option Sha
unfolding update_loop
update s c = update_loop (length s) s (record c { bitlen = (c.bitlen + length s * 8) % 2 ^ 64 })

-- `pad`, and the part of it that is used.
abbrev pub zeros : ℕ → Bytes
zeros zero = []
zeros (suc n) = 0 ∷ zeros n

unfoldable pub padding : Bytes → Bytes
padding buf =
    take (if ltb (length buf) 56 then 56 - length buf else 120 - length buf) (0x80 ∷ zeros 63)

-- The `n` lowest bytes of a number, the highest first.
unfoldable pub big_endian : ℕ → ℕ → Bytes
big_endian zero x = []
big_endian (suc n) x = (x / 2 ^ (8 * n) % 256) ∷ big_endian n x

unfoldable pub bytes_of : Words → Bytes
unfolding big_endian
bytes_of r =
    big_endian 4 r.a
    ++ (big_endian 4 r.b
        ++ (big_endian 4 r.c
            ++ (big_endian 4 r.d
                ++ (big_endian 4 r.e
                    ++ (big_endian 4 r.f ++ (big_endian 4 r.g ++ big_endian 4 r.h))))))

-- The first `update` of `digest` counts the padding in `bitlen_`, before `lenb` is made of it.
unfoldable pub finish : Option Sha → Option Sha
unfolding big_endian
finish none = none
finish (some c) = update (big_endian 8 c.bitlen) c

unfoldable pub digest : Sha → Option Bytes
unfolding padding finish bytes_of
digest c = Option.map (λ r. bytes_of r.state) (finish (update (padding c.buf) c))

abbrev pub hex_digits : Bytes
hex_digits = codes "0123456789abcdef"

unfoldable pub hex : Bytes → Bytes
hex [] = []
hex (b ∷ d) = get_or hex_digits (b / 16) 0 ∷ get_or hex_digits (b % 16) 0 ∷ hex d

-- The local variable `Sha256 h`, one `update` with the text, and its `digest`.
unfoldable pub digest_of : Option Sha → Option Bytes
digest_of none = none
digest_of (some c) = digest c
