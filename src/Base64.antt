-- ===== src/Base64.antt =====
-- include/neon/base64.hpp. A byte is a number below 256; `x << k` is `x * 2 ^ k`, and `|` of numbers
-- with no common bit is `+`.
pub mod RoundTrip
use neon_world_os.Base.{
  ℕ, zero, suc, ◌+◌, ◌-◌, ◌*◌, ◌/◌, ◌%◌, ◌^◌, Bool, true, false, ◌&&◌, List, [], ◌∷◌, ◌++◌, Option,
  none, some, Bytes, codes, ◌≡◌, refl, if◌then◌else◌, ltb, leb, ◌==◌, length, get_or,
}

abbrev pub alphabet : Bytes
alphabet = codes "ABCDEFGHIJKLMNOPQRSTUVWXYZabcdefghijklmnopqrstuvwxyz0123456789+/"

-- `T[i]`.
unfoldable pub letter : ℕ → ℕ
letter i = get_or alphabet i 0

abbrev pub pad : ℕ
pad = b'='

-- The four characters of one round, for the position `i` behind the bytes that were read and the
-- length `n` of the text.
unfoldable pub group : ℕ → ℕ → ℕ → ℕ → ℕ → Bytes
unfolding letter
group n i a b c =
    let triple = a * 2 ^ 16 + b * 2 ^ 8 + c in
    letter (triple / 2 ^ 18 % 64)
    ∷ letter (triple / 2 ^ 12 % 64)
    ∷ (if ltb n (i - 1) then pad else letter (triple / 2 ^ 6 % 64))
    ∷ (if ltb n i then pad else letter (triple % 64))
    ∷ []

-- The loop: it reads up to three bytes a round, with 0 for a missing one.
unfoldable pub encode_from : ℕ → ℕ → Bytes → Bytes
unfolding group
encode_from n i [] = []
encode_from n i (a ∷ []) = group n (i + 1) a 0 0
encode_from n i (a ∷ b ∷ []) = group n (i + 2) a b 0
encode_from n i (a ∷ b ∷ c ∷ s) = group n (i + 3) a b c ++ encode_from n (i + 3) s

-- `o[o.size()-k] = v`.
unfoldable pub set_back : ℕ → ℕ → Bytes → Bytes
set_back k v [] = []
set_back k v (c ∷ o) = if length (c ∷ o) == k then v ∷ o else c ∷ set_back k v o

unfoldable pub encode : Bytes → Bytes
unfolding encode_from set_back
encode s =
    let o = encode_from (length s) 0 s in
    if length s % 3 == 1
    then set_back 2 pad (set_back 1 pad o)
    else if length s % 3 == 2
    then set_back 1 pad o
    else o

-- The lambda `val`; `none` is -1.
unfoldable pub val : ℕ → Option ℕ
val c =
    if leb b'A' c && leb c b'Z'
    then some (c - b'A')
    else if leb b'a' c && leb c b'z'
    then some (c - b'a' + 26)
    else if leb b'0' c && leb c b'9'
    then some (c - b'0' + 52)
    else if c == b'+'
    then some 62
    else if c == b'/'
    then some 63
    else none

-- The loop of `Base64Decode` over `buffer` and `bits`. `buffer` is kept as its 32-bit pattern: the loop
-- reads no more than its low 14 bits.
unfoldable pub decode_from : Bytes → ℕ → ℕ → Bytes
unfolding val
decode_from [] buffer bits = []
decode_from (c ∷ s) buffer bits = elim (c == pad) [
  | true ↦ []
  | false ↦ elim (val c) [
    | none ↦ decode_from s buffer bits
    | some v ↦
        let buffer' = (buffer * 64 + v) % 2 ^ 32 in
        elim (leb 8 (bits + 6)) [
          | true ↦ (buffer' / 2 ^ (bits + 6 - 8) % 256) ∷ decode_from s buffer' (bits + 6 - 8)
          | false ↦ decode_from s buffer' (bits + 6)
        ]
  ]
]

unfoldable pub decode : Bytes → Bytes
unfolding decode_from
decode s = decode_from s 0 0

encode_runs : encode (codes "light w") ≡ codes "bGlnaHQgdw=="
unfolding encode
encode_runs = refl
