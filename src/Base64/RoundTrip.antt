-- ===== src/Base64/RoundTrip.antt =====
-- Decoding undoes encoding.
use neon_world_os.Base.{
  ℕ, zero, suc, ◌+◌, ◌-◌, ◌*◌, ◌/◌, ◌%◌, ◌^◌, ◌≤◌, ◌<◌, Bool, true, false, ◌&&◌, not, [], ◌∷◌, ◌++◌,
  none, some, Bytes, ◌≡◌, refl, ap, arith, if◌then◌else◌, ltb, ◌==◌, length, All, inl, inr, ◌⊎◌,
  length-append,
}
use neon_world_os.Base64.{
  letter, pad, group, encode_from, set_back, encode, val, decode_from, decode,
}

abbrev pub IsByte : ℕ → Type 0
IsByte c = c < 256

-- What the decoder makes of the letter of a 6-bit number.
reads_back : ℕ → Bool
reads_back i = not (letter i == pad) && elim (val (letter i)) [ none ↦ false | some v ↦ v == i ]

-- All the numbers below a bound are read back.
letters_read : ℕ → Bool
letters_read zero = true
letters_read (suc n) = if reads_back n then letters_read n else false

letters_read-below : (i n : ℕ) → i < n → letters_read n ≡ true → reads_back i ≡ true
unfolding letters_read
letters_read-below i zero lt h = absurd (omega arith)
letters_read-below i (suc n) lt h = ground (arith, letters_read-below i n)

letters_read_all : letters_read 64 ≡ true
unfolding letters_read reads_back letter val
letters_read_all = refl

letter-val : (i : ℕ) → i < 64 → ((letter i == pad) ≡ false) × (val (letter i) ≡ some i)
unfolding reads_back
letter-val i h = ground (arith, letters_read-below i 64 h letters_read_all)

-- The decoder at a letter, with too few bits for a byte, and with enough.
decode_few :
    (i : ℕ) (s : Bytes) (buffer bits : ℕ)
    → i < 64
    → bits < 2
    → decode_from (letter i ∷ s) buffer bits ≡ decode_from s ((buffer * 64 + i) % 2 ^ 32) (bits + 6)
unfolding decode_from
decode_few i s buffer bits h lt = ground (arith, letter-val i h)

decode_byte :
    (i : ℕ) (s : Bytes) (buffer bits : ℕ)
    → i < 64
    → 2 ≤ bits
    → decode_from (letter i ∷ s) buffer bits
      ≡ ((buffer * 64 + i) % 2 ^ 32 / 2 ^ (bits + 6 - 8) % 256)
        ∷ decode_from s ((buffer * 64 + i) % 2 ^ 32) (bits + 6 - 8)
unfolding decode_from
decode_byte i s buffer bits h le = ground (arith, letter-val i h)

decode_pad : (s : Bytes) (buffer bits : ℕ) → decode_from (pad ∷ s) buffer bits ≡ []
unfolding decode_from
decode_pad s buffer bits = refl

-- One letter behind another.
abbrev next : ℕ → ℕ → ℕ
next buffer i = (buffer * 64 + i) % 2 ^ 32

module _ (a b c buffer : ℕ) (ha : IsByte a) (hb : IsByte b) (hc : IsByte c) where
  abbrev triple : ℕ
  triple = a * 2 ^ 16 + b * 2 ^ 8 + c

  abbrev i₁ : ℕ
  i₁ = triple / 2 ^ 18 % 64

  abbrev i₂ : ℕ
  i₂ = triple / 2 ^ 12 % 64

  abbrev i₃ : ℕ
  i₃ = triple / 2 ^ 6 % 64

  abbrev i₄ : ℕ
  i₄ = triple % 64

  byte₁ : next (next buffer i₁) i₂ / 16 % 256 ≡ a
  byte₁ = omega arith

  byte₂ : next (next (next buffer i₁) i₂) i₃ / 4 % 256 ≡ b
  byte₂ = omega arith

  byte₃ : next (next (next (next buffer i₁) i₂) i₃) i₄ % 256 ≡ c
  byte₃ = omega arith

  after : ℕ
  after = next (next (next (next buffer i₁) i₂) i₃) i₄

  -- A full group gives its three bytes.
  decode-group :
      (n i : ℕ) (s : Bytes)
      → i ≤ n
      → decode_from (group n i a b c ++ s) buffer 0 ≡ a ∷ b ∷ c ∷ decode_from s after 0
  unfolding group after
  decode-group n i s h =
      let p : ltb n (i - 1) ≡ false = ground arith in
      let q : ltb n i ≡ false = ground arith in
      rw (p, q)
        (rw
          (
            decode_few i₁ (letter i₂ ∷ letter i₃ ∷ letter i₄ ∷ s) buffer 0 (omega arith)
                (omega arith),
            decode_byte i₂ (letter i₃ ∷ letter i₄ ∷ s) (next buffer i₁) 6 (omega arith)
                (omega arith),
            decode_byte i₃ (letter i₄ ∷ s) (next (next buffer i₁) i₂) 4 (omega arith) (omega arith),
            decode_byte i₄ s (next (next (next buffer i₁) i₂) i₃) 2 (omega arith) (omega arith),
          )
          (ground (arith, byte₁, byte₂, byte₃)))

-- What the fix-up at the end does to the output for `m` more bytes.
finish : ℕ → Bytes → Bytes
finish m o =
    if m % 3 == 1
    then set_back 2 pad (set_back 1 pad o)
    else if m % 3 == 2
    then set_back 1 pad o
    else o

set_back-append :
    (k v : ℕ) (xs ys : Bytes) → k ≤ length ys → set_back k v (xs ++ ys) ≡ xs ++ set_back k v ys
unfolding set_back
set_back-append k v [] ys h = refl
set_back-append k v (x ∷ xs) ys h = ground (arith, set_back-append k v xs ys h, length-append xs ys)

length-set_back : (k v : ℕ) (xs : Bytes) → length (set_back k v xs) ≡ length xs
unfolding set_back
length-set_back k v [] = refl
length-set_back k v (x ∷ xs) = ground (arith, length-set_back k v xs)

finish-append :
    (m : ℕ) (xs ys : Bytes)
    → (m % 3 ≡ 0) ⊎ (2 ≤ length ys)
    → finish (m + 3) (xs ++ ys) ≡ xs ++ finish m ys
unfolding finish
finish-append m xs ys (inl h) = ground arith
finish-append m xs ys (inr h) = ground (
  arith,
  set_back-append 1 pad xs ys (omega arith),
  set_back-append 2 pad xs (set_back 1 pad ys) (omega (arith, length-set_back 1 pad ys)),
)

length-encode_from : (n i c : ℕ) (s : Bytes) → 2 ≤ length (encode_from n i (c ∷ s))
unfolding encode_from group
length-encode_from n i c [] = omega arith
length-encode_from n i c (d ∷ []) = omega arith
length-encode_from n i c (d ∷ e ∷ s) = omega arith

enough : (n i : ℕ) (s : Bytes) → (length s % 3 ≡ 0) ⊎ (2 ≤ length (encode_from n i s))
enough n i [] = inl refl
enough n i (c ∷ s) = inr (length-encode_from n i c s)

-- The last group of a text whose length leaves the rest 1, and the rest 2.
decode_one :
    (n i a buffer : ℕ) → IsByte a → decode_from (finish 1 (group n i a 0 0)) buffer 0 ≡ a ∷ []
unfolding finish set_back group
decode_one n i a buffer ha =
    let j = i₁ a 0 0 buffer ha (omega arith) (omega arith) in
    let k = i₂ a 0 0 buffer ha (omega arith) (omega arith) in
    rw
      (
        decode_few j (letter k ∷ pad ∷ pad ∷ []) buffer 0 (omega arith) (omega arith),
        decode_byte k (pad ∷ pad ∷ []) (next buffer j) 6 (omega arith) (omega arith),
        decode_pad (pad ∷ []),
      )
      (ap (λ (x : ℕ). x ∷ []) (byte₁ a 0 0 buffer ha (omega arith) (omega arith)))

decode_two :
    (n i a b buffer : ℕ)
    → i ≤ n
    → IsByte a
    → IsByte b
    → decode_from (finish 2 (group n i a b 0)) buffer 0 ≡ a ∷ b ∷ []
unfolding finish set_back group
decode_two n i a b buffer h ha hb =
    let j = i₁ a b 0 buffer ha hb (omega arith) in
    let k = i₂ a b 0 buffer ha hb (omega arith) in
    let l = i₃ a b 0 buffer ha hb (omega arith) in
    let p : ltb n (i - 1) ≡ false = ground arith in
    rw p (
      rw
        (
          decode_few j (letter k ∷ letter l ∷ pad ∷ []) buffer 0 (omega arith) (omega arith),
          decode_byte k (letter l ∷ pad ∷ []) (next buffer j) 6 (omega arith) (omega arith),
          decode_byte l (pad ∷ []) (next (next buffer j) k) 4 (omega arith) (omega arith),
          decode_pad [],
        )
        (ground
          (arith, byte₁ a b 0 buffer ha hb (omega arith), byte₂ a b 0 buffer ha hb (omega arith))))

decode-finish :
    (n i buffer : ℕ) (s : Bytes)
    → All IsByte s
    → i + length s ≤ n
    → decode_from (finish (length s) (encode_from n i s)) buffer 0 ≡ s
unfolding encode_from
decode-finish n i buffer [] h fits = unfold finish decode_from in refl
decode-finish n i buffer (a ∷ []) (ha, h) fits = decode_one n (i + 1) a buffer ha
decode-finish n i buffer (a ∷ b ∷ []) (ha, (hb, h)) fits =
    decode_two n (i + 2) a b buffer (omega arith) ha hb
decode-finish n i buffer (a ∷ b ∷ c ∷ s) (ha, (hb, (hc, h))) fits =
    let e : length (a ∷ b ∷ c ∷ s) ≡ length s + 3 = omega arith in
    rw
      (
        e,
        finish-append (length s) (group n (i + 3) a b c) (encode_from n (i + 3) s)
            (enough n (i + 3) s),
        decode-group a b c buffer ha hb hc n (i + 3) (finish (length s) (encode_from n (i + 3) s))
            (omega arith),
      )
      (ap (λ (xs : Bytes). a ∷ b ∷ c ∷ xs)
        (decode-finish n (i + 3) (after a b c buffer ha hb hc) s h (omega arith)))

-- Decoding the encoding of any text of bytes gives the text back.
pub decode-encode : (s : Bytes) → All IsByte s → decode (encode s) ≡ s
unfolding decode encode finish
decode-encode s h = decode-finish (length s) 0 0 s h (omega arith)
