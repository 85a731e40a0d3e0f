-- ===== src/Crypto/Sha/Digest.antt =====
-- What `digest` computes: the compression of the blocks of the padded text.
use neon_world_os.Base.{
  ℕ, zero, suc, ◌+◌, ◌-◌, ◌*◌, ◌/◌, ◌%◌, ◌^◌, ◌≤◌, [], ◌∷◌, ◌++◌, Option, some, Bytes, ◌≡◌, refl,
  sym, ap, ◌∙◌, arith, if◌then◌else◌, ltb, length, take, drop, length-append,
}
use mathlib.Core.Option
use neon_world_os.Crypto.Sha.{
  Words, Sha, start_words, new_sha, transform, flush_block, update, zeros, padding, big_endian,
  bytes_of, finish, digest, digest_of,
}
use neon_world_os.Crypto.Sha.Feed.{
  feed, IsOpen, counted, feed-append, feed-part, feed_byte-length, feed_byte, feed-counted,
  feed_byte-IsOpen, update-feed, update-append, take-append-drop,
}

-- The words after `k` blocks of 64 bytes.
unfoldable pub blocks : ℕ → Bytes → Words → Words
blocks zero s r = r
blocks (suc k) s r = blocks k (drop 64 s) (transform (take 64 s) r)

-- How many bytes are put behind a text of `n` bytes, before its length.
unfoldable pub pad_length : ℕ → ℕ
pad_length n = if ltb (n % 64) 56 then 56 - n % 64 else 120 - n % 64

unfoldable pub pad_of : Bytes → Bytes
unfolding pad_length
pad_of s = take (pad_length (length s)) (0x80 ∷ zeros 63)

-- The padded text. The number at its end counts the bits of the text and of the padding.
unfoldable pub padded : Bytes → Bytes
unfolding pad_of big_endian
padded s = (s ++ pad_of s) ++ big_endian 8 (length (s ++ pad_of s) * 8 % 2 ^ 64)

-- The digest of a text, without streaming.
unfoldable pub sha_of : Bytes → Bytes
unfolding padded blocks bytes_of
sha_of s = bytes_of (blocks (length (padded s) / 64) (padded s) start_words)

length-buf-feed :
    (s : Bytes) (c : Sha) → IsOpen c → length (feed s c).buf ≡ (length c.buf + length s) % 64
unfolding feed
length-buf-feed [] c h = omega arith
length-buf-feed (p ∷ s) c h =
    omega
      (arith, length-buf-feed s (feed_byte p c) (feed_byte-IsOpen p c h), feed_byte-length p c h)

-- A full block.
feed_block :
    (p : ℕ) (s : Bytes) (r : Words) (n : ℕ)
    → length (p ∷ s) ≡ 64
    → feed (p ∷ s) (record { bitlen = n; state = r; buf = [] })
      ≡ record { bitlen = n; state = transform (p ∷ s) r; buf = [] }
feed_block p s r n h = feed-part p s _ (omega (arith, h)) ∙ full (p ∷ s) h
  where
    full :
        (u : Bytes)
        → length u ≡ 64
        → flush_block (record { bitlen = n; state = r; buf = u })
          ≡ record { bitlen = n; state = transform u r; buf = [] }
    full u e = unfold flush_block in rw e

length-take : (n : ℕ) (s : Bytes) → n ≤ length s → length (take n s) ≡ n
length-take zero s h = omega arith
length-take (suc n) [] h = absurd (omega arith)
length-take (suc n) (p ∷ s) h = omega (arith, length-take n s (omega arith))

length-drop-add : (n : ℕ) (s : Bytes) → n ≤ length s → length (drop n s) + n ≡ length s
length-drop-add zero s h = omega arith
length-drop-add (suc n) [] h = absurd (omega arith)
length-drop-add (suc n) (p ∷ s) h = omega (arith, length-drop-add n s (omega arith))

feed-blocks :
    (k : ℕ) (s : Bytes) (r : Words) (n : ℕ)
    → length s ≡ k * 64
    → feed s (record { bitlen = n; state = r; buf = [] })
      ≡ record { bitlen = n; state = blocks k s r; buf = [] }
unfolding blocks
feed-blocks zero [] r n h = unfold feed in refl
feed-blocks zero (p ∷ s) r n h = absurd (omega arith)
feed-blocks (suc k) [] r n h = absurd (omega arith)
feed-blocks (suc k) (p ∷ s) r n h =
    let c : Sha = record { bitlen = n; state = r; buf = [] } in
    ap (λ (t : Bytes). feed t c) (sym (take-append-drop 64 (p ∷ s)))
    ∙ feed-append (take 64 (p ∷ s)) (drop 64 (p ∷ s)) c
    ∙ ap (feed (drop 64 (p ∷ s)))
        (feed_block p (take 63 s) r n (length-take 64 (p ∷ s) (omega (arith, h))))
    ∙ feed-blocks k (drop 64 (p ∷ s)) (transform (take 64 (p ∷ s)) r) n
        (omega (arith, length-drop-add 64 (p ∷ s) (omega (arith, h)), h))

-- The state after a text.
after : Bytes → Sha
after s = counted (length s * 8 % 2 ^ 64) (feed s new_sha)

update-after : (s : Bytes) → update s new_sha ≡ some (after s)
unfolding after
update-after s =
    let e : (0 + length s * 8) % 2 ^ 64 ≡ length s * 8 % 2 ^ 64 = omega arith in
    update-feed s new_sha (omega arith)
    ∙ ap (λ (n : ℕ). some (feed s (counted n new_sha))) e
    ∙ ap some (feed-counted s (length s * 8 % 2 ^ 64) new_sha)

update-after-append : (s t : Bytes) → update t (after s) ≡ some (after (s ++ t))
update-after-append s t =
    update-append s t new_sha (after s) (omega arith) (update-after s) ∙ update-after (s ++ t)

padding-feed : (s : Bytes) → padding (feed s new_sha).buf ≡ pad_of s
unfolding padding pad_of pad_length
padding-feed s =
    let e : length (feed s new_sha).buf ≡ length s % 64 =
      omega (arith, length-buf-feed s new_sha (omega arith)) in
    ap (λ (n : ℕ). take (if ltb n 56 then 56 - n else 120 - n) (0x80 ∷ zeros 63)) e

pad_length-fills : (n : ℕ) → ((n + pad_length n + 8) % 64 ≡ 0) × (pad_length n ≤ 64)
unfolding pad_length
pad_length-fills n = ground arith

-- The padded text fills its blocks.
pub padded-blocks : (s : Bytes) → length (padded s) ≡ length (padded s) / 64 * 64
unfolding padded pad_of
padded-blocks s =
    let n : ℕ = length s in
    let pad : Bytes = take (pad_length n) (0x80 ∷ zeros 63) in
    omega (
      arith,
      pad_length-fills n,
      length-take (pad_length n) (0x80 ∷ zeros 63) (omega (arith, pad_length-fills n)),
      length-append s pad,
      length-append (s ++ pad) (big_endian 8 (length (s ++ pad) * 8 % 2 ^ 64)),
    )

finish-after :
    (s : Bytes) → finish (some (after s)) ≡ some (after (s ++ big_endian 8 (length s * 8 % 2 ^ 64)))
unfolding finish after
finish-after s = update-after-append s (big_endian 8 (length s * 8 % 2 ^ 64))

-- `digest` after an `update` with a text gives the compression of the blocks of the padded text, from the
-- words that the class starts with; it ends.
pub digest-sha_of : (s : Bytes) → digest_of (update s new_sha) ≡ some (sha_of s)
unfolding sha_of digest_of digest after padded
digest-sha_of s =
    let words : (feed (padded s) new_sha).state
        ≡ blocks (length (padded s) / 64) (padded s) start_words =
      ap (λ (c : Sha). c.state)
        (feed-blocks (length (padded s) / 64) (padded s) start_words 0 (padded-blocks s)) in
    ap digest_of (update-after s)
    ∙ ap (λ (t : Bytes). Option.map (λ r. bytes_of r.state) (finish (update t (after s))))
        (padding-feed s)
    ∙ ap (λ (o : Option Sha). Option.map (λ r. bytes_of r.state) (finish o))
        (update-after-append s (pad_of s))
    ∙ ap (Option.map (λ r. bytes_of r.state)) (finish-after (s ++ pad_of s))
    ∙ ap (λ (w : Words). some (bytes_of w)) words
