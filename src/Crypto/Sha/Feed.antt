-- ===== src/Crypto/Sha/Feed.antt =====
-- `update` against feeding a text byte by byte: how a text is cut into calls does not matter.
use neon_world_os.Base.{
  ℕ, zero, suc, ◌+◌, ◌-◌, ◌*◌, ◌%◌, ◌^◌, ◌≤◌, ◌<◌, min, [], ◌∷◌, ◌++◌, some, Bytes, ◌≡◌, refl, sym,
  ap, subst, ◌∙◌, arith, ◌==◌, length, take, drop, append_assoc, length-append, Bool-cases, inl,
  inr,
}
use neon_world_os.Crypto.Sha.{Sha, flush_block, update_loop, update}

-- One byte.
unfoldable pub feed_byte : ℕ → Sha → Sha
unfolding flush_block
feed_byte p c = flush_block (record c { buf = c.buf ++ p ∷ [] })

unfoldable pub feed : Bytes → Sha → Sha
unfolding feed_byte
feed [] c = c
feed (p ∷ s) c = feed s (feed_byte p c)

-- The buffer is not full between two calls.
abbrev pub IsOpen : Sha → Type 0
IsOpen c = length c.buf < 64

pub feed-append : (s t : Bytes) (c : Sha) → feed (s ++ t) c ≡ feed t (feed s c)
unfolding feed
feed-append [] t c = refl
feed-append (p ∷ s) t c = feed-append s t (feed_byte p c)

flush_block-open : (c : Sha) → length c.buf < 64 → flush_block c ≡ c
unfolding flush_block
flush_block-open c h = ground arith

pub feed_byte-IsOpen : (p : ℕ) (c : Sha) → IsOpen c → IsOpen (feed_byte p c)
unfolding feed_byte
feed_byte-IsOpen p c h = ground (arith, length-append c.buf (p ∷ []))

-- One byte more, or none after a full block.
pub feed_byte-length :
    (p : ℕ) (c : Sha) → IsOpen c → length (feed_byte p c).buf ≡ (length c.buf + 1) % 64
unfolding feed_byte flush_block
feed_byte-length p c h = ground (arith, length-append c.buf (p ∷ []))

pub feed-IsOpen : (s : Bytes) (c : Sha) → IsOpen c → IsOpen (feed s c)
unfolding feed
feed-IsOpen [] c h = h
feed-IsOpen (p ∷ s) c h = feed-IsOpen s (feed_byte p c) (feed_byte-IsOpen p c h)

-- A part that fits into the buffer.
pub feed-part :
    (p : ℕ) (s : Bytes) (c : Sha)
    → length c.buf + length (p ∷ s) ≤ 64
    → feed (p ∷ s) c ≡ flush_block (record c { buf = c.buf ++ p ∷ s })
unfolding feed feed_byte
feed-part p [] c h = refl
feed-part p (q ∷ s) c h =
    let c' : Sha = record c { buf = c.buf ++ p ∷ [] } in
    let len = length-append c.buf (p ∷ []) in
    ap (λ (x : Sha). feed s (feed_byte q x)) (flush_block-open c' (omega (arith, len)))
    ∙ feed-part q s c' (omega (arith, len))
    ∙ ap (λ (b : Bytes). flush_block (record c { buf = b })) (append_assoc c.buf (p ∷ []) (q ∷ s))

pub take-append-drop : (n : ℕ) (s : Bytes) → take n s ++ drop n s ≡ s
take-append-drop zero s = refl
take-append-drop (suc n) [] = refl
take-append-drop (suc n) (p ∷ s) = ap (◌∷◌ p) (take-append-drop n s)

length-take-le : (n : ℕ) (s : Bytes) → length (take n s) ≤ n
length-take-le zero s = omega arith
length-take-le (suc n) [] = omega arith
length-take-le (suc n) (p ∷ s) = omega (arith, length-take-le n s)

length-drop-le : (n : ℕ) (s : Bytes) → length (drop n s) ≤ length s
length-drop-le zero s = omega arith
length-drop-le (suc n) [] = omega arith
length-drop-le (suc n) (p ∷ s) = omega (arith, length-drop-le n s)

-- A round of the loop is a part that is fed, and the rest.
feed_round :
    (k p : ℕ) (s : Bytes) (c : Sha)
    → length c.buf + suc k ≤ 64
    → feed (drop k s) (flush_block (record c { buf = c.buf ++ p ∷ take k s })) ≡ feed (p ∷ s) c
feed_round k p s c fits =
    ap (feed (drop k s)) (sym (feed-part p (take k s) c (omega (arith, length-take-le k s))))
    ∙ sym (feed-append (p ∷ take k s) (drop k s) c)
    ∙ ap (λ (t : Bytes). feed (p ∷ t) c) (take-append-drop k s)

update_loop-feed :
    (fuel : ℕ) (s : Bytes) (c : Sha)
    → IsOpen c
    → length s ≤ fuel
    → update_loop fuel s c ≡ some (feed s c)
unfolding update_loop
update_loop-feed zero [] c h le = unfold feed in refl
update_loop-feed (suc fuel) [] c h le = unfold feed in refl
update_loop-feed zero (p ∷ s) c h le = absurd (omega arith)
update_loop-feed (suc fuel) (p ∷ s) c h le =
    let k = min (64 - length c.buf) (length (p ∷ s)) - 1 in
    let e : min (64 - length c.buf) (length (p ∷ s)) ≡ suc k = omega arith in
    let fits : length c.buf + suc k ≤ 64 = omega arith in
    let c' : Sha = flush_block (record c { buf = c.buf ++ p ∷ take k s }) in
    let open' : IsOpen c' =
      subst IsOpen (feed-part p (take k s) c (omega (arith, length-take-le k s)))
        (feed-IsOpen (p ∷ take k s) c h) in
    ap
      (λ (t : ℕ).
        update_loop fuel (drop t (p ∷ s))
          (flush_block (record c { buf = c.buf ++ take t (p ∷ s) })))
      e
    ∙ update_loop-feed fuel (drop k s) c' open' (omega (arith, length-drop-le k s))
    ∙ ap some (feed_round k p s c fits)

-- `update` ends, and it feeds the bytes one by one and counts their bits.
pub update-feed :
    (s : Bytes) (c : Sha)
    → IsOpen c
    → update s c ≡ some (feed s (record c { bitlen = (c.bitlen + length s * 8) % 2 ^ 64 }))
unfolding update
update-feed s c h = update_loop-feed (length s) s _ h (omega arith)

-- The bits are counted apart from the rest.
abbrev pub counted : ℕ → Sha → Sha
counted n c = record c { bitlen = n }

feed_byte-counted : (p n : ℕ) (c : Sha) → feed_byte p (counted n c) ≡ counted n (feed_byte p c)
unfolding feed_byte flush_block
feed_byte-counted p n c = elim (Bool-cases (length (c.buf ++ p ∷ []) == 64)) [
  | inl e ↦ rw e
  | inr e ↦ rw e
]

pub feed-counted : (s : Bytes) (n : ℕ) (c : Sha) → feed s (counted n c) ≡ counted n (feed s c)
unfolding feed
feed-counted [] n c = refl
feed-counted (p ∷ s) n c = ap (feed s) (feed_byte-counted p n c) ∙ feed-counted s n (feed_byte p c)

-- Two calls of `update` are one call with the two texts in a row, so it does not matter how a text is cut
-- into calls.
pub update-append :
    (s t : Bytes) (c d : Sha) → IsOpen c → update s c ≡ some d → update t d ≡ update (s ++ t) c
update-append s t c d h e =
    let n : ℕ = (c.bitlen + length s * 8) % 2 ^ 64 in
    let m : ℕ = (c.bitlen + length (s ++ t) * 8) % 2 ^ 64 in
    let same : d ≡ feed s (counted n c) = cc (update-feed s c h) in
    let later : (n + length t * 8) % 2 ^ 64 ≡ m = omega (arith, length-append s t) in
    subst (λ (x : Sha). update t x ≡ update (s ++ t) c) (sym (same ∙ feed-counted s n c))
      (update-feed t (counted n (feed s c)) (feed-IsOpen s c h)
        ∙ ap (λ (k : ℕ). some (feed t (counted k (feed s c)))) later
        ∙ ap (λ (x : Sha). some (feed t x)) (sym (feed-counted s m c))
        ∙ ap some (sym (feed-append s t (counted m c)))
        ∙ sym (update-feed (s ++ t) c h))
