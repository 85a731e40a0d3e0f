-- ===== src/Glob/Meaning.antt =====
-- What the patterns of `glob_match` mean, as a recursion over the pattern.
use native.Mathlib.Nat.{add_comm, zero-add, add-zero, suc-add}
use neon_world_os.Base.{
  ℕ, zero, suc, ◌+◌, ◌≤◌, Bool, true, false, ◌&&◌, ◌||◌, [], ◌∷◌, ◌++◌, ◌≡◌, ◌≢◌, refl, arith,
  Bytes, ◌==◌, length, drop, Lacks, Bool-cases, inl, inr,
}
use neon_world_os.Glob.{any_char, star, only_stars}

-- Some end of the text satisfies the test.
unfoldable pub any_tail : (Bytes → Bool) → Bytes → Bool
any_tail f [] = f []
any_tail f (c ∷ s) = f (c ∷ s) || any_tail f s

-- What a pattern means: `*` stands for any text, `?` for any byte, another byte for itself.
unfoldable pub matches : Bytes → Bytes → Bool
unfolding any_tail
matches [] [] = true
matches [] (c ∷ s) = false
matches (d ∷ p) s = elim (d == star) [
  | true ↦ any_tail (matches p) s
  | false ↦ elim s [ [] ↦ false | c ∷ s' ↦ (d == any_char || d == c) && matches p s' ]
]

pub matches-star : (p s : Bytes) → matches (star ∷ p) s ≡ any_tail (matches p) s
unfolding matches
matches-star p s = refl

pub matches_char :
    (d c : ℕ) (p s : Bytes)
    → d ≢ star
    → matches (d ∷ p) (c ∷ s) ≡ ((d == any_char || d == c) && matches p s)
unfolding matches
matches_char d c p s h = ground arith

pub matches_char_nil : (d : ℕ) (p : Bytes) → d ≢ star → matches (d ∷ p) [] ≡ false
unfolding matches
matches_char_nil d p h = ground arith

pub only_stars-matches : (p : Bytes) → only_stars p ≡ matches p []
unfolding only_stars matches
only_stars-matches [] = refl
only_stars-matches (d ∷ p) = ground (arith, only_stars-matches p)

-- What is still open while the loop looks at a text behind a mark: the ends of the text at the mark
-- that were not tried.
unfoldable pub later : Bytes → Bytes → Bool
later q [] = false
later q (c ∷ m) = any_tail (matches q) m

pub any_tail-later : (q m : Bytes) → (matches q m || later q m) ≡ any_tail (matches q) m
unfolding later any_tail
any_tail-later q [] = ground arith
any_tail-later q (c ∷ m) = refl

pub any_tail-drop :
    (f : Bytes → Bool) (k : ℕ) (s : Bytes) → any_tail f (drop k s) ≡ true → any_tail f s ≡ true
unfolding any_tail
any_tail-drop f zero s h = h
any_tail-drop f (suc k) [] h = h
any_tail-drop f (suc k) (c ∷ s) h = ground (arith, any_tail-drop f k s h)

pub any_tail-find :
    (f : Bytes → Bool) (s : Bytes) → any_tail f s ≡ true → (k : ℕ) × (f (drop k s) ≡ true)
unfolding any_tail
any_tail-find f [] h = (0, h)
any_tail-find f (c ∷ s) h = elim (Bool-cases (f (c ∷ s))) [
  | inl e ↦ (0, e)
  | inr e ↦ let (k, p) = any_tail-find f s (ground arith) in (suc k, p)
]

drop-add : (j k : ℕ) (s : Bytes) → drop j (drop k s) ≡ drop (k + j) s
drop-add j zero s = rw zero-add
drop-add zero (suc k) [] = rw add-zero
drop-add (suc j) (suc k) [] = rw suc-add
drop-add j (suc k) (c ∷ s) = rw suc-add (drop-add j k s)

pub drop-drop : (j k : ℕ) (s : Bytes) → drop j (drop k s) ≡ drop k (drop j s)
drop-drop j k s = rw (drop-add j k s, drop-add k j s, add_comm k j)

-- A pattern with no star takes one byte for each of its own.
pub matches-append :
    (u r s : Bytes)
    → Lacks star u
    → matches (u ++ r) s ≡ true
    → (length u ≤ length s) × (matches r (drop (length u) s) ≡ true)
matches-append [] r s h m = (omega arith, m)
matches-append (d ∷ u) r [] (hd, h) m = absurd (ground (arith, matches_char_nil d (u ++ r) hd))
matches-append (d ∷ u) r (c ∷ s) (hd, h) m =
    let (le, t) = matches-append u r s h (ground (arith, matches_char d c (u ++ r) s hd)) in
    (omega arith, t)

pub hit-ne-star : (c d : ℕ) → c ≢ star → (d == any_char || d == c) ≡ true → d ≢ star
hit-ne-star c d h e = ground arith

pub not-star : (d : ℕ) → (d == star) ≡ false → d ≢ star
not-star d h = ground arith

pub matches_hit :
    (c d : ℕ) (s p : Bytes)
    → d ≢ star
    → (d == any_char || d == c) ≡ true
    → matches (d ∷ p) (c ∷ s) ≡ matches p s
matches_hit c d s p h e = ground (arith, matches_char d c p s h)

pub matches_miss :
    (c d : ℕ) (s p : Bytes)
    → d ≢ star
    → (d == any_char || d == c) ≡ false
    → matches (d ∷ p) (c ∷ s) ≡ false
matches_miss c d s p h e = ground (arith, matches_char d c p s h)

pub matches_at_star :
    (d : ℕ) (p s : Bytes) → (d == star) ≡ true → matches (d ∷ p) s ≡ any_tail (matches p) s
unfolding matches
matches_at_star d p s h = ground arith
