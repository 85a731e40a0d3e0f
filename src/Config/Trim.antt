-- ===== src/Config/Trim.antt =====
-- What `neon_trim` keeps of a text.
use neon_world_os.Base.{
  ℕ, suc, ◌+◌, ◌-◌, Bool, true, false, [], ◌∷◌, ◌++◌, Option, none, some, ◌≡◌, ◌≢◌, refl, sym, ap,
  ◌∙◌, inl, inr, arith, Bytes, if◌then◌else◌, length, length-append, take, take-length-append, drop,
  drop-append, All, Bool-cases,
}
use mathlib.Core.Option
use neon_world_os.Config.{is_white, find_first_black, find_last_black, trim}

-- All white, or empty.
abbrev pub IsWhite : Bytes → Type 0
IsWhite s = All (λ (c : ℕ). is_white c ≡ true) s

-- A text whose first byte and last byte are not white.
pub record IsTrimmed (s : Bytes) : Type 0 where
  pub last : ℕ
  pub at_first : find_first_black s ≡ some 0
  pub at_last : find_last_black s ≡ some last
  pub size : length s ≡ suc last

first_white :
    (w s : Bytes)
    → IsWhite w
    → find_first_black s ≡ some 0
    → find_first_black (w ++ s) ≡ some (length w)
unfolding find_first_black
first_white [] s h e = e
first_white (c ∷ w) s (hc, h) e = rw hc (ap (Option.map suc) (first_white w s h e))

first_append : (s t : Bytes) → find_first_black s ≡ some 0 → find_first_black (s ++ t) ≡ some 0
unfolding find_first_black
first_append [] t h = absurd (cc)
first_append (c ∷ s) t h = elim (Bool-cases (is_white c)) [
  | inl e ↦ absurd (no_suc (find_first_black s) (sym (if_true (is_white c) _ _ e) ∙ h))
  | inr e ↦ rw e refl
]
  where
    no_suc : (o : Option ℕ) → Option.map suc o ≢ some 0
    no_suc none h = cc
    no_suc (some n) h = cc

    if_true : (b : Bool) (x y : Option ℕ) → b ≡ true → (if b then x else y) ≡ x
    if_true true x y e = refl
    if_true false x y e = absurd (cc)

last_append :
    (w s : Bytes) (e : ℕ)
    → find_last_black s ≡ some e
    → find_last_black (w ++ s) ≡ some (length w + e)
unfolding find_last_black
last_append [] s e h = h ∙ ap some (omega arith)
last_append (c ∷ w) s e h = rw (last_append w s e h, find_last_black) (ap some (omega arith))

last-white : (w : Bytes) → IsWhite w → find_last_black w ≡ none
unfolding find_last_black
last-white [] h = refl
last-white (c ∷ w) (hc, h) = rw (last-white w h, find_last_black) (rw hc refl)

last_white : (s w : Bytes) → IsWhite w → find_last_black (s ++ w) ≡ find_last_black s
unfolding find_last_black
last_white [] w h = last-white w h
last_white (c ∷ s) w h = rw (last_white s w h, find_last_black) refl

-- White space around a text that has none at its ends is dropped, and nothing else.
pub trim_between :
    (w s w' : Bytes) → IsWhite w → IsTrimmed s → IsWhite w' → trim (w ++ (s ++ w')) ≡ s
unfolding trim
trim_between w s w' h hs h' = rw (first, last, trim) cut
  where
    first : find_first_black (w ++ (s ++ w')) ≡ some (length w)
    first = first_white w (s ++ w') h (first_append s w' hs.at_first)

    last : find_last_black (w ++ (s ++ w')) ≡ some (length w + hs.last)
    last = last_append w (s ++ w') hs.last (last_white s w' h' ∙ hs.at_last)

    size : suc ((length w + hs.last) - length w) ≡ length s
    size = omega (arith, hs.size)

    cut : take (suc ((length w + hs.last) - length w)) (drop (length w) (w ++ (s ++ w'))) ≡ s
    cut = rw (size, drop-append w (s ++ w')) (take-length-append s w')

-- Two such texts with anything between them.
pub join-IsTrimmed : (s m t : Bytes) → IsTrimmed s → IsTrimmed t → IsTrimmed (s ++ (m ++ t))
join-IsTrimmed s m t hs ht = record {
  last = length s + (length m + ht.last);
  at_first = first_append s (m ++ t) hs.at_first;
  at_last = last_append s (m ++ t) (length m + ht.last) (last_append m t ht.last ht.at_last);
  size = omega (arith, length-append s (m ++ t), length-append m t, ht.size);
}
