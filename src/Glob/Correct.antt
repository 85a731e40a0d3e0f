-- ===== src/Glob/Correct.antt =====
-- The loop of `glob_match` against the recursive meaning of a pattern.
use neon_world_os.Base.{
  ℕ, zero, suc, ◌+◌, ◌*◌, ◌≤◌, ◌<◌, Bool, true, false, ◌||◌, [], ◌∷◌, ◌++◌, none, some, ◌≡◌, ◌≢◌,
  refl, sym, ap, subst, ◌∙◌, arith, Bytes, ◌==◌, ==_iff, length, drop, All-append, Lacks,
  Bool-cases, inl, inr, append_assoc, length-append, drop-append,
}
use neon_world_os.Glob.Meaning.{
  any_tail, matches, only_stars-matches, later, any_tail-later, any_tail-drop, any_tail-find,
  drop-drop, matches-append, hit-ne-star, not-star, matches_hit, matches_miss, matches_at_star,
}
use neon_world_os.Glob.{any_char, star, Mark, resume, glob_loop, glob_match}

-- How the text and the pattern that are left stand to the mark: behind the last star the pattern took
-- `u`, with no star in it, for as many bytes of the text.
pub record Since (s p m q : Bytes) : Type 0 where
  pub taken : Bytes
  pub read : Bytes
  pub no_star : Lacks star taken
  pub same_length : length taken ≡ length read
  pub text : m ≡ read ++ s
  pub pattern : q ≡ taken ++ p

-- What the text behind the mark still offers, the text that is left offers to what is left of the pattern.
later-drop :
    {s p m q : Bytes} (i : Since s p m q) (c : ℕ) (t : Bytes)
    → m ≡ c ∷ t
    → later q m ≡ true
    → (k : ℕ) × (matches p (drop (suc k) s) ≡ true)
unfolding later
later-drop {s} {p} {m} {q} i c t e h =
    let (k, found) = any_tail-find (matches q) t (rw (e, later) at h) in
    let (le, rest) = matches-append i.taken p (drop k t) i.no_star (rw i.pattern at found) in
    let moved : drop (length i.taken) (drop (suc k) m) ≡ drop (suc k) s =
      drop-drop (length i.taken) (suc k) m
      ∙ ap (drop (suc k)) (rw (i.same_length, i.text) (drop-append i.read s)) in
    (
      k,
      subst (λ x. matches p x ≡ true)
          (ap (drop (length i.taken)) (ap (drop (suc k)) (sym e)) ∙ moved) rest,
    )

-- At a new star nothing is lost by forgetting the mark before it.
forget_mark :
    (s p m q : Bytes) (c : ℕ)
    → Since (c ∷ s) (star ∷ p) m q
    → later q m ≡ true
    → any_tail (matches p) (c ∷ s) ≡ true
unfolding later matches
forget_mark s p [] q c i h = cc
forget_mark s p (b ∷ t) q c i h =
    let (k, found) = later-drop i b t refl h in any_tail-drop (matches p) (suc k) (c ∷ s) found

-- At the end of the text the ends behind the mark are too short.
none_left : (p m q : Bytes) → Since [] p m q → later q m ≡ true → matches p [] ≡ true
unfolding later
none_left p [] q i h = cc
none_left p (b ∷ t) q i h = let (k, found) = later-drop i b t refl h in found

Since-char : (c d : ℕ) (s p m q : Bytes) → d ≢ star → Since (c ∷ s) (d ∷ p) m q → Since s p m q
Since-char c d s p m q h i = record {
  taken = i.taken ++ d ∷ [];
  read = i.read ++ c ∷ [];
  no_star = All-append (λ b. b ≢ star) i.taken (d ∷ []) i.no_star (h, tt);
  same_length =
      omega (arith, i.same_length, length-append i.taken (d ∷ []), length-append i.read (c ∷ []));
  text = i.text ∙ sym (append_assoc i.read (c ∷ []) s);
  pattern = i.pattern ∙ sym (append_assoc i.taken (d ∷ []) p);
}

Since-here : (s p : Bytes) → Since s p s p
Since-here s p = record {
  taken = [];
  read = [];
  no_star = tt;
  same_length = refl;
  text = refl;
  pattern = refl;
}

abbrev rounds : Bytes → Bytes → ℕ
rounds m q = length m * (length q + 2)

or_false : (a b : Bool) → (b ≡ true → a ≡ true) → (a || b) ≡ a
or_false true b h = refl
or_false false true h = sym (h refl)
or_false false false h = refl

-- The three kinds of rounds.
loop_hit :
    (fuel c d : ℕ) (s p : Bytes) (mark : Mark)
    → (d == any_char || d == c) ≡ true
    → glob_loop (suc fuel) (c ∷ s) (d ∷ p) mark ≡ glob_loop fuel s p mark
unfolding glob_loop
loop_hit fuel c d s p mark h = ground arith

loop_star :
    (fuel c d : ℕ) (s p : Bytes) (mark : Mark)
    → (d == any_char || d == c) ≡ false
    → (d == star) ≡ true
    → glob_loop (suc fuel) (c ∷ s) (d ∷ p) mark ≡ glob_loop fuel (c ∷ s) p (some (p, c ∷ s))
unfolding glob_loop
loop_star fuel c d s p mark h e = ground arith

loop_miss :
    (fuel c d : ℕ) (s p : Bytes) (mark : Mark)
    → (d == any_char || d == c) ≡ false
    → (d == star) ≡ false
    → glob_loop (suc fuel) (c ∷ s) (d ∷ p) mark ≡ resume (glob_loop fuel) mark
unfolding glob_loop
loop_miss fuel c d s p mark h e = ground arith

resume_rounds :
    (b fuel : ℕ) (m q p : Bytes)
    → rounds (b ∷ m) q + length p < suc fuel
    → rounds m q + length q < fuel
resume_rounds b fuel m q p h = omega arith

star_rounds :
    (c d fuel : ℕ) (s p m q : Bytes)
    → Since (c ∷ s) (d ∷ p) m q
    → rounds m q + length (d ∷ p) < suc fuel
    → rounds (c ∷ s) p + length p < fuel
star_rounds c d fuel s p m q i h =
    star_bound (length (c ∷ s)) (length m) (length p) (length q) fuel
      (omega (arith, ap length i.text, length-append i.read (c ∷ s)))
      (omega (arith, ap length i.pattern, length-append i.taken (d ∷ p))) (omega arith)
  where
    star_bound :
        (s m p q fuel : ℕ)
        → s ≤ m
        → p + 1 ≤ q
        → m * (q + 2) + p + 1 < suc fuel
        → s * (p + 2) + p < fuel
    star_bound s m p q fuel hs hp h = grind arith

-- The loop behind a mark finds what the rest of the pattern makes of the rest of the text, or of a later
-- end of the text at the mark.
marked :
    (fuel : ℕ) (s p m q : Bytes)
    → Lacks star m
    → Lacks star s
    → Since s p m q
    → rounds m q + length p < fuel
    → glob_loop fuel s p (some (q, m)) ≡ some (matches p s || later q m)
marked zero s p m q lm ls i h = absurd (omega arith)
marked (suc fuel) [] p m q lm ls i h =
    unfold glob_loop in
    ap some (only_stars-matches p ∙ sym (or_false (matches p []) (later q m) (none_left p m q i)))
marked (suc fuel) (c ∷ s) p m q lm (lc, ls) i h =
    go p i h (missed m lm h (λ m' l bound. marked fuel m' q m' q l l (Since-here m' q) bound))
      (λ p' i' bound. marked fuel s p' m q lm ls i' bound)
      (λ p' bound.
        marked fuel (c ∷ s) p' (c ∷ s) p' (lc, ls) (lc, ls) (Since-here (c ∷ s) p') bound)
  where
    missed :
        (m : Bytes)
        → Lacks star m
        → rounds m q + length p < suc fuel
        → ((m' : Bytes)
            → Lacks star m'
            → rounds m' q + length q < fuel
            → glob_loop fuel m' q (some (q, m')) ≡ some (matches q m' || later q m'))
        → resume (glob_loop fuel) (some (q, m)) ≡ some (later q m)
    missed [] l h ih = unfold resume later in refl
    missed (b ∷ m') (hb, l) h ih =
        unfold resume later in
        ih m' l (resume_rounds b fuel m' q p h) ∙ ap some (any_tail-later q m')

    go :
        (p : Bytes)
        → Since (c ∷ s) p m q
        → rounds m q + length p < suc fuel
        → resume (glob_loop fuel) (some (q, m)) ≡ some (later q m)
        → ((p' : Bytes)
            → Since s p' m q
            → rounds m q + length p' < fuel
            → glob_loop fuel s p' (some (q, m)) ≡ some (matches p' s || later q m))
        → ((p' : Bytes)
            → rounds (c ∷ s) p' + length p' < fuel
            → glob_loop fuel (c ∷ s) p' (some (p', c ∷ s))
              ≡ some (matches p' (c ∷ s) || later p' (c ∷ s)))
        → glob_loop (suc fuel) (c ∷ s) p (some (q, m)) ≡ some (matches p (c ∷ s) || later q m)
    go [] i h missed hit starred = unfold matches glob_loop in missed
    go (d ∷ p) i h missed hit starred = elim (Bool-cases (d == any_char || d == c)) [
      | inl e ↦
          let ne = hit-ne-star c d lc e in
          loop_hit fuel c d s p (some (q, m)) e
          ∙ hit p (Since-char c d s p m q ne i) (omega arith)
          ∙ ap (λ b. some (b || later q m)) (sym (matches_hit c d s p ne e))
      | inr e ↦ elim (Bool-cases (d == star)) [
        | inl st ↦
            loop_star fuel c d s p (some (q, m)) e st
            ∙ starred p (star_rounds c d fuel s p m q i h)
            ∙ ap some (
                any_tail-later p (c ∷ s)
                ∙ sym (
                    or_false _ (later q m)
                      (λ l. forget_mark s p m q c (rw (← (==_iff d star).0 st) i) l)))
            ∙ ap (λ b. some (b || later q m)) (sym (matches_at_star d p (c ∷ s) st))
        | inr no_star ↦
            loop_miss fuel c d s p (some (q, m)) e no_star
            ∙ missed
            ∙ ap (λ b. some (b || later q m)) (sym (matches_miss c d s p (not-star d no_star) e))
      ]
    ]

-- Before the first star.
unmarked :
    (fuel : ℕ) (s p : Bytes)
    → Lacks star s
    → length s * (length p + 2) + length p < fuel
    → glob_loop fuel s p none ≡ some (matches p s)
unfolding resume
unmarked zero s p ls h = absurd (omega arith)
unmarked (suc fuel) [] p ls h = unfold glob_loop in ap some (only_stars-matches p)
unmarked (suc fuel) (c ∷ s) [] ls h = unfold glob_loop resume matches in refl
unmarked (suc fuel) (c ∷ s) (d ∷ p) (lc, ls) h = elim (Bool-cases (d == any_char || d == c)) [
  | inl e ↦
      let ne = hit-ne-star c d lc e in
      loop_hit fuel c d s p none e
      ∙ unmarked fuel s p ls (omega arith)
      ∙ ap some (sym (matches_hit c d s p ne e))
  | inr e ↦ elim (Bool-cases (d == star)) [
    | inl st ↦
        loop_star fuel c d s p none e st
        ∙ marked fuel (c ∷ s) p (c ∷ s) p (lc, ls) (lc, ls) (Since-here (c ∷ s) p) (omega arith)
        ∙ ap some (any_tail-later p (c ∷ s) ∙ sym (matches_at_star d p (c ∷ s) st))
    | inr no_star ↦
        loop_miss fuel c d s p none e no_star
        ∙ ap some (sym (matches_miss c d s p (not-star d no_star) e))
  ]
]

-- The loop of `glob_match` ends within its fuel and decides whether the pattern matches the text, if the
-- text holds no `*` itself: going back to the last star alone loses no match.
pub glob_match-decides : (s p : Bytes) → Lacks star s → glob_match s p ≡ some (matches p s)
unfolding glob_match
glob_match-decides s p ls =
    unmarked (suc (length s * (length p + 2) + length p)) s p ls (omega arith)
