-- ===== src/Shell/Vars/Templates.antt =====
-- What the expansion of a text with variables is.
use neon_world_os.Base.{
  ℕ, ◌+◌, List, [], ◌∷◌, ◌++◌, some, Bytes, length, find_byte, Dict, ◌≡◌, ◌≢◌, refl, ap, arith,
  append_assoc, ◌∙◌, All, Lacks, take-length-append, length-append,
}
use neon_world_os.Shell.Vars.{
  dollar, open_brace, close_brace, braced, value_of, expand_from, expand_vars,
}

-- A template: texts, variables, and dollar signs with a character that starts no variable.
pub data Part : Type 0 where
  text var : Bytes → Part
  lone : ℕ → Part

unfoldable pub source_of : List Part → Bytes
source_of [] = []
source_of (text t ∷ ps) = t ++ source_of ps
source_of (lone c ∷ ps) = dollar ∷ c ∷ source_of ps
source_of (var key ∷ ps) = dollar ∷ open_brace ∷ (key ++ close_brace ∷ source_of ps)

unfoldable pub meaning_of : Dict Bytes → List Part → Bytes
meaning_of vars [] = []
meaning_of vars (text t ∷ ps) = t ++ meaning_of vars ps
meaning_of vars (lone c ∷ ps) = dollar ∷ c ∷ meaning_of vars ps
meaning_of vars (var key ∷ ps) = value_of vars key ++ meaning_of vars ps

-- A text holds no dollar sign, the name of a variable no closing brace, and behind a lone dollar sign is
-- neither an opening brace nor a dollar sign.
abbrev pub IsPart : Part → Type 0
IsPart (text t) = Lacks dollar t
IsPart (lone c) = (c ≢ open_brace) × (c ≢ dollar)
IsPart (var key) = Lacks close_brace key

pub find_byte-append :
    (b : ℕ) (u t : Bytes) → Lacks b u → find_byte b (u ++ b ∷ t) ≡ some (length u)
unfolding find_byte
find_byte-append b [] t h = ground arith
find_byte-append b (c ∷ u) t (hc, h) = ground (arith, find_byte-append b u t h)

expand_from-skip :
    (vars : Dict Bytes) (u s : Bytes) → expand_from vars (u ++ s) (length u) ≡ expand_from vars s 0
unfolding expand_from
expand_from-skip vars [] s = refl
expand_from-skip vars (c ∷ u) s = expand_from-skip vars u s

expand_from-text :
    (vars : Dict Bytes) (t s : Bytes)
    → Lacks dollar t
    → expand_from vars (t ++ s) 0 ≡ t ++ expand_from vars s 0
unfolding expand_from
expand_from-text vars [] s h = refl
expand_from-text vars (c ∷ t) s (hc, h) = ground (arith, expand_from-text vars t s h)

braced-var :
    (key s : Bytes)
    → Lacks close_brace key
    → braced (open_brace ∷ (key ++ close_brace ∷ s)) ≡ some key
unfolding braced
braced-var key s h =
    rw (find_byte-append close_brace key s h) (ap some (take-length-append key (close_brace ∷ s)))

-- The text behind the dollar sign of a variable is jumped over.
expand_from-behind :
    (vars : Dict Bytes) (key s : Bytes)
    → expand_from vars (open_brace ∷ (key ++ close_brace ∷ s)) (length key + 2)
      ≡ expand_from vars s 0
expand_from-behind vars key s =
    let e : length key + 2 ≡ length (open_brace ∷ (key ++ close_brace ∷ [])) =
      omega (arith, length-append key (close_brace ∷ [])) in
    rw (e, ← append_assoc key (close_brace ∷ []) s)
      (expand_from-skip vars (open_brace ∷ (key ++ close_brace ∷ [])) s)

expand_from-dollar :
    (vars : Dict Bytes) (key s : Bytes)
    → braced s ≡ some key
    → expand_from vars (dollar ∷ s) 0 ≡ value_of vars key ++ expand_from vars s (length key + 2)
unfolding expand_from
expand_from-dollar vars key s h = rw (h, expand_from)

expand_from-var :
    (vars : Dict Bytes) (key s : Bytes)
    → Lacks close_brace key
    → expand_from vars (dollar ∷ open_brace ∷ (key ++ close_brace ∷ s)) 0
      ≡ value_of vars key ++ expand_from vars s 0
expand_from-var vars key s h =
    expand_from-dollar vars key _ (braced-var key s h)
    ∙ ap (◌++◌ (value_of vars key)) (expand_from-behind vars key s)

expand_from-lone :
    (vars : Dict Bytes) (c : ℕ) (s : Bytes)
    → c ≢ open_brace
    → c ≢ dollar
    → expand_from vars (dollar ∷ c ∷ s) 0 ≡ dollar ∷ c ∷ expand_from vars s 0
unfolding expand_from braced
expand_from-lone vars c s brace sign = ground (arith, brace, sign)

expand_from-source_of :
    (vars : Dict Bytes) (ps : List Part)
    → All IsPart ps
    → expand_from vars (source_of ps) 0 ≡ meaning_of vars ps
unfolding source_of meaning_of
expand_from-source_of vars [] h = unfold expand_from in refl
expand_from-source_of vars (text t ∷ ps) (hp, h) =
    expand_from-text vars t (source_of ps) hp ∙ ap (◌++◌ t) (expand_from-source_of vars ps h)
expand_from-source_of vars (lone c ∷ ps) ((brace, sign), h) =
    expand_from-lone vars c (source_of ps) brace sign
    ∙ ap (λ (s : Bytes). dollar ∷ c ∷ s) (expand_from-source_of vars ps h)
expand_from-source_of vars (var key ∷ ps) (hp, h) =
    expand_from-var vars key (source_of ps) hp
    ∙ ap (◌++◌ (value_of vars key)) (expand_from-source_of vars ps h)

-- Expanding a template puts the value of each variable, or nothing if it is not set, in the place of its
-- name in braces, and keeps the texts and the lone dollar signs, if no text holds a dollar sign, no name a
-- closing brace, and no lone dollar sign stands before an opening brace or another dollar sign.
pub expand_vars-source_of :
    (vars : Dict Bytes) (ps : List Part)
    → All IsPart ps
    → expand_vars vars (source_of ps) ≡ meaning_of vars ps
unfolding expand_vars
expand_vars-source_of vars ps h = expand_from-source_of vars ps h
