-- ===== src/Base/Text.antt =====
-- Byte strings (`std::string`) as lists of numbers.
use Prim.Native.Nat.{ℕ, suc}
use Prim.Native.Char.{code}
use Prim.Native.String.{String}
use mathlib.Core.Path.{◌≡◌, refl}
use mathlib.Core.Logic.{◌≢◌, ◌↔◌, inl, inr}
use mathlib.Core.Bool.{Bool, true, false, ◌&&◌}
use mathlib.Core.List.{List, [], ◌∷◌, ◌++◌}
use mathlib.Core.Option
use mathlib.Core.Option.{Option, none, some}
use native.Mathlib.Omega.{arith}
use neon_world_os.Base.Tests.{◌==◌, ltb, if◌then◌else◌, Bool-cases}
use neon_world_os.Base.Lists.{length, All}

abbrev pub Bytes : Type 0
Bytes = List ℕ

-- The code points of a text: its bytes, if it is ASCII.
abbrev pub codes : String → Bytes
codes String.[] = []
codes (String.◌∷◌ c s) = code c ∷ codes s

-- No byte of the text is `b`.
abbrev pub Lacks : ℕ → Bytes → Type 0
Lacks b = All (λ c. c ≢ b)

abbrev pub is_empty {ℓ} : {A : Type ℓ} → List A → Bool
is_empty [] = true
is_empty (x ∷ xs) = false

-- `a == b` on `std::string`.
unfoldable pub str_eq : Bytes → Bytes → Bool
str_eq [] [] = true
str_eq [] (b ∷ t) = false
str_eq (a ∷ s) [] = false
str_eq (a ∷ s) (b ∷ t) = (a == b) && str_eq s t

-- `a < b` on `std::string`: lexicographic, by unsigned bytes.
unfoldable pub str_lt : Bytes → Bytes → Bool
str_lt s [] = false
str_lt [] (b ∷ t) = true
str_lt (a ∷ s) (b ∷ t) = if a == b then str_lt s t else ltb a b

str_eq_refl : (s : Bytes) → str_eq s s ≡ true
unfolding str_eq
str_eq_refl [] = refl
str_eq_refl (a ∷ s) = ground (arith, str_eq_refl s)

str_eq_sound : (s t : Bytes) → str_eq s t ≡ true → s ≡ t
unfolding str_eq
str_eq_sound [] [] h = refl
str_eq_sound [] (b ∷ t) h = cc
str_eq_sound (a ∷ s) [] h = cc
str_eq_sound (a ∷ s) (b ∷ t) h = ground (arith, str_eq_sound s t)

pub str_eq_iff : (s t : Bytes) → (str_eq s t ≡ true) ↔ (s ≡ t)
str_eq_iff s t = (str_eq_sound s t, λ e. rw e (str_eq_refl t))

pub str_eq_self : (s : Bytes) → str_eq s s ≡ true
str_eq_self s = str_eq_refl s

pub str_eq_ne : (s t : Bytes) → s ≢ t → str_eq s t ≡ false
str_eq_ne s t h = elim (Bool-cases (str_eq s t)) [
  | inl e ↦ absurd (h (str_eq_sound s t e))
  | inr e ↦ e
]

pub str_eq-eq-false : (s t : Bytes) → str_eq s t ≡ false → s ≢ t
str_eq-eq-false s t h = λ e. ground (arith, str_eq_iff s t)

-- `s.rfind(p, 0) == 0`: `p` is a prefix of `s`.
unfoldable pub starts_with : Bytes → Bytes → Bool
starts_with s [] = true
starts_with [] (b ∷ p) = false
starts_with (a ∷ s) (b ∷ p) = (a == b) && starts_with s p

-- `s.find(b)`: the first position of a byte.
unfoldable pub find_byte : ℕ → Bytes → Option ℕ
find_byte b [] = none
find_byte b (c ∷ s) = if c == b then some 0 else Option.map suc (find_byte b s)

-- `s.find_last_of(b)`: the last position of a byte.
unfoldable pub find_last_of : ℕ → Bytes → Option ℕ
find_last_of b [] = none
find_last_of b (c ∷ s) = elim (find_last_of b s) [
  | some i ↦ some (suc i)
  | none ↦ if c == b then some 0 else none
]

find_last_of_absent : (b : ℕ) (s : Bytes) → Lacks b s → find_last_of b s ≡ none
unfolding find_last_of
find_last_of_absent b [] h = refl
find_last_of_absent b (c ∷ s) (hc, h) = rw (find_last_of_absent b s h) (ground arith)

-- The last occurrence splits the text.
pub find_last_of-append :
    (b : ℕ) (s t : Bytes) → Lacks b t → find_last_of b (s ++ b ∷ t) ≡ some (length s)
unfolding find_last_of
find_last_of-append b [] t h = rw (find_last_of_absent b t h) (ground arith)
find_last_of-append b (c ∷ s) t h = rw (find_last_of-append b s t h)
