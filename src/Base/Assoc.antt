-- ===== src/Base/Assoc.antt =====
-- `std::unordered_map<std::string, V>` as an association list.
use mathlib.Core.Path.{◌≡◌, refl, subst}
use mathlib.Core.List.{List, [], ◌∷◌}
use mathlib.Core.Option.{Option, none, some}
use native.Mathlib.Omega.{arith}
use mathlib.Core.Bool.{Bool, true, false}
use neon_world_os.Base.Lists.{All}
use neon_world_os.Base.Tests.{if◌then◌else◌}
use neon_world_os.Base.Text.{Bytes, str_eq, str_eq_iff}

abbrev pub Dict {ℓ} : Type ℓ → Type ℓ
Dict V = List (Bytes × V)

module _ {ℓ} {V : Type ℓ} where
  unfoldable pub find : Bytes → Dict V → Option V
  find k [] = none
  find k ((j, v) ∷ m) = if str_eq j k then some v else find k m

  -- `m[k] = v`.
  unfoldable pub assign : Bytes → V → Dict V → Dict V
  assign k v [] = (k, v) ∷ []
  assign k v ((j, w) ∷ m) = if str_eq j k then (j, v) ∷ m else (j, w) ∷ assign k v m

  -- `m.erase(k)`: keys are unique, so at most one entry goes.
  unfoldable pub remove : Bytes → Dict V → Dict V
  remove k [] = []
  remove k ((j, v) ∷ m) = if str_eq j k then remove k m else (j, v) ∷ remove k m

  pub find-assign :
      (k j : Bytes) (v : V) (m : Dict V)
      → find j (assign k v m) ≡ (if str_eq k j then some v else find j m)
  unfolding find assign
  find-assign k j v [] = refl
  find-assign k j v ((i, w) ∷ m) =
      ground (arith, str_eq_iff i k, str_eq_iff i j, str_eq_iff k j, find-assign k j v m)

  pub find-remove :
      (k j : Bytes) (m : Dict V) → find j (remove k m) ≡ (if str_eq k j then none else find j m)
  unfolding find remove
  find-remove k j [] = ground arith
  find-remove k j ((i, w) ∷ m) =
      ground (arith, str_eq_iff i k, str_eq_iff i j, str_eq_iff k j, find-remove k j m)

  -- What holds of every value holds of the one that is found.
  pub find-All {κ} :
      (Q : V → Type κ) (k : Bytes) (m : Dict V) (v : V)
      → All (λ (e : Bytes × V). Q e.1) m
      → find k m ≡ some v
      → Q v
  unfolding find
  find-All Q k [] v all e = absurd (cc)
  find-All Q k ((j, w) ∷ m) v (q, all) e = pick (str_eq j k) (λ i. find-All Q k m v all i) e
    where
      pick :
          (b : Bool) → (find k m ≡ some v → Q v) → (if b then some w else find k m) ≡ some v → Q v
      pick true ih e' = subst Q (cc e') q
      pick false ih e' = ih e'
