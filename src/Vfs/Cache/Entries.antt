-- ===== src/Vfs/Cache/Entries.antt =====
-- The entries of the cache and the nodes of its list.
use neon_world_os.Base.{
  ℕ, ◌+◌, true, List, [], ◌∷◌, none, some, ◌≡◌, ◌≢◌, refl, ap, ◌∙◌, ◌⊎◌, inl, inr, arith, Bytes,
  str_eq, str_eq_iff, ◌==◌, length, drop_last, Dict, find, assign, remove, find-assign, find-remove,
  Bool-cases,
}
use neon_world_os.Vfs.Cache.{erase_node, back_of}

-- The bytes that the entries hold.
unfoldable pub sum : Dict (Bytes × ℕ) → ℕ
sum [] = 0
sum ((k, (v, i)) ∷ m) = length v + sum m

-- No key stands twice.
unfoldable pub IsMap : Dict (Bytes × ℕ) → Type 0
IsMap [] = Unit
IsMap ((k, x) ∷ m) = (find k m ≡ none) × IsMap m

-- The list has a node with this number and this key.
unfoldable pub HasNode : ℕ → Bytes → List (ℕ × Bytes) → Type 0
HasNode i k [] = ⊥
HasNode i k ((j, l) ∷ lru) = ((j ≡ i) × (l ≡ k)) ⊎ HasNode i k lru

pub remove-absent : (k : Bytes) (m : Dict (Bytes × ℕ)) → find k m ≡ none → remove k m ≡ m
unfolding find remove
remove-absent k [] h = refl
remove-absent k ((j, x) ∷ m) h = ground (arith, h, remove-absent k m)

pub sum-remove :
    (k v : Bytes) (i : ℕ) (m : Dict (Bytes × ℕ))
    → IsMap m
    → find k m ≡ some (v, i)
    → sum (remove k m) + length v ≡ sum m
unfolding find remove sum IsMap
sum-remove k v i [] h e = absurd (cc)
sum-remove k v i ((j, (w, l)) ∷ m) (free, h) e = elim (Bool-cases (str_eq j k)) [
  | inl same ↦
      let absent : find k m ≡ none = ap (λ (x : Bytes). find x m) (sym_key j k same) ∙ free in
      let value : length w ≡ length v = ground (arith, e, same) in
      rw (same, remove-absent k m absent) (omega (arith, value))
  | inr other ↦ rw other (omega (arith, sum-remove k v i m h (ground (arith, e, other))))
]
  where
    sym_key : (j k : Bytes) → str_eq j k ≡ true → k ≡ j
    sym_key j k same = cc ((str_eq_iff j k).0 same)

pub sum-assign_new :
    (k v : Bytes) (i : ℕ) (m : Dict (Bytes × ℕ))
    → find k m ≡ none
    → sum (assign k (v, i) m) ≡ sum m + length v
unfolding find assign sum
sum-assign_new k v i [] e = omega arith
sum-assign_new k v i ((j, (w, l)) ∷ m) e = ground (arith, e, sum-assign_new k v i m)

pub sum-assign_old :
    (k v w : Bytes) (i l : ℕ) (m : Dict (Bytes × ℕ))
    → find k m ≡ some (w, l)
    → sum (assign k (v, i) m) + length w ≡ sum m + length v
unfolding find assign sum
sum-assign_old k v w i l [] e = absurd (cc)
sum-assign_old k v w i l ((j, (u, n)) ∷ m) e = elim (Bool-cases (str_eq j k)) [
  | inl same ↦
      let value : length u ≡ length w = ground (arith, e, same) in rw same (omega (arith, value))
  | inr other ↦ rw other (omega (arith, sum-assign_old k v w i l m (ground (arith, e, other))))
]

pub IsMap-assign :
    (k : Bytes) (x : Bytes × ℕ) (m : Dict (Bytes × ℕ)) → IsMap m → IsMap (assign k x m)
unfolding IsMap assign
IsMap-assign k x [] h = unfold find in (refl, tt)
IsMap-assign k x ((j, y) ∷ m) (free, h) = elim (Bool-cases (str_eq j k)) [
  | inl same ↦ rw same (free, h)
  | inr other ↦ rw other (
    find-assign k j x m ∙ ground (arith, free, other, str_eq_iff j k, str_eq_iff k j),
    IsMap-assign k x m h,
  )
]

pub IsMap-remove : (k : Bytes) (m : Dict (Bytes × ℕ)) → IsMap m → IsMap (remove k m)
unfolding IsMap remove
IsMap-remove k [] h = tt
IsMap-remove k ((j, y) ∷ m) (free, h) = elim (Bool-cases (str_eq j k)) [
  | inl same ↦ rw same (IsMap-remove k m h)
  | inr other ↦ rw other (find-remove k j m ∙ ground (arith, free), IsMap-remove k m h)
]

pub HasNode-erase :
    (n i : ℕ) (k : Bytes) (lru : List (ℕ × Bytes))
    → i ≢ n
    → HasNode i k lru
    → HasNode i k (erase_node n lru)
unfolding HasNode erase_node
HasNode-erase n i k [] ne h = h
HasNode-erase n i k ((j, l) ∷ lru) ne h = elim (Bool-cases (j == n)) [
  | inl same ↦ rw same (behind (λ e. absurd (ne (ground (arith, same, e)))) h)
  | inr other ↦ rw other (both (HasNode-erase n i k lru ne) h)
]
  where
    behind : ((j ≡ i) → ⊥) → ((j ≡ i) × (l ≡ k)) ⊎ HasNode i k lru → HasNode i k lru
    behind never (inl (e, key)) = absurd (never e)
    behind never (inr h') = h'

    both :
        (HasNode i k lru → HasNode i k (erase_node n lru))
        → ((j ≡ i) × (l ≡ k)) ⊎ HasNode i k lru
        → ((j ≡ i) × (l ≡ k)) ⊎ HasNode i k (erase_node n lru)
    both ih (inl e) = inl e
    both ih (inr h') = inr (ih h')

pub HasNode-erased :
    (n i : ℕ) (k : Bytes) (lru : List (ℕ × Bytes))
    → HasNode i k (erase_node n lru)
    → HasNode i k lru
unfolding HasNode erase_node
HasNode-erased n i k [] = λ h. h
HasNode-erased n i k ((j, l) ∷ lru) = elim (Bool-cases (j == n)) [
  | inl same ↦ rw same (λ h. inr h)
  | inr other ↦ rw other (both (HasNode-erased n i k lru))
]
  where
    both :
        (HasNode i k (erase_node n lru) → HasNode i k lru)
        → ((j ≡ i) × (l ≡ k)) ⊎ HasNode i k (erase_node n lru)
        → ((j ≡ i) × (l ≡ k)) ⊎ HasNode i k lru
    both ih (inl e) = inl e
    both ih (inr h) = inr (ih h)

pub HasNode-drop_last :
    (b : Bytes) (i : ℕ) (k : Bytes) (lru : List (ℕ × Bytes))
    → back_of lru ≡ some b
    → k ≢ b
    → HasNode i k lru
    → HasNode i k (drop_last lru)
unfolding HasNode back_of
HasNode-drop_last b i k [] e ne h = h
HasNode-drop_last b i k ((j, l) ∷ []) e ne (inl (same, key)) = absurd (ne (cc (e, key)))
HasNode-drop_last b i k ((j, l) ∷ []) e ne (inr h) = h
HasNode-drop_last b i k ((j, l) ∷ y ∷ lru) e ne (inl h) = inl h
HasNode-drop_last b i k ((j, l) ∷ y ∷ lru) e ne (inr h) =
    inr (HasNode-drop_last b i k (y ∷ lru) e ne h)

pub HasNode-dropped :
    (i : ℕ) (k : Bytes) (lru : List (ℕ × Bytes)) → HasNode i k (drop_last lru) → HasNode i k lru
unfolding HasNode
HasNode-dropped i k [] h = h
HasNode-dropped i k (x ∷ []) h = absurd h
HasNode-dropped i k (x ∷ y ∷ lru) (inl h) = inl h
HasNode-dropped i k (x ∷ y ∷ lru) (inr h) = inr (HasNode-dropped i k (y ∷ lru) h)
