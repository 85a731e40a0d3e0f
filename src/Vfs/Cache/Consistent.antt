-- ===== src/Vfs/Cache/Consistent.antt =====
-- `cache_put_` keeps the books of the cache.
use neon_world_os.Base.{
  ℕ, suc, ◌+◌, ◌-◌, ◌%◌, ◌≤◌, ◌<◌, Bool, true, false, List, [], ◌∷◌, Option, none, some, ◌≡◌, ◌≢◌,
  refl, sym, ap, ◌∙◌, subst, ◌⊎◌, inl, inr, arith, Bytes, if◌then◌else◌, str_eq, str_eq_iff,
  str_eq_self, length, Dict, find, assign, find-assign, Bool-cases, Option-cases,
}
use neon_world_os.Vfs.State.{word_mod}
use neon_world_os.Vfs.Cache.{
  Cache, erase_node, cache_touch, less_size, more_size, cache_store, evict_loop, cache_put,
  cache_put-Fits,
}
use neon_world_os.Vfs.Cache.Entries.{
  sum, IsMap, HasNode, sum-remove, sum-assign_new, sum-assign_old, IsMap-assign, HasNode-erase,
  HasNode-erased,
}
use neon_world_os.Vfs.Cache.Books.{IsConsistent, evict_loop-IsConsistent, evict_loop-capacity}

-- What a new node at the front leaves, for a key that is stored under its number.
module _ (c c' : Cache) (h : IsConsistent c) (k v : Bytes) (rest : List (ℕ × Bytes))
    (front : c'.lru ≡ (c.fresh, k) ∷ rest)
    (smaller : (i : ℕ) (l : Bytes) → HasNode i l rest → HasNode i l c.lru)
    (others : (i : ℕ) (l : Bytes) → l ≢ k → HasNode i l c.lru → HasNode i l rest)
    (found : (l : Bytes)
      → find l c'.entries ≡ (if str_eq k l then some (v, c.fresh) else find l c.entries))
    (next : c'.fresh ≡ suc c.fresh) where
  old_node :
      (i : ℕ) (l : Bytes)
      → HasNode i l ((c.fresh, k) ∷ rest)
      → ((i ≡ c.fresh) × (l ≡ k)) ⊎ ((i < c.fresh) × HasNode i l c.lru)
  unfolding HasNode
  old_node i l (inl (e, key)) = inl (sym e, sym key)
  old_node i l (inr a) = inr (h.below i l (smaller i l a), smaller i l a)

  node :
      (l w : Bytes) (i : ℕ)
      → (if str_eq k l then some (v, c.fresh) else find l c.entries) ≡ some (w, i)
      → HasNode i l ((c.fresh, k) ∷ rest)
  unfolding HasNode
  node l w i e = elim (Bool-cases (str_eq k l)) [
    | inl here ↦ inl (ground (arith, e, here), ground (arith, here, str_eq_iff k l))
    | inr other ↦ inr (
        others i l (λ p. ground (arith, other, p, str_eq_iff k l))
          (h.nodes l w i (ground (arith, e, other))))
  ]

  with-IsConsistent :
      c'.size ≡ sum c'.entries → c'.size < word_mod → IsMap c'.entries → IsConsistent c'
  with-IsConsistent size small keys = record {
    size = size;
    small = small;
    keys = keys;
    nodes = λ l w i e. subst (HasNode i l) (sym front) (node l w i (sym (found l) ∙ e));
    unique = λ i l l' a b.
        one i l l' (old_node i l (subst (HasNode i l) front a))
          (old_node i l' (subst (HasNode i l') front b));
    below = λ i l a. less i l (old_node i l (subst (HasNode i l) front a));
  }
    where
      one :
          (i : ℕ) (l l' : Bytes)
          → ((i ≡ c.fresh) × (l ≡ k)) ⊎ ((i < c.fresh) × HasNode i l c.lru)
          → ((i ≡ c.fresh) × (l' ≡ k)) ⊎ ((i < c.fresh) × HasNode i l' c.lru)
          → l ≡ l'
      one i l l' (inl (e, p)) (inl (e', p')) = p ∙ sym p'
      one i l l' (inl (e, p)) (inr (lt, b)) = absurd (omega (arith, e, lt))
      one i l l' (inr (lt, a)) (inl (e, p)) = absurd (omega (arith, e, lt))
      one i l l' (inr (lt, a)) (inr (lt', b)) = h.unique i l l' a b

      less :
          (i : ℕ) (l : Bytes)
          → ((i ≡ c.fresh) × (l ≡ k)) ⊎ ((i < c.fresh) × HasNode i l c.lru)
          → i < c'.fresh
      less i l (inl (e, p)) = omega (arith, e, next)
      less i l (inr (lt, a)) = omega (arith, lt, next)

store_old :
    (k v old : Bytes) (i : ℕ) (c : Cache)
    → find k c.entries ≡ some (old, i)
    → cache_store k v c
      ≡ more_size (length v) (record (less_size (length old) c) {
        lru = (c.fresh, k) ∷ erase_node i c.lru;
        entries = assign k (v, c.fresh) (assign k (v, i) c.entries);
        fresh = suc c.fresh;
      })
unfolding cache_store cache_touch
store_old k v old i c e =
    let again : find k (assign k (v, i) c.entries) ≡ some (v, i) =
      find-assign k k (v, i) c.entries ∙ (rw (str_eq_self k) refl) in
    rw (e, cache_store) (rw (again, cache_touch) refl)

store_old-IsConsistent :
    (k v old : Bytes) (i : ℕ) (c : Cache)
    → find k c.entries ≡ some (old, i)
    → c.size + length v < word_mod
    → IsConsistent c
    → IsConsistent (cache_store k v c)
store_old-IsConsistent k v old i c e lt h =
    let m : Dict (Bytes × ℕ) = assign k (v, i) c.entries in
    let first : sum m + length old ≡ sum c.entries + length v =
      sum-assign_old k v old i i c.entries e in
    let again : find k m ≡ some (v, i) =
      find-assign k k (v, i) c.entries ∙ (rw (str_eq_self k) refl) in
    let second : sum (assign k (v, c.fresh) m) + length v ≡ sum m + length v =
      sum-assign_old k v v c.fresh i m again in
    let fits : length old ≤ sum c.entries = omega (arith, sum-remove k old i c.entries h.keys e) in
    let size : ((c.size + word_mod - length old) % word_mod + length v) % word_mod
        ≡ sum (assign k (v, c.fresh) m) =
      omega (arith, first, second, fits, h.size, h.small, lt) in
    rw (store_old k v old i c e) (
      with-IsConsistent c _ h k v (erase_node i c.lru) refl (λ j l. HasNode-erased i j l c.lru)
        (λ j l ne a.
          HasNode-erase i j l c.lru
            (λ p.
              ne (
                h.unique j l k a
                  (subst (λ (n : ℕ). HasNode n k c.lru) (sym p) (h.nodes k old i e))))
            a)
        (λ l.
          find-assign k l (v, c.fresh) m
          ∙ ap (λ (o : Option (Bytes × ℕ)). if str_eq k l then some (v, c.fresh) else o)
              (find-assign k l (v, i) c.entries)
          ∙ if_if (str_eq k l) (some (v, c.fresh)) (some (v, i)) (find l c.entries))
        refl size (omega (arith, first, second, fits, size, h.size, lt))
        (IsMap-assign k (v, c.fresh) m (IsMap-assign k (v, i) c.entries h.keys)))
  where
    if_if :
        (b : Bool) (x y z : Option (Bytes × ℕ))
        → (if b then x else (if b then y else z)) ≡ (if b then x else z)
    if_if true x y z = refl
    if_if false x y z = refl

store_new-IsConsistent :
    (k v : Bytes) (c : Cache)
    → find k c.entries ≡ none
    → c.size + length v < word_mod
    → IsConsistent c
    → IsConsistent (cache_store k v c)
unfolding cache_store
store_new-IsConsistent k v c e lt h =
    let total : sum (assign k (v, c.fresh) c.entries) ≡ sum c.entries + length v =
      sum-assign_new k v c.fresh c.entries e in
    let size : (c.size + length v) % word_mod ≡ sum (assign k (v, c.fresh) c.entries) =
      omega (arith, total, h.size, lt) in
    rw (e, cache_store)
      (with-IsConsistent c _ h k v c.lru refl (λ j l a. a) (λ j l ne a. a)
        (λ l. find-assign k l (v, c.fresh) c.entries) refl size
        (omega (arith, size, total, h.size, lt)) (IsMap-assign k (v, c.fresh) c.entries h.keys))

cache_store-IsConsistent :
    (k v : Bytes) (c : Cache)
    → c.size + length v < word_mod
    → IsConsistent c
    → IsConsistent (cache_store k v c)
cache_store-IsConsistent k v c lt h = elim (Option-cases (find k c.entries)) [
  | inl e ↦ store_new-IsConsistent k v c e lt h
  | inr ((old, i), e) ↦ store_old-IsConsistent k v old i c e lt h
]

cache_store-capacity : (k v : Bytes) (c : Cache) → (cache_store k v c).capacity ≡ c.capacity
unfolding cache_store
cache_store-capacity k v c = elim (Option-cases (find k c.entries)) [
  | inl e ↦ rw (e, cache_store)
  | inr ((old, i), e) ↦ ap (λ (x : Cache). x.capacity) (store_old k v old i c e)
]

-- An entry without a node would contradict the books.
no_entries :
    (c : Cache)
    → IsConsistent c
    → length c.lru ≡ 0
    → (m : Dict (Bytes × ℕ)) → c.entries ≡ m
    → m ≡ []
no_entries c h none_left [] e = refl
no_entries c h none_left ((k, (v, i)) ∷ m) e = absurd (
    empty c.lru none_left
      (h.nodes k v i (ap (find k) e ∙ (unfold find in rw (str_eq_self k) refl))))
  where
    empty : (l : List (ℕ × Bytes)) → length l ≡ 0 → HasNode i k l → ⊥
    empty [] z a = unfold HasNode in a
    empty (x ∷ l) z a = omega (arith, z)

-- `cache_put_` keeps the books of the cache, if it is on and the sum of the sizes fits into `size_t`:
-- `cache_size_` is what the entries hold, no key stands twice, each entry has its node in the list, and no
-- two keys share a node. Afterwards the entries hold no more than the capacity, or there are none.
pub cache_put-IsConsistent :
    (k v : Bytes) (c : Cache)
    → c.on ≡ true
    → IsConsistent c
    → c.size + length v < word_mod
    → IsConsistent (cache_put k v c)
      × ((sum (cache_put k v c).entries ≤ c.capacity) ⊎ ((cache_put k v c).entries ≡ []))
cache_put-IsConsistent k v c on h lt =
    let kept : IsConsistent (cache_put k v c) =
      subst IsConsistent (sym run)
        (evict_loop-IsConsistent _ (cache_store k v c) (cache_store-IsConsistent k v c lt h)) in
    let same : (cache_put k v c).capacity ≡ c.capacity =
      ap (λ (x : Cache). x.capacity) run
      ∙ evict_loop-capacity _ (cache_store k v c)
      ∙ cache_store-capacity k v c in
    (
      kept,
      elim (cache_put-Fits k v c on) [
        | inl le ↦ inl (omega (arith, le, same, kept.size))
        | inr none_left ↦ inr (no_entries (cache_put k v c) kept none_left _ refl)
      ],
    )
  where
    run : cache_put k v c ≡ evict_loop (length (cache_store k v c).lru) (cache_store k v c)
    run = unfold cache_put in rw on refl
