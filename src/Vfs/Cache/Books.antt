-- ===== src/Vfs/Cache/Books.antt =====
-- The books of the cache: what is consistent, and that the loop that evicts keeps it so.
use neon_world_os.Base.{
  ℕ, zero, suc, ◌+◌, ◌-◌, ◌%◌, ◌<◌, Option, none, some, ◌≡◌, ◌≢◌, refl, sym, ap, ◌∙◌, subst, inl,
  inr, arith, Bytes, if◌then◌else◌, ltb, str_eq, str_eq_iff, length, find, remove, find-remove,
  Bool-cases, Option-cases,
}
use neon_world_os.Vfs.State.{word_mod}
use neon_world_os.Vfs.Cache.{Cache, back_of, evict, evict_loop}
use neon_world_os.Vfs.Cache.Entries.{
  sum, IsMap, HasNode, remove-absent, sum-remove, IsMap-remove, HasNode-drop_last, HasNode-dropped,
}

-- The size is what the entries hold and fits into `size_t`; no key stands twice; each entry has its node in
-- the list, under its number; a number stands for one key, and `fresh` for none.
pub record IsConsistent (c : Cache) : Type 0 where
  pub size : c.size ≡ sum c.entries
  pub small : c.size < word_mod
  pub keys : IsMap c.entries
  pub nodes : (k v : Bytes) (i : ℕ) → find k c.entries ≡ some (v, i) → HasNode i k c.lru
  pub unique : (i : ℕ) (k l : Bytes) → HasNode i k c.lru → HasNode i l c.lru → k ≡ l
  pub below : (i : ℕ) (k : Bytes) → HasNode i k c.lru → i < c.fresh

-- What an entry and a smaller list leave.
module _ (c c' : Cache) (h : IsConsistent c) (k : Bytes)
    (smaller : (i : ℕ) (l : Bytes) → HasNode i l c'.lru → HasNode i l c.lru)
    (others : (i : ℕ) (l : Bytes)
      → l ≢ k
      → (v : Bytes) → find l c.entries ≡ some (v, i)
      → HasNode i l c.lru
      → HasNode i l c'.lru)
    (gone : c'.entries ≡ remove k c.entries) (same : c'.fresh ≡ c.fresh) where
  without-IsConsistent : c'.size ≡ sum c'.entries → c'.size < word_mod → IsConsistent c'
  without-IsConsistent size small = record {
    size = size;
    small = small;
    keys = subst IsMap (sym gone) (IsMap-remove k c.entries h.keys);
    nodes = λ l v i e.
        let e' : find l (remove k c.entries) ≡ some (v, i) = ap (find l) (sym gone) ∙ e in
        let f : (if str_eq k l then none else find l c.entries) ≡ some (v, i) =
          sym (find-remove k l c.entries) ∙ e' in
        elim (Bool-cases (str_eq k l)) [
          | inl here ↦ absurd (ground (arith, f, here))
          | inr other ↦
              let there : find l c.entries ≡ some (v, i) = ground (arith, f, other) in
              others i l (λ p. ground (arith, other, p, str_eq_iff k l)) v there
                (h.nodes l v i there)
        ];
    unique = λ i l l' a b. h.unique i l l' (smaller i l a) (smaller i l' b);
    below = λ i l a. subst (λ (n : ℕ). i < n) (sym same) (h.below i l (smaller i l a));
  }

-- A round of the loop.
evict-IsConsistent :
    (c : Cache) (k : Bytes)
    → back_of c.lru ≡ some k
    → IsConsistent c
    → IsConsistent (evict (some k) c)
unfolding evict
evict-IsConsistent c k back h = elim (Option-cases (find k c.entries)) [
  | inl e ↦
      rw (e, evict)
        (without-IsConsistent c _ h k (λ j l. HasNode-dropped j l c.lru)
          (λ j l ne w f. HasNode-drop_last k j l c.lru back ne) (sym (remove-absent k c.entries e))
          refl h.size h.small)
  | inr ((v, i), e) ↦
      let left : sum (remove k c.entries) + length v ≡ sum c.entries =
        sum-remove k v i c.entries h.keys e in
      let size : (c.size + word_mod - length v) % word_mod ≡ sum (remove k c.entries) =
        omega (arith, left, h.size, h.small) in
      rw (e, evict)
        (without-IsConsistent c _ h k (λ j l. HasNode-dropped j l c.lru)
          (λ j l ne w f. HasNode-drop_last k j l c.lru back ne) refl refl size
          (omega (arith, size, left, h.size, h.small)))
]

pub evict_loop-IsConsistent : (n : ℕ) (c : Cache) → IsConsistent c → IsConsistent (evict_loop n c)
unfolding evict_loop
evict_loop-IsConsistent zero c h = h
evict_loop-IsConsistent (suc n) c h = elim (Bool-cases (ltb c.capacity c.size)) [
  | inl over ↦
      rw (over, evict_loop)
        (evict_loop-IsConsistent n (evict (back_of c.lru) c) (round (back_of c.lru) refl))
  | inr fits ↦ rw (fits, evict_loop) h
]
  where
    round : (o : Option Bytes) → back_of c.lru ≡ o → IsConsistent (evict o c)
    round none e = unfold evict in h
    round (some k) e = evict-IsConsistent c k e h

evict-capacity : (o : Option Bytes) (c : Cache) → (evict o c).capacity ≡ c.capacity
unfolding evict
evict-capacity none c = refl
evict-capacity (some k) c = elim (Option-cases (find k c.entries)) [
  | inl e ↦ rw (e, evict)
  | inr (x, e) ↦ rw (e, evict)
]

pub evict_loop-capacity : (n : ℕ) (c : Cache) → (evict_loop n c).capacity ≡ c.capacity
unfolding evict_loop
evict_loop-capacity zero c = refl
evict_loop-capacity (suc n) c = elim (Bool-cases (ltb c.capacity c.size)) [
  | inl over ↦
      rw (over, evict_loop)
        (evict_loop-capacity n (evict (back_of c.lru) c) ∙ evict-capacity (back_of c.lru) c)
  | inr fits ↦ rw (fits, evict_loop)
]
