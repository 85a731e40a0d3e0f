-- ===== src/Vfs/Cache.antt =====
-- The cache of src/vfs.cpp. A node of `lru_` has a number, and an iterator is the number of its node;
-- `fresh` is above all numbers in use.
pub mod Entries
pub mod Books
pub mod Consistent
use neon_world_os.Base.{
  ℕ, zero, suc, ◌+◌, ◌-◌, ◌%◌, ◌≤◌, Bool, true, false, List, [], ◌∷◌, Option, none, some, Bytes,
  if◌then◌else◌, ltb, ◌==◌, length, drop_last, Dict, find, assign, remove, ◌≡◌, refl, arith, ◌⊎◌,
  inl, inr, Bool-cases, Option-cases, subst, ap, ◌∙◌,
}
use neon_world_os.Vfs.State.{word_mod}

pub record Cache : Type 0 where
  pub on : Bool
  pub capacity : ℕ
  pub size : ℕ
  pub lru : List (ℕ × Bytes)
  pub entries : Dict (Bytes × ℕ)
  pub hits : ℕ
  pub misses : ℕ
  pub fresh : ℕ

abbrev pub new_cache : Cache
new_cache = record {
  on = true;
  capacity = 0x100000;
  size = 0;
  lru = [];
  entries = [];
  hits = 0;
  misses = 0;
  fresh = 0;
}

unfoldable pub cache_clear : Cache → Cache
cache_clear c = record c { entries = []; lru = []; size = 0; hits = 0; misses = 0 }

-- `lru_.erase(it)`.
unfoldable pub erase_node : ℕ → List (ℕ × Bytes) → List (ℕ × Bytes)
erase_node i [] = []
erase_node i ((j, k) ∷ lru) = if j == i then lru else (j, k) ∷ erase_node i lru

unfoldable pub cache_touch : Bytes → Cache → Cache
unfolding erase_node
cache_touch k c = elim (find k c.entries) [
  | none ↦ c
  | some (v, i) ↦ record c {
    lru = (c.fresh, k) ∷ erase_node i c.lru;
    entries = assign k (v, c.fresh) c.entries;
    fresh = suc c.fresh;
  }
]

unfoldable pub cache_get : Bytes → Cache → Cache × Option Bytes
unfolding cache_touch
cache_get k c =
    if c.on
    then elim (find k c.entries) [
      | none ↦ (record c { misses = (c.misses + 1) % word_mod }, none)
      | some (v, i) ↦ (record (cache_touch k c) { hits = (c.hits + 1) % word_mod }, some v)
    ]
    else (c, none)

-- `cache_size_ -= n` and `cache_size_ += n`.
abbrev pub less_size : ℕ → Cache → Cache
less_size n c = record c { size = (c.size + word_mod - n) % word_mod }

abbrev pub more_size : ℕ → Cache → Cache
more_size n c = record c { size = (c.size + n) % word_mod }

-- `cache_put_` up to its loop.
unfoldable pub cache_store : Bytes → Bytes → Cache → Cache
unfolding cache_touch
cache_store k v c = elim (find k c.entries) [
  | some (old, i) ↦
      more_size (length v)
        (cache_touch k (record (less_size (length old) c) { entries = assign k (v, i) c.entries }))
  | none ↦ more_size (length v) (record c {
    lru = (c.fresh, k) ∷ c.lru;
    entries = assign k (v, c.fresh) c.entries;
    fresh = suc c.fresh;
  })
]

-- The key at the back of the list.
unfoldable pub back_of : List (ℕ × Bytes) → Option Bytes
back_of [] = none
back_of ((i, k) ∷ []) = some k
back_of (x ∷ y ∷ lru) = back_of (y ∷ lru)

-- One round of the loop, for the key at the back.
unfoldable pub evict : Option Bytes → Cache → Cache
evict none c = c
evict (some k) c = elim (find k c.entries) [
  | none ↦ record c { lru = drop_last c.lru }
  | some (v, i) ↦ record (less_size (length v) c) {
    lru = drop_last c.lru;
    entries = remove k c.entries;
  }
]

-- The loop: as many rounds as the list has nodes, since then it is empty.
unfoldable pub evict_loop : ℕ → Cache → Cache
unfolding evict back_of
evict_loop zero c = c
evict_loop (suc n) c = elim (ltb c.capacity c.size) [
  | false ↦ c
  | true ↦ evict_loop n (evict (back_of c.lru) c)
]

unfoldable pub cache_put : Bytes → Bytes → Cache → Cache
unfolding cache_store evict_loop
cache_put k v c =
    if c.on then evict_loop (length (cache_store k v c).lru) (cache_store k v c) else c

unfoldable pub cache_invalidate : Bytes → Cache → Cache
unfolding erase_node
cache_invalidate k c = elim (find k c.entries) [
  | none ↦ c
  | some (v, i) ↦ record (less_size (length v) c) {
    lru = erase_node i c.lru;
    entries = remove k c.entries;
  }
]

unfoldable pub set_cache_on : Bool → Cache → Cache
set_cache_on on c = record c { on = on }

unfoldable pub set_cache_size : ℕ → Cache → Cache
set_cache_size bytes c = record c { capacity = bytes }

length-drop_last : {A : Type 0} (x : A) (xs : List A) → length (drop_last (x ∷ xs)) ≡ length xs
length-drop_last x [] = refl
length-drop_last x (y ∷ xs) = omega (arith, length-drop_last y xs)

evict-lru : (k : Bytes) (c : Cache) → (evict (some k) c).lru ≡ drop_last c.lru
unfolding evict
evict-lru k c = elim (Option-cases (find k c.entries)) [
  | inl f ↦ rw (f, evict)
  | inr (x, f) ↦ rw (f, evict)
]

back_of-cons : (x : ℕ × Bytes) (lru : List (ℕ × Bytes)) → (k : Bytes) × (back_of (x ∷ lru) ≡ some k)
unfolding back_of
back_of-cons (i, k) [] = (k, refl)
back_of-cons x (y ∷ lru) = back_of-cons y lru

-- A round takes a node off the list, if there is one.
length-evict : (n : ℕ) (c : Cache) → length c.lru ≤ suc n → length (evict (back_of c.lru) c).lru ≤ n
length-evict n c le = go c.lru refl
  where
    go : (l : List (ℕ × Bytes)) → c.lru ≡ l → length (evict (back_of c.lru) c).lru ≤ n
    go [] e = rw e (unfold back_of evict in omega arith)
    go (x ∷ l) e =
        let (k, b) = back_of-cons x l in
        let len : length (x ∷ l) ≤ suc n =
          subst (λ (m : List (ℕ × Bytes)). length m ≤ suc n) e le in
        let left : length (evict (back_of c.lru) c).lru ≡ length l =
          ap (λ (o : Option Bytes). length (evict o c).lru) (ap back_of e ∙ b)
          ∙ ap length (evict-lru k c)
          ∙ ap (λ (m : List (ℕ × Bytes)). length (drop_last m)) e
          ∙ length-drop_last x l in
        omega (arith, len, left)

-- The size is within the capacity, or no node is left.
abbrev pub Fits : Cache → Type 0
Fits c = (c.size ≤ c.capacity) ⊎ (length c.lru ≡ 0)

evict_loop-Fits : (n : ℕ) (c : Cache) → length c.lru ≤ n → Fits (evict_loop n c)
unfolding evict_loop
evict_loop-Fits zero c le = inr (omega (arith, le))
evict_loop-Fits (suc n) c le = elim (Bool-cases (ltb c.capacity c.size)) [
  | inl over ↦
      rw (over, evict_loop) (evict_loop-Fits n (evict (back_of c.lru) c) (length-evict n c le))
  | inr fits ↦ rw (fits, evict_loop) (inl (ground arith))
]

Fits-if : (b : Bool) (x y : Cache) → b ≡ true → Fits x → Fits (if b then x else y)
Fits-if true x y e h = h
Fits-if false x y e h = absurd (cc)

-- After a `cache_put_` the size is within the capacity, or no node is left in the list, if the cache is
-- on: the loop that evicts goes on until then, and it ends.
pub cache_put-Fits : (k v : Bytes) (c : Cache) → c.on ≡ true → Fits (cache_put k v c)
unfolding cache_put
cache_put-Fits k v c on =
    Fits-if c.on (evict_loop (length (cache_store k v c).lru) (cache_store k v c)) c on
      (evict_loop-Fits (length (cache_store k v c).lru) (cache_store k v c) (omega arith))
