-- ===== src/Memory.antt =====
-- `MemoryManager` of include/neon/memory.hpp and src/memory.cpp. What `::operator new` returns is an
-- argument: a pointer, or none if it throws. The mutex makes each operation one step.
pub mod Accounts
pub mod Reached
use neon_world_os.Base.{
  ℕ, zero, suc, ◌+◌, ◌%◌, ◌^◌, Bool, true, false, List, [], ◌∷◌, Option, none, some, if◌then◌else◌,
  ltb, ◌==◌,
}

abbrev pub word_mod : ℕ
word_mod = 2 ^ 64

-- `allocs_`: the size of each block.
pub record Memory : Type 0 where
  pub capacity : ℕ
  pub allocs : List (ℕ × ℕ)

abbrev pub new_memory : ℕ → Memory
new_memory capacity = record { capacity = capacity; allocs = [] }

-- `used += kv.second` for each entry, in `size_t`.
unfoldable pub sum_from : ℕ → List (ℕ × ℕ) → ℕ
sum_from used [] = used
sum_from used ((p, n) ∷ m) = sum_from ((used + n) % word_mod) m

unfoldable pub used : Memory → ℕ
unfolding sum_from
used m = sum_from 0 m.allocs

-- `allocs_[p] = n`.
unfoldable pub assign : ℕ → ℕ → List (ℕ × ℕ) → List (ℕ × ℕ)
assign p n [] = (p, n) ∷ []
assign p n ((q, k) ∷ m) = if q == p then (q, n) ∷ m else (q, k) ∷ assign p n m

-- `allocs_.erase(p)`.
unfoldable pub erase : ℕ → List (ℕ × ℕ) → List (ℕ × ℕ)
erase p [] = []
erase p ((q, k) ∷ m) = if q == p then m else (q, k) ∷ erase p m

-- `none` is `std::bad_alloc`.
unfoldable pub allocate : ℕ → Option ℕ → Memory → Option (Memory × ℕ)
unfolding used assign
allocate n new m =
    if ltb m.capacity ((used m + n) % word_mod)
    then none
    else elim new [ none ↦ none | some p ↦ some (record m { allocs = assign p n m.allocs }, p) ]

-- The null pointer is 0.
unfoldable pub free : ℕ → Memory → Memory
unfolding erase
free p m = if p == 0 then m else record m { allocs = erase p m.allocs }
