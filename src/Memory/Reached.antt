-- ===== src/Memory/Reached.antt =====
-- Every state that calls of `Allocate` and `Free` reach.
use neon_world_os.Base.{ℕ, ◌+◌, ◌≤◌, ◌<◌, none, some, ◌≡◌, arith, if_by, ◌==◌}
use neon_world_os.Memory.{Memory, word_mod, used, erase, allocate, free}
use neon_world_os.Memory.Accounts.{
  IsValid, size_of, total, used-total, total-erase-le, allocate-IsValid,
}

-- `operator new` returns a pointer that is not in use, and no request overflows `size_t`. A pointer is
-- freed whether or not it is that of a block.
pub data Reaches (m : Memory) : Memory → Type 0 where
  here : Reaches m m
  allocates :
      {m₁ m₂ : Memory} (n p : ℕ)
      → Reaches m m₁
      → used m₁ + n < word_mod
      → size_of p m₁.allocs ≡ none
      → allocate n (some p) m₁ ≡ some (m₂, p)
      → Reaches m m₂
  frees : {m₁ : Memory} (p : ℕ) → Reaches m m₁ → Reaches m (free p m₁)

free_any-IsValid : (p : ℕ) (m : Memory) → IsValid m → IsValid (free p m)
unfolding free
free_any-IsValid p m v =
    if_by IsValid (p == 0) m (record m { allocs = erase p m.allocs }) (λ e. v)
      (λ e. record { within = omega (arith, v.within, total-erase-le p m.allocs); word = v.word })

Reaches-IsValid : (m m' : Memory) → IsValid m → Reaches m m' → IsValid m'
Reaches-IsValid m m' v here = v
Reaches-IsValid m m' v (allocates n p r small fresh e) =
    (allocate-IsValid n p _ m' (Reaches-IsValid m _ v r) small fresh e).0
Reaches-IsValid m m' v (frees p r) = free_any-IsValid p _ (Reaches-IsValid m _ v r)

-- In every state that is reached from a valid one by `Allocate` and `Free`, `Used` is the sum of the
-- sizes of the blocks and does not exceed the capacity, if no request overflows `size_t` and
-- `operator new` returns pointers that are not in use.
pub used-capacity :
    (m m' : Memory)
    → IsValid m
    → Reaches m m'
    → (used m' ≡ total m'.allocs) × (used m' ≤ m'.capacity)
used-capacity m m' v r =
    let v' = Reaches-IsValid m m' v r in
    let e = used-total m' v' in (e, omega (arith, e, v'.within))
