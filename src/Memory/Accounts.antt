-- ===== src/Memory/Accounts.antt =====
-- The bytes that are handed out never exceed the capacity.
use neon_world_os.Base.{
  ℕ, ◌+◌, ◌%◌, ◌≤◌, ◌<◌, List, [], ◌∷◌, Option, none, some, ◌≡◌, ◌≢◌, arith, if◌then◌else◌, ◌==◌,
}
use neon_world_os.Memory.{Memory, word_mod, sum_from, used, assign, erase, allocate, free}

-- The size of a block, if it is one.
unfoldable pub size_of : ℕ → List (ℕ × ℕ) → Option ℕ
size_of p [] = none
size_of p ((q, k) ∷ m) = if q == p then some k else size_of p m

-- The bytes handed out, with no wrap-around.
unfoldable pub total : List (ℕ × ℕ) → ℕ
total [] = 0
total ((p, n) ∷ m) = n + total m

-- The invariant: what is handed out fits into the capacity, and the capacity into `size_t`.
pub record IsValid (m : Memory) : Type 0 where
  pub within : total m.allocs ≤ m.capacity
  pub word : m.capacity < word_mod

sum_from-total :
    (acc : ℕ) (m : List (ℕ × ℕ)) → acc + total m < word_mod → sum_from acc m ≡ acc + total m
unfolding sum_from total
sum_from-total acc [] h = omega arith
sum_from-total acc ((p, n) ∷ m) h =
    let e : (acc + n) % word_mod ≡ acc + n = omega arith in
    rw e (omega (arith, sum_from-total (acc + n) m (omega arith)))

-- In a valid state `Used` is the true sum.
pub used-total : (m : Memory) → IsValid m → used m ≡ total m.allocs
unfolding used
used-total m v = omega (arith, sum_from-total 0 m.allocs (omega arith))

total-assign :
    (p n : ℕ) (m : List (ℕ × ℕ)) → size_of p m ≡ none → total (assign p n m) ≡ total m + n
unfolding size_of total assign
total-assign p n [] h = omega arith
total-assign p n ((q, k) ∷ m) h = ground (arith, total-assign p n m)

total-erase : (p n : ℕ) (m : List (ℕ × ℕ)) → size_of p m ≡ some n → total (erase p m) + n ≡ total m
unfolding size_of total erase
total-erase p n [] h = cc
total-erase p n ((q, k) ∷ m) h = ground (arith, total-erase p n m)

pub total-erase-le : (p : ℕ) (m : List (ℕ × ℕ)) → total (erase p m) ≤ total m
unfolding total erase
total-erase-le p [] = omega arith
total-erase-le p ((q, k) ∷ m) = ground (arith, total-erase-le p m)

-- The guard of `Allocate`, once it has let a request pass.
fits_capacity :
    (n p : ℕ) (m m' : Memory)
    → IsValid m
    → used m + n < word_mod
    → allocate n (some p) m ≡ some (m', p)
    → total m.allocs + n ≤ m.capacity
unfolding allocate
fits_capacity n p m m' v small e = ground (arith, used-total m v)

-- An `Allocate` that returns keeps a valid state valid, with the capacity respected, and accounts
-- for the block, if the request does not overflow `size_t` and `operator new` returns a pointer that
-- is not in use.
pub allocate-IsValid :
    (n p : ℕ) (m m' : Memory)
    → IsValid m
    → used m + n < word_mod
    → size_of p m.allocs ≡ none
    → allocate n (some p) m ≡ some (m', p)
    → IsValid m' × (used m' ≡ used m + n)
unfolding allocate
allocate-IsValid n p m m' v small fresh e =
    let t = used-total m v in
    let a = total-assign p n m.allocs fresh in
    let fits : total m.allocs + n ≤ m.capacity = unfold used in fits_capacity n p m m' v small e in
    let same : m' ≡ record m { allocs = assign p n m.allocs } = ground arith in
    let v' : IsValid (record m { allocs = assign p n m.allocs }) = record {
      within = omega (arith, a, fits);
      word = v.word;
    } in
    rw same (v', omega (arith, used-total (record m { allocs = assign p n m.allocs }) v', a, t))

-- `Free` of a block gives its bytes back and keeps the state valid, if it was valid and the pointer
-- to the block is not null.
pub free-IsValid :
    (n p : ℕ) (m : Memory)
    → IsValid m
    → p ≢ 0
    → size_of p m.allocs ≡ some n
    → IsValid (free p m) × (used (free p m) + n ≡ used m)
free-IsValid n p m v nz h =
    let e : free p m ≡ record m { allocs = erase p m.allocs } = unfold free in ground arith in
    let t = total-erase p n m.allocs h in
    let v' : IsValid (record m { allocs = erase p m.allocs }) = record {
      within = omega (arith, t);
      word = v.word;
    } in
    rw e
      (v', omega (arith, used-total (record m { allocs = erase p m.allocs }) v', t, used-total m v))
