-- ===== src/Vfs/Locks.antt =====
-- The locks of src/vfs.cpp: `clean_locks_`, `locked_`, `Lock`, `Unlock`. Each reading of the clock
-- is an argument.
use neon_world_os.Base.{
  ℕ, ◌+◌, ◌%◌, ◌<◌, Bool, true, false, [], ◌∷◌, Option, none, some, ◌≡◌, refl, arith, Bytes,
  if◌then◌else◌, leb, Dict, find, assign, remove, find-assign, str_eq_self,
}
use neon_world_os.Vfs.Path.{normalize_path}
use neon_world_os.Vfs.State.{Vfs, word_mod}

abbrev is_some {ℓ} : {A : Type ℓ} → Option A → Bool
is_some none = false
is_some (some a) = true

-- The locks that have not expired.
unfoldable pub live : ℕ → Dict ℕ → Dict ℕ
live now [] = []
live now ((k, until) ∷ m) = if leb until now then live now m else (k, until) ∷ live now m

unfoldable pub clean_locks : ℕ → Vfs → Vfs
unfolding live
clean_locks now v = record v { locks_ms = live now v.locks_ms }

unfoldable pub locked : Bytes → ℕ → Vfs → Vfs × Bool
unfolding clean_locks
locked norm now v = (clean_locks now v, is_some (find norm (clean_locks now v).locks_ms))

-- `Lock` reads the clock three times.
unfoldable pub lock : Bytes → ℕ → ℕ → ℕ → ℕ → Vfs → Vfs × Bool
unfolding clean_locks locked
lock path ttl now₁ now₂ now₃ v =
    let norm = normalize_path path in
    let v' = (locked norm now₂ (clean_locks now₁ v)).0 in
    if (locked norm now₂ (clean_locks now₁ v)).1
    then (v', false)
    else (record v' { locks_ms = assign norm ((now₃ + ttl) % word_mod) v'.locks_ms }, true)

unfoldable pub unlock : Bytes → ℕ → Vfs → Vfs × Bool
unfolding clean_locks
unlock path now v =
    let norm = normalize_path path in
    let v' = clean_locks now v in
    (record v' { locks_ms = remove norm v'.locks_ms }, is_some (find norm v'.locks_ms))

-- When the lock of a path ends, if it has one.
abbrev pub ends : Bytes → Vfs → Option ℕ
ends path v = find (normalize_path path) v.locks_ms

-- Every entry of a key is in the future.
pub find-live_of_lt :
    (k : Bytes) (now until : ℕ) (m : Dict ℕ)
    → find k m ≡ some until
    → now < until
    → find k (live now m) ≡ some until
unfolding find live
find-live_of_lt k now until [] h lt = cc
find-live_of_lt k now until ((j, u) ∷ m) h lt = ground (arith, find-live_of_lt k now until m)

find-live-none : (k : Bytes) (now : ℕ) (m : Dict ℕ) → find k m ≡ none → find k (live now m) ≡ none
unfolding find live
find-live-none k now [] h = refl
find-live-none k now ((j, u) ∷ m) h = ground (arith, find-live-none k now m)

-- A lock that is held keeps every other holder out: as long as it has not expired, `Lock` of a path
-- with the same normal form fails and leaves the lock as it is.
pub lock-excludes :
    (path other : Bytes) (ttl until now₁ now₂ now₃ : ℕ) (v : Vfs)
    → normalize_path other ≡ normalize_path path
    → ends path v ≡ some until
    → now₁ < until
    → now₂ < until
    → ((lock other ttl now₁ now₂ now₃ v).1 ≡ false)
      × (ends path (lock other ttl now₁ now₂ now₃ v).0 ≡ some until)
unfolding lock locked clean_locks
lock-excludes path other ttl until now₁ now₂ now₃ v same held lt₁ lt₂ =
    let kept =
      find-live_of_lt (normalize_path path) now₂ until _
        (find-live_of_lt (normalize_path path) now₁ until v.locks_ms held lt₁) lt₂ in
    rw (same, kept) (refl, kept)

-- `Lock` of a path with no lock succeeds, and the lock then ends `ttl` after the last reading of the
-- clock, in `uint64_t`.
pub lock-free :
    (path : Bytes) (ttl now₁ now₂ now₃ : ℕ) (v : Vfs)
    → ends path v ≡ none
    → ((lock path ttl now₁ now₂ now₃ v).1 ≡ true)
      × (ends path (lock path ttl now₁ now₂ now₃ v).0 ≡ some ((now₃ + ttl) % word_mod))
unfolding lock locked clean_locks
lock-free path ttl now₁ now₂ now₃ v free =
    let gone =
      find-live-none (normalize_path path) now₂ _
        (find-live-none (normalize_path path) now₁ v.locks_ms free) in
    rw gone (
      refl,
      rw (find-assign (normalize_path path) (normalize_path path))
          (rw (str_eq_self (normalize_path path))),
    )
