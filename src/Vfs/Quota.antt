-- ===== src/Vfs/Quota.antt =====
-- The quotas by prefix of src/vfs.cpp: `best_quota_prefix_`, `QuotaSet`, `QuotaDel`, `SetQuota`.
pub mod Best
use neon_world_os.Base.{
  ℕ, ◌+◌, ◌%◌, Bool, true, false, not, ◌&&◌, List, [], ◌∷◌, Option, none, some, Bytes,
  if◌then◌else◌, ltb, leb, length, starts_with, Dict, assign, remove,
}
use mathlib.Core.Option
use neon_world_os.Vfs.Path.{normalize_path}
use neon_world_os.Vfs.State.{Vfs, word_mod}
use neon_world_os.Vfs.Visit.{Visit, visits}

-- `best` after one prefix; `best_len` is its length.
unfoldable pub better : Bytes → Bytes → Bytes → Bytes
better norm p best =
    if leb (length p) (length norm) && starts_with norm p
    then if ltb (length best) (length p) then p else best
    else best

-- The loop over `quota_limit_`.
unfoldable pub best_from : Bytes → Dict ℕ → Bytes → Bytes
unfolding better
best_from norm [] best = best
best_from norm ((p, n) ∷ m) best = best_from norm m (better norm p best)

unfoldable pub best_quota_prefix : Bytes → Vfs → Bytes
unfolding best_from
best_quota_prefix norm v = best_from norm v.quota_limit []

-- The callback of `QuotaSet`, over `sum` and `path_sizes_`.
unfoldable pub quota_count : Bytes → List Visit → ℕ → Dict ℕ → ℕ × Dict ℕ
quota_count p [] sum sizes = (sum, sizes)
quota_count p (x ∷ xs) sum sizes = elim (not x.dir && starts_with x.path p) [
  | true ↦ quota_count p xs ((sum + x.size) % word_mod) (assign x.path x.size sizes)
  | false ↦ quota_count p xs sum sizes
]

-- `none` if the walk is out of fuel, which it never is.
unfoldable pub quota_set : Bytes → ℕ → Vfs → Option (Vfs × Bool)
unfolding quota_count
quota_set prefix bytes v =
    let p = normalize_path prefix in
    Option.map
      (λ vs. (
        record v {
          quota_limit = assign p bytes v.quota_limit;
          quota_used = assign p (quota_count p vs 0 v.path_sizes).0 v.quota_used;
          path_sizes = (quota_count p vs 0 v.path_sizes).1;
        },
        true,
      ))
      (visits v)

unfoldable pub quota_del : Bytes → Vfs → Vfs × Bool
quota_del prefix v =
    let p = normalize_path prefix in
    (record v { quota_limit = remove p v.quota_limit; quota_used = remove p v.quota_used }, true)

unfoldable pub set_quota : ℕ → Vfs → Vfs
set_quota bytes v = record v { quota_bytes = bytes }

unfoldable pub seal : Bool → Vfs → Vfs
seal on v = record v { sealed = on }
