-- ===== src/Vfs/Reports.antt =====
-- `CacheStats`, `QuotaReport` and the text of `FsckJson` of src/vfs.cpp. The report of the quotas goes through the quotas in the order of the list.
use neon_world_os.Base.{
  ℕ, Bool, true, false, ◌&&◌, List, [], ◌∷◌, ◌++◌, Option, Bytes, codes, if◌then◌else◌, Dict, find,
  ltb, length,
}
use mathlib.Core.Option
use neon_world_os.Vfs.Visit.{Visit, visits, Fsck, fsck_from, has_double_slash, ends_in_slash}
use neon_world_os.Vfs.State.{Vfs}
use neon_world_os.Vfs.Cache.{Cache}
use neon_world_os.Vfs.Dump.{decimal}
use neon_world_os.Vfs.Edits.{or_zero}

unfoldable pub cache_stats : Cache → Bytes
unfolding decimal
cache_stats c =
    codes "{ \"on\": "
    ++ ((if c.on then codes "true" else codes "false")
        ++ (codes ", \"capacity\": "
            ++ (decimal c.capacity
                ++ (codes ", \"size\": "
                    ++ (decimal c.size
                        ++ (codes ", \"hits\": "
                            ++ (decimal c.hits
                                ++ (codes ", \"misses\": "
                                    ++ (decimal c.misses ++ codes " }")))))))))

-- The entry of a prefix.
unfoldable pub quota_entry : Bytes → ℕ → Dict ℕ → Bytes
unfolding decimal
quota_entry prefix limit used =
    codes "\""
    ++ (prefix
        ++ (codes "\": {\"limit\": "
            ++ (decimal limit
                ++ (codes ", \"used\": " ++ (decimal (or_zero (find prefix used)) ++ codes "}")))))

-- The loop, with `first`.
unfoldable pub quota_entries : Bool → Dict ℕ → Dict ℕ → Bytes
unfolding quota_entry
quota_entries first [] used = []
quota_entries first ((prefix, limit) ∷ limits) used =
    (if first then [] else codes ",")
    ++ (quota_entry prefix limit used ++ quota_entries false limits used)

unfoldable pub quota_report : Vfs → Bytes
unfolding quota_entries
quota_report v = codes "{" ++ (quota_entries true v.quota_limit v.quota_used ++ codes "}")

-- The issues of a path, in the order of the callback of `FsckJson`.
unfoldable pub issues_of : Bytes → List Bytes
unfolding has_double_slash ends_in_slash
issues_of path =
    (if has_double_slash path then (codes "double-slash:" ++ path) ∷ [] else [])
    ++ (if ltb 1 (length path) && ends_in_slash path
        then (codes "trailing-slash:" ++ path) ∷ []
        else [])

unfoldable pub all_issues : List Visit → List Bytes
unfolding issues_of
all_issues [] = []
all_issues (x ∷ xs) = issues_of x.path ++ all_issues xs

-- The loop over the issues, with `if (i) o << ","`.
unfoldable pub issues_text : Bool → List Bytes → Bytes
issues_text first [] = []
issues_text first (t ∷ ts) =
    (if first then [] else codes ",") ++ (codes "\"" ++ (t ++ (codes "\"" ++ issues_text false ts)))

abbrev pub bool_text : Bool → Bytes
bool_text b = if b then codes "true" else codes "false"

-- The text, from what was counted.
unfoldable pub fsck_text : Vfs → Fsck → List Bytes → Bytes
unfolding issues_text decimal
fsck_text v f issues =
    codes "{\"ok\":"
    ++ (bool_text f.ok
        ++ (codes ",\"files\":"
            ++ (decimal f.files
                ++ (codes ",\"dirs\":"
                    ++ (decimal f.dirs
                        ++ (codes ",\"used_bytes\":"
                            ++ (decimal f.used
                                ++ (codes ",\"quota\":"
                                    ++ (decimal v.quota_bytes
                                        ++ (codes ",\"sealed\":"
                                            ++ (bool_text v.sealed
                                                ++ (codes ",\"issues\":["
                                                    ++ (issues_text true issues
                                                        ++ codes "]}")))))))))))))

-- `none` is out of fuel.
unfoldable pub fsck_json : Vfs → Option Bytes
unfolding fsck_text fsck_from visits all_issues
fsck_json v =
    Option.map
      (λ (xs : List Visit).
        fsck_text v (fsck_from (record { ok = true; files = 0; dirs = 0; used = 0 }) xs)
          (all_issues xs))
      (visits v)
