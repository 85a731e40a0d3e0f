-- ===== src/Vfs/Edits.antt =====
-- `quota_reserve_`, `quota_apply_`, `SetMode`, `SetImmutable`, `Append` and `Truncate` of src/vfs.cpp.
-- Names that a body uses and nothing declares are arguments. A local that is declared twice is read as
-- the declaration nearest above. Each reading of a clock is an argument.
pub mod Laws
use neon_world_os.Base.{
  ℕ, ◌+◌, ◌%◌, Bool, true, false, not, ◌&&◌, [], ◌∷◌, ◌++◌, Option, none, some, Bytes,
  if◌then◌else◌, ltb, ◌==◌, is_empty, length, take, find, assign, remove, ℤ, pos, sub_ℕ,
  is_positive, add_clamped,
}
use mathlib.Core.Option
use neon_world_os.Vfs.Path.{normalize_path}
use neon_world_os.Vfs.State.{Vfs, Meta, word_mod}
use neon_world_os.Vfs.Files.{exists, read, write, size_of}
use neon_world_os.Vfs.Links.{is_immutable}
use neon_world_os.Vfs.Locks.{locked}
use neon_world_os.Vfs.Metadata.{meta_at, touch_meta}
use neon_world_os.Vfs.Quota.{best_quota_prefix}
use neon_world_os.Vfs.Cache.{Cache, cache_invalidate}

-- The fields of `class Vfs`, with those of the cache.
pub record Disk : Type 0 where
  pub vfs : Vfs
  pub cache : Cache

abbrev pub with_vfs : Disk → Vfs → Disk
with_vfs s v = record s { vfs = v }

-- `m[k]`, 0 if there is no entry.
abbrev pub or_zero : Option ℕ → ℕ
or_zero none = 0
or_zero (some n) = n

-- The sum is taken to fit into `long long`.
unfoldable pub quota_apply : Bytes → ℤ → Vfs → Vfs
quota_apply norm delta v =
    let qp = best_quota_prefix norm v in
    if is_empty qp then v else record v {
      quota_used = assign qp (add_clamped (or_zero (find qp v.quota_used)) delta) v.quota_used;
    }

-- The names `normR` and `-(long long)old` of the first line of `quota_reserve_`.
pub record Stray : Type 0 where
  pub norm_r : Bytes
  pub minus_old : ℤ

-- The `if` of the first line governs its first statement alone, so nothing behind that line is reached.
unfoldable pub quota_reserve : Bytes → ℤ → Stray → Disk → Disk × Bool
unfolding quota_apply
quota_reserve norm delta x s =
    let v = if is_positive delta then s.vfs else quota_apply x.norm_r x.minus_old s.vfs in
    (
      record {
        vfs = record v { path_sizes = remove x.norm_r v.path_sizes };
        cache = cache_invalidate x.norm_r s.cache;
      },
      true,
    )

-- `bool ok = Write(norm, data); if (ok) touch_meta_(norm, is_new); return ok;`.
unfoldable pub touch_written : Bytes → Bool → ℕ → ℕ → Vfs × Bool → Vfs × Bool
unfolding touch_meta
touch_written norm is_new now₁ now₂ (v, ok) =
    if ok then (touch_meta norm is_new now₁ now₂ v, true) else (v, false)

abbrev pub is_none {ℓ} : {A : Type ℓ} → Option A → Bool
is_none none = true
is_none (some a) = false

abbrev pub or_empty : Option Bytes → Bytes
or_empty none = []
or_empty (some s) = s

-- `Append` after its guards.
unfoldable pub append_free : Bytes → Bytes → ℕ → ℕ → Vfs → Vfs × Bool
unfolding touch_written
append_free norm text now₁ now₂ v =
    touch_written norm (is_none (read norm v)) now₁ now₂
      (write norm (or_empty (read norm v) ++ text) v)

-- `Truncate` after its guards, with the result of `Read`.
unfoldable pub truncate_free : Bytes → ℕ → Option Bytes → ℕ → ℕ → Vfs → Vfs × Bool
unfolding touch_written
truncate_free norm new_size none now₁ now₂ v = (v, false)
truncate_free norm new_size (some s) now₁ now₂ v =
    touch_written norm false now₁ now₂
      (write norm (if ltb new_size (length s) then take new_size s else s) v)

-- The guards that both share, between the reservation and the rest of the operation.
unfoldable pub guarded : Bytes → ℕ → (Vfs → Vfs × Bool) → Disk × Bool → Disk × Bool
guarded norm now act (s, reserved) =
    let v = (locked norm now s.vfs).0 in
    if not reserved
    then (s, false)
    else if is_immutable norm s.vfs
    then (s, false)
    else if (locked norm now s.vfs).1
    then (with_vfs s v, false)
    else (with_vfs s (act v).0, (act v).1)

unfoldable pub append : Bytes → Bytes → Stray → ℕ → ℕ → ℕ → Disk → Disk × Bool
unfolding guarded append_free quota_reserve
append path text x now now₁ now₂ s =
    let norm = normalize_path path in
    guarded norm now (append_free norm text now₁ now₂) (quota_reserve norm (pos (length text)) x s)

unfoldable pub truncate : Bytes → ℕ → Stray → ℕ → ℕ → ℕ → Disk → Disk × Bool
unfolding guarded truncate_free quota_reserve
truncate path new_size x now now₁ now₂ s =
    let norm = normalize_path path in
    guarded norm now (λ v. truncate_free norm new_size (read norm v) now₁ now₂ v)
      (quota_reserve norm (sub_ℕ new_size (size_of (read norm s.vfs))) x s)

-- `meta_[norm].mode = mode`.
unfoldable pub put_mode : Bytes → ℕ → Vfs → Vfs
unfolding meta_at
put_mode norm mode v = record v {
  meta = assign norm (record (meta_at norm v) { mode = mode }) v.meta;
}

-- `touch_meta_` and the `if` behind it, which `SetMode` holds twice. The default is `def_file_mode_` less
-- the bits of the umask, an argument.
unfoldable pub touch_mode : Bytes → Bool → ℕ → ℕ → ℕ → Vfs → Vfs
unfolding touch_meta put_mode
touch_mode norm is_new default now₁ now₂ v =
    let v' = touch_meta norm is_new now₁ now₂ v in
    if is_new && (meta_at norm v').mode == 0 then put_mode norm default v' else v'

-- The clock gives its readings by their number.
unfoldable pub set_mode : Bytes → ℕ → Bool → ℕ → (ℕ → ℕ) → Vfs → Vfs × Bool
unfolding touch_mode touch_meta put_mode
set_mode path mode is_new default clock v =
    let norm = normalize_path path in
    let v₁ = touch_meta norm false (clock 0) (clock 1) (put_mode norm mode v) in
    let v₂ = touch_mode norm is_new default (clock 2) (clock 3) v₁ in
    if exists norm v
    then (touch_mode norm is_new default (clock 4) (clock 5) v₂, true)
    else (v, false)

-- `content.size()` and `delta` are the names that nothing declares.
unfoldable pub set_immutable : Bytes → Bool → ℕ → ℤ → ℕ → ℕ → Disk → Disk × Bool
unfolding touch_meta quota_apply meta_at
set_immutable path imm content_size delta now₁ now₂ s =
    let norm = normalize_path path in
    let v = s.vfs in
    let v' =
      touch_meta norm false now₁ now₂
        (record v { meta = assign norm (record (meta_at norm v) { immutable = imm }) v.meta }) in
    let sized = record v' {
      path_sizes =
          assign norm ((or_zero (find norm v'.path_sizes) + content_size) % word_mod) v'.path_sizes;
    } in
    if exists norm v
    then (
      record { vfs = quota_apply norm delta sized; cache = cache_invalidate norm s.cache },
      true,
    )
    else (s, false)
