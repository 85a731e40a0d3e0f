-- ===== src/Vfs/Edits/Laws.antt =====
-- What `Append`, `Truncate` and `SetMode` leave behind.
use neon_world_os.Base.{
  ℕ, zero, suc, ◌≤◌, Bool, true, false, not, [], ◌∷◌, ◌++◌, Option, none, some, ◌≡◌, ◌≢◌, refl, sym,
  ap, ◌∙◌, subst, ◌⊎◌, inl, inr, arith, Bytes, if◌then◌else◌, ltb, is_empty, length, take, ℤ, pos,
  sub_ℕ, is_positive, Bool-cases,
}
use neon_world_os.Vfs.Path.{normalize_path, segments}
use neon_world_os.Vfs.Path.Normal.{segments-normalize_path}
use neon_world_os.Vfs.Tree.{Node, Loc}
use neon_world_os.Vfs.Tree.View.{file_at}
use neon_world_os.Vfs.State.{Vfs}
use neon_world_os.Vfs.Files.{read, write, size_of}
use neon_world_os.Vfs.Files.Writes.{read-file_at}
use neon_world_os.Vfs.Files.Write.{Outcome, write-Outcome}
use neon_world_os.Vfs.Links.{is_immutable}
use neon_world_os.Vfs.Locks.{locked, clean_locks}
use neon_world_os.Vfs.Metadata.{touch_meta}
use neon_world_os.Vfs.Quota.{best_quota_prefix}
use neon_world_os.Vfs.Edits.{
  Disk, Stray, quota_apply, quota_reserve, touch_written, or_empty, append_free, truncate_free,
  is_none, guarded, append, truncate,
}

-- The operation fails and leaves the tree as it was, or it succeeds: then the file holds the text, and
-- every other file is as before.
abbrev pub Written : Loc → Bytes → Node → Node → Bool → Type 0
Written ks text root root' ok =
    ((ok ≡ false) × (root' ≡ root))
    ⊎ ((ok ≡ true)
        × ((file_at ks root' ≡ some text)
            × ((qs : Loc) → qs ≢ ks → file_at qs root' ≡ file_at qs root)))

-- The tree of a state and the success, of what an operation returns.
abbrev Leaves : Loc → Bytes → Node → Vfs × Bool → Type 0
Leaves ks text root r = Written ks text root r.0.root r.1

abbrev LeavesDisk : Loc → Bytes → Node → Disk × Bool → Type 0
LeavesDisk ks text root r = Written ks text root r.0.vfs.root r.1

touch_written-Leaves :
    (ks : Loc) (text norm : Bytes) (is_new : Bool) (now₁ now₂ : ℕ) (v : Vfs) (r : Vfs × Bool)
    → Outcome ks text v r
    → Leaves ks text v.root (touch_written norm is_new now₁ now₂ r)
unfolding touch_written touch_meta
touch_written-Leaves ks text norm is_new now₁ now₂ v r (inl e) = rw e (inl (refl, refl))
touch_written-Leaves ks text norm is_new now₁ now₂ v r (inr (n, e, w)) =
    rw e (inr (refl, (w.here, w.elsewhere)))

-- `Write` to a normalised path, and the touch behind it.
write_touched :
    (path text : Bytes) (is_new : Bool) (now₁ now₂ : ℕ) (v : Vfs)
    → Leaves
        (segments path)
        text
        v.root
        (touch_written (normalize_path path) is_new now₁ now₂ (write (normalize_path path) text v))
write_touched path text is_new now₁ now₂ v =
    touch_written-Leaves (segments path) text (normalize_path path) is_new now₁ now₂ v _ (
      subst (λ (ks : Loc). Outcome ks text v (write (normalize_path path) text v))
        (segments-normalize_path path) (write-Outcome (normalize_path path) text v))

read-normalized :
    (path : Bytes) (v : Vfs) → read (normalize_path path) v ≡ file_at (segments path) v.root
read-normalized path v =
    read-file_at (normalize_path path) v
    ∙ ap (λ (ks : Loc). file_at ks v.root) (segments-normalize_path path)

LeavesDisk-if :
    (ks : Loc) (text : Bytes) (root : Node) (b : Bool) (x y : Disk × Bool)
    → LeavesDisk ks text root x
    → LeavesDisk ks text root y
    → LeavesDisk ks text root (if b then x else y)
LeavesDisk-if ks text root true x y hx hy = hx
LeavesDisk-if ks text root false x y hx hy = hy

guarded-LeavesDisk :
    (ks : Loc) (text norm : Bytes) (root : Node) (now : ℕ) (act : Vfs → Vfs × Bool) (s : Disk)
    (reserved : Bool)
    → s.vfs.root ≡ root
    → ((v : Vfs) → v.root ≡ root → Leaves ks text root (act v))
    → LeavesDisk ks text root (guarded norm now act (s, reserved))
unfolding guarded locked clean_locks
guarded-LeavesDisk ks text norm root now act s reserved e h =
    LeavesDisk-if ks text root (not reserved) _ _ (inl (refl, e)) (
      LeavesDisk-if ks text root (is_immutable norm s.vfs) _ _ (inl (refl, e)) (
        LeavesDisk-if ks text root (locked norm now s.vfs).1 _ _ (inl (refl, e))
          (h (clean_locks now s.vfs) e)))

quota_apply-root : (norm : Bytes) (delta : ℤ) (v : Vfs) → (quota_apply norm delta v).root ≡ v.root
unfolding quota_apply
quota_apply-root norm delta v = elim (Bool-cases (is_empty (best_quota_prefix norm v))) [
  | inl e ↦ rw e
  | inr e ↦ rw e
]

pub quota_reserve-root :
    (norm : Bytes) (delta : ℤ) (x : Stray) (s : Disk)
    → (quota_reserve norm delta x s).0.vfs.root ≡ s.vfs.root
unfolding quota_reserve
quota_reserve-root norm delta x s = elim (Bool-cases (is_positive delta)) [
  | inl e ↦ rw e
  | inr e ↦ rw e (quota_apply-root x.norm_r x.minus_old s.vfs)
]

Leaves-to :
    (ks : Loc) (text text' : Bytes) (root root' : Node) (r : Vfs × Bool)
    → text ≡ text'
    → root ≡ root'
    → Leaves ks text root r
    → Leaves ks text' root' r
Leaves-to ks text text' root root' r e e' h =
    subst (λ (t : Bytes). Leaves ks t root' r) e (subst (λ (n : Node). Leaves ks text n r) e' h)

read-kept :
    (path : Bytes) (v w : Vfs) → v.root ≡ w.root → read (normalize_path path) v ≡ read path w
read-kept path v w e =
    read-normalized path v
    ∙ ap (λ (n : Node). file_at (segments path) n) e
    ∙ sym (read-file_at path w)

-- The two bodies on a state with the tree of `w`.
append_free-Leaves :
    (path text : Bytes) (now₁ now₂ : ℕ) (w v : Vfs)
    → v.root ≡ w.root
    → Leaves
        (segments path)
        (or_empty (read path w) ++ text)
        w.root
        (append_free (normalize_path path) text now₁ now₂ v)
unfolding append_free
append_free-Leaves path text now₁ now₂ w v e =
    Leaves-to (segments path) (or_empty (read (normalize_path path) v) ++ text)
      (or_empty (read path w) ++ text) v.root w.root
      (append_free (normalize_path path) text now₁ now₂ v)
      (ap (λ (o : Option Bytes). or_empty o ++ text) (read-kept path v w e)) e
      (write_touched path (or_empty (read (normalize_path path) v) ++ text)
        (is_none (read (normalize_path path) v)) now₁ now₂ v)

take_short : (n : ℕ) (s : Bytes) → length s ≤ n → take n s ≡ s
take_short zero [] h = refl
take_short zero (c ∷ s) h = absurd (omega (arith, h))
take_short (suc n) [] h = refl
take_short (suc n) (c ∷ s) h = ap (◌∷◌ c) (take_short n s (omega (arith, h)))

take_all : (n : ℕ) (s : Bytes) → (if ltb n (length s) then take n s else s) ≡ take n s
take_all n s = elim (Bool-cases (ltb n (length s))) [
  | inl e ↦ rw e refl
  | inr e ↦ rw e (sym (take_short n s (ground (arith, e))))
]

truncate_free-Leaves :
    (path : Bytes) (n now₁ now₂ : ℕ) (v : Vfs) (o : Option Bytes)
    → Leaves
        (segments path)
        (take n (or_empty o))
        v.root
        (truncate_free (normalize_path path) n o now₁ now₂ v)
unfolding truncate_free
truncate_free-Leaves path n now₁ now₂ v none = inl (refl, refl)
truncate_free-Leaves path n now₁ now₂ v (some s) =
    Leaves-to (segments path) (if ltb n (length s) then take n s else s) (take n s) v.root v.root
      (truncate_free (normalize_path path) n (some s) now₁ now₂ v) (take_all n s) refl
      (write_touched path (if ltb n (length s) then take n s else s) false now₁ now₂ v)

truncate_body-Leaves :
    (path : Bytes) (n now₁ now₂ : ℕ) (w v : Vfs)
    → v.root ≡ w.root
    → Leaves
        (segments path)
        (take n (or_empty (read path w)))
        w.root
        (truncate_free (normalize_path path) n (read (normalize_path path) v) now₁ now₂ v)
truncate_body-Leaves path n now₁ now₂ w v e =
    Leaves-to (segments path) (take n (or_empty (read (normalize_path path) v)))
      (take n (or_empty (read path w))) v.root w.root
      (truncate_free (normalize_path path) n (read (normalize_path path) v) now₁ now₂ v)
      (ap (λ (o : Option Bytes). take n (or_empty o)) (read-kept path v w e)) e
      (truncate_free-Leaves path n now₁ now₂ v (read (normalize_path path) v))

-- `Append` fails and leaves the tree as it was, or it succeeds: then the file holds what it held, or
-- nothing if there was no file, followed by the text, and every other file is as before.
pub append-Written :
    (path text : Bytes) (x : Stray) (now now₁ now₂ : ℕ) (s : Disk)
    → LeavesDisk
        (segments path)
        (or_empty (read path s.vfs) ++ text)
        s.vfs.root
        (append path text x now now₁ now₂ s)
unfolding append
append-Written path text x now now₁ now₂ s =
    guarded-LeavesDisk (segments path) (or_empty (read path s.vfs) ++ text) (normalize_path path)
      s.vfs.root now (append_free (normalize_path path) text now₁ now₂)
      (quota_reserve (normalize_path path) (pos (length text)) x s).0
      (quota_reserve (normalize_path path) (pos (length text)) x s).1
      (quota_reserve-root (normalize_path path) (pos (length text)) x s)
      (append_free-Leaves path text now₁ now₂ s.vfs)

-- `Truncate` fails and leaves the tree as it was, or it succeeds: then the file at the path holds its
-- first `new_size` bytes, and every other file is as before.
pub truncate-Written :
    (path : Bytes) (new_size : ℕ) (x : Stray) (now now₁ now₂ : ℕ) (s : Disk)
    → LeavesDisk
        (segments path)
        (take new_size (or_empty (read path s.vfs)))
        s.vfs.root
        (truncate path new_size x now now₁ now₂ s)
unfolding truncate
truncate-Written path new_size x now now₁ now₂ s =
    guarded-LeavesDisk (segments path) (take new_size (or_empty (read path s.vfs)))
      (normalize_path path) s.vfs.root now
      (λ (v : Vfs).
        truncate_free (normalize_path path) new_size (read (normalize_path path) v) now₁ now₂ v)
      (quota_reserve (normalize_path path)
        (sub_ℕ new_size (size_of (read (normalize_path path) s.vfs))) x s).0
      (quota_reserve (normalize_path path)
        (sub_ℕ new_size (size_of (read (normalize_path path) s.vfs))) x s).1
      (quota_reserve-root (normalize_path path)
        (sub_ℕ new_size (size_of (read (normalize_path path) s.vfs))) x s)
      (truncate_body-Leaves path new_size now₁ now₂ s.vfs)
