-- ===== src/Vfs/Files/Write.antt =====
-- `Write`: what is read after it, and the state after a failure.
use neon_world_os.Base.{
  ◌+◌, ◌-◌, ◌%◌, ◌≤◌, ◌<◌, Bool, true, false, [], ◌∷◌, ◌++◌, Option, none, some, ◌≡◌, ◌≢◌, refl, ap,
  ◌∙◌, inl, inr, ◌⊎◌, arith, Bytes, if◌then◌else◌, is_empty, length, Option-cases, Bool-cases, All,
}
use neon_world_os.Vfs.Path.{segments, render}
use neon_world_os.Vfs.Path.Normal.{IsName, segments-IsName, render-normalize_path}
use neon_world_os.Vfs.Path.Parent.{snoc-cases, name_of-render, segments-dir_of, snoc-IsName}
use neon_world_os.Vfs.Tree.{Node, is_dir, Loc, get, calc_used}
use neon_world_os.Vfs.Tree.View.{file_at}
use neon_world_os.Vfs.Tree.Used.{file-le-used}
use neon_world_os.Vfs.Walk.Laws.{ensure_dir_lem, ensure, ensured, pointer_to}
use neon_world_os.Vfs.Walk.Ensure.{file_at-ensure, get-ensure_below, used-ensure, ensure-cases}
use neon_world_os.Vfs.Files.Writes.{
  traverse-normalize_path, read-file_at, Writes, fill-Writes, made, made-Writes,
}
use neon_world_os.Vfs.Files.Placed.{placed, fill-placed, made-placed}
use neon_world_os.Vfs.State.{Vfs, with_root, word_mod}
use neon_world_os.Vfs.Files.{
  dir_of, used_bytes, is_dir_at, over_quota, fill, create, create_in, write_in, write, size_of,
}

-- A tree in which a file was written: the whole tree, and what follows for the files and the bytes in use.
pub record Stored (ks : Loc) (text : Bytes) (n n' : Node) : Type 0 where
  pub tree : n' ≡ placed ks text n
  pub here : file_at ks n' ≡ some text
  pub elsewhere : (qs : Loc) → qs ≢ ks → file_at qs n' ≡ file_at qs n
  pub used : calc_used n' + size_of (file_at ks n) ≡ calc_used n + length text

stored :
    (ks : Loc) (text : Bytes) (n n' : Node)
    → n' ≡ placed ks text n
    → Writes ks text n n'
    → Stored ks text n n'
stored ks text n n' e w = record { tree = e; here = w.here; elsewhere = w.elsewhere; used = w.used }

-- `Write` fails and changes nothing, or it succeeds and writes the file.
abbrev pub Outcome : Loc → Bytes → Vfs → Vfs × Bool → Type 0
Outcome ks text v r =
    (r ≡ (v, false)) ⊎ ((n : Node) × (r ≡ (with_root v n, true)) × Stored ks text v.root n)

Writes-from :
    (ks : Loc) (b : Bytes) (text : Bytes) (n r n' : Node)
    → ensure ks n ≡ some r
    → Writes (ks ++ b ∷ []) text r n'
    → Writes (ks ++ b ∷ []) text n n'
Writes-from ks b text n r n' e w =
    let same = λ (qs : Loc). file_at-ensure ks qs n r e in
    record {
      here = w.here;
      elsewhere = λ qs h. w.elsewhere qs h ∙ same qs;
      used = omega (arith, w.used, used-ensure ks n r e, ap size_of (same (ks ++ b ∷ [])));
    }

pub is_dir_at-eq : (ks : Loc) (n d : Node) → get ks n ≡ some d → is_dir_at ks n ≡ is_dir d
unfolding is_dir_at
is_dir_at-eq ks n d g = rw (g, is_dir_at)

pub is_empty-name : (b : Bytes) → b ≢ [] → is_empty b ≡ false
is_empty-name [] h = absurd (h refl)
is_empty-name (c ∷ b) h = refl

pub is_dir_at-eq-true :
    (ks : Loc) (n : Node)
    → is_dir_at ks n ≡ true
    → (d : Node) × (get ks n ≡ some d) × (is_dir d ≡ true)
unfolding is_dir_at
is_dir_at-eq-true ks n h = elim (Option-cases (get ks n)) [
  | inl e ↦ absurd (ground (arith, e))
  | inr (d, e) ↦ (d, e, ground (arith, e))
]

-- Without a directory at its end the walk was of no step and made nothing.
pub ensure-no_dir : (ks : Loc) (n r : Node) → ensure ks n ≡ some r → is_dir_at ks r ≡ false → r ≡ n
ensure-no_dir ks n r e h = elim (ensure-cases ks n r e) [
  | inl (d, g, dir) ↦ absurd (ground (arith, is_dir_at-eq ks r d g))
  | inr same ↦ same
]

create_in-Outcome :
    (ks : Loc) (b text : Bytes) (v : Vfs)
    → b ≢ []
    → get (ks ++ b ∷ []) v.root ≡ none
    → Outcome (ks ++ b ∷ []) text v (create_in (ensured ks v.root) b text v)
unfolding create_in
create_in-Outcome ks b text v ne free = go (ensure ks v.root) refl
  where
    go :
        (o : Option Node)
        → ensure ks v.root ≡ o
        → Outcome
            (ks ++ b ∷ [])
            text
            v
            (create_in (elim o [ none ↦ (v.root, none) | some r ↦ (r, some ks) ]) b text v)
    go none e = inl refl
    go (some r) e = elim (Bool-cases (is_dir_at ks r)) [
      | inl dir ↦
          let (d, g, _) = is_dir_at-eq-true ks r dir in
          rw (dir, is_empty-name b ne)
            (inr (
              fill (ks ++ b ∷ []) text (made ks b r),
              refl,
              stored (ks ++ b ∷ []) text v.root _
                  (made-placed ks b text v.root r e (get-ensure_below ks b v.root r e free))
                  (Writes-from ks b text v.root r _ e
                    (made-Writes ks b r d g (get-ensure_below ks b v.root r e free) text)),
            ))
      | inr no_dir ↦
          rw no_dir (inl (ap (λ n. (with_root v n, false)) (ensure-no_dir ks v.root r e no_dir)))
    ]

create-Outcome :
    (ks : Loc) (b text : Bytes) (v : Vfs)
    → All IsName (ks ++ b ∷ [])
    → get (ks ++ b ∷ []) v.root ≡ none
    → Outcome (ks ++ b ∷ []) text v (create (render (ks ++ b ∷ [])) text v)
unfolding create
create-Outcome ks b text v hs free =
    rw
      (
        name_of-render ks b hs,
        ensure_dir_lem (dir_of (render (ks ++ b ∷ []))) v.root,
        segments-dir_of ks b hs,
      )
      (create_in-Outcome ks b text v (snoc-IsName ks b hs).nonempty free)

get-nil : (ks : Loc) (n : Node) → ks ≡ [] → get ks n ≡ none → ⊥
unfolding get
get-nil [] n h e = cc
get-nil (k ∷ ks) n h e = cc

write_in-Outcome :
    (ks : Loc) (text : Bytes) (v : Vfs)
    → All IsName ks
    → Outcome ks text v (write_in (pointer_to [] ks v.root) (render ks) text v)
unfolding write_in
write_in-Outcome ks text v hs = go (get ks v.root) refl
  where
    go :
        (o : Option Node)
        → get ks v.root ≡ o
        → Outcome ks text v (write_in (pointer_to [] ks v.root) (render ks) text v)
    go (some n) e = rw e (elim (Bool-cases (is_dir n)) [
      | inl dir ↦ rw dir (inl refl)
      | inr file ↦ rw file (
          inr (
            fill ks text v.root,
            refl,
            stored ks text v.root _ (fill-placed ks text v.root n e)
                (fill-Writes ks text v.root n e file),
          ))
    ])
    go none e = rw e (elim (snoc-cases ks) [
      | inl nil ↦ absurd (get-nil ks v.root nil e)
      | inr (init, b, p) ↦ rw p (create-Outcome init b text v (rw (← p) hs) (rw (← p) e))
    ])

Outcome-if :
    (ks : Loc) (text : Bytes) (v : Vfs) (b : Bool) {r s : Vfs × Bool}
    → Outcome ks text v r
    → Outcome ks text v s
    → Outcome ks text v (if b then r else s)
Outcome-if ks text v true hr hs = hr
Outcome-if ks text v false hr hs = hs

-- `Write` either fails and leaves the whole state as it was, or it succeeds and changes the tree alone: the
-- new tree is the one that a recursion over the names of the path gives, which makes each directory that is
-- missing, and the file if it is missing, with its name, sets the content of the file, and keeps all else,
-- the names and kinds of nodes included. So the file at the path holds the text, every other file is as
-- before, and the bytes in use are those of before less the old content of the file and plus the new.
pub write-Outcome :
    (path text : Bytes) (v : Vfs) → Outcome (segments path) text v (write path text v)
unfolding write
write-Outcome path text v = Outcome-if (segments path) text v (over_quota path text v) (inl refl) (
    Outcome-if (segments path) text v v.sealed (inl refl) (
      rw (traverse-normalize_path path v.root, render-normalize_path path)
        (write_in-Outcome (segments path) text v (segments-IsName path))))

-- The guard on the quota, once it has let a write pass.
fits_quota :
    (path text : Bytes) (v : Vfs)
    → 0 < v.quota_bytes
    → over_quota path text v ≡ false
    → ((used_bytes v + word_mod - size_of (file_at (segments path) v.root)) + length text)
        % word_mod
      ≤ v.quota_bytes
unfolding over_quota
fits_quota path text v set h = rw (← read-file_at path v) (ground arith)

not-over_quota :
    (path text : Bytes) (v : Vfs) → (write path text v).1 ≡ true → over_quota path text v ≡ false
unfolding write
not-over_quota path text v done = elim (Bool-cases (over_quota path text v)) [
  | inl over ↦ absurd (ground arith)
  | inr fits ↦ fits
]

size-le-used : (ks : Loc) (n : Node) (o : Option Bytes) → file_at ks n ≡ o → size_of o ≤ calc_used n
size-le-used ks n none e = omega arith
size-le-used ks n (some t) e = file-le-used ks n t e

-- A successful `Write` keeps the bytes in use within the global quota, if one is set and the sum in
-- `size_t` does not overflow.
pub write-quota :
    (path text : Bytes) (v : Vfs)
    → 0 < v.quota_bytes
    → used_bytes v + length text < word_mod
    → (write path text v).1 ≡ true
    → used_bytes (write path text v).0 ≤ v.quota_bytes
unfolding used_bytes
write-quota path text v set small done = elim (write-Outcome path text v) [
  | inl failed ↦ absurd (cc)
  | inr (n, e, w) ↦ rw e (
      omega (
        arith,
        w.used,
        fits_quota path text v set (not-over_quota path text v done),
        size-le-used (segments path) v.root _ refl,
      ))
]
