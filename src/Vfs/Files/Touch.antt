-- ===== src/Vfs/Files/Touch.antt =====
-- `Touch`: the file that it makes, and that nothing else changes.
use neon_world_os.Base.{
  Bool, true, false, ◌||◌, [], ◌∷◌, ◌++◌, Option, none, some, ◌≡◌, ◌≢◌, refl, sym, ◌∙◌, subst, inl,
  inr, ◌⊎◌, arith, Bytes, if◌then◌else◌, is_empty, str_eq, Option-cases, Bool-cases, All,
}
use neon_world_os.Vfs.Path.{slash, segments, render, render_from}
use neon_world_os.Vfs.Path.Normal.{IsName, segments-IsName, render-normalize_path}
use neon_world_os.Vfs.Path.Parent.{snoc-cases, name_of-render, segments-dir_of}
use neon_world_os.Vfs.Tree.{Node, Loc, get}
use neon_world_os.Vfs.Tree.View.{file_at, file_at-new_file_ne}
use neon_world_os.Vfs.Walk.{ensure_dir}
use neon_world_os.Vfs.Walk.Laws.{ensure, ensured, ensure_dir_lem}
use neon_world_os.Vfs.Walk.Ensure.{file_at-ensure}
use neon_world_os.Vfs.State.{Vfs}
use neon_world_os.Vfs.Files.{touch, touch_in, is_dir_at, count_at, dir_of, name_of}
use neon_world_os.Vfs.Files.Write.{is_dir_at-eq-true}
use neon_world_os.Vfs.Files.Writes.{file_at_free, file_at-made}

-- No file is changed, or there was none at the place and now there is an empty one.
abbrev pub Touched : Loc → Node → Node → Type 0
Touched ks n n' =
    ((qs : Loc) → file_at qs n' ≡ file_at qs n)
    ⊎ ((file_at ks n ≡ none)
        × ((file_at ks n' ≡ some []) × ((qs : Loc) → qs ≢ ks → file_at qs n' ≡ file_at qs n)))

-- `Touch` fails and changes no file, or it succeeds.
abbrev pub Outcome : Loc → Node → Vfs × Bool → Type 0
Outcome ks n r =
    ((r.1 ≡ false) × ((qs : Loc) → file_at qs r.0.root ≡ file_at qs n))
    ⊎ ((r.1 ≡ true) × Touched ks n r.0.root)

Outcome-if :
    (ks : Loc) (n : Node) (b : Bool) (r q : Vfs × Bool)
    → Outcome ks n r
    → Outcome ks n q
    → Outcome ks n (if b then r else q)
Outcome-if ks n true r q hr hq = hr
Outcome-if ks n false r q hr hq = hq

pub count_at-false :
    (ks : Loc) (b : Bytes) (n : Node) → count_at ks b n ≡ false → get (ks ++ b ∷ []) n ≡ none
unfolding count_at
count_at-false ks b n h = elim (Option-cases (get (ks ++ b ∷ []) n)) [
  | inl e ↦ e
  | inr (c, e) ↦ absurd (ground (arith, h, e))
]

touch_in-Outcome :
    (ks : Loc) (b : Bytes) (v : Vfs)
    → Outcome (ks ++ b ∷ []) v.root (touch_in (ensured ks v.root) b v)
unfolding touch_in
touch_in-Outcome ks b v = go (ensure ks v.root) refl
  where
    pair : Option Node → Node × Option Loc
    pair o = elim o [ none ↦ (v.root, none) | some r ↦ (r, some ks) ]

    go :
        (o : Option Node)
        → ensure ks v.root ≡ o
        → Outcome (ks ++ b ∷ []) v.root (touch_in (pair o) b v)
    go none e = inl (refl, λ qs. refl)
    go (some r) e = elim (Bool-cases (is_dir_at ks r)) [
      | inr file ↦ rw file (inl (refl, λ qs. file_at-ensure ks qs v.root r e))
      | inl dir ↦ rw dir (elim (Bool-cases (count_at ks b r)) [
        | inl there ↦ rw there (inr (refl, inl (λ qs. file_at-ensure ks qs v.root r e)))
        | inr free ↦ rw free (
            let (d, g, _) = is_dir_at-eq-true ks r dir in
            let at = count_at-false ks b r free in
            inr (
              refl,
              inr (
                sym (file_at-ensure ks (ks ++ b ∷ []) v.root r e) ∙ file_at_free ks b r d g at,
                (
                  file_at-made ks b r d g at,
                  λ qs h. file_at-new_file_ne ks qs b r h at ∙ file_at-ensure ks qs v.root r e,
                ),
              ),
            ))
      ])
    ]

pub at_root : (a b : Bool) (x y : Vfs × Bool) → b ≡ true → (if a || b then x else y) ≡ x
at_root true b x y h = refl
at_root false b x y h = rw h refl

pub is_root : (ks : Loc) → ks ≡ [] → str_eq (render ks) (slash ∷ []) ≡ true
is_root [] e = unfold render render_from str_eq in refl
is_root (k ∷ ks) e = absurd (cc)

touch_to-Outcome :
    (ks : Loc) (v : Vfs)
    → All IsName ks
    → Outcome ks v.root (
        if is_empty (render ks) || str_eq (render ks) (slash ∷ [])
        then (v, false)
        else if is_empty (name_of (render ks))
        then (v, false)
        else touch_in (ensure_dir (dir_of (render ks)) v.root) (name_of (render ks)) v)
touch_to-Outcome ks v hs = elim (snoc-cases ks) [
  | inl e ↦
      subst (Outcome ks v.root)
        (sym (
          at_root (is_empty (render ks)) (str_eq (render ks) (slash ∷ [])) (v, false) _
            (is_root ks e)))
        (inl (refl, λ qs. refl))
  | inr (init, b, p) ↦
      Outcome-if ks v.root (is_empty (render ks) || str_eq (render ks) (slash ∷ [])) (v, false) _
        (inl (refl, λ qs. refl))
        (Outcome-if ks v.root (is_empty (name_of (render ks))) (v, false) _ (inl (refl, λ qs. refl))
          (rw p (
            rw
              (
                name_of-render init b (rw (← p) hs),
                ensure_dir_lem (dir_of (render (init ++ b ∷ []))) v.root,
                segments-dir_of init b (rw (← p) hs),
              )
              (touch_in-Outcome init b v))))
]

-- `Touch` fails and changes no file, or it succeeds: then no file is changed, or there was none at the path
-- and now there is an empty one, and every other file is as before.
pub touch-Outcome : (path : Bytes) (v : Vfs) → Outcome (segments path) v.root (touch path v)
unfolding touch
touch-Outcome path v =
    Outcome-if (segments path) v.root v.sealed (v, false) _ (inl (refl, λ qs. refl))
      (rw (render-normalize_path path) (touch_to-Outcome (segments path) v (segments-IsName path)))
