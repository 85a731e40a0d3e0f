-- ===== src/Vfs/Links/Move.antt =====
-- `Move`: what is at the old place and at the new one after it, and that all else is as before.
use neon_world_os.Base.{
  Bool, true, false, ◌||◌, [], ◌∷◌, ◌++◌, Option, none, some, ◌≡◌, ◌≢◌, refl, sym, ap, ◌∙◌, subst,
  inl, inr, ◌⊎◌, Bytes, if◌then◌else◌, str_eq, Option-cases, Bool-cases, All, append_assoc,
}
use neon_world_os.Vfs.Path.{slash, segments, render}
use neon_world_os.Vfs.Path.Normal.{IsName, segments-IsName, render-normalize_path}
use neon_world_os.Vfs.Path.Parent.{snoc-cases}
use neon_world_os.Vfs.Tree.{Node, is_dir, children, lookup, set_child, Loc, get, update}
use neon_world_os.Vfs.Tree.View.{file_at, file_at-get, get-append, get_one}
use neon_world_os.Vfs.Walk.{traverse}
use neon_world_os.Vfs.Walk.Laws.{ensure, ensured, ensure_dir_lem, pointer_to, traverse_lem}
use neon_world_os.Vfs.Walk.Ensure.{file_at-ensure}
use neon_world_os.Vfs.State.{Vfs, with_root}
use neon_world_os.Vfs.Files.{is_dir_at, count_at}
use neon_world_os.Vfs.Files.Touch.{at_root, is_root, count_at-false}
use neon_world_os.Vfs.Files.Write.{is_dir_at-eq-true}
use neon_world_os.Vfs.Links.{erase_child, move_in, move_from, move, parent_of, base_of}
use neon_world_os.Vfs.Links.Remove.{parent_at, base_at, Removes, erased-Removes}
use neon_world_os.Vfs.Links.Copy.{
  file_at-same, get-linked, file_at-linked, get-ensure_kept, file_at-below, pointer-cases,
}

-- The files after a move from `sf` to `dt`: none is at the old place or below it; those at the new place and
-- below it are those of the old one, if the new place is not below the old; and all others are as before.
pub record Moves (sf dt : Loc) (n n' : Node) : Type 0 where
  pub gone : (ls : Loc) → file_at (sf ++ ls) n' ≡ none
  pub here :
      ((ls : Loc) → dt ≢ sf ++ ls) → (ls : Loc) → file_at (dt ++ ls) n' ≡ file_at (sf ++ ls) n
  pub elsewhere :
      (qs : Loc)
      → ((ls : Loc) → qs ≢ sf ++ ls)
      → ((ls : Loc) → qs ≢ dt ++ ls)
      → file_at qs n' ≡ file_at qs n

-- `Move` fails, and no file is changed, or it succeeds and moves.
abbrev pub Outcome : Loc → Loc → Node → Vfs × Bool → Type 0
Outcome sf dt n r =
    ((r.1 ≡ false) × ((qs : Loc) → file_at qs r.0.root ≡ file_at qs n))
    ⊎ ((r.1 ≡ true) × Moves sf dt n r.0.root)

Outcome-if :
    (sf dt : Loc) (n : Node) (b : Bool) (r q : Vfs × Bool)
    → Outcome sf dt n r
    → Outcome sf dt n q
    → Outcome sf dt n (if b then r else q)
Outcome-if sf dt n true r q hr hq = hr
Outcome-if sf dt n false r q hr hq = hq

-- Two places with a place below both: one is below the other.
prefix-cases :
    (xs ys us vs : Loc)
    → xs ++ us ≡ ys ++ vs
    → ((w : Loc) × (xs ≡ ys ++ w)) ⊎ ((w : Loc) × (ys ≡ xs ++ w))
prefix-cases [] ys us vs e = inr (ys, refl)
prefix-cases (x ∷ xs) [] us vs e = inl (x ∷ xs, refl)
prefix-cases (x ∷ xs) (y ∷ ys) us vs e = elim (prefix-cases xs ys us vs (cc)) [
  | inl (w, p) ↦ inl (w, (cc))
  | inr (w, p) ↦ inr (w, (cc))
]

no_file : (ks : Loc) (n : Node) → get ks n ≡ none → file_at ks n ≡ none
no_file ks n e = rw (file_at-get ks n, e) refl

moved-Moves :
    (s : Loc) (a : Bytes) (ks : Loc) (b : Bytes) (n r c d : Node)
    → ensure ks n ≡ some r
    → get ks r ≡ some d
    → get (s ++ a ∷ []) r ≡ some c
    → get (ks ++ b ∷ []) r ≡ none
    → Moves (s ++ a ∷ []) (ks ++ b ∷ []) n (update s (erase_child a) (update ks (set_child b c) r))
moved-Moves s a ks b n r c d e g gc free = record {
  gone = λ ls. no_file ((s ++ a ∷ []) ++ ls) _ (w.gone ls);
  here = λ out ls. w.elsewhere ((ks ++ b ∷ []) ++ ls) (λ vs p. apart out ls vs p) ∙ copied ls;
  elsewhere =
      λ qs h h'. w.elsewhere qs h ∙ file_at-linked ks b qs c r h' ∙ file_at-ensure ks qs n r e;
}
  where
    w :
        Removes
          (s ++ a ∷ [])
          (update ks (set_child b c) r)
          (update s (erase_child a) (update ks (set_child b c) r))
    w = erased-Removes s a (update ks (set_child b c) r)

    copied :
        (ls : Loc)
        → file_at ((ks ++ b ∷ []) ++ ls) (update ks (set_child b c) r)
          ≡ file_at ((s ++ a ∷ []) ++ ls) n
    copied ls =
        ap (λ (qs : Loc). file_at qs (update ks (set_child b c) r)) (append_assoc ks (b ∷ []) ls)
        ∙ file_at-same (ks ++ b ∷ ls) ls (update ks (set_child b c) r) c
            (get-linked ks b ls c r d g)
        ∙ sym (file_at-below (s ++ a ∷ []) ls r c gc)
        ∙ file_at-ensure ks ((s ++ a ∷ []) ++ ls) n r e

    below_free : (x : Loc) → s ++ a ∷ [] ≡ (ks ++ b ∷ []) ++ x → ⊥
    below_free x p = cc (get-append (ks ++ b ∷ []) x r, free, gc, ap (λ (qs : Loc). get qs r) p)

    apart :
        ((ls : Loc) → ks ++ b ∷ [] ≢ (s ++ a ∷ []) ++ ls)
        → (ls vs : Loc) → (ks ++ b ∷ []) ++ ls ≢ (s ++ a ∷ []) ++ vs
    apart out ls vs p = elim (prefix-cases (ks ++ b ∷ []) (s ++ a ∷ []) ls vs p) [
      | inl (x, q) ↦ out x q
      | inr (x, q) ↦ below_free x q
    ]

move_in-Outcome :
    (s : Loc) (a : Bytes) (ks : Loc) (b : Bytes) (v : Vfs) (c : Node)
    → get (s ++ a ∷ []) v.root ≡ some c
    → Outcome (s ++ a ∷ []) (ks ++ b ∷ []) v.root (move_in s a (ensured ks v.root) b v)
unfolding move_in
move_in-Outcome s a ks b v c gc = go (ensure ks v.root) refl
  where
    made : Option Node → Node × Option Loc
    made o = elim o [ none ↦ (v.root, none) | some r ↦ (r, some ks) ]

    linked : (r : Node) (o : Option Node) → Vfs × Bool
    linked r o = elim o [
      | none ↦ (with_root v r, true)
      | some n ↦ (with_root v (update s (erase_child a) (update ks (set_child b n) r)), true)
    ]

    go :
        (o : Option Node)
        → ensure ks v.root ≡ o
        → Outcome (s ++ a ∷ []) (ks ++ b ∷ []) v.root (move_in s a (made o) b v)
    go none e = inl (refl, λ qs. refl)
    go (some r) e = elim (Bool-cases (is_dir_at ks r)) [
      | inr file ↦ rw file (inl (refl, λ qs. file_at-ensure ks qs v.root r e))
      | inl dir ↦ rw dir (elim (Bool-cases (count_at ks b r)) [
        | inl there ↦ rw there (inl (refl, λ qs. file_at-ensure ks qs v.root r e))
        | inr free ↦ rw free (
            let (d, g, _) = is_dir_at-eq-true ks r dir in
            let (c', g') = get-ensure_kept ks (s ++ a ∷ []) v.root r c e gc in
            subst (λ (o : Option Node). Outcome (s ++ a ∷ []) (ks ++ b ∷ []) v.root (linked r o))
              (sym g')
              (inr (refl, moved-Moves s a ks b v.root r c' d e g g' (count_at-false ks b r free))))
      ])
    ]

move_from-Outcome :
    (s : Loc) (a : Bytes) (ks : Loc) (b : Bytes) (v : Vfs)
    → All IsName (ks ++ b ∷ [])
    → Outcome
        (s ++ a ∷ [])
        (ks ++ b ∷ [])
        v.root
        (move_from (pointer_to [] s v.root) a (render (ks ++ b ∷ [])) v)
unfolding move_from
move_from-Outcome s a ks b v hs = elim (pointer-cases s v.root) [
  | inl (e, p) ↦ rw p (inl (refl, λ qs. refl))
  | inr (c, e, p) ↦ rw p (elim (Bool-cases (is_dir c)) [
    | inr file ↦ rw file (inl (refl, λ qs. refl))
    | inl dir ↦ rw dir (elim (Option-cases (lookup a (children c))) [
      | inl m ↦ rw m (inl (refl, λ qs. refl))
      | inr (x, m) ↦
          rw
            (
              m,
              base_at ks b hs,
              ensure_dir_lem (parent_of (render (ks ++ b ∷ []))) v.root,
              parent_at ks b hs,
            )
            (move_in-Outcome s a ks b v x (get-append s (a ∷ []) v.root ∙ (rw e (get_one a c ∙ m))))
    ])
  ])
]

move_to-Outcome :
    (sf dt : Loc) (v : Vfs)
    → All IsName sf
    → All IsName dt
    → Outcome sf dt v.root (
        if str_eq (render sf) (slash ∷ []) || str_eq (render dt) (slash ∷ [])
        then (v, false)
        else move_from
            (traverse (parent_of (render sf)) v.root)
            (base_of (render sf))
            (render dt)
            v)
move_to-Outcome sf dt v hs hd = elim (snoc-cases sf) [
  | inl e ↦
      subst (Outcome sf dt v.root)
        (sym (
          or_left (str_eq (render sf) (slash ∷ [])) (str_eq (render dt) (slash ∷ [])) (v, false)
            rest (is_root sf e)))
        (inl (refl, λ qs. refl))
  | inr (s, a, p) ↦ elim (snoc-cases dt) [
    | inl e ↦
        subst (Outcome sf dt v.root)
          (sym (
            at_root (str_eq (render sf) (slash ∷ [])) (str_eq (render dt) (slash ∷ [])) (v, false)
              rest (is_root dt e)))
          (inl (refl, λ qs. refl))
    | inr (ks, b, q) ↦
        Outcome-if sf dt v.root (str_eq (render sf) (slash ∷ []) || str_eq (render dt) (slash ∷ []))
          (v, false) rest (inl (refl, λ qs. refl)) (found s a ks b p q)
  ]
]
  where
    rest : Vfs × Bool
    rest = move_from (traverse (parent_of (render sf)) v.root) (base_of (render sf)) (render dt) v

    or_left : (x y : Bool) (r r' : Vfs × Bool) → x ≡ true → (if x || y then r else r') ≡ r
    or_left true y r r' h = refl
    or_left false y r r' h = absurd (cc)

    found :
        (s : Loc) (a : Bytes) (ks : Loc) (b : Bytes)
        → sf ≡ s ++ a ∷ []
        → dt ≡ ks ++ b ∷ []
        → Outcome sf dt v.root rest
    found s a ks b p q =
        rw (p, q)
          (rw
            (
              base_at s a (rw (← p) hs),
              traverse_lem (parent_of (render (s ++ a ∷ []))) v.root,
              parent_at s a (rw (← p) hs),
            )
            (move_from-Outcome s a ks b v (rw (← q) hd)))

-- `Move` fails and changes no file, or it succeeds: then no file is left at the old place or below it; each
-- file that was there is at the new place, at the same path below it, and nothing else is, if the new place
-- is not below the old; and every other file is as before.
pub move-Outcome :
    (from to : Bytes) (v : Vfs) → Outcome (segments from) (segments to) v.root (move from to v)
unfolding move
move-Outcome from to v =
    Outcome-if (segments from) (segments to) v.root v.sealed (v, false) _ (inl (refl, λ qs. refl))
      (rw (render-normalize_path from, render-normalize_path to)
        (move_to-Outcome (segments from) (segments to) v (segments-IsName from)
          (segments-IsName to)))
