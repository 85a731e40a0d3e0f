-- ===== src/Vfs/Links/Copy.antt =====
-- `Copy`: what is at the new place after it, and that all else is as before.
use neon_world_os.Base.{
  Bool, true, false, not, ◌&&◌, ◌||◌, [], ◌∷◌, ◌++◌, Option, none, some, ◌≡◌, ◌≢◌, refl, sym, ap,
  ◌∙◌, subst, inl, inr, ◌⊎◌, arith, Bytes, if◌then◌else◌, str_eq, str_eq_self, str_eq_iff,
  Option-cases, Bool-cases, All, append_assoc,
}
use mathlib.Core.Option
use neon_world_os.Vfs.Path.{slash, segments, render}
use neon_world_os.Vfs.Path.Normal.{IsName, segments-IsName, render-normalize_path}
use neon_world_os.Vfs.Path.Parent.{snoc-cases}
use neon_world_os.Vfs.Tree.{
  Node, Children, node, nil, entry, is_dir, children, lookup, set_child, Loc, get, update,
}
use neon_world_os.Vfs.Tree.View.{
  file_at, file_at-get, file_at-update, file_at-set_child, file_at-set_child_nil, get-append,
  get-update, lookup-set_child,
}
use neon_world_os.Vfs.Tree.Used.{get_below}
use neon_world_os.Vfs.Walk.{child_or_new}
use neon_world_os.Vfs.Walk.Laws.{ensure, ensured, ensure_dir_lem, pointer_to}
use neon_world_os.Vfs.Walk.Ensure.{ensure_step, file_at-ensure, child_or_new_old}
use neon_world_os.Vfs.State.{Vfs, with_root}
use neon_world_os.Vfs.Files.{is_dir_at, count_at}
use neon_world_os.Vfs.Files.Touch.{at_root, is_root}
use neon_world_os.Vfs.Files.Write.{is_dir_at-eq-true}
use neon_world_os.Vfs.Files.Writes.{traverse-normalize_path}
use neon_world_os.Vfs.Links.{clone_node, clone_children, copy_in, copy_from, copy, parent_of}
use neon_world_os.Vfs.Links.Remove.{parent_at, base_at}

-- Two places with the same node have the same file.
pub file_at-same : (ks ls : Loc) (n x : Node) → get ks n ≡ get ls x → file_at ks n ≡ file_at ls x
file_at-same ks ls n x e = rw (file_at-get ks n, file_at-get ls x, e) refl

pub get-linked :
    (ks : Loc) (b : Bytes) (ls : Loc) (x n d : Node)
    → get ks n ≡ some d
    → get (ks ++ b ∷ ls) (update ks (set_child b x) n) ≡ get ls x
get-linked ks b ls x n d g =
    get-append ks (b ∷ ls) (update ks (set_child b x) n)
    ∙ rw (get-update ks (set_child b x) n, g) below
  where
    below : get (b ∷ ls) (set_child b x d) ≡ get ls x
    below = unfold get in rw (lookup-set_child b b x d, get) (rw (str_eq_self b) refl)

pub file_at-linked :
    (ks : Loc) (b : Bytes) (qs : Loc) (x n : Node)
    → ((ls : Loc) → qs ≢ (ks ++ b ∷ []) ++ ls)
    → file_at qs (update ks (set_child b x) n) ≡ file_at qs n
file_at-linked ks b qs x n h = file_at-update ks (set_child b x) qs n (λ ls m p g. go ls m p)
  where
    go : (ls : Loc) (m : Node) → qs ≡ ks ++ ls → file_at ls (set_child b x m) ≡ file_at ls m
    go [] m p = file_at-set_child_nil b x m
    go (l ∷ ls) m p = file_at-set_child b l ls x m (λ e.
        absurd
          (h ls (p ∙ ap (λ (k : Bytes). ks ++ k ∷ ls) (sym e) ∙ sym (append_assoc ks (b ∷ []) ls))))

-- `EnsureDir` keeps every node.
pub get-ensure_kept :
    (ks qs : Loc) (n r d : Node)
    → ensure ks n ≡ some r
    → get qs n ≡ some d
    → (d' : Node) × (get qs r ≡ some d')
unfolding get
get-ensure_kept ks [] n r d e g = (r, refl)
get-ensure_kept [] (q ∷ qs) n r d e g = (
  d,
  subst (λ (x : Node). get (q ∷ qs) x ≡ some d) {x = n} {y = r} (unfold ensure in ground arith) g,
)
get-ensure_kept (k ∷ ks) (q ∷ qs) n r d e g =
    let (c, cd, e', p) = ensure_step k ks n r e in
    elim (Option-cases (lookup q (children n))) [
      | inl m ↦ absurd (ground (arith, g, m))
      | inr (o, m) ↦ elim (Bool-cases (str_eq k q)) [
        | inl same ↦
            let old : child_or_new k n ≡ o =
              child_or_new_old k n o
                (ap (λ (x : Bytes). lookup x (children n)) ((str_eq_iff k q).0 same) ∙ m) in
            let (d', g') =
              get-ensure_kept ks qs (child_or_new k n) c d e'
                (ap (get qs) old ∙ get_below q qs n o d m g) in
            (d', rw (p, lookup-set_child k q c n, get) (rw same g'))
        | inr other ↦
            (d, rw (p, lookup-set_child k q c n, get) (rw (other, m) (get_below q qs n o d m g)))
      ]
    ]

lookup-clone :
    (k : Bytes) (cs : Children) → lookup k (clone_children cs) ≡ Option.map clone_node (lookup k cs)
unfolding lookup clone_children
lookup-clone k nil = refl
lookup-clone k (entry j n cs) = elim (Bool-cases (str_eq j k)) [
  | inl e ↦ rw e refl
  | inr e ↦ rw e (lookup-clone k cs)
]

pub file_at-clone : (ks : Loc) (n : Node) → file_at ks (clone_node n) ≡ file_at ks n
unfolding file_at clone_node
file_at-clone [] (node d m t cs) = refl
file_at-clone (k ∷ ks) (node d m t cs) = elim (Option-cases (lookup k cs)) [
  | inl e ↦ rw (lookup-clone k cs, e, file_at) refl
  | inr (c, e) ↦ rw (lookup-clone k cs, e, file_at) (file_at-clone ks c)
]

-- The files after a copy from `sf` to `dt`: those at the new place and below it are those of the old
-- place, and all others are as before.
pub record Copies (sf dt : Loc) (n n' : Node) : Type 0 where
  pub here : (ls : Loc) → file_at (dt ++ ls) n' ≡ file_at (sf ++ ls) n
  pub elsewhere : (qs : Loc) → ((ls : Loc) → qs ≢ dt ++ ls) → file_at qs n' ≡ file_at qs n

-- `Copy` fails, and no file is changed, or it succeeds and copies.
abbrev pub Outcome : Loc → Loc → Node → Vfs × Bool → Type 0
Outcome sf dt n r =
    ((r.1 ≡ false) × ((qs : Loc) → file_at qs r.0.root ≡ file_at qs n))
    ⊎ ((r.1 ≡ true) × Copies sf dt n r.0.root)

Outcome-if :
    (sf dt : Loc) (n : Node) (b : Bool) (r q : Vfs × Bool)
    → Outcome sf dt n r
    → Outcome sf dt n q
    → Outcome sf dt n (if b then r else q)
Outcome-if sf dt n true r q hr hq = hr
Outcome-if sf dt n false r q hr hq = hq

pub file_at-below :
    (ks ls : Loc) (n d : Node) → get ks n ≡ some d → file_at (ks ++ ls) n ≡ file_at ls d
file_at-below ks ls n d g = file_at-same (ks ++ ls) ls n d (get-append ks ls n ∙ (rw g refl))

copied-Copies :
    (sf ks : Loc) (b : Bytes) (n r c d : Node)
    → ensure ks n ≡ some r
    → get ks r ≡ some d
    → get sf r ≡ some c
    → Copies sf (ks ++ b ∷ []) n (update ks (set_child b (clone_node c)) r)
copied-Copies sf ks b n r c d e g gc = record {
  here = λ ls.
      ap (λ (qs : Loc). file_at qs (update ks (set_child b (clone_node c)) r))
        (append_assoc ks (b ∷ []) ls)
      ∙ file_at-same (ks ++ b ∷ ls) ls (update ks (set_child b (clone_node c)) r) (clone_node c)
          (get-linked ks b ls (clone_node c) r d g)
      ∙ file_at-clone ls c
      ∙ sym (file_at-below sf ls r c gc)
      ∙ file_at-ensure ks (sf ++ ls) n r e;
  elsewhere = λ qs h. file_at-linked ks b qs (clone_node c) r h ∙ file_at-ensure ks qs n r e;
}

copy_in-Outcome :
    (sf ks : Loc) (b : Bytes) (v : Vfs) (c : Node)
    → get sf v.root ≡ some c
    → Outcome sf (ks ++ b ∷ []) v.root (copy_in sf (ensured ks v.root) b v)
unfolding copy_in
copy_in-Outcome sf ks b v c gc = go (ensure ks v.root) refl
  where
    made : Option Node → Node × Option Loc
    made o = elim o [ none ↦ (v.root, none) | some r ↦ (r, some ks) ]

    linked : (r : Node) (o : Option Node) → Vfs × Bool
    linked r o = elim o [
      | none ↦ (with_root v r, true)
      | some n ↦ (with_root v (update ks (set_child b (clone_node n)) r), true)
    ]

    go :
        (o : Option Node)
        → ensure ks v.root ≡ o
        → Outcome sf (ks ++ b ∷ []) v.root (copy_in sf (made o) b v)
    go none e = inl (refl, λ qs. refl)
    go (some r) e = elim (Bool-cases (is_dir_at ks r)) [
      | inr file ↦ rw file (inl (refl, λ qs. file_at-ensure ks qs v.root r e))
      | inl dir ↦ rw dir (
          Outcome-if sf (ks ++ b ∷ []) v.root (count_at ks b r) (with_root v r, false)
            (linked r (get sf r)) (inl (refl, λ qs. file_at-ensure ks qs v.root r e))
            (let (d, g, _) = is_dir_at-eq-true ks r dir in
              let (c', g') = get-ensure_kept ks sf v.root r c e gc in
              subst (λ (o : Option Node). Outcome sf (ks ++ b ∷ []) v.root (linked r o)) (sym g')
                (inr (refl, copied-Copies sf ks b v.root r c' d e g g'))))
    ]

pub pointer-cases :
    (ks : Loc) (n : Node)
    → ((get ks n ≡ none) × (pointer_to [] ks n ≡ none))
      ⊎ ((c : Node) × (get ks n ≡ some c) × (pointer_to [] ks n ≡ some (ks, c)))
pointer-cases ks n = elim (Option-cases (get ks n)) [
  | inl e ↦ inl (e, (rw e refl))
  | inr (c, e) ↦ inr (c, e, (rw e refl))
]

copy_from-Outcome :
    (sf ks : Loc) (b : Bytes) (recursive : Bool) (v : Vfs)
    → All IsName (ks ++ b ∷ [])
    → Outcome sf
        (ks ++ b ∷ [])
        v.root
        (copy_from (pointer_to [] sf v.root) (render (ks ++ b ∷ [])) recursive v)
unfolding copy_from
copy_from-Outcome sf ks b recursive v hs = elim (pointer-cases sf v.root) [
  | inl (e, p) ↦ rw p (inl (refl, λ qs. refl))
  | inr (c, e, p) ↦ rw p (
      Outcome-if sf (ks ++ b ∷ []) v.root (is_dir c && not recursive) (v, false) _
        (inl (refl, λ qs. refl))
        (rw
          (
            base_at ks b hs,
            ensure_dir_lem (parent_of (render (ks ++ b ∷ []))) v.root,
            parent_at ks b hs,
          )
          (copy_in-Outcome sf ks b v c e)))
]

copy_to-Outcome :
    (sf dt : Loc) (recursive : Bool) (v : Vfs)
    → All IsName dt
    → Outcome sf dt v.root (
        if str_eq (render sf) (slash ∷ []) || str_eq (render dt) (slash ∷ [])
        then (v, false)
        else copy_from (pointer_to [] sf v.root) (render dt) recursive v)
copy_to-Outcome sf dt recursive v hs = elim (snoc-cases dt) [
  | inl e ↦
      subst (Outcome sf dt v.root)
        (sym (
          at_root (str_eq (render sf) (slash ∷ [])) (str_eq (render dt) (slash ∷ [])) (v, false)
            (copy_from (pointer_to [] sf v.root) (render dt) recursive v) (is_root dt e)))
        (inl (refl, λ qs. refl))
  | inr (init, b, p) ↦
      Outcome-if sf dt v.root (str_eq (render sf) (slash ∷ []) || str_eq (render dt) (slash ∷ []))
        (v, false) _ (inl (refl, λ qs. refl))
        (rw p (copy_from-Outcome sf init b recursive v (rw (← p) hs)))
]

-- `Copy` fails and changes no file, or it succeeds: then each file of the old place and below it is also at
-- the new one and below it, nothing else is there, and every other file is as before.
pub copy-Outcome :
    (from to : Bytes) (recursive : Bool) (v : Vfs)
    → Outcome (segments from) (segments to) v.root (copy from to recursive v)
unfolding copy
copy-Outcome from to recursive v =
    Outcome-if (segments from) (segments to) v.root v.sealed (v, false) _ (inl (refl, λ qs. refl))
      (rw
        (traverse-normalize_path from v.root, render-normalize_path from, render-normalize_path to)
        (copy_to-Outcome (segments from) (segments to) recursive v (segments-IsName to)))
