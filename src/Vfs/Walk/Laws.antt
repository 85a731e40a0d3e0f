-- ===== src/Vfs/Walk/Laws.antt =====
-- The walks against recursions over the names of a path.
use neon_world_os.Base.{
  false, List, [], ◌∷◌, ◌++◌, Option, none, some, Bytes, if◌then◌else◌, is_empty, str_eq, ◌||◌, ◌≡◌,
  ◌≢◌, refl, ap, inl, inr, arith, append_assoc, append-nil, Lacks, All, Option-cases, str_eq_ne,
}
use mathlib.Core.Option
use neon_world_os.Vfs.Path.{slash, normalize_path, segments, render, render_from}
use neon_world_os.Vfs.Path.Normal.{IsName, slashed, render-slashed, segments-IsName}
use neon_world_os.Vfs.Tree.{
  Node, is_dir, children, with_children, new_dir, lookup, set_child, Loc, get,
}
use neon_world_os.Vfs.Tree.Map.{put_same}
use neon_world_os.Vfs.Walk.{
  Pointer, step_into, walk, traverse, child_or_new, ensure_walk, ensure_dir,
}

walk-part :
    (p s seg : Bytes) (loc : Loc) (cur : Node)
    → Lacks slash p
    → walk (p ++ s) seg loc cur ≡ walk s (seg ++ p) loc cur
unfolding walk
walk-part [] s seg loc cur h = rw append-nil
walk-part (c ∷ p) s seg loc cur (hc, h) =
    ground (arith, walk-part p s (seg ++ c ∷ []) loc cur h, append_assoc seg (c ∷ []) p)

-- What a pointer to `get ks n` is.
abbrev pub pointer_to : Loc → Loc → Node → Option Pointer
pointer_to loc ks n = Option.map (λ m. (loc ++ ks, m)) (get ks n)

walk-slashed :
    (ps : List Bytes) (seg : Bytes) (loc : Loc) (cur : Node)
    → seg ≢ []
    → All IsName ps
    → walk (slashed ps) seg loc cur ≡ pointer_to loc (seg ∷ ps) cur
unfolding walk slashed get
walk-slashed ps [] loc cur ne h = absurd (ne refl)
walk-slashed [] (c ∷ seg) loc cur ne h = elim (Option-cases (lookup (c ∷ seg) (children cur))) [
  | inl e ↦ rw (e, get)
  | inr (n, e) ↦ rw (e, get)
]
walk-slashed (p ∷ ps) (c ∷ seg) loc cur ne (hp, h) =
    elim (Option-cases (lookup (c ∷ seg) (children cur))) [
      | inl e ↦ rw (e, get, walk, step_into)
      | inr (n, e) ↦
          rw (e, get, walk, step_into)
            (rw
              (
                walk-part p (slashed ps) [] (loc ++ (c ∷ seg) ∷ []) n hp.no_slash,
                walk-slashed ps p (loc ++ (c ∷ seg) ∷ []) n hp.nonempty h,
              )
              (ap (λ (l : Loc). Option.map {B = Pointer} (λ m. (l, m)) (get (p ∷ ps) n))
                (append_assoc loc ((c ∷ seg) ∷ []) (p ∷ ps))))
    ]

-- A rendered path with at least one name is neither empty nor the root.
slashed-ne-root : (p : Bytes) (s : Bytes) → p ≢ [] → str_eq (slash ∷ (p ++ s)) (slash ∷ []) ≡ false
slashed-ne-root [] s h = absurd (h refl)
slashed-ne-root (c ∷ p) s h = str_eq_ne _ _ (cc)

walk-render :
    (ps : List Bytes) (root : Node)
    → All IsName ps
    → ps ≢ []
    → walk (render ps) [] [] root ≡ pointer_to [] ps root
unfolding walk
walk-render [] root h ne = absurd (ne refl)
walk-render (p ∷ ps) root (hp, h) ne = rw (render-slashed (p ∷ ps) ne) (
    unfold slashed in
    rw (walk-part p (slashed ps) [] [] root hp.no_slash) (walk-slashed ps p [] root hp.nonempty h))

-- The test for the root fails on every other path.
root-test :
    (p : Bytes) (ps : List Bytes)
    → IsName p
    → (is_empty (render (p ∷ ps)) || str_eq (render (p ∷ ps)) (slash ∷ [])) ≡ false
unfolding slashed
root-test p ps hp = rw (render-slashed (p ∷ ps) (cc)) (slashed-ne-root p (slashed ps) hp.nonempty)

-- `Traverse` follows the names of the path, one map lookup for each, and returns `nullptr` as soon
-- as one is missing.
pub traverse_lem :
    (path : Bytes) (root : Node) → traverse path root ≡ pointer_to [] (segments path) root
unfolding traverse normalize_path
traverse_lem path root = go (segments path) (segments-IsName path)
  where
    go :
        (ps : List Bytes)
        → All IsName ps
        → (if is_empty (render ps) || str_eq (render ps) (slash ∷ [])
            then some ([], root)
            else walk (render ps) [] [] root)
          ≡ pointer_to [] ps root
    go [] h = unfold render render_from str_eq get in refl
    go (p ∷ ps) (hp, h) = rw (root-test p ps hp) (walk-render (p ∷ ps) root (hp, h) (cc))

-- The directories along a chain of names, made where they are missing; `none` if a file is in the way.
unfoldable pub ensure : List Bytes → Node → Option Node
unfolding child_or_new set_child
ensure [] n = some n
ensure (k ∷ ks) n =
    let rest = Option.map (λ c. set_child k c n) (ensure ks (child_or_new k n)) in
    if is_dir (child_or_new k n) then rest else none

-- What `EnsureDir` leaves and returns.
abbrev pub ensured : List Bytes → Node → Node × Option Loc
ensured ks n = elim (ensure ks n) [ none ↦ (n, none) | some r ↦ (r, some ks) ]

with_children_self : (n : Node) → with_children n (children n) ≡ n
with_children_self (Node.node d m t cs) = refl

pub set_child_old :
    (seg : Bytes) (c cur : Node) → lookup seg (children cur) ≡ some c → set_child seg c cur ≡ cur
unfolding set_child
set_child_old seg c cur h = rw (put_same seg c (children cur) h) (with_children_self cur)

-- Nothing is in the way below a directory that was just made.
ensure-new : (ks : List Bytes) (m : Bytes) → (r : Node) × (ensure ks (new_dir m) ≡ some r)
unfolding ensure lookup
ensure-new [] m = (new_dir m, refl)
ensure-new (k ∷ ks) m = let (r, e) = ensure-new ks k in (set_child k r (new_dir m), rw e)

ensure_walk-part :
    (p s seg : Bytes) (cur : Node)
    → Lacks slash p
    → ensure_walk (p ++ s) seg cur ≡ ensure_walk s (seg ++ p) cur
unfolding ensure_walk
ensure_walk-part [] s seg cur h = rw append-nil
ensure_walk-part (c ∷ p) s seg cur (hc, h) =
    ground (arith, ensure_walk-part p s (seg ++ c ∷ []) cur h, append_assoc seg (c ∷ []) p)

ensure_walk-slashed :
    (ps : List Bytes) (seg : Bytes) (cur : Node)
    → seg ≢ []
    → All IsName ps
    → ensure_walk (slashed ps) seg cur ≡ ensured (seg ∷ ps) cur
unfolding ensure_walk slashed ensure
ensure_walk-slashed ps [] cur ne h = absurd (ne refl)
ensure_walk-slashed [] (c ∷ seg) cur ne h = elim (Option-cases (lookup (c ∷ seg) (children cur))) [
  | inl e ↦ ground (arith, e)
  | inr (n, e) ↦ ground (arith, e, set_child_old (c ∷ seg) n cur e)
]
ensure_walk-slashed (p ∷ ps) (c ∷ seg) cur ne (hp, h) =
    elim (Option-cases (lookup (c ∷ seg) (children cur))) [
      | inl e ↦ ground (
        arith,
        ensure-new (p ∷ ps) (c ∷ seg),
        ensure_walk-part p (slashed ps) [] (new_dir (c ∷ seg)) hp.no_slash,
        ensure_walk-slashed ps p (new_dir (c ∷ seg)) hp.nonempty h,
      )
      | inr (n, e) ↦ ground (
        arith,
        ensure_walk-part p (slashed ps) [] n hp.no_slash,
        ensure_walk-slashed ps p n hp.nonempty h,
        set_child_old (c ∷ seg) n cur e,
      )
    ]

-- `EnsureDir` makes the missing directories along the names of the path and returns the last of
-- them, or it meets a file, returns `nullptr` and leaves the tree as it was.
pub ensure_dir_lem :
    (path : Bytes) (root : Node) → ensure_dir path root ≡ ensured (segments path) root
unfolding ensure_dir normalize_path
ensure_dir_lem path root = go (segments path) (segments-IsName path)
  where
    go :
        (ps : List Bytes)
        → All IsName ps
        → (if is_empty (render ps) || str_eq (render ps) (slash ∷ [])
            then (root, some [])
            else ensure_walk (render ps) [] root)
          ≡ ensured ps root
    go [] h = unfold render render_from str_eq ensure in refl
    go (p ∷ ps) (hp, h) = rw (root-test p ps hp) (
        rw (render-slashed (p ∷ ps) (cc)) (
          unfold slashed ensure_walk in
          rw (ensure_walk-part p (slashed ps) [] root hp.no_slash)
            (ensure_walk-slashed ps p root hp.nonempty h)))
