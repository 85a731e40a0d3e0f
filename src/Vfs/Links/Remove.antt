-- ===== src/Vfs/Links/Remove.antt =====
-- `Remove`: what is gone after it, and what is not.
use neon_world_os.Base.{
  Bool, true, false, not, ◌&&◌, [], ◌∷◌, ◌++◌, Option, none, some, ◌≡◌, ◌≢◌, refl, sym, ap, ◌∙◌,
  inl, inr, ◌⊎◌, Bytes, if◌then◌else◌, str_eq, str_eq_self, str_eq_ne, find_last_of-append,
  Option-cases, Bool-cases, All, append_assoc, take, take-length-append, drop-length-append, length,
  suc, zero, All-append_left, ℕ,
}
use mathlib.Core.Option
use neon_world_os.Vfs.Path.{
  slash, normalize_path, segments, render, render_from, cut, flush, resolve,
}
use neon_world_os.Vfs.Path.Normal.{
  IsName, segments-IsName, render-normalize_path, slashed, render-slashed, segments-render,
}
use neon_world_os.Vfs.Path.Parent.{snoc-cases, render-snoc, snoc-IsName}
use neon_world_os.Vfs.Tree.{Node, node, is_dir, children, lookup, Loc, get, update}
use neon_world_os.Vfs.Tree.Map.{lookup-erase}
use neon_world_os.Vfs.Tree.View.{file_at, file_at-update, get-append, get-update, get_one}
use neon_world_os.Vfs.Walk.{traverse}
use neon_world_os.Vfs.Walk.Laws.{traverse_lem, pointer_to}
use neon_world_os.Vfs.State.{Vfs}
use neon_world_os.Vfs.Locks.{locked, clean_locks}
use neon_world_os.Vfs.Links.{
  parent_of, base_of, erase_child, no_children, remove_at, remove_in, remove_free, remove,
}

-- The tree after a successful `Remove` at `ks`: nothing is left there or below, and every file
-- elsewhere is as it was.
pub record Removes (ks : Loc) (n n' : Node) : Type 0 where
  pub gone : (ls : Loc) → get (ks ++ ls) n' ≡ none
  pub elsewhere : (qs : Loc) → ((ls : Loc) → qs ≢ ks ++ ls) → file_at qs n' ≡ file_at qs n

lookup-erase_child :
    (k q : Bytes) (n : Node)
    → lookup q (children (erase_child k n)) ≡ (if str_eq k q then none else lookup q (children n))
unfolding erase_child
lookup-erase_child k q (node d m t cs) = lookup-erase k q cs

file_at-erase_child_nil : (k : Bytes) (n : Node) → file_at [] (erase_child k n) ≡ file_at [] n
unfolding erase_child file_at
file_at-erase_child_nil k (node d m t cs) = refl

file_at-erase_child :
    (k q : Bytes) (qs : Loc) (n : Node)
    → k ≢ q
    → file_at (q ∷ qs) (erase_child k n) ≡ file_at (q ∷ qs) n
unfolding file_at
file_at-erase_child k q qs n h = rw (lookup-erase_child k q n, file_at) (rw (str_eq_ne k q h))

pub erased-Removes :
    (ks : Loc) (b : Bytes) (n : Node) → Removes (ks ++ b ∷ []) n (update ks (erase_child b) n)
erased-Removes ks b n = record {
  gone = λ ls. rw (get-append (ks ++ b ∷ []) ls (update ks (erase_child b) n), gone_at) refl;
  elsewhere = λ qs h. file_at-update ks (erase_child b) qs n (λ ls m p g. go qs h ls m p);
}
  where
    gone_in :
        (o : Option Node)
        → elim (Option.map (erase_child b) o) [ none ↦ none | some m ↦ get (b ∷ []) m ] ≡ none
    gone_in none = refl
    gone_in (some m) = get_one b (erase_child b m) ∙ lookup-erase_child b b m ∙ (rw (str_eq_self b))

    gone_at : get (ks ++ b ∷ []) (update ks (erase_child b) n) ≡ none
    gone_at =
        rw (get-append ks (b ∷ []) (update ks (erase_child b) n), get-update ks (erase_child b) n)
          (gone_in (get ks n))

    go :
        (qs : Loc)
        → ((ls : Loc) → qs ≢ (ks ++ b ∷ []) ++ ls)
        → (ls : Loc) (m : Node) → qs ≡ ks ++ ls
        → file_at ls (erase_child b m) ≡ file_at ls m
    go qs h [] m p = file_at-erase_child_nil b m
    go qs h (l ∷ ls) m p = file_at-erase_child b l ls m (λ e.
        h ls (p ∙ ap (λ (x : Bytes). ks ++ x ∷ ls) (sym e) ∙ sym (append_assoc ks (b ∷ []) ls)))

-- What `Remove` refuses to unlink without `recursive`.
abbrev pub is_full : Node → Bool
is_full c = is_dir c && not (no_children (children c))

-- `Remove` fails and leaves the tree as it was, or it succeeds: then there was a node, which was not a
-- directory with children unless `recursive` was set, and it is removed.
abbrev pub Outcome : Loc → Bool → Node → Vfs × Bool → Type 0
Outcome ks recursive n r =
    ((r.1 ≡ false) × (r.0.root ≡ n))
    ⊎ ((r.1 ≡ true)
        × ((c : Node) × (get ks n ≡ some c) × ((is_full c ≡ false) ⊎ (recursive ≡ true)))
        × Removes ks n r.0.root)

Outcome-if :
    (ks : Loc) (recursive : Bool) (n : Node) (b : Bool) (r s : Vfs × Bool)
    → Outcome ks recursive n r
    → Outcome ks recursive n s
    → Outcome ks recursive n (if b then r else s)
Outcome-if ks recursive n true r s hr hs = hr
Outcome-if ks recursive n false r s hr hs = hs

remove_at-Outcome :
    (ks : Loc) (b : Bytes) (recursive : Bool) (o : Option Node) (v : Vfs)
    → get (ks ++ b ∷ []) v.root ≡ o
    → Outcome (ks ++ b ∷ []) recursive v.root (remove_at ks b recursive o v)
unfolding remove_at
remove_at-Outcome ks b recursive none v e = inl (refl, refl)
remove_at-Outcome ks b recursive (some c) v e =
    elim (Bool-cases (is_dir c && (not (no_children (children c)) && not recursive))) [
      | inl full ↦ rw full (inl (refl, refl))
      | inr fine ↦ rw fine (
          inr (
            refl,
            (c, e, allowed recursive (is_dir c) (no_children (children c)) fine),
            erased-Removes ks b v.root,
          ))
    ]
  where
    allowed : (r d n : Bool) → (d && (not n && not r)) ≡ false → ((d && not n) ≡ false) ⊎ (r ≡ true)
    allowed true d n h = inr refl
    allowed false true true h = inl refl
    allowed false true false h = cc
    allowed false false n h = inl refl

remove_in-Outcome :
    (ks : Loc) (b : Bytes) (recursive : Bool) (v : Vfs)
    → Outcome (ks ++ b ∷ []) recursive v.root (remove_in (pointer_to [] ks v.root) b recursive v)
unfolding remove_in
remove_in-Outcome ks b recursive v = elim (Option-cases (get ks v.root)) [
  | inl e ↦ rw e (inl (refl, refl))
  | inr (p, e) ↦ rw e (
      Outcome-if (ks ++ b ∷ []) recursive v.root (is_dir p) _ _
        (remove_at-Outcome ks b recursive (lookup b (children p)) v
          (rw (get-append ks (b ∷ []) v.root, e) (get_one b p)))
        (inl (refl, refl)))
]

parent_cut :
    (x s : Bytes)
    → x ≢ []
    → elim (length x) [ zero ↦ slash ∷ [] | suc i ↦ take (suc i) s ] ≡ take (length x) s
parent_cut [] s h = absurd (h refl)
parent_cut (c ∷ x) s h = refl

slashed-ne-nil : (k : Bytes) (ks : Loc) → slashed (k ∷ ks) ≢ []
unfolding slashed
slashed-ne-nil k ks = cc

-- The parent that the operations cut off, and the last name.
pub parent_at :
    (ks : Loc) (b : Bytes)
    → All IsName (ks ++ b ∷ [])
    → segments (parent_of (render (ks ++ b ∷ []))) ≡ ks
unfolding parent_of
parent_at [] b h = rw (render-snoc [] b) (
    rw (find_last_of-append slash (slashed []) b h.0.no_slash, parent_of)
      (unfold slashed segments cut flush resolve in refl))
parent_at (k ∷ ks) b h = rw (render-snoc (k ∷ ks) b) (
    rw
      (
        find_last_of-append slash (slashed (k ∷ ks)) b (snoc-IsName (k ∷ ks) b h).no_slash,
        parent_of,
      )
      (rw
        (
          parent_cut (slashed (k ∷ ks)) (slashed (k ∷ ks) ++ slash ∷ b) (slashed-ne-nil k ks),
          take-length-append (slashed (k ∷ ks)),
        )
        (rw (← render-slashed (k ∷ ks) (cc))
          (segments-render (k ∷ ks) (All-append_left IsName (k ∷ ks) (b ∷ []) h)))))

pub base_at :
    (ks : Loc) (b : Bytes) → All IsName (ks ++ b ∷ []) → base_of (render (ks ++ b ∷ [])) ≡ b
unfolding base_of
base_at ks b h = rw (render-snoc ks b) (
    rw (find_last_of-append slash (slashed ks) b (snoc-IsName ks b h).no_slash, base_of)
      (drop-length-append (slashed ks) slash b))

remove_free-Outcome :
    (ks : Loc) (recursive : Bool) (v : Vfs)
    → All IsName ks
    → Outcome ks recursive v.root (remove_free (render ks) recursive v)
unfolding remove_free
remove_free-Outcome ks recursive v h =
    Outcome-if ks recursive v.root v.sealed _ _ (inl (refl, refl)) (elim (snoc-cases ks) [
      | inl nil ↦ rw nil (unfold render render_from str_eq in inl (refl, refl))
      | inr (init, b, p) ↦
          Outcome-if ks recursive v.root (str_eq (render ks) (slash ∷ [])) (v, false)
            (remove_in (traverse (parent_of (render ks)) v.root) (base_of (render ks)) recursive v)
            (inl (refl, refl))
            (rw p (
              rw
                (
                  base_at init b (rw (← p) h),
                  traverse_lem (parent_of (render (init ++ b ∷ []))) v.root,
                  parent_at init b (rw (← p) h),
                )
                (remove_in-Outcome init b recursive v)))
    ])

-- `Remove` fails and leaves the tree as it was, or it succeeds: then there was a node at the path, not
-- a directory with children unless `recursive` was set, nothing is left at the path or below it, and
-- every file elsewhere is as before.
pub remove-Outcome :
    (path : Bytes) (recursive : Bool) (now : ℕ) (v : Vfs)
    → Outcome (segments path) recursive v.root (remove path recursive now v)
unfolding remove locked clean_locks
remove-Outcome path recursive now v =
    let v' : Vfs = clean_locks now v in
    let free : Vfs × Bool = remove_free (normalize_path path) recursive v' in
    let kept = Outcome-if (segments path) recursive v.root in
    kept _ (v, false) _ (inl (refl, refl))
      (kept _ (v', false) _ (inl (refl, refl))
        (kept _ (v', false) free (inl (refl, refl))
          (rw (render-normalize_path path)
            (remove_free-Outcome (segments path) recursive v' (segments-IsName path)))))
