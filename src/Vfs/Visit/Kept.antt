-- ===== src/Vfs/Visit/Kept.antt =====
-- Files stay without children under each change of a tree.
use neon_world_os.Base.{
  Bool, true, false, [], ◌∷◌, some, ◌≡◌, refl, sym, ap, ◌∙◌, subst, inl, inr, arith, Bytes,
  if◌then◌else◌, str_eq, str_lt, Bool-cases, Option-cases,
}
use neon_world_os.Vfs.Tree.{
  Node, Children, node, nil, entry, is_dir, children, with_content, new_dir, new_file, lookup,
  replace, insert, put, erase, set_child, Loc, get, update,
}
use neon_world_os.Vfs.Tree.View.{is_dir-set_child, update-some, update-none}
use neon_world_os.Vfs.Walk.{child_or_new}
use neon_world_os.Vfs.Walk.Laws.{ensure}
use neon_world_os.Vfs.Walk.Ensure.{ensure_step}
use neon_world_os.Vfs.Files.{fill, is_dir_at}
use neon_world_os.Vfs.Files.Write.{is_dir_at-eq}
use neon_world_os.Vfs.Links.{erase_child, clone_node, clone_children}
use neon_world_os.Vfs.Visit.Laws.{IsTree, AreTrees}

AreTrees-if :
    (b : Bool) (cs ds : Children) → AreTrees cs → AreTrees ds → AreTrees (if b then cs else ds)
AreTrees-if true cs ds h h' = h
AreTrees-if false cs ds h h' = h'

lookup-IsTree :
    (k : Bytes) (n : Node) (cs : Children) → lookup k cs ≡ some n → AreTrees cs → IsTree n
unfolding lookup AreTrees
lookup-IsTree k n nil e h = absurd (cc)
lookup-IsTree k n (entry j m cs) e (hm, h) = elim (Bool-cases (str_eq j k)) [
  | inl p ↦ subst IsTree (ground (arith, e, p)) hm
  | inr p ↦ lookup-IsTree k n cs (ground (arith, e, p)) h
]

replace-AreTrees :
    (k : Bytes) (v : Node) (cs : Children) → IsTree v → AreTrees cs → AreTrees (replace k v cs)
unfolding replace AreTrees
replace-AreTrees k v nil hv h = h
replace-AreTrees k v (entry j m cs) hv (hm, h) =
    AreTrees-if (str_eq j k) (entry j v cs) (entry j m (replace k v cs)) (hv, h)
      (hm, replace-AreTrees k v cs hv h)

insert-AreTrees :
    (k : Bytes) (v : Node) (cs : Children) → IsTree v → AreTrees cs → AreTrees (insert k v cs)
unfolding insert AreTrees
insert-AreTrees k v nil hv h = (hv, h)
insert-AreTrees k v (entry j m cs) hv (hm, h) =
    AreTrees-if (str_lt k j) (entry k v (entry j m cs)) (entry j m (insert k v cs)) (hv, (hm, h))
      (hm, insert-AreTrees k v cs hv h)

put-AreTrees :
    (k : Bytes) (v : Node) (cs : Children) → IsTree v → AreTrees cs → AreTrees (put k v cs)
unfolding put
put-AreTrees k v cs hv h = elim (Option-cases (lookup k cs)) [
  | inl e ↦ rw (e, put) (insert-AreTrees k v cs hv h)
  | inr (n, e) ↦ rw (e, put) (replace-AreTrees k v cs hv h)
]

erase-AreTrees : (k : Bytes) (cs : Children) → AreTrees cs → AreTrees (erase k cs)
unfolding erase AreTrees
erase-AreTrees k nil h = h
erase-AreTrees k (entry j m cs) (hm, h) =
    AreTrees-if (str_eq j k) (erase k cs) (entry j m (erase k cs)) (erase-AreTrees k cs h)
      (hm, erase-AreTrees k cs h)

children-AreTrees : (n : Node) → IsTree n → AreTrees (children n)
unfolding IsTree AreTrees
children-AreTrees (node true m t cs) h = h
children-AreTrees (node false m t cs) h = subst AreTrees (sym h) tt

set_child-IsTree :
    (k : Bytes) (v n : Node) → is_dir n ≡ true → IsTree v → IsTree n → IsTree (set_child k v n)
unfolding IsTree set_child
set_child-IsTree k v (node true m t cs) dir hv h = put-AreTrees k v cs hv h
set_child-IsTree k v (node false m t cs) dir hv h = absurd (cc)

erase_child-IsTree : (k : Bytes) (n : Node) → IsTree n → IsTree (erase_child k n)
unfolding IsTree erase_child
erase_child-IsTree k (node true m t cs) h = erase-AreTrees k cs h
erase_child-IsTree k (node false m t cs) h = ap (erase k) h ∙ (unfold erase in refl)

-- What has a child is a directory.
parent-is_dir :
    (k : Bytes) (n c : Node) → lookup k (children n) ≡ some c → IsTree n → is_dir n ≡ true
unfolding IsTree lookup
parent-is_dir k (node true m t cs) c e h = refl
parent-is_dir k (node false m t cs) c e h = absurd (ground (arith, e, ap (lookup k) h))

pub get-IsTree : (ks : Loc) (n d : Node) → get ks n ≡ some d → IsTree n → IsTree d
unfolding get
get-IsTree [] n d e h = subst IsTree (ground (arith, e)) h
get-IsTree (k ∷ ks) n d e h = elim (Option-cases (lookup k (children n))) [
  | inl p ↦ absurd (ground (arith, e, p))
  | inr (c, p) ↦
      get-IsTree ks c d (ground (arith, e, p))
        (lookup-IsTree k c (children n) p (children-AreTrees n h))
]

-- A write through a pointer, if what it writes there is a tree again.
pub update-IsTree :
    (ks : Loc) (f : Node → Node) (n : Node)
    → IsTree n
    → ((d : Node) → get ks n ≡ some d → IsTree d → IsTree (f d))
    → IsTree (update ks f n)
unfolding get
update-IsTree [] f n h hf = unfold update in hf n refl h
update-IsTree (k ∷ ks) f n h hf = elim (Option-cases (lookup k (children n))) [
  | inl e ↦ rw (update-none k ks f n e) h
  | inr (c, e) ↦ rw (update-some k ks f c n e) (
      set_child-IsTree k (update ks f c) n (parent-is_dir k n c e h)
        (update-IsTree ks f c (lookup-IsTree k c (children n) e (children-AreTrees n h))
          (λ d g. hf d (rw (e, get) g)))
        h)
]

pub new_dir-IsTree : (k : Bytes) → IsTree (new_dir k)
unfolding IsTree AreTrees
new_dir-IsTree k = tt

child_or_new-IsTree : (k : Bytes) (n : Node) → IsTree n → IsTree (child_or_new k n)
unfolding child_or_new
child_or_new-IsTree k n h = elim (Option-cases (lookup k (children n))) [
  | inl e ↦ rw (e, child_or_new) (new_dir-IsTree k)
  | inr (c, e) ↦ rw (e, child_or_new) (lookup-IsTree k c (children n) e (children-AreTrees n h))
]

-- A directory whose nodes are trees, as the root is.
abbrev pub Rooted : Node → Type 0
Rooted n = (is_dir n ≡ true) × IsTree n

set_child-Rooted : (k : Bytes) (v n : Node) → IsTree v → Rooted n → Rooted (set_child k v n)
set_child-Rooted k v n hv (dir, h) = (is_dir-set_child k v n ∙ dir, set_child-IsTree k v n dir hv h)

pub ensure-Rooted : (ks : Loc) (n r : Node) → ensure ks n ≡ some r → Rooted n → Rooted r
ensure-Rooted [] n r e h = subst Rooted {x = n} {y = r} (unfold ensure in ground arith) h
ensure-Rooted (k ∷ ks) n r e h =
    let (c, cd, e', p) = ensure_step k ks n r e in
    subst Rooted (sym p) (
      set_child-Rooted k c n
        (ensure-Rooted ks (child_or_new k n) c e' (cd, child_or_new-IsTree k n h.1)).1 h)

-- The four changes that the operations make, at a place of a rooted tree.
kept-is_dir :
    (ks : Loc) (f : Node → Node) (n : Node)
    → ((d : Node) → is_dir (f d) ≡ is_dir d)
    → is_dir (update ks f n) ≡ is_dir n
kept-is_dir [] f n hf = unfold update in hf n
kept-is_dir (k ∷ ks) f n hf = elim (Option-cases (lookup k (children n))) [
  | inl e ↦ ap is_dir (update-none k ks f n e)
  | inr (c, e) ↦ ap is_dir (update-some k ks f c n e) ∙ is_dir-set_child k (update ks f c) n
]

erased-is_dir : (k : Bytes) (d : Node) → is_dir (erase_child k d) ≡ is_dir d
unfolding erase_child
erased-is_dir k (node d m t cs) = refl

filled-is_dir : (text : Bytes) (d : Node) → is_dir (with_content d text) ≡ is_dir d
filled-is_dir text (node d m t cs) = refl

with_content-IsTree : (text : Bytes) (d : Node) → IsTree d → IsTree (with_content d text)
unfolding IsTree
with_content-IsTree text (node true m t cs) h = h
with_content-IsTree text (node false m t cs) h = h

pub erased-Rooted :
    (ks : Loc) (k : Bytes) (n : Node) → Rooted n → Rooted (update ks (erase_child k) n)
erased-Rooted ks k n (dir, h) = (
  kept-is_dir ks (erase_child k) n (erased-is_dir k) ∙ dir,
  update-IsTree ks (erase_child k) n h (λ d g hd. erase_child-IsTree k d hd),
)

pub filled-Rooted : (ks : Loc) (text : Bytes) (n : Node) → Rooted n → Rooted (fill ks text n)
unfolding fill
filled-Rooted ks text n (dir, h) = (
  kept-is_dir ks (λ d. with_content d text) n (filled-is_dir text) ∙ dir,
  update-IsTree ks (λ d. with_content d text) n h (λ d g hd. with_content-IsTree text d hd),
)

pub linked-Rooted :
    (ks : Loc) (k : Bytes) (c n : Node)
    → is_dir_at ks n ≡ true
    → IsTree c
    → Rooted n
    → Rooted (update ks (set_child k c) n)
linked-Rooted ks k c n at hc (dir, h) = (
  kept-is_dir ks (set_child k c) n (is_dir-set_child k c) ∙ dir,
  update-IsTree ks (set_child k c) n h (λ d g hd. set_child-IsTree k c d (at_dir d g) hc hd),
)
  where
    at_dir : (d : Node) → get ks n ≡ some d → is_dir d ≡ true
    at_dir d g = sym (is_dir_at-eq ks n d g) ∙ at

pub new_file-IsTree : (k : Bytes) → IsTree (new_file k)
unfolding IsTree
new_file-IsTree k = refl

mutual
  unfolding IsTree AreTrees clone_node clone_children

  pub clone_node-IsTree : (n : Node) → IsTree n → IsTree (clone_node n)
  clone_node-IsTree (node true m t cs) h = clone_children-AreTrees cs h
  clone_node-IsTree (node false m t cs) h = ap clone_children h

  clone_children-AreTrees : (cs : Children) → AreTrees cs → AreTrees (clone_children cs)
  clone_children-AreTrees nil h = h
  clone_children-AreTrees (entry k n cs) (hn, h) =
      (clone_node-IsTree n hn, clone_children-AreTrees cs h)
