-- ===== src/Vfs/Tree/View.antt =====
-- What a reader sees of a tree: the files at chains of names. How writes through pointers and new
-- directories change that view.
use neon_world_os.Base.{
  [], ◌∷◌, ◌++◌, Option, none, some, ◌≡◌, ◌≢◌, refl, sym, ap, ◌∙◌, inl, inr, arith, Bytes,
  if◌then◌else◌, str_eq, str_eq_iff, str_eq_self, Bool-cases, Option-cases, append-nil,
}
use mathlib.Core.Option
use neon_world_os.Vfs.Tree.{
  Node, node, is_dir, content, children, set_child, with_content, new_dir, new_file, lookup, Loc,
  get, update,
}
use neon_world_os.Vfs.Tree.Map.{lookup-put}

-- The content of the file that a chain of names leads to.
unfoldable pub file_at : Loc → Node → Option Bytes
file_at [] n = if is_dir n then none else some (content n)
file_at (k ∷ ks) n = elim (lookup k (children n)) [ none ↦ none | some c ↦ file_at ks c ]

pub file_at-get :
    (ks : Loc) (n : Node)
    → file_at ks n
      ≡ elim (get ks n) [ none ↦ none | some m ↦ if is_dir m then none else some (content m) ]
unfolding file_at get
file_at-get [] n = refl
file_at-get (k ∷ ks) n = elim (Option-cases (lookup k (children n))) [
  | inl e ↦ rw (e, file_at, get)
  | inr (c, e) ↦ rw (e, file_at, get) (file_at-get ks c)
]

pub get-append :
    (ks ls : Loc) (n : Node)
    → get (ks ++ ls) n ≡ elim (get ks n) [ none ↦ none | some m ↦ get ls m ]
unfolding get
get-append [] ls n = refl
get-append (k ∷ ks) ls n = elim (Option-cases (lookup k (children n))) [
  | inl e ↦ rw (e, get)
  | inr (c, e) ↦ rw (e, get) (get-append ks ls c)
]

-- The map of a node after `children[k] = x`; the rest of the node stays.
pub lookup-set_child :
    (k q : Bytes) (x n : Node)
    → lookup q (children (set_child k x n)) ≡ (if str_eq k q then some x else lookup q (children n))
unfolding set_child
lookup-set_child k q x (node d m t cs) = lookup-put k q x cs

pub is_dir-set_child : (k : Bytes) (x n : Node) → is_dir (set_child k x n) ≡ is_dir n
unfolding set_child
is_dir-set_child k x (node d m t cs) = refl

pub file_at-set_child_nil : (k : Bytes) (x n : Node) → file_at [] (set_child k x n) ≡ file_at [] n
unfolding set_child file_at
file_at-set_child_nil k x (node d m t cs) = refl

pub file_at-set_child_self :
    (k : Bytes) (qs : Loc) (x n : Node) → file_at (k ∷ qs) (set_child k x n) ≡ file_at qs x
unfolding file_at
file_at-set_child_self k qs x n = rw (lookup-set_child k k x n, file_at) (rw (str_eq_self k))

pub file_at-some :
    (q : Bytes) (qs : Loc) (n c : Node)
    → lookup q (children n) ≡ some c
    → file_at (q ∷ qs) n ≡ file_at qs c
unfolding file_at
file_at-some q qs n c e = rw (e, file_at)

pub file_at-none :
    (q : Bytes) (qs : Loc) (n : Node) → lookup q (children n) ≡ none → file_at (q ∷ qs) n ≡ none
unfolding file_at
file_at-none q qs n e = rw (e, file_at)

-- Where `x` shows the same as what stood at `k`, so does the node.
pub file_at-set_child :
    (k q : Bytes) (qs : Loc) (x n : Node)
    → (k ≡ q → file_at qs x ≡ file_at (q ∷ qs) n)
    → file_at (q ∷ qs) (set_child k x n) ≡ file_at (q ∷ qs) n
unfolding file_at
file_at-set_child k q qs x n h =
    rw (lookup-set_child k q x n, file_at)
      (elim (Bool-cases (str_eq k q)) [
        | inl same ↦ rw same (h ((str_eq_iff k q).0 same))
        | inr other ↦ rw other
      ])

pub update-some :
    (k : Bytes) (ks : Loc) (f : Node → Node) (c n : Node)
    → lookup k (children n) ≡ some c
    → update (k ∷ ks) f n ≡ set_child k (update ks f c) n
unfolding update
update-some k ks f c n e = rw (e, update)

pub update-none :
    (k : Bytes) (ks : Loc) (f : Node → Node) (n : Node)
    → lookup k (children n) ≡ none
    → update (k ∷ ks) f n ≡ n
unfolding update
update-none k ks f n e = rw (e, update)

-- A write through a pointer is read back through it.
pub get-update :
    (ks : Loc) (f : Node → Node) (n : Node) → get ks (update ks f n) ≡ Option.map f (get ks n)
unfolding get
get-update [] f n = unfold update in refl
get-update (k ∷ ks) f n = elim (Option-cases (lookup k (children n))) [
  | inl e ↦ rw (update-none k ks f n e) (rw (e, get))
  | inr (c, e) ↦
      rw (update-some k ks f c n e) (
        rw (lookup-set_child k k (update ks f c) n, e, get)
          (rw (str_eq_self k) (get-update ks f c)))
]

-- A change that a reader of `qs` does not see at the place itself is not seen from above.
pub file_at-update :
    (ks : Loc) (f : Node → Node) (qs : Loc) (n : Node)
    → ((ls : Loc) (m : Node) → qs ≡ ks ++ ls → get ks n ≡ some m → file_at ls (f m) ≡ file_at ls m)
    → file_at qs (update ks f n) ≡ file_at qs n
unfolding get
file_at-update [] f qs n h = unfold update in h qs n refl refl
file_at-update (k ∷ ks) f qs n h = elim (Option-cases (lookup k (children n))) [
  | inl e ↦ rw (update-none k ks f n e)
  | inr (c, e) ↦ rw (update-some k ks f c n e) (go qs c e (λ ls. file_at-update ks f ls c) h)
]
  where
    go :
        (qs : Loc) (c : Node) (e : lookup k (children n) ≡ some c)
        → ((ls : Loc)
            → ((ls' : Loc) (m : Node)
                → ls ≡ ks ++ ls'
                → get ks c ≡ some m
                → file_at ls' (f m) ≡ file_at ls' m)
            → file_at ls (update ks f c) ≡ file_at ls c)
        → ((ls : Loc) (m : Node)
            → qs ≡ (k ∷ ks) ++ ls
            → get (k ∷ ks) n ≡ some m
            → file_at ls (f m) ≡ file_at ls m)
        → file_at qs (set_child k (update ks f c) n) ≡ file_at qs n
    go [] c e ih h = file_at-set_child_nil k (update ks f c) n
    go (q ∷ qs) c e ih h = file_at-set_child k q qs (update ks f c) n (λ same.
        ih qs (λ ls m p hm. h ls m (cc) (rw (e, get) hm))
        ∙ sym (file_at-some q qs n c (rw (← same) e)))

-- A write of the content is seen at its place only.
pub file_at-with_content :
    (ks qs : Loc) (text : Bytes) (n : Node)
    → qs ≢ ks
    → file_at qs (update ks (λ m. with_content m text) n) ≡ file_at qs n
file_at-with_content ks qs text n h =
    file_at-update ks (λ m. with_content m text) qs n (λ ls m p hm. go ls m p)
  where
    go : (ls : Loc) (m : Node) → qs ≡ ks ++ ls → file_at ls (with_content m text) ≡ file_at ls m
    go [] m p = absurd (h (p ∙ append-nil ks))
    go (l ∷ ls) (node d k t cs) p = unfold file_at in refl

-- Nothing is to be seen below a node that was just made.
file_at-new_file : (l : Bytes) (ls : Loc) (m : Bytes) → file_at (l ∷ ls) (new_file m) ≡ none
unfolding file_at lookup
file_at-new_file l ls m = refl

pub file_at-new_dir : (ls : Loc) (m : Bytes) → file_at ls (new_dir m) ≡ none
unfolding file_at lookup
file_at-new_dir [] m = refl
file_at-new_dir (l ∷ ls) m = refl

pub get_one : (k : Bytes) (n : Node) → get (k ∷ []) n ≡ lookup k (children n)
unfolding get
get_one k n = elim (Option-cases (lookup k (children n))) [
  | inl e ↦ rw (e, get)
  | inr (c, e) ↦ rw (e, get)
]

-- A name with nothing at it is not in the map of its parent.
pub lookup_free :
    (ks : Loc) (k : Bytes) (n m : Node)
    → get ks n ≡ some m
    → get (ks ++ k ∷ []) n ≡ none
    → lookup k (children m) ≡ none
lookup_free ks k n m hm free =
    sym (get_one k m) ∙ go (get ks n) hm (sym (get-append ks (k ∷ []) n) ∙ free)
  where
    go :
        (o : Option Node)
        → o ≡ some m
        → elim o [ none ↦ none | some x ↦ get (k ∷ []) x ] ≡ none
        → get (k ∷ []) m ≡ none
    go none e h = cc
    go (some x) e h = ground arith

-- A new file is seen at its place only.
pub file_at-new_file_ne :
    (ks qs : Loc) (k : Bytes) (n : Node)
    → qs ≢ ks ++ k ∷ []
    → get (ks ++ k ∷ []) n ≡ none
    → file_at qs (update ks (set_child k (new_file k)) n) ≡ file_at qs n
file_at-new_file_ne ks qs k n h free = file_at-update ks (set_child k (new_file k)) qs n go
  where
    go :
        (ls : Loc) (m : Node)
        → qs ≡ ks ++ ls
        → get ks n ≡ some m
        → file_at ls (set_child k (new_file k) m) ≡ file_at ls m
    go [] m p hm = file_at-set_child_nil k (new_file k) m
    go (l ∷ []) m p hm =
        file_at-set_child k l [] (new_file k) m
          (λ e. absurd (h (p ∙ ap (λ (x : Bytes). ks ++ x ∷ []) (sym e))))
    go (l ∷ l' ∷ ls) m p hm = file_at-set_child k l (l' ∷ ls) (new_file k) m (λ e.
        file_at-new_file l' ls k
        ∙ sym (file_at-none l (l' ∷ ls) m (rw (← e) (lookup_free ks k n m hm free))))
