-- ===== src/Vfs/Files/Placed.antt =====
-- The tree after a write, by recursion over the names of the path.
use neon_world_os.Base.{
  [], ◌∷◌, ◌++◌, none, some, ◌≡◌, refl, sym, ap, ◌∙◌, inl, inr, arith, Bytes, str_eq_self,
  Option-cases,
}
use neon_world_os.Vfs.Tree.{
  Node, children, with_content, new_file, set_child, lookup, Loc, get, update,
}
use neon_world_os.Vfs.Tree.Map.{put-put}
use neon_world_os.Vfs.Tree.View.{update-some, lookup-set_child}
use neon_world_os.Vfs.Tree.Used.{get_below}
use neon_world_os.Vfs.Walk.{child_or_new}
use neon_world_os.Vfs.Walk.Laws.{ensure}
use neon_world_os.Vfs.Walk.Ensure.{ensure_step}
use neon_world_os.Vfs.Files.{fill}
use neon_world_os.Vfs.Files.Writes.{made}

-- The file at the end of the path, made with its name if it is not there.
unfoldable pub file_or_new : Bytes → Node → Node
file_or_new k n = elim (lookup k (children n)) [ none ↦ new_file k | some c ↦ c ]

-- The tree in which the node at these names holds the text: a directory that is missing on the way is made,
-- with its name and nothing else in it, and nothing but the nodes on the way is replaced.
unfoldable pub placed : Loc → Bytes → Node → Node
unfolding file_or_new
placed [] text n = with_content n text
placed (k ∷ []) text n = set_child k (with_content (file_or_new k n) text) n
placed (k ∷ j ∷ ks) text n = set_child k (placed (j ∷ ks) text (child_or_new k n)) n

child_or_new-some : (k : Bytes) (n c : Node) → lookup k (children n) ≡ some c → child_or_new k n ≡ c
unfolding child_or_new
child_or_new-some k n c e = rw (e, child_or_new)

file_or_new-some : (k : Bytes) (n c : Node) → lookup k (children n) ≡ some c → file_or_new k n ≡ c
unfolding file_or_new
file_or_new-some k n c e = rw (e, file_or_new)

-- A file that is there is filled.
pub fill-placed :
    (ks : Loc) (text : Bytes) (n m : Node) → get ks n ≡ some m → fill ks text n ≡ placed ks text n
unfolding fill placed get
fill-placed [] text n m h = unfold update in refl
fill-placed (k ∷ []) text n m h = elim (Option-cases (lookup k (children n))) [
  | inl e ↦ absurd (ground (arith, e, h))
  | inr (c, e) ↦
      update-some k [] (λ x. with_content x text) c n e
      ∙ (unfold update in
          ap (λ (x : Node). set_child k (with_content x text) n) (sym (file_or_new-some k n c e)))
]
fill-placed (k ∷ j ∷ ks) text n m h = elim (Option-cases (lookup k (children n))) [
  | inl e ↦ absurd (ground (arith, e, h))
  | inr (c, e) ↦
      update-some k (j ∷ ks) (λ x. with_content x text) c n e
      ∙ ap (λ (x : Node). set_child k x n)
          (fill-placed (j ∷ ks) text c m (get_below k (j ∷ ks) n c m e h)
            ∙ ap (placed (j ∷ ks) text) (sym (child_or_new-some k n c e)))
]

set_child-set_child : (k : Bytes) (x y n : Node) → set_child k x (set_child k y n) ≡ set_child k x n
unfolding set_child
set_child-set_child k x y (Node.node d m t cs) = ap (Node.node d m t) (put-put k x y cs)

-- A write behind a child that was just set.
update-set_child :
    (k : Bytes) (ks : Loc) (f : Node → Node) (c n : Node)
    → update (k ∷ ks) f (set_child k c n) ≡ set_child k (update ks f c) n
update-set_child k ks f c n =
    update-some k ks f c (set_child k c n) (lookup-set_child k k c n ∙ (rw (str_eq_self k) refl))
    ∙ set_child-set_child k (update ks f c) c n

placed-snoc :
    (k : Bytes) (ks : Loc) (b text : Bytes) (n : Node)
    → placed (k ∷ (ks ++ b ∷ [])) text n
      ≡ set_child k (placed (ks ++ b ∷ []) text (child_or_new k n)) n
unfolding placed
placed-snoc k [] b text n = refl
placed-snoc k (j ∷ ks) b text n = refl

get-set_child : (k : Bytes) (ks : Loc) (c n : Node) → get (k ∷ ks) (set_child k c n) ≡ get ks c
unfolding get
get-set_child k ks c n = rw (get, lookup-set_child k k c n) (rw (str_eq_self k) refl)

file_or_new-none : (b : Bytes) (n : Node) → get (b ∷ []) n ≡ none → file_or_new b n ≡ new_file b
unfolding get file_or_new
file_or_new-none b n free = elim (Option-cases (lookup b (children n))) [
  | inl e ↦ rw (e, file_or_new)
  | inr (c, e) ↦ absurd (ground (arith, e, free))
]

-- In the directory itself.
made-placed_here :
    (b text : Bytes) (n : Node)
    → get (b ∷ []) n ≡ none
    → fill (b ∷ []) text (made [] b n) ≡ placed (b ∷ []) text n
unfolding fill placed update
made-placed_here b text n free =
    update-set_child b [] (λ x. with_content x text) (new_file b) n
    ∙ ap (λ (x : Node). set_child b (with_content x text) n) (sym (file_or_new-none b n free))

-- A file that is made behind `EnsureDir`, and then filled.
pub made-placed :
    (ks : Loc) (b text : Bytes) (n r : Node)
    → ensure ks n ≡ some r
    → get (ks ++ b ∷ []) r ≡ none
    → fill (ks ++ b ∷ []) text (made ks b r) ≡ placed (ks ++ b ∷ []) text n
unfolding fill
made-placed [] b text n r e free =
    let same : r ≡ n = unfold ensure in ground (arith, e) in
    ap (λ (x : Node). fill (b ∷ []) text (made [] b x)) same
    ∙ made-placed_here b text n (ap (get (b ∷ [])) (sym same) ∙ free)
made-placed (k ∷ ks) b text n r e free =
    let (c, d, e', p) = ensure_step k ks n r e in
    let below : get (ks ++ b ∷ []) c ≡ none =
      sym (get-set_child k (ks ++ b ∷ []) c n) ∙ ap (get (k ∷ (ks ++ b ∷ []))) (sym p) ∙ free in
    rw p (
      ap (fill (k ∷ (ks ++ b ∷ [])) text) (update-set_child k ks (set_child b (new_file b)) c n)
      ∙ update-set_child k (ks ++ b ∷ []) (λ x. with_content x text) (made ks b c) n
      ∙ ap (λ (x : Node). set_child k x n) (made-placed ks b text (child_or_new k n) c e' below)
      ∙ sym (placed-snoc k ks b text n))
