-- ===== src/Vfs/Walk/Ensure.antt =====
-- What `EnsureDir` changes: it adds empty directories, and no file comes, goes or changes.
use neon_world_os.Base.{
  true, [], ◌∷◌, ◌++◌, none, some, ◌≡◌, refl, sym, ap, ◌∙◌, inl, inr, ◌⊎◌, arith, Bytes,
  str_eq_self, Option-cases,
}
use neon_world_os.Vfs.Tree.{Node, is_dir, children, set_child, new_dir, lookup, Loc, get, calc_used}
use neon_world_os.Vfs.Tree.View.{
  file_at, file_at-some, file_at-none, file_at-set_child, file_at-set_child_nil, file_at-new_dir,
  lookup-set_child,
}
use neon_world_os.Vfs.Tree.Used.{get_below, used-set_child_old, used-set_child_new}
use neon_world_os.Vfs.Walk.{child_or_new}
use neon_world_os.Vfs.Walk.Laws.{ensure, set_child_old}

-- One step of a successful `ensure`.
pub ensure_step :
    (k : Bytes) (ks : Loc) (n r : Node)
    → ensure (k ∷ ks) n ≡ some r
    → (c : Node) × (is_dir (child_or_new k n) ≡ true)
      × (ensure ks (child_or_new k n) ≡ some c)
      × (r ≡ set_child k c n)
unfolding ensure
ensure_step k ks n r h = elim (Option-cases (ensure ks (child_or_new k n))) [
  | inl e ↦ absurd (ground (arith, e))
  | inr (c, e) ↦ (c, ground (arith, e), e, ground (arith, e))
]

pub child_or_new_old :
    (k : Bytes) (n c : Node) → lookup k (children n) ≡ some c → child_or_new k n ≡ c
unfolding child_or_new
child_or_new_old k n c e = rw (e, child_or_new)

child_or_new_new :
    (k : Bytes) (n : Node) → lookup k (children n) ≡ none → child_or_new k n ≡ new_dir k
unfolding child_or_new
child_or_new_new k n e = rw (e, child_or_new)

file_at-child_or_new :
    (k : Bytes) (qs : Loc) (n : Node) → file_at qs (child_or_new k n) ≡ file_at (k ∷ qs) n
file_at-child_or_new k qs n = elim (Option-cases (lookup k (children n))) [
  | inl e ↦ rw (child_or_new_new k n e) (file_at-new_dir qs k ∙ sym (file_at-none k qs n e))
  | inr (c, e) ↦ rw (child_or_new_old k n c e) (sym (file_at-some k qs n c e))
]

-- No file comes, goes or changes.
pub file_at-ensure : (ks qs : Loc) (n r : Node) → ensure ks n ≡ some r → file_at qs r ≡ file_at qs n
file_at-ensure [] qs n r h = unfold ensure in ground arith
file_at-ensure (k ∷ ks) [] n r h =
    let (c, d, e, p) = ensure_step k ks n r h in rw p (file_at-set_child_nil k c n)
file_at-ensure (k ∷ ks) (q ∷ qs) n r h =
    let (c, d, e, p) = ensure_step k ks n r h in
    rw p (
      file_at-set_child k q qs c n (λ same.
        file_at-ensure ks qs (child_or_new k n) c e
        ∙ file_at-child_or_new k qs n
        ∙ ap (λ x. file_at (x ∷ qs) n) same))

-- The directory is there afterwards.
pub get-ensure :
    (ks : Loc) (n r : Node)
    → is_dir n ≡ true
    → ensure ks n ≡ some r
    → (d : Node) × (get ks r ≡ some d) × (is_dir d ≡ true)
unfolding get
get-ensure [] n r dir h = (n, unfold ensure in ground arith, dir)
get-ensure (k ∷ ks) n r dir h =
    let (c, cd, e, p) = ensure_step k ks n r h in
    let (d, g, dd) = get-ensure ks (child_or_new k n) c cd e in
    (d, rw (p, lookup-set_child k k c n, get) (rw (str_eq_self k) g), dd)

get-new_dir : (ks : Loc) (k m : Bytes) → get (ks ++ k ∷ []) (new_dir m) ≡ none
unfolding get lookup
get-new_dir [] k m = refl
get-new_dir (l ∷ ks) k m = refl

get-child_or_new :
    (k : Bytes) (ks : Loc) (b : Bytes) (n : Node)
    → get (ks ++ b ∷ []) (child_or_new k n) ≡ get (k ∷ (ks ++ b ∷ [])) n
unfolding get
get-child_or_new k ks b n = elim (Option-cases (lookup k (children n))) [
  | inl e ↦ rw (child_or_new_new k n e) (get-new_dir ks b k ∙ (rw (e, get)))
  | inr (c, e) ↦ rw (child_or_new_old k n c e) (rw (e, get))
]

-- Nothing new stands below the directory.
pub get-ensure_below :
    (ks : Loc) (b : Bytes) (n r : Node)
    → ensure ks n ≡ some r
    → get (ks ++ b ∷ []) n ≡ none
    → get (ks ++ b ∷ []) r ≡ none
unfolding get
get-ensure_below [] b n r h free = unfold ensure in ground arith
get-ensure_below (k ∷ ks) b n r h free =
    let (c, cd, e, p) = ensure_step k ks n r h in
    rw (p, lookup-set_child k k c n, get)
      (rw (str_eq_self k)
        (get-ensure_below ks b (child_or_new k n) c e (get-child_or_new k ks b n ∙ free)))

-- The bytes in use stay the same.
pub used-ensure : (ks : Loc) (n r : Node) → ensure ks n ≡ some r → calc_used r ≡ calc_used n
used-ensure [] n r h = unfold ensure in ground arith
used-ensure (k ∷ ks) n r h =
    let (c, cd, e, p) = ensure_step k ks n r h in
    let ih = used-ensure ks (child_or_new k n) c e in
    elim (Option-cases (lookup k (children n))) [
      | inl m ↦ rw p (
          omega (
            arith,
            used-set_child_new k c n m,
            ih,
            ap calc_used (child_or_new_new k n m),
            used-new_dir k,
          ))
      | inr (o, m) ↦
          rw p (
            omega
              (arith, used-set_child_old k c o n m, ih, ap calc_used (child_or_new_old k n o m)))
    ]
  where
    used-new_dir : (k : Bytes) → calc_used (new_dir k) ≡ 0
    used-new_dir k = unfold calc_used in refl

-- What is there already is not touched.
pub ensure_there :
    (ks : Loc) (n d : Node) → get ks n ≡ some d → (r : Node) → ensure ks n ≡ some r → r ≡ n
ensure_there [] n d g r h = unfold ensure in ground arith
ensure_there (k ∷ ks) n d g r h = elim (Option-cases (lookup k (children n))) [
  | inl m ↦ absurd (unfold get in ground arith)
  | inr (o, m) ↦
      let (c, cd, e, p) = ensure_step k ks n r h in
      let old = child_or_new_old k n o m in
      let same = ensure_there ks (child_or_new k n) d (rw old (get_below k ks n o d m g)) c e in
      p ∙ ap (λ x. set_child k x n) (same ∙ old) ∙ set_child_old k o n m
]

-- The directory is there afterwards, or the walk was of no step.
pub ensure-cases :
    (ks : Loc) (n r : Node)
    → ensure ks n ≡ some r
    → ((d : Node) × (get ks r ≡ some d) × (is_dir d ≡ true)) ⊎ (r ≡ n)
unfolding get
ensure-cases [] n r h = inr (unfold ensure in ground arith)
ensure-cases (k ∷ ks) n r h =
    let (c, cd, e, p) = ensure_step k ks n r h in
    let (d, g, dd) = get-ensure ks (child_or_new k n) c cd e in
    inl (d, rw p (rw (lookup-set_child k k c n, get) (rw (str_eq_self k) g)), dd)
