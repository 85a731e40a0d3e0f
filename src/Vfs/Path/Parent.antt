-- ===== src/Vfs/Path/Parent.antt =====
-- Cutting a normal path at its last slash gives the names of the parent, and the last name.
use neon_world_os.Base.{
  List, [], ◌∷◌, ◌++◌, ◌≡◌, ◌≢◌, refl, Bytes, find_last_of-append, take-length-append,
  drop-length-append, All, All-append_left, All-append_right, append-nil, ◌⊎◌, inl, inr, ap,
}
use neon_world_os.Vfs.Path.{slash, render, segments, cut, flush, resolve}
use neon_world_os.Vfs.Path.Normal.{IsName, slashed, slashed-append, render-slashed, segments-render}
use neon_world_os.Vfs.Files.{dir_of, name_of}

-- A list of names is empty, or it has a last name.
pub snoc-cases {ℓ} :
    {A : Type ℓ} (xs : List A) → (xs ≡ []) ⊎ ((ys : List A) × (y : A) × (xs ≡ ys ++ y ∷ []))
snoc-cases [] = inl refl
snoc-cases (x ∷ xs) = elim (snoc-cases xs) [
  | inl e ↦ inr ([], x, ap (◌∷◌ x) e)
  | inr (ys, y, e) ↦ inr (x ∷ ys, y, ap (◌∷◌ x) e)
]

pub snoc-ne-nil {ℓ} : {A : Type ℓ} (xs : List A) (y : A) → xs ++ y ∷ [] ≢ []
snoc-ne-nil [] y = cc
snoc-ne-nil (x ∷ xs) y = cc

-- The text of a path with a last name.
pub render-snoc : (ks : List Bytes) (k : Bytes) → render (ks ++ k ∷ []) ≡ slashed ks ++ slash ∷ k
unfolding slashed
render-snoc ks k =
    rw (render-slashed (ks ++ k ∷ []) (snoc-ne-nil ks k), slashed-append ks (k ∷ []), append-nil)

module _ (ks : List Bytes) (k : Bytes) (hs : All IsName (ks ++ k ∷ [])) where
  pub snoc-IsName : IsName k
  snoc-IsName = (All-append_right IsName ks (k ∷ []) hs).0

  pub name_of-render : name_of (render (ks ++ k ∷ [])) ≡ k
  unfolding name_of
  name_of-render = rw (render-snoc ks k) (
      rw (find_last_of-append slash (slashed ks) k snoc-IsName.no_slash, name_of)
        (drop-length-append (slashed ks) slash k))

  dir_of-render : dir_of (render (ks ++ k ∷ [])) ≡ slashed ks
  unfolding dir_of
  dir_of-render = rw (render-snoc ks k) (
      rw (find_last_of-append slash (slashed ks) k snoc-IsName.no_slash, dir_of)
        (take-length-append (slashed ks) (slash ∷ k)))

  pub segments-dir_of : segments (dir_of (render (ks ++ k ∷ []))) ≡ ks
  segments-dir_of = rw dir_of-render (go ks (All-append_left IsName ks (k ∷ []) hs))
    where
      go : (ps : List Bytes) → All IsName ps → segments (slashed ps) ≡ ps
      go [] h = unfold slashed segments cut flush resolve in refl
      go (p ∷ ps) h = rw (← render-slashed (p ∷ ps) (cc)) (segments-render (p ∷ ps) h)
