-- ===== src/Shell/Distance/Edit.antt =====
-- The table of `levenshtein_` against the recursion for the edit distance.
use neon_world_os.Base.{
  ℕ, suc, ◌+◌, min, List, [], ◌∷◌, Bytes, length, if◌then◌else◌, ◌==◌, ◌≡◌, refl, ap, sym, ◌∙◌,
}
use neon_world_os.Shell.Distance.{first_row, next_row, last_or, rows, levenshtein}

-- The distance of `a` and the rest `s`, whose own distances are `f`, to a text.
unfoldable pub edit_with : ℕ → (Bytes → ℕ) → ℕ → Bytes → ℕ
edit_with a f n [] = n
edit_with a f n (b ∷ t) =
    if a == b then f t else min (f t + 1) (min (f (b ∷ t) + 1) (edit_with a f n t + 1))

-- How many insertions, deletions and replacements turn one text into the other.
unfoldable pub edit : Bytes → Bytes → ℕ
unfolding edit_with
edit [] t = length t
edit (a ∷ s) t = edit_with a (edit s) (suc (length s)) t

-- A text turned round, before another.
unfoldable pub reverse_onto : Bytes → Bytes → Bytes
reverse_onto [] t = t
reverse_onto (a ∷ s) t = reverse_onto s (a ∷ t)

-- A row of the table: the distances of `s` to the prefixes of `b`, turned round, behind `q`.
row : Bytes → Bytes → Bytes → List ℕ
row s q [] = []
row s q (b ∷ bs) = edit s (b ∷ q) ∷ row s (b ∷ q) bs

first_row-row : (q bs : Bytes) → first_row (length q) bs ≡ row [] q bs
unfolding first_row row edit
first_row-row q [] = refl
first_row-row q (b ∷ bs) = ap (◌∷◌ (suc (length q))) (first_row-row (b ∷ q) bs)

next_row-row :
    (a : ℕ) (s q bs : Bytes)
    → next_row a bs (row s q bs) (edit s q) (edit (a ∷ s) q) ≡ row (a ∷ s) q bs
unfolding next_row row edit
next_row-row a s q [] = refl
next_row-row a s q (b ∷ bs) = ap (◌∷◌ (edit (a ∷ s) (b ∷ q))) (next_row-row a s (b ∷ q) bs)

last_or-row : (s q bs : Bytes) → last_or (edit s q) (row s q bs) ≡ edit s (reverse_onto bs q)
unfolding last_or row reverse_onto
last_or-row s q [] = refl
last_or-row s q (b ∷ bs) = last_or-row s (b ∷ q) bs

edit-nil : (s : Bytes) → edit s [] ≡ length s
unfolding edit
edit-nil [] = refl
edit-nil (a ∷ s) = refl

next_row-length :
    (a : ℕ) (s bs : Bytes)
    → next_row a bs (row s [] bs) (length s) (suc (length s)) ≡ row (a ∷ s) [] bs
unfolding edit
next_row-length a s bs =
    ap (λ (n : ℕ). next_row a bs (row s [] bs) n (suc (length s))) (sym (edit-nil s))
    ∙ next_row-row a s [] bs

rows-row :
    (a b s : Bytes) → rows a b (length s) (row s [] b) ≡ edit (reverse_onto a s) (reverse_onto b [])
unfolding rows reverse_onto
rows-row [] b s = ap (λ (d : ℕ). last_or d (row s [] b)) (sym (edit-nil s)) ∙ last_or-row s [] b
rows-row (x ∷ a) b s = ap (rows a b (suc (length s))) (next_row-length x s b) ∙ rows-row a b (x ∷ s)

-- `levenshtein_`, which keeps one row of the table, computes the edit distance of the two texts, both
-- read from the end.
pub levenshtein-edit :
    (a b : Bytes) → levenshtein a b ≡ edit (reverse_onto a []) (reverse_onto b [])
unfolding levenshtein
levenshtein-edit a b = ap (rows a b 0) (first_row-row [] b) ∙ rows-row a b []
