-- ===== src/Util.antt =====
-- `Split` and `Join` of src/util.cpp.
use neon_world_os.Base.{
  ℕ, true, false, List, [], ◌∷◌, ◌++◌, ◌≡◌, ◌≢◌, refl, sym, ap, arith, append_assoc, append-nil,
  Bytes, ◌==◌, All, All-append, Lacks, Bool-cases, inl, inr,
}

-- `if (!cur.empty()) out.push_back(cur)`.
unfoldable pub push_part : List Bytes → Bytes → List Bytes
push_part out [] = out
push_part out (c ∷ cur) = out ++ (c ∷ cur) ∷ []

-- The loop of `Split` over the characters, over `out` and `cur`.
unfoldable pub split_from : ℕ → Bytes → List Bytes → Bytes → List Bytes
unfolding push_part
split_from delim [] out cur = push_part out cur
split_from delim (c ∷ s) out cur = elim (c == delim) [
  | true ↦ split_from delim s (push_part out cur) []
  | false ↦ split_from delim s out (cur ++ c ∷ [])
]

unfoldable pub split : Bytes → ℕ → List Bytes
unfolding split_from
split s delim = split_from delim s [] []

-- The loop of `Join`: the delimiter stands before every part but the first.
unfoldable pub join_from : List Bytes → Bytes → Bytes → Bytes
join_from [] delim out = out
join_from (p ∷ parts) delim out = join_from parts delim (out ++ (delim ++ p))

unfoldable pub join : List Bytes → Bytes → Bytes
unfolding join_from
join [] delim = []
join (p ∷ parts) delim = join_from parts delim p

-- A part that survives a round trip: not empty, and free of the delimiter.
abbrev pub IsPart : ℕ → Bytes → Type 0
IsPart delim p = (p ≢ []) × Lacks delim p

-- The parts, each behind the delimiter.
unfoldable pub delimited : ℕ → List Bytes → Bytes
delimited delim [] = []
delimited delim (p ∷ ps) = delim ∷ (p ++ delimited delim ps)

pub join_from-delimited :
    (delim : ℕ) (ps : List Bytes) (out : Bytes)
    → join_from ps (delim ∷ []) out ≡ out ++ delimited delim ps
unfolding join_from delimited
join_from-delimited delim [] out = sym (append-nil out)
join_from-delimited delim (p ∷ ps) out = simp (join_from-delimited delim ps, append_assoc)

split_from-part :
    (delim : ℕ) (p s : Bytes) (out : List Bytes) (cur : Bytes)
    → Lacks delim p
    → split_from delim (p ++ s) out cur ≡ split_from delim s out (cur ++ p)
unfolding split_from
split_from-part delim [] s out cur h = rw append-nil
split_from-part delim (c ∷ p) s out cur (hc, h) =
    ground (arith, split_from-part delim p s out (cur ++ c ∷ []) h, append_assoc cur (c ∷ []) p)

pub push_part-part : (out : List Bytes) (p : Bytes) → p ≢ [] → push_part out p ≡ out ++ p ∷ []
unfolding push_part
push_part-part out [] h = absurd (h refl)
push_part-part out (c ∷ p) h = refl

split_from_delim :
    (delim : ℕ) (s : Bytes) (out : List Bytes) (cur : Bytes)
    → split_from delim (delim ∷ s) out cur ≡ split_from delim s (push_part out cur) []
unfolding split_from
split_from_delim delim s out cur = ground arith

split_from-delimited :
    (delim : ℕ) (ps out : List Bytes) (cur : Bytes)
    → All (IsPart delim) ps
    → split_from delim (delimited delim ps) out cur ≡ push_part out cur ++ ps
unfolding delimited
split_from-delimited delim [] out cur h = unfold split_from in sym (append-nil _)
split_from-delimited delim (p ∷ ps) out cur ((ne, l), h) = rw (
  split_from_delim delim,
  split_from-part delim p _ (push_part out cur) [] l,
  split_from-delimited delim ps (push_part out cur) p h,
  push_part-part (push_part out cur) p ne,
  append_assoc,
)

-- Splitting a join gives the parts back, if none of them is empty or holds the delimiter.
pub split-join :
    (delim : ℕ) (ps : List Bytes) → All (IsPart delim) ps → split (join ps (delim ∷ [])) delim ≡ ps
unfolding split join push_part
split-join delim [] h = refl
split-join delim (p ∷ ps) ((ne, l), h) =
    rw
      (
        join_from-delimited delim ps p,
        split_from-part delim p (delimited delim ps) [] [] l,
        split_from-delimited delim ps [] p h,
      )
      (ap (λ (xs : List Bytes). xs ++ ps) (push_part-part [] p ne))

push_part-All :
    (delim : ℕ) (out : List Bytes) (cur : Bytes)
    → All (IsPart delim) out
    → Lacks delim cur
    → All (IsPart delim) (push_part out cur)
unfolding push_part
push_part-All delim out [] h l = h
push_part-All delim out (c ∷ cur) h l =
    All-append (IsPart delim) out ((c ∷ cur) ∷ []) h (((cc), l), tt)

split_from-All :
    (delim : ℕ) (s : Bytes) (out : List Bytes) (cur : Bytes)
    → All (IsPart delim) out
    → Lacks delim cur
    → All (IsPart delim) (split_from delim s out cur)
unfolding split_from
split_from-All delim [] out cur h l = push_part-All delim out cur h l
split_from-All delim (c ∷ s) out cur h l = elim (Bool-cases (c == delim)) [
  | inl e ↦
      rw (e, split_from)
        (split_from-All delim s (push_part out cur) [] (push_part-All delim out cur h l) tt)
  | inr e ↦
      rw (e, split_from)
        (split_from-All delim s out (cur ++ c ∷ []) h
          (All-append (λ b. b ≢ delim) cur (c ∷ []) l (ground arith, tt)))
]

-- No part of a split is empty or holds the delimiter.
pub split-IsPart : (s : Bytes) (delim : ℕ) → All (IsPart delim) (split s delim)
unfolding split
split-IsPart s delim = split_from-All delim s [] [] tt tt
