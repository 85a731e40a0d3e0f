-- ===== src/Shell/Tokenize/Words.antt =====
-- How a word can be written so that `Tokenize` reads it back.
use neon_world_os.Base.{
  ℕ, true, false, List, [], ◌∷◌, ◌++◌, map, Bytes, ◌≡◌, ◌≢◌, refl, sym, arith, append_assoc,
  append-nil, All, Lacks,
}
use neon_world_os.Util.{push_part, push_part-part, join, delimited, join_from-delimited}
use neon_world_os.Shell.Tokenize.{
  backslash, single_quote, double_quote, space, tokenize_from, tokenize,
}

-- A piece of a word as it is typed.
pub data Piece : Type 0 where
  escaped : ℕ → Piece
  plain single double : Bytes → Piece

unfoldable pub typed : Piece → Bytes
typed (escaped c) = backslash ∷ c ∷ []
typed (plain t) = t
typed (single t) = single_quote ∷ (t ++ single_quote ∷ [])
typed (double t) = double_quote ∷ (t ++ double_quote ∷ [])

unfoldable pub meant : Piece → Bytes
meant (escaped c) = c ∷ []
meant (plain t) = t
meant (single t) = t
meant (double t) = t

-- A plain piece holds no character with a meaning, a quoted one neither its quote nor a backslash.
abbrev pub IsPiece : Piece → Type 0
IsPiece (escaped c) = Unit
IsPiece (plain t) =
    (Lacks backslash t × Lacks single_quote t) × (Lacks double_quote t × Lacks space t)
IsPiece (single t) = Lacks backslash t × Lacks single_quote t
IsPiece (double t) = Lacks backslash t × Lacks double_quote t

unfoldable pub typed_word : List Piece → Bytes
unfolding typed
typed_word [] = []
typed_word (p ∷ ps) = typed p ++ typed_word ps

unfoldable pub meant_word : List Piece → Bytes
unfolding meant
meant_word [] = []
meant_word (p ∷ ps) = meant p ++ meant_word ps

abbrev pub IsWord : List Piece → Type 0
IsWord ps = (meant_word ps ≢ []) × All IsPiece ps

tokenize_from-plain :
    (t s : Bytes) (out : List Bytes) (cur : Bytes)
    → IsPiece (plain t)
    → tokenize_from (t ++ s) out cur false false false
      ≡ tokenize_from s out (cur ++ t) false false false
unfolding tokenize_from
tokenize_from-plain [] s out cur h = rw append-nil
tokenize_from-plain (c ∷ t) s out cur (((hb, lb), (hs, ls)), ((hd, ld), (he, le))) = ground (
  arith,
  tokenize_from-plain t s out (cur ++ c ∷ []) ((lb, ls), (ld, le)),
  append_assoc cur (c ∷ []) t,
)

tokenize_from-single :
    (t s : Bytes) (out : List Bytes) (cur : Bytes)
    → IsPiece (single t)
    → tokenize_from (t ++ single_quote ∷ s) out cur true false false
      ≡ tokenize_from s out (cur ++ t) false false false
unfolding tokenize_from
tokenize_from-single [] s out cur h = rw append-nil
tokenize_from-single (c ∷ t) s out cur ((hb, lb), (hs, ls)) =
    ground
      (arith, tokenize_from-single t s out (cur ++ c ∷ []) (lb, ls), append_assoc cur (c ∷ []) t)

tokenize_from-double :
    (t s : Bytes) (out : List Bytes) (cur : Bytes)
    → IsPiece (double t)
    → tokenize_from (t ++ double_quote ∷ s) out cur false true false
      ≡ tokenize_from s out (cur ++ t) false false false
unfolding tokenize_from
tokenize_from-double [] s out cur h = rw append-nil
tokenize_from-double (c ∷ t) s out cur ((hb, lb), (hs, ls)) =
    ground
      (arith, tokenize_from-double t s out (cur ++ c ∷ []) (lb, ls), append_assoc cur (c ∷ []) t)

tokenize_from-typed :
    (p : Piece) (s : Bytes) (out : List Bytes) (cur : Bytes)
    → IsPiece p
    → tokenize_from (typed p ++ s) out cur false false false
      ≡ tokenize_from s out (cur ++ meant p) false false false
unfolding typed meant
tokenize_from-typed (escaped c) s out cur h = unfold tokenize_from in refl
tokenize_from-typed (plain t) s out cur h = tokenize_from-plain t s out cur h
tokenize_from-typed (single t) s out cur h =
    rw (append_assoc t (single_quote ∷ []) s)
      (unfold tokenize_from in tokenize_from-single t s out cur h)
tokenize_from-typed (double t) s out cur h =
    rw (append_assoc t (double_quote ∷ []) s)
      (unfold tokenize_from in tokenize_from-double t s out cur h)

tokenize_from-typed_word :
    (ps : List Piece) (s : Bytes) (out : List Bytes) (cur : Bytes)
    → All IsPiece ps
    → tokenize_from (typed_word ps ++ s) out cur false false false
      ≡ tokenize_from s out (cur ++ meant_word ps) false false false
unfolding typed_word meant_word
tokenize_from-typed_word [] s out cur h = rw append-nil
tokenize_from-typed_word (p ∷ ps) s out cur (hp, h) = rw (
  append_assoc (typed p) (typed_word ps) s,
  tokenize_from-typed p (typed_word ps ++ s) out cur hp,
  tokenize_from-typed_word ps s out (cur ++ meant p) h,
  append_assoc cur (meant p) (meant_word ps),
)

tokenize_from-delimited :
    (ws : List (List Piece)) (out : List Bytes) (cur : Bytes)
    → All IsWord ws
    → tokenize_from (delimited space (map typed_word ws)) out cur false false false
      ≡ push_part out cur ++ map meant_word ws
unfolding delimited tokenize_from push_part
tokenize_from-delimited [] out cur h = unfold tokenize_from in sym (append-nil _)
tokenize_from-delimited (w ∷ ws) out cur ((ne, hw), h) = rw (
  tokenize_from-typed_word w (delimited space (map typed_word ws)) (push_part out cur) [] hw,
  tokenize_from-delimited ws (push_part out cur) (meant_word w) h,
  push_part-part (push_part out cur) (meant_word w) ne,
  append_assoc,
)

-- `Tokenize` reads a line of words back, if each is typed as plain text, escaped characters and quoted
-- text in any order, means at least one character, and is separated from the next by a space; quoted text
-- holds neither its quote nor a backslash.
pub tokenize-join :
    (ws : List (List Piece))
    → All IsWord ws
    → tokenize (join (map typed_word ws) (space ∷ [])) ≡ map meant_word ws
unfolding tokenize join
tokenize-join [] h = unfold tokenize_from push_part in refl
tokenize-join (w ∷ ws) ((ne, hw), h) = rw (
  join_from-delimited space (map typed_word ws) (typed_word w),
  tokenize_from-typed_word w (delimited space (map typed_word ws)) [] [] hw,
  tokenize_from-delimited ws [] (meant_word w) h,
  push_part-part [] (meant_word w) ne,
)
