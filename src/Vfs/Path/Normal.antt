-- ===== src/Vfs/Path/Normal.antt =====
-- The normal form of a path: what `NormalizePath` returns, and what it leaves alone.
use neon_world_os.Base.{
  List, [], ◌∷◌, ◌++◌, ◌≡◌, ◌≢◌, refl, sym, inl, inr, arith, append_assoc, append-nil, Bytes, ◌==◌,
  str_eq, str_eq_ne, str_eq-eq-false, All, All-append, All-drop_last, Lacks, Bool-cases,
}
use neon_world_os.Vfs.Path.{
  slash, dot, dot_dot, flush, cut, push_part, resolve, render_from, render, segments,
  normalize_path,
}

-- A name that may stand between the slashes of a normal path.
pub record IsName (s : Bytes) : Type 0 where
  pub nonempty : s ≢ []
  pub no_slash : Lacks slash s
  pub not_dot : s ≢ dot
  pub not_dot_dot : s ≢ dot_dot

-- A part that the loop over the characters may produce.
abbrev IsPart : Bytes → Type 0
IsPart s = (s ≢ []) × Lacks slash s

-- Every name behind a slash.
unfoldable pub slashed : List Bytes → Bytes
slashed [] = []
slashed (p ∷ ps) = slash ∷ (p ++ slashed ps)

pub slashed-append : (ps qs : List Bytes) → slashed (ps ++ qs) ≡ slashed ps ++ slashed qs
unfolding slashed
slashed-append [] qs = refl
slashed-append (p ∷ ps) qs = simp (slashed-append ps, append_assoc)

render_from-slashed :
    (p : Bytes) (ps : List Bytes) (out : Bytes)
    → render_from (p ∷ ps) out ≡ out ++ (p ++ slashed ps)
unfolding render_from slashed
render_from-slashed p [] out = rw append-nil
render_from-slashed p (q ∷ ps) out = simp (render_from-slashed q ps, append_assoc)

-- `render` writes `/` for the empty stack, and every name behind a slash otherwise.
pub render-slashed : (ps : List Bytes) → ps ≢ [] → render ps ≡ slashed ps
unfolding render slashed
render-slashed [] h = absurd (h refl)
render-slashed (p ∷ ps) h = render_from-slashed p ps (slash ∷ [])

flush-All :
    (parts : List Bytes) (cur : Bytes)
    → All IsPart parts
    → Lacks slash cur
    → All IsPart (flush parts cur)
unfolding flush
flush-All parts [] h l = h
flush-All parts (c ∷ cur) h l = All-append IsPart parts ((c ∷ cur) ∷ []) h (((cc), l), tt)

cut-All :
    (s : Bytes) (parts : List Bytes) (cur : Bytes)
    → All IsPart parts
    → Lacks slash cur
    → All IsPart (cut s parts cur)
unfolding cut
cut-All [] parts cur h l = flush-All parts cur h l
cut-All (c ∷ s) parts cur h l = elim (Bool-cases (c == slash)) [
  | inl e ↦ rw (e, cut) (cut-All s (flush parts cur) [] (flush-All parts cur h l) tt)
  | inr e ↦
      rw (e, cut)
        (cut-All s parts (cur ++ c ∷ []) h
          (All-append (λ b. b ≢ slash) cur (c ∷ []) l (ground arith, tt)))
]

push_part-All :
    (p : Bytes) (stack : List Bytes) → IsPart p → All IsName stack → All IsName (push_part p stack)
unfolding push_part
push_part-All [] stack (ne, l) h = absurd (ne refl)
push_part-All (c ∷ p) stack (ne, l) h = elim (Bool-cases (str_eq (c ∷ p) dot)) [
  | inl e ↦ rw (e, push_part) h
  | inr e ↦
      rw (e, push_part)
        (elim (Bool-cases (str_eq (c ∷ p) dot_dot)) [
          | inl e' ↦ rw e' (All-drop_last IsName stack h)
          | inr e' ↦ rw e' (
              All-append IsName stack ((c ∷ p) ∷ []) h (
                record {
                  nonempty = ne;
                  no_slash = l;
                  not_dot = str_eq-eq-false (c ∷ p) dot e;
                  not_dot_dot = str_eq-eq-false (c ∷ p) dot_dot e';
                },
                tt,
              ))
        ])
]

resolve-All :
    (parts stack : List Bytes)
    → All IsPart parts
    → All IsName stack
    → All IsName (resolve parts stack)
unfolding resolve
resolve-All [] stack hp hs = hs
resolve-All (p ∷ parts) stack (h, hp) hs = resolve-All parts _ hp (push_part-All p stack h hs)

-- The segments of every path are names.
pub segments-IsName : (path : Bytes) → All IsName (segments path)
unfolding segments
segments-IsName path = resolve-All _ [] (cut-All path [] [] tt tt) tt

push_part-name : (p : Bytes) (stack : List Bytes) → IsName p → push_part p stack ≡ stack ++ p ∷ []
unfolding push_part
push_part-name [] stack h = absurd (h.nonempty refl)
push_part-name (c ∷ p) stack h =
    rw (str_eq_ne (c ∷ p) dot h.not_dot, str_eq_ne (c ∷ p) dot_dot h.not_dot_dot)

resolve-names : (ps stack : List Bytes) → All IsName ps → resolve ps stack ≡ stack ++ ps
unfolding resolve
resolve-names [] stack h = sym (append-nil stack)
resolve-names (p ∷ ps) stack (hp, h) =
    rw (push_part-name p stack hp, resolve-names ps (stack ++ p ∷ []) h, append_assoc)

cut-part :
    (p s : Bytes) (parts : List Bytes) (cur : Bytes)
    → Lacks slash p
    → cut (p ++ s) parts cur ≡ cut s parts (cur ++ p)
unfolding cut
cut-part [] s parts cur h = rw append-nil
cut-part (c ∷ p) s parts cur (hc, h) =
    ground (arith, cut-part p s parts (cur ++ c ∷ []) h, append_assoc cur (c ∷ []) p)

flush-name : (parts : List Bytes) (p : Bytes) → p ≢ [] → flush parts p ≡ parts ++ p ∷ []
unfolding flush
flush-name parts [] h = absurd (h refl)
flush-name parts (c ∷ p) h = refl

cut-slashed :
    (ps parts : List Bytes) (cur : Bytes)
    → All IsName ps
    → cut (slashed ps) parts cur ≡ flush parts cur ++ ps
unfolding cut slashed
cut-slashed [] parts cur h = sym (append-nil _)
cut-slashed (p ∷ ps) parts cur (hp, h) = rw (
  cut-part p (slashed ps) (flush parts cur) [] hp.no_slash,
  cut-slashed ps (flush parts cur) p h,
  flush-name (flush parts cur) p hp.nonempty,
  append_assoc,
)

-- A path that is rendered from names stands for these names.
pub segments-render : (ps : List Bytes) → All IsName ps → segments (render ps) ≡ ps
unfolding segments flush
segments-render [] h = unfold render render_from cut flush resolve in refl
segments-render (p ∷ ps) h =
    rw (render-slashed (p ∷ ps) (cc), cut-slashed (p ∷ ps) [] [] h) (resolve-names (p ∷ ps) [] h)

-- `NormalizePath` is idempotent: the operations may normalise a path twice.
pub normalize_path_idem :
    (path : Bytes) → normalize_path (normalize_path path) ≡ normalize_path path
unfolding normalize_path
normalize_path_idem path = rw (segments-render (segments path) (segments-IsName path))

-- A path and its normal form name the same node.
pub segments-normalize_path : (path : Bytes) → segments (normalize_path path) ≡ segments path
unfolding normalize_path
segments-normalize_path path = segments-render (segments path) (segments-IsName path)

pub render-normalize_path : (path : Bytes) → normalize_path path ≡ render (segments path)
unfolding normalize_path
render-normalize_path path = refl
