-- ===== src/Config/Load.antt =====
-- What `neon_load_config` makes of the lines of a file, and which file it reads.
use neon_world_os.Base.{
  ℕ, suc, true, false, List, [], ◌∷◌, ◌++◌, some, ◌≡◌, ◌≢◌, refl, sym, ap, ◌∙◌, arith, Bytes,
  length, take, take-length-append, drop, drop-length-append, find_byte, All, All-append, Lacks,
  Dict, assign, append_assoc, append-nil,
}
use neon_world_os.Shell.Vars.Templates.{find_byte-append}
use neon_world_os.Config.{
  is_white, trim, lower, parts, parts_from, is_skipped, put_entry, load_line, load_lines, load_text,
}
use neon_world_os.Config.Trim.{IsWhite, IsTrimmed, trim_between, join-IsTrimmed}

-- A line that sets a key: with white space before the key, on both sides of `=`, and behind the value.
pub record Entry : Type 0 where
  pub before : Bytes
  pub key : Bytes
  pub left : Bytes
  pub right : Bytes
  pub value : Bytes
  pub behind : Bytes

abbrev pub inner : Entry → Bytes
inner e = e.key ++ ((e.left ++ b'=' ∷ e.right) ++ e.value)

abbrev pub line_of : Entry → Bytes
line_of e = e.before ++ (inner e ++ e.behind)

-- Key and value begin and end with no white space, and the key is no comment and has no `=`; on a line.
pub record IsEntry (e : Entry) : Type 0 where
  pub white_before : IsWhite e.before
  pub white_left : IsWhite e.left
  pub white_right : IsWhite e.right
  pub white_behind : IsWhite e.behind
  pub trimmed_key : IsTrimmed e.key
  pub trimmed_value : IsTrimmed e.value
  pub no_comment : is_skipped e.key ≡ false
  pub no_equals : Lacks b'=' e.key
  pub one_line : Lacks 10 (line_of e)

abbrev pub text_of : List Entry → Bytes
text_of [] = []
text_of (e ∷ es) = line_of e ++ 10 ∷ text_of es

abbrev pub set_all : List Entry → Dict Bytes → Dict Bytes
set_all [] kv = kv
set_all (e ∷ es) kv = set_all es (assign (lower e.key) e.value kv)

white-Lacks : (w : Bytes) → IsWhite w → Lacks b'=' w
white-Lacks [] h = tt
white-Lacks (c ∷ w) (hc, h) = (no_equals c hc, white-Lacks w h)
  where
    no_equals : (c : ℕ) → is_white c ≡ true → c ≢ b'='
    no_equals c h e = unfold is_white in ground (arith, h, e)

is_skipped_append : (s t : Bytes) → is_skipped s ≡ false → is_skipped (s ++ t) ≡ false
unfolding is_skipped
is_skipped_append [] t h = absurd (cc)
is_skipped_append (c ∷ s) t h = h

module _ (e : Entry) (h : IsEntry e) where
  trim-line : trim (line_of e) ≡ inner e
  trim-line =
      trim_between e.before (inner e) e.behind h.white_before
        (join-IsTrimmed e.key (e.left ++ b'=' ∷ e.right) e.value h.trimmed_key h.trimmed_value)
        h.white_behind

  inner-split : inner e ≡ (e.key ++ e.left) ++ b'=' ∷ (e.right ++ e.value)
  inner-split = simp append_assoc

  equals_at : find_byte b'=' (inner e) ≡ some (length (e.key ++ e.left))
  equals_at =
      ap (find_byte b'=') inner-split
      ∙ find_byte-append b'=' (e.key ++ e.left) (e.right ++ e.value)
          (All-append (λ c. c ≢ b'=') e.key e.left h.no_equals (white-Lacks e.left h.white_left))

  key_of : trim (take (length (e.key ++ e.left)) (inner e)) ≡ e.key
  key_of =
      rw (inner-split, take-length-append (e.key ++ e.left))
        (trim_between [] e.key e.left tt h.trimmed_key h.white_left)

  value_of : trim (drop (suc (length (e.key ++ e.left))) (inner e)) ≡ e.value
  value_of =
      rw (inner-split, drop-length-append (e.key ++ e.left) b'=' (e.right ++ e.value))
        (ap (λ t. trim (e.right ++ t)) (sym (append-nil e.value))
          ∙ trim_between e.right e.value [] h.white_right h.trimmed_value tt)

  load_line-entry : (kv : Dict Bytes) → load_line (line_of e) kv ≡ assign (lower e.key) e.value kv
  unfolding load_line put_entry
  load_line-entry kv =
      rw
        (
          trim-line,
          is_skipped_append e.key ((e.left ++ b'=' ∷ e.right) ++ e.value) h.no_comment,
          equals_at,
        )
        (ap (λ k. assign (lower k) (trim (drop (suc (length (e.key ++ e.left))) (inner e))) kv)
            key_of
          ∙ ap (λ v. assign (lower e.key) v kv) value_of)

parts_from-part :
    (delim : ℕ) (p s cur : Bytes)
    → Lacks delim p
    → parts_from delim (p ++ delim ∷ s) cur ≡ (cur ++ p) ∷ parts_from delim s []
unfolding parts_from
parts_from-part delim [] s cur h = rw append-nil (ground arith)
parts_from-part delim (c ∷ p) s cur (hc, h) =
    ground (arith, parts_from-part delim p s (cur ++ c ∷ []) h, append_assoc cur (c ∷ []) p)

load_lines-parts :
    (es : List Entry) (kv : Dict Bytes)
    → All IsEntry es
    → load_lines (parts_from 10 (text_of es) []) kv ≡ set_all es kv
unfolding load_lines parts_from
load_lines-parts [] kv h = refl
load_lines-parts (e ∷ es) kv (he, h) =
    rw (parts_from-part 10 (line_of e) (text_of es) [] he.one_line) (
      ap (load_lines (parts_from 10 (text_of es) [])) (load_line-entry e he kv)
      ∙ load_lines-parts es (assign (lower e.key) e.value kv) h)

-- The text that sets keys to values, a line for each, with any white space around keys and values,
-- loads as these keys, in lower case, and these values, a later line over an earlier one, if keys and
-- values are not empty and begin and end with no white space, and keys have no `=` and do not begin
-- with `#`, `;` or `[`.
pub load_text-text_of : (es : List Entry) → All IsEntry es → load_text (text_of es) ≡ set_all es []
unfolding load_text parts
load_text-text_of es h = load_lines-parts es [] h
