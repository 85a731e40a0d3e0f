-- ===== src/Shell/Json/Reading.antt =====
-- A reader of JSON strings, and what `JsonEscape` and `JsonArray` write is read back.
use neon_world_os.Base.{
  ℕ, zero, suc, ◌+◌, ◌-◌, ◌*◌, ◌≤◌, true, false, ◌&&◌, ◌||◌, List, [], ◌∷◌, ◌++◌, Option, none,
  some, ◌≡◌, refl, ◌⊎◌, arith, Bytes, if◌then◌else◌, ◌==◌, ltb, leb, All, length, length-append,
  ◌<◌, append_assoc,
}
use mathlib.Core.Option
use neon_world_os.Shell.Json.{
  quote, backslash, escape_byte, escape_bytes, json_escape, more_items, json_items, json_array,
}

-- Where the reader of a string stands: in the text, behind a backslash, or with digits to read.
pub data Reader : Type 0 where
  in_text behind_backslash : Reader
  in_number : ℕ → ℕ → Reader

-- What a character behind a backslash stands for, but for `u`.
unfoldable pub meaning : ℕ → Option ℕ
meaning c =
    if (c == quote || c == backslash) || c == b'/'
    then some c
    else if c == b'b'
    then some 8
    else if c == b'f'
    then some 12
    else if c == b'n'
    then some 10
    else if c == b'r'
    then some 13
    else if c == b't'
    then some 9
    else none

unfoldable pub hex_value : ℕ → Option ℕ
hex_value c =
    if leb b'0' c && leb c b'9'
    then some (c - b'0')
    else if leb b'a' c && leb c b'f'
    then some (c - b'a' + 10)
    else if leb b'A' c && leb c b'F'
    then some (c - b'A' + 10)
    else none

abbrev pub push : ℕ → Option (Bytes × Bytes) → Option (Bytes × Bytes)
push c none = none
push c (some (t, rest)) = some (c ∷ t, rest)

-- The string up to its closing quote, and what is behind it. Behind `\u` stand four digits; the
-- numbers of them that are read are those of ASCII.
unfoldable pub read_string : Reader → Bytes → Option (Bytes × Bytes)
unfolding meaning hex_value
read_string r [] = none
read_string in_text (c ∷ s) = elim (c == quote) [
  | true ↦ some ([], s)
  | false ↦ elim (c == backslash) [
    | true ↦ read_string behind_backslash s
    | false ↦ elim (ltb c 32) [ true ↦ none | false ↦ push c (read_string in_text s) ]
  ]
]
read_string behind_backslash (c ∷ s) = elim (c == b'u') [
  | true ↦ read_string (in_number 3 0) s
  | false ↦ elim (meaning c) [ none ↦ none | some d ↦ push d (read_string in_text s) ]
]
read_string (in_number n acc) (c ∷ s) = elim (hex_value c) [
  | none ↦ none
  | some d ↦ elim n [
    | zero ↦ elim (ltb (acc * 16 + d) 128) [
      | true ↦ push (acc * 16 + d) (read_string in_text s)
      | false ↦ none
    ]
    | suc m ↦ read_string (in_number m (acc * 16 + d)) s
  ]
]

-- The items from the one that was read on.
unfoldable pub read_on :
    (Bytes → Option (List Bytes × Bytes)) → Option (Bytes × Bytes) → Option (List Bytes × Bytes)
read_on next none = none
read_on next (some (t, s)) = Option.map (λ (r : List Bytes × Bytes). (t ∷ r.0, r.1)) (next s)

-- The items behind the first, and the closing bracket; `none` also without fuel.
unfoldable pub read_more : ℕ → Bytes → Option (List Bytes × Bytes)
unfolding read_string read_on
read_more zero s = none
read_more (suc fuel) [] = none
read_more (suc fuel) (c ∷ s) = elim (c == b']') [
  | true ↦ some ([], s)
  | false ↦ elim (c == b',') [
    | false ↦ none
    | true ↦ elim s [
      | [] ↦ none
      | q ∷ s' ↦ elim (q == quote) [
        | false ↦ none
        | true ↦ read_on (read_more fuel) (read_string in_text s')
      ]
    ]
  ]
]

-- A byte that `JsonEscape` writes as JSON has it: no control character but those with a letter.
abbrev pub IsWritable : ℕ → Type 0
IsWritable c = (32 ≤ c) ⊎ ((8 ≤ c) × ((c ≤ 10) ⊎ ((12 ≤ c) × (c ≤ 13))))

read_string-escape_byte :
    (c : ℕ) (s : Bytes)
    → IsWritable c
    → read_string in_text (escape_byte c ++ s) ≡ push c (read_string in_text s)
unfolding read_string escape_byte meaning
read_string-escape_byte c s h = ground (arith, h)

read_string-escape_bytes :
    (t s : Bytes)
    → All IsWritable t
    → read_string in_text (escape_bytes t ++ quote ∷ s) ≡ some (t, s)
unfolding read_string escape_bytes
read_string-escape_bytes [] s h = refl
read_string-escape_bytes (c ∷ t) s (hc, h) = rw (
  append_assoc (escape_byte c) (escape_bytes t) (quote ∷ s),
  read_string-escape_byte c (escape_bytes t ++ quote ∷ s) hc,
  read_string-escape_bytes t s h,
)

-- An array of strings, and what is behind it.
unfoldable pub read_array : Bytes → Option (List Bytes × Bytes)
unfolding read_more read_on
read_array [] = none
read_array (o ∷ []) = none
read_array (o ∷ q ∷ s) = elim (o == b'[') [
  | false ↦ none
  | true ↦ elim (q == b']') [
    | true ↦ some ([], s)
    | false ↦ elim (q == quote) [
      | false ↦ none
      | true ↦ read_on (λ s'. read_more (suc (length s')) s') (read_string in_text s)
    ]
  ]
]

length-more_items : (items : List Bytes) → length items ≤ length (more_items items)
unfolding more_items json_escape
length-more_items [] = omega arith
length-more_items (t ∷ items) =
    rw
      (
        append_assoc (escape_bytes t) (quote ∷ []) (more_items items),
        length-append (escape_bytes t) (quote ∷ more_items items),
      )
      (omega (arith, length-more_items items))

read_more-more_items :
    (fuel : ℕ) (items : List Bytes) (s : Bytes)
    → All (All IsWritable) items
    → length items < fuel
    → read_more fuel (more_items items ++ b']' ∷ s) ≡ some (items, s)
unfolding read_more more_items json_escape
read_more-more_items zero items s h lt = absurd (omega arith)
read_more-more_items (suc fuel) [] s h lt = refl
read_more-more_items (suc fuel) (t ∷ items) s (ht, h) lt = rw (
  append_assoc (escape_bytes t) (quote ∷ []) (more_items items),
  append_assoc (escape_bytes t) (quote ∷ more_items items) (b']' ∷ s),
  read_string-escape_bytes t (more_items items ++ b']' ∷ s) ht,
  read_more-more_items fuel items s h (omega arith),
)

-- A reader of JSON reads the array that `JsonArray` writes back, to the items that were written, if no
-- item holds a control character but those that have a letter of their own behind the backslash.
pub read_array-json_array :
    (items : List Bytes) (s : Bytes)
    → All (All IsWritable) items
    → read_array (json_array items ++ s) ≡ some (items, s)
unfolding read_array json_array json_items json_escape
read_array-json_array [] s h = refl
read_array-json_array (t ∷ items) s (ht, h) = rw (
  append_assoc (escape_bytes t) (quote ∷ []) (more_items items),
  append_assoc (escape_bytes t) (quote ∷ more_items items) (b']' ∷ []),
  append_assoc (escape_bytes t) (quote ∷ more_items items ++ b']' ∷ []) s,
  append_assoc (more_items items) (b']' ∷ []) s,
  read_string-escape_bytes t (more_items items ++ b']' ∷ s) ht,
  read_more-more_items (suc (length (more_items items ++ b']' ∷ s))) items s h
      (rw (length-append (more_items items) (b']' ∷ s)) (omega (arith, length-more_items items))),
)
