-- ===== src/Shell/Index.antt =====
-- `index_add_path_`, `index_remove_path_` and `parse_duration_s_` of src/shell.cpp. A set of paths is a
-- list without a path twice.
use neon_world_os.Base.{
  ℕ, ◌+◌, ◌-◌, ◌*◌, Bool, true, false, ◌&&◌, ◌||◌, List, [], ◌∷◌, ◌++◌, Option, none, some, Bytes,
  codes, if◌then◌else◌, ◌==◌, leb, str_eq, Dict, find, assign,
}
use neon_world_os.Config.{to_lower}

-- `std::isalnum` in the C locale.
unfoldable pub is_digit : ℕ → Bool
is_digit c = leb b'0' c && leb c b'9'

unfoldable pub is_alnum : ℕ → Bool
unfolding is_digit
is_alnum c = is_digit c || ((leb b'a' c && leb c b'z') || (leb b'A' c && leb c b'Z'))

abbrev pub has_path : Bytes → List Bytes → Bool
has_path p [] = false
has_path p (q ∷ qs) = if str_eq p q then true else has_path p qs

-- `insert` and `erase` of the set of a word.
unfoldable pub insert_path : Bytes → List Bytes → List Bytes
insert_path p paths = if has_path p paths then paths else p ∷ paths

unfoldable pub erase_path : Bytes → List Bytes → List Bytes
erase_path p [] = []
erase_path p (q ∷ qs) = if str_eq p q then erase_path p qs else q ∷ erase_path p qs

abbrev pub paths_of : Option (List Bytes) → List Bytes
paths_of none = []
paths_of (some paths) = paths

-- `flush`: the word and the index.
unfoldable pub flush_word : Bytes → Bytes → Dict (List Bytes) → Dict (List Bytes)
unfolding insert_path
flush_word path [] index = index
flush_word path (c ∷ w) index =
    assign (c ∷ w) (insert_path path (paths_of (find (c ∷ w) index))) index

-- The loop over the content, over `w`.
unfoldable pub index_from : Bytes → Bytes → Bytes → Dict (List Bytes) → Dict (List Bytes)
unfolding flush_word is_alnum to_lower
index_from path [] w index = flush_word path w index
index_from path (c ∷ s) w index = elim (is_alnum c) [
  | true ↦ index_from path s (w ++ to_lower c ∷ []) index
  | false ↦ index_from path s [] (flush_word path w index)
]

unfoldable pub index_add_path : Bytes → Bytes → Dict (List Bytes) → Dict (List Bytes)
unfolding index_from
index_add_path path content index = index_from path content [] index

unfoldable pub index_remove_path : Bytes → Dict (List Bytes) → Dict (List Bytes)
unfolding erase_path
index_remove_path path [] = []
index_remove_path path ((w, paths) ∷ index) =
    (w, erase_path path paths) ∷ index_remove_path path index

-- `t` of `parse_duration_s_`.
unfoldable pub squeezed : Bytes → Bytes
unfolding to_lower
squeezed [] = []
squeezed (c ∷ s) = if c == 32 then squeezed s else to_lower c ∷ squeezed s

-- The loop over the digits, and what is behind them; the number is taken to fit into `long long`.
unfoldable pub leading_number : Bytes → ℕ → ℕ × Bytes
unfolding is_digit
leading_number [] num = (num, [])
leading_number (c ∷ t) num = elim (is_digit c) [
  | true ↦ leading_number t (num * 10 + (c - b'0'))
  | false ↦ (num, c ∷ t)
]

unfoldable pub with_unit : ℕ × Bytes → ℕ
with_unit (num, u) =
    if str_eq u (codes "h")
    then num * 3600
    else if str_eq u (codes "m")
    then num * 60
    else if str_eq u (codes "d")
    then num * 86400
    else num

unfoldable pub parse_duration : Bytes → ℕ
unfolding with_unit leading_number squeezed
parse_duration s = with_unit (leading_number (squeezed s) 0)
