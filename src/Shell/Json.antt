-- ===== src/Shell/Json.antt =====
-- `JsonEscape` and `JsonArray` of src/shell.cpp. A block for `-l` is pasted into both, as into many
-- commands; here it names `a`, `out`, `toks` and `vfs_`, of which a static function has none, so it is
-- left out.
pub mod Reading
use neon_world_os.Base.{
  ℕ, ◌+◌, ◌-◌, ◌/◌, ◌%◌, Bool, List, [], ◌∷◌, ◌++◌, Bytes, if◌then◌else◌, ◌==◌, ltb,
}

abbrev pub quote : ℕ
quote = 34

abbrev pub backslash : ℕ
backslash = 92

-- A digit under `std::hex`.
unfoldable pub hex_digit : ℕ → ℕ
hex_digit d = if ltb d 10 then b'0' + d else b'a' + (d - 10)

-- A number below 32 under `std::hex`, without padding.
unfoldable pub short_hex : ℕ → Bytes
unfolding hex_digit
short_hex n = if ltb n 16 then hex_digit n ∷ [] else hex_digit (n / 16) ∷ hex_digit (n % 16) ∷ []

-- The loop's body.
unfoldable pub escape_byte : ℕ → Bytes
unfolding short_hex
escape_byte c =
    if c == quote
    then backslash ∷ quote ∷ []
    else if c == backslash
    then backslash ∷ backslash ∷ []
    else if c == 8
    then backslash ∷ b'b' ∷ []
    else if c == 12
    then backslash ∷ b'f' ∷ []
    else if c == 10
    then backslash ∷ b'n' ∷ []
    else if c == 13
    then backslash ∷ b'r' ∷ []
    else if c == 9
    then backslash ∷ b't' ∷ []
    else if ltb c 32
    then backslash ∷ b'u' ∷ short_hex c
    else c ∷ []

unfoldable pub escape_bytes : Bytes → Bytes
unfolding escape_byte
escape_bytes [] = []
escape_bytes (c ∷ s) = escape_byte c ++ escape_bytes s

unfoldable pub json_escape : Bytes → Bytes
unfolding escape_bytes
json_escape s = quote ∷ (escape_bytes s ++ quote ∷ [])

-- The items behind the first: a comma stands before each.
unfoldable pub more_items : List Bytes → Bytes
unfolding json_escape
more_items [] = []
more_items (s ∷ items) = b',' ∷ (json_escape s ++ more_items items)

unfoldable pub json_items : List Bytes → Bytes
unfolding more_items
json_items [] = []
json_items (s ∷ items) = json_escape s ++ more_items items

unfoldable pub json_array : List Bytes → Bytes
unfolding json_items
json_array items = b'[' ∷ (json_items items ++ b']' ∷ [])
