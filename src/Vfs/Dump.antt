-- ===== src/Vfs/Dump.antt =====
-- The dump format of src/vfs_dump.cpp, and `SaveDumpToString`, `LoadDumpFromString`, `BeginTx`,
-- `CommitTx` and `RollbackTx` of src/vfs.cpp. Whether the host gives a temporary file is an argument.
-- The memory for a content is always given.
pub mod Loading
pub mod Decimal
pub mod Entries
pub mod RoundTrip
use neon_world_os.Base.{
  ℕ, zero, suc, ◌+◌, ◌-◌, ◌*◌, ◌/◌, ◌%◌, Bool, true, false, ◌||◌, ◌&&◌, List, [], ◌∷◌, ◌++◌, Option,
  none, some, Bytes, codes, if◌then◌else◌, ◌==◌, ltb, leb, is_empty, str_eq, length, take, drop,
  starts_with, find_byte,
}
use mathlib.Core.Option
use neon_world_os.Vfs.Path.{slash}
use neon_world_os.Vfs.Tree.{Node, Children, node, nil, entry, children, new_dir}
use neon_world_os.Vfs.State.{Vfs, with_root, word_mod}
use neon_world_os.Vfs.Files.{mkdir, write}

abbrev pub newline : ℕ
newline = 10

abbrev pub space : ℕ
space = 32

-- A `size_t` in decimal: it has at most 20 digits.
unfoldable pub decimal_from : ℕ → ℕ → Bytes → Bytes
decimal_from zero n acc = acc
decimal_from (suc fuel) n acc = elim (ltb n 10) [
  | true ↦ (b'0' + n) ∷ acc
  | false ↦ decimal_from fuel (n / 10) ((b'0' + n % 10) ∷ acc)
]

unfoldable pub decimal : ℕ → Bytes
unfolding decimal_from
decimal n = decimal_from 20 n []

-- `path` in `write_node`.
unfoldable pub dump_path : Bytes → Bytes → Bytes
dump_path prefix name =
    let path = if str_eq prefix (slash ∷ []) then slash ∷ name else prefix ++ (slash ∷ name) in
    if str_eq name (slash ∷ []) || str_eq path (slash ∷ slash ∷ []) then slash ∷ [] else path

unfoldable mutual
  unfolding dump_path decimal

  pub write_node : Bytes → Node → Bytes
  write_node prefix (node d name t cs) =
      let path = dump_path prefix name in
      let below = write_nodes path cs in
      if d
      then codes "DIR " ++ (path ++ newline ∷ below)
      else codes "FILE "
        ++ (path ++ (space ∷ (decimal (length t) ++ (newline ∷ (t ++ newline ∷ [])))))

  pub write_nodes : Bytes → Children → Bytes
  write_nodes prefix nil = []
  write_nodes prefix (entry k n cs) = write_node prefix n ++ write_nodes prefix cs

abbrev pub dump_head : Bytes
dump_head = codes "# NEON VFS dump v1" ++ newline ∷ []

unfoldable pub save_dump : Vfs → Bytes
unfolding write_nodes
save_dump v = elim (children v.root) [
  | nil ↦ dump_head ++ (codes "DIR /" ++ newline ∷ [])
  | entry k n cs ↦ dump_head ++ write_nodes (slash ∷ []) (entry k n cs)
]

-- `std::stoul`; `none` is an exception.
unfoldable pub is_space : ℕ → Bool
is_space c = c == space || (leb 9 c && leb c 13)

unfoldable pub skip_spaces : Bytes → Bytes
unfolding is_space
skip_spaces [] = []
skip_spaces (c ∷ s) = if is_space c then skip_spaces s else c ∷ s

unfoldable pub read_digits : Option ℕ → Bytes → Option ℕ
read_digits acc [] = acc
read_digits acc (c ∷ s) = elim (leb b'0' c && leb c b'9') [
  | true ↦ read_digits (some (elim acc [ none ↦ c - b'0' | some n ↦ n * 10 + (c - b'0') ])) s
  | false ↦ acc
]

unfoldable pub in_word : Option ℕ → Option ℕ
in_word none = none
in_word (some n) = if ltb n word_mod then some n else none

unfoldable pub stoul_signed : Bytes → Option ℕ
unfolding read_digits in_word
stoul_signed [] = none
stoul_signed (c ∷ s) =
    if c == b'-'
    then Option.map (λ n. (word_mod - n) % word_mod) (in_word (read_digits none s))
    else if c == b'+'
    then in_word (read_digits none s)
    else in_word (read_digits none (c ∷ s))

unfoldable pub stoul : Bytes → Option ℕ
unfolding skip_spaces stoul_signed
stoul s = stoul_signed (skip_spaces s)

-- `std::getline`: the line, and what is behind it.
unfoldable pub line_of : Bytes → Bytes
line_of [] = []
line_of (c ∷ s) = if c == newline then [] else c ∷ line_of s

unfoldable pub after_line : Bytes → Bytes
after_line [] = []
after_line (c ∷ s) = if c == newline then s else after_line s

-- `in.read(&content[0], len)` into zeros, and what is left: nothing, if too little was there.
unfoldable pub read_content : ℕ → Bytes → Bytes
read_content zero s = []
read_content (suc len) [] = 0 ∷ read_content len []
read_content (suc len) (c ∷ s) = c ∷ read_content len s

-- `if (in.peek() == '\n') in.get()`.
unfoldable pub skip_newline : Bytes → Bytes
skip_newline [] = []
skip_newline (c ∷ s) = if c == newline then s else c ∷ s

-- What the loop leaves: the state, and `false` for an exception; `none` is out of fuel.
abbrev pub Loaded : Type 0
Loaded = Option (Vfs × Bool)

-- The rest of a `FILE` line, with the position of its space.
unfoldable pub load_file : (Bytes → Vfs → Loaded) → Option ℕ → Bytes → Bytes → Vfs → Loaded
unfolding stoul read_content skip_newline
load_file loop none l rest v = loop rest v
load_file loop (some i) l rest v = elim (stoul (drop (suc i) l)) [
  | none ↦ some (v, false)
  | some len ↦ loop (skip_newline (drop len rest)) (write (take i l) (read_content len rest) v).0
]

unfoldable pub load_line : (Bytes → Vfs → Loaded) → Bytes → Bytes → Vfs → Loaded
unfolding load_file
load_line loop line rest v = elim (starts_with line (codes "#") || is_empty line) [
  | true ↦ loop rest v
  | false ↦ elim (starts_with line (codes "DIR ")) [
    | true ↦ loop rest (mkdir (drop 4 line) v).0
    | false ↦ elim (starts_with line (codes "FILE ")) [
      | true ↦ load_file loop (find_byte space (drop 5 line)) (drop 5 line) rest v
      | false ↦ loop rest v
    ]
  ]
]

-- The loop of `LoadDump`.
unfoldable pub load_loop : ℕ → Bytes → Vfs → Loaded
unfolding load_line line_of after_line
load_loop zero s v = none
load_loop (suc fuel) [] v = some (v, true)
load_loop (suc fuel) (c ∷ s) v = load_line (load_loop fuel) (line_of (c ∷ s)) (after_line (c ∷ s)) v

unfoldable pub load_dump : Bytes → Vfs → Loaded
unfolding load_loop
load_dump s v = load_loop (suc (length s)) s (with_root v (new_dir (slash ∷ [])))

unfoldable pub begin_tx : Bool → Vfs → Vfs × Bool
unfolding save_dump
begin_tx host v =
    if v.tx_active
    then (v, false)
    else if host
    then (record v { tx_snapshot = save_dump v; tx_active = true }, true)
    else (v, false)

unfoldable pub commit_tx : Vfs → Vfs × Bool
commit_tx v =
    if v.tx_active then (record v { tx_active = false; tx_snapshot = [] }, true) else (v, false)

abbrev pub end_tx : Vfs × Bool → Vfs × Bool
end_tx (v, ok) = if ok then (record v { tx_active = false; tx_snapshot = [] }, true) else (v, false)

-- An exception leaves the transaction open.
unfoldable pub rollback_tx : Bool → Vfs → Loaded
unfolding load_dump
rollback_tx host v =
    if v.tx_active
    then if host
      then Option.map end_tx (load_dump v.tx_snapshot v)
      else some (record v { tx_active = false; tx_snapshot = [] }, false)
    else some (v, false)
