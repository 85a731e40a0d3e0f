-- ===== src/Vfs/Runs/Contents.antt =====
-- The operations seen from outside: a map from paths to the contents of files, and what each call may do
-- to it.
use neon_world_os.Base.{
  true, false, List, [], ◌∷◌, ◌++◌, Option, none, some, ◌≡◌, ◌≢◌, ◌⊎◌, Bytes, take,
}
use neon_world_os.Vfs.Path.{segments}
use neon_world_os.Vfs.Tree.{Loc}
use neon_world_os.Vfs.Tree.View.{file_at}
use neon_world_os.Vfs.Edits.{Disk, or_empty}
use neon_world_os.Vfs.Runs.{
  Op, read_op, write_op, mkdir_op, touch_op, append_op, truncate_op, remove_op, copy_op, move_op,
  begin_op, commit_op, rollback_op, Answer, done, text,
}

-- What a file system promises to hold.
abbrev pub Contents : Type 0
Contents = Loc → Option Bytes

abbrev pub contents_of : Disk → Contents
contents_of s ks = file_at ks s.vfs.root

abbrev pub Same : Contents → Contents → Type 0
Same m m' = (qs : Loc) → m' qs ≡ m qs

abbrev pub Sets : Loc → Bytes → Contents → Contents → Type 0
Sets ks t m m' = (m' ks ≡ some t) × ((qs : Loc) → qs ≢ ks → m' qs ≡ m qs)

abbrev pub Clears : Loc → Contents → Contents → Type 0
Clears ks m m' =
    ((ls : Loc) → m' (ks ++ ls) ≡ none) × ((qs : Loc) → ((ls : Loc) → qs ≢ ks ++ ls) → m' qs ≡ m qs)

-- No content is changed, or there was none at the place and now there is an empty one.
abbrev pub Makes : Loc → Contents → Contents → Type 0
Makes ks m m' = Same m m' ⊎ ((m ks ≡ none) × Sets ks [] m m')

-- The contents at the one place and below it are also at the other, where nothing else is.
abbrev pub Copied : Loc → Loc → Contents → Contents → Type 0
Copied sf dt m m' =
    ((ls : Loc) → m' (dt ++ ls) ≡ m (sf ++ ls))
    × ((qs : Loc) → ((ls : Loc) → qs ≢ dt ++ ls) → m' qs ≡ m qs)

-- The same, if the new place is not below the old one, and nothing is left there.
abbrev pub Moved : Loc → Loc → Contents → Contents → Type 0
Moved sf dt m m' =
    ((ls : Loc) → m' (sf ++ ls) ≡ none)
    × (((ls : Loc) → dt ≢ sf ++ ls) → (ls : Loc) → m' (dt ++ ls) ≡ m (sf ++ ls))
    × ((qs : Loc) → ((ls : Loc) → qs ≢ sf ++ ls) → ((ls : Loc) → qs ≢ dt ++ ls) → m' qs ≡ m qs)

-- The call answers `false` and changes no content, or it answers `true` and does what it says.
abbrev pub OrFails : Answer → Contents → Contents → Type 0 → Type 0
OrFails a m m' Done = ((a ≡ done false) × Same m m') ⊎ ((a ≡ done true) × Done)

-- What each call may answer, and the contents after it, from the contents before it.
abbrev pub Allows : Op → Answer → Contents → Contents → Type 0
Allows (read_op path) a m m' = (a ≡ text (m (segments path))) × Same m m'
Allows (write_op path t) a m m' = OrFails a m m' (Sets (segments path) t m m')
Allows (mkdir_op path) a m m' = Same m m'
Allows (append_op path t x now now₁ now₂) a m m' =
    OrFails a m m' (Sets (segments path) (or_empty (m (segments path)) ++ t) m m')
Allows (truncate_op path size x now now₁ now₂) a m m' =
    OrFails a m m' (Sets (segments path) (take size (or_empty (m (segments path)))) m m')
Allows (remove_op path recursive now) a m m' = OrFails a m m' (Clears (segments path) m m')
Allows (touch_op path) a m m' = OrFails a m m' (Makes (segments path) m m')
Allows (copy_op from to recursive) a m m' =
    OrFails a m m' (Copied (segments from) (segments to) m m')
Allows (move_op from to) a m m' = OrFails a m m' (Moved (segments from) (segments to) m m')
Allows (begin_op host) a m m' = Same m m'
Allows commit_op a m m' = Same m m'
Allows op a m m' = Unit

-- The calls that `Allows` says something of.
abbrev pub IsPlain : Op → Type 0
IsPlain (rollback_op host) = ⊥
IsPlain op = Unit

-- A run that is allowed, step by step, from the first contents to the last.
pub data Allowed : List Op → List Answer → Contents → Contents → Type 0 where
  over : {m : Contents} → Allowed [] [] m m
  next :
      {op : Op} {ops : List Op} {a : Answer} {answers : List Answer} {m m' m'' : Contents}
      → Allows op a m m'
      → Allowed ops answers m' m''
      → Allowed (op ∷ ops) (a ∷ answers) m m''
