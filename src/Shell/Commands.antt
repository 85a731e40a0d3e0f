-- ===== src/Shell/Commands.antt =====
-- The permissions of src/shell.cpp: `has_perm_` and `perm_for_cmd_`.
use neon_world_os.Base.{
  ℕ, zero, suc, ◌+◌, ◌*◌, ◌/◌, ◌%◌, Bool, true, false, ◌||◌, List, [], ◌∷◌, none, some, Bytes,
  codes, if◌then◌else◌, ◌==◌, ltb, str_eq, starts_with, length, Dict, find,
}

-- `a | b` and `a & b` on 32 bits.
unfoldable pub bit_or : ℕ → ℕ → ℕ → ℕ
bit_or zero a b = 0
bit_or (suc w) a b = (if a % 2 + b % 2 == 0 then 0 else 1) + 2 * bit_or w (a / 2) (b / 2)

unfoldable pub bit_and : ℕ → ℕ → ℕ → ℕ
bit_and zero a b = 0
bit_and (suc w) a b = (a % 2) * (b % 2) + 2 * bit_and w (a / 2) (b / 2)

pub record Rule : Type 0 where
  pub prefix : Bytes
  pub perms : ℕ

-- The loop over the rules of a role.
unfoldable pub granted : List Rule → Bytes → ℕ → ℕ
unfolding bit_or
granted [] path acc = acc
granted (e ∷ es) path acc =
    granted es path (if starts_with path e.prefix then bit_or 32 acc e.perms else acc)

unfoldable pub has_perm : Dict (List Rule) → Bytes → Bytes → ℕ → Bool
unfolding granted bit_and
has_perm roles role path need =
    if str_eq role (codes "root") then true else elim (find role roles) [
      | none ↦ false
      | some es ↦ bit_and 32 (granted es path 0) need == need
    ]

unfoldable pub is_one_of : Bytes → List Bytes → Bool
is_one_of c [] = false
is_one_of c (d ∷ ds) = str_eq c d || is_one_of c ds

abbrev pub need_r : ℕ
need_r = 1

abbrev pub need_w : ℕ
need_w = 2

abbrev pub need_a : ℕ
need_a = 8

abbrev pub write_cmds : List Bytes
write_cmds =
    codes "echo"
    ∷ codes "append"
    ∷ codes "truncate"
    ∷ codes "rm"
    ∷ codes "mkdir"
    ∷ codes "chmod"
    ∷ codes "utime"
    ∷ codes "xattr"
    ∷ codes "repl"
    ∷ codes "chattr"
    ∷ []

abbrev pub read_cmds : List Bytes
read_cmds =
    codes "cat"
    ∷ codes "catrange"
    ∷ codes "stat"
    ∷ codes "ls"
    ∷ codes "grep"
    ∷ codes "wc"
    ∷ codes "hexdump"
    ∷ codes "sha256"
    ∷ codes "verifyseal"
    ∷ codes "merkleroot"
    ∷ []

abbrev pub admin_cmds : List Bytes
admin_cmds =
    codes "exportfs"
    ∷ codes "importfs"
    ∷ codes "importdelta"
    ∷ codes "fsck"
    ∷ codes "verify"
    ∷ codes "config"
    ∷ codes "undo"
    ∷ codes "rate"
    ∷ codes "audit"
    ∷ codes "journal"
    ∷ codes "umask"
    ∷ codes "policy"
    ∷ codes "snap"
    ∷ []

-- `toks.back()`, of tokens that are not empty.
unfoldable pub back_tok : Bytes → List Bytes → Bytes
back_tok t [] = t
back_tok t (u ∷ ts) = back_tok u ts

-- `toks[i]` as a list, empty if there are too few tokens for the command to name paths.
unfoldable pub first_two : List Bytes → List Bytes
first_two (a ∷ b ∷ ts) = a ∷ b ∷ []
first_two ts = []

-- The need, and the paths that are added; both `cp` and `mv` name two.
unfoldable pub perm_for_cmd : List Bytes → ℕ × List Bytes
unfolding is_one_of back_tok first_two
perm_for_cmd [] = (0, [])
perm_for_cmd (c ∷ args) =
    if is_one_of c write_cmds
    then (need_w, if ltb 1 (length args) then back_tok c args ∷ [] else [])
    else if str_eq c (codes "mv")
    then (need_w, first_two args)
    else if str_eq c (codes "cp")
    then (need_r + need_w, first_two args)
    else if is_one_of c read_cmds
    then (need_r, if ltb 0 (length args) then back_tok c args ∷ [] else [])
    else if str_eq c (codes "seal")
    then (need_w, elim args [ [] ↦ [] | p ∷ _ ↦ p ∷ [] ])
    else if str_eq c (codes "lock")
    then (need_a, elim args [ [] ↦ [] | _ ∷ rest ↦ elim rest [ [] ↦ [] | p ∷ _ ↦ p ∷ [] ] ])
    else if str_eq c (codes "index")
    then (need_r, [])
    else if is_one_of c admin_cmds
    then (need_a, [])
    else (0, [])
