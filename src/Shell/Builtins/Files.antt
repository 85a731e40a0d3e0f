-- ===== src/Shell/Builtins/Files.antt =====
-- The commands on files: `ls`, `mkdir`, `touch`, `echo`, `cat`, `savefs`, `loadfs` and `tree` of
-- src/shell.cpp, with `SaveDump` and `LoadDump` of src/vfs_dump.cpp on the files of the host.
use neon_world_os.Base.{
  ℕ, zero, suc, Bool, true, false, List, [], ◌∷◌, ◌++◌, Option, none, some, Bytes, codes,
  if◌then◌else◌, str_eq, is_empty, take, drop, length, find, assign,
}
use neon_world_os.Vfs.State.{Vfs}
use neon_world_os.Vfs.Files.{list, mkdir, touch, write, read}
use neon_world_os.Vfs.Dump.{save_dump, load_dump, Loaded}
use neon_world_os.Crypto.Sha.{Sha, new_sha, update, digest_of, hex}
use neon_world_os.Shell.State.{Shell, Answer, said, threw, out_of_fuel, Handler}
use neon_world_os.Shell.Json.{json_escape, json_array}
use neon_world_os.Shell.Listing.{Outside, long_or, lines}

abbrev pub with_files : Shell → Vfs → Shell
with_files s v = record s { vfs = v }

-- `… ? "ok" : "err"`, with the file system that the operation leaves.
unfoldable pub ok_or_err : Vfs × Bool → Shell → Answer × Shell
ok_or_err (v, ok) s = (said (if ok then codes "ok" else codes "err"), with_files s v)

abbrev pub failed : Answer
failed = said (codes "err")

-- `a.size()>1 ? a[1] : "/"`.
unfoldable pub path_or_root : List Bytes → Bytes
path_or_root (c ∷ p ∷ rest) = p
path_or_root a = codes "/"

unfoldable pub run_ls : Handler
unfolding list path_or_root json_array lines
run_ls a s =
    let items = list (path_or_root a) s.vfs in
    (said (if s.json_mode then json_array items else lines items), s)

unfoldable pub run_mkdir : Handler
unfolding mkdir ok_or_err
run_mkdir (c ∷ p ∷ rest) s = ok_or_err (mkdir p s.vfs) s
run_mkdir a s = (failed, s)

unfoldable pub run_touch : Handler
unfolding touch ok_or_err
run_touch (c ∷ p ∷ rest) s = ok_or_err (touch p s.vfs) s
run_touch a s = (failed, s)

-- The text stands before the path.
unfoldable pub run_echo : Handler
unfolding write ok_or_err
run_echo (c ∷ text ∷ p ∷ rest) s = ok_or_err (write p text s.vfs) s
run_echo a s = (failed, s)

unfoldable pub cat_text : Bool → Bytes → Option Bytes → Bytes
unfolding json_escape
cat_text json p none = codes "err"
cat_text json p (some d) =
    if json
    then codes "{\"path\":"
      ++ (json_escape p ++ (codes ",\"data\":" ++ (json_escape d ++ codes "}")))
    else d

unfoldable pub run_cat : Handler
unfolding read cat_text
run_cat (c ∷ p ∷ rest) s = (said (cat_text s.json_mode p (read p s.vfs)), s)
run_cat a s = (failed, s)

-- `SaveDump` into a file of the host.
unfoldable pub save_file : Outside → Bytes → Shell → Shell × Bool
unfolding save_dump
save_file w name s =
    if w.may_write name
    then (record s { files = assign name (save_dump s.vfs) s.files }, true)
    else (s, false)

-- What can be read of a file of the host.
unfoldable pub host_file : Outside → Bytes → Shell → Option Bytes
host_file w name s = if w.may_read name then find name s.files else none

-- The loop that reads the file in blocks; `none` is out of fuel.
unfoldable pub hash_blocks : ℕ → Bytes → Option Sha → Option Sha
unfolding update
hash_blocks fuel t none = none
hash_blocks zero t (some h) = none
hash_blocks (suc fuel) t (some h) =
    let next = hash_blocks fuel (drop 4096 t) (update (take 4096 t) h) in
    if is_empty t then some h else next

unfoldable pub hash_answer : Option Bytes → Answer
unfolding hex
hash_answer none = out_of_fuel
hash_answer (some d) = said (codes "ok " ++ hex d)

-- The pasted block behind a text that was made.
unfoldable pub listed : Outside → List Bytes → Answer × Shell → Answer × Shell
unfolding long_or
listed w a (said text, s) = (said (long_or a w.out w.toks s.vfs text), s)
listed w a (other, s) = (other, s)

-- The branch for `--sha256`, with what the file reads.
unfoldable pub hash_file : Outside → List Bytes → Option Bytes → Shell → Answer × Shell
unfolding hash_blocks digest_of hash_answer listed
hash_file w a none s = (failed, s)
hash_file w a (some t) s =
    listed w a (hash_answer (digest_of (hash_blocks (suc (length t)) t (some new_sha))), s)

unfoldable pub wants_hash : List Bytes → Bool
wants_hash (option ∷ rest) = str_eq option (codes "--sha256")
wants_hash [] = false

unfoldable pub after_save :
    Outside → List Bytes → List Bytes → Bytes → Shell × Bool → Answer × Shell
unfolding host_file hash_file wants_hash
after_save w a options name (s, false) = (failed, s)
after_save w a options name (s, true) =
    if wants_hash options then hash_file w a (host_file w name s) s else (said (codes "ok"), s)

unfoldable pub run_savefs : Outside → Handler
unfolding save_file after_save
run_savefs w (c ∷ name ∷ rest) s = after_save w (c ∷ name ∷ rest) rest name (save_file w name s)
run_savefs w a s = (failed, s)

-- What the loop of `LoadDump` leaves: it may throw.
unfoldable pub loaded_answer : Loaded → Shell → Answer × Shell
loaded_answer none s = (out_of_fuel, s)
loaded_answer (some (v, ok)) s = (if ok then said (codes "ok") else threw, with_files s v)

-- `LoadDump` of a file of the host.
unfoldable pub load_file_of : Option Bytes → Shell → Answer × Shell
unfolding load_dump loaded_answer
load_file_of none s = (failed, s)
load_file_of (some t) s = loaded_answer (load_dump t s.vfs) s

unfoldable pub run_loadfs : Outside → Handler
unfolding host_file load_file_of
run_loadfs w (c ∷ name ∷ rest) s = load_file_of (host_file w name s) s
run_loadfs w a s = (failed, s)

unfoldable pub run_tree : Outside → Handler
unfolding list path_or_root lines long_or
run_tree w a s = (said (long_or a w.out w.toks s.vfs (lines (list (path_or_root a) s.vfs))), s)
