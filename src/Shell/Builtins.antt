-- ===== src/Shell/Builtins.antt =====
-- The commands that the constructor of `Shell` in src/shell.cpp puts into the table, and `Exec` with
-- this table. A command gets the whole line, its own name first. Output to `std::ostringstream` is text.
pub mod Files
pub mod Controls
pub mod Saved
pub mod Steady
pub mod Runs
pub mod EchoCat
pub mod Ends
use neon_world_os.Base.{ℕ, zero, suc, List, [], ◌∷◌, Bytes, codes, Dict, assign}
use neon_world_os.Shell.State.{Shell, Answer, out_of_fuel, Run, Handler}
use neon_world_os.Shell.Listing.{Outside}
use neon_world_os.Shell.Exec.{Host, exec_scoped}
use neon_world_os.Shell.Builtins.Files.{
  run_ls, run_mkdir, run_touch, run_echo, run_cat, run_savefs, run_loadfs, run_tree,
}
use neon_world_os.Shell.Builtins.Controls.{
  run_help, run_mode, run_ps, run_kill, run_history, run_plugin, run_audit, run_seal, run_policy,
  run_time, run_trace, run_schema, run_meminfo,
}

-- `Register`.
unfoldable pub register : Bytes → Handler → Dict Handler → Dict Handler
register name fn registry = assign name fn registry

-- The table, with `Exec` for the command that calls it.
unfoldable pub builtins : Outside → Run → Dict Handler
unfolding run_ls run_mkdir run_touch run_echo run_cat run_savefs run_loadfs run_tree run_help
    run_mode run_ps run_kill run_history run_plugin run_audit run_seal run_policy run_time run_trace
    run_schema run_meminfo
builtins w run =
    (codes "help", run_help)
    ∷ (codes "mode", run_mode)
    ∷ (codes "ls", run_ls)
    ∷ (codes "mkdir", run_mkdir)
    ∷ (codes "touch", run_touch)
    ∷ (codes "echo", run_echo)
    ∷ (codes "cat", run_cat)
    ∷ (codes "ps", run_ps w)
    ∷ (codes "kill", run_kill)
    ∷ (codes "savefs", run_savefs w)
    ∷ (codes "loadfs", run_loadfs w)
    ∷ (codes "tree", run_tree w)
    ∷ (codes "history", run_history w)
    ∷ (codes "plugin", run_plugin w)
    ∷ (codes "audit", run_audit)
    ∷ (codes "seal", run_seal)
    ∷ (codes "policy", run_policy)
    ∷ (codes "time", run_time w run)
    ∷ (codes "trace", run_trace w)
    ∷ (codes "schema", run_schema)
    ∷ (codes "meminfo", run_meminfo)
    ∷ []

-- What a call of `Exec` finds, with the table of commands and `Exec` for the calls below it.
abbrev pub linked : Host → Outside → Run → Host
linked host w run = record host { registry = builtins w run; scan = run }

-- `Exec`, which `time` and the scans call again: the number bounds how deep, and each depth has its
-- own readings of the clocks.
unfoldable pub run_line : (ℕ → Host) → (ℕ → Outside) → ℕ → Run
unfolding builtins exec_scoped
run_line hosts worlds zero line s = (out_of_fuel, s)
run_line hosts worlds (suc n) line s =
    exec_scoped (linked (hosts n) (worlds n) (run_line hosts worlds n)) line s

-- Lines one after the other.
unfoldable pub session : (ℕ → Host) → (ℕ → Outside) → ℕ → List Bytes → Shell → Shell
unfolding run_line
session hosts worlds n [] s = s
session hosts worlds n (line ∷ rest) s =
    session hosts worlds n rest (run_line hosts worlds n line s).1
