-- ===== src/Shell/Builtins/Ends.antt =====
-- `Exec` ends, though `time` calls it with the rest of the line.
use neon_world_os.Base.{
  ℕ, zero, suc, ◌+◌, ◌≤◌, ◌<◌, Bool, true, false, not, List, [], ◌∷◌, ◌++◌, map, ◌≡◌, ◌≢◌, refl, ap,
  ◌∙◌, arith, Bytes, codes, find, length, length-append, str_eq,
}
use neon_world_os.Util.{join, join_from-delimited, delimited, push_part}
use neon_world_os.Shell.State.{Shell, Answer, out_of_fuel}
use neon_world_os.Shell.Tokenize.{tokenize, tokenize_from, space}
use neon_world_os.Shell.Vars.{expand_vars, expand_from, value_of}
use neon_world_os.Shell.Listing.{Outside}
use neon_world_os.Shell.Exec.{Host, exec, exec_scoped, begun, ended, exec_tokens, exec_found}
use neon_world_os.Shell.Builtins.{builtins, run_line}
use neon_world_os.Shell.Builtins.Steady.{Good, IsGuest}
use neon_world_os.Shell.Builtins.Runs.{exec-Good}

-- The bytes of some words, with one for each word.
abbrev weight : List Bytes → ℕ
weight [] = 0
weight (w ∷ ws) = length w + 1 + weight ws

weight-append : (us ws : List Bytes) → weight (us ++ ws) ≡ weight us + weight ws
weight-append [] ws = omega arith
weight-append (u ∷ us) ws = omega (arith, weight-append us ws)

weight-push_part-le :
    (out : List Bytes) (cur : Bytes) → weight (push_part out cur) ≤ weight out + length cur + 1
unfolding push_part
weight-push_part-le out [] = omega arith
weight-push_part-le out (c ∷ cur) = omega (arith, weight-append out ((c ∷ cur) ∷ []))

weight-tokenize_from-le :
    (s : Bytes) (out : List Bytes) (cur : Bytes) (in_s in_d esc : Bool)
    → weight (tokenize_from s out cur in_s in_d esc) ≤ weight out + length cur + 1 + length s
unfolding tokenize_from
weight-tokenize_from-le [] out cur in_s in_d esc = omega (arith, weight-push_part-le out cur)
weight-tokenize_from-le (c ∷ s) out cur in_s in_d esc = ground (
  arith,
  weight-push_part-le out cur,
  length-append cur (c ∷ []),
  weight-tokenize_from-le s out (cur ++ c ∷ []) in_s in_d false,
  weight-tokenize_from-le s out cur in_s in_d true,
  weight-tokenize_from-le s out cur (not in_s) in_d false,
  weight-tokenize_from-le s out cur in_s (not in_d) false,
  weight-tokenize_from-le s (push_part out cur) [] in_s in_d false,
)

length-delimited : (d : ℕ) (ws : List Bytes) → length (delimited d ws) ≡ weight ws
unfolding delimited
length-delimited d [] = refl
length-delimited d (w ∷ ws) = omega (arith, length-append w (delimited d ws), length-delimited d ws)

length-join :
    (w : Bytes) (ws : List Bytes) → length (join (w ∷ ws) (space ∷ [])) + 1 ≡ weight (w ∷ ws)
unfolding join
length-join w ws =
    rw (join_from-delimited space ws w)
      (omega (arith, length-append w (delimited space ws), length-delimited space ws))

-- Without variables a word only loses its references.
length-expand_from-le : (s : Bytes) (skip : ℕ) → length (expand_from [] s skip) ≤ length s
unfolding expand_from value_of find
length-expand_from-le [] skip = omega arith
length-expand_from-le (c ∷ s) (suc skip) = omega (arith, length-expand_from-le s skip)
length-expand_from-le (c ∷ s) zero =
    grind (arith, length-expand_from-le s 0, λ (k : ℕ). length-expand_from-le s k)

weight-map-le :
    (vars : List (Bytes × Bytes)) (ws : List Bytes)
    → vars ≡ []
    → weight (map (expand_vars vars) ws) ≤ weight ws
unfolding expand_vars
weight-map-le vars [] e = omega arith
weight-map-le vars (w ∷ ws) e = omega (arith, rest, weight-map-le vars ws e)
  where
    rest : length (expand_vars vars w) ≤ length w
    rest = rw (e, expand_vars) (length-expand_from-le w 0)

-- The answer is a text or an exception.
abbrev pub Ended : Answer → Type 0
Ended a = a ≢ out_of_fuel

-- The two lines of the scans name no command of the table.
scan-Good :
    (hosts : ℕ → Host) (worlds : ℕ → Outside) (n : ℕ) (s : Shell)
    → 0 < n
    → Good Ended s (run_line hosts worlds n (codes "scan secrets /") s)
      × Good Ended s (run_line hosts worlds n (codes "scan pii /") s)
unfolding run_line exec_scoped begun ended exec exec_tokens exec_found tokenize tokenize_from
    push_part find builtins str_eq
scan-Good hosts worlds zero s lt = absurd (omega arith)
scan-Good hosts worlds (suc n) s lt = (
  record { answer = λ e. cc; steady = (refl, λ h. h) },
  record { answer = λ e. cc; steady = (refl, λ h. h) },
)

-- What stands behind `time` is shorter than the line.
length-rest-lt :
    (line c d x : Bytes) (args rest : List Bytes) (vars : List (Bytes × Bytes))
    → vars ≡ []
    → tokenize line ≡ c ∷ args
    → map (expand_vars vars) (c ∷ args) ≡ d ∷ x ∷ rest
    → length (join (x ∷ rest) (space ∷ [])) < length line
unfolding tokenize
length-rest-lt line c d x args rest vars none_set e f = omega (
  arith,
  length-join x rest,
  ap weight e,
  ap weight f,
  weight-map-le vars (c ∷ args) none_set,
  weight-tokenize_from-le line [] [] false false false,
)

module _ (hosts : ℕ → Host) (worlds : ℕ → Outside) (guests : (n : ℕ) → IsGuest (worlds n)) where
  run_line-Ended :
      (n : ℕ) (line : Bytes) (s : Shell)
      → s.vars ≡ []
      → length line + 1 < n
      → Good Ended s (run_line hosts worlds n line s)
  unfolding run_line
  run_line-Ended zero line s e lt = absurd (omega arith)
  run_line-Ended (suc n) line s none_set lt =
      exec-Good Ended (λ t e. cc) (λ e. cc) (hosts n) (worlds n) (run_line hosts worlds n)
        (guests n) line s (λ s' k. (scan-Good hosts worlds n s' (omega arith)).0)
        (λ s' k. (scan-Good hosts worlds n s' (omega arith)).1)
        (λ c d x args rest e f s' k.
          run_line-Ended n (join (x ∷ rest) (space ∷ [])) s' (k.0 ∙ none_set)
            (omega (arith, length-rest-lt line c d x args rest s.vars none_set e f)))

  -- `Exec` of a line, with the shell's own commands, ends, with a text or an exception, within as many
  -- nested calls as the line has bytes and two more, if no variable is set: `time` calls `Exec` again with
  -- a shorter line, and the scans name no command. The code that a plugin runs when it is loaded leaves the
  -- variables as they are and keeps a tree in which no file has children such; the commands that it
  -- registers are not among the commands.
  pub run_line-ends :
      (n : ℕ) (line : Bytes) (s : Shell)
      → s.vars ≡ []
      → length line + 1 < n
      → Ended (run_line hosts worlds n line s).0
  run_line-ends n line s none_set lt = (run_line-Ended n line s none_set lt).answer
