-- ===== src/Tests/ShellTests.antt =====
-- The pure functions of src/shell.cpp on small inputs.
use neon_world_os.Base.{[], ◌∷◌, ◌≡◌, arith, codes, map, Bytes}
use neon_world_os.Util.{join}
use neon_world_os.Shell.Tokenize.{tokenize, space}
use neon_world_os.Shell.Tokenize.Words.{
  Piece, escaped, plain, single, double, typed_word, meant_word, tokenize-join,
}
use neon_world_os.Shell.Vars.{expand_vars}
use neon_world_os.Shell.Vars.Templates.{
  Part, text, var, lone, source_of, meaning_of, expand_vars-source_of,
}
use neon_world_os.Shell.Distance.{levenshtein}
use neon_world_os.Shell.Distance.Edit.{edit, reverse_onto, levenshtein-edit}
use neon_world_os.Base.{List, Dict}

-- The line: echo 'b "c' \"d
abbrev words : List (List Piece)
words =
    (plain (codes "echo") ∷ [])
    ∷ (single (codes "b \"c") ∷ [])
    ∷ (escaped b'"' ∷ double (codes "d") ∷ [])
    ∷ []

tokenize-join_example : tokenize (join (map typed_word words) (space ∷ [])) ≡ map meant_word words
unfolding meant_word
tokenize-join_example = tokenize-join words (
  (cc, ((omega arith, omega arith), tt)),
  ((cc, (omega arith, tt)), ((cc, (tt, (omega arith, tt))), tt)),
)

abbrev vars : Dict Bytes
vars = (codes "u", codes "ann") ∷ []

abbrev template : List Part
template = text (codes "hi ") ∷ lone b'5' ∷ var (codes "u") ∷ []

expand_vars-source_of_example : expand_vars vars (source_of template) ≡ meaning_of vars template
expand_vars-source_of_example = expand_vars-source_of vars template (
  omega arith,
  ((λ e. absurd (omega (arith, e)), λ e. absurd (omega (arith, e))), (omega arith, tt)),
)

levenshtein-edit_example :
    levenshtein (codes "lst") (codes "list")
    ≡ edit (reverse_onto (codes "lst") []) (reverse_onto (codes "list") [])
levenshtein-edit_example = levenshtein-edit (codes "lst") (codes "list")
