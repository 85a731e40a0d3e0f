-- ===== src/Shell/Exec/Refused.antt =====
-- The commands that `Exec` refuses before they reach the file system.
use neon_world_os.Base.{
  ℕ, ◌<◌, Bool, true, false, ◌&&◌, List, [], ◌∷◌, ◌++◌, map, Option, none, some, ◌≡◌, refl, sym, ap,
  ◌∙◌, subst, ◌⊎◌, inl, inr, arith, Bytes, codes, if◌then◌else◌, find, Bool-cases,
}
use neon_world_os.Vfs.State.{Vfs}
use neon_world_os.Vfs.Metadata.{xattr_get}
use neon_world_os.Shell.Tokenize.{tokenize}
use neon_world_os.Shell.Vars.{expand_vars}
use neon_world_os.Shell.Commands.{is_one_of, perm_for_cmd}
use neon_world_os.Shell.State.{Shell, Answer, said, Handler}
use neon_world_os.Shell.Exec.{
  Host, blocked, delcmd, any_path, is_held, hold_key, until_of, hold_denies, policy_denies,
  exec_expanded, exec_found, exec_tokens, exec,
}

-- The line is refused: nothing of the shell changes but its history.
abbrev pub Refused : Bytes → Shell → Answer × Shell → Type 0
Refused line s r =
    (r.1 ≡ record s { history = s.history ++ line ∷ [] })
    × ((r.0 ≡ said (codes "unknown"))
        ⊎ ((r.0 ≡ said (codes "err_denied")) ⊎ (r.0 ≡ said (codes "err_hold"))))

-- A path of the command whose hold has not ended.
abbrev pub Holds : ℕ → List Bytes → Vfs → Type 0
Holds now paths v =
    (qs : List Bytes) × (p : Bytes) × (rs : List Bytes) × (until : Bytes) × (paths ≡ qs ++ p ∷ rs)
    × (xattr_get p hold_key v ≡ some until)
    × (now < until_of until)

-- What safe mode or a hold refuses, after the variables of the words are expanded.
abbrev pub Guarded : ℕ → Bytes → List Bytes → Shell → Type 0
Guarded now c args s =
    ((s.safemode_on ≡ true) × (is_one_of c blocked ≡ true))
    ⊎ ((s.retain_on ≡ true)
        × (is_one_of (expand_vars s.vars c) delcmd ≡ true)
        × Holds now (perm_for_cmd (map (expand_vars s.vars) (c ∷ args))).1 s.vfs)

if_true : {A : Type 0} (b : Bool) (x y : A) → b ≡ true → (if b then x else y) ≡ x
if_true true x y h = refl
if_true false x y h = absurd (cc)

any_path-found :
    (f : Bytes → Bool) (qs : List Bytes) (p : Bytes) (rs : List Bytes)
    → f p ≡ true
    → any_path f (qs ++ p ∷ rs) ≡ true
any_path-found f [] p rs h = if_true (f p) true (any_path f rs) h
any_path-found f (q ∷ qs) p rs h = elim (Bool-cases (f q)) [
  | inl e ↦ if_true (f q) true (any_path f (qs ++ p ∷ rs)) e
  | inr e ↦ rw e (any_path-found f qs p rs h)
]

Holds-any_path :
    (now : ℕ) (paths : List Bytes) (v : Vfs)
    → Holds now paths v
    → any_path (is_held now v) paths ≡ true
unfolding is_held
Holds-any_path now paths v (qs, p, rs, until, split, e, lt) =
    ap (any_path (is_held now v)) split ∙ any_path-found (is_held now v) qs p rs held
  where
    held : is_held now v p ≡ true
    held = rw (e, is_held) (ground (arith, lt))

hold_denies-Holds :
    (now : ℕ) (c : Bytes) (args : List Bytes) (s : Shell)
    → s.retain_on ≡ true
    → is_one_of c delcmd ≡ true
    → Holds now (perm_for_cmd (c ∷ args)).1 s.vfs
    → hold_denies now (c ∷ args) s ≡ true
unfolding hold_denies
hold_denies-Holds now c args s on del h =
    if_true s.retain_on _ false on
    ∙ if_true (is_one_of c delcmd) _ false del
    ∙ Holds-any_path now (perm_for_cmd (c ∷ args)).1 s.vfs h

-- A line that was refused, of the state with the line in its history.
abbrev Denied : Shell → Answer × Shell → Type 0
Denied s r =
    (r.1 ≡ s)
    × ((r.0 ≡ said (codes "unknown"))
        ⊎ ((r.0 ≡ said (codes "err_denied")) ⊎ (r.0 ≡ said (codes "err_hold"))))

Denied-if :
    (s : Shell) (b : Bool) (x y : Answer × Shell)
    → Denied s x
    → Denied s y
    → Denied s (if b then x else y)
Denied-if s true x y hx hy = hx
Denied-if s false x y hx hy = hy

exec_found-Denied :
    (host : Host) (o : Option Handler) (line c : Bytes) (args : List Bytes) (s : Shell)
    → Guarded host.now_hold c args s
    → Denied s (exec_found host o line c args s)
unfolding exec_found exec_expanded
exec_found-Denied host none line c args s g = (refl, inl refl)
exec_found-Denied host (some handler) line c args s (inl (on, stop)) =
    subst (Denied s) (sym (if_pair (s.safemode_on && is_one_of c blocked) _ _ (both on stop)))
      (refl, inr (inl refl))
  where
    if_pair : (b : Bool) (x y : Answer × Shell) → b ≡ true → (if b then x else y) ≡ x
    if_pair true x y h = refl
    if_pair false x y h = absurd (cc)

    both : {a b : Bool} → a ≡ true → b ≡ true → (a && b) ≡ true
    both e e' = rw e e'
exec_found-Denied host (some handler) line c args s (inr (on, del, h)) =
    Denied-if s (s.safemode_on && is_one_of c blocked) (said (codes "err_denied"), s) _
      (refl, inr (inl refl))
      (Denied-if s (policy_denies host.search c (perm_for_cmd (c ∷ args)).1 s.policies)
        (said (codes "err_denied"), s) _ (refl, inr (inl refl))
        (subst (Denied s)
          (sym (
            if_true (hold_denies host.now_hold (map (expand_vars s.vars) (c ∷ args)) s)
              (said (codes "err_hold"), s) _
              (hold_denies-Holds host.now_hold (expand_vars s.vars c)
                (map (expand_vars s.vars) args) s on del h)))
          (refl, inr (inr refl))))

-- A line is refused, and nothing of the shell changes but its history, if its first word is a command
-- that safe mode blocks while safe mode is on, or if, with its variables expanded, it is a command that
-- deletes and one of the paths that `perm_for_cmd_` finds for it has a hold that has not ended, while
-- retention is on.
pub exec-Refused :
    (host : Host) (line c : Bytes) (args : List Bytes) (s : Shell)
    → tokenize line ≡ c ∷ args
    → Guarded host.now_hold c args s
    → Refused line s (exec host line s)
unfolding exec exec_tokens
exec-Refused host line c args s e g =
    subst (λ (toks : List Bytes). Refused line s (exec_tokens host line toks s)) (sym e)
      (exec_found-Denied host (find c host.registry) line c args
        (record s { history = s.history ++ line ∷ [] }) g)
