-- ===== src/Shell/Builtins/EchoCat.antt =====
-- Two lines in a row: `echo` writes a file and `cat` shows it.
use neon_world_os.Base.{
  ℕ, suc, Bool, true, false, ◌&&◌, [], ◌∷◌, Option, some, ◌≡◌, refl, sym, ap, ◌∙◌, subst, ◌⊎◌, inl,
  inr, Bytes, codes, if_by, find, str_eq, not, is_empty,
}
use neon_world_os.Vfs.State.{Vfs, with_root}
use neon_world_os.Vfs.Files.{write, read}
use neon_world_os.Vfs.Files.Write.{Stored, write-Outcome}
use neon_world_os.Vfs.Files.Writes.{read-file_at}
use neon_world_os.Vfs.Tree.{Node}
use neon_world_os.Vfs.Path.{segments}
use neon_world_os.Shell.State.{Shell, Answer, said, Run}
use neon_world_os.Shell.Tokenize.{tokenize}
use neon_world_os.Shell.Vars.{expand_vars, expand_from}
use neon_world_os.Shell.Commands.{is_one_of}
use neon_world_os.Shell.Listing.{Outside}
use neon_world_os.Shell.Exec.{Host, begun, ended, exec_scoped, audit, audit_answer}
use neon_world_os.Shell.Exec.Passed.{IsOpen, IsHarmless, noted, exec-open}
use neon_world_os.Shell.Builtins.{builtins, linked, run_line}
use neon_world_os.Shell.Builtins.Files.{ok_or_err, run_echo, cat_text, run_cat, with_files}

abbrev echo : Bytes
echo = codes "echo"

abbrev cat : Bytes
cat = codes "cat"

echo-IsHarmless : (s : Shell) → IsHarmless echo s
echo-IsHarmless s = record {
  not_blocked = unfold is_one_of str_eq in refl;
  not_deleting = unfold is_one_of str_eq in refl;
  not_sensitive = unfold is_one_of str_eq in refl;
  constant = unfold expand_vars expand_from in refl;
}

cat-IsHarmless : (s : Shell) → IsHarmless cat s
cat-IsHarmless s = record {
  not_blocked = unfold is_one_of str_eq in refl;
  not_deleting = unfold is_one_of str_eq in refl;
  not_sensitive = unfold is_one_of str_eq in refl;
  constant = unfold expand_vars expand_from in refl;
}

-- The audit changes no other field.
audit-tag :
    (host : Host) (line t : Bytes) (s : Shell)
    → (tag : Bytes) × (audit host line t s ≡ record s { audit_prev_tag = tag })
unfolding audit
audit-tag host line t s =
    if_by (λ u. (tag : Bytes) × (u ≡ record s { audit_prev_tag = tag }))
      (s.audit_on && (host.audit_opened && (s.audit_json && not (is_empty s.audit_key)))) _ s
      (λ e. (_, refl)) (λ e. (s.audit_prev_tag, refl))

find-echo : (w : Outside) (run : Run) → find echo (builtins w run) ≡ some run_echo
unfolding find builtins str_eq
find-echo w run = refl

find-cat : (w : Outside) (run : Run) → find cat (builtins w run) ≡ some run_cat
unfolding find builtins str_eq
find-cat w run = refl

module _ (hosts : ℕ → Host) (worlds : ℕ → Outside) where
  echo-audited :
      (n : ℕ) (line text path : Bytes) (s : Shell)
      → tokenize line ≡ echo ∷ text ∷ path ∷ []
      → IsOpen (hosts n) echo s
      → run_line hosts worlds (suc n) line s
        ≡ ended (hosts n) (
            audit_answer (hosts n) line (
              ok_or_err
                (write (expand_vars s.vars path) (expand_vars s.vars text) s.vfs)
                (noted line (begun (hosts n) s))))
  unfolding run_line exec_scoped begun ended run_echo audit_answer audit
  echo-audited n line text path s e o = ap (ended (hosts n)) (
      exec-open (linked (hosts n) (worlds n) (run_line hosts worlds n)) run_echo line echo
        (text ∷ path ∷ []) (begun (hosts n) s) e (find-echo (worlds n) (run_line hosts worlds n))
        (record { no_rules = o.no_rules; no_log = o.no_log; in_rate = o.in_rate })
        (echo-IsHarmless (begun (hosts n) s)))

  cat-said :
      (m : ℕ) (line path d : Bytes) (u : Shell)
      → tokenize line ≡ cat ∷ path ∷ []
      → IsOpen (hosts m) cat u
      → u.json_mode ≡ false
      → read (expand_vars u.vars path) u.vfs ≡ some d
      → (run_line hosts worlds (suc m) line u).0 ≡ said d
  unfolding run_line exec_scoped begun ended run_cat audit_answer cat_text
  cat-said m line path d u e o text_mode r =
      ap (λ (q : Answer × Shell). q.0)
        (exec-open (linked (hosts m) (worlds m) (run_line hosts worlds m)) run_cat line cat
          (path ∷ []) (begun (hosts m) u) e (find-cat (worlds m) (run_line hosts worlds m))
          (record { no_rules = o.no_rules; no_log = o.no_log; in_rate = o.in_rate })
          (cat-IsHarmless (begun (hosts m) u)))
      ∙ ap
          (λ (b : Bool).
            said (cat_text b (expand_vars u.vars path) (read (expand_vars u.vars path) u.vfs)))
          text_mode
      ∙ ap (λ (o : Option Bytes). said (cat_text false (expand_vars u.vars path) o)) r

  -- What the two lines give: an error, and the file system as it was, or the text.
  abbrev pub Shown : Bytes → Shell → Answer × Shell → Answer → Type 0
  Shown text s r answer =
      ((r.0 ≡ said (codes "err")) × (r.1.vfs ≡ s.vfs))
      ⊎ ((r.0 ≡ said (codes "ok")) × (answer ≡ said text))

  module _ (n m : ℕ) (line₁ line₂ text path : Bytes) (s : Shell)
      (second : tokenize line₂ ≡ cat ∷ path ∷ []) (is_open : IsOpen (hosts n) echo s)
      (in_rate : (hosts m).limit cat ≡ true) (text_mode : s.json_mode ≡ false) where
    written : Vfs × Bool → Answer × Shell
    written r =
        ended (hosts n)
          (audit_answer (hosts n) line₁ (ok_or_err r (noted line₁ (begun (hosts n) s))))

    Good : Vfs × Bool → Type 0
    Good r =
        Shown (expand_vars s.vars text) s (written r)
          (run_line hosts worlds (suc m) line₂ (written r).1).0

    failed_Good : Good (s.vfs, false)
    unfolding Good written ok_or_err audit_answer begun ended
    failed_Good = inl (
      refl,
      ap (λ (u : Shell). u.vfs)
          (audit-tag (hosts n) line₁ (codes "err")
            (with_files (noted line₁ (begun (hosts n) s)) s.vfs)).1,
    )

    written_Good :
        (root : Node)
        → Stored (segments (expand_vars s.vars path)) (expand_vars s.vars text) s.vfs.root root
        → Good (with_root s.vfs root, true)
    unfolding Good written ok_or_err audit_answer begun ended
    written_Good root w =
        let u : Shell = with_files (noted line₁ (begun (hosts n) s)) (with_root s.vfs root) in
        let after : Shell → Shell = λ u'. (ended (hosts n) (said (codes "ok"), u')).1 in
        let (tag, e) = audit-tag (hosts n) line₁ (codes "ok") u in
        inr (
          refl,
          subst
              (λ u'.
                (run_line hosts worlds (suc m) line₂ (after u')).0 ≡ said (expand_vars s.vars text))
              (sym e)
              (cat-said m line₂ path (expand_vars s.vars text)
                (after (record u { audit_prev_tag = tag })) second
                (record { no_rules = is_open.no_rules; no_log = is_open.no_log; in_rate = in_rate })
                text_mode (read-file_at (expand_vars s.vars path) (with_root s.vfs root) ∙ w.here)),
        )

    -- After `echo text path`, `cat path` shows the text, with the variables of both lines expanded, if
    -- `echo` says `ok`; if it does not, it says `err` and the file system is as it was. This is so on a
    -- shell in text mode without rules that does not log ahead, if both commands are within their rates.
    pub echo-cat :
        tokenize line₁ ≡ echo ∷ text ∷ path ∷ []
        → Shown
            (expand_vars s.vars text)
            s
            (run_line hosts worlds (suc n) line₁ s)
            (run_line hosts worlds (suc m) line₂ (run_line hosts worlds (suc n) line₁ s).1).0
    unfolding Good written
    echo-cat first =
        subst
          (λ (q : Answer × Shell).
            Shown (expand_vars s.vars text) s q (run_line hosts worlds (suc m) line₂ q.1).0)
          (sym (echo-audited n line₁ text path s first is_open))
          (elim (write-Outcome (expand_vars s.vars path) (expand_vars s.vars text) s.vfs) [
            | inl e ↦ subst Good (sym e) failed_Good
            | inr (root, e, w) ↦ subst Good (sym e) (written_Good root w)
          ])
