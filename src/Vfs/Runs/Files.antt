-- ===== src/Vfs/Runs/Files.antt =====
-- Every run of the operations is allowed by the map from paths to contents.
use neon_world_os.Base.{
  ℕ, Bool, true, false, List, [], ◌∷◌, ◌++◌, Option, none, some, ◌≡◌, refl, sym, ap, subst, inl,
  inr, arith, Bytes, if◌then◌else◌, take, All,
}
use neon_world_os.Vfs.Path.{segments, normalize_path}
use neon_world_os.Vfs.Tree.{Node, Loc, get}
use neon_world_os.Vfs.Tree.View.{file_at, file_at-get}
use neon_world_os.Vfs.State.{Vfs}
use neon_world_os.Vfs.Walk.Laws.{ensure, ensured, ensure_dir_lem}
use neon_world_os.Vfs.Walk.Ensure.{file_at-ensure}
use neon_world_os.Vfs.Files.{read, write, mkdir, mkdir_in, touch}
use neon_world_os.Vfs.Files.Writes.{read-file_at}
use neon_world_os.Vfs.Files.Write
use neon_world_os.Vfs.Files.Touch
use neon_world_os.Vfs.Links.{remove, copy, move}
use neon_world_os.Vfs.Links.Remove
use neon_world_os.Vfs.Links.Copy
use neon_world_os.Vfs.Links.Move
use neon_world_os.Vfs.Dump.{begin_tx, commit_tx}
use neon_world_os.Vfs.Edits.{Disk, or_empty, append, truncate}
use neon_world_os.Vfs.Edits.Laws.{Written, append-Written, truncate-Written}
use neon_world_os.Vfs.Runs.{
  Op, read_op, write_op, mkdir_op, touch_op, append_op, truncate_op, remove_op, copy_op, move_op,
  begin_op, commit_op, rollback_op, done, text, step, run,
}
use neon_world_os.Vfs.Runs.Contents.{
  contents_of, Sets, Clears, Makes, Copied, Moved, OrFails, Allows, IsPlain, Allowed, over, next,
}

Written-OrFails :
    (ks : Loc) (t : Bytes) (n n' : Node) (ok : Bool)
    → Written ks t n n' ok
    → OrFails
        (done ok)
        (λ qs. file_at qs n)
        (λ qs. file_at qs n')
        (Sets ks t (λ qs. file_at qs n) (λ qs. file_at qs n'))
Written-OrFails ks t n n' ok (inl (e, same)) = inl (ap done e, λ qs. ap (file_at qs) same)
Written-OrFails ks t n n' ok (inr (e, w)) = inr (ap done e, w)

write-Written :
    (path t : Bytes) (v : Vfs)
    → Written (segments path) t v.root (write path t v).0.root (write path t v).1
write-Written path t v = elim (Write.write-Outcome path t v) [
  | inl e ↦ inl (ap (λ (r : Vfs × Bool). r.1) e, ap (λ (r : Vfs × Bool). r.0.root) e)
  | inr (n, e, w) ↦
      subst (λ (r : Vfs × Bool). Written (segments path) t v.root r.0.root r.1) (sym e)
        (inr (refl, (w.here, w.elsewhere)))
]

-- The contents in terms of what `Read` gives.
from_read :
    (path : Bytes) (v : Vfs) (f : Bytes → Bytes)
    → f (or_empty (read path v)) ≡ f (or_empty (file_at (segments path) v.root))
from_read path v f = ap (λ (o : Option Bytes). f (or_empty o)) (read-file_at path v)

Same-if :
    (qs : Loc) (n : Node) (b : Bool) (r q : Vfs × Bool)
    → file_at qs r.0.root ≡ file_at qs n
    → file_at qs q.0.root ≡ file_at qs n
    → file_at qs (if b then r else q).0.root ≡ file_at qs n
Same-if qs n true r q hr hq = hr
Same-if qs n false r q hr hq = hq

mkdir_in-Same :
    (ks qs : Loc) (v : Vfs) → file_at qs (mkdir_in (ensured ks v.root) v).0.root ≡ file_at qs v.root
unfolding mkdir_in
mkdir_in-Same ks qs v = go (ensure ks v.root) refl
  where
    made : Option Node → Node × Option Loc
    made o = elim o [ none ↦ (v.root, none) | some r ↦ (r, some ks) ]

    go :
        (o : Option Node)
        → ensure ks v.root ≡ o
        → file_at qs (mkdir_in (made o) v).0.root ≡ file_at qs v.root
    go none e = refl
    go (some r) e = file_at-ensure ks qs v.root r e

mkdir-Same :
    (path : Bytes) (v : Vfs) (qs : Loc) → file_at qs (mkdir path v).0.root ≡ file_at qs v.root
unfolding mkdir
mkdir-Same path v qs =
    Same-if qs v.root v.sealed (v, false) _ refl
      (rw (ensure_dir_lem (normalize_path path) v.root)
        (mkdir_in-Same (segments (normalize_path path)) qs v))

begin-Same : (host : Bool) (v : Vfs) → (begin_tx host v).0.root ≡ v.root
unfolding begin_tx
begin-Same host v = ground arith

commit-Same : (v : Vfs) → (commit_tx v).0.root ≡ v.root
unfolding commit_tx
commit-Same v = ground arith

remove-OrFails :
    (path : Bytes) (recursive : Bool) (now : ℕ) (v : Vfs)
    → let r = remove path recursive now v in
      OrFails
        (done r.1)
        (λ qs. file_at qs v.root)
        (λ qs. file_at qs r.0.root)
        (Clears (segments path) (λ qs. file_at qs v.root) (λ qs. file_at qs r.0.root))
remove-OrFails path recursive now v = elim (Remove.remove-Outcome path recursive now v) [
  | inl (e, same) ↦ inl (ap done e, λ qs. ap (file_at qs) same)
  | inr (e, found, w) ↦ inr (
    ap done e,
    (
      λ ls. free (segments path ++ ls) (remove path recursive now v).0.root (w.gone ls),
      w.elsewhere,
    ),
  )
]
  where
    free : (ks : Loc) (n : Node) → get ks n ≡ none → file_at ks n ≡ none
    free ks n e = rw (file_at-get ks n, e)

touch-OrFails :
    (path : Bytes) (v : Vfs)
    → let r = touch path v in
      OrFails
        (done r.1)
        (λ qs. file_at qs v.root)
        (λ qs. file_at qs r.0.root)
        (Makes (segments path) (λ qs. file_at qs v.root) (λ qs. file_at qs r.0.root))
touch-OrFails path v = elim (Touch.touch-Outcome path v) [
  | inl (e, same) ↦ inl (ap done e, same)
  | inr (e, w) ↦ inr (ap done e, w)
]

copy-OrFails :
    (from to : Bytes) (recursive : Bool) (v : Vfs)
    → let r = copy from to recursive v in
      OrFails
        (done r.1)
        (λ qs. file_at qs v.root)
        (λ qs. file_at qs r.0.root)
        (Copied (segments from) (segments to) (λ qs. file_at qs v.root) (λ qs. file_at qs r.0.root))
copy-OrFails from to recursive v = elim (Copy.copy-Outcome from to recursive v) [
  | inl (e, same) ↦ inl (ap done e, same)
  | inr (e, w) ↦ inr (ap done e, (w.here, w.elsewhere))
]

move-OrFails :
    (from to : Bytes) (v : Vfs)
    → let r = move from to v in
      OrFails
        (done r.1)
        (λ qs. file_at qs v.root)
        (λ qs. file_at qs r.0.root)
        (Moved (segments from) (segments to) (λ qs. file_at qs v.root) (λ qs. file_at qs r.0.root))
move-OrFails from to v = elim (Move.move-Outcome from to v) [
  | inl (e, same) ↦ inl (ap done e, same)
  | inr (e, w) ↦ inr (ap done e, (w.gone, w.here, w.elsewhere))
]

step-Allows :
    (op : Op) (s : Disk)
    → IsPlain op
    → Allows op (step op s).1 (contents_of s) (contents_of (step op s).0)
unfolding step
step-Allows (read_op path) s h = (ap text (read-file_at path s.vfs), λ qs. refl)
step-Allows (write_op path t) s h =
    Written-OrFails (segments path) t s.vfs.root (write path t s.vfs).0.root (write path t s.vfs).1
      (write-Written path t s.vfs)
step-Allows (mkdir_op path) s h = mkdir-Same path s.vfs
step-Allows (touch_op path) s h = touch-OrFails path s.vfs
step-Allows (append_op path t x now now₁ now₂) s h =
    let r = append path t x now now₁ now₂ s in
    Written-OrFails (segments path) (or_empty (file_at (segments path) s.vfs.root) ++ t) s.vfs.root
      r.0.vfs.root r.1
      (subst (λ (u : Bytes). Written (segments path) u s.vfs.root r.0.vfs.root r.1)
        (from_read path s.vfs (λ u. u ++ t)) (append-Written path t x now now₁ now₂ s))
step-Allows (truncate_op path size x now now₁ now₂) s h =
    let r = truncate path size x now now₁ now₂ s in
    Written-OrFails (segments path) (take size (or_empty (file_at (segments path) s.vfs.root)))
      s.vfs.root r.0.vfs.root r.1
      (subst (λ (u : Bytes). Written (segments path) u s.vfs.root r.0.vfs.root r.1)
        (from_read path s.vfs (take size)) (truncate-Written path size x now now₁ now₂ s))
step-Allows (remove_op path recursive now) s h = remove-OrFails path recursive now s.vfs
step-Allows (copy_op from to recursive) s h = copy-OrFails from to recursive s.vfs
step-Allows (move_op from to) s h = move-OrFails from to s.vfs
step-Allows (begin_op host) s h = λ qs. ap (file_at qs) (begin-Same host s.vfs)
step-Allows commit_op s h = λ qs. ap (file_at qs) (commit-Same s.vfs)
step-Allows (rollback_op host) s h = absurd h

-- A run of calls, none of them a rollback, answers and changes the contents of the files, step by step, as
-- a map from paths to contents allows: a read answers what the map holds; new directories, begins and
-- commits change nothing; the others answer `false` and change nothing, or answer `true` and then a write,
-- an append, a truncation or a touch sets the content at its path alone, a removal clears its path and
-- what is below it, a copy has the contents of the old place at the new one, and a move has them there,
-- if the new place is not below the old one, and nothing at the old one.
pub run-Allowed :
    (ops : List Op) (s : Disk)
    → All IsPlain ops
    → Allowed ops (run ops s).1 (contents_of s) (contents_of (run ops s).0)
unfolding run
run-Allowed [] s h = over
run-Allowed (op ∷ ops) s (hop, h) = next (step-Allows op s hop) (run-Allowed ops (step op s).0 h)
