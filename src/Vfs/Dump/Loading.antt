-- ===== src/Vfs/Dump/Loading.antt =====
-- `LoadDump` ends, and what it makes of a file system that is sealed.
use neon_world_os.Base.{
  ℕ, zero, suc, ◌≤◌, ◌<◌, Bool, true, false, ◌||◌, [], ◌∷◌, Option, none, some, ◌≡◌, refl, ap, ◌∙◌,
  arith, Bytes, codes, if◌then◌else◌, length, drop, take, starts_with, is_empty, find_byte,
}
use mathlib.Core.Option
use neon_world_os.Vfs.Path.{slash}
use neon_world_os.Vfs.Tree.{new_dir}
use neon_world_os.Vfs.State.{Vfs, with_root}
use neon_world_os.Vfs.Files.{mkdir, write}
use neon_world_os.Vfs.Dump.{
  Loaded, stoul, line_of, after_line, read_content, skip_newline, load_file, load_line, load_loop,
  load_dump, rollback_tx, end_tx, space,
}

length-drop-le : (n : ℕ) (s : Bytes) → length (drop n s) ≤ length s
length-drop-le zero s = omega arith
length-drop-le (suc n) [] = omega arith
length-drop-le (suc n) (c ∷ s) = omega (arith, length-drop-le n s)

length-skip_newline-le : (s : Bytes) → length (skip_newline s) ≤ length s
unfolding skip_newline
length-skip_newline-le [] = omega arith
length-skip_newline-le (c ∷ s) = ground arith

length-after_line-le : (s : Bytes) → length (after_line s) ≤ length s
unfolding after_line
length-after_line-le [] = omega arith
length-after_line-le (c ∷ s) = ground (arith, length-after_line-le s)

length-after_line-lt : (c : ℕ) (s : Bytes) → length (after_line (c ∷ s)) ≤ length s
unfolding after_line
length-after_line-lt c s = ground (arith, length-after_line-le s)

-- A property of the state that `Mkdir` and `Write` keep.
module _ (I : Vfs → Type 0) (keep_mkdir : (p : Bytes) (v : Vfs) → I v → I (mkdir p v).0)
    (keep_write : (p t : Bytes) (v : Vfs) → I v → I (write p t v).0) where
  Ends : Loaded → Type 0
  Ends o = (r : Vfs × Bool) × (o ≡ some r) × I r.0

  pick : (b : Bool) (x y : Loaded) → Ends x → Ends y → Ends (elim b [ true ↦ x | false ↦ y ])
  pick true x y hx hy = hx
  pick false x y hx hy = hy

  load_file-Ends :
      (loop : Bytes → Vfs → Loaded) (n : ℕ) (o : Option ℕ) (l rest : Bytes) (v : Vfs)
      → ((s : Bytes) (w : Vfs) → length s ≤ n → I w → Ends (loop s w))
      → length rest ≤ n
      → I v
      → Ends (load_file loop o l rest v)
  unfolding load_file Ends
  load_file-Ends loop n none l rest v ends le i = ends rest v le i
  load_file-Ends loop n (some k) l rest v ends le i = go (stoul (drop (suc k) l))
    where
      go :
          (len : Option ℕ)
          → Ends (elim len [
            | none ↦ some (v, false)
            | some len ↦
                loop (skip_newline (drop len rest)) (write (take k l) (read_content len rest) v).0
          ])
      go none = ((v, false), refl, i)
      go (some len) =
          ends (skip_newline (drop len rest)) _
            (omega (arith, length-skip_newline-le (drop len rest), length-drop-le len rest))
            (keep_write _ _ v i)

  load_line-Ends :
      (loop : Bytes → Vfs → Loaded) (n : ℕ) (line rest : Bytes) (v : Vfs)
      → ((s : Bytes) (w : Vfs) → length s ≤ n → I w → Ends (loop s w))
      → length rest ≤ n
      → I v
      → Ends (load_line loop line rest v)
  unfolding load_line
  load_line-Ends loop n line rest v ends le i =
      pick (starts_with line (codes "#") || is_empty line) _ _ (ends rest v le i) (
        pick (starts_with line (codes "DIR ")) _ _ (ends rest _ le (keep_mkdir (drop 4 line) v i)) (
          pick (starts_with line (codes "FILE ")) _ _
            (load_file-Ends loop n (find_byte space (drop 5 line)) (drop 5 line) rest v ends le i)
            (ends rest v le i)))

  load_loop-Ends :
      (fuel : ℕ) (s : Bytes) (v : Vfs) → length s < fuel → I v → Ends (load_loop fuel s v)
  unfolding load_loop Ends
  load_loop-Ends zero s v lt i = absurd (omega arith)
  load_loop-Ends (suc fuel) [] v lt i = ((v, true), refl, i)
  load_loop-Ends (suc fuel) (c ∷ s) v lt i =
      load_line-Ends (load_loop fuel) (length s) (line_of (c ∷ s)) (after_line (c ∷ s)) v
        (λ t w le j. load_loop-Ends fuel t w (omega arith) j) (length-after_line-lt c s) i

  pub load_dump-keeps :
      (s : Bytes) (v : Vfs)
      → I (with_root v (new_dir (slash ∷ [])))
      → (r : Vfs × Bool) × (load_dump s v ≡ some r) × I r.0
  unfolding load_dump Ends
  load_dump-keeps s v i = load_loop-Ends (suc (length s)) s _ (omega arith) i

mkdir_sealed : (w : Vfs) (p : Bytes) (v : Vfs) → w.sealed ≡ true → v ≡ w → (mkdir p v).0 ≡ w
unfolding mkdir
mkdir_sealed w p v h e = rw (e, h)

write_sealed : (w : Vfs) (p t : Bytes) (v : Vfs) → w.sealed ≡ true → v ≡ w → (write p t v).0 ≡ w
unfolding write
write_sealed w p t v h e = rw (e, h) (ground arith)

-- `LoadDump` ends on every text, with a state, or with an exception: the rounds of its loop are at
-- most the bytes of the text.
pub load_dump-ends : (s : Bytes) (v : Vfs) → (r : Vfs × Bool) × (load_dump s v ≡ some r)
load_dump-ends s v =
    let (r, e, i) = load_dump-keeps (λ w. Unit) (λ p w i. tt) (λ p t w i. tt) s v tt in (r, e)

root_kept :
    (r : Vfs × Bool) → r.0.root ≡ new_dir (slash ∷ []) → (end_tx r).0.root ≡ new_dir (slash ∷ [])
root_kept (v, true) e = e
root_kept (v, false) e = e

if_true : {A : Type 0} (b : Bool) (x y : A) → b ≡ true → (if b then x else y) ≡ x
if_true true x y e = refl
if_true false x y e = absurd (cc)

rollback_tx_loaded :
    (v : Vfs) (r : Vfs × Bool)
    → v.tx_active ≡ true
    → load_dump v.tx_snapshot v ≡ some r
    → rollback_tx true v ≡ some (end_tx r)
unfolding rollback_tx
rollback_tx_loaded v r active e = if_true v.tx_active _ _ active ∙ ap (Option.map end_tx) e

-- A file system that is sealed loses its tree when an open transaction is rolled back, whatever the
-- snapshot holds, if the host gives a temporary file: the root is emptied first, and then no
-- directory is made and no file written.
pub rollback_tx-sealed :
    (v : Vfs)
    → v.sealed ≡ true
    → v.tx_active ≡ true
    → (r : Vfs × Bool) × (rollback_tx true v ≡ some r) × (r.0.root ≡ new_dir (slash ∷ []))
rollback_tx-sealed v h active =
    let w : Vfs = with_root v (new_dir (slash ∷ [])) in
    let (r, e, i) =
      load_dump-keeps (λ u. u ≡ w) (λ p u j. mkdir_sealed w p u h j)
        (λ p t u j. write_sealed w p t u h j) v.tx_snapshot v refl in
    (end_tx r, rollback_tx_loaded v r active e, root_kept r (ap (λ (u : Vfs). u.root) i))
