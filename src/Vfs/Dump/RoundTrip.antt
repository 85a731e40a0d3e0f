-- ===== src/Vfs/Dump/RoundTrip.antt =====
-- `LoadDump` of what `SaveDump` prints.
use neon_world_os.Base.{
  ℕ, zero, suc, ◌<◌, true, false, List, [], ◌∷◌, ◌++◌, Option, none, some, ◌≡◌, ◌≢◌, refl, ap, ◌∙◌,
  arith, Bytes, codes, Lacks, All, All-append, length, length-append, take, drop,
  take-length-append, drop-length-append, drop-append, append_assoc, find_byte, starts_with,
}
use neon_world_os.Vfs.Path.{slash}
use neon_world_os.Vfs.Tree.{Children, nil, entry, children, new_dir}
use neon_world_os.Vfs.State.{Vfs, with_root}
use neon_world_os.Vfs.Files.{mkdir, write}
use neon_world_os.Vfs.Dump.{
  newline, space, decimal, dump_head, save_dump, write_nodes, stoul, line_of, after_line,
  read_content, skip_newline, Loaded, load_file, load_line, load_loop, load_dump,
}
use neon_world_os.Vfs.Dump.Decimal.{stoul-decimal, decimal-Lacks}
use neon_world_os.Vfs.Dump.Entries.{
  Entry, dir_entry, file_entry, entries_of, nodes_entries, perform, IsPlain, entry_text, text_of,
  write_nodes-text_of,
}

line_of-append : (l s : Bytes) → Lacks newline l → line_of (l ++ newline ∷ s) ≡ l
unfolding line_of
line_of-append [] s h = refl
line_of-append (c ∷ l) s (hc, h) = ground (arith, line_of-append l s h)

after_line-append : (l s : Bytes) → Lacks newline l → after_line (l ++ newline ∷ s) ≡ s
unfolding after_line
after_line-append [] s h = refl
after_line-append (c ∷ l) s (hc, h) = ground (arith, after_line-append l s h)

find_byte-append : (b : ℕ) (l s : Bytes) → Lacks b l → find_byte b (l ++ b ∷ s) ≡ some (length l)
unfolding find_byte
find_byte-append b [] s h = ground arith
find_byte-append b (c ∷ l) s (hc, h) = rw (find_byte-append b l s h) (ground arith)

read_content-append : (t s : Bytes) → read_content (length t) (t ++ s) ≡ t
unfolding read_content
read_content-append [] s = refl
read_content-append (c ∷ t) s = ap (◌∷◌ c) (read_content-append t s)

module _ (loop : Bytes → Vfs → Loaded) (rest : Bytes) (v : Vfs) where
  -- The line of a directory.
  load_line-dir :
      (path : Bytes) → load_line loop (codes "DIR " ++ path) rest v ≡ loop rest (mkdir path v).0
  unfolding load_line starts_with
  load_line-dir path = refl

  -- The call behind a size that was read.
  stored : Bytes → ℕ → Bytes → ℕ → Loaded
  stored l i text len =
      loop (skip_newline (drop len text)) (write (take i l) (read_content len text) v).0

  load_file-some :
      (l text : Bytes) (i len : ℕ)
      → stoul (drop (suc i) l) ≡ some len
      → load_file loop (some i) l text v ≡ stored l i text len
  unfolding load_file stored
  load_file-some l text i len e =
      ap
        (λ (o : Option ℕ). elim o as (λ _. Loaded) [
          | none ↦ some (v, false)
          | some k ↦ loop (skip_newline (drop k text)) (write (take i l) (read_content k text) v).0
        ])
        e

  stored-parts :
      (path t s : Bytes)
      → stored (path ++ space ∷ s) (length path) (t ++ newline ∷ rest) (length t)
        ≡ loop rest (write path t v).0
  unfolding stored skip_newline
  stored-parts path t s =
      ap
        (λ r.
          loop (skip_newline r)
            (write (take (length path) (path ++ space ∷ s))
              (read_content (length t) (t ++ newline ∷ rest)) v).0)
        (drop-append t (newline ∷ rest))
      ∙ ap (λ p. loop rest (write p (read_content (length t) (t ++ newline ∷ rest)) v).0)
          (take-length-append path (space ∷ s))
      ∙ ap (λ u. loop rest (write path u v).0) (read_content-append t (newline ∷ rest))

  -- The line of a file, with its content behind it.
  load_line-file :
      (path t : Bytes)
      → IsPlain (file_entry path t)
      → load_line loop
          (codes "FILE " ++ (path ++ space ∷ decimal (length t)))
          (t ++ newline ∷ rest)
          v
        ≡ loop rest (write path t v).0
  unfolding load_line starts_with
  load_line-file path t (one_line, no_space, fits) =
      let l : Bytes = path ++ space ∷ decimal (length t) in
      ap (λ o. load_file loop o l (t ++ newline ∷ rest) v)
        (find_byte-append space path (decimal (length t)) no_space)
      ∙ load_file-some l (t ++ newline ∷ rest) (length path) (length t) (
          ap stoul (drop-length-append path space (decimal (length t)))
          ∙ stoul-decimal (length t) fits)
      ∙ stored-parts path t (decimal (length t))

-- A round of the loop takes an entry.
load_loop-line :
    (fuel c : ℕ) (l rest : Bytes) (v : Vfs)
    → Lacks newline (c ∷ l)
    → load_loop (suc fuel) ((c ∷ l) ++ newline ∷ rest) v ≡ load_line (load_loop fuel) (c ∷ l) rest v
unfolding load_loop
load_loop-line fuel c l rest v h =
    ap (λ s. load_line (load_loop fuel) s (after_line ((c ∷ l) ++ newline ∷ rest)) v)
      (line_of-append (c ∷ l) rest h)
    ∙ ap (λ s. load_line (load_loop fuel) (c ∷ l) s v) (after_line-append (c ∷ l) rest h)

load_loop-dir :
    (fuel : ℕ) (path rest : Bytes) (v : Vfs)
    → IsPlain (dir_entry path)
    → load_loop (suc fuel) (entry_text (dir_entry path) ++ rest) v
      ≡ load_loop fuel rest (mkdir path v).0
unfolding entry_text
load_loop-dir fuel path rest v h =
    ap (λ s. load_loop (suc fuel) (codes "DIR " ++ s) v) (append_assoc path (newline ∷ []) rest)
    ∙ load_loop-line fuel b'D' (codes "IR " ++ path) rest v
        (λ i. omega arith, (λ i. omega arith, (λ i. omega arith, (λ i. omega arith, h))))
    ∙ load_line-dir (load_loop fuel) rest v path

load_loop-file :
    (fuel : ℕ) (path t rest : Bytes) (v : Vfs)
    → IsPlain (file_entry path t)
    → load_loop (suc fuel) (entry_text (file_entry path t) ++ rest) v
      ≡ load_loop fuel rest (write path t v).0
unfolding entry_text
load_loop-file fuel path t rest v (one_line, no_space, fits) =
    ap (λ s. load_loop (suc fuel) (codes "FILE " ++ s) v) apart
    ∙ load_loop-line fuel b'F' (codes "ILE " ++ (path ++ space ∷ decimal (length t)))
        (t ++ newline ∷ rest) v
        (
          λ i. omega arith,
          (
            λ i. omega arith,
            (
              λ i. omega arith,
              (
                λ i. omega arith,
                (
                  λ i. omega arith,
                  All-append (λ c. c ≢ newline) path (space ∷ decimal (length t)) one_line
                      (λ i. omega arith, decimal-Lacks newline (length t) (omega arith)),
                ),
              ),
            ),
          ),
        )
    ∙ load_line-file (load_loop fuel) rest v path t (one_line, no_space, fits)
  where
    apart :
        (path ++ (space ∷ (decimal (length t) ++ (newline ∷ (t ++ newline ∷ []))))) ++ rest
        ≡ (path ++ space ∷ decimal (length t)) ++ newline ∷ (t ++ newline ∷ rest)
    apart = simp append_assoc

load_loop-text_of :
    (fuel : ℕ) (es : List Entry) (v : Vfs)
    → All IsPlain es
    → length (text_of es) < fuel
    → load_loop fuel (text_of es) v ≡ some (perform es v, true)
unfolding text_of perform
load_loop-text_of zero es v h lt = absurd (omega arith)
load_loop-text_of (suc fuel) [] v h lt = unfold load_loop in refl
load_loop-text_of (suc fuel) (dir_entry path ∷ es) v (he, h) lt =
    load_loop-dir fuel path (text_of es) v he
    ∙ load_loop-text_of fuel es (mkdir path v).0 h (
        unfold entry_text in
        omega (arith, lt, length-append (entry_text (dir_entry path)) (text_of es)))
load_loop-text_of (suc fuel) (file_entry path t ∷ es) v (he, h) lt =
    load_loop-file fuel path t (text_of es) v he
    ∙ load_loop-text_of fuel es (write path t v).0 h (
        unfold entry_text in
        omega (arith, lt, length-append (entry_text (file_entry path t)) (text_of es)))

-- The dump is its head and the text of the entries.
save_dump-text_of : (v : Vfs) → save_dump v ≡ dump_head ++ text_of (entries_of v.root)
unfolding save_dump entries_of
save_dump-text_of v = by_children (children v.root)
  where
    by_children :
        (cs : Children)
        → (elim cs as (λ _. Bytes) [
          | nil ↦ dump_head ++ (codes "DIR /" ++ newline ∷ [])
          | entry k n rest ↦ dump_head ++ write_nodes (slash ∷ []) (entry k n rest)
        ])
          ≡ dump_head
            ++ text_of (elim cs as (λ _. List Entry) [
              | nil ↦ dir_entry (slash ∷ []) ∷ []
              | entry k m rest ↦ nodes_entries (slash ∷ []) (entry k m rest)
            ])
    by_children nil = unfold text_of entry_text in refl
    by_children (entry k n rest) =
        ap (◌++◌ dump_head) (write_nodes-text_of (slash ∷ []) (entry k n rest))

load_loop-head :
    (fuel : ℕ) (s : Bytes) (v : Vfs) → load_loop (suc fuel) (dump_head ++ s) v ≡ load_loop fuel s v
unfolding load_loop load_line line_of after_line starts_with
load_loop-head fuel s v = refl

-- `LoadDump` of what `SaveDump` printed of a file system throws nothing, and on an empty tree it makes
-- exactly these calls, whatever they return: for each node, a directory before what is below it, `Mkdir`
-- with the path that was printed of a directory, and `Write` with the path and the content, whatever bytes
-- it holds, that were printed of a file. No path holds a line break, no path of a file a space, and the
-- sizes fit into `size_t`.
pub load_dump-save_dump :
    (v w : Vfs)
    → All IsPlain (entries_of v.root)
    → load_dump (save_dump v) w
      ≡ some (perform (entries_of v.root) (with_root w (new_dir (slash ∷ []))), true)
unfolding load_dump
load_dump-save_dump v w h =
    let s : Bytes = text_of (entries_of v.root) in
    let u : Vfs = with_root w (new_dir (slash ∷ [])) in
    ap (λ t. load_loop (suc (length t)) t u) (save_dump-text_of v)
    ∙ load_loop-head (length (dump_head ++ s)) s u
    ∙ load_loop-text_of (length (dump_head ++ s)) (entries_of v.root) u h
        (omega (arith, length-append dump_head s))
