-- ===== src/Vfs/Dump/Entries.antt =====
-- The entries of a dump: what `SaveDump` prints, and what `LoadDump` makes of it.
use neon_world_os.Base.{
  ◌<◌, true, false, List, [], ◌∷◌, ◌++◌, ◌≡◌, refl, sym, ap, ◌∙◌, Bytes, codes, Lacks,
  if◌then◌else◌, length, append_assoc, append-nil,
}
use neon_world_os.Vfs.Path.{slash}
use neon_world_os.Vfs.Tree.{Node, Children, node, nil, entry, children}
use neon_world_os.Vfs.State.{Vfs, word_mod}
use neon_world_os.Vfs.Files.{mkdir, write}
use neon_world_os.Vfs.Dump.{newline, space, decimal, dump_path, write_node, write_nodes}

pub data Entry : Type 0 where
  dir_entry : Bytes → Entry
  file_entry : Bytes → Bytes → Entry

-- The entries of a tree, a directory before what is below it.
unfoldable mutual
  pub node_entries : Bytes → Node → List Entry
  node_entries prefix (node d name t cs) =
      let path = dump_path prefix name in
      let below = nodes_entries path cs in
      if d then dir_entry path ∷ below else file_entry path t ∷ []

  pub nodes_entries : Bytes → Children → List Entry
  nodes_entries prefix nil = []
  nodes_entries prefix (entry k n cs) = node_entries prefix n ++ nodes_entries prefix cs

-- A tree without nodes is the entry of its root.
unfoldable pub entries_of : Node → List Entry
unfolding nodes_entries
entries_of n = elim (children n) [
  | nil ↦ dir_entry (slash ∷ []) ∷ []
  | entry k m cs ↦ nodes_entries (slash ∷ []) (entry k m cs)
]

-- What a loader should do with the entries.
unfoldable pub perform : List Entry → Vfs → Vfs
perform [] v = v
perform (dir_entry path ∷ es) v = perform es (mkdir path v).0
perform (file_entry path t ∷ es) v = perform es (write path t v).0

-- The path of an entry stands on one line, and that of a file ends at the space behind it; the size
-- fits into `size_t`.
abbrev pub IsPlain : Entry → Type 0
IsPlain (dir_entry path) = Lacks newline path
IsPlain (file_entry path t) = Lacks newline path × Lacks space path × (length t < word_mod)

unfoldable pub entry_text : Entry → Bytes
entry_text (dir_entry path) = codes "DIR " ++ (path ++ newline ∷ [])
entry_text (file_entry path t) =
    codes "FILE " ++ (path ++ (space ∷ (decimal (length t) ++ (newline ∷ (t ++ newline ∷ [])))))

unfoldable pub text_of : List Entry → Bytes
unfolding entry_text
text_of [] = []
text_of (e ∷ es) = entry_text e ++ text_of es

text_of-append : (es fs : List Entry) → text_of (es ++ fs) ≡ text_of es ++ text_of fs
unfolding text_of
text_of-append [] fs = refl
text_of-append (e ∷ es) fs =
    ap (◌++◌ (entry_text e)) (text_of-append es fs)
    ∙ sym (append_assoc (entry_text e) (text_of es) (text_of fs))

mutual
  unfolding write_node node_entries text_of

  write_node-text_of :
      (prefix : Bytes) (n : Node) → write_node prefix n ≡ text_of (node_entries prefix n)
  write_node-text_of prefix (node true name t cs) =
      ap (λ s. codes "DIR " ++ (dump_path prefix name ++ newline ∷ s))
        (write_nodes-text_of (dump_path prefix name) cs)
      ∙ ap (◌++◌ (codes "DIR ")) (
          sym (
            append_assoc (dump_path prefix name) (newline ∷ [])
              (text_of (nodes_entries (dump_path prefix name) cs))))
  write_node-text_of prefix (node false name t cs) = sym (append-nil _)

  pub write_nodes-text_of :
      (prefix : Bytes) (cs : Children) → write_nodes prefix cs ≡ text_of (nodes_entries prefix cs)
  write_nodes-text_of prefix nil = refl
  write_nodes-text_of prefix (entry k n cs) =
      ap (λ s. s ++ write_nodes prefix cs) (write_node-text_of prefix n)
      ∙ ap (◌++◌ (text_of (node_entries prefix n))) (write_nodes-text_of prefix cs)
      ∙ sym (text_of-append (node_entries prefix n) (nodes_entries prefix cs))
