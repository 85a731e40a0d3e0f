-- ===== src/Vfs/Files/Writes.antt =====
-- What `Read` reads, and what a write of a file changes in the tree.
use neon_world_os.Base.{
  ◌+◌, false, [], ◌∷◌, ◌++◌, none, some, ◌≡◌, ◌≢◌, refl, ap, ◌∙◌, inl, inr, arith, Bytes,
  if◌then◌else◌, length, str_eq_self, Option-cases,
}
use neon_world_os.Vfs.Path.{normalize_path, segments}
use neon_world_os.Vfs.Path.Normal.{segments-normalize_path}
use neon_world_os.Vfs.Tree.{
  Node, is_dir, content, with_content, new_file, set_child, Loc, get, update, calc_used, lookup,
  children,
}
use neon_world_os.Vfs.Tree.View.{
  file_at, file_at-get, file_at-with_content, file_at-new_file_ne, get-update, lookup-set_child,
  get-append, get_one, lookup_free,
}
use neon_world_os.Vfs.Tree.Used.{used-update, used-set_child_new}
use neon_world_os.Vfs.Walk.{traverse}
use neon_world_os.Vfs.Walk.Laws.{traverse_lem, pointer_to}
use neon_world_os.Vfs.State.{Vfs}
use neon_world_os.Vfs.Files.{read, fill, size_of}

-- The pointer that the operations get for a path.
pub traverse-normalize_path :
    (path : Bytes) (root : Node)
    → traverse (normalize_path path) root ≡ pointer_to [] (segments path) root
traverse-normalize_path path root =
    traverse_lem (normalize_path path) root
    ∙ ap (λ ks. pointer_to [] ks root) (segments-normalize_path path)

-- `Read` returns the content of the file that the names of the path lead to.
pub read-file_at : (path : Bytes) (v : Vfs) → read path v ≡ file_at (segments path) v.root
unfolding read
read-file_at path v =
    rw (traverse-normalize_path path v.root, read)
      (elim (Option-cases (get (segments path) v.root)) [
        | inl e ↦ rw (file_at-get (segments path) v.root, e)
        | inr (n, e) ↦ rw (file_at-get (segments path) v.root, e)
      ])

-- The tree after a successful `Write` of `text` at `ks`: the file has the text, every other file is
-- as it was, and the bytes in use differ by the two lengths.
pub record Writes (ks : Loc) (text : Bytes) (n n' : Node) : Type 0 where
  pub here : file_at ks n' ≡ some text
  pub elsewhere : (qs : Loc) → qs ≢ ks → file_at qs n' ≡ file_at qs n
  pub used : calc_used n' + size_of (file_at ks n) ≡ calc_used n + length text

file-content :
    (m : Node) → is_dir m ≡ false → (if is_dir m then none else some (content m)) ≡ some (content m)
file-content m d = rw d

pub file_at_file :
    (ks : Loc) (n m : Node) → get ks n ≡ some m → is_dir m ≡ false → file_at ks n ≡ some (content m)
file_at_file ks n m g d = rw (file_at-get ks n, g) (rw d)

with_content-fields :
    (m : Node) (text : Bytes)
    → is_dir m ≡ false
    → (is_dir (with_content m text) ≡ false)
      × (content (with_content m text) ≡ text)
      × (calc_used (with_content m text) + length (content m) ≡ calc_used m + length text)
unfolding calc_used
with_content-fields (Node.node d k t cs) text h = (h, refl, ground arith)

pub fill-Writes :
    (ks : Loc) (text : Bytes) (n m : Node)
    → get ks n ≡ some m
    → is_dir m ≡ false
    → Writes ks text n (fill ks text n)
unfolding fill
fill-Writes ks text n m g d =
    let (dir, same, used) = with_content-fields m text d in
    record {
      here =
          file_at_file ks _ (with_content m text)
            (rw (get-update ks (λ x. with_content x text) n, g)) dir
          ∙ ap some same;
      elsewhere = λ qs h. file_at-with_content ks qs text n h;
      used =
          rw (file_at_file ks n m g d)
            (omega (arith, used-update ks (λ x. with_content x text) n m g, used));
    }

-- The tree in which the file `b` was made in the directory at `ks`.
abbrev pub made : Loc → Bytes → Node → Node
made ks b n = update ks (set_child b (new_file b)) n

pub used-new_file : (b : Bytes) → calc_used (new_file b) ≡ 0
unfolding calc_used
used-new_file b = refl

module _ (ks : Loc) (b : Bytes) (n d : Node) (g : get ks n ≡ some d)
    (free : get (ks ++ b ∷ []) n ≡ none) where
  get-made : get (ks ++ b ∷ []) (made ks b n) ≡ some (new_file b)
  get-made =
      rw (get-append ks (b ∷ []) (made ks b n), get-update ks (set_child b (new_file b)) n, g)
        (get_one b (set_child b (new_file b) d)
          ∙ lookup-set_child b b (new_file b) d
          ∙ (rw (str_eq_self b)))

  absent : lookup b (children d) ≡ none
  absent = lookup_free ks b n d g free

  used-made : calc_used (made ks b n) ≡ calc_used n
  used-made = omega (
    arith,
    used-update ks (set_child b (new_file b)) n d g,
    used-set_child_new b (new_file b) d absent,
    used-new_file b,
  )

  pub file_at_free : file_at (ks ++ b ∷ []) n ≡ none
  file_at_free = rw (file_at-get (ks ++ b ∷ []) n, free)

  pub file_at-made : file_at (ks ++ b ∷ []) (made ks b n) ≡ some []
  file_at-made = file_at_file (ks ++ b ∷ []) (made ks b n) (new_file b) get-made refl

  pub made-Writes :
      (text : Bytes) → Writes (ks ++ b ∷ []) text n (fill (ks ++ b ∷ []) text (made ks b n))
  made-Writes text =
      let w = fill-Writes (ks ++ b ∷ []) text (made ks b n) (new_file b) get-made refl in
      record {
        here = w.here;
        elsewhere = λ qs h. w.elsewhere qs h ∙ file_at-new_file_ne ks qs b n h free;
        used = rw file_at_free (omega (arith, w.used, ap size_of file_at-made, used-made));
      }
