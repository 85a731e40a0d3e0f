-- ===== src/Vfs/Walk.antt =====
-- `Vfs::Traverse` and `Vfs::EnsureDir` of src/vfs.cpp: the two walks along a path.
pub mod Laws
pub mod Ensure
use neon_world_os.Base.{
  Bool, true, false, List, [], ◌∷◌, ◌++◌, map, Option, none, some, Bytes, ◌==◌, if◌then◌else◌,
  is_empty, str_eq, ◌||◌,
}
use mathlib.Core.Option
use neon_world_os.Vfs.Path.{slash, normalize_path}
use neon_world_os.Vfs.Tree.{Node, is_dir, children, with_children, new_dir, lookup, set_child, Loc}

-- A `Node*`: where it points, and what stands there.
abbrev pub Pointer : Type 0
Pointer = Loc × Node

-- `find(seg)` and the step to the child; `none` is `nullptr`.
unfoldable pub step_into : Bytes → Loc → Node → Option Pointer
step_into seg loc cur = Option.map (λ child. (loc ++ seg ∷ [], child)) (lookup seg (children cur))

-- The loop of `Traverse` over the characters, over `seg` and `cur`.
unfoldable pub walk : Bytes → Bytes → Loc → Node → Option Pointer
unfolding step_into
walk [] seg loc cur = if is_empty seg then some (loc, cur) else step_into seg loc cur
walk (c ∷ s) seg loc cur = elim (c == slash) [
  | true ↦ elim (is_empty seg) [
    | true ↦ walk s [] loc cur
    | false ↦ elim (step_into seg loc cur) [ none ↦ none | some (l, child) ↦ walk s [] l child ]
  ]
  | false ↦ walk s (seg ++ c ∷ []) loc cur
]

unfoldable pub traverse : Bytes → Node → Option Pointer
unfolding walk
traverse path root =
    let norm = normalize_path path in
    if is_empty norm || str_eq norm (slash ∷ []) then some ([], root) else walk norm [] [] root

-- `auto& child = cur->children[seg]`, made a directory if it is new.
unfoldable pub child_or_new : Bytes → Node → Node
child_or_new seg cur = elim (lookup seg (children cur)) [ some child ↦ child | none ↦ new_dir seg ]

-- The loop of `EnsureDir`: the tree with the directories that it made, and the pointer returned.
unfoldable pub ensure_walk : Bytes → Bytes → Node → Node × Option Loc
unfolding child_or_new set_child
ensure_walk [] seg cur = elim (is_empty seg) [
  | true ↦ (cur, some [])
  | false ↦
      let child = child_or_new seg cur in
      (set_child seg child cur, if is_dir child then some (seg ∷ []) else none)
]
ensure_walk (c ∷ s) seg cur = elim (c == slash) [
  | true ↦ elim (is_empty seg) [
    | true ↦ ensure_walk s [] cur
    | false ↦
        let child = child_or_new seg cur in
        elim (is_dir child) [
          | true ↦
              let (child', loc) = ensure_walk s [] child in
              (set_child seg child' cur, Option.map (λ l. seg ∷ l) loc)
          | false ↦ (set_child seg child cur, none)
        ]
  ]
  | false ↦ ensure_walk s (seg ++ c ∷ []) cur
]

unfoldable pub ensure_dir : Bytes → Node → Node × Option Loc
unfolding ensure_walk
ensure_dir path root =
    let norm = normalize_path path in
    if is_empty norm || str_eq norm (slash ∷ []) then (root, some []) else ensure_walk norm [] root
