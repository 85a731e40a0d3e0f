-- ===== src/Crypto/Merkle/Root.antt =====
-- The hash of the root.
use neon_world_os.Base.{ℕ, suc, true, [], ◌∷◌, some, ◌≡◌, sym, ◌∙◌, str_eq}
use neon_world_os.Vfs.Path.{
  slash, normalize_path, segments, cut, flush, resolve, render, render_from,
}
use neon_world_os.Vfs.Tree
use neon_world_os.Vfs.Tree.{Node, get, content}
use neon_world_os.Vfs.Walk.{traverse}
use neon_world_os.Vfs.State.{Vfs}
use neon_world_os.Vfs.Files.{stat, list}
use neon_world_os.Crypto.Merkle.{tree_hash, merkle_path, merkle_root}

stat-root : (v : Vfs) → Tree.is_dir v.root ≡ true → stat (slash ∷ []) v ≡ some (true, 0)
unfolding stat normalize_path segments cut flush resolve render render_from get traverse str_eq
stat-root v h = rw h

-- `MerkleRoot` gives every file system the same hash, whatever the files hold, since `List` returns no
-- names; the root is a directory in both.
pub merkle_root-blind :
    (fuel other : ℕ) (v w : Vfs)
    → Tree.is_dir v.root ≡ true
    → Tree.is_dir w.root ≡ true
    → merkle_root (suc fuel) v ≡ merkle_root (suc other) w
merkle_root-blind fuel other v w hv hw = empty fuel v hv ∙ sym (empty other w hw)
  where
    empty :
        (fuel : ℕ) (v : Vfs)
        → Tree.is_dir v.root ≡ true
        → merkle_root (suc fuel) v ≡ tree_hash [] (some [])
    empty fuel v h = unfold merkle_root list in rw (merkle_path, stat-root v h)
