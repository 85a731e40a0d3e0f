-- ===== src/Tests/VfsTests.antt =====
-- The virtual file system of src/vfs.cpp on small trees.
use neon_world_os.Base.{
  ℕ, List, ◌+◌, ◌≤◌, ◌<◌, ◌⊎◌, inl, inr, Bool-cases, str_eq_iff, true, false, [], ◌∷◌, some, ◌≡◌,
  refl, arith, Bytes, codes, str_eq, str_lt, find, find_last_of,
}
use neon_world_os.Vfs.Path.{
  normalize_path, segments, cut, flush, render, render_from, resolve, push_part,
}
use neon_world_os.Vfs.Tree.{calc_used, lookup, get, put, update, insert, replace, set_child}
use neon_world_os.Vfs.Walk.{traverse, ensure_dir, walk, ensure_walk, child_or_new}
use neon_world_os.Vfs.Walk.Laws.{traverse_lem, pointer_to, ensure_dir_lem, ensured}
use neon_world_os.Vfs.State.{Vfs, new_vfs}
use neon_world_os.Vfs.Files.{
  exists, read, used_bytes, mkdir, write, dir_of, name_of, over_quota, create, create_in, is_dir_at,
  fill,
}
use neon_world_os.Vfs.Files.Write
use neon_world_os.Vfs.Links.{move, remove}
use neon_world_os.Vfs.Links.Remove
use neon_world_os.Vfs.Locks.{lock, ends, lock-excludes}
use neon_world_os.Base.{if◌then◌else◌, length, none}
use neon_world_os.Vfs.Tree.{node, nil, entry}
use neon_world_os.Vfs.State.{new_meta}
use neon_world_os.Vfs.Metadata.{prune_orphans}
use neon_world_os.Vfs.Metadata.Laws.{prune_orphans_lem}
use neon_world_os.Vfs.Visit.{Visit, visits, Fsck, fsck}
use neon_world_os.Vfs.Visit.Laws.{IsTree, files_in, dirs_in, all_ok, fsck_lem}
use neon_world_os.Vfs.Quota.{best_quota_prefix}
use neon_world_os.Vfs.Quota.Best.{Longest, best_quota_prefix-Longest}
use neon_world_os.Base.{Bool}
use neon_world_os.Vfs.Tree.{new_dir, erase}
use neon_world_os.Vfs.Path.{slash}
use neon_world_os.Vfs.Dump.{save_dump, rollback_tx, dump_path, write_node}
use neon_world_os.Vfs.Dump.Loading.{rollback_tx-sealed}
use neon_world_os.Vfs.Cache.{Cache, new_cache, cache_put}
use neon_world_os.Vfs.Cache.Entries.{sum, IsMap, HasNode}
use neon_world_os.Vfs.Cache.Books.{IsConsistent}
use neon_world_os.Vfs.Cache.Consistent.{cache_put-IsConsistent}

abbrev file : Bytes
file = codes "/x/a.txt"

abbrev text : Bytes
text = codes "alpha"

abbrev written : Vfs
unfolding write mkdir
written = (write file text new_vfs).0

-- tests/test_vfs_dump.cpp: what is written is read back.
write_runs : (write file text new_vfs).1 ≡ true
unfolding write exists normalize_path segments traverse ensure_dir used_bytes calc_used read render
    render_from resolve cut flush push_part str_eq lookup find_last_of get put dir_of name_of walk
    over_quota create create_in is_dir_at update str_lt insert replace set_child fill ensure_walk
    child_or_new
write_runs = refl

traverse_example : traverse file written.root ≡ pointer_to [] (segments file) written.root
traverse_example = traverse_lem file written.root

ensure_dir_example :
    ensure_dir (codes "/x/y") written.root ≡ ensured (segments (codes "/x/y")) written.root
ensure_dir_example = ensure_dir_lem (codes "/x/y") written.root

write_example : Write.Outcome (segments file) text new_vfs (write file text new_vfs)
write_example = Write.write-Outcome file text new_vfs

abbrev limited : Vfs
limited = record new_vfs { quota_bytes = 8 }

write-quota_example : used_bytes (write file text limited).0 ≤ 8
unfolding write exists normalize_path segments traverse ensure_dir used_bytes calc_used read render
    render_from resolve cut flush push_part str_eq lookup find_last_of get put dir_of name_of walk
    over_quota
write-quota_example = Write.write-quota file text limited (omega arith) (omega arith) refl

remove_example : Remove.Outcome (segments file) true written.root (remove file true 5 written)
remove_example = Remove.remove-Outcome file true 5 written

abbrev held : Vfs
held = record new_vfs { locks_ms = (codes "/x/a.txt", 100) ∷ [] }

lock-excludes_example :
    ((lock (codes "/x//a.txt") 10 20 21 22 held).1 ≡ false)
    × (ends file (lock (codes "/x//a.txt") 10 20 21 22 held).0 ≡ some 100)
unfolding normalize_path segments cut flush find str_eq render render_from resolve push_part
lock-excludes_example =
    lock-excludes file (codes "/x//a.txt") 10 100 20 21 22 held refl refl (omega arith)
      (omega arith)

-- The root has metadata, and so has a file that is gone.
abbrev orphaned : Vfs
orphaned = record new_vfs { meta = (codes "/", new_meta) ∷ (codes "/gone", new_meta) ∷ [] }

prune_orphans_example :
    (find (codes "/gone") (prune_orphans orphaned).0.meta
      ≡ (if exists (codes "/gone") orphaned then find (codes "/gone") orphaned.meta else none))
    × (find (codes "/gone") (prune_orphans orphaned).0.xattrs
        ≡ (if exists (codes "/gone") orphaned then find (codes "/gone") orphaned.xattrs else none))
    × (length (prune_orphans orphaned).0.meta
          + length (prune_orphans orphaned).0.xattrs
          + (prune_orphans orphaned).1
        ≡ length orphaned.meta + length orphaned.xattrs)
prune_orphans_example = prune_orphans_lem (codes "/gone") orphaned

-- A directory with one file.
abbrev small : Vfs
small = record new_vfs {
  root = node true (codes "/") [] (entry (codes "a") (node false (codes "a") text nil) nil);
}

fsck_example :
    (f : Fsck) × (vs : List Visit) × (fsck small ≡ some f)
    × (visits small ≡ some vs)
    × (f.files ≡ files_in small.root)
    × (f.dirs ≡ dirs_in small.root)
    × (f.used ≡ used_bytes small)
    × (f.ok ≡ all_ok vs)
unfolding IsTree
fsck_example = fsck_lem small (refl, tt)

abbrev with_quotas : Vfs
with_quotas = record new_vfs { quota_limit = (codes "/x", 10) ∷ (codes "/x/y", 20) ∷ [] }

best_quota_prefix_example :
    Longest
      (codes "/x/y/z")
      []
      with_quotas.quota_limit
      (best_quota_prefix (codes "/x/y/z") with_quotas)
best_quota_prefix_example = best_quota_prefix-Longest (codes "/x/y/z") with_quotas

save_dump_runs : save_dump small ≡ codes "# NEON VFS dump v1\nFILE /a 5\nalpha\n"
unfolding save_dump write_node dump_path str_eq
save_dump_runs = refl

-- A transaction is open, and the file system is sealed.
abbrev sealed_tx : Vfs
sealed_tx = record small {
  sealed = true;
  tx_active = true;
  tx_snapshot = codes "FILE /a 5\nalpha\n";
}

rollback_tx-sealed_example :
    (r : Vfs × Bool) × (rollback_tx true sealed_tx ≡ some r) × (r.0.root ≡ new_dir (slash ∷ []))
rollback_tx-sealed_example = rollback_tx-sealed sealed_tx refl refl

-- A cache with one entry.
abbrev one_entry : Cache
one_entry = record new_cache {
  capacity = 8;
  size = 2;
  lru = (0, codes "/a") ∷ [];
  entries = (codes "/a", (codes "hi", 0)) ∷ [];
  fresh = 1;
}

one_entry-IsConsistent : IsConsistent one_entry
unfolding sum IsMap HasNode find
one_entry-IsConsistent = record {
  size = refl;
  small = omega arith;
  keys = (refl, tt);
  nodes = λ k v i e. elim (Bool-cases (str_eq (codes "/a") k)) [
    | inl same ↦ inl (ground (arith, e, same), (str_eq_iff (codes "/a") k).0 same)
    | inr other ↦ absurd (ground (arith, e, other))
  ];
  unique = λ i k l a b. same_key i k l a b;
  below = λ i k a. first i k a;
}
  where
    same_key :
        (i : ℕ) (k l : Bytes)
        → ((0 ≡ i) × (codes "/a" ≡ k)) ⊎ ⊥
        → ((0 ≡ i) × (codes "/a" ≡ l)) ⊎ ⊥
        → k ≡ l
    same_key i k l (inl (z, p)) (inl (z', q)) = cc (p, q)
    same_key i k l (inr a) b = absurd a
    same_key i k l a (inr b) = absurd b

    first : (i : ℕ) (k : Bytes) → ((0 ≡ i) × (codes "/a" ≡ k)) ⊎ ⊥ → i < 1
    first i k (inl (z, p)) = omega (arith, z)
    first i k (inr a) = absurd a

cache_put_example :
    IsConsistent (cache_put (codes "/b") text one_entry)
    × ((sum (cache_put (codes "/b") text one_entry).entries ≤ 8)
        ⊎ ((cache_put (codes "/b") text one_entry).entries ≡ []))
cache_put_example =
    cache_put-IsConsistent (codes "/b") text one_entry refl one_entry-IsConsistent (omega arith)

-- A directory that is moved into itself is lost.
abbrev nested : Vfs
nested = record new_vfs {
  root = node true (codes "/") [] (entry (codes "d") (new_dir (codes "d")) nil);
}

move_into_itself_runs :
    move (codes "/d") (codes "/d/e") nested ≡ (record nested { root = new_dir (slash ∷ []) }, true)
unfolding move normalize_path segments cut flush find str_eq render render_from resolve push_part
    traverse find_last_of lookup ensure_dir get put update erase
move_into_itself_runs = refl
