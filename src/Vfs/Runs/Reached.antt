-- ===== src/Vfs/Runs/Reached.antt =====
-- Every state that the operations reach has a tree in which files have no children.
use neon_world_os.Base.{
  ℕ, Bool, true, false, not, List, [], ◌∷◌, ◌++◌, Option, none, some, ◌≡◌, refl, sym, subst, Bytes,
  if◌then◌else◌, ltb, length, take, ℤ, pos, sub_ℕ,
}
use mathlib.Core.Option
use neon_world_os.Vfs.Path.{slash, normalize_path}
use neon_world_os.Vfs.State.{Vfs, new_vfs}
use neon_world_os.Vfs.Files.{read, write, size_of, used_bytes}
use neon_world_os.Vfs.Links.{is_immutable}
use neon_world_os.Vfs.Locks.{locked, clean_locks}
use neon_world_os.Vfs.Metadata.{touch_meta}
use neon_world_os.Vfs.Dump.{Loaded, load_dump, begin_tx, commit_tx, rollback_tx, end_tx}
use neon_world_os.Vfs.Edits.{
  Disk, with_vfs, Stray, touch_written, append_free, truncate_free, guarded, append, truncate,
  quota_reserve, or_empty, is_none,
}
use neon_world_os.Vfs.Dump.Loading.{load_dump-keeps}
use neon_world_os.Vfs.Edits.Laws.{quota_reserve-root}
use neon_world_os.Vfs.Visit.Kept.{Rooted, new_dir-IsTree}
use neon_world_os.Vfs.Visit.{Fsck, fsck}
use neon_world_os.Vfs.Visit.Laws.{files_in, dirs_in, fsck_lem}
use neon_world_os.Vfs.Cache.{Cache}
use neon_world_os.Vfs.Runs.{
  Op, read_op, write_op, mkdir_op, touch_op, append_op, truncate_op, remove_op, copy_op, move_op,
  begin_op, commit_op, rollback_op, loaded_or, step, run,
}
use neon_world_os.Vfs.Runs.Trees.{Kept, Kept-if, write-Kept, mkdir-Kept, touch-Kept}
use neon_world_os.Vfs.Runs.Linked.{remove-Kept, copy-Kept, move-Kept}

touch_written-Kept :
    (norm : Bytes) (is_new : Bool) (now₁ now₂ : ℕ) (r : Vfs × Bool)
    → Kept r
    → Kept (touch_written norm is_new now₁ now₂ r)
unfolding touch_written touch_meta
touch_written-Kept norm is_new now₁ now₂ (v, true) h = h
touch_written-Kept norm is_new now₁ now₂ (v, false) h = h

append_free-Kept :
    (norm t : Bytes) (now₁ now₂ : ℕ) (v : Vfs)
    → Rooted v.root
    → Kept (append_free norm t now₁ now₂ v)
unfolding append_free
append_free-Kept norm t now₁ now₂ v h =
    touch_written-Kept norm (is_none (read norm v)) now₁ now₂
      (write norm (or_empty (read norm v) ++ t) v)
      (write-Kept norm (or_empty (read norm v) ++ t) v h)

truncate_free-Kept :
    (norm : Bytes) (size : ℕ) (o : Option Bytes) (now₁ now₂ : ℕ) (v : Vfs)
    → Rooted v.root
    → Kept (truncate_free norm size o now₁ now₂ v)
unfolding truncate_free
truncate_free-Kept norm size none now₁ now₂ v h = h
truncate_free-Kept norm size (some s) now₁ now₂ v h =
    touch_written-Kept norm false now₁ now₂
      (write norm (if ltb size (length s) then take size s else s) v)
      (write-Kept norm (if ltb size (length s) then take size s else s) v h)

abbrev KeptDisk : Disk × Bool → Type 0
KeptDisk r = Rooted r.0.vfs.root

KeptDisk-if :
    (b : Bool) (r q : Disk × Bool) → KeptDisk r → KeptDisk q → KeptDisk (if b then r else q)
KeptDisk-if true r q hr hq = hr
KeptDisk-if false r q hr hq = hq

guarded-Kept :
    (norm : Bytes) (now : ℕ) (act : Vfs → Vfs × Bool) (s : Disk) (reserved : Bool)
    → Rooted s.vfs.root
    → ((v : Vfs) → Rooted v.root → Kept (act v))
    → KeptDisk (guarded norm now act (s, reserved))
unfolding guarded locked clean_locks
guarded-Kept norm now act s reserved h hf =
    KeptDisk-if (not reserved) (s, false) _ h
      (KeptDisk-if (is_immutable norm s.vfs) (s, false) _ h
        (KeptDisk-if (locked norm now s.vfs).1 (with_vfs s (clean_locks now s.vfs), false) _ h
          (hf (clean_locks now s.vfs) h)))

reserved-Rooted :
    (norm : Bytes) (delta : ℤ) (x : Stray) (s : Disk)
    → Rooted s.vfs.root
    → Rooted (quota_reserve norm delta x s).0.vfs.root
reserved-Rooted norm delta x s h = subst Rooted (sym (quota_reserve-root norm delta x s)) h

append-Kept :
    (path t : Bytes) (x : Stray) (now now₁ now₂ : ℕ) (s : Disk)
    → Rooted s.vfs.root
    → KeptDisk (append path t x now now₁ now₂ s)
unfolding append
append-Kept path t x now now₁ now₂ s h =
    guarded-Kept (normalize_path path) now (append_free (normalize_path path) t now₁ now₂)
      (quota_reserve (normalize_path path) (pos (length t)) x s).0
      (quota_reserve (normalize_path path) (pos (length t)) x s).1
      (reserved-Rooted (normalize_path path) (pos (length t)) x s h)
      (append_free-Kept (normalize_path path) t now₁ now₂)

truncate-Kept :
    (path : Bytes) (size : ℕ) (x : Stray) (now now₁ now₂ : ℕ) (s : Disk)
    → Rooted s.vfs.root
    → KeptDisk (truncate path size x now now₁ now₂ s)
unfolding truncate
truncate-Kept path size x now now₁ now₂ s h =
    let norm = normalize_path path in
    let delta = sub_ℕ size (size_of (read norm s.vfs)) in
    guarded-Kept norm now (λ (v : Vfs). truncate_free norm size (read norm v) now₁ now₂ v)
      (quota_reserve norm delta x s).0 (quota_reserve norm delta x s).1
      (reserved-Rooted norm delta x s h)
      (λ v hv. truncate_free-Kept norm size (read norm v) now₁ now₂ v hv)

end_tx-Kept :
    (v : Vfs) (o : Loaded) (r : Vfs × Bool)
    → o ≡ some r
    → Kept r
    → Kept (loaded_or v (Option.map end_tx o))
end_tx-Kept v o (w, true) e h = rw e h
end_tx-Kept v o (w, false) e h = rw e h

rollback-Kept : (host : Bool) (v : Vfs) → Rooted v.root → Kept (loaded_or v (rollback_tx host v))
unfolding rollback_tx
rollback-Kept host v h = go v.tx_active host
  where
    loaded : Kept (loaded_or v (Option.map end_tx (load_dump v.tx_snapshot v)))
    loaded =
        let (r, e, i) =
          load_dump-keeps (λ w. Rooted w.root) mkdir-Kept write-Kept v.tx_snapshot v
            (refl, new_dir-IsTree (slash ∷ [])) in
        end_tx-Kept v (load_dump v.tx_snapshot v) r e i

    go :
        (active host : Bool)
        → Kept (
            loaded_or v (
              if active
              then if host
                then Option.map end_tx (load_dump v.tx_snapshot v)
                else some (record v { tx_active = false; tx_snapshot = [] }, false)
              else some (v, false)))
    go false host = h
    go true false = h
    go true true = loaded

begin-Kept : (host : Bool) (v : Vfs) → Rooted v.root → Kept (begin_tx host v)
unfolding begin_tx
begin-Kept host v h = Kept-if v.tx_active (v, false) _ h (Kept-if host _ (v, false) h h)

commit-Kept : (v : Vfs) → Rooted v.root → Kept (commit_tx v)
unfolding commit_tx
commit-Kept v h = Kept-if v.tx_active _ (v, false) h h

step-Kept : (op : Op) (s : Disk) → Rooted s.vfs.root → Rooted (step op s).0.vfs.root
unfolding step
step-Kept (read_op path) s h = h
step-Kept (write_op path t) s h = write-Kept path t s.vfs h
step-Kept (mkdir_op path) s h = mkdir-Kept path s.vfs h
step-Kept (touch_op path) s h = touch-Kept path s.vfs h
step-Kept (append_op path t x now now₁ now₂) s h = append-Kept path t x now now₁ now₂ s h
step-Kept (truncate_op path size x now now₁ now₂) s h = truncate-Kept path size x now now₁ now₂ s h
step-Kept (remove_op path recursive now) s h = remove-Kept path recursive now s.vfs h
step-Kept (copy_op from to recursive) s h = copy-Kept from to recursive s.vfs h
step-Kept (move_op from to) s h = move-Kept from to s.vfs h
step-Kept (begin_op host) s h = begin-Kept host s.vfs h
step-Kept commit_op s h = commit-Kept s.vfs h
step-Kept (rollback_op host) s h = rollback-Kept host s.vfs h

-- Whatever calls are made, on a state whose tree has a directory at its root and no children below a
-- file, leave such a state.
pub run-Rooted : (ops : List Op) (s : Disk) → Rooted s.vfs.root → Rooted (run ops s).0.vfs.root
unfolding run
run-Rooted [] s h = h
run-Rooted (op ∷ ops) s h = run-Rooted ops (step op s).0 (step-Kept op s h)

-- After any calls on a new file system, `FsckJson` comes to its end, counts each node once, as a file or
-- as a directory, and reports as used the bytes that `UsedBytes` reports.
pub run-fsck :
    (ops : List Op) (cache : Cache)
    → let v = (run ops (record { vfs = new_vfs; cache = cache })).0.vfs in
      (f : Fsck) × (fsck v ≡ some f)
      × (f.files ≡ files_in v.root)
      × (f.dirs ≡ dirs_in v.root)
      × (f.used ≡ used_bytes v)
run-fsck ops cache =
    let s : Disk = record { vfs = new_vfs; cache = cache } in
    let (f, vs, e, _, files, dirs, used, _) =
      fsck_lem (run ops s).0.vfs (run-Rooted ops s (refl, new_dir-IsTree (slash ∷ []))).1 in
    (f, e, files, dirs, used)
