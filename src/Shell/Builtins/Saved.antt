-- ===== src/Shell/Builtins/Saved.antt =====
-- `savefs` of src/shell.cpp: the hash of the file that it wrote, block by block.
use neon_world_os.Base.{
  ℕ, zero, suc, ◌+◌, ◌-◌, ◌*◌, ◌%◌, ◌^◌, ◌<◌, Bool, true, false, List, [], ◌∷◌, ◌++◌, Option, none,
  some, ◌≡◌, refl, sym, ap, ◌∙◌, subst, arith, Bytes, codes, if◌then◌else◌, str_eq, take, drop,
  length, append_assoc, append-nil, find, assign, find-assign, str_eq_self,
}
use neon_world_os.Vfs.Dump.{save_dump}
use neon_world_os.Crypto.Sha.{Sha, new_sha, update, digest_of, hex}
use neon_world_os.Crypto.Sha.Feed.{feed, update-feed, update-append, take-append-drop}
use neon_world_os.Crypto.Sha.Digest.{sha_of, digest-sha_of}
use neon_world_os.Shell.State.{Shell, Answer, said}
use neon_world_os.Shell.Listing.{Outside, long_or, long_lines, listed_path}
use neon_world_os.Shell.Builtins.Files.{
  save_file, host_file, hash_blocks, hash_answer, listed, hash_file, wants_hash, after_save,
  run_savefs,
}

length-drop : (n : ℕ) (t : Bytes) → length (drop n t) ≡ length t - n
length-drop zero t = omega arith
length-drop (suc n) [] = omega arith
length-drop (suc n) (c ∷ t) = omega (arith, length-drop n t)

abbrev hashed : Bytes → Sha
hashed t = feed t (record new_sha { bitlen = (new_sha.bitlen + length t * 8) % 2 ^ 64 })

-- The blocks one after the other are the whole text.
hash_blocks-update :
    (fuel : ℕ) (s t : Bytes) (d : Sha)
    → update s new_sha ≡ some d
    → length t < fuel
    → hash_blocks fuel t (some d) ≡ update (s ++ t) new_sha
unfolding hash_blocks
hash_blocks-update zero s t d e lt = absurd (omega arith)
hash_blocks-update (suc fuel) s [] d e lt = sym e ∙ ap (λ u. update u new_sha) (sym (append-nil s))
hash_blocks-update (suc fuel) s (c ∷ t) d e lt =
    ap (hash_blocks fuel (drop 4096 (c ∷ t))) now
    ∙ hash_blocks-update fuel (s ++ take 4096 (c ∷ t)) (drop 4096 (c ∷ t))
        (hashed (s ++ take 4096 (c ∷ t))) next (omega (arith, length-drop 4096 (c ∷ t)))
    ∙ ap (λ u. update u new_sha)
        (append_assoc s (take 4096 (c ∷ t)) (drop 4096 (c ∷ t))
          ∙ ap (◌++◌ s) (take-append-drop 4096 (c ∷ t)))
  where
    next : update (s ++ take 4096 (c ∷ t)) new_sha ≡ some (hashed (s ++ take 4096 (c ∷ t)))
    next = update-feed (s ++ take 4096 (c ∷ t)) new_sha (omega arith)

    now : update (take 4096 (c ∷ t)) d ≡ some (hashed (s ++ take 4096 (c ∷ t)))
    now = update-append s (take 4096 (c ∷ t)) new_sha d (omega arith) e ∙ next

pub hash_blocks-sha_of :
    (t : Bytes) → digest_of (hash_blocks (suc (length t)) t (some new_sha)) ≡ some (sha_of t)
hash_blocks-sha_of t =
    ap digest_of
      (hash_blocks-update (suc (length t)) [] t new_sha (unfold update in refl) (omega arith))
    ∙ digest-sha_of t

-- What `savefs` leaves in the file, and what it says.
abbrev pub Saved : Bytes → Shell → Answer × Shell → Type 0
Saved name s r =
    (find name r.1.files ≡ some (save_dump s.vfs))
    × (r.0 ≡ said (codes "ok " ++ hex (sha_of (save_dump s.vfs))))

hash_file-some :
    (w : Outside) (c name : Bytes) (rest : List Bytes) (t : Bytes) (s : Shell)
    → str_eq name (codes "-l") ≡ false
    → hash_file w (c ∷ name ∷ rest) (some t) s ≡ (said (codes "ok " ++ hex (sha_of t)), s)
unfolding hash_file hash_answer listed long_or
hash_file-some w c name rest t s e =
    ap (λ (o : Option Bytes). listed w (c ∷ name ∷ rest) (hash_answer o, s)) (hash_blocks-sha_of t)
    ∙ ap
        (λ (b : Bool). (
          said (
              if b
              then long_lines (listed_path w.toks) s.vfs w.out
              else codes "ok " ++ hex (sha_of t)),
          s,
        ))
        e

-- `savefs` with `--sha256` writes the dump of the file system to the file of the host, and answers with
-- the hash of the dump in hexadecimal, though it hashes what it reads back in blocks of 4096 bytes, if the
-- file can be written and read and is not called `-l`. The hash is that of class `Sha256`, whose length
-- field is not the one of the standard.
pub savefs-sha_of :
    (w : Outside) (c name : Bytes) (rest : List Bytes) (s : Shell)
    → w.may_write name ≡ true
    → w.may_read name ≡ true
    → str_eq name (codes "-l") ≡ false
    → Saved name s (run_savefs w (c ∷ name ∷ codes "--sha256" ∷ rest) s)
unfolding run_savefs save_file after_save host_file wants_hash str_eq
savefs-sha_of w c name rest s may_write may_read other =
    subst (Saved name s) (sym path) (found, refl)
  where
    saved : Shell
    saved = record s { files = assign name (save_dump s.vfs) s.files }

    found : find name saved.files ≡ some (save_dump s.vfs)
    found =
        find-assign name name (save_dump s.vfs) s.files
        ∙ ap (λ b. if b then some (save_dump s.vfs) else find name s.files) (str_eq_self name)

    a : List Bytes
    a = c ∷ name ∷ codes "--sha256" ∷ rest

    path : run_savefs w a s ≡ (said (codes "ok " ++ hex (sha_of (save_dump s.vfs))), saved)
    path =
        ap
          (λ b.
            after_save w a (codes "--sha256" ∷ rest) name (if b then (saved, true) else (s, false)))
          may_write
        ∙ ap (λ (o : Option Bytes). hash_file w a o saved)
            (ap (λ b. if b then find name saved.files else none) may_read ∙ found)
        ∙ hash_file-some w c name (codes "--sha256" ∷ rest) (save_dump s.vfs) saved other
