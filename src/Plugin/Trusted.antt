-- ===== src/Plugin/Trusted.antt =====
-- What a plugin is before its code runs.
use neon_world_os.Base.{
  ℕ, Bool, true, false, not, ◌++◌, Option, none, some, ◌≡◌, refl, inl, inr, ◌⊎◌, Bytes, codes,
  starts_with, ==_iff, if_by, ap,
}
use neon_world_os.Plugin.{
  Loader, plugin_path, abi_matches, register_plugin, open_plugin, load_plugin_at, load_plugin,
  plugin_abi_version,
}

module _ {S : Type 0} (world : Loader S) where
  -- The path that is opened is the absolute path that was asked for, or the path in the directory for
  -- plugins, and its canonical form begins with that of the directory.
  abbrev pub IsInside : Bytes → Bytes → Type 0
  IsInside path full =
      ((world.is_absolute path ≡ true) × (full ≡ path))
      ⊎ ((dir : Bytes) × (world.allowed ≡ some dir)
          × (full ≡ world.canonical (world.join_path dir path))
          × (starts_with full (world.canonical dir) ≡ true))

  -- The code of a library at such a path ran, which opened, has the version and lacks no function.
  abbrev pub Registered : Bytes → S → Bytes × S → Type 0
  Registered path s r =
      (full : Bytes) × IsInside path full
      × (world.opens full ≡ true)
      × (world.abi full ≡ some plugin_abi_version)
      × (world.symbol_error full ≡ none)
      × (r ≡ (codes "ok", world.register full s))

  -- The shell is as it was, and the answer is a message that begins with `err: `.
  abbrev pub Turned : S → Bytes × S → Type 0
  Turned s r = (message : Bytes) × (r ≡ (codes "err: " ++ message, s))

  -- The path is refused, or it is one of these.
  Routed : Bytes → Bool × Bytes → Type 0
  Routed path (true, full) = IsInside path full
  Routed path (false, refusal) = (message : Bytes) × (refusal ≡ codes "err: " ++ message)

  plugin_path-Routed :
      (path : Bytes) (o : Option Bytes) → world.allowed ≡ o → Routed path (plugin_path world path o)
  unfolding plugin_path Routed
  plugin_path-Routed path none e =
      if_by (Routed path) (world.is_absolute path) (true, path) _ (λ h. inl (h, refl))
        (λ h. (_, refl))
  plugin_path-Routed path (some dir) e =
      if_by (Routed path) (world.is_absolute path) _ _ (λ h. inl (h, refl))
        (λ h.
          if_by (Routed path) (starts_with _ _) _ _ (λ i. inr (dir, e, refl, i)) (λ i. (_, refl)))

  Loads : Bytes → S → Bytes × S → Type 0
  Loads path s r = Registered path s r ⊎ Turned s r

  open_of_not : (b : Bool) → not b ≡ false → b ≡ true
  open_of_not true e = refl
  open_of_not false e = cc

  abi_matches-eq : (o : Option ℕ) → abi_matches world o ≡ true → o ≡ some plugin_abi_version
  unfolding abi_matches
  abi_matches-eq none e = cc
  abi_matches-eq (some n) e = ap some ((==_iff n plugin_abi_version).0 e)

  register_plugin-Loads :
      (path full : Bytes) (o : Option Bytes) (s : S)
      → IsInside path full
      → world.opens full ≡ true
      → world.abi full ≡ some plugin_abi_version
      → world.symbol_error full ≡ o
      → Loads path s (register_plugin world full o s)
  unfolding register_plugin Loads
  register_plugin-Loads path full none s h opens abi e = inl (full, h, opens, abi, e, refl)
  register_plugin-Loads path full (some m) s h opens abi e = inr (m, refl)

  open_plugin-Loads :
      (path full : Bytes) (s : S) → IsInside path full → Loads path s (open_plugin world full s)
  unfolding open_plugin Loads
  open_plugin-Loads path full s h =
      if_by (Loads path s) (not (world.opens full)) _ _ (λ e. inr (world.open_error full, refl))
        (λ opens.
          if_by (Loads path s) (not (abi_matches world (world.abi full))) _ _
            (λ e. inr (codes "plugin ABI mismatch", refl))
            (λ e.
              register_plugin-Loads path full (world.symbol_error full) s h
                (open_of_not (world.opens full) opens)
                (abi_matches-eq (world.abi full) (open_of_not _ e)) refl))

  load_plugin_at-Loads :
      (path : Bytes) (r : Bool × Bytes) (s : S)
      → Routed path r
      → Loads path s (load_plugin_at world r s)
  unfolding load_plugin_at Routed Loads
  load_plugin_at-Loads path (true, full) s h = open_plugin-Loads path full s h
  load_plugin_at-Loads path (false, refusal) s (message, e) = inr (message, rw e refl)

  -- `LoadPlugin` runs the code of a library only if the path that was asked for is absolute, or its
  -- canonical form begins with that of the directory for plugins, and if the library opens, has the
  -- version of the interface and lacks no function; otherwise the answer is a message of an error, and
  -- the shell is as it was.
  pub load_plugin-Trusted :
      (path : Bytes) (s : S)
      → Registered path s (load_plugin world path s) ⊎ Turned s (load_plugin world path s)
  unfolding load_plugin Loads
  load_plugin-Trusted path s =
      load_plugin_at-Loads path (plugin_path world path world.allowed) s
        (plugin_path-Routed path world.allowed refl)
