-- ===== src/Shell/Builtins/Steady/Table.antt =====
-- Every command of the table.
use neon_world_os.Base.{List, [], ◌∷◌, ◌≡◌, Bytes, All}
use neon_world_os.Vfs.Dump.{space}
use neon_world_os.Util.{join}
use neon_world_os.Shell.Builtins.{builtins}
use neon_world_os.Shell.State.{Shell, Answer, said, threw, Run, Handler}
use neon_world_os.Shell.Listing.{Outside}
use neon_world_os.Shell.Builtins.Steady.{IsGuest, Good, Good-same}
use neon_world_os.Shell.Builtins.Steady.Files.{
  run_ls-Good, run_mkdir-Good, run_touch-Good, run_echo-Good, run_cat-Good, run_loadfs-Good,
  run_tree-Good, run_savefs-Good,
}
use neon_world_os.Shell.Builtins.Steady.Controls.{
  run_mode-Good, run_ps-Good, run_kill-Good, run_history-Good, run_audit-Good, run_seal-Good,
  run_policy-Good, run_time-Good, run_trace-Good, run_schema-Good, run_plugin-Good,
}

module _ (R : Answer → Type 0) (texts : (t : Bytes) → R (said t)) (throws : R threw) where
  -- Every command of the table, if `Exec` does so on what stands behind `time`.
  pub builtins-Good :
      (w : Outside) (run : Run) (a : List Bytes) (s : Shell)
      → IsGuest w
      → ((c x : Bytes) (rest : List Bytes)
          → a ≡ c ∷ x ∷ rest
          → Good R s (run (join (x ∷ rest) (space ∷ [])) s))
      → All (λ (e : Bytes × Handler). Good R s (e.1 a s)) (builtins w run)
  unfolding builtins
  builtins-Good w run a s guest keep = (
    Good-same R texts throws s _,
    (
      run_mode-Good R texts throws a s,
      (
        run_ls-Good R texts throws a s,
        (
          run_mkdir-Good R texts throws a s,
          (
            run_touch-Good R texts throws a s,
            (
              run_echo-Good R texts throws a s,
              (
                run_cat-Good R texts throws a s,
                (
                  run_ps-Good R texts throws w a s,
                  (
                    run_kill-Good R texts throws a s,
                    (
                      run_savefs-Good R texts throws w a s,
                      (
                        run_loadfs-Good R texts throws w a s,
                        (
                          run_tree-Good R texts throws w a s,
                          (
                            run_history-Good R texts throws w a s,
                            (
                              run_plugin-Good R texts throws w a s guest,
                              (
                                run_audit-Good R texts throws a s,
                                (
                                  run_seal-Good R texts throws a s,
                                  (
                                    run_policy-Good R texts throws a s,
                                    (
                                      run_time-Good R texts throws w run a s keep,
                                      (
                                        run_trace-Good R texts throws w a s,
                                        (
                                          run_schema-Good R texts throws a s,
                                          (Good-same R texts throws s _, tt),
                                        ),
                                      ),
                                    ),
                                  ),
                                ),
                              ),
                            ),
                          ),
                        ),
                      ),
                    ),
                  ),
                ),
              ),
            ),
          ),
        ),
      ),
    ),
  )
