-- ===== src/Main/Load/Files.antt =====
-- What `bpfima_securityfs_init` leaves, whichever of its steps fails.
use bpfima.Base.{
  ℕ, ◌≡◌, refl, sym, ap, ◌∙◌, ◌≢◌, true, false, Option, none, some, ◌∷◌, arith, ◌==◌, if◌then◌else◌,
  is_zero, is_zero_iff_eq, pos,
}
use mathlib.Core.Path.{subst}
use bpfima.Main.{
  main_dir, status, history, namespaces, policy, policy_map, Pointer, null, error_ptr, live,
  Answers, Loaded, remove_global_policy, securityfs_init, create_policy_apply, create_policy_map,
  create_global_policy, undo_namespaces, after_policy, init_changes, init_policy, init_namespaces,
  init_history, init_status, init_dir,
}
use bpfima.Main.Load.States.{
  remove_global_policy-with_policy, with_namespaces, with_policy, undo_status-top, three,
  undo_history-top, IsBefore-of_eq, IsUndone, undo_dir-top, failed_with-IsUndone, before_files,
  undo_namespaces-top, with_status, with_history, in_dir,
}

init_changes-IsUndone : (a : Option ℕ) → IsUndone (init_changes a with_policy)
unfolding init_changes
init_changes-IsUndone none = record { succeeded = λ h. refl; failed = λ h. absurd (h refl) }
init_changes-IsUndone (some n) =
    failed_with-IsUndone n _ (record before_files { changes_file = error_ptr n })
      (ap undo_namespaces (remove_global_policy-with_policy (error_ptr n))
        ∙ undo_namespaces-top (record before_files { changes_file = error_ptr n }) three)
      (record { held = refl; faults = refl; merkle_tfm = refl; sha256_tfm = refl })

-- The policy files: all three, or none but for an error pointer.
record IsPolicy (o : Loaded) : Type 0 where
  succeeded : o.ret ≡ pos 0 → o.state ≡ with_policy
  failed : o.ret ≢ pos 0 → (q : Pointer) × (o.state ≡ record with_namespaces { policy_file = q })

create_global_policy-IsPolicy :
    (a : Option ℕ) (env : Answers) → IsPolicy (create_global_policy a env with_namespaces)
unfolding create_global_policy create_policy_map create_policy_apply remove_global_policy
create_global_policy-IsPolicy (some n) env = record {
  succeeded = λ h. absurd cc;
  failed = λ h. (error_ptr n, refl);
}
create_global_policy-IsPolicy none env = map_step env.policy_map
  where
    apply_step :
        (a : Option ℕ)
        → IsPolicy (
            create_policy_apply a (record with_policy {
              held = policy_map ∷ policy ∷ namespaces ∷ history ∷ status ∷ main_dir ∷ three;
              apply_file = null;
            }))
    apply_step (some n) = record { succeeded = λ h. absurd cc; failed = λ h. (null, refl) }
    apply_step none = record { succeeded = λ h. refl; failed = λ h. absurd (h refl) }

    map_step :
        (a : Option ℕ)
        → IsPolicy (
            create_policy_map a env (record with_namespaces {
              held = policy ∷ namespaces ∷ history ∷ status ∷ main_dir ∷ three;
              policy_file = live;
            }))
    map_step (some n) = record { succeeded = λ h. absurd cc; failed = λ h. (null, refl) }
    map_step none = apply_step env.policy_apply_file

after_policy-IsUndone : (env : Answers) (o : Loaded) → IsPolicy o → IsUndone (after_policy env o)
unfolding after_policy
after_policy-IsUndone env o p =
    elim (is_zero o.ret)
        as (λ b.
          is_zero o.ret ≡ b
          → IsUndone (
              if b
              then init_changes env.policy_changes o.state
              else record o { state = undo_namespaces o.state })) [
                | true ↦ λ z.
                    subst (λ s. IsUndone (init_changes env.policy_changes s))
                      (sym (p.succeeded (is_zero_iff_eq o.ret z)))
                      (init_changes-IsUndone env.policy_changes)
                | false ↦ λ z.
                    let (q, e) = p.failed (λ h. ground (arith, z, h)) in
                    record {
                      succeeded = λ h. absurd (ground (arith, z, h));
                      failed = λ h.
                          IsBefore-of_eq (undo_namespaces o.state)
                            (record before_files { policy_file = q })
                            (ap undo_namespaces e
                              ∙ undo_namespaces-top (record before_files { policy_file = q }) three)
                            (record {
                              held = refl;
                              faults = refl;
                              merkle_tfm = refl;
                              sha256_tfm = refl;
                            });
                    }
              ]
      refl

init_namespaces-IsUndone :
    (a : Option ℕ) (env : Answers) → IsUndone (init_namespaces a env with_history)
unfolding init_namespaces init_policy
init_namespaces-IsUndone (some n) env =
    failed_with-IsUndone n _ (record before_files { containers_dir = error_ptr n })
      (undo_history-top (record before_files { containers_dir = error_ptr n }) three)
      (record { held = refl; faults = refl; merkle_tfm = refl; sha256_tfm = refl })
init_namespaces-IsUndone none env =
    after_policy-IsUndone env (create_global_policy env.policy env with_namespaces)
      (create_global_policy-IsPolicy env.policy env)

init_history-IsUndone : (a : Option ℕ) (env : Answers) → IsUndone (init_history a env with_status)
unfolding init_history
init_history-IsUndone (some n) env =
    failed_with-IsUndone n _ (record before_files { history_file = error_ptr n })
      (undo_status-top (record before_files { history_file = error_ptr n }) three)
      (record { held = refl; faults = refl; merkle_tfm = refl; sha256_tfm = refl })
init_history-IsUndone none env = init_namespaces-IsUndone env.namespaces env

init_status-IsUndone : (a : Option ℕ) (env : Answers) → IsUndone (init_status a env in_dir)
unfolding init_status
init_status-IsUndone (some n) env =
    failed_with-IsUndone n _ (record before_files { status_file = error_ptr n })
      (undo_dir-top (record before_files { status_file = error_ptr n }) three)
      (record { held = refl; faults = refl; merkle_tfm = refl; sha256_tfm = refl })
init_status-IsUndone none env = init_history-IsUndone env.history env

init_dir-IsUndone : (a : Option ℕ) (env : Answers) → IsUndone (init_dir a env before_files)
unfolding init_dir
init_dir-IsUndone (some n) env =
    failed_with-IsUndone n _ (record before_files { bpfima_dir = error_ptr n }) refl
      (record { held = refl; faults = refl; merkle_tfm = refl; sha256_tfm = refl })
init_dir-IsUndone none env = init_status-IsUndone env.status env

pub securityfs_init-IsUndone :
    (a : Option ℕ) (env : Answers) → IsUndone (securityfs_init a env before_files)
unfolding securityfs_init
securityfs_init-IsUndone none env = init_dir-IsUndone none env
securityfs_init-IsUndone (some n) env =
    elim (n == 16)
      as (λ b. IsUndone (
        if b
        then init_dir env.unique_dir env before_files
        else init_dir (some n) env before_files)) [
          | true ↦ init_dir-IsUndone env.unique_dir env
          | false ↦ init_dir-IsUndone (some n) env
        ]
