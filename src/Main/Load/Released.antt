-- ===== src/Main/Load/Released.antt =====
-- Nothing stays behind a load that fails, nor behind a load and an unload.
use bpfima.Base.{
  ℕ, ◌≡◌, refl, sym, ap, ◌∙◌, ◌≢◌, Bool, true, false, Option, none, some, [], ◌∷◌, arith,
  if◌then◌else◌, is_zero, einval, is_zero_iff_eq, ℤ, pos,
}
use mathlib.Core.Path.{subst}
use bpfima.Tpm.{bad_pcr_index}
use bpfima.Main.{
  hash_tfm, cleanup_wq, null, live, Module, Answers, Loaded, failed_with, remove_global_policy,
  remove_global_policy_changes, securityfs_init, behind,
}
use bpfima.Main.Load.{
  hash_cleanup, container_cleanup, err_hash, err_containers, err_merkle_tfm, hash_init, load_files,
  load_tracing, load_kprobe, load_root, load_containers, bpfima_init, securityfs_cleanup,
  bpfima_exit,
}
use bpfima.Main.Load.States.{unloaded, loaded, before_files, three, IsBefore}
use bpfima.Main.Load.Files.{securityfs_init-IsUndone}

-- What a load leaves: the loaded module, or nothing, with nothing released twice.
record IsReleased (o : Loaded) : Type 0 where
  succeeded : o.ret ≡ pos 0 → o.state ≡ loaded
  failed : o.ret ≢ pos 0 → (o.state.held ≡ []) × (o.state.faults ≡ 0)

restated :
    (s : Module)
    → IsBefore s
    → s ≡ record s { held = three; faults = 0; merkle_tfm = live; sha256_tfm = live }
restated s b =
    ap (λ x. record s { held = x }) b.held
    ∙ ap (λ x. record s { held = three; faults = x }) b.faults
    ∙ ap (λ x. record s { held = three; faults = 0; merkle_tfm = x }) b.merkle_tfm
    ∙ ap (λ x. record s { held = three; faults = 0; merkle_tfm = live; sha256_tfm = x })
        b.sha256_tfm

err_merkle_tfm-held :
    (s : Module) → IsBefore s → ((err_merkle_tfm s).held ≡ []) × ((err_merkle_tfm s).faults ≡ 0)
unfolding err_merkle_tfm err_containers err_hash container_cleanup hash_cleanup
err_merkle_tfm-held s b =
    subst (λ t. ((err_merkle_tfm t).held ≡ []) × ((err_merkle_tfm t).faults ≡ 0))
      (sym (restated s b)) (refl, refl)

failed_with-IsReleased :
    (n : ℕ) (s : Module) → (s.held ≡ []) × (s.faults ≡ 0) → IsReleased (failed_with n s)
failed_with-IsReleased n s p = record { succeeded = λ h. absurd cc; failed = λ h. p }

before_files-IsBefore : IsBefore before_files
before_files-IsBefore = record { held = refl; faults = refl; merkle_tfm = refl; sha256_tfm = refl }

load_files-IsReleased : (env : Answers) → IsReleased (load_files env before_files)
unfolding load_files
load_files-IsReleased env =
    let o = securityfs_init env.main_dir env before_files in
    let u = securityfs_init-IsUndone env.main_dir env in
    elim (is_zero o.ret)
        as (λ b.
          is_zero o.ret ≡ b
          → IsReleased (if b then o else record o { state = err_merkle_tfm o.state })) [
            | true ↦ λ z. record {
              succeeded = u.succeeded;
              failed = λ h. absurd (h (is_zero_iff_eq o.ret z));
            }
            | false ↦ λ z. record {
              succeeded = λ h. absurd (ground (arith, z, h));
              failed = λ h. err_merkle_tfm-held o.state (u.failed h);
            }
          ]
      refl

load_root-IsReleased :
    (a : Option ℕ) (env : Answers)
    → IsReleased (
        load_root a env
          (record before_files { held = cleanup_wq ∷ hash_tfm ∷ []; merkle_tfm = null }))
unfolding load_root load_kprobe load_tracing err_containers err_hash container_cleanup hash_cleanup
load_root-IsReleased (some n) env = record {
  succeeded = λ h. absurd cc;
  failed = λ h. (refl, refl);
}
load_root-IsReleased none env = kprobe_step env.kprobe
  where
    tracing_step : (a : Option ℕ) → IsReleased (load_tracing a env before_files)
    tracing_step (some n) =
        failed_with-IsReleased n (err_merkle_tfm before_files)
          (err_merkle_tfm-held before_files before_files-IsBefore)
    tracing_step none = load_files-IsReleased env

    kprobe_step : (a : Option ℕ) → IsReleased (load_kprobe a env before_files)
    kprobe_step (some n) =
        failed_with-IsReleased n (err_merkle_tfm before_files)
          (err_merkle_tfm-held before_files before_files-IsBefore)
    kprobe_step none = tracing_step env.tracing

hash_init-IsReleased :
    (a : Option ℕ) (too_large workqueue : Bool) (env : Answers)
    → IsReleased (behind (hash_init a too_large unloaded) (load_containers workqueue env))
unfolding hash_init load_containers err_hash hash_cleanup
hash_init-IsReleased (some n) too_large workqueue env = record {
  succeeded = λ h. absurd cc;
  failed = λ h. (refl, refl);
}
hash_init-IsReleased none true workqueue env = record {
  succeeded = λ h. absurd cc;
  failed = λ h. (refl, refl);
}
hash_init-IsReleased none false false env = record {
  succeeded = λ h. absurd cc;
  failed = λ h. (refl, refl);
}
hash_init-IsReleased none false true env = load_root-IsReleased env.root_tfm env

bpfima_init-IsReleased :
    (pcr_index : ℤ) (env : Answers) → IsReleased (bpfima_init pcr_index env unloaded)
unfolding bpfima_init
bpfima_init-IsReleased pcr_index env =
    elim (bad_pcr_index pcr_index)
      as (λ b. IsReleased (
        if b
        then record { ret = einval; state = unloaded }
        else behind (hash_init env.hash_tfm env.desc_too_large unloaded)
            (load_containers env.workqueue env))) [
              | true ↦ record { succeeded = λ h. absurd cc; failed = λ h. (refl, refl) }
              | false ↦ hash_init-IsReleased env.hash_tfm env.desc_too_large env.workqueue env
            ]

loaded-bpfima_exit : ((bpfima_exit loaded).held ≡ []) × ((bpfima_exit loaded).faults ≡ 0)
unfolding bpfima_exit securityfs_cleanup container_cleanup hash_cleanup remove_global_policy
    remove_global_policy_changes
loaded-bpfima_exit = (refl, refl)

-- Wherever a load fails, everything that it had acquired is released, and nothing twice; and behind
-- a load that succeeds, an unload releases everything, and nothing twice.
pub bpfima_init-bpfima_exit :
    (pcr_index : ℤ) (env : Answers)
    → let o = bpfima_init pcr_index env unloaded in
      (o.ret ≢ pos 0 → (o.state.held ≡ []) × (o.state.faults ≡ 0))
      × (o.ret ≡ pos 0 → ((bpfima_exit o.state).held ≡ []) × ((bpfima_exit o.state).faults ≡ 0))
bpfima_init-bpfima_exit pcr_index env =
    let r = bpfima_init-IsReleased pcr_index env in
    (
      r.failed,
      λ h.
          subst (λ s. ((bpfima_exit s).held ≡ []) × ((bpfima_exit s).faults ≡ 0))
            (sym (r.succeeded h)) loaded-bpfima_exit,
    )
