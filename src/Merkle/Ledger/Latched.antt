-- ===== src/Merkle/Ledger/Latched.antt =====
-- Sequences of transactions while the error of src/merkle.c is latched.
use bpfima.Base.{
  ◌≡◌, refl, ap, ◌∙◌, ◌≢◌, false, some, List, [], ◌∷◌, append-nil, arith, is_zero, pos,
}
use bpfima.Hash.{Kernel}
use bpfima.Merkle.{Merkle}
use bpfima.Merkle.Commit.{CommitEnv, Outcome, Prepared, commit_measurement, commit_root}
use bpfima.Merkle.Ledger.{Event, measure, policy, probe, Trace, recorded, step, run}
use bpfima.Merkle.Ledger.Outcomes.{Ends, measurement-Ends, policy-Ends, check_latched}

module _ (k : Kernel) where
  recorded_latched :
      {env : CommitEnv} {p : Prepared} (o : Outcome) (t : Trace)
      → Ends k env p t.merkle o
      → t.merkle.commit_error ≢ pos 0
      → recorded k t p.value o ≡ t
  recorded_latched {p = p} o t ends n =
      let (r, m, s) = ends.latched n in
      let nz : is_zero o.ret ≡ false = ground (arith, r, n) in
      rw nz (rw s (rw m (rw (append-nil t.sent) refl)))

  step_latched : (t : Trace) (e : Event) → t.merkle.commit_error ≢ pos 0 → step k t e ≡ t
  unfolding step
  step_latched t (measure env c entry d) n =
      recorded_latched (commit_measurement k env (some c) (some entry) d t.merkle) t
        (measurement-Ends k env c entry d t.merkle) n
  step_latched t (policy env value source) n =
      recorded_latched (commit_root k env (some value) source t.merkle) t
        (policy-Ends k env value source t.merkle) n
  step_latched t (probe available) n =
      ap (λ (m : Merkle). record { merkle = m; values = t.values; sent = t.sent })
        (check_latched k t.merkle available n)

  -- Once an error is latched, no sequence of commits and checks, whatever the TPM does, changes
  -- anything of the module's globals, commits a value or sends a command: the latch never opens.
  pub run_latched : (es : List Event) (t : Trace) → t.merkle.commit_error ≢ pos 0 → run k t es ≡ t
  unfolding run
  run_latched [] t n = refl
  run_latched (e ∷ es) t n = ap (λ s. run k s es) (step_latched t e n) ∙ run_latched es t n
