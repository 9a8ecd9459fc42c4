-- ===== src/Merkle/Ledger/Invariant.antt =====
-- The ledger is kept by every sequence of transactions and checks of src/merkle.c.
use bpfima.Base.{
  ◌≡◌, refl, sym, ap, ◌∙◌, ◌≢◌, inl, inr, Bool, Option, none, some, List, [], ◌∷◌, ◌++◌, append-nil,
  arith, if◌then◌else◌, Bool-cases, replicate, is_zero, is_zero_iff_eq, Bytes, pos,
}
use bpfima.Hash.{Kernel}
use bpfima.Tpm.{TpmDigest}
use bpfima.Tpm.Command.{pcr_write}
use bpfima.Merkle.{Merkle, zero_hash, hardware_allowed, commit_check}
use bpfima.Merkle.Commit.{Prepared, CommitEnv, Outcome, commit_measurement, commit_root}
use bpfima.Merkle.Landed.{Landed}
use bpfima.Merkle.Ledger.{
  Event, measure, policy, probe, Trace, start, appended, confirmed, recorded, step, run, roots_from,
  replay_from-append, roots_from-append, IsLedger,
}
use bpfima.Merkle.Ledger.Outcomes.{Ends, measurement-Ends, policy-Ends, check-Kept, check_latched}

module _ (k : Kernel) where
  -- without a latched error, only confirmed commands were sent
  clear-confirmed :
      (t : Trace) → IsLedger k t → t.merkle.commit_error ≡ pos 0 → t.sent ≡ confirmed k t
  clear-confirmed t h z =
      let (failed, e, latched) = h.commands in
      elim failed
          as (λ f.
            t.sent ≡ confirmed k t ++ appended f
            → (f ≢ none → t.merkle.commit_error ≢ pos 0)
            → t.sent ≡ confirmed k t) [
              | none ↦ λ e l. e ∙ append-nil (confirmed k t)
              | some b ↦ λ e l. absurd (l (λ q. cc) z)
            ]
        e latched

  Landed-commands :
      (env : CommitEnv) (p : Prepared) (o : Outcome) (t : Trace)
      → Landed k env t.merkle p o
      → IsLedger k t
      → t.sent ≡ confirmed k t
      → t.sent ++ appended (pcr_write o.sent) ≡ (
          if o.merkle.hardware_anchored
          then roots_from k zero_hash (t.values ++ p.value ∷ [])
          else [])
  unfolding hardware_allowed
  Landed-commands env p o t l h e = elim l.anchored [
    | inl ((a, allowed), w) ↦
        let before : confirmed k t ≡ roots_from k zero_hash t.values =
          ground (arith, allowed, h.marked) in
        rw a (
          rw w (
            ap (λ s. s ++ (k.sha256 (t.merkle.root_hash ++ p.value) ++ replicate 32 0) ∷ [])
              (e ∙ before)
            ∙ ap
                (λ r.
                  roots_from k zero_hash t.values
                  ++ (k.sha256 (r ++ p.value) ++ replicate 32 0) ∷ [])
                h.root
            ∙ sym (roots_from-append k zero_hash p.value t.values)))
    | inr ((a, b, chip), w) ↦
        let before : confirmed k t ≡ [] = rw b refl in rw a (rw w (append-nil t.sent ∙ e ∙ before))
  ]

  pcr_write_sent : (s : Option (List TpmDigest)) → pcr_write s ≢ none → s ≢ none
  pcr_write_sent none h = λ q. h refl
  pcr_write_sent (some ds) h = λ q. cc

  failed_commands :
      {env : CommitEnv} {p : Prepared} (o : Outcome) (t : Trace)
      → Ends k env p t.merkle o
      → o.ret ≢ pos 0
      → IsLedger k t
      → (failed : Option Bytes) × (t.sent ++ appended (pcr_write o.sent)
          ≡ confirmed k (record { merkle = o.merkle; values = t.values; sent = t.sent })
            ++ appended failed)
        × (failed ≢ none → o.merkle.commit_error ≢ pos 0)
  failed_commands o t ends n h =
      let same = (ends.kept n).hardware_anchored in
      let as_before : confirmed k (record { merkle = o.merkle; values = t.values; sent = t.sent })
          ≡ confirmed k t =
        rw same refl in
      elim (Bool-cases (is_zero t.merkle.commit_error)) [
        | inl z ↦ (
          pcr_write o.sent,
          ap (λ s. s ++ appended (pcr_write o.sent))
              (clear-confirmed t h (is_zero_iff_eq t.merkle.commit_error z) ∙ sym as_before),
          λ q. ends.latches n (pcr_write_sent o.sent q),
        )
        | inr nz ↦
            let error : t.merkle.commit_error ≢ pos 0 = λ q. ground (arith, q, nz) in
            let (_, m, s) = ends.latched error in
            (
              (h.commands).0,
              ap (λ (s : Option (List TpmDigest)). t.sent ++ appended (pcr_write s)) s
                  ∙ append-nil t.sent
                  ∙ (h.commands).1
                  ∙ ap (λ c. c ++ appended (h.commands).0) (sym as_before),
              λ _ q. error (ap (λ (m : Merkle). m.commit_error) (sym m) ∙ q),
            )
      ]

  -- A recorded outcome keeps the ledger.
  recorded-IsLedger :
      {env : CommitEnv} {p : Prepared} (o : Outcome) (t : Trace)
      → Ends k env p t.merkle o
      → IsLedger k t
      → IsLedger k (recorded k t p.value o)
  recorded-IsLedger {env} {p} o t ends h = elim (Bool-cases (is_zero o.ret)) [
    | inl z ↦
        let r = is_zero_iff_eq o.ret z in
        let l = ends.landed r in
        let clear : t.merkle.commit_error ≡ pos 0 =
          elim (Bool-cases (is_zero t.merkle.commit_error)) [
            | inl c ↦ is_zero_iff_eq t.merkle.commit_error c
            | inr c ↦ sym (ends.latched (λ q. ground (arith, q, c))).0 ∙ r
          ] in
        rw z (record {
          root =
              l.root_hash
              ∙ ap (λ x. k.sha256 (x ++ p.value)) h.root
              ∙ sym (replay_from-append k zero_hash p.value t.values);
          commands = (
            none,
            Landed-commands env p o t l h (clear-confirmed t h clear) ∙ sym (append-nil _),
            λ q. absurd (q refl),
          );
          marked = λ a. cc (l.software_committed);
        })
    | inr nz ↦
        let n : o.ret ≢ pos 0 = λ q. ground (arith, q, nz) in
        let kept = ends.kept n in
        rw nz (record {
          root = kept.root_hash ∙ h.root;
          commands = failed_commands o t ends n h;
          marked = λ a. h.marked (sym kept.software_committed ∙ a);
        })
  ]

  probed-IsLedger :
      (t : Trace) (available : Bool)
      → IsLedger k t
      → IsLedger k (record t { merkle = (commit_check t.merkle available).1 })
  probed-IsLedger t available h =
      let kept = check-Kept k t.merkle available in
      record {
        root = kept.root_hash ∙ h.root;
        commands = (
          (h.commands).0,
          rw kept.hardware_anchored (h.commands).1,
          λ q e.
              let error = (h.commands).2 q in
              error (
                ap (λ (m : Merkle). m.commit_error) (sym (check_latched k t.merkle available error))
                ∙ e),
        );
        marked = λ a. h.marked (sym kept.software_committed ∙ a);
      }

  pub step-IsLedger : (t : Trace) (e : Event) → IsLedger k t → IsLedger k (step k t e)
  unfolding step
  step-IsLedger t (measure env c entry d) h =
      recorded-IsLedger (commit_measurement k env (some c) (some entry) d t.merkle) t
        (measurement-Ends k env c entry d t.merkle) h
  step-IsLedger t (policy env value source) h =
      recorded-IsLedger (commit_root k env (some value) source t.merkle) t
        (policy-Ends k env value source t.merkle) h
  step-IsLedger t (probe available) h = probed-IsLedger t available h

  run_from-IsLedger : (es : List Event) (t : Trace) → IsLedger k t → IsLedger k (run k t es)
  unfolding run
  run_from-IsLedger [] t h = h
  run_from-IsLedger (e ∷ es) t h = run_from-IsLedger es (step k t e) (step-IsLedger t e h)

  start-IsLedger : IsLedger k start
  start-IsLedger = record {
    root = refl;
    commands = (none, refl, λ q. absurd (q refl));
    marked = λ a. refl;
  }

  -- Since the module was loaded, whatever the kernel, the TPM and the callers did: the Merkle root
  -- is the SHA-256 chain of the values whose commits returned 0. The commands that were sent to the
  -- SHA-256 bank, by whichever commits, are in a TPM-anchored epoch each root on the way, once and in
  -- order, and in any other epoch none; behind these there is at most one more, and then an error
  -- is latched. An epoch that is not marked has committed nothing.
  pub run-IsLedger : (es : List Event) → IsLedger k (run k start es)
  run-IsLedger es = run_from-IsLedger es start start-IsLedger
