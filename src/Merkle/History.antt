-- ===== src/Merkle/History.antt =====
-- The history as a replay log of the root.
use bpfima.Base.{
  ℕ, zero, suc, ◌<◌, ◌≡◌, refl, sym, ap, ◌∙◌, ◌≢◌, inl, inr, true, some, List, [], ◌∷◌, ◌++◌, arith,
  Bool-cases, length, take, drop, All, is_zero, is_zero_iff_eq, Bytes, bytes, pos,
}
use bpfima.Hash.{Kernel}
use bpfima.Merkle.{Merkle, HistoryEntry, zero_hash}
use bpfima.Merkle.Trim.{TrimEnv, to_delete, trim_history}
use bpfima.Merkle.Commit.{CommitEnv, Outcome, Prepared, commit_measurement, commit_root}
use bpfima.Merkle.Atomic.{Kept}
use bpfima.Merkle.Landed.{Landed}
use bpfima.Merkle.Effect.{commit_measurement-Landed, commit_root-Landed}
use bpfima.Merkle.Ledger.{
  Event, measure, policy, probe, Trace, start, recorded, step, run, replay, replay_from,
}
use bpfima.Merkle.Ledger.Outcomes.{measurement-Kept, policy-Kept, check-Kept}
use bpfima.Merkle.Ledger.Invariant.{run-IsLedger}
use bpfima.Merkle.Retention.{entry_values, trim_history_aggregated}

-- No limit on the history is in force at the event.
abbrev pub Unlimited : Event → Type 0
Unlimited (measure env c entry deduplicate) = env.policy.merkle_history_max_size ≡ 0
Unlimited (policy env value source) = env.policy.merkle_history_max_size ≡ 0
Unlimited (probe available) = Unit

entry_values-append :
    (es : List HistoryEntry) (e : HistoryEntry)
    → entry_values (es ++ e ∷ []) ≡ entry_values es ++ e.value ∷ []
entry_values-append [] e = refl
entry_values-append (x ∷ es) e = ap (◌∷◌ x.value) (entry_values-append es e)

pub entry_values-take-drop :
    (n : ℕ) (es : List HistoryEntry)
    → entry_values (take n es) ++ entry_values (drop n es) ≡ entry_values es
entry_values-take-drop zero es = refl
entry_values-take-drop (suc n) [] = refl
entry_values-take-drop (suc n) (e ∷ es) = ap (◌∷◌ e.value) (entry_values-take-drop n es)

module _ (k : Kernel) where
  abbrev IsLog : Trace → Type 0
  IsLog t = entry_values t.merkle.history ≡ t.values

  recorded-IsLog :
      {env : CommitEnv} {p : Prepared} (o : Outcome) (t : Trace)
      → env.policy.merkle_history_max_size ≡ 0
      → (o.ret ≡ pos 0 → Landed k env t.merkle p o)
      → (o.ret ≢ pos 0 → Kept t.merkle o.merkle)
      → IsLog t
      → IsLog (recorded k t p.value o)
  recorded-IsLog {p = p} o t u landed kept h = elim (Bool-cases (is_zero o.ret)) [
    | inl z ↦ rw z (
        ap entry_values ((landed (is_zero_iff_eq o.ret z)).untrimmed u)
        ∙ entry_values-append t.merkle.history (record (p.history) { value = p.value })
        ∙ ap (λ vs. vs ++ p.value ∷ []) h)
    | inr nz ↦ rw nz (ap entry_values (kept (ground arith)).history ∙ h)
  ]

  step-IsLog : (t : Trace) (e : Event) → Unlimited e → IsLog t → IsLog (step k t e)
  unfolding step
  step-IsLog t (measure env c entry d) u h =
      recorded-IsLog (commit_measurement k env (some c) (some entry) d t.merkle) t u
        (commit_measurement-Landed k env c entry d t.merkle)
        (measurement-Kept k env c entry d t.merkle) h
  step-IsLog t (policy env value source) u h =
      recorded-IsLog (commit_root k env (some value) source t.merkle) t u
        (commit_root-Landed k env value source t.merkle) (policy-Kept k env value source t.merkle) h
  step-IsLog t (probe available) u h = ap entry_values (check-Kept k t.merkle available).history ∙ h

  run-IsLog : (es : List Event) (t : Trace) → All Unlimited es → IsLog t → IsLog (run k t es)
  unfolding run
  run-IsLog [] t u h = h
  run-IsLog (e ∷ es) t u h = run-IsLog es (step k t e) u.1 (step-IsLog t e u.0 h)

  -- While no limit is set, the history replays, from zero and in order, to the Merkle root.
  pub replay-history :
      (es : List Event)
      → All Unlimited es
      → (run k start es).merkle.root_hash ≡ replay k (entry_values (run k start es).merkle.history)
  replay-history es u = (run-IsLedger k es).root ∙ ap (replay k) (sym (run-IsLog es start u refl))

  replay_from-append_list :
      (root : Bytes) (vs ws : List Bytes)
      → replay_from k root (vs ++ ws) ≡ replay_from k (replay_from k root vs) ws
  replay_from-append_list root [] ws = refl
  replay_from-append_list root (v ∷ vs) ws = replay_from-append_list (k.sha256 (root ++ v)) vs ws

  -- The first trim of a history that replays to the root makes its aggregate a checkpoint: the
  -- entries behind it, replayed from the aggregate's value, still give the root.
  pub trim_history_checkpoint :
      (max_size : ℕ) (env : TrimEnv) (m : Merkle)
      → max_size < m.history_count
      → m.root_hash ≡ replay k (entry_values m.history)
      → (trim_history k max_size env m).0 ≡ pos 0
      → (aggregate : HistoryEntry) × (kept : List HistoryEntry) × ((trim_history k max_size env
            m).1.history
          ≡ aggregate ∷ kept)
        × (aggregate.is_aggregate ≡ true)
        × (m.root_hash ≡ replay_from k aggregate.value (entry_values kept))
  trim_history_checkpoint max_size env m long h ok =
      let n = to_delete m.history_count in
      (
        record {
          value = replay k (entry_values (take n m.history));
          source_container_id = bytes "[AGGREGATE]";
          is_aggregate = true;
          aggregated_count = length (take n m.history);
        },
        drop n m.history,
        trim_history_aggregated k max_size env m long ok,
        refl,
        h
            ∙ ap (replay k) (sym (entry_values-take-drop n m.history))
            ∙ replay_from-append_list zero_hash (entry_values (take n m.history))
                (entry_values (drop n m.history)),
      )
