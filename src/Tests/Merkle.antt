-- ===== src/Tests/Merkle.antt =====
-- The Merkle transaction at concrete inputs.
use bpfima.Base.{
  ℕ, ◌+◌, ◌*◌, ◌≤◌, ◌<◌, ◌≡◌, refl, ◌≢◌, ◌⊎◌, true, false, none, some, List, [], ◌∷◌, ◌++◌, arith,
  length, take, drop, replicate, eio, ℤ, bytes, pos,
}
use bpfima.Hash.{alloc_hash_entry, extend_hash, hash_exists, bucket_has, HashEntry}
use bpfima.Tpm.{TpmEnv, extend_tpm_pcr, extend_tpm_pcr_with_root, extend_chip}
use bpfima.Merkle.{
  zero_hash, Merkle, HistoryEntry, initial, commit_check, commit_fail, alloc_history_entry,
}
use bpfima.Merkle.Trim.{
  trim_history, to_delete, aggregate_merkle_entries, aggregate_loop, run_error, aggregate_entry,
}
use bpfima.Merkle.Commit.{
  CommitEnv, Outcome, commit_event, commit_checked, commit_measured, commit_leaf, commit_value,
  commit_tpm, commit_deduplicated, commit_root_value, tpm_failed, publish_event, commit_measurement,
  commit_root,
}
use bpfima.Merkle.Atomic.{Kept, commit_event-RollsBack}
use bpfima.Merkle.Landed.{Landed}
use bpfima.Merkle.Effect.{commit_root-Landed, prepared_root}
use bpfima.Merkle.Latch.{commit_event_sent}
use bpfima.Merkle.Ledger.Invariant.{run-IsLedger}
use bpfima.Merkle.Ledger.Latched.{run_latched}
use bpfima.Merkle.Ledger.{
  Event, measure, policy, probe, Trace, start, run, IsLedger, replay, replay_from,
}
use bpfima.Merkle.History.{replay-history, trim_history_checkpoint}
use bpfima.Merkle.Retention.{
  entry_values, IsCounted, trim_history_succeeds, trim_history-IsCounted, trim_history-le,
  trim_history_small_limit,
}
use bpfima.Tests.Fixtures.{toy, chip, failing_chip, env_with, event, pod, trim_env}

abbrev entry : HashEntry
entry = record { sha256_hash = 7 ∷ []; namespace_id = bytes "pod" }

abbrev events : List Event
events =
    measure (env_with (some chip)) pod event true
    ∷ policy (env_with (some failing_chip)) (9 ∷ []) none
    ∷ measure (env_with (some chip)) pod event false
    ∷ probe true
    ∷ []

run-IsLedger_example : IsLedger toy (run toy start events)
run-IsLedger_example = run-IsLedger toy events

replay-history_example :
    (run toy start events).merkle.root_hash
    ≡ replay toy (entry_values (run toy start events).merkle.history)
replay-history_example = replay-history toy events (refl, (refl, (refl, (tt, tt))))

-- one transaction with all that it calls
commit_run : CommitEnv → Merkle → Outcome
unfolding commit_event commit_check commit_checked commit_deduplicated commit_measured commit_leaf
    commit_value commit_tpm tpm_failed publish_event commit_fail extend_tpm_pcr_with_root
    extend_tpm_pcr extend_chip alloc_hash_entry alloc_history_entry extend_hash hash_exists
    bucket_has bpfima.Tpm.bad_pcr_index bpfima.Tpm.has_sha256_bank commit_measurement commit_root
    commit_root_value
commit_run env m = commit_measurement toy env (some pod) (some event) true m

abbrev failing : CommitEnv
failing = env_with (some failing_chip)

abbrev refused : Outcome
refused =
    commit_event toy failing (some pod) (some event) (some (7 ∷ [])) (some (bytes "pod")) true
      initial

refused_ret : refused.ret ≡ eio
unfolding commit_run
refused_ret = refl

refused_sent :
    refused.sent
    ≡ some (
        record {
          alg_id = 11;
          digest = (toy.sha256 (zero_hash ++ toy.sha256 (0 ∷ 7 ∷ []))) ++ replicate 32 0;
        }
        ∷ [])
unfolding commit_run bpfima.Tpm.bank_digest
refused_sent = refl

commit_event-RollsBack_example : Kept initial refused.merkle × (refused.container ≡ some pod)
commit_event-RollsBack_example =
    commit_event-RollsBack toy failing (some pod) (some event) (some (7 ∷ [])) (some (bytes "pod"))
      true initial (λ e. cc refused_ret)

commit_event_sent_example : refused.merkle.commit_error ≢ pos 0
commit_event_sent_example =
    commit_event_sent toy failing (some pod) (some event) (some (7 ∷ [])) (some (bytes "pod")) true
      initial (λ e. cc refused_ret) (λ e. cc refused_sent)

-- the trace of a machine whose TPM has failed
abbrev latched : Trace
latched = record start { merkle = record initial { commit_error = eio } }

run_latched_example : run toy latched events ≡ latched
run_latched_example = run_latched toy events latched (λ e. cc e)

abbrev working : CommitEnv
working = env_with (some chip)

policy_ret : (commit_root toy working (some (9 ∷ [])) none initial).ret ≡ pos 0
unfolding commit_run
policy_ret = refl

commit_root-Landed_example :
    Landed toy working initial
      (prepared_root (9 ∷ []) none)
      (commit_root toy working (some (9 ∷ [])) none initial)
commit_root-Landed_example = commit_root-Landed toy working (9 ∷ []) none initial policy_ret

abbrev history_entry : ℕ → HistoryEntry
history_entry n = record {
  value = n ∷ [];
  source_container_id = [];
  is_aggregate = false;
  aggregated_count = 0;
}

abbrev three : List HistoryEntry
three = history_entry 1 ∷ history_entry 2 ∷ history_entry 3 ∷ []

-- three entries, with the root that they replay to
abbrev grown : Merkle
grown = record initial {
  history = three;
  history_count = 3;
  root_hash = replay toy (entry_values three);
}

grown-IsCounted : IsCounted grown
grown-IsCounted = omega arith

-- the steps of a trim
trim_run : ℕ → Merkle → ℤ × Merkle
unfolding trim_history to_delete aggregate_merkle_entries aggregate_loop run_error aggregate_entry
trim_run n m = trim_history toy n trim_env m

trim_two : (trim_history toy 2 trim_env grown).0 ≡ pos 0
unfolding trim_run
trim_two = refl

trim_history_small_limit_example : 2 < (trim_history toy 2 trim_env grown).1.history_count
trim_history_small_limit_example =
    trim_history_small_limit toy 2 trim_env grown grown-IsCounted (omega arith) (omega arith)
      (omega arith) trim_two

trim_history-IsCounted_example : IsCounted (trim_history toy 2 trim_env grown).1
trim_history-IsCounted_example = trim_history-IsCounted toy 2 trim_env grown grown-IsCounted

trim_history_checkpoint_example :
    (aggregate : HistoryEntry) × (kept : List HistoryEntry) × ((trim_history toy 2 trim_env
        grown).1.history
      ≡ aggregate ∷ kept)
    × (aggregate.is_aggregate ≡ true)
    × (grown.root_hash ≡ replay_from toy aggregate.value (entry_values kept))
trim_history_checkpoint_example =
    trim_history_checkpoint toy 2 trim_env grown (omega arith) refl trim_two

abbrev four : Merkle
four = record initial { history = history_entry 0 ∷ three; history_count = 4 }

four-IsCounted : IsCounted four
four-IsCounted = omega arith

trim_three : (trim_history toy 3 trim_env four).0 ≡ pos 0
unfolding trim_run
trim_three = refl

trim_history-le_example : (trim_history toy 3 trim_env four).1.history_count ≤ 3
trim_history-le_example =
    trim_history-le toy 3 trim_env four four-IsCounted (omega arith) (omega arith) trim_three

trim_history_succeeds_example :
    (n : ℕ) × (((2 * n ≤ 4) × (4 ≤ 2 * n + 1)) ⊎ ((◌≡◌ {A = ℕ} 4 1) × (n ≡ 1)))
    × (0 < n)
    × ((trim_history toy 3 trim_env four).1.history
        ≡ record {
          value = replay toy (entry_values (take n four.history));
          source_container_id = bytes "[AGGREGATE]";
          is_aggregate = true;
          aggregated_count = length (take n four.history);
        }
          ∷ drop n four.history)
trim_history_succeeds_example = trim_history_succeeds toy 3 trim_env four (omega arith) trim_three
