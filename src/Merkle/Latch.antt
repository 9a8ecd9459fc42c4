-- ===== src/Merkle/Latch.antt =====
-- The error latch: after a TPM command whose effect is unknown, no event is committed any more.
use bpfima.Base.{◌≡◌, ◌≢◌, Bool, Option, none, some, arith, Bytes, pos}
use bpfima.Hash.{Kernel, HashEntry, extend_hash, alloc_hash_entry}
use bpfima.Tpm.{extend_tpm_pcr_with_root}
use bpfima.Tpm.Command.{extend_tpm_pcr_started}
use bpfima.Node.{Measurement, Container}
use bpfima.Merkle.{
  Merkle, hardware_allowed, commit_fail, commit_check, checked_error, alloc_history_entry,
}
use bpfima.Merkle.Commit.{
  CommitEnv, Outcome, Prepared, publish_event, tpm_failed, commit_tpm, commit_value, commit_leaf,
  commit_measured, commit_deduplicated, commit_root_value, commit_checked, commit_event,
}

-- The globals that the latch is not part of, and the latch.
module _ (k : Kernel) (env : CommitEnv) where
  -- a transaction while an error is latched
  pub commit_event_latched :
      (c : Option Container) (entry : Option Measurement) (value source : Option Bytes)
      (deduplicate : Bool) (m : Merkle)
      → m.commit_error ≢ pos 0
      → (commit_event k env c entry value source deduplicate m)
        ≡ record { ret = m.commit_error; merkle = m; container = c; sent = none }
  unfolding commit_event commit_check checked_error
  commit_event_latched c entry value source d m h = ground arith

  -- A transaction that sent a command and did not return 0 has latched an error.
  abbrev LatchesSent : Outcome → Type 0
  LatchesSent o = o.ret ≢ pos 0 → o.sent ≢ none → o.merkle.commit_error ≢ pos 0

  commit_tpm-LatchesSent :
      (p : Prepared) (new_root : Bytes) (m : Merkle) → LatchesSent (commit_tpm k env p new_root m)
  unfolding commit_tpm tpm_failed publish_event commit_fail extend_tpm_pcr_with_root
  commit_tpm-LatchesSent p new_root m h s =
      ground (arith, extend_tpm_pcr_started env.tpm new_root (hardware_allowed m))

  commit_value-LatchesSent : (p : Prepared) (m : Merkle) → LatchesSent (commit_value k env p m)
  unfolding commit_value
  commit_value-LatchesSent p m h s =
      ground
        (arith, commit_tpm-LatchesSent p (extend_hash k m.tfm env.root_run m.root_hash p.value).1 m)

  commit_measured-LatchesSent :
      (hash : Option HashEntry) (c : Container) (entry : Measurement) (source : Option Bytes)
      (m : Merkle)
      → LatchesSent (commit_measured k env hash c entry source m)
  unfolding commit_measured commit_leaf alloc_history_entry
  commit_measured-LatchesSent hash c entry source m h s = grind (arith, commit_value-LatchesSent)

  commit_checked-LatchesSent :
      (c : Option Container) (entry : Option Measurement) (value source : Option Bytes)
      (deduplicate : Bool) (m : Merkle)
      → LatchesSent (commit_checked k env c entry value source deduplicate m)
  unfolding commit_checked commit_root_value commit_deduplicated alloc_history_entry
      alloc_hash_entry
  commit_checked-LatchesSent c entry none source d m h s = ground arith
  commit_checked-LatchesSent none entry (some v) source d m h s =
      grind (arith, commit_value-LatchesSent)
  commit_checked-LatchesSent (some c) none (some v) source d m h s = ground arith
  commit_checked-LatchesSent (some c) (some e) (some v) source d m h s =
      grind (arith, commit_measured-LatchesSent)

  -- A transaction that sent the TPM a command and did not return 0, so that the PCR may have
  -- changed without an event, leaves an error in the latch.
  pub commit_event_sent :
      (c : Option Container) (entry : Option Measurement) (value source : Option Bytes)
      (deduplicate : Bool) (m : Merkle)
      → (commit_event k env c entry value source deduplicate m).ret ≢ pos 0
      → (commit_event k env c entry value source deduplicate m).sent ≢ none
      → (commit_event k env c entry value source deduplicate m).merkle.commit_error ≢ pos 0
  unfolding commit_event
  commit_event_sent c entry value source d m h s =
      ground
        (arith, commit_checked-LatchesSent c entry value source d (commit_check m env.available).1)
