-- ===== src/Merkle/Ledger/Outcomes.antt =====
-- What the transactions of src/merkle.c leave, whether they land, fail or find a latched error.
use bpfima.Base.{◌≡◌, ap, ◌≢◌, Bool, false, Option, none, some, arith, Bytes, pos}
use bpfima.Hash.{Kernel}
use bpfima.Node.{Measurement, Container}
use bpfima.Merkle.{Merkle, commit_check, checked_error}
use bpfima.Merkle.Commit.{Prepared, CommitEnv, Outcome, commit_measurement, commit_root}
use bpfima.Merkle.Atomic.{Kept, commit_event-RollsBack}
use bpfima.Merkle.Landed.{Landed}
use bpfima.Merkle.Latch.{commit_event_latched, commit_event_sent}
use bpfima.Merkle.Effect.{
  commit_measurement-Landed, commit_root-Landed, prepared_measurement, prepared_root, hash_of,
}

module _ (k : Kernel) where
  -- An outcome of a transaction: landed, or rolled back; latched if it failed and sent something;
  -- and of no effect at all while an error is latched.
  pub record Ends (env : CommitEnv) (p : Prepared) (m : Merkle) (o : Outcome) : Type 0 where
    pub landed : o.ret ≡ pos 0 → Landed k env m p o
    pub kept : o.ret ≢ pos 0 → Kept m o.merkle
    pub latches : o.ret ≢ pos 0 → o.sent ≢ none → o.merkle.commit_error ≢ pos 0
    pub latched :
        m.commit_error ≢ pos 0 → (o.ret ≡ m.commit_error) × (o.merkle ≡ m) × (o.sent ≡ none)

  pub check-Kept : (m : Merkle) (available : Bool) → Kept m (commit_check m available).1
  unfolding commit_check checked_error
  check-Kept m available = ground arith

  pub measurement-Kept :
      (env : CommitEnv) (c : Container) (entry : Measurement) (d : Bool) (m : Merkle)
      → (commit_measurement k env (some c) (some entry) d m).ret ≢ pos 0
      → Kept m (commit_measurement k env (some c) (some entry) d m).merkle
  unfolding commit_measurement
  measurement-Kept env c entry d m n =
      (commit_event-RollsBack k env (some c) (some entry) (some entry.digest) (some c.id) d m n).0

  pub policy-Kept :
      (env : CommitEnv) (value : Bytes) (source : Option Bytes) (m : Merkle)
      → (commit_root k env (some value) source m).ret ≢ pos 0
      → Kept m (commit_root k env (some value) source m).merkle
  unfolding commit_root
  policy-Kept env value source m n =
      (commit_event-RollsBack k env none none (some value) source false m n).0

  pub measurement-Ends :
      (env : CommitEnv) (c : Container) (entry : Measurement) (d : Bool) (m : Merkle)
      → Ends env
          (prepared_measurement k c entry (hash_of d c entry) (some c.id))
          m
          (commit_measurement k env (some c) (some entry) d m)
  unfolding commit_measurement
  measurement-Ends env c entry d m = record {
    landed = commit_measurement-Landed k env c entry d m;
    kept = measurement-Kept env c entry d m;
    latches = commit_event_sent k env (some c) (some entry) (some entry.digest) (some c.id) d m;
    latched = λ h.
        let e =
          commit_event_latched k env (some c) (some entry) (some entry.digest) (some c.id) d m h in
        (
          ap (λ (o : Outcome). o.ret) e,
          ap (λ (o : Outcome). o.merkle) e,
          ap (λ (o : Outcome). o.sent) e,
        );
  }

  pub policy-Ends :
      (env : CommitEnv) (value : Bytes) (source : Option Bytes) (m : Merkle)
      → Ends env (prepared_root value source) m (commit_root k env (some value) source m)
  unfolding commit_root
  policy-Ends env value source m = record {
    landed = commit_root-Landed k env value source m;
    kept = policy-Kept env value source m;
    latches = commit_event_sent k env none none (some value) source false m;
    latched = λ h.
        let e = commit_event_latched k env none none (some value) source false m h in
        (
          ap (λ (o : Outcome). o.ret) e,
          ap (λ (o : Outcome). o.merkle) e,
          ap (λ (o : Outcome). o.sent) e,
        );
  }

  -- a latched error stays
  pub check_latched :
      (m : Merkle) (available : Bool) → m.commit_error ≢ pos 0 → (commit_check m available).1 ≡ m
  unfolding commit_check checked_error
  check_latched m available h = ground arith
