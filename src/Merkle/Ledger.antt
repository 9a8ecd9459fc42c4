-- ===== src/Merkle/Ledger.antt =====
-- Sequences of transactions since the module was loaded, against a ledger kept beside them: the
-- values that were committed, and what was sent to the TPM's SHA-256 bank, by commits that failed
-- too.
pub mod Outcomes
pub mod Invariant
pub mod Latched
use bpfima.Base.{
  ◌≡◌, refl, ◌≢◌, Bool, false, Option, none, some, List, [], ◌∷◌, ◌++◌, arith, if◌then◌else◌,
  replicate, is_zero, Bytes, pos,
}
use bpfima.Hash.{Kernel}
use bpfima.Tpm.Command.{pcr_write}
use bpfima.Node.{Measurement, Container}
use bpfima.Merkle.{Merkle, initial, zero_hash, hardware_allowed, commit_check, checked_error}
use bpfima.Merkle.Commit.{Prepared, CommitEnv, Outcome, commit_measurement, commit_root}
use bpfima.Merkle.Atomic.{Kept, commit_event-RollsBack}
use bpfima.Merkle.Landed.{Landed}
use bpfima.Merkle.Latch.{commit_event_latched, commit_event_sent}
use bpfima.Merkle.Effect.{
  commit_measurement-Landed, commit_root-Landed, prepared_measurement, prepared_root, hash_of,
}
use bpfima.Tpm.{TpmDigest}

-- A call into merkle.c that holds the commit mutex: a measurement for some container, a policy
-- event, or a check of the latch.
pub data Event : Type 0 where
  measure : CommitEnv → Container → Measurement → Bool → Event
  policy : CommitEnv → Bytes → Option Bytes → Event
  probe : Bool → Event

pub record Trace : Type 0 where
  pub merkle : Merkle
  pub values : List Bytes
  pub sent : List Bytes

abbrev pub start : Trace
start = record { merkle = initial; values = []; sent = [] }

abbrev pub appended : Option Bytes → List Bytes
appended none = []
appended (some b) = b ∷ []

module _ (k : Kernel) where
  -- The root that a list of committed values gives, the oldest first.
  abbrev pub replay_from : Bytes → List Bytes → Bytes
  replay_from root [] = root
  replay_from root (v ∷ vs) = replay_from (k.sha256 (root ++ v)) vs

  abbrev pub replay : List Bytes → Bytes
  replay vs = replay_from zero_hash vs

  -- Every root on the way, each as the TPM's buffer holds it.
  abbrev pub roots_from : Bytes → List Bytes → List Bytes
  roots_from root [] = []
  roots_from root (v ∷ vs) =
      (k.sha256 (root ++ v) ++ replicate 32 0) ∷ roots_from (k.sha256 (root ++ v)) vs

  -- The ledger after an outcome: the values grow by what returned 0, the commands by each that was
  -- sent, whatever was returned.
  abbrev pub recorded : Trace → Bytes → Outcome → Trace
  recorded t value o = record {
    merkle = o.merkle;
    values = if is_zero o.ret then t.values ++ value ∷ [] else t.values;
    sent = t.sent ++ appended (pcr_write o.sent);
  }

  unfoldable pub step : Trace → Event → Trace
  step t (measure env c entry deduplicate) =
      recorded t (k.sha256 (c.leaf_hash ++ entry.digest))
        (commit_measurement k env (some c) (some entry) deduplicate t.merkle)
  step t (policy env value source) =
      recorded t value (commit_root k env (some value) source t.merkle)
  step t (probe available) = record t { merkle = (commit_check t.merkle available).1 }

  unfoldable pub run : Trace → List Event → Trace
  run t [] = t
  run t (e ∷ es) = run (step t e) es

  pub replay_from-append :
      (root v : Bytes) (vs : List Bytes)
      → replay_from root (vs ++ v ∷ []) ≡ k.sha256 (replay_from root vs ++ v)
  replay_from-append root v [] = refl
  replay_from-append root v (w ∷ vs) = replay_from-append (k.sha256 (root ++ w)) v vs

  pub roots_from-append :
      (root v : Bytes) (vs : List Bytes)
      → roots_from root (vs ++ v ∷ [])
        ≡ roots_from root vs ++ (k.sha256 (replay_from root vs ++ v) ++ replicate 32 0) ∷ []
  roots_from-append root v [] = refl
  roots_from-append root v (w ∷ vs) = rw (roots_from-append (k.sha256 (root ++ w)) v vs)

  -- What the commits that returned 0 sent: every root, in order, if the epoch is anchored, and
  -- nothing if it is not.
  abbrev pub confirmed : Trace → List Bytes
  confirmed t = if t.merkle.hardware_anchored then roots_from zero_hash t.values else []

  -- The root is the replay of the committed values. The commands are those of the commits that
  -- returned 0, and behind them at most one more, with which an error was latched. The epoch is
  -- marked if something was committed.
  pub record IsLedger (t : Trace) : Type 0 where
    pub root : t.merkle.root_hash ≡ replay t.values
    pub commands :
        (failed : Option Bytes) × (t.sent ≡ confirmed t ++ appended failed)
        × (failed ≢ none → t.merkle.commit_error ≢ pos 0)
    pub marked : t.merkle.software_committed ≡ false → t.values ≡ []
