-- ===== src/Merkle/Atomic.antt =====
-- A transaction that does not return 0 publishes nothing.
use bpfima.Base.{◌≡◌, ◌≢◌, Bool, Option, none, some, Bytes, pos, arith}
use bpfima.Hash.{Kernel, HashEntry, extend_hash, alloc_hash_entry}
use bpfima.Node.{Measurement, Container}
use bpfima.Merkle.{Merkle, HistoryEntry, commit_fail, commit_check, alloc_history_entry}
use bpfima.Merkle.Commit.{
  CommitEnv, Outcome, Prepared, leaf_node, tpm_failed, publish_event, commit_tpm, commit_value,
  commit_leaf, commit_measured, commit_deduplicated, commit_root_value, commit_checked,
  commit_event,
}

-- All of the globals but the error latch are as they were.
pub record Kept (a b : Merkle) : Type 0 where
  pub root_hash : b.root_hash ≡ a.root_hash
  pub tfm : b.tfm ≡ a.tfm
  pub history : b.history ≡ a.history
  pub history_count : b.history_count ≡ a.history_count
  pub hashes : b.hashes ≡ a.hashes
  pub hardware_anchored : b.hardware_anchored ≡ a.hardware_anchored
  pub software_committed : b.software_committed ≡ a.software_committed

-- What a transaction from `m` on the container `c` leaves if it does not return 0.
abbrev pub RollsBack : Merkle → Option Container → Outcome → Type 0
RollsBack m c o = o.ret ≢ pos 0 → Kept m o.merkle × (o.container ≡ c)

module _ (k : Kernel) (env : CommitEnv) where
  commit_tpm-RollsBack :
      (p : Prepared) (new_root : Bytes) (m : Merkle)
      → RollsBack m (leaf_node p.leaf) (commit_tpm k env p new_root m)
  unfolding commit_tpm tpm_failed publish_event commit_fail
  commit_tpm-RollsBack p new_root m h = ground arith

  commit_value-RollsBack :
      (p : Prepared) (m : Merkle) → RollsBack m (leaf_node p.leaf) (commit_value k env p m)
  unfolding commit_value
  commit_value-RollsBack p m h =
      ground
        (arith, commit_tpm-RollsBack p (extend_hash k m.tfm env.root_run m.root_hash p.value).1 m)

  commit_leaf-RollsBack :
      (hash : Option HashEntry) (history : HistoryEntry) (c : Container) (entry : Measurement)
      (source : Option Bytes) (m : Merkle)
      → RollsBack m (some c) (commit_leaf k env hash history c entry source m)
  unfolding commit_leaf
  commit_leaf-RollsBack hash history c entry source m h = ground (
    arith,
    commit_value-RollsBack
        (record {
          hash = hash;
          history = history;
          leaf = some (record {
            node = c;
            entry = entry;
            new_leaf = (extend_hash k c.tfm env.leaf_run c.leaf_hash entry.digest).1;
          });
          value = (extend_hash k c.tfm env.leaf_run c.leaf_hash entry.digest).1;
          source_id = source;
        })
        m,
  )

  commit_measured-RollsBack :
      (hash : Option HashEntry) (c : Container) (entry : Measurement) (source : Option Bytes)
      (m : Merkle)
      → RollsBack m (some c) (commit_measured k env hash c entry source m)
  unfolding commit_measured alloc_history_entry
  commit_measured-RollsBack hash c entry source m h = grind (arith, commit_leaf-RollsBack)

  commit_deduplicated-RollsBack :
      (c : Container) (entry : Measurement) (source : Option Bytes) (m : Merkle)
      → RollsBack m (some c) (commit_deduplicated k env c entry source m)
  unfolding commit_deduplicated alloc_hash_entry
  commit_deduplicated-RollsBack c entry source m h = grind (arith, commit_measured-RollsBack)

  commit_root_value-RollsBack :
      (value : Bytes) (source : Option Bytes) (m : Merkle)
      → RollsBack m none (commit_root_value k env value source m)
  unfolding commit_root_value alloc_history_entry
  commit_root_value-RollsBack value source m h = grind (arith, commit_value-RollsBack)

  commit_checked-RollsBack :
      (c : Option Container) (entry : Option Measurement) (value source : Option Bytes)
      (deduplicate : Bool) (m : Merkle)
      → RollsBack m c (commit_checked k env c entry value source deduplicate m)
  unfolding commit_checked
  commit_checked-RollsBack c entry none source d m h = ground arith
  commit_checked-RollsBack none entry (some v) source d m h =
      ground (arith, commit_root_value-RollsBack v source m)
  commit_checked-RollsBack (some c) none (some v) source d m h = ground arith
  commit_checked-RollsBack (some c) (some e) (some v) source d m h = ground (
    arith,
    commit_deduplicated-RollsBack c e source m,
    commit_measured-RollsBack none c e source m,
  )

  -- A transaction that returns anything but 0 leaves the root, its history and count, the table of
  -- committed digests, both epoch flags and the container as they were. Only the error latch may
  -- have changed.
  pub commit_event-RollsBack :
      (c : Option Container) (entry : Option Measurement) (value source : Option Bytes)
      (deduplicate : Bool) (m : Merkle)
      → (commit_event k env c entry value source deduplicate m).ret ≢ pos 0
      → Kept m (commit_event k env c entry value source deduplicate m).merkle
        × ((commit_event k env c entry value source deduplicate m).container ≡ c)
  unfolding commit_event
  commit_event-RollsBack c entry value source d m h =
      ground
        (arith, commit_checked-RollsBack c entry value source d (commit_check m env.available).1)
