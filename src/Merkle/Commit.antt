-- ===== src/Merkle/Commit.antt =====
-- The commit transaction of src/merkle.c: everything that can fail is prepared first, the TPM
-- command comes next, and what follows publishes the event and cannot fail.
use bpfima.Base.{
  List, [], ◌∷◌, ◌++◌, Bool, true, false, not, ◌&&◌, ◌||◌, Option, none, some, Bytes, ℤ, pos,
  is_zero, is_pos, int_eq, einval, enomem, enodev, eio, if◌then◌else◌,
}
use bpfima.Hash.{
  Kernel, ShashRun, HashEntry, extend_hash, hash_exists, alloc_hash_entry, publish_hash_entry,
}
use bpfima.Tpm.{TpmEnv, TpmDigest, TpmResult, extend_tpm_pcr_with_root}
use bpfima.Node.{Measurement, Container}
use bpfima.Policy.Types.{PolicyConfig}
use bpfima.Merkle.{
  Merkle, HistoryEntry, inc32, hardware_allowed, commit_check, commit_fail, alloc_history_entry,
  publish_history_entry,
}
use bpfima.Merkle.Trim.{TrimEnv, trim_after_commit}

-- What one transaction meets outside the module: the TPM as `bpfima_tpm_available` sees it, the
-- two allocations, the two hash computations, the TPM command, the root configuration in force,
-- and what a trim meets.
pub record CommitEnv : Type 0 where
  pub available : Bool
  pub hash_allocated : Bool
  pub history_allocated : Bool
  pub leaf_run : ShashRun
  pub root_run : ShashRun
  pub tpm : TpmEnv
  pub policy : PolicyConfig
  pub trim : TrimEnv

-- What a transaction returns and leaves: its result, the globals, the container that it was given,
-- and the digests of the TPM command that it sent, if it sent one.
pub record Outcome : Type 0 where
  pub ret : ℤ
  pub merkle : Merkle
  pub container : Option Container
  pub sent : Option (List TpmDigest)

abbrev pub stopped : ℤ → Merkle → Option Container → Outcome
stopped ret m container = record { ret = ret; merkle = m; container = container; sent = none }

-- `free_history`: a positive result of the crypto API becomes -EIO.
abbrev pub freed_ret : ℤ → ℤ
freed_ret ret = if is_pos ret then eio else ret

-- A measurement for a container, with the leaf hash computed for it.
pub record Leaf : Type 0 where
  pub node : Container
  pub entry : Measurement
  pub new_leaf : Bytes

-- What a transaction has prepared once the new root is computed.
pub record Prepared : Type 0 where
  pub hash : Option HashEntry
  pub history : HistoryEntry
  pub leaf : Option Leaf
  pub value : Bytes
  pub source_id : Option Bytes

abbrev pub leaf_node : Option Leaf → Option Container
leaf_node none = none
leaf_node (some l) = some l.node

unfoldable pub publish_leaf : Option Leaf → Option Container
publish_leaf none = none
publish_leaf (some l) =
    let c = l.node in
    some (record c {
      measurement_list = c.measurement_list ++ l.entry ∷ [];
      measurement_count = inc32 c.measurement_count;
      leaf_hash = l.new_leaf;
    })

module _ (k : Kernel) where
  unfoldable pub publish_hash : Option HashEntry → Merkle → Merkle
  publish_hash none m = m
  publish_hash (some h) m = record m { hashes = publish_hash_entry k m.hashes h }

  -- The part below "Nothing below can fail a software commit", up to the trim.
  unfoldable pub publish_root : Prepared → Bytes → Merkle → Merkle
  unfolding publish_hash publish_history_entry
  publish_root p new_root m =
      let published = publish_history_entry m (record (p.history) { value = p.value }) in
      let committed = publish_hash p.hash (record published { root_hash = new_root }) in
      record committed { software_committed = true }

  unfoldable pub publish_event :
      CommitEnv → Prepared → Bytes → Option (List TpmDigest) → Merkle → Outcome
  unfolding publish_root publish_leaf
  publish_event env p new_root sent m = record {
    ret = pos 0;
    merkle = trim_after_commit k env.policy env.trim p.source_id (publish_root p new_root m);
    container = publish_leaf p.leaf;
    sent = sent;
  }

  -- A failed TPM extension that software may not paper over.
  unfoldable pub tpm_failed : Prepared → TpmResult → Merkle → Outcome
  tpm_failed p t m =
      let (e, latched) = commit_fail m t.ret in
      if t.command_started || not (int_eq t.ret enomem)
      then record {
        ret = freed_ret e;
        merkle = latched;
        container = leaf_node p.leaf;
        sent = t.sent;
      }
      else record { ret = freed_ret t.ret; merkle = m; container = leaf_node p.leaf; sent = t.sent }

  -- The TPM command and what follows it.
  unfoldable pub commit_tpm : CommitEnv → Prepared → Bytes → Merkle → Outcome
  commit_tpm env p new_root m =
      let t = extend_tpm_pcr_with_root env.tpm (some new_root) (hardware_allowed m) in
      if not (is_zero t.ret)
        && (t.command_started || not (int_eq t.ret enodev) || m.hardware_anchored)
      then tpm_failed p t m
      else publish_event env p new_root t.sent
          (record m { hardware_anchored = is_zero t.ret || m.hardware_anchored })

  -- From the value that goes into the root: the new root, then the TPM.
  unfoldable pub commit_value : CommitEnv → Prepared → Merkle → Outcome
  commit_value env p m =
      let (ret, new_root) = extend_hash k m.tfm env.root_run m.root_hash p.value in
      if is_zero ret
      then commit_tpm env p new_root m
      else stopped (freed_ret ret) m (leaf_node p.leaf)

  -- A measurement extends its container's leaf, and the new leaf is the value for the root.
  unfoldable pub commit_leaf :
      CommitEnv
      → Option HashEntry
      → HistoryEntry
      → Container
      → Measurement
      → Option Bytes
      → Merkle
      → Outcome
  commit_leaf env hash history c entry source_id m =
      let (ret, new_leaf) = extend_hash k c.tfm env.leaf_run c.leaf_hash entry.digest in
      if is_zero ret
      then commit_value env
          (record {
            hash = hash;
            history = history;
            leaf = some (record { node = c; entry = entry; new_leaf = new_leaf });
            value = new_leaf;
            source_id = source_id;
          })
          m
      else stopped (freed_ret ret) m (some c)

  -- The history entry is allocated behind the hash entry.
  unfoldable pub commit_measured :
      CommitEnv → Option HashEntry → Container → Measurement → Option Bytes → Merkle → Outcome
  commit_measured env hash c entry source_id m =
      elim (alloc_history_entry env.history_allocated source_id) [
        | none ↦ stopped enomem m (some c)
        | some history ↦ commit_leaf env hash history c entry source_id m
      ]

  -- With `deduplicate`, a digest that the container has committed already gives 1.
  unfoldable pub commit_deduplicated :
      CommitEnv → Container → Measurement → Option Bytes → Merkle → Outcome
  commit_deduplicated env c entry source_id m =
      if hash_exists k m.hashes entry.digest (some c.id)
      then stopped (pos 1) m (some c)
      else elim (alloc_hash_entry env.hash_allocated entry.digest (some c.id)) [
        | none ↦ stopped enomem m (some c)
        | some hash ↦ commit_measured env (some hash) c entry source_id m
      ]

  unfoldable pub commit_root_value : CommitEnv → Bytes → Option Bytes → Merkle → Outcome
  commit_root_value env value source_id m =
      elim (alloc_history_entry env.history_allocated source_id) [
        | none ↦ stopped enomem m none
        | some history ↦
            commit_value env
              (record {
                hash = none;
                history = history;
                leaf = none;
                value = value;
                source_id = source_id;
              })
              m
      ]

  -- The part of `commit_event_locked` behind its check of the latch. A NULL pointer is `none`.
  unfoldable pub commit_checked :
      CommitEnv
      → Option Container
      → Option Measurement
      → Option Bytes
      → Option Bytes
      → Bool
      → Merkle
      → Outcome
  commit_checked env container entry none source_id deduplicate m = stopped einval m container
  commit_checked env none entry (some value) source_id deduplicate m =
      if not m.tfm || deduplicate
      then stopped einval m none
      else commit_root_value env value source_id m
  commit_checked env (some c) none (some value) source_id deduplicate m = stopped einval m (some c)
  commit_checked env (some c) (some entry) (some value) source_id deduplicate m =
      if not m.tfm || not c.tfm
      then stopped einval m (some c)
      else if deduplicate
      then commit_deduplicated env c entry source_id m
      else commit_measured env none c entry source_id m

  -- `commit_event_locked`
  unfoldable pub commit_event :
      CommitEnv
      → Option Container
      → Option Measurement
      → Option Bytes
      → Option Bytes
      → Bool
      → Merkle
      → Outcome
  unfolding commit_check
  commit_event env container entry value source_id deduplicate m =
      let (e, checked) = commit_check m env.available in
      if is_zero e
      then commit_checked env container entry value source_id deduplicate checked
      else stopped e checked container

  -- `bpfima_commit_measurement_locked`
  unfoldable pub commit_measurement :
      CommitEnv → Option Container → Option Measurement → Bool → Merkle → Outcome
  commit_measurement env none entry deduplicate m = stopped einval m none
  commit_measurement env (some c) none deduplicate m = stopped einval m (some c)
  commit_measurement env (some c) (some entry) deduplicate m =
      commit_event env (some c) (some entry) (some entry.digest) (some c.id) deduplicate m

  -- `bpfima_commit_root_locked`
  unfoldable pub commit_root : CommitEnv → Option Bytes → Option Bytes → Merkle → Outcome
  commit_root env value source_id m = commit_event env none none value source_id false m
