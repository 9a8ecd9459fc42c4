-- ===== src/Merkle/Landed.antt =====
-- What a transaction that returns 0 leaves, from its prepared part on.
use bpfima.Base.{
  ◌≡◌, sym, ap, ◌∙◌, ◌⊎◌, Bool, true, false, ◌||◌, Option, none, some, [], ◌∷◌, ◌++◌, arith,
  replicate, is_zero, Bytes, pos,
}
use bpfima.Hash.{Kernel}
use bpfima.Hash.Extend.{extend_hash_zero}
use mathlib.Core.Path.{subst}
use bpfima.Tpm.{Chip, extend_tpm_pcr_with_root}
use bpfima.Tpm.Command.{pcr_write, extend_tpm_pcr-pcr_write, extend_tpm_pcr-enodev}
use bpfima.Policy.Types.{PolicyConfig}
use bpfima.Merkle.{Merkle, hardware_allowed, commit_fail, publish_history_entry}
use bpfima.Merkle.Trim.{TrimEnv, trim_history, trim_after_commit}
use bpfima.Merkle.Commit.{
  CommitEnv, Outcome, Prepared, publish_leaf, publish_hash, publish_root, publish_event, tpm_failed,
  commit_tpm, commit_value,
}

-- A trim touches the history and its counter only.
pub record SameBesideHistory (a b : Merkle) : Type 0 where
  pub root_hash : b.root_hash ≡ a.root_hash
  pub tfm : b.tfm ≡ a.tfm
  pub hashes : b.hashes ≡ a.hashes
  pub commit_error : b.commit_error ≡ a.commit_error
  pub hardware_anchored : b.hardware_anchored ≡ a.hardware_anchored
  pub software_committed : b.software_committed ≡ a.software_committed

-- How a committed root reached the TPM: by one command that the epoch allows, or not at all where
-- there is no chip, in an epoch that is not anchored.
abbrev pub Anchored : Option Chip → Merkle → Bytes → Outcome → Type 0
Anchored chip m new_root o =
    (((o.merkle.hardware_anchored ≡ true) × (hardware_allowed m ≡ true))
      × (pcr_write o.sent ≡ some (new_root ++ replicate 32 0)))
    ⊎ (((o.merkle.hardware_anchored ≡ false) × (m.hardware_anchored ≡ false) × (chip ≡ none))
        × (pcr_write o.sent ≡ none))

module _ (k : Kernel) where
  trim_after_commit-SameBesideHistory :
      (policy : PolicyConfig) (env : TrimEnv) (source : Option Bytes) (m : Merkle)
      → SameBesideHistory m (trim_after_commit k policy env source m)
  unfolding trim_after_commit trim_history
  trim_after_commit-SameBesideHistory policy env source m = ground arith

  -- What a transaction on `p` that returns 0 leaves: the value hashed into the root, the digest in
  -- the table, the epoch marked, the latch as it was, the container extended; and without a limit
  -- on the history, the value behind the older ones.
  pub record Landed (env : CommitEnv) (m : Merkle) (p : Prepared) (o : Outcome) : Type 0 where
    pub root_hash : o.merkle.root_hash ≡ k.sha256 (m.root_hash ++ p.value)
    pub tfm : o.merkle.tfm ≡ m.tfm
    pub commit_error : o.merkle.commit_error ≡ m.commit_error
    pub software_committed : o.merkle.software_committed ≡ true
    pub hashes : o.merkle.hashes ≡ (publish_hash k p.hash m).hashes
    pub container : o.container ≡ publish_leaf p.leaf
    pub untrimmed :
        env.policy.merkle_history_max_size ≡ 0
        → o.merkle.history ≡ m.history ++ record (p.history) { value = p.value } ∷ []
    pub anchored : Anchored env.tpm.chip m (k.sha256 (m.root_hash ++ p.value)) o

  module _ (env : CommitEnv) where
    -- the published globals before the trim
    abbrev landing : Prepared → Bytes → Merkle → Bool → Merkle
    landing p new_root m anchored =
        publish_root k p new_root (record m { hardware_anchored = anchored })

    commit_tpm-Anchored :
        (p : Prepared) (new_root : Bytes) (m : Merkle)
        → (commit_tpm k env p new_root m).ret ≡ pos 0
        → Anchored env.tpm.chip m new_root (commit_tpm k env p new_root m)
    unfolding commit_tpm tpm_failed publish_event commit_fail publish_root publish_history_entry
        extend_tpm_pcr_with_root
    commit_tpm-Anchored p new_root m h = ground (
      arith,
      extend_tpm_pcr-pcr_write env.tpm new_root (hardware_allowed m),
      extend_tpm_pcr-enodev env.tpm new_root (hardware_allowed m),
      trim_after_commit-SameBesideHistory env.policy env.trim p.source_id
          (landing p new_root m true),
      trim_after_commit-SameBesideHistory env.policy env.trim p.source_id
          (landing p new_root m false),
    )

    commit_tpm_fields :
        (p : Prepared) (new_root : Bytes) (m : Merkle)
        → (commit_tpm k env p new_root m).ret ≡ pos 0
        → (b : Bool) × ((commit_tpm k env p new_root m).merkle
            ≡ trim_after_commit k env.policy env.trim p.source_id (landing p new_root m b))
          × ((commit_tpm k env p new_root m).container ≡ publish_leaf p.leaf)
    unfolding commit_tpm tpm_failed publish_event commit_fail
    commit_tpm_fields p new_root m h = (
      is_zero (extend_tpm_pcr_with_root env.tpm (some new_root) (hardware_allowed m)).ret
          || m.hardware_anchored,
      ground arith,
      ground arith,
    )

    untrimmed_history :
        (source : Option Bytes) (m : Merkle)
        → env.policy.merkle_history_max_size ≡ 0
        → trim_after_commit k env.policy env.trim source m ≡ m
    unfolding trim_after_commit
    untrimmed_history source m h = ground arith

    -- the root that a transaction on `p` computes
    abbrev next_root : Prepared → Merkle → Bytes
    next_root p m = k.sha256 (m.root_hash ++ p.value)

    commit_value-commit_tpm :
        (p : Prepared) (m : Merkle)
        → (commit_value k env p m).ret ≡ pos 0
        → commit_value k env p m ≡ commit_tpm k env p (next_root p m) m
    unfolding commit_value
    commit_value-commit_tpm p m h =
        ground (arith, extend_hash_zero k m.tfm env.root_run m.root_hash p.value)

    commit_tpm-Landed :
        (p : Prepared) (m : Merkle)
        → (commit_tpm k env p (next_root p m) m).ret ≡ pos 0
        → Landed env m p (commit_tpm k env p (next_root p m) m)
    unfolding publish_root publish_hash publish_history_entry
    commit_tpm-Landed p m h =
        let (b, state, container) = commit_tpm_fields p (next_root p m) m h in
        let same =
          trim_after_commit-SameBesideHistory env.policy env.trim p.source_id
            (landing p (next_root p m) m b) in
        record {
          root_hash = ground arith;
          tfm = ground arith;
          commit_error = ground arith;
          software_committed = ground arith;
          hashes = ground arith;
          container = container;
          untrimmed =
              λ e. ground (arith, untrimmed_history p.source_id (landing p (next_root p m) m b) e);
          anchored = commit_tpm-Anchored p (next_root p m) m h;
        }

    pub commit_value-Landed :
        (p : Prepared) (m : Merkle)
        → (commit_value k env p m).ret ≡ pos 0
        → Landed env m p (commit_value k env p m)
    commit_value-Landed p m h =
        let e = commit_value-commit_tpm p m h in
        subst (Landed env m p) (sym e)
          (commit_tpm-Landed p m (ap (λ (o : Outcome). o.ret) (sym e) ∙ h))
