-- ===== src/Policy/Manager/Publish.antt =====
-- `publish_policy_locked` of src/policy_manager.c: everything that can fail, the commit of the
-- change to the Merkle root, and the switch to the staged state behind it.
use bpfima.Base.{
  ℕ, ◌+◌, ◌-◌, ◌^◌, Bool, not, Option, none, some, List, [], ◌∷◌, ◌++◌, ◌==◌, if◌then◌else◌,
  is_zero, enomem, eoverflow, ℤ, Bytes, c_str, strscpy, bytes, pos,
}
use bpfima.Base.Result.{Result, ok, err, reject_if, ◌>>=◌, ◌>>◌}
use bpfima.Hash.{Kernel, calculate_sha256_hash}
use bpfima.Tpm.{TpmDigest}
use bpfima.Merkle.Commit.{CommitEnv, commit_root}
use bpfima.Policy.Types.{PolicyRecord, PolicyState}
use bpfima.Policy.Wire.{record_bytes, format_policy_string}
use bpfima.Policy.Namespace.{
  PolicyChange, PolicyNamespace, update_namespace, max_policy_changes_str,
}
use bpfima.Policy.Manager.{BpfMap, Manager, stage, record_at, get_config}

-- What a publication meets outside: its two allocations, the hash transform and the results of the
-- three digests, and the commit's own. The commit reads its configuration from the bound map.
pub record PublishEnv : Type 0 where
  pub change_allocated : Bool
  pub wire_allocated : Bool
  pub tfm : Bool
  pub digest_ret : ℤ
  pub event_ret : ℤ
  pub next_ret : ℤ
  pub commit : CommitEnv

-- What is computed before the commit: the audit record, and the namespace with the hash that the
-- change leads its chain to.
pub record PreparedChange : Type 0 where
  pub change : PolicyChange
  pub chained : Option (PolicyNamespace × Bytes)

-- A result, the map, the module's state, and the digests of the TPM command, if one was sent.
pub record Published : Type 0 where
  pub ret : ℤ
  pub map : BpfMap
  pub manager : Manager
  pub sent : Option (List TpmDigest)

abbrev pub unpublished : ℤ → BpfMap → Manager → Published
unpublished ret map s = record { ret = ret; map = map; manager = s; sent = none }

-- a digest whose computation returned something else than 0 is an error
abbrev pub digest_or : ℤ × Bytes → Result Bytes
digest_or (ret, digest) = if is_zero ret then ok digest else err ret

-- `id[0] ? id : "global_policy"`
abbrev pub commit_source : Bytes → Bytes
commit_source [] = bytes "global_policy"
commit_source (x ∷ xs) = x ∷ xs

-- The audit record behind those of its list, and the namespace's chain moved on.
unfoldable pub record_change : PreparedChange → Manager → Manager
record_change p s = elim p.chained [
  | none ↦ record s { global_history = s.global_history ++ p.change ∷ [] }
  | some (metadata, next_hash) ↦ record s {
    namespaces =
        update_namespace metadata.namespace_id
          (λ e. record e {
            change_history = e.change_history ++ p.change ∷ [];
            changes_hash = next_hash;
            changes_str = strscpy max_policy_changes_str p.change.policy_string;
          })
          s.namespaces;
  }
]

module _ (k : Kernel) where
  -- `snapshot_digest`
  unfoldable pub snapshot_digest : PublishEnv → PolicyRecord → Result Bytes
  snapshot_digest env r =
      if env.wire_allocated
      then digest_or (calculate_sha256_hash k env.tfm env.digest_ret (record_bytes r))
      else err enomem

  -- The next hash of a namespace's chain.
  unfoldable pub chain :
      PublishEnv → Option PolicyNamespace → Bytes → Result (Option (PolicyNamespace × Bytes))
  chain env none event_digest = ok none
  chain env (some metadata) event_digest =
      digest_or
        (calculate_sha256_hash k env.tfm env.next_ret (metadata.changes_hash ++ event_digest))
      >>= λ next. ok (some (metadata, next))

  -- From the allocation of the audit record to the chain.
  unfoldable pub prepare_change :
      PublishEnv → PolicyState → ℕ → Option PolicyNamespace → Result PreparedChange
  prepare_change env candidate index metadata = do
    reject_if (not env.change_allocated) enomem
    digest ← snapshot_digest env (record_at candidate index)
    let text =
        format_policy_string candidate.generation (c_str (record_at candidate index).namespace_id)
          digest
    event_digest ← digest_or (calculate_sha256_hash k env.tfm env.event_ret text)
    chained ← chain env metadata event_digest
    ok (record {
      change = record { change_hash = event_digest; policy_string = text };
      chained = chained;
    })

  abbrev pub commit_env : PublishEnv → Manager → CommitEnv
  commit_env env s = record (env.commit) { policy = get_config s.policy_map }

  -- The staging, the commit, and the release of the new generation.
  unfoldable pub publish_change :
      PublishEnv → BpfMap → PolicyState → Bytes → PreparedChange → Manager → Published
  publish_change env map candidate id p s =
      let staged = stage map candidate in
      let o =
        commit_root k (commit_env env s) (some p.change.change_hash) (some (commit_source id))
          s.merkle in
      if is_zero o.ret
      then record {
        ret = pos 0;
        map = record staged {
          control = record (staged.control) { generation = candidate.generation };
        };
        manager = record_change p (record s { merkle = o.merkle });
        sent = o.sent;
      }
      else record {
        ret = o.ret;
        map = staged;
        manager = record s { merkle = o.merkle };
        sent = o.sent;
      }

  -- What follows the preparation, which goes wrong before anything is written.
  unfoldable pub publish_prepared :
      PublishEnv → BpfMap → PolicyState → Bytes → Result PreparedChange → Manager → Published
  publish_prepared env map candidate id (err e) s = unpublished e map s
  publish_prepared env map candidate id (ok p) s = publish_change env map candidate id p s

  -- `publish_policy_locked`
  unfoldable pub publish_policy :
      PublishEnv → BpfMap → PolicyState → ℕ → Option PolicyNamespace → Manager → Published
  publish_policy env map candidate index metadata s =
      let next = record candidate { generation = map.control.generation + 1 } in
      if map.control.generation == 2 ^ 64 - 1
      then unpublished eoverflow map s
      else publish_prepared env map next (c_str (record_at next index).namespace_id)
          (prepare_change env next index metadata) s
