-- ===== src/Policy/Manager/Apply.antt =====
-- The requests of src/policy_manager.c that change the policy: `apply_locked` and what leads to it.
use bpfima.Base.{
  ℕ, zero, suc, ◌+◌, Bool, false, not, ◌&&◌, ◌||◌, Option, none, some, List, map, ltb, leb, ◌==◌,
  if◌then◌else◌, set, take, replicate, is_zero, enxio, eagain, enomem, einval, enospc, ℤ, Bytes,
  bytes_eq, has_nul, c_str, is_empty_str, strscpy_zeroed, bytes, pos,
}
use bpfima.Base.Result.{Result, ok, err}
use bpfima.Hash.{Kernel}
use bpfima.Tpm.{TpmDigest}
use bpfima.Merkle.{commit_check}
use bpfima.Policy.Types.{
  PolicyConfig, Snapshot, PolicyState, PolicyRequest, namespace_size, policy_namespaces,
  policy_version,
}
use bpfima.Policy.Config.{zero_snapshot}
use bpfima.Policy.Snapshot.{normalize_snapshot, validate_extension, rebase_extension}
use bpfima.Policy.Wire.{snapshot_eq}
use bpfima.Policy.Namespace.{PolicyNamespace, namespace_get}
use bpfima.Policy.Manager.{
  BpfMap, Manager, active_state, record_at, namespace_index, valid_namespace,
}
use bpfima.Policy.Manager.Publish.{PublishEnv, Published, publish_policy}

-- What a request meets outside: the TPM as the check of the latch sees it, the allocation of the
-- candidate and of the namespace's metadata, and the publication's own.
pub record ApplyEnv : Type 0 where
  pub available : Bool
  pub candidate_allocated : Bool
  pub namespace_allocated : Bool
  pub request_allocated : Bool
  pub publish : PublishEnv

-- A result, the module's state, and the digests of the TPM command, if one was sent.
pub record Applied : Type 0 where
  pub ret : ℤ
  pub manager : Manager
  pub sent : Option (List TpmDigest)

abbrev pub refused : ℤ → Manager → Applied
refused ret s = record { ret = ret; manager = s; sent = none }

-- The module's state with the bound map that a publication leaves.
abbrev pub released : Published → Applied
released p =
    let after = p.manager in
    record { ret = p.ret; manager = record after { policy_map = some p.map }; sent = p.sent }

-- The record that the request is about: the one there is, or a new one behind the others, in the
-- copy of the state.
unfoldable pub select_record : PolicyState → Bytes → Result (ℕ × PolicyState)
select_record active id = elim (namespace_index active (some id)) [
  | some i ↦ ok (i, active)
  | none ↦
      if active.namespace_count == policy_namespaces
      then err enospc
      else ok (
        active.namespace_count + 1,
        record active {
          namespace_count = active.namespace_count + 1;
          records = set active.records (active.namespace_count + 1) (record {
            namespace_id = strscpy_zeroed namespace_size id;
            snapshot = zero_snapshot;
          });
        },
      )
]

abbrev pub with_snapshot : PolicyState → ℕ → Snapshot → PolicyState
with_snapshot state index snapshot = record state {
  records = set state.records index (record (record_at state index) { snapshot = snapshot });
}

-- The C string in an array that may be missing.
abbrev pub option_str : Option Bytes → Option Bytes
option_str none = none
option_str (some a) = some (c_str a)

-- `id && !valid_namespace(id)`
abbrev pub bad_id : Option Bytes → Bool
bad_id none = false
bad_id (some a) = not (valid_namespace a)

-- The array of the request: zeroed, or the id in it.
abbrev pub id_array : Option Bytes → Bytes
id_array none = replicate namespace_size 0
id_array (some id) = strscpy_zeroed namespace_size (c_str id)

abbrev pub edit_request : Option Bytes → Snapshot → PolicyConfig → PolicyRequest
edit_request id snapshot c = record {
  version = policy_version;
  reserved = 0;
  expected_generation = 0;
  body = record { namespace_id = id_array id; snapshot = record snapshot { config = c } };
}

-- The field that `bpfima_policy_update_field` writes; `none` is -EINVAL.
unfoldable pub set_field : Bytes → ℕ → PolicyConfig → Option PolicyConfig
set_field field value c =
    if bytes_eq field (bytes "enabled")
    then if ltb 1 value then none else some (record c { enabled = value })
    else if bytes_eq field (bytes "filter_flags")
    then some (record c { filter_flags = value })
    else if bytes_eq field (bytes "action_flags")
    then some (record c { action_flags = value })
    else if bytes_eq field (bytes "min_file_size")
    then some (record c { min_file_size = value })
    else if bytes_eq field (bytes "log_level")
    then some (record c { log_level = value })
    else none

-- The snapshot that the scalar edit starts from: the record's own, rebased on the root if it is
-- a namespace's, or the root's for a namespace that has none.
unfoldable pub edited_snapshot : PolicyState → Option ℕ → Snapshot
edited_snapshot state none = (record_at state 0).snapshot
edited_snapshot state (some zero) = (record_at state 0).snapshot
edited_snapshot state (some (suc i)) =
    rebase_extension (record_at state 0).snapshot (record_at state (suc i)).snapshot

-- The first test of `bpfima_policy_apply`.
unfoldable pub bad_envelope : PolicyRequest → Bool
bad_envelope request =
    not (request.version == policy_version)
    || not (request.reserved == 0)
    || not (has_nul (take namespace_size request.body.namespace_id))
    || (not (is_empty_str request.body.namespace_id)
        && not (valid_namespace request.body.namespace_id))

module _ (k : Kernel) (env : ApplyEnv) where
  -- The comparison with the active record, and the publication.
  unfoldable pub apply_changed :
      BpfMap → PolicyState → PolicyState → ℕ → Snapshot → Option PolicyNamespace → Manager → Applied
  apply_changed map active candidate index snapshot metadata s =
      if leb index active.namespace_count && snapshot_eq snapshot (record_at active index).snapshot
      then refused (pos 0) s
      else released (
          publish_policy k env.publish map (with_snapshot candidate index snapshot) index metadata
            s)

  -- The root's configuration is published as it is, a namespace's only as an extension of it.
  unfoldable pub apply_snapshot :
      BpfMap → PolicyState → PolicyState → ℕ → Bytes → Snapshot → Manager → Applied
  apply_snapshot map active candidate zero id snapshot s =
      apply_changed map active candidate 0 snapshot none s
  apply_snapshot map active candidate (suc i) id snapshot s =
      if not (is_zero (validate_extension (record_at candidate 0).snapshot snapshot))
      then refused (validate_extension (record_at candidate 0).snapshot snapshot) s
      else elim (namespace_get env.namespace_allocated id s.namespaces) [
        | err e ↦ refused e s
        | ok (metadata, list) ↦
            apply_changed map active candidate (suc i) snapshot (some metadata)
              (record s { namespaces = list })
      ]

  -- The part of `apply_locked` behind the check of the latch.
  unfoldable pub apply_active : PolicyRequest → BpfMap → PolicyState → Manager → Applied
  apply_active request map active s =
      if not (request.expected_generation == 0)
        && not (request.expected_generation == active.generation)
      then refused eagain s
      else if not env.candidate_allocated
      then refused enomem s
      else elim (select_record active (c_str request.body.namespace_id)) [
        | err e ↦ refused e s
        | ok (index, candidate) ↦ elim (normalize_snapshot request.body.snapshot) [
          | err e ↦ refused e s
          | ok snapshot ↦
              apply_snapshot map active candidate index (c_str request.body.namespace_id) snapshot s
        ]
      ]

  -- `apply_locked` with the bound map; `none` is the read of a NULL active state.
  unfoldable pub apply_mapped : Option BpfMap → PolicyRequest → Manager → Option Applied
  apply_mapped none request s = some (refused enxio s)
  apply_mapped (some map) request s =
      let (e, checked) = commit_check s.merkle env.available in
      if not (is_zero e)
      then some (refused e (record s { merkle = checked }))
      else elim (active_state map) [
        | none ↦ none
        | some active ↦ some (apply_active request map active (record s { merkle = checked }))
      ]

  -- `apply_locked`
  unfoldable pub apply_locked : PolicyRequest → Manager → Option Applied
  apply_locked request s = apply_mapped s.policy_map request s

  -- `bpfima_policy_apply`, of a request or NULL
  unfoldable pub policy_apply : Option PolicyRequest → Manager → Option Applied
  policy_apply none s = some (refused einval s)
  policy_apply (some request) s =
      if bad_envelope request then some (refused einval s) else apply_locked request s

  -- The scalar edit on an active state.
  unfoldable pub update_active : Option Bytes → Bytes → ℕ → PolicyState → Manager → Option Applied
  update_active id field value state s =
      let snapshot = edited_snapshot state (namespace_index state (option_str id)) in
      elim (set_field field value snapshot.config) [
        | none ↦ some (refused einval s)
        | some c ↦ apply_locked (edit_request id snapshot c) s
      ]

  -- `bpfima_policy_update_field`, with the id and the field's name or NULL
  unfoldable pub update_field : Option Bytes → Option Bytes → ℕ → Manager → Option Applied
  update_field id none value s = some (refused einval s)
  update_field id (some field) value s =
      if bad_id id
      then some (refused einval s)
      else if not env.request_allocated
      then some (refused enomem s)
      else elim s.policy_map [
        | none ↦ some (refused enxio s)
        | some map ↦ elim (active_state map) [
          | none ↦ none
          | some state ↦ update_active id field value state s
        ]
      ]
