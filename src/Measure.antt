-- ===== src/Measure.antt =====
-- The path of a measurement: `add_container_measurement` of src/merkle.c and the kfunc
-- `bpfima_measurement_extend` of src/kfuncs_measure.c.
pub mod Pcr
pub mod Once
pub mod Request
use bpfima.Base.{
  ℕ, Bool, true, not, Option, none, some, List, arith, if◌then◌else◌, is_zero, eagain, enomem,
  einval, int_eq, ℤ, Bytes, c_str, is_empty_str, bytes, pos,
}
use bpfima.Base.Result.{Result, ok, err}
use bpfima.Hash.{Kernel, calculate_sha256_hash, hash_exists}
use bpfima.Tpm.{TpmDigest}
use bpfima.Node.{Container, Measurement, create_measurement_entry}
use bpfima.Kfunc.{MeasurementRequest, prepare_measurement}
use bpfima.Merkle.{Merkle, commit_check}
use bpfima.Merkle.Commit.{CommitEnv, Outcome, stopped, commit_measurement}
use bpfima.Containers.{
  Registry, CreateEnv, find_container, create_container, update_container, put_container,
}
use bpfima.Policy.Namespace.{PolicyNamespace}

-- What adding a measurement meets outside: atomic context or interrupts off, the TPM as its own
-- check of the latch sees it, the allocation of the entry, and the commit's own.
pub record AddEnv : Type 0 where
  pub atomic : Bool
  pub available : Bool
  pub entry_allocated : Bool
  pub commit : CommitEnv

module _ (k : Kernel) (env : AddEnv) where
  -- Behind the check of the latch: a known digest gives 1.
  unfoldable pub add_checked :
      Container → Bytes → Option Bytes → Option Bytes → Bytes → Merkle → Outcome
  add_checked c event_name event_data dependencies digest m =
      if hash_exists k m.hashes digest (some c.id)
      then stopped (pos 1) m (some c)
      else elim (create_measurement_entry env.entry_allocated (some event_name) event_data
          dependencies (some digest)) [
            | none ↦ stopped enomem m (some c)
            | some entry ↦ commit_measurement k env.commit (some c) (some entry) true m
          ]

  -- `add_container_measurement`; the container, the name and the digest may be NULL.
  unfoldable pub add_container_measurement :
      Option Container
      → Option Bytes
      → Option Bytes
      → Option Bytes
      → Option Bytes
      → Merkle
      → Outcome
  add_container_measurement none event_name event_data dependencies digest m = stopped einval m none
  add_container_measurement (some c) none event_data dependencies digest m =
      stopped einval m (some c)
  add_container_measurement (some c) (some name) event_data dependencies none m =
      stopped einval m (some c)
  add_container_measurement (some c) (some name) event_data dependencies (some digest) m =
      let (e, checked) = commit_check m env.available in
      if env.atomic
      then stopped eagain m (some c)
      else if not (is_zero e)
      then stopped e checked (some c)
      else add_checked c name event_data dependencies digest checked

-- What the kfunc meets outside, next to the above: the hash of the data, the TPM as the check of
-- the latch sees it, and the creation of a container.
pub record MeasureEnv : Type 0 where
  pub hash_tfm : Bool
  pub hash_ret : ℤ
  pub available : Bool
  pub create : CreateEnv
  pub add : AddEnv

-- The module's state on this path.
pub record System : Type 0 where
  pub registry : Registry
  pub namespaces : List PolicyNamespace
  pub merkle : Merkle

-- The result, the state, and the digests of the TPM command, if one was sent.
pub record Measured : Type 0 where
  pub ret : ℤ
  pub system : System
  pub sent : Option (List TpmDigest)

abbrev pub unmeasured : ℤ → System → Measured
unmeasured ret s = record { ret = ret; system = s; sent = none }

-- `effective_ns`
unfoldable pub effective_namespace : MeasurementRequest → Bytes
effective_namespace request =
    if is_empty_str request.namespace_id then bytes "default" else c_str request.namespace_id

-- What the transaction leaves in a container.
abbrev pub committed : Option Container → Container → Container
committed none c = c
committed (some after) c = record c {
  measurement_list = after.measurement_list;
  measurement_count = after.measurement_count;
  leaf_hash = after.leaf_hash;
}

-- `container = find_container_by_id(ns); if (!container) container = create_container_node(ns);`
unfoldable pub get_or_create :
    CreateEnv
    → Bytes
    → Registry
    → List PolicyNamespace
    → Result Container × Registry × List PolicyNamespace
get_or_create env id r namespaces = elim (find_container r.containers (some id)) [
  | some (c, found) ↦ (ok c, record r { containers = found }, namespaces)
  | none ↦ create_container env id r namespaces
]

module _ (k : Kernel) (env : MeasureEnv) where
  -- With a reference to the container: the transaction, and the reference put back.
  unfoldable pub measure_container : MeasurementRequest → Bytes → Container → System → Measured
  measure_container request digest c s =
      let o =
        add_container_measurement k env.add (some c) (some (c_str request.event_name))
          (some (c_str request.additional_data)) (some (c_str request.dependencies)) (some digest)
          s.merkle in
      let r = s.registry in
      record {
        ret = if int_eq o.ret (pos 1) then pos 0 else o.ret;
        system = record s {
          registry = record r {
            containers =
                put_container (update_container c.id (committed o.container) r.containers) c.id;
          };
          merkle = o.merkle;
        };
        sent = o.sent;
      }

  -- `if (IS_ERR(container)) return PTR_ERR(container);`
  unfoldable pub measure_found : Result Container → MeasurementRequest → Bytes → System → Measured
  measure_found (err e) request digest s = unmeasured e s
  measure_found (ok c) request digest s = measure_container request digest c s

  -- Behind the check of the latch.
  unfoldable pub measure_checked : MeasurementRequest → Bytes → System → Measured
  measure_checked request digest s =
      let (found, registry, namespaces) =
        get_or_create env.create (effective_namespace request) s.registry s.namespaces in
      let next = record s { registry = registry; namespaces = namespaces } in
      measure_found found request digest next

  -- With the request validated and its data joined.
  unfoldable pub measure_prepared : MeasurementRequest → Bytes → System → Measured
  measure_prepared request content s =
      let (ret, digest) = calculate_sha256_hash k env.hash_tfm env.hash_ret content in
      let (e, checked) = commit_check s.merkle env.available in
      if not (is_zero ret)
      then unmeasured ret s
      else if not (is_zero e)
      then unmeasured e (record s { merkle = checked })
      else measure_checked request digest (record s { merkle = checked })

  -- `if (ret) return ret;` behind the preparation
  unfoldable pub measure_joined : Result (MeasurementRequest × Bytes) → System → Measured
  measure_joined (err e) s = unmeasured e s
  measure_joined (ok (request, content)) s = measure_prepared request content s

  -- `bpfima_measurement_extend`
  unfoldable pub measurement_extend : Option MeasurementRequest → ℕ → System → Measured
  measurement_extend request size s = measure_joined (prepare_measurement request size 512) s
