-- ===== src/Measure/Request.antt =====
-- What a measurement request that fails leaves.
use bpfima.Base.{ℕ, ◌≢◌, Option, some, arith, Bytes, c_str, pos}
use bpfima.Base.Result.{Result, ok, err}
use bpfima.Hash.{Kernel, calculate_sha256_hash}
use bpfima.Node.{Container}
use bpfima.Kfunc.{MeasurementRequest, prepare_measurement}
use bpfima.Merkle.{commit_check, checked_error}
use bpfima.Merkle.Atomic.{Kept}
use bpfima.Measure.{
  MeasureEnv, System, get_or_create, measure_container, measure_found, measure_joined,
  measure_checked, measure_prepared, measurement_extend, effective_namespace,
}
use bpfima.Measure.Once.{add_container_measurement-Kept}

module _ (k : Kernel) (env : MeasureEnv) where
  measure_container-Kept :
      (request : MeasurementRequest) (digest : Bytes) (c : Container) (s : System)
      → (measure_container k env request digest c s).ret ≢ pos 0
      → Kept s.merkle (measure_container k env request digest c s).system.merkle
  unfolding measure_container
  measure_container-Kept request digest c s h = ground (
    arith,
    add_container_measurement-Kept k env.add c (c_str request.event_name)
        (some (c_str request.additional_data)) (some (c_str request.dependencies)) digest s.merkle,
  )

  found-Kept :
      (found : Result Container) (request : MeasurementRequest) (digest : Bytes) (s : System)
      → (measure_found k env found request digest s).ret ≢ pos 0
      → Kept s.merkle (measure_found k env found request digest s).system.merkle
  unfolding measure_found
  found-Kept (err e) request digest s h = ground arith
  found-Kept (ok c) request digest s h = measure_container-Kept request digest c s h

  measure_checked-Kept :
      (request : MeasurementRequest) (digest : Bytes) (s : System)
      → (measure_checked k env request digest s).ret ≢ pos 0
      → Kept s.merkle (measure_checked k env request digest s).system.merkle
  unfolding measure_checked
  measure_checked-Kept request digest s h =
      let (found, registry, namespaces) =
        get_or_create env.create (effective_namespace request) s.registry s.namespaces in
      found-Kept found request digest (record s { registry = registry; namespaces = namespaces }) h

  measure_prepared-Kept :
      (request : MeasurementRequest) (content : Bytes) (s : System)
      → (measure_prepared k env request content s).ret ≢ pos 0
      → Kept s.merkle (measure_prepared k env request content s).system.merkle
  unfolding measure_prepared commit_check
  measure_prepared-Kept request content s h =
      let m = s.merkle in
      ground (
        arith,
        measure_checked-Kept request (calculate_sha256_hash k env.hash_tfm env.hash_ret content).1
            (record s { merkle = record m { commit_error = checked_error m env.available } }),
      )

  joined-Kept :
      (r : Result (MeasurementRequest × Bytes)) (s : System)
      → (measure_joined k env r s).ret ≢ pos 0
      → Kept s.merkle (measure_joined k env r s).system.merkle
  unfolding measure_joined
  joined-Kept (err e) s h = ground arith
  joined-Kept (ok (request, content)) s h = measure_prepared-Kept request content s h

  -- A measurement request that does not return 0, for whatever reason, leaves the root, the
  -- history, the table of digests and the TPM epoch as they were: of the globals of the commit only
  -- the error latch may differ.
  pub measurement_extend-Kept :
      (request : Option MeasurementRequest) (size : ℕ) (s : System)
      → (measurement_extend k env request size s).ret ≢ pos 0
      → Kept s.merkle (measurement_extend k env request size s).system.merkle
  unfolding measurement_extend
  measurement_extend-Kept request size s h = joined-Kept (prepare_measurement request size 512) s h
