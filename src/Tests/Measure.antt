-- ===== src/Tests/Measure.antt =====
-- The path of a measurement at concrete inputs.
use bpfima.Base.{
  ◌≡◌, refl, sym, ◌∙◌, ◌≢◌, true, false, Option, none, some, [], ◌∷◌, ◌++◌, arith, is_some,
  replicate, eio, bytes, pos,
}
use bpfima.Hash.{extend_hash, calculate_sha256_hash, hash_exists, bucket_has, alloc_hash_entry}
use bpfima.Tpm.{
  Chip, extend_tpm_pcr, extend_tpm_pcr_with_root, extend_chip, bad_pcr_index, has_sha256_bank,
}
use bpfima.Node.{create_measurement_entry}
use bpfima.Kfunc.{
  MeasurementRequest, prepare_measurement, bad_request, bad_namespace, validate_namespace,
  concat_head, concat_tail, request_size,
}
use bpfima.Merkle.{initial, commit_check, commit_fail, alloc_history_entry}
use bpfima.Merkle.Atomic.{Kept}
use bpfima.Merkle.Commit.{
  commit_event, commit_checked, commit_measured, commit_leaf, commit_value, commit_tpm,
  commit_deduplicated, tpm_failed, publish_event, commit_measurement,
}
use bpfima.Containers.{find_container, first_live, create_container, create_missing}
use bpfima.Measure.{
  AddEnv, MeasureEnv, System, add_checked, add_container_measurement, get_or_create,
  measure_container, measure_found, measure_checked, measure_prepared, measure_joined,
  measurement_extend, effective_namespace,
}
use bpfima.Measure.Once.{
  Adds, entry_of, add_container_measurement-Kept, add_container_measurement-Adds,
  add_container_measurement_once,
}
use bpfima.Measure.Request.{measurement_extend-Kept}
use bpfima.Tests.Fixtures.{toy, chip, failing_chip, env_with, pod}

abbrev add_env : Option Chip → AddEnv
add_env c = record {
  atomic = false;
  available = is_some c;
  entry_allocated = true;
  commit = env_with c;
}

added_ret :
    (add_container_measurement toy
      (add_env (some chip))
      (some pod)
      (some (bytes "exec"))
      none
      none
      (some (7 ∷ []))
      initial).ret
    ≡ pos 0
unfolding add_container_measurement add_checked create_measurement_entry commit_measurement
    commit_event commit_check commit_checked commit_deduplicated commit_measured commit_leaf
    commit_value commit_tpm tpm_failed publish_event alloc_history_entry alloc_hash_entry
    hash_exists bucket_has extend_hash extend_tpm_pcr extend_tpm_pcr_with_root extend_chip
    commit_fail bad_pcr_index has_sha256_bank
added_ret = refl

add_container_measurement-Adds_example :
    Adds toy pod (entry_of (bytes "exec") none none (7 ∷ [])) initial (
      add_container_measurement toy
        (add_env (some chip))
        (some pod)
        (some (bytes "exec"))
        none
        none
        (some (7 ∷ []))
        initial)
add_container_measurement-Adds_example =
    add_container_measurement-Adds toy (add_env (some chip)) pod (bytes "exec") none none (7 ∷ [])
      initial (omega arith) added_ret

add_container_measurement_once_example :
    (add_container_measurement toy
      (add_env none)
      (some pod)
      (some (bytes "open"))
      none
      none
      (some (7 ∷ []))
      (add_container_measurement toy
        (add_env (some chip))
        (some pod)
        (some (bytes "exec"))
        none
        none
        (some (7 ∷ []))
        initial).merkle).ret
    ≢ pos 0
add_container_measurement_once_example =
    add_container_measurement_once toy (add_env (some chip)) (add_env none) pod pod (bytes "exec")
      (bytes "open") none none none none (7 ∷ []) initial (omega arith) refl added_ret

failed_add :
    (add_container_measurement toy
      (add_env (some failing_chip))
      (some pod)
      (some (bytes "exec"))
      none
      none
      (some (7 ∷ []))
      initial).ret
    ≡ eio
unfolding add_container_measurement add_checked create_measurement_entry commit_measurement
    commit_event commit_check commit_checked commit_deduplicated commit_measured commit_leaf
    commit_value commit_tpm tpm_failed publish_event alloc_history_entry alloc_hash_entry
    hash_exists bucket_has extend_hash extend_tpm_pcr extend_tpm_pcr_with_root extend_chip
    commit_fail bad_pcr_index has_sha256_bank
failed_add = refl

eio_fails : eio ≢ pos 0
eio_fails h = cc

add_container_measurement-Kept_example :
    Kept initial
      (add_container_measurement toy
        (add_env (some failing_chip))
        (some pod)
        (some (bytes "exec"))
        none
        none
        (some (7 ∷ []))
        initial).merkle
    × ((add_container_measurement toy
          (add_env (some failing_chip))
          (some pod)
          (some (bytes "exec"))
          none
          none
          (some (7 ∷ []))
          initial).container
        ≡ some pod)
add_container_measurement-Kept_example =
    add_container_measurement-Kept toy (add_env (some failing_chip)) pod (bytes "exec") none none
      (7 ∷ []) initial (λ h. eio_fails (sym failed_add ∙ h))

abbrev exec_request : MeasurementRequest
exec_request = record {
  event_name = bytes "exec" ++ replicate 252 0;
  namespace_id = bytes "pod" ++ replicate 125 0;
  dependencies = replicate 256 0;
  additional_data = bytes "ab" ++ replicate 254 0;
  additional_data_len = 2;
  flags = 0;
}

abbrev measure_env : MeasureEnv
measure_env = record {
  hash_tfm = true;
  hash_ret = pos 0;
  available = true;
  create = record {
    node_allocated = true;
    tfm_allocated = true;
    securityfs_ret = pos 0;
    namespace_allocated = true;
  };
  add = add_env (some failing_chip);
}

abbrev empty_system : System
empty_system = record {
  registry = record { containers = []; container_count = 0 };
  namespaces = [];
  merkle = initial;
}

failed_request :
    (measurement_extend toy measure_env (some exec_request) request_size empty_system).ret ≡ eio
unfolding measurement_extend measure_joined measure_prepared measure_checked measure_found
    measure_container get_or_create effective_namespace find_container first_live create_container
    create_missing prepare_measurement bad_request bad_namespace validate_namespace concat_head
    concat_tail calculate_sha256_hash add_container_measurement add_checked create_measurement_entry
    commit_measurement commit_event commit_check commit_checked commit_deduplicated commit_measured
    commit_leaf commit_value commit_tpm tpm_failed publish_event alloc_history_entry
    alloc_hash_entry hash_exists bucket_has extend_hash extend_tpm_pcr extend_tpm_pcr_with_root
    extend_chip commit_fail bad_pcr_index has_sha256_bank
failed_request = refl

measurement_extend-Kept_example :
    Kept initial
      (measurement_extend toy measure_env
        (some exec_request)
        request_size
        empty_system).system.merkle
measurement_extend-Kept_example =
    measurement_extend-Kept toy measure_env (some exec_request) request_size empty_system
      (λ h. eio_fails (sym failed_request ∙ h))
