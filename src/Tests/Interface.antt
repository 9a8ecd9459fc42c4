-- ===== src/Tests/Interface.antt =====
-- The files, the kfuncs and the BPF programs' requests at concrete inputs.
use bpfima.Base.{
  ℕ, ◌-◌, ◌≤◌, ◌≡◌, refl, ◌≢◌, true, false, Option, none, some, [], ◌∷◌, ◌++◌, arith, if◌then◌else◌,
  length, replicate, length-replicate, einval, Bytes, has_nul, bytes, pos,
}
use bpfima.Base.Result.{Result, ok, err}
use bpfima.Kfunc.{
  kfunc_id, copy_kfunc_string, validate_namespace, MeasurementRequest, bad_namespace, request_size,
  terminated, prepare_measurement,
}
use bpfima.Policy.Config.{default_snapshot, default_config}
use bpfima.Policy.Endian.{encode_request, decode_request}
use bpfima.Policy.Endian.Roundtrip.{decode_request-encode_request, HookWords}
use bpfima.Policy.Manager.{Manager, policy_generation}
use bpfima.Policy.Manager.Active.{IsBound}
use bpfima.Policy.Securityfs.{WriteEnv}
use bpfima.Policy.Securityfs.Write.{IsWrite, Returns}
use bpfima.Policy.Securityfs.Files.{
  Write, global_policy_fops, policy_apply_fops, policy_map_fops, write, writes, write-IsWrite,
  writes-policy_generation, count_of,
}
use bpfima.Containers.{
  find_container, first_live, is_live, create_container, create_missing, Registry, CreateEnv,
}
use bpfima.Containers.Kfuncs.{
  find_or_create, after_create, container_exists, container_get_measurement_count,
  container_get_leaf_hash, container_get_or_create,
}
use bpfima.Containers.Balanced.{container_kfuncs-containers}
use bpfima.Containers.Again.{container_get_or_create-again}
use bpfima.Hooks.Submit.{
  submit_from, data_len, read_field, optional_field, read_data, MeasurementCtx, submit_measurement,
}
use bpfima.Hooks.Submit.Accepted.{submit_measurement-prepare_measurement}
use bpfima.Kfunc.Prepare.{joined}
use bpfima.Main.{Answers}
use bpfima.Main.Load.{bpfima_init, bpfima_exit}
use bpfima.Main.Load.States.{unloaded}
use bpfima.Main.Load.Released.{bpfima_init-bpfima_exit}
use bpfima.Policy.Types.{PolicyState}
use bpfima.Policy.Manager.{active_state, slot}
use bpfima.Policy.Manager.Active.{IsActive}
use bpfima.Policy.Manager.Bind.{initial_state}
use bpfima.Policy.Kfuncs.{
  policy_update_filter_flags, policy_update_action_flags, policy_update_min_file_size,
  policy_update_log_level,
}
use bpfima.Policy.Kfuncs.Root.{Returned, policy_updates-Root}
use bpfima.Tests.Fixtures.{toy, chip, pod}
use bpfima.Tests.Policy.{
  live_map, live_manager, live_manager-IsBound, apply_env, publish_env, root_request,
}

hook_words :
    HookWords (record { flags = 7; filter_override = 0; action_override = 0; reserved = 0 })
hook_words = record {
  flags = omega arith;
  filter_override = omega arith;
  action_override = omega arith;
}

hook_off : HookWords (record { flags = 0; filter_override = 0; action_override = 0; reserved = 0 })
hook_off = record {
  flags = omega arith;
  filter_override = omega arith;
  action_override = omega arith;
}

decode_request-encode_request_example :
    decode_request true (encode_request true root_request) ≡ root_request
unfolding default_snapshot default_config
decode_request-encode_request_example =
    decode_request-encode_request true root_request
      (record {
        version = omega arith;
        expected_generation = omega arith;
        config = record {
          filter_flags = omega arith;
          action_flags = omega arith;
          min_file_size = omega arith;
          max_path_depth = omega arith;
          log_level = omega arith;
          merkle_history_max_size = omega arith;
        };
        hooks = (
          hook_words,
          (
            hook_words,
            (hook_words, (hook_words, (hook_words, (hook_words, (hook_off, (hook_words, tt)))))),
          ),
        );
      })
      refl

-- reads one digit
abbrev digit : ℕ → Bytes → Result ℕ
digit base [] = err einval
digit base (x ∷ text) = ok (x - 48)

abbrev write_env : WriteEnv
write_env = record {
  capable = true;
  allocated = true;
  copied = true;
  duplicated = true;
  apply = apply_env (some chip);
}

abbrev raised : Write
raised = global_policy_fops write_env (bytes "log_level=3")

abbrev applied : Write
applied = policy_apply_fops write_env 1400 (ok root_request)

-- rebinding: another map than the bound one
abbrev other_map : Write
other_map =
    policy_map_fops (λ fd. ok (record live_map { id = 9 })) true true
      (record { available = true; initial_allocated = true; publish = publish_env (some chip) })
      (bytes "7")

write-IsWrite_example :
    Returns
      (IsWrite live_manager (count_of raised))
      (write digit true toy false raised live_manager)
write-IsWrite_example = write-IsWrite digit true toy false raised live_manager live_manager-IsBound

writes-policy_generation_example :
    (t : Manager) × (writes digit true toy false (raised ∷ other_map ∷ applied ∷ []) live_manager
      ≡ some t)
    × IsBound t.policy_map
    × (policy_generation live_manager.policy_map ≤ policy_generation t.policy_map)
writes-policy_generation_example =
    writes-policy_generation digit true toy false (raised ∷ other_map ∷ applied ∷ []) live_manager
      live_manager-IsBound

abbrev live_state : PolicyState
live_state = record initial_state { generation = 1 }

live_map-IsActive : IsActive live_map live_state
unfolding active_state slot
live_map-IsActive = record {
  active = refl;
  generation = refl;
  published = λ h. cc;
  sized = record { namespace_count = omega arith; records = refl };
}

policy_updates-Root_example :
    Returned toy (apply_env (some chip)) live_map live_state live_map-IsActive (
      policy_update_filter_flags toy
        (apply_env (some chip))
        (some (bytes "pod" ++ 0 ∷ []))
        4
        3
        live_manager)
    × Returned toy (apply_env (some chip)) live_map live_state live_map-IsActive (
        policy_update_action_flags toy
          (apply_env (some chip))
          (some (bytes "pod" ++ 0 ∷ []))
          4
          3
          live_manager)
    × Returned toy (apply_env (some chip)) live_map live_state live_map-IsActive (
        policy_update_min_file_size toy
          (apply_env (some chip))
          (some (bytes "pod" ++ 0 ∷ []))
          4
          3
          live_manager)
    × Returned toy (apply_env (some chip)) live_map live_state live_map-IsActive (
        policy_update_log_level toy
          (apply_env (some chip))
          (some (bytes "pod" ++ 0 ∷ []))
          4
          3
          live_manager)
policy_updates-Root_example =
    policy_updates-Root toy (apply_env (some chip)) live_map live_state live_map-IsActive
      (some (bytes "pod" ++ 0 ∷ [])) 4 3 live_manager refl

container_kfuncs-containers_example :
    ((container_exists (some (bytes "pod" ++ 0 ∷ [])) 4 (pod ∷ [])).containers ≡ pod ∷ [])
    × ((container_get_measurement_count (some (bytes "pod" ++ 0 ∷ [])) 4 (pod ∷ [])).containers
        ≡ pod ∷ [])
    × ((container_get_leaf_hash (some (bytes "pod" ++ 0 ∷ [])) 4 true 32 (pod ∷ [])).containers
        ≡ pod ∷ [])
container_kfuncs-containers_example =
    container_kfuncs-containers (some (bytes "pod" ++ 0 ∷ [])) 4 32 true (pod ∷ [])

abbrev registry : Registry
registry = record { containers = pod ∷ []; container_count = 1 }

abbrev create_env : CreateEnv
create_env = record {
  node_allocated = true;
  tfm_allocated = true;
  securityfs_ret = pos 0;
  namespace_allocated = true;
}

abbrev id : Bytes
id = bytes "job" ++ 0 ∷ []

container_get_or_create-again_example :
    let o = container_get_or_create create_env (some id) 4 registry [] in
    ((container_exists (some id) 4 o.registry.containers).ret ≡ pos 1)
    × (container_get_or_create create_env (some id) 4 o.registry o.namespaces ≡ o)
unfolding container_get_or_create kfunc_id copy_kfunc_string validate_namespace find_or_create
    find_container first_live is_live after_create create_container create_missing
container_get_or_create-again_example =
    container_get_or_create-again create_env create_env (some id) 4 registry [] refl

-- a read that takes every text
abbrev whole : ℕ → Bytes → Option Bytes
whole size text = if has_nul text then none else some text

whole-has_nul : (n : ℕ) (source text : Bytes) → whole n source ≡ some text → has_nul text ≡ false
whole-has_nul n source text h =
    elim (has_nul source)
        as (λ b.
          has_nul source ≡ b
          → (if b then none else some source) ≡ some text
          → has_nul text ≡ false) [ true ↦ λ e k. absurd cc | false ↦ λ e k. ground (arith, e, k) ]
      refl h

-- a read that gives as many bytes as it is asked for
abbrev filled : ℕ → Bytes → Option Bytes
filled n source = some (replicate n 97)

filled-length :
    (n : ℕ) (source content : Bytes) → filled n source ≡ some content → length content ≡ n
filled-length n source content h = ground (arith, length-replicate {A = ℕ} n 97)

abbrev context : MeasurementCtx
context = record {
  event_name = some (bytes "exec");
  namespace_id = some (bytes "pod");
  dependencies = some (bytes "sh:init");
  additional_data = some (bytes "ab");
  additional_data_len = pos 2;
}

abbrev taken : Result (MeasurementRequest × ℕ) → MeasurementRequest
taken (ok (r, size)) = r
taken (err e) = record {
  event_name = [];
  namespace_id = [];
  dependencies = [];
  additional_data = [];
  additional_data_len = 0;
  flags = 0;
}

submit_measurement-prepare_measurement_example :
    let r = taken (submit_measurement whole filled context) in
    prepare_measurement (some r) request_size 512 ≡ ok (terminated r, joined r)
unfolding submit_measurement submit_from data_len read_field optional_field read_data bad_namespace
    validate_namespace
submit_measurement-prepare_measurement_example =
    submit_measurement-prepare_measurement whole filled whole-has_nul filled-length context
      (taken (submit_measurement whole filled context)) request_size refl refl (λ e. cc e)

-- everything succeeds but the file `policy_map`
abbrev answers : Answers
answers = record {
  hash_tfm = none;
  desc_too_large = false;
  workqueue = true;
  root_tfm = none;
  kprobe = none;
  tracing = none;
  main_dir = some 16;
  unique_dir = none;
  status = none;
  history = none;
  namespaces = none;
  policy = none;
  policy_map = some 11;
  policy_apply_file = none;
  policy_changes = none;
}

bpfima_init-bpfima_exit_example :
    let o = bpfima_init (pos 23) answers unloaded in
    (o.ret ≢ pos 0 → (o.state.held ≡ []) × (o.state.faults ≡ 0))
    × (o.ret ≡ pos 0 → ((bpfima_exit o.state).held ≡ []) × ((bpfima_exit o.state).faults ≡ 0))
bpfima_init-bpfima_exit_example = bpfima_init-bpfima_exit (pos 23) answers
