-- ===== src/Tests/Policy.antt =====
-- The policy at concrete inputs.
use bpfima.Base.{
  ℕ, ◌≤◌, ◌<◌, ◌≡◌, refl, sym, ◌∙◌, ◌≢◌, true, Option, none, some, [], ◌∷◌, ◌++◌, arith, is_some,
  length, replicate, All, eio, Bytes, c_str, bytes, pos,
}
use bpfima.Base.Result.{ok}
use bpfima.Hash.{extend_hash, calculate_sha256_hash}
use bpfima.Tpm.{
  extend_tpm_pcr, extend_tpm_pcr_with_root, extend_chip, bad_pcr_index, has_sha256_bank,
}
use bpfima.Kfunc.{
  MeasurementRequest, prepare_measurement, bad_request, bad_namespace, validate_namespace,
  terminated, request_size,
}
use bpfima.Kfunc.Prepare.{joined, prepare_measurement-joined}
use bpfima.Merkle.{initial, commit_check, alloc_history_entry, commit_fail}
use bpfima.Merkle.Commit.{
  commit_root, commit_event, commit_checked, commit_root_value, commit_value, commit_tpm,
  tpm_failed, publish_event,
}
use bpfima.Policy.Types.{Snapshot, PatternEntry, PolicyContext, PolicyRequest, hook_max}
use bpfima.Policy.Config.{default_config, default_snapshot, hook_with, merge_with, merge_config}
use bpfima.Policy.Pattern.{pattern_is_subset, pattern_matches, match_by}
use bpfima.Policy.Pattern.Subset.{pattern_is_subset-pattern_matches}
use bpfima.Policy.Snapshot.{
  validate_extension, rebase_extension, weakens_config, weakens_hooks, all_covered,
}
use bpfima.Policy.Pattern.{covered, in_base, patterns_match}
use bpfima.Policy.Snapshot.Extension.{
  IsWord, HookWord, merge_with-of_valid, validate_extension-rebase_extension,
}
use bpfima.Policy.Resolve.{skips, filtered, name_filtered, hook_flags}
use bpfima.Policy.Resolve.Coverage.{skips-with_namespace}
use bpfima.Policy.Resolve.Narrowing.{valid-filtered}
use bpfima.Policy.Manager.{BpfMap, Manager, slot, active_state, record_at}
use bpfima.Policy.Manager.Publish.{
  PublishEnv, PreparedChange, publish_policy, publish_prepared, publish_change, prepare_change,
  snapshot_digest, chain,
}
use bpfima.Policy.Manager.Apply.{ApplyEnv, Applied, policy_apply}
use bpfima.Policy.Manager.Bind.{
  zero_state, initial_state, bind_map, array_map, key_size, state_size,
}
use bpfima.Policy.Manager.Audit.{IsAudited}
use bpfima.Policy.Manager.Staging.{
  Unpublished, IsPublished, publish_policy-Unpublished, publish_policy-IsPublished,
}
use bpfima.Policy.Manager.Active.{IsBound, IsStep}
use bpfima.Policy.Manager.Step.{policy_apply-IsStep}
use bpfima.Policy.Manager.First.{Binds, bind_map-Binds}
use bpfima.Policy.Snapshot.{
  normalize_snapshot, normalize_patterns, normalize_hooks, bad_config, bad_pattern, bad_hook,
  copy_pattern,
}
use bpfima.Policy.Namespace.{namespace_get, find_policy_namespace}
use bpfima.Policy.Manager.{namespace_index, index_from}
use bpfima.Policy.Manager.Apply.{apply_active, select_record, apply_snapshot, apply_changed}
use bpfima.Policy.Manager.Accepted.{IsAccepted, apply_active-IsAccepted}
use bpfima.Tests.Fixtures.{toy, chip, failing_chip, env_with, config}
use bpfima.Tpm.{Chip}

abbrev pattern : Bytes → ℕ → PatternEntry
pattern text kind = record { pattern = text; enabled = 1; match_type = kind; reserved = 0 }

pattern_is_subset-pattern_matches_example :
    pattern_matches (pattern (bytes "/pr") 1) (bytes "/proc/1") ≡ true
unfolding pattern_is_subset pattern_matches match_by
pattern_is_subset-pattern_matches_example =
    pattern_is_subset-pattern_matches (pattern (bytes "/proc/") 1) (pattern (bytes "/pr") 1)
      (bytes "/proc/1") refl refl

abbrev filtering : Snapshot
filtering = record {
  config = record config { filter_flags = 3 };
  cgroups = [];
  paths = pattern (bytes "/pr") 1 ∷ [];
  hooks = replicate hook_max (hook_with 7);
}

abbrev narrower : Snapshot
narrower = record {
  config = record config { filter_flags = 2 };
  cgroups = [];
  paths = pattern (bytes "/proc/") 1 ∷ [];
  hooks = replicate hook_max (hook_with 7);
}

abbrev proc_event : PolicyContext
proc_event = record {
  namespace_id = bytes "pod";
  cgroup = bytes "/pods/a";
  path = bytes "/proc/1";
  file_size = 0;
  hook = 0;
  flags = 0;
}

filtering-IsWord : IsWord filtering.config
filtering-IsWord = record {
  enabled = omega arith;
  filter_flags = omega arith;
  action_flags = omega arith;
}

narrower-IsWord : IsWord narrower.config
narrower-IsWord = record {
  enabled = omega arith;
  filter_flags = omega arith;
  action_flags = omega arith;
}

narrower-valid : validate_extension filtering narrower ≡ pos 0
unfolding validate_extension weakens_config weakens_hooks all_covered covered in_base
    pattern_is_subset pattern_matches match_by
narrower-valid = refl

skips-with_namespace_example : skips filtering none proc_event ≡ true
unfolding skips hook_flags filtered patterns_match pattern_matches match_by name_filtered
    merge_config merge_with
skips-with_namespace_example = skips-with_namespace filtering narrower proc_event refl

valid-filtered_example : filtered filtering proc_event ≡ true
unfolding filtered patterns_match pattern_matches match_by
valid-filtered_example =
    valid-filtered filtering narrower proc_event filtering-IsWord narrower-IsWord narrower-valid
      refl

merge_with-of_valid_example : merge_with filtering.config narrower.config ≡ narrower.config
merge_with-of_valid_example =
    merge_with-of_valid filtering narrower filtering-IsWord narrower-IsWord refl narrower-valid

hooks-HookWord : All HookWord (replicate hook_max (hook_with 7))
hooks-HookWord = let w : 7 ≤ 0xffff_ffff = omega arith in (w, (w, (w, (w, (w, (w, (w, (w, tt))))))))

validate_extension-rebase_extension_example :
    validate_extension narrower (rebase_extension narrower filtering) ≡ pos 0
validate_extension-rebase_extension_example =
    validate_extension-rebase_extension narrower filtering narrower-IsWord filtering-IsWord
      hooks-HookWord hooks-HookWord

abbrev request : MeasurementRequest
request = record {
  event_name = bytes "exec" ++ replicate 252 0;
  namespace_id = bytes "pod" ++ replicate 125 0;
  dependencies = bytes "sh" ++ replicate 254 0;
  additional_data = bytes "ab" ++ replicate 254 0;
  additional_data_len = 2;
  flags = 1;
}

prepare_measurement-joined_example :
    (prepare_measurement (some request) request_size 512 ≡ ok (terminated request, joined request))
    × (length (joined request) < 512)
unfolding bad_request bad_namespace validate_namespace
prepare_measurement-joined_example =
    prepare_measurement-joined request (record { dependencies = refl; additional_data = refl }) refl
      refl refl (λ h. cc)

abbrev pub publish_env : Option Chip → PublishEnv
publish_env c = record {
  change_allocated = true;
  wire_allocated = true;
  tfm = true;
  digest_ret = pos 0;
  event_ret = pos 0;
  next_ret = pos 0;
  commit = env_with c;
}

abbrev blank_map : BpfMap
blank_map = record {
  id = 1;
  map_type = array_map;
  key_size = key_size;
  value_size = state_size;
  max_entries = 3;
  map_flags = 128;
  frozen = true;
  writecnt = 0;
  control = zero_state;
  even_state = zero_state;
  odd_state = zero_state;
}

abbrev unbound_manager : Manager
unbound_manager = record {
  policy_map = none;
  namespaces = [];
  global_history = [];
  merkle = initial;
}

bind_map-Binds_example : Binds unbound_manager (
    bind_map toy
      (record { available = true; initial_allocated = true; publish = publish_env (some chip) })
      blank_map
      unbound_manager)
bind_map-Binds_example =
    bind_map-Binds toy
      (record { available = true; initial_allocated = true; publish = publish_env (some chip) })
      blank_map unbound_manager tt

abbrev pub live_map : BpfMap
live_map = record blank_map {
  control = record zero_state { generation = 1 };
  odd_state = record initial_state { generation = 1 };
}

abbrev pub live_manager : Manager
live_manager = record unbound_manager { policy_map = some live_map }

pub live_manager-IsBound : IsBound live_manager.policy_map
unfolding active_state slot
live_manager-IsBound = (
  record initial_state { generation = 1 },
  record {
    active = refl;
    generation = refl;
    published = λ h. cc;
    sized = record { namespace_count = omega arith; records = refl };
  },
)

abbrev pub apply_env : Option Chip → ApplyEnv
apply_env c = record {
  available = is_some c;
  candidate_allocated = true;
  namespace_allocated = true;
  request_allocated = true;
  publish = publish_env c;
}

abbrev pub root_request : PolicyRequest
root_request = record {
  version = 2;
  reserved = 0;
  expected_generation = 1;
  body = record { namespace_id = replicate 128 0; snapshot = default_snapshot };
}

policy_apply-IsStep_example :
    (o : Applied) × (policy_apply toy (apply_env (some chip)) (some root_request) live_manager
      ≡ some o)
    × IsStep live_manager o
policy_apply-IsStep_example =
    policy_apply-IsStep toy (apply_env (some chip)) (some root_request) live_manager
      live_manager-IsBound

published_ret :
    (publish_policy toy
      (publish_env (some chip))
      blank_map
      initial_state
      0
      none
      unbound_manager).ret
    ≡ pos 0
unfolding publish_policy publish_prepared publish_change prepare_change snapshot_digest chain
    calculate_sha256_hash commit_root commit_event commit_check commit_checked commit_root_value
    commit_value commit_tpm tpm_failed publish_event alloc_history_entry extend_hash extend_tpm_pcr
    extend_tpm_pcr_with_root extend_chip commit_fail bad_pcr_index has_sha256_bank
published_ret = refl

publish_policy-IsPublished_example :
    let next = record initial_state { generation = 1 } in
    (c : PreparedChange) × (prepare_change toy (publish_env (some chip)) next 0 none ≡ ok c)
    × IsPublished toy
        (publish_env (some chip))
        blank_map
        next
        (c_str (record_at next 0).namespace_id)
        c
        unbound_manager
        (publish_policy toy
          (publish_env (some chip))
          blank_map
          initial_state
          0
          none
          unbound_manager)
    × IsAudited toy none c.change unbound_manager
        (publish_policy toy
          (publish_env (some chip))
          blank_map
          initial_state
          0
          none
          unbound_manager).manager
publish_policy-IsPublished_example =
    publish_policy-IsPublished toy (publish_env (some chip)) blank_map initial_state 0 none
      unbound_manager published_ret

unpublished_ret :
    (publish_policy toy
      (publish_env (some failing_chip))
      live_map
      initial_state
      0
      none
      live_manager).ret
    ≡ eio
unfolding publish_policy publish_prepared publish_change prepare_change snapshot_digest chain
    calculate_sha256_hash commit_root commit_event commit_check commit_checked commit_root_value
    commit_value commit_tpm tpm_failed publish_event alloc_history_entry extend_hash extend_tpm_pcr
    extend_tpm_pcr_with_root extend_chip commit_fail bad_pcr_index has_sha256_bank
unpublished_ret = refl

eio-ne_zero : eio ≢ pos 0
eio-ne_zero h = cc

publish_policy-Unpublished_example : Unpublished live_map live_manager (
    publish_policy toy (publish_env (some failing_chip)) live_map initial_state 0 none live_manager)
publish_policy-Unpublished_example =
    publish_policy-Unpublished toy (publish_env (some failing_chip)) live_map initial_state 0 none
      live_manager (λ h. eio-ne_zero (sym unpublished_ret ∙ h))

abbrev pod_request : PolicyRequest
pod_request = record {
  version = 2;
  reserved = 0;
  expected_generation = 1;
  body = record { namespace_id = bytes "pod" ++ replicate 125 0; snapshot = default_snapshot };
}

accepted_ret :
    (apply_active toy
      (apply_env (some chip))
      pod_request
      live_map
      (record initial_state { generation = 1 })
      live_manager).ret
    ≡ pos 0
unfolding apply_active select_record namespace_index index_from normalize_snapshot
    normalize_patterns normalize_hooks apply_snapshot apply_changed validate_extension
    weakens_config weakens_hooks all_covered covered in_base pattern_is_subset pattern_matches
    match_by namespace_get find_policy_namespace validate_namespace publish_policy publish_prepared
    publish_change prepare_change snapshot_digest chain calculate_sha256_hash commit_root
    commit_event commit_check commit_checked commit_root_value commit_value commit_tpm tpm_failed
    publish_event alloc_history_entry extend_hash extend_tpm_pcr extend_tpm_pcr_with_root
    extend_chip commit_fail bad_pcr_index has_sha256_bank default_snapshot default_config bad_config
    bad_pattern bad_hook copy_pattern
accepted_ret = refl

apply_active-IsAccepted_example : IsAccepted (record initial_state { generation = 1 }) pod_request
apply_active-IsAccepted_example =
    apply_active-IsAccepted toy (apply_env (some chip)) pod_request live_map
      (record initial_state { generation = 1 }) live_manager accepted_ret
