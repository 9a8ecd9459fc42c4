-- ===== src/Tests/Tool.antt =====
-- The policy files of the tool at concrete inputs.
use bpfima.Base.{
  ℕ, ◌-◌, ◌≤◌, ◌≡◌, refl, false, some, List, [], ◌∷◌, arith, length, Bytes, bytes, pos,
}
use bpfima.Base.Result.{Result, ok, err}
use bpfima.Policy.Types.{Snapshot}
use bpfima.Policy.Config.{zero_snapshot}
use bpfima.Policy.Snapshot.{normalize_snapshot}
use bpfima.Tool.Yaml.{
  Event, scalar, mapping_start, mapping_end, document_end, stream_end, other, Strtoul, YamlPolicy,
  YamlHook, Parsed, generic_map, policy_dispatcher, parse_number, parse_int, parse_bool,
}
use bpfima.Tool.Yaml.Bounds.{IsBounded}
use bpfima.Tool.Yaml.Sections.{
  YamlFile, empty_file, parse_yaml_policy, top_level, top_mapping, after_part, policy_section,
}
use bpfima.Tool.Yaml.Partial.{parse_yaml_policy-IsBounded}
use bpfima.Tool.Yaml.Returns.{parse_yaml_policy-some}
use bpfima.Tool.Build.{
  build_policy, build_hooks, build_patterns, yaml_pattern, get_hook_id, hook_id_from, hook_flags_of,
  too_many, config_of_yaml, action_flags_of,
}
use bpfima.Tool.Build.Accepted.{build_policy-normalize_snapshot}

-- reads one digit
abbrev digit : ℕ → Bytes → Strtoul
digit base [] = record { number = 0; rest = []; failed = false }
digit base (x ∷ text) = record { number = x - 48; rest = text; failed = false }

-- the start of the stream and of the document, and `policy: {log_level: 2, enabled: yes}`
abbrev events : List Event
events =
    other
    ∷ other
    ∷ mapping_start
    ∷ scalar (bytes "policy")
    ∷ mapping_start
    ∷ scalar (bytes "log_level")
    ∷ scalar (bytes "2")
    ∷ scalar (bytes "enabled")
    ∷ scalar (bytes "yes")
    ∷ mapping_end
    ∷ mapping_end
    ∷ document_end
    ∷ stream_end
    ∷ []

parse_yaml_policy-some_example :
    (p : Parsed YamlFile) × (parse_yaml_policy digit events ≡ some p)
    × (length p.rest ≤ length events)
parse_yaml_policy-some_example = parse_yaml_policy-some digit events refl

abbrev section : YamlPolicy
section = record {
  enabled = 1;
  log_level = 2;
  filter_flags = 0;
  min_file_size = 0;
  max_path_depth = 32;
  measure_enabled = 0;
  appraise_enabled = 0;
  enforce_enabled = 0;
  container_tracking = 0;
}

abbrev parsed : Parsed YamlFile
parsed =
    let file = empty_file in
    record { ret = pos 0; ctx = record file { policy = section }; rest = stream_end ∷ [] }

parse_yaml_policy-IsBounded_example : IsBounded section
unfolding parse_yaml_policy top_level top_mapping after_part policy_section generic_map
    policy_dispatcher parse_int parse_number parse_bool
parse_yaml_policy-IsBounded_example = parse_yaml_policy-IsBounded digit events parsed refl

abbrev measuring : YamlPolicy
measuring = record section { measure_enabled = 1 }

abbrev hook : YamlHook
hook = record {
  hook_name = bytes "lsm_file_open";
  enabled = 1;
  measure = 0;
  appraise = 0;
  enforce = 0;
}

abbrev built : Result Snapshot → Snapshot
built (err e) = zero_snapshot
built (ok s) = s

abbrev paths : List Bytes
paths = bytes "/proc/" ∷ []

build_policy-normalize_snapshot_example :
    normalize_snapshot (built (build_policy measuring [] paths (hook ∷ [])))
    ≡ ok (built (build_policy measuring [] paths (hook ∷ [])))
unfolding build_policy build_hooks build_patterns yaml_pattern get_hook_id hook_id_from
    hook_flags_of too_many config_of_yaml action_flags_of
build_policy-normalize_snapshot_example =
    build_policy-normalize_snapshot measuring [] paths (hook ∷ [])
      (built (build_policy measuring [] paths (hook ∷ [])))
      (record {
        enabled = omega arith;
        log_level = omega arith;
        filter_flags = omega arith;
        min_file_size = omega arith;
        max_path_depth = omega arith;
      })
      refl
