-- ===== src/Tool/Yaml/Sections.antt =====
-- The sections of a policy file and the file itself, in tools/yaml_parser.c. A parser that calls
-- another one and goes on behind it recurses on fuel, and at the end of the events takes a step for
-- each event that libyaml does not give; `none` is the end of the fuel.
use bpfima.Base.{
  ℕ, zero, suc, ◌+◌, ◌||◌, Option, none, some, List, [], ◌∷◌, ltb, leb, if◌then◌else◌, length, set,
  get_or, replicate, is_zero, is_neg, Bytes, bytes_eq, c_str, is_empty_str, strscpy, bytes, pos,
}
use bpfima.Tool.Yaml.{
  Event, scalar, mapping_start, mapping_end, sequence_start, sequence_end, document_end, stream_end,
  other, failed, Strtoul, YamlPolicy, YamlHook, Parsed, failure, max_key_len, generic_map,
  hook_dispatcher, policy_dispatcher,
}
use bpfima.Policy.Types.{max_pattern_len, max_ignore_patterns, max_path_filters}

abbrev pub max_hook_configs : ℕ
max_hook_configs = 16

-- The arrays that the parser fills.
pub record YamlFile : Type 0 where
  pub policy : YamlPolicy
  pub cgroups : List Bytes
  pub paths : List Bytes
  pub hooks : List YamlHook

abbrev pub zero_hook : YamlHook
zero_hook = record { hook_name = []; enabled = 0; measure = 0; appraise = 0; enforce = 0 }

-- The zeroed output, with the default depth.
abbrev pub empty_file : YamlFile
empty_file = record {
  policy = record {
    enabled = 0;
    log_level = 0;
    filter_flags = 0;
    min_file_size = 0;
    max_path_depth = 32;
    measure_enabled = 0;
    appraise_enabled = 0;
    enforce_enabled = 0;
    container_tracking = 0;
  };
  cgroups = replicate max_ignore_patterns [];
  paths = replicate max_path_filters [];
  hooks = replicate max_hook_configs zero_hook;
}

-- The entry at an index of an array of strings.
abbrev pub text_at : List Bytes → ℕ → Bytes → List Bytes
text_at texts count value = set texts count (strscpy 255 (c_str value))

-- `parse_string_sequence`, from `count` entries on; a result of at least 0 is the count.
unfoldable pub string_sequence : ℕ → ℕ → List Bytes → List Event → Option (Parsed (List Bytes))
string_sequence max_patterns count texts [] = none
string_sequence max_patterns count texts (failed ∷ events) =
    some (record { ret = failure; ctx = texts; rest = [] })
string_sequence max_patterns count texts (scalar value ∷ events) =
    let rest = string_sequence max_patterns (count + 1) (text_at texts count value) events in
    if leb max_patterns count || leb max_pattern_len (length value)
    then some (record { ret = failure; ctx = texts; rest = events })
    else rest
string_sequence max_patterns count texts (sequence_end ∷ events) =
    some (record { ret = pos count; ctx = texts; rest = events })
string_sequence max_patterns count texts (mapping_start ∷ events) =
    string_sequence max_patterns count texts events
string_sequence max_patterns count texts (mapping_end ∷ events) =
    string_sequence max_patterns count texts events
string_sequence max_patterns count texts (sequence_start ∷ events) =
    string_sequence max_patterns count texts events
string_sequence max_patterns count texts (document_end ∷ events) =
    string_sequence max_patterns count texts events
string_sequence max_patterns count texts (stream_end ∷ events) =
    string_sequence max_patterns count texts events
string_sequence max_patterns count texts (other ∷ events) =
    string_sequence max_patterns count texts events

-- A part written back into the file.
abbrev pub in_file {ℓ} :
    {C : Type ℓ} → (C → YamlFile) → Option (Parsed C) → Option (Parsed YamlFile)
in_file f none = none
in_file f (some p) = some (record { ret = p.ret; ctx = f p.ctx; rest = p.rest })

-- What follows a part, unless the part failed.
unfoldable pub after_part :
    (Parsed YamlFile → Option (Parsed YamlFile))
    → Option (Parsed YamlFile)
    → Option (Parsed YamlFile)
after_part next none = none
after_part next (some p) = if is_neg p.ret then some (record p { ret = failure }) else next p

-- A sequence inside the filters: the patterns of a known key, in the file's array.
unfoldable pub filter_sequence : Bytes → YamlFile → List Event → Option (Parsed YamlFile)
filter_sequence key file events =
    if bytes_eq key (bytes "cgroup_patterns")
    then in_file (λ texts. record file { cgroups = texts })
        (string_sequence max_ignore_patterns 0 file.cgroups events)
    else if bytes_eq key (bytes "path_patterns")
    then in_file (λ texts. record file { paths = texts })
        (string_sequence max_path_filters 0 file.paths events)
    else some (record { ret = pos 0; ctx = file; rest = events })

-- `snprintf` into the key
abbrev pub key_of : Bytes → Bytes
key_of value = strscpy max_key_len (c_str value)

-- `parse_filters_section`: a key is kept until a sequence takes it.
unfoldable pub filters_section : ℕ → Bytes → YamlFile → List Event → Option (Parsed YamlFile)
filters_section zero key file events = none
filters_section (suc fuel) key file [] = filters_section fuel key file []
filters_section (suc fuel) key file (failed ∷ events) =
    some (record { ret = failure; ctx = file; rest = [] })
filters_section (suc fuel) key file (scalar value ∷ events) =
    filters_section fuel (if is_empty_str key then key_of value else key) file events
filters_section (suc fuel) key file (sequence_start ∷ events) =
    after_part (λ p. filters_section fuel [] p.ctx p.rest) (filter_sequence key file events)
filters_section (suc fuel) key file (mapping_end ∷ events) =
    some (record { ret = pos 0; ctx = file; rest = events })
filters_section (suc fuel) key file (mapping_start ∷ events) = filters_section fuel key file events
filters_section (suc fuel) key file (sequence_end ∷ events) = filters_section fuel key file events
filters_section (suc fuel) key file (document_end ∷ events) = filters_section fuel key file events
filters_section (suc fuel) key file (stream_end ∷ events) = filters_section fuel key file events
filters_section (suc fuel) key file (other ∷ events) = filters_section fuel key file events

-- One mapping of the hooks: the entry at `count` and what the parser of the map makes of it. What
-- that parser returns does not stop the hooks: 1 is an entry to count, 0 is none.
abbrev pub hook_counted : Option (Parsed YamlFile) → Option (Parsed YamlFile)
hook_counted none = none
hook_counted (some p) = some (record p { ret = if is_zero p.ret then pos 1 else pos 0 })

unfoldable pub hook_mapping : ℕ → YamlFile → List Event → Option (Parsed YamlFile)
hook_mapping count file events =
    if ltb count max_hook_configs
    then hook_counted (
        in_file (λ hook. record file { hooks = set file.hooks count hook })
          (generic_map hook_dispatcher [] (get_or file.hooks count zero_hook) events))
    else some (record { ret = pos 0; ctx = file; rest = events })

-- What follows a mapping of the hooks.
abbrev pub after_hook :
    (Parsed YamlFile → Option (Parsed YamlFile))
    → Option (Parsed YamlFile)
    → Option (Parsed YamlFile)
after_hook next none = none
after_hook next (some p) = next p

-- `parse_hooks_section`: an entry whose mapping fails is not counted.
unfoldable pub hooks_section : ℕ → ℕ → YamlFile → List Event → Option (Parsed YamlFile)
hooks_section zero count file events = none
hooks_section (suc fuel) count file [] = hooks_section fuel count file []
hooks_section (suc fuel) count file (failed ∷ events) =
    some (record { ret = failure; ctx = file; rest = [] })
hooks_section (suc fuel) count file (mapping_start ∷ events) =
    after_hook (λ p. hooks_section fuel (if is_zero p.ret then count else count + 1) p.ctx p.rest)
      (hook_mapping count file events)
hooks_section (suc fuel) count file (sequence_end ∷ events) =
    some (record { ret = pos count; ctx = file; rest = events })
hooks_section (suc fuel) count file (scalar value ∷ events) = hooks_section fuel count file events
hooks_section (suc fuel) count file (mapping_end ∷ events) = hooks_section fuel count file events
hooks_section (suc fuel) count file (sequence_start ∷ events) = hooks_section fuel count file events
hooks_section (suc fuel) count file (document_end ∷ events) = hooks_section fuel count file events
hooks_section (suc fuel) count file (stream_end ∷ events) = hooks_section fuel count file events
hooks_section (suc fuel) count file (other ∷ events) = hooks_section fuel count file events

module _ (strtoul : ℕ → Bytes → Strtoul) where
  -- `parse_policy_section`
  unfoldable pub policy_section : YamlFile → List Event → Option (Parsed YamlFile)
  policy_section file events =
      in_file (λ policy. record file { policy = policy })
        (generic_map (policy_dispatcher strtoul) [] file.policy events)

  -- A mapping of the file, by the key in front of it.
  unfoldable pub top_mapping : ℕ → Bytes → YamlFile → List Event → Option (Parsed YamlFile)
  top_mapping fuel key file events =
      let filters = filters_section fuel [] file events in
      if bytes_eq key (bytes "policy")
      then policy_section file events
      else if bytes_eq key (bytes "filters")
      then filters
      else some (record { ret = pos 0; ctx = file; rest = events })

  -- A sequence of the file.
  unfoldable pub top_sequence : ℕ → Bytes → YamlFile → List Event → Option (Parsed YamlFile)
  top_sequence fuel key file events =
      let hooks = hooks_section fuel 0 file events in
      if bytes_eq key (bytes "hooks")
      then hooks
      else some (record { ret = pos 0; ctx = file; rest = events })

  -- The loop of `parse_yaml_policy`.
  unfoldable pub top_level : ℕ → Bytes → YamlFile → List Event → Option (Parsed YamlFile)
  top_level zero key file events = none
  top_level (suc fuel) key file [] = top_level fuel key file []
  top_level (suc fuel) key file (failed ∷ events) =
      some (record { ret = failure; ctx = file; rest = [] })
  top_level (suc fuel) key file (scalar value ∷ events) = top_level fuel (key_of value) file events
  top_level (suc fuel) key file (mapping_start ∷ events) =
      after_part (λ p. top_level fuel [] p.ctx p.rest) (top_mapping (suc fuel) key file events)
  top_level (suc fuel) key file (sequence_start ∷ events) =
      after_part (λ p. top_level fuel [] p.ctx p.rest) (top_sequence (suc fuel) key file events)
  top_level (suc fuel) key file (document_end ∷ events) =
      some (record { ret = pos 0; ctx = file; rest = events })
  top_level (suc fuel) key file (stream_end ∷ events) =
      some (record { ret = pos 0; ctx = file; rest = events })
  top_level (suc fuel) key file (mapping_end ∷ events) = top_level fuel key file events
  top_level (suc fuel) key file (sequence_end ∷ events) = top_level fuel key file events
  top_level (suc fuel) key file (other ∷ events) = top_level fuel key file events

  -- `parse_yaml_policy` of a file that is opened and of which libyaml reads these events; each
  -- round takes at least one.
  unfoldable pub parse_yaml_policy : List Event → Option (Parsed YamlFile)
  parse_yaml_policy events = top_level (length events + 1) [] empty_file events
