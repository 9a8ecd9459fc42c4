-- ===== src/Tool/Build.antt =====
-- `build_policy_from_yaml` of tools/yaml_parser.c: the snapshot of a parsed policy file.
pub mod Parts
pub mod Accepted
use bpfima.Base.{
  ℕ, suc, ◌-◌, bit_or, Bool, not, ◌||◌, Option, none, some, List, [], ◌∷◌, arith, ltb, leb, ◌==◌,
  if◌then◌else◌, length, set, replicate, einval, eopnotsupp, Bytes, bytes_eq, c_str, is_empty_str,
  strscpy_zeroed, bytes,
}
use bpfima.Base.Result.{Result, ok, err, reject_if, ◌>>=◌, ◌>>◌}
use bpfima.Policy.Types.{
  PolicyConfig, PatternEntry, HookConfig, Snapshot, hook_max, max_pattern_len, max_ignore_patterns,
  max_path_filters,
}
use bpfima.Policy.Config.{zero_pattern, hook_with}
use bpfima.Tool.Yaml.{YamlPolicy, YamlHook}
use bpfima.Tool.Yaml.Sections.{max_hook_configs}

-- The names of the hooks, by their numbers.
abbrev pub hook_names : List Bytes
hook_names =
    bytes "lsm_bprm_check_security"
    ∷ bytes "lsm_file_open"
    ∷ bytes "lsm_file_post_open"
    ∷ bytes "lsm_mmap_file"
    ∷ bytes "lsm_socket_connect"
    ∷ bytes "lsm_container_events"
    ∷ bytes "kprobe_file_open"
    ∷ bytes "lsm_inode_setattr"
    ∷ []

-- The search of `get_hook_id` from a number on.
unfoldable pub hook_id_from : ℕ → List Bytes → Bytes → Option ℕ
hook_id_from i [] name = none
hook_id_from i (n ∷ names) name =
    let rest = hook_id_from (suc i) names name in if bytes_eq name n then some i else rest

-- `get_hook_id`; -1 is `none`.
unfoldable pub get_hook_id : Bytes → Option ℕ
get_hook_id name = hook_id_from 0 hook_names name

-- `flag ? value : 0`
abbrev pub flag_if : ℕ → ℕ → ℕ
flag_if flag value = if flag == 0 then 0 else value

-- The action flags, the three mandatory ones first.
unfoldable pub action_flags_of : YamlPolicy → ℕ
action_flags_of p = bit_or (bit_or 67 (flag_if p.log_level 4)) (flag_if p.container_tracking 32)

unfoldable pub config_of_yaml : YamlPolicy → PolicyConfig
config_of_yaml p = record {
  enabled = p.enabled;
  filter_flags = p.filter_flags;
  action_flags = action_flags_of p;
  min_file_size = p.min_file_size;
  max_path_depth = p.max_path_depth;
  log_level = p.log_level;
  merkle_history_max_size = 1000;
  merkle_history_scope = 0;
  reserved = 0;
}

-- The flags of a hook that the file configures.
unfoldable pub hook_flags_of : YamlPolicy → YamlHook → ℕ
hook_flags_of p h =
    bit_or (bit_or (flag_if h.enabled 1) (flag_if h.measure 4)) (flag_if p.container_tracking 2)

-- The loop over the configured hooks; one without a name is passed over.
unfoldable pub build_hooks : YamlPolicy → List YamlHook → List HookConfig → Result (List HookConfig)
build_hooks p [] hooks = ok hooks
build_hooks p (h ∷ rest) hooks =
    if is_empty_str h.hook_name
    then build_hooks p rest hooks
    else if not (h.appraise == 0) || not (h.enforce == 0)
    then err eopnotsupp
    else elim (get_hook_id h.hook_name) [
      | none ↦ err einval
      | some i ↦ build_hooks p rest (set hooks i (hook_with (hook_flags_of p h)))
    ]

-- The entry of one pattern's array, which stays zero for an empty one.
unfoldable pub yaml_pattern : Bytes → PatternEntry
yaml_pattern pattern = if is_empty_str pattern then zero_pattern else record {
  pattern = strscpy_zeroed max_pattern_len (c_str pattern);
  enabled = 1;
  match_type = 1;
  reserved = 0;
}

-- The loop over the patterns of one kind, and the entries behind them.
unfoldable pub build_patterns : ℕ → List Bytes → Result (List PatternEntry)
build_patterns left [] = ok (replicate left zero_pattern)
build_patterns left (p ∷ ps) =
    if leb max_pattern_len (length (c_str p))
    then err einval
    else build_patterns (left - 1) ps >>= λ entries. ok (yaml_pattern p ∷ entries)

-- `hooks[i].flags` before the file's hooks
abbrev pub default_hooks : List HookConfig
default_hooks = set (replicate hook_max (hook_with 7)) 6 (hook_with 0)

-- The first test.
unfoldable pub too_many : List Bytes → List Bytes → List YamlHook → Bool
too_many cgroups paths hooks =
    ltb max_ignore_patterns (length cgroups)
    || ltb max_path_filters (length paths)
    || ltb max_hook_configs (length hooks)

-- `build_policy_from_yaml`, with the counts as the lengths of the lists
unfoldable pub build_policy : YamlPolicy → List Bytes → List Bytes → List YamlHook → Result Snapshot
build_policy p cgroups paths hooks = do
  reject_if (too_many cgroups paths hooks) einval
  reject_if (not (p.appraise_enabled == 0) || not (p.enforce_enabled == 0)) eopnotsupp
  reject_if (p.measure_enabled == 0) einval
  built ← build_hooks p hooks default_hooks
  cgroup_entries ← build_patterns max_ignore_patterns cgroups
  path_entries ← build_patterns max_path_filters paths
  ok (record {
    config = config_of_yaml p;
    cgroups = cgroup_entries;
    paths = path_entries;
    hooks = built;
  })
