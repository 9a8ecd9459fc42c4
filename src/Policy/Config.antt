-- ===== src/Policy/Config.antt =====
-- The defaults and the merge of include/bpfima_policy_defaults.h.
use bpfima.Base.{
  ℕ, ◌-◌, bit_and, bit_or, Bool, not, Option, none, some, ◌∷◌, ltb, ◌==◌, if◌then◌else◌, set,
  replicate, Bytes, strscpy_zeroed, bytes,
}
use bpfima.Policy.Types.{
  PolicyConfig, PatternEntry, HookConfig, Snapshot, hook_max, max_ignore_patterns, max_path_filters,
  max_pattern_len,
}

-- `flags & mask` is not zero.
abbrev pub has_flag : ℕ → ℕ → Bool
has_flag flags mask = not (bit_and flags mask == 0)

-- `bpfima_init_default_config`; `reserved` keeps its value.
unfoldable pub default_config : PolicyConfig → PolicyConfig
default_config c = record c {
  enabled = 1;
  filter_flags = 0;
  action_flags = 0x67;
  min_file_size = 0;
  max_path_depth = 32;
  log_level = 2;
  merkle_history_max_size = 1000;
  merkle_history_scope = 0;
}

abbrev pub zero_pattern : PatternEntry
zero_pattern = record {
  pattern = replicate max_pattern_len 0;
  enabled = 0;
  match_type = 0;
  reserved = 0;
}

abbrev pub zero_config : PolicyConfig
zero_config = record {
  enabled = 0;
  filter_flags = 0;
  action_flags = 0;
  min_file_size = 0;
  max_path_depth = 0;
  log_level = 0;
  merkle_history_max_size = 0;
  merkle_history_scope = 0;
  reserved = 0;
}

-- One default pattern: the text into the zeroed buffer, enabled.
abbrev default_pattern : Bytes → ℕ → PatternEntry
default_pattern text match_type = record {
  pattern = strscpy_zeroed max_pattern_len text;
  enabled = 1;
  match_type = match_type;
  reserved = 0;
}

abbrev pub hook_with : ℕ → HookConfig
hook_with flags = record { flags = flags; filter_override = 0; action_override = 0; reserved = 0 }

-- `bpfima_init_default_snapshot`. All hooks are enabled, track containers and measure hashes, but
-- the kprobe, hook 6, is off.
unfoldable pub default_snapshot : Snapshot
default_snapshot = record {
  config = default_config zero_config;
  cgroups =
      default_pattern (bytes "/") 0
      ∷ default_pattern (bytes "init.scope") 0
      ∷ replicate (max_ignore_patterns - 2) zero_pattern;
  paths =
      default_pattern (bytes "/proc/") 1
      ∷ default_pattern (bytes "/sys/") 1
      ∷ replicate (max_path_filters - 2) zero_pattern;
  hooks = set (replicate hook_max (hook_with 7)) 6 (hook_with 0);
}

-- a snapshot of zeroed memory
abbrev pub zero_snapshot : Snapshot
zero_snapshot = record {
  config = zero_config;
  cgroups = replicate max_ignore_patterns zero_pattern;
  paths = replicate max_path_filters zero_pattern;
  hooks = replicate hook_max (hook_with 0);
}

-- `bpfima_policy_merge_config`, with an `extra` that is there.
unfoldable pub merge_with : PolicyConfig → PolicyConfig → PolicyConfig
merge_with root extra = record root {
  enabled = bit_or root.enabled extra.enabled;
  filter_flags = bit_and root.filter_flags extra.filter_flags;
  action_flags = bit_or root.action_flags extra.action_flags;
  min_file_size =
      if ltb extra.min_file_size root.min_file_size
      then extra.min_file_size
      else root.min_file_size;
  max_path_depth =
      if ltb root.max_path_depth extra.max_path_depth
      then extra.max_path_depth
      else root.max_path_depth;
  log_level = if ltb root.log_level extra.log_level then extra.log_level else root.log_level;
}

unfoldable pub merge_config : PolicyConfig → Option PolicyConfig → PolicyConfig
merge_config root none = root
merge_config root (some extra) = merge_with root extra
