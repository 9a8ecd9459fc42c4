-- ===== src/Policy/Resolve.antt =====
-- Resolution of an event against the policy, in src/policy_manager.c: the filters, and whether the
-- event is skipped.
pub mod Coverage
pub mod Narrowing
use bpfima.Base.{
  ℕ, bit_or, Bool, true, not, ◌&&◌, ◌||◌, Option, none, some, arith, ltb, leb, ◌==◌, get_or, take,
  bytes_eq, has_nul, c_str, starts_with, contains, bytes,
}
use bpfima.Base.Bits.{compl32}
use bpfima.Policy.Types.{
  PolicyConfig, HookConfig, Snapshot, PolicyContext, PolicyResult, hook_max, namespace_size,
  path_size,
}
use bpfima.Policy.Pattern.{patterns_match}
use bpfima.Policy.Config.{has_flag, hook_with, merge_config}

abbrev pub file_flag : ℕ
file_flag = 1

abbrev pub readonly_flag : ℕ
readonly_flag = 2

abbrev pub executable_flag : ℕ
executable_flag = 4

-- The four tests that apply to files only.
unfoldable pub file_filtered : PolicyConfig → PolicyContext → Bool
file_filtered config context =
    (has_flag config.filter_flags 16 && ltb context.file_size config.min_file_size)
    || (has_flag config.filter_flags 8 && has_flag context.flags readonly_flag)
    || (has_flag config.filter_flags 32 && not (has_flag context.flags executable_flag))
    || (has_flag config.filter_flags 64 && contains (bytes ".so") (c_str context.path))

-- The tests on names.
unfoldable pub name_filtered : PolicyConfig → PolicyContext → Bool
name_filtered config context =
    (has_flag config.filter_flags 1
      && (bytes_eq (c_str context.cgroup) (bytes "/")
          || starts_with (bytes "init.scope") (c_str context.cgroup)))
    || (has_flag config.filter_flags 2
        && (starts_with (bytes "/proc/") (c_str context.path)
            || starts_with (bytes "/sys/") (c_str context.path)))
    || (has_flag config.filter_flags 4 && starts_with (bytes "/dev/") (c_str context.path))
    || (has_flag config.filter_flags 128 && starts_with (bytes "/tmp/") (c_str context.path))

-- `filtered`
unfoldable pub filtered : Snapshot → PolicyContext → Bool
filtered snapshot context =
    patterns_match snapshot.cgroups context.cgroup
    || patterns_match snapshot.paths context.path
    || name_filtered snapshot.config context
    || (has_flag context.flags file_flag && file_filtered snapshot.config context)

-- `root->hooks[context->hook].flags | (extra ? extra->hooks[context->hook].flags : 0)`
unfoldable pub hook_flags : Snapshot → Option Snapshot → ℕ → ℕ
hook_flags root none hook = bit_or (get_or root.hooks hook (hook_with 0)).flags 0
hook_flags root (some extra) hook =
    bit_or (get_or root.hooks hook (hook_with 0)).flags
      (get_or extra.hooks hook (hook_with 0)).flags

abbrev pub config_of : Option Snapshot → Option PolicyConfig
config_of none = none
config_of (some s) = some s.config

-- `!extra || filtered(extra, context)`
abbrev pub also_filtered : Option Snapshot → PolicyContext → Bool
also_filtered none context = true
also_filtered (some extra) context = filtered extra context

-- The value of `result->skip`.
unfoldable pub skips : Snapshot → Option Snapshot → PolicyContext → Bool
skips root extra context =
    ((merge_config root.config (config_of extra)).enabled == 0)
    || not (has_flag (hook_flags root extra context.hook) 1)
    || (has_flag context.flags file_flag && not (has_flag (hook_flags root extra context.hook) 4))
    || (filtered root context && also_filtered extra context)

-- The first test of `bpfima_policy_resolve_context`.
unfoldable pub bad_context : PolicyContext → Bool
bad_context context =
    leb hook_max context.hook
    || has_flag context.flags (compl32 7)
    || not (has_nul (take namespace_size context.namespace_id))
    || not (has_nul (take namespace_size context.cgroup))
    || not (has_nul (take path_size context.path))

-- What `bpfima_policy_resolve_context` writes, once the state's configurations are found.
unfoldable pub resolved : ℕ → Snapshot → Option Snapshot → PolicyContext → PolicyResult
resolved generation root extra context = record {
  generation = generation;
  config = merge_config root.config (config_of extra);
  hook = hook_with (hook_flags root extra context.hook);
  skip = skips root extra context;
}
