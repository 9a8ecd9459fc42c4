-- ===== src/Policy/Snapshot.antt =====
-- Validation of configurations in src/policy_manager.c: normalisation of what userspace sends, the
-- check of a namespace against the root, and the rebase of a namespace on a changed root.
pub mod Extension
use bpfima.Base.{
  ℕ, bit_and, bit_or, Bool, true, false, not, ◌&&◌, ◌||◌, List, [], ◌∷◌, arith, ltb, ◌==◌,
  if◌then◌else◌, take, eperm, einval, eopnotsupp, ℤ, has_nul, c_str, is_empty_str, strscpy_zeroed,
  pos,
}
use bpfima.Base.Bits.{compl32}
use bpfima.Base.Result.{Result, ok, err, reject_if, ◌>>=◌, ◌>>◌}
use bpfima.Policy.Types.{
  PolicyConfig, PatternEntry, HookConfig, Snapshot, max_pattern_len, scope_root_only,
}
use bpfima.Policy.Pattern.{covered}
use bpfima.Policy.Config.{has_flag, hook_with, zero_pattern, merge_with}

-- POLICY_ACTION_EXTEND_TPM | POLICY_ACTION_LOG_SECURITYFS
abbrev pub required_actions : ℕ
required_actions = 3

-- POLICY_ACTION_ALERT_SUSPICIOUS | POLICY_ACTION_BLOCK
abbrev pub unsupported_actions : ℕ
unsupported_actions = 24

-- The second test of `normalize_snapshot`.
unfoldable pub bad_config : PolicyConfig → Bool
bad_config c =
    ltb 1 c.enabled
    || has_flag c.filter_flags (compl32 0xff)
    || has_flag c.action_flags (compl32 0x7f)
    || not (bit_and c.action_flags required_actions == required_actions)
    || ltb 3 c.log_level
    || ltb 32 c.max_path_depth
    || ltb scope_root_only c.merkle_history_scope
    || not (c.reserved == 0)

unfoldable pub bad_pattern : PatternEntry → Bool
bad_pattern e =
    ltb 1 e.enabled
    || ltb 3 e.match_type
    || not (e.reserved == 0)
    || not (has_nul (take max_pattern_len e.pattern))
    || (not (e.enabled == 0) && is_empty_str e.pattern)

-- The zeroed entry of the output, or the entry's string, switch and kind in it.
unfoldable pub copy_pattern : PatternEntry → PatternEntry
copy_pattern e = if e.enabled == 0 then zero_pattern else record {
  pattern = strscpy_zeroed max_pattern_len (c_str e.pattern);
  enabled = 1;
  match_type = e.match_type;
  reserved = 0;
}

unfoldable pub normalize_patterns : List PatternEntry → Result (List PatternEntry)
normalize_patterns [] = ok []
normalize_patterns (e ∷ es) =
    let rest = normalize_patterns es in
    if bad_pattern e then err einval else (rest >>= λ clean. ok (copy_pattern e ∷ clean))

unfoldable pub bad_hook : HookConfig → Bool
bad_hook h =
    has_flag h.flags (compl32 7)
    || not (h.filter_override == 0)
    || not (h.action_override == 0)
    || not (h.reserved == 0)

unfoldable pub normalize_hooks : List HookConfig → Result (List HookConfig)
normalize_hooks [] = ok []
normalize_hooks (h ∷ hs) =
    let rest = normalize_hooks hs in
    if bad_hook h then err einval else (rest >>= λ clean. ok (hook_with h.flags ∷ clean))

-- `normalize_snapshot`: the output, or the error.
unfoldable pub normalize_snapshot : Snapshot → Result Snapshot
normalize_snapshot input = do
  reject_if (has_flag input.config.action_flags unsupported_actions) eopnotsupp
  reject_if (bad_config input.config) einval
  cgroups ← normalize_patterns input.cgroups
  paths ← normalize_patterns input.paths
  hooks ← normalize_hooks input.hooks
  let config = input.config
  ok (record {
    config = record config { reserved = 0 };
    cgroups = cgroups;
    paths = paths;
    hooks = hooks;
  })

-- The first test of `validate_extension`.
unfoldable pub weakens_config : PolicyConfig → PolicyConfig → Bool
weakens_config root extra =
    ltb extra.enabled root.enabled
    || has_flag extra.filter_flags (compl32 root.filter_flags)
    || has_flag root.action_flags (compl32 extra.action_flags)
    || ltb root.min_file_size extra.min_file_size
    || ltb extra.max_path_depth root.max_path_depth
    || ltb extra.log_level root.log_level
    || not (extra.merkle_history_max_size == root.merkle_history_max_size)
    || not (extra.merkle_history_scope == root.merkle_history_scope)

unfoldable pub weakens_hooks : List HookConfig → List HookConfig → Bool
weakens_hooks [] extra = false
weakens_hooks (r ∷ rs) [] = false
weakens_hooks (r ∷ rs) (e ∷ es) = has_flag r.flags (compl32 e.flags) || weakens_hooks rs es

unfoldable pub all_covered : List PatternEntry → List PatternEntry → Bool
all_covered [] base = true
all_covered (e ∷ es) base = covered e base && all_covered es base

-- `validate_extension`
unfoldable pub validate_extension : Snapshot → Snapshot → ℤ
validate_extension root extra =
    if weakens_config root.config extra.config
    then eperm
    else if weakens_hooks root.hooks extra.hooks
    then eperm
    else if all_covered extra.cgroups root.cgroups && all_covered extra.paths root.paths
    then pos 0
    else eperm

unfoldable pub rebase_hooks : List HookConfig → List HookConfig → List HookConfig
rebase_hooks root [] = []
rebase_hooks [] (e ∷ es) = e ∷ es
rebase_hooks (r ∷ rs) (e ∷ es) = record e { flags = bit_or e.flags r.flags } ∷ rebase_hooks rs es

unfoldable pub rebase_patterns : List PatternEntry → List PatternEntry → List PatternEntry
rebase_patterns base [] = []
rebase_patterns base (e ∷ es) =
    (if covered e base then e else zero_pattern) ∷ rebase_patterns base es

-- `rebase_extension`
unfoldable pub rebase_extension : Snapshot → Snapshot → Snapshot
rebase_extension root snapshot = record {
  config = merge_with root.config snapshot.config;
  cgroups = rebase_patterns root.cgroups snapshot.cgroups;
  paths = rebase_patterns root.paths snapshot.paths;
  hooks = rebase_hooks root.hooks snapshot.hooks;
}
