-- ===== src/Tool/Build/Accepted.antt =====
-- The snapshot that the tool builds is one that the module takes as it is.
use bpfima.Base.{
  ℕ, ◌≤◌, bit_and, bit_or, ◌≡◌, refl, sym, ap, ◌⊎◌, inl, inr, false, not, ◌||◌, List, arith, ◌==◌,
  All, einval, eopnotsupp, Bytes,
}
use bpfima.Base.Bits.{compl32, byte-and_compl}
use bpfima.Base.Result.{ok, reject_if-Yields, bind-Yields, Yields_ok}
use bpfima.Policy.Types.{PolicyConfig, Snapshot, max_ignore_patterns, max_path_filters}
use bpfima.Policy.Config.{has_flag}
use bpfima.Policy.Snapshot.{bad_config, normalize_snapshot, unsupported_actions}
use bpfima.Tool.Yaml.{YamlPolicy, YamlHook}
use bpfima.Tool.Yaml.Bounds.{IsBounded}
use bpfima.Tool.Build.{
  flag_if, action_flags_of, config_of_yaml, build_hooks, build_patterns, default_hooks,
  build_policy, too_many,
}
use bpfima.Tool.Build.Parts.{
  flag_if-cases, IsClean, IsCopy, build_hooks-IsClean, default_hooks-IsClean, normalize_hooks-same,
  normalize_patterns-same, build_patterns-IsCopy,
}

-- The configuration passes the tests of the module.
config_of_yaml-supported :
    (p : YamlPolicy) → has_flag (config_of_yaml p).action_flags unsupported_actions ≡ false
unfolding config_of_yaml action_flags_of
config_of_yaml-supported p =
    flags (flag_if p.log_level 4) (flag_if p.container_tracking 32) (flag_if-cases p.log_level 4)
      (flag_if-cases p.container_tracking 32)
  where
    flags :
        (a b : ℕ)
        → (a ≡ 0) ⊎ (a ≡ 4)
        → (b ≡ 0) ⊎ (b ≡ 32)
        → has_flag (bit_or (bit_or 67 a) b) unsupported_actions ≡ false
    flags a b (inl e) (inl f) = rw e (rw f refl)
    flags a b (inl e) (inr f) = rw e (rw f refl)
    flags a b (inr e) (inl f) = rw e (rw f refl)
    flags a b (inr e) (inr f) = rw e (rw f refl)

good_config :
    (c : PolicyConfig)
    → c.enabled ≤ 1
    → bit_and c.filter_flags (compl32 0xff) ≡ 0
    → (bit_and c.action_flags (compl32 0x7f) ≡ 0) × (bit_and c.action_flags 3 ≡ 3)
    → c.log_level ≤ 3
    → c.max_path_depth ≤ 32
    → c.merkle_history_scope ≤ 1
    → c.reserved ≡ 0
    → bad_config c ≡ false
unfolding bad_config
good_config c h1 h2 h3 h4 h5 h6 h7 = ground (arith, h3.0, h3.1)

config_of_yaml-good : (p : YamlPolicy) → IsBounded p → bad_config (config_of_yaml p) ≡ false
unfolding config_of_yaml action_flags_of
config_of_yaml-good p b =
    good_config (config_of_yaml p) b.enabled (byte-and_compl p.filter_flags b.filter_flags)
      (flags (flag_if p.log_level 4) (flag_if p.container_tracking 32) (flag_if-cases p.log_level 4)
        (flag_if-cases p.container_tracking 32))
      b.log_level b.max_path_depth (omega arith) refl
  where
    flags :
        (a b : ℕ)
        → (a ≡ 0) ⊎ (a ≡ 4)
        → (b ≡ 0) ⊎ (b ≡ 32)
        → (bit_and (bit_or (bit_or 67 a) b) (compl32 0x7f) ≡ 0)
          × (bit_and (bit_or (bit_or 67 a) b) 3 ≡ 3)
    flags a b (inl e) (inl f) = rw e (rw f (refl, refl))
    flags a b (inl e) (inr f) = rw e (rw f (refl, refl))
    flags a b (inr e) (inl f) = rw e (rw f (refl, refl))
    flags a b (inr e) (inr f) = rw e (rw f (refl, refl))

-- A snapshot whose parts pass comes back as it is.
normalize_snapshot-same :
    (s : Snapshot)
    → has_flag s.config.action_flags unsupported_actions ≡ false
    → bad_config s.config ≡ false
    → s.config.reserved ≡ 0
    → All IsCopy s.cgroups
    → All IsCopy s.paths
    → All IsClean s.hooks
    → normalize_snapshot s ≡ ok s
unfolding normalize_snapshot
normalize_snapshot-same s h1 h2 h3 c p k = rw h1 (
    rw h2 (
      rw (normalize_patterns-same s.cgroups c) (
        rw (normalize_patterns-same s.paths p) (
          rw (normalize_hooks-same s.hooks k) (
            ap
              (λ r. ok (
                let config = s.config in
                record {
                  config = record config { reserved = r };
                  cgroups = s.cgroups;
                  paths = s.paths;
                  hooks = s.hooks;
                }))
              (sym h3))))))

-- A snapshot that the module returns unchanged.
abbrev IsStable : Snapshot → Type 0
IsStable s = normalize_snapshot s ≡ ok s

-- What `build_policy` yields for a policy section within its bounds is a snapshot that
-- `normalize_snapshot` accepts and returns unchanged.
pub build_policy-normalize_snapshot :
    (p : YamlPolicy) (cgroups paths : List Bytes) (hooks : List YamlHook) (s : Snapshot)
    → IsBounded p
    → build_policy p cgroups paths hooks ≡ ok s
    → normalize_snapshot s ≡ ok s
unfolding build_policy config_of_yaml
build_policy-normalize_snapshot p cgroups paths hooks s b h =
    Yields_ok IsStable (build_policy p cgroups paths hooks) s h (
      reject_if-Yields IsStable (too_many cgroups paths hooks) einval _ (λ _.
        reject_if-Yields IsStable (not (p.appraise_enabled == 0) || not (p.enforce_enabled == 0))
          eopnotsupp _
          (λ _. reject_if-Yields IsStable (p.measure_enabled == 0) einval _ (λ _.
            bind-Yields IsStable (All IsClean) (build_hooks p hooks default_hooks) _
              (build_hooks-IsClean p hooks default_hooks default_hooks-IsClean)
              (λ built k.
                bind-Yields IsStable (All IsCopy) (build_patterns max_ignore_patterns cgroups) _
                  (build_patterns-IsCopy max_ignore_patterns cgroups)
                  (λ cs c.
                    bind-Yields IsStable (All IsCopy) (build_patterns max_path_filters paths) _
                      (build_patterns-IsCopy max_path_filters paths)
                      (λ ps q.
                        normalize_snapshot-same
                          (record {
                            config = config_of_yaml p;
                            cgroups = cs;
                            paths = ps;
                            hooks = built;
                          })
                          (config_of_yaml-supported p) (config_of_yaml-good p b) refl c q k)))))))
