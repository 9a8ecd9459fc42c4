-- ===== src/Tool/Yaml/Partial.antt =====
-- What the parser of a policy file has written, where it has returned, is within its bounds.
use bpfima.Base.{
  ℕ, zero, suc, ◌+◌, ◌≡◌, Bool, true, false, Option, none, some, List, [], ◌∷◌, arith, ltb,
  if◌then◌else◌, length, set, get_or, is_zero, is_neg, Bytes, bytes_eq, is_empty_str, bytes,
}
use mathlib.Core.Path.{subst}
use bpfima.Tool.Yaml.{
  Event, scalar, mapping_start, mapping_end, sequence_start, sequence_end, document_end, stream_end,
  other, failed, Strtoul, Parsed, generic_map, hook_dispatcher, policy_dispatcher,
}
use bpfima.Tool.Yaml.Bounds.{IsBounded, Written, generic_map-Holds, policy_dispatcher-Bounds}
use bpfima.Tool.Yaml.Sections.{
  YamlFile, empty_file, in_file, after_part, after_hook, hook_counted, string_sequence,
  filter_sequence, filters_section, hook_mapping, hooks_section, key_of, max_hook_configs,
  zero_hook, policy_section, top_mapping, top_sequence, top_level, parse_yaml_policy,
}
use bpfima.Policy.Types.{max_ignore_patterns, max_path_filters}

-- A section within its bounds, where the part has returned.
abbrev IsGood : Option (Parsed YamlFile) → Type 0
IsGood r = Written (λ (file : YamlFile). IsBounded file.policy) r

if-Holds : {A : Type 0} (P : A → Type 0) (b : Bool) (x y : A) → P x → P y → P (if b then x else y)
if-Holds P true x y p q = p
if-Holds P false x y p q = q

in_file-IsGood :
    {C : Type 0} (P : C → Type 0) (f : C → YamlFile) (r : Option (Parsed C))
    → ((c : C) → P c → IsBounded (f c).policy)
    → Written P r
    → IsGood (in_file f r)
in_file-IsGood P f none k h = tt
in_file-IsGood P f (some p) k h = k p.ctx h

in_file_any :
    {C : Type 0} (f : C → YamlFile) (r : Option (Parsed C))
    → ((c : C) → IsBounded (f c).policy)
    → IsGood (in_file f r)
in_file_any f none k = tt
in_file_any f (some p) k = k p.ctx

hook_counted-IsGood : (r : Option (Parsed YamlFile)) → IsGood r → IsGood (hook_counted r)
hook_counted-IsGood none h = tt
hook_counted-IsGood (some p) h = h

after_part-IsGood :
    (next : Parsed YamlFile → Option (Parsed YamlFile)) (r : Option (Parsed YamlFile))
    → IsGood r
    → ((p : Parsed YamlFile) → IsBounded p.ctx.policy → IsGood (next p))
    → IsGood (after_part next r)
unfolding after_part
after_part-IsGood next none g k = tt
after_part-IsGood next (some p) g k = if-Holds IsGood (is_neg p.ret) _ _ g (k p g)

after_hook-IsGood :
    (next : Parsed YamlFile → Option (Parsed YamlFile)) (r : Option (Parsed YamlFile))
    → IsGood r
    → ((p : Parsed YamlFile) → IsBounded p.ctx.policy → IsGood (next p))
    → IsGood (after_hook next r)
after_hook-IsGood next none g k = tt
after_hook-IsGood next (some p) g k = k p g

filter_sequence-IsGood :
    (key : Bytes) (file : YamlFile) (events : List Event)
    → IsBounded file.policy
    → IsGood (filter_sequence key file events)
unfolding filter_sequence
filter_sequence-IsGood key file events b =
    if-Holds IsGood (bytes_eq key (bytes "cgroup_patterns")) _ _
      (in_file_any (λ texts. record file { cgroups = texts })
        (string_sequence max_ignore_patterns 0 file.cgroups events) (λ t. b))
      (if-Holds IsGood (bytes_eq key (bytes "path_patterns")) _ _
        (in_file_any (λ texts. record file { paths = texts })
          (string_sequence max_path_filters 0 file.paths events) (λ t. b))
        b)

hook_mapping-IsGood :
    (count : ℕ) (file : YamlFile) (events : List Event)
    → IsBounded file.policy
    → IsGood (hook_mapping count file events)
unfolding hook_mapping
hook_mapping-IsGood count file events b =
    if-Holds IsGood (ltb count max_hook_configs) _ _
      (hook_counted-IsGood _ (
        in_file_any (λ hook. record file { hooks = set file.hooks count hook })
          (generic_map hook_dispatcher [] (get_or file.hooks count zero_hook) events) (λ h. b)))
      b

filters_section-IsGood :
    (fuel : ℕ) (key : Bytes) (file : YamlFile) (events : List Event)
    → IsBounded file.policy
    → IsGood (filters_section fuel key file events)
unfolding filters_section
filters_section-IsGood zero key file events b = tt
filters_section-IsGood (suc fuel) key file [] b = filters_section-IsGood fuel key file [] b
filters_section-IsGood (suc fuel) key file (scalar value ∷ events) b =
    filters_section-IsGood fuel (if is_empty_str key then key_of value else key) file events b
filters_section-IsGood (suc fuel) key file (failed ∷ events) b = b
filters_section-IsGood (suc fuel) key file (mapping_end ∷ events) b = b
filters_section-IsGood (suc fuel) key file (sequence_start ∷ events) b =
    after_part-IsGood (λ p. filters_section fuel [] p.ctx p.rest) (filter_sequence key file events)
      (filter_sequence-IsGood key file events b)
      (λ p g. filters_section-IsGood fuel [] p.ctx p.rest g)
filters_section-IsGood (suc fuel) key file (mapping_start ∷ events) b =
    filters_section-IsGood fuel key file events b
filters_section-IsGood (suc fuel) key file (sequence_end ∷ events) b =
    filters_section-IsGood fuel key file events b
filters_section-IsGood (suc fuel) key file (document_end ∷ events) b =
    filters_section-IsGood fuel key file events b
filters_section-IsGood (suc fuel) key file (stream_end ∷ events) b =
    filters_section-IsGood fuel key file events b
filters_section-IsGood (suc fuel) key file (other ∷ events) b =
    filters_section-IsGood fuel key file events b

hooks_section-IsGood :
    (fuel count : ℕ) (file : YamlFile) (events : List Event)
    → IsBounded file.policy
    → IsGood (hooks_section fuel count file events)
unfolding hooks_section
hooks_section-IsGood zero count file events b = tt
hooks_section-IsGood (suc fuel) count file [] b = hooks_section-IsGood fuel count file [] b
hooks_section-IsGood (suc fuel) count file (scalar value ∷ events) b =
    hooks_section-IsGood fuel count file events b
hooks_section-IsGood (suc fuel) count file (failed ∷ events) b = b
hooks_section-IsGood (suc fuel) count file (sequence_end ∷ events) b = b
hooks_section-IsGood (suc fuel) count file (mapping_start ∷ events) b =
    after_hook-IsGood
      (λ p. hooks_section fuel (if is_zero p.ret then count else count + 1) p.ctx p.rest)
      (hook_mapping count file events) (hook_mapping-IsGood count file events b)
      (λ p g. hooks_section-IsGood fuel (if is_zero p.ret then count else count + 1) p.ctx p.rest g)
hooks_section-IsGood (suc fuel) count file (mapping_end ∷ events) b =
    hooks_section-IsGood fuel count file events b
hooks_section-IsGood (suc fuel) count file (sequence_start ∷ events) b =
    hooks_section-IsGood fuel count file events b
hooks_section-IsGood (suc fuel) count file (document_end ∷ events) b =
    hooks_section-IsGood fuel count file events b
hooks_section-IsGood (suc fuel) count file (stream_end ∷ events) b =
    hooks_section-IsGood fuel count file events b
hooks_section-IsGood (suc fuel) count file (other ∷ events) b =
    hooks_section-IsGood fuel count file events b

module _ (strtoul : ℕ → Bytes → Strtoul) where
  policy_section-IsGood :
      (file : YamlFile) (events : List Event)
      → IsBounded file.policy
      → IsGood (policy_section strtoul file events)
  unfolding policy_section
  policy_section-IsGood file events b =
      in_file-IsGood IsBounded (λ policy. record file { policy = policy })
        (generic_map (policy_dispatcher strtoul) [] file.policy events) (λ c h. h)
        (generic_map-Holds IsBounded (policy_dispatcher strtoul)
          (λ key value p q e b. policy_dispatcher-Bounds strtoul key value p b q e) [] file.policy
          events b)

  top_mapping-IsGood :
      (fuel : ℕ) (key : Bytes) (file : YamlFile) (events : List Event)
      → IsBounded file.policy
      → IsGood (top_mapping strtoul fuel key file events)
  unfolding top_mapping
  top_mapping-IsGood fuel key file events b =
      if-Holds IsGood (bytes_eq key (bytes "policy")) _ _ (policy_section-IsGood file events b) (
        if-Holds IsGood (bytes_eq key (bytes "filters")) _ _
          (filters_section-IsGood fuel [] file events b) b)

  top_sequence-IsGood :
      (fuel : ℕ) (key : Bytes) (file : YamlFile) (events : List Event)
      → IsBounded file.policy
      → IsGood (top_sequence strtoul fuel key file events)
  unfolding top_sequence
  top_sequence-IsGood fuel key file events b =
      if-Holds IsGood (bytes_eq key (bytes "hooks")) _ _ (hooks_section-IsGood fuel 0 file events b)
        b

  top_level-IsGood :
      (fuel : ℕ) (key : Bytes) (file : YamlFile) (events : List Event)
      → IsBounded file.policy
      → IsGood (top_level strtoul fuel key file events)
  unfolding top_level
  top_level-IsGood zero key file events b = tt
  top_level-IsGood (suc fuel) key file [] b = top_level-IsGood fuel key file [] b
  top_level-IsGood (suc fuel) key file (scalar value ∷ events) b =
      top_level-IsGood fuel (key_of value) file events b
  top_level-IsGood (suc fuel) key file (failed ∷ events) b = b
  top_level-IsGood (suc fuel) key file (document_end ∷ events) b = b
  top_level-IsGood (suc fuel) key file (stream_end ∷ events) b = b
  top_level-IsGood (suc fuel) key file (mapping_start ∷ events) b =
      after_part-IsGood (λ p. top_level strtoul fuel [] p.ctx p.rest)
        (top_mapping strtoul (suc fuel) key file events)
        (top_mapping-IsGood (suc fuel) key file events b)
        (λ p g. top_level-IsGood fuel [] p.ctx p.rest g)
  top_level-IsGood (suc fuel) key file (sequence_start ∷ events) b =
      after_part-IsGood (λ p. top_level strtoul fuel [] p.ctx p.rest)
        (top_sequence strtoul (suc fuel) key file events)
        (top_sequence-IsGood (suc fuel) key file events b)
        (λ p g. top_level-IsGood fuel [] p.ctx p.rest g)
  top_level-IsGood (suc fuel) key file (mapping_end ∷ events) b =
      top_level-IsGood fuel key file events b
  top_level-IsGood (suc fuel) key file (sequence_end ∷ events) b =
      top_level-IsGood fuel key file events b
  top_level-IsGood (suc fuel) key file (other ∷ events) b = top_level-IsGood fuel key file events b

  parse_yaml_policy-IsGood : (events : List Event) → IsGood (parse_yaml_policy strtoul events)
  unfolding parse_yaml_policy
  parse_yaml_policy-IsGood events =
      top_level-IsGood (length events + 1) [] empty_file events (record {
        enabled = omega arith;
        log_level = omega arith;
        filter_flags = omega arith;
        min_file_size = omega arith;
        max_path_depth = omega arith;
      })

  -- Whatever the file holds and `strtoul` gives, when the parser has returned, an error or not, the
  -- switch of the policy section is at most 1, its log level at most 3, its filter flags at most
  -- 255, its file size a 32-bit word and its path depth at most 32.
  pub parse_yaml_policy-IsBounded :
      (events : List Event) (p : Parsed YamlFile)
      → parse_yaml_policy strtoul events ≡ some p
      → IsBounded p.ctx.policy
  parse_yaml_policy-IsBounded events p h = subst IsGood h (parse_yaml_policy-IsGood events)
