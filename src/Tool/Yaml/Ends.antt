-- ===== src/Tool/Yaml/Ends.antt =====
-- The sections of a policy file return, in a document that is nested right.
use bpfima.Base.{
  ℕ, zero, suc, ◌+◌, ◌≤◌, ◌<◌, Option, none, some, List, [], ◌∷◌, ◌++◌, arith, if◌then◌else◌,
  length, is_zero, Bytes, is_empty_str,
}
use bpfima.Tool.Yaml.{
  Event, scalar, mapping_start, mapping_end, sequence_start, sequence_end, document_end, stream_end,
  other, failed, Parsed,
}
use bpfima.Tool.Yaml.Nesting.{
  Node, mapping, sequence, Open, lift, pop, skip-mapping_start, skip-sequence_start, close-mapping,
  close-sequence, within-mapping, within-sequence, Open-document_end, Open-stream_end, Ends,
  Ends-mono, Ends-suc,
}
use bpfima.Tool.Yaml.Sections.{
  YamlFile, after_hook, filter_sequence, filters_section, hook_mapping, hooks_section, key_of,
}
use bpfima.Tool.Yaml.Maps.{filter_sequence-Ends, hook_mapping-Ends, after_part-Ends}

pub filters_section-Ends :
    (fuel : ℕ) (key : Bytes) (file : YamlFile) (events : List Event) (st : List Node)
    → length events < fuel
    → Open (mapping ∷ st) events
    → Ends st (length events) (filters_section fuel key file events)
unfolding filters_section
filters_section-Ends zero key file events st l o = absurd (omega arith)
filters_section-Ends (suc fuel) key file [] st l (q, h) = absurd cc
filters_section-Ends (suc fuel) key file (failed ∷ events) st l (q, h) = absurd cc
filters_section-Ends (suc fuel) key file (scalar value ∷ events) st l o =
    Ends-suc st (length events) _ (
      filters_section-Ends fuel (if is_empty_str key then key_of value else key) file events st
        (omega arith) o)
filters_section-Ends (suc fuel) key file (mapping_end ∷ events) st l o =
    (close-mapping st events o, omega arith)
filters_section-Ends (suc fuel) key file (sequence_start ∷ events) st l (q, h) =
    let outer = q ++ mapping ∷ st in
    Ends-suc st (length events) _ (
      after_part-Ends (λ p. filters_section fuel [] p.ctx p.rest) (filter_sequence key file events)
        outer st (length events) (filter_sequence-Ends key file events outer ([], h))
        (λ es o. pop mapping st es (lift q (mapping ∷ st) es o))
        (λ p o m. Ends-mono st (length p.rest) (length events) _ m (
          filters_section-Ends fuel [] p.ctx p.rest st (omega (arith, l, m))
            (lift q (mapping ∷ st) p.rest o))))
filters_section-Ends (suc fuel) key file (mapping_start ∷ events) st l o =
    Ends-suc st (length events) _ (
      filters_section-Ends fuel key file events st (omega arith)
        (skip-mapping_start (mapping ∷ st) events o))
filters_section-Ends (suc fuel) key file (sequence_end ∷ events) st l o =
    Ends-suc st (length events) _
      (filters_section-Ends fuel key file events st (omega arith) (within-mapping st events o))
filters_section-Ends (suc fuel) key file (document_end ∷ events) st l o =
    absurd (Open-document_end mapping st events o)
filters_section-Ends (suc fuel) key file (stream_end ∷ events) st l o =
    absurd (Open-stream_end mapping st events o)
filters_section-Ends (suc fuel) key file (other ∷ events) st l o =
    Ends-suc st (length events) _ (filters_section-Ends fuel key file events st (omega arith) o)

after_hook-Ends :
    (next : Parsed YamlFile → Option (Parsed YamlFile)) (r : Option (Parsed YamlFile))
    (outer st : List Node) (n : ℕ)
    → Ends outer n r
    → ((p : Parsed YamlFile) → Open outer p.rest → length p.rest ≤ n → Ends st n (next p))
    → Ends st n (after_hook next r)
after_hook-Ends next none outer st n e k = absurd e
after_hook-Ends next (some p) outer st n (o, l) k = k p o l

pub hooks_section-Ends :
    (fuel count : ℕ) (file : YamlFile) (events : List Event) (st : List Node)
    → length events < fuel
    → Open (sequence ∷ st) events
    → Ends st (length events) (hooks_section fuel count file events)
unfolding hooks_section
hooks_section-Ends zero count file events st l o = absurd (omega arith)
hooks_section-Ends (suc fuel) count file [] st l (q, h) = absurd cc
hooks_section-Ends (suc fuel) count file (failed ∷ events) st l (q, h) = absurd cc
hooks_section-Ends (suc fuel) count file (scalar value ∷ events) st l o =
    Ends-suc st (length events) _ (hooks_section-Ends fuel count file events st (omega arith) o)
hooks_section-Ends (suc fuel) count file (sequence_end ∷ events) st l o =
    (close-sequence st events o, omega arith)
hooks_section-Ends (suc fuel) count file (mapping_start ∷ events) st l (q, h) =
    let outer = q ++ sequence ∷ st in
    Ends-suc st (length events) _ (
      after_hook-Ends
        (λ p. hooks_section fuel (if is_zero p.ret then count else count + 1) p.ctx p.rest)
        (hook_mapping count file events) outer st (length events)
        (hook_mapping-Ends count file events outer ([], h))
        (λ p o m. Ends-mono st (length p.rest) (length events) _ m (
          hooks_section-Ends fuel (if is_zero p.ret then count else count + 1) p.ctx p.rest st
            (omega (arith, l, m)) (lift q (sequence ∷ st) p.rest o))))
hooks_section-Ends (suc fuel) count file (mapping_end ∷ events) st l o =
    Ends-suc st (length events) _
      (hooks_section-Ends fuel count file events st (omega arith) (within-sequence st events o))
hooks_section-Ends (suc fuel) count file (sequence_start ∷ events) st l o =
    Ends-suc st (length events) _ (
      hooks_section-Ends fuel count file events st (omega arith)
        (skip-sequence_start (sequence ∷ st) events o))
hooks_section-Ends (suc fuel) count file (document_end ∷ events) st l o =
    absurd (Open-document_end sequence st events o)
hooks_section-Ends (suc fuel) count file (stream_end ∷ events) st l o =
    absurd (Open-stream_end sequence st events o)
hooks_section-Ends (suc fuel) count file (other ∷ events) st l o =
    Ends-suc st (length events) _ (hooks_section-Ends fuel count file events st (omega arith) o)
