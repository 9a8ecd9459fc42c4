-- ===== src/Tool/Yaml/Returns.antt =====
-- The parser of a whole policy file returns, in a document that is nested right; a syntax error in a
-- mapping of the hooks keeps it from returning.
use bpfima.Base.{
  ℕ, zero, suc, ◌+◌, ◌≤◌, ◌<◌, ◌≡◌, refl, ap, ◌∙◌, true, Option, none, some, List, [], ◌∷◌, ◌++◌,
  append-nil, arith, if◌then◌else◌, length, is_zero, is_neg, Bytes, bytes_eq, bytes,
}
use bpfima.Tool.Yaml.{
  Event, scalar, mapping_start, mapping_end, sequence_start, sequence_end, document_end, stream_end,
  other, failed, Strtoul, Parsed, failure, generic_map, hook_dispatcher, policy_dispatcher,
}
use bpfima.Tool.Yaml.{YamlHook}
use bpfima.Tool.Yaml.Nesting.{
  Node, mapping, sequence, closes, Open, pop, top-mapping_end, top-sequence_end, Ends,
}
use bpfima.Tool.Yaml.Sections.{
  YamlFile, empty_file, after_part, hook_mapping, hooks_section, key_of, policy_section,
  top_mapping, top_sequence, top_level, parse_yaml_policy,
}
use bpfima.Tool.Yaml.Maps.{if-Holds, in_file-Ends, generic_map-Ends}
use bpfima.Tool.Yaml.Ends.{filters_section-Ends, hooks_section-Ends}

module _ (strtoul : ℕ → Bytes → Strtoul) where
  top_mapping-Ends :
      (fuel : ℕ) (key : Bytes) (file : YamlFile) (events : List Event) (st : List Node)
      → length events < fuel
      → Open (mapping ∷ st) events
      → Ends st (length events) (top_mapping strtoul fuel key file events)
  unfolding top_mapping policy_section
  top_mapping-Ends fuel key file events st l o =
      let E = Ends {C = YamlFile} st (length events) in
      if-Holds E (bytes_eq key (bytes "policy")) _ _
        (in_file-Ends (λ policy. record file { policy = policy }) _ st (length events)
          (generic_map-Ends (policy_dispatcher strtoul) [] file.policy events st o))
        (if-Holds E (bytes_eq key (bytes "filters")) _ _
          (filters_section-Ends fuel [] file events st l o) (pop mapping st events o, omega arith))

  top_sequence-Ends :
      (fuel : ℕ) (key : Bytes) (file : YamlFile) (events : List Event) (st : List Node)
      → length events < fuel
      → Open (sequence ∷ st) events
      → Ends st (length events) (top_sequence strtoul fuel key file events)
  unfolding top_sequence
  top_sequence-Ends fuel key file events st l o =
      if-Holds (Ends {C = YamlFile} st (length events)) (bytes_eq key (bytes "hooks")) _ _
        (hooks_section-Ends fuel 0 file events st l o) (pop sequence st events o, omega arith)

  -- The end of the whole file, which closes nothing.
  abbrev IsEnd : ℕ → Option (Parsed YamlFile) → Type 0
  IsEnd n none = ⊥
  IsEnd n (some p) = length p.rest ≤ n

  IsEnd-mono : (m n : ℕ) (r : Option (Parsed YamlFile)) → m ≤ n → IsEnd m r → IsEnd n r
  IsEnd-mono m n none h e = e
  IsEnd-mono m n (some p) h e = omega (arith, h, e)

  after_part-IsEnd :
      (next : Parsed YamlFile → Option (Parsed YamlFile)) (r : Option (Parsed YamlFile))
      (outer : List Node) (n : ℕ)
      → Ends outer n r
      → ((p : Parsed YamlFile) → Open outer p.rest → length p.rest ≤ n → IsEnd n (next p))
      → IsEnd n (after_part next r)
  unfolding after_part
  after_part-IsEnd next none outer n e k = absurd e
  after_part-IsEnd next (some p) outer n (o, l) k =
      if-Holds (IsEnd n) (is_neg p.ret) _ _ l (k p o l)

  to_top : (q : List Node) (es : List Event) → Open q es → Open [] es
  to_top q es (r, h) = (r ++ q, ap (closes es) (append-nil (r ++ q)) ∙ h)

  top_level-IsEnd :
      (fuel : ℕ) (key : Bytes) (file : YamlFile) (events : List Event)
      → length events < fuel
      → Open [] events
      → IsEnd (length events) (top_level strtoul fuel key file events)
  unfolding top_level
  top_level-IsEnd zero key file events l o = absurd (omega arith)
  top_level-IsEnd (suc fuel) key file [] l (q, h) = absurd cc
  top_level-IsEnd (suc fuel) key file (failed ∷ events) l (q, h) = absurd cc
  top_level-IsEnd (suc fuel) key file (scalar value ∷ events) l o =
      IsEnd-mono (length events) (suc (length events)) _ (omega arith)
        (top_level-IsEnd fuel (key_of value) file events (omega arith) o)
  top_level-IsEnd (suc fuel) key file (document_end ∷ events) l o = omega arith
  top_level-IsEnd (suc fuel) key file (stream_end ∷ events) l o = omega arith
  top_level-IsEnd (suc fuel) key file (mapping_start ∷ events) l (q, h) =
      IsEnd-mono (length events) (suc (length events)) _ (omega arith) (
        after_part-IsEnd (λ p. top_level strtoul fuel [] p.ctx p.rest)
          (top_mapping strtoul (suc fuel) key file events) (q ++ []) (length events)
          (top_mapping-Ends (suc fuel) key file events (q ++ []) (omega arith) ([], h))
          (λ p o m. IsEnd-mono (length p.rest) (length events) _ m (
            top_level-IsEnd fuel [] p.ctx p.rest (omega (arith, l, m))
              (to_top (q ++ []) p.rest o))))
  top_level-IsEnd (suc fuel) key file (sequence_start ∷ events) l (q, h) =
      IsEnd-mono (length events) (suc (length events)) _ (omega arith) (
        after_part-IsEnd (λ p. top_level strtoul fuel [] p.ctx p.rest)
          (top_sequence strtoul (suc fuel) key file events) (q ++ []) (length events)
          (top_sequence-Ends (suc fuel) key file events (q ++ []) (omega arith) ([], h))
          (λ p o m. IsEnd-mono (length p.rest) (length events) _ m (
            top_level-IsEnd fuel [] p.ctx p.rest (omega (arith, l, m))
              (to_top (q ++ []) p.rest o))))
  top_level-IsEnd (suc fuel) key file (mapping_end ∷ events) l o =
      IsEnd-mono (length events) (suc (length events)) _ (omega arith)
        (top_level-IsEnd fuel key file events (omega arith) (top-mapping_end events o))
  top_level-IsEnd (suc fuel) key file (sequence_end ∷ events) l o =
      IsEnd-mono (length events) (suc (length events)) _ (omega arith)
        (top_level-IsEnd fuel key file events (omega arith) (top-sequence_end events o))
  top_level-IsEnd (suc fuel) key file (other ∷ events) l o =
      IsEnd-mono (length events) (suc (length events)) _ (omega arith)
        (top_level-IsEnd fuel key file events (omega arith) o)

  -- The parser of a policy file returns, whatever `strtoul` gives and whatever the file holds, if
  -- libyaml accepts the document: if its events close every mapping and every list in order, up to
  -- the end of the document or the stream, with no error among them. It has consumed a part of them.
  pub parse_yaml_policy-some :
      (events : List Event)
      → closes events [] ≡ true
      → (p : Parsed YamlFile) × (parse_yaml_policy strtoul events ≡ some p)
        × (length p.rest ≤ length events)
  unfolding parse_yaml_policy
  parse_yaml_policy-some events h =
      elim (top_level strtoul (length events + 1) [] empty_file events)
          as (λ r.
            top_level strtoul (length events + 1) [] empty_file events ≡ r
            → IsEnd (length events) r
            → (p : Parsed YamlFile) × (top_level strtoul (length events + 1) [] empty_file events
                ≡ some p)
              × (length p.rest ≤ length events)) [
                | none ↦ λ e g. absurd g
                | some p ↦ λ e g. (p, e, g)
              ]
        refl (top_level-IsEnd (length events + 1) [] empty_file events (omega arith) ([], h))

-- Behind an error of libyaml the loop over the hooks waits for ever.
hooks_section-no_event :
    (fuel count : ℕ) (file : YamlFile) → hooks_section fuel count file [] ≡ none
unfolding hooks_section
hooks_section-no_event zero count file = refl
hooks_section-no_event (suc fuel) count file = hooks_section-no_event fuel count file

generic_map-failed :
    (c : YamlHook) (key : Bytes) (es : List Event)
    → generic_map hook_dispatcher key c (failed ∷ es)
      ≡ some (record { ret = failure; ctx = c; rest = [] })
unfolding generic_map
generic_map-failed c [] es = refl
generic_map-failed c (x ∷ key) es = refl

-- Where the parser of a hook's mapping has met an error of libyaml, which leaves no events, the
-- parser of the hooks does not return, however many steps it is given: it takes no notice of the
-- mapping's error, and waits for the end of a list that libyaml does not report any more.
hooks_section-loops :
    (fuel count : ℕ) (file : YamlFile) (events : List Event) (p : Parsed YamlFile)
    → hook_mapping count file events ≡ some p
    → p.rest ≡ []
    → hooks_section fuel count file (mapping_start ∷ events) ≡ none
unfolding hooks_section
hooks_section-loops zero count file events p h e = refl
hooks_section-loops (suc fuel) count file events p h e =
    rw h (rw e (hooks_section-no_event fuel (if is_zero p.ret then count else count + 1) p.ctx))
