-- ===== src/Tool/Yaml/Maps.antt =====
-- The parsers of a map and of a list of texts return, in a document that is nested right.
use bpfima.Base.{
  ℕ, suc, ◌+◌, ◌≤◌, Bool, true, false, ◌||◌, Option, none, some, List, [], ◌∷◌, arith, ltb, leb,
  if◌then◌else◌, length, set, get_or, is_neg, Bytes, bytes_eq, c_str, strscpy, bytes,
}
use bpfima.Tool.Yaml.{
  Event, scalar, mapping_start, mapping_end, sequence_start, sequence_end, document_end, stream_end,
  other, failed, Parsed, failure, max_key_len, generic_map, hook_dispatcher,
}
use bpfima.Tool.Yaml.Nesting.{
  Node, mapping, sequence, Open, pop, skip-mapping_start, skip-sequence_start, close-mapping,
  close-sequence, within-mapping, within-sequence, Open-document_end, Open-stream_end, Ends,
  Ends-suc,
}
use bpfima.Tool.Yaml.Sections.{
  YamlFile, in_file, after_part, hook_counted, string_sequence, filter_sequence, hook_mapping,
  max_hook_configs, text_at, zero_hook,
}
use bpfima.Policy.Types.{max_ignore_patterns, max_path_filters, max_pattern_len}

pub if-Holds :
    {A : Type 0} (P : A → Type 0) (b : Bool) (x y : A) → P x → P y → P (if b then x else y)
if-Holds P true x y p q = p
if-Holds P false x y p q = q

module _ {ℓ} {C : Type ℓ} (dispatcher : Bytes → Bytes → C → Option C) where
  -- what a key's value does
  pub generic_map-Ends :
      (key : Bytes) (c : C) (events : List Event) (st : List Node)
      → Open (mapping ∷ st) events
      → Ends st (length events) (generic_map dispatcher key c events)
  unfolding generic_map
  generic_map-Ends key c [] st (q, h) = absurd cc
  generic_map-Ends key c (failed ∷ events) st (q, h) = absurd cc
  generic_map-Ends [] c (scalar value ∷ events) st o =
      Ends-suc st (length events) _
        (generic_map-Ends (strscpy max_key_len (c_str value)) c events st o)
  generic_map-Ends (x ∷ key) c (scalar value ∷ events) st o =
      elim (dispatcher (x ∷ key) (c_str value) c)
        as (λ r. Ends st (suc (length events)) (elim r as (λ _. Option (Parsed C)) [
          | none ↦ some (record { ret = failure; ctx = c; rest = events })
          | some written ↦ generic_map dispatcher [] written events
        ])) [
          | none ↦ (pop mapping st events o, omega arith)
          | some d ↦ Ends-suc st (length events) _ (generic_map-Ends [] d events st o)
        ]
  generic_map-Ends key c (mapping_end ∷ events) st o = (close-mapping st events o, omega arith)
  generic_map-Ends key c (mapping_start ∷ events) st o =
      Ends-suc st (length events) _
        (generic_map-Ends key c events st (skip-mapping_start (mapping ∷ st) events o))
  generic_map-Ends key c (sequence_start ∷ events) st o =
      Ends-suc st (length events) _
        (generic_map-Ends key c events st (skip-sequence_start (mapping ∷ st) events o))
  generic_map-Ends key c (sequence_end ∷ events) st o =
      Ends-suc st (length events) _ (generic_map-Ends key c events st (within-mapping st events o))
  generic_map-Ends key c (document_end ∷ events) st o =
      absurd (Open-document_end mapping st events o)
  generic_map-Ends key c (stream_end ∷ events) st o = absurd (Open-stream_end mapping st events o)
  generic_map-Ends key c (other ∷ events) st o =
      Ends-suc st (length events) _ (generic_map-Ends key c events st o)

pub string_sequence-Ends :
    (max_patterns count : ℕ) (texts : List Bytes) (events : List Event) (st : List Node)
    → Open (sequence ∷ st) events
    → Ends st (length events) (string_sequence max_patterns count texts events)
unfolding string_sequence
string_sequence-Ends max_patterns count texts [] st (q, h) = absurd cc
string_sequence-Ends max_patterns count texts (failed ∷ events) st (q, h) = absurd cc
string_sequence-Ends max_patterns count texts (scalar value ∷ events) st o =
    if-Holds (Ends st (suc (length events)))
      (leb max_patterns count || leb max_pattern_len (length value)) _ _
      (pop sequence st events o, omega arith)
      (Ends-suc st (length events) _
        (string_sequence-Ends max_patterns (count + 1) (text_at texts count value) events st o))
string_sequence-Ends max_patterns count texts (sequence_end ∷ events) st o =
    (close-sequence st events o, omega arith)
string_sequence-Ends max_patterns count texts (mapping_start ∷ events) st o =
    Ends-suc st (length events) _ (
      string_sequence-Ends max_patterns count texts events st
        (skip-mapping_start (sequence ∷ st) events o))
string_sequence-Ends max_patterns count texts (mapping_end ∷ events) st o =
    Ends-suc st (length events) _
      (string_sequence-Ends max_patterns count texts events st (within-sequence st events o))
string_sequence-Ends max_patterns count texts (sequence_start ∷ events) st o =
    Ends-suc st (length events) _ (
      string_sequence-Ends max_patterns count texts events st
        (skip-sequence_start (sequence ∷ st) events o))
string_sequence-Ends max_patterns count texts (document_end ∷ events) st o =
    absurd (Open-document_end sequence st events o)
string_sequence-Ends max_patterns count texts (stream_end ∷ events) st o =
    absurd (Open-stream_end sequence st events o)
string_sequence-Ends max_patterns count texts (other ∷ events) st o =
    Ends-suc st (length events) _ (string_sequence-Ends max_patterns count texts events st o)

pub in_file-Ends {ℓ} :
    {C : Type ℓ} (f : C → YamlFile) (r : Option (Parsed C)) (st : List Node) (n : ℕ)
    → Ends st n r
    → Ends st n (in_file f r)
in_file-Ends f none st n e = e
in_file-Ends f (some p) st n e = e

hook_counted-Ends :
    (r : Option (Parsed YamlFile)) (st : List Node) (n : ℕ)
    → Ends st n r
    → Ends st n (hook_counted r)
hook_counted-Ends none st n e = e
hook_counted-Ends (some p) st n e = e

pub after_part-Ends :
    (next : Parsed YamlFile → Option (Parsed YamlFile)) (r : Option (Parsed YamlFile))
    (outer st : List Node) (n : ℕ)
    → Ends outer n r
    → ((es : List Event) → Open outer es → Open st es)
    → ((p : Parsed YamlFile) → Open outer p.rest → length p.rest ≤ n → Ends st n (next p))
    → Ends st n (after_part next r)
unfolding after_part
after_part-Ends next none outer st n e w k = absurd e
after_part-Ends next (some p) outer st n (o, l) w k =
    if-Holds (Ends st n) (is_neg p.ret) _ _ (w p.rest o, l) (k p o l)

pub filter_sequence-Ends :
    (key : Bytes) (file : YamlFile) (events : List Event) (st : List Node)
    → Open (sequence ∷ st) events
    → Ends st (length events) (filter_sequence key file events)
unfolding filter_sequence
filter_sequence-Ends key file events st o =
    let E = Ends {C = YamlFile} st (length events) in
    if-Holds E (bytes_eq key (bytes "cgroup_patterns")) _ _
      (in_file-Ends (λ texts. record file { cgroups = texts }) _ st (length events)
        (string_sequence-Ends max_ignore_patterns 0 file.cgroups events st o))
      (if-Holds E (bytes_eq key (bytes "path_patterns")) _ _
        (in_file-Ends (λ texts. record file { paths = texts }) _ st (length events)
          (string_sequence-Ends max_path_filters 0 file.paths events st o))
        (pop sequence st events o, omega arith))

pub hook_mapping-Ends :
    (count : ℕ) (file : YamlFile) (events : List Event) (st : List Node)
    → Open (mapping ∷ st) events
    → Ends st (length events) (hook_mapping count file events)
unfolding hook_mapping
hook_mapping-Ends count file events st o =
    if-Holds (Ends {C = YamlFile} st (length events)) (ltb count max_hook_configs) _ _
      (hook_counted-Ends _ st (length events) (
        in_file-Ends (λ hook. record file { hooks = set file.hooks count hook }) _ st
          (length events)
          (generic_map-Ends hook_dispatcher [] (get_or file.hooks count zero_hook) events st o)))
      (pop mapping st events o, omega arith)
