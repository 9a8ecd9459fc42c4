-- ===== src/Tool/Yaml/Bounds.antt =====
-- What the parser has written is within the bounds of the fields, whatever the file holds.
use bpfima.Base.{
  ℕ, ◌≤◌, ◌≡◌, refl, Bool, true, false, Option, none, some, List, [], ◌∷◌, arith, if◌then◌else◌,
  Bytes, bytes_eq, c_str, bytes,
}
use bpfima.Tool.Yaml.{
  Event, scalar, mapping_start, mapping_end, sequence_start, sequence_end, document_end, stream_end,
  other, failed, Strtoul, YamlPolicy, Parsed, failure, set_with, parse_bool, parse_int, parse_u32,
  parse_number, generic_map, policy_dispatcher,
}

-- The numbers that the policy section can hold.
pub record IsBounded (p : YamlPolicy) : Type 0 where
  pub enabled : p.enabled ≤ 1
  pub log_level : p.log_level ≤ 3
  pub filter_flags : p.filter_flags ≤ 255
  pub min_file_size : p.min_file_size ≤ 0xffff_ffff
  pub max_path_depth : p.max_path_depth ≤ 32

parse_bool-le : (v : Bytes) (n : ℕ) → parse_bool v ≡ some n → n ≤ 1
unfolding parse_bool
parse_bool-le v n h = ground arith

-- A property of what a parser that has returned has written.
abbrev pub Written {ℓ κ} : {C : Type ℓ} → (C → Type κ) → Option (Parsed C) → Type κ
Written Holds none = Unit
Written Holds (some p) = Holds p.ctx

module _ {ℓ κ} {C : Type ℓ} (Holds : C → Type κ) (dispatcher : Bytes → Bytes → C → Option C)
    (keeps : (key value : Bytes) (c d : C)
      → dispatcher key value c ≡ some d
      → Holds c
      → Holds d) where
  -- A property that the dispatcher keeps holds of what the parser of a map has written.
  pub generic_map-Holds :
      (key : Bytes) (c : C) (events : List Event)
      → Holds c
      → Written Holds (generic_map dispatcher key c events)
  unfolding generic_map
  generic_map-Holds key c [] h = tt
  generic_map-Holds key c (failed ∷ events) h = h
  generic_map-Holds [] c (scalar value ∷ events) h = generic_map-Holds _ c events h
  generic_map-Holds (x ∷ key) c (scalar value ∷ events) h =
      elim (dispatcher (x ∷ key) (c_str value) c)
          as (λ r.
            dispatcher (x ∷ key) (c_str value) c ≡ r
            → Written Holds (elim r as (λ _. Option (Parsed C)) [
              | none ↦ some (record { ret = failure; ctx = c; rest = events })
              | some written ↦ generic_map dispatcher [] written events
            ])) [
              | none ↦ λ e. h
              | some d ↦ λ e. generic_map-Holds [] d events (keeps (x ∷ key) (c_str value) c d e h)
            ]
        refl
  generic_map-Holds key c (mapping_end ∷ events) h = h
  generic_map-Holds key c (mapping_start ∷ events) h = generic_map-Holds key c events h
  generic_map-Holds key c (sequence_start ∷ events) h = generic_map-Holds key c events h
  generic_map-Holds key c (sequence_end ∷ events) h = generic_map-Holds key c events h
  generic_map-Holds key c (document_end ∷ events) h = generic_map-Holds key c events h
  generic_map-Holds key c (stream_end ∷ events) h = generic_map-Holds key c events h
  generic_map-Holds key c (other ∷ events) h = generic_map-Holds key c events h

-- A handler's result, if it has one, is bounded.
abbrev pub Bounds : Option YamlPolicy → Type 0
Bounds r = (q : YamlPolicy) → r ≡ some q → IsBounded q

if-Bounds : (b : Bool) (x y : Option YamlPolicy) → Bounds x → Bounds y → Bounds (if b then x else y)
if-Bounds true x y p q = p
if-Bounds false x y p q = q

set_with-Bounds :
    (f : ℕ → YamlPolicy → YamlPolicy) (r : Option ℕ) (p : YamlPolicy)
    → ((n : ℕ) → r ≡ some n → IsBounded (f n p))
    → Bounds (set_with f r p)
set_with-Bounds f none p h q e = cc
set_with-Bounds f (some n) p h q e = ground (arith, h n refl, e)

module _ (strtoul : ℕ → Bytes → Strtoul) where
  parse_number-le :
      (base maximum : ℕ) (v : Bytes) (n : ℕ)
      → parse_number strtoul base maximum v ≡ some n
      → n ≤ maximum
  unfolding parse_number
  parse_number-le base maximum v n h = ground arith

  pub policy_dispatcher-Bounds :
      (key value : Bytes) (p : YamlPolicy)
      → IsBounded p
      → Bounds (policy_dispatcher strtoul key value p)
  unfolding policy_dispatcher parse_int parse_u32
  policy_dispatcher-Bounds key value p b =
      let number = parse_number-le in
      if-Bounds (bytes_eq key (bytes "enabled")) _ _
        (set_with-Bounds (λ n p. record p { enabled = n }) (parse_bool value) p
          (λ n e. record {
            enabled = parse_bool-le value n e;
            log_level = b.log_level;
            filter_flags = b.filter_flags;
            min_file_size = b.min_file_size;
            max_path_depth = b.max_path_depth;
          }))
        (if-Bounds (bytes_eq key (bytes "log_level")) _ _
          (set_with-Bounds (λ n p. record p { log_level = n }) (parse_number strtoul 10 3 value) p
            (λ n e. record {
              enabled = b.enabled;
              log_level = number 10 3 value n e;
              filter_flags = b.filter_flags;
              min_file_size = b.min_file_size;
              max_path_depth = b.max_path_depth;
            }))
          (if-Bounds (bytes_eq key (bytes "measure_enabled")) _ _
            (set_with-Bounds (λ n p. record p { measure_enabled = n }) (parse_bool value) p
              (λ n e. record {
                enabled = b.enabled;
                log_level = b.log_level;
                filter_flags = b.filter_flags;
                min_file_size = b.min_file_size;
                max_path_depth = b.max_path_depth;
              }))
            (if-Bounds (bytes_eq key (bytes "appraise_enabled")) _ _
              (set_with-Bounds (λ n p. record p { appraise_enabled = n }) (parse_bool value) p
                (λ n e. record {
                  enabled = b.enabled;
                  log_level = b.log_level;
                  filter_flags = b.filter_flags;
                  min_file_size = b.min_file_size;
                  max_path_depth = b.max_path_depth;
                }))
              (if-Bounds (bytes_eq key (bytes "enforce_enabled")) _ _
                (set_with-Bounds (λ n p. record p { enforce_enabled = n }) (parse_bool value) p
                  (λ n e. record {
                    enabled = b.enabled;
                    log_level = b.log_level;
                    filter_flags = b.filter_flags;
                    min_file_size = b.min_file_size;
                    max_path_depth = b.max_path_depth;
                  }))
                (if-Bounds (bytes_eq key (bytes "container_tracking")) _ _
                  (set_with-Bounds (λ n p. record p { container_tracking = n }) (parse_bool value) p
                    (λ n e. record {
                      enabled = b.enabled;
                      log_level = b.log_level;
                      filter_flags = b.filter_flags;
                      min_file_size = b.min_file_size;
                      max_path_depth = b.max_path_depth;
                    }))
                  (if-Bounds (bytes_eq key (bytes "filter_flags")) _ _
                    (set_with-Bounds (λ n p. record p { filter_flags = n })
                      (parse_number strtoul 0 255 value) p
                      (λ n e. record {
                        enabled = b.enabled;
                        log_level = b.log_level;
                        filter_flags = number 0 255 value n e;
                        min_file_size = b.min_file_size;
                        max_path_depth = b.max_path_depth;
                      }))
                    (if-Bounds (bytes_eq key (bytes "min_file_size")) _ _
                      (set_with-Bounds (λ n p. record p { min_file_size = n })
                        (parse_number strtoul 0 0xffff_ffff value) p
                        (λ n e. record {
                          enabled = b.enabled;
                          log_level = b.log_level;
                          filter_flags = b.filter_flags;
                          min_file_size = number 0 0xffff_ffff value n e;
                          max_path_depth = b.max_path_depth;
                        }))
                      (if-Bounds (bytes_eq key (bytes "max_path_depth")) _ _
                        (set_with-Bounds (λ n p. record p { max_path_depth = n })
                          (parse_number strtoul 0 32 value) p
                          (λ n e. record {
                            enabled = b.enabled;
                            log_level = b.log_level;
                            filter_flags = b.filter_flags;
                            min_file_size = b.min_file_size;
                            max_path_depth = number 0 32 value n e;
                          }))
                        (λ q e. cc)))))))))
