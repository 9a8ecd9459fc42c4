-- ===== src/Tool/Yaml.antt =====
-- The values and the maps of a policy file, in tools/yaml_parser.c. What libyaml reads is a list of
-- events, in which `failed` is a call of `yaml_parser_parse` that returns 0. Behind an error, and at
-- the end of the list, libyaml returns 1 and no event, however often it is called: a loop that waits
-- for an event does not end there, which is `none` outside of the result.
pub mod Sections
pub mod Bounds
pub mod Partial
pub mod Nesting
pub mod Maps
pub mod Ends
pub mod Returns
use bpfima.Base.{
  ℕ, ◌+◌, Bool, true, false, not, ◌&&◌, ◌||◌, Option, none, some, List, [], ◌∷◌, arith, ltb, leb,
  ◌==◌, if◌then◌else◌, ℤ, Bytes, bytes_eq, c_str, is_empty_str, strscpy, starts_with, bytes, pos,
  negsuc,
}

-- The events that the parser tells apart. A scalar has its bytes, without the terminator.
pub data Event : Type 0 where
  scalar : Bytes → Event
  mapping_start mapping_end sequence_start sequence_end document_end stream_end : Event
  other failed : Event

-- What `strtoul` gives: the number, the text behind it, and whether `errno` is set.
pub record Strtoul : Type 0 where
  pub number : ℕ
  pub rest : Bytes
  pub failed : Bool

-- `struct yaml_policy`
pub record YamlPolicy : Type 0 where
  pub enabled : ℕ
  pub log_level : ℕ
  pub filter_flags : ℕ
  pub min_file_size : ℕ
  pub max_path_depth : ℕ
  pub measure_enabled : ℕ
  pub appraise_enabled : ℕ
  pub enforce_enabled : ℕ
  pub container_tracking : ℕ

-- `struct yaml_hook_config`; the name is the C string in its array.
pub record YamlHook : Type 0 where
  pub hook_name : Bytes
  pub enabled : ℕ
  pub measure : ℕ
  pub appraise : ℕ
  pub enforce : ℕ

-- What a parser of a part returns, what it has written, and the events that it left.
pub record Parsed {ℓ} (C : Type ℓ) : Type ℓ where
  pub ret : ℤ
  pub ctx : C
  pub rest : List Event

-- the -1 of a parser
abbrev pub failure : ℤ
failure = negsuc 0

abbrev pub max_key_len : ℕ
max_key_len = 256

abbrev lower : ℕ → ℕ
lower c = if leb 65 c && leb c 90 then c + 32 else c

-- `strcasecmp(a, b) == 0`
abbrev pub same_case : Bytes → Bytes → Bool
same_case [] [] = true
same_case [] (y ∷ ys) = false
same_case (x ∷ xs) [] = false
same_case (x ∷ xs) (y ∷ ys) = (lower x == lower y) && same_case xs ys

-- `parse_bool`; -1 is `none`.
unfoldable pub parse_bool : Bytes → Option ℕ
parse_bool value =
    if same_case value (bytes "true") || same_case value (bytes "yes") || bytes_eq value (bytes "1")
    then some 1
    else if same_case value (bytes "false")
        || same_case value (bytes "no")
        || bytes_eq value (bytes "0")
    then some 0
    else none

-- A field written with a parsed value.
abbrev pub set_with {ℓ} : {C : Type ℓ} → (ℕ → C → C) → Option ℕ → C → Option C
set_with f none c = none
set_with f (some n) c = some (f n c)

-- `handle_hook_name`
abbrev named : Bytes → YamlHook → YamlHook
named value h = record h { hook_name = strscpy 64 value }

-- `hook_dispatcher`
unfoldable pub hook_dispatcher : Bytes → Bytes → YamlHook → Option YamlHook
hook_dispatcher key value h =
    if bytes_eq key (bytes "name")
    then some (named value h)
    else if bytes_eq key (bytes "enabled")
    then set_with (λ n h. record h { enabled = n }) (parse_bool value) h
    else if bytes_eq key (bytes "measure")
    then set_with (λ n h. record h { measure = n }) (parse_bool value) h
    else if bytes_eq key (bytes "appraise")
    then set_with (λ n h. record h { appraise = n }) (parse_bool value) h
    else if bytes_eq key (bytes "enforce")
    then set_with (λ n h. record h { enforce = n }) (parse_bool value) h
    else none

module _ (strtoul : ℕ → Bytes → Strtoul) where
  -- A number in the given base, up to a maximum. An empty or negative text is no number.
  unfoldable pub parse_number : ℕ → ℕ → Bytes → Option ℕ
  parse_number base maximum value =
      if is_empty_str value || starts_with (bytes "-") value
      then none
      else if (strtoul base value).failed
          || not (is_empty_str (strtoul base value).rest)
          || ltb maximum (strtoul base value).number
      then none
      else some (strtoul base value).number

  -- `parse_int`
  unfoldable pub parse_int : Bytes → Option ℕ
  parse_int value = parse_number 10 3 value

  -- `parse_u32`
  unfoldable pub parse_u32 : Bytes → ℕ → Option ℕ
  parse_u32 value maximum = parse_number 0 maximum value

  -- `policy_dispatcher`, with the handlers of its table
  unfoldable pub policy_dispatcher : Bytes → Bytes → YamlPolicy → Option YamlPolicy
  policy_dispatcher key value p =
      if bytes_eq key (bytes "enabled")
      then set_with (λ n p. record p { enabled = n }) (parse_bool value) p
      else if bytes_eq key (bytes "log_level")
      then set_with (λ n p. record p { log_level = n }) (parse_int value) p
      else if bytes_eq key (bytes "measure_enabled")
      then set_with (λ n p. record p { measure_enabled = n }) (parse_bool value) p
      else if bytes_eq key (bytes "appraise_enabled")
      then set_with (λ n p. record p { appraise_enabled = n }) (parse_bool value) p
      else if bytes_eq key (bytes "enforce_enabled")
      then set_with (λ n p. record p { enforce_enabled = n }) (parse_bool value) p
      else if bytes_eq key (bytes "container_tracking")
      then set_with (λ n p. record p { container_tracking = n }) (parse_bool value) p
      else if bytes_eq key (bytes "filter_flags")
      then set_with (λ n p. record p { filter_flags = n }) (parse_u32 value 255) p
      else if bytes_eq key (bytes "min_file_size")
      then set_with (λ n p. record p { min_file_size = n }) (parse_u32 value 0xffff_ffff) p
      else if bytes_eq key (bytes "max_path_depth")
      then set_with (λ n p. record p { max_path_depth = n }) (parse_u32 value 32) p
      else none

module _ {ℓ} {C : Type ℓ} (dispatcher : Bytes → Bytes → C → Option C) where
  -- `parse_generic_map`, with the key that waits for its value; the empty key waits for none. What
  -- the dispatcher has written before an error stays written.
  unfoldable pub generic_map : Bytes → C → List Event → Option (Parsed C)
  generic_map key c [] = none
  generic_map [] c (scalar value ∷ events) =
      generic_map (strscpy max_key_len (c_str value)) c events
  generic_map (x ∷ key) c (scalar value ∷ events) = elim (dispatcher (x ∷ key) (c_str value) c) [
    | none ↦ some (record { ret = failure; ctx = c; rest = events })
    | some written ↦ generic_map [] written events
  ]
  generic_map key c (mapping_end ∷ events) = some (record { ret = pos 0; ctx = c; rest = events })
  generic_map key c (failed ∷ events) = some (record { ret = failure; ctx = c; rest = [] })
  generic_map key c (mapping_start ∷ events) = generic_map key c events
  generic_map key c (sequence_start ∷ events) = generic_map key c events
  generic_map key c (sequence_end ∷ events) = generic_map key c events
  generic_map key c (document_end ∷ events) = generic_map key c events
  generic_map key c (stream_end ∷ events) = generic_map key c events
  generic_map key c (other ∷ events) = generic_map key c events
