-- ===== src/Policy/Wire.antt =====
-- The bytes of a policy record, in the layout of include/bpfima_kfunc_types.h with little-endian
-- integers: what `snapshot_digest` of src/policy_manager.c hashes.
use bpfima.Base.{
  ℕ, zero, suc, ◌+◌, ◌/◌, ◌%◌, Bool, List, [], ◌∷◌, ◌++◌, ltb, if◌then◌else◌, Bytes, bytes_eq,
  strscpy, bytes,
}
use bpfima.Policy.Types.{PolicyConfig, PatternEntry, HookConfig, Snapshot, PolicyRecord}

abbrev pub le16_bytes : ℕ → Bytes
le16_bytes n = n % 256 ∷ n / 256 % 256 ∷ []

abbrev pub le32_bytes : ℕ → Bytes
le32_bytes n = n % 256 ∷ n / 256 % 256 ∷ n / 65536 % 256 ∷ n / 16777216 % 256 ∷ []

-- a byte and the padding up to the next 32-bit field
abbrev pub padded : ℕ → Bytes
padded n = n % 256 ∷ 0 ∷ 0 ∷ 0 ∷ []

unfoldable pub config_bytes : PolicyConfig → Bytes
config_bytes c =
    padded c.enabled
    ++ le32_bytes c.filter_flags
    ++ le32_bytes c.action_flags
    ++ le32_bytes c.min_file_size
    ++ le32_bytes c.max_path_depth
    ++ le32_bytes c.log_level
    ++ le32_bytes c.merkle_history_max_size
    ++ padded c.merkle_history_scope
    ++ le32_bytes c.reserved

unfoldable pub pattern_bytes : PatternEntry → Bytes
pattern_bytes e = e.pattern ++ e.enabled % 256 ∷ e.match_type % 256 ∷ le16_bytes e.reserved

unfoldable pub hook_bytes : HookConfig → Bytes
hook_bytes h =
    le32_bytes h.flags
    ++ le32_bytes h.filter_override
    ++ le32_bytes h.action_override
    ++ le32_bytes h.reserved

-- The elements of an array one behind the other.
abbrev pub array_bytes {ℓ} : {A : Type ℓ} → (A → Bytes) → List A → Bytes
array_bytes f [] = []
array_bytes f (x ∷ xs) = f x ++ array_bytes f xs

unfoldable pub snapshot_bytes : Snapshot → Bytes
snapshot_bytes s =
    config_bytes s.config
    ++ array_bytes pattern_bytes s.cgroups
    ++ array_bytes pattern_bytes s.paths
    ++ array_bytes hook_bytes s.hooks

unfoldable pub record_bytes : PolicyRecord → Bytes
record_bytes r = r.namespace_id ++ snapshot_bytes r.snapshot

-- `memcmp` of two snapshots is zero.
unfoldable pub snapshot_eq : Snapshot → Snapshot → Bool
snapshot_eq a b = bytes_eq (snapshot_bytes a) (snapshot_bytes b)

abbrev hex_digit : ℕ → ℕ
hex_digit n = if ltb n 10 then 48 + n else 87 + n

-- `%02x` of every byte
unfoldable pub hex_bytes : Bytes → Bytes
hex_bytes [] = []
hex_bytes (b ∷ bs) = hex_digit (b / 16 % 16) ∷ hex_digit (b % 16) ∷ hex_bytes bs

-- The decimal digits, on fuel: one step for each digit in front of the last.
unfoldable pub decimal_digits : ℕ → ℕ → Bytes
decimal_digits zero n = (48 + n % 10) ∷ []
decimal_digits (suc fuel) n =
    let rest = decimal_digits fuel (n / 10) in
    if ltb n 10 then (48 + n) ∷ [] else rest ++ (48 + n % 10) ∷ []

-- `%llu`: a 64-bit number has at most 20 digits.
unfoldable pub decimal : ℕ → Bytes
decimal n = decimal_digits 20 n

abbrev pub max_policy_string_size : ℕ
max_policy_string_size = 512

-- The string of an empty id.
abbrev pub display_id : Bytes → Bytes
display_id [] = bytes "[root]"
display_id (x ∷ xs) = x ∷ xs

-- The `snprintf` of the policy string; the id is a C string.
unfoldable pub format_policy_string : ℕ → Bytes → Bytes → Bytes
format_policy_string generation id digest = strscpy max_policy_string_size (
    bytes "policy_v2:"
    ++ decimal generation
    ++ bytes ":"
    ++ display_id id
    ++ bytes ":"
    ++ hex_bytes digest)
