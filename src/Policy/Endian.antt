-- ===== src/Policy/Endian.antt =====
-- The wire encoding of a policy request, which is little-endian on every host: the userspace side
-- in include/bpfima_policy_user.h, the module's in src/policy_securityfs.c. The host's byte order
-- is a parameter of both.
pub mod Roundtrip
use bpfima.Base.{ℕ, ◌+◌, ◌*◌, ◌/◌, ◌%◌, Bool, List, [], ◌∷◌, arith, if◌then◌else◌}
use bpfima.Policy.Types.{PolicyConfig, HookConfig, PolicyRequest}

-- The bytes of a word in the other order.
unfoldable pub swap16 : ℕ → ℕ
swap16 n = n % 256 * 256 + n / 256 % 256

unfoldable pub swap32 : ℕ → ℕ
swap32 n = swap16 n * 65536 + swap16 (n / 65536)

unfoldable pub swap64 : ℕ → ℕ
swap64 n = swap32 n * 4294967296 + swap32 (n / 4294967296)

-- `htole32`, `le32_to_cpu`
abbrev pub le32 : Bool → ℕ → ℕ
le32 big n = if big then swap32 n else n

-- `htole64`, `le64_to_cpu`
abbrev pub le64 : Bool → ℕ → ℕ
le64 big n = if big then swap64 n else n

module _ (big : Bool) where
  -- The fields of the configuration and of a hook that both sides convert; the bytes and the
  -- reserved words stay.
  unfoldable pub convert_config : PolicyConfig → PolicyConfig
  convert_config c = record c {
    filter_flags = le32 big c.filter_flags;
    action_flags = le32 big c.action_flags;
    min_file_size = le32 big c.min_file_size;
    max_path_depth = le32 big c.max_path_depth;
    log_level = le32 big c.log_level;
    merkle_history_max_size = le32 big c.merkle_history_max_size;
  }

  unfoldable pub convert_hook : HookConfig → HookConfig
  convert_hook h = record h {
    flags = le32 big h.flags;
    filter_override = le32 big h.filter_override;
    action_override = le32 big h.action_override;
  }

  unfoldable pub convert_hooks : List HookConfig → List HookConfig
  convert_hooks [] = []
  convert_hooks (h ∷ hooks) = convert_hook h ∷ convert_hooks hooks

  -- `bpfima_policy_encode_request`
  unfoldable pub encode_request : PolicyRequest → PolicyRequest
  encode_request r =
      let body = r.body in
      let s = body.snapshot in
      record r {
        version = le32 big r.version;
        expected_generation = le64 big r.expected_generation;
        body = record body {
          snapshot = record s { config = convert_config s.config; hooks = convert_hooks s.hooks };
        };
      }

  -- The conversion in `policy_apply_write`.
  unfoldable pub decode_request : PolicyRequest → PolicyRequest
  decode_request r =
      let body = r.body in
      let s = body.snapshot in
      record r {
        version = le32 big r.version;
        reserved = le32 big r.reserved;
        expected_generation = le64 big r.expected_generation;
        body = record body {
          snapshot = record s { config = convert_config s.config; hooks = convert_hooks s.hooks };
        };
      }
