-- ===== src/Policy/Securityfs.antt =====
-- The policy files of src/policy_securityfs.c that userspace writes to. What is written is the list
-- of its bytes, whose length is the count.
pub mod Write
pub mod Map
pub mod Files
use bpfima.Base.{
  ℕ, Bool, not, ◌||◌, Option, none, some, List, [], ◌∷◌, arith, ltb, leb, ◌==◌, if◌then◌else◌,
  is_some, length, is_zero, eperm, enomem, efault, einval, ℤ, Bytes, has_nul, c_str, pos, negsuc,
}
use bpfima.Base.Result.{Result, ok, err}
use bpfima.Hash.{Kernel}
use bpfima.Tpm.{TpmDigest}
use bpfima.Policy.Types.{PolicyRequest}
use bpfima.Policy.Endian.{decode_request}
use bpfima.Policy.Manager.{BpfMap, Manager}
use bpfima.Policy.Manager.Apply.{ApplyEnv, Applied, refused, policy_apply, update_field}
use bpfima.Policy.Manager.Bind.{BindEnv, bind_map}

-- What a write meets outside: the capability, the buffer, the copy from userspace, the copy of the
-- text, and the request's own.
pub record WriteEnv : Type 0 where
  pub capable : Bool
  pub allocated : Bool
  pub copied : Bool
  pub duplicated : Bool
  pub apply : ApplyEnv

-- `sizeof(struct bpfima_policy_request)`
abbrev pub policy_request_size : ℕ
policy_request_size = 1400

abbrev pub max_write : ℕ
max_write = 256

-- `sizeof(text)` of `policy_map_write`
abbrev pub map_text_size : ℕ
map_text_size = 32

-- The text in front of the first `=` and the text behind it.
unfoldable pub split_field : Bytes → Option (Bytes × Bytes)
split_field [] = none
split_field (x ∷ text) =
    let rest = split_field text in
    if x == 61
    then some ([], text)
    else elim rest [ none ↦ none | some (field, value) ↦ some (x ∷ field, value) ]

-- The buffer without a newline at its end.
unfoldable pub chomp : Bytes → Bytes
chomp [] = []
chomp (x ∷ []) = if x == 10 then [] else x ∷ []
chomp (x ∷ y ∷ text) = x ∷ chomp (y ∷ text)

-- `ret < 0 ? ret : count`
abbrev pub or_count : ℕ → ℤ → ℤ
or_count count (pos n) = pos count
or_count count (negsuc n) = negsuc n

-- `ret ? ret : count`
abbrev pub if_zero_count : ℕ → ℤ → ℤ
if_zero_count count ret = if is_zero ret then pos count else ret

-- A write's own return value.
abbrev pub returning : (ℤ → ℤ) → Option Applied → Option Applied
returning f none = none
returning f (some o) = some (record o { ret = f o.ret })

-- The result of a write to the file that binds the map.
pub record MapWritten : Type 0 where
  pub ret : ℤ
  pub manager : Manager
  pub map : Option BpfMap
  pub sent : Option (List TpmDigest)

abbrev not_written : ℤ → Manager → MapWritten
not_written ret s = record { ret = ret; manager = s; map = none; sent = none }

module _ (kstrtou32 : ℕ → Bytes → Result ℕ) where
  module _ (k : Kernel) (map_get : ℕ → Result BpfMap) where
    -- `bpfima_policy_bind_map` of a file descriptor.
    unfoldable pub bind_fd : BindEnv → ℕ → Manager → MapWritten
    bind_fd env fd s = elim (map_get fd) [
      | err e ↦ not_written e s
      | ok map ↦
          let b = bind_map k env map s in
          record { ret = b.ret; manager = b.manager; map = some b.map; sent = b.sent }
    ]

    -- `policy_map_write`
    unfoldable pub policy_map_write : Bool → Bool → BindEnv → Bytes → Manager → MapWritten
    policy_map_write capable copied env text s =
        if not capable
        then not_written eperm s
        else if (length text == 0) || leb map_text_size (length text)
        then not_written einval s
        else if not copied
        then not_written efault s
        else if has_nul text
        then not_written einval s
        else elim (kstrtou32 0 text) [
          | err e ↦ not_written e s
          | ok fd ↦ let b = bind_fd env fd s in record b { ret = if_zero_count (length text) b.ret }
        ]

  module _ (writable : Bool) (k : Kernel) (env : WriteEnv) where
    -- The number of a field's text, and the update of the field.
    unfoldable pub update_parsed : Option Bytes → Bytes → Bytes → Manager → Option Applied
    update_parsed id field value s = elim (kstrtou32 0 value) [
      | err e ↦ some (refused e s)
      | ok number ↦ update_field k env.apply id (some field) number s
    ]

    -- `parse_and_update_policy`
    unfoldable pub parse_and_update : Bytes → Option Bytes → Manager → Option Applied
    parse_and_update text id s =
        if not env.duplicated then some (refused enomem s) else elim (split_field text) [
          | none ↦ some (refused einval s)
          | some (field, value) ↦ update_parsed id field value s
        ]

    -- `policy_update_write`; the id is the memory that the inode points to.
    unfoldable pub policy_update_write : Option Bytes → Bytes → Manager → Option Applied
    policy_update_write id text s =
        if not writable
        then some (refused eperm s)
        else if ltb max_write (length text)
        then some (refused einval s)
        else if not env.allocated
        then some (refused enomem s)
        else if not env.copied
        then some (refused efault s)
        else if not (is_some id)
        then some (refused einval s)
        else returning (or_count (length text)) (parse_and_update (c_str (chomp text)) id s)

    -- `global_policy_write`
    unfoldable pub global_policy_write : Bytes → Manager → Option Applied
    global_policy_write text s =
        if not writable
        then some (refused eperm s)
        else if ltb max_write (length text)
        then some (refused einval s)
        else if not env.allocated
        then some (refused enomem s)
        else if not env.copied
        then some (refused efault s)
        else returning (or_count (length text)) (parse_and_update (c_str (chomp text)) none s)

    -- `policy_apply_write`; `memdup_user` gives the request as the host reads it, or an error.
    unfoldable pub policy_apply_write : Bool → ℕ → Result PolicyRequest → Manager → Option Applied
    policy_apply_write big count memdup s =
        if not writable || not env.capable
        then some (refused eperm s)
        else if not (count == policy_request_size)
        then some (refused einval s)
        else elim memdup [
          | err e ↦ some (refused e s)
          | ok request ↦
              returning (if_zero_count count)
                (policy_apply k env.apply (some (decode_request big request)) s)
        ]
