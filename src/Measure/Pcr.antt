-- ===== src/Measure/Pcr.antt =====
-- `bpfima_tpm_get_pcr_value` of src/kfuncs_measure.c: the text of the register's value.
use bpfima.Base.{
  ℕ, ◌+◌, ◌-◌, Bool, not, Option, none, some, [], ◌∷◌, ◌++◌, ltb, if◌then◌else◌, length, take,
  is_zero, is_pos, eio, enodev, einval, ℤ, Bytes, strscpy, bytes, pos, negsuc,
}
use bpfima.Merkle.{Merkle, commit_check, commit_fail, requires_hardware, hardware_allowed}
use bpfima.Policy.Wire.{decimal, hex_bytes}

-- What the read of the register answers: the result of `tpm_pcr_read` and the digest.
pub record PcrRead : Type 0 where
  pub ret : ℤ
  pub digest : Bytes

-- What the kfunc finds: atomic context or interrupts off, the TPM as the check of the latch sees it,
-- the module parameter, and the chip.
pub record PcrEnv : Type 0 where
  pub atomic : Bool
  pub available : Bool
  pub pcr_index : ℤ
  pub chip : Option PcrRead

-- The result, the globals, and the string in the buffer, if one is written.
pub record PcrValue : Type 0 where
  pub ret : ℤ
  pub merkle : Merkle
  pub text : Option Bytes

abbrev pub pcr_buffer_size : ℕ
pcr_buffer_size = 80

-- `%d`
abbrev signed : ℤ → Bytes
signed (pos n) = decimal n
signed (negsuc n) = 45 ∷ decimal (n + 1)

-- `snprintf(pcr_buf, pcr_buf__sz, "PCR%d...", bpfima_tpm_pcr_index)`
unfoldable pub pcr_text : ℕ → ℤ → Bytes → Bytes
pcr_text size index suffix = strscpy size (bytes "PCR" ++ signed index ++ suffix)

-- The loop over the digest.
unfoldable pub append_hex : ℕ → Bytes → Bytes → Bytes
append_hex size [] text = text
append_hex size (b ∷ bs) text =
    let rest = append_hex size bs (strscpy size (text ++ hex_bytes (b ∷ []))) in
    if ltb (length text) (size - 3) then rest else text

-- `ret > 0 ? -EIO : ret`
abbrev read_error : ℤ → ℤ
read_error ret = if is_pos ret then eio else ret

-- Behind the check of the latch.
unfoldable pub read_pcr : PcrEnv → ℕ → Merkle → PcrValue
read_pcr env size m = elim env.chip [
  | none ↦
      if requires_hardware m
      then record { ret = enodev; merkle = (commit_fail m enodev).1; text = none }
      else record {
        ret = pos 0;
        merkle = m;
        text = some (pcr_text size env.pcr_index (bytes "_HASH_SIMULATION"));
      }
  | some r ↦
      if not (hardware_allowed m)
      then record { ret = eio; merkle = (commit_fail m eio).1; text = none }
      else if not (is_zero r.ret)
      then record {
        ret = read_error r.ret;
        merkle = m;
        text = some (pcr_text size env.pcr_index (bytes "_HASH_SIMULATION"));
      }
      else record {
        ret = pos 0;
        merkle = m;
        text =
            some
              (append_hex size (take 32 r.digest) (pcr_text size env.pcr_index (bytes "_REAL:")));
      }
]

-- `bpfima_tpm_get_pcr_value`; a NULL buffer is `false`.
unfoldable pub tpm_get_pcr_value : PcrEnv → Bool → ℕ → Merkle → PcrValue
tpm_get_pcr_value env has_buffer size m =
    if not has_buffer
    then record { ret = einval; merkle = m; text = none }
    else if ltb size pcr_buffer_size
    then record { ret = einval; merkle = m; text = none }
    else if env.atomic
    then record {
      ret = pos 0;
      merkle = m;
      text = some (pcr_text size env.pcr_index (bytes "_ATOMIC_CONTEXT"));
    }
    else if not (is_zero (commit_check m env.available).0)
    then record {
      ret = (commit_check m env.available).0;
      merkle = (commit_check m env.available).1;
      text = none;
    }
    else read_pcr env size (commit_check m env.available).1
