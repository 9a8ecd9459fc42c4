-- ===== src/Tpm.antt =====
-- src/tpm_ops.c: extending the configured PCR. The chip is the kernel's: what it answers is an
-- argument, and the digests handed to `tpm_pcr_extend` are part of the result.
pub mod Command
use bpfima.Base.{
  ℕ, zero, suc, ◌-◌, List, [], ◌∷◌, ◌++◌, map, Bool, true, false, not, ◌||◌, Option, none, some,
  Bytes, ℤ, pos, negsuc, is_zero, is_pos, einval, eagain, enodev, eio, eopnotsupp, enomem,
  replicate, ltb, ◌==◌, if◌then◌else◌,
}

-- TPM_ALG_SHA256 of <linux/tpm.h>
abbrev pub tpm_alg_sha256 : ℕ
tpm_alg_sha256 = 0x000b

abbrev pub tpm_max_digest_size : ℕ
tpm_max_digest_size = 64

-- `struct tpm_digest`
pub record TpmDigest : Type 0 where
  pub alg_id : ℕ
  pub digest : Bytes

-- A chip as it answers one call: its allocated banks, whether `kcalloc` gives the digests, and
-- what `tpm_pcr_extend` returns.
pub record Chip : Type 0 where
  pub banks : List ℕ
  pub digests_allocated : Bool
  pub extend_ret : ℤ

-- What one call finds: atomic context or interrupts off, the module parameter, the chip.
pub record TpmEnv : Type 0 where
  pub atomic : Bool
  pub pcr_index : ℤ
  pub chip : Option Chip

-- `sent` is what `tpm_pcr_extend` was called with, if it was.
pub record TpmResult : Type 0 where
  pub ret : ℤ
  pub command_started : Bool
  pub sent : Option (List TpmDigest)

abbrev pub not_started : ℤ → TpmResult
not_started ret = record { ret = ret; command_started = false; sent = none }

-- `bpfima_tpm_available`
unfoldable pub tpm_available : Option Chip → Bool
tpm_available none = false
tpm_available (some chip) = true

-- `bpfima_tpm_pcr_index < 0 || bpfima_tpm_pcr_index > 23`
unfoldable pub bad_pcr_index : ℤ → Bool
bad_pcr_index (pos n) = ltb 23 n
bad_pcr_index (negsuc n) = true

unfoldable pub has_sha256_bank : List ℕ → Bool
has_sha256_bank [] = false
has_sha256_bank (alg ∷ banks) = (alg == tpm_alg_sha256) || has_sha256_bank banks

-- One entry of the digests array; the buffer of `kcalloc` is zero behind a SHA-256 digest.
unfoldable pub bank_digest : Bytes → ℕ → TpmDigest
bank_digest hash_value alg = record {
  alg_id = alg;
  digest =
      if alg == tpm_alg_sha256
      then hash_value ++ replicate 32 0
      else replicate tpm_max_digest_size 0;
}

unfoldable pub extend_chip : Chip → Bytes → Bool → TpmResult
extend_chip chip hash_value hardware_allowed =
    if not hardware_allowed
    then not_started eio
    else if not (has_sha256_bank chip.banks)
    then not_started eopnotsupp
    else if not chip.digests_allocated
    then not_started enomem
    else record {
      ret =
          if is_zero chip.extend_ret
          then pos 0
          else if is_pos chip.extend_ret
          then eio
          else chip.extend_ret;
      command_started = true;
      sent = some (map (bank_digest hash_value) chip.banks);
    }

-- `extend_tpm_pcr`. A NULL `hash_value` is `none`; `event_name` and `command_started` are never
-- NULL in its callers. Where the C code leaves `*command_started` alone its caller has set it false.
unfoldable pub extend_tpm_pcr : TpmEnv → Option Bytes → Bool → TpmResult
extend_tpm_pcr env none hardware_allowed = not_started einval
extend_tpm_pcr env (some hash_value) hardware_allowed =
    if env.atomic
    then not_started eagain
    else if bad_pcr_index env.pcr_index
    then not_started einval
    else elim env.chip [
      | none ↦ not_started enodev
      | some chip ↦ extend_chip chip hash_value hardware_allowed
    ]

unfoldable pub extend_tpm_pcr_with_root : TpmEnv → Option Bytes → Bool → TpmResult
extend_tpm_pcr_with_root env root_hash hardware_allowed =
    extend_tpm_pcr env root_hash hardware_allowed
