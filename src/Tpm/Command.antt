-- ===== src/Tpm/Command.antt =====
-- When `extend_tpm_pcr` sends a command, and what it sends.
use bpfima.Base.{
  ℕ, ◌≡◌, ap, ◌∙◌, inl, inr, Bool, true, false, Option, none, some, List, [], ◌∷◌, ◌++◌, map, arith,
  ◌==◌, if◌then◌else◌, Option-cases, is_some, replicate, enodev, int_eq, Bytes, pos,
}
use bpfima.Tpm.{
  TpmDigest, tpm_alg_sha256, TpmEnv, Chip, extend_tpm_pcr, extend_chip, bank_digest,
  has_sha256_bank,
}

extend_chip_success :
    (chip : Chip) (hash_value : Bytes) (allowed : Bool)
    → (extend_chip chip hash_value allowed).ret ≡ pos 0
    → (allowed ≡ true)
      × (has_sha256_bank chip.banks ≡ true)
      × ((extend_chip chip hash_value allowed).sent
          ≡ some (map (bank_digest hash_value) chip.banks))
unfolding extend_chip
extend_chip_success chip hash_value allowed h = ground arith

-- `extend_tpm_pcr` returns 0 only if the hardware was allowed and a chip with a SHA-256 bank was
-- sent one command, which carries a digest for each allocated bank.
pub extend_tpm_pcr-success :
    (env : TpmEnv) (hash_value : Bytes) (allowed : Bool)
    → (extend_tpm_pcr env (some hash_value) allowed).ret ≡ pos 0
    → (allowed ≡ true)
      × ((chip : Chip) × (env.chip ≡ some chip)
          × (has_sha256_bank chip.banks ≡ true)
          × ((extend_tpm_pcr env (some hash_value) allowed).sent
              ≡ some (map (bank_digest hash_value) chip.banks)))
unfolding extend_tpm_pcr
extend_tpm_pcr-success env hash_value allowed h = elim (Option-cases env.chip) [
  | inl absent ↦ ground arith
  | inr (chip, e) ↦
      let s : (allowed ≡ true)
          × (has_sha256_bank chip.banks ≡ true)
          × ((extend_chip chip hash_value allowed).sent
              ≡ some (map (bank_digest hash_value) chip.banks)) =
        extend_chip_success chip hash_value allowed (ground arith) in
      (s.0, (chip, e, s.1, ground arith))
]

-- Without a command the PCR is left alone: nothing is sent unless `command_started` is set, and
-- then the hardware was allowed, a chip was there and the context could sleep.
pub extend_tpm_pcr_started :
    (env : TpmEnv) (hash_value : Bytes) (allowed : Bool)
    → ((extend_tpm_pcr env (some hash_value) allowed).command_started
        ≡ is_some (extend_tpm_pcr env (some hash_value) allowed).sent)
      × ((extend_tpm_pcr env (some hash_value) allowed).command_started ≡ true
          → (allowed ≡ true) × (is_some env.chip ≡ true) × (env.atomic ≡ false))
unfolding extend_tpm_pcr extend_chip
extend_tpm_pcr_started env hash_value allowed = (ground arith, ground arith)

-- An extension that returns -ENODEV without a command has found no chip.
pub extend_tpm_pcr-enodev :
    (env : TpmEnv) (hash_value : Bytes) (allowed : Bool)
    → int_eq (extend_tpm_pcr env (some hash_value) allowed).ret enodev ≡ true
    → (extend_tpm_pcr env (some hash_value) allowed).command_started ≡ false
    → env.chip ≡ none
unfolding extend_tpm_pcr extend_chip
extend_tpm_pcr-enodev env hash_value allowed h s = ground arith

-- What a command writes to the SHA-256 bank: the first digest for that algorithm.
unfoldable pub sha256_write : List TpmDigest → Option Bytes
sha256_write [] = none
sha256_write (d ∷ ds) = if d.alg_id == tpm_alg_sha256 then some d.digest else sha256_write ds

abbrev pub pcr_write : Option (List TpmDigest) → Option Bytes
pcr_write none = none
pcr_write (some ds) = sha256_write ds

sha256_write-map :
    (hash_value : Bytes) (banks : List ℕ)
    → has_sha256_bank banks ≡ true
    → sha256_write (map (bank_digest hash_value) banks) ≡ some (hash_value ++ replicate 32 0)
unfolding sha256_write bank_digest has_sha256_bank
sha256_write-map hash_value [] h = cc
sha256_write-map hash_value (alg ∷ banks) h = ground (arith, sha256_write-map hash_value banks)

pub extend_tpm_pcr-pcr_write :
    (env : TpmEnv) (hash_value : Bytes) (allowed : Bool)
    → ((extend_tpm_pcr env (some hash_value) allowed).ret ≡ pos 0
        → (allowed ≡ true)
          × (pcr_write (extend_tpm_pcr env (some hash_value) allowed).sent
              ≡ some (hash_value ++ replicate 32 0)))
      × ((extend_tpm_pcr env (some hash_value) allowed).command_started ≡ false
          → pcr_write (extend_tpm_pcr env (some hash_value) allowed).sent ≡ none)
extend_tpm_pcr-pcr_write env hash_value allowed = (success, unstarted)
  where
    success :
        (extend_tpm_pcr env (some hash_value) allowed).ret ≡ pos 0
        → (allowed ≡ true)
          × (pcr_write (extend_tpm_pcr env (some hash_value) allowed).sent
              ≡ some (hash_value ++ replicate 32 0))
    success h =
        let (ok, (chip, e, bank, sent)) = extend_tpm_pcr-success env hash_value allowed h in
        (ok, ap pcr_write sent ∙ sha256_write-map hash_value chip.banks bank)

    unstarted :
        (extend_tpm_pcr env (some hash_value) allowed).command_started ≡ false
        → pcr_write (extend_tpm_pcr env (some hash_value) allowed).sent ≡ none
    unstarted h = ground (arith, extend_tpm_pcr_started env hash_value allowed)
