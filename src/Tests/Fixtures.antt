-- ===== src/Tests/Fixtures.antt =====
-- A kernel whose SHA-256 is a byte sum, and the answers of a machine on which nothing fails.
use bpfima.Base.{ℕ, ◌+◌, ◌*◌, ◌%◌, true, false, Option, [], ◌∷◌, is_some, Bytes, bytes, pos}
use bpfima.Hash.{Kernel, ShashRun}
use bpfima.Tpm.{Chip, TpmEnv}
use bpfima.Node.{Measurement, Container}
use bpfima.Policy.Types.{PolicyConfig}
use bpfima.Merkle.Trim.{TrimEnv}
use bpfima.Merkle.Commit.{CommitEnv}

abbrev pub byte_sum : Bytes → ℕ
byte_sum [] = 1
byte_sum (b ∷ bs) = (3 * byte_sum bs + b) % 251

-- not a cryptographic hash: it only has to compute
abbrev pub toy : Kernel
toy = record { sha256 = λ b. byte_sum b ∷ []; hash_min = λ n. n % 256 }

abbrev pub good_run : ShashRun
good_run = record { init = pos 0; first_update = pos 0; second_update = pos 0; final = pos 0 }

abbrev pub chip : Chip
chip = record { banks = 4 ∷ 11 ∷ []; digests_allocated = true; extend_ret = pos 0 }

-- the TPM answers an error code
abbrev pub failing_chip : Chip
failing_chip = record { banks = 11 ∷ []; digests_allocated = true; extend_ret = pos 257 }

abbrev pub tpm_with : Option Chip → TpmEnv
tpm_with c = record { atomic = false; pcr_index = pos 23; chip = c }

abbrev pub config : PolicyConfig
config = record {
  enabled = 1;
  filter_flags = 0;
  action_flags = 0x67;
  min_file_size = 0;
  max_path_depth = 32;
  log_level = 2;
  merkle_history_max_size = 0;
  merkle_history_scope = 0;
  reserved = 0;
}

abbrev pub trim_env : TrimEnv
trim_env = record { entry_allocated = true; desc_allocated = true; runs = λ n. good_run }

abbrev pub env_with : Option Chip → CommitEnv
env_with c = record {
  available = is_some c;
  hash_allocated = true;
  history_allocated = true;
  leaf_run = good_run;
  root_run = good_run;
  tpm = tpm_with c;
  policy = config;
  trim = trim_env;
}

abbrev pub event : Measurement
event = record {
  event_name = bytes "exec";
  event_data = bytes "/bin/sh";
  dependencies = [];
  digest = 7 ∷ [];
}

abbrev pub pod : Container
pod = record {
  id = bytes "pod";
  measurement_list = [];
  tfm = true;
  leaf_hash = 0 ∷ [];
  measurement_count = 0;
  refcnt = 1;
}
