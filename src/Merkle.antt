-- ===== src/Merkle.antt =====
-- src/merkle.c: the Merkle root, its history and the commit transaction. This file has the state
-- and the error latch; `Merkle.Trim` the history retention, `Merkle.Commit` the transaction.
pub mod Trim
pub mod Commit
pub mod Atomic
pub mod Landed
pub mod Effect
pub mod Latch
pub mod Ledger
pub mod History
pub mod Retention
use bpfima.Base.{
  ℕ, zero, ◌+◌, ◌%◌, ◌^◌, List, [], ◌∷◌, ◌++◌, Bool, true, false, not, ◌&&◌, ◌||◌, Option, none,
  some, Bytes, ℤ, pos, negsuc, is_zero, is_neg, enodev, eio, strscpy, replicate, ltb, if◌then◌else◌,
}
use bpfima.Hash.{HashEntry, HashTable, empty_table, merkle_hash_size, container_id_max_len}

-- `struct merkle_root_entry`
pub record HistoryEntry : Type 0 where
  pub value : Bytes
  pub source_container_id : Bytes
  pub is_aggregate : Bool
  pub aggregated_count : ℕ

-- The globals of merkle.c that the commit mutex guards, `system_merkle_root`, and the hash table,
-- whose publication holds that mutex too.
pub record Merkle : Type 0 where
  pub root_hash : Bytes
  pub tfm : Bool
  pub history : List HistoryEntry
  pub history_count : ℕ
  pub hashes : HashTable
  pub commit_error : ℤ
  pub hardware_anchored : Bool
  pub software_committed : Bool

abbrev pub zero_hash : Bytes
zero_hash = replicate merkle_hash_size 0

-- The state that `bpfima_init` leaves: `bpfima_commit_init`, a zero root with its transform.
abbrev pub initial : Merkle
initial = record {
  root_hash = zero_hash;
  tfm = true;
  history = [];
  history_count = 0;
  hashes = empty_table;
  commit_error = pos 0;
  hardware_anchored = false;
  software_committed = false;
}

-- `bpfima_commit_hardware_allowed_locked`
unfoldable pub hardware_allowed : Merkle → Bool
hardware_allowed m = not m.software_committed || m.hardware_anchored

-- `bpfima_commit_requires_hardware_locked`
unfoldable pub requires_hardware : Merkle → Bool
requires_hardware m = m.hardware_anchored

-- The error that `bpfima_commit_check_locked` latches, if none is latched yet.
unfoldable pub checked_error : Merkle → Bool → ℤ
unfolding hardware_allowed
checked_error m available =
    if is_zero m.commit_error
    then if m.hardware_anchored && not available
      then enodev
      else if not (hardware_allowed m) && available
      then eio
      else m.commit_error
    else m.commit_error

-- `bpfima_commit_check_locked`; the flag is what `bpfima_tpm_available` says.
unfoldable pub commit_check : Merkle → Bool → ℤ × Merkle
unfolding checked_error
commit_check m available = let e = checked_error m available in (e, record m { commit_error = e })

-- `bpfima_commit_fail_locked`
unfoldable pub commit_fail : Merkle → ℤ → ℤ × Merkle
commit_fail m error =
    let e =
      if is_zero m.commit_error then if is_neg error then error else eio else m.commit_error in
    (e, record m { commit_error = e })

-- `atomic_inc` of a 32-bit counter
abbrev pub inc32 : ℕ → ℕ
inc32 n = (n + 1) % 2 ^ 32

unfoldable pub source_name : Option Bytes → Bytes
source_name none = []
source_name (some id) = strscpy container_id_max_len id

-- `bpfima_alloc_history_entry`
unfoldable pub alloc_history_entry : Bool → Option Bytes → Option HistoryEntry
unfolding source_name
alloc_history_entry allocated source_id =
    if allocated
    then some (record {
      value = zero_hash;
      source_container_id = source_name source_id;
      is_aggregate = false;
      aggregated_count = 0;
    })
    else none

-- `bpfima_publish_history_entry_locked`
unfoldable pub publish_history_entry : Merkle → HistoryEntry → Merkle
publish_history_entry m entry = record m {
  history = m.history ++ entry ∷ [];
  history_count = inc32 m.history_count;
}

-- `cleanup_merkle_root_history`
unfoldable pub cleanup_history : Merkle → Merkle
cleanup_history m = record m { history = []; history_count = 0 }
