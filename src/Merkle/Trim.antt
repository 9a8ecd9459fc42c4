-- ===== src/Merkle/Trim.antt =====
-- History retention of src/merkle.c: the oldest half of a history that has grown too long is
-- replaced by one aggregate entry.
use bpfima.Base.{
  ℕ, ◌+◌, ◌-◌, ◌/◌, ◌%◌, ◌^◌, List, [], ◌∷◌, ◌++◌, Bool, true, false, not, ◌&&◌, Option, none, some,
  Bytes, ℤ, pos, is_neg, is_empty_str, einval, enomem, strscpy, bytes, length, take, drop, ltb, leb,
  ◌==◌, if◌then◌else◌,
}
use bpfima.Hash.{Kernel, ShashRun, container_id_max_len}
use bpfima.Policy.Types.{PolicyConfig, scope_root_only}
use bpfima.Merkle.{Merkle, HistoryEntry, zero_hash, inc32}

-- What the kernel answers to one trim: the two allocations, and the crypto calls on each entry.
pub record TrimEnv : Type 0 where
  pub entry_allocated : Bool
  pub desc_allocated : Bool
  pub runs : ℕ → ShashRun

-- The first error that one entry's crypto calls report; only a negative result counts.
unfoldable pub run_error : ShashRun → ℤ
run_error run =
    if is_neg run.init
    then run.init
    else if is_neg run.first_update
    then run.first_update
    else if is_neg run.second_update
    then run.second_update
    else if is_neg run.final
    then run.final
    else pos 0

-- What an aggregation yields: its result, the hash, and the number of entries.
pub record Aggregate : Type 0 where
  pub ret : ℤ
  pub hash : Bytes
  pub count : ℕ

unfoldable pub aggregate_entry : Aggregate → HistoryEntry
aggregate_entry a = record {
  value = a.hash;
  source_container_id = strscpy container_id_max_len (bytes "[AGGREGATE]");
  is_aggregate = true;
  aggregated_count = a.count;
}

-- `current_count / 2`, and at least one.
unfoldable pub to_delete : ℕ → ℕ
to_delete current = if current / 2 == 0 then 1 else current / 2

-- A source identifier that is there and not empty.
unfoldable pub has_source : Option Bytes → Bool
has_source none = false
has_source (some id) = not (is_empty_str id)

module _ (k : Kernel) where
  -- The loop of `aggregate_merkle_entries`: `first` selects the zero block.
  unfoldable pub aggregate_loop : (ℕ → ShashRun) → Bool → Bytes → ℕ → List HistoryEntry → Aggregate
  aggregate_loop runs first current count [] = record { ret = pos 0; hash = current; count = count }
  aggregate_loop runs first current count (e ∷ es) =
      let rest =
        aggregate_loop runs false (k.sha256 ((if first then zero_hash else current) ++ e.value))
          (count + 1) es in
      if is_neg (run_error (runs count))
      then record { ret = run_error (runs count); hash = current; count = count }
      else rest

  -- `aggregate_merkle_entries`; its pointers are never NULL in its caller.
  unfoldable pub aggregate_merkle_entries : Bool → TrimEnv → List HistoryEntry → Aggregate
  aggregate_merkle_entries tfm env entries =
      let looped = aggregate_loop env.runs true zero_hash 0 entries in
      if not tfm
      then record { ret = einval; hash = []; count = 0 }
      else if not env.desc_allocated
      then record { ret = enomem; hash = []; count = 0 }
      else if is_neg looped.ret
      then looped
      else if looped.count == 0
      then record { ret = einval; hash = []; count = 0 }
      else looped

  -- `trim_merkle_root_history_locked`. On failure the moved entries are spliced back at the head.
  unfoldable pub trim_history : ℕ → TrimEnv → Merkle → ℤ × Merkle
  trim_history max_size env m =
      let moved = take (to_delete m.history_count) m.history in
      let kept = drop (to_delete m.history_count) m.history in
      let a = aggregate_merkle_entries m.tfm env moved in
      if leb m.history_count max_size
      then (pos 0, m)
      else if not env.entry_allocated
      then (enomem, m)
      else if is_neg a.ret
      then (a.ret, record m { history = moved ++ kept })
      else (
        pos 0,
        record m {
          history = aggregate_entry a ∷ kept;
          history_count = inc32 ((m.history_count + 2 ^ 32 - length moved) % 2 ^ 32);
        },
      )

  -- `bpfima_trim_history_locked`, with the root configuration that `bpfima_policy_get_config` gives.
  unfoldable pub trim_after_commit : PolicyConfig → TrimEnv → Option Bytes → Merkle → Merkle
  trim_after_commit policy env source_id m =
      if (policy.merkle_history_scope == scope_root_only) && has_source source_id
      then m
      else if not (policy.merkle_history_max_size == 0)
          && ltb policy.merkle_history_max_size m.history_count
      then (trim_history policy.merkle_history_max_size env m).1
      else m
