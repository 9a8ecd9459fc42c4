-- ===== src/Merkle/Retention.antt =====
-- What trimming the history does: which entries go, what stands for them, how long it stays.
use bpfima.Base.{
  ℕ, ◌+◌, ◌-◌, ◌*◌, ◌%◌, ◌^◌, ◌≤◌, ◌<◌, ◌≡◌, refl, ◌≢◌, ◌⊎◌, inl, inr, Bool, true, false, List, [],
  ◌∷◌, ◌++◌, map, arith, leb, Bool-cases, length, take, drop, length-take, length-drop,
  take-append-drop, is_neg, Bytes, bytes, pos,
}
use bpfima.Hash.{Kernel, ShashRun}
use bpfima.Merkle.{Merkle, HistoryEntry, zero_hash, inc32}
use bpfima.Merkle.Trim.{
  TrimEnv, aggregate_loop, aggregate_merkle_entries, aggregate_entry, to_delete, trim_history,
}
use bpfima.Merkle.Ledger.{replay, replay_from}

abbrev pub entry_values : List HistoryEntry → List Bytes
entry_values es = map (λ (e : HistoryEntry). e.value) es

module _ (k : Kernel) where
  aggregate_loop_hash :
      (runs : ℕ → ShashRun) (first : Bool) (current : Bytes) (count : ℕ) (es : List HistoryEntry)
      → (first ≡ true → current ≡ zero_hash)
      → is_neg (aggregate_loop k runs first current count es).ret ≡ false
      → ((aggregate_loop k runs first current count es).hash
          ≡ replay_from k current (entry_values es))
        × ((aggregate_loop k runs first current count es).count ≡ count + length es)
  unfolding aggregate_loop
  aggregate_loop_hash runs first current count [] z h = (refl, omega arith)
  aggregate_loop_hash runs true current count (e ∷ es) z h = ground (
    arith,
    z refl,
    aggregate_loop_hash runs false (k.sha256 (zero_hash ++ e.value)) (count + 1) es (λ q. cc),
  )
  aggregate_loop_hash runs false current count (e ∷ es) z h = ground (
    arith,
    aggregate_loop_hash runs false (k.sha256 (current ++ e.value)) (count + 1) es (λ q. cc),
  )

  -- An aggregation that does not fail yields the PCR-style chain from zero over the values of its
  -- entries, the oldest first, and their number.
  pub aggregate_merkle_entries-replay :
      (tfm : Bool) (env : TrimEnv) (es : List HistoryEntry)
      → is_neg (aggregate_merkle_entries k tfm env es).ret ≡ false
      → ((aggregate_merkle_entries k tfm env es).hash ≡ replay k (entry_values es))
        × ((aggregate_merkle_entries k tfm env es).count ≡ length es)
  unfolding aggregate_merkle_entries
  aggregate_merkle_entries-replay tfm env es h =
      ground (arith, aggregate_loop_hash env.runs true zero_hash 0 es (λ q. refl))

-- The counter is the length of the history, and fits its 32 bits with room for one more.
pub record IsCounted (m : Merkle) : Type 0 where
  pub counted : m.history_count ≡ length m.history
  pub fits : m.history_count + 1 < 2 ^ 32

half :
    (c : ℕ)
    → 0 < c
    → ((2 * to_delete c ≤ c) × (c ≤ 2 * to_delete c + 1)) ⊎ ((c ≡ 1) × (to_delete c ≡ 1))
unfolding to_delete
half c p = ground arith

to_delete_pos : (c : ℕ) → 0 < to_delete c
unfolding to_delete
to_delete_pos c = ground arith

module _ (k : Kernel) where
  -- A trim that fails, for whatever reason, leaves every entry where it was.
  pub trim_history_fails :
      (max_size : ℕ) (env : TrimEnv) (m : Merkle)
      → (trim_history k max_size env m).0 ≢ pos 0
      → (trim_history k max_size env m).1 ≡ m
  unfolding trim_history
  trim_history_fails max_size env m h =
      ground (arith, take-append-drop (to_delete m.history_count) m.history)

  -- what a trim that succeeds leaves of a history that is too long
  pub trim_history_aggregated :
      (max_size : ℕ) (env : TrimEnv) (m : Merkle)
      → max_size < m.history_count
      → (trim_history k max_size env m).0 ≡ pos 0
      → (trim_history k max_size env m).1.history
        ≡ record {
          value = replay k (entry_values (take (to_delete m.history_count) m.history));
          source_container_id = bytes "[AGGREGATE]";
          is_aggregate = true;
          aggregated_count = length (take (to_delete m.history_count) m.history);
        }
          ∷ drop (to_delete m.history_count) m.history
  unfolding trim_history aggregate_entry
  trim_history_aggregated max_size env m lt h = ground (
    arith,
    aggregate_merkle_entries-replay k m.tfm env (take (to_delete m.history_count) m.history),
  )

  -- A trim of a history that is too long, if it succeeds, replaces the oldest entries by one
  -- aggregate entry and keeps the others as they were. It takes half of the counter, rounded down,
  -- and at least one. The aggregate's value is the PCR-style chain over what it replaces, and its
  -- count is their number.
  pub trim_history_succeeds :
      (max_size : ℕ) (env : TrimEnv) (m : Merkle)
      → max_size < m.history_count
      → (trim_history k max_size env m).0 ≡ pos 0
      → (n : ℕ) × (((2 * n ≤ m.history_count) × (m.history_count ≤ 2 * n + 1))
          ⊎ ((m.history_count ≡ 1) × (n ≡ 1)))
        × (0 < n)
        × ((trim_history k max_size env m).1.history
            ≡ record {
              value = replay k (entry_values (take n m.history));
              source_container_id = bytes "[AGGREGATE]";
              is_aggregate = true;
              aggregated_count = length (take n m.history);
            }
              ∷ drop n m.history)
  trim_history_succeeds max_size env m lt h = (
    to_delete m.history_count,
    half m.history_count (omega (arith, lt)),
    to_delete_pos m.history_count,
    trim_history_aggregated max_size env m lt h,
  )

  -- how many entries a trim of a counted history moves
  moved_length :
      (m : Merkle)
      → IsCounted m
      → 0 < m.history_count
      → (length (take (to_delete m.history_count) m.history) ≡ to_delete m.history_count)
        × (length (drop (to_delete m.history_count) m.history) + to_delete m.history_count
            ≡ m.history_count)
  unfolding to_delete
  moved_length m c p = ground (
    arith,
    length-take (to_delete m.history_count) m.history,
    length-drop (to_delete m.history_count) m.history,
  )

  to_delete_bounds : (c : ℕ) → 0 < c → (1 ≤ to_delete c) × (to_delete c ≤ c)
  unfolding to_delete
  to_delete_bounds c p = (ground arith, ground arith)

  -- the counter after a trim that succeeds
  trimmed_count :
      (m : Merkle)
      → IsCounted m
      → 0 < m.history_count
      → inc32 (
          (m.history_count + 2 ^ 32 - length (take (to_delete m.history_count) m.history)) % 2 ^ 32)
        ≡ m.history_count - to_delete m.history_count + 1
  trimmed_count m c p =
      omega (arith, (moved_length m c p).0, c.fits, to_delete_bounds m.history_count p)

  -- A trim, failing or not, keeps the counter equal to the length of the history.
  pub trim_history-IsCounted :
      (max_size : ℕ) (env : TrimEnv) (m : Merkle)
      → IsCounted m
      → IsCounted (trim_history k max_size env m).1
  unfolding trim_history
  trim_history-IsCounted max_size env m c = elim (Bool-cases (leb m.history_count max_size)) [
    | inl short ↦ rw short c
    | inr long ↦ ground (
      arith,
      take-append-drop (to_delete m.history_count) m.history,
      moved_length m c (ground arith),
      trimmed_count m c (ground arith),
      to_delete_bounds m.history_count (ground arith),
    )
  ]

  -- Where the limit is at least 3, a trim that succeeds one entry beyond it brings the history
  -- back within it.
  pub trim_history-le :
      (max_size : ℕ) (env : TrimEnv) (m : Merkle)
      → IsCounted m
      → 3 ≤ max_size
      → m.history_count ≤ max_size + 1
      → (trim_history k max_size env m).0 ≡ pos 0
      → (trim_history k max_size env m).1.history_count ≤ max_size
  unfolding trim_history
  trim_history-le max_size env m c big near h = elim (Bool-cases (leb m.history_count max_size)) [
    | inl short ↦ ground arith
    | inr long ↦ unfold to_delete in ground (arith, trimmed_count m c (ground arith))
  ]

  -- A limit of 1 or 2 is not kept: once the history is beyond it, a trim that succeeds leaves it
  -- beyond it.
  pub trim_history_small_limit :
      (max_size : ℕ) (env : TrimEnv) (m : Merkle)
      → IsCounted m
      → 0 < max_size
      → max_size < 3
      → max_size < m.history_count
      → (trim_history k max_size env m).0 ≡ pos 0
      → max_size < (trim_history k max_size env m).1.history_count
  unfolding trim_history
  trim_history_small_limit max_size env m c p q long h =
      unfold to_delete in ground (arith, trimmed_count m c (omega arith))
