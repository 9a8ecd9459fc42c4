-- ===== src/Merkle/Effect.antt =====
-- What the measurement commit and the policy commit have done when they return 0.
use bpfima.Base.{
  ◌+◌, ◌%◌, ◌^◌, ◌≡◌, refl, sym, ap, ◌∙◌, Bool, true, false, ◌&&◌, ◌||◌, Option, none, some, [],
  ◌∷◌, ◌++◌, arith, take, replicate, Bytes, bytes_eq, strscpy, pos,
}
use bpfima.Hash.{Kernel, HashEntry, alloc_hash_entry, hash_exists}
use bpfima.Hash.Extend.{extend_hash_zero}
use mathlib.Core.Path.{subst}
use bpfima.Node.{Measurement, Container}
use bpfima.Merkle.{Merkle, checked_error, commit_check, alloc_history_entry, source_name}
use bpfima.Merkle.Commit.{
  CommitEnv, Outcome, Prepared, publish_leaf, commit_value, commit_leaf, commit_measured,
  commit_deduplicated, commit_root_value, commit_checked, commit_event, commit_measurement,
  commit_root,
}
use bpfima.Merkle.Landed.{Landed, Anchored, commit_value-Landed}

-- What a measurement prepares: the leaf extended by its digest is the value for the root.
abbrev pub prepared_measurement :
    Kernel → Container → Measurement → Option HashEntry → Option Bytes → Prepared
prepared_measurement k c entry hash source = record {
  hash = hash;
  history = record {
    value = replicate 32 0;
    source_container_id = source_name source;
    is_aggregate = false;
    aggregated_count = 0;
  };
  leaf =
      some (record { node = c; entry = entry; new_leaf = k.sha256 (c.leaf_hash ++ entry.digest) });
  value = k.sha256 (c.leaf_hash ++ entry.digest);
  source_id = source;
}

-- What a policy event prepares: its digest is the value itself.
abbrev pub prepared_root : Bytes → Option Bytes → Prepared
prepared_root value source = record {
  hash = none;
  history = record {
    value = replicate 32 0;
    source_container_id = source_name source;
    is_aggregate = false;
    aggregated_count = 0;
  };
  leaf = none;
  value = value;
  source_id = source;
}

-- The table entry of a deduplicated measurement.
abbrev pub hash_of : Bool → Container → Measurement → Option HashEntry
hash_of false c entry = none
hash_of true c entry = some (record { sha256_hash = entry.digest; namespace_id = strscpy 128 c.id })

-- A container extended by an entry, with its new leaf; the rest of it is as it was.
pub record IsExtended (c : Container) (entry : Measurement) (leaf : Bytes) (after : Container)
    : Type 0 where
  pub id : after.id ≡ c.id
  pub measurement_list : after.measurement_list ≡ c.measurement_list ++ entry ∷ []
  pub measurement_count : after.measurement_count ≡ (c.measurement_count + 1) % 2 ^ 32
  pub leaf_hash : after.leaf_hash ≡ leaf
  pub tfm : after.tfm ≡ c.tfm
  pub refcnt : after.refcnt ≡ c.refcnt

pub publish_leaf-IsExtended :
    (c : Container) (entry : Measurement) (leaf : Bytes)
    → (after : Container) × (publish_leaf
          (some (record { node = c; entry = entry; new_leaf = leaf }))
        ≡ some after)
      × IsExtended c entry leaf after
unfolding publish_leaf
publish_leaf-IsExtended c entry leaf = (
  record c {
    measurement_list = c.measurement_list ++ entry ∷ [];
    measurement_count = (c.measurement_count + 1) % 2 ^ 32;
    leaf_hash = leaf;
  },
  refl,
  record {
    id = refl;
    measurement_list = refl;
    measurement_count = refl;
    leaf_hash = refl;
    tfm = refl;
    refcnt = refl;
  },
)

-- What a measurement commit on `m` that returns 0 leaves.
pub record Measures (k : Kernel) (env : CommitEnv) (c : Container) (entry : Measurement)
    (deduplicate : Bool) (m : Merkle) (o : Outcome) : Type 0 where
  pub container :
      (after : Container) × (o.container ≡ some after)
      × IsExtended c entry (k.sha256 (c.leaf_hash ++ entry.digest)) after
  pub root_hash :
      o.merkle.root_hash ≡ k.sha256 (m.root_hash ++ k.sha256 (c.leaf_hash ++ entry.digest))
  pub commit_error : o.merkle.commit_error ≡ m.commit_error
  pub software_committed : o.merkle.software_committed ≡ true
  pub unrecorded : deduplicate ≡ false → o.merkle.hashes ≡ m.hashes
  pub recorded :
      deduplicate ≡ true
      → (digest id : Bytes)
      → hash_exists k o.merkle.hashes digest (some id) ≡ (
          bytes_eq entry.digest digest && bytes_eq (take 127 c.id) id
          || hash_exists k m.hashes digest (some id))
  pub history :
      env.policy.merkle_history_max_size ≡ 0
      → o.merkle.history
        ≡ m.history
          ++ record {
            value = k.sha256 (c.leaf_hash ++ entry.digest);
            source_container_id = take 127 c.id;
            is_aggregate = false;
            aggregated_count = 0;
          }
            ∷ []
  pub anchored :
      Anchored env.tpm.chip m (k.sha256 (m.root_hash ++ k.sha256 (c.leaf_hash ++ entry.digest))) o

module _ (k : Kernel) (env : CommitEnv) where
  commit_measured-commit_value :
      (hash : Option HashEntry) (c : Container) (entry : Measurement) (source : Option Bytes)
      (m : Merkle)
      → (commit_measured k env hash c entry source m).ret ≡ pos 0
      → commit_measured k env hash c entry source m
        ≡ commit_value k env (prepared_measurement k c entry hash source) m
  unfolding commit_measured commit_leaf alloc_history_entry
  commit_measured-commit_value hash c entry source m h =
      ground (arith, extend_hash_zero k c.tfm env.leaf_run c.leaf_hash entry.digest)

  commit_deduplicated-commit_measured :
      (c : Container) (entry : Measurement) (source : Option Bytes) (m : Merkle)
      → (commit_deduplicated k env c entry source m).ret ≡ pos 0
      → (hash_exists k m.hashes entry.digest (some c.id) ≡ false)
        × (commit_deduplicated k env c entry source m
            ≡ commit_measured k env (hash_of true c entry) c entry source m)
  unfolding commit_deduplicated alloc_hash_entry
  commit_deduplicated-commit_measured c entry source m h = ground arith

  commit_checked-commit_value :
      (c : Container) (entry : Measurement) (value : Bytes) (source : Option Bytes)
      (deduplicate : Bool) (m : Merkle)
      → (commit_checked k env (some c) (some entry) (some value) source deduplicate m).ret ≡ pos 0
      → commit_checked k env (some c) (some entry) (some value) source deduplicate m
        ≡ commit_value k env (prepared_measurement k c entry (hash_of deduplicate c entry) source) m
  unfolding commit_checked
  commit_checked-commit_value c entry value source false m h =
      ground (arith, commit_measured-commit_value none c entry source m)
  commit_checked-commit_value c entry value source true m h = ground (
    arith,
    commit_deduplicated-commit_measured c entry source m,
    commit_measured-commit_value (hash_of true c entry) c entry source m,
  )

  commit_root-commit_value :
      (value : Bytes) (source : Option Bytes) (m : Merkle)
      → (commit_checked k env none none (some value) source false m).ret ≡ pos 0
      → commit_checked k env none none (some value) source false m
        ≡ commit_value k env (prepared_root value source) m
  unfolding commit_checked commit_root_value alloc_history_entry
  commit_root-commit_value value source m h = ground arith

  -- the latch is clear where a transaction goes on
  commit_check_clear :
      (m : Merkle) → (commit_check m env.available).0 ≡ pos 0 → (commit_check m env.available).1 ≡ m
  unfolding commit_check checked_error
  commit_check_clear m h = ground arith

  commit_event-commit_checked :
      (c : Option Container) (entry : Option Measurement) (value source : Option Bytes)
      (deduplicate : Bool) (m : Merkle)
      → (commit_event k env c entry value source deduplicate m).ret ≡ pos 0
      → commit_event k env c entry value source deduplicate m
        ≡ commit_checked k env c entry value source deduplicate m
  unfolding commit_event
  commit_event-commit_checked c entry value source d m h = ground (arith, commit_check_clear m)

  Landed-of_eq :
      {m : Merkle} {p : Prepared} {o : Outcome}
      → o ≡ commit_value k env p m
      → o.ret ≡ pos 0
      → Landed k env m p o
  Landed-of_eq {m} {p} e h =
      subst (Landed k env m p) (sym e)
        (commit_value-Landed k env p m (ap (λ (o : Outcome). o.ret) (sym e) ∙ h))

  -- a measurement commit that returns 0, by its prepared part
  pub commit_measurement-Landed :
      (c : Container) (entry : Measurement) (deduplicate : Bool) (m : Merkle)
      → (commit_measurement k env (some c) (some entry) deduplicate m).ret ≡ pos 0
      → Landed k env m
          (prepared_measurement k c entry (hash_of deduplicate c entry) (some c.id))
          (commit_measurement k env (some c) (some entry) deduplicate m)
  unfolding commit_measurement
  commit_measurement-Landed c entry d m h =
      let e =
        commit_event-commit_checked (some c) (some entry) (some entry.digest) (some c.id) d m h in
      let f =
        commit_checked-commit_value c entry entry.digest (some c.id) d m
          (ap (λ (o : Outcome). o.ret) (sym e) ∙ h) in
      Landed-of_eq (e ∙ f) h

  -- A policy commit that returns 0 has extended the root by the given digest and nothing else, and
  -- no container.
  pub commit_root-Landed :
      (value : Bytes) (source : Option Bytes) (m : Merkle)
      → (commit_root k env (some value) source m).ret ≡ pos 0
      → Landed k env m (prepared_root value source) (commit_root k env (some value) source m)
  unfolding commit_root
  commit_root-Landed value source m h =
      let e = commit_event-commit_checked none none (some value) source false m h in
      let f = commit_root-commit_value value source m (ap (λ (o : Outcome). o.ret) (sym e) ∙ h) in
      Landed-of_eq (e ∙ f) h
