-- ===== src/Policy/Kfuncs/Behind.antt =====
-- A request for a namespace leaves the root's record as it was.
use bpfima.Base.{
  ℕ, zero, suc, ◌+◌, ◌≡◌, refl, ap, ◌∙◌, ◌≢◌, Bool, true, false, not, ◌&&◌, Option, none, some,
  List, [], ◌∷◌, map, arith, leb, ◌==◌, if◌then◌else◌, set, drop, get_or-set_ne, is_zero, eagain,
  enomem, enospc, is_zero_iff_eq, ℤ, Bytes, bytes_eq, c_str, strscpy_zeroed, pos,
}
use bpfima.Base.Result.{Result, ok, err, Yields, Yields_ok, if-Yields}
use bpfima.Hash.{Kernel}
use bpfima.Kfunc.{namespace_size}
use bpfima.Policy.Types.{PolicyState, PolicyRecord, PolicyRequest, Snapshot, policy_namespaces}
use bpfima.Policy.Config.{zero_snapshot}
use bpfima.Policy.Snapshot.{normalize_snapshot, validate_extension}
use bpfima.Policy.Wire.{snapshot_eq}
use bpfima.Policy.Namespace.{PolicyNamespace, namespace_get}
use bpfima.Policy.Manager.{
  BpfMap, Manager, active_state, record_at, namespace_index, index_from, zero_record,
}
use bpfima.Policy.Manager.Publish.{publish_policy}
use bpfima.Policy.Manager.Apply.{
  ApplyEnv, Applied, refused, released, select_record, with_snapshot, apply_changed, apply_snapshot,
  apply_active,
}
use bpfima.Policy.Manager.Staging.{publish_policy-Unpublished, publish_policy-IsPublished}
use bpfima.Policy.Manager.Active.{effective, IsActive}

-- An index that is not the root's, in a copy with the root's record as it was.
pub record IsBehind (active : PolicyState) (p : ℕ × PolicyState) : Type 0 where
  index : p.0 ≢ 0
  root : record_at p.1 0 ≡ record_at active 0

abbrev IsPositive : Option ℕ → Type 0
IsPositive none = Unit
IsPositive (some zero) = ⊥
IsPositive (some (suc i)) = Unit

index_from-IsPositive :
    (count i : ℕ) (records : List PolicyRecord) (id : Bytes)
    → IsPositive (index_from count (suc i) records id)
unfolding index_from
index_from-IsPositive zero i records id = tt
index_from-IsPositive (suc count) i [] id = tt
index_from-IsPositive (suc count) i (r ∷ records) id =
    elim (bytes_eq (c_str r.namespace_id) id)
      as (λ b. IsPositive (if b then some (suc i) else index_from count (suc (suc i)) records id)) [
        | true ↦ tt
        | false ↦ index_from-IsPositive count (suc i) records id
      ]

pub select_record-IsBehind :
    (active : PolicyState) (x : ℕ) (id : Bytes)
    → Yields (IsBehind active) (select_record active (x ∷ id))
unfolding select_record namespace_index
select_record-IsBehind active x id =
    elim (index_from active.namespace_count 1 (drop 1 active.records) (x ∷ id))
        as (λ o.
          IsPositive o
          → Yields (IsBehind active) (elim o as (λ _. Result (ℕ × PolicyState)) [
            | some i ↦ ok (i, active)
            | none ↦
                if active.namespace_count == policy_namespaces
                then err enospc
                else ok (
                  active.namespace_count + 1,
                  record active {
                    namespace_count = active.namespace_count + 1;
                    records = set active.records (active.namespace_count + 1) (record {
                      namespace_id = strscpy_zeroed namespace_size (x ∷ id);
                      snapshot = zero_snapshot;
                    });
                  },
                )
          ])) [
            | some zero ↦ λ p. absurd p
            | some (suc i) ↦ λ p. record { index = λ h. ground (arith, h); root = refl }
            | none ↦ λ p.
                if-Yields (IsBehind active) (active.namespace_count == policy_namespaces)
                  (err enospc) _ tt
                  (record {
                    index = λ h. absurd (omega (arith, h));
                    root =
                        get_or-set_ne active.records (active.namespace_count + 1) 0
                          (record {
                            namespace_id = strscpy_zeroed namespace_size (x ∷ id);
                            snapshot = zero_snapshot;
                          })
                          zero_record (λ h. absurd (omega (arith, h)));
                  })
          ]
      (index_from-IsPositive active.namespace_count 0 (drop 1 active.records) (x ∷ id))

-- Readers see a state with the root's record of `active`.
abbrev pub Root : PolicyState → Manager → Type 0
Root active s =
    (next : PolicyState) × (effective s ≡ some next) × (record_at next 0 ≡ record_at active 0)

module _ (active : PolicyState) where
  if-Root :
      (b : Bool) (x y : Applied)
      → Root active x.manager
      → Root active y.manager
      → Root active (if b then x else y).manager
  if-Root true x y p q = p
  if-Root false x y p q = q

  result-Root {ℓ} :
      {A : Type ℓ} (r : Result A) (f : A → Applied) (g : ℤ → Applied)
      → ((e : ℤ) → Root active (g e).manager)
      → ((v : A) → r ≡ ok v → Root active (f v).manager)
      → Root active (elim r as (λ _. Applied) [ ok v ↦ f v | err e ↦ g e ]).manager
  result-Root (ok v) f g p q = q v refl
  result-Root (err e) f g p q = p e

module _ (k : Kernel) (env : ApplyEnv) (map : BpfMap) (active : PolicyState)
    (a : IsActive map active) where
  -- What a publication behind the root leaves, whether it fails or not.
  published-Root :
      (candidate : PolicyState) (i : ℕ) (snapshot : Snapshot) (metadata : Option PolicyNamespace)
      (s : Manager)
      → i ≢ 0
      → record_at candidate 0 ≡ record_at active 0
      → Root active
          (released (
            publish_policy k env.publish map
              (with_snapshot candidate i snapshot)
              i
              metadata
              s)).manager
  unfolding effective
  published-Root candidate i snapshot metadata s n r =
      let staged = with_snapshot candidate i snapshot in
      let p = publish_policy k env.publish map staged i metadata s in
      elim (is_zero p.ret) as (λ b. is_zero p.ret ≡ b → Root active (released p).manager) [
        | true ↦ λ z.
            let (c, e, q, _) =
              publish_policy-IsPublished k env.publish map staged i metadata s
                (is_zero_iff_eq p.ret z) in
            (
              record staged { generation = map.control.generation + 1 },
              q.active,
              get_or-set_ne candidate.records i 0
                    (record (record_at candidate i) { snapshot = snapshot }) zero_record n
                  ∙ r,
            )
        | false ↦ λ z.
            let u =
              publish_policy-Unpublished k env.publish map staged i metadata s
                (λ h. ground (arith, z, h)) in
            (active, u.same_active.active ∙ a.active, refl)
      ]
        refl

  -- A state with the map that was bound.
  pub same-Root : (t : Manager) → t.policy_map ≡ some map → Root active t
  unfolding effective
  same-Root t e = (
    active,
    ap (λ o. elim o as (λ _. Option PolicyState) [ none ↦ none | some map ↦ active_state map ]) e
        ∙ a.active,
    refl,
  )

  apply_changed-Root :
      (candidate : PolicyState) (i : ℕ) (snapshot : Snapshot) (metadata : Option PolicyNamespace)
      (s : Manager)
      → s.policy_map ≡ some map
      → i ≢ 0
      → record_at candidate 0 ≡ record_at active 0
      → Root active (apply_changed k env map active candidate i snapshot metadata s).manager
  unfolding apply_changed
  apply_changed-Root candidate i snapshot metadata s m n r =
      if-Root active
        (leb i active.namespace_count && snapshot_eq snapshot (record_at active i).snapshot)
        (refused (pos 0) s) _ (same-Root s m) (published-Root candidate i snapshot metadata s n r)

  apply_snapshot-Root :
      (candidate : PolicyState) (i : ℕ) (id : Bytes) (snapshot : Snapshot) (s : Manager)
      → s.policy_map ≡ some map
      → i ≢ 0
      → record_at candidate 0 ≡ record_at active 0
      → Root active (apply_snapshot k env map active candidate i id snapshot s).manager
  unfolding apply_snapshot
  apply_snapshot-Root candidate zero id snapshot s m n r = absurd (n refl)
  apply_snapshot-Root candidate (suc i) id snapshot s m n r =
      if-Root active (not (is_zero (validate_extension (record_at candidate 0).snapshot snapshot)))
        (refused (validate_extension (record_at candidate 0).snapshot snapshot) s) _ (same-Root s m)
        (result-Root active (namespace_get env.namespace_allocated id s.namespaces) _ _
          (λ e. same-Root s m)
          (λ p _.
            apply_changed-Root candidate (suc i) snapshot (some p.0) (record s { namespaces = p.1 })
              m n r))

  -- A request with an id that is not empty.
  pub apply_active-Root :
      (request : PolicyRequest) (s : Manager)
      → s.policy_map ≡ some map
      → Yields (IsBehind active) (select_record active (c_str request.body.namespace_id))
      → Root active (apply_active k env request map active s).manager
  unfolding apply_active
  apply_active-Root request s m y =
      if-Root active
        (not (request.expected_generation == 0)
          && not (request.expected_generation == active.generation))
        (refused eagain s) _ (same-Root s m)
        (if-Root active (not env.candidate_allocated) (refused enomem s) _ (same-Root s m) (
          result-Root active (select_record active (c_str request.body.namespace_id)) _ _
            (λ e. same-Root s m)
            (λ p q.
              let b : IsBehind active p =
                Yields_ok (IsBehind active) (select_record active (c_str request.body.namespace_id))
                  p q y in
              result-Root active (normalize_snapshot request.body.snapshot) _ _ (λ e. same-Root s m)
                (λ snapshot _.
                  apply_snapshot-Root p.1 p.0 (c_str request.body.namespace_id) snapshot s m b.index
                    b.root))))
