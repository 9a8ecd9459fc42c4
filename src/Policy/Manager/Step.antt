-- ===== src/Policy/Manager/Step.antt =====
-- What one request does to the policy that readers see.
use bpfima.Base.{
  ℕ, zero, suc, ◌+◌, ◌≡◌, refl, ◌∙◌, not, Option, none, some, map, arith, length-set, is_zero,
  enxio, eagain, enomem, einval, ℤ, Bytes, c_str, strscpy_zeroed, pos,
}
use bpfima.Base.Result.{ok}
use bpfima.Hash.{Kernel}
use bpfima.Merkle.{commit_check}
use bpfima.Policy.Types.{PolicyState, PolicyRequest, Snapshot}
use bpfima.Policy.Config.{zero_snapshot}
use bpfima.Policy.Snapshot.{normalize_snapshot, validate_extension}
use bpfima.Policy.Namespace.{PolicyNamespace, namespace_get}
use bpfima.Policy.Manager.{BpfMap, Manager, record_at, namespace_index}
use bpfima.Policy.Manager.Publish.{publish_policy}
use bpfima.Policy.Manager.Apply.{
  ApplyEnv, Applied, refused, select_record, with_snapshot, apply_changed, apply_snapshot,
  apply_active, apply_mapped, bad_envelope, apply_locked, policy_apply, option_str, edited_snapshot,
  set_field, update_active, edit_request,
}
use bpfima.Policy.Manager.Staging.{publish_policy-Unpublished, publish_policy-IsPublished}
use bpfima.Policy.Manager.Active.{
  IsSized, IsActive, IsBound, IsStep, commit_check-Kept, refused-IsStep, Kept-refl, released-IsStep,
  result-IsStep, if-IsStep, if-returns, Kept-IsStep, namespaces-IsStep,
}

IsSized-with_snapshot :
    (state : PolicyState) (index : ℕ) (snapshot : Snapshot)
    → IsSized state
    → IsSized (with_snapshot state index snapshot)
IsSized-with_snapshot state index snapshot z = record {
  namespace_count = z.namespace_count;
  records =
      length-set state.records index (record (record_at state index) { snapshot = snapshot })
      ∙ z.records;
}

select_record-IsSized :
    (state : PolicyState) (id : Bytes) (index : ℕ) (candidate : PolicyState)
    → IsSized state
    → select_record state id ≡ ok (index, candidate)
    → IsSized candidate
unfolding select_record
select_record-IsSized state id index candidate z h = ground (
  arith,
  z.namespace_count,
  z.records,
  length-set state.records (state.namespace_count + 1)
      (record { namespace_id = strscpy_zeroed 128 id; snapshot = zero_snapshot }),
)

module _ (k : Kernel) (env : ApplyEnv) where
  apply_changed-IsStep :
      (map : BpfMap) (active candidate : PolicyState) (index : ℕ) (snapshot : Snapshot)
      (metadata : Option PolicyNamespace) (s : Manager)
      → s.policy_map ≡ some map
      → IsActive map active
      → IsBound s.policy_map
      → IsSized candidate
      → IsStep s (apply_changed k env map active candidate index snapshot metadata s)
  unfolding apply_changed
  apply_changed-IsStep map active candidate index snapshot metadata s m a b c =
      let staged = with_snapshot candidate index snapshot in
      let p = publish_policy k env.publish map staged index metadata s in
      if-IsStep s _ _ _ (refused-IsStep (pos 0) s s.merkle (Kept-refl s.merkle) b) (
        released-IsStep map active (record staged { generation = map.control.generation + 1 }) s p m
          a (publish_policy-Unpublished k env.publish map staged index metadata s)
          (λ h.
            let (c', e, q, _) =
              publish_policy-IsPublished k env.publish map staged index metadata s h in
            record {
              generation = q.generation;
              next_generation = refl;
              active = q.active;
              sized =
                  let z = IsSized-with_snapshot candidate index snapshot c in
                  record { namespace_count = z.namespace_count; records = z.records };
            }))

  apply_snapshot-IsStep :
      (map : BpfMap) (active candidate : PolicyState) (index : ℕ) (id : Bytes) (snapshot : Snapshot)
      (s : Manager)
      → s.policy_map ≡ some map
      → IsActive map active
      → IsBound s.policy_map
      → IsSized candidate
      → IsStep s (apply_snapshot k env map active candidate index id snapshot s)
  unfolding apply_snapshot
  apply_snapshot-IsStep map active candidate zero id snapshot s m a b c =
      apply_changed-IsStep map active candidate 0 snapshot none s m a b c
  apply_snapshot-IsStep map active candidate (suc i) id snapshot s m a b c =
      let verdict = validate_extension (record_at candidate 0).snapshot snapshot in
      if-IsStep s (not (is_zero verdict)) _ _
        (refused-IsStep verdict s s.merkle (Kept-refl s.merkle) b)
        (result-IsStep s (namespace_get env.namespace_allocated id s.namespaces) _ _
          (λ a' e. namespaces-IsStep s a'.1 _ (
            apply_changed-IsStep map active candidate (suc i) snapshot (some a'.0)
              (record s { namespaces = a'.1 }) m a b c))
          (λ e. refused-IsStep e s s.merkle (Kept-refl s.merkle) b))

  apply_active-IsStep :
      (request : PolicyRequest) (map : BpfMap) (active : PolicyState) (s : Manager)
      → s.policy_map ≡ some map
      → IsActive map active
      → IsBound s.policy_map
      → IsStep s (apply_active k env request map active s)
  unfolding apply_active
  apply_active-IsStep request map active s m a b =
      let no = λ (e : ℤ). refused-IsStep e s s.merkle (Kept-refl s.merkle) b in
      if-IsStep s _ _ _ (no eagain) (
        if-IsStep s _ _ _ (no enomem) (
          result-IsStep s (select_record active (c_str request.body.namespace_id)) _ _
            (λ r e.
              result-IsStep s (normalize_snapshot request.body.snapshot) _ _
                (λ snapshot _.
                  apply_snapshot-IsStep map active r.1 r.0 (c_str request.body.namespace_id)
                    snapshot s m a b
                    (select_record-IsSized active (c_str request.body.namespace_id) r.0 r.1 a.sized
                      e))
                no)
            no))

  apply_mapped-IsStep :
      (m : Option BpfMap) (request : PolicyRequest) (s : Manager)
      → s.policy_map ≡ m
      → IsBound m
      → IsBound s.policy_map
      → (o : Applied) × (apply_mapped k env m request s ≡ some o) × IsStep s o
  unfolding apply_mapped
  apply_mapped-IsStep none request s e bm b =
      (refused enxio s, refl, refused-IsStep enxio s s.merkle (Kept-refl s.merkle) b)
  apply_mapped-IsStep (some map) request s e (active, a) b =
      let (latch, checked) = commit_check s.merkle env.available in
      let kept = commit_check-Kept s.merkle env.available in
      if-returns s (not (is_zero latch)) (refused latch (record s { merkle = checked })) _
        (refused-IsStep latch s checked kept b)
        (
          apply_active k env request map active (record s { merkle = checked }),
          rw a.active refl,
          Kept-IsStep s checked _ kept
              (apply_active-IsStep request map active (record s { merkle = checked }) e a b),
        )

  -- A request never reads a NULL state: with a well-formed bound map, or with none, `apply_locked`
  -- returns. If it fails, readers see the policy they saw, the audit list is as it was, and of the
  -- globals of the commit only the error latch may differ. If it returns 0, they see the same
  -- policy or one whose generation is the next. The map stays well-formed.
  pub apply_locked-IsStep :
      (request : PolicyRequest) (s : Manager)
      → IsBound s.policy_map
      → (o : Applied) × (apply_locked k env request s ≡ some o) × IsStep s o
  unfolding apply_locked
  apply_locked-IsStep request s b = apply_mapped-IsStep s.policy_map request s refl b b

  -- A request from userspace, whatever it holds and NULL included, never makes the module read a
  -- NULL state, with a well-formed bound map or with none. If it fails, readers see the policy they
  -- saw, the root's audit list is as it was, and of the globals of the commit only the error latch
  -- may differ. If it returns 0, they see the same policy or one of the next generation. The map
  -- stays well-formed.
  pub policy_apply-IsStep :
      (request : Option PolicyRequest) (s : Manager)
      → IsBound s.policy_map
      → (o : Applied) × (policy_apply k env request s ≡ some o) × IsStep s o
  unfolding policy_apply
  policy_apply-IsStep none s b =
      (refused einval s, refl, refused-IsStep einval s s.merkle (Kept-refl s.merkle) b)
  policy_apply-IsStep (some request) s b =
      if-returns s (bad_envelope request) (refused einval s) _
        (refused-IsStep einval s s.merkle (Kept-refl s.merkle) b) (apply_locked-IsStep request s b)

  pub update_active-IsStep :
      (id : Option Bytes) (field : Bytes) (value : ℕ) (state : PolicyState) (s : Manager)
      → IsBound s.policy_map
      → (o : Applied) × (update_active k env id field value state s ≡ some o) × IsStep s o
  unfolding update_active
  update_active-IsStep id field value state s b =
      let snapshot = edited_snapshot state (namespace_index state (option_str id)) in
      elim (set_field field value snapshot.config)
        as (λ c.
          (o : Applied) × (elim c as (λ _. Option Applied) [
            | none ↦ some (refused einval s)
            | some c ↦ apply_locked k env (edit_request id snapshot c) s
          ]
            ≡ some o)
          × IsStep s o) [
            | none ↦
                (refused einval s, refl, refused-IsStep einval s s.merkle (Kept-refl s.merkle) b)
            | some c ↦ apply_locked-IsStep (edit_request id snapshot c) s b
          ]
