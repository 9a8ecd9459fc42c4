-- ===== src/Policy/Kfuncs/Root.antt =====
-- An update through a kfunc is about a namespace: the root's record stays.
use bpfima.Base.{
  ℕ, zero, suc, ◌≡◌, refl, sym, Bool, true, false, not, Option, none, some, [], ◌∷◌, map, arith,
  if◌then◌else◌, is_zero, enxio, enomem, einval, ℤ, Bytes, c_str, is_empty_str, strscpy_zeroed,
  bytes,
}
use mathlib.Core.Path.{subst}
use bpfima.Base.Result.{Result, ok, err, Yields}
use bpfima.Hash.{Kernel}
use bpfima.Kfunc.{kfunc_array, copy_kfunc_string, validate_namespace, namespace_size}
use bpfima.Merkle.{commit_check}
use bpfima.Policy.Types.{PolicyState, PolicyRequest}
use bpfima.Policy.Manager.{BpfMap, Manager, active_state, namespace_index}
use bpfima.Policy.Manager.Apply.{
  ApplyEnv, Applied, refused, select_record, apply_active, apply_mapped, apply_locked, option_str,
  edited_snapshot, set_field, update_active, update_field, edit_request, bad_id,
}
use bpfima.Policy.Kfuncs.{
  with_id, update_filter_flags, update_action_flags, update_min_file_size, update_log_level,
  policy_update_filter_flags, policy_update_action_flags, policy_update_min_file_size,
  policy_update_log_level,
}
use bpfima.Policy.Manager.Active.{IsActive}
use bpfima.Policy.Kfuncs.Behind.{
  IsBehind, Root, select_record-IsBehind, same-Root, apply_active-Root,
}

module _ (k : Kernel) (env : ApplyEnv) (map : BpfMap) (active : PolicyState)
    (a : IsActive map active) where
  -- A request returns, and readers see a state with the root's record.
  abbrev pub Returned : Option Applied → Type 0
  Returned r = (o : Applied) × (r ≡ some o) × Root active o.manager

  if-Returned :
      (b : Bool) (x y : Option Applied) → Returned x → Returned y → Returned (if b then x else y)
  if-Returned true x y p q = p
  if-Returned false x y p q = q

  refused-Returned : (e : ℤ) (s : Manager) → s.policy_map ≡ some map → Returned (some (refused e s))
  refused-Returned e s m = (refused e s, refl, same-Root k env map active a s m)

  apply_mapped-Returned :
      (request : PolicyRequest) (s : Manager)
      → s.policy_map ≡ some map
      → Yields (IsBehind active) (select_record active (c_str request.body.namespace_id))
      → Returned (apply_mapped k env (some map) request s)
  unfolding apply_mapped
  apply_mapped-Returned request s m y =
      let (latch, checked) = commit_check s.merkle env.available in
      if-Returned (not (is_zero latch)) (some (refused latch (record s { merkle = checked }))) _
        (refused-Returned latch (record s { merkle = checked }) m)
        (
          apply_active k env request map active (record s { merkle = checked }),
          rw a.active refl,
          apply_active-Root k env map active a request (record s { merkle = checked }) m y,
        )

  apply_locked-Returned :
      (request : PolicyRequest) (s : Manager)
      → s.policy_map ≡ some map
      → Yields (IsBehind active) (select_record active (c_str request.body.namespace_id))
      → Returned (apply_locked k env request s)
  unfolding apply_locked
  apply_locked-Returned request s m y =
      subst (λ o. Returned (apply_mapped k env o request s)) (sym m)
        (apply_mapped-Returned request s m y)

  -- The record of a namespace whose id is not empty is behind the root's.
  named-IsBehind :
      (id : Bytes)
      → is_empty_str (c_str id) ≡ false
      → Yields
          (IsBehind active)
          (select_record active (c_str (strscpy_zeroed namespace_size (c_str id))))
  named-IsBehind [] h = cc
  named-IsBehind (zero ∷ id) h = cc
  named-IsBehind (suc x ∷ id) h = select_record-IsBehind active (suc x) _

  update_active-Returned :
      (id field : Bytes) (value : ℕ) (state : PolicyState) (s : Manager)
      → s.policy_map ≡ some map
      → is_empty_str (c_str id) ≡ false
      → Returned (update_active k env (some id) field value state s)
  unfolding update_active
  update_active-Returned id field value state s m h =
      let snapshot = edited_snapshot state (namespace_index state (option_str (some id))) in
      elim (set_field field value snapshot.config)
        as (λ c. Returned (elim c as (λ _. Option Applied) [
          | none ↦ some (refused einval s)
          | some c ↦ apply_locked k env (edit_request (some id) snapshot c) s
        ])) [
          | none ↦ refused-Returned einval s m
          | some c ↦
              apply_locked-Returned (edit_request (some id) snapshot c) s m (named-IsBehind id h)
        ]

  update_field-Returned :
      (id field : Bytes) (value : ℕ) (s : Manager)
      → s.policy_map ≡ some map
      → is_empty_str (c_str id) ≡ false
      → Returned (update_field k env (some id) (some field) value s)
  unfolding update_field
  update_field-Returned id field value s m h =
      if-Returned (bad_id (some id)) (some (refused einval s)) _ (refused-Returned einval s m) (
        if-Returned (not env.request_allocated) (some (refused enomem s)) _
          (refused-Returned enomem s m)
          (subst
            (λ o. Returned (elim o as (λ _. Option Applied) [
              | none ↦ some (refused enxio s)
              | some map ↦ elim (active_state map) [
                | none ↦ none
                | some state ↦ update_active k env (some id) field value state s
              ]
            ]))
            (sym m)
            (subst
              (λ o. Returned (elim o as (λ _. Option Applied) [
                | none ↦ none
                | some state ↦ update_active k env (some id) field value state s
              ]))
              (sym a.active) (update_active-Returned id field value active s m h))))

  -- What passes as an id is not empty.
  kfunc_array-Yields :
      (src : Option Bytes) (size : ℕ)
      → Yields (λ id. is_empty_str (c_str id) ≡ false) (kfunc_array src size)
  unfolding kfunc_array validate_namespace
  kfunc_array-Yields src size =
      elim (copy_kfunc_string namespace_size src size false)
        as (λ r.
          Yields (λ id. is_empty_str (c_str id) ≡ false)
            (elim r as (λ _. Result Bytes) [
              | err e ↦ err einval
              | ok id ↦ if is_zero (validate_namespace (c_str id)) then ok id else err einval
            ])) [
              | err e ↦ tt
              | ok id ↦
                  elim (is_zero (validate_namespace (c_str id)))
                      as (λ b.
                        is_zero (validate_namespace (c_str id)) ≡ b
                        → Yields (λ id. is_empty_str (c_str id) ≡ false)
                            (if b then ok id else err einval)) [
                              | true ↦ λ e. ground (arith, e)
                              | false ↦ λ e. tt
                            ]
                    refl
            ]

  with_id-Returned :
      (field : Bytes) (src : Option Bytes) (size value : ℕ) (s : Manager)
      → s.policy_map ≡ some map
      → Returned (
          with_id
            (λ e. some (refused e s))
            (λ id. update_field k env (some id) (some field) value s)
            (kfunc_array src size))
  with_id-Returned field src size value s m =
      elim (kfunc_array src size)
          as (λ r.
            Yields (λ id. is_empty_str (c_str id) ≡ false) r
            → Returned (
                with_id (λ e. some (refused e s))
                  (λ id. update_field k env (some id) (some field) value s) r)) [
                    | err e ↦ λ y. refused-Returned e s m
                    | ok id ↦ λ y. update_field-Returned id field value s m y
                  ]
        (kfunc_array-Yields src size)

  -- A BPF program cannot change the root's policy: on a well-formed bound map, each of the four
  -- kfuncs that update a policy returns, whatever its arguments, and whether it fails or not,
  -- readers then see a state whose root record is the one before.
  pub policy_updates-Root :
      (src : Option Bytes) (size value : ℕ) (s : Manager)
      → s.policy_map ≡ some map
      → Returned (policy_update_filter_flags k env src size value s)
        × Returned (policy_update_action_flags k env src size value s)
        × Returned (policy_update_min_file_size k env src size value s)
        × Returned (policy_update_log_level k env src size value s)
  unfolding policy_update_filter_flags policy_update_action_flags policy_update_min_file_size
      policy_update_log_level update_filter_flags update_action_flags update_min_file_size
      update_log_level
  policy_updates-Root src size value s m = (
    with_id-Returned (bytes "filter_flags") src size value s m,
    with_id-Returned (bytes "action_flags") src size value s m,
    with_id-Returned (bytes "min_file_size") src size value s m,
    with_id-Returned (bytes "log_level") src size value s m,
  )
