-- ===== src/Containers/Again.antt =====
-- `bpfima_container_get_or_create` once more: what is there is found.
use bpfima.Base.{
  ℕ, ◌<◌, ◌≡◌, refl, sym, ap, ◌∙◌, true, false, Option, List, arith, if◌then◌else◌, length, is_zero,
  is_neg, einval, ℤ, Bytes, c_str, pos,
}
use mathlib.Core.Path.{subst}
use bpfima.Base.Result.{Result, ok, err, Yields}
use bpfima.Kfunc.{kfunc_id, copy_kfunc_string, validate_namespace, namespace_size}
use bpfima.Hash.{container_id_max_len}
use bpfima.Containers.{Registry, CreateEnv}
use bpfima.Containers.Kfuncs.{find_or_create, container_get_or_create, container_exists}
use bpfima.Policy.Namespace.{PolicyNamespace}
use bpfima.Containers.Tracked.{
  find_or_create-Tracks, exists-found, kfunc_id-Yields, Tracked, again-found, Tracks,
}

abbrev IsNegErr : Result Bytes → Type 0
IsNegErr (err e) = is_neg e ≡ true
IsNegErr (ok id) = Unit

kfunc_id-err : (src : Option Bytes) (size : ℕ) → IsNegErr (kfunc_id src size)
unfolding kfunc_id
kfunc_id-err src size =
    elim (copy_kfunc_string namespace_size src size false)
      as (λ r. IsNegErr (elim r as (λ _. Result Bytes) [
        | err e ↦ err einval
        | ok id ↦ if is_zero (validate_namespace (c_str id)) then ok (c_str id) else err einval
      ])) [
        | err e ↦ refl
        | ok id ↦
            elim (is_zero (validate_namespace (c_str id)))
              as (λ b. IsNegErr (if b then ok (c_str id) else err einval)) [
                | true ↦ tt
                | false ↦ refl
              ]
      ]

refused-id :
    (env : CreateEnv) (src : Option Bytes) (size : ℕ) (r : Registry) (ns : List PolicyNamespace)
    (e : ℤ)
    → kfunc_id src size ≡ err e
    → container_get_or_create env src size r ns ≡ record { ret = e; registry = r; namespaces = ns }
unfolding container_get_or_create
refused-id env src size r ns e h = rw (h, container_get_or_create) refl

accepted-id :
    (env : CreateEnv) (src : Option Bytes) (size : ℕ) (r : Registry) (ns : List PolicyNamespace)
    (id : Bytes)
    → kfunc_id src size ≡ ok id
    → container_get_or_create env src size r ns ≡ find_or_create env id r ns
unfolding container_get_or_create
accepted-id env src size r ns id h = rw (h, container_get_or_create) refl

abbrev Again : CreateEnv → CreateEnv → Option Bytes → ℕ → Registry → List PolicyNamespace → Type 0
Again env later src size r ns =
    let o = container_get_or_create env src size r ns in
    ((container_exists src size o.registry.containers).ret ≡ pos 1)
    × (container_get_or_create later src size o.registry o.namespaces ≡ o)

-- When `bpfima_container_get_or_create` has returned 0, whether it has found or made the container, a
-- container of the id is tracked, and another call, whatever it would meet, returns 0 and changes
-- neither the list of the containers with their references nor the policy metadata.
pub container_get_or_create-again :
    (env later : CreateEnv) (src : Option Bytes) (size : ℕ) (r : Registry)
    (ns : List PolicyNamespace)
    → (container_get_or_create env src size r ns).ret ≡ pos 0
    → let o = container_get_or_create env src size r ns in
      ((container_exists src size o.registry.containers).ret ≡ pos 1)
      × (container_get_or_create later src size o.registry o.namespaces ≡ o)
container_get_or_create-again env later src size r ns h =
    elim (kfunc_id src size)
        as (λ k.
          kfunc_id src size ≡ k
          → IsNegErr k
          → Yields (λ id. length id < container_id_max_len) k
          → Again env later src size r ns) [
            | err e ↦ λ q n y.
                absurd
                  (ground (arith, n, sym (ap (λ o. o.ret) (refused-id env src size r ns e q)) ∙ h))
            | ok id ↦ λ q n y.
                let o = container_get_or_create env src size r ns in
                let (c, t) : Tracked id o.registry.containers =
                  subst (Tracks id) (sym (accepted-id env src size r ns id q))
                    (find_or_create-Tracks env id r ns y) h in
                (
                  exists-found o.registry.containers src size id c q t,
                  again-found later src size o.registry o.namespaces id c q t
                      ∙ ap
                          (λ z. record {
                            ret = z;
                            registry = o.registry;
                            namespaces = o.namespaces;
                          })
                          (sym h),
                )
          ]
      refl (kfunc_id-err src size) (kfunc_id-Yields src size)
