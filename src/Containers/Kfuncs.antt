-- ===== src/Containers/Kfuncs.antt =====
-- The kfuncs on containers of src/kfuncs_container.c. Each has the memory of its id, or NULL, and its
-- size; an id that does not pass is -EINVAL.
use bpfima.Base.{
  ℕ, ◌-◌, ◌^◌, Bool, not, ◌||◌, Option, none, some, List, ltb, ◌==◌, if◌then◌else◌, enoent, einval,
  ℤ, Bytes, pos, negsuc,
}
use bpfima.Base.Result.{Result, ok, err}
use bpfima.Kfunc.{kfunc_id}
use bpfima.Hash.{merkle_hash_size}
use bpfima.Node.{Container}
use bpfima.Merkle.{Merkle}
use bpfima.Containers.{Registry, CreateEnv, find_container, put_container, create_container}
use bpfima.Policy.Namespace.{PolicyNamespace}

-- `atomic_read`, which reads a counter as an `int`.
abbrev pub as_int : ℕ → ℤ
as_int n = if ltb n (2 ^ 31) then pos n else negsuc (2 ^ 32 - 1 - n)

-- A result, the list of the containers, and the bytes that are written to the output, if any.
pub record Looked : Type 0 where
  pub ret : ℤ
  pub containers : List Container
  pub output : Option Bytes

abbrev pub looked : ℤ → List Container → Looked
looked ret cs = record { ret = ret; containers = cs; output = none }

-- A result, the list and the policy metadata.
pub record Created : Type 0 where
  pub ret : ℤ
  pub registry : Registry
  pub namespaces : List PolicyNamespace

-- Behind a creation: the new container's reference is put back.
unfoldable pub after_create : Bytes → Result Container × Registry × List PolicyNamespace → Created
after_create id (err e, created, namespaces) = record {
  ret = e;
  registry = created;
  namespaces = namespaces;
}
after_create id (ok c, created, namespaces) = record {
  ret = pos 0;
  registry = record created { containers = put_container created.containers id };
  namespaces = namespaces;
}

-- Behind the lookup: the container is put back, or created.
unfoldable pub find_or_create : CreateEnv → Bytes → Registry → List PolicyNamespace → Created
find_or_create env id r namespaces = elim (find_container r.containers (some id)) [
  | some (c, found) ↦ record {
    ret = pos 0;
    registry = record r { containers = put_container found id };
    namespaces = namespaces;
  }
  | none ↦ after_create id (create_container env id r namespaces)
]

-- `bpfima_container_get_or_create`
unfoldable pub container_get_or_create :
    CreateEnv → Option Bytes → ℕ → Registry → List PolicyNamespace → Created
container_get_or_create env src size r namespaces = elim (kfunc_id src size) [
  | err e ↦ record { ret = e; registry = r; namespaces = namespaces }
  | ok id ↦ find_or_create env id r namespaces
]

-- `bpfima_merkle_get_root`; a NULL buffer is `false`.
unfoldable pub merkle_get_root : Bool → ℕ → Merkle → Result Bytes
merkle_get_root has_buffer size m =
    if not has_buffer
    then err einval
    else if not (size == merkle_hash_size)
    then err einval
    else ok m.root_hash

-- `bpfima_container_get_count`
unfoldable pub container_get_count : Registry → ℤ
container_get_count r = as_int r.container_count

-- A kfunc that reads a container between its lookup and its release.
unfoldable pub with_container :
    (Container → Looked) → ℤ → Option Bytes → ℕ → List Container → Looked
with_container f missing src size cs = elim (kfunc_id src size) [
  | err e ↦ looked e cs
  | ok id ↦ elim (find_container cs (some id)) [
    | none ↦ looked missing cs
    | some (c, found) ↦ let read = f c in record read { containers = put_container found id }
  ]
]

-- `bpfima_container_get_measurement_count`
unfoldable pub container_get_measurement_count : Option Bytes → ℕ → List Container → Looked
container_get_measurement_count src size cs =
    with_container (λ c. looked (as_int c.measurement_count) cs) enoent src size cs

-- `bpfima_container_exists`
unfoldable pub container_exists : Option Bytes → ℕ → List Container → Looked
container_exists src size cs = with_container (λ c. looked (pos 1) cs) (pos 0) src size cs

-- `bpfima_container_get_leaf_hash`; a NULL buffer is `false`.
unfoldable pub container_get_leaf_hash : Option Bytes → ℕ → Bool → ℕ → List Container → Looked
container_get_leaf_hash src size has_buffer hash_size cs =
    if not has_buffer || not (hash_size == merkle_hash_size)
    then looked einval cs
    else with_container (λ c. record { ret = pos 0; containers = cs; output = some c.leaf_hash })
        enoent src size cs
