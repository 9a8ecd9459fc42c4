-- ===== src/Containers.antt =====
-- src/container.c: the list of the containers. A reference is a count; the list holds one for each
-- container on it, and every lookup takes one that its caller puts back.
pub mod Kfuncs
pub mod Balanced
pub mod Tracked
pub mod Again
use bpfima.Base.{
  ℕ, ◌+◌, ◌-◌, ◌%◌, ◌^◌, Bool, true, not, ◌&&◌, Option, none, some, List, [], ◌∷◌, ◌++◌, ◌==◌,
  if◌then◌else◌, replicate, is_neg, enomem, ℤ, Bytes, bytes_eq, strscpy,
}
use bpfima.Base.Result.{Result, ok, err}
use bpfima.Hash.{merkle_hash_size, container_id_max_len}
use bpfima.Node.{Container}
use bpfima.Policy.Namespace.{PolicyNamespace, namespace_get}

-- `container_list` and `container_count`
pub record Registry : Type 0 where
  pub containers : List Container
  pub container_count : ℕ

-- The test of the lookup: the id, and `refcount_inc_not_zero`.
unfoldable pub is_live : Bytes → Container → Bool
is_live id c = bytes_eq c.id id && not (c.refcnt == 0)

-- The first container that the lookup accepts.
unfoldable pub first_live : List Container → Bytes → Option Container
first_live [] id = none
first_live (c ∷ cs) id = let rest = first_live cs id in if is_live id c then some c else rest

-- A write through the pointer that a lookup of the id gives.
unfoldable pub update_container : Bytes → (Container → Container) → List Container → List Container
update_container id f [] = []
update_container id f (c ∷ cs) =
    let rest = update_container id f cs in if is_live id c then f c ∷ cs else c ∷ rest

abbrev pub acquired : Container → Container
acquired c = record c { refcnt = c.refcnt + 1 }

abbrev pub put_back : Container → Container
put_back c = record c { refcnt = c.refcnt - 1 }

-- `find_container_by_id`: the container and the list, in which its count has grown.
unfoldable pub find_container : List Container → Option Bytes → Option (Container × List Container)
find_container cs none = none
find_container cs (some id) = elim (first_live cs id) [
  | none ↦ none
  | some c ↦ some (acquired c, update_container id acquired cs)
]

-- `bpfima_put_container` of a container on the list.
unfoldable pub put_container : List Container → Bytes → List Container
put_container cs id = update_container id put_back cs

-- What the creation meets outside: the two allocations, the result of
-- `create_container_securityfs`, and the allocation of the policy metadata.
pub record CreateEnv : Type 0 where
  pub node_allocated : Bool
  pub tfm_allocated : Bool
  pub securityfs_ret : ℤ
  pub namespace_allocated : Bool

-- A new container, with the list's reference and the caller's.
abbrev pub fresh_container : Bytes → Container
fresh_container id = record {
  id = strscpy container_id_max_len id;
  measurement_list = [];
  tfm = true;
  leaf_hash = replicate merkle_hash_size 0;
  measurement_count = 0;
  refcnt = 2;
}

-- The policy metadata of a new container; its error is only logged.
unfoldable pub with_namespace : Bool → Bytes → List PolicyNamespace → List PolicyNamespace
with_namespace allocated id list = elim (namespace_get allocated id list) [
  | err e ↦ list
  | ok (entry, found) ↦ found
]

abbrev pub published_container : Bytes → Registry → Registry
published_container id r = record {
  containers = r.containers ++ fresh_container id ∷ [];
  container_count = (r.container_count + 1) % 2 ^ 32;
}

-- The creation of a container that the first lookup did not find. The mutex of the creation keeps
-- the second lookup from finding one.
unfoldable pub create_missing :
    CreateEnv
    → Bytes
    → Registry
    → List PolicyNamespace
    → Result Container × Registry × List PolicyNamespace
create_missing env id r namespaces =
    if not env.node_allocated
    then (err enomem, r, namespaces)
    else if not env.tfm_allocated
    then (err enomem, r, namespaces)
    else if is_neg env.securityfs_ret
    then (err env.securityfs_ret, r, namespaces)
    else (
      ok (fresh_container id),
      published_container id r,
      with_namespace env.namespace_allocated id namespaces,
    )

-- `create_container_node`
unfoldable pub create_container :
    CreateEnv
    → Bytes
    → Registry
    → List PolicyNamespace
    → Result Container × Registry × List PolicyNamespace
create_container env id r namespaces = elim (find_container r.containers (some id)) [
  | some (c, found) ↦ (ok c, record r { containers = found }, namespaces)
  | none ↦ create_missing env id r namespaces
]

-- `cleanup_container_measurements`
unfoldable pub cleanup_measurements : Container → Container
cleanup_measurements c = record c { measurement_list = [] }

-- `cleanup_all_containers`: the list is emptied and its references are put.
unfoldable pub cleanup_containers : Registry → Registry
cleanup_containers r = record { containers = []; container_count = 0 }
