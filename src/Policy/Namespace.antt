-- ===== src/Policy/Namespace.antt =====
-- src/policy_namespace.c: the list of the namespaces' audit metadata.
use bpfima.Base.{
  ℕ, Bool, not, ◌||◌, Option, none, some, List, [], ◌∷◌, ◌++◌, leb, ◌==◌, if◌then◌else◌, length,
  replicate, is_zero, enoent, enomem, einval, Bytes, bytes_eq, strscpy,
}
use bpfima.Base.Result.{Result, ok, err}
use bpfima.Kfunc.{validate_namespace, namespace_size}
use bpfima.Hash.{merkle_hash_size}

-- `struct policy_change_entry`
pub record PolicyChange : Type 0 where
  pub change_hash : Bytes
  pub policy_string : Bytes

-- `struct bpfima_policy_namespace`; the id and `changes_str` are the C strings in their arrays.
pub record PolicyNamespace : Type 0 where
  pub namespace_id : Bytes
  pub changes_str : Bytes
  pub changes_hash : Bytes
  pub change_history : List PolicyChange

abbrev pub max_policy_changes_str : ℕ
max_policy_changes_str = 1024

-- `find_policy_namespace`
unfoldable pub find_policy_namespace : List PolicyNamespace → Bytes → Option PolicyNamespace
find_policy_namespace [] id = none
find_policy_namespace (e ∷ es) id =
    if bytes_eq e.namespace_id id then some e else find_policy_namespace es id

abbrev pub fresh_namespace : Bytes → PolicyNamespace
fresh_namespace id = record {
  namespace_id = strscpy namespace_size id;
  changes_str = [];
  changes_hash = replicate merkle_hash_size 0;
  change_history = [];
}

-- `bpfima_policy_namespace_get_locked`: the entry, and the list with it. The flag says whether
-- `kzalloc` succeeds.
unfoldable pub namespace_get :
    Bool → Bytes → List PolicyNamespace → Result (PolicyNamespace × List PolicyNamespace)
namespace_get allocated id list =
    if not (is_zero (validate_namespace id)) || leb namespace_size (length id)
    then err einval
    else elim (find_policy_namespace list id) [
      | some e ↦ ok (e, list)
      | none ↦
          if allocated then ok (fresh_namespace id, list ++ fresh_namespace id ∷ []) else err enomem
    ]

-- A write through the pointer that a lookup of the id gives.
unfoldable pub update_namespace :
    Bytes → (PolicyNamespace → PolicyNamespace) → List PolicyNamespace → List PolicyNamespace
update_namespace id f [] = []
update_namespace id f (e ∷ es) =
    if bytes_eq e.namespace_id id then f e ∷ es else e ∷ update_namespace id f es

-- `bpfima_policy_namespace_get_changes_hash`; a NULL buffer is `false`.
unfoldable pub get_changes_hash : List PolicyNamespace → Bytes → Bool → ℕ → Result Bytes
get_changes_hash list id has_buffer size =
    if not has_buffer || not (size == merkle_hash_size)
    then err einval
    else elim (find_policy_namespace list id) [ none ↦ err enoent | some e ↦ ok e.changes_hash ]

-- `bpfima_policy_namespace_remove`
unfoldable pub namespace_remove : List PolicyNamespace → Bytes → List PolicyNamespace
namespace_remove [] id = []
namespace_remove (e ∷ es) id = if bytes_eq e.namespace_id id then es else e ∷ namespace_remove es id

-- `bpfima_policy_namespace_cleanup`
unfoldable pub namespace_cleanup : List PolicyNamespace → List PolicyNamespace
namespace_cleanup list = []
