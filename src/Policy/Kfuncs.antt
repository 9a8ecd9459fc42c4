-- ===== src/Policy/Kfuncs.antt =====
-- The kfuncs on policies of src/kfuncs_policy.c and src/policy_namespace.c, with the functions of the
-- latter that they call. An id that does not pass is -EINVAL.
pub mod Behind
pub mod Root
use bpfima.Base.{
  ℕ, Bool, true, false, not, ◌||◌, Option, none, some, List, map, arith, ◌==◌, if◌then◌else◌,
  einval, ℤ, Bytes, c_str, bytes,
}
use bpfima.Base.Result.{Result, ok, err}
use bpfima.Hash.{Kernel, merkle_hash_size}
use bpfima.Kfunc.{kfunc_array, kfunc_id, copy_kfunc_string}
use bpfima.Policy.Types.{PolicyConfig, PolicyContext, PolicyResult, namespace_size, path_size}
use bpfima.Policy.Namespace.{PolicyNamespace, get_changes_hash}
use bpfima.Policy.Manager.{BpfMap, Manager, policy_read, match_root, resolve_context}
use bpfima.Policy.Manager.Apply.{ApplyEnv, Applied, refused, update_field}

-- `sizeof(struct bpfima_policy_config)`, `..._context`, `..._result`
abbrev config_size : ℕ
config_size = 36

abbrev context_size : ℕ
context_size = 528

abbrev result_size : ℕ
result_size = 64

-- A call with the id, if it passes.
abbrev pub with_id {ℓ} : {A : Type ℓ} → (ℤ → A) → (Bytes → A) → Result Bytes → A
with_id refuse f (err e) = refuse e
with_id refuse f (ok id) = f id

module _ (k : Kernel) (env : ApplyEnv) where
  -- `bpfima_policy_namespace_update_filter_flags` and its three like, of the id's array
  unfoldable pub update_filter_flags : Bytes → ℕ → Manager → Option Applied
  update_filter_flags id value s =
      update_field k env (some id) (some (bytes "filter_flags")) value s

  unfoldable pub update_action_flags : Bytes → ℕ → Manager → Option Applied
  update_action_flags id value s =
      update_field k env (some id) (some (bytes "action_flags")) value s

  unfoldable pub update_min_file_size : Bytes → ℕ → Manager → Option Applied
  update_min_file_size id value s =
      update_field k env (some id) (some (bytes "min_file_size")) value s

  unfoldable pub update_log_level : Bytes → ℕ → Manager → Option Applied
  update_log_level id value s = update_field k env (some id) (some (bytes "log_level")) value s

  -- `bpfima_policy_update_filter_flags`
  unfoldable pub policy_update_filter_flags : Option Bytes → ℕ → ℕ → Manager → Option Applied
  policy_update_filter_flags src size value s =
      with_id (λ e. some (refused e s)) (λ id. update_filter_flags id value s)
        (kfunc_array src size)

  -- `bpfima_policy_update_action_flags`
  unfoldable pub policy_update_action_flags : Option Bytes → ℕ → ℕ → Manager → Option Applied
  policy_update_action_flags src size value s =
      with_id (λ e. some (refused e s)) (λ id. update_action_flags id value s)
        (kfunc_array src size)

  -- `bpfima_policy_update_min_file_size`
  unfoldable pub policy_update_min_file_size : Option Bytes → ℕ → ℕ → Manager → Option Applied
  policy_update_min_file_size src size value s =
      with_id (λ e. some (refused e s)) (λ id. update_min_file_size id value s)
        (kfunc_array src size)

  -- `bpfima_policy_update_log_level`
  unfoldable pub policy_update_log_level : Option Bytes → ℕ → ℕ → Manager → Option Applied
  policy_update_log_level src size value s =
      with_id (λ e. some (refused e s)) (λ id. update_log_level id value s) (kfunc_array src size)

-- `bpfima_policy_get_changes_hash`; a NULL buffer is `false`.
unfoldable pub policy_get_changes_hash :
    List PolicyNamespace → Option Bytes → ℕ → Bool → ℕ → Result Bytes
policy_get_changes_hash list src size has_buffer hash_size =
    with_id (λ e. err e)
      (λ id.
        if not has_buffer || not (hash_size == merkle_hash_size)
        then err einval
        else get_changes_hash list id has_buffer hash_size)
      (kfunc_id src size)

-- The configuration of a read, without its generation.
abbrev config_only : Option (Result (PolicyConfig × ℕ)) → Option (Result PolicyConfig)
config_only none = none
config_only (some (err e)) = some (err e)
config_only (some (ok (config, generation))) = some (ok config)

-- `bpfima_policy_namespace_get_config`; `none` is the read of a NULL state.
unfoldable pub namespace_get_config :
    Option BpfMap → Option Bytes → ℕ → Bool → ℕ → Option (Result PolicyConfig)
namespace_get_config map src size has_config output_size =
    if not has_config || not (output_size == config_size)
    then some (err einval)
    else with_id (λ e. some (err e)) (λ id. config_only (policy_read map (some id)))
        (kfunc_id src size)

-- `bpfima_policy_should_ignore_cgroup`
unfoldable pub should_ignore_cgroup : Bool → Option BpfMap → Option Bytes → ℕ → ℕ → Option Bool
should_ignore_cgroup allocated map src size flags =
    with_id (λ e. some false) (λ name. match_root allocated map (c_str name) flags false)
      (copy_kfunc_string namespace_size src size false)

-- `bpfima_policy_should_ignore_path`
unfoldable pub should_ignore_path : Bool → Option BpfMap → Option Bytes → ℕ → ℕ → Option Bool
should_ignore_path allocated map src size flags =
    with_id (λ e. some false) (λ path. match_root allocated map (c_str path) flags true)
      (copy_kfunc_string path_size src size false)

-- `bpfima_policy_resolve`, of a context or NULL
unfoldable pub policy_resolve :
    Option BpfMap → Option PolicyContext → ℕ → Bool → ℕ → Option (Result PolicyResult)
policy_resolve map none size has_output output_size = some (err einval)
policy_resolve map (some context) size has_output output_size =
    if not (size == context_size) || not has_output || not (output_size == result_size)
    then some (err einval)
    else resolve_context map context
