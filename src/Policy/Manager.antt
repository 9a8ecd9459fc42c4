-- ===== src/Policy/Manager.antt =====
-- The policy map of src/policy_manager.c: a control entry, whose generation is the switch, and two
-- states, of which the generation's parity selects the active one. The other is for staging.
pub mod Publish
pub mod Apply
pub mod Bind
pub mod Audit
pub mod Staging
pub mod Active
pub mod Step
pub mod First
pub mod Accepted
use bpfima.Base.{
  ℕ, zero, suc, ◌%◌, Bool, true, false, not, ◌&&◌, Option, none, some, List, [], ◌∷◌, map, arith,
  leb, ◌==◌, if◌then◌else◌, get_or, take, drop, replicate, is_zero, enxio, einval, Bytes, bytes_eq,
  has_nul, c_str, strscpy_zeroed, bytes,
}
use bpfima.Base.Result.{Result, ok, err}
use bpfima.Kfunc.{validate_namespace}
use bpfima.Policy.Types.{
  PolicyConfig, Snapshot, PolicyRecord, PolicyState, PolicyContext, PolicyResult, namespace_size,
  path_size,
}
use bpfima.Policy.Config.{zero_snapshot, default_config, zero_config, merge_config}
use bpfima.Policy.Namespace.{PolicyNamespace, PolicyChange}
use bpfima.Policy.Resolve.{bad_context, resolved, config_of, filtered}
use bpfima.Merkle.{Merkle}

-- The array map that userspace creates, with its three entries.
pub record BpfMap : Type 0 where
  pub id : ℕ
  pub map_type : ℕ
  pub key_size : ℕ
  pub value_size : ℕ
  pub max_entries : ℕ
  pub map_flags : ℕ
  pub frozen : Bool
  pub writecnt : ℕ
  pub control : PolicyState
  pub even_state : PolicyState
  pub odd_state : PolicyState

-- What the module keeps: the bound map, the audit metadata, and the globals of merkle.c.
pub record Manager : Type 0 where
  pub policy_map : Option BpfMap
  pub namespaces : List PolicyNamespace
  pub global_history : List PolicyChange
  pub merkle : Merkle

abbrev pub zero_record : PolicyRecord
zero_record = record { namespace_id = replicate namespace_size 0; snapshot = zero_snapshot }

-- `map_state(map, 1 + (generation & 1))`
unfoldable pub slot : BpfMap → ℕ → PolicyState
slot map generation = if generation % 2 == 0 then map.even_state else map.odd_state

-- The copy of a state into its slot.
unfoldable pub stage : BpfMap → PolicyState → BpfMap
stage map candidate =
    if candidate.generation % 2 == 0
    then record map { even_state = candidate }
    else record map { odd_state = candidate }

-- `active_state`: NULL while nothing is published.
unfoldable pub active_state : BpfMap → Option PolicyState
active_state map =
    if map.control.generation == 0 then none else some (slot map map.control.generation)

abbrev pub record_at : PolicyState → ℕ → PolicyRecord
record_at state index = get_or state.records index zero_record

-- The search of `namespace_index` over the next `count` records, the first of which has the index
-- `i`.
unfoldable pub index_from : ℕ → ℕ → List PolicyRecord → Bytes → Option ℕ
index_from zero i records id = none
index_from (suc count) i [] id = none
index_from (suc count) i (r ∷ records) id =
    let rest = index_from count (suc i) records id in
    if bytes_eq (c_str r.namespace_id) id then some i else rest

-- `namespace_index`, of a C string or NULL; `none` is -ENOENT.
unfoldable pub namespace_index : PolicyState → Option Bytes → Option ℕ
namespace_index state none = some 0
namespace_index state (some []) = some 0
namespace_index state (some (x ∷ xs)) =
    index_from state.namespace_count 1 (drop 1 state.records) (x ∷ xs)

-- The characters that `valid_namespace` accepts.
abbrev pub all_printable : Bytes → Bool
all_printable [] = true
all_printable (x ∷ xs) = not (leb x 32) && not (x == 58) && not (x == 127) && all_printable xs

-- `valid_namespace`, of a character array
unfoldable pub valid_namespace : Bytes → Bool
valid_namespace id =
    has_nul (take namespace_size id)
    && is_zero (validate_namespace (c_str id))
    && not (bytes_eq (c_str id) (bytes "[root]"))
    && all_printable (c_str id)

-- `bpfima_policy_get_config`
unfoldable pub get_config : Option BpfMap → PolicyConfig
get_config none = default_config zero_config
get_config (some map) = (record_at (slot map map.control.generation) 0).snapshot.config

-- `bpfima_policy_generation`
unfoldable pub policy_generation : Option BpfMap → ℕ
policy_generation none = 0
policy_generation (some map) = map.control.generation

-- `bpfima_policy_map_id`
unfoldable pub policy_map_id : Option BpfMap → ℕ
policy_map_id none = 0
policy_map_id (some map) = map.id

-- The namespace's own snapshot, where the index is positive.
abbrev pub extra_at : PolicyState → Option ℕ → Option Snapshot
extra_at state none = none
extra_at state (some zero) = none
extra_at state (some (suc i)) = some (record_at state (suc i)).snapshot

-- `bpfima_policy_read_locked` on a bound map: the effective configuration and its generation.
-- Outside of the inner result, `none` is a NULL state that the code would read.
unfoldable pub policy_read : Option BpfMap → Option Bytes → Option (Result (PolicyConfig × ℕ))
policy_read none id = some (err enxio)
policy_read (some map) id = elim (active_state map) [
  | none ↦ none
  | some state ↦ some (
      ok (
        merge_config (record_at state 0).snapshot.config
            (config_of (extra_at state (namespace_index state id))),
        state.generation,
      ))
]

-- `bpfima_policy_resolve_context`
unfoldable pub resolve_context : Option BpfMap → PolicyContext → Option (Result PolicyResult)
resolve_context none context = some (err (if bad_context context then einval else enxio))
resolve_context (some map) context =
    if bad_context context then some (err einval) else elim (active_state map) [
      | none ↦ none
      | some state ↦ some (
          ok (
            resolved state.generation (record_at state 0).snapshot
              (extra_at state (namespace_index state (some (c_str context.namespace_id)))) context))
    ]

-- The context of `bpfima_policy_match_root`: zeroed but for the text.
abbrev pub match_context : Bytes → Bool → PolicyContext
match_context text path = record {
  namespace_id = replicate namespace_size 0;
  cgroup = if path then replicate namespace_size 0 else strscpy_zeroed namespace_size text;
  path = if path then strscpy_zeroed path_size text else replicate path_size 0;
  file_size = 0;
  hook = 0;
  flags = 0;
}

abbrev pub with_filter_flags : Snapshot → ℕ → Snapshot
with_filter_flags s flags =
    let c = s.config in record s { config = record c { filter_flags = flags } }

-- `bpfima_policy_match_root`; the first flag says whether `kmemdup` succeeds.
unfoldable pub match_root : Bool → Option BpfMap → Bytes → ℕ → Bool → Option Bool
match_root allocated none text flags path = some false
match_root allocated (some map) text flags path = elim (active_state map) [
  | none ↦ none
  | some state ↦ some (
      allocated
      && filtered (with_filter_flags (record_at state 0).snapshot flags) (match_context text path))
]

-- `bpfima_policy_cleanup`
unfoldable pub policy_cleanup : Manager → Manager
policy_cleanup s = record s { policy_map = none; global_history = [] }
