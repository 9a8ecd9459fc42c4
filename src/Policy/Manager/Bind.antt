-- ===== src/Policy/Manager/Bind.antt =====
-- `bpfima_policy_bind_map` of src/policy_manager.c: the checks of the map and the first policy.
use bpfima.Base.{
  ℕ, ◌+◌, Bool, true, not, ◌&&◌, ◌||◌, Option, none, some, List, [], ◌∷◌, ◌==◌, if◌then◌else◌, set,
  replicate, is_zero, eperm, enomem, ebusy, einval, estale, ℤ, Bytes, pos,
}
use bpfima.Hash.{Kernel}
use bpfima.Tpm.{TpmDigest}
use bpfima.Merkle.{commit_check}
use bpfima.Policy.Types.{PolicyRecord, PolicyState, policy_namespaces}
use bpfima.Policy.Config.{default_snapshot}
use bpfima.Policy.Wire.{record_bytes}
use bpfima.Policy.Manager.{BpfMap, Manager, zero_record}
use bpfima.Policy.Manager.Publish.{PublishEnv, Published, publish_policy}

-- The sizes that the map must have: `sizeof(u32)` and `sizeof(struct bpfima_policy_state)`.
abbrev pub key_size : ℕ
key_size = 4

abbrev pub state_size : ℕ
state_size = 45560

abbrev pub array_map : ℕ
array_map = 2

abbrev pub zero_state : PolicyState
zero_state = record {
  generation = 0;
  namespace_count = 0;
  records = replicate (policy_namespaces + 1) zero_record;
}

abbrev all_zero : Bytes → Bool
all_zero [] = true
all_zero (x ∷ xs) = (x == 0) && all_zero xs

abbrev records_zero : List PolicyRecord → Bool
records_zero [] = true
records_zero (r ∷ rs) = all_zero (record_bytes r) && records_zero rs

-- `!memchr_inv(state, 0, sizeof(*state))`
unfoldable pub is_blank : PolicyState → Bool
is_blank s = (s.generation == 0) && (s.namespace_count == 0) && records_zero s.records

-- The test on the map's shape.
unfoldable pub bad_map : BpfMap → Bool
bad_map map =
    not (map.map_type == array_map)
    || not (map.key_size == key_size)
    || not (map.value_size == state_size)
    || not (map.max_entries == 3)
    || not (map.map_flags == 128)

-- What a bind meets outside.
pub record BindEnv : Type 0 where
  pub available : Bool
  pub initial_allocated : Bool
  pub publish : PublishEnv

-- A result, the module's state, the map as its other holders find it, and the digests of the TPM
-- command, if one was sent.
pub record Bound : Type 0 where
  pub ret : ℤ
  pub manager : Manager
  pub map : BpfMap
  pub sent : Option (List TpmDigest)

abbrev pub unbound : ℤ → BpfMap → Manager → Bound
unbound ret map s = record { ret = ret; manager = s; map = map; sent = none }

-- The result of the first publication, bound or zeroed again.
unfoldable pub bind_published : BpfMap → Published → Bound
bind_published map p =
    let after = p.manager in
    if is_zero p.ret
    then record {
      ret = pos 0;
      manager = record after { policy_map = some p.map };
      map = p.map;
      sent = p.sent;
    }
    else record {
      ret = p.ret;
      manager = after;
      map = record map { control = zero_state; even_state = zero_state; odd_state = zero_state };
      sent = p.sent;
    }

-- The blank state with the default snapshot in the root's record.
abbrev pub initial_state : PolicyState
initial_state = record zero_state {
  records = set zero_state.records 0 (record zero_record { snapshot = default_snapshot });
}

module _ (k : Kernel) (env : BindEnv) where
  unfoldable pub bind_blank : BpfMap → Manager → Bound
  bind_blank map s = bind_published map (publish_policy k env.publish map initial_state 0 none s)

  -- With a map bound already, the same one gives the latched error, another one -EBUSY.
  unfoldable pub bind_existing : Option BpfMap → BpfMap → Manager → Bound
  bind_existing (some existing) map s =
      if existing.id == map.id
      then unbound (commit_check s.merkle env.available).0 map
          (record s { merkle = (commit_check s.merkle env.available).1 })
      else unbound ebusy map s
  bind_existing none map s =
      if is_blank map.control && is_blank map.even_state && is_blank map.odd_state
      then bind_blank map s
      else unbound estale map s

  -- `bpfima_policy_bind_map`, on the map that `bpf_map_get` finds
  unfoldable pub bind_map : BpfMap → Manager → Bound
  bind_map map s =
      if bad_map map
      then unbound einval map s
      else if not map.frozen
      then unbound eperm map s
      else if not (map.writecnt == 0)
      then unbound ebusy map s
      else if not env.initial_allocated
      then unbound enomem map s
      else bind_existing s.policy_map map s
