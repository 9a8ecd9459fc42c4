-- ===== src/Policy/Types.antt =====
-- include/bpfima_kfunc_types.h: the configuration, the map states and the requests. A character
-- array is the list of its bytes; `reserved[1]` is its one word.
use bpfima.Base.{ℕ, Bool, List, Bytes}

abbrev pub namespace_size : ℕ
namespace_size = 128

abbrev pub path_size : ℕ
path_size = 256

abbrev pub max_pattern_len : ℕ
max_pattern_len = 64

abbrev pub max_ignore_patterns : ℕ
max_ignore_patterns = 8

abbrev pub max_path_filters : ℕ
max_path_filters = 8

abbrev pub hook_max : ℕ
hook_max = 8

abbrev pub policy_version : ℕ
policy_version = 2

abbrev pub policy_namespaces : ℕ
policy_namespaces = 32

abbrev pub scope_global : ℕ
scope_global = 0

abbrev pub scope_root_only : ℕ
scope_root_only = 1

pub record PolicyConfig : Type 0 where
  pub enabled : ℕ
  pub filter_flags : ℕ
  pub action_flags : ℕ
  pub min_file_size : ℕ
  pub max_path_depth : ℕ
  pub log_level : ℕ
  pub merkle_history_max_size : ℕ
  pub merkle_history_scope : ℕ
  pub reserved : ℕ

pub record PatternEntry : Type 0 where
  pub pattern : Bytes
  pub enabled : ℕ
  pub match_type : ℕ
  pub reserved : ℕ

pub record HookConfig : Type 0 where
  pub flags : ℕ
  pub filter_override : ℕ
  pub action_override : ℕ
  pub reserved : ℕ

pub record Snapshot : Type 0 where
  pub config : PolicyConfig
  pub cgroups : List PatternEntry
  pub paths : List PatternEntry
  pub hooks : List HookConfig

pub record PolicyRecord : Type 0 where
  pub namespace_id : Bytes
  pub snapshot : Snapshot

-- `records` holds the root at index 0 and the namespaces 1, ..., `namespace_count` behind it.
pub record PolicyState : Type 0 where
  pub generation : ℕ
  pub namespace_count : ℕ
  pub records : List PolicyRecord

pub record PolicyRequest : Type 0 where
  pub version : ℕ
  pub reserved : ℕ
  pub expected_generation : ℕ
  pub body : PolicyRecord

pub record PolicyContext : Type 0 where
  pub namespace_id : Bytes
  pub cgroup : Bytes
  pub path : Bytes
  pub file_size : ℕ
  pub hook : ℕ
  pub flags : ℕ

pub record PolicyResult : Type 0 where
  pub generation : ℕ
  pub config : PolicyConfig
  pub hook : HookConfig
  pub skip : Bool
