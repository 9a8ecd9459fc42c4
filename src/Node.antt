-- ===== src/Node.antt =====
-- The measurement and container records of include/bpfima_common.h, and src/measurements.c.
use bpfima.Base.{ℕ, List, [], Bool, Option, none, some, Bytes, is_empty_str, strscpy, if◌then◌else◌}

-- `struct measurement_entry`; the character arrays as the C strings that they hold.
pub record Measurement : Type 0 where
  pub event_name : Bytes
  pub event_data : Bytes
  pub dependencies : Bytes
  pub digest : Bytes

-- `struct container_node`. `tfm` says that the transform is there; the locks, the list links and
-- the securityfs handles are the kernel's.
pub record Container : Type 0 where
  pub id : Bytes
  pub measurement_list : List Measurement
  pub tfm : Bool
  pub leaf_hash : Bytes
  pub measurement_count : ℕ
  pub refcnt : ℕ

-- A NULL or empty argument leaves the empty string.
unfoldable pub optional_text : Option Bytes → Bytes
optional_text none = []
optional_text (some s) = if is_empty_str s then [] else strscpy 256 s

-- `create_measurement_entry`; the flag says whether `kzalloc` gives the entry.
unfoldable pub create_measurement_entry :
    Bool → Option Bytes → Option Bytes → Option Bytes → Option Bytes → Option Measurement
create_measurement_entry allocated none event_data dependencies digest = none
create_measurement_entry allocated (some name) event_data dependencies none = none
create_measurement_entry allocated (some name) event_data dependencies (some digest) =
    if allocated
    then some (record {
      event_name = strscpy 256 name;
      event_data = optional_text event_data;
      dependencies = optional_text dependencies;
      digest = digest;
    })
    else none
