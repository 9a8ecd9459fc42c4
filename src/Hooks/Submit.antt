-- ===== src/Hooks/Submit.antt =====
-- `bpfima_submit_measurement` of hooks/hook_utils.h: the request that a BPF program hands to the
-- kfunc. `bpf_probe_read_kernel_str` is a parameter: for a size and a source, the text that it
-- leaves in the destination, whose length and 1 it returns, or `none` where it fails.
pub mod Form
pub mod Accepted
use bpfima.Base.{
  ℕ, zero, suc, ◌+◌, ◌-◌, ◌||◌, Option, none, some, ◌++◌, arith, ltb, leb, if◌then◌else◌, is_some,
  length, replicate, eperm, ℤ, Bytes, pos, negsuc,
}
use bpfima.Base.Result.{Result, ok, err, reject_if, ◌>>=◌, ◌>>◌}
use bpfima.Kfunc.{
  MeasurementRequest, request_size, namespace_size, event_name_size, dependencies_size,
  event_data_size,
}

-- `struct measurement_ctx`, whose pointers may be NULL
pub record MeasurementCtx : Type 0 where
  pub event_name : Option Bytes
  pub namespace_id : Option Bytes
  pub dependencies : Option Bytes
  pub additional_data : Option Bytes
  pub additional_data_len : ℤ

-- A text in an array of zeros.
abbrev pub in_array : ℕ → Bytes → Bytes
in_array size text = text ++ replicate (size - length text) 0

-- `len < 0 || len >= size || (!data && len)`, or the length
unfoldable pub data_len : Option Bytes → ℤ → Result ℕ
data_len source (negsuc n) = err eperm
data_len none (pos zero) = ok 0
data_len none (pos (suc n)) = err eperm
data_len (some source) (pos n) = if leb event_data_size n then err eperm else ok n

module _ (read_str : ℕ → Bytes → Option Bytes) (read : ℕ → Bytes → Option Bytes) where
  -- A string in its array, read whole; `least` is the least length that will do.
  unfoldable pub read_field : ℕ → ℕ → Bytes → Result Bytes
  read_field least size source = elim (read_str size source) [
    | none ↦ err eperm
    | some text ↦
        if ltb (length text) least || leb size (length text + 1)
        then err eperm
        else ok (in_array size text)
  ]

  -- The field of a pointer that may be NULL.
  unfoldable pub optional_field : ℕ → Option Bytes → Result Bytes
  optional_field size none = ok (replicate size 0)
  optional_field size (some source) = read_field 0 size source

  -- The additional data in its array.
  unfoldable pub read_data : Option Bytes → ℕ → Result Bytes
  read_data none n = ok (replicate event_data_size 0)
  read_data (some source) zero = ok (replicate event_data_size 0)
  read_data (some source) (suc n) = elim (read (suc n) source) [
    | none ↦ err eperm
    | some data_bytes ↦ ok (in_array event_data_size data_bytes)
  ]

  -- The request with its fields, for an event with a name.
  unfoldable pub submit_from : MeasurementCtx → Bytes → Result (MeasurementRequest × ℕ)
  submit_from ctx name = do
    n ← data_len ctx.additional_data ctx.additional_data_len
    event_name ← read_field 1 event_name_size name
    namespace_id ← optional_field namespace_size ctx.namespace_id
    dependencies ← optional_field dependencies_size ctx.dependencies
    content ← read_data ctx.additional_data n
    ok (
      record {
        event_name = event_name;
        namespace_id = namespace_id;
        dependencies = dependencies;
        additional_data = content;
        additional_data_len = n;
        flags = if is_some ctx.dependencies then 1 else 0;
      },
      request_size,
    )

  -- `bpfima_submit_measurement` up to the kfunc, with a context and a scratch buffer: the request
  -- and the size that `bpfima_measurement_extend` is called with, or the -1 that is returned in its
  -- place.
  unfoldable pub submit_measurement : MeasurementCtx → Result (MeasurementRequest × ℕ)
  submit_measurement ctx = elim ctx.event_name [
    | none ↦ err eperm
    | some name ↦ submit_from ctx name
  ]
