-- ===== src/Kfunc.antt =====
-- include/bpfima_kfunc_buffer.h: the copy and the validation of what a BPF program passes in.
pub mod Prepare
use bpfima.Base.{
  ℕ, ◌+◌, ◌-◌, bit_and, Bool, false, not, ◌&&◌, ◌||◌, Option, none, some, [], ◌∷◌, ◌++◌, arith, ltb,
  leb, ◌==◌, if◌then◌else◌, length, set, take, is_zero, e2big, einval, ℤ, Bytes, bytes_eq, has_nul,
  c_str, is_empty_str, contains, bytes, pos,
}
use bpfima.Base.Bits.{compl32}
use bpfima.Base.Result.{Result, ok, err, reject_if, ◌>>=◌, ◌>>◌}

abbrev pub namespace_size : ℕ
namespace_size = 128

-- `struct bpfima_measurement_request`
pub record MeasurementRequest : Type 0 where
  pub event_name : Bytes
  pub namespace_id : Bytes
  pub dependencies : Bytes
  pub additional_data : Bytes
  pub additional_data_len : ℕ
  pub flags : ℕ

abbrev pub event_name_size : ℕ
event_name_size = 256

abbrev pub dependencies_size : ℕ
dependencies_size = 256

abbrev pub event_data_size : ℕ
event_data_size = 256

abbrev pub request_size : ℕ
request_size = 904

-- `bpfima_copy_kfunc_string`: the bytes written to `dest`, which no caller passes as NULL. The
-- source is NULL or the memory behind it.
unfoldable pub copy_kfunc_string : ℕ → Option Bytes → ℕ → Bool → Result Bytes
copy_kfunc_string dest_size none src_size allow_empty = err einval
copy_kfunc_string dest_size (some src) src_size allow_empty =
    if (src_size == 0) || ltb dest_size src_size
    then err einval
    else if not (has_nul (take src_size src))
    then err einval
    else if not allow_empty && is_empty_str (take src_size src)
    then err einval
    else ok (take src_size src)

-- `bpfima_validate_namespace`, of a C string
unfoldable pub validate_namespace : Bytes → ℤ
validate_namespace id =
    if is_empty_str id
      || bytes_eq id (bytes ".")
      || bytes_eq id (bytes "..")
      || contains (bytes "/") id
    then einval
    else pos 0

-- BPFIMA_MEASUREMENT_HAS_DEPENDENCIES
abbrev pub has_dependencies : MeasurementRequest → Bool
has_dependencies request = not (bit_and request.flags 1 == 0)

-- The first test on the copied request.
unfoldable pub bad_request : MeasurementRequest → Bool
bad_request request =
    not (has_nul (take event_name_size request.event_name))
    || is_empty_str request.event_name
    || not (has_nul (take namespace_size request.namespace_id))
    || not (has_nul (take dependencies_size request.dependencies))
    || leb event_data_size request.additional_data_len
    || not (bit_and request.flags (compl32 1) == 0)

unfoldable pub bad_namespace : MeasurementRequest → Bool
bad_namespace request =
    not (is_empty_str request.namespace_id)
    && not (is_zero (validate_namespace (c_str request.namespace_id)))

-- The terminator written behind the additional data.
abbrev pub terminated : MeasurementRequest → MeasurementRequest
terminated request = record request {
  additional_data = set request.additional_data request.additional_data_len 0;
}

-- `concat_data` before the dependencies: the additional data, with a space behind it if it is not
-- empty and dependencies follow.
unfoldable pub concat_head : MeasurementRequest → ℕ → Result Bytes
concat_head request concat_size =
    if ltb concat_size request.additional_data_len
    then err e2big
    else if not (request.additional_data_len == 0) && has_dependencies request
    then if request.additional_data_len == concat_size
      then err e2big
      else ok (take request.additional_data_len request.additional_data ++ 32 ∷ [])
    else ok (take request.additional_data_len request.additional_data)

-- The dependencies behind it.
unfoldable pub concat_tail : MeasurementRequest → ℕ → Bytes → Result Bytes
concat_tail request concat_size head =
    if ltb (concat_size - length head) (length (c_str request.dependencies))
    then err e2big
    else if length head + length (c_str request.dependencies) == 0
    then err einval
    else ok (head ++ c_str request.dependencies)

-- `bpfima_prepare_measurement`: the request as it is left, and the `total_len` bytes of
-- `concat_data`. The data is NULL or a request at the size given; the other pointers are the
-- caller's locals.
unfoldable pub prepare_measurement :
    Option MeasurementRequest → ℕ → ℕ → Result (MeasurementRequest × Bytes)
prepare_measurement none data_size concat_size = err einval
prepare_measurement (some request) data_size concat_size = do
  reject_if (not (data_size == request_size)) einval
  reject_if (bad_request request) einval
  reject_if (bad_namespace request) einval
  reject_if (not (has_dependencies request) && not (is_empty_str request.dependencies)) einval
  head ← concat_head (terminated request) concat_size
  content ← concat_tail (terminated request) concat_size head
  ok (terminated request, content)

-- The array of the id that a kfunc takes, copied and validated. Every failure is -EINVAL.
unfoldable pub kfunc_array : Option Bytes → ℕ → Result Bytes
kfunc_array src size = elim (copy_kfunc_string namespace_size src size false) [
  | err e ↦ err einval
  | ok id ↦ if is_zero (validate_namespace (c_str id)) then ok id else err einval
]

-- The same as a C string.
unfoldable pub kfunc_id : Option Bytes → ℕ → Result Bytes
kfunc_id src size = elim (copy_kfunc_string namespace_size src size false) [
  | err e ↦ err einval
  | ok id ↦ if is_zero (validate_namespace (c_str id)) then ok (c_str id) else err einval
]
