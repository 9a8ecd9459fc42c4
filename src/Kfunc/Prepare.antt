-- ===== src/Kfunc/Prepare.antt =====
-- What the preparation of a measurement yields, and that its buffer suffices.
use bpfima.Base.{
  ℕ, zero, suc, ◌≤◌, ◌<◌, bit_and, ◌≡◌, refl, sym, ap, ◌∙◌, ◌≢◌, Bool, true, false, not, ◌&&◌, ◌||◌,
  some, [], ◌∷◌, ◌++◌, append_assoc, arith, leb, ◌==◌, if◌then◌else◌, length, set, take,
  length-append, length-take, take_all, Bytes, has_nul, c_str, is_empty_str,
}
use bpfima.Base.Bits.{compl32}
use bpfima.Base.Result.{ok}
use bpfima.Kfunc.{
  MeasurementRequest, prepare_measurement, concat_head, concat_tail, has_dependencies, terminated,
  bad_request, bad_namespace, request_size, event_data_size, dependencies_size, event_name_size,
  namespace_size,
}

-- a C string of a buffer that ends within it is shorter than the buffer
length-c_str : (b : Bytes) → has_nul b ≡ true → length (c_str b) < length b
length-c_str [] t = cc
length-c_str (zero ∷ b) t = omega arith
length-c_str (suc x ∷ b) t = ground (arith, length-c_str b)

-- The fields have the sizes of their arrays.
pub record IsSized (request : MeasurementRequest) : Type 0 where
  pub dependencies : length request.dependencies ≡ dependencies_size
  pub additional_data : length request.additional_data ≡ event_data_size

-- What is measured: the additional data and the dependencies, with a space between them if the
-- first is not empty and there are dependencies.
abbrev pub joined : MeasurementRequest → Bytes
joined request =
    if not (request.additional_data_len == 0) && has_dependencies request
    then take request.additional_data_len request.additional_data ++ 32 ∷ c_str request.dependencies
    else take request.additional_data_len request.additional_data ++ c_str request.dependencies

take-set_self : (n : ℕ) (b : Bytes) (v : ℕ) → take n (set b n v) ≡ take n b
take-set_self zero b v = refl
take-set_self (suc n) [] v = refl
take-set_self (suc n) (x ∷ b) v = ap (◌∷◌ x) (take-set_self n b v)

abbrev head_of : MeasurementRequest → Bytes
head_of request =
    if not (request.additional_data_len == 0) && has_dependencies request
    then take request.additional_data_len request.additional_data ++ 32 ∷ []
    else take request.additional_data_len request.additional_data

joined-head_of :
    (request : MeasurementRequest) → joined request ≡ head_of request ++ c_str request.dependencies
joined-head_of request = grind (arith, append_assoc {A = ℕ})

length-head_of :
    (request : MeasurementRequest)
    → request.additional_data_len < event_data_size
    → length (head_of request) ≤ 256
length-head_of request h =
    let prefix = take request.additional_data_len request.additional_data in
    ground (
      arith,
      length-take request.additional_data_len request.additional_data,
      length-append prefix (32 ∷ []),
    )

concat_head-head_of :
    (request : MeasurementRequest)
    → request.additional_data_len < event_data_size
    → concat_head (terminated request) 512 ≡ ok (head_of request)
unfolding concat_head
concat_head-head_of request h =
    ground (arith, take-set_self request.additional_data_len request.additional_data 0)

concat_tail-ok :
    (request : MeasurementRequest) (head : Bytes)
    → length head ≤ 256
    → length (c_str request.dependencies) < 256
    → length (head ++ c_str request.dependencies) ≢ 0
    → concat_tail (terminated request) 512 head ≡ ok (head ++ c_str request.dependencies)
unfolding concat_tail
concat_tail-ok request head h d e = ground (arith, length-append head (c_str request.dependencies))

parts :
    (a b c d e f : Bool)
    → (not a || b || not c || not d || e || f) ≡ false
    → (d ≡ true) × (e ≡ false)
parts a b c d e f h = ground arith

leb-false : (m n : ℕ) → leb m n ≡ false → n < m
leb-false m n h = ground arith

bad_request-fields :
    (request : MeasurementRequest)
    → bad_request request ≡ false
    → (request.additional_data_len < event_data_size)
      × (has_nul (take dependencies_size request.dependencies) ≡ true)
unfolding bad_request
bad_request-fields request b =
    let (nul, len) =
      parts (has_nul (take event_name_size request.event_name)) (is_empty_str request.event_name)
        (has_nul (take namespace_size request.namespace_id))
        (has_nul (take dependencies_size request.dependencies))
        (leb event_data_size request.additional_data_len)
        (not (bit_and request.flags (compl32 1) == 0)) b in
    (leb-false event_data_size request.additional_data_len len, nul)

bad_request-fits :
    (request : MeasurementRequest)
    → IsSized request
    → bad_request request ≡ false
    → (request.additional_data_len < event_data_size) × (length (c_str request.dependencies) < 256)
bad_request-fits request sized b =
    let (len, nul) = bad_request-fields request b in
    let whole : take dependencies_size request.dependencies ≡ request.dependencies =
      take_all dependencies_size request.dependencies (omega (arith, sized.dependencies)) in
    let short : length (c_str request.dependencies) < length request.dependencies =
      length-c_str request.dependencies (ap has_nul (sym whole) ∙ nul) in
    (len, omega (arith, sized.dependencies, short))

-- A request that passes the tests of `prepare_measurement` and has something to measure is never
-- refused for its size: the 512 bytes of the caller's buffer hold the joined data, which is what
-- comes back, in front of the space of at least one byte.
pub prepare_measurement-joined :
    (request : MeasurementRequest)
    → IsSized request
    → bad_request request ≡ false
    → bad_namespace request ≡ false
    → (has_dependencies request || is_empty_str request.dependencies) ≡ true
    → joined request ≢ []
    → (prepare_measurement (some request) request_size 512
        ≡ ok (terminated request, joined request))
      × (length (joined request) < 512)
unfolding prepare_measurement
prepare_measurement-joined request sized b n d e =
    let (len, deps) = bad_request-fits request sized b in
    let j = joined-head_of request in
    let size = length-append (head_of request) (c_str request.dependencies) in
    let head = length-head_of request len in
    ground
      (arith, concat_head-head_of request len, concat_tail-ok request (head_of request) head deps)
