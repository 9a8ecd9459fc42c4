-- ===== src/Hooks/Submit/Accepted.antt =====
-- A request that a BPF program submits passes the module's tests of its form.
use bpfima.Base.{
  ℕ, zero, suc, ◌+◌, ◌-◌, ◌<◌, ◌≡◌, refl, ap, ◌∙◌, ◌≢◌, true, false, ◌||◌, Option, none, some, [],
  arith, ltb, leb, if◌then◌else◌, is_some, length, take, replicate, length-replicate, eperm, Bytes,
  has_nul, is_empty_str, has_nul-padded,
}
use bpfima.Hooks.Submit.Form.{
  IsEnded, length-in_array, IsName, data_len-Yields, nonempty-append, IsSubmitted,
  request_of-IsWellFormed,
}
use bpfima.Base.Result.{Result, ok, err, Yields, guard-Yields, bind-Yields, Yields_ok}
use bpfima.Kfunc.Prepare.{joined, prepare_measurement-joined}
use bpfima.Kfunc.{
  MeasurementRequest, prepare_measurement, terminated, bad_namespace, namespace_size,
  event_name_size, dependencies_size, event_data_size,
}
use bpfima.Hooks.Submit.{
  MeasurementCtx, in_array, data_len, read_field, optional_field, read_data, submit_from,
  submit_measurement,
}

module _ (read_str : ℕ → Bytes → Option Bytes) (read : ℕ → Bytes → Option Bytes)
    (read_str-has_nul : (n : ℕ) (source text : Bytes)
      → read_str n source ≡ some text
      → has_nul text ≡ false)
    (read-length : (n : ℕ) (source content : Bytes)
      → read n source ≡ some content
      → length content ≡ n) where
  read_field-IsEnded :
      (least size : ℕ) (source : Bytes)
      → Yields (IsEnded size) (read_field read_str read least size source)
  unfolding read_field
  read_field-IsEnded least size source =
      elim (read_str size source)
        as (λ r. Yields (IsEnded size) (elim r as (λ _. Result Bytes) [
          | none ↦ err eperm
          | some text ↦
              if ltb (length text) least || leb size (length text + 1)
              then err eperm
              else ok (in_array size text)
        ])) [
          | none ↦ tt
          | some text ↦
              guard-Yields (IsEnded size) (ltb (length text) least || leb size (length text + 1))
                eperm _
                (λ e. record {
                  ended = has_nul-padded size text (ground (arith, e));
                  whole = length-in_array size text (ground (arith, e));
                })
        ]

  read_field-IsName :
      (source : Bytes) → Yields IsName (read_field read_str read 1 event_name_size source)
  unfolding read_field
  read_field-IsName source =
      elim (read_str event_name_size source)
          as (λ r.
            read_str event_name_size source ≡ r
            → Yields IsName (elim r as (λ _. Result Bytes) [
              | none ↦ err eperm
              | some text ↦
                  if ltb (length text) 1 || leb event_name_size (length text + 1)
                  then err eperm
                  else ok (in_array event_name_size text)
            ])) [
              | none ↦ λ q. tt
              | some text ↦ λ q.
                  guard-Yields IsName (ltb (length text) 1 || leb event_name_size (length text + 1))
                    eperm _
                    (λ e. record {
                      ended = has_nul-padded event_name_size text (ground (arith, e));
                      full =
                          nonempty-append text (replicate (event_name_size - length text) 0)
                            (ground (arith, e)) (read_str-has_nul event_name_size source text q);
                    })
            ]
        refl

  optional_field-IsEnded :
      (size : ℕ) (source : Option Bytes)
      → 0 < size
      → Yields (IsEnded size) (optional_field read_str read size source)
  unfolding optional_field
  optional_field-IsEnded size none h = record {
    ended =
        ap (λ k. has_nul (take size (replicate k 0))) {x = size} {y = size - 0} (omega arith)
        ∙ has_nul-padded size [] h;
    whole = length-replicate {A = ℕ} size 0;
  }
  optional_field-IsEnded size (some source) h = read_field-IsEnded 0 size source

  -- The dependencies are empty where there are none.
  dependencies-empty :
      (source : Option Bytes)
      → Yields
          (λ d. is_some source ≡ false → is_empty_str d ≡ true)
          (optional_field read_str read dependencies_size source)
  unfolding optional_field read_field
  dependencies-empty none = λ h. refl
  dependencies-empty (some source) =
      elim (read_str dependencies_size source)
        as (λ r.
          Yields (λ d. is_some (some source) ≡ false → is_empty_str d ≡ true)
            (elim r as (λ _. Result Bytes) [
              | none ↦ err eperm
              | some text ↦
                  if ltb (length text) 0 || leb dependencies_size (length text + 1)
                  then err eperm
                  else ok (in_array dependencies_size text)
            ])) [
              | none ↦ tt
              | some text ↦
                  guard-Yields (λ d. is_some (some source) ≡ false → is_empty_str d ≡ true)
                    (ltb (length text) 0 || leb dependencies_size (length text + 1)) eperm _
                    (λ e h. cc)
            ]

  read_data-whole :
      (source : Option Bytes) (n : ℕ)
      → n < event_data_size
      → Yields (λ c. length c ≡ event_data_size) (read_data read_str read source n)
  unfolding read_data
  read_data-whole none n h = length-replicate {A = ℕ} event_data_size 0
  read_data-whole (some source) zero h = length-replicate {A = ℕ} event_data_size 0
  read_data-whole (some source) (suc n) h =
      elim (read (suc n) source)
          as (λ r.
            read (suc n) source ≡ r
            → Yields (λ c. length c ≡ event_data_size)
                (elim r as (λ _. Result Bytes) [
                  | none ↦ err eperm
                  | some data_bytes ↦ ok (in_array event_data_size data_bytes)
                ])) [
                  | none ↦ λ q. tt
                  | some content ↦ λ q.
                      length-in_array event_data_size content
                        (omega (arith, read-length (suc n) source content q, h))
                ]
        refl

  submitted : (ctx : MeasurementCtx) → Yields IsSubmitted (submit_measurement read_str read ctx)
  unfolding submit_measurement submit_from
  submitted ctx =
      elim ctx.event_name
        as (λ o. Yields IsSubmitted (elim o as (λ _. Result (MeasurementRequest × ℕ)) [
          | none ↦ err eperm
          | some name ↦ submit_from read_str read ctx name
        ])) [
          | none ↦ tt
          | some name ↦
              bind-Yields IsSubmitted (λ k. k < event_data_size)
                (data_len ctx.additional_data ctx.additional_data_len) _
                (data_len-Yields ctx.additional_data ctx.additional_data_len)
                (λ n small.
                  bind-Yields IsSubmitted IsName (read_field read_str read 1 event_name_size name) _
                    (read_field-IsName name)
                    (λ e a.
                      bind-Yields IsSubmitted (IsEnded namespace_size)
                        (optional_field read_str read namespace_size ctx.namespace_id) _
                        (optional_field-IsEnded namespace_size ctx.namespace_id (omega arith))
                        (λ ns b.
                          bind-Yields IsSubmitted
                            (λ d.
                              IsEnded dependencies_size d
                              × (is_some ctx.dependencies ≡ false → is_empty_str d ≡ true))
                            (optional_field read_str read dependencies_size ctx.dependencies) _
                            (both (optional_field read_str read dependencies_size ctx.dependencies)
                              (optional_field-IsEnded dependencies_size ctx.dependencies
                                (omega arith))
                              (dependencies-empty ctx.dependencies))
                            (λ d c.
                              bind-Yields IsSubmitted (λ x. length x ≡ event_data_size)
                                (read_data read_str read ctx.additional_data n) _
                                (read_data-whole ctx.additional_data n small)
                                (λ content u. (
                                  request_of-IsWellFormed e ns d content n
                                      (is_some ctx.dependencies) a b c.0 small c.1 u,
                                  refl,
                                ))))))
        ]
    where
      both :
          (r : Result Bytes)
          → Yields (IsEnded dependencies_size) r
          → Yields (λ d. is_some ctx.dependencies ≡ false → is_empty_str d ≡ true) r
          → Yields
              (λ d.
                IsEnded dependencies_size d
                × (is_some ctx.dependencies ≡ false → is_empty_str d ≡ true))
              r
      both (err e) p q = tt
      both (ok v) p q = (p, q)

  -- Where the reads leave a text without a NUL in it, and as many bytes as they were asked for, the
  -- request and the size that `bpfima_submit_measurement` hands to the kfunc are prepared by it for
  -- what they hold, whatever the context is: of a submitted request the module refuses at most one
  -- for a namespace with an id that is not valid, or one with nothing to measure.
  pub submit_measurement-prepare_measurement :
      (ctx : MeasurementCtx) (r : MeasurementRequest) (size : ℕ)
      → submit_measurement read_str read ctx ≡ ok (r, size)
      → bad_namespace r ≡ false
      → joined r ≢ []
      → prepare_measurement (some r) size 512 ≡ ok (terminated r, joined r)
  submit_measurement-prepare_measurement ctx r size h n j =
      let (w, s) =
        Yields_ok IsSubmitted (submit_measurement read_str read ctx) (r, size) h (submitted ctx) in
      rw s ((prepare_measurement-joined r w.sized w.request n w.dependencies j).0)
