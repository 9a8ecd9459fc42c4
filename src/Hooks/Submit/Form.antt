-- ===== src/Hooks/Submit/Form.antt =====
-- The form of a request of hooks/hook_utils.h, by its fields.
use bpfima.Base.{
  ℕ, zero, suc, ◌-◌, ◌≤◌, ◌<◌, bit_and, ◌≡◌, refl, Bool, true, false, not, ◌||◌, Option, none, some,
  [], ◌∷◌, ◌++◌, arith, leb, ◌==◌, if◌then◌else◌, length, take, replicate, length-append,
  length-replicate, eperm, ℤ, Bytes, has_nul, is_empty_str, pos, negsuc,
}
use bpfima.Base.Result.{ok, Yields, guard-Yields}
use bpfima.Base.Bits.{compl32}
use bpfima.Kfunc.Prepare.{IsSized}
use bpfima.Kfunc.{
  MeasurementRequest, request_size, bad_request, has_dependencies, namespace_size, event_name_size,
  dependencies_size, event_data_size,
}
use bpfima.Hooks.Submit.{in_array, data_len}

-- A field with its terminator, as long as its array.
pub record IsEnded (size : ℕ) (field : Bytes) : Type 0 where
  pub ended : has_nul (take size field) ≡ true
  pub whole : length field ≡ size

pub length-in_array :
    (size : ℕ) (text : Bytes) → length text ≤ size → length (in_array size text) ≡ size
length-in_array size text h = omega (
  arith,
  length-append text (replicate (size - length text) 0),
  length-replicate {A = ℕ} (size - length text) 0,
)

pub record IsName (field : Bytes) : Type 0 where
  pub ended : has_nul (take event_name_size field) ≡ true
  pub full : is_empty_str field ≡ false

pub data_len-Yields :
    (source : Option Bytes) (n : ℤ) → Yields (λ k. k < event_data_size) (data_len source n)
unfolding data_len
data_len-Yields source (negsuc n) = tt
data_len-Yields none (pos zero) = omega arith
data_len-Yields none (pos (suc n)) = tt
data_len-Yields (some source) (pos n) =
    guard-Yields (λ k. k < event_data_size) (leb event_data_size n) eperm (ok n)
      (λ e. ground (arith, e))

pub nonempty-append :
    (t rest : Bytes) → 1 ≤ length t → has_nul t ≡ false → is_empty_str (t ++ rest) ≡ false
nonempty-append [] rest h n = absurd (omega arith)
nonempty-append (x ∷ t) rest h n = ground (arith, n)

-- The tests of the form.
pub record IsWellFormed (r : MeasurementRequest) : Type 0 where
  pub request : bad_request r ≡ false
  pub dependencies : (has_dependencies r || is_empty_str r.dependencies) ≡ true
  pub sized : IsSized r

abbrev pub IsSubmitted : MeasurementRequest × ℕ → Type 0
IsSubmitted (r, size) = IsWellFormed r × (size ≡ request_size)

abbrev pub request_of : Bytes → Bytes → Bytes → Bytes → ℕ → Bool → MeasurementRequest
request_of name namespace deps content n has = record {
  event_name = name;
  namespace_id = namespace;
  dependencies = deps;
  additional_data = content;
  additional_data_len = n;
  flags = if has then 1 else 0;
}

pub flags_allowed :
    (n : ℕ) (has : Bool)
    → n < event_data_size
    → (leb event_data_size n || not (bit_and (if has then 1 else 0) (compl32 1) == 0)) ≡ false
flags_allowed n true h = ground (arith, h)
flags_allowed n false h = ground (arith, h)

-- The fields make a request of the right form, with dependencies or with an empty text for them.
pub request_of-IsWellFormed :
    (name namespace deps content : Bytes) (n : ℕ) (has : Bool)
    → IsName name
    → IsEnded namespace_size namespace
    → IsEnded dependencies_size deps
    → n < event_data_size
    → (has ≡ false → is_empty_str deps ≡ true)
    → length content ≡ event_data_size
    → IsWellFormed (request_of name namespace deps content n has)
unfolding bad_request
request_of-IsWellFormed name namespace deps content n true a b c h e w = record {
  request = rw a.ended (rw a.full (rw b.ended (rw c.ended (flags_allowed n true h))));
  dependencies = refl;
  sized = record { dependencies = c.whole; additional_data = w };
}
request_of-IsWellFormed name namespace deps content n false a b c h e w = record {
  request = rw a.ended (rw a.full (rw b.ended (rw c.ended (flags_allowed n false h))));
  dependencies = rw (e refl) refl;
  sized = record { dependencies = c.whole; additional_data = w };
}
