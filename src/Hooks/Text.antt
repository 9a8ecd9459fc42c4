-- ===== src/Hooks/Text.antt =====
-- The text builders of utils/utils.h. A buffer is the text that it has so far, whose length is
-- `*len`; -1 is `none`.
pub mod Digits
use bpfima.Base.{
  ℕ, zero, suc, ◌+◌, ◌-◌, ◌/◌, ◌%◌, Option, none, some, [], ◌∷◌, ◌++◌, arith, ltb, leb, ◌==◌,
  if◌then◌else◌, length, get_or, take, Bytes, bytes,
}

-- The digits of a number, the last one first, for at most `room` of them.
unfoldable pub reversed_digits : ℕ → ℕ → Bytes
reversed_digits zero value = []
reversed_digits (suc room) value =
    let rest = reversed_digits room (value / 10) in
    if value == 0 then [] else (48 + value % 10) ∷ rest

-- The copy of `temp` from its end to its start.
unfoldable pub reversed_onto : Bytes → Bytes → Bytes
reversed_onto [] text = text
reversed_onto (x ∷ temp) text = reversed_onto temp (x ∷ text)

-- `append_u32_to_buffer`
unfoldable pub append_u32 : ℕ → ℕ → Bytes → Option Bytes
append_u32 max_len value text =
    if value == 0
    then if leb (max_len - 1) (length text) then none else some (text ++ 48 ∷ [])
    else if leb max_len (length text + length (reversed_digits 15 value))
    then none
    else some (text ++ reversed_onto (reversed_digits 15 value) [])

-- `append_string_to_buffer`: the bytes in front of a NUL, at most `str_max_len` of them.
unfoldable pub append_string : ℕ → Bytes → ℕ → Bytes → Option Bytes
append_string max_len str zero text = some text
append_string max_len [] (suc n) text = some text
append_string max_len (zero ∷ str) (suc n) text = some text
append_string max_len (suc x ∷ str) (suc n) text =
    let rest = append_string max_len str n (text ++ suc x ∷ []) in
    if leb (max_len - 1) (length text) then none else rest

-- `append_separator`
unfoldable pub append_separator : ℕ → Bytes → Option Bytes
append_separator max_len text =
    if leb (max_len - 1) (length text) then none else some (text ++ 95 ∷ [])

-- A step behind one that has not failed.
abbrev pub and_then : Option Bytes → (Bytes → Option Bytes) → Option Bytes
and_then none step = none
and_then (some text) step = step text

-- `build_measurement_data`; the text has its terminator behind it.
unfoldable pub build_measurement_data : ℕ → Bytes → ℕ → ℕ → Option Bytes
build_measurement_data max_len comm pid uid = and_then (append_string max_len comm 16 []) (λ a.
    and_then (append_separator max_len a) (λ b. and_then (append_u32 max_len pid b) (λ c.
      and_then (append_separator max_len c) (λ d.
        and_then (append_u32 max_len uid d)
          (λ e. if ltb (length e) max_len then some e else none)))))

-- `hex[n]`
unfoldable pub hex_char : ℕ → ℕ
hex_char n = get_or (bytes "0123456789abcdef") n 0

-- The loop of `bytes_to_hex_str` over what is left of the `max` bytes.
unfoldable pub hex_from : ℕ → Bytes → Bytes → Option Bytes
hex_from out_len [] out = if ltb (length out) out_len then some out else none
hex_from out_len (b ∷ bs) out =
    let rest = hex_from out_len bs (out ++ hex_char (b / 16 % 16) ∷ hex_char (b % 16) ∷ []) in
    if leb out_len (length out + 2) then none else rest

-- `bytes_to_hex_str`
unfoldable pub bytes_to_hex_str : Bytes → ℕ → ℕ → Option Bytes
bytes_to_hex_str source len out_len =
    hex_from out_len (take (if ltb 32 len then 32 else len) source) []
