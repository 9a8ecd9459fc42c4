-- ===== src/Hooks/Text/Digits.antt =====
-- What the text builders write is a number's decimal form and a digest's hexadecimal one.
use bpfima.Base.{
  ℕ, zero, suc, ◌+◌, ◌-◌, ◌*◌, ◌/◌, ◌%◌, ◌<◌, ◌≡◌, refl, ap, ◌∙◌, Bool, true, false, Option, none,
  some, [], ◌∷◌, ◌++◌, arith, leb, ◌==◌, if◌then◌else◌, length, length-append, Bytes,
}
use mathlib.Core.Path.{subst}
use bpfima.Hooks.Text.{reversed_digits, reversed_onto, append_u32}

-- The number that a text of digits stands for, behind the number in front of it.
unfoldable pub read_decimal : ℕ → Bytes → ℕ
read_decimal n [] = n
read_decimal n (x ∷ text) = read_decimal (10 * n + (x - 48)) text

-- The value of digits with the last one first.
low_first : Bytes → ℕ
low_first [] = 0
low_first (x ∷ text) = (x - 48) + 10 * low_first text

-- The numbers of at most so many digits.
abbrev below : ℕ → ℕ
below zero = 1
below (suc room) = 10 * below room

reversed_digits-low_first :
    (room value : ℕ) → value < below room → low_first (reversed_digits room value) ≡ value
unfolding reversed_digits low_first
reversed_digits-low_first zero value h = omega arith
reversed_digits-low_first (suc room) value h =
    let rest = reversed_digits-low_first room (value / 10) (omega (arith, h)) in
    elim (value == 0)
        as (λ b.
          (value == 0) ≡ b
          → low_first (if b then [] else (48 + value % 10) ∷ reversed_digits room (value / 10))
            ≡ value) [ true ↦ λ e. ground (arith, e) | false ↦ λ e. omega (arith, rest) ]
      refl

read_decimal-reversed_onto :
    (temp text : Bytes)
    → read_decimal 0 (reversed_onto temp text) ≡ read_decimal (low_first temp) text
unfolding reversed_onto low_first read_decimal
read_decimal-reversed_onto [] text = refl
read_decimal-reversed_onto (x ∷ temp) text =
    read_decimal-reversed_onto temp (x ∷ text)
    ∙ ap (λ k. read_decimal k text) {x = 10 * low_first temp + (x - 48)} (omega arith)

reversed_onto-length :
    (temp text : Bytes) → length (reversed_onto temp text) ≡ length temp + length text
unfolding reversed_onto
reversed_onto-length [] text = omega arith
reversed_onto-length (x ∷ temp) text = omega (arith, reversed_onto-length temp (x ∷ text))

-- What is written behind a text: a number's decimal form, within the buffer.
record Writes (max_len value : ℕ) (text written : Bytes) : Type 0 where
  number : Bytes
  behind : written ≡ text ++ number
  decimal : read_decimal 0 number ≡ value
  fits : length written < max_len

abbrev WritesIf : ℕ → ℕ → Bytes → Option Bytes → Type 0
WritesIf max_len value text none = Unit
WritesIf max_len value text (some written) = Writes max_len value text written

guard-WritesIf :
    (max_len value : ℕ) (text : Bytes) (b : Bool) (written : Bytes)
    → (b ≡ false → Writes max_len value text written)
    → WritesIf max_len value text (if b then none else some written)
guard-WritesIf max_len value text true written p = tt
guard-WritesIf max_len value text false written p = p refl

append_u32-WritesIf :
    (max_len value : ℕ) (text : Bytes)
    → value < 4294967296
    → WritesIf max_len value text (append_u32 max_len value text)
unfolding append_u32 read_decimal
append_u32-WritesIf max_len value text h =
    elim (value == 0)
        as (λ b.
          (value == 0) ≡ b
          → WritesIf max_len value text (
              if b
              then if leb (max_len - 1) (length text) then none else some (text ++ 48 ∷ [])
              else if leb max_len (length text + length (reversed_digits 15 value))
              then none
              else some (text ++ reversed_onto (reversed_digits 15 value) []))) [
                | true ↦ λ z.
                    guard-WritesIf max_len value text (leb (max_len - 1) (length text))
                      (text ++ 48 ∷ [])
                      (λ e. record {
                        number = 48 ∷ [];
                        behind = refl;
                        decimal = ground (arith, z);
                        fits = ground (arith, e, length-append text (48 ∷ []));
                      })
                | false ↦ λ z.
                    guard-WritesIf max_len value text
                      (leb max_len (length text + length (reversed_digits 15 value)))
                      (text ++ reversed_onto (reversed_digits 15 value) [])
                      (λ e. record {
                        number = reversed_onto (reversed_digits 15 value) [];
                        behind = refl;
                        decimal =
                            read_decimal-reversed_onto (reversed_digits 15 value) []
                            ∙ reversed_digits-low_first 15 value (omega (arith, h));
                        fits = ground (
                          arith,
                          e,
                          length-append text (reversed_onto (reversed_digits 15 value) []),
                          reversed_onto-length (reversed_digits 15 value) [],
                        );
                      })
              ]
      refl

-- When `append_u32_to_buffer` appends a 32-bit number, what it writes behind the text is read back as
-- the number, and the text stays shorter than the buffer.
append_u32-read_decimal :
    (max_len value : ℕ) (text written : Bytes)
    → value < 4294967296
    → append_u32 max_len value text ≡ some written
    → ((number : Bytes) × (written ≡ text ++ number) × (read_decimal 0 number ≡ value))
      × (length written < max_len)
append_u32-read_decimal max_len value text written h e =
    let w = subst (WritesIf max_len value text) e (append_u32-WritesIf max_len value text h) in
    ((w.number, w.behind, w.decimal), w.fits)
