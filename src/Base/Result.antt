-- ===== src/Base/Result.antt =====
-- What a fallible function yields: a value, or the negative `int` that it returns instead.
use mathlib.Core.Bool.{Bool, true, false}
use mathlib.Core.Path.{◌≡◌, refl, subst}
use bpfima.Base.Errno.{ℤ}
use bpfima.Base.Tests.{if◌then◌else◌}

pub data Result {ℓ} (V : Type ℓ) : Type ℓ where
  err : ℤ → Result V
  ok : V → Result V

infixl 5 ◌>>=◌ ◌>>◌
-- What follows a fallible call runs on its value, and not at all behind an error.
abbrev pub ◌>>=◌ {κ ℓ} : {V : Type κ} {W : Type ℓ} → Result V → (V → Result W) → Result W
err code >>= next = err code
ok value >>= next = next value

abbrev pub ◌>>◌ {κ} : {W : Type κ} → Result (Unit {0}) → Result W → Result W
test >> next = test >>= λ _. next

-- `if (test) return code;`
abbrev pub reject_if : Bool → ℤ → Result (Unit {0})
reject_if false code = ok tt
reject_if true code = err code

-- A predicate at the value, if there is one.
abbrev pub Yields {κ ℓ} : {V : Type κ} → (V → Type ℓ) → Result V → Type ℓ
Yields Holds (err code) = Unit
Yields Holds (ok v) = Holds v

module _ {κ ℓ} {V : Type κ} (Holds : V → Type ℓ) where
  pub if-Yields :
      (test : Bool) (x y : Result V)
      → Yields Holds x
      → Yields Holds y
      → Yields Holds (if test then x else y)
  if-Yields true x y p q = p
  if-Yields false x y p q = q

  pub guard-Yields :
      (test : Bool) (code : ℤ) (rest : Result V)
      → (test ≡ false → Yields Holds rest)
      → Yields Holds (if test then err code else rest)
  guard-Yields true code rest p = tt
  guard-Yields false code rest p = p refl

  pub reject_if-Yields :
      (test : Bool) (code : ℤ) (rest : Result V)
      → (test ≡ false → Yields Holds rest)
      → Yields Holds (reject_if test code >> rest)
  reject_if-Yields true code rest p = tt
  reject_if-Yields false code rest p = p refl

  pub bind-Yields {μ ν} :
      {W : Type μ} (Before : W → Type ν) (r : Result W) (next : W → Result V)
      → Yields Before r
      → ((w : W) → Before w → Yields Holds (next w))
      → Yields Holds (r >>= next)
  bind-Yields Before (err code) next b p = tt
  bind-Yields Before (ok w) next b p = p w b

  -- A chain that succeeds has a value with the property.
  pub Yields_ok : (r : Result V) (v : V) → r ≡ ok v → Yields Holds r → Holds v
  Yields_ok r v e h = subst (Yields Holds) e h
