-- ===== src/Base/Buffers.antt =====
-- Byte buffers and the C string functions on them. A buffer is the list of its bytes; a C string
-- is the list of the bytes before its terminator.
use Prim.Native.Nat.{ℕ, zero, suc, ◌+◌, ◌-◌, ◌≤◌, ◌<◌}
use mathlib.Core.Path.{◌≡◌, refl, sym, ap, ◌∙◌}
use mathlib.Core.Logic.{◌↔◌}
use mathlib.Core.Bool.{Bool, true, false, ◌&&◌, ◌||◌}
use mathlib.Core.List.{List, [], ◌∷◌, ◌++◌}
use native.Mathlib.Omega.{arith}
use bpfima.Base.Tests.{leb, ◌==◌}
use bpfima.Base.Lists.{length, take, drop, replicate, length-append, length-replicate, take_all}

abbrev pub Bytes : Type 0
Bytes = List ℕ

-- `memcmp(a, b, n) == 0` of two buffers of the size n, `strcmp(a, b) == 0` of two C strings.
abbrev pub bytes_eq : Bytes → Bytes → Bool
bytes_eq [] [] = true
bytes_eq [] (y ∷ ys) = false
bytes_eq (x ∷ xs) [] = false
bytes_eq (x ∷ xs) (y ∷ ys) = (x == y) && bytes_eq xs ys

pub bytes_eq-eq : (a b : Bytes) → bytes_eq a b ≡ true → a ≡ b
bytes_eq-eq [] [] h = refl
bytes_eq-eq [] (y ∷ ys) h = cc
bytes_eq-eq (x ∷ xs) [] h = cc
bytes_eq-eq (x ∷ xs) (y ∷ ys) h = ground (arith, bytes_eq-eq xs ys)

pub bytes_eq_refl : (a : Bytes) → bytes_eq a a ≡ true
bytes_eq_refl [] = refl
bytes_eq_refl (x ∷ xs) = ground (arith, bytes_eq_refl xs)

pub bytes_eq_iff : (a b : Bytes) → (bytes_eq a b ≡ true) ↔ (a ≡ b)
bytes_eq_iff a b = (bytes_eq-eq a b, λ e. rw e (bytes_eq_refl b))

-- `memchr(buf, '\0', n)` of a buffer of the size n.
abbrev pub has_nul : Bytes → Bool
has_nul [] = false
has_nul (x ∷ xs) = (x == 0) || has_nul xs

-- The C string that starts at a buffer.
abbrev pub c_str : Bytes → Bytes
c_str [] = []
c_str (zero ∷ xs) = []
c_str (suc x ∷ xs) = suc x ∷ c_str xs

-- `buf[0] == '\0'`
abbrev pub is_empty_str : Bytes → Bool
is_empty_str [] = true
is_empty_str (x ∷ xs) = x == 0

-- What `strscpy(dest, src, n)` leaves of a C string.
abbrev pub strscpy : ℕ → Bytes → Bytes
strscpy n s = take (n - 1) s

-- The same into a zeroed buffer of the size n, with the bytes behind the string.
abbrev pub strscpy_zeroed : ℕ → Bytes → Bytes
strscpy_zeroed n s = take (n - 1) s ++ replicate (n - length (take (n - 1) s)) 0

-- `strncmp(t, p, strlen(p)) == 0`
abbrev pub starts_with : Bytes → Bytes → Bool
starts_with [] t = true
starts_with (x ∷ p) [] = false
starts_with (x ∷ p) (y ∷ t) = (x == y) && starts_with p t

-- `strlen(t) >= strlen(p) && strcmp(t + strlen(t) - strlen(p), p) == 0`
abbrev pub ends_with : Bytes → Bytes → Bool
ends_with p t = leb (length p) (length t) && bytes_eq (drop (length t - length p) t) p

-- `strstr(t, p) != NULL`
abbrev pub contains : Bytes → Bytes → Bool
contains p [] = starts_with p []
contains p (y ∷ t) = starts_with p (y ∷ t) || contains p t

pub starts_with_trans :
    (a b c : Bytes) → starts_with a b ≡ true → starts_with b c ≡ true → starts_with a c ≡ true
starts_with_trans [] b c h k = refl
starts_with_trans (x ∷ a) [] c h k = cc
starts_with_trans (x ∷ a) (y ∷ b) [] h k = cc
starts_with_trans (x ∷ a) (y ∷ b) (z ∷ c) h k = ground (arith, starts_with_trans a b c)

starts_with-contains : (a b : Bytes) → starts_with a b ≡ true → contains a b ≡ true
starts_with-contains a [] h = h
starts_with-contains a (y ∷ b) h = ground arith

contains-starts_with :
    (a b c : Bytes) → contains a b ≡ true → starts_with b c ≡ true → contains a c ≡ true
contains-starts_with a [] c h k = starts_with-contains a c (starts_with_trans a [] c h k)
contains-starts_with a (y ∷ b) [] h k = cc
contains-starts_with a (y ∷ b) (z ∷ c) h k =
    ground (arith, contains-starts_with a b c, starts_with_trans a (y ∷ b) (z ∷ c))

pub contains_trans :
    (a b c : Bytes) → contains a b ≡ true → contains b c ≡ true → contains a c ≡ true
contains_trans a b [] h k = contains-starts_with a b [] h k
contains_trans a b (z ∷ c) h k =
    ground (arith, contains-starts_with a b (z ∷ c), contains_trans a b c)

drop-nil : (n : ℕ) → drop {A = ℕ} n [] ≡ []
drop-nil zero = refl
drop-nil (suc n) = refl

drop-drop : (m n : ℕ) (t : Bytes) → drop m (drop n t) ≡ drop (n + m) t
drop-drop m zero t = ap (λ k. drop k t) {x = m} (omega arith)
drop-drop m (suc n) [] = drop-nil m ∙ sym (drop-nil (suc n + m))
drop-drop m (suc n) (x ∷ t) =
    drop-drop m n t ∙ ap (λ k. drop k (x ∷ t)) {x = suc (n + m)} (omega arith)

ends_with_parts :
    (p t : Bytes)
    → ends_with p t ≡ true
    → (length p ≤ length t) × (drop (length t - length p) t ≡ p)
ends_with_parts p t h = (ground arith, bytes_eq-eq (drop (length t - length p) t) p (ground arith))

ends_with_of_parts :
    (p t : Bytes) → length p ≤ length t → drop (length t - length p) t ≡ p → ends_with p t ≡ true
ends_with_of_parts p t h e = ground (arith, (bytes_eq_iff (drop (length t - length p) t) p).1 e)

pub ends_with_trans :
    (a b c : Bytes) → ends_with a b ≡ true → ends_with b c ≡ true → ends_with a c ≡ true
ends_with_trans a b c h k =
    let u : (length a ≤ length b) × (drop (length b - length a) b ≡ a) = ends_with_parts a b h in
    let v : (length b ≤ length c) × (drop (length c - length b) c ≡ b) = ends_with_parts b c k in
    ends_with_of_parts a c (omega arith) (
      ap (λ n. drop n c) split
      ∙ sym (drop-drop (length b - length a) (length c - length b) c)
      ∙ ap (drop (length b - length a)) v.1
      ∙ u.1)
  where
    split : length c - length a ≡ (length c - length b) + (length b - length a)
    split = omega (arith, (ends_with_parts a b h).0, (ends_with_parts b c k).0)

-- There is a terminator behind a text that is shorter than its zeroed buffer.
pub has_nul-append : (t : Bytes) (k : ℕ) → 0 < k → has_nul (t ++ replicate k 0) ≡ true
has_nul-append [] zero h = absurd (omega arith)
has_nul-append [] (suc k) h = refl
has_nul-append (x ∷ t) k h = ground (arith, has_nul-append t k h)

pub has_nul-padded :
    (n : ℕ) (t : Bytes) → length t < n → has_nul (take n (t ++ replicate (n - length t) 0)) ≡ true
has_nul-padded n t h =
    ap has_nul (
      take_all n (t ++ replicate (n - length t) 0) (
        omega (
          arith,
          h,
          length-append t (replicate (n - length t) 0),
          length-replicate {A = ℕ} (n - length t) 0,
        )))
    ∙ has_nul-append t (n - length t) (omega (arith, h))
