-- ===== src/Tool/Build/Parts.antt =====
-- The hooks and the patterns that the tool builds pass the module's tests and come back unchanged.
use bpfima.Base.{
  ℕ, zero, suc, ◌-◌, ◌≤◌, ◌<◌, bit_and, bit_or, ◌≡◌, refl, sym, ap, ◌∙◌, ◌⊎◌, inl, inr, Bool, true,
  false, not, ◌||◌, none, some, List, [], ◌∷◌, ◌++◌, arith, leb, ◌==◌, if◌then◌else◌, length, set,
  take, replicate, length-append, take_all, length-replicate, All, einval, Bytes, has_nul, c_str,
  is_empty_str, strscpy_zeroed, has_nul-append,
}
use mathlib.Core.Path.{subst}
use bpfima.Base.Bits.{compl32}
use bpfima.Base.Result.{ok, err, Yields, if-Yields, bind-Yields, ◌>>=◌}
use bpfima.Policy.Types.{PatternEntry, HookConfig, max_pattern_len}
use bpfima.Policy.Config.{zero_pattern, hook_with}
use bpfima.Policy.Snapshot.{
  bad_pattern, bad_hook, copy_pattern, normalize_patterns, normalize_hooks,
}
use bpfima.Tool.Yaml.{YamlPolicy, YamlHook}
use bpfima.Tool.Build.{
  flag_if, hook_flags_of, build_hooks, yaml_pattern, build_patterns, default_hooks, get_hook_id,
}

pub flag_if-cases : (flag value : ℕ) → (flag_if flag value ≡ 0) ⊎ (flag_if flag value ≡ value)
flag_if-cases zero value = inl refl
flag_if-cases (suc n) value = inr (ground arith)

-- A hook's entry that comes back as it is.
pub record IsClean (h : HookConfig) : Type 0 where
  accepted : bad_hook h ≡ false
  same : hook_with h.flags ≡ h

hook_flags_of-low : (p : YamlPolicy) (h : YamlHook) → bit_and (hook_flags_of p h) (compl32 7) ≡ 0
unfolding hook_flags_of
hook_flags_of-low p h =
    low (flag_if h.enabled 1) (flag_if h.measure 4) (flag_if p.container_tracking 2)
      (flag_if-cases h.enabled 1) (flag_if-cases h.measure 4) (flag_if-cases p.container_tracking 2)
  where
    low :
        (a b c : ℕ)
        → (a ≡ 0) ⊎ (a ≡ 1)
        → (b ≡ 0) ⊎ (b ≡ 4)
        → (c ≡ 0) ⊎ (c ≡ 2)
        → bit_and (bit_or (bit_or a b) c) (compl32 7) ≡ 0
    low a b c (inl e) (inl f) (inl g) = rw e (rw f (rw g refl))
    low a b c (inl e) (inl f) (inr g) = rw e (rw f (rw g refl))
    low a b c (inl e) (inr f) (inl g) = rw e (rw f (rw g refl))
    low a b c (inl e) (inr f) (inr g) = rw e (rw f (rw g refl))
    low a b c (inr e) (inl f) (inl g) = rw e (rw f (rw g refl))
    low a b c (inr e) (inl f) (inr g) = rw e (rw f (rw g refl))
    low a b c (inr e) (inr f) (inl g) = rw e (rw f (rw g refl))
    low a b c (inr e) (inr f) (inr g) = rw e (rw f (rw g refl))

hook_with-IsClean : (flags : ℕ) → bit_and flags (compl32 7) ≡ 0 → IsClean (hook_with flags)
unfolding bad_hook
hook_with-IsClean flags h = record { accepted = ground (arith, h); same = refl }

pub default_hooks-IsClean : All IsClean default_hooks
default_hooks-IsClean =
    let on : IsClean (hook_with 7) = hook_with-IsClean 7 refl in
    (on, (on, (on, (on, (on, (on, (hook_with-IsClean 0 refl, (on, tt))))))))

set-All :
    (hooks : List HookConfig) (i : ℕ) (h : HookConfig)
    → All IsClean hooks
    → IsClean h
    → All IsClean (set hooks i h)
set-All [] i h a c = a
set-All (x ∷ hooks) zero h a c = (c, a.1)
set-All (x ∷ hooks) (suc i) h a c = (a.0, set-All hooks i h a.1 c)

pub build_hooks-IsClean :
    (p : YamlPolicy) (configured : List YamlHook) (hooks : List HookConfig)
    → All IsClean hooks
    → Yields (All IsClean) (build_hooks p configured hooks)
unfolding build_hooks
build_hooks-IsClean p [] hooks c = c
build_hooks-IsClean p (x ∷ configured) hooks c =
    if-Yields (All IsClean) (is_empty_str x.hook_name) _ _
      (build_hooks-IsClean p configured hooks c)
      (if-Yields (All IsClean) (not (x.appraise == 0) || not (x.enforce == 0)) _ _ tt
        (elim (get_hook_id x.hook_name)
          as (λ o. Yields (All IsClean) (elim o [
            | none ↦ err einval
            | some i ↦ build_hooks p configured (set hooks i (hook_with (hook_flags_of p x)))
          ])) [
            | none ↦ tt
            | some i ↦
                build_hooks-IsClean p configured (set hooks i (hook_with (hook_flags_of p x))) (
                  set-All hooks i (hook_with (hook_flags_of p x)) c
                    (hook_with-IsClean (hook_flags_of p x) (hook_flags_of-low p x)))
          ]))

if-ok {ℓ} : {V : Type ℓ} {y z : V} (x : V) (b : Bool) → b ≡ false → y ≡ z → (if b then x else y) ≡ z
if-ok x true e h = cc
if-ok x false e h = h

pub normalize_hooks-same :
    (hooks : List HookConfig) → All IsClean hooks → normalize_hooks hooks ≡ ok hooks
unfolding normalize_hooks
normalize_hooks-same [] c = refl
normalize_hooks-same (h ∷ hooks) c =
    if-ok (err einval) (bad_hook h) c.0.accepted
      (rw (normalize_hooks-same hooks c.1) (ap (λ k. ok (k ∷ hooks)) c.0.same))

-- A pattern's entry that comes back as it is.
pub record IsCopy (e : PatternEntry) : Type 0 where
  accepted : bad_pattern e ≡ false
  same : copy_pattern e ≡ e

pub normalize_patterns-same :
    (es : List PatternEntry) → All IsCopy es → normalize_patterns es ≡ ok es
unfolding normalize_patterns
normalize_patterns-same [] c = refl
normalize_patterns-same (e ∷ es) c =
    if-ok (err einval) (bad_pattern e) c.0.accepted
      (rw (normalize_patterns-same es c.1) (ap (λ k. ok (k ∷ es)) c.0.same))

zero_pattern-IsCopy : IsCopy zero_pattern
unfolding bad_pattern copy_pattern
zero_pattern-IsCopy = record { accepted = refl; same = refl }

zeros-IsCopy : (n : ℕ) → All IsCopy (replicate n zero_pattern)
zeros-IsCopy zero = tt
zeros-IsCopy (suc n) = (zero_pattern-IsCopy, zeros-IsCopy n)

-- A C string in its zeroed buffer is read back.
c_str-append : (t : Bytes) (k : ℕ) → c_str (c_str t ++ replicate k 0) ≡ c_str t
c_str-append [] zero = refl
c_str-append [] (suc k) = refl
c_str-append (zero ∷ t) zero = refl
c_str-append (zero ∷ t) (suc k) = refl
c_str-append (suc x ∷ t) k = ap (◌∷◌ (suc x)) (c_str-append t k)

nonempty-append :
    (t : Bytes) (k : ℕ) → is_empty_str t ≡ false → is_empty_str (c_str t ++ replicate k 0) ≡ false
nonempty-append [] k h = cc
nonempty-append (zero ∷ t) k h = cc
nonempty-append (suc x ∷ t) k h = ground arith

-- An enabled entry of a buffer that is a text with its terminator and zeros behind it.
text-IsCopy :
    (w : Bytes)
    → has_nul (take max_pattern_len w) ≡ true
    → is_empty_str w ≡ false
    → strscpy_zeroed max_pattern_len (c_str w) ≡ w
    → IsCopy (record { pattern = w; enabled = 1; match_type = 1; reserved = 0 })
unfolding bad_pattern copy_pattern
text-IsCopy w n e c = record {
  accepted = rw n (rw e refl);
  same = ap (λ k. record { pattern = k; enabled = 1; match_type = 1; reserved = 0 }) c;
}

module _ (t : Bytes) (short : length (c_str t) < max_pattern_len) where
  strscpy_full :
      strscpy_zeroed max_pattern_len (c_str t)
      ≡ c_str t ++ replicate (max_pattern_len - length (c_str t)) 0
  strscpy_full =
      ap (λ k. k ++ replicate (max_pattern_len - length k) 0)
        (take_all 63 (c_str t) (omega (arith, short)))

  full-length :
      length (c_str t ++ replicate (max_pattern_len - length (c_str t)) 0) ≤ max_pattern_len
  full-length = omega (
    arith,
    short,
    length-append (c_str t) (replicate (max_pattern_len - length (c_str t)) 0),
    length-replicate {A = ℕ} (max_pattern_len - length (c_str t)) 0,
  )

  full-IsCopy :
      is_empty_str t ≡ false
      → IsCopy (record {
        pattern = c_str t ++ replicate (max_pattern_len - length (c_str t)) 0;
        enabled = 1;
        match_type = 1;
        reserved = 0;
      })
  full-IsCopy e =
      text-IsCopy (c_str t ++ replicate (max_pattern_len - length (c_str t)) 0)
        (ap has_nul (
            take_all max_pattern_len (c_str t ++ replicate (max_pattern_len - length (c_str t)) 0)
              full-length)
          ∙ has_nul-append (c_str t) (max_pattern_len - length (c_str t)) (omega (arith, short)))
        (nonempty-append t (max_pattern_len - length (c_str t)) e)
        (ap (strscpy_zeroed max_pattern_len) (c_str-append t (max_pattern_len - length (c_str t)))
          ∙ strscpy_full)

  yaml_pattern-IsCopy : IsCopy (yaml_pattern t)
  unfolding yaml_pattern
  yaml_pattern-IsCopy =
      elim (is_empty_str t)
          as (λ b.
            is_empty_str t ≡ b
            → IsCopy (
                if b then zero_pattern else record {
                  pattern = strscpy_zeroed max_pattern_len (c_str t);
                  enabled = 1;
                  match_type = 1;
                  reserved = 0;
                })) [
                  | true ↦ λ e. zero_pattern-IsCopy
                  | false ↦ λ e.
                      subst
                        (λ w.
                          IsCopy
                            (record { pattern = w; enabled = 1; match_type = 1; reserved = 0 }))
                        (sym strscpy_full) (full-IsCopy e)
                ]
        refl

pub build_patterns-IsCopy :
    (left : ℕ) (ps : List Bytes) → Yields (All IsCopy) (build_patterns left ps)
unfolding build_patterns
build_patterns-IsCopy left [] = zeros-IsCopy left
build_patterns-IsCopy left (p ∷ ps) =
    elim (leb max_pattern_len (length (c_str p)))
        as (λ b.
          leb max_pattern_len (length (c_str p)) ≡ b
          → Yields (All IsCopy) (
              if b
              then err einval
              else (build_patterns (left - 1) ps >>= λ entries. ok (yaml_pattern p ∷ entries)))) [
                | true ↦ λ e. tt
                | false ↦ λ e.
                    bind-Yields (All IsCopy) (All IsCopy) (build_patterns (left - 1) ps)
                      (λ entries. ok (yaml_pattern p ∷ entries))
                      (build_patterns-IsCopy (left - 1) ps)
                      (λ entries c. (yaml_pattern-IsCopy p (ground arith), c))
              ]
      refl
