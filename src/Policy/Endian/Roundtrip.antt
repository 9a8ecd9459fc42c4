-- ===== src/Policy/Endian/Roundtrip.antt =====
-- What userspace encodes is what the module decodes, whatever the host's byte order.
use bpfima.Base.{
  ℕ, ◌+◌, ◌*◌, ◌/◌, ◌%◌, ◌<◌, ◌≡◌, refl, sym, ap, ◌∙◌, Bool, true, false, List, [], ◌∷◌, arith, All,
}
use bpfima.Policy.Types.{PolicyConfig, HookConfig, PolicyRequest}
use bpfima.Policy.Endian.{
  swap16, swap32, swap64, le32, le64, convert_config, convert_hook, convert_hooks, encode_request,
  decode_request,
}

swap16-swap16 : (n : ℕ) → swap16 (swap16 n) ≡ n % 65536
unfolding swap16
swap16-swap16 n = omega arith

swap16-lt : (n : ℕ) → swap16 n < 65536
unfolding swap16
swap16-lt n = omega arith

swap16-low : (n m : ℕ) → swap16 (n * 65536 + m) ≡ swap16 m
unfolding swap16
swap16-low n m = omega arith

high : (n m w : ℕ) → m < 65536 → (n * 65536 + m) / 65536 ≡ n
high n m w h = omega arith

swap32-swap32 : (n : ℕ) → swap32 (swap32 n) ≡ n % 4294967296
unfolding swap32
swap32-swap32 n =
    let hi = swap16 (n / 65536) in
    let top : (swap16 n * 65536 + hi) / 65536 ≡ swap16 n =
      high (swap16 n) hi 0 (swap16-lt (n / 65536)) in
    let lower : swap16 (swap16 n * 65536 + hi) ≡ n / 65536 % 65536 =
      swap16-low (swap16 n) hi ∙ swap16-swap16 (n / 65536) in
    let upper : swap16 ((swap16 n * 65536 + hi) / 65536) ≡ n % 65536 =
      ap swap16 top ∙ swap16-swap16 n in
    omega (arith, lower, upper)

swap32-lt : (n : ℕ) → swap32 n < 4294967296
unfolding swap32
swap32-lt n = omega (arith, swap16-lt n, swap16-lt (n / 65536))

swap32-low : (n m : ℕ) → m < 4294967296 → swap32 (n * 4294967296 + m) ≡ swap32 m
unfolding swap32
swap32-low n m h =
    let a : swap16 (n * 4294967296 + m) ≡ swap16 m =
      ap swap16 {x = n * 4294967296 + m} (omega arith) ∙ swap16-low (n * 65536) m in
    let b : swap16 ((n * 4294967296 + m) / 65536) ≡ swap16 (m / 65536) =
      ap swap16 {x = (n * 4294967296 + m) / 65536} (omega arith) ∙ swap16-low n (m / 65536) in
    omega (arith, a, b)

swap64-swap64 : (n : ℕ) → swap64 (swap64 n) ≡ n % 18446744073709551616
unfolding swap64
swap64-swap64 n =
    let hi = swap32 (n / 4294967296) in
    let top : (swap32 n * 4294967296 + hi) / 4294967296 ≡ swap32 n =
      omega (arith, swap32-lt (n / 4294967296)) in
    let lower : swap32 (swap32 n * 4294967296 + hi) ≡ n / 4294967296 % 4294967296 =
      swap32-low (swap32 n) hi (swap32-lt (n / 4294967296)) ∙ swap32-swap32 (n / 4294967296) in
    let upper : swap32 ((swap32 n * 4294967296 + hi) / 4294967296) ≡ n % 4294967296 =
      ap swap32 top ∙ swap32-swap32 n in
    omega (arith, lower, upper)

-- The fields are machine words.
pub record ConfigWords (c : PolicyConfig) : Type 0 where
  pub filter_flags : c.filter_flags < 4294967296
  pub action_flags : c.action_flags < 4294967296
  pub min_file_size : c.min_file_size < 4294967296
  pub max_path_depth : c.max_path_depth < 4294967296
  pub log_level : c.log_level < 4294967296
  pub merkle_history_max_size : c.merkle_history_max_size < 4294967296

pub record HookWords (h : HookConfig) : Type 0 where
  pub flags : h.flags < 4294967296
  pub filter_override : h.filter_override < 4294967296
  pub action_override : h.action_override < 4294967296

pub record RequestWords (r : PolicyRequest) : Type 0 where
  pub version : r.version < 4294967296
  pub expected_generation : r.expected_generation < 18446744073709551616
  pub config : ConfigWords r.body.snapshot.config
  pub hooks : All HookWords r.body.snapshot.hooks

module _ (big : Bool) where
  le32-le32 : (n : ℕ) → n < 4294967296 → le32 big (le32 big n) ≡ n
  le32-le32 n h = elim big as (λ b. le32 b (le32 b n) ≡ n) [
    | true ↦ omega (arith, swap32-swap32 n)
    | false ↦ refl
  ]

  le64-le64 : (n : ℕ) → n < 18446744073709551616 → le64 big (le64 big n) ≡ n
  le64-le64 n h = elim big as (λ b. le64 b (le64 b n) ≡ n) [
    | true ↦ omega (arith, swap64-swap64 n)
    | false ↦ refl
  ]

  convert_config-convert_config :
      (c : PolicyConfig) → ConfigWords c → convert_config big (convert_config big c) ≡ c
  unfolding convert_config
  convert_config-convert_config c w = rw (le32-le32 c.filter_flags w.filter_flags) (
      rw (le32-le32 c.action_flags w.action_flags) (
        rw (le32-le32 c.min_file_size w.min_file_size) (
          rw (le32-le32 c.max_path_depth w.max_path_depth) (
            rw (le32-le32 c.log_level w.log_level)
              (rw (le32-le32 c.merkle_history_max_size w.merkle_history_max_size) refl)))))

  convert_hook-convert_hook :
      (h : HookConfig) → HookWords h → convert_hook big (convert_hook big h) ≡ h
  unfolding convert_hook
  convert_hook-convert_hook h w = rw (le32-le32 h.flags w.flags) (
      rw (le32-le32 h.filter_override w.filter_override)
        (rw (le32-le32 h.action_override w.action_override) refl))

  convert_hooks-convert_hooks :
      (hooks : List HookConfig)
      → All HookWords hooks
      → convert_hooks big (convert_hooks big hooks) ≡ hooks
  unfolding convert_hooks
  convert_hooks-convert_hooks [] w = refl
  convert_hooks-convert_hooks (h ∷ hooks) w =
      rw (convert_hook-convert_hook h w.0) (rw (convert_hooks-convert_hooks hooks w.1) refl)

  le32-zero : (n : ℕ) → n ≡ 0 → le32 big n ≡ n
  unfolding swap32 swap16
  le32-zero n z = elim big as (λ b. le32 b n ≡ n) [ true ↦ rw z refl | false ↦ z ∙ sym z ]

  -- On hosts of either byte order, the module decodes what `encode_request` encodes to the request
  -- itself, when its fields are machine words and the reserved word of the envelope, which only the
  -- module converts, is zero.
  pub decode_request-encode_request :
      (r : PolicyRequest)
      → RequestWords r
      → r.reserved ≡ 0
      → decode_request big (encode_request big r) ≡ r
  unfolding encode_request decode_request
  decode_request-encode_request r w z = rw (le32-le32 r.version w.version) (
      rw (le64-le64 r.expected_generation w.expected_generation) (
        rw (convert_config-convert_config r.body.snapshot.config w.config) (
          rw (convert_hooks-convert_hooks r.body.snapshot.hooks w.hooks)
            (ap (λ n. record r { reserved = n }) (le32-zero r.reserved z)))))
