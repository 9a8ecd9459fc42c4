-- ===== src/Policy/Securityfs/Write.antt =====
-- Sequences of writes to the policy files: what they can do to the policy that readers see.
use bpfima.Base.{
  ℕ, ◌+◌, ◌≡◌, refl, ap, ◌∙◌, ◌≢◌, ◌⊎◌, inl, Bool, true, false, not, ◌||◌, Option, none, some, map,
  arith, ltb, ◌==◌, if◌then◌else◌, is_some, length, is_zero, eperm, enxio, enomem, efault, einval,
  is_zero_iff_eq, ℤ, Bytes, c_str, pos,
}
use bpfima.Base.Result.{Result, ok, err}
use bpfima.Hash.{Kernel}
use bpfima.Merkle.Atomic.{Kept}
use bpfima.Policy.Types.{PolicyRequest, PolicyState}
use bpfima.Policy.Endian.{decode_request}
use bpfima.Policy.Manager.{BpfMap, Manager, active_state, policy_generation}
use bpfima.Policy.Manager.Apply.{
  ApplyEnv, Applied, refused, policy_apply, update_field, update_active, bad_id,
}
use bpfima.Policy.Manager.Active.{effective, IsBound, IsStep, refused-IsStep, Kept-refl}
use bpfima.Policy.Manager.Step.{policy_apply-IsStep, update_active-IsStep}
use bpfima.Policy.Securityfs.{
  WriteEnv, split_field, chomp, or_count, if_zero_count, returning, update_parsed, parse_and_update,
  policy_update_write, global_policy_write, policy_apply_write, max_write, policy_request_size,
}

-- A result with a well-formed map and the steps of a request.
abbrev pub Returns : (Applied → Type 0) → Option Applied → Type 0
Returns P r = (o : Applied) × (r ≡ some o) × P o

if-Returns :
    (P : Applied → Type 0) (b : Bool) (x y : Option Applied)
    → Returns P x
    → Returns P y
    → Returns P (if b then x else y)
if-Returns P true x y p q = p
if-Returns P false x y p q = q

refused-Returns :
    (e : ℤ) (s : Manager) → IsBound s.policy_map → Returns (IsStep s) (some (refused e s))
refused-Returns e s b = (refused e s, refl, refused-IsStep e s s.merkle (Kept-refl s.merkle) b)

module _ (k : Kernel) (env : ApplyEnv) where
  bound-Returns :
      (m : Option BpfMap) (id : Option Bytes) (field : Bytes) (value : ℕ) (s : Manager)
      → IsBound m
      → IsBound s.policy_map
      → Returns (IsStep s) (elim m [
        | none ↦ some (refused enxio s)
        | some map ↦ elim (active_state map) [
          | none ↦ none
          | some state ↦ update_active k env id field value state s
        ]
      ])
  bound-Returns none id field value s bm b = refused-Returns enxio s b
  bound-Returns (some map) id field value s (state, a) b =
      rw a.active (update_active-IsStep k env id field value state s b)

  -- The scalar edit never reads a NULL state either.
  pub update_field-IsStep :
      (id field : Option Bytes) (value : ℕ) (s : Manager)
      → IsBound s.policy_map
      → Returns (IsStep s) (update_field k env id field value s)
  unfolding update_field
  update_field-IsStep id none value s b = refused-Returns einval s b
  update_field-IsStep id (some field) value s b =
      if-Returns (IsStep s) (bad_id id) _ _ (refused-Returns einval s b) (
        if-Returns (IsStep s) (not env.request_allocated) _ _ (refused-Returns enomem s b)
          (bound-Returns s.policy_map id field value s b b))

-- What a write of `count` bytes leaves. If it does not return the count, the policy that readers see
-- is the one it found, and so are the root's audit list and, but for the error latch, the globals
-- of the commit. If it does, they see the policy it found or one of the next generation.
pub record IsWrite (s : Manager) (count : ℕ) (o : Applied) : Type 0 where
  pub failed :
      o.ret ≢ pos count
      → (effective o.manager ≡ effective s)
        × (o.manager.global_history ≡ s.global_history)
        × Kept s.merkle o.manager.merkle
  pub written :
      (effective o.manager ≡ effective s)
      ⊎ ((next : PolicyState) × (effective o.manager ≡ some next)
          × (next.generation ≡ policy_generation s.policy_map + 1))
  pub bound : IsBound o.manager.policy_map

-- A return value that is the count where the request returned 0.
pub returning-IsWrite :
    (f : ℤ → ℤ) (s : Manager) (count : ℕ) (r : Option Applied)
    → f (pos 0) ≡ pos count
    → Returns (IsStep s) r
    → Returns (IsWrite s count) (returning f r)
returning-IsWrite f s count r z (o, e, step) = (
  record o { ret = f o.ret },
  ap (returning f) e,
  record {
    failed = λ h. step.failed (λ g. h (ap f g ∙ z));
    written =
        elim (is_zero o.ret)
            as (λ b.
              is_zero o.ret ≡ b
              → (effective o.manager ≡ effective s)
                ⊎ ((next : PolicyState) × (effective o.manager ≡ some next)
                    × (next.generation ≡ policy_generation s.policy_map + 1))) [
                      | true ↦ λ g. step.succeeded (is_zero_iff_eq o.ret g)
                      | false ↦ λ g. inl (step.failed (λ h. ground (arith, g, h))).0
                    ]
          refl;
    bound = step.bound;
  },
)

pub refused-IsWrite :
    (e : ℤ) (s : Manager) (count : ℕ)
    → IsBound s.policy_map
    → Returns (IsWrite s count) (some (refused e s))
refused-IsWrite e s count b = (
  refused e s,
  refl,
  record { failed = λ h. (refl, refl, Kept-refl s.merkle); written = inl refl; bound = b },
)

module _ (kstrtou32 : ℕ → Bytes → Result ℕ) (writable : Bool) (k : Kernel) (env : WriteEnv) where
  update_parsed-IsStep :
      (id : Option Bytes) (field value : Bytes) (s : Manager)
      → IsBound s.policy_map
      → Returns (IsStep s) (update_parsed kstrtou32 writable k env id field value s)
  unfolding update_parsed
  update_parsed-IsStep id field value s b =
      elim (kstrtou32 0 value)
        as (λ r. Returns (IsStep s) (elim r as (λ _. Option Applied) [
          | err e ↦ some (refused e s)
          | ok number ↦ update_field k env.apply id (some field) number s
        ])) [
          | err e ↦ refused-Returns e s b
          | ok n ↦ update_field-IsStep k env.apply id (some field) n s b
        ]

  parse_and_update-IsStep :
      (text : Bytes) (id : Option Bytes) (s : Manager)
      → IsBound s.policy_map
      → Returns (IsStep s) (parse_and_update kstrtou32 writable k env text id s)
  unfolding parse_and_update
  parse_and_update-IsStep text id s b =
      if-Returns (IsStep s) (not env.duplicated) _ _ (refused-Returns enomem s b)
        (elim (split_field text)
          as (λ r. Returns (IsStep s) (elim r as (λ _. Option Applied) [
            | none ↦ some (refused einval s)
            | some (field, value) ↦ update_parsed kstrtou32 writable k env id field value s
          ])) [ none ↦ refused-Returns einval s b | some p ↦ update_parsed-IsStep id p.0 p.1 s b ])

  pub policy_update_write-IsWrite :
      (id : Option Bytes) (text : Bytes) (s : Manager)
      → IsBound s.policy_map
      → Returns (IsWrite s (length text)) (policy_update_write kstrtou32 writable k env id text s)
  unfolding policy_update_write
  policy_update_write-IsWrite id text s b =
      let no = λ (e : ℤ). refused-IsWrite e s (length text) b in
      let P = IsWrite s (length text) in
      if-Returns P (not writable) _ _ (no eperm) (
        if-Returns P (ltb max_write (length text)) _ _ (no einval) (
          if-Returns P (not env.allocated) _ _ (no enomem) (
            if-Returns P (not env.copied) _ _ (no efault) (
              if-Returns P (not (is_some id)) _ _ (no einval) (
                returning-IsWrite (or_count (length text)) s (length text)
                  (parse_and_update kstrtou32 writable k env (c_str (chomp text)) id s) refl
                  (parse_and_update-IsStep (c_str (chomp text)) id s b))))))

  pub global_policy_write-IsWrite :
      (text : Bytes) (s : Manager)
      → IsBound s.policy_map
      → Returns (IsWrite s (length text)) (global_policy_write kstrtou32 writable k env text s)
  unfolding global_policy_write
  global_policy_write-IsWrite text s b =
      let no = λ (e : ℤ). refused-IsWrite e s (length text) b in
      let P = IsWrite s (length text) in
      if-Returns P (not writable) _ _ (no eperm) (
        if-Returns P (ltb max_write (length text)) _ _ (no einval) (
          if-Returns P (not env.allocated) _ _ (no enomem) (
            if-Returns P (not env.copied) _ _ (no efault) (
              returning-IsWrite (or_count (length text)) s (length text)
                (parse_and_update kstrtou32 writable k env (c_str (chomp text)) none s) refl
                (parse_and_update-IsStep (c_str (chomp text)) none s b)))))

  pub policy_apply_write-IsWrite :
      (big : Bool) (count : ℕ) (memdup : Result PolicyRequest) (s : Manager)
      → IsBound s.policy_map
      → Returns (IsWrite s count) (policy_apply_write kstrtou32 writable k env big count memdup s)
  unfolding policy_apply_write
  policy_apply_write-IsWrite big count memdup s b =
      let no = λ (e : ℤ). refused-IsWrite e s count b in
      let P = IsWrite s count in
      if-Returns P (not writable || not env.capable) _ _ (no eperm) (
        if-Returns P (not (count == policy_request_size)) _ _ (no einval)
          (elim memdup
            as (λ r. Returns P (elim r as (λ _. Option Applied) [
              | err e ↦ some (refused e s)
              | ok request ↦
                  returning (if_zero_count count)
                    (policy_apply k env.apply (some (decode_request big request)) s)
            ])) [
              | err e ↦ no e
              | ok request ↦
                  returning-IsWrite (if_zero_count count) s count
                    (policy_apply k env.apply (some (decode_request big request)) s) refl
                    (policy_apply-IsStep k env.apply (some (decode_request big request)) s b)
            ]))
