-- ===== src/Policy/Securityfs/Files.antt =====
-- The four files of src/policy_securityfs.c that the policy is written to, by their
-- `file_operations`, and any sequence of writes to them.
use bpfima.Base.{
  ℕ, ◌≤◌, ◌≡◌, refl, sym, ap, ◌∙◌, inl, inr, Bool, Option, none, some, List, [], ◌∷◌, map, arith,
  length, Bytes,
}
use bpfima.Base.Result.{Result}
use bpfima.Hash.{Kernel}
use bpfima.Policy.Types.{PolicyRequest, PolicyState}
use bpfima.Policy.Manager.{BpfMap, Manager, active_state, policy_generation}
use bpfima.Policy.Manager.Apply.{Applied}
use bpfima.Policy.Manager.Bind.{BindEnv}
use bpfima.Policy.Securityfs.Map.{written_of, policy_map_write-IsWrite}
use bpfima.Policy.Manager.Active.{effective, IsBound}
use bpfima.Policy.Securityfs.{
  WriteEnv, policy_update_write, global_policy_write, policy_apply_write, policy_map_write,
}
use bpfima.Policy.Securityfs.Write.{
  Returns, IsWrite, policy_update_write-IsWrite, global_policy_write-IsWrite,
  policy_apply_write-IsWrite,
}

-- A write to a file that changes the policy, with what it meets outside: `policy` of a namespace,
-- `policy` of the root, `policy_apply`, and `policy_map`, with the capability, the copy from
-- userspace and the maps that `bpf_map_get` finds.
pub data Write : Type 0 where
  policy_fops : WriteEnv → Option Bytes → Bytes → Write
  global_policy_fops : WriteEnv → Bytes → Write
  policy_apply_fops : WriteEnv → ℕ → Result PolicyRequest → Write
  policy_map_fops : (ℕ → Result BpfMap) → Bool → Bool → BindEnv → Bytes → Write

module _ (kstrtou32 : ℕ → Bytes → Result ℕ) (writable : Bool) (k : Kernel) (big : Bool) where
  -- The handler of the file.
  unfoldable pub write : Write → Manager → Option Applied
  write (policy_fops env id text) s = policy_update_write kstrtou32 writable k env id text s
  write (global_policy_fops env text) s = global_policy_write kstrtou32 writable k env text s
  write (policy_apply_fops env count memdup) s =
      policy_apply_write kstrtou32 writable k env big count memdup s
  write (policy_map_fops map_get capable copied env text) s =
      some (written_of (policy_map_write kstrtou32 k map_get capable copied env text s))

  -- The state behind a write, and what is written next.
  abbrev next_write : (Manager → Option Manager) → Option Applied → Option Manager
  next_write rest none = none
  next_write rest (some o) = rest o.manager

  -- One write behind the other, whatever they return.
  unfoldable pub writes : List Write → Manager → Option Manager
  writes [] s = some s
  writes (w ∷ ws) s = next_write (writes ws) (write w s)

abbrev pub count_of : Write → ℕ
count_of (policy_fops env id text) = length text
count_of (global_policy_fops env text) = length text
count_of (policy_apply_fops env count memdup) = count
count_of (policy_map_fops map_get capable copied env text) = length text

abbrev generation_of : Option PolicyState → ℕ
generation_of none = 0
generation_of (some state) = state.generation

effective-generation :
    (m : Manager)
    → IsBound m.policy_map
    → generation_of (effective m) ≡ policy_generation m.policy_map
unfolding effective policy_generation
effective-generation m b =
    elim m.policy_map
        as (λ o.
          IsBound o
          → generation_of
              (elim o as (λ _. Option PolicyState) [ none ↦ none | some map ↦ active_state map ])
            ≡ policy_generation o) [
              | none ↦ λ b. refl
              | some map ↦ λ (state, a). ap generation_of a.active ∙ a.generation
            ]
      b

-- A write never lowers the generation.
IsWrite-generation :
    (s : Manager) (count : ℕ) (o : Applied)
    → IsBound s.policy_map
    → IsWrite s count o
    → policy_generation s.policy_map ≤ policy_generation o.manager.policy_map
IsWrite-generation s count o b w =
    let after = effective-generation o.manager w.bound in
    elim w.written [
      | inl e ↦ omega (arith, sym after ∙ ap generation_of e ∙ effective-generation s b)
      | inr (next, e, g) ↦ omega (arith, sym after ∙ ap generation_of e, g)
    ]

module _ (kstrtou32 : ℕ → Bytes → Result ℕ) (writable : Bool) (k : Kernel) (big : Bool) where
  -- A write to `policy` of the root or of a namespace, to `policy_apply` or to `policy_map`, whatever
  -- it holds and whichever map it names, never makes the module read a NULL state, with a
  -- well-formed bound map or with none. If it does not return the count of its bytes, the policy
  -- that readers see is the one it found, and so are the root's audit list and, but for the error
  -- latch, the globals of the commit. If it does, they see the policy it found or one of the next
  -- generation. The map stays well-formed.
  pub write-IsWrite :
      (w : Write) (s : Manager)
      → IsBound s.policy_map
      → Returns (IsWrite s (count_of w)) (write kstrtou32 writable k big w s)
  unfolding write
  write-IsWrite (policy_fops env id text) s b =
      policy_update_write-IsWrite kstrtou32 writable k env id text s b
  write-IsWrite (global_policy_fops env text) s b =
      global_policy_write-IsWrite kstrtou32 writable k env text s b
  write-IsWrite (policy_apply_fops env count memdup) s b =
      policy_apply_write-IsWrite kstrtou32 writable k env big count memdup s b
  write-IsWrite (policy_map_fops map_get capable copied env text) s b =
      policy_map_write-IsWrite kstrtou32 k map_get capable copied env text s b

  -- Any sequence of writes to the files `policy`, of the root or of namespaces, `policy_apply` and
  -- `policy_map`, from a well-formed bound map or none, ends in a
  -- state with a well-formed map or none, whose generation is at least the one before: no write
  -- takes the policy back to an earlier generation.
  pub writes-policy_generation :
      (ws : List Write) (s : Manager)
      → IsBound s.policy_map
      → (t : Manager) × (writes kstrtou32 writable k big ws s ≡ some t)
        × IsBound t.policy_map
        × (policy_generation s.policy_map ≤ policy_generation t.policy_map)
  unfolding writes
  writes-policy_generation [] s b = (s, refl, b, omega arith)
  writes-policy_generation (w ∷ ws) s b =
      let (o, e, step) = write-IsWrite w s b in
      let (t, f, c, g) = writes-policy_generation ws o.manager step.bound in
      (
        t,
        ap (next_write kstrtou32 writable k big (writes kstrtou32 writable k big ws)) e ∙ f,
        c,
        omega (arith, g, IsWrite-generation s (count_of w) o b step),
      )
