-- ===== src/Policy/Resolve/Coverage.antt =====
-- A namespace's policy cannot take away what the root's policy measures.
use bpfima.Base.{ℕ, bit_and, bit_or, ◌≡◌, ap, true, false, none, some, arith, get_or}
use bpfima.Base.Bits.{and-le-and-or, le-or, or-zero}
use bpfima.Policy.Types.{Snapshot, PolicyContext}
use bpfima.Policy.Config.{has_flag, hook_with, merge_config, merge_with}
use bpfima.Policy.Resolve.{skips, hook_flags}

or-has_flag : (a b m : ℕ) → has_flag (bit_or a b) m ≡ false → has_flag (bit_or a 0) m ≡ false
or-has_flag a b m h = ground (arith, ap (λ x. bit_and x m) (or-zero a), and-le-and-or a b m)

-- An event that is skipped under a namespace's policy, whatever that policy is, is skipped under
-- the root's policy alone: a namespace can add measurements and never remove one.
pub skips-with_namespace :
    (root extra : Snapshot) (context : PolicyContext)
    → skips root (some extra) context ≡ true
    → skips root none context ≡ true
unfolding skips hook_flags merge_config merge_with
skips-with_namespace root extra context h = ground (
  arith,
  le-or root.config.enabled extra.config.enabled,
  or-has_flag (get_or root.hooks context.hook (hook_with 0)).flags
      (get_or extra.hooks context.hook (hook_with 0)).flags 1,
  or-has_flag (get_or root.hooks context.hook (hook_with 0)).flags
      (get_or extra.hooks context.hook (hook_with 0)).flags 4,
)
