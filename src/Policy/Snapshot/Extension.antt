-- ===== src/Policy/Snapshot/Extension.antt =====
-- What an accepted namespace configuration guarantees, and that a rebased one is accepted.
use bpfima.Base.{◌≤◌, ◌≡◌, refl, inl, inr, true, false, List, [], ◌∷◌, arith, Bool-cases, All, pos}
use bpfima.Base.Bits.{and_compl_zero, and-and_compl, and-or_compl, le-or, or-le, or_comm, or_of_le}
use bpfima.Policy.Types.{PolicyConfig, PatternEntry, HookConfig, Snapshot}
use bpfima.Policy.Pattern.{covered}
use bpfima.Policy.Pattern.Subset.{AllCovered}
use bpfima.Policy.Config.{merge_with, zero_pattern}
use bpfima.Policy.Snapshot.{
  weakens_config, weakens_hooks, all_covered, validate_extension, rebase_hooks, rebase_patterns,
  rebase_extension,
}

-- The fields are words of the sizes that the C types have, and `enabled` is a switch.
pub record IsWord (c : PolicyConfig) : Type 0 where
  pub enabled : c.enabled ≤ 1
  pub filter_flags : c.filter_flags ≤ 0xffff_ffff
  pub action_flags : c.action_flags ≤ 0xffff_ffff

-- For configurations whose fields fit their C types and whose reserved words agree, an accepted
-- namespace configuration is in force as it was written: merged with the root's, it gives itself.
pub merge_with-of_valid :
    (root extra : Snapshot)
    → IsWord root.config
    → IsWord extra.config
    → root.config.reserved ≡ extra.config.reserved
    → validate_extension root extra ≡ pos 0
    → merge_with root.config extra.config ≡ extra.config
unfolding validate_extension weakens_config merge_with
merge_with-of_valid root extra rw ew same v = ground (
  arith,
  or_of_le root.config.enabled extra.config.enabled,
  and_compl_zero extra.config.filter_flags root.config.filter_flags ew.filter_flags rw.filter_flags,
  and_compl_zero root.config.action_flags extra.config.action_flags rw.action_flags ew.action_flags,
)

all_covered-AllCovered :
    (es base : List PatternEntry) → all_covered es base ≡ true → AllCovered es base
unfolding all_covered
all_covered-AllCovered [] base h = tt
all_covered-AllCovered (e ∷ es) base h =
    (ground arith, all_covered-AllCovered es base (ground arith))

-- An accepted namespace skips nothing by its patterns that the root's patterns do not skip.
pub valid-AllCovered :
    (root extra : Snapshot)
    → validate_extension root extra ≡ pos 0
    → AllCovered extra.cgroups root.cgroups × AllCovered extra.paths root.paths
unfolding validate_extension
valid-AllCovered root extra v = (
  all_covered-AllCovered extra.cgroups root.cgroups (ground arith),
  all_covered-AllCovered extra.paths root.paths (ground arith),
)

zero_covered : (base : List PatternEntry) → covered zero_pattern base ≡ true
unfolding covered
zero_covered base = refl

all_covered-rebase_patterns :
    (base es : List PatternEntry) → all_covered (rebase_patterns base es) base ≡ true
unfolding all_covered rebase_patterns
all_covered-rebase_patterns base [] = refl
all_covered-rebase_patterns base (e ∷ es) = elim (Bool-cases (covered e base)) [
  | inl c ↦ rw (c, c) (all_covered-rebase_patterns base es)
  | inr n ↦ rw (n, zero_covered base) (all_covered-rebase_patterns base es)
]

-- Hook flags are words.
abbrev pub HookWord : HookConfig → Type 0
HookWord h = h.flags ≤ 0xffff_ffff

weakens_hooks-rebase_hooks :
    (rs es : List HookConfig)
    → All HookWord rs
    → All HookWord es
    → weakens_hooks rs (rebase_hooks rs es) ≡ false
unfolding weakens_hooks rebase_hooks
weakens_hooks-rebase_hooks [] es p q = refl
weakens_hooks-rebase_hooks (r ∷ rs) [] p q = refl
weakens_hooks-rebase_hooks (r ∷ rs) (e ∷ es) p q = ground (
  arith,
  or_comm e.flags r.flags q.0 p.0,
  or-le r.flags e.flags p.0 q.0,
  and-or_compl r.flags e.flags,
  weakens_hooks-rebase_hooks rs es p.1 q.1,
)

weakens_config-merge_with :
    (root extra : PolicyConfig)
    → IsWord root
    → IsWord extra
    → weakens_config root (merge_with root extra) ≡ false
unfolding weakens_config merge_with
weakens_config-merge_with root extra rw ew = ground (
  arith,
  le-or root.enabled extra.enabled,
  and-and_compl root.filter_flags extra.filter_flags rw.filter_flags,
  or-le root.action_flags extra.action_flags rw.action_flags ew.action_flags,
  and-or_compl root.action_flags extra.action_flags,
)

-- For snapshots whose flag words fit their C types and whose switch is 0 or 1, a namespace rebased
-- on the root is one that `validate_extension` accepts.
pub validate_extension-rebase_extension :
    (root extra : Snapshot)
    → IsWord root.config
    → IsWord extra.config
    → All HookWord root.hooks
    → All HookWord extra.hooks
    → validate_extension root (rebase_extension root extra) ≡ pos 0
unfolding validate_extension rebase_extension
validate_extension-rebase_extension root extra rw ew rh eh = ground (
  arith,
  weakens_config-merge_with root.config extra.config rw ew,
  weakens_hooks-rebase_hooks root.hooks extra.hooks rh eh,
  all_covered-rebase_patterns root.cgroups extra.cgroups,
  all_covered-rebase_patterns root.paths extra.paths,
)
