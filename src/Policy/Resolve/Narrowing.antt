-- ===== src/Policy/Resolve/Narrowing.antt =====
-- An accepted namespace configuration filters no event that the root does not filter.
use bpfima.Base.{ℕ, ◌≤◌, bit_and, ◌≡◌, refl, ap, Bool, true, false, ◌&&◌, ◌||◌, arith, pos}
use bpfima.Base.Bits.{and-le-and-or, and_compl_zero, compl32}
use bpfima.Policy.Types.{PolicyConfig, Snapshot, PolicyContext}
use bpfima.Policy.Pattern.Subset.{AllCovered-patterns_match}
use bpfima.Policy.Config.{has_flag}
use bpfima.Policy.Snapshot.{validate_extension, weakens_config}
use bpfima.Policy.Snapshot.Extension.{IsWord, valid-AllCovered}
use bpfima.Policy.Resolve.{filtered, name_filtered, file_filtered}

subset-has_flag :
    (extra root m : ℕ)
    → extra ≤ 0xffff_ffff
    → root ≤ 0xffff_ffff
    → has_flag extra (compl32 root) ≡ false
    → has_flag extra m ≡ true
    → has_flag root m ≡ true
subset-has_flag extra root m p q s h = ground (
  arith,
  and-le-and-or extra root m,
  ap (λ x. bit_and x m) ((and_compl_zero extra root p q (ground arith)).1),
)

-- what the check of the scalar fields leaves
record Narrows (root extra : PolicyConfig) : Type 0 where
  flags : (m : ℕ) → has_flag extra.filter_flags m ≡ true → has_flag root.filter_flags m ≡ true
  size : extra.min_file_size ≤ root.min_file_size

valid-Narrows :
    (root extra : Snapshot)
    → IsWord root.config
    → IsWord extra.config
    → validate_extension root extra ≡ pos 0
    → Narrows root.config extra.config
unfolding validate_extension weakens_config
valid-Narrows root extra rw ew v = record {
  flags = λ m.
      subset-has_flag extra.config.filter_flags root.config.filter_flags m ew.filter_flags
        rw.filter_flags (ground arith);
  size = ground arith;
}

or_mono :
    (a b c d : Bool)
    → (a ≡ true → c ≡ true)
    → (b ≡ true → d ≡ true)
    → (a || b) ≡ true
    → (c || d) ≡ true
or_mono true b c d f g h = ground (arith, f refl)
or_mono false b c d f g h = ground (arith, g h)

and_mono : (a b x : Bool) → (a ≡ true → b ≡ true) → (a && x) ≡ true → (b && x) ≡ true
and_mono true b x f h = ground (arith, f refl)
and_mono false b x f h = cc

name_filtered_mono :
    (root extra : PolicyConfig) (context : PolicyContext)
    → Narrows root extra
    → name_filtered extra context ≡ true
    → name_filtered root context ≡ true
unfolding name_filtered
name_filtered_mono root extra context n h =
    or_mono _ _ _ _
      (or_mono _ _ _ _ (or_mono _ _ _ _ (and_mono _ _ _ (n.flags 1)) (and_mono _ _ _ (n.flags 2)))
        (and_mono _ _ _ (n.flags 4)))
      (and_mono _ _ _ (n.flags 128)) h

file_filtered_mono :
    (root extra : PolicyConfig) (context : PolicyContext)
    → Narrows root extra
    → file_filtered extra context ≡ true
    → file_filtered root context ≡ true
unfolding file_filtered
file_filtered_mono root extra context n h =
    ground (arith, n.flags 16, n.flags 8, n.flags 32, n.flags 64, n.size)

-- For snapshots whose flag words fit their C types and whose switch is 0 or 1, a namespace that
-- `validate_extension` accepts filters only events that the root filters too: by its patterns, by
-- its flags and by its size limit.
pub valid-filtered :
    (root extra : Snapshot) (context : PolicyContext)
    → IsWord root.config
    → IsWord extra.config
    → validate_extension root extra ≡ pos 0
    → filtered extra context ≡ true
    → filtered root context ≡ true
unfolding filtered
valid-filtered root extra context rw ew v h =
    let n = valid-Narrows root extra rw ew v in
    let (cgroups, paths) = valid-AllCovered root extra v in
    ground (
      arith,
      AllCovered-patterns_match extra.cgroups root.cgroups context.cgroup cgroups,
      AllCovered-patterns_match extra.paths root.paths context.path paths,
      name_filtered_mono root.config extra.config context n,
      file_filtered_mono root.config extra.config context n,
    )
