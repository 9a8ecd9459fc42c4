-- ===== src/Policy/Pattern.antt =====
-- Patterns of include/bpfima_policy_defaults.h: matching, and the subset check by which a
-- namespace's patterns are held to the root's.
pub mod Subset
use bpfima.Base.{
  ℕ, Bool, true, false, ◌||◌, List, [], ◌∷◌, arith, ◌==◌, if◌then◌else◌, Bytes, bytes_eq, c_str,
  is_empty_str, starts_with, ends_with, contains,
}
use bpfima.Policy.Types.{PatternEntry}

-- `switch (entry->match_type)`: 0 exact, 1 prefix, 2 suffix, 3 contains.
unfoldable pub match_by : ℕ → Bytes → Bytes → Bool
match_by match_type pattern text =
    if match_type == 0
    then bytes_eq text pattern
    else if match_type == 1
    then starts_with pattern text
    else if match_type == 2
    then ends_with pattern text
    else if match_type == 3
    then contains pattern text
    else false

-- `bpfima_pattern_matches`, on the buffer that `text` points to.
unfoldable pub pattern_matches : PatternEntry → Bytes → Bool
pattern_matches entry text =
    if (entry.enabled == 0) || is_empty_str text
    then false
    else match_by entry.match_type (c_str entry.pattern) (c_str text)

-- `bpfima_pattern_is_subset`
unfoldable pub pattern_is_subset : PatternEntry → PatternEntry → Bool
pattern_is_subset extra root =
    if extra.enabled == 0
    then true
    else if root.enabled == 0
    then false
    else if extra.match_type == 0
    then pattern_matches root extra.pattern
    else if extra.match_type == root.match_type
    then (if extra.match_type == 1
        then starts_with (c_str root.pattern) (c_str extra.pattern)
        else if extra.match_type == 2
        then ends_with (c_str root.pattern) (c_str extra.pattern)
        else if extra.match_type == 3
        then contains (c_str root.pattern) (c_str extra.pattern)
        else false)
    else false

-- `patterns_match` of policy_manager.c
unfoldable pub patterns_match : List PatternEntry → Bytes → Bool
patterns_match [] text = false
patterns_match (e ∷ es) text = if pattern_matches e text then true else patterns_match es text

-- The inner loop of `validate_extension` and `rebase_extension` over the root's patterns.
unfoldable pub in_base : PatternEntry → List PatternEntry → Bool
in_base entry [] = false
in_base entry (b ∷ bs) = if pattern_is_subset entry b then true else in_base entry bs

-- A pattern that the root covers: disabled, or in the set of one of the root's patterns.
unfoldable pub covered : PatternEntry → List PatternEntry → Bool
covered entry base = if entry.enabled == 0 then true else in_base entry base
