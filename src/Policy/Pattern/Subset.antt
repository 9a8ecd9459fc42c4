-- ===== src/Policy/Pattern/Subset.antt =====
-- The subset check is sound: what a covered pattern matches, the root's patterns match.
use bpfima.Base.{
  ◌≡◌, inl, inr, true, false, List, [], ◌∷◌, arith, ◌==◌, Bool-cases, All, Bytes, bytes_eq,
  bytes_eq-eq, c_str, is_empty_str, starts_with_trans, contains_trans, ends_with_trans,
}
use bpfima.Policy.Types.{PatternEntry}
use bpfima.Policy.Pattern.{
  match_by, pattern_matches, pattern_is_subset, patterns_match, in_base, covered,
}

exact_lem :
    (extra root : PatternEntry) (text : Bytes)
    → pattern_matches root extra.pattern ≡ true
    → is_empty_str text ≡ false
    → bytes_eq (c_str text) (c_str extra.pattern) ≡ true
    → pattern_matches root text ≡ true
unfolding pattern_matches
exact_lem extra root text h ne e =
    let same = bytes_eq-eq (c_str text) (c_str extra.pattern) e in ground arith

-- Patterns of one kind, the root's in the other's.
same_kind :
    (extra root : PatternEntry) (text : Bytes)
    → pattern_is_subset extra root ≡ true
    → (extra.match_type == 0) ≡ false
    → pattern_matches extra text ≡ true
    → pattern_matches root text ≡ true
unfolding pattern_is_subset pattern_matches match_by
same_kind extra root text h n m = ground (
  arith,
  starts_with_trans (c_str root.pattern) (c_str extra.pattern) (c_str text),
  ends_with_trans (c_str root.pattern) (c_str extra.pattern) (c_str text),
  contains_trans (c_str root.pattern) (c_str extra.pattern) (c_str text),
)

exact_text :
    (extra : PatternEntry) (text : Bytes)
    → (extra.match_type == 0) ≡ true
    → pattern_matches extra text ≡ true
    → ((extra.enabled == 0) ≡ false)
      × (is_empty_str text ≡ false)
      × (bytes_eq (c_str text) (c_str extra.pattern) ≡ true)
unfolding pattern_matches match_by
exact_text extra text z m = ground arith

exact_kind :
    (extra root : PatternEntry) (text : Bytes)
    → pattern_is_subset extra root ≡ true
    → (extra.match_type == 0) ≡ true
    → pattern_matches extra text ≡ true
    → pattern_matches root text ≡ true
exact_kind extra root text h z m =
    let (on, nonempty, same) = exact_text extra text z m in
    exact_lem extra root text (unfold pattern_is_subset in ground arith) nonempty same

-- If the check accepts a pair of patterns, every text that the first matches the second matches.
pub pattern_is_subset-pattern_matches :
    (extra root : PatternEntry) (text : Bytes)
    → pattern_is_subset extra root ≡ true
    → pattern_matches extra text ≡ true
    → pattern_matches root text ≡ true
pattern_is_subset-pattern_matches extra root text h m = elim (Bool-cases (extra.match_type == 0)) [
  | inl z ↦ exact_kind extra root text h z m
  | inr n ↦ same_kind extra root text h n m
]

in_base-patterns_match :
    (extra : PatternEntry) (base : List PatternEntry) (text : Bytes)
    → in_base extra base ≡ true
    → pattern_matches extra text ≡ true
    → patterns_match base text ≡ true
unfolding in_base patterns_match
in_base-patterns_match extra [] text h m = cc
in_base-patterns_match extra (b ∷ bs) text h m =
    ground
      (arith, pattern_is_subset-pattern_matches extra b text, in_base-patterns_match extra bs text)

abbrev pub AllCovered : List PatternEntry → List PatternEntry → Type 0
AllCovered es base = All (λ e. covered e base ≡ true) es

disabled_lem :
    (e : PatternEntry) (text : Bytes) → (e.enabled == 0) ≡ true → pattern_matches e text ≡ false
unfolding pattern_matches
disabled_lem e text h = ground arith

-- Where every pattern of a list is covered by the root's patterns, a text that the list matches is
-- matched by the root's patterns.
pub AllCovered-patterns_match :
    (es base : List PatternEntry) (text : Bytes)
    → AllCovered es base
    → patterns_match es text ≡ true
    → patterns_match base text ≡ true
unfolding patterns_match covered
AllCovered-patterns_match [] base text c m = cc
AllCovered-patterns_match (e ∷ es) base text c m = ground (
  arith,
  in_base-patterns_match e base text,
  AllCovered-patterns_match es base text c.1,
  disabled_lem e text,
  c.0,
)
