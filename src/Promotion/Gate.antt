-- ===== src/Promotion/Gate.antt =====
-- `classifyCandidate`: how a candidate is routed by its source families and its two scores.
pub mod Routes
pub mod Flags
use trend_tree.Prelude.{
  ℕ, ◌+◌, List, [], ◌∷◌, ◌++◌, map, Option, none, some, Bool, true, false, ◌&&◌, ◌||◌, Text, lit,
  text_eq, starts_with, Double, of_bits, lt_double, ge_double, zero_double, any, length, leb,
  if◌then◌else◌,
}

-- `min_confidence` and `min_specificity`, 0.5
unfoldable pub tau : Double
unfolding of_bits
tau = of_bits 0x3fe0000000000000

-- `toLowerCase`, of an ASCII unit
abbrev pub lower_unit : ℕ → ℕ
lower_unit c = if leb b'A' c && leb c b'Z' then c + 32 else c

abbrev pub to_lower : Text → Text
to_lower = map lower_unit

abbrev pub amazon : Text
amazon = lit "amazon"

abbrev pub google_trends : Text
google_trends = lit "google_trends"

-- The branches after the first give back `s` itself where they test for equality.
unfoldable pub family_of_lower : Text → Text
family_of_lower s =
    if starts_with s amazon
    then amazon
    else if text_eq s (lit "agent_gemini_discovery")
    then lit "agent_gemini_discovery"
    else if text_eq s (lit "agent_grok_discovery")
    then lit "agent_grok_discovery"
    else if text_eq s (lit "agent_chatgpt_discovery")
    then lit "agent_chatgpt_discovery"
    else if starts_with s google_trends
    then google_trends
    else if text_eq s (lit "wikimedia")
    then lit "wikimedia"
    else s

unfoldable pub source_family_of : Text → Text
source_family_of name = family_of_lower (to_lower name)

-- `families.add(f)`, in insertion order
unfoldable pub add_family : List Text → Text → List Text
add_family fs f = if any (text_eq f) fs then fs else fs ++ f ∷ []

-- The loop over the keys, from the families so far.
unfoldable pub collect_families : List Text → List Text → List Text
collect_families fs [] = fs
collect_families fs (k ∷ ks) = collect_families (add_family fs (source_family_of k)) ks

-- The keys of a missing breakdown are none.
unfoldable pub distinct_source_families : List Text → List Text
distinct_source_families keys = collect_families [] keys

pub record Candidate : Type 0 where
  pub source_breakdown : List Text
  pub confidence : Option Double
  pub specificity_score : Option Double

pub data Flag : Type 0 where
  low_confidence low_specificity : Double → Flag

-- `n ?? 0`
abbrev pub or_zero : Option Double → Double
or_zero none = zero_double
or_zero (some n) = n

abbrev flag_if : Bool → Flag → List Flag
flag_if true f = f ∷ []
flag_if false f = []

unfoldable pub quality_flags : Candidate → List Flag
quality_flags c =
    flag_if (lt_double (or_zero c.confidence) tau) (low_confidence (or_zero c.confidence))
    ++ flag_if (lt_double (or_zero c.specificity_score) tau)
        (low_specificity (or_zero c.specificity_score))

pub data Action : Type 0 where
  route_normal route_et_rescue reject : Action

-- The families stand for the reason, whose text lists them with the scores.
pub record Classification : Type 0 where
  pub action : Action
  pub families : List Text
  pub flags : List Flag
  pub source_families : ℕ

-- Both scores reach their threshold.
unfoldable pub reaches_tau : Candidate → Bool
reaches_tau c = ge_double (or_zero c.confidence) tau && ge_double (or_zero c.specificity_score) tau

unfoldable pub action_of : List Text → Candidate → Action
action_of families c =
    if leb 2 (length families)
    then route_normal
    else if reaches_tau c
    then route_et_rescue
    else reject

unfoldable pub classify_candidate : Candidate → Classification
classify_candidate c =
    let families = distinct_source_families c.source_breakdown in
    record {
      action = action_of families c;
      families = families;
      flags = quality_flags c;
      source_families = length families;
    }
