-- ===== src/Promotion/Verdict.antt =====
-- `resolveDistillationVerdict`: the two shapes of a duplicate verdict brought into one.
pub mod Shapes
use trend_tree.Prelude.{
  ℕ, List, [], ◌∷◌, ◌++◌, Option, none, some, Bool, true, false, not, ◌&&◌, ◌||◌, Text, lit,
  text_eq, starts_with, is_empty, trim, drop, length, is_short_id, if◌then◌else◌,
}

abbrev pub duplicate_of : Text
duplicate_of = lit "DUPLICATE_OF"

abbrev pub duplicate_of_prefix : Text
duplicate_of_prefix = lit "DUPLICATE_OF_"

abbrev pub unknown_target : Text
unknown_target = lit "UNKNOWN"

-- `ALLOWED_VERDICTS.has(v)`
unfoldable pub is_allowed : Text → Bool
is_allowed v =
    text_eq v (lit "REAL_TREND") || text_eq v (lit "NOISE") || text_eq v (lit "CATEGORY_TOO_BROAD")

unfoldable pub sanitize_id : Text → Text
sanitize_id s = if is_short_id 64 s then s else []

pub data Fault : Type 0 where
  missing_verdict : Fault
  unknown_verdict : Text → Fault

pub record Verdict : Type 0 where
  pub verdict : Text
  pub is_duplicate_of : Bool
  pub dedup_target : Option Text
  pub prompt_verdict : Text

pub data Resolved : Type 0 where
  refused : Fault → Resolved
  resolved : Verdict → Resolved

unfoldable pub is_duplicate : Text → Bool
is_duplicate raw = text_eq raw duplicate_of || starts_with raw duplicate_of_prefix

unfoldable pub suffix_of : Text → Text
suffix_of raw =
    if starts_with raw duplicate_of_prefix then drop (length duplicate_of_prefix) raw else []

-- `a || b || null`
abbrev pub first_of : Text → Text → Option Text
first_of [] [] = none
first_of [] (c ∷ b) = some (c ∷ b)
first_of (c ∷ a) b = some (c ∷ a)

unfoldable pub target_of : Text → Text → Option Text
target_of raw dedup_target = first_of (sanitize_id dedup_target) (sanitize_id (suffix_of raw))

-- `target || UNKNOWN_TARGET`
abbrev pub or_unknown : Option Text → Text
or_unknown none = unknown_target
or_unknown (some t) = t

unfoldable pub resolve_raw : Text → Text → Resolved
resolve_raw raw dedup_target =
    if is_empty raw
    then refused missing_verdict
    else if is_duplicate raw
    then resolved (record {
      verdict = raw;
      is_duplicate_of = true;
      dedup_target = target_of raw dedup_target;
      prompt_verdict = duplicate_of_prefix ++ or_unknown (target_of raw dedup_target);
    })
    else if is_allowed raw
    then resolved (record {
      verdict = raw;
      is_duplicate_of = false;
      dedup_target = none;
      prompt_verdict = raw;
    })
    else refused (unknown_verdict raw)

-- A missing verdict or target is empty.
unfoldable pub resolve_distillation_verdict : Text → Text → Resolved
resolve_distillation_verdict verdict dedup_target = resolve_raw (trim verdict) dedup_target
