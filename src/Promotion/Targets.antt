-- ===== src/Promotion/Targets.antt =====
-- `enrichment_targets.mjs`: which trends a promotion run sends to the enrichment chain.
pub mod Window
pub mod Union
use trend_tree.Prelude.{
  ℕ, zero, suc, ◌+◌, ◌*◌, ◌-◌, ◌%◌, List, [], ◌∷◌, ◌++◌, map, Option, none, some, Bool, true, false,
  not, ◌&&◌, ◌||◌, Text, lit, text_eq, is_empty, any, filter, take, leb, ltb, if◌then◌else◌,
}

-- In minutes: the source counts in hours, minutes divided by 60.
abbrev pub retry_first : ℕ
retry_first = 360

abbrev pub retry_period : ℕ
retry_period = 1440

abbrev pub retry_window : ℕ
retry_window = 180

abbrev pub max_retries_per_run : ℕ
max_retries_per_run = 5

-- `HOURS_SINCE_PROMOTED`: missing or not a finite number, or the minutes from the promotion, where
-- an instant before it counts as the promotion itself.
pub data Age : Type 0 where
  no_age : Age
  minutes : ℕ → Age

unfoldable pub is_retry_due : Age → Bool
is_retry_due no_age = false
is_retry_due (minutes m) =
    if ltb m retry_first then false else ltb ((m - retry_first) % retry_period) retry_window

-- One entry of the promotion procedure's results; a missing field is empty.
pub record Applied : Type 0 where
  pub status : Text
  pub decision : Text
  pub target_trend_id : Text

unfoldable pub is_promoted : Applied → Bool
is_promoted r =
    text_eq r.status (lit "ok")
    && text_eq r.decision (lit "PROMOTE_NEW")
    && not (is_empty r.target_trend_id)

-- The results that cannot be read are none.
unfoldable pub extract_promoted_trend_ids : Option (List Applied) → List Text
extract_promoted_trend_ids none = []
extract_promoted_trend_ids (some rs) = map (λ r. r.target_trend_id) (filter is_promoted rs)

pub record UnenrichedRow : Type 0 where
  pub trend_id : Text
  pub age : Age

unfoldable pub is_due : UnenrichedRow → Bool
is_due r = not (is_empty r.trend_id) && is_retry_due r.age

unfoldable pub select_retry_trend_ids : List UnenrichedRow → ℕ → Bool → List Text
select_retry_trend_ids rows iteration dry_run =
    if ltb 1 iteration
    then []
    else if dry_run
    then []
    else take max_retries_per_run (map (λ r. r.trend_id) (filter is_due rows))

pub data Reason : Type 0 where
  promoted retry : Reason

pub record Target : Type 0 where
  pub trend_id : Text
  pub reason : Reason

pub record Targets : Type 0 where
  pub seen : List Text
  pub targets : List Target

-- The inner loop over the ids of one reason.
unfoldable pub add_targets : Reason → List Text → Targets → Targets
add_targets reason [] t = t
add_targets reason (id ∷ ids) t =
    if any (text_eq id) t.seen
    then add_targets reason ids t
    else add_targets reason ids (record {
      seen = id ∷ t.seen;
      targets = t.targets ++ record { trend_id = id; reason = reason } ∷ [];
    })

unfoldable pub build_dispatch_targets : List Text → List Text → List Target
build_dispatch_targets promoted_ids retry_ids =
    (add_targets retry retry_ids
      (add_targets promoted promoted_ids (record { seen = []; targets = [] }))).targets
