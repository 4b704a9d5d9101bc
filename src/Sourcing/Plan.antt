-- ===== src/Sourcing/Plan.antt =====
-- `buildSourcingRunPlan`: from the pool and the selector's emission to the rows of the ledger.
pub mod Picks
pub mod Rows
pub mod Selected
use trend_tree.Prelude.{
  ℕ, ◌+◌, ◌-◌, List, [], ◌∷◌, ◌++◌, map, Option, none, some, Bool, true, false, not, ◌&&◌, ◌||◌,
  Text, lit, text_eq, is_empty, trim, Double, any, length, take, ltb, ◌==◌, if◌then◌else◌,
}
use trend_tree.Sourcing.Pool.{Entry, Details, apply_floor_and_top_n}

abbrev pub max_sourced_products : ℕ
max_sourced_products = 5

abbrev pub rationale_max_chars : ℕ
rationale_max_chars = 400

-- The selector's emission: a missing field is the empty text or list.
pub record Pick : Type 0 where
  pub catalog_product_id : Text
  pub reasoned_fit : Text
  pub rationale : Text

pub record Emission : Type 0 where
  pub outcome : Text
  pub picks : List Pick
  pub pool_note : Text

pub data Warning : Type 0 where
  hallucinated_pick : Text → Warning
  invalid_reasoned_fit : Text → Text → Warning
  duplicate_pick : Text → Warning
  picks_exceeded_slots : ℕ → Warning

pub data Failure : Type 0 where
  no_usable_emission : Failure
  invalid_outcome : Text → Failure
  empty_picks : Failure
  every_pick_invalid : List Warning → Failure
  no_enrichment_vector : Text → Failure

pub data Outcome : Type 0 where
  matched no_match failed : Outcome

pub record CandidateRow : Type 0 where
  pub catalog_product_id : Text
  pub details : Details
  pub semantic_score : Double
  pub selected : Bool
  pub reasoned_fit : Option Text
  pub reasoned_fit_rationale : Option Text

pub record Plan : Type 0 where
  pub outcome : Outcome
  pub selector_note : Option Text
  pub error_message : Option Failure
  pub candidates : List CandidateRow
  pub warnings : List Warning

unfoldable pub empty_pool_note : Text
empty_pool_note =
    lit "Retrieval found zero candidates at or above the similarity floor in the active catalog."

unfoldable pub no_candidate_note : Text
no_candidate_note = lit "Selector found no candidate serving the trend."

-- `VALID_REASONED_FIT.has(fit)`
unfoldable pub is_valid_fit : Text → Bool
is_valid_fit fit =
    text_eq fit (lit "strong") || text_eq fit (lit "partial") || text_eq fit (lit "weak")

unfoldable pub trim_rationale : Text → Text
trim_rationale raw = take rationale_max_chars (trim raw)

-- `poolById.has(id)`
unfoldable pub in_pool : List Entry → Text → Bool
in_pool pool id = any (λ c. text_eq c.catalog_product_id id) pool

pub record Screened : Type 0 where
  pub picks : List Pick
  pub warnings : List Warning

abbrev pub warn : Warning → Screened → Screened
warn w s = record s { warnings = w ∷ s.warnings }

abbrev pub keep : Pick → Screened → Screened
keep p s = record s { picks = p ∷ s.picks }

-- The loop over the raw picks. What it keeps has its rationale trimmed.
unfoldable pub screen : List Entry → List Pick → Screened
screen pool [] = record { picks = []; warnings = [] }
screen pool (p ∷ ps) =
    let rest = screen pool ps in
    let id = p.catalog_product_id in
    if is_empty id || not (in_pool pool id)
    then warn (hallucinated_pick id) rest
    else if not (is_valid_fit p.reasoned_fit)
    then warn (invalid_reasoned_fit id p.reasoned_fit) rest
    else keep (record p { rationale = trim_rationale p.rationale }) rest

-- The loop that keeps the first pick of each id; `seen` holds the ids so far.
unfoldable pub dedupe : List Text → List Pick → Screened
dedupe seen [] = record { picks = []; warnings = [] }
dedupe seen (p ∷ ps) =
    let id = p.catalog_product_id in
    elim (any (text_eq id) seen) [
      | true ↦ warn (duplicate_pick id) (dedupe seen ps)
      | false ↦ keep p (dedupe (id ∷ seen) ps)
    ]

-- At most `slots` picks.
unfoldable pub fit_slots : ℕ → List Pick → Screened
fit_slots slots picks =
    if ltb slots (length picks)
    then record {
      picks = take slots picks;
      warnings = picks_exceeded_slots (length picks - slots) ∷ [];
    }
    else record { picks = picks; warnings = [] }

-- The three loops, with their warnings in order.
unfoldable pub choose : ℕ → List Entry → List Pick → Screened
choose slots pool raw =
    let valid = screen pool raw in
    let once = dedupe [] valid.picks in
    let kept = fit_slots slots once.picks in
    record { picks = kept.picks; warnings = valid.warnings ++ (once.warnings ++ kept.warnings) }

-- `pickedById.get(id)`
unfoldable pub find_pick : Text → List Pick → Option Pick
find_pick id [] = none
find_pick id (p ∷ ps) = if text_eq p.catalog_product_id id then some p else find_pick id ps

-- `t || null`
abbrev pub or_null : Text → Option Text
or_null [] = none
or_null (c ∷ cs) = some (c ∷ cs)

unfoldable pub candidate_row : Entry → Option Pick → CandidateRow
candidate_row c none = record {
  catalog_product_id = c.catalog_product_id;
  details = c.details;
  semantic_score = c.semantic_score;
  selected = false;
  reasoned_fit = none;
  reasoned_fit_rationale = none;
}
candidate_row c (some p) = record {
  catalog_product_id = c.catalog_product_id;
  details = c.details;
  semantic_score = c.semantic_score;
  selected = true;
  reasoned_fit = some p.reasoned_fit;
  reasoned_fit_rationale = or_null p.rationale;
}

unfoldable pub candidate_rows : List Entry → List Pick → List CandidateRow
candidate_rows pool picks = map (λ c. candidate_row c (find_pick c.catalog_product_id picks)) pool

abbrev pub fail : Failure → List Warning → Plan
fail e warnings = record {
  outcome = failed;
  selector_note = none;
  error_message = some e;
  candidates = [];
  warnings = warnings;
}

abbrev pub match_nothing : Text → Plan
match_nothing note = record {
  outcome = no_match;
  selector_note = some note;
  error_message = none;
  candidates = [];
  warnings = [];
}

-- The end of the plan, when the picks are chosen.
unfoldable pub plan_picks : List Entry → Text → List Warning → List Pick → Plan
plan_picks pool note warnings [] = fail (every_pick_invalid warnings) warnings
plan_picks pool note warnings (p ∷ ps) = record {
  outcome = matched;
  selector_note = or_null note;
  error_message = none;
  candidates = candidate_rows pool (p ∷ ps);
  warnings = warnings;
}

unfoldable pub plan_matched : ℕ → List Entry → Text → List Pick → Plan
unfolding plan_picks
plan_matched slots pool note [] = fail empty_picks []
plan_matched slots pool note (p ∷ ps) =
    let chosen = choose slots pool (p ∷ ps) in plan_picks pool note chosen.warnings chosen.picks

-- `a || b`
abbrev pub or_text : Text → Text → Text
or_text a b = if is_empty a then b else a

unfoldable pub plan_emission : ℕ → List Entry → Emission → Plan
plan_emission slots pool e =
    let note = trim e.pool_note in
    if text_eq e.outcome (lit "matched")
    then plan_matched slots pool note e.picks
    else if text_eq e.outcome (lit "no_match")
    then match_nothing (or_text note no_candidate_note)
    else fail (invalid_outcome e.outcome) []

unfoldable pub plan_pool : ℕ → List Entry → Option Emission → Plan
plan_pool slots [] emission = match_nothing empty_pool_note
plan_pool slots (c ∷ cs) none = fail no_usable_emission []
plan_pool slots (c ∷ cs) (some e) = plan_emission slots (c ∷ cs) e

-- An emission that is missing or no object is none.
unfoldable pub build_sourcing_run_plan : List Entry → Option Emission → ℕ → Plan
build_sourcing_run_plan pool emission slots = plan_pool slots (apply_floor_and_top_n pool) emission
