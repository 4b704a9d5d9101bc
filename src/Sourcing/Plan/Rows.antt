-- ===== src/Sourcing/Plan/Rows.antt =====
-- The plan as a whole: its outcome, its rows and its errors.
use trend_tree.Prelude.{
  ℕ, suc, ◌≡◌, refl, ap, inl, inr, ◌≢◌, ◌⊎◌, List, [], ◌∷◌, map, Option, none, some, true, false,
  ◌&&◌, Text, lit, text_eq, text_eq_iff, trim, any, count, All, Bool-cases, if◌then◌else◌,
}
use trend_tree.Sourcing.Pool.{Entry, apply_floor_and_top_n}
use trend_tree.Sourcing.Plan.{
  Pick, Emission, Warning, Outcome, matched, no_match, failed, CandidateRow, Plan, is_valid_fit,
  find_pick, candidate_row, candidate_rows, choose, plan_picks, plan_matched, plan_emission,
  plan_pool, build_sourcing_run_plan,
}
use trend_tree.Sourcing.Plan.Picks.{IsValid, picked, choose_lem}

-- A row is selected with the fit of a valid pick of its product, or is not and has no fit.
abbrev pub IsBacked : List Pick → CandidateRow → Type 0
IsBacked raw row =
    ((row.selected ≡ true)
      × ((fit : Text) × (row.reasoned_fit ≡ some fit)
          × (is_valid_fit fit ≡ true)
          × (any
                (λ q.
                  text_eq q.catalog_product_id row.catalog_product_id && text_eq q.reasoned_fit fit)
                raw
              ≡ true)))
    ⊎ ((row.selected ≡ false) × (row.reasoned_fit ≡ none) × (row.reasoned_fit_rationale ≡ none))

find_pick_lem :
    (P : Pick → Type 0) (id : Text) (ps : List Pick)
    → All P ps
    → ((find_pick id ps ≡ none) × (picked id ps ≡ false))
      ⊎ ((p : Pick) × (find_pick id ps ≡ some p)
          × (p.catalog_product_id ≡ id)
          × P p
          × (picked id ps ≡ true))
unfolding find_pick
find_pick_lem P id [] h = inl (refl, refl)
find_pick_lem P id (p ∷ ps) h = elim (Bool-cases (text_eq p.catalog_product_id id)) [
  | inl e ↦ inr (p, rw e, (text_eq_iff p.catalog_product_id id).0 e, h.0, rw e)
  | inr e ↦ elim (find_pick_lem P id ps h.1) [
    | inl (a, b) ↦ inl (rw e a, rw e b)
    | inr (q, a, b, c, d) ↦ inr (q, rw e a, b, c, rw e d)
  ]
]

-- Each row of the plan is a row of the pool with the choice for its product.
row_lem :
    (pool : List Entry) (raw : List Pick) (c : Entry) (ps : List Pick)
    → All (IsValid pool raw) ps
    → let row = candidate_row c (find_pick c.catalog_product_id ps) in
      IsBacked raw row × (row.selected ≡ picked c.catalog_product_id ps)
unfolding candidate_row
row_lem pool raw c ps h = elim (find_pick_lem (IsValid pool raw) c.catalog_product_id ps h) [
  | inl (a, b) ↦ rw (a, b) (inr (refl, refl, refl), refl)
  | inr (p, a, b, v, d) ↦ rw (a, d) (inl (refl, (p.reasoned_fit, refl, v.2, rw (← b) v.0)), refl)
]

pub rows_lem :
    (pool : List Entry) (raw : List Pick) (cs : List Entry) (ps : List Pick)
    → All (IsValid pool raw) ps
    → let rows = candidate_rows cs ps in
      All (IsBacked raw) rows
      × (map (λ r. r.catalog_product_id) rows ≡ map (λ c. c.catalog_product_id) cs)
      × (map (λ r. r.semantic_score) rows ≡ map (λ c. c.semantic_score) cs)
      × (map (λ r. r.details) rows ≡ map (λ c. c.details) cs)
      × (count (λ r. r.selected) rows ≡ count (λ c. picked c.catalog_product_id ps) cs)
unfolding candidate_rows
rows_lem pool raw [] ps h = (tt, refl, refl, refl, refl)
rows_lem pool raw (c ∷ cs) ps h =
    let (backed, ids, scores, details, total) = rows_lem pool raw cs ps h in
    let (first, chosen) = row_lem pool raw c ps h in
    (
      (first, backed),
      cc (ids, copied_id c (find_pick c.catalog_product_id ps)),
      cc (scores, copied_score c (find_pick c.catalog_product_id ps)),
      cc (details, copied_details c (find_pick c.catalog_product_id ps)),
      rw chosen (ap (λ n. if picked c.catalog_product_id ps then suc n else n) total),
    )
  where
    copied_id :
        (c : Entry) (o : Option Pick)
        → (candidate_row c o).catalog_product_id ≡ c.catalog_product_id
    copied_id c none = unfold candidate_row in refl
    copied_id c (some p) = unfold candidate_row in refl

    copied_score :
        (c : Entry) (o : Option Pick) → (candidate_row c o).semantic_score ≡ c.semantic_score
    copied_score c none = unfold candidate_row in refl
    copied_score c (some p) = unfold candidate_row in refl

    copied_details : (c : Entry) (o : Option Pick) → (candidate_row c o).details ≡ c.details
    copied_details c none = unfold candidate_row in refl
    copied_details c (some p) = unfold candidate_row in refl

-- What the ledger is told for each outcome.
abbrev pub IsReport : List Entry → List Pick → Plan → Outcome → Type 0
IsReport pool raw plan matched =
    (plan.error_message ≡ none)
    × (map (λ r. r.catalog_product_id) plan.candidates ≡ map (λ c. c.catalog_product_id) pool)
    × (map (λ r. r.semantic_score) plan.candidates ≡ map (λ c. c.semantic_score) pool)
    × (map (λ r. r.details) plan.candidates ≡ map (λ c. c.details) pool)
    × All (IsBacked raw) plan.candidates
IsReport pool raw plan no_match =
    (plan.error_message ≡ none) × (plan.candidates ≡ []) × (plan.selector_note ≢ none)
IsReport pool raw plan failed =
    (plan.error_message ≢ none) × (plan.candidates ≡ []) × (plan.selector_note ≡ none)

plan_picks-IsReport :
    (pool : List Entry) (raw : List Pick) (note : Text) (ws : List Warning) (ps : List Pick)
    → All (IsValid pool raw) ps
    → let plan = plan_picks pool note ws ps in IsReport pool raw plan plan.outcome
unfolding plan_picks
plan_picks-IsReport pool raw note ws [] h = ((λ e. cc), refl, refl)
plan_picks-IsReport pool raw note ws (p ∷ ps) h =
    let (backed, ids, scores, details, _) = rows_lem pool raw pool (p ∷ ps) h in
    (refl, ids, scores, details, backed)

abbrev pub raw_picks : Option Emission → List Pick
raw_picks none = []
raw_picks (some e) = e.picks

plan_matched-IsReport :
    (slots : ℕ) (pool : List Entry) (note : Text) (raw : List Pick)
    → let plan = plan_matched slots pool note raw in IsReport pool raw plan plan.outcome
unfolding plan_matched
plan_matched-IsReport slots pool note [] = ((λ e. cc), refl, refl)
plan_matched-IsReport slots pool note (p ∷ ps) =
    let chosen = choose slots pool (p ∷ ps) in
    plan_picks-IsReport pool (p ∷ ps) note chosen.warnings chosen.picks
      (choose_lem slots pool (p ∷ ps)).0

plan_emission-IsReport :
    (slots : ℕ) (pool : List Entry) (e : Emission)
    → let plan = plan_emission slots pool e in IsReport pool e.picks plan plan.outcome
unfolding plan_emission
plan_emission-IsReport slots pool e = elim (Bool-cases (text_eq e.outcome (lit "matched"))) [
  | inl m ↦ rw m (plan_matched-IsReport slots pool (trim e.pool_note) e.picks)
  | inr m ↦ elim (Bool-cases (text_eq e.outcome (lit "no_match"))) [
    | inl n ↦ rw (m, n) (refl, refl, λ h. cc)
    | inr n ↦ rw (m, n) ((λ h. cc), refl, refl)
  ]
]

plan_pool-IsReport :
    (slots : ℕ) (pool : List Entry) (emission : Option Emission)
    → let plan = plan_pool slots pool emission in
      IsReport pool (raw_picks emission) plan plan.outcome
unfolding plan_pool
plan_pool-IsReport slots [] emission = (refl, refl, λ h. cc)
plan_pool-IsReport slots (c ∷ cs) none = ((λ h. cc), refl, refl)
plan_pool-IsReport slots (c ∷ cs) (some e) = plan_emission-IsReport slots (c ∷ cs) e

-- A matched plan has one row for each entry of the pool in its order, with its id, score and
-- details; a row is selected with the valid fit of a pick of the emission for that product, or is
-- not and has neither fit nor rationale. A plan without a match has a note, no row and no error. A
-- failed plan has an error, no row and no note.
pub build_sourcing_run_plan_lem :
    (pool : List Entry) (emission : Option Emission) (slots : ℕ)
    → let plan = build_sourcing_run_plan pool emission slots in
      IsReport (apply_floor_and_top_n pool) (raw_picks emission) plan plan.outcome
unfolding build_sourcing_run_plan
build_sourcing_run_plan_lem pool emission slots =
    plan_pool-IsReport slots (apply_floor_and_top_n pool) emission

plan_picks-ne-no_match :
    (pool : List Entry) (note : Text) (ws : List Warning) (ps : List Pick)
    → (plan_picks pool note ws ps).outcome ≢ no_match
unfolding plan_picks
plan_picks-ne-no_match pool note ws [] e = cc
plan_picks-ne-no_match pool note ws (p ∷ ps) e = cc

plan_matched-ne-no_match :
    (slots : ℕ) (pool : List Entry) (note : Text) (raw : List Pick)
    → (plan_matched slots pool note raw).outcome ≢ no_match
unfolding plan_matched
plan_matched-ne-no_match slots pool note [] e = cc
plan_matched-ne-no_match slots pool note (p ∷ ps) e =
    let chosen = choose slots pool (p ∷ ps) in
    plan_picks-ne-no_match pool note chosen.warnings chosen.picks e

plan_emission-no_match :
    (slots : ℕ) (pool : List Entry) (e : Emission)
    → (plan_emission slots pool e).outcome ≡ no_match
    → e.outcome ≡ lit "no_match"
unfolding plan_emission
plan_emission-no_match slots pool e h = elim (Bool-cases (text_eq e.outcome (lit "matched"))) [
  | inl m ↦ absurd (plan_matched-ne-no_match slots pool (trim e.pool_note) e.picks (rw m at h))
  | inr m ↦ elim (Bool-cases (text_eq e.outcome (lit "no_match"))) [
    | inl n ↦ (text_eq_iff e.outcome (lit "no_match")).0 n
    | inr n ↦ let refused : failed ≡ no_match = rw (m, n) at h in cc
  ]
]

plan_pool-no_match :
    (slots : ℕ) (pool : List Entry) (emission : Option Emission)
    → (plan_pool slots pool emission).outcome ≡ no_match
    → (pool ≡ []) ⊎ ((e : Emission) × (emission ≡ some e) × (e.outcome ≡ lit "no_match"))
unfolding plan_pool
plan_pool-no_match slots [] emission h = inl refl
plan_pool-no_match slots (c ∷ cs) none h = cc
plan_pool-no_match slots (c ∷ cs) (some e) h =
    inr (e, refl, plan_emission-no_match slots (c ∷ cs) e h)

-- A plan says that nothing matched only if no entry of the pool passes the floor, or the selector
-- itself said so: no malformed emission is reported as a refusal.
pub build_sourcing_run_plan_no_match :
    (pool : List Entry) (emission : Option Emission) (slots : ℕ)
    → (build_sourcing_run_plan pool emission slots).outcome ≡ no_match
    → (apply_floor_and_top_n pool ≡ [])
      ⊎ ((e : Emission) × (emission ≡ some e) × (e.outcome ≡ lit "no_match"))
unfolding build_sourcing_run_plan
build_sourcing_run_plan_no_match pool emission slots =
    plan_pool-no_match slots (apply_floor_and_top_n pool) emission
