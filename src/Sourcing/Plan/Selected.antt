-- ===== src/Sourcing/Plan/Selected.antt =====
-- How many rows of a plan are selected.
use trend_tree.Prelude.{
  ℕ, ◌+◌, ◌≤◌, ◌<◌, ◌≡◌, refl, sym, ◌∙◌, subst, inl, inr, List, [], ◌∷◌, Option, none, some, Bool,
  true, false, arith, Text, lit, text_eq, text_eq_iff, text_eq_comm, trim, count, length, All,
  Bool-cases,
}
use trend_tree.Sourcing.Pool.{Entry, apply_floor_and_top_n}
use trend_tree.Sourcing.Plan.{
  Pick, Emission, Warning, matched, Plan, in_pool, choose, plan_picks, plan_matched, plan_emission,
  plan_pool, build_sourcing_run_plan,
}
use trend_tree.Sourcing.Plan.Picks.{IsValid, IsDistinct, picked, choose_lem}
use trend_tree.Sourcing.Plan.Rows.{rows_lem}

-- The pool shows no product twice.
abbrev pub HasUniqueIds : List Entry → Type 0
HasUniqueIds pool = (id : Text) → count (λ c. text_eq c.catalog_product_id id) pool ≤ 1

abbrev of_id : Text → Entry → Bool
of_id id c = text_eq c.catalog_product_id id

count-of_id-pos :
    (id : Text) (pool : List Entry) → in_pool pool id ≡ true → 0 < count (of_id id) pool
unfolding in_pool
count-of_id-pos id [] h = cc
count-of_id-pos id (c ∷ pool) h = ground (arith, count-of_id-pos id pool, h)

-- The products of the first pick are none of the others'.
count-picked-cons :
    (p : Pick) (ps : List Pick) (pool : List Entry)
    → picked p.catalog_product_id ps ≡ false
    → count (λ c. picked c.catalog_product_id (p ∷ ps)) pool
      ≡ count (of_id p.catalog_product_id) pool + count (λ c. picked c.catalog_product_id ps) pool
count-picked-cons p ps [] h = refl
count-picked-cons p ps (c ∷ pool) h =
    elim (Bool-cases (text_eq p.catalog_product_id c.catalog_product_id)) [
      | inl e ↦
          let same = (text_eq_iff p.catalog_product_id c.catalog_product_id).0 e in
          let back : text_eq c.catalog_product_id p.catalog_product_id ≡ true =
            (text_eq_iff c.catalog_product_id p.catalog_product_id).1 (sym same) in
          let others : picked c.catalog_product_id ps ≡ false =
            subst (λ t. picked t ps ≡ false) same h in
          rw (e, back, others) (omega (arith, count-picked-cons p ps pool h))
      | inr e ↦
          let back : text_eq c.catalog_product_id p.catalog_product_id ≡ false =
            text_eq_comm c.catalog_product_id p.catalog_product_id ∙ e in
          rw (e, back) (ground (arith, count-picked-cons p ps pool h))
    ]

count_none : (pool : List Entry) → count (λ c. picked c.catalog_product_id []) pool ≡ 0
count_none [] = refl
count_none (c ∷ pool) = count_none pool

-- Each pick selects one row.
count-picked :
    (pool : List Entry) (raw ps : List Pick)
    → HasUniqueIds pool
    → All (IsValid pool raw) ps
    → IsDistinct ps
    → count (λ c. picked c.catalog_product_id ps) pool ≡ length ps
count-picked pool raw [] u h d = count_none pool
count-picked pool raw (p ∷ ps) u h d = omega (
  arith,
  count-picked-cons p ps pool d.0,
  count-picked pool raw ps u h.1 d.1,
  u p.catalog_product_id,
  count-of_id-pos p.catalog_product_id pool h.0.1,
)

-- How many rows are selected.
abbrev pub selected_count : Plan → ℕ
selected_count plan = count (λ r. r.selected) plan.candidates

abbrev pub Selects : ℕ → Plan → Type 0
Selects slots plan =
    (plan.outcome ≡ matched → 0 < selected_count plan) × (selected_count plan ≤ slots)

module _ (slots : ℕ) (pool : List Entry) (u : HasUniqueIds pool) (note : Text) where
  plan_picks-Selects :
      (raw : List Pick) (ws : List Warning) (ps : List Pick)
      → All (IsValid pool raw) ps
      → IsDistinct ps
      → length ps ≤ slots
      → Selects slots (plan_picks pool note ws ps)
  unfolding plan_picks
  plan_picks-Selects raw ws [] h d few = ((λ e. cc), omega arith)
  plan_picks-Selects raw ws (p ∷ ps) h d few =
      let (_, _, _, _, total) = rows_lem pool raw pool (p ∷ ps) h in
      let all_picks = count-picked pool raw (p ∷ ps) u h d in
      ((λ _. omega (arith, total, all_picks)), omega (arith, total, all_picks, few))

  plan_matched-Selects : (raw : List Pick) → Selects slots (plan_matched slots pool note raw)
  unfolding plan_matched
  plan_matched-Selects [] = ((λ e. cc), omega arith)
  plan_matched-Selects (p ∷ ps) =
      let chosen = choose slots pool (p ∷ ps) in
      let (valid, distinct, few, _) = choose_lem slots pool (p ∷ ps) in
      plan_picks-Selects (p ∷ ps) chosen.warnings chosen.picks valid distinct few

plan_emission-Selects :
    (slots : ℕ) (pool : List Entry) (e : Emission)
    → HasUniqueIds pool
    → Selects slots (plan_emission slots pool e)
unfolding plan_emission
plan_emission-Selects slots pool e u = elim (Bool-cases (text_eq e.outcome (lit "matched"))) [
  | inl m ↦ rw m (plan_matched-Selects slots pool u (trim e.pool_note) e.picks)
  | inr m ↦ elim (Bool-cases (text_eq e.outcome (lit "no_match"))) [
    | inl n ↦ rw (m, n) ((λ h. cc), omega arith)
    | inr n ↦ rw (m, n) ((λ h. cc), omega arith)
  ]
]

plan_pool-Selects :
    (slots : ℕ) (pool : List Entry) (emission : Option Emission)
    → HasUniqueIds pool
    → Selects slots (plan_pool slots pool emission)
unfolding plan_pool
plan_pool-Selects slots [] emission u = ((λ h. cc), omega arith)
plan_pool-Selects slots (c ∷ cs) none u = ((λ h. cc), omega arith)
plan_pool-Selects slots (c ∷ cs) (some e) u = plan_emission-Selects slots (c ∷ cs) e u

pub build_sourcing_run_plan-Selects :
    (pool : List Entry) (emission : Option Emission) (slots : ℕ)
    → HasUniqueIds (apply_floor_and_top_n pool)
    → Selects slots (build_sourcing_run_plan pool emission slots)
unfolding build_sourcing_run_plan
build_sourcing_run_plan-Selects pool emission slots =
    plan_pool-Selects slots (apply_floor_and_top_n pool) emission

-- If the shown pool has no product twice, a matched plan selects at least one row, and at most
-- `slots` rows.
pub build_sourcing_run_plan_selects :
    (pool : List Entry) (emission : Option Emission) (slots : ℕ)
    → HasUniqueIds (apply_floor_and_top_n pool)
    → (build_sourcing_run_plan pool emission slots).outcome ≡ matched
    → (0 < selected_count (build_sourcing_run_plan pool emission slots))
      × (selected_count (build_sourcing_run_plan pool emission slots) ≤ slots)
build_sourcing_run_plan_selects pool emission slots u h =
    let (some_row, few) = build_sourcing_run_plan-Selects pool emission slots u in (some_row h, few)
