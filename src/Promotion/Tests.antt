-- ===== src/Promotion/Tests.antt =====
-- The promotion on concrete candidates, verdicts and targets, and the theorems about it at inputs
-- where they apply.
use trend_tree.Prelude.{
  ◌+◌, ◌*◌, ◌≤◌, ◌<◌, any, ◌⊎◌, Bool, ◌≡◌, refl, List, [], ◌∷◌, some, true, false, Text, num, lit,
  text_eq, starts_with, trim, trim_start, is_short_id, arith, count, length, of_bits, lt_double,
  ge_double, ℕ, Option, none, Double, zero_double, is_finite, includes, ◌==◌, if◌then◌else◌,
}
use trend_tree.Promotion.Retrigger.{
  Payload, PromotionEvent, RunResult, at_least_one, at_least_zero, normalize_promotion_event,
  is_configured, new_budget, stop_reasons, next_payload, eval_and_retrigger, run_promotion_chain,
}
use trend_tree.Promotion.Retrigger.Chain.{IsLinked, run_promotion_chain_lem}
use trend_tree.Promotion.Gate.{
  tau, family_of_lower, source_family_of, add_family, collect_families, distinct_source_families,
  Candidate, quality_flags, reaches_tau, action_of, classify_candidate, route_normal,
  route_et_rescue,
}
use trend_tree.Promotion.Gate.Routes.{IsRouted, classify_candidate_lem}
use trend_tree.Promotion.Gate.Flags.{Agrees, classify_candidate_flags}
use trend_tree.Promotion.Verdict.{
  resolved, is_allowed, is_duplicate, suffix_of, sanitize_id, target_of, resolve_raw,
  resolve_distillation_verdict,
}
use trend_tree.Promotion.Targets.{
  minutes, Target, promoted, is_retry_due, Applied, is_promoted, extract_promoted_trend_ids, is_due,
  UnenrichedRow, select_retry_trend_ids, add_targets, build_dispatch_targets,
}
use trend_tree.Promotion.Targets.Window.{day_of_runs, has_id, rows_at, retry_once_a_day}
use trend_tree.Promotion.Targets.Union.{IsDistinct, ids_of, build_dispatch_targets_lem}
use trend_tree.Promotion.Fanout.{
  Fanout, fanned, worker_count, Step, take_next, answer, Reach, start, more, fan_out,
  has_placeholder, fire_targets, fire_enrichment_chain,
}
use trend_tree.Promotion.Fanout.Delivery.{Accounts, IsOver, fan_out_lem}

abbrev candidate : List Text → Candidate
candidate keys = record {
  source_breakdown = keys;
  confidence = some (num 0xbff0000000000000);
  specificity_score = some (num 0xbff0000000000000);
}

abbrev amazon_only : Candidate
amazon_only = candidate (lit "amazon_movers" ∷ lit "Amazon_trends" ∷ [])

gate : Unit {0}
unfolding of_bits tau text_eq starts_with lt_double ge_double family_of_lower source_family_of
    add_family collect_families distinct_source_families quality_flags reaches_tau action_of
    classify_candidate
gate = tt

amazon-rescued : (classify_candidate amazon_only).action ≡ route_et_rescue
unfolding gate
amazon-rescued = refl

two-normal :
    (classify_candidate (candidate (lit "gdelt" ∷ lit "tiktok" ∷ []))).action ≡ route_normal
unfolding gate
two-normal = refl

classify_candidate_lem_example : IsRouted amazon_only (classify_candidate amazon_only).action
classify_candidate_lem_example = classify_candidate_lem amazon_only

classify_candidate_flags_example :
    Agrees (classify_candidate amazon_only).action (classify_candidate amazon_only).flags
classify_candidate_flags_example = classify_candidate_flags amazon_only (λ e. cc) λ e. cc

abbrev bare_duplicate : Text
bare_duplicate = lit " DUPLICATE_OF "

bare-resolved :
    resolve_distillation_verdict bare_duplicate (lit "trend-7")
    ≡ resolved (record {
      verdict = lit "DUPLICATE_OF";
      is_duplicate_of = true;
      dedup_target = some (lit "trend-7");
      prompt_verdict = lit "DUPLICATE_OF_trend-7";
    })
unfolding text_eq starts_with trim trim_start is_short_id is_allowed is_duplicate suffix_of
    sanitize_id target_of resolve_raw resolve_distillation_verdict
bare-resolved = refl

-- A younger trend that is stuck since the same day.
abbrev younger : ℕ → List UnenrichedRow
younger k = record { trend_id = lit "t2"; age = minutes (400 + 180 * k) } ∷ []

few_younger : (k : ℕ) → count is_due (younger k) < 5
few_younger k = ground arith

other_trend : (k : ℕ) → has_id (lit "t1") (younger k) ≡ false
unfolding text_eq
other_trend k = refl

retry_once_a_day_example :
    count
      (λ k.
        any
          (text_eq (lit "t1"))
          (select_retry_trend_ids (rows_at (lit "t1") 500 younger (λ k. []) k) 1 false))
      day_of_runs
    ≡ 1
retry_once_a_day_example =
    retry_once_a_day (lit "t1") 500 1 younger (λ k. []) refl (omega arith) (omega arith) other_trend
      (λ k. refl) few_younger

abbrev applied : Text → Text → Applied
applied decision id = record { status = lit "ok"; decision = decision; target_trend_id = id }

abbrev new_ids : List Text
new_ids = lit "t1" ∷ lit "t2" ∷ []

abbrev old_ids : List Text
old_ids = lit "t2" ∷ lit "t3" ∷ []

build_dispatch_targets_lem_example : IsDistinct (ids_of (build_dispatch_targets new_ids old_ids))
build_dispatch_targets_lem_example = (build_dispatch_targets_lem new_ids old_ids).0

abbrev target : Text → Target
target id = record { trend_id = id; reason = promoted }

abbrev targets : List Target
targets = target (lit "t1") ∷ target (lit "t2") ∷ []

fire : Unit {0}
unfolding text_eq starts_with has_placeholder is_promoted extract_promoted_trend_ids is_retry_due
    is_due select_retry_trend_ids add_targets build_dispatch_targets fire_targets
    fire_enrichment_chain worker_count
fire = tt

fire-targets :
    fire_enrichment_chain
      (some (
        applied (lit "PROMOTE_NEW") (lit "t1")
        ∷ applied (lit "MERGE") (lit "t9")
        ∷ applied (lit "PROMOTE_NEW") (lit "t2")
        ∷ []))
      []
      1
      false
      (lit "https://dispatcher.example")
    ≡ fanned (fan_out targets)
unfolding fire
fire-targets = refl

-- Both targets are taken, and the second has its answer first.
abbrev two_taken : Fanout
two_taken = record { left = []; busy = targets; reading = []; dispatched = []; errors = [] }

abbrev second_answered : Fanout
second_answered = record {
  left = [];
  busy = target (lit "t1") ∷ [];
  reading = [];
  dispatched = record { target = target (lit "t2"); ok = true } ∷ [];
  errors = [];
}

three_steps : Reach (worker_count targets) (fan_out targets) 3 second_answered
unfolding fire
three_steps =
    more 2 two_taken second_answered
      (more 1 _ two_taken
        (more 0 (fan_out targets) _ start (take_next (target (lit "t1")) _ refl (omega arith)))
        (take_next (target (lit "t2")) [] refl (omega arith)))
      (answer (target (lit "t1") ∷ []) [] (target (lit "t2")) refl)

fan_out_lem_example :
    (length second_answered.busy + length second_answered.reading ≤ 5)
    × ((p : Target → Bool) → Accounts targets second_answered p)
    × (3 ≤ 6)
    × (IsOver targets second_answered
        ⊎ ((u : Fanout) × Step (worker_count targets) second_answered u))
fan_out_lem_example = fan_out_lem targets 3 second_answered three_steps

abbrev first_payload : Payload
first_payload = record {
  chain_id = lit "chain-1";
  iteration = none;
  max_iterations = some 3;
  budget_usd = none;
  budget_remaining_usd = none;
  dry_run = none;
  max_candidates = none;
}

-- Every run costs nothing, and all but the second apply something.
abbrev run_result : PromotionEvent → RunResult
run_result e = record { lead_cost = zero_double; applied_count = if e.iteration == 2 then 0 else 4 }

abbrev no_minus : Double → Double → Double
no_minus a b = a

abbrev runs : Option (List PromotionEvent)
runs = run_promotion_chain no_minus (lit "https://x.co") (lit "fresh") run_result 3 first_payload

abbrev count_runs : Option (List PromotionEvent) → ℕ
count_runs none = 0
count_runs (some es) = length es

run_promotion_chain_test : count_runs runs ≡ 2
unfolding run_promotion_chain normalize_promotion_event eval_and_retrigger stop_reasons next_payload
    new_budget at_least_one at_least_zero is_configured is_short_id lt_double is_finite includes
    starts_with
run_promotion_chain_test = refl

run_promotion_chain_lem_example :
    (es : List PromotionEvent) × (run_promotion_chain no_minus
        (lit "https://x.co")
        (lit "fresh")
        run_result
        3
        first_payload
      ≡ some es)
    × IsLinked no_minus run_result es
    × (length es ≤ 3)
unfolding at_least_one
run_promotion_chain_lem_example =
    run_promotion_chain_lem no_minus (lit "https://x.co") (lit "fresh") run_result 3 first_payload
      (omega arith)
