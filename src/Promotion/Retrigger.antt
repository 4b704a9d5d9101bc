-- ===== src/Promotion/Retrigger.antt =====
-- normalize_event and eval_and_retrigger of promotion-p_xMC99jg: a run of the promotion, and the
-- payload by which it starts the next one. Iterations are whole numbers.
pub mod Chain
use trend_tree.Prelude.{
  ℕ, zero, suc, ◌+◌, min, List, [], ◌∷◌, ◌++◌, Option, none, some, Bool, true, false, not, ◌&&◌,
  ◌||◌, Text, lit, is_empty, is_short_id, leb, ltb, ◌==◌, includes, Double, num, lt_double,
  is_finite, zero_double, starts_with, if◌then◌else◌,
}

-- A body, with each number that is missing or not finite as none; one below 1 may stand as 0.
pub record Payload : Type 0 where
  pub chain_id : Text
  pub iteration : Option ℕ
  pub max_iterations : Option ℕ
  pub budget_usd : Option Double
  pub budget_remaining_usd : Option Double
  pub dry_run : Option Bool
  pub max_candidates : Option ℕ

pub record PromotionEvent : Type 0 where
  pub chain_id : Text
  pub iteration : ℕ
  pub max_iterations : ℕ
  pub budget_usd : Double
  pub budget_remaining_usd : Double
  pub dry_run : Bool
  pub max_candidates : ℕ

-- The double 1.5.
abbrev pub default_budget : Double
default_budget = num 0xbff8000000000000

-- The double 0.1.
abbrev pub min_budget : Double
min_budget = num 0xbfb999999999999a

-- `coerceNum` and `coerceBool`, of what the payload holds
abbrev pub or_fallback {ℓ} : {A : Type ℓ} → Option A → A → A
or_fallback none fallback = fallback
or_fallback (some a) fallback = a

-- `Math.max(1, n)`
unfoldable pub at_least_one : ℕ → ℕ
at_least_one zero = 1
at_least_one (suc n) = suc n

-- `Math.max(0, d)`, which keeps a NaN
unfoldable pub at_least_zero : Double → Double
at_least_zero d = if lt_double d zero_double then zero_double else d

-- None if the id of the chain is refused.
unfoldable pub normalize_promotion_event : Text → Payload → Option PromotionEvent
normalize_promotion_event fresh_id p =
    let chain_id = if is_empty p.chain_id then fresh_id else p.chain_id in
    let budget_usd = at_least_zero (or_fallback p.budget_usd default_budget) in
    if is_short_id 64 chain_id
    then some (record {
      chain_id = chain_id;
      iteration = at_least_one (or_fallback p.iteration 1);
      max_iterations = at_least_one (or_fallback p.max_iterations 2);
      budget_usd = budget_usd;
      budget_remaining_usd = at_least_zero (or_fallback p.budget_remaining_usd budget_usd);
      dry_run = or_fallback p.dry_run false;
      max_candidates = min 50 (at_least_one (or_fallback p.max_candidates 15));
    })
    else none

pub data StopReason : Type 0 where
  dry_run_reason max_iterations_reached budget_exhausted converged : StopReason

pub data Retrigger : Type 0 where
  stopped : List StopReason → Retrigger
  self_url_not_configured : Retrigger
  looped : Payload → Retrigger

-- What a number becomes in JSON.
abbrev pub json_number : Double → Option Double
json_number d = if is_finite d then some d else none

-- What a run gives to its last step: the cost of its lead, and how many decisions were applied, 0
-- if the answer cannot be read.
pub record RunResult : Type 0 where
  pub lead_cost : Double
  pub applied_count : ℕ

unfoldable pub is_configured : Text → Bool
is_configured url = not (is_empty url || includes url (lit "PLACEHOLDER"))

abbrev pub prepend_run :
    PromotionEvent → Option (List PromotionEvent) → Option (List PromotionEvent)
prepend_run e none = none
prepend_run e (some es) = some (e ∷ es)

-- A run alone, or with the runs that its payload starts.
abbrev pub and_next :
    (Payload → Option (List PromotionEvent))
    → PromotionEvent
    → Retrigger
    → Option (List PromotionEvent)
and_next rest e (stopped reasons) = some (e ∷ [])
and_next rest e self_url_not_configured = some (e ∷ [])
and_next rest e (looped p) = prepend_run e (rest p)

abbrev pub when : Bool → StopReason → List StopReason
when true r = r ∷ []
when false r = []

abbrev pub retrigger : Bool → List StopReason → Payload → Retrigger
retrigger configured (x ∷ xs) p = stopped (x ∷ xs)
retrigger true [] p = looped p
retrigger false [] p = self_url_not_configured

-- `minus` is the subtraction of doubles.
module _ (minus : Double → Double → Double) where
  unfoldable pub new_budget : PromotionEvent → RunResult → Double
  new_budget e r = at_least_zero (minus e.budget_remaining_usd r.lead_cost)

  unfoldable pub stop_reasons : PromotionEvent → RunResult → List StopReason
  stop_reasons e r =
      when e.dry_run dry_run_reason
      ++ (when (leb e.max_iterations e.iteration) max_iterations_reached
          ++ (when (lt_double (new_budget e r) min_budget) budget_exhausted
              ++ when (r.applied_count == 0) converged))

  unfoldable pub next_payload : PromotionEvent → RunResult → Payload
  next_payload e r = record {
    chain_id = e.chain_id;
    iteration = some (suc e.iteration);
    max_iterations = some e.max_iterations;
    budget_usd = json_number e.budget_usd;
    budget_remaining_usd = json_number (new_budget e r);
    dry_run = some false;
    max_candidates = if e.max_candidates == 0 then none else some e.max_candidates;
  }

  unfoldable pub eval_and_retrigger : Text → PromotionEvent → RunResult → Retrigger
  eval_and_retrigger self_url e r =
      retrigger (is_configured self_url) (stop_reasons e r) (next_payload e r)

  abbrev pub chain_after :
      Text
      → (PromotionEvent → RunResult)
      → (Payload → Option (List PromotionEvent))
      → Option PromotionEvent
      → Option (List PromotionEvent)
  chain_after self_url result rest none = some []
  chain_after self_url result rest (some e) =
      and_next rest e (eval_and_retrigger self_url e (result e))

  -- The runs of a chain, of which the number allows so many; `result` gives the result of each. A
  -- payload whose chain is refused starts no run.
  unfoldable pub run_promotion_chain :
      Text → Text → (PromotionEvent → RunResult) → ℕ → Payload → Option (List PromotionEvent)
  run_promotion_chain self_url fresh_id result zero p = none
  run_promotion_chain self_url fresh_id result (suc n) p =
      chain_after self_url result (run_promotion_chain self_url fresh_id result n)
        (normalize_promotion_event fresh_id p)
