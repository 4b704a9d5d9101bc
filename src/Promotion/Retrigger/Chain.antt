-- ===== src/Promotion/Retrigger/Chain.antt =====
-- The chain of runs that the promotion starts by itself ends.
use trend_tree.Prelude.{
  ℕ, zero, suc, ◌+◌, ◌-◌, ◌≤◌, ◌≡◌, refl, ◌⊎◌, inl, inr, List, [], ◌∷◌, ◌++◌, Option, none, some,
  Bool, true, false, arith, leb, ◌==◌, Text, is_empty, is_short_id, min, Double, lt_double, length,
  Bool-cases, if◌then◌else◌,
}
use trend_tree.Promotion.Retrigger.{
  Payload, PromotionEvent, default_budget, min_budget, or_fallback, at_least_one, at_least_zero,
  normalize_promotion_event, StopReason, dry_run_reason, max_iterations_reached, budget_exhausted,
  converged, RunResult, is_configured, and_next, when, retrigger, new_budget, stop_reasons,
  next_payload, eval_and_retrigger, run_promotion_chain,
}

at_least_one_id : (n : ℕ) → 1 ≤ n → at_least_one n ≡ n
unfolding at_least_one
at_least_one_id zero h = elim h [ ]
at_least_one_id (suc n) h = refl

at_least_one_positive : (n : ℕ) → 1 ≤ at_least_one n
unfolding at_least_one
at_least_one_positive zero = omega arith
at_least_one_positive (suc n) = omega arith

no_reason :
    (a b c d : Bool)
    → when a dry_run_reason
        ++ (when b max_iterations_reached ++ (when c budget_exhausted ++ when d converged))
      ≡ []
    → (a ≡ false) × (b ≡ false) × (c ≡ false) × (d ≡ false)
no_reason true b c d h = cc
no_reason false true c d h = cc
no_reason false false true d h = cc
no_reason false false false true h = cc
no_reason false false false false h = (refl, refl, refl, refl)

short_not_empty : (s : Text) → is_short_id 64 s ≡ true → is_empty s ≡ false
unfolding is_short_id
short_not_empty [] h = cc
short_not_empty (c ∷ s) h = refl

module _ (minus : Double → Double → Double) (result : PromotionEvent → RunResult) where
  -- A run follows another one in the chain, which had reason to go on.
  pub record IsFollowing (e f : PromotionEvent) : Type 0 where
    pub chain_id : f.chain_id ≡ e.chain_id
    pub iteration : f.iteration ≡ suc e.iteration
    pub max_iterations : f.max_iterations ≡ e.max_iterations
    pub dry_run : f.dry_run ≡ false
    pub before_dry_run : e.dry_run ≡ false
    pub budget : lt_double (new_budget minus e (result e)) min_budget ≡ false
    pub applied : ((result e).applied_count == 0) ≡ false

  abbrev pub IsLinked : List PromotionEvent → Type 0
  IsLinked [] = Unit
  IsLinked (e ∷ []) = Unit
  IsLinked (e ∷ f ∷ es) = IsFollowing e f × IsLinked (f ∷ es)

  next_event : PromotionEvent → PromotionEvent
  next_event e =
      let p = next_payload minus e (result e) in
      let budget_usd = at_least_zero (or_fallback p.budget_usd default_budget) in
      record {
        chain_id = e.chain_id;
        iteration = suc e.iteration;
        max_iterations = e.max_iterations;
        budget_usd = budget_usd;
        budget_remaining_usd = at_least_zero (or_fallback p.budget_remaining_usd budget_usd);
        dry_run = false;
        max_candidates = min 50 (at_least_one (or_fallback p.max_candidates 15));
      }

  normalize-next_payload :
      (fresh_id : Text) (e : PromotionEvent)
      → is_short_id 64 e.chain_id ≡ true
      → 1 ≤ e.max_iterations
      → normalize_promotion_event fresh_id (next_payload minus e (result e)) ≡ some (next_event e)
  unfolding normalize_promotion_event next_event next_payload
  normalize-next_payload fresh_id e short h =
      rw
        (
          short_not_empty e.chain_id short,
          short,
          at_least_one_id e.max_iterations h,
          at_least_one_id (suc e.iteration) (omega arith),
        )
        refl

  -- The runs from an event on.
  record Ends (rest : Payload → Option (List PromotionEvent)) (self_url : Text) (e : PromotionEvent)
      : Type 0 where
    later : List PromotionEvent
    runs : and_next rest e (eval_and_retrigger minus self_url e (result e)) ≡ some (e ∷ later)
    linked : IsLinked (e ∷ later)
    few : length later ≤ e.max_iterations - e.iteration

  Ends-alone :
      (rest : Payload → Option (List PromotionEvent)) (self_url : Text) (e : PromotionEvent)
      → and_next rest e (eval_and_retrigger minus self_url e (result e)) ≡ some (e ∷ [])
      → Ends rest self_url e
  Ends-alone rest self_url e h = record { later = []; runs = h; linked = tt; few = omega arith }

  IsFollowing-next_event :
      (e : PromotionEvent) → stop_reasons minus e (result e) ≡ [] → IsFollowing e (next_event e)
  unfolding next_event stop_reasons
  IsFollowing-next_event e h =
      let none_of =
        no_reason e.dry_run (leb e.max_iterations e.iteration)
          (lt_double (new_budget minus e (result e)) min_budget) ((result e).applied_count == 0)
          h in
      record {
        chain_id = refl;
        iteration = refl;
        max_iterations = refl;
        dry_run = refl;
        before_dry_run = none_of.0;
        budget = none_of.2;
        applied = none_of.3;
      }

  not_last :
      (e : PromotionEvent)
      → stop_reasons minus e (result e) ≡ []
      → suc e.iteration ≤ e.max_iterations
  unfolding stop_reasons
  not_last e h =
      let none_of =
        no_reason e.dry_run (leb e.max_iterations e.iteration)
          (lt_double (new_budget minus e (result e)) min_budget) ((result e).applied_count == 0)
          h in
      let more : leb e.max_iterations e.iteration ≡ false = none_of.1 in ground (arith, more)

  continued :
      (rest further : Payload → Option (List PromotionEvent)) (self_url : Text) (e : PromotionEvent)
      → is_configured self_url ≡ true
      → stop_reasons minus e (result e) ≡ []
      → Ends further self_url (next_event e)
      → rest (next_payload minus e (result e))
        ≡ and_next further
            (next_event e)
            (eval_and_retrigger minus self_url (next_event e) (result (next_event e)))
      → Ends rest self_url e
  unfolding eval_and_retrigger next_event
  continued rest further self_url e url h ends again = record {
    later = next_event e ∷ ends.later;
    runs = rw (url, h, again, ends.runs) refl;
    linked = (IsFollowing-next_event e h, ends.linked);
    few = omega (arith, ends.few, not_last e h);
  }

  stopped-Ends :
      (rest : Payload → Option (List PromotionEvent)) (self_url : Text) (e : PromotionEvent)
      → ((x : StopReason) × (xs : List StopReason) × (stop_reasons minus e (result e) ≡ x ∷ xs))
        ⊎ (is_configured self_url ≡ false)
      → Ends rest self_url e
  unfolding eval_and_retrigger
  stopped-Ends rest self_url e (inl (x, xs, h)) = Ends-alone rest self_url e (rw h refl)
  stopped-Ends rest self_url e (inr h) =
      Ends-alone rest self_url e (unconfigured (stop_reasons minus e (result e)))
    where
      unconfigured :
          (xs : List StopReason)
          → and_next rest e
              (retrigger (is_configured self_url) xs (next_payload minus e (result e)))
            ≡ some (e ∷ [])
      unconfigured [] = rw h refl
      unconfigured (x ∷ xs) = refl

  reasons-cases :
      (xs : List StopReason)
      → (xs ≡ []) ⊎ ((x : StopReason) × (ys : List StopReason) × (xs ≡ x ∷ ys))
  reasons-cases [] = inl refl
  reasons-cases (x ∷ ys) = inr (x, ys, refl)

  chain-Ends :
      (self_url fresh_id : Text) (n : ℕ) (e : PromotionEvent)
      → is_short_id 64 e.chain_id ≡ true
      → 1 ≤ e.max_iterations
      → e.max_iterations ≤ n + e.iteration
      → Ends (run_promotion_chain minus self_url fresh_id result n) self_url e
  unfolding run_promotion_chain next_event
  chain-Ends self_url fresh_id zero e short h k =
      elim (reasons-cases (stop_reasons minus e (result e))) [
        | inr some_reason ↦ stopped-Ends _ self_url e (inl some_reason)
        | inl none_at_all ↦ let no : 1 ≤ 0 = omega (arith, not_last e none_at_all, k) in elim no [ ]
      ]
  chain-Ends self_url fresh_id (suc n) e short h k =
      let ih = chain-Ends self_url fresh_id n (next_event e) short h (omega (arith, k)) in
      elim (Bool-cases (is_configured self_url)) [
        | inr url ↦ stopped-Ends _ self_url e (inr url)
        | inl url ↦ elim (reasons-cases (stop_reasons minus e (result e))) [
          | inr some_reason ↦ stopped-Ends _ self_url e (inl some_reason)
          | inl none_at_all ↦
              continued _ (run_promotion_chain minus self_url fresh_id result n) self_url e url
                none_at_all ih (rw (normalize-next_payload fresh_id e short h) refl)
        ]
      ]

id_of : Text → Payload → Text
id_of fresh_id p = if is_empty p.chain_id then fresh_id else p.chain_id

first_event : Text → Payload → PromotionEvent
first_event fresh_id p =
    let budget_usd = at_least_zero (or_fallback p.budget_usd default_budget) in
    record {
      chain_id = id_of fresh_id p;
      iteration = at_least_one (or_fallback p.iteration 1);
      max_iterations = at_least_one (or_fallback p.max_iterations 2);
      budget_usd = budget_usd;
      budget_remaining_usd = at_least_zero (or_fallback p.budget_remaining_usd budget_usd);
      dry_run = or_fallback p.dry_run false;
      max_candidates = min 50 (at_least_one (or_fallback p.max_candidates 15));
    }

accepted :
    (fresh_id : Text) (p : Payload)
    → is_short_id 64 (id_of fresh_id p) ≡ true
    → normalize_promotion_event fresh_id p ≡ some (first_event fresh_id p)
unfolding id_of first_event normalize_promotion_event
accepted fresh_id p h = rw h refl

refused :
    (fresh_id : Text) (p : Payload)
    → is_short_id 64 (id_of fresh_id p) ≡ false
    → normalize_promotion_event fresh_id p ≡ none
unfolding id_of normalize_promotion_event
refused fresh_id p h = rw h refl

-- A chain of runs ends: if it may take as many runs as its first payload allows iterations (2 if it
-- says nothing), then it comes to an end, with at most so many runs. Each run but the last was no dry run,
-- applied some decision and left the least budget at least; and the run after it has the chain's
-- id, the next iteration, the same limit, and is no dry run. It is so whatever the runs cost and
-- apply, and whatever the budgets are.
pub run_promotion_chain_lem :
    (minus : Double → Double → Double) (self_url fresh_id : Text)
    (result : PromotionEvent → RunResult) (n : ℕ) (p : Payload)
    → at_least_one (or_fallback p.max_iterations 2) ≤ n
    → (runs : List PromotionEvent) × (run_promotion_chain minus self_url fresh_id result n p
        ≡ some runs)
      × IsLinked minus result runs
      × (length runs ≤ at_least_one (or_fallback p.max_iterations 2))
unfolding run_promotion_chain first_event
run_promotion_chain_lem minus self_url fresh_id result zero p h =
    let no : 1 ≤ 0 = omega (arith, h, at_least_one_positive (or_fallback p.max_iterations 2)) in
    elim no [ ]
run_promotion_chain_lem minus self_url fresh_id result (suc n) p h =
    elim (Bool-cases (is_short_id 64 (id_of fresh_id p))) [
      | inr e ↦ ([], rw (refused fresh_id p e) refl, tt, omega arith)
      | inl e ↦
          let ev = first_event fresh_id p in
          let one = at_least_one_positive (or_fallback p.max_iterations 2) in
          let positive = at_least_one_positive (or_fallback p.iteration 1) in
          let ends =
            chain-Ends minus result self_url fresh_id n ev e one (omega (arith, positive, h)) in
          (
            ev ∷ ends.later,
            rw (accepted fresh_id p e, ends.runs) refl,
            ends.linked,
            omega (arith, ends.few, positive, one),
          )
    ]
