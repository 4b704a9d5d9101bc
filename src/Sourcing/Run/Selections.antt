-- ===== src/Sourcing/Run/Selections.antt =====
-- How much a run writes for a trend.
use trend_tree.Prelude.{
  ◌≤◌, ap, sym, ◌∙◌, subst, List, [], ◌∷◌, Option, none, some, Bool, true, false, Text, inl, inr,
  arith, count, length, length-map, All, All-append, is_empty, Bool-cases,
}
use trend_tree.Sourcing.Context.{Reply, threw, replied, Event, Decline, Context}
use trend_tree.Sourcing.Pool.{Entry, apply_floor_and_top_n}
use trend_tree.Sourcing.Pool.Order.{apply_floor_and_top_n_lem, apply_floor_and_top_n_idem}
use trend_tree.Sourcing.Plan.{
  Pick, Emission, Outcome, matched, no_match, failed, CandidateRow, Plan, build_sourcing_run_plan,
  max_sourced_products,
}
use trend_tree.Sourcing.Plan.Rows.{IsReport, raw_picks, build_sourcing_run_plan_lem}
use trend_tree.Sourcing.Plan.Selected.{HasUniqueIds, build_sourcing_run_plan-Selects}
use trend_tree.Sourcing.Run.{
  Telemetry, World, Selection, OpenReceipt, Statement, Planned, planned, not_planned, decline,
  recover, settle, close, complete_plan, proceed, run_unless, run_sourcing, plan_run, plan_shown,
  ask_selector, plan_reply, RunError, of_call, open_refused, complete_refused, open_run,
  complete_run, insert_cost_row,
}

-- At most ten rows, of which at most five are selected.
abbrev pub IsSmall : List CandidateRow → Type 0
IsSmall cs = (length cs ≤ 10) × (count (λ r. r.selected) cs ≤ 5)

rows_few :
    (pool : List Entry) (raw : List Pick) (plan : Plan) (o : Outcome)
    → length pool ≤ 10
    → IsReport pool raw plan o
    → length plan.candidates ≤ 10
rows_few pool raw plan matched h r =
    let ids = ap length r.1 in
    omega (
      arith,
      h,
      sym (length-map (λ x. x.catalog_product_id) plan.candidates)
          ∙ ids
          ∙ length-map (λ x. x.catalog_product_id) pool,
    )
rows_few pool raw plan no_match h r = rw r.1 (omega arith)
rows_few pool raw plan failed h r = rw r.1 (omega arith)

plan-IsSmall :
    (pool : List Entry) (emission : Option Emission)
    → HasUniqueIds (apply_floor_and_top_n pool)
    → IsSmall (build_sourcing_run_plan pool emission max_sourced_products).candidates
plan-IsSmall pool emission u =
    let plan = build_sourcing_run_plan pool emission max_sourced_products in
    (
      rows_few (apply_floor_and_top_n pool) (raw_picks emission) plan plan.outcome
          (apply_floor_and_top_n_lem pool).0
          (build_sourcing_run_plan_lem pool emission max_sourced_products),
      (build_sourcing_run_plan-Selects pool emission max_sourced_products u).1,
    )

abbrev IsSmallPlan : Planned → Type 0
IsSmallPlan (planned plan t) = IsSmall plan.candidates
IsSmallPlan (not_planned e) = Unit

plan_reply-IsSmall :
    (pool : List Entry) (reply : Reply Selection)
    → HasUniqueIds (apply_floor_and_top_n pool)
    → IsSmallPlan (plan_reply pool reply)
unfolding plan_reply
plan_reply-IsSmall pool (threw m) u = tt
plan_reply-IsSmall pool (replied s) u = plan-IsSmall pool s.emit u

plan_shown-IsSmall :
    (w : World) (template : Text) (pool : List Entry)
    → HasUniqueIds (apply_floor_and_top_n pool)
    → IsSmallPlan (plan_shown w template pool)
unfolding ask_selector
plan_shown-IsSmall w template [] u = plan-IsSmall [] none u
plan_shown-IsSmall w template (c ∷ cs) u = elim (Bool-cases (is_empty template)) [
  | inl t ↦ rw t tt
  | inr t ↦ rw t (plan_reply-IsSmall (c ∷ cs) (w.selector (c ∷ cs)) u)
]

plan_run-IsSmall :
    (w : World) (evt : Event) (ctx : Context)
    → HasUniqueIds (apply_floor_and_top_n ctx.pool)
    → IsSmallPlan (plan_run w evt ctx)
unfolding plan_run
plan_run-IsSmall w evt ctx u = elim (Bool-cases ctx.trend_found) [
  | inl t ↦
      let shown = apply_floor_and_top_n ctx.pool in
      rw t (
        plan_shown-IsSmall w ctx.template shown
          (subst HasUniqueIds (sym (apply_floor_and_top_n_idem ctx.pool)) u))
  | inr t ↦ rw t (omega arith, omega arith)
]

abbrev pub SendsSmall : Statement → Type 0
SendsSmall (open_run _ _) = Unit
SendsSmall (complete_run _ _ _ _ cs) = IsSmall cs
SendsSmall (insert_cost_row _) = Unit

recover-IsSmall :
    (w : World) (evt : Event) (sent : List Statement) (id : Text) (t : Option Telemetry)
    (e : RunError)
    → All SendsSmall sent
    → All SendsSmall (recover w evt sent id t e).statements
unfolding recover
recover-IsSmall w evt sent [] t e h = All-append SendsSmall sent _ h (tt, tt)
recover-IsSmall w evt sent (c ∷ id) t e h =
    All-append SendsSmall sent _ h ((omega arith, omega arith), (tt, tt))

close-IsSmall :
    (w : World) (evt : Event) (sent : List Statement) (id : Text) (plan : Plan)
    (t : Option Telemetry) (reply : Reply Bool)
    → All SendsSmall sent
    → All SendsSmall (close w evt sent id plan t reply).statements
unfolding close settle
close-IsSmall w evt sent id plan t (threw m) h = recover-IsSmall w evt sent id t (of_call m) h
close-IsSmall w evt sent id plan t (replied false) h =
    recover-IsSmall w evt sent id t complete_refused h
close-IsSmall w evt sent id plan t (replied true) h = All-append SendsSmall sent _ h (tt, tt)

complete_plan-IsSmall :
    (w : World) (evt : Event) (sent : List Statement) (id : Text) (p : Planned)
    → IsSmallPlan p
    → All SendsSmall sent
    → All SendsSmall (complete_plan w evt sent id p).statements
unfolding complete_plan
complete_plan-IsSmall w evt sent id (not_planned e) s h = recover-IsSmall w evt sent id none e h
complete_plan-IsSmall w evt sent id (planned plan t) s h =
    close-IsSmall w evt _ id plan t w.complete (All-append SendsSmall sent _ h (s, tt))

proceed-IsSmall :
    (w : World) (evt : Event) (ctx : Context) (reply : Reply OpenReceipt)
    → HasUniqueIds (apply_floor_and_top_n ctx.pool)
    → All SendsSmall (proceed w evt ctx reply).statements
unfolding proceed
proceed-IsSmall w evt ctx (threw m) u = recover-IsSmall w evt _ [] none (of_call m) (tt, tt)
proceed-IsSmall w evt ctx (replied r) u = elim (Bool-cases r.applied) [
  | inl a ↦ rw a (
      complete_plan-IsSmall w evt _ r.sourcing_run_id (plan_run w evt ctx)
        (plan_run-IsSmall w evt ctx u) (tt, tt))
  | inr a ↦ rw a (recover-IsSmall w evt _ [] none open_refused (tt, tt))
]

run_unless-IsSmall :
    (w : World) (evt : Event) (ctx : Context) (d : Option Decline)
    → HasUniqueIds (apply_floor_and_top_n ctx.pool)
    → All SendsSmall (run_unless w evt ctx d).statements
unfolding run_unless decline
run_unless-IsSmall w evt ctx (some d) u = tt
run_unless-IsSmall w evt ctx none u = proceed-IsSmall w evt ctx w.opening u

-- If the shown pool has no product twice, then whatever the selector emits and whichever call
-- fails, each completion that a run sends has at most ten rows, of which at most five are selected.
pub run_sourcing-IsSmall :
    (w : World) (evt : Event) (ctx : Context)
    → HasUniqueIds (apply_floor_and_top_n ctx.pool)
    → All SendsSmall (run_sourcing w evt ctx).statements
unfolding run_sourcing
run_sourcing-IsSmall w evt ctx u = run_unless-IsSmall w evt ctx ctx.declined u
