-- ===== src/Sourcing/Run/Trace.antt =====
-- What a run sends to the ledger, and that its receipt says so.
use trend_tree.Prelude.{
  ℕ, suc, ◌+◌, ◌≡◌, refl, ap, ◌∙◌, List, [], ◌∷◌, ◌++◌, Option, none, some, Bool, true, false, Text,
  ◌≢◌, lit, text_eq, All-append, inl, inr, arith, All, Bool-cases,
}
use trend_tree.Sourcing.Context.{Reply, threw, replied, Event, Decline, Context}
use trend_tree.Sourcing.Plan.{Outcome, matched, no_match, failed, CandidateRow, Plan}
use trend_tree.Sourcing.Run.{
  Telemetry, World, RunError, CostStatus, cost_ok, cost_error, CostRow, Statement, open_run,
  complete_run, insert_cost_row, Receipt, Run, of_call, error_of, open_refused, complete_refused,
  Planned, planned, not_planned, cost_row, cost_status, decline, recover, settle, close,
  complete_plan, proceed, run_unless, OpenReceipt, run_sourcing, plan_run,
}

-- How many runs the statements open.
abbrev pub opened : List Statement → ℕ
opened [] = 0
opened (open_run _ _ ∷ ss) = suc (opened ss)
opened (complete_run _ _ _ _ _ ∷ ss) = opened ss
opened (insert_cost_row _ ∷ ss) = opened ss

abbrev pub costs : List Statement → List CostRow
costs [] = []
costs (open_run _ _ ∷ ss) = costs ss
costs (complete_run _ _ _ _ _ ∷ ss) = costs ss
costs (insert_cost_row r ∷ ss) = r ∷ costs ss

-- What the 'complete' calls say, in order.
pub record Closing : Type 0 where
  pub id : Text
  pub outcome : Outcome
  pub error : Option RunError
  pub candidates : List CandidateRow

abbrev pub closings : List Statement → List Closing
closings [] = []
closings (open_run _ _ ∷ ss) = closings ss
closings (complete_run id o e _ cs ∷ ss) =
    record { id = id; outcome = o; error = e; candidates = cs } ∷ closings ss
closings (insert_cost_row _ ∷ ss) = closings ss

abbrev pub last {ℓ} : {A : Type ℓ} → List A → Option A
last [] = none
last (x ∷ []) = some x
last (x ∷ y ∷ ys) = last (y ∷ ys)

-- The receipt's own closing.
abbrev pub closing_of : Receipt → Outcome → Closing
closing_of r o = record {
  id = r.sourcing_run_id;
  outcome = o;
  error = r.error_message;
  candidates = r.candidates;
}

-- A cost row is fine exactly when the outcome is.
abbrev pub AgreesOn : Outcome → CostStatus → Type 0
AgreesOn matched s = s ≡ cost_ok
AgreesOn no_match s = s ≡ cost_ok
AgreesOn failed s = s ≢ cost_ok

-- If the header is recorded, then the last completion is the receipt's.
abbrev pub IsClosedAs : Bool → Run → Outcome → Type 0
IsClosedAs true run o = last (closings run.statements) ≡ some (closing_of run.receipt o)
IsClosedAs false run o = Unit

IsClosedAs-any :
    (b : Bool) (run : Run) (o : Outcome)
    → last (closings run.statements) ≡ some (closing_of run.receipt o)
    → IsClosedAs b run o
IsClosedAs-any true run o h = h
IsClosedAs-any false run o h = tt

abbrev pub IsRecorded : Run → Type 0
IsRecorded run =
    (o : Outcome) × (run.receipt.outcome ≡ some o)
    × (opened run.statements ≡ 1)
    × ((row : CostRow) × (costs run.statements ≡ row ∷ [])
        × (row.error_message ≡ run.receipt.error_message)
        × AgreesOn o row.status)
    × All (λ c. c.id ≡ run.receipt.sourcing_run_id) (closings run.statements)
    × IsClosedAs run.receipt.header_recorded run o

abbrev Starts : List Statement → Text → Type 0
Starts sent id = (opened sent ≡ 1) × (costs sent ≡ []) × All (λ c. c.id ≡ id) (closings sent)

opened-append : (ss ts : List Statement) → opened (ss ++ ts) ≡ opened ss + opened ts
opened-append [] ts = omega arith
opened-append (open_run _ _ ∷ ss) ts = omega (arith, opened-append ss ts)
opened-append (complete_run _ _ _ _ _ ∷ ss) ts = opened-append ss ts
opened-append (insert_cost_row _ ∷ ss) ts = opened-append ss ts

costs-append : (ss ts : List Statement) → costs (ss ++ ts) ≡ costs ss ++ costs ts
costs-append [] ts = refl
costs-append (open_run _ _ ∷ ss) ts = costs-append ss ts
costs-append (complete_run _ _ _ _ _ ∷ ss) ts = costs-append ss ts
costs-append (insert_cost_row r ∷ ss) ts = ap (r ∷◌) (costs-append ss ts)

closings-append : (ss ts : List Statement) → closings (ss ++ ts) ≡ closings ss ++ closings ts
closings-append [] ts = refl
closings-append (open_run _ _ ∷ ss) ts = closings-append ss ts
closings-append (complete_run id o e n cs ∷ ss) ts =
    ap (record { id = id; outcome = o; error = e; candidates = cs } ∷◌) (closings-append ss ts)
closings-append (insert_cost_row _ ∷ ss) ts = closings-append ss ts

last-append {ℓ} : {A : Type ℓ} (xs : List A) (x : A) → last (xs ++ x ∷ []) ≡ some x
last-append [] x = refl
last-append (y ∷ []) x = refl
last-append (y ∷ z ∷ zs) x = last-append (z ∷ zs) x

append_nil {ℓ} : {A : Type ℓ} (xs : List A) → xs ++ [] ≡ xs
append_nil [] = refl
append_nil (x ∷ xs) = ap (x ∷◌) (append_nil xs)

-- The error path records its failure.
recover-IsRecorded :
    (w : World) (evt : Event) (sent : List Statement) (id : Text) (t : Option Telemetry)
    (e : RunError)
    → Starts sent id
    → IsRecorded (recover w evt sent id t e)
unfolding recover
recover-IsRecorded w evt sent [] t e (one, free, ids) = (
  failed,
  refl,
  opened-append sent (cost_only [] t e) ∙ omega (arith, one),
  (
    cost_row evt t cost_error (some e),
    costs-append sent (cost_only [] t e) ∙ rw free refl,
    refl,
    λ h. cc,
  ),
  rw (closings-append sent (cost_only [] t e), append_nil (closings sent)) ids,
  tt,
)
  where
    cost_only : List Statement → Option Telemetry → RunError → List Statement
    cost_only ss t e = ss ++ insert_cost_row (cost_row evt t cost_error (some e)) ∷ []
recover-IsRecorded w evt sent (c ∷ id) t e (one, free, ids) =
    let closing = complete_run (c ∷ id) failed (some e) none [] in
    let row = cost_row evt t cost_error (some e) in
    let rest = closing ∷ insert_cost_row row ∷ [] in
    let said : Closing = record {
      id = c ∷ id;
      outcome = failed;
      error = some e;
      candidates = [];
    } in
    (
      failed,
      refl,
      opened-append sent rest ∙ omega (arith, one),
      (row, costs-append sent rest ∙ rw free refl, refl, λ h. cc),
      rw (closings-append sent rest)
          (All-append (λ c'. c'.id ≡ c ∷ id) (closings sent) (said ∷ []) ids (refl, tt)),
      IsClosedAs-any _ (recover w evt sent (c ∷ id) t e) failed
          (rw (closings-append sent rest) (last-append (closings sent) said)),
    )

cost_status-AgreesOn : (o : Outcome) (t : Option Telemetry) → AgreesOn o (cost_status o t)
unfolding cost_status
cost_status-AgreesOn matched t = refl
cost_status-AgreesOn no_match t = refl
cost_status-AgreesOn failed none = λ h. cc
cost_status-AgreesOn failed (some t) =
    elim (Bool-cases (text_eq t.stop_reason (lit "budget_exhausted"))) [
      | inl e ↦ rw e λ h. cc
      | inr e ↦ rw e λ h. cc
    ]

close-IsRecorded :
    (w : World) (evt : Event) (trend session id : Text) (plan : Plan) (t : Option Telemetry)
    (reply : Reply Bool)
    → let sent =
        open_run trend session
        ∷ complete_run id plan.outcome
            (error_of plan.error_message)
            plan.selector_note
            plan.candidates
        ∷ [] in
      IsRecorded (close w evt sent id plan t reply)
unfolding close settle
close-IsRecorded w evt trend session id plan t (threw m) =
    recover-IsRecorded w evt _ id t (of_call m) (refl, refl, (refl, tt))
close-IsRecorded w evt trend session id plan t (replied false) =
    recover-IsRecorded w evt _ id t complete_refused (refl, refl, (refl, tt))
close-IsRecorded w evt trend session id plan t (replied true) = (
  plan.outcome,
  refl,
  refl,
  (
    cost_row evt t (cost_status plan.outcome t) (error_of plan.error_message),
    refl,
    refl,
    cost_status-AgreesOn plan.outcome t,
  ),
  (refl, tt),
  refl,
)

complete_plan-IsRecorded :
    (w : World) (evt : Event) (trend session id : Text) (p : Planned)
    → IsRecorded (complete_plan w evt (open_run trend session ∷ []) id p)
unfolding complete_plan
complete_plan-IsRecorded w evt trend session id (not_planned e) =
    recover-IsRecorded w evt (open_run trend session ∷ []) id none e (refl, refl, tt)
complete_plan-IsRecorded w evt trend session id (planned plan t) =
    close-IsRecorded w evt trend session id plan t w.complete

proceed-IsRecorded :
    (w : World) (evt : Event) (ctx : Context) (reply : Reply OpenReceipt)
    → IsRecorded (proceed w evt ctx reply)
unfolding proceed
proceed-IsRecorded w evt ctx (threw m) =
    recover-IsRecorded w evt _ [] none (of_call m) (refl, refl, tt)
proceed-IsRecorded w evt ctx (replied r) = elim (Bool-cases r.applied) [
  | inl a ↦ rw a (
      complete_plan-IsRecorded w evt evt.trend_id evt.agent_session_id r.sourcing_run_id
        (plan_run w evt ctx))
  | inr a ↦ rw a (recover-IsRecorded w evt _ [] none open_refused (refl, refl, tt))
]

-- What a run did, given whether its context declines.
abbrev pub IsTraced : Option Decline → Run → Type 0
IsTraced (some d) run =
    (run.statements ≡ []) × (run.receipt.header_recorded ≡ false) × (run.receipt.outcome ≡ none)
IsTraced none run = IsRecorded run

run_unless-IsTraced :
    (w : World) (evt : Event) (ctx : Context) (d : Option Decline)
    → IsTraced d (run_unless w evt ctx d)
unfolding run_unless decline
run_unless-IsTraced w evt ctx (some d) = (refl, refl, refl)
run_unless-IsTraced w evt ctx none = proceed-IsRecorded w evt ctx w.opening

-- A run that declines sends nothing and records no outcome. Every other run, whichever call fails,
-- opens one header, writes one cost row, which carries the receipt's error and is fine exactly when
-- the outcome is not 'failed', completes no header but the one in the receipt, and if the receipt
-- says that the header was recorded, then the last completion says what the receipt says.
pub run_sourcing_lem :
    (w : World) (evt : Event) (ctx : Context) → IsTraced ctx.declined (run_sourcing w evt ctx)
unfolding run_sourcing
run_sourcing_lem w evt ctx = run_unless-IsTraced w evt ctx ctx.declined
