-- ===== src/Sourcing/Poll/Claims.antt =====
-- What the receipt of a tick says of the claims, the clock and the runs.
use trend_tree.Prelude.{
  ℕ, zero, suc, ◌+◌, ◌≤◌, ◌<◌, ◌≡◌, refl, ap, subst, List, [], ◌∷◌, map, Option, none, some, Bool,
  true, false, Text, inl, inr, arith, length, take, ltb, Bool-cases,
}
use trend_tree.Sourcing.Poll.{
  summarize_poll, Tick, poll_loop, run_poll, has_budget_remaining, source_one, summarize_run,
  summarize_fault, source_event, source_context, Attempt,
}
use trend_tree.Sourcing.Context.{
  Reply, threw, replied, Event, Context, fetch_context, normalize_event,
}

-- The clock stands within the budget.
abbrev pub has_time : Tick → ℕ → Bool
has_time w k = ltb (w.clock k) (w.started_at + w.budget_ms)

source_context-trend_id :
    (t : Text) (a : Attempt) (evt : Event) (ctx : Reply Context)
    → (source_context t a evt ctx).trend_id ≡ t
unfolding source_context summarize_run summarize_fault
source_context-trend_id t a evt (threw m) = refl
source_context-trend_id t a evt (replied ctx) = refl

source_event-trend_id :
    (t : Text) (a : Attempt) (evt : Option Event) → (source_event t a evt).trend_id ≡ t
unfolding source_event summarize_fault
source_event-trend_id t a none = refl
source_event-trend_id t a (some evt) = source_context-trend_id t a evt (fetch_context a.now a.reads)

source_one-trend_id : (chain t : Text) (a : Attempt) → (source_one chain t a).trend_id ≡ t
unfolding source_one
source_one-trend_id chain t a = source_event-trend_id t a (normalize_event chain a.session _)

-- A tick stops at the first claim that the clock forbids, and nowhere else.
abbrev pub IsCut : Tick → ℕ → ℕ → ℕ → Bool → Type 0
IsCut w k n claimed true = (n < claimed) × (has_time w (k + n) ≡ false)
IsCut w k n claimed false = n ≡ claimed

IsCut-suc :
    (w : Tick) (k n claimed : ℕ) (b : Bool)
    → IsCut w (suc k) n claimed b
    → IsCut w k (suc n) (suc claimed) b
IsCut-suc w k n claimed true (few, late) =
    (omega (arith, few), subst (λ i. has_time w i ≡ false) (shift k n) late)
  where
    shift : (k n : ℕ) → suc k + n ≡ k + suc n
    shift k n = omega arith
IsCut-suc w k n claimed false e = ap suc e

-- The `n` claims from place `k` have time.
abbrev pub HadTime : Tick → ℕ → ℕ → Type 0
HadTime w k zero = Unit
HadTime w k (suc n) = (has_time w k ≡ true) × HadTime w (suc k) n

loop_lem :
    (w : Tick) (k : ℕ) (claims : List Text)
    → let done = poll_loop w k claims in
      (map (λ s. s.trend_id) done.runs ≡ take (length done.runs) claims)
      × HadTime w k (length done.runs)
      × IsCut w k (length done.runs) (length claims) done.budget_exhausted
      × (length done.runs ≤ length claims)
unfolding poll_loop has_budget_remaining
loop_lem w k [] = (refl, tt, refl, omega arith)
loop_lem w k (t ∷ claims) = elim (Bool-cases (ltb (w.clock k) (w.started_at + w.budget_ms))) [
  | inl e ↦
      let done = poll_loop w (suc k) claims in
      let (ids, early, cut, few) = loop_lem w (suc k) claims in
      rw e (
        cc (ids, source_one-trend_id w.chain_id t (w.attempts k)),
        (e, early),
        IsCut-suc w k (length done.runs) (length claims) done.budget_exhausted cut,
        omega (arith, few),
      )
  | inr e ↦ rw e (refl, tt, (omega arith, now w k e), omega arith)
]
  where
    now : (w : Tick) (k : ℕ) → has_time w k ≡ false → has_time w (k + 0) ≡ false
    now w k e = subst (λ i. has_time w i ≡ false) (start k) e
      where
        start : (k : ℕ) → k ≡ k + 0
        start k = omega arith

-- A tick sources a first part of its claims, in their order, one run for each, whatever their runs
-- do; what it processed and what remains are what it claimed; each sourced claim found the clock
-- within the budget; and the receipt says that the budget is exhausted exactly when a claim
-- remains, the first of which found the clock beyond it.
pub run_poll_lem :
    (w : Tick) (batch : List Text)
    → let r = run_poll w batch in
      (map (λ s. s.trend_id) r.runs ≡ take r.processed batch)
      × (r.processed + r.remaining ≡ length batch)
      × HadTime w 0 r.processed
      × IsCut w 0 r.processed (length batch) r.budget_exhausted
unfolding run_poll summarize_poll
run_poll_lem w batch =
    let (ids, early, cut, few) = loop_lem w 0 batch in (ids, omega (arith, few), early, cut)
