-- ===== src/Revisit/Lead/Chain.antt =====
-- A chain of runs, from a prepared queue to the merge of the cursor.
use trend_tree.Prelude.{
  ℕ, suc, ◌+◌, ◌≤◌, ◌≡◌, refl, sym, subst, inl, inr, List, [], ◌∷◌, ◌++◌, none, some, true, false,
  Text, text_eq, arith, length, lt→ltb, All, Option-cases, count,
}
use trend_tree.Revisit.Store.{Store, Trigger, Result, ok, Cursor}
use trend_tree.Revisit.Queue.{next_pending, pending_count, totals, Totals, in_chain}
use trend_tree.Revisit.Queue.Progress.{HasKey, next_pending-none, total_batches-totals}
use trend_tree.Revisit.Lead.{
  World, Event, Outcome, fired_next_batch, finalized, is_id, normalize_event, prepare_chain,
  finalize_or_continue, fire_next, finalize, run_batch, run_event, run_lead, run_posted, run_rest,
  latest, next_trigger, default_budget,
}
use trend_tree.Revisit.Lead.Runs.{
  Cooperates, committed, committed-queue, count-committed, run_batch_selected,
}

latest-append : (ts : List Trigger) (t : Trigger) → latest (ts ++ t ∷ []) ≡ some t
latest-append [] t = refl
latest-append (a ∷ []) t = refl
latest-append (a ∷ b ∷ ts) t = latest-append (b ∷ ts) t

-- The event of the run that a self-POST starts.
abbrev resumed : Event → Event
resumed ev = record {
  is_continue = true;
  agent_session_id = ev.agent_session_id;
  chain_id = ev.chain_id;
  dry_run = false;
  budget_per_subagent_usd = default_budget;
}

-- The ids that the self-POST carries pass the next run's checks.
pub record HasIds (ev : Event) : Type 0 where
  pub chain_ok : is_id ev.chain_id ≡ true
  pub session_ok : is_id ev.agent_session_id ≡ true

normalize_event-next_trigger :
    (w : World) (ev : Event) (s : Store)
    → HasIds ev
    → normalize_event w (next_trigger ev) s ≡ (ok (resumed ev), s)
unfolding normalize_event text_eq
normalize_event-next_trigger w ev s h = simp (h.chain_ok, h.session_ok)

-- The self-POST of a run starts a run that goes on with the same chain and session.
pub run_lead-next_trigger :
    (w : World) (ev : Event) (s : Store)
    → HasIds ev
    → run_lead w (next_trigger ev) s ≡ run_batch w (resumed ev) none s
unfolding run_lead run_event prepare_chain
run_lead-next_trigger w ev s h = rw (normalize_event-next_trigger w ev s h)

-- The store when the next run has been fired.
abbrev fired : Event → Store → Store
fired ev s = record s { posted = s.posted ++ next_trigger ev ∷ [] }

fires :
    (w : World) (ev : Event) (s : Store) (n : ℕ)
    → pending_count ev.chain_id s.queue ≡ suc n
    → Cooperates ev.chain_id w
    → finalize_or_continue w ev s ≡ (ok fired_next_batch, fired ev s)
unfolding finalize_or_continue fire_next
fires w ev s n h c = simp (h, lt→ltb 0 (suc n) (omega arith), c.has_lead_url, c.posts)

finalizes :
    (w : World) (ev : Event) (s : Store)
    → pending_count ev.chain_id s.queue ≡ 0
    → finalize_or_continue w ev s ≡ finalize w ev s
unfolding finalize_or_continue
finalizes w ev s h = simp h

-- The row of the cursor table that holds the totals of a chain.
abbrev pub cursor_of : ℕ → Totals → Cursor
cursor_of now agg = record {
  last_run_at = now;
  run_duration_ms = agg.duration_total_ms;
  signal_count = agg.signals_total;
  candidate_count = agg.candidates_total;
  cost_usd = agg.cost_total;
}

-- The chain is finished: the last run returned its totals and left a cursor with them, no batch is
-- pending, and each of the `n` batches is done or failed.
pub record Finished (chain : Text) (n : ℕ) (r : Result Outcome × Store) : Type 0 where
  pub totalled : r.0 ≡ ok (finalized (totals chain r.1.queue))
  pub merged_at : ℕ
  pub merged : r.1.cursor ≡ some (cursor_of merged_at (totals chain r.1.queue))
  pub drained : pending_count chain r.1.queue ≡ 0
  pub batches : (totals chain r.1.queue).total_batches ≡ n
  pub ended : (totals chain r.1.queue).done_count + (totals chain r.1.queue).failed_count ≡ n

finalize-Finished :
    (w : World) (ev : Event) (s : Store) (n : ℕ)
    → pending_count ev.chain_id s.queue ≡ 0
    → count (in_chain ev.chain_id) s.queue ≡ n
    → Finished ev.chain_id n (finalize w ev s)
unfolding finalize totals
finalize-Finished w ev s n h k = record {
  totalled = refl;
  merged_at = w.now;
  merged = refl;
  drained = h;
  batches = k;
  ended = omega (arith, total_batches-totals ev.chain_id s.queue, k);
}

run_posted-fired :
    (w : World) (ev : Event) (s : Store)
    → HasIds ev
    → run_posted w (latest (s.posted ++ next_trigger ev ∷ [])) (fired ev s)
      ≡ run_batch w (resumed ev) none (fired ev s)
unfolding run_posted
run_posted-fired w ev s ids =
    rw (latest-append s.posted (next_trigger ev)) (run_lead-next_trigger w ev (fired ev s) ids)

-- With a cooperating world for each pending batch, the runs that follow finish the chain.
pub run_rest-Finished :
    (ws : List World) (w : World) (ev : Event) (s : Store)
    → HasIds ev
    → Cooperates ev.chain_id w
    → All (Cooperates ev.chain_id) ws
    → HasKey ev.chain_id s.queue
    → pending_count ev.chain_id s.queue ≤ length ws
    → Finished ev.chain_id
        (count (in_chain ev.chain_id) s.queue)
        (run_rest ws (finalize_or_continue w ev s))
unfolding run_rest
run_rest-Finished [] w ev s ids c cs key h =
    let none_left : pending_count ev.chain_id s.queue ≡ 0 = omega (arith, h) in
    rw (finalizes w ev s none_left) (finalize-Finished w ev s _ none_left refl)
run_rest-Finished (v ∷ ws) w ev s ids c cs key h =
    elim (Option-cases (next_pending ev.chain_id s.queue)) [
      | inl e ↦
          let none_left = next_pending-none ev.chain_id s.queue e in
          rw (finalizes w ev s none_left)
            (unfold finalize in finalize-Finished w ev s _ none_left refl)
      | inr (r, e) ↦
          let next = committed v (resumed ev) r (fired ev s) in
          let (falls, keeps) = committed-queue v (resumed ev) r (fired ev s) cs.0 e key in
          rw
            (
              fires w ev s (pending_count ev.chain_id next.queue) (sym falls) c,
              run_posted-fired v ev s ids,
              run_batch_selected v (resumed ev) none (fired ev s) r refl e cs.0,
            )
            (subst
              (λ n. Finished ev.chain_id n (run_rest ws (finalize_or_continue v (resumed ev) next)))
              (count-committed v (resumed ev) r (fired ev s) ev.chain_id)
              (run_rest-Finished ws v (resumed ev) next
                (record { chain_ok = ids.chain_ok; session_ok = ids.session_ok }) cs.0 cs.1 keeps
                (omega (arith, falls, h))))
    ]
