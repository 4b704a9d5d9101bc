-- ===== src/Revisit/Lead/Start.antt =====
-- A chain from its first run: it prepares the queue, and the runs that follow drain it.
use trend_tree.Prelude.{
  ℕ, suc, ◌≤◌, ◌<◌, ◌≡◌, subst, inl, inr, List, [], ◌∷◌, some, false, not, ◌&&◌, Text, arith,
  length, All, Option-cases, count,
}
use trend_tree.Revisit.Packing.{Batch, bin_pack}
use trend_tree.Revisit.Packing.Batches.{Numbered, bin_pack_bounds}
use trend_tree.Revisit.Store.{QueueRow, Store, Trigger, Result, ok, bind}
use trend_tree.Revisit.Queue.{next_pending, pending_count, in_chain, enqueue}
use trend_tree.Revisit.Queue.Progress.{HasKey, next_pending-none}
use trend_tree.Revisit.Queue.Enqueue.{
  pending_count-enqueue, count-in_chain-enqueue, fresh-HasKey, enqueue-HasKey,
}
use trend_tree.Revisit.Pool.{pool_ids, claim}
use trend_tree.Revisit.Lead.{
  World, Event, Outcome, normalize_event, prepare_chain, cluster_pool, start_chain, is_zero,
  select_next_batch, dispatch, parse_cluster_result, commit_batch_result, finalize_or_continue,
  run_batch, run_event, run_lead, run_rest, run_chain,
}
use trend_tree.Revisit.Lead.Runs.{
  Cooperates, committed, committed-queue, count-committed, run_batch_selected,
}
use trend_tree.Revisit.Lead.Chain.{HasIds, Finished, run_rest-Finished}

-- The batches that a starting run queues.
abbrev batches_of : World → List Text → List Batch
batches_of w [] = []
batches_of w (i ∷ ids) = bin_pack (w.cluster (i ∷ ids))

abbrev pub planned : World → Store → List Batch
planned w s = batches_of w (pool_ids w.now s.candidates s.signals)

abbrev queued : Event → List Text → List Batch → Store → Store
queued ev ids bs s = record s {
  queue = enqueue ev.chain_id ev.agent_session_id (length bs) bs s.queue;
  signals = claim ev.agent_session_id ids s.signals;
}

pending-le-in_chain :
    (chain : Text) (q : List QueueRow) → pending_count chain q ≤ count (in_chain chain) q
unfolding pending_count
pending-le-in_chain chain [] = omega arith
pending-le-in_chain chain (r ∷ q) = ground (arith, pending-le-in_chain chain q)

-- A chain with no batch goes straight to its end.
run_batch_empty :
    (w : World) (ev : Event) (s : Store)
    → ev.is_continue ≡ false
    → run_batch w ev (some 0) s ≡ finalize_or_continue w ev s
unfolding run_batch select_next_batch dispatch parse_cluster_result commit_batch_result
run_batch_empty w ev s h = simp h

module _ (w : World) (ws : List World) (ev : Event) (s : Store)
    (fresh : count (in_chain ev.chain_id) s.queue ≡ 0) (ids : HasIds ev)
    (c : Cooperates ev.chain_id w) (cs : All (Cooperates ev.chain_id) ws) where
  abbrev Completes : ℕ → Result Outcome × Store → Type 0
  Completes n r = Finished ev.chain_id n (run_rest ws r)

  Completes-empty : ev.is_continue ≡ false → Completes 0 (run_batch w ev (some 0) s)
  Completes-empty start =
      let none_left : pending_count ev.chain_id s.queue ≡ 0 =
        omega (arith, pending-le-in_chain ev.chain_id s.queue, fresh) in
      rw (run_batch_empty w ev s start) (
        subst (λ n. Completes n (finalize_or_continue w ev s)) fresh
          (run_rest-Finished ws w ev s ids c cs (fresh-HasKey ev.chain_id s.queue fresh)
            (omega (arith, none_left))))

  Completes-queued :
      (pool : List Text) (bs : List Batch)
      → Numbered 0 bs
      → 0 < length bs
      → length bs ≤ suc (length ws)
      → Completes (length bs) (run_batch w ev (some (length bs)) (queued ev pool bs s))
  Completes-queued pool bs numbered some_batch enough =
      elim (Option-cases (next_pending ev.chain_id s1.queue)) [
        | inl e ↦ absurd (omega (arith, waiting, next_pending-none ev.chain_id s1.queue e))
        | inr (r, e) ↦
            let (falls, keeps) = committed-queue w ev r s1 c e key in
            rw (run_batch_selected w ev (some (length bs)) s1 r more e c) (
              subst (λ n. Completes n (finalize_or_continue w ev (committed w ev r s1))) (total r)
                (run_rest-Finished ws w ev (committed w ev r s1) ids c cs keeps
                  (omega (arith, falls, waiting))))
      ]
    where
      s1 : Store
      s1 = queued ev pool bs s

      waiting : pending_count ev.chain_id s1.queue ≡ length bs
      waiting = omega (
        arith,
        pending_count-enqueue ev.chain_id ev.agent_session_id (length bs) bs s.queue,
        pending-le-in_chain ev.chain_id s.queue,
        fresh,
      )

      key : HasKey ev.chain_id s1.queue
      key = enqueue-HasKey ev.chain_id ev.agent_session_id (length bs) bs s.queue numbered fresh

      more : (not ev.is_continue && is_zero (some (length bs))) ≡ false
      more = ground (arith, some_batch)

      total : (r : QueueRow) → count (in_chain ev.chain_id) (committed w ev r s1).queue ≡ length bs
      total r = omega (
        arith,
        count-committed w ev r s1 ev.chain_id,
        count-in_chain-enqueue ev.chain_id ev.agent_session_id (length bs) bs s.queue,
        fresh,
      )

  prepare-Completes :
      (pool : List Text) (bs : List Batch)
      → Numbered 0 bs
      → ev.is_continue ≡ false
      → length bs ≤ suc (length ws)
      → Completes (length bs) (bind (start_chain ev pool bs s) (run_batch w ev))
  unfolding start_chain
  prepare-Completes pool [] numbered start enough = Completes-empty start
  prepare-Completes pool (b ∷ bs) numbered start enough =
      Completes-queued pool (b ∷ bs) numbered (omega arith) enough

  cluster-Completes :
      (pool : List Text)
      → ev.is_continue ≡ false
      → length (batches_of w pool) ≤ suc (length ws)
      → Completes (length (batches_of w pool)) (bind (cluster_pool w ev pool s) (run_batch w ev))
  unfolding cluster_pool
  cluster-Completes [] start enough = Completes-empty start
  cluster-Completes (i ∷ pool) start enough =
      prepare-Completes (i ∷ pool) (bin_pack (w.cluster (i ∷ pool)))
        (bin_pack_bounds (w.cluster (i ∷ pool))).1 start enough

prepare_chain-start :
    (w : World) (ev : Event) (s : Store)
    → ev.is_continue ≡ false
    → prepare_chain w ev s ≡ cluster_pool w ev (pool_ids w.now s.candidates s.signals) s
unfolding prepare_chain
prepare_chain-start w ev s start = simp start

-- A starting run on a chain id that the queue does not hold, followed by the runs that it and its
-- successors fire, ends the chain. The two ids have the form that the next run demands; every run
-- can post to the cluster agent and to the workflow itself, the agent takes the request, and its
-- callback, if any, names this chain or none and has a number or nothing as its cost; and there are
-- as many runs as batches. Then the last run returns the chain's totals and leaves a cursor with
-- them, no batch is left pending, and each of the batches of `binPack` is done or failed.
pub chain_completes :
    (w : World) (ws : List World) (t : Trigger) (s : Store) (ev : Event)
    → normalize_event w t s ≡ (ok ev, s)
    → ev.is_continue ≡ false
    → HasIds ev
    → count (in_chain ev.chain_id) s.queue ≡ 0
    → Cooperates ev.chain_id w
    → All (Cooperates ev.chain_id) ws
    → length (planned w s) ≤ suc (length ws)
    → Finished ev.chain_id (length (planned w s)) (run_chain w ws t s)
unfolding run_chain run_lead run_event
chain_completes w ws t s ev normal start ids fresh c cs enough =
    rw (normal, prepare_chain-start w ev s start)
      (cluster-Completes w ws ev s fresh ids c cs (pool_ids w.now s.candidates s.signals) start
        enough)
