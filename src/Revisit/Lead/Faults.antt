-- ===== src/Revisit/Lead/Faults.antt =====
-- A run whose request the cluster agent does not take.
use trend_tree.Prelude.{
  ℕ, ◌≡◌, refl, Option, none, some, true, false, not, ◌&&◌, arith, if◌then◌else◌,
}
use trend_tree.Revisit.Store.{QueueRow, Store, Fault, cluster_unreachable, cluster_http, err}
use trend_tree.Revisit.Queue.{next_pending}
use trend_tree.Revisit.Lead.{
  World, Ack, unreachable, status, Event, is_ok_status, is_zero, select_next_batch, dispatch,
  acknowledged, run_batch,
}

-- The answer to the request is a fault.
abbrev pub fault_of : Ack → Option Fault
fault_of unreachable = some cluster_unreachable
fault_of (status n) = if is_ok_status n then none else some (cluster_http n)

-- If the request to the cluster agent fails, the run throws that fault, and the queue, the signals,
-- the candidates and the cursor are as before: so the batch is still the next one to be selected.
pub run_batch_fault :
    (w : World) (ev : Event) (total : Option ℕ) (s : Store) (r : QueueRow) (e : Fault)
    → (not ev.is_continue && is_zero total) ≡ false
    → next_pending ev.chain_id s.queue ≡ some r
    → w.cluster_url_set ≡ true
    → fault_of w.ack ≡ some e
    → let after = run_batch w ev total s in
      (after.0 ≡ err e)
      × (after.1.queue ≡ s.queue)
      × (after.1.signals ≡ s.signals)
      × (after.1.candidates ≡ s.candidates)
      × (after.1.cursor ≡ s.cursor)
      × (after.1.posted ≡ s.posted)
unfolding run_batch select_next_batch dispatch acknowledged
run_batch_fault w ev total s r e more next url fault = by_ack w.ack refl fault
  where
    by_ack :
        (a : Ack)
        → w.ack ≡ a
        → fault_of a ≡ some e
        → let after = run_batch w ev total s in
          (after.0 ≡ err e)
          × (after.1.queue ≡ s.queue)
          × (after.1.signals ≡ s.signals)
          × (after.1.candidates ≡ s.candidates)
          × (after.1.cursor ≡ s.cursor)
          × (after.1.posted ≡ s.posted)
    by_ack unreachable a h = simp (more, next, url, a) (ground arith)
    by_ack (status n) a h = simp (more, next, url, a) (ground arith)
