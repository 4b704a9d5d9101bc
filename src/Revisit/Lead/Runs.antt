-- ===== src/Revisit/Lead/Runs.antt =====
-- What one run does with the batch that it selects.
use trend_tree.Prelude.{
  ℕ, suc, ◌≡◌, [], ◌∷◌, ◌++◌, map, Option, none, some, true, false, not, ◌&&◌, Text, count,
}
use trend_tree.Revisit.Store.{QueueRow, Store, Request}
use trend_tree.Revisit.Queue.{in_chain, next_pending, pending_count, end_batch}
use trend_tree.Revisit.Queue.Progress.{
  count-in_chain-end_batch, HasKey, end_batch-HasKey, end_batch-next_pending,
}
use trend_tree.Revisit.Lead.{
  World, status, Event, Meta, is_ok_status, is_zero, ending, select_next_batch, dispatch,
  acknowledged, parse_resume, commit_batch_result, finalize_or_continue, run_batch,
}
use trend_tree.Revisit.Lead.Callbacks.{
  SameChain, IsCosted, delivered, not_pending, parse_resume-parts, parse_resume-chain,
  parse_cluster_result-costed,
}

-- The cluster agent takes the request, its callback fits, and the next run can be fired.
pub record Cooperates (chain : Text) (w : World) : Type 0 where
  pub has_cluster_url : w.cluster_url_set ≡ true
  pub code : ℕ
  pub acknowledges : w.ack ≡ status code
  pub accepts : is_ok_status code ≡ true
  pub answers : SameChain chain w.resume
  pub charges : IsCosted w.resume
  pub has_lead_url : w.lead_url_set ≡ true
  pub posts : w.self_post ≡ true

abbrev request : Event → QueueRow → Request
request ev r = record {
  cluster_rows = r.cluster_rows;
  signal_ids = r.signal_ids;
  agent_session_id = ev.agent_session_id;
  chain_id = ev.chain_id;
}

abbrev meta_of : Event → QueueRow → Meta
meta_of ev r = record {
  chain_id = ev.chain_id;
  agent_session_id = ev.agent_session_id;
  batch_index = r.batch_index;
  signals_seen = r.signal_count;
}

-- The store when the batch of row `r` is committed.
pub committed : World → Event → QueueRow → Store → Store
committed w ev r s =
    let p = parse_resume w (meta_of ev r) w.resume in
    record s {
      sent = s.sent ++ request ev r ∷ [];
      candidates =
          s.candidates
          ++ map (λ c. record { proposal = c; promoted_to = none }) p.proposed_candidates;
      queue = end_batch p.chain_id p.batch_index (ending p) s.queue;
    }

pub run_batch_selected :
    (w : World) (ev : Event) (total : Option ℕ) (s : Store) (r : QueueRow)
    → (not ev.is_continue && is_zero total) ≡ false
    → next_pending ev.chain_id s.queue ≡ some r
    → Cooperates ev.chain_id w
    → run_batch w ev total s ≡ finalize_or_continue w ev (committed w ev r s)
unfolding run_batch select_next_batch dispatch acknowledged commit_batch_result committed
run_batch_selected w ev total s r more next c = simp (
  more,
  next,
  c.has_cluster_url,
  c.acknowledges,
  c.accepts,
  parse_cluster_result-costed w (meta_of ev r) (record s { sent = s.sent ++ request ev r ∷ [] })
      c.charges,
)

-- The chain's rows after the batch of the selected row is committed.
pub committed-queue :
    (w : World) (ev : Event) (r : QueueRow) (s : Store)
    → Cooperates ev.chain_id w
    → next_pending ev.chain_id s.queue ≡ some r
    → HasKey ev.chain_id s.queue
    → (suc (pending_count ev.chain_id (committed w ev r s).queue)
        ≡ pending_count ev.chain_id s.queue)
      × HasKey ev.chain_id (committed w ev r s).queue
unfolding committed
committed-queue w ev r s c next key =
    let p = parse_resume w (meta_of ev r) w.resume in
    let (_, st, idx) = parse_resume-parts w (meta_of ev r) w.resume in
    let chain = parse_resume-chain w (meta_of ev r) w.resume c.answers in
    rw (chain, idx)
      (
        (end_batch-next_pending ev.chain_id s.queue r (ending p) next key
            (rw st (not_pending (delivered w.resume)))).0,
        end_batch-HasKey ev.chain_id ev.chain_id r.batch_index (ending p) s.queue key,
      )

pub count-committed :
    (w : World) (ev : Event) (r : QueueRow) (s : Store) (chain : Text)
    → count (in_chain chain) (committed w ev r s).queue ≡ count (in_chain chain) s.queue
unfolding committed
count-committed w ev r s chain = count-in_chain-end_batch _ chain _ _ s.queue
