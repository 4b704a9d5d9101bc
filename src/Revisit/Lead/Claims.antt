-- ===== src/Revisit/Lead/Claims.antt =====
-- The two things that a starting run does to the shared tables, together.
use trend_tree.Prelude.{
  ℕ, ◌≡◌, refl, List, ◌∷◌, ◌++◌, false, Text, lit, text_eq, starts_with, any, All, arith,
}
use trend_tree.Revisit.Packing.{Batch}
use trend_tree.Revisit.Store.{Candidate, Store, Trigger, ok}
use trend_tree.Revisit.Pool.{pool_rows}
use trend_tree.Revisit.Pool.Claims.{pool_rows-claim}
use trend_tree.Revisit.Lead.{World, Event, normalize_event, start_chain}

revisit-ne-sess : (uuid : Text) → starts_with (lit "revisit-" ++ uuid) (lit "sess-") ≡ false
unfolding starts_with
revisit-ne-sess uuid = refl

start-session :
    (w : World) (t : Trigger) (ev : Event) (s : Store)
    → normalize_event w t s ≡ (ok ev, s)
    → ev.is_continue ≡ false
    → ev.agent_session_id ≡ lit "revisit-" ++ w.session_uuid
unfolding normalize_event
start-session w t ev s normal start = ground arith

-- When a starting run has queued its batches, the signals of its pool are in no pool that a later
-- run reads, at any time and with any candidates.
pub start_chain_claims :
    (w : World) (t : Trigger) (ev : Event) (s : Store) (ids : List Text) (b : Batch)
    (bs : List Batch) (now : ℕ) (candidates : List Candidate)
    → normalize_event w t s ≡ (ok ev, s)
    → ev.is_continue ≡ false
    → All
        (λ r. any (λ i. text_eq i r.signal_id) ids ≡ false)
        (pool_rows now candidates (start_chain ev ids (b ∷ bs) s).1.signals)
unfolding start_chain
start_chain_claims w t ev s ids b bs now candidates normal start =
    pool_rows-claim ev.agent_session_id ids s.signals now candidates
      (rw (start-session w t ev s normal start) (revisit-ne-sess w.session_uuid))
