-- ===== src/Revisit/Lead/Callbacks.antt =====
-- parse_cluster_result and commit_batch_result on what the cluster agent calls back.
use trend_tree.Prelude.{
  ℕ, ◌≡◌, refl, inl, inr, List, [], ◌∷◌, ◌++◌, map, Option, none, some, Bool, true, false, not, ap,
  count, filter, All, Text, is_empty, length, Bool-cases, if◌then◌else◌,
}
use trend_tree.Revisit.Store.{Status, done, failed, QueueRow, Store, Proposal, ok, bind}
use trend_tree.Revisit.Queue.{Ending, has_key, end_batch, is_pending}
use trend_tree.Revisit.Queue.Progress.{count-has_key-end_batch}
use trend_tree.Revisit.Lead.{
  World, Cost, amount, no_number, Parsed, log_result, log_cost, Callback, Resume, missing, bare,
  wrapped, Meta, or_text, ending, parse_cluster_result, parse_resume, parse_callback,
  parse_proposals, empty_result, commit_batch_result,
}

-- The callback, if there is one, names this chain or none.
abbrev pub SameChain : Text → Resume → Type 0
SameChain chain missing = Unit
SameChain chain (bare c) = or_text c.chain_id chain ≡ chain
SameChain chain (wrapped c) = or_text c.chain_id chain ≡ chain

-- The cost in the callback, if there is one, is a number or falsy.
abbrev pub is_amount : Cost → Bool
is_amount (amount n) = true
is_amount no_number = false

abbrev pub IsCosted : Resume → Type 0
IsCosted missing = Unit
IsCosted (bare c) = is_amount c.cost_usd ≡ true
IsCosted (wrapped c) = is_amount c.cost_usd ≡ true

-- What the callback delivers: nothing if it is missing, reports an error or has no candidates.
abbrev pub delivered_by : Callback → Option (List Proposal)
delivered_by c = if is_empty c.error then c.proposed_candidates else none

abbrev pub delivered : Resume → Option (List Proposal)
delivered missing = none
delivered (bare c) = delivered_by c
delivered (wrapped c) = delivered_by c

abbrev pub status_of : Option (List Proposal) → Status
status_of none = failed
status_of (some ps) = done

abbrev pub proposals_of : Option (List Proposal) → List Proposal
proposals_of none = []
proposals_of (some ps) = ps

parse_callback_lem :
    (w : World) (m : Meta) (c : Callback) (o : Option (List Proposal))
    → c.proposed_candidates ≡ o
    → let p = parse_callback w m c in
      (p.proposed_candidates ≡ proposals_of (delivered_by c))
      × ((ending p).status ≡ status_of (delivered_by c))
      × (p.batch_index ≡ m.batch_index)
unfolding parse_callback empty_result parse_proposals
parse_callback_lem w m c none e = elim (Bool-cases (is_empty c.error)) [
  | inl h ↦ rw (h, e) (refl, refl, refl)
  | inr h ↦ rw (h) (refl, rw h, refl)
]
parse_callback_lem w m c (some ps) e = elim (Bool-cases (is_empty c.error)) [
  | inl h ↦ rw (h, e) (refl, refl, refl)
  | inr h ↦ rw (h) (refl, rw h, refl)
]

pub parse_resume-parts :
    (w : World) (m : Meta) (resume : Resume)
    → let p = parse_resume w m resume in
      (p.proposed_candidates ≡ proposals_of (delivered resume))
      × ((ending p).status ≡ status_of (delivered resume))
      × (p.batch_index ≡ m.batch_index)
unfolding parse_resume
parse_resume-parts w m missing = unfold empty_result in (refl, refl, refl)
parse_resume-parts w m (bare c) = parse_callback_lem w m c c.proposed_candidates refl
parse_resume-parts w m (wrapped c) = parse_callback_lem w m c c.proposed_candidates refl

parse_callback-chain :
    (w : World) (m : Meta) (c : Callback) (o : Option (List Proposal))
    → c.proposed_candidates ≡ o
    → or_text c.chain_id m.chain_id ≡ m.chain_id
    → (parse_callback w m c).chain_id ≡ m.chain_id
unfolding parse_callback empty_result parse_proposals
parse_callback-chain w m c none e same = elim (Bool-cases (is_empty c.error)) [
  | inl h ↦ rw (h, e)
  | inr h ↦ rw h
]
parse_callback-chain w m c (some ps) e same = elim (Bool-cases (is_empty c.error)) [
  | inl h ↦ rw (h, e) same
  | inr h ↦ rw h
]

pub parse_resume-chain :
    (w : World) (m : Meta) (resume : Resume)
    → SameChain m.chain_id resume
    → (parse_resume w m resume).chain_id ≡ m.chain_id
unfolding parse_resume
parse_resume-chain w m missing h = unfold empty_result in refl
parse_resume-chain w m (bare c) h = parse_callback-chain w m c c.proposed_candidates refl h
parse_resume-chain w m (wrapped c) h = parse_callback-chain w m c c.proposed_candidates refl h

log_cost-amount :
    (p : Parsed) (c : Cost) (s : Store) → is_amount c ≡ true → log_cost p c s ≡ (ok (some p), s)
log_cost-amount p (amount n) s h = refl
log_cost-amount p no_number s h = cc

parse_callback-amount :
    (w : World) (m : Meta) (c : Callback) (o : Option (List Proposal))
    → c.proposed_candidates ≡ o
    → is_amount c.cost_usd ≡ true
    → is_amount (parse_callback w m c).cost_usd ≡ true
unfolding parse_callback empty_result parse_proposals
parse_callback-amount w m c none e h = elim (Bool-cases (is_empty c.error)) [
  | inl k ↦ rw (k, e) refl
  | inr k ↦ rw k refl
]
parse_callback-amount w m c (some ps) e h = elim (Bool-cases (is_empty c.error)) [
  | inl k ↦ rw (k, e) h
  | inr k ↦ rw k refl
]

parse_resume-amount :
    (w : World) (m : Meta) (resume : Resume)
    → IsCosted resume
    → is_amount (parse_resume w m resume).cost_usd ≡ true
unfolding parse_resume
parse_resume-amount w m missing h = unfold empty_result in refl
parse_resume-amount w m (bare c) h = parse_callback-amount w m c c.proposed_candidates refl h
parse_resume-amount w m (wrapped c) h = parse_callback-amount w m c c.proposed_candidates refl h

pub parse_cluster_result-costed :
    (w : World) (m : Meta) (s : Store)
    → IsCosted w.resume
    → parse_cluster_result w (some m) s ≡ (ok (some (parse_resume w m w.resume)), s)
unfolding parse_cluster_result log_result
parse_cluster_result-costed w m s h =
    log_cost-amount (parse_resume w m w.resume) (parse_resume w m w.resume).cost_usd s
      (parse_resume-amount w m w.resume h)

pub not_pending : (o : Option (List Proposal)) → is_pending (status_of o) ≡ false
not_pending none = refl
not_pending (some ps) = refl

-- The rows with a batch's key, once it is ended.
end_batch-ended :
    (chain : Text) (i : ℕ) (e : Ending) (q : List QueueRow)
    → All
        (λ r.
          has_key chain i r ≡ true
          → (r.status ≡ e.status) × (r.candidates_count ≡ e.candidates_count))
        (end_batch chain i e q)
unfolding end_batch
end_batch-ended chain i e [] = tt
end_batch-ended chain i e (r ∷ q) = elim (Bool-cases (has_key chain i r)) [
  | inl h ↦ rw h ((λ _. (refl, refl)), end_batch-ended chain i e q)
  | inr h ↦ rw h ((λ k. cc), end_batch-ended chain i e q)
]

-- The other rows stay.
end_batch-others :
    (chain : Text) (i : ℕ) (e : Ending) (q : List QueueRow)
    → filter (λ r. not (has_key chain i r)) (end_batch chain i e q)
      ≡ filter (λ r. not (has_key chain i r)) q
unfolding end_batch
end_batch-others chain i e [] = refl
end_batch-others chain i e (r ∷ q) = elim (Bool-cases (has_key chain i r)) [
  | inl h ↦ rw (h, h) (end_batch-others chain i e q)
  | inr h ↦ rw (h, h) (ap (r ∷◌) (end_batch-others chain i e q))
]

-- If the callback is missing, or names the batch's chain or none and has a number or nothing as its
-- cost, the two steps after the suspension commit the batch that was dispatched: the candidates of
-- the callback are added, if it reports no error and has a list of candidates, and else none; the
-- rows of the batch, as many as before, are then done, in the first case, or failed, with the number
-- of candidates; and the other rows of the table stay as they are.
pub parse_cluster_result_lem :
    (w : World) (m : Meta) (s : Store)
    → SameChain m.chain_id w.resume
    → IsCosted w.resume
    → let after = bind (parse_cluster_result w (some m) s) commit_batch_result in
      let added = proposals_of (delivered w.resume) in
      (after.0 ≡ ok tt)
      × (after.1.candidates
          ≡ s.candidates ++ map (λ c. record { proposal = c; promoted_to = none }) added)
      × All
          (λ r.
            has_key m.chain_id m.batch_index r ≡ true
            → (r.status ≡ status_of (delivered w.resume)) × (r.candidates_count ≡ length added))
          after.1.queue
      × (count (has_key m.chain_id m.batch_index) after.1.queue
          ≡ count (has_key m.chain_id m.batch_index) s.queue)
      × (filter (λ r. not (has_key m.chain_id m.batch_index r)) after.1.queue
          ≡ filter (λ r. not (has_key m.chain_id m.batch_index r)) s.queue)
unfolding commit_batch_result
parse_cluster_result_lem w m s same costed =
    let (added, st, idx) = parse_resume-parts w m w.resume in
    let chain = parse_resume-chain w m w.resume same in
    let p = parse_resume w m w.resume in
    rw (parse_cluster_result-costed w m s costed, chain, idx, ← st, ← added)
      (
        refl,
        refl,
        end_batch-ended m.chain_id m.batch_index (ending p) s.queue,
        count-has_key-end_batch m.chain_id m.chain_id m.batch_index m.batch_index (ending p)
            s.queue,
        end_batch-others m.chain_id m.batch_index (ending p) s.queue,
      )
