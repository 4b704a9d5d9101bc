-- ===== src/Sourcing/Poll/Tallies.antt =====
-- The counts in a receipt.
use trend_tree.Prelude.{
  ℕ, suc, ◌+◌, ◌≡◌, ◌∙◌, List, [], ◌∷◌, Text, text_eq, text_eq_iff, inl, inr, arith, count, length,
  Bool-cases, if◌then◌else◌,
}
use trend_tree.Sourcing.Poll.{
  Summary, outcome_key, Tally, bump, Totals, tally, summarize_poll, Tick, run_poll,
}

-- What a receipt counts under a key.
abbrev pub counted : Text → List Tally → ℕ
counted key [] = 0
counted key (t ∷ ts) = if text_eq t.key key then t.runs + counted key ts else counted key ts

abbrev pub all_counted : List Tally → ℕ
all_counted [] = 0
all_counted (t ∷ ts) = t.runs + all_counted ts

abbrev pub selected_in : List Summary → ℕ
selected_in [] = 0
selected_in (s ∷ ss) = s.selected_count + selected_in ss

counted-bump :
    (key k : Text) (ts : List Tally)
    → counted key (bump k ts) ≡ (if text_eq k key then suc (counted key ts) else counted key ts)
unfolding bump
counted-bump key k [] = ground arith
counted-bump key k (t ∷ ts) = elim (Bool-cases (text_eq t.key k)) [
  | inl e ↦ rw (e, (text_eq_iff t.key k).0 e) (ground arith)
  | inr e ↦ rw e (ground (arith, counted-bump key k ts))
]

all_counted-bump : (k : Text) (ts : List Tally) → all_counted (bump k ts) ≡ suc (all_counted ts)
unfolding bump
all_counted-bump k [] = omega arith
all_counted-bump k (t ∷ ts) = ground (arith, all_counted-bump k ts)

-- What the loop adds to the totals.
tally_lem :
    (key : Text) (acc : Totals) (ss : List Summary)
    → let t = tally acc ss in
      (counted key t.outcomes
        ≡ counted key acc.outcomes + count (λ s. text_eq (outcome_key s) key) ss)
      × (all_counted t.outcomes ≡ all_counted acc.outcomes + length ss)
      × (t.selected_products ≡ acc.selected_products + selected_in ss)
unfolding tally
tally_lem key acc [] = (omega arith, omega arith, omega arith)
tally_lem key acc (s ∷ ss) =
    let next : Totals = record {
      outcomes = bump (outcome_key s) acc.outcomes;
      selected_products = acc.selected_products + s.selected_count;
    } in
    let (one, total, chosen) = tally_lem key next ss in
    (
      ground (arith, one, counted-bump key (outcome_key s) acc.outcomes),
      omega (arith, total, all_counted-bump (outcome_key s) acc.outcomes),
      omega (arith, chosen),
    )

-- The counts of a receipt: under every key, as many as there are runs with this outcome; together,
-- the runs processed; and the selected products are the sum of those of the runs.
pub run_poll_tallies :
    (w : Tick) (batch : List Text) (key : Text)
    → let r = run_poll w batch in
      (counted key r.outcomes ≡ count (λ s. text_eq (outcome_key s) key) r.runs)
      × (all_counted r.outcomes ≡ r.processed)
      × (r.selected_products ≡ selected_in r.runs)
unfolding run_poll summarize_poll
run_poll_tallies w batch key =
    let (one, total, chosen) =
      tally_lem key (record { outcomes = []; selected_products = 0 }) (run_poll w batch).runs in
    (one ∙ omega arith, total ∙ omega arith, chosen ∙ omega arith)
