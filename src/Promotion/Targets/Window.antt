-- ===== src/Promotion/Targets/Window.antt =====
-- How often a stuck trend is sent again.
use trend_tree.Prelude.{
  ℕ, zero, suc, ◌+◌, ◌*◌, ◌≤◌, ◌<◌, ◌≡◌, refl, ap, ◌∙◌, List, [], ◌∷◌, ◌++◌, map, Bool, false, Text,
  text_eq, text_eq_refl, is_empty, arith, any, count, filter, ltb, take, Bool-cases, inl, inr,
}
use trend_tree.Promotion.Targets.{
  minutes, is_retry_due, UnenrichedRow, is_due, max_retries_per_run, select_retry_trend_ids,
}

-- The eight runs of a day, three hours apart.
abbrev pub day_of_runs : List ℕ
day_of_runs = 0 ∷ 1 ∷ 2 ∷ 3 ∷ 4 ∷ 5 ∷ 6 ∷ 7 ∷ []

due_once_a_day :
    (m : ℕ) → 360 ≤ m → count (λ k. is_retry_due (minutes (m + 180 * k))) day_of_runs ≡ 1
unfolding is_retry_due
due_once_a_day m h = ground arith

abbrev pub has_id : Text → List UnenrichedRow → Bool
has_id id = any (λ r. text_eq id r.trend_id)

-- Whether a trend is among the first `n` due rows.
module _ (id : Text) where
  abbrev selected : ℕ → List UnenrichedRow → Bool
  selected n rows = any (text_eq id) (take n (map (λ r. r.trend_id) (filter is_due rows)))

  selected-without :
      (n : ℕ) (rows : List UnenrichedRow) → has_id id rows ≡ false → selected n rows ≡ false
  selected-without zero rows h = refl
  selected-without (suc n) [] h = refl
  selected-without (suc n) (r ∷ rows) h = elim (Bool-cases (is_due r)) [
    | inl e ↦
        let other : text_eq id r.trend_id ≡ false = ground (arith, h) in
        rw (e, other) (selected-without n rows (ground (arith, h)))
    | inr e ↦ rw e (selected-without (suc n) rows (ground (arith, h)))
  ]

  -- The row of the trend is selected just if it is due, if so many rows can be due before it.
  selected-row :
      (n : ℕ) (before after : List UnenrichedRow) (r : UnenrichedRow)
      → r.trend_id ≡ id
      → has_id id before ≡ false
      → has_id id after ≡ false
      → count is_due before < n
      → selected n (before ++ r ∷ after) ≡ is_due r
  selected-row zero before after r same no_before no_after few = absurd (omega (arith, few))
  selected-row (suc n) [] after r same no_before no_after few = elim (Bool-cases (is_due r)) [
    | inl e ↦ rw (e, same, text_eq_refl id) refl
    | inr e ↦ rw e (selected-without (suc n) after no_after)
  ]
  selected-row (suc n) (b ∷ before) after r same no_before no_after few =
      let rest : has_id id before ≡ false = ground (arith, no_before) in
      elim (Bool-cases (is_due b)) [
        | inl e ↦
            let other : text_eq id b.trend_id ≡ false = ground (arith, no_before) in
            let fewer : count is_due before < n = ground (arith, few) in
            rw (e, other) (selected-row n before after r same rest no_after fewer)
        | inr e ↦
            rw e (selected-row (suc n) before after r same rest no_after (ground (arith, few)))
      ]

-- The rows of a run: the trend's, and the younger and the older ones.
abbrev pub rows_at :
    Text → ℕ → (ℕ → List UnenrichedRow) → (ℕ → List UnenrichedRow) → ℕ → List UnenrichedRow
rows_at id m younger older k =
    younger k ++ record { trend_id = id; age = minutes (m + 180 * k) } ∷ older k

select_retry_trend_ids-stuck :
    (id : Text) (m iteration : ℕ) (younger older : ℕ → List UnenrichedRow) (k : ℕ)
    → is_empty id ≡ false
    → iteration ≤ 1
    → has_id id (younger k) ≡ false
    → has_id id (older k) ≡ false
    → count is_due (younger k) < max_retries_per_run
    → any (text_eq id) (select_retry_trend_ids (rows_at id m younger older k) iteration false)
      ≡ is_retry_due (minutes (m + 180 * k))
unfolding select_retry_trend_ids
select_retry_trend_ids-stuck id m iteration younger older k named first no_younger no_older few =
    let now : ltb 1 iteration ≡ false = ground (arith, first) in
    let row : UnenrichedRow = record { trend_id = id; age = minutes (m + 180 * k) } in
    rw
      (
        now,
        selected-row id max_retries_per_run (younger k) (older k) row refl no_younger no_older few,
      )
      (unfold is_due in rw named refl)

-- A trend that stays stuck is selected for a retry in exactly one of any eight successive runs, if
-- these are three hours apart and start when its promotion is at least six hours old, are no dry
-- runs and each the first of its chain, and in each of them the trend, whose id is not empty, has
-- one row, and of the rows that stand before it, the younger ones, at most four are due.
pub retry_once_a_day :
    (id : Text) (m iteration : ℕ) (younger older : ℕ → List UnenrichedRow)
    → is_empty id ≡ false
    → 360 ≤ m
    → iteration ≤ 1
    → ((k : ℕ) → has_id id (younger k) ≡ false)
    → ((k : ℕ) → has_id id (older k) ≡ false)
    → ((k : ℕ) → count is_due (younger k) < max_retries_per_run)
    → count
        (λ k.
          any (text_eq id) (select_retry_trend_ids (rows_at id m younger older k) iteration false))
        day_of_runs
      ≡ 1
retry_once_a_day id m iteration younger older named old first no_younger no_older few =
    ap (λ p. count p day_of_runs)
      (λ i k.
        select_retry_trend_ids-stuck id m iteration younger older k named first (no_younger k)
          (no_older k) (few k) i)
    ∙ due_once_a_day m old
