-- ===== src/Revisit/Pool/Claims.antt =====
-- What the pool query admits, and what the claim does to the next query.
use trend_tree.Prelude.{
  ℕ, suc, ◌+◌, ◌≤◌, ◌≡◌, refl, ap, ◌⊎◌, zero, inl, inr, List, [], ◌∷◌, Bool, true, false, Text, lit,
  text_eq, text_eq_iff, starts_with, arith, length, length-take, any, count, filter, sort, take,
  All, All-take, All-filter, All-apply, All-filter_self, ltb, Bool-cases, if◌then◌else◌,
}
use trend_tree.Prelude.Sorting.{All-sort}
use trend_tree.Revisit.Store.{Signal, Candidate}
use trend_tree.Revisit.Pool.{
  pool_limit, per_source_cap, is_eligible, older, from_source, cap_sources, pool_rows, claim,
}

module _ {ℓ} (P : Signal → Type ℓ) where
  All-cap_sources : (before xs : List Signal) → All P xs → All P (cap_sources before xs)
  unfolding cap_sources
  All-cap_sources before [] h = tt
  All-cap_sources before (x ∷ xs) h =
      elim (Bool-cases (ltb (count (from_source x.source_name) before) per_source_cap)) [
        | inl e ↦ rw e (h.0, All-cap_sources (x ∷ before) xs h.1)
        | inr e ↦ rw e (All-cap_sources (x ∷ before) xs h.1)
      ]

count-take-le : (p : Signal → Bool) (n : ℕ) (xs : List Signal) → count p (take n xs) ≤ count p xs
count-take-le p zero xs = omega arith
count-take-le p (suc n) [] = omega arith
count-take-le p (suc n) (x ∷ xs) = ground (arith, count-take-le p n xs)

module _ (source : Text) where
  of_source : List Signal → ℕ
  of_source = count (from_source source)

  -- The kept rows of a source, with those before, are within the cap, or none is kept.
  abbrev Capped : List Signal → List Signal → Type 0
  Capped before kept = (of_source kept ≡ 0) ⊎ (of_source before + of_source kept ≤ per_source_cap)

  -- One row of the source: `b` is the test of the query, of its rank.
  Capped-same :
      (x : Signal) (before kept : List Signal) (b : Bool)
      → text_eq x.source_name source ≡ true
      → b ≡ ltb (of_source before) per_source_cap
      → Capped (x ∷ before) kept
      → Capped before (if b then x ∷ kept else kept)
  unfolding of_source
  Capped-same x before kept true e h (inl none_kept) = inr (ground arith)
  Capped-same x before kept true e h (inr few) = inr (ground arith)
  Capped-same x before kept false e h (inl none_kept) = inl none_kept
  Capped-same x before kept false e h (inr few) = inr (ground arith)

  Capped-other :
      (x : Signal) (before kept : List Signal) (b : Bool)
      → text_eq x.source_name source ≡ false
      → Capped (x ∷ before) kept
      → Capped before (if b then x ∷ kept else kept)
  unfolding of_source
  Capped-other x before kept true e h = ground arith
  Capped-other x before kept false e h = ground arith

  count-cap_sources : (before xs : List Signal) → Capped before (cap_sources before xs)
  unfolding cap_sources of_source
  count-cap_sources before [] = inl refl
  count-cap_sources before (x ∷ xs) =
      let b = ltb (count (from_source x.source_name) before) per_source_cap in
      elim (Bool-cases (text_eq x.source_name source)) [
        | inl e ↦
            Capped-same x before (cap_sources (x ∷ before) xs) b e
              (ap (λ t. ltb (count (from_source t) before) per_source_cap)
                ((text_eq_iff x.source_name source).0 e))
              (count-cap_sources (x ∷ before) xs)
        | inr e ↦
            Capped-other x before (cap_sources (x ∷ before) xs) b e
              (count-cap_sources (x ∷ before) xs)
      ]

  count-cap_sources-le :
      (xs : List Signal) → count (from_source source) (cap_sources [] xs) ≤ per_source_cap
  unfolding of_source
  count-cap_sources-le xs = omega (arith, count-cap_sources [] xs)

-- The pool has at most 1600 rows, at most 320 of one source, and each row meets the conditions of
-- the query.
pub pool_rows_bounds :
    (now : ℕ) (candidates : List Candidate) (signals : List Signal)
    → (length (pool_rows now candidates signals) ≤ pool_limit)
      × ((source : Text)
          → count (from_source source) (pool_rows now candidates signals) ≤ per_source_cap)
      × All (λ s. is_eligible now candidates s ≡ true) (pool_rows now candidates signals)
unfolding pool_rows
pool_rows_bounds now candidates signals =
    let rows = sort older (filter (is_eligible now candidates) signals) in
    (
      omega (arith, length-take pool_limit (cap_sources [] rows)),
      λ source. omega (
        arith,
        count-take-le (from_source source) pool_limit (cap_sources [] rows),
        count-cap_sources-le source rows,
      ),
      All-take (λ s. is_eligible now candidates s ≡ true) pool_limit (cap_sources [] rows)
          (All-cap_sources (λ s. is_eligible now candidates s ≡ true) [] rows
            (All-sort (λ s. is_eligible now candidates s ≡ true) older _
              (All-filter_self (is_eligible now candidates) signals))),
    )

-- A row that the claim has marked is not eligible again.
claim_excludes :
    (session : Text) (ids : List Text) (signals : List Signal) (now : ℕ)
    (candidates : List Candidate)
    → starts_with session (lit "sess-") ≡ false
    → All
        (λ s. is_eligible now candidates s ≡ true → any (λ i. text_eq i s.signal_id) ids ≡ false)
        (claim session ids signals)
unfolding claim is_eligible
claim_excludes session ids [] now candidates h = tt
claim_excludes session ids (s ∷ rest) now candidates h = (
  marked (any (λ i. text_eq i s.signal_id) ids) refl,
  claim_excludes session ids rest now candidates h,
)
  where
    marked :
        (b : Bool)
        → any (λ i. text_eq i s.signal_id) ids ≡ b
        → let s' = if b then record s { agent_session_id = session } else s in
          is_eligible now candidates s' ≡ true → any (λ i. text_eq i s'.signal_id) ids ≡ false
    marked true e k = ground (arith, h, k)
    marked false e k = e

-- Whatever holds of all signals holds of the pool.
All-pool_rows :
    (P : Signal → Type 0) (now : ℕ) (candidates : List Candidate) (signals : List Signal)
    → All P signals
    → All P (pool_rows now candidates signals)
unfolding pool_rows
All-pool_rows P now candidates signals h = All-take P pool_limit _ (
    All-cap_sources P [] (sort older (filter (is_eligible now candidates) signals)) (
      All-sort P older (filter (is_eligible now candidates) signals)
        (All-filter P (is_eligible now candidates) signals h)))

-- After a session whose name does not begin with `sess-` has claimed the signals of `ids`, no later
-- pool, at any time and with any candidates, holds one of them.
pub pool_rows-claim :
    (session : Text) (ids : List Text) (signals : List Signal) (now : ℕ)
    (candidates : List Candidate)
    → starts_with session (lit "sess-") ≡ false
    → All
        (λ s. any (λ i. text_eq i s.signal_id) ids ≡ false)
        (pool_rows now candidates (claim session ids signals))
pool_rows-claim session ids signals now candidates h =
    All-apply (λ s. is_eligible now candidates s ≡ true) _ _
      (All-pool_rows _ now candidates (claim session ids signals)
        (claim_excludes session ids signals now candidates h))
      (pool_rows_bounds now candidates (claim session ids signals)).2
