-- ===== src/Sourcing/Pool/Order.antt =====
-- What `applyFloorAndTopN` keeps.
use mathlib.Core.List.{Perm}
use trend_tree.Prelude.{
  take-append-drop, ℕ, zero, suc, ◌≤◌, ◌≡◌, refl, ap, List, [], ◌∷◌, ◌++◌, Bool, true, false, arith,
  Double, nan, num, is_finite, lt_double, length, length-take, filter, sort, take, drop, take_all,
  All, All-take, All-filter_self,
}
use trend_tree.Prelude.Sorting.{sort-perm, sort-IsSorted, IsSorted, All-sort}
use trend_tree.Sourcing.Pool.{Entry, top_n, passes_floor, ranks_below, apply_floor_and_top_n}

lt_double_asym : (a b : Double) → lt_double a b ≡ true → lt_double b a ≡ false
unfolding lt_double
lt_double_asym nan nan h = refl
lt_double_asym nan (num b) h = refl
lt_double_asym (num a) nan h = refl
lt_double_asym (num a) (num b) h = ground arith

lt_double_trans :
    (a b c : Double)
    → is_finite b ≡ true
    → lt_double a b ≡ false
    → lt_double b c ≡ false
    → lt_double a c ≡ false
unfolding lt_double is_finite
lt_double_trans nan nan nan f h k = refl
lt_double_trans nan nan (num c) f h k = refl
lt_double_trans nan (num b) nan f h k = refl
lt_double_trans nan (num b) (num c) f h k = refl
lt_double_trans (num a) nan c f h k = cc
lt_double_trans (num a) (num b) nan f h k = refl
lt_double_trans (num a) (num b) (num c) f h k = ground (arith, h, k)

abbrev Passes : Entry → Type 0
Passes c = passes_floor c ≡ true

ranks_below_trans :
    (a b c : Entry)
    → Passes b
    → ranks_below a b ≡ false
    → ranks_below b c ≡ false
    → ranks_below a c ≡ false
unfolding passes_floor
ranks_below_trans a b c f =
    lt_double_trans a.semantic_score b.semantic_score c.semantic_score (ground (arith, f))

sort-ranks_below :
    (rows : List Entry) → All Passes rows → IsSorted ranks_below (sort ranks_below rows)
sort-ranks_below rows h =
    sort-IsSorted Passes ranks_below (λ a b. lt_double_asym a.semantic_score b.semantic_score)
      ranks_below_trans rows h

module _ {ℓ} {A : Type ℓ} (after : A → A → Bool) where
  take-IsSorted : (n : ℕ) (xs : List A) → IsSorted after xs → IsSorted after (take n xs)
  take-IsSorted zero xs s = tt
  take-IsSorted (suc n) [] s = tt
  take-IsSorted (suc n) (x ∷ xs) s =
      (All-take (λ y. after x y ≡ false) n xs s.0, take-IsSorted n xs s.1)

  All-drop {κ} : (P : A → Type κ) (n : ℕ) (xs : List A) → All P xs → All P (drop n xs)
  All-drop P zero xs h = h
  All-drop P (suc n) [] h = tt
  All-drop P (suc n) (x ∷ xs) h = All-drop P n xs h.1

  -- In a sorted list nothing that is taken comes after what is dropped.
  take-before-drop :
      (n : ℕ) (xs : List A)
      → IsSorted after xs
      → All (λ k. All (λ r. after k r ≡ false) (drop n xs)) (take n xs)
  take-before-drop zero xs s = tt
  take-before-drop (suc n) [] s = tt
  take-before-drop (suc n) (x ∷ xs) s =
      (All-drop (λ r. after x r ≡ false) n xs s.0, take-before-drop n xs s.1)

  -- A sorted list is what the sort makes of it.
  sort_sorted : (xs : List A) → IsSorted after xs → sort after xs ≡ xs
  sort_sorted [] s = refl
  sort_sorted (x ∷ []) s = refl
  sort_sorted (x ∷ y ∷ ys) s = rw (sort_sorted (y ∷ ys) s.1, s.0.0)

filter-All : (p : Entry → Bool) (xs : List Entry) → All (λ x. p x ≡ true) xs → filter p xs ≡ xs
filter-All p [] h = refl
filter-All p (x ∷ xs) h = rw h.0 (ap (x ∷◌) (filter-All p xs h.1))

-- The kept entries are at most ten; they pass the floor; they stand in order of falling score; and
-- with some rest they are the entries of the pool that pass the floor, none of the rest scoring
-- higher than a kept one.
pub apply_floor_and_top_n_lem :
    (pool : List Entry)
    → let kept = apply_floor_and_top_n pool in
      (length kept ≤ top_n)
      × All Passes kept
      × IsSorted ranks_below kept
      × ((rest : List Entry) × Perm (kept ++ rest) (filter passes_floor pool)
          × All (λ k. All (λ r. ranks_below k r ≡ false) rest) kept)
unfolding apply_floor_and_top_n
apply_floor_and_top_n_lem pool =
    let rows = filter passes_floor pool in
    let good : All Passes rows = All-filter_self passes_floor pool in
    let s = sort-ranks_below rows good in
    (
      omega (arith, length-take top_n (sort ranks_below rows)),
      All-take Passes top_n (sort ranks_below rows) (All-sort Passes ranks_below rows good),
      take-IsSorted ranks_below top_n (sort ranks_below rows) s,
      (
        drop top_n (sort ranks_below rows),
        rw take-append-drop (sort-perm ranks_below rows),
        take-before-drop ranks_below top_n (sort ranks_below rows) s,
      ),
    )

-- Applying the floor, the order and the size again to what they have kept changes nothing.
pub apply_floor_and_top_n_idem :
    (pool : List Entry)
    → apply_floor_and_top_n (apply_floor_and_top_n pool) ≡ apply_floor_and_top_n pool
apply_floor_and_top_n_idem pool =
    let (few, good, sorted, _) = apply_floor_and_top_n_lem pool in
    again (apply_floor_and_top_n pool) few good sorted
  where
    again :
        (kept : List Entry)
        → length kept ≤ top_n
        → All Passes kept
        → IsSorted ranks_below kept
        → apply_floor_and_top_n kept ≡ kept
    again kept few good sorted =
        unfold apply_floor_and_top_n in
        rw (filter-All passes_floor kept good, sort_sorted ranks_below kept sorted)
          (take_all top_n kept few)
