-- ===== src/Revisit/Queue/Progress.antt =====
-- Ending the selected batch: which row it is, and what it does to the counts of its chain.

use trend_tree.Prelude.{
  ℕ, suc, ◌+◌, ◌≤◌, ◌<◌, ◌≡◌, refl, sym, ap, subst, ◌∙◌, inl, inr, List, [], ◌∷◌, none, some, Bool,
  true, false, ◌&&◌, Text, arith, count, filter, sort, All, All-Unit, All-of_filter, length,
  length-filter, Bool-cases, ◌==◌,
}
use trend_tree.Prelude.Sorting.{
  All-of_sort, length-perm, sort-perm, All-sort, sort-IsSorted, IsSorted,
}
use trend_tree.Revisit.Store.{QueueRow}
use trend_tree.Revisit.Queue.{
  in_chain, pending_in, has_key, is_pending, first, later, next_pending, pending_count, Ending,
  end_batch, totals,
}

-- The table's key: a chain has at most one row for a batch index.
abbrev pub HasKey : Text → List QueueRow → Type 0
HasKey chain q = (i : ℕ) → count (has_key chain i) q ≤ 1

abbrev pending_at : Text → ℕ → QueueRow → Bool
pending_at chain i r = pending_in chain r && r.batch_index == i

count-pending_at-le :
    (chain : Text) (i : ℕ) (q : List QueueRow)
    → count (pending_at chain i) q ≤ count (has_key chain i) q
count-pending_at-le chain i [] = omega arith
count-pending_at-le chain i (r ∷ q) = ground (arith, count-pending_at-le chain i q)

-- What is known of each row that the query returns.
abbrev Found : Text → List QueueRow → QueueRow → Type 0
Found chain q r = (pending_in chain r ≡ true) × (0 < count (pending_at chain r.batch_index) q)

Found-cons :
    (chain : Text) (x : QueueRow) (q rs : List QueueRow)
    → All (Found chain q) rs
    → All (Found chain (x ∷ q)) rs
Found-cons chain x q [] h = tt
Found-cons chain x q (r ∷ rs) h = ((h.0.0, ground (arith, h.0.1)), Found-cons chain x q rs h.1)

count_self :
    (chain : Text) (r : QueueRow) (q : List QueueRow)
    → pending_in chain r ≡ true
    → 0 < count (pending_at chain r.batch_index) (r ∷ q)
count_self chain r q h = ground arith

filter-Found :
    (chain : Text) (q : List QueueRow) → All (Found chain q) (filter (pending_in chain) q)
filter-Found chain [] = tt
filter-Found chain (r ∷ q) =
    let rest = Found-cons chain r q (filter (pending_in chain) q) (filter-Found chain q) in
    elim (Bool-cases (pending_in chain r)) [
      | inl e ↦ rw e ((e, count_self chain r q e), rest)
      | inr e ↦ rw e rest
    ]

-- `r` heads the sorted rows.
heads :
    (rows : List QueueRow) (r : QueueRow)
    → first rows ≡ some r
    → IsSorted later rows
    → All (λ x. r.batch_index ≤ x.batch_index) rows
heads [] r e s = tt
heads (x ∷ rows) r e s =
    let same : x ≡ r = ground arith in
    (omega (arith, ap (λ (y : QueueRow). y.batch_index) same), below x rows same s.0)
  where
    below :
        (x : QueueRow) (ys : List QueueRow)
        → x ≡ r
        → All (λ y. later x y ≡ false) ys
        → All (λ y. r.batch_index ≤ y.batch_index) ys
    below x [] same h = tt
    below x (y ∷ ys) same h = (rw (← same) (ground (arith, h.0)), below x ys same h.1)

first-All :
    (P : QueueRow → Type 0) (rows : List QueueRow) (r : QueueRow)
    → first rows ≡ some r
    → All P rows
    → P r
first-All P [] r e h = cc
first-All P (x ∷ rows) r e h = let same : x ≡ r = ground arith in subst P same h.0

module _ (a b : QueueRow) where
  later_asym : later a b ≡ true → later b a ≡ false
  later_asym h = ground arith

  later_trans : (c : QueueRow) → later a b ≡ false → later b c ≡ false → later a c ≡ false
  later_trans c h k = ground arith

-- The query returns a pending row of the chain, and no pending row of the chain has a lower index.
pub next_pending-some :
    (chain : Text) (q : List QueueRow) (r : QueueRow)
    → next_pending chain q ≡ some r
    → (pending_in chain r ≡ true)
      × (0 < count (pending_at chain r.batch_index) q)
      × All (λ x. pending_in chain x ≡ true → r.batch_index ≤ x.batch_index) q
unfolding next_pending
next_pending-some chain q r e =
    let rows = filter (pending_in chain) q in
    let found =
      first-All (Found chain q) (sort later rows) r e
        (All-sort (Found chain q) later rows (filter-Found chain q)) in
    (
      found.0,
      found.1,
      All-of_filter (λ x. r.batch_index ≤ x.batch_index) (pending_in chain) q
          (All-of_sort (λ x. r.batch_index ≤ x.batch_index) later rows
            (heads (sort later rows) r e (sort-later rows))),
    )
  where
    sort-later : (rows : List QueueRow) → IsSorted later (sort later rows)
    sort-later rows =
        sort-IsSorted (λ _. Unit {0}) later later_asym (λ a b c _. later_trans a b c) rows
          (All-Unit rows)

first-none : (rows : List QueueRow) → first rows ≡ none → length rows ≡ 0
first-none [] e = refl
first-none (r ∷ rows) e = cc

-- It returns none only if the chain has no pending row.
pub next_pending-none :
    (chain : Text) (q : List QueueRow) → next_pending chain q ≡ none → pending_count chain q ≡ 0
unfolding next_pending pending_count
next_pending-none chain q e =
    sym (length-filter (pending_in chain) q)
    ∙ sym (length-perm (sort-perm later (filter (pending_in chain) q)))
    ∙ first-none (sort later (filter (pending_in chain) q)) e

-- Ending a batch takes the pending rows with its key out of the chain's pending rows.
pending_count-end_batch :
    (chain : Text) (i : ℕ) (e : Ending) (q : List QueueRow)
    → is_pending e.status ≡ false
    → pending_count chain (end_batch chain i e q) + count (pending_at chain i) q
      ≡ pending_count chain q
unfolding end_batch pending_count
pending_count-end_batch chain i e [] h = refl
pending_count-end_batch chain i e (r ∷ q) h = ground (arith, pending_count-end_batch chain i e q)

pub count-in_chain-end_batch :
    (chain other : Text) (i : ℕ) (e : Ending) (q : List QueueRow)
    → count (in_chain other) (end_batch chain i e q) ≡ count (in_chain other) q
unfolding end_batch
count-in_chain-end_batch chain other i e [] = refl
count-in_chain-end_batch chain other i e (r ∷ q) =
    ground (arith, count-in_chain-end_batch chain other i e q)

pub count-has_key-end_batch :
    (chain other : Text) (i j : ℕ) (e : Ending) (q : List QueueRow)
    → count (has_key other j) (end_batch chain i e q) ≡ count (has_key other j) q
unfolding end_batch
count-has_key-end_batch chain other i j e [] = refl
count-has_key-end_batch chain other i j e (r ∷ q) =
    ground (arith, count-has_key-end_batch chain other i j e q)

pub end_batch-HasKey :
    (chain other : Text) (i : ℕ) (e : Ending) (q : List QueueRow)
    → HasKey other q
    → HasKey other (end_batch chain i e q)
end_batch-HasKey chain other i e q h j =
    omega (arith, count-has_key-end_batch chain other i j e q, h j)

length-end_batch :
    (chain : Text) (i : ℕ) (e : Ending) (q : List QueueRow)
    → length (end_batch chain i e q) ≡ length q
unfolding end_batch
length-end_batch chain i e [] = refl
length-end_batch chain i e (r ∷ q) = ap suc (length-end_batch chain i e q)

-- If a chain has at most one row for an index, then ending its selected batch, with a status other
-- than pending, leaves it one pending row less. The table has as many rows as before, each chain has
-- as many of them, and each key of a chain and a batch index too.
pub end_batch-next_pending :
    (chain : Text) (q : List QueueRow) (r : QueueRow) (e : Ending)
    → next_pending chain q ≡ some r
    → HasKey chain q
    → is_pending e.status ≡ false
    → (suc (pending_count chain (end_batch chain r.batch_index e q)) ≡ pending_count chain q)
      × (length (end_batch chain r.batch_index e q) ≡ length q)
      × ((other : Text)
          → (count (in_chain other) (end_batch chain r.batch_index e q) ≡ count (in_chain other) q)
            × ((j : ℕ)
                → count (has_key other j) (end_batch chain r.batch_index e q)
                  ≡ count (has_key other j) q))
end_batch-next_pending chain q r e s k h = (
  omega (
    arith,
    pending_count-end_batch chain r.batch_index e q h,
    count-pending_at-le chain r.batch_index q,
    k r.batch_index,
    (next_pending-some chain q r s).1,
  ),
  length-end_batch chain r.batch_index e q,
  λ other. (
    count-in_chain-end_batch chain other r.batch_index e q,
    λ j. count-has_key-end_batch chain other r.batch_index j e q,
  ),
)

-- A row is pending, done or failed.
pub total_batches-totals :
    (chain : Text) (q : List QueueRow)
    → (totals chain q).total_batches
      ≡ pending_count chain q + (totals chain q).done_count + (totals chain q).failed_count
unfolding totals pending_count
total_batches-totals chain [] = refl
total_batches-totals chain (r ∷ q) = ground (arith, total_batches-totals chain q)
