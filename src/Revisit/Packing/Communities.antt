-- ===== src/Revisit/Packing/Communities.antt =====
-- The communities of `binPack`: one for each cluster id, largest first; and what a batch keeps.
use mathlib.Core.List.{append-nil, append_assoc, perm_middle, Perm}
use mathlib.Core.List.Perm
use trend_tree.Prelude.{
  ℕ, ◌+◌, ◌-◌, ◌<◌, ◌≡◌, refl, sym, inl, inr, List, [], ◌∷◌, ◌++◌, map, Bool, true, false, arith,
  length, length-append, take, drop, take-append-drop, ap, ◌∙◌, flatten, All, All-Unit, Bool-cases,
  filter, ◌||◌, ◌==◌, ==_iff, if◌then◌else◌,
}
use trend_tree.Prelude.Sorting.{flatten-perm, sort-perm, sort-IsSorted, IsSorted, All-sort}
use trend_tree.Revisit.Packing.{
  ClusterRow, max_batch_size, cluster_key, add_row, by_cluster, communities, smaller, bin_pack,
}
use trend_tree.Revisit.Packing.Batches.{rows_of, flatten-bin_pack}

-- The rows that stand under a key of the map.
rows_at : ℕ → List (ℕ × List ClusterRow) → List ClusterRow
rows_at k [] = []
rows_at k ((j, rs) ∷ m) = if j == k then rs else rows_at k m

abbrev with_key : ℕ → List ClusterRow → List ClusterRow
with_key k = filter (λ r. cluster_key r == k)

rows_at-add_row :
    (k : ℕ) (r : ClusterRow) (m : List (ℕ × List ClusterRow))
    → rows_at k (add_row r m) ≡ (if cluster_key r == k then rows_at k m ++ r ∷ [] else rows_at k m)
unfolding rows_at add_row
rows_at-add_row k r [] = refl
rows_at-add_row k r ((j, rs) ∷ m) = ground (arith, rows_at-add_row k r m)

rows_at-by_cluster :
    (k : ℕ) (m : List (ℕ × List ClusterRow)) (rows : List ClusterRow)
    → rows_at k (by_cluster m rows) ≡ rows_at k m ++ with_key k rows
unfolding by_cluster
rows_at-by_cluster k m [] = sym (append-nil (rows_at k m))
rows_at-by_cluster k m (r ∷ rows) = elim (Bool-cases (cluster_key r == k)) [
  | inl e ↦
      rw (e, rows_at-by_cluster k (add_row r m) rows, rows_at-add_row k r m, e)
        (append_assoc (rows_at k m) (r ∷ []) (with_key k rows))
  | inr e ↦ rw (e, rows_at-by_cluster k (add_row r m) rows, rows_at-add_row k r m, e)
]

abbrev values : List (ℕ × List ClusterRow) → List (List ClusterRow)
values = map (λ e. e.1)

add_row-perm :
    (r : ClusterRow) (m : List (ℕ × List ClusterRow))
    → Perm (flatten (values (add_row r m))) (r ∷ flatten (values m))
unfolding add_row
add_row-perm r [] = Perm.rfl
add_row-perm r ((j, rs) ∷ m) = elim (Bool-cases (j == cluster_key r)) [
  | inl e ↦ rw (e, append_assoc) (perm_middle rs (flatten (values m)))
  | inr e ↦
      rw e
        (Perm.trans (Perm.append_left rs (add_row-perm r m)) (perm_middle rs (flatten (values m))))
]

by_cluster-perm :
    (m : List (ℕ × List ClusterRow)) (rows : List ClusterRow)
    → Perm (flatten (values (by_cluster m rows))) (rows ++ flatten (values m))
unfolding by_cluster
by_cluster-perm m [] = Perm.rfl
by_cluster-perm m (r ∷ rows) =
    Perm.trans (by_cluster-perm (add_row r m) rows) (
      Perm.trans (Perm.append_left rows (add_row-perm r m)) (perm_middle rows (flatten (values m))))

has_key : ℕ → List (ℕ × List ClusterRow) → Bool
has_key k [] = false
has_key k ((j, rs) ∷ m) = j == k || has_key k m

-- The keys are distinct, and no community is empty.
abbrev Keyed : List (ℕ × List ClusterRow) → Type 0
Keyed [] = Unit
Keyed ((k, rs) ∷ m) = (has_key k m ≡ false) × (0 < length rs) × Keyed m

has_key-add_row :
    (k : ℕ) (r : ClusterRow) (m : List (ℕ × List ClusterRow))
    → has_key k (add_row r m) ≡ (cluster_key r == k || has_key k m)
unfolding has_key add_row
has_key-add_row k r [] = refl
has_key-add_row k r ((j, rs) ∷ m) = ground (arith, has_key-add_row k r m)

add_row-Keyed : (r : ClusterRow) (m : List (ℕ × List ClusterRow)) → Keyed m → Keyed (add_row r m)
unfolding has_key add_row
add_row-Keyed r [] h = (refl, omega arith, tt)
add_row-Keyed r ((j, rs) ∷ m) h = elim (Bool-cases (j == cluster_key r)) [
  | inl e ↦ rw e (h.0, omega (arith, length-append rs (r ∷ [])), h.2)
  | inr e ↦ rw e (ground (arith, has_key-add_row j r m), h.1, add_row-Keyed r m h.2)
]

by_cluster-Keyed :
    (m : List (ℕ × List ClusterRow)) (rows : List ClusterRow) → Keyed m → Keyed (by_cluster m rows)
unfolding by_cluster
by_cluster-Keyed m [] h = h
by_cluster-Keyed m (r ∷ rows) h = by_cluster-Keyed (add_row r m) rows (add_row-Keyed r m h)

-- A community is the non-empty list of all rows of one cluster id, in the order of the input.
abbrev pub IsCommunity : List ClusterRow → List ClusterRow → Type 0
IsCommunity rows c = (k : ℕ) × (c ≡ filter (λ r. cluster_key r == k) rows) × (0 < length c)

-- The map has, at each of its keys, the rows of that cluster id.
abbrev Covers : List ClusterRow → List (ℕ × List ClusterRow) → Type 0
Covers rows m = (k : ℕ) → has_key k m ≡ true → rows_at k m ≡ with_key k rows

Covers-head :
    (rows rs : List ClusterRow) (j : ℕ) (m : List (ℕ × List ClusterRow))
    → Covers rows ((j, rs) ∷ m)
    → rs ≡ with_key j rows
unfolding has_key rows_at
Covers-head rows rs j m f = ground (arith, f j)

-- An entry behind a key that is new to it is reached through that key's entry.
Covers-tail :
    (rows rs : List ClusterRow) (j : ℕ) (m : List (ℕ × List ClusterRow))
    → has_key j m ≡ false
    → Covers rows ((j, rs) ∷ m)
    → Covers rows m
unfolding has_key rows_at
Covers-tail rows rs j m absent f k present = elim (Bool-cases (j == k)) [
  | inl e ↦
      let same : j ≡ k = (==_iff j k).0 e in let found : has_key j m ≡ true = rw same present in cc
  | inr e ↦ ground (arith, f k)
]

values-IsCommunity :
    (rows : List ClusterRow) (m : List (ℕ × List ClusterRow))
    → Keyed m
    → Covers rows m
    → All (IsCommunity rows) (values m)
values-IsCommunity rows [] h f = tt
values-IsCommunity rows ((j, rs) ∷ m) h f = (
  (j, Covers-head rows rs j m f, h.1),
  values-IsCommunity rows m h.2 (Covers-tail rows rs j m h.0 f),
)

module _ (a b : List ClusterRow) where
  smaller_asym : smaller a b ≡ true → smaller b a ≡ false
  smaller_asym h = ground arith

  smaller_trans :
      (c : List ClusterRow) → smaller a b ≡ false → smaller b c ≡ false → smaller a c ≡ false
  smaller_trans c h k = ground arith

-- The communities hold the given rows and no others; each is the list of all rows of one cluster
-- id, in the order of the input, and not empty; and they stand in order of falling size.
pub communities_lem :
    (rows : List ClusterRow)
    → Perm (flatten (communities rows)) rows
      × IsSorted smaller (communities rows)
      × All (IsCommunity rows) (communities rows)
unfolding communities rows_at
communities_lem rows = (
  Perm.trans (flatten-perm (sort-perm smaller (values (by_cluster [] rows))))
      (rw append-nil at (by_cluster-perm [] rows)),
  sort-IsSorted (λ _. Unit {0}) smaller (λ a b h. smaller_asym a b h)
      (λ a b c _ h k. smaller_trans a b c h k) (values (by_cluster [] rows))
      (All-Unit (values (by_cluster [] rows))),
  All-sort (IsCommunity rows) smaller (values (by_cluster [] rows)) (
      values-IsCommunity rows (by_cluster [] rows) (by_cluster-Keyed [] rows tt)
        (λ k _. rows_at-by_cluster k [] rows)),
)

-- The rows that `community.slice(0, MAX_BATCH_SIZE)` leaves out.
abbrev pub overflow : List (List ClusterRow) → ℕ
overflow [] = 0
overflow (c ∷ cs) = (length c - max_batch_size) + overflow cs

swapped : (xs ys zs : List ClusterRow) → Perm (xs ++ (ys ++ zs)) (ys ++ (xs ++ zs))
swapped [] ys zs = Perm.rfl
swapped (x ∷ xs) ys zs =
    Perm.trans (Perm.append_left (x ∷ []) (swapped xs ys zs))
      (Perm.symm (perm_middle ys (xs ++ zs)))

slices-perm :
    (cs : List (List ClusterRow))
    → Perm
        (flatten (map (take max_batch_size) cs) ++ flatten (map (drop max_batch_size) cs))
        (flatten cs)
slices-perm [] = Perm.rfl
slices-perm (c ∷ cs) =
    let kept = flatten (map (take max_batch_size) cs) in
    let cut = flatten (map (drop max_batch_size) cs) in
    let head = take max_batch_size c in
    let tail = drop max_batch_size c in
    let halves : head ++ (tail ++ flatten cs) ≡ c ++ flatten cs =
      sym (append_assoc head tail (flatten cs))
      ∙ ap (◌++ flatten cs) (take-append-drop max_batch_size c) in
    let moved : Perm (head ++ (kept ++ (tail ++ cut))) (head ++ (tail ++ flatten cs)) =
      Perm.append_left head
        (Perm.trans (swapped kept tail cut) (Perm.append_left tail (slices-perm cs))) in
    rw (append_assoc head kept (tail ++ cut), ← halves) moved

-- The rows of the batches, together with the rows that each community has beyond its first 400,
-- are the given rows, each as often as it is given.
pub bin_pack_contents :
    (rows : List ClusterRow)
    → Perm
        (flatten (rows_of (bin_pack rows))
          ++ flatten (map (drop max_batch_size) (communities rows)))
        rows
bin_pack_contents rows =
    rw flatten-bin_pack (Perm.trans (slices-perm (communities rows)) (communities_lem rows).0)
