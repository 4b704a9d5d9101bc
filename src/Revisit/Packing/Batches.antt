-- ===== src/Revisit/Packing/Batches.antt =====
-- The size, order and contents of the batches of `binPack`.
use mathlib.Core.List.{append-nil, append_assoc}
use trend_tree.Prelude.{
  ℕ, ◌+◌, ◌≤◌, ◌<◌, ◌≡◌, refl, sym, ap, ◌∙◌, inl, inr, List, [], ◌∷◌, ◌++◌, map, false, arith,
  length, length-append, length-take, take, flatten, flatten-append, All, All-append, ltb,
  Bool-cases,
}
use trend_tree.Revisit.Packing.{
  ClusterRow, Batch, max_batch_size, communities, flush, pack, number_from, bin_pack,
}

abbrev slices : List (List ClusterRow) → List (List ClusterRow)
slices cs = map (take max_batch_size) cs

flatten-flush :
    (batches : List (List ClusterRow)) (current : List ClusterRow)
    → flatten (flush batches current) ≡ flatten batches ++ current
unfolding flush
flatten-flush batches [] = sym (append-nil (flatten batches))
flatten-flush batches (r ∷ rs) =
    flatten-append batches ((r ∷ rs) ∷ []) ∙ ap (λ t. flatten batches ++ t) (append-nil (r ∷ rs))

-- The loop loses, copies and reorders no row of the slices.
flatten-pack :
    (batches : List (List ClusterRow)) (current : List ClusterRow) (cs : List (List ClusterRow))
    → flatten (pack batches current cs) ≡ flatten batches ++ (current ++ flatten (slices cs))
unfolding pack
flatten-pack batches current [] =
    flatten-flush batches current ∙ ap (λ t. flatten batches ++ t) (sym (append-nil current))
flatten-pack batches current (c ∷ cs) =
    elim (Bool-cases (ltb max_batch_size (length current + length (take max_batch_size c)))) [
      | inl e ↦
          rw (e, pack)
            (flatten-pack (flush batches current) (take max_batch_size c) cs
              ∙ ap (λ t. t ++ (take max_batch_size c ++ flatten (slices cs)))
                  (flatten-flush batches current)
              ∙ append_assoc (flatten batches) current
                  (take max_batch_size c ++ flatten (slices cs)))
      | inr e ↦
          rw (e, pack)
            (flatten-pack batches (current ++ take max_batch_size c) cs
              ∙ ap (λ t. flatten batches ++ t)
                  (append_assoc current (take max_batch_size c) (flatten (slices cs))))
    ]

-- A batch holds a row, and at most the cap.
abbrev pub Fits : List ClusterRow → Type 0
Fits rows = (0 < length rows) × (length rows ≤ max_batch_size)

flush-Fits :
    (batches : List (List ClusterRow)) (current : List ClusterRow)
    → All Fits batches
    → length current ≤ max_batch_size
    → All Fits (flush batches current)
unfolding flush
flush-Fits batches [] f h = f
flush-Fits batches (r ∷ rs) f h = All-append Fits batches ((r ∷ rs) ∷ []) f ((omega arith, h), tt)

pack-Fits :
    (batches : List (List ClusterRow)) (current : List ClusterRow) (cs : List (List ClusterRow))
    → All Fits batches
    → length current ≤ max_batch_size
    → All Fits (pack batches current cs)
unfolding pack
pack-Fits batches current [] f h = flush-Fits batches current f h
pack-Fits batches current (c ∷ cs) f h =
    elim (Bool-cases (ltb max_batch_size (length current + length (take max_batch_size c)))) [
      | inl e ↦
          rw (e, pack)
            (pack-Fits (flush batches current) (take max_batch_size c) cs
              (flush-Fits batches current f h) (omega (arith, length-take max_batch_size c)))
      | inr e ↦
          rw (e, pack)
            (pack-Fits batches (current ++ take max_batch_size c) cs f
              (within e (length-append current (take max_batch_size c))))
    ]
  where
    within : {m n : ℕ} → ltb max_batch_size n ≡ false → m ≡ n → m ≤ max_batch_size
    within e q = ground arith

-- What `bin_pack` writes for the rows of one batch.
abbrev pub Numbered : ℕ → List Batch → Type 0
Numbered i [] = Unit
Numbered i (b ∷ bs) =
    (b.batch_index ≡ i)
    × (b.signal_ids ≡ map (λ r. r.signal_id) b.cluster_rows)
    × (b.signal_count ≡ length b.cluster_rows)
    × Numbered (i + 1) bs

number_from-Numbered : (i : ℕ) (rows : List (List ClusterRow)) → Numbered i (number_from i rows)
unfolding number_from
number_from-Numbered i [] = tt
number_from-Numbered i (r ∷ rs) = (refl, refl, refl, number_from-Numbered (i + 1) rs)

abbrev pub rows_of : List Batch → List (List ClusterRow)
rows_of = map (λ b. b.cluster_rows)

pub rows_of-number_from :
    (i : ℕ) (rows : List (List ClusterRow)) → rows_of (number_from i rows) ≡ rows
unfolding number_from
rows_of-number_from i [] = refl
rows_of-number_from i (r ∷ rs) = ap (r ∷◌) (rows_of-number_from (i + 1) rs)

-- Every batch of `binPack` holds at least one row and at most 400; the batches are numbered from 0
-- in order; and the ids and the count of a batch are those of its rows.
pub bin_pack_bounds :
    (rows : List ClusterRow) → All Fits (rows_of (bin_pack rows)) × Numbered 0 (bin_pack rows)
unfolding bin_pack
bin_pack_bounds rows = (
  rw rows_of-number_from (pack-Fits [] [] (communities rows) tt (omega arith)),
  number_from-Numbered 0 _,
)

-- Read in order, the batches of `binPack` are the communities in order, each cut to 400 rows.
pub flatten-bin_pack :
    (rows : List ClusterRow)
    → flatten (rows_of (bin_pack rows)) ≡ flatten (map (take max_batch_size) (communities rows))
unfolding bin_pack
flatten-bin_pack rows = rw rows_of-number_from (flatten-pack [] [] (communities rows))
