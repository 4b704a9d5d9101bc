-- ===== src/Revisit/Queue/Enqueue.antt =====
-- The queue of a chain that has just been prepared.
use trend_tree.Prelude.{
  ℕ, ◌+◌, ◌≤◌, ◌<◌, ◌≡◌, refl, ◌∙◌, inl, inr, List, [], ◌∷◌, ◌++◌, false, Text, text_eq_refl, arith,
  length, count, count-append, ◌==◌, ==_iff, Bool-cases,
}
use trend_tree.Revisit.Packing.{Batch}
use trend_tree.Revisit.Packing.Batches.{Numbered}
use trend_tree.Revisit.Store.{QueueRow}
use trend_tree.Revisit.Queue.{in_chain, pending_in, has_key, queue_row, enqueue, pending_count}
use trend_tree.Revisit.Queue.Progress.{HasKey}

module _ (chain session : Text) (total : ℕ) where
  -- Each row that is queued is a pending row of the chain.
  pub pending_count-enqueue :
      (bs : List Batch) (q : List QueueRow)
      → pending_count chain (enqueue chain session total bs q) ≡ pending_count chain q + length bs
  unfolding enqueue pending_count queue_row
  pending_count-enqueue [] q = omega arith
  pending_count-enqueue (b ∷ bs) q =
      pending_count-enqueue bs (q ++ queue_row chain session total b ∷ [])
      ∙ rw (count-append (pending_in chain) q (queue_row chain session total b ∷ []), text_eq_refl)
          (omega arith)

  pub count-in_chain-enqueue :
      (bs : List Batch) (q : List QueueRow)
      → count (in_chain chain) (enqueue chain session total bs q)
        ≡ count (in_chain chain) q + length bs
  unfolding enqueue queue_row
  count-in_chain-enqueue [] q = omega arith
  count-in_chain-enqueue (b ∷ bs) q =
      count-in_chain-enqueue bs (q ++ queue_row chain session total b ∷ [])
      ∙ rw (count-append (in_chain chain) q (queue_row chain session total b ∷ []), text_eq_refl)
          (omega arith)

  abbrev keyed : ℕ → List QueueRow → ℕ
  keyed j = count (has_key chain j)

  keyed-queue_row :
      (j : ℕ) (b : Batch) (q : List QueueRow)
      → keyed j (q ++ queue_row chain session total b ∷ [])
        ≡ keyed j q + keyed j (queue_row chain session total b ∷ [])
  keyed-queue_row j b q = count-append (has_key chain j) q (queue_row chain session total b ∷ [])

  keyed_new :
      (j : ℕ) (b : Batch)
      → (keyed j (queue_row chain session total b ∷ []) ≤ 1)
        × (j < b.batch_index → keyed j (queue_row chain session total b ∷ []) ≡ 0)
        × (b.batch_index < j → keyed j (queue_row chain session total b ∷ []) ≡ 0)
  unfolding queue_row
  keyed_new j b = ground (arith, text_eq_refl chain)

  keyed-enqueue_below :
      (i j : ℕ) (bs : List Batch) (q : List QueueRow)
      → Numbered i bs
      → j < i
      → keyed j (enqueue chain session total bs q) ≡ keyed j q
  unfolding enqueue
  keyed-enqueue_below i j [] q n h = refl
  keyed-enqueue_below i j (b ∷ bs) q n h = omega (
    arith,
    keyed-enqueue_below (i + 1) j bs (q ++ queue_row chain session total b ∷ []) n.3 (omega arith),
    keyed-queue_row j b q,
    (keyed_new j b).1 (omega (arith, n.0)),
  )

  keyed-enqueue-le :
      (i j : ℕ) (bs : List Batch) (q : List QueueRow)
      → Numbered i bs
      → keyed j q ≡ 0
      → keyed j (enqueue chain session total bs q) ≤ 1
  unfolding enqueue
  keyed-enqueue-le i j [] q n h = omega (arith, h)
  keyed-enqueue-le i j (b ∷ bs) q n h = elim (Bool-cases (j == i)) [
    | inl e ↦
        let same = (==_iff j i).0 e in
        omega (
          arith,
          keyed-enqueue_below (i + 1) j bs (q ++ queue_row chain session total b ∷ []) n.3
              (omega (arith, same)),
          keyed-queue_row j b q,
          (keyed_new j b).0,
          h,
        )
    | inr e ↦
        keyed-enqueue-le (i + 1) j bs (q ++ queue_row chain session total b ∷ []) n.3
          (omega (arith, keyed-queue_row j b q, new_row e, h))
  ]
    where
      new_row : (j == i) ≡ false → keyed j (queue_row chain session total b ∷ []) ≡ 0
      new_row e = ground (arith, keyed_new j b, n.0)

  keyed-le-in_chain : (j : ℕ) (q : List QueueRow) → keyed j q ≤ count (in_chain chain) q
  keyed-le-in_chain j [] = omega arith
  keyed-le-in_chain j (r ∷ q) = ground (arith, keyed-le-in_chain j q)

  -- Numbered batches of a chain that the queue does not know keep the table's key.
  pub enqueue-HasKey :
      (bs : List Batch) (q : List QueueRow)
      → Numbered 0 bs
      → count (in_chain chain) q ≡ 0
      → HasKey chain (enqueue chain session total bs q)
  enqueue-HasKey bs q n h j = keyed-enqueue-le 0 j bs q n (omega (arith, keyed-le-in_chain j q, h))

pub fresh-HasKey :
    (chain : Text) (q : List QueueRow) → count (in_chain chain) q ≡ 0 → HasKey chain q
fresh-HasKey chain q h j = omega (arith, keyed-le-in_chain chain [] 0 j q, h)
