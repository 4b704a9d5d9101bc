-- ===== src/Revisit/Packing.antt =====
-- `binPack` of prepare_chain/entry.mjs: the communities of signals are packed, largest first, into
-- batches for the cluster agent. JSON texts are represented by the values that they encode.
pub mod Batches
pub mod Communities
use trend_tree.Prelude.{
  ℕ, zero, suc, ◌+◌, List, [], ◌∷◌, ◌++◌, map, Option, none, some, Text, Double, length, take, sort,
  ltb, Bool, true, false, ◌==◌, if◌then◌else◌,
}

pub record ClusterRow : Type 0 where
  pub signal_id : Text
  pub cluster_id : Option ℕ
  pub similarity_to_seed : Double

pub record Batch : Type 0 where
  pub batch_index : ℕ
  pub cluster_rows : List ClusterRow
  pub signal_ids : List Text
  pub signal_count : ℕ

abbrev pub max_batch_size : ℕ
max_batch_size = 400

-- `r.cluster_id ?? 0`
abbrev pub cluster_key : ClusterRow → ℕ
cluster_key r = elim r.cluster_id [ none ↦ 0 | some c ↦ c ]

-- The map `byCluster`, in its order of insertion: the row joins its community or starts a new one.
unfoldable pub add_row : ClusterRow → List (ℕ × List ClusterRow) → List (ℕ × List ClusterRow)
add_row r [] = (cluster_key r, r ∷ []) ∷ []
add_row r ((k, rs) ∷ m) =
    if k == cluster_key r then (k, rs ++ r ∷ []) ∷ m else (k, rs) ∷ add_row r m

unfoldable pub by_cluster :
    List (ℕ × List ClusterRow) → List ClusterRow → List (ℕ × List ClusterRow)
by_cluster m [] = m
by_cluster m (r ∷ rs) = by_cluster (add_row r m) rs

-- `(a, b) => b.length - a.length`, above 0
abbrev pub smaller : List ClusterRow → List ClusterRow → Bool
smaller a b = ltb (length a) (length b)

-- `[...byCluster.values()].sort((a, b) => b.length - a.length)`
unfoldable pub communities : List ClusterRow → List (List ClusterRow)
communities rows = sort smaller (map (λ e. e.1) (by_cluster [] rows))

-- `if (current.length > 0) batches.push(current)`
unfoldable pub flush : List (List ClusterRow) → List ClusterRow → List (List ClusterRow)
flush batches [] = batches
flush batches (r ∷ rs) = batches ++ (r ∷ rs) ∷ []

-- The loop over the communities, with its variables `batches` and `current`.
unfoldable pub pack :
    List (List ClusterRow) → List ClusterRow → List (List ClusterRow) → List (List ClusterRow)
pack batches current [] = flush batches current
pack batches current (community ∷ rest) =
    let slice = take max_batch_size community in
    elim (ltb max_batch_size (length current + length slice)) [
      | true ↦ pack (flush batches current) slice rest
      | false ↦ pack batches (current ++ slice) rest
    ]

unfoldable pub number_from : ℕ → List (List ClusterRow) → List Batch
number_from i [] = []
number_from i (rows ∷ rest) =
    record {
      batch_index = i;
      cluster_rows = rows;
      signal_ids = map (λ r. r.signal_id) rows;
      signal_count = length rows;
    }
    ∷ number_from (i + 1) rest

unfoldable pub bin_pack : List ClusterRow → List Batch
bin_pack rows = number_from 0 (pack [] [] (communities rows))
