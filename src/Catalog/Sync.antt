-- ===== src/Catalog/Sync.antt =====
-- `runCatalogSync` and the statements of catalog_sql.mjs: one sweep over the table of products.
pub mod Table
pub mod Rows
pub mod Planned
pub mod Refines
pub mod Sound
use trend_tree.Prelude.{
  chunk, ℕ, zero, suc, List, [], ◌∷◌, ◌++◌, map, Option, none, some, Bool, true, false, Text, lit,
  text_eq, filter, length, take, drop, is_empty, if◌then◌else◌,
}
use trend_tree.Catalog.Feed.{FeedProduct, Listing, normalize_storefront_products}
use trend_tree.Catalog.Plan.{
  Key, key_eq, CatalogStatus, active, delisted, Existing, Upsert, CatalogPlan, embed_doc_version,
  plan_catalog_upsert,
}

-- A row of DIM_CATALOG_PRODUCT. A vector is whatever the database's embedding gives.
pub record Row (V : Type 0) : Type 0 where
  pub key : Key
  pub listing : Listing
  pub embed_doc : Text
  pub embed_doc_hash : Text
  pub embed_doc_version : Text
  pub product_vector : V
  pub catalog_status : CatalogStatus
  pub last_seen_at : ℕ

-- One of the two kinds of statement, with its rows.
pub data Statement : Type 0 where
  merge_upserts : List Upsert → Statement
  merge_delists : List Key → Statement

unfoldable pub statements_of : ℕ → CatalogPlan → List Statement
statements_of batch_size plan =
    map merge_upserts (chunk batch_size plan.upserts)
    ++ map merge_delists (chunk batch_size plan.delists)

-- The keys of one statement are distinct, so that its rows can be taken in turn.
module _ {V : Type 0} (embed : Text → V) (sweep_at : ℕ) where
  -- The row that a planned upsert writes over a row, or as a new one.
  unfoldable pub written : Upsert → Option (Row V) → Row V
  written u none = record {
    key = u.key;
    listing = u.listing;
    embed_doc = u.embed_doc;
    embed_doc_hash = u.embed_doc_hash;
    embed_doc_version = embed_doc_version;
    product_vector = embed u.embed_doc;
    catalog_status = active;
    last_seen_at = sweep_at;
  }
  written u (some r) = record {
    key = r.key;
    listing = u.listing;
    embed_doc = u.embed_doc;
    embed_doc_hash = u.embed_doc_hash;
    embed_doc_version = embed_doc_version;
    product_vector = if u.needs_embed then embed u.embed_doc else r.product_vector;
    catalog_status = active;
    last_seen_at = sweep_at;
  }

  -- A MERGE of one row that updates or inserts.
  unfoldable pub merge_upsert : Upsert → List (Row V) → List (Row V)
  merge_upsert u [] = written u none ∷ []
  merge_upsert u (r ∷ rs) =
      if key_eq r.key u.key then written u (some r) ∷ rs else r ∷ merge_upsert u rs

  -- A MERGE of one row that only updates.
  unfoldable pub merge_delist : Key → List (Row V) → List (Row V)
  merge_delist k [] = []
  merge_delist k (r ∷ rs) =
      if key_eq r.key k then record r { catalog_status = delisted } ∷ rs else r ∷ merge_delist k rs

  unfoldable pub merge_all_upserts : List Upsert → List (Row V) → List (Row V)
  merge_all_upserts [] t = t
  merge_all_upserts (u ∷ us) t = merge_all_upserts us (merge_upsert u t)

  unfoldable pub merge_all_delists : List Key → List (Row V) → List (Row V)
  merge_all_delists [] t = t
  merge_all_delists (k ∷ ks) t = merge_all_delists ks (merge_delist k t)

  unfoldable pub execute : Statement → List (Row V) → List (Row V)
  execute (merge_upserts us) t = merge_all_upserts us t
  execute (merge_delists ks) t = merge_all_delists ks t

  unfoldable pub execute_all : List Statement → List (Row V) → List (Row V)
  execute_all [] t = t
  execute_all (s ∷ ss) t = execute_all ss (execute s t)

abbrev pub existing_of : {V : Type 0} → Row V → Existing
existing_of r = record {
  key = r.key;
  embed_doc_hash = r.embed_doc_hash;
  embed_doc_version = r.embed_doc_version;
  catalog_status = r.catalog_status;
}

-- `SELECT_EXISTING_SQL`, for the sweep's tier
unfoldable pub select_existing : {V : Type 0} → List (Row V) → List Existing
select_existing rows = map existing_of (filter (λ r. text_eq r.key.tier (lit "shopify")) rows)

-- The statements of a sweep; none is the refusal of a feed without a handle, before any statement.
unfoldable pub plan_sweep :
    {V : Type 0}
    → (Text → Text)
    → Text
    → ℕ
    → List FeedProduct
    → List (Row V)
    → Option (List Statement)
plan_sweep hash store_url batch_size products rows =
    let normalized = normalize_storefront_products store_url products in
    elim normalized [
      | [] ↦ none
      | l ∷ ls ↦
          some (statements_of batch_size (plan_catalog_upsert hash (l ∷ ls) (select_existing rows)))
    ]
