-- ===== src/Catalog/Sync/Refines.antt =====
-- A sweep refines its specification on the rows, and so does a sweep that is cut off.
use trend_tree.Prelude.{
  ℕ, ◌<◌, ◌≡◌, ap, sym, ◌∙◌, subst, ◌⊎◌, All, List, ◌++◌, some, Text, text_eq, take, drop,
}
use trend_tree.Catalog.Doc.{build_embed_doc}
use trend_tree.Catalog.Feed.{FeedProduct, normalize_storefront_products}
use trend_tree.Catalog.Feed.Handles.{normalize_storefront_products-IsListed}
use trend_tree.Catalog.Plan.{Key, product_key}
use trend_tree.Catalog.Plan.Keys.{IsDistinct}
use trend_tree.Catalog.Sync.{Row, Statement, select_existing, plan_sweep, execute_all}
use trend_tree.Catalog.Sync.Table.{
  find_row, changed_keys, all_changes, all_changes-take, apply_changes, execute_all-changes,
  find_row-first_part, find_row-apply_changes, changed_by,
}
use trend_tree.Catalog.Sync.Rows.{
  shopify, row_keys, find_listing, swept, IsSound, select-IsDistinct, planned, planned-IsDistinct,
  find_change-planned,
}
use trend_tree.Catalog.Sync.Planned.{changed_by-plan_of, sweep-changes}

-- A sweep that is carried through leaves each row as its specification says: a listed product has
-- the row of its listing with the vector of its own text, even where the vector was kept, another
-- row of the storefront's tier is withdrawn, and the rows of other tiers stay. The feed has listings,
-- the batches are not empty, the table has no key twice, each row of the current version has the
-- hash and the vector of its text, and for no listing of the feed is its text another than the one
-- that its row holds, with the same hash.
pub catalog_sweep_refines :
    {V : Type 0} (embed : Text → V) (hash : Text → Text) (sweep_at : ℕ) (store_url : Text)
    (batch_size : ℕ) (products : List FeedProduct) (t : List (Row V)) (ss : List Statement)
    (k : Key)
    → 0 < batch_size
    → IsSound embed hash sweep_at t
    → All
        (λ l.
          (r : Row V)
          → find_row (product_key l.product) t ≡ some r
          → hash r.embed_doc ≡ hash (build_embed_doc l.product)
          → r.embed_doc ≡ build_embed_doc l.product)
        (normalize_storefront_products store_url products)
    → plan_sweep hash store_url batch_size products t ≡ some ss
    → find_row k (execute_all embed sweep_at ss t)
      ≡ swept embed hash sweep_at
          (find_listing k (normalize_storefront_products store_url products))
          (text_eq k.tier shopify)
          (find_row k t)
catalog_sweep_refines embed hash sweep_at store_url batch_size products t ss k p sound apart h =
    let ls = normalize_storefront_products store_url products in
    let listed = normalize_storefront_products-IsListed store_url products in
    let rows = select-IsDistinct t sound.distinct in
    let changes =
      sweep-changes embed hash sweep_at store_url batch_size products t ss p sound.distinct h in
    ap (find_row k) (
      execute_all-changes embed sweep_at ss t
      ∙ ap (λ cs. apply_changes embed sweep_at cs t) changes)
    ∙ (find_row-apply_changes embed sweep_at k (planned hash ls (select_existing t)) t
          (planned-IsDistinct hash ls (select_existing t) listed rows)
        ∙ (ap (λ c. changed_by embed sweep_at c (find_row k t))
              (find_change-planned hash k ls (select_existing t) rows)
            ∙ changed_by-plan_of embed hash sweep_at k ls t listed sound.coherent apart))

-- A sweep that breaks off after any number of its statements leaves each row as it was or as the
-- whole sweep leaves it. The batches are not empty, and the table has no key twice.
pub catalog_sweep_prefix :
    {V : Type 0} (embed : Text → V) (hash : Text → Text) (sweep_at : ℕ) (store_url : Text)
    (batch_size : ℕ) (products : List FeedProduct) (t : List (Row V)) (ss : List Statement) (n : ℕ)
    (k : Key)
    → 0 < batch_size
    → IsDistinct (row_keys t)
    → plan_sweep hash store_url batch_size products t ≡ some ss
    → (find_row k (execute_all embed sweep_at (take n ss) t) ≡ find_row k t)
      ⊎ (find_row k (execute_all embed sweep_at (take n ss) t)
          ≡ find_row k (execute_all embed sweep_at ss t))
catalog_sweep_prefix embed hash sweep_at store_url batch_size products t ss n k p d h =
    let changes = sweep-changes embed hash sweep_at store_url batch_size products t ss p d h in
    let cut = all_changes-take n ss in
    let once =
      planned-IsDistinct hash (normalize_storefront_products store_url products) (select_existing t)
        (normalize_storefront_products-IsListed store_url products) (select-IsDistinct t d) in
    let distinct : IsDistinct (changed_keys (all_changes (take n ss) ++ all_changes (drop n ss))) =
      subst (λ cs. IsDistinct (changed_keys cs)) (sym (cut ∙ changes)) once in
    rw
      (
        execute_all-changes embed sweep_at (take n ss) t,
        execute_all-changes embed sweep_at ss t,
        ← cut,
      )
      (find_row-first_part embed sweep_at k (all_changes (take n ss)) (all_changes (drop n ss)) t
        distinct)
