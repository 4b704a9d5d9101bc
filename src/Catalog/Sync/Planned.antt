-- ===== src/Catalog/Sync/Planned.antt =====
-- What the planned change makes of a row, and the changes of a sweep.
use trend_tree.Prelude.{
  ℕ, ◌<◌, ◌≡◌, refl, ap, sym, ◌∙◌, subst, inl, inr, List, [], ◌∷◌, Option, none, some, Bool, true,
  false, not, ◌||◌, Text, text_eq, text_eq_iff, All, Bool-cases, Option-cases, if◌then◌else◌,
}
use trend_tree.Catalog.Doc.{build_embed_doc}
use trend_tree.Catalog.Feed.{FeedProduct, Listing, normalize_storefront_products}
use trend_tree.Catalog.Feed.Handles.{IsListed}
use trend_tree.Catalog.Plan.{
  Key, key_eq, CatalogStatus, active, delisted, Existing, embed_doc_version, index_rows,
  find_existing, product_key, needs_embed, plan_upsert, plan_catalog_upsert,
}
use trend_tree.Catalog.Plan.Keys.{eq-key_eq, IsDistinct, index_rows_distinct}
use trend_tree.Catalog.Plan.Delists.{is_live, plan_upserts-keys}
use trend_tree.Catalog.Sync.{
  Row, Statement, statements_of, written, existing_of, select_existing, plan_sweep,
}
use trend_tree.Catalog.Sync.Table.{find_row, delist, all_changes, statements_of-changes, changed_by}
use trend_tree.Catalog.Sync.Rows.{
  shopify, row_keys, find_listing, withdrawn, row_for, swept, IsCurrent, IsCoherent, existing_row,
  select-IsDistinct, find_existing-select, planned, plan_of,
}

find_listing-key :
    (k : Key) (ls : List Listing) (l : Listing)
    → find_listing k ls ≡ some l
    → product_key l.product ≡ k
find_listing-key k [] l h = cc
find_listing-key k (x ∷ ls) l h = elim (Bool-cases (key_eq (product_key x.product) k)) [
  | inl e ↦
      let same : some x ≡ some l = rw e at h in
      let x≡l : x ≡ l = cc in subst (λ y. product_key y.product ≡ k) x≡l (eq-key_eq _ k e)
  | inr e ↦ find_listing-key k ls l (rw e at h)
]

find_listing-tier :
    (k : Key) (ls : List Listing) (l : Listing)
    → IsListed ls
    → find_listing k ls ≡ some l
    → l.product.tier ≡ shopify
find_listing-tier k [] l d h = cc
find_listing-tier k (x ∷ ls) l d h = elim (Bool-cases (key_eq (product_key x.product) k)) [
  | inl e ↦
      let same : some x ≡ some l = rw e at h in
      let x≡l : x ≡ l = cc in subst (λ y. y.product.tier ≡ shopify) x≡l d.0
  | inr e ↦ find_listing-tier k ls l d.2 (rw e at h)
]

find_listing-All :
    (P : Listing → Type 0) (k : Key) (ls : List Listing) (l : Listing)
    → All P ls
    → find_listing k ls ≡ some l
    → P l
find_listing-All P k [] l a h = cc
find_listing-All P k (x ∷ ls) l a h = elim (Bool-cases (key_eq (product_key x.product) k)) [
  | inl e ↦ let same : some x ≡ some l = rw e at h in let x≡l : x ≡ l = cc in subst P x≡l a.0
  | inr e ↦ find_listing-All P k ls l a.1 (rw e at h)
]

find_row-key :
    {V : Type 0} (k : Key) (t : List (Row V)) (r : Row V) → find_row k t ≡ some r → r.key ≡ k
find_row-key k [] r h = cc
find_row-key k (x ∷ t) r h = elim (Bool-cases (key_eq x.key k)) [
  | inl e ↦
      let same : some x ≡ some r = rw e at h in
      let x≡r : x ≡ r = cc in subst (λ y. y.key ≡ k) x≡r (eq-key_eq x.key k e)
  | inr e ↦ find_row-key k t r (rw e at h)
]

pub find_row-All :
    {V : Type 0} (P : Row V → Type 0) (k : Key) (t : List (Row V)) (r : Row V)
    → All P t
    → find_row k t ≡ some r
    → P r
find_row-All P k [] r a h = cc
find_row-All P k (x ∷ t) r a h = elim (Bool-cases (key_eq x.key k)) [
  | inl e ↦ let same : some x ≡ some r = rw e at h in let x≡r : x ≡ r = cc in subst P x≡r a.0
  | inr e ↦ find_row-All P k t r a.1 (rw e at h)
]

module _ {V : Type 0} (embed : Text → V) (hash : Text → Text) (sweep_at : ℕ) where
  -- The vector that an upsert leaves is the one of its text.
  kept_vector :
      (doc : Text) (r : Row V)
      → IsCoherent embed hash sweep_at r
      → (hash r.embed_doc ≡ hash doc → r.embed_doc ≡ doc)
      → (if needs_embed hash (hash doc) (some (existing_of r)) then embed doc else r.product_vector)
        ≡ embed doc
  unfolding needs_embed
  kept_vector doc r coherent apart =
      go (text_eq r.embed_doc_hash (hash doc)) (text_eq r.embed_doc_version embed_doc_version) refl
        refl
    where
      go :
          (same_hash same_version : Bool)
          → text_eq r.embed_doc_hash (hash doc) ≡ same_hash
          → text_eq r.embed_doc_version embed_doc_version ≡ same_version
          → (if not same_hash || not same_version then embed doc else r.product_vector) ≡ embed doc
      go false same_version h v = refl
      go true false h v = refl
      go true true h v =
          let now : IsCurrent embed hash sweep_at true r = rw v at coherent in
          now.1 ∙ ap embed (apart (sym now.0 ∙ (text_eq_iff r.embed_doc_hash (hash doc)).0 h))

  written-row_for :
      (rows : List Existing) (l : Listing) (o : Option (Row V))
      → find_existing (product_key l.product) rows ≡ existing_row o
      → ((r : Row V) → o ≡ some r → r.key ≡ product_key l.product)
      → ((r : Row V) → o ≡ some r → IsCoherent embed hash sweep_at r)
      → ((r : Row V)
          → o ≡ some r
          → hash r.embed_doc ≡ hash (build_embed_doc l.product)
          → r.embed_doc ≡ build_embed_doc l.product)
      → written embed sweep_at (plan_upsert hash rows l) o ≡ row_for embed hash sweep_at l
  unfolding written plan_upsert
  written-row_for rows l none f key coherent apart = refl
  written-row_for rows l (some r) f key coherent apart =
      let vector : (if needs_embed hash (hash (build_embed_doc l.product))
              (find_existing (product_key l.product) rows)
            then embed (build_embed_doc l.product)
            else r.product_vector)
          ≡ embed (build_embed_doc l.product) =
        rw f (kept_vector (build_embed_doc l.product) r (coherent r refl) (apart r refl)) in
      rw (key r refl, vector) refl

  abbrev IsApart : List (Row V) → Listing → Type 0
  IsApart t l =
      (r : Row V)
      → find_row (product_key l.product) t ≡ some r
      → hash r.embed_doc ≡ hash (build_embed_doc l.product)
      → r.embed_doc ≡ build_embed_doc l.product

  -- What the planned change makes of a row.
  pub changed_by-plan_of :
      (k : Key) (ls : List Listing) (t : List (Row V))
      → IsListed ls
      → All (IsCoherent embed hash sweep_at) t
      → All (IsApart t) ls
      → changed_by embed sweep_at
          (plan_of hash (select_existing t) k (find_listing k ls))
          (find_row k t)
        ≡ swept embed hash sweep_at (find_listing k ls) (text_eq k.tier shopify) (find_row k t)
  unfolding product_key
  changed_by-plan_of k ls t listed coherent apart = elim (Option-cases (find_listing k ls)) [
    | inr (l, e) ↦
        let same = find_listing-key k ls l e in
        let tier : text_eq (product_key l.product).tier shopify ≡ true =
          (text_eq_iff _ _).1 (find_listing-tier k ls l listed e) in
        let at : find_existing (product_key l.product) (select_existing t)
            ≡ existing_row (find_row (product_key l.product) t) =
          find_existing-select (product_key l.product) t ∙ rw tier refl in
        rw (e, ← same)
          (ap some (
            written-row_for (select_existing t) l (find_row (product_key l.product) t) at
              (find_row-key (product_key l.product) t)
              (λ r h.
                find_row-All (IsCoherent embed hash sweep_at) (product_key l.product) t r coherent
                  h)
              (find_listing-All (IsApart t) k ls l apart e)))
    | inl e ↦ elim (Bool-cases (text_eq k.tier shopify)) [
      | inl tier ↦
          rw (e, find_existing-select k t, tier) (unlisted k (find_row k t) (find_row-key k t))
      | inr tier ↦ rw (e, find_existing-select k t, tier) refl
    ]
  ]
    where
      unlisted :
          (k : Key) (o : Option (Row V))
          → ((r : Row V) → o ≡ some r → r.key ≡ k)
          → changed_by embed sweep_at (if is_live (existing_row o) then some (delist k) else none) o
            ≡ withdrawn o
      unlisted k none h = refl
      unlisted k (some r) h = live r r.catalog_status refl
        where
          live :
              (r : Row V) (s : CatalogStatus)
              → r.catalog_status ≡ s
              → changed_by embed sweep_at
                  (if is_live (existing_row (some r)) then some (delist k) else none)
                  (some r)
                ≡ withdrawn (some r)
          live r active e = rw (existing_of, e) refl
          live r delisted e = rw (existing_of, e) refl

  -- The changes of a sweep, in their order.
  pub sweep-changes :
      (store_url : Text) (batch_size : ℕ) (products : List FeedProduct) (t : List (Row V))
      (ss : List Statement)
      → 0 < batch_size
      → IsDistinct (row_keys t)
      → plan_sweep hash store_url batch_size products t ≡ some ss
      → all_changes ss
        ≡ planned hash (normalize_storefront_products store_url products) (select_existing t)
  unfolding plan_sweep plan_catalog_upsert
  sweep-changes store_url batch_size products t ss p d h =
      go (normalize_storefront_products store_url products) h
    where
      indexed : index_rows [] (select_existing t) ≡ select_existing t
      indexed = index_rows_distinct [] (select_existing t) (select-IsDistinct t d)

      go :
          (ls : List Listing)
          → (elim ls [
            | [] ↦ none
            | l ∷ ls ↦
                some
                  (statements_of batch_size (plan_catalog_upsert hash (l ∷ ls) (select_existing t)))
          ])
            ≡ some ss
          → all_changes ss ≡ planned hash ls (select_existing t)
      go [] h = cc
      go (l ∷ ls) h =
          let same : statements_of batch_size
                (plan_catalog_upsert hash (l ∷ ls) (select_existing t))
              ≡ ss =
            cc in
          ap all_changes (sym same)
          ∙ (statements_of-changes batch_size
                (plan_catalog_upsert hash (l ∷ ls) (select_existing t)) p
              ∙ rw (indexed, plan_upserts-keys hash (select_existing t) (l ∷ ls)) refl)
