-- ===== src/Catalog/Plan.antt =====
-- `planCatalogUpsert`: which products are written, embedded again, and delisted.
pub mod Keys
pub mod Delists
use trend_tree.Prelude.{
  ℕ, List, [], ◌∷◌, ◌++◌, map, Option, none, some, Bool, true, false, not, ◌&&◌, ◌||◌, Text, lit,
  text_eq, any, filter, if◌then◌else◌,
}
use trend_tree.Catalog.Doc.{Product, build_embed_doc}
use trend_tree.Catalog.Feed.{Offer, Listing}

abbrev pub embed_doc_version : Text
embed_doc_version = lit "v1"

-- `keyOf`: what is written as JSON determines the two texts.
pub record Key : Type 0 where
  pub tier : Text
  pub id : Text

unfoldable pub key_eq : Key → Key → Bool
key_eq a b = text_eq a.tier b.tier && text_eq a.id b.id

pub data CatalogStatus : Type 0 where
  active delisted : CatalogStatus

-- What the plan reads of a row of the table.
pub record Existing : Type 0 where
  pub key : Key
  pub embed_doc_hash : Text
  pub embed_doc_version : Text
  pub catalog_status : CatalogStatus

-- One planned upsert.
pub record Upsert : Type 0 where
  pub key : Key
  pub listing : Listing
  pub embed_doc : Text
  pub embed_doc_hash : Text
  pub needs_embed : Bool

-- `existingByKey.set(key, row)`, in insertion order
unfoldable pub put_row : Existing → List Existing → List Existing
put_row r [] = r ∷ []
put_row r (x ∷ xs) = if key_eq x.key r.key then r ∷ xs else x ∷ put_row r xs

unfoldable pub index_rows : List Existing → List Existing → List Existing
index_rows m [] = m
index_rows m (r ∷ rs) = index_rows (put_row r m) rs

unfoldable pub find_existing : Key → List Existing → Option Existing
find_existing k [] = none
find_existing k (x ∷ xs) = if key_eq x.key k then some x else find_existing k xs

unfoldable pub product_key : Product → Key
product_key p = record { tier = p.tier; id = p.catalog_product_id }

abbrev pub is_delisted : CatalogStatus → Bool
is_delisted active = false
is_delisted delisted = true

-- `hash` is SHA-256 of the UTF-8 text, in hexadecimal.
module _ (hash : Text → Text) where
  -- Whether the stored vector cannot be kept.
  unfoldable pub needs_embed : Text → Option Existing → Bool
  needs_embed doc_hash none = true
  needs_embed doc_hash (some r) =
      not (text_eq r.embed_doc_hash doc_hash) || not (text_eq r.embed_doc_version embed_doc_version)

  unfoldable pub plan_upsert : List Existing → Listing → Upsert
  plan_upsert existing l =
      let doc = build_embed_doc l.product in
      record {
        key = product_key l.product;
        listing = l;
        embed_doc = doc;
        embed_doc_hash = hash doc;
        needs_embed = needs_embed (hash doc) (find_existing (product_key l.product) existing);
      }

  unfoldable pub plan_upserts : List Existing → List Listing → List Upsert
  plan_upserts existing = map (plan_upsert existing)

-- The rows that are not seen and not yet delisted.
unfoldable pub plan_delists : List Key → List Existing → List Key
plan_delists seen [] = []
plan_delists seen (r ∷ rs) =
    let rest = plan_delists seen rs in
    if any (λ j. key_eq j r.key) seen || is_delisted r.catalog_status then rest else r.key ∷ rest

pub record CatalogPlan : Type 0 where
  pub upserts : List Upsert
  pub to_embed : List Upsert
  pub delists : List Key

unfoldable pub plan_catalog_upsert : (Text → Text) → List Listing → List Existing → CatalogPlan
plan_catalog_upsert hash products rows =
    let existing = index_rows [] rows in
    let upserts = plan_upserts hash existing products in
    record {
      upserts = upserts;
      to_embed = filter (λ u. u.needs_embed) upserts;
      delists = plan_delists (map (λ u. u.key) upserts) existing;
    }
