-- ===== src/Catalog/Feed.antt =====
-- `normalizeStorefrontProducts`: the products of the storefront's feed.
pub mod Handles
use trend_tree.Prelude.{
  ℕ, List, [], ◌∷◌, ◌++◌, map, Option, none, some, Bool, true, false, not, Text, lit, text_eq,
  is_empty, trim, Double, is_finite, lt_double, any, filter, if◌then◌else◌, ◌==◌,
}
use mathlib.Core.List.{reverse}
use trend_tree.Catalog.Doc.{Product, join}

-- A variant: `Number(price)`, none if the price is missing or blank.
pub record Variant : Type 0 where
  pub price : Option Double
  pub available : Bool

-- A product of the feed. A field that is missing is the empty text or list; the variants are none
-- if they are no array.
pub record FeedProduct : Type 0 where
  pub handle : Text
  pub title : Text
  pub vendor : Text
  pub product_type : Text
  pub tags : List Text
  pub body_html : Text
  pub variants : Option (List Variant)
  pub image_src : Text

-- What is stored beside the embedded text.
pub record Offer : Type 0 where
  pub product_url : Option Text
  pub price : Option Double
  pub available : Bool
  pub image_url : Option Text

pub record Listing : Type 0 where
  pub product : Product
  pub offer : Offer

unfoldable pub drop_slashes : Text → Text
drop_slashes [] = []
drop_slashes (c ∷ cs) = if c == b'/' then drop_slashes cs else c ∷ cs

-- `s.replace(/\/+$/, "")`
unfoldable pub trim_slashes : Text → Text
trim_slashes s = reverse (drop_slashes (reverse s))

-- `parsePrice`
unfoldable pub parse_price : Option Double → Option Double
parse_price none = none
parse_price (some d) = if is_finite d then some d else none

pub record Priced : Type 0 where
  pub price : Double
  pub available : Bool

-- The variants that have a price.
unfoldable pub priced_variants : List Variant → List Priced
priced_variants [] = []
priced_variants (v ∷ vs) =
    let rest = priced_variants vs in
    elim (parse_price v.price) [
      | none ↦ rest
      | some d ↦ record { price = d; available = v.available } ∷ rest
    ]

-- `Math.min(...)`, none of nothing
unfoldable pub least_price : List Priced → Option Double
least_price [] = none
least_price (p ∷ ps) = elim (least_price ps) [
  | none ↦ some p.price
  | some d ↦ some (if lt_double d p.price then d else p.price)
]

abbrev is_available : Priced → Bool
is_available p = p.available

abbrev or_empty : Option (List Variant) → List Variant
or_empty none = []
or_empty (some vs) = vs

unfoldable pub variant_price : Option (List Variant) → Option Double
variant_price vs =
    let priced = priced_variants (or_empty vs) in
    least_price (if any is_available priced then filter is_available priced else priced)

unfoldable pub variant_available : Option (List Variant) → Bool
variant_available vs = any (λ v. v.available) (or_empty vs)

abbrev pub or_null : Text → Option Text
or_null [] = none
or_null (c ∷ cs) = some (c ∷ cs)

unfoldable pub product_url : Option Text → Text → Option Text
product_url none handle = none
product_url (some base) handle = some (base ++ (lit "/products/" ++ handle))

unfoldable pub normalize_product : Option Text → FeedProduct → Listing
normalize_product base p = record {
  product = record {
    tier = lit "shopify";
    catalog_product_id = trim p.handle;
    title = trim p.title;
    vendor = trim p.vendor;
    type = p.product_type;
    tags = join (lit ", ") (filter (λ t. not (is_empty t)) (map trim p.tags));
    body_html = p.body_html;
  };
  offer = record {
    product_url = product_url base (trim p.handle);
    price = variant_price p.variants;
    available = variant_available p.variants;
    image_url = or_null p.image_src;
  };
}

abbrev has_handle : Text → List Text → Bool
has_handle handle = any (text_eq handle)

-- The loop; `seen` holds the handles of `byHandle`.
unfoldable pub collect_products : Option Text → List Text → List FeedProduct → List Listing
collect_products base seen [] = []
collect_products base seen (p ∷ ps) =
    let handle = trim p.handle in
    let skipped = collect_products base seen ps in
    let kept = normalize_product base p ∷ collect_products base (handle ∷ seen) ps in
    if (if is_empty handle then true else has_handle handle seen) then skipped else kept

abbrev base_of : Text → Option Text
base_of [] = none
base_of (c ∷ cs) = some (trim_slashes (c ∷ cs))

-- A missing URL of the store is empty.
unfoldable pub normalize_storefront_products : Text → List FeedProduct → List Listing
normalize_storefront_products store_url products = collect_products (base_of store_url) [] products
