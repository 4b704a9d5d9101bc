-- ===== src/Catalog/Tests.antt =====
-- A sweep of a small feed over a small table, and the theorems about sweeps at that input.
use trend_tree.Prelude.{
  chunk, chunk_from, ◌≡◌, All, sym, ap, refl, ◌⊎◌, List, [], ◌∷◌, Option, none, some, true, Text,
  num, lit, text_eq, trim, starts_with, length, take, arith,
}
use trend_tree.Catalog.Doc.{
  strip_tags, named_entity, numeric_entity, replace_entities, collapse, strip_html, build_embed_doc,
}
use trend_tree.Catalog.Feed.{
  FeedProduct, Listing, drop_slashes, trim_slashes, normalize_product, collect_products,
  normalize_storefront_products,
}
use trend_tree.Catalog.Plan.{
  Key, key_eq, active, delisted, embed_doc_version, put_row, index_rows, product_key, plan_upsert,
  plan_upserts, plan_delists, plan_catalog_upsert,
}
use trend_tree.Catalog.Sync.{
  Row, Statement, statements_of, written, merge_upsert, merge_delist, merge_all_upserts,
  merge_all_delists, execute, execute_all, select_existing, plan_sweep,
}
use trend_tree.Catalog.Sync.Table.{find_row}
use trend_tree.Catalog.Sync.Rows.{shopify, find_listing, swept, IsSound}
use trend_tree.Catalog.Sync.Refines.{catalog_sweep_refines, catalog_sweep_prefix}
use trend_tree.Catalog.Sync.Sound.{catalog_sweep-IsSound}

abbrev mug : FeedProduct
mug = record {
  handle = lit " mug ";
  title = lit "Mug";
  vendor = lit "Kiln";
  product_type = lit "Home:Mugs";
  tags = lit "clay" ∷ lit "" ∷ [];
  body_html = lit "<p>Hot &amp; <b>cold</b></p>";
  variants = some (record { price = some (num 0xc028000000000000); available = true } ∷ []);
  image_src = lit "";
}

abbrev lamp : FeedProduct
lamp = record mug { handle = lit "lamp"; title = lit "Lamp"; variants = none }

abbrev listing : FeedProduct → Listing
listing p = normalize_product (some (lit "https://x.co")) p

abbrev same_text : Text → Text
same_text t = t

-- A hash that many texts share.
abbrev first_four : Text → Text
first_four = take 4

abbrev row : Text → Text → Text → Row Text
row tier id doc = record {
  key = record { tier = tier; id = id };
  listing = listing mug;
  embed_doc = doc;
  embed_doc_hash = first_four doc;
  embed_doc_version = embed_doc_version;
  product_vector = doc;
  catalog_status = active;
  last_seen_at = 1;
}

-- The mug as it is listed, a product that is listed no more, and one of another tier.
abbrev table : List (Row Text)
table =
    row (lit "shopify") (lit "mug") (build_embed_doc (listing mug).product)
    ∷ row (lit "shopify") (lit "vase") (lit "Vase")
    ∷ row (lit "amazon") (lit "vase") (lit "Vase")
    ∷ []

abbrev products : List FeedProduct
products = mug ∷ lamp ∷ mug ∷ []

abbrev store_url : Text
store_url = lit "https://x.co//"

abbrev or_nil : Option (List Statement) → List Statement
or_nil none = []
or_nil (some ss) = ss

abbrev statements : List Statement
statements = or_nil (plan_sweep first_four store_url 1 products table)

abbrev vase : Key
vase = record { tier = lit "shopify"; id = lit "vase" }

table-IsSound : IsSound same_text first_four 2 table
unfolding text_eq key_eq
table-IsSound = record {
  distinct = (refl, (refl, (refl, tt)));
  coherent = ((refl, refl), ((refl, refl), ((refl, refl), tt)));
}

-- The mug's text is the one that its row holds, and the lamp has no row.
table-apart :
    All
      (λ l.
        (r : Row Text)
        → find_row (product_key l.product) table ≡ some r
        → first_four r.embed_doc ≡ first_four (build_embed_doc l.product)
        → r.embed_doc ≡ build_embed_doc l.product)
      (normalize_storefront_products store_url products)
unfolding normalize_storefront_products collect_products trim_slashes drop_slashes trim text_eq
    normalize_product key_eq product_key
table-apart = (
  (λ r found same.
      let is_mug : row (lit "shopify") (lit "mug") (build_embed_doc (listing mug).product) ≡ r =
        cc in
      sym (ap (λ y. y.embed_doc) is_mug)),
  ((λ r found same. cc), tt),
)

planned : plan_sweep first_four store_url 1 products table ≡ some statements
unfolding plan_sweep normalize_storefront_products collect_products normalize_product trim text_eq
planned = refl

-- The tags of the text are stripped, and its entities decoded.
strip_html_test : strip_html (lit "<p>Hot &amp; <b>cold</b></p>") ≡ lit "Hot & cold"
unfolding strip_html trim collapse replace_entities strip_tags named_entity starts_with
    numeric_entity
strip_html_test = refl

-- The second mug of the feed is dropped.
products_test :
    normalize_storefront_products store_url products
    ≡ normalize_product (some (lit "https://x.co")) mug
      ∷ normalize_product (some (lit "https://x.co")) lamp
      ∷ []
unfolding normalize_storefront_products collect_products trim_slashes drop_slashes trim text_eq
products_test = refl

-- Three statements: the two upserts and the delisting.
statements_test : length statements ≡ 3
unfolding plan_sweep normalize_storefront_products collect_products normalize_product trim text_eq
    key_eq plan_catalog_upsert plan_upserts plan_upsert plan_delists index_rows put_row
    select_existing statements_of chunk chunk_from product_key
statements_test = refl

-- The row of the vase after the whole sweep.
vase_test :
    find_row vase (execute_all same_text 2 statements table)
    ≡ some (record (row (lit "shopify") (lit "vase") (lit "Vase")) { catalog_status = delisted })
unfolding plan_sweep normalize_storefront_products collect_products normalize_product trim text_eq
    key_eq plan_catalog_upsert plan_upserts plan_upsert plan_delists index_rows put_row
    select_existing statements_of chunk chunk_from product_key execute_all execute merge_all_upserts
    merge_all_delists merge_upsert merge_delist written
vase_test = refl

catalog_sweep_refines_example :
    find_row vase (execute_all same_text 2 statements table)
    ≡ swept same_text first_four 2
        (find_listing vase (normalize_storefront_products store_url products))
        (text_eq vase.tier shopify)
        (find_row vase table)
catalog_sweep_refines_example =
    catalog_sweep_refines same_text first_four 2 store_url 1 products table statements vase
      (omega arith) table-IsSound table-apart planned

catalog_sweep_prefix_example :
    (find_row vase (execute_all same_text 2 (take 1 statements) table) ≡ find_row vase table)
    ⊎ (find_row vase (execute_all same_text 2 (take 1 statements) table)
        ≡ find_row vase (execute_all same_text 2 statements table))
catalog_sweep_prefix_example =
    catalog_sweep_prefix same_text first_four 2 store_url 1 products table statements 1 vase
      (omega arith) table-IsSound.distinct planned

catalog_sweep-IsSound_example :
    IsSound same_text first_four 2 (execute_all same_text 2 (take 1 statements) table)
catalog_sweep-IsSound_example =
    catalog_sweep-IsSound same_text first_four 2 store_url 1 products table statements 1
      (omega arith) table-IsSound table-apart planned
