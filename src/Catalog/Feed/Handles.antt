-- ===== src/Catalog/Feed/Handles.antt =====
-- The keys of the normalized products.
use trend_tree.Prelude.{
  ◌≡◌, refl, sym, ◌∙◌, inl, inr, List, [], ◌∷◌, map, Option, Bool, true, false, Text, lit, text_eq,
  text_eq_iff, text_eq_refl, subst, is_empty, trim, any, Bool-cases, if◌then◌else◌, ◌||◌, arith,
}
use trend_tree.Catalog.Feed.{
  FeedProduct, Listing, normalize_product, collect_products, normalize_storefront_products,
}

abbrev pub id_of : Listing → Text
id_of l = l.product.catalog_product_id

abbrev pub has_id : Text → List Listing → Bool
has_id h ls = any (text_eq h) (map id_of ls)

-- No two listings of one id, all of them of the storefront's tier.
abbrev pub IsListed : List Listing → Type 0
IsListed [] = Unit
IsListed (l ∷ ls) = (l.product.tier ≡ lit "shopify") × (has_id (id_of l) ls ≡ false) × IsListed ls

abbrev has : Text → List Text → Bool
has h = any (text_eq h)

collect_products-fresh :
    (base : Option Text) (seen : List Text) (h : Text) (ps : List FeedProduct)
    → has h seen ≡ true
    → has_id h (collect_products base seen ps) ≡ false
unfolding collect_products normalize_product
collect_products-fresh base seen h [] e = refl
collect_products-fresh base seen h (p ∷ ps) e =
    elim (Bool-cases (if is_empty (trim p.handle) then true else has (trim p.handle) seen)) [
      | inl t ↦ rw t (collect_products-fresh base seen h ps e)
      | inr t ↦
          rw
            (
              t,
              collect_products-fresh base (trim p.handle ∷ seen) h ps
                  (later h (trim p.handle) seen e),
            )
            (fresh h (trim p.handle) seen (is_empty (trim p.handle)) e t)
    ]
  where
    later : (h x : Text) (seen : List Text) → has h seen ≡ true → has h (x ∷ seen) ≡ true
    later h x seen e = ground arith

    fresh :
        (h x : Text) (seen : List Text) (blank : Bool)
        → has h seen ≡ true
        → (if blank then true else has x seen) ≡ false
        → (text_eq h x || false) ≡ false
    fresh h x seen true e t = cc
    fresh h x seen false e t = elim (Bool-cases (text_eq h x)) [
      | inl same ↦
          let no : true ≡ false =
            sym (subst (λ y. has y seen ≡ true) ((text_eq_iff h x).0 same) e) ∙ t in
          cc
      | inr other ↦ rw other refl
    ]

collect_products-IsListed :
    (base : Option Text) (seen : List Text) (ps : List FeedProduct)
    → IsListed (collect_products base seen ps)
unfolding collect_products normalize_product
collect_products-IsListed base seen [] = tt
collect_products-IsListed base seen (p ∷ ps) =
    elim (Bool-cases (if is_empty (trim p.handle) then true else has (trim p.handle) seen)) [
      | inl t ↦ rw t (collect_products-IsListed base seen ps)
      | inr t ↦
          let here : has (trim p.handle) (trim p.handle ∷ seen) ≡ true =
            rw (text_eq_refl (trim p.handle)) refl in
          rw t (
            refl,
            collect_products-fresh base (trim p.handle ∷ seen) (trim p.handle) ps here,
            collect_products-IsListed base (trim p.handle ∷ seen) ps,
          )
    ]

-- The normalized products are of the storefront's tier, and no two have one id.
pub normalize_storefront_products-IsListed :
    (store_url : Text) (ps : List FeedProduct)
    → IsListed (normalize_storefront_products store_url ps)
unfolding normalize_storefront_products
normalize_storefront_products-IsListed store_url ps = collect_products-IsListed _ [] ps
