-- ===== src/Sourcing/Pool.antt =====
-- The retrieval pool: its entries, and the floor, order and size that are applied again to it.
pub mod Order
use trend_tree.Prelude.{
  ℕ, List, Option, Bool, ◌&&◌, Text, Double, of_bits, is_finite, ge_double, lt_double, filter, sort,
  take,
}

-- The fields of a product that a candidate row copies; `null` is none.
pub record Details : Type 0 where
  pub product_handle : Option Text
  pub product_title : Option Text
  pub product_type : Option Text
  pub vendor : Option Text
  pub product_url : Option Text
  pub price_at_match : Option Double
  pub image_url_at_match : Option Text
  pub available_at_match : Option Bool
  pub catalog_payload : Option Text

pub record Entry : Type 0 where
  pub catalog_product_id : Text
  pub details : Details
  pub semantic_score : Double

-- 0.40
unfoldable pub semantic_threshold : Double
unfolding of_bits
semantic_threshold = of_bits 0x3fd999999999999a

abbrev pub top_n : ℕ
top_n = 10

unfoldable pub passes_floor : Entry → Bool
unfolding is_finite ge_double
passes_floor c = is_finite c.semantic_score && ge_double c.semantic_score semantic_threshold

-- `(a, b) => b.semantic_score - a.semantic_score`, above 0
abbrev pub ranks_below : Entry → Entry → Bool
ranks_below a b = lt_double a.semantic_score b.semantic_score

unfoldable pub apply_floor_and_top_n : List Entry → List Entry
apply_floor_and_top_n pool = take top_n (sort ranks_below (filter passes_floor pool))
