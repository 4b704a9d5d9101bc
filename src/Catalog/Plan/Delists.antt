-- ===== src/Catalog/Plan/Delists.antt =====
-- Which keys a plan changes: those of the products, and those of the other rows that are still sold.
use trend_tree.Prelude.{
  ◌≡◌, refl, ap, sym, ◌∙◌, subst, inl, inr, List, [], ◌∷◌, map, Option, none, some, Bool, true,
  false, not, ◌&&◌, ◌||◌, Text, text_eq, text_eq_comm, arith, Bool-cases,
}
use trend_tree.Catalog.Feed.{Listing}
use trend_tree.Catalog.Feed.Handles.{IsListed, has_id, id_of}
use trend_tree.Catalog.Plan.{
  Key, key_eq, is_delisted, Existing, find_existing, product_key, plan_upsert, plan_upserts,
  plan_delists,
}
use trend_tree.Catalog.Plan.Keys.{key_eq_refl, eq-key_eq, has_key, IsDistinct, keys_of, Disjoint}

-- The row is there, and not delisted.
abbrev pub is_live : Option Existing → Bool
is_live none = false
is_live (some r) = not (is_delisted r.catalog_status)

plan_delists-fresh :
    (k : Key) (seen : List Key) (rs : List Existing)
    → has_key k (keys_of rs) ≡ false
    → has_key k (plan_delists seen rs) ≡ false
unfolding plan_delists
plan_delists-fresh k seen [] h = refl
plan_delists-fresh k seen (r ∷ rs) h = elim (Bool-cases (key_eq r.key k)) [
  | inl e ↦ let no : true ≡ false = rw e at h in cc
  | inr e ↦ elim (Bool-cases (has_key r.key seen || is_delisted r.catalog_status)) [
    | inl c ↦ rw c (plan_delists-fresh k seen rs (rw e at h))
    | inr c ↦ rw (c, e) (plan_delists-fresh k seen rs (rw e at h))
  ]
]

find_existing-fresh :
    (k : Key) (rs : List Existing) → has_key k (keys_of rs) ≡ false → find_existing k rs ≡ none
unfolding find_existing
find_existing-fresh k [] h = refl
find_existing-fresh k (r ∷ rs) h = elim (Bool-cases (key_eq r.key k)) [
  | inl e ↦ let no : true ≡ false = rw e at h in cc
  | inr e ↦ rw e (find_existing-fresh k rs (rw e at h))
]

-- A key is delisted if it is not seen, and its row is live.
pub has_key-plan_delists :
    (k : Key) (seen : List Key) (rs : List Existing)
    → IsDistinct (keys_of rs)
    → has_key k (plan_delists seen rs) ≡ (not (has_key k seen) && is_live (find_existing k rs))
unfolding plan_delists find_existing
has_key-plan_delists k seen [] d = ground arith
has_key-plan_delists k seen (r ∷ rs) d = elim (Bool-cases (key_eq r.key k)) [
  | inl e ↦
      let same = eq-key_eq r.key k e in
      let fresh =
        plan_delists-fresh k seen rs (subst (λ j. has_key j (keys_of rs) ≡ false) same d.0) in
      let at : has_key r.key seen ≡ has_key k seen = ap (λ j. has_key j seen) same in
      elim (Bool-cases (has_key r.key seen || is_delisted r.catalog_status)) [
        | inl c ↦
            rw (c, e)
              (fresh
                ∙ sym (rw (← at) (skipped (has_key r.key seen) (is_delisted r.catalog_status) c)))
        | inr c ↦
            rw (c, e) (sym (rw (← at) (kept (has_key r.key seen) (is_delisted r.catalog_status) c)))
      ]
  | inr e ↦ elim (Bool-cases (has_key r.key seen || is_delisted r.catalog_status)) [
    | inl c ↦ rw (c, e) (has_key-plan_delists k seen rs d.1)
    | inr c ↦ rw (c, e) (has_key-plan_delists k seen rs d.1)
  ]
]
  where
    skipped : (a b : Bool) → (a || b) ≡ true → (not a && not b) ≡ false
    skipped a b h = ground arith

    kept : (a b : Bool) → (a || b) ≡ false → (not a && not b) ≡ true
    kept a b h = ground arith

pub plan_delists-IsDistinct :
    (seen : List Key) (rs : List Existing)
    → IsDistinct (keys_of rs)
    → IsDistinct (plan_delists seen rs)
unfolding plan_delists
plan_delists-IsDistinct seen [] d = tt
plan_delists-IsDistinct seen (r ∷ rs) d =
    elim (Bool-cases (has_key r.key seen || is_delisted r.catalog_status)) [
      | inl c ↦ rw c (plan_delists-IsDistinct seen rs d.1)
      | inr c ↦ rw c (plan_delists-fresh r.key seen rs d.0, plan_delists-IsDistinct seen rs d.1)
    ]

pub Disjoint-of :
    (xs ys : List Key) → ((k : Key) → has_key k xs ≡ true → has_key k ys ≡ false) → Disjoint xs ys
Disjoint-of [] ys f = tt
Disjoint-of (x ∷ xs) ys f =
    (f x (rw (key_eq_refl x) refl), Disjoint-of xs ys (λ k h. f k (ground arith)))

abbrev pub listing_keys : List Listing → List Key
listing_keys = map (λ l. product_key l.product)

pub plan_upserts-keys :
    (hash : Text → Text) (existing : List Existing) (ls : List Listing)
    → map (λ u. u.key) (plan_upserts hash existing ls) ≡ listing_keys ls
unfolding plan_upserts plan_upsert
plan_upserts-keys hash existing [] = refl
plan_upserts-keys hash existing (l ∷ ls) =
    ap (product_key l.product ∷◌) (plan_upserts-keys hash existing ls)

has_key-listing_keys :
    (k : Key) (ls : List Listing) → has_id k.id ls ≡ false → has_key k (listing_keys ls) ≡ false
unfolding key_eq product_key
has_key-listing_keys k [] h = refl
has_key-listing_keys k (l ∷ ls) h = elim (Bool-cases (text_eq k.id (id_of l))) [
  | inl e ↦ let no : true ≡ false = rw e at h in cc
  | inr e ↦
      rw (text_eq_comm (id_of l) k.id, e, has_key-listing_keys k ls (rw e at h))
        (off (text_eq l.product.tier k.tier))
]
  where
    off : (b : Bool) → ((b && false) || false) ≡ false
    off b = ground arith

pub listing_keys-IsDistinct : (ls : List Listing) → IsListed ls → IsDistinct (listing_keys ls)
unfolding product_key
listing_keys-IsDistinct [] h = tt
listing_keys-IsDistinct (l ∷ ls) h =
    (has_key-listing_keys (product_key l.product) ls h.1, listing_keys-IsDistinct ls h.2)
