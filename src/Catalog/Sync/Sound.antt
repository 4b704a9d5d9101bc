-- ===== src/Catalog/Sync/Sound.antt =====
-- What a sweep keeps of the table, wherever it breaks off.
use trend_tree.Prelude.{
  ℕ, ◌<◌, ◌≡◌, refl, ap, sym, ◌∙◌, subst, inl, inr, List, [], ◌∷◌, Option, none, some, Bool, true,
  false, Text, text_eq, take, All, Bool-cases,
}
use trend_tree.Catalog.Doc.{build_embed_doc}
use trend_tree.Catalog.Feed.{FeedProduct, Listing, normalize_storefront_products}
use trend_tree.Catalog.Plan.{Key, key_eq, delisted, Upsert, embed_doc_version, product_key}
use trend_tree.Catalog.Plan.Keys.{key_eq_refl, key_eq_comm, eq-key_eq, has_key, IsDistinct}
use trend_tree.Catalog.Sync.{
  Row, Statement, written, merge_upsert, merge_delist, plan_sweep, execute_all,
}
use trend_tree.Catalog.Sync.Table.{
  find_row, Change, upsert, delist, all_changes, apply_changes, execute_all-changes,
}
use trend_tree.Catalog.Sync.Rows.{
  shopify, row_keys, find_listing, row_for, swept, IsCurrent, IsCoherent, IsSound,
}
use trend_tree.Catalog.Sync.Planned.{find_row-All}
use trend_tree.Catalog.Sync.Refines.{catalog_sweep_refines, catalog_sweep_prefix}

module _ {V : Type 0} (embed : Text → V) (sweep_at : ℕ) where
  has_key-merge_upsert :
      (k : Key) (u : Upsert) (t : List (Row V))
      → key_eq u.key k ≡ false
      → has_key k (row_keys t) ≡ false
      → has_key k (row_keys (merge_upsert embed sweep_at u t)) ≡ false
  unfolding merge_upsert written
  has_key-merge_upsert k u [] e h = rw e refl
  has_key-merge_upsert k u (r ∷ t) e h = elim (Bool-cases (key_eq r.key k)) [
    | inl f ↦ let no : true ≡ false = rw f at h in cc
    | inr f ↦ elim (Bool-cases (key_eq r.key u.key)) [
      | inl g ↦ rw (g, f) (rw f at h)
      | inr g ↦ rw (g, f) (has_key-merge_upsert k u t e (rw f at h))
    ]
  ]

  merge_upsert-IsDistinct :
      (u : Upsert) (t : List (Row V))
      → IsDistinct (row_keys t)
      → IsDistinct (row_keys (merge_upsert embed sweep_at u t))
  unfolding merge_upsert written
  merge_upsert-IsDistinct u [] d = (refl, tt)
  merge_upsert-IsDistinct u (r ∷ t) d = elim (Bool-cases (key_eq r.key u.key)) [
    | inl e ↦ rw e d
    | inr e ↦ rw e (
      has_key-merge_upsert r.key u t (key_eq_comm u.key r.key ∙ e) d.0,
      merge_upsert-IsDistinct u t d.1,
    )
  ]

  row_keys-merge_delist :
      (k : Key) (t : List (Row V)) → row_keys (merge_delist embed sweep_at k t) ≡ row_keys t
  unfolding merge_delist
  row_keys-merge_delist k [] = refl
  row_keys-merge_delist k (r ∷ t) = elim (Bool-cases (key_eq r.key k)) [
    | inl e ↦ rw e refl
    | inr e ↦ rw e (ap (r.key ∷◌) (row_keys-merge_delist k t))
  ]

  apply_changes-IsDistinct :
      (cs : List Change) (t : List (Row V))
      → IsDistinct (row_keys t)
      → IsDistinct (row_keys (apply_changes embed sweep_at cs t))
  apply_changes-IsDistinct [] t d = d
  apply_changes-IsDistinct (upsert u ∷ cs) t d =
      apply_changes-IsDistinct cs (merge_upsert embed sweep_at u t) (merge_upsert-IsDistinct u t d)
  apply_changes-IsDistinct (delist k ∷ cs) t d =
      apply_changes-IsDistinct cs (merge_delist embed sweep_at k t)
        (subst IsDistinct (sym (row_keys-merge_delist k t)) d)

absent :
    {V : Type 0} (k : Key) (t : List (Row V)) → has_key k (row_keys t) ≡ false → find_row k t ≡ none
absent k [] h = refl
absent k (x ∷ t) h = elim (Bool-cases (key_eq x.key k)) [
  | inl e ↦ let no : true ≡ false = rw e at h in cc
  | inr e ↦ rw e (absent k t (rw e at h))
]

find_row-later :
    {V : Type 0} (k : Key) (r x : Row V) (t : List (Row V))
    → has_key r.key (row_keys t) ≡ false
    → find_row k t ≡ some x
    → find_row k (r ∷ t) ≡ some x
find_row-later k r x t d h = elim (Bool-cases (key_eq r.key k)) [
  | inl e ↦
      let gone : find_row k t ≡ none =
        absent k t (subst (λ j. has_key j (row_keys t) ≡ false) (eq-key_eq r.key k e) d) in
      cc
  | inr e ↦ rw e h
]

-- A predicate of the row of every key holds of every row.
All-find_row :
    {V : Type 0} (P : Row V → Type 0) (t : List (Row V))
    → IsDistinct (row_keys t)
    → ((k : Key) (r : Row V) → find_row k t ≡ some r → P r)
    → All P t
All-find_row P [] d f = tt
All-find_row P (r ∷ t) d f = (
  f r.key r (rw (key_eq_refl r.key) refl),
  All-find_row P t d.1 (λ k x h. f k x (find_row-later k r x t d.0 h)),
)

module _ {V : Type 0} (embed : Text → V) (hash : Text → Text) (sweep_at : ℕ) where
  row_for-IsCoherent :
      (l : Listing) → IsCoherent embed hash sweep_at (row_for embed hash sweep_at l)
  unfolding text_eq
  row_for-IsCoherent l = (refl, refl)

  withdrawn-IsCurrent :
      (current : Bool) (x : Row V)
      → IsCurrent embed hash sweep_at current x
      → IsCurrent embed hash sweep_at current (record x { catalog_status = delisted })
  withdrawn-IsCurrent true x h = h
  withdrawn-IsCurrent false x h = tt

  -- The specification makes coherent rows of coherent ones.
  swept-IsCoherent :
      (found : Option Listing) (of_tier : Bool) (o : Option (Row V)) (r : Row V)
      → ((x : Row V) → o ≡ some x → IsCoherent embed hash sweep_at x)
      → swept embed hash sweep_at found of_tier o ≡ some r
      → IsCoherent embed hash sweep_at r
  swept-IsCoherent (some l) of_tier o r h e =
      let same : row_for embed hash sweep_at l ≡ r = cc in
      subst (IsCoherent embed hash sweep_at) same (row_for-IsCoherent l)
  swept-IsCoherent none true none r h e = cc
  swept-IsCoherent none true (some x) r h e =
      let same : record x { catalog_status = delisted } ≡ r = cc in
      subst (IsCoherent embed hash sweep_at) same
        (withdrawn-IsCurrent (text_eq x.embed_doc_version embed_doc_version) x (h x refl))
  swept-IsCoherent none false o r h e = h r e

-- Wherever a sweep breaks off, and when it is carried through, the table again has no key twice, and
-- each row of the current version the hash and the vector of its own text. It had so before the
-- sweep, the feed has listings, the batches are not empty, and for no listing of the feed is its
-- text another than the one that its row holds, with the same hash.
pub catalog_sweep-IsSound :
    {V : Type 0} (embed : Text → V) (hash : Text → Text) (sweep_at : ℕ) (store_url : Text)
    (batch_size : ℕ) (products : List FeedProduct) (t : List (Row V)) (ss : List Statement) (n : ℕ)
    → 0 < batch_size
    → IsSound embed hash sweep_at t
    → All
        (λ l.
          (r : Row V)
          → find_row (product_key l.product) t ≡ some r
          → hash r.embed_doc ≡ hash (build_embed_doc l.product)
          → r.embed_doc ≡ build_embed_doc l.product)
        (normalize_storefront_products store_url products)
    → plan_sweep hash store_url batch_size products t ≡ some ss
    → IsSound embed hash sweep_at (execute_all embed sweep_at (take n ss) t)
catalog_sweep-IsSound embed hash sweep_at store_url batch_size products t ss n p sound apart h =
    record {
      distinct = distinct;
      coherent = All-find_row (IsCoherent embed hash sweep_at) _ distinct row_coherent;
    }
  where
    distinct : IsDistinct (row_keys (execute_all embed sweep_at (take n ss) t))
    distinct =
        rw (execute_all-changes embed sweep_at (take n ss) t)
          (apply_changes-IsDistinct embed sweep_at (all_changes (take n ss)) t sound.distinct)

    row_coherent :
        (k : Key) (r : Row _)
        → find_row k (execute_all embed sweep_at (take n ss) t) ≡ some r
        → IsCoherent embed hash sweep_at r
    row_coherent k r e =
        elim (catalog_sweep_prefix embed hash sweep_at store_url batch_size products t ss n k p
          sound.distinct h) [
            | inl same ↦
                find_row-All (IsCoherent embed hash sweep_at) k t r sound.coherent (sym same ∙ e)
            | inr done ↦
                swept-IsCoherent embed hash sweep_at
                  (find_listing k (normalize_storefront_products store_url products))
                  (text_eq k.tier shopify) (find_row k t) r
                  (λ x g. find_row-All (IsCoherent embed hash sweep_at) k t x sound.coherent g)
                  (sym (
                      catalog_sweep_refines embed hash sweep_at store_url batch_size products t ss k
                        p sound apart h)
                    ∙ (sym done ∙ e))
          ]
