-- ===== src/Catalog/Sync/Rows.antt =====
-- What a sweep should make of each row, and the one change that a plan makes for a key.
use mathlib.Core.List.{map-append}
use trend_tree.Prelude.{
  ℕ, ◌≡◌, refl, ap, sym, ◌∙◌, subst, inl, inr, List, [], ◌∷◌, ◌++◌, map, Option, none, some, Bool,
  true, false, arith, Text, lit, text_eq, All, Bool-cases, Option-cases, if◌then◌else◌,
}
use trend_tree.Catalog.Doc.{build_embed_doc}
use trend_tree.Catalog.Feed.{Listing}
use trend_tree.Catalog.Feed.Handles.{IsListed}
use trend_tree.Catalog.Plan.{
  Key, key_eq, active, delisted, Existing, Upsert, embed_doc_version, find_existing, product_key,
  plan_upsert, plan_upserts, plan_delists,
}
use trend_tree.Catalog.Plan.Keys.{eq-key_eq, has_key, IsDistinct, keys_of, IsDistinct-append}
use trend_tree.Catalog.Plan.Delists.{
  is_live, has_key-plan_delists, plan_delists-IsDistinct, Disjoint-of, listing_keys,
  plan_upserts-keys, listing_keys-IsDistinct,
}
use trend_tree.Catalog.Sync.{Row, existing_of, select_existing}
use trend_tree.Catalog.Sync.Table.{
  find_row, Change, upsert, delist, key_of, changed_keys, find_change,
}

abbrev pub shopify : Text
shopify = lit "shopify"

abbrev pub row_keys : {V : Type 0} → List (Row V) → List Key
row_keys = map (λ r. r.key)

abbrev pub find_listing : Key → List Listing → Option Listing
find_listing k [] = none
find_listing k (l ∷ ls) = if key_eq (product_key l.product) k then some l else find_listing k ls

-- A row that is no longer sold.
abbrev pub withdrawn : {V : Type 0} → Option (Row V) → Option (Row V)
withdrawn none = none
withdrawn (some r) = some (record r { catalog_status = delisted })

module _ {V : Type 0} (embed : Text → V) (hash : Text → Text) (sweep_at : ℕ) where
  -- The row that a listing has after a sweep, whatever the table held.
  abbrev pub row_for : Listing → Row V
  row_for l = record {
    key = product_key l.product;
    listing = l;
    embed_doc = build_embed_doc l.product;
    embed_doc_hash = hash (build_embed_doc l.product);
    embed_doc_version = embed_doc_version;
    product_vector = embed (build_embed_doc l.product);
    catalog_status = active;
    last_seen_at = sweep_at;
  }

  -- The specification of a sweep: each listed product has its row, the other products of the tier
  -- are withdrawn, and the other tiers stay as they are.
  abbrev pub swept : Option Listing → Bool → Option (Row V) → Option (Row V)
  swept (some l) of_tier o = some (row_for l)
  swept none true o = withdrawn o
  swept none false o = o

  -- A row of the current version has the hash and the vector of its text.
  abbrev pub IsCurrent : Bool → Row V → Type 0
  IsCurrent true r = (r.embed_doc_hash ≡ hash r.embed_doc) × (r.product_vector ≡ embed r.embed_doc)
  IsCurrent false r = Unit

  abbrev pub IsCoherent : Row V → Type 0
  IsCoherent r = IsCurrent (text_eq r.embed_doc_version embed_doc_version) r

  -- No key twice, and every row coherent.
  pub record IsSound (t : List (Row V)) : Type 0 where
    pub distinct : IsDistinct (row_keys t)
    pub coherent : All IsCoherent t

abbrev keeps : {V : Type 0} → Row V → Bool
keeps r = text_eq r.key.tier shopify

select-fresh :
    {V : Type 0} (k : Key) (t : List (Row V))
    → has_key k (row_keys t) ≡ false
    → has_key k (keys_of (select_existing t)) ≡ false
unfolding select_existing
select-fresh k [] h = refl
select-fresh k (r ∷ t) h = elim (Bool-cases (key_eq r.key k)) [
  | inl e ↦ let no : true ≡ false = rw e at h in cc
  | inr e ↦ elim (Bool-cases (text_eq r.key.tier shopify)) [
    | inl f ↦ rw (f, e) (select-fresh k t (rw e at h))
    | inr f ↦ rw f (select-fresh k t (rw e at h))
  ]
]

pub select-IsDistinct :
    {V : Type 0} (t : List (Row V))
    → IsDistinct (row_keys t)
    → IsDistinct (keys_of (select_existing t))
unfolding select_existing
select-IsDistinct [] d = tt
select-IsDistinct (r ∷ t) d = elim (Bool-cases (text_eq r.key.tier shopify)) [
  | inl f ↦ rw f (unfold select_existing in select-fresh r.key t d.0, select-IsDistinct t d.1)
  | inr f ↦ rw f (select-IsDistinct t d.1)
]

abbrev pub existing_row : {V : Type 0} → Option (Row V) → Option Existing
existing_row none = none
existing_row (some r) = some (existing_of r)

-- The map of the existing rows finds what the table holds of the tier.
pub find_existing-select :
    {V : Type 0} (k : Key) (t : List (Row V))
    → find_existing k (select_existing t)
      ≡ (if text_eq k.tier shopify then existing_row (find_row k t) else none)
unfolding find_existing select_existing
find_existing-select k [] = ground arith
find_existing-select k (r ∷ t) = elim (Bool-cases (key_eq r.key k)) [
  | inl e ↦ elim (Bool-cases (text_eq r.key.tier shopify)) [
    | inl f ↦
        rw (f, e, sym (ap (λ (j : Key). text_eq j.tier shopify) (eq-key_eq r.key k e)) ∙ f) refl
    | inr f ↦
        rw (f, sym (ap (λ (j : Key). text_eq j.tier shopify) (eq-key_eq r.key k e)) ∙ f)
          (find_existing-select k t
            ∙ rw (sym (ap (λ (j : Key). text_eq j.tier shopify) (eq-key_eq r.key k e)) ∙ f) refl)
  ]
  | inr e ↦ elim (Bool-cases (text_eq r.key.tier shopify)) [
    | inl f ↦ rw (f, e) (find_existing-select k t)
    | inr f ↦ rw (f, e) (find_existing-select k t)
  ]
]

-- The changes of a plan.
abbrev pub planned : (Text → Text) → List Listing → List Existing → List Change
planned hash ls rows =
    map upsert (plan_upserts hash rows ls) ++ map delist (plan_delists (listing_keys ls) rows)

upsert-keys : (us : List Upsert) → changed_keys (map upsert us) ≡ map (λ u. u.key) us
upsert-keys [] = refl
upsert-keys (u ∷ us) = ap (u.key ∷◌) (upsert-keys us)

delist-keys : (ks : List Key) → changed_keys (map delist ks) ≡ ks
delist-keys [] = refl
delist-keys (k ∷ ks) = ap (k ∷◌) (delist-keys ks)

planned-keys :
    (hash : Text → Text) (ls : List Listing) (rows : List Existing)
    → changed_keys (planned hash ls rows) ≡ listing_keys ls ++ plan_delists (listing_keys ls) rows
planned-keys hash ls rows =
    map-append key_of (map upsert (plan_upserts hash rows ls))
      (map delist (plan_delists (listing_keys ls) rows))
    ∙ rw
        (
          upsert-keys (plan_upserts hash rows ls),
          plan_upserts-keys hash rows ls,
          delist-keys (plan_delists (listing_keys ls) rows),
        )
        refl

pub planned-IsDistinct :
    (hash : Text → Text) (ls : List Listing) (rows : List Existing)
    → IsListed ls
    → IsDistinct (keys_of rows)
    → IsDistinct (changed_keys (planned hash ls rows))
planned-IsDistinct hash ls rows h d = subst IsDistinct (sym (planned-keys hash ls rows)) (
    IsDistinct-append (listing_keys ls) (plan_delists (listing_keys ls) rows)
      (listing_keys-IsDistinct ls h) (plan_delists-IsDistinct (listing_keys ls) rows d)
      (Disjoint-of (listing_keys ls) (plan_delists (listing_keys ls) rows)
        (λ k e. has_key-plan_delists k (listing_keys ls) rows d ∙ rw e refl)))

find_change-append :
    (k : Key) (cs ds : List Change)
    → find_change k (cs ++ ds)
      ≡ (elim (find_change k cs) [ none ↦ find_change k ds | some c ↦ some c ])
find_change-append k [] ds = refl
find_change-append k (c ∷ cs) ds = elim (Bool-cases (key_eq (key_of c) k)) [
  | inl e ↦ rw e refl
  | inr e ↦ rw e (find_change-append k cs ds)
]

abbrev upsert_of : (Text → Text) → List Existing → Option Listing → Option Change
upsert_of hash rows none = none
upsert_of hash rows (some l) = some (upsert (plan_upsert hash rows l))

find_change-upserts :
    (hash : Text → Text) (k : Key) (rows : List Existing) (ls : List Listing)
    → find_change k (map upsert (plan_upserts hash rows ls))
      ≡ upsert_of hash rows (find_listing k ls)
unfolding plan_upserts plan_upsert
find_change-upserts hash k rows [] = refl
find_change-upserts hash k rows (l ∷ ls) = elim (Bool-cases (key_eq (product_key l.product) k)) [
  | inl e ↦ rw e refl
  | inr e ↦ rw e (find_change-upserts hash k rows ls)
]

find_change-delists :
    (k : Key) (ks : List Key)
    → find_change k (map delist ks) ≡ (if has_key k ks then some (delist k) else none)
find_change-delists k [] = refl
find_change-delists k (j ∷ ks) = elim (Bool-cases (key_eq j k)) [
  | inl e ↦ rw e (ap (λ i. some (delist i)) (eq-key_eq j k e))
  | inr e ↦ rw e (find_change-delists k ks)
]

abbrev is_listed : Option Listing → Bool
is_listed none = false
is_listed (some l) = true

has_key-find_listing :
    (k : Key) (ls : List Listing) → has_key k (listing_keys ls) ≡ is_listed (find_listing k ls)
has_key-find_listing k [] = refl
has_key-find_listing k (l ∷ ls) = elim (Bool-cases (key_eq (product_key l.product) k)) [
  | inl e ↦ rw e refl
  | inr e ↦ rw e (has_key-find_listing k ls)
]

-- The one change that a plan makes for a key.
abbrev pub plan_of : (Text → Text) → List Existing → Key → Option Listing → Option Change
plan_of hash rows k (some l) = some (upsert (plan_upsert hash rows l))
plan_of hash rows k none = if is_live (find_existing k rows) then some (delist k) else none

pub find_change-planned :
    (hash : Text → Text) (k : Key) (ls : List Listing) (rows : List Existing)
    → IsDistinct (keys_of rows)
    → find_change k (planned hash ls rows) ≡ plan_of hash rows k (find_listing k ls)
find_change-planned hash k ls rows d = elim (Option-cases (find_listing k ls)) [
  | inl e ↦
      let gone : has_key k (plan_delists (listing_keys ls) rows) ≡ is_live (find_existing k rows) =
        has_key-plan_delists k (listing_keys ls) rows d ∙ rw (has_key-find_listing k ls, e) refl in
      find_change-append k (map upsert (plan_upserts hash rows ls))
        (map delist (plan_delists (listing_keys ls) rows))
      ∙ rw
          (
            find_change-upserts hash k rows ls,
            e,
            find_change-delists k (plan_delists (listing_keys ls) rows),
            gone,
          )
          refl
  | inr (l, e) ↦
      find_change-append k (map upsert (plan_upserts hash rows ls))
        (map delist (plan_delists (listing_keys ls) rows))
      ∙ rw (find_change-upserts hash k rows ls, e) refl
]
