-- ===== src/Catalog/Sync/Table.antt =====
-- The table, row by row: what a statement does to the row of each key.
use mathlib.Core.List.{append_assoc, map-append}
use trend_tree.Prelude.{
  chunk, chunk-flatten, ℕ, ◌<◌, ◌≡◌, refl, ap, sym, ◌∙◌, subst, ◌⊎◌, inl, inr, List, [], ◌∷◌, ◌++◌,
  map, Option, none, some, true, false, Text, take-append-drop, take, drop, Bool-cases,
  if◌then◌else◌, flatten,
}
use trend_tree.Catalog.Plan.{Key, key_eq, delisted, Upsert, CatalogPlan}
use trend_tree.Catalog.Plan.Keys.{
  eq-key_eq, key_eq_comm, key_eq_cong, has_key, IsDistinct, has_key-second,
}
use trend_tree.Catalog.Sync.{
  Row, Statement, merge_upserts, merge_delists, statements_of, written, merge_upsert, merge_delist,
  merge_all_upserts, merge_all_delists, execute, execute_all,
}

abbrev pub find_row : {V : Type 0} → Key → List (Row V) → Option (Row V)
find_row k [] = none
find_row k (r ∷ rs) = if key_eq r.key k then some r else find_row k rs

-- The change of one row.
pub data Change : Type 0 where
  upsert : Upsert → Change
  delist : Key → Change

abbrev pub key_of : Change → Key
key_of (upsert u) = u.key
key_of (delist k) = k

abbrev pub changed_keys : List Change → List Key
changed_keys = map key_of

abbrev pub changes_of : Statement → List Change
changes_of (merge_upserts us) = map upsert us
changes_of (merge_delists ks) = map delist ks

abbrev pub all_changes : List Statement → List Change
all_changes [] = []
all_changes (s ∷ ss) = changes_of s ++ all_changes ss

all_changes-append :
    (ss ts : List Statement) → all_changes (ss ++ ts) ≡ all_changes ss ++ all_changes ts
all_changes-append [] ts = refl
all_changes-append (s ∷ ss) ts =
    rw (all_changes-append ss ts)
      (sym (append_assoc (changes_of s) (all_changes ss) (all_changes ts)))

all_changes-upserts :
    (bs : List (List Upsert)) → all_changes (map merge_upserts bs) ≡ map upsert (flatten bs)
all_changes-upserts [] = refl
all_changes-upserts (b ∷ bs) = rw (all_changes-upserts bs) (sym (map-append upsert b (flatten bs)))

all_changes-delists :
    (bs : List (List Key)) → all_changes (map merge_delists bs) ≡ map delist (flatten bs)
all_changes-delists [] = refl
all_changes-delists (b ∷ bs) = rw (all_changes-delists bs) (sym (map-append delist b (flatten bs)))

-- The statements change what the plan says, in its order, however they are cut.
pub statements_of-changes :
    (size : ℕ) (plan : CatalogPlan)
    → 0 < size
    → all_changes (statements_of size plan) ≡ map upsert plan.upserts ++ map delist plan.delists
unfolding statements_of
statements_of-changes size plan p =
    rw
      (
        all_changes-append (map merge_upserts (chunk size plan.upserts))
            (map merge_delists (chunk size plan.delists)),
        all_changes-upserts (chunk size plan.upserts),
        all_changes-delists (chunk size plan.delists),
        chunk-flatten size plan.upserts p,
        chunk-flatten size plan.delists p,
      )
      refl

pub all_changes-take :
    (n : ℕ) (ss : List Statement)
    → all_changes (take n ss) ++ all_changes (drop n ss) ≡ all_changes ss
all_changes-take n ss =
    sym (all_changes-append (take n ss) (drop n ss)) ∙ ap all_changes (take-append-drop n ss)

abbrev pub find_change : Key → List Change → Option Change
find_change k [] = none
find_change k (c ∷ cs) = if key_eq (key_of c) k then some c else find_change k cs

-- What a change makes of the row of its key.
module _ {V : Type 0} (embed : Text → V) (sweep_at : ℕ) where
  abbrev pub changed : Change → Option (Row V) → Option (Row V)
  changed (upsert u) o = some (written embed sweep_at u o)
  changed (delist k) none = none
  changed (delist k) (some r) = some (record r { catalog_status = delisted })

  abbrev pub apply_change : Change → List (Row V) → List (Row V)
  apply_change (upsert u) t = merge_upsert embed sweep_at u t
  apply_change (delist k) t = merge_delist embed sweep_at k t

  abbrev pub apply_changes : List Change → List (Row V) → List (Row V)
  apply_changes [] t = t
  apply_changes (c ∷ cs) t = apply_changes cs (apply_change c t)

  pub apply_changes-append :
      (cs ds : List Change) (t : List (Row V))
      → apply_changes (cs ++ ds) t ≡ apply_changes ds (apply_changes cs t)
  apply_changes-append [] ds t = refl
  apply_changes-append (c ∷ cs) ds t = apply_changes-append cs ds (apply_change c t)

  -- Two keys that equal a third one are equal.
  apart : (a b c : Key) → key_eq a b ≡ false → key_eq a c ≡ true → key_eq b c ≡ false
  apart a b c h e = key_eq_comm b c ∙ sym (key_eq_cong a c b e) ∙ h

  find_row-merge_upsert :
      (k : Key) (u : Upsert) (t : List (Row V))
      → find_row k (merge_upsert embed sweep_at u t)
        ≡ (if key_eq u.key k then changed (upsert u) (find_row u.key t) else find_row k t)
  unfolding merge_upsert written
  find_row-merge_upsert k u [] = refl
  find_row-merge_upsert k u (r ∷ t) = elim (Bool-cases (key_eq r.key u.key)) [
    | inl e ↦ elim (Bool-cases (key_eq u.key k)) [
      | inl f ↦ rw (e, key_eq_cong r.key u.key k e, f) refl
      | inr f ↦ rw (e, key_eq_cong r.key u.key k e, f) refl
    ]
    | inr e ↦ elim (Bool-cases (key_eq r.key k)) [
      | inl f ↦ rw (e, f, apart r.key u.key k e f) refl
      | inr f ↦ rw (e, f) (find_row-merge_upsert k u t)
    ]
  ]

  find_row-merge_delist :
      (k d : Key) (t : List (Row V))
      → find_row k (merge_delist embed sweep_at d t)
        ≡ (if key_eq d k then changed (delist d) (find_row d t) else find_row k t)
  unfolding merge_delist
  find_row-merge_delist k d [] = elim (Bool-cases (key_eq d k)) [
    | inl e ↦ rw e refl
    | inr e ↦ rw e refl
  ]
  find_row-merge_delist k d (r ∷ t) = elim (Bool-cases (key_eq r.key d)) [
    | inl e ↦ elim (Bool-cases (key_eq d k)) [
      | inl f ↦ rw (e, key_eq_cong r.key d k e, f) refl
      | inr f ↦ rw (e, key_eq_cong r.key d k e, f) refl
    ]
    | inr e ↦ elim (Bool-cases (key_eq r.key k)) [
      | inl f ↦ rw (e, f, apart r.key d k e f) refl
      | inr f ↦ rw (e, f) (find_row-merge_delist k d t)
    ]
  ]

  pub find_row-apply_change :
      (k : Key) (c : Change) (t : List (Row V))
      → find_row k (apply_change c t)
        ≡ (if key_eq (key_of c) k then changed c (find_row (key_of c) t) else find_row k t)
  find_row-apply_change k (upsert u) t = find_row-merge_upsert k u t
  find_row-apply_change k (delist d) t = find_row-merge_delist k d t

  -- Changes of other keys leave a row alone.
  pub find_row-apply_changes_other :
      (k : Key) (cs : List Change) (t : List (Row V))
      → has_key k (changed_keys cs) ≡ false
      → find_row k (apply_changes cs t) ≡ find_row k t
  find_row-apply_changes_other k [] t h = refl
  find_row-apply_changes_other k (c ∷ cs) t h = elim (Bool-cases (key_eq (key_of c) k)) [
    | inl e ↦ let no : true ≡ false = rw e at h in cc
    | inr e ↦
        find_row-apply_changes_other k cs (apply_change c t) (rw e at h)
        ∙ (find_row-apply_change k c t ∙ rw e refl)
  ]

  merge_all_upserts-changes :
      (us : List Upsert) (t : List (Row V))
      → merge_all_upserts embed sweep_at us t ≡ apply_changes (map upsert us) t
  unfolding merge_all_upserts
  merge_all_upserts-changes [] t = refl
  merge_all_upserts-changes (u ∷ us) t =
      merge_all_upserts-changes us (merge_upsert embed sweep_at u t)

  merge_all_delists-changes :
      (ks : List Key) (t : List (Row V))
      → merge_all_delists embed sweep_at ks t ≡ apply_changes (map delist ks) t
  unfolding merge_all_delists
  merge_all_delists-changes [] t = refl
  merge_all_delists-changes (k ∷ ks) t =
      merge_all_delists-changes ks (merge_delist embed sweep_at k t)

  execute-changes :
      (s : Statement) (t : List (Row V))
      → execute embed sweep_at s t ≡ apply_changes (changes_of s) t
  unfolding execute
  execute-changes (merge_upserts us) t = merge_all_upserts-changes us t
  execute-changes (merge_delists ks) t = merge_all_delists-changes ks t

  pub execute_all-changes :
      (ss : List Statement) (t : List (Row V))
      → execute_all embed sweep_at ss t ≡ apply_changes (all_changes ss) t
  unfolding execute_all
  execute_all-changes [] t = refl
  execute_all-changes (s ∷ ss) t =
      execute_all-changes ss (execute embed sweep_at s t)
      ∙ (ap (apply_changes (all_changes ss)) (execute-changes s t)
          ∙ sym (apply_changes-append (changes_of s) (all_changes ss) t))

  -- Where no key is changed twice, a first part of the changes leaves each row as it was or brings it
  -- to its end.
  pub find_row-first_part :
      (k : Key) (cs ds : List Change) (t : List (Row V))
      → IsDistinct (changed_keys (cs ++ ds))
      → (find_row k (apply_changes cs t) ≡ find_row k t)
        ⊎ (find_row k (apply_changes cs t) ≡ find_row k (apply_changes (cs ++ ds) t))
  find_row-first_part k cs ds t d = elim (Bool-cases (has_key k (changed_keys cs))) [
    | inl e ↦
        let keys = subst IsDistinct (map-append key_of cs ds) d in
        inr (
          sym (
            ap (find_row k) (apply_changes-append cs ds t)
            ∙ find_row-apply_changes_other k ds (apply_changes cs t)
                (has_key-second k (changed_keys cs) (changed_keys ds) keys e)))
    | inr e ↦ inl (find_row-apply_changes_other k cs t e)
  ]

  abbrev pub changed_by : Option Change → Option (Row V) → Option (Row V)
  changed_by none o = o
  changed_by (some c) o = changed c o

  -- The one change of a key, if any, makes its row.
  pub find_row-apply_changes :
      (k : Key) (cs : List Change) (t : List (Row V))
      → IsDistinct (changed_keys cs)
      → find_row k (apply_changes cs t) ≡ changed_by (find_change k cs) (find_row k t)
  find_row-apply_changes k [] t d = refl
  find_row-apply_changes k (c ∷ cs) t d = elim (Bool-cases (key_eq (key_of c) k)) [
    | inl e ↦
        let same = eq-key_eq (key_of c) k e in
        let here : find_row k (apply_change c t) ≡ changed c (find_row k t) =
          find_row-apply_change k c t ∙ (rw e refl ∙ ap (λ j. changed c (find_row j t)) same) in
        rw e (
          find_row-apply_changes_other k cs (apply_change c t)
            (subst (λ j. has_key j (changed_keys cs) ≡ false) same d.0)
          ∙ here)
    | inr e ↦ rw e (
        find_row-apply_changes k cs (apply_change c t) d.1
        ∙ ap (changed_by (find_change k cs)) (find_row-apply_change k c t ∙ rw e refl))
  ]
