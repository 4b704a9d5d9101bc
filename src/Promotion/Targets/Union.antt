-- ===== src/Promotion/Targets/Union.antt =====
-- The union of the promoted trends and the retried ones.
use trend_tree.Prelude.{
  ◌≡◌, refl, ap, sym, ◌∙◌, subst, List, [], ◌∷◌, ◌++◌, map, Bool, true, false, ◌||◌, Text, text_eq,
  text_eq_iff, text_eq_refl, text_eq_comm, any, arith, Bool-cases, All, All-append, inl, inr,
}
use trend_tree.Promotion.Targets.{
  Reason, promoted, retry, Target, Targets, add_targets, build_dispatch_targets,
}

abbrev pub has : Text → List Text → Bool
has id = any (text_eq id)

abbrev pub ids_of : List Target → List Text
ids_of = map (λ t. t.trend_id)

-- No entry stands twice.
abbrev pub IsDistinct : List Text → Type 0
IsDistinct [] = Unit
IsDistinct (x ∷ xs) = (has x xs ≡ false) × IsDistinct xs

has-append : (x : Text) (xs ys : List Text) → has x (xs ++ ys) ≡ (has x xs || has x ys)
has-append x [] ys = refl
has-append x (y ∷ xs) ys = ground (arith, has-append x xs ys)

ids_of-append : (ts us : List Target) → ids_of (ts ++ us) ≡ ids_of ts ++ ids_of us
ids_of-append [] us = refl
ids_of-append (t ∷ ts) us = ap (t.trend_id ∷◌) (ids_of-append ts us)

IsDistinct-snoc :
    (y : Text) (xs : List Text) → IsDistinct xs → has y xs ≡ false → IsDistinct (xs ++ y ∷ [])
IsDistinct-snoc y [] h k = (refl, tt)
IsDistinct-snoc y (x ∷ xs) (h, d) k = elim (Bool-cases (text_eq y x)) [
  | inl e ↦ let no : true ≡ false = rw e at k in cc
  | inr e ↦
      let rest : has y xs ≡ false = rw e at k in
      let other : text_eq x y ≡ false = text_eq_comm x y ∙ e in
      (rw (has-append x xs (y ∷ []), h, other) refl, IsDistinct-snoc y xs d rest)
]

-- The set and the targets hold the same ids, each once.
record Matches (t : Targets) : Type 0 where
  same : (x : Text) → has x t.seen ≡ has x (ids_of t.targets)
  distinct : IsDistinct (ids_of t.targets)

abbrev add_target : Reason → Text → Targets → Targets
add_target reason id t = record {
  seen = id ∷ t.seen;
  targets = t.targets ++ record { trend_id = id; reason = reason } ∷ [];
}

add_target-Matches :
    (reason : Reason) (id : Text) (t : Targets)
    → Matches t
    → has id t.seen ≡ false
    → Matches (add_target reason id t)
add_target-Matches reason id t m h = record {
  same = λ x.
      rw
        (
          ids_of-append t.targets (record { trend_id = id; reason = reason } ∷ []),
          has-append x (ids_of t.targets) (id ∷ []),
          m.same x,
        )
        (swap (text_eq x id) (has x (ids_of t.targets)));
  distinct =
      rw (ids_of-append t.targets (record { trend_id = id; reason = reason } ∷ []))
        (IsDistinct-snoc id (ids_of t.targets) m.distinct (sym (m.same id) ∙ h));
}
  where
    swap : (a b : Bool) → (a || b) ≡ (b || (a || false))
    swap true true = refl
    swap true false = refl
    swap false true = refl
    swap false false = refl

module _ (P : Target → Type 0) (reason : Reason) where
  -- What one reason adds.
  add_targets_lem :
      (ids : List Text) (t : Targets)
      → Matches t
      → All P t.targets
      → ((id : Text)
          → has id ids ≡ true
          → has id t.seen ≡ false
          → P (record { trend_id = id; reason = reason }))
      → let t' = add_targets reason ids t in
        Matches t' × ((x : Text) → has x t'.seen ≡ (has x t.seen || has x ids)) × All P t'.targets
  unfolding add_targets
  add_targets_lem [] t m a h = (m, (λ x. or_false (has x t.seen)), a)
    where
      or_false : (b : Bool) → b ≡ (b || false)
      or_false true = refl
      or_false false = refl
  add_targets_lem (id ∷ ids) t m a h = elim (Bool-cases (has id t.seen)) [
    | inl e ↦
        let (m', seen, a') = add_targets_lem ids t m a λ x k. h x (later x id ids k) in
        rw e (m', (λ x. seen x ∙ known x id ids t.seen e), a')
    | inr e ↦
        let new : Target = record { trend_id = id; reason = reason } in
        let fresh : P new = h id (rw (text_eq_refl id) refl) e in
        let (m', seen, a') =
          add_targets_lem ids (add_target reason id t) (add_target-Matches reason id t m e)
            (All-append P t.targets (new ∷ []) a (fresh, tt))
            λ x k n. h x (later x id ids k) (unseen (text_eq x id) (has x t.seen) n) in
        rw e (m', (λ x. seen x ∙ shuffle (text_eq x id) (has x t.seen) (has x ids)), a')
  ]
    where
      later : (x id : Text) (ids : List Text) → has x ids ≡ true → has x (id ∷ ids) ≡ true
      later x id ids k = ground arith

      unseen : (a b : Bool) → (a || b) ≡ false → b ≡ false
      unseen true b n = cc
      unseen false b n = n

      shuffle : (a b c : Bool) → ((a || b) || c) ≡ (b || (a || c))
      shuffle true true c = refl
      shuffle true false c = refl
      shuffle false b c = refl

      known :
          (x id : Text) (ids seen : List Text)
          → has id seen ≡ true
          → (has x seen || has x ids) ≡ (has x seen || has x (id ∷ ids))
      known x id ids seen e = elim (Bool-cases (text_eq x id)) [
        | inl f ↦
            let there : has x seen ≡ true =
              subst (λ y. has y seen ≡ true) (sym ((text_eq_iff x id).0 f)) e in
            rw there refl
        | inr f ↦ rw f refl
      ]

-- What a target's reason says of its id.
abbrev pub IsReasoned : List Text → List Text → Target → Type 0
IsReasoned promoted_ids retry_ids t = ByReason t.reason
  where
    ByReason : Reason → Type 0
    ByReason promoted = has t.trend_id promoted_ids ≡ true
    ByReason retry = (has t.trend_id retry_ids ≡ true) × (has t.trend_id promoted_ids ≡ false)

-- The targets are the promoted and the retried ids, each once; a promoted id is sent as promoted,
-- and only an id that is not promoted is sent as a retry.
pub build_dispatch_targets_lem :
    (promoted_ids retry_ids : List Text)
    → let ts = build_dispatch_targets promoted_ids retry_ids in
      IsDistinct (ids_of ts)
      × ((x : Text) → has x (ids_of ts) ≡ (has x promoted_ids || has x retry_ids))
      × All (IsReasoned promoted_ids retry_ids) ts
unfolding build_dispatch_targets
build_dispatch_targets_lem promoted_ids retry_ids =
    let none_seen : Targets = record { seen = []; targets = [] } in
    let P = IsReasoned promoted_ids retry_ids in
    let (m, seen, a) =
      add_targets_lem P promoted promoted_ids none_seen (record { same = λ x. refl; distinct = tt })
        tt λ id k n. k in
    let (m', seen', a') =
      add_targets_lem P retry retry_ids (add_targets promoted promoted_ids none_seen) m a
        λ id k n. (k, sym (seen id) ∙ n) in
    (m'.distinct, (λ x. sym (m'.same x) ∙ seen' x ∙ ap (λ b. b || has x retry_ids) (seen x)), a')
