-- ===== src/Promotion/Gate/Routes.antt =====
-- When a candidate is routed where.
use trend_tree.Prelude.{
  ℕ, ◌≤◌, ◌≡◌, refl, ◌⊎◌, inl, inr, List, [], ◌∷◌, ◌++◌, true, false, Text, text_eq, text_eq_iff,
  text_eq_refl, any, length, leb, arith, Bool-cases, if◌then◌else◌, All, length-append, ge_double,
}
use trend_tree.Promotion.Gate.{
  tau, source_family_of, add_family, collect_families, distinct_source_families, Candidate, or_zero,
  Action, route_normal, route_et_rescue, reject, reaches_tau, action_of, classify_candidate,
}

-- All keys of the breakdown are of one family; so are none.
abbrev pub HasOneFamily : List Text → Type 0
HasOneFamily keys = (f : Text) × All (λ k. source_family_of k ≡ f) keys

collect_families-grows : (fs ks : List Text) → length fs ≤ length (collect_families fs ks)
unfolding collect_families add_family
collect_families-grows fs [] = omega arith
collect_families-grows fs (k ∷ ks) = elim (Bool-cases (any (text_eq (source_family_of k)) fs)) [
  | inl e ↦ rw e (collect_families-grows fs ks)
  | inr e ↦
      let more = collect_families-grows (fs ++ source_family_of k ∷ []) ks in
      rw e (omega (arith, more, length-append fs (source_family_of k ∷ [])))
]

collect_families-one :
    (f : Text) (ks : List Text)
    → All (λ k. source_family_of k ≡ f) ks
    → collect_families (f ∷ []) ks ≡ f ∷ []
unfolding collect_families add_family
collect_families-one f [] h = refl
collect_families-one f (k ∷ ks) h = rw (h.0, text_eq_refl f) (collect_families-one f ks h.1)

collect_families-same :
    (f : Text) (ks : List Text)
    → length (collect_families (f ∷ []) ks) ≤ 1
    → All (λ k. source_family_of k ≡ f) ks
unfolding collect_families add_family
collect_families-same f [] h = tt
collect_families-same f (k ∷ ks) h = elim (Bool-cases (text_eq (source_family_of k) f)) [
  | inl e ↦ ((text_eq_iff (source_family_of k) f).0 e, collect_families-same f ks (rw e at h))
  | inr e ↦
      let few : length (collect_families (f ∷ source_family_of k ∷ []) ks) ≤ 1 = rw e at h in
      absurd (
        two_few (length (collect_families (f ∷ source_family_of k ∷ []) ks)) few
          (collect_families-grows (f ∷ source_family_of k ∷ []) ks))
]
  where
    two_few : (n : ℕ) → n ≤ 1 → ¬ (2 ≤ n)
    two_few n h k = omega (arith, h, k)

few_families : (keys : List Text) → length (distinct_source_families keys) ≤ 1 → HasOneFamily keys
unfolding distinct_source_families collect_families add_family
few_families [] h = ([], tt)
few_families (k ∷ ks) h =
    (source_family_of k, (refl, collect_families-same (source_family_of k) ks h))

one_family : (keys : List Text) → HasOneFamily keys → length (distinct_source_families keys) ≤ 1
unfolding distinct_source_families collect_families add_family
one_family [] h = omega arith
one_family (k ∷ ks) (f, h) = rw (h.0, collect_families-one f ks h.1) (omega arith)

-- When each action is taken.
abbrev pub IsRouted : Candidate → Action → Type 0
IsRouted c route_normal = ¬ HasOneFamily c.source_breakdown
IsRouted c route_et_rescue =
    HasOneFamily c.source_breakdown
    × (ge_double (or_zero c.confidence) tau ≡ true)
    × (ge_double (or_zero c.specificity_score) tau ≡ true)
IsRouted c reject =
    HasOneFamily c.source_breakdown
    × ((ge_double (or_zero c.confidence) tau ≡ false)
        ⊎ (ge_double (or_zero c.specificity_score) tau ≡ false))

scores-IsRouted :
    (c : Candidate)
    → HasOneFamily c.source_breakdown
    → IsRouted c (if reaches_tau c then route_et_rescue else reject)
unfolding reaches_tau
scores-IsRouted c h = elim (Bool-cases (ge_double (or_zero c.confidence) tau)) [
  | inl e ↦ elim (Bool-cases (ge_double (or_zero c.specificity_score) tau)) [
    | inl f ↦ rw (e, f) (h, e, f)
    | inr f ↦ rw (e, f) (h, inr f)
  ]
  | inr e ↦ rw e (h, inl e)
]

-- A candidate is routed to promotion exactly when two keys of its breakdown are of different
-- families. Otherwise it is routed to the rescue if its confidence and its specificity reach 0.5,
-- a missing one being 0, and rejected if one of them does not.
pub classify_candidate_lem : (c : Candidate) → IsRouted c (classify_candidate c).action
unfolding classify_candidate action_of
classify_candidate_lem c =
    elim (Bool-cases (leb 2 (length (distinct_source_families c.source_breakdown)))) [
      | inl e ↦ rw e λ h.
          not_both (length (distinct_source_families c.source_breakdown)) e
            (one_family c.source_breakdown h)
      | inr e ↦ rw e (
          scores-IsRouted c (
            few_families c.source_breakdown
              (at_most_one (length (distinct_source_families c.source_breakdown)) e)))
    ]
  where
    not_both : (n : ℕ) → leb 2 n ≡ true → ¬ (n ≤ 1)
    not_both n e h = ground arith

    at_most_one : (n : ℕ) → leb 2 n ≡ false → n ≤ 1
    at_most_one n e = ground arith
