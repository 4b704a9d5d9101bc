-- ===== src/Sourcing/Plan/Picks.antt =====
-- The picks that survive the three loops of `buildSourcingRunPlan`.
use trend_tree.Prelude.{
  ℕ, zero, suc, ◌+◌, ◌≤◌, ◌≡◌, refl, subst, inl, inr, List, [], ◌∷◌, ◌++◌, Bool, true, false, not,
  ◌&&◌, ◌||◌, arith, Text, text_eq, text_eq_refl, text_eq_iff, is_empty, any, length, length-take,
  take, All, All-take, ltb, Bool-cases,
}
use trend_tree.Sourcing.Pool.{Entry}
use trend_tree.Sourcing.Plan.{
  Pick, Warning, hallucinated_pick, invalid_reasoned_fit, duplicate_pick, picks_exceeded_slots,
  is_valid_fit, in_pool, screen, dedupe, fit_slots, choose,
}

-- How many picks a warning reports as dropped.
abbrev pub dropped_by : Warning → ℕ
dropped_by (picks_exceeded_slots n) = n
dropped_by (hallucinated_pick _) = 1
dropped_by (invalid_reasoned_fit _ _) = 1
dropped_by (duplicate_pick _) = 1

abbrev pub dropped : List Warning → ℕ
dropped [] = 0
dropped (w ∷ ws) = dropped_by w + dropped ws

dropped-append : (xs ys : List Warning) → dropped (xs ++ ys) ≡ dropped xs + dropped ys
dropped-append [] ys = omega arith
dropped-append (x ∷ xs) ys = omega (arith, dropped-append xs ys)

-- The emission holds a pick of that product with that fit.
abbrev pub emitted : List Pick → Pick → Bool
emitted raw p =
    any
      (λ q.
        text_eq q.catalog_product_id p.catalog_product_id && text_eq q.reasoned_fit p.reasoned_fit)
      raw

-- The pick is one of the emission, of a product of the pool, with one of the three fits.
abbrev pub IsValid : List Entry → List Pick → Pick → Type 0
IsValid pool raw p =
    (emitted raw p ≡ true)
    × (in_pool pool p.catalog_product_id ≡ true)
    × (is_valid_fit p.reasoned_fit ≡ true)

abbrev pub picked : Text → List Pick → Bool
picked id = any (λ p. text_eq p.catalog_product_id id)

-- No two picks have the same id.
abbrev pub IsDistinct : List Pick → Type 0
IsDistinct [] = Unit
IsDistinct (p ∷ ps) = (picked p.catalog_product_id ps ≡ false) × IsDistinct ps

IsValid-cons :
    (pool : List Entry) (p : Pick) (raw ps : List Pick)
    → All (IsValid pool raw) ps
    → All (IsValid pool (p ∷ raw)) ps
IsValid-cons pool p raw [] h = tt
IsValid-cons pool p raw (q ∷ ps) h =
    ((ground (arith, h.0.0), h.0.1, h.0.2), IsValid-cons pool p raw ps h.1)

emitted_self : (p : Pick) (ps : List Pick) → emitted (p ∷ ps) p ≡ true
emitted_self p ps = simp text_eq_refl

screen_lem :
    (pool : List Entry) (raw : List Pick)
    → let s = screen pool raw in
      All (IsValid pool raw) s.picks × (length s.picks + dropped s.warnings ≡ length raw)
unfolding screen
screen_lem pool [] = (tt, refl)
screen_lem pool (p ∷ ps) =
    let (valid_behind, total) = screen_lem pool ps in
    let valid = IsValid-cons pool p ps (screen pool ps).picks valid_behind in
    elim (Bool-cases (is_empty p.catalog_product_id || not (in_pool pool p.catalog_product_id))) [
      | inl e ↦ rw e (valid, omega (arith, total))
      | inr e ↦ elim (Bool-cases (is_valid_fit p.reasoned_fit)) [
        | inl f ↦
            rw (e, f) (((emitted_self p ps, ground (arith, e), f), valid), omega (arith, total))
        | inr f ↦ rw (e, f) (valid, omega (arith, total))
      ]
    ]

-- An id that was seen is not kept.
dedupe_seen :
    (id : Text) (seen : List Text) (ps : List Pick)
    → any (text_eq id) seen ≡ true
    → picked id (dedupe seen ps).picks ≡ false
unfolding dedupe
dedupe_seen id seen [] h = refl
dedupe_seen id seen (p ∷ ps) h = elim (Bool-cases (any (text_eq p.catalog_product_id) seen)) [
  | inl e ↦ rw (e, dedupe) (dedupe_seen id seen ps h)
  | inr e ↦
      rw (e, dedupe)
        (ground
          (arith, dedupe_seen id (p.catalog_product_id ∷ seen) ps, other p.catalog_product_id e, h))
]
  where
    other : (a : Text) → any (text_eq a) seen ≡ false → text_eq a id ≡ false
    other a e = elim (Bool-cases (text_eq a id)) [
      | inl same ↦
          let at_id : any (text_eq id) seen ≡ false =
            subst (λ t. any (text_eq t) seen ≡ false) ((text_eq_iff a id).0 same) e in
          cc
      | inr no_match ↦ no_match
    ]

module _ (P : Pick → Type 0) where
  All-dedupe : (seen : List Text) (ps : List Pick) → All P ps → All P (dedupe seen ps).picks
  unfolding dedupe
  All-dedupe seen [] h = tt
  All-dedupe seen (p ∷ ps) h = elim (Bool-cases (any (text_eq p.catalog_product_id) seen)) [
    | inl e ↦ rw (e, dedupe) (All-dedupe seen ps h.1)
    | inr e ↦ rw (e, dedupe) (h.0, All-dedupe (p.catalog_product_id ∷ seen) ps h.1)
  ]

dedupe_lem :
    (seen : List Text) (ps : List Pick)
    → let s = dedupe seen ps in
      IsDistinct s.picks × (length s.picks + dropped s.warnings ≡ length ps)
unfolding dedupe
dedupe_lem seen [] = (tt, refl)
dedupe_lem seen (p ∷ ps) = elim (Bool-cases (any (text_eq p.catalog_product_id) seen)) [
  | inl e ↦
      let (distinct, total) = dedupe_lem seen ps in rw (e, dedupe) (distinct, omega (arith, total))
  | inr e ↦
      let id = p.catalog_product_id in
      let (distinct, total) = dedupe_lem (id ∷ seen) ps in
      rw (e, dedupe)
        ((dedupe_seen id (id ∷ seen) ps (rw text_eq_refl), distinct), omega (arith, total))
]

picked-take :
    (id : Text) (n : ℕ) (ps : List Pick) → picked id ps ≡ false → picked id (take n ps) ≡ false
picked-take id zero ps h = refl
picked-take id (suc n) [] h = refl
picked-take id (suc n) (p ∷ ps) h = ground (arith, picked-take id n ps, h)

take-IsDistinct : (n : ℕ) (ps : List Pick) → IsDistinct ps → IsDistinct (take n ps)
take-IsDistinct zero ps h = tt
take-IsDistinct (suc n) [] h = tt
take-IsDistinct (suc n) (p ∷ ps) h =
    (picked-take p.catalog_product_id n ps h.0, take-IsDistinct n ps h.1)

fit_slots_lem :
    (P : Pick → Type 0) (slots : ℕ) (ps : List Pick)
    → All P ps
    → IsDistinct ps
    → let s = fit_slots slots ps in
      All P s.picks
      × IsDistinct s.picks
      × (length s.picks ≤ slots)
      × (length s.picks + dropped s.warnings ≡ length ps)
unfolding fit_slots
fit_slots_lem P slots ps h d = elim (Bool-cases (ltb slots (length ps))) [
  | inl e ↦ rw e (
    All-take P slots ps h,
    take-IsDistinct slots ps d,
    omega (arith, length-take slots ps),
    ground (arith, length-take slots ps, e),
  )
  | inr e ↦ rw e (h, d, ground (arith, e), omega arith)
]

-- The chosen picks are picks of the emission that name products of the pool with a valid fit, each
-- product once, and are at most `slots`; and every other pick of the emission is counted in a warning.
pub choose_lem :
    (slots : ℕ) (pool : List Entry) (raw : List Pick)
    → let s = choose slots pool raw in
      All (IsValid pool raw) s.picks
      × IsDistinct s.picks
      × (length s.picks ≤ slots)
      × (length s.picks + dropped s.warnings ≡ length raw)
unfolding choose
choose_lem slots pool raw =
    let valid = screen pool raw in
    let once = dedupe [] valid.picks in
    let kept = fit_slots slots once.picks in
    let (good, first) = screen_lem pool raw in
    let (distinct, second) = dedupe_lem [] valid.picks in
    let (fits, apart, few, third) =
      fit_slots_lem (IsValid pool raw) slots once.picks
        (All-dedupe (IsValid pool raw) [] valid.picks good) distinct in
    (
      fits,
      apart,
      few,
      omega (
        arith,
        first,
        second,
        third,
        dropped-append valid.warnings (once.warnings ++ kept.warnings),
        dropped-append once.warnings kept.warnings,
      ),
    )
