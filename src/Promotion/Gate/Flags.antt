-- ===== src/Promotion/Gate/Flags.antt =====
-- The quality flags beside the route.
use trend_tree.Prelude.{
  ◌≡◌, ◌≢◌, refl, List, [], true, false, arith, Bool-cases, Double, nan, num, lt_double, ge_double,
  inl, inr,
}
use trend_tree.Promotion.Gate.{
  tau, Candidate, or_zero, Action, route_normal, route_et_rescue, reject, Flag, quality_flags,
  classify_candidate,
}
use trend_tree.Promotion.Gate.Routes.{IsRouted, classify_candidate_lem}

-- A threshold that is reached is not missed, and a number that misses it is below it.
reached : (a : Double) → ge_double a tau ≡ true → lt_double a tau ≡ false
unfolding ge_double lt_double tau
reached nan h = refl
reached (num a) h = ground arith

missed : (a : Double) → a ≢ nan → ge_double a tau ≡ false → lt_double a tau ≡ true
unfolding ge_double lt_double tau
missed nan n h = absurd (n refl)
missed (num a) n h = ground arith

-- What the flags say of a route.
abbrev pub Agrees : Action → List Flag → Type 0
Agrees route_normal fs = Unit
Agrees route_et_rescue fs = fs ≡ []
Agrees reject fs = fs ≢ []

IsRouted-Agrees :
    (c : Candidate) (a : Action)
    → or_zero c.confidence ≢ nan
    → or_zero c.specificity_score ≢ nan
    → IsRouted c a
    → Agrees a (quality_flags c)
unfolding quality_flags
IsRouted-Agrees c route_normal n m h = tt
IsRouted-Agrees c route_et_rescue n m h =
    rw (reached (or_zero c.confidence) h.1, reached (or_zero c.specificity_score) h.2) refl
IsRouted-Agrees c reject n m (h, inl e) = rw (missed (or_zero c.confidence) n e) λ k. cc
IsRouted-Agrees c reject n m (h, inr e) = elim (Bool-cases (lt_double (or_zero c.confidence) tau)) [
  | inl f ↦ rw f λ k. cc
  | inr f ↦ rw (f, missed (or_zero c.specificity_score) m e) λ k. cc
]

-- If neither score is NaN, a candidate that is routed to the rescue carries no quality flag, and a
-- rejected one carries at least one.
pub classify_candidate_flags :
    (c : Candidate)
    → or_zero c.confidence ≢ nan
    → or_zero c.specificity_score ≢ nan
    → Agrees (classify_candidate c).action (classify_candidate c).flags
unfolding classify_candidate
classify_candidate_flags c n m =
    IsRouted-Agrees c (classify_candidate c).action n m (classify_candidate_lem c)
