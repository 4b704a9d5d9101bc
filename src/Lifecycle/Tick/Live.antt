-- ===== src/Lifecycle/Tick/Live.antt =====
-- The batches in flight, counted, and the tables that effects make of them.
use trend_tree.Prelude.{
  ℕ, zero, suc, ◌≤◌, ◌≡◌, refl, ◌∙◌, subst, inl, inr, List, [], ◌∷◌, ◌++◌, map, none, some, Bool,
  true, false, not, ◌&&◌, arith, Text, text_eq, text_eq_refl, count, take, All, Bool-cases,
  Option-cases, if◌then◌else◌,
}
use trend_tree.Lifecycle.Collect.{Decision, Retry}
use trend_tree.Lifecycle.Tick.{
  BatchState, BatchRow, Effect, generate_content, is_submitted, in_flight, apply_call, set_state,
  apply_effect, apply_effects,
}

-- How many batches are in flight.
abbrev pub live : List BatchRow → ℕ
live = count (λ r. is_submitted r.state)

-- How many of them have another name.
abbrev others : Text → List BatchRow → ℕ
others name = count (λ r. is_submitted r.state && not (text_eq r.name name))

others-le-live : (name : Text) (t : List BatchRow) → others name t ≤ live t
others-le-live name [] = omega arith
others-le-live name (r ∷ t) = ground (arith, others-le-live name t)

live-set_state :
    (name : Text) (s : BatchState) (t : List BatchRow)
    → is_submitted s ≡ false
    → live (set_state name s t) ≡ others name t
unfolding set_state
live-set_state name s [] h = refl
live-set_state name s (r ∷ t) h = elim (Bool-cases (text_eq r.name name)) [
  | inl e ↦ rw (e, h) (live-set_state name s t h ∙ unnamed (is_submitted r.state) (others name t))
  | inr e ↦ rw e (
      named (is_submitted r.state) (live (set_state name s t)) (others name t)
        (live-set_state name s t h))
]
  where
    unnamed : (b : Bool) (n : ℕ) → n ≡ (if b && false then suc n else n)
    unnamed b n = ground arith

    named :
        (b : Bool) (m n : ℕ) → m ≡ n → (if b then suc m else m) ≡ (if b && true then suc n else n)
    named b m n h = ground arith

pub in_flight-none : (t : List BatchRow) → in_flight t ≡ none → live t ≡ 0
unfolding in_flight
in_flight-none [] h = refl
in_flight-none (r ∷ t) h = elim (Option-cases (in_flight t)) [
  | inr (x, e) ↦ let no : some x ≡ none = rw e at h in cc
  | inl e ↦ elim (Bool-cases (is_submitted r.state)) [
    | inl s ↦ let no : some r ≡ none = rw (e, s) at h in cc
    | inr s ↦ rw s (in_flight-none t e)
  ]
]

in_flight-some :
    (t : List BatchRow) (r : BatchRow) → in_flight t ≡ some r → suc (others r.name t) ≤ live t
unfolding in_flight
in_flight-some [] r h = cc
in_flight-some (x ∷ t) r h = elim (Option-cases (in_flight t)) [
  | inr (y, e) ↦
      let same : some y ≡ some r = rw e at h in
      let later = in_flight-some t r (e ∙ same) in ground (arith, later)
  | inl e ↦ elim (Bool-cases (is_submitted x.state)) [
    | inl s ↦
        let same : some x ≡ some r = rw (e, s) at h in
        let named : text_eq x.name r.name ≡ true =
          subst (λ y. text_eq x.name y.name ≡ true) (found x r same) (text_eq_refl x.name) in
        rw (s, named) (omega (arith, others-le-live r.name t))
    | inr s ↦ let no : none ≡ some r = rw (e, s) at h in cc
  ]
]
  where
    found : (x r : BatchRow) → some x ≡ some r → x ≡ r
    found x r h = cc

-- To close the one batch in flight leaves none.
pub close_live :
    (t : List BatchRow) (r : BatchRow) (s : BatchState)
    → in_flight t ≡ some r
    → live t ≤ 1
    → is_submitted s ≡ false
    → live (set_state r.name s t) ≡ 0
close_live t r s h k n = live-set_state r.name s t n ∙ omega (arith, in_flight-some t r h, k)

-- At most one is in flight after each of the effects.
abbrev pub IsSafe : List Effect → List BatchRow → Type 0
IsSafe [] t = live t ≤ 1
IsSafe (e ∷ es) t = (live t ≤ 1) × IsSafe es (apply_effect e t)

pub IsSafe-take :
    (n : ℕ) (es : List Effect) (t : List BatchRow)
    → IsSafe es t
    → live (apply_effects (take n es) t) ≤ 1
IsSafe-take zero [] t h = h
IsSafe-take zero (e ∷ es) t h = h.0
IsSafe-take (suc n) [] t h = h
IsSafe-take (suc n) (e ∷ es) t h = IsSafe-take n es (apply_effect e t) h.1

pub IsSafe-append :
    (es fs : List Effect) (t : List BatchRow)
    → IsSafe es t
    → IsSafe fs (apply_effects es t)
    → IsSafe (es ++ fs) t
IsSafe-append [] fs t h k = k
IsSafe-append (e ∷ es) fs t h k = (h.0, IsSafe-append es fs (apply_effect e t) h.1 k)

-- The effect leaves the table alone.
abbrev pub IsNeutral : Effect → Type 0
IsNeutral e = (t : List BatchRow) → apply_effect e t ≡ t

pub apply_effects-neutral :
    (es : List Effect) (t : List BatchRow) → All IsNeutral es → apply_effects es t ≡ t
apply_effects-neutral [] t h = refl
apply_effects-neutral (e ∷ es) t h = rw (h.0 t) (apply_effects-neutral es t h.1)

pub IsSafe-neutral :
    (es : List Effect) (t : List BatchRow) → All IsNeutral es → live t ≤ 1 → IsSafe es t
IsSafe-neutral [] t h k = k
IsSafe-neutral (e ∷ es) t h k = (k, rw (h.0 t) (IsSafe-neutral es t h.1 k))

pub generate-IsNeutral : (rs : List Retry) → All IsNeutral (map (λ r. generate_content r.key) rs)
generate-IsNeutral [] = tt
generate-IsNeutral (r ∷ rs) = ((λ t. refl), generate-IsNeutral rs)

pub apply_call-IsNeutral : (ds : List Decision) (name : Text) → All IsNeutral (apply_call ds name)
apply_call-IsNeutral [] name = tt
apply_call-IsNeutral (d ∷ ds) name = ((λ t. refl), tt)
