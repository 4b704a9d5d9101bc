-- ===== src/Lifecycle/Tick/Order.antt =====
-- A tick that breaks off while it collects a batch loses no decision.
use mathlib.Core.List.{append_assoc}
use trend_tree.Prelude.{
  ℕ, zero, suc, ◌-◌, ◌≡◌, refl, ap, sym, ◌∙◌, ◌⊎◌, inl, inr, List, [], ◌∷◌, ◌++◌, map, Option, none,
  some, false, ◌&&◌, Text, take, all, All, All-append, All-take, length,
}
use trend_tree.Lifecycle.Collect.{Parsed, Decision, is_cancelled}
use trend_tree.Lifecycle.Tick.{
  BatchRow, Effect, update_state, insert_cost, generate_content, call_apply, succeeded, World,
  refuse_bad_prompt, in_flight, apply_call, collect_effects, status_of, collect_batch, some_entry,
  fate_of, submit, run_tick, apply_effects, collected,
}
use trend_tree.Lifecycle.Tick.Live.{
  IsNeutral, apply_effects-neutral, generate-IsNeutral, apply_call-IsNeutral,
}

-- A first part of a list is one of its first part, or goes beyond it.
take-append :
    {A : Type 0} (n : ℕ) (xs ys : List A)
    → (take n (xs ++ ys) ≡ take n xs) ⊎ ((m : ℕ) × (take n (xs ++ ys) ≡ xs ++ take m ys))
take-append n [] ys = inr (n, refl)
take-append zero (x ∷ xs) ys = inl refl
take-append (suc n) (x ∷ xs) ys = elim (take-append n xs ys) [
  | inl e ↦ inl (ap (x ∷◌) e)
  | inr (m, e) ↦ inr (m, ap (x ∷◌) e)
]

-- What a tick sends that collects a batch.
collecting :
    (json_parse : Text → Option Parsed) (w : World) (limit : ℕ) (t : List BatchRow) (r : BatchRow)
    → refuse_bad_prompt w.prompt ≡ none
    → in_flight t ≡ some r
    → (w.batch r.name).state ≡ succeeded
    → (some_entry json_parse (w.batch r.name).entries && all is_cancelled (w.batch r.name).entries)
      ≡ false
    → (rest : List Effect) × ((run_tick json_parse w limit t).effects
        ≡ collect_effects r.name
            (status_of r)
            (collect_batch json_parse w r (w.batch r.name).entries)
          ++ rest)
unfolding run_tick fate_of
collecting json_parse w limit t r prompt row state live = (
  (submit json_parse w
      (limit - length (collect_batch json_parse w r (w.batch r.name).entries).to_retry)).effects,
  rw (prompt, row, state, live) refl,
)

broken_off :
    (es gens : List Effect) (ds : List Decision) (name : Text) (last : List Effect)
    (t : List BatchRow) (r : BatchRow) (n : ℕ)
    → es ≡ (gens ++ apply_call ds name) ++ last
    → All IsNeutral gens
    → in_flight t ≡ some r
    → (in_flight (apply_effects (take n es) t) ≡ some r)
      ⊎ (ds ≡ [])
      ⊎ ((before : List Effect) × (after : List Effect) × (take n es
            ≡ before ++ call_apply ds name ∷ after))
broken_off es gens [] name last t r n split neutral row = inr (inl refl)
broken_off es gens (d ∷ ds) name last t r n split neutral row =
    let first = gens ++ apply_call (d ∷ ds) name in
    let quiet =
      All-append IsNeutral gens (apply_call (d ∷ ds) name) neutral
        (apply_call-IsNeutral (d ∷ ds) name) in
    elim (take-append n first last) [
      | inl e ↦ inl (
          ap (λ fs. in_flight (apply_effects fs t)) (ap (take n) split ∙ e)
          ∙ (ap in_flight
                (apply_effects-neutral (take n first) t (All-take IsNeutral n first quiet))
              ∙ row))
      | inr (m, e) ↦ inr (
          inr (
            gens,
            take m last,
            ap (take n) split
                ∙ (e ∙ append_assoc gens (call_apply (d ∷ ds) name ∷ []) (take m last)),
          ))
    ]

-- Let a tick find a batch in flight that succeeded and was not cancelled, and break off anywhere.
-- Then the batch is still the one in flight, so that the next tick collects it; or the batch's
-- decisions have been sent, all in one call, unless there is none.
pub run_tick_prefix :
    (json_parse : Text → Option Parsed) (w : World) (limit : ℕ) (t : List BatchRow) (r : BatchRow)
    (n : ℕ)
    → refuse_bad_prompt w.prompt ≡ none
    → in_flight t ≡ some r
    → (w.batch r.name).state ≡ succeeded
    → (some_entry json_parse (w.batch r.name).entries && all is_cancelled (w.batch r.name).entries)
      ≡ false
    → (in_flight (apply_effects (take n (run_tick json_parse w limit t).effects) t) ≡ some r)
      ⊎ ((collect_batch json_parse w r (w.batch r.name).entries).decisions ≡ [])
      ⊎ ((before : List Effect) × (after : List Effect) × (take n
              (run_tick json_parse w limit t).effects
            ≡ before
              ++ call_apply (collect_batch json_parse w r (w.batch r.name).entries).decisions r.name
                ∷ after))
unfolding collect_effects
run_tick_prefix json_parse w limit t r n prompt row state live =
    let c = collect_batch json_parse w r (w.batch r.name).entries in
    let gens = map (λ r. generate_content r.key) c.to_retry in
    let sent = collecting json_parse w limit t r prompt row state live in
    let last = update_state r.name collected ∷ insert_cost r.name (status_of r) ∷ sent.0 in
    broken_off (run_tick json_parse w limit t).effects gens c.decisions r.name last t r n
      (sent.1
        ∙ (append_assoc gens (apply_call c.decisions r.name ++ _ ∷ _ ∷ []) sent.0
            ∙ (ap (gens ++◌) (append_assoc (apply_call c.decisions r.name) (_ ∷ _ ∷ []) sent.0)
                ∙ sym (append_assoc gens (apply_call c.decisions r.name) last))))
      (generate-IsNeutral c.to_retry) row
