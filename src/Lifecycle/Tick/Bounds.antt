-- ===== src/Lifecycle/Tick/Bounds.antt =====
-- How many calls of the model a tick makes or asks for.
use trend_tree.Prelude.{
  ℕ, zero, suc, ◌+◌, ◌-◌, ◌≤◌, ◌≡◌, refl, ap, ◌∙◌, inl, inr, List, [], ◌∷◌, ◌++◌, map, Option, none,
  some, Bool, true, false, ◌&&◌, arith, Text, ltb, leb, count, count-append, length, length-take,
  take, all, All, All-append, Bool-cases,
}
use trend_tree.Lifecycle.Collect.{Entry, Parsed, Decision, Retry, HeatBase, Collected, is_cancelled}
use trend_tree.Lifecycle.Tick.{
  collected, BatchRow, CostStatus, Effect, cancel_batch, update_state, insert_cost,
  generate_content, call_apply, submit_batch, insert_batch, GeminiState, pending, running,
  succeeded, other_state, World, TickError, Tick, refuse_bad_prompt, in_flight, close, apply_call,
  collect_effects, status_of, Fate, wait, closed, heat_bases_of, collect_batch, some_entry,
  wait_for, take_succeeded, fate_of, submit_ids, submit, after_fate, take_in_flight, unless_refused,
  run_tick, inline_limit_bytes, timeout_seconds,
}

abbrev pub is_generate : Effect → Bool
is_generate (generate_content key) = true
is_generate (cancel_batch name) = false
is_generate (update_state name s) = false
is_generate (insert_cost name s) = false
is_generate (call_apply ds name) = false
is_generate (submit_batch chain ids) = false
is_generate (insert_batch r) = false

-- The new row has trends, as many as are left of the limit at most, and a heat base for each.
abbrev pub IsWithin : ℕ → Effect → Type 0
IsWithin limit (insert_batch r) =
    (length r.trend_ids ≤ limit)
    × (map (λ h. h.key) r.heat_bases ≡ r.trend_ids)
    × (1 ≤ length r.trend_ids)
IsWithin limit (generate_content key) = Unit
IsWithin limit (cancel_batch name) = Unit
IsWithin limit (update_state name s) = Unit
IsWithin limit (insert_cost name s) = Unit
IsWithin limit (call_apply ds name) = Unit
IsWithin limit (submit_batch chain ids) = Unit

heat_bases_of-keys :
    (w : World) (ids : List Text) → map (λ (h : HeatBase). h.key) (heat_bases_of w ids) ≡ ids
heat_bases_of-keys w [] = refl
heat_bases_of-keys w (i ∷ ids) = ap (i ∷◌) (heat_bases_of-keys w ids)

count-generate :
    (rs : List Retry) → count is_generate (map (λ r. generate_content r.key) rs) ≡ length rs
count-generate [] = refl
count-generate (r ∷ rs) = ap suc (count-generate rs)

IsWithin-generate :
    (limit : ℕ) (rs : List Retry) → All (IsWithin limit) (map (λ r. generate_content r.key) rs)
IsWithin-generate limit [] = tt
IsWithin-generate limit (r ∷ rs) = (tt, IsWithin-generate limit rs)

-- The effects hold so many calls of the model, and nothing that is out of bounds.
abbrev Has : ℕ → ℕ → List Effect → Type 0
Has limit n es = (count is_generate es ≡ n) × All (IsWithin limit) es

Has-append :
    (limit m n : ℕ) (es fs : List Effect)
    → Has limit m es
    → Has limit n fs
    → Has limit (m + n) (es ++ fs)
Has-append limit m n es fs h k = (
  count-append is_generate es fs ∙ omega (arith, h.0, k.0),
  All-append (IsWithin limit) es fs h.1 k.1,
)

apply_call-Has : (limit : ℕ) (ds : List Decision) (name : Text) → Has limit 0 (apply_call ds name)
apply_call-Has limit [] name = (refl, tt)
apply_call-Has limit (d ∷ ds) name = (refl, (tt, tt))

collect_effects-Has :
    (limit : ℕ) (name : Text) (s : CostStatus) (c : Collected)
    → Has limit (length c.to_retry) (collect_effects name s c)
unfolding collect_effects
collect_effects-Has limit name s c =
    let gens = map (λ (r : Retry). generate_content r.key) c.to_retry in
    let end = update_state name collected ∷ insert_cost name s ∷ [] in
    let all =
      Has-append limit (length c.to_retry) (0 + 0) gens (apply_call c.decisions name ++ end)
        (count-generate c.to_retry, IsWithin-generate limit c.to_retry)
        (Has-append limit 0 0 (apply_call c.decisions name) end
          (apply_call-Has limit c.decisions name) (refl, (tt, (tt, tt)))) in
    (all.0 ∙ omega arith, all.1)

abbrev FateHas : ℕ → Fate → Type 0
FateHas limit wait = Unit
FateHas limit (closed es retries) = Has limit retries es

module _ (json_parse : Text → Option Parsed) (w : World) (limit : ℕ) where
  wait_for-FateHas : (r : BatchRow) → FateHas limit (wait_for json_parse w r)
  unfolding close
  wait_for-FateHas r = elim (Bool-cases (ltb w.age_seconds timeout_seconds)) [
    | inl e ↦ rw e tt
    | inr e ↦ rw e (refl, (tt, (tt, (tt, tt))))
  ]

  take_succeeded-FateHas :
      (r : BatchRow) (entries : List Entry) → FateHas limit (take_succeeded json_parse w r entries)
  unfolding close
  take_succeeded-FateHas r entries =
      elim (Bool-cases (some_entry json_parse entries && all is_cancelled entries)) [
        | inl e ↦ rw e (refl, (tt, (tt, tt)))
        | inr e ↦
            rw e (
              collect_effects-Has limit r.name (status_of r) (collect_batch json_parse w r entries))
      ]

  fate_of-FateHas :
      (r : BatchRow) (s : GeminiState) (entries : List Entry)
      → FateHas limit (fate_of json_parse w r s entries)
  unfolding fate_of close
  fate_of-FateHas r pending entries = wait_for-FateHas r
  fate_of-FateHas r running entries = wait_for-FateHas r
  fate_of-FateHas r succeeded entries = take_succeeded-FateHas r entries
  fate_of-FateHas r (other_state s) entries = (refl, (tt, (tt, tt)))

module _ (json_parse : Text → Option Parsed) (w : World) where
  submit-Has : (limit : ℕ) → Has limit 0 (submit json_parse w limit).effects
  unfolding submit
  submit-Has zero = (refl, tt)
  submit-Has (suc n) =
      by_ids (take (suc n) (w.due (suc (suc n)))) (ltb (suc n) (length (w.due (suc (suc n)))))
        (omega (arith, length-take (suc n) (w.due (suc (suc n)))))
    where
      by_ids :
          (ids : List Text) (exhausted : Bool)
          → length ids ≤ suc n
          → Has (suc n) 0 (submit_ids json_parse w ids exhausted).effects
      by_ids [] exhausted h = (refl, tt)
      by_ids (i ∷ ids) exhausted h =
          elim (Bool-cases (leb inline_limit_bytes (w.payload_bytes (i ∷ ids)))) [
            | inl e ↦ rw e (refl, tt)
            | inr e ↦ rw e (refl, (tt, ((h, heat_bases_of-keys w (i ∷ ids), omega arith), tt)))
          ]

  -- With what is left of the limit after the retries, nothing is out of bounds.
  abbrev IsBounded : ℕ → Tick → Type 0
  IsBounded limit t = All (IsWithin (limit - count is_generate t.effects)) t.effects

  after_fate-IsBounded :
      (limit : ℕ) (name : Text) (f : Fate)
      → ((n : ℕ) → FateHas n f)
      → IsBounded limit (after_fate json_parse w limit name f)
  after_fate-IsBounded limit name wait h = tt
  after_fate-IsBounded limit name (closed es retries) h =
      let both =
        Has-append (limit - retries) retries 0 es (submit json_parse w (limit - retries)).effects
          (h (limit - retries)) (submit-Has (limit - retries)) in
      let total : count is_generate (es ++ (submit json_parse w (limit - retries)).effects)
          ≡ retries =
        both.0 ∙ omega arith in
      rw total both.1

-- The new batch of a tick has a trend at least, and no more trends than the limit less the calls of
-- the model that the tick itself makes for retries; and its row has a heat base for each of its
-- trends, in their order.
pub run_tick_bounds :
    (json_parse : Text → Option Parsed) (w : World) (limit : ℕ) (t : List BatchRow)
    → All
        (IsWithin (limit - count is_generate (run_tick json_parse w limit t).effects))
        (run_tick json_parse w limit t).effects
unfolding run_tick
run_tick_bounds json_parse w limit t = by_refusal (refuse_bad_prompt w.prompt)
  where
    by_row :
        (o : Option BatchRow) → IsBounded json_parse w limit (take_in_flight json_parse w limit o)
    by_row none =
        let all : limit - 0 ≡ limit = omega arith in
        rw ((submit-Has json_parse w limit).0, all) (submit-Has json_parse w limit).1
    by_row (some r) =
        after_fate-IsBounded json_parse w limit r.name
          (fate_of json_parse w r (w.batch r.name).state (w.batch r.name).entries)
          (λ n. fate_of-FateHas json_parse w n r (w.batch r.name).state (w.batch r.name).entries)

    by_refusal :
        (o : Option TickError)
        → IsBounded json_parse w limit
            (unless_refused json_parse o (take_in_flight json_parse w limit (in_flight t)))
    by_refusal (some e) = tt
    by_refusal none = by_row (in_flight t)
