-- ===== src/Lifecycle/Tick/Batches.antt =====
-- At most one batch is in flight, wherever the ticks break off.
use mathlib.Core.List.{append_assoc}
use trend_tree.Prelude.{
  ℕ, zero, suc, ◌-◌, ◌≤◌, ◌≡◌, refl, ap, sym, ◌∙◌, inl, inr, List, [], ◌∷◌, ◌++◌, map, Option, none,
  some, Bool, false, ◌&&◌, arith, Text, count-append, ltb, leb, length, take, all, All, All-append,
  Bool-cases,
}
use trend_tree.Lifecycle.Collect.{Entry, Parsed, is_cancelled}
use trend_tree.Lifecycle.Tick.{
  BatchState, collected, cancelled, failed_state, BatchRow, CostStatus, Effect, cancel_batch,
  update_state, insert_cost, generate_content, GeminiState, pending, running, succeeded,
  other_state, World, TickError, refuse_bad_prompt, is_submitted, in_flight, close, apply_call,
  collect_effects, Fate, wait, closed, collect_batch, some_entry, wait_for, take_succeeded, fate_of,
  submit_ids, submit, after_fate, take_in_flight, unless_refused, run_tick, apply_effect,
  apply_effects, Reached, no_batch, tick, inline_limit_bytes, timeout_seconds,
}
use trend_tree.Lifecycle.Tick.Live.{
  live, in_flight-none, close_live, IsSafe, IsSafe-take, IsSafe-append, IsNeutral,
  apply_effects-neutral, IsSafe-neutral, generate-IsNeutral, apply_call-IsNeutral,
}

-- The effects close the batch: some leave the table alone, then its state is set.
record Closes (name : Text) (es : List Effect) : Type 0 where
  before : List Effect
  state : BatchState
  status : CostStatus
  split : es ≡ before ++ update_state name state ∷ insert_cost name status ∷ []
  neutral : All IsNeutral before
  ended : is_submitted state ≡ false

abbrev FateOk : Text → Fate → Type 0
FateOk name wait = Unit
FateOk name (closed es retries) = Closes name es

Closes-IsSafe :
    (r : BatchRow) (es : List Effect) (t : List BatchRow)
    → Closes r.name es
    → in_flight t ≡ some r
    → live t ≤ 1
    → IsSafe es t × (live (apply_effects es t) ≡ 0)
Closes-IsSafe r es t c f h =
    let none_left = close_live t r c.state f h c.ended in
    let end = update_state r.name c.state ∷ insert_cost r.name c.status ∷ [] in
    let same = apply_effects-neutral c.before t c.neutral in
    rw c.split (
      IsSafe-append c.before end t (IsSafe-neutral c.before t c.neutral h)
          (rw same (h, (omega (arith, none_left), omega (arith, none_left)))),
      ap live (applied c.before end t) ∙ rw same none_left,
    )
  where
    applied :
        (es fs : List Effect) (t : List BatchRow)
        → apply_effects (es ++ fs) t ≡ apply_effects fs (apply_effects es t)
    applied [] fs t = refl
    applied (e ∷ es) fs t = applied es fs (apply_effect e t)

module _ (json_parse : Text → Option Parsed) (w : World) where
  wait_for-FateOk : (r : BatchRow) → FateOk r.name (wait_for json_parse w r)
  unfolding close
  wait_for-FateOk r = elim (Bool-cases (ltb w.age_seconds timeout_seconds)) [
    | inl e ↦ rw e tt
    | inr e ↦ rw e (record {
      before = cancel_batch r.name ∷ [];
      state = cancelled;
      status = _;
      split = refl;
      neutral = ((λ t. refl), tt);
      ended = refl;
    })
  ]

  take_succeeded-FateOk :
      (r : BatchRow) (entries : List Entry) → FateOk r.name (take_succeeded json_parse w r entries)
  unfolding close collect_effects
  take_succeeded-FateOk r entries =
      elim (Bool-cases (some_entry json_parse entries && all is_cancelled entries)) [
        | inl e ↦ rw e (record {
          before = [];
          state = cancelled;
          status = _;
          split = refl;
          neutral = tt;
          ended = refl;
        })
        | inr e ↦
            let c = collect_batch json_parse w r entries in
            let gens = map (λ r. generate_content r.key) c.to_retry in
            rw e (record {
              before = gens ++ apply_call c.decisions r.name;
              state = collected;
              status = _;
              split = sym (append_assoc gens (apply_call c.decisions r.name) _);
              neutral =
                  All-append IsNeutral gens (apply_call c.decisions r.name)
                    (generate-IsNeutral c.to_retry) (apply_call-IsNeutral c.decisions r.name);
              ended = refl;
            })
      ]

  fate_of-FateOk :
      (r : BatchRow) (s : GeminiState) (entries : List Entry)
      → FateOk r.name (fate_of json_parse w r s entries)
  unfolding fate_of close
  fate_of-FateOk r pending entries = wait_for-FateOk r
  fate_of-FateOk r running entries = wait_for-FateOk r
  fate_of-FateOk r succeeded entries = take_succeeded-FateOk r entries
  fate_of-FateOk r (other_state s) entries = record {
    before = [];
    state = failed_state;
    status = _;
    split = refl;
    neutral = tt;
    ended = refl;
  }

  submit-IsSafe :
      (limit : ℕ) (t : List BatchRow) → live t ≡ 0 → IsSafe (submit json_parse w limit).effects t
  unfolding submit
  submit-IsSafe zero t h = omega (arith, h)
  submit-IsSafe (suc n) t h =
      by_ids (take (suc n) (w.due (suc (suc n)))) (ltb (suc n) (length (w.due (suc (suc n)))))
    where
      empty : live t ≤ 1
      empty = omega (arith, h)

      by_ids :
          (ids : List Text) (exhausted : Bool)
          → IsSafe (submit_ids json_parse w ids exhausted).effects t
      by_ids [] exhausted = empty
      by_ids (i ∷ ids) exhausted =
          elim (Bool-cases (leb inline_limit_bytes (w.payload_bytes (i ∷ ids)))) [
            | inl e ↦ rw e empty
            | inr e ↦ rw e (
              empty,
              (
                empty,
                omega (arith, h, count-append (λ (r : BatchRow). is_submitted r.state) t (_ ∷ [])),
              ),
            )
          ]

  after_fate-IsSafe :
      (cap : ℕ) (r : BatchRow) (f : Fate) (t : List BatchRow)
      → FateOk r.name f
      → in_flight t ≡ some r
      → live t ≤ 1
      → IsSafe (after_fate json_parse w cap r.name f).effects t
  after_fate-IsSafe cap r wait t c f h = h
  after_fate-IsSafe cap r (closed es retries) t c f h =
      let closing = Closes-IsSafe r es t c f h in
      IsSafe-append es (submit json_parse w (cap - retries)).effects t closing.0
        (submit-IsSafe (cap - retries) (apply_effects es t) closing.1)

  run_tick-IsSafe :
      (cap : ℕ) (t : List BatchRow) → live t ≤ 1 → IsSafe (run_tick json_parse w cap t).effects t
  unfolding run_tick
  run_tick-IsSafe cap t h = by_refusal (refuse_bad_prompt w.prompt)
    where
      by_row :
          (o : Option BatchRow)
          → in_flight t ≡ o
          → IsSafe (take_in_flight json_parse w cap o).effects t
      by_row none f = submit-IsSafe cap t (in_flight-none t f)
      by_row (some r) f =
          after_fate-IsSafe cap r
            (fate_of json_parse w r (w.batch r.name).state (w.batch r.name).entries) t
            (fate_of-FateOk r (w.batch r.name).state (w.batch r.name).entries) f h

      by_refusal :
          (o : Option TickError)
          → IsSafe
              (unless_refused json_parse o (take_in_flight json_parse w cap (in_flight t))).effects
              t
      by_refusal (some e) = h
      by_refusal none = by_row (in_flight t) refl

-- However many ticks have run, and wherever each of them broke off, at most one batch is in flight.
pub reached-live :
    (json_parse : Text → Option Parsed) (t : List BatchRow) → Reached json_parse t → live t ≤ 1
reached-live json_parse t no_batch = omega arith
reached-live json_parse t (tick {t = s} before w cap n) =
    IsSafe-take n (run_tick json_parse w cap s).effects s
      (run_tick-IsSafe json_parse w cap s (reached-live json_parse s before))
