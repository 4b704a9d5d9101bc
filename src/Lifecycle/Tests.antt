-- ===== src/Lifecycle/Tests.antt =====
-- A tick that collects a batch of three trends and submits a new one, and the theorems there.
use trend_tree.Sourcing.Context.{replied}
use trend_tree.Prelude.{
  ◌+◌, ◌-◌, ◌≤◌, ◌≡◌, refl, ◌⊎◌, List, [], ◌∷◌, ◌++◌, Option, none, some, Bool, true, false, Text,
  lit, text_eq, includes, num, starts_with, ge_double, length, take, All, count,
}
use trend_tree.Lifecycle.Collect.{
  set_size, Response, failed, responded, Entry, Parsed, parsed_object, clamp_next_eval, answer_text,
  HeatBase, heat_base_of, build_decision, decide, sort_entries, redecide, retry_all, Collected,
  collect,
}
use trend_tree.Lifecycle.Collect.Fates.{keys_left, decision_keys, error_keys}
use trend_tree.Lifecycle.Collect.Due.{IsDue, collect_lem}
use trend_tree.Lifecycle.Tick.{
  BatchRow, submitted, Effect, call_apply, succeeded, World, refuse_bad_prompt, in_flight,
  collect_batch, submit, run_tick, apply_effects, no_batch, tick,
}
use trend_tree.Lifecycle.Tick.Live.{live}
use trend_tree.Lifecycle.Tick.Batches.{reached-live}
use trend_tree.Lifecycle.Tick.Order.{run_tick_prefix}
use trend_tree.Lifecycle.Tick.Bounds.{is_generate, IsWithin, run_tick_bounds}

abbrev answer : Text → Response
answer t = record {
  parts = record { is_thought = false; text = t } ∷ [];
  finish_reason = some (lit "STOP");
  usage = record { prompt = 3; candidates = 2; thoughts = 1 };
}

-- Texts that start with a brace parse, to the hours 2 (the double).
abbrev json_parse : Text → Option Parsed
json_parse t = if_brace (starts_with t (lit "{"))
  where
    if_brace : Bool → Option Parsed
    if_brace true = some (parsed_object t (num 0xc000000000000000))
    if_brace false = none

abbrev a : Text
a = lit "a"

abbrev b : Text
b = lit "b"

abbrev c : Text
c = lit "c"

abbrev d : Text
d = lit "d"

-- One good answer, one error that a retry heals, and a trend that was applied before.
abbrev entries : List Entry
entries =
    record { key = a; outcome = responded (answer (lit "{}")) }
    ∷ record { key = b; outcome = failed (record { code = 8; message = [] }) }
    ∷ record { key = c; outcome = responded (answer (lit "{}")) }
    ∷ []

abbrev base : Text → HeatBase
base k = record { key = k; base = num 0xc000000000000000 }

abbrev row : BatchRow
row = record {
  name = lit "batches/1";
  chain_id = lit "chain";
  trend_ids = a ∷ b ∷ c ∷ [];
  heat_bases = base a ∷ base b ∷ base c ∷ [];
  budget_exhausted = false;
  state = submitted;
}

abbrev world : World
world = record {
  prompt = record { per_call_max_tokens = some (num 0xc0c0000000000000); rendered = lit "Decide." };
  age_seconds = 60;
  batch = λ name. record { state = succeeded; entries = entries };
  already_applied = λ name. c ∷ [];
  retry_reply = λ i. replied (answer (lit "{}"));
  due = λ n. take n (a ∷ d ∷ []);
  heat_base = λ id. num 0xc000000000000000;
  payload_bytes = λ ids. 1000;
  chain_id = lit "chain2";
  batch_name = lit "batches/2";
}

abbrev collected_batch : Collected
collected_batch =
    collect json_parse (lit "batches/1") (c ∷ []) row.heat_bases entries world.retry_reply

-- Two decisions, one by a retry, and one trend that was applied before.
collect_test : (length collected_batch.decisions ≡ 2) × (collected_batch.skipped ≡ 1)
unfolding collect sort_entries retry_all heat_base_of decide redecide build_decision answer_text
    clamp_next_eval starts_with text_eq set_size
collect_test = (refl, refl)

good_prompt : refuse_bad_prompt world.prompt ≡ none
unfolding refuse_bad_prompt ge_double includes starts_with
good_prompt = refl

found : in_flight (row ∷ []) ≡ some row
unfolding in_flight
found = refl

collect_lem_example :
    All (IsDue (lit "batches/1") (c ∷ []) row.heat_bases) collected_batch.decisions
    × ((p : Text → Bool)
        → count p (decision_keys collected_batch.decisions)
            + count p (error_keys collected_batch.errors)
          ≡ count p (keys_left (c ∷ []) entries))
collect_lem_example =
    collect_lem json_parse (lit "batches/1") (c ∷ []) row.heat_bases entries world.retry_reply

-- A first tick submits a batch, and a second breaks off before it records the next one.
abbrev first_tables : List BatchRow
first_tables = apply_effects (take 2 (run_tick json_parse world 10 []).effects) []

abbrev second_tables : List BatchRow
second_tables =
    apply_effects (take 4 (run_tick json_parse world 10 first_tables).effects) first_tables

reached-live_example : live second_tables ≤ 1
reached-live_example =
    reached-live json_parse second_tables (tick (tick no_batch world 10 2) world 10 4)

live_test : live first_tables ≡ 1
unfolding run_tick refuse_bad_prompt ge_double includes starts_with in_flight submit
live_test = refl

run_tick_prefix_example :
    (in_flight (apply_effects (take 1 (run_tick json_parse world 10 (row ∷ [])).effects) (row ∷ []))
      ≡ some row)
    ⊎ ((collect_batch json_parse world row entries).decisions ≡ [])
    ⊎ ((before : List Effect) × (after : List Effect) × (take 1
            (run_tick json_parse world 10 (row ∷ [])).effects
          ≡ before
            ++ call_apply (collect_batch json_parse world row entries).decisions row.name ∷ after))
run_tick_prefix_example =
    run_tick_prefix json_parse world 10 (row ∷ []) row 1 good_prompt found refl refl

run_tick_bounds_example :
    All
      (IsWithin (10 - count is_generate (run_tick json_parse world 10 (row ∷ [])).effects))
      (run_tick json_parse world 10 (row ∷ [])).effects
run_tick_bounds_example = run_tick_bounds json_parse world 10 (row ∷ [])
