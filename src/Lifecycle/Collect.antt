-- ===== src/Lifecycle/Collect.antt =====
-- `collect` of lifecycle_tick.mjs, and `buildDecision` of lifecycle_context.mjs. What tokens cost is
-- left out.
pub mod Fates
pub mod Due
use trend_tree.Sourcing.Context.{Reply, replied, threw}
use trend_tree.Prelude.{
  ℕ, zero, suc, ◌+◌, List, [], ◌∷◌, ◌++◌, map, Option, none, some, Bool, true, false, not, ◌&&◌,
  ◌==◌, Text, lit, text_eq, Double, nan, num, lt_double, any, flatten, if◌then◌else◌, Option-cases,
}

-- A part of an answer that has a text, and whether it is a thought.
pub record AnswerPart : Type 0 where
  pub is_thought : Bool
  pub text : Text

pub record Usage : Type 0 where
  pub prompt : ℕ
  pub candidates : ℕ
  pub thoughts : ℕ

pub record Response : Type 0 where
  pub parts : List AnswerPart
  pub finish_reason : Option Text
  pub usage : Usage

pub record EntryError : Type 0 where
  pub code : ℕ
  pub message : Text

pub data Outcome : Type 0 where
  failed : EntryError → Outcome
  responded : Response → Outcome

-- An inlined response of a batch.
pub record Entry : Type 0 where
  pub key : Text
  pub outcome : Outcome

-- What `JSON.parse` gives of an answer: an object, with its hours as a number, NaN if they are
-- missing or no number; or a value that is no object, null included.
pub data Parsed : Type 0 where
  parsed_object : Text → Double → Parsed
  parsed_other : Parsed

pub record Decision : Type 0 where
  pub trend_id : Text
  pub heat_base : Double
  pub chain_id : Text
  pub lifecycle_decision : Text
  pub next_eval_in_hours : Double
  pub input_tokens : ℕ
  pub output_tokens : ℕ
  pub stop_reason : Option Text

-- The doubles 6 and 168.
abbrev pub least_hours : Double
least_hours = num 0xc018000000000000

abbrev pub most_hours : Double
most_hours = num 0xc065000000000000

-- `Math.max(6, h)` and `Math.min(168, h)`, which keep a NaN
unfoldable pub clamp_next_eval : Double → Double
clamp_next_eval nan = nan
clamp_next_eval (num h) =
    let at_least = if lt_double (num h) least_hours then least_hours else num h in
    if lt_double most_hours at_least then most_hours else at_least

abbrev answer_texts : List AnswerPart → List Text
answer_texts [] = []
answer_texts (p ∷ ps) = if p.is_thought then answer_texts ps else p.text ∷ answer_texts ps

unfoldable pub answer_text : Response → Text
answer_text r = flatten (answer_texts r.parts)

pub record HeatBase : Type 0 where
  pub key : Text
  pub base : Double

-- `heatBases[key]`, none if it is no number
unfoldable pub heat_base_of : List HeatBase → Text → Option Double
heat_base_of [] k = none
heat_base_of (h ∷ hs) k = if text_eq h.key k then some h.base else heat_base_of hs k

abbrev pub grpc_cancelled : ℕ
grpc_cancelled = 1

abbrev pub is_cancelled : Entry → Bool
is_cancelled e = cancelled e.outcome
  where
    cancelled : Outcome → Bool
    cancelled (failed err) = err.code == grpc_cancelled
    cancelled (responded r) = false

-- Why an entry is tried again.
pub data Why : Type 0 where
  entry_failed : EntryError → Why
  not_json : Why

pub data BatchError : Type 0 where
  no_heat_base : Text → BatchError
  retry_failed : Text → Why → Option Text → BatchError

abbrev pub error_key : BatchError → Text
error_key (no_heat_base k) = k
error_key (retry_failed k why failure) = k

pub record Retry : Type 0 where
  pub key : Text
  pub base : Double
  pub why : Why

-- The three lists that the first loop fills.
pub record Sorted : Type 0 where
  pub decisions : List Decision
  pub errors : List BatchError
  pub to_retry : List Retry

abbrev pub decision_of : Text → Double → Text → Response → Option Parsed → Option Decision
decision_of trend_id heat_base batch_name r none = none
decision_of trend_id heat_base batch_name r (some parsed_other) = none
decision_of trend_id heat_base batch_name r (some (parsed_object json hours)) = some (record {
  trend_id = trend_id;
  heat_base = heat_base;
  chain_id = batch_name;
  lifecycle_decision = json;
  next_eval_in_hours = clamp_next_eval hours;
  input_tokens = r.usage.prompt;
  output_tokens = r.usage.candidates + r.usage.thoughts;
  stop_reason = r.finish_reason;
})

abbrev pub why_of : Outcome → Why
why_of (failed err) = entry_failed err
why_of (responded r) = not_json

-- One entry, before what the later ones give.
abbrev pub place : Text → Outcome → Double → Option Decision → Sorted → Sorted
place key o base none rest = record rest {
  to_retry = record { key = key; base = base; why = why_of o } ∷ rest.to_retry;
}
place key o base (some d) rest = record rest { decisions = d ∷ rest.decisions }

abbrev pub failure_of : Reply Response → Option Text
failure_of (threw m) = some m
failure_of (replied r) = none

-- Decisions and errors of the second loop.
pub record Retried : Type 0 where
  pub decisions : List Decision
  pub errors : List BatchError

abbrev pub place_retry : Retry → Reply Response → Option Decision → Retried → Retried
place_retry r reply (some d) rest = record rest { decisions = d ∷ rest.decisions }
place_retry r reply none rest = record rest {
  errors = retry_failed r.key r.why (failure_of reply) ∷ rest.errors;
}

module _ (json_parse : Text → Option Parsed) where
  unfoldable pub build_decision : Text → Double → Text → Response → Option Decision
  build_decision trend_id heat_base batch_name r =
      decision_of trend_id heat_base batch_name r (json_parse (answer_text r))

  -- `e.error ? null : decide(...)`
  unfoldable pub decide : Text → Text → Double → Outcome → Option Decision
  decide batch_name key base (failed err) = none
  decide batch_name key base (responded r) = build_decision key base batch_name r

  abbrev pub place_based : Text → Text → Outcome → Option Double → Sorted → Sorted
  place_based batch_name key o none rest = record rest { errors = no_heat_base key ∷ rest.errors }
  place_based batch_name key o (some base) rest =
      place key o base (decide batch_name key base o) rest

  -- The first loop; `applied` are the trends of the batch that were applied before.
  unfoldable pub sort_entries : Text → List Text → List HeatBase → List Entry → Sorted
  sort_entries batch_name applied bases [] = record { decisions = []; errors = []; to_retry = [] }
  sort_entries batch_name applied bases (e ∷ es) =
      let rest = sort_entries batch_name applied bases es in
      if (if is_cancelled e then true else any (text_eq e.key) applied)
      then rest
      else place_based batch_name e.key e.outcome (heat_base_of bases e.key) rest

  -- The answer to one retry.
  unfoldable pub redecide : Text → Retry → Reply Response → Option Decision
  redecide batch_name r (threw m) = none
  redecide batch_name r (replied response) = build_decision r.key r.base batch_name response

  -- The second loop: one call of the model for each retry.
  unfoldable pub retry_all : Text → (ℕ → Reply Response) → ℕ → List Retry → Retried
  retry_all batch_name reply i [] = record { decisions = []; errors = [] }
  retry_all batch_name reply i (r ∷ rs) =
      place_retry r (reply i) (redecide batch_name r (reply i))
        (retry_all batch_name reply (suc i) rs)

-- `new Set(ids).size`
unfoldable pub set_size : List Text → ℕ
set_size [] = 0
set_size (id ∷ ids) = if any (text_eq id) ids then set_size ids else suc (set_size ids)

-- What a batch comes to; `skipped` is the number of its trends that were applied before.
pub record Collected : Type 0 where
  pub decisions : List Decision
  pub errors : List BatchError
  pub to_retry : List Retry
  pub skipped : ℕ

unfoldable pub collect :
    (Text → Option Parsed)
    → Text
    → List Text
    → List HeatBase
    → List Entry
    → (ℕ → Reply Response)
    → Collected
collect json_parse batch_name applied bases entries reply =
    let first = sort_entries json_parse batch_name applied bases entries in
    let second = retry_all json_parse batch_name reply 0 first.to_retry in
    record {
      decisions = first.decisions ++ second.decisions;
      errors = first.errors ++ second.errors;
      to_retry = first.to_retry;
      skipped = set_size applied;
    }
