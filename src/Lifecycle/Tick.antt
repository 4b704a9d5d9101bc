-- ===== src/Lifecycle/Tick.antt =====
-- `runTick` of lifecycle_tick.mjs: what one tick sends, and what the table of batches makes of it.
pub mod Live
pub mod Batches
pub mod Order
pub mod Bounds
use trend_tree.Sourcing.Context.{Reply}
use trend_tree.Prelude.{
  ℕ, zero, suc, ◌-◌, ◌*◌, List, [], ◌∷◌, ◌++◌, map, Option, none, some, Bool, true, false, not,
  ◌&&◌, ◌||◌, leb, ltb, Text, lit, text_eq, includes, Double, ge_double, num, all, any, length,
  take, if◌then◌else◌,
}
use trend_tree.Lifecycle.Collect.{
  Response, Entry, Parsed, Decision, HeatBase, is_cancelled, BatchError, Retry, Collected, collect,
}

-- STATE of a row of STG_LIFECYCLE_BATCHES
pub data BatchState : Type 0 where
  submitted collected cancelled failed_state : BatchState

pub record BatchRow : Type 0 where
  pub name : Text
  pub chain_id : Text
  pub trend_ids : List Text
  pub heat_bases : List HeatBase
  pub budget_exhausted : Bool
  pub state : BatchState

pub data CostStatus : Type 0 where
  ok budget_exhausted_status timeout error : CostStatus

-- The statements that write, and the calls of Gemini, in the order in which they are sent.
pub data Effect : Type 0 where
  cancel_batch : Text → Effect
  update_state : Text → BatchState → Effect
  insert_cost : Text → CostStatus → Effect
  generate_content : Text → Effect
  call_apply : List Decision → Text → Effect
  submit_batch : Text → List Text → Effect
  insert_batch : BatchRow → Effect

-- `BATCH_STATE_...`
pub data GeminiState : Type 0 where
  pending running succeeded : GeminiState
  other_state : Text → GeminiState

pub record GeminiBatch : Type 0 where
  pub state : GeminiState
  pub entries : List Entry

pub record Prompt : Type 0 where
  pub per_call_max_tokens : Option Double
  pub rendered : Text

-- The answers that a tick reads. `heat_base` is what `buildTrendContext` computes of a trend,
-- `due` the most overdue trends, at most as many as it is asked for, `payload_bytes` the size of the
-- requests for some trends, and `batch_name` the name that Gemini gives to a new batch.
pub record World : Type 0 where
  pub prompt : Prompt
  pub age_seconds : ℕ
  pub batch : Text → GeminiBatch
  pub already_applied : Text → List Text
  pub retry_reply : ℕ → Reply Response
  pub due : ℕ → List Text
  pub heat_base : Text → Double
  pub payload_bytes : List Text → ℕ
  pub chain_id : Text
  pub batch_name : Text

pub data TickError : Type 0 where
  too_few_tokens names_tool payload_too_big : TickError

pub data Ending : Type 0 where
  waiting : Text → Ending
  done : Ending
  threw_error : TickError → Ending

pub record Tick : Type 0 where
  pub effects : List Effect
  pub ending : Ending

-- The double 8192.
abbrev pub min_output_tokens : Double
min_output_tokens = num 0xc0c0000000000000

abbrev pub timeout_seconds : ℕ
timeout_seconds = 6 * 3600

abbrev pub inline_limit_bytes : ℕ
inline_limit_bytes = 20 * 1024 * 1024

-- `TOOL_WORDS`
abbrev pub tool_words : List Text
tool_words =
    lit "propose_lifecycle_decision"
    ∷ lit "query_trend_"
    ∷ lit "query_signal_"
    ∷ lit "query_lifecycle_"
    ∷ []

abbrev pub enough_tokens : Option Double → Bool
enough_tokens none = false
enough_tokens (some n) = ge_double n min_output_tokens

unfoldable pub refuse_bad_prompt : Prompt → Option TickError
refuse_bad_prompt p =
    if not (enough_tokens p.per_call_max_tokens)
    then some too_few_tokens
    else if any (includes p.rendered) tool_words
    then some names_tool
    else none

-- `Q_IN_FLIGHT`: the batch that was submitted last of those that are in flight; the rows stand in
-- the order of their submission.
abbrev pub is_submitted : BatchState → Bool
is_submitted submitted = true
is_submitted collected = false
is_submitted cancelled = false
is_submitted failed_state = false

abbrev pub or_else : Option BatchRow → Option BatchRow → Option BatchRow
or_else (some r) later = some r
or_else none later = later

unfoldable pub in_flight : List BatchRow → Option BatchRow
in_flight [] = none
in_flight (r ∷ rs) =
    let later = in_flight rs in or_else later (if is_submitted r.state then some r else none)

unfoldable pub close : Text → BatchState → CostStatus → List Effect
close name state status = update_state name state ∷ insert_cost name status ∷ []

abbrev pub apply_call : List Decision → Text → List Effect
apply_call [] name = []
apply_call (d ∷ ds) name = call_apply (d ∷ ds) name ∷ []

-- The statements of `collect`.
unfoldable pub collect_effects : Text → CostStatus → Collected → List Effect
collect_effects name status c =
    map (λ r. generate_content r.key) c.to_retry
    ++ (apply_call c.decisions name ++ update_state name collected ∷ insert_cost name status ∷ [])

abbrev pub status_of : BatchRow → CostStatus
status_of r = if r.budget_exhausted then budget_exhausted_status else ok

-- What becomes of the batch in flight: the tick waits for it, or it is closed and so many entries
-- were tried again.
pub data Fate : Type 0 where
  wait : Fate
  closed : List Effect → ℕ → Fate

abbrev pub heat_bases_of : World → List Text → List HeatBase
heat_bases_of w = map (λ id. record { key = id; base = w.heat_base id })

module _ (json_parse : Text → Option Parsed) where
  unfoldable pub collect_batch : World → BatchRow → List Entry → Collected
  collect_batch w r entries =
      collect json_parse r.name (w.already_applied r.name) r.heat_bases entries w.retry_reply

  abbrev pub some_entry : List Entry → Bool
  some_entry [] = false
  some_entry (e ∷ es) = true

  -- A batch that is not done: it is left until its time is over.
  abbrev pub wait_for : World → BatchRow → Fate
  wait_for w r =
      if ltb w.age_seconds timeout_seconds
      then wait
      else closed (cancel_batch r.name ∷ close r.name cancelled timeout) 0

  abbrev pub take_succeeded : World → BatchRow → List Entry → Fate
  take_succeeded w r entries =
      if some_entry entries && all is_cancelled entries
      then closed (close r.name cancelled timeout) 0
      else closed (collect_effects r.name (status_of r) (collect_batch w r entries))
          (length (collect_batch w r entries).to_retry)

  unfoldable pub fate_of : World → BatchRow → GeminiState → List Entry → Fate
  fate_of w r pending entries = wait_for w r
  fate_of w r running entries = wait_for w r
  fate_of w r succeeded entries = take_succeeded w r entries
  fate_of w r (other_state s) entries = closed (close r.name failed_state error) 0

  abbrev pub new_row : World → List Text → Bool → BatchRow
  new_row w ids exhausted = record {
    name = w.batch_name;
    chain_id = w.chain_id;
    trend_ids = ids;
    heat_bases = heat_bases_of w ids;
    budget_exhausted = exhausted;
    state = submitted;
  }

  abbrev pub submit_ids : World → List Text → Bool → Tick
  submit_ids w [] exhausted = record { effects = []; ending = done }
  submit_ids w (i ∷ ids) exhausted =
      if leb inline_limit_bytes (w.payload_bytes (i ∷ ids))
      then record { effects = []; ending = threw_error payload_too_big }
      else record {
        effects =
            submit_batch w.chain_id (i ∷ ids) ∷ insert_batch (new_row w (i ∷ ids) exhausted) ∷ [];
        ending = done;
      }

  -- One row past the limit tells whether the limit cut the due trends.
  unfoldable pub submit : World → ℕ → Tick
  submit w zero = record { effects = []; ending = done }
  submit w (suc n) =
      let due = w.due (suc (suc n)) in submit_ids w (take (suc n) due) (ltb (suc n) (length due))

  abbrev pub after_fate : World → ℕ → Text → Fate → Tick
  after_fate w cap name wait = record { effects = []; ending = waiting name }
  after_fate w cap name (closed effects retries) =
      let rest = submit w (cap - retries) in
      record { effects = effects ++ rest.effects; ending = rest.ending }

  abbrev pub take_in_flight : World → ℕ → Option BatchRow → Tick
  take_in_flight w cap none = submit w cap
  take_in_flight w cap (some r) =
      after_fate w cap r.name (fate_of w r (w.batch r.name).state (w.batch r.name).entries)

  abbrev pub unless_refused : Option TickError → Tick → Tick
  unless_refused (some e) t = record { effects = []; ending = threw_error e }
  unless_refused none t = t

  unfoldable pub run_tick : World → ℕ → List BatchRow → Tick
  run_tick w cap t =
      unless_refused (refuse_bad_prompt w.prompt) (take_in_flight w cap (in_flight t))

-- `UPDATE_STATE` and `INSERT_BATCH`
unfoldable pub set_state : Text → BatchState → List BatchRow → List BatchRow
set_state name state [] = []
set_state name state (r ∷ rs) =
    let rest = set_state name state rs in
    if text_eq r.name name then record r { state = state } ∷ rest else r ∷ rest

abbrev pub apply_effect : Effect → List BatchRow → List BatchRow
apply_effect (update_state name state) t = set_state name state t
apply_effect (insert_batch r) t = t ++ r ∷ []
apply_effect (cancel_batch name) t = t
apply_effect (insert_cost name status) t = t
apply_effect (generate_content key) t = t
apply_effect (call_apply ds name) t = t
apply_effect (submit_batch chain ids) t = t

abbrev pub apply_effects : List Effect → List BatchRow → List BatchRow
apply_effects [] t = t
apply_effects (e ∷ es) t = apply_effects es (apply_effect e t)

-- The tables that ticks reach, each of which may break off after any of its effects.
pub data Reached (json_parse : Text → Option Parsed) : List BatchRow → Type 0 where
  no_batch : Reached json_parse []
  tick :
      {t : List BatchRow}
      → Reached json_parse t
      → (w : World) (cap n : ℕ)
      → Reached json_parse (apply_effects (take n (run_tick json_parse w cap t).effects) t)
