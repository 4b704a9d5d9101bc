-- ===== src/Agents/Loop.antt =====
-- `runAgentLoop` of gemini_loop.mjs. A JSON value that is only passed on is its text.
pub mod Conversation
pub mod Requests
use trend_tree.Prelude.{
  ℕ, zero, suc, ◌+◌, List, [], ◌∷◌, ◌++◌, map, Option, none, some, Bool, true, false, ◌&&◌, ◌==◌,
  Text, lit, text_eq, is_empty, if◌then◌else◌,
}

-- A part of a turn: the call of a function with its arguments and signature, or a text.
pub data Part : Type 0 where
  function_call : Text → Option Text → Option Text → Part
  thought text : Text → Part
  other_part : Text → Part

pub record Call : Type 0 where
  pub name : Text
  pub args : Text

-- `out && typeof out === "object" ? out : { result: out }`
pub data Output : Type 0 where
  object_output plain_output : Text → Output

pub data Response : Type 0 where
  as_is result_of : Text → Response

pub record FunctionResponse : Type 0 where
  pub name : Text
  pub response : Response

-- An entry of `contents`.
pub data Content : Type 0 where
  user_turn model_turn : List Part → Content
  response_turn : List FunctionResponse → Content

pub data Trace : Type 0 where
  stop_trace : ℕ → Text → Trace
  tool_use : ℕ → Call → Bool → Trace
  thinking_trace text_trace : ℕ → Text → Trace
  tool_result : ℕ → Text → Output → Trace

pub record ToolCall : Type 0 where
  pub turn : ℕ
  pub call : Call
  pub output : Output

-- A reply of the model: its usage, and its first candidate.
pub record Answer : Type 0 where
  pub prompt_tokens : ℕ
  pub candidate_tokens : ℕ
  pub parts : List Part
  pub finish_reason : Option Text

-- What a turn's `fetch` comes to: an answer, a response that is not ok with its text, a `fetch` that
-- throws, or a response whose body then cannot be read, as a text or as JSON.
pub data ModelReply : Type 0 where
  answered : Answer → ModelReply
  http_error : ℕ → Text → ModelReply
  fetch_threw body_threw : Text → ModelReply

pub data ToolReply : Type 0 where
  returned : Output → ToolReply
  tool_threw : Text → ToolReply

-- What the model replies in each turn, and each tool to the calls of that turn.
pub record World : Type 0 where
  pub model : ℕ → ModelReply
  pub tool : ℕ → ℕ → ToolReply

pub data Failure : Type 0 where
  api_key_required tool_names_required : Failure
  unknown_tool : Text → Failure
  gemini_fetch_failed : ℕ → Text → Failure
  gemini_http : ℕ → ℕ → Text → Failure
  tool_failed body_failed : Text → Failure

abbrev pub args_of : Option Text → Text
args_of none = lit "{}"
args_of (some t) = t

abbrev pub is_some : Option Text → Bool
is_some none = false
is_some (some t) = true

-- `functionCallParts`
unfoldable pub function_calls : List Part → List Call
function_calls [] = []
function_calls (function_call name args signature ∷ ps) =
    record { name = name; args = args_of args } ∷ function_calls ps
function_calls (thought t ∷ ps) = function_calls ps
function_calls (text t ∷ ps) = function_calls ps
function_calls (other_part t ∷ ps) = function_calls ps

unfoldable pub trace_parts : ℕ → List Part → List Trace
trace_parts turn [] = []
trace_parts turn (function_call name args signature ∷ ps) =
    tool_use turn (record { name = name; args = args_of args }) (is_some signature)
    ∷ trace_parts turn ps
trace_parts turn (thought t ∷ ps) = thinking_trace turn t ∷ trace_parts turn ps
trace_parts turn (text t ∷ ps) = text_trace turn t ∷ trace_parts turn ps
trace_parts turn (other_part t ∷ ps) = trace_parts turn ps

unfoldable pub last_text : Text → List Part → Text
last_text current [] = current
last_text current (function_call name args signature ∷ ps) = last_text current ps
last_text current (thought t ∷ ps) = last_text current ps
last_text current (text t ∷ ps) = last_text t ps
last_text current (other_part t ∷ ps) = last_text current ps

abbrev pub response_of : Output → Response
response_of (object_output t) = as_is t
response_of (plain_output t) = result_of t

abbrev pub respond : ToolCall → FunctionResponse
respond t = record { name = t.call.name; response = response_of t.output }

-- The calls of a turn, one after the other; one that throws ends them.
pub data Dispatch : Type 0 where
  dispatched : List ToolCall → Dispatch
  dispatch_threw : Text → Dispatch

abbrev pub prepend_call : ℕ → Call → ToolReply → Dispatch → Dispatch
prepend_call turn c (tool_threw m) rest = dispatch_threw m
prepend_call turn c (returned o) (dispatch_threw m) = dispatch_threw m
prepend_call turn c (returned o) (dispatched ts) =
    dispatched (record { turn = turn; call = c; output = o } ∷ ts)

unfoldable pub dispatch_calls : (ℕ → ToolReply) → ℕ → ℕ → List Call → Dispatch
dispatch_calls tool turn i [] = dispatched []
dispatch_calls tool turn i (c ∷ cs) =
    prepend_call turn c (tool i) (dispatch_calls tool turn (suc i) cs)

-- The variables of the loop, and the contents of the requests that it sent. `C` is the type of the
-- sum of the costs so far.
pub record State (C : Type 0) : Type 0 where
  pub contents : List Content
  pub input_tokens : ℕ
  pub output_tokens : ℕ
  pub cost : C
  pub reasoning_trace : List Trace
  pub tool_calls : List ToolCall
  pub final_text : Text
  pub requests : List (List Content)

-- How a pass of the loop ends: it goes on, it breaks, or it throws.
pub data Pass (C : Type 0) : Type 0 where
  go_on : State C → Pass C
  break_with : Text → State C → Pass C
  throw_with : Failure → State C → Pass C

pub data Ended (C : Type 0) : Type 0 where
  finished : Text → ℕ → State C → Ended C
  thrown : Failure → State C → Ended C

abbrev pub max_iterations_reason : Text
max_iterations_reason = lit "max_iterations"

abbrev pub budget_exhausted_reason : Text
budget_exhausted_reason = lit "budget_exhausted"

unfoldable pub add_trace : {C : Type 0} → List Trace → State C → State C
add_trace ts s = record s { reasoning_trace = s.reasoning_trace ++ ts }

abbrev pub tool_result_of : ToolCall → Trace
tool_result_of t = tool_result t.turn t.call.name t.output

-- The responses of the tools, pushed on the contents.
unfoldable pub push_responses : {C : Type 0} → List ToolCall → State C → State C
push_responses ts s = record s {
  contents = s.contents ++ response_turn (map respond ts) ∷ [];
  tool_calls = s.tool_calls ++ ts;
  reasoning_trace = s.reasoning_trace ++ map tool_result_of ts;
}

abbrev pub after_calls : {C : Type 0} → Dispatch → State C → Pass C
after_calls (dispatch_threw m) s = throw_with (tool_failed m) s
after_calls (dispatched ts) s = go_on (push_responses ts s)

abbrev pub finish_reason_of : Option Text → Text
finish_reason_of none = lit "STOP"
finish_reason_of (some t) = t

-- No call ends the loop.
unfoldable pub take_calls : {C : Type 0} → World → ℕ → Text → List Call → State C → Pass C
take_calls w turn reason [] s = break_with reason s
take_calls w turn reason (c ∷ cs) s = after_calls (dispatch_calls (w.tool turn) turn 0 (c ∷ cs)) s

-- `toFunctionDeclarations`: the first tool without a schema
unfoldable pub unknown_tool_of : (Text → Bool) → List Text → Option Text
unknown_tool_of has_schema [] = none
unknown_tool_of has_schema (n ∷ ns) = if has_schema n then unknown_tool_of has_schema ns else some n

abbrev or_unknown : Option Text → Option Failure
or_unknown none = none
or_unknown (some n) = some (unknown_tool n)

unfoldable pub check_arguments : Text → List Text → (Text → Bool) → Option Failure
check_arguments api_key [] has_schema =
    some (if is_empty api_key then api_key_required else tool_names_required)
check_arguments api_key (n ∷ ns) has_schema =
    if is_empty api_key
    then some api_key_required
    else or_unknown (unknown_tool_of has_schema (n ∷ ns))

abbrev pub start : {C : Type 0} → Option Failure → State C → Ended C → Ended C
start (some f) s rest = thrown f s
start none s rest = rest

-- `charge` adds the cost of a reply's tokens, and `exhausted` says that the budget is reached.
module _ {C : Type 0} (no_cost : C) (charge : C → ℕ → ℕ → C) (exhausted : C → Bool) where
  -- The usage and the parts of an answer, recorded; the parts are pushed verbatim.
  unfoldable pub read_answer : ℕ → Answer → State C → State C
  read_answer turn a s = record s {
    contents = s.contents ++ model_turn a.parts ∷ [];
    input_tokens = s.input_tokens + a.prompt_tokens;
    output_tokens = s.output_tokens + a.candidate_tokens;
    cost = charge s.cost a.prompt_tokens a.candidate_tokens;
    reasoning_trace = s.reasoning_trace ++ trace_parts turn a.parts;
    final_text = last_text s.final_text a.parts;
  }

  unfoldable pub take_answer : World → ℕ → Answer → State C → Pass C
  take_answer w turn a s =
      take_calls w turn (finish_reason_of a.finish_reason) (function_calls a.parts)
        (read_answer turn a s)

  unfoldable pub take_reply : World → ℕ → ModelReply → State C → Pass C
  take_reply w turn (fetch_threw m) s = throw_with (gemini_fetch_failed turn m) s
  take_reply w turn (body_threw m) s = throw_with (body_failed m) s
  take_reply w turn (http_error status t) s = throw_with (gemini_http status turn t) s
  take_reply w turn (answered a) s = take_answer w turn a s

  unfoldable pub send_request : State C → State C
  send_request s = record s { requests = s.requests ++ s.contents ∷ [] }

  -- The body of the loop, in the turn with this number.
  unfoldable pub take_turn : World → ℕ → State C → Pass C
  take_turn w turn s =
      if exhausted s.cost
      then break_with budget_exhausted_reason
          (add_trace (stop_trace turn budget_exhausted_reason ∷ []) s)
      else take_reply w turn (w.model turn) (send_request s)

  -- After the loop.
  unfoldable pub finish : Bool → Text → ℕ → State C → Ended C
  finish at_end reason turn s = finished reason turn (
      if at_end && text_eq reason max_iterations_reason
      then add_trace (stop_trace turn max_iterations_reason ∷ []) s
      else s)

  abbrev pub continue : Bool → ℕ → (State C → Ended C) → Pass C → Ended C
  continue at_end turn rest (go_on s) = rest s
  continue at_end turn rest (break_with reason s) = finish at_end reason turn s
  continue at_end turn rest (throw_with f s) = thrown f s

  -- The loop, with the number of turns that it may still take.
  unfoldable pub run_turns : World → ℕ → ℕ → State C → Ended C
  run_turns w zero turn s = finish true max_iterations_reason turn s
  run_turns w (suc left) turn s =
      continue (left == 0) (suc turn) (run_turns w left (suc turn)) (take_turn w (suc turn) s)

  unfoldable pub initial_state : List Part → State C
  initial_state user_parts = record {
    contents = user_turn user_parts ∷ [];
    input_tokens = 0;
    output_tokens = 0;
    cost = no_cost;
    reasoning_trace = [];
    tool_calls = [];
    final_text = [];
    requests = [];
  }

  unfoldable pub run_agent_loop : Text → List Text → (Text → Bool) → List Part → ℕ → World → Ended C
  run_agent_loop api_key tool_names has_schema user_parts max_iterations w =
      let s = initial_state user_parts in
      start (check_arguments api_key tool_names has_schema) s (run_turns w max_iterations 0 s)
