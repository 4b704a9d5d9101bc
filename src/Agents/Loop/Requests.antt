-- ===== src/Agents/Loop/Requests.antt =====
-- The requests of a run: how many there are, and what each of them holds.
use mathlib.Core.List.{append_assoc}
use trend_tree.Prelude.{
  ℕ, zero, suc, ◌+◌, ◌≤◌, ◌≡◌, refl, ap, ◌∙◌, inl, inr, List, [], ◌∷◌, ◌++◌, map, Option, none,
  some, Bool, true, false, arith, ◌&&◌, ◌==◌, Text, text_eq, length, length-append, AllFrom,
  AllFrom-append, Bool-cases,
}
use trend_tree.Agents.Loop.{
  Part, Call, Content, model_turn, response_turn, Answer, ModelReply, answered, http_error,
  fetch_threw, body_threw, World, Failure, function_calls, respond, Dispatch, dispatched,
  dispatch_threw, dispatch_calls, ToolCall, State, Pass, go_on, break_with, throw_with, Ended,
  finished, thrown, max_iterations_reason, add_trace, push_responses, after_calls, read_answer,
  take_calls, take_answer, take_reply, send_request, take_turn, finish, continue, run_turns,
  initial_state, check_arguments, start, run_agent_loop,
}
use trend_tree.Agents.Loop.Conversation.{
  IsConversation, IsConversation-append, model_turns, model_turns-append, replied, Answers,
  dispatch_calls-Answers, response_names,
}

module _ {C : Type 0} (no_cost : C) (charge : C → ℕ → ℕ → C) (exhausted : C → Bool) where
  abbrev charge_reply : C → ModelReply → C
  charge_reply c (answered a) = charge c a.prompt_tokens a.candidate_tokens
  charge_reply c (http_error status t) = c
  charge_reply c (fetch_threw m) = c
  charge_reply c (body_threw m) = c

  -- The cost of the first replies.
  abbrev pub spent : World → ℕ → C
  spent w zero = no_cost
  spent w (suc n) = charge_reply (spent w n) (w.model (suc n))

  -- The request that is sent after `n` replies holds the user's turn and whole rounds, the model's
  -- turns in it are those replies, and their cost has not reached the budget.
  pub record IsRequest (user : List Part) (w : World) (n : ℕ) (c : List Content) : Type 0 where
    pub conversation : IsConversation user c
    pub verbatim : model_turns c ≡ replied w n
    pub affordable : exhausted (spent w n) ≡ false

  module _ (user : List Part) (w : World) where
    record InvariantAt (turn : ℕ) (s : State C) : Type 0 where
      conversation : IsConversation user s.contents
      verbatim : model_turns s.contents ≡ replied w turn
      cost : s.cost ≡ spent w turn
      requests : AllFrom (IsRequest user w) 0 s.requests
      count : length s.requests ≡ turn

    -- Each of the requests that are recorded is right at its place, and they are at most so many.
    abbrev pub IsLimited : ℕ → State C → Type 0
    IsLimited n s = AllFrom (IsRequest user w) 0 s.requests × (length s.requests ≤ n)

    abbrev PassOk : ℕ → Pass C → Type 0
    PassOk turn (go_on s) = InvariantAt turn s
    PassOk turn (break_with reason s) = IsLimited turn s
    PassOk turn (throw_with f s) = IsLimited turn s

    abbrev pub EndedOk : ℕ → Ended C → Type 0
    EndedOk n (finished reason turns s) = IsLimited n s × (turns ≤ n)
    EndedOk n (thrown f s) = IsLimited n s

    send_request-IsLimited :
        (turn : ℕ) (s : State C)
        → InvariantAt turn s
        → exhausted s.cost ≡ false
        → IsLimited (suc turn) (send_request no_cost charge exhausted s)
    unfolding send_request
    send_request-IsLimited turn s i e = (
      AllFrom-append (IsRequest user w) 0 turn s.requests s.contents i.requests
          (omega (arith, i.count))
          (record {
            conversation = i.conversation;
            verbatim = i.verbatim;
            affordable = rw (← i.cost) e;
          }),
      omega (arith, length-append s.requests (s.contents ∷ []), i.count),
    )

    take_calls-PassOk :
        (turn : ℕ) (reason : Text) (cs : List Call) (s : State C)
        → IsLimited turn s
        → ((ts : List ToolCall)
            → map (λ t. t.call) ts ≡ cs
            → InvariantAt turn (push_responses ts s))
        → PassOk turn (take_calls w turn reason cs s)
    unfolding take_calls
    take_calls-PassOk turn reason [] s h k = h
    take_calls-PassOk turn reason (c ∷ cs) s h k =
        by_dispatch (dispatch_calls (w.tool turn) turn 0 (c ∷ cs))
          (dispatch_calls-Answers (w.tool turn) turn 0 (c ∷ cs))
      where
        by_dispatch : (d : Dispatch) → Answers (c ∷ cs) d → PassOk turn (after_calls d s)
        by_dispatch (dispatch_threw m) g = h
        by_dispatch (dispatched ts) g = k ts g

    responded-InvariantAt :
        (turn : ℕ) (a : Answer) (ts : List ToolCall) (s : State C)
        → InvariantAt turn s
        → w.model (suc turn) ≡ answered a
        → IsLimited (suc turn) (send_request no_cost charge exhausted s)
        → map (λ t. t.call) ts ≡ function_calls a.parts
        → InvariantAt (suc turn) (
            push_responses ts (
              read_answer no_cost charge exhausted
                (suc turn)
                a
                (send_request no_cost charge exhausted s)))
    unfolding send_request read_answer push_responses
    responded-InvariantAt turn a ts s i reply limited calls =
        let round = model_turn a.parts ∷ response_turn (map respond ts) ∷ [] in
        let whole : (s.contents ++ model_turn a.parts ∷ []) ++ response_turn (map respond ts) ∷ []
            ≡ s.contents ++ round =
          append_assoc s.contents (model_turn a.parts ∷ []) (response_turn (map respond ts) ∷ []) in
        record {
          conversation = rw whole (
              IsConversation-append user s.contents round i.conversation
                (response_names ts ∙ ap (map (λ c. c.name)) calls, tt));
          verbatim =
              ap model_turns whole
              ∙ (model_turns-append s.contents round ∙ rw (reply, i.verbatim) refl);
          cost = rw (reply, i.cost) refl;
          requests = limited.0;
          count = length-append s.requests (s.contents ∷ []) ∙ omega (arith, i.count);
        }

    take_reply-PassOk :
        (turn : ℕ) (r : ModelReply) (s : State C)
        → InvariantAt turn s
        → w.model (suc turn) ≡ r
        → IsLimited (suc turn) (send_request no_cost charge exhausted s)
        → PassOk (suc turn) (
            take_reply no_cost charge exhausted w
              (suc turn)
              r
              (send_request no_cost charge exhausted s))
    unfolding take_reply take_answer
    take_reply-PassOk turn (fetch_threw m) s i reply limited = limited
    take_reply-PassOk turn (body_threw m) s i reply limited = limited
    take_reply-PassOk turn (http_error status t) s i reply limited = limited
    take_reply-PassOk turn (answered a) s i reply limited =
        take_calls-PassOk (suc turn) _ (function_calls a.parts)
          (read_answer no_cost charge exhausted (suc turn) a
            (send_request no_cost charge exhausted s))
          (unfold read_answer in limited)
          (λ ts calls. responded-InvariantAt turn a ts s i reply limited calls)

    take_turn-PassOk :
        (turn : ℕ) (s : State C)
        → InvariantAt turn s
        → PassOk (suc turn) (take_turn no_cost charge exhausted w (suc turn) s)
    unfolding take_turn add_trace
    take_turn-PassOk turn s i = elim (Bool-cases (exhausted s.cost)) [
      | inl e ↦ rw e (i.requests, omega (arith, i.count))
      | inr e ↦
          rw e (
            take_reply-PassOk turn (w.model (suc turn)) s i refl
              (send_request-IsLimited turn s i e))
    ]

    finish-EndedOk :
        (n turn : ℕ) (at_end : Bool) (reason : Text) (s : State C)
        → IsLimited n s
        → turn ≤ n
        → EndedOk n (finish no_cost charge exhausted at_end reason turn s)
    unfolding finish add_trace
    finish-EndedOk n turn at_end reason s h k =
        elim (Bool-cases (at_end && text_eq reason max_iterations_reason)) [
          | inl e ↦ rw e (h, k)
          | inr e ↦ rw e (h, k)
        ]

    run_turns-EndedOk :
        (left turn n : ℕ) (s : State C)
        → InvariantAt turn s
        → turn + left ≡ n
        → EndedOk n (run_turns no_cost charge exhausted w left turn s)
    unfolding run_turns
    run_turns-EndedOk zero turn n s i h =
        finish-EndedOk n turn true max_iterations_reason s (i.requests, omega (arith, i.count))
          (omega arith)
    run_turns-EndedOk (suc left) turn n s i h =
        by_pass (take_turn no_cost charge exhausted w (suc turn) s)
          (λ t g. run_turns-EndedOk left (suc turn) n t g (omega arith)) (take_turn-PassOk turn s i)
      where
        wider : (s : State C) → IsLimited (suc turn) s → IsLimited n s
        wider s l = (l.0, omega (arith, l.1, h))

        by_pass :
            (p : Pass C)
            → ((t : State C)
                → InvariantAt (suc turn) t
                → EndedOk n (run_turns no_cost charge exhausted w left (suc turn) t))
            → PassOk (suc turn) p
            → EndedOk n (
                continue no_cost charge exhausted
                  (left == 0)
                  (suc turn)
                  (run_turns no_cost charge exhausted w left (suc turn))
                  p)
        by_pass (go_on t) rest g = rest t g
        by_pass (break_with reason t) rest g =
            finish-EndedOk n (suc turn) (left == 0) reason t (wider t g) (omega arith)
        by_pass (throw_with f t) rest g = wider t g

module _ {C : Type 0} (no_cost : C) (charge : C → ℕ → ℕ → C) (exhausted : C → Bool) where
  start-EndedOk :
      (user : List Part) (w : World) (n : ℕ) (f : Option Failure) (s : State C) (rest : Ended C)
      → IsLimited no_cost charge exhausted user w n s
      → EndedOk no_cost charge exhausted user w n rest
      → EndedOk no_cost charge exhausted user w n (start f s rest)
  start-EndedOk user w n none s rest h k = k
  start-EndedOk user w n (some f) s rest h k = h

-- A run sends at most `max_iterations` requests, and takes at most so many turns. The request that
-- follows n others is the user's turn and whole rounds, in which the responses answer the model's
-- calls by name, in their order; the turns of the model in it are the parts of its first n replies,
-- verbatim; and the cost of these has not reached the budget. It is so whatever the model and the tools reply, and however the run
-- ends.
pub run_agent_loop_lem :
    {C : Type 0} (no_cost : C) (charge : C → ℕ → ℕ → C) (exhausted : C → Bool) (api_key : Text)
    (tool_names : List Text) (has_schema : Text → Bool) (user : List Part) (max_iterations : ℕ)
    (w : World)
    → EndedOk no_cost charge exhausted user w max_iterations (
        run_agent_loop no_cost charge exhausted api_key tool_names has_schema user max_iterations w)
unfolding run_agent_loop initial_state
run_agent_loop_lem no_cost charge exhausted api_key tool_names has_schema user max_iterations w =
    start-EndedOk no_cost charge exhausted user w max_iterations
      (check_arguments api_key tool_names has_schema) (initial_state no_cost charge exhausted user)
      (run_turns no_cost charge exhausted w max_iterations 0
        (initial_state no_cost charge exhausted user))
      (tt, omega arith)
      (run_turns-EndedOk no_cost charge exhausted user w max_iterations 0 max_iterations
        (initial_state no_cost charge exhausted user)
        (record {
          conversation = (refl, tt);
          verbatim = refl;
          cost = refl;
          requests = tt;
          count = refl;
        })
        (omega arith))
