-- ===== src/Agents/Tests.antt =====
-- A run of the agent loop in which the model calls a tool and then answers.
use trend_tree.Prelude.{ℕ, zero, suc, ◌+◌, ◌≡◌, refl, List, [], ◌∷◌, none, some, true, leb, lit}
use trend_tree.Agents.Loop.{
  Part, function_call, thought, text, Answer, answered, http_error, plain_output, returned, World,
  State, Ended, finished, thrown, function_calls, trace_parts, last_text, dispatch_calls,
  push_responses, take_calls, read_answer, take_answer, take_reply, send_request, take_turn, finish,
  run_turns, initial_state, unknown_tool_of, check_arguments, run_agent_loop,
}
use trend_tree.Agents.Loop.Requests.{EndedOk, run_agent_loop_lem}

abbrev answer : List Part → Answer
answer ps = record { prompt_tokens = 10; candidate_tokens = 5; parts = ps; finish_reason = none }

abbrev world : World
world = record {
  model = λ turn. elim turn [
    | zero ↦ http_error 500 []
    | suc zero ↦
        answered
          (answer (thought (lit "look") ∷ function_call (lit "find") none (some (lit "sig")) ∷ []))
    | suc (suc n) ↦ answered (answer (text (lit "done") ∷ []))
  ];
  tool = λ turn i. returned (plain_output (lit "42"));
}

abbrev run : Ended ℕ
run =
    run_agent_loop 0 (λ c i o. c + (i + o)) (λ c. leb 100 c) (lit "key") (lit "find" ∷ [])
      (λ n. true) (text (lit "hello") ∷ []) 12 world

abbrev turns_of : Ended ℕ → ℕ
turns_of (finished reason turns s) = turns
turns_of (thrown f s) = 0

abbrev state_of : Ended ℕ → State ℕ
state_of (finished reason turns s) = s
state_of (thrown f s) = s

run_test :
    (turns_of run ≡ 2) × ((state_of run).cost ≡ 30) × ((state_of run).final_text ≡ lit "done")
unfolding run_agent_loop check_arguments unknown_tool_of initial_state run_turns take_turn
    send_request take_reply take_answer read_answer take_calls function_calls trace_parts last_text
    dispatch_calls push_responses finish
run_test = (refl, refl, refl)

run_agent_loop_lem_example :
    EndedOk 0 (λ c i o. c + (i + o)) (λ c. leb 100 c) (text (lit "hello") ∷ []) world 12 run
run_agent_loop_lem_example =
    run_agent_loop_lem 0 (λ c i o. c + (i + o)) (λ c. leb 100 c) (lit "key") (lit "find" ∷ [])
      (λ n. true) (text (lit "hello") ∷ []) 12 world
