-- ===== src/Agents/Loop/Conversation.antt =====
-- The contents of a run as a conversation: rounds, and the model's turns in them.
use trend_tree.Prelude.{ℕ, zero, suc, ◌≡◌, refl, ap, List, [], ◌∷◌, ◌++◌, map}
use trend_tree.Agents.Loop.{
  Part, Call, Content, user_turn, model_turn, response_turn, ModelReply, answered, http_error,
  fetch_threw, body_threw, ToolReply, returned, tool_threw, World, function_calls, respond,
  Dispatch, dispatched, dispatch_threw, prepend_call, dispatch_calls, ToolCall,
}

-- Each turn of the model makes calls, and the turn after it answers them by name, in their order.
abbrev pub IsRounds : List Content → Type 0
IsRounds [] = Unit
IsRounds (model_turn ps ∷ response_turn rs ∷ rest) =
    (map (λ r. r.name) rs ≡ map (λ c. c.name) (function_calls ps)) × IsRounds rest
IsRounds (model_turn ps ∷ []) = ⊥
IsRounds (model_turn ps ∷ user_turn us ∷ rest) = ⊥
IsRounds (model_turn ps ∷ model_turn us ∷ rest) = ⊥
IsRounds (user_turn ps ∷ rest) = ⊥
IsRounds (response_turn rs ∷ rest) = ⊥

abbrev pub IsConversation : List Part → List Content → Type 0
IsConversation user (user_turn ps ∷ rest) = (ps ≡ user) × IsRounds rest
IsConversation user [] = ⊥
IsConversation user (model_turn ps ∷ rest) = ⊥
IsConversation user (response_turn rs ∷ rest) = ⊥

IsRounds-append : (xs ys : List Content) → IsRounds xs → IsRounds ys → IsRounds (xs ++ ys)
IsRounds-append [] ys h k = k
IsRounds-append (model_turn ps ∷ response_turn rs ∷ rest) ys h k =
    (h.0, IsRounds-append rest ys h.1 k)
IsRounds-append (model_turn ps ∷ []) ys h k = elim h [ ]
IsRounds-append (model_turn ps ∷ user_turn us ∷ rest) ys h k = elim h [ ]
IsRounds-append (model_turn ps ∷ model_turn us ∷ rest) ys h k = elim h [ ]
IsRounds-append (user_turn ps ∷ rest) ys h k = elim h [ ]
IsRounds-append (response_turn rs ∷ rest) ys h k = elim h [ ]

pub IsConversation-append :
    (user : List Part) (xs ys : List Content)
    → IsConversation user xs
    → IsRounds ys
    → IsConversation user (xs ++ ys)
IsConversation-append user (user_turn ps ∷ rest) ys h k = (h.0, IsRounds-append rest ys h.1 k)
IsConversation-append user [] ys h k = elim h [ ]
IsConversation-append user (model_turn ps ∷ rest) ys h k = elim h [ ]
IsConversation-append user (response_turn rs ∷ rest) ys h k = elim h [ ]

-- The turns of the model, verbatim.
abbrev pub model_turns : List Content → List (List Part)
model_turns [] = []
model_turns (user_turn ps ∷ rest) = model_turns rest
model_turns (model_turn ps ∷ rest) = ps ∷ model_turns rest
model_turns (response_turn rs ∷ rest) = model_turns rest

pub model_turns-append :
    (xs ys : List Content) → model_turns (xs ++ ys) ≡ model_turns xs ++ model_turns ys
model_turns-append [] ys = refl
model_turns-append (user_turn ps ∷ rest) ys = model_turns-append rest ys
model_turns-append (model_turn ps ∷ rest) ys = ap (ps ∷◌) (model_turns-append rest ys)
model_turns-append (response_turn rs ∷ rest) ys = model_turns-append rest ys

abbrev parts_of : ModelReply → List Part
parts_of (answered a) = a.parts
parts_of (http_error status t) = []
parts_of (fetch_threw m) = []
parts_of (body_threw m) = []

-- What the model replied in the first turns.
abbrev pub replied : World → ℕ → List (List Part)
replied w zero = []
replied w (suc n) = replied w n ++ parts_of (w.model (suc n)) ∷ []

-- Every call of a turn is dispatched, unless one throws.
abbrev pub Answers : List Call → Dispatch → Type 0
Answers cs (dispatch_threw m) = Unit
Answers cs (dispatched ts) = map (λ t. t.call) ts ≡ cs

pub dispatch_calls-Answers :
    (tool : ℕ → ToolReply) (turn i : ℕ) (cs : List Call)
    → Answers cs (dispatch_calls tool turn i cs)
unfolding dispatch_calls
dispatch_calls-Answers tool turn i [] = refl
dispatch_calls-Answers tool turn i (c ∷ cs) =
    both (tool i) (dispatch_calls tool turn (suc i) cs)
      (dispatch_calls-Answers tool turn (suc i) cs)
  where
    both :
        (r : ToolReply) (d : Dispatch) → Answers cs d → Answers (c ∷ cs) (prepend_call turn c r d)
    both (tool_threw m) d h = tt
    both (returned o) (dispatch_threw m) h = tt
    both (returned o) (dispatched ts) h = ap (c ∷◌) h

pub response_names :
    (ts : List ToolCall)
    → map (λ r. r.name) (map respond ts) ≡ map (λ c. c.name) (map (λ t. t.call) ts)
response_names [] = refl
response_names (t ∷ ts) = ap (t.call.name ∷◌) (response_names ts)
