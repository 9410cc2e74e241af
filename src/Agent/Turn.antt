-- ===== src/Agent/Turn.antt =====
-- src/llamaste/agent.cpp: `agent_turn`, the rounds of inference and tool calls. `infer` stands for
-- the request, the call of `inference_fn` and the two parsers of its response: what the model
-- answers in a round, given the conversation. `dump` writes a reply of the registry as text, or
-- throws, which is `none`. An exception that leaves `agent_turn` gives no answer, `none`, and the
-- conversation as far as it was changed.
use llamaste.Agent.{
  ToolCall, ConversationState, add_assistant_message, add_assistant_tool_calls, add_tool_result,
}
use llamaste.Agent.Residue.{strip_tool_call_residue}
use llamaste.Prelude.{
  ℕ, zero, suc, ◌+◌, Bool, true, false, Option, none, some, List, [], ◌∷◌, ◌++◌, Bytes, codes,
  is_empty, ℤ, pos_part, ltb, if◌then◌else◌, length, take,
}
use llamaste.Tools.{ToolRegistry, Reply, dispatch}

-- An exception of `inference_fn` is caught; one of `request.dump()`, on text that is no UTF-8, or of
-- a parser on a response of an unexpected form is not.
pub data Answer : Type 0 where
  replies : List ToolCall → Bytes → Answer
  inference_throws : Bytes → Answer
  inference_throws_unknown : Answer
  throws_uncaught : Answer

-- A tool's result, cut behind 4000 bytes.
unfoldable pub shorten : Bytes → Bytes
shorten text = if ltb 4000 (length text) then take 4000 text ++ codes "...(truncated)" else text

-- The final answer of a response without tool calls.
unfoldable pub final_content : Bytes → Bytes
final_content content =
    let clean : Bytes = strip_tool_call_residue content in
    if is_empty clean then codes "[No response from inference engine]" else clean

module _ (dump : Reply → Option Bytes) (tools : ToolRegistry) where
  -- The calls in order; whether all were done, without an exception.
  unfoldable pub dispatch_calls : List ToolCall → ConversationState → ConversationState × Bool
  dispatch_calls [] conv = (conv, true)
  dispatch_calls (tc ∷ tcs) conv = elim (dump (dispatch tc.name tc.arguments false tools)) [
    | none ↦ (conv, false)
    | some text ↦ dispatch_calls tcs (add_tool_result tc.id tc.name (shorten text) conv)
  ]

abbrev say : Bytes → ConversationState → ConversationState × Option Bytes
say content conv = (add_assistant_message content conv, some content)

module _ (infer : ℕ → ConversationState → Answer) (dump : Reply → Option Bytes)
    (tools : ToolRegistry) where
  -- The rounds that are left, and the number of the present one.
  unfoldable pub turn_rounds : ℕ → ℕ → ConversationState → ConversationState × Option Bytes
  turn_rounds zero round conv = (
    conv,
    some (codes "[Agent reached maximum tool call rounds without producing a final response]"),
  )
  turn_rounds (suc left) round conv = elim (infer round conv) [
    | inference_throws what ↦ say (codes "[Inference error: " ++ (what ++ codes "]")) conv
    | inference_throws_unknown ↦ say (codes "[Inference error: unknown]") conv
    | throws_uncaught ↦ (conv, none)
    | replies [] content ↦ say (final_content content) conv
    | replies (tc ∷ tcs) content ↦
        let called =
          dispatch_calls dump tools (tc ∷ tcs) (add_assistant_tool_calls (tc ∷ tcs) conv) in
        let next = turn_rounds left (round + 1) called.0 in
        if called.1 then next else (called.0, none)
  ]

  unfoldable pub agent_turn : ℤ → ConversationState → ConversationState × Option Bytes
  agent_turn max_rounds conv = turn_rounds (pos_part max_rounds) 0 conv
