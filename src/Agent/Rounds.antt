-- ===== src/Agent/Rounds.antt =====
-- src/llamaste/agent.cpp: what a turn of the agent adds to the conversation.
use mathlib.Core.List.{append_assoc, append-nil}
use llamaste.Agent.{
  ToolCall, Message, ConversationState, is_tool, calls_tools, add_assistant_message,
  add_assistant_tool_calls, add_tool_result,
}
use llamaste.Agent.Truncation.{Answers, open_calls, IsPaired}
use llamaste.Agent.Turn.{
  Answer, replies, inference_throws, inference_throws_unknown, throws_uncaught, shorten,
  final_content, dispatch_calls, turn_rounds, agent_turn,
}
use llamaste.Prelude.{
  ℕ, zero, suc, ◌+◌, ◌≤◌, ◌≡◌, refl, ap, sym, ◌∙◌, ◌⊎◌, inl, inr, false, List, [], ◌∷◌, ◌++◌, Bytes,
  codes, bytes_eq, ℤ, pos_part, ltb, length, length-append, length-take, take, All, All-append,
  arith, Bool-cases, Option-cases, Option,
}
use llamaste.Tools.{ToolRegistry, Reply, dispatch}

-- What a tool put into the conversation is short.
abbrev pub IsShort : Message → Type 0
IsShort m = (is_tool m ≡ false) ⊎ (length m.content ≤ 4014)

-- Messages that may follow any conversation.
abbrev pub IsSound : List Message → Type 0
IsSound ms = ((before : List ToolCall) → IsPaired before ms) × All IsShort ms

IsPaired-append :
    (before : List ToolCall) (ms ns : List Message)
    → IsPaired before ms
    → ((b : List ToolCall) → IsPaired b ns)
    → IsPaired before (ms ++ ns)
IsPaired-append before [] ns p q = q before
IsPaired-append before (m ∷ ms) ns p q = (p.0, IsPaired-append (open_calls before m) ms ns p.1 q)

length-shorten : (text : Bytes) → length (shorten text) ≤ 4014
unfolding shorten
length-shorten text = elim (Bool-cases (ltb 4000 (length text))) [
  | inl e ↦ rw e (
      omega (arith, length-append (take 4000 text) (codes "...(truncated)"), length-take 4000 text))
  | inr e ↦ rw e (ground arith)
]

-- The new messages behind a conversation.
abbrev pub Adds : (List Message → Type 0) → ConversationState → ConversationState → Type 0
Adds P conv conv' = (new : List Message) × ((conv'.messages ≡ conv.messages ++ new) × P new)

-- The result of one call.
abbrev tool_message : Bytes → ToolCall → Message
tool_message text tc = record {
  role = codes "tool";
  content = shorten text;
  tool_call_id = tc.id;
  name = tc.name;
  tool_calls = [];
}

dispatch_calls-Adds :
    (dump : Reply → Option Bytes) (tools : ToolRegistry) (calls asked : List ToolCall)
    (conv : ConversationState)
    → ((m : Message) → Answers m calls → Answers m asked)
    → Adds
        (λ new. IsPaired asked new × All IsShort new)
        conv
        (dispatch_calls dump tools calls conv).0
unfolding dispatch_calls add_tool_result is_tool bytes_eq
dispatch_calls-Adds dump tools [] asked conv f = ([], (sym (append-nil conv.messages), (tt, tt)))
dispatch_calls-Adds dump tools (tc ∷ tcs) asked conv f =
    elim (Option-cases (dump (dispatch tc.name tc.arguments false tools))) [
      | inl d ↦ rw (d, dispatch_calls) ([], (sym (append-nil conv.messages), (tt, tt)))
      | inr (text, d) ↦
          let msg : Message = tool_message text tc in
          let (new, (e, (p, s))) =
            dispatch_calls-Adds dump tools tcs asked
              (add_tool_result tc.id tc.name (shorten text) conv) (λ m h. f m (inr h)) in
          rw (d, dispatch_calls)
            (
              msg ∷ new,
              (
                e ∙ append_assoc conv.messages (msg ∷ []) new,
                ((inr (f msg (inl (refl, refl))), p), (inr (length-shorten text), s)),
              ),
            )
    ]

say-Adds :
    (content : Bytes) (conv : ConversationState)
    → Adds IsSound conv (add_assistant_message content conv)
unfolding add_assistant_message is_tool bytes_eq
say-Adds content conv = (_, (refl, ((λ b. (inl refl, tt)), (inl refl, tt))))

Adds-Adds : (a b c : ConversationState) → Adds IsSound a b → Adds IsSound b c → Adds IsSound a c
Adds-Adds a b c (new, (e, (p, s))) (more, (f, (q, r))) = (
  new ++ more,
  (
    f ∙ (ap (λ (ms : List Message). ms ++ more) e ∙ append_assoc a.messages new more),
    ((λ x. IsPaired-append x new more (p x) q), All-append IsShort new more s r),
  ),
)

round-Adds :
    (dump : Reply → Option Bytes) (tools : ToolRegistry) (tc : ToolCall) (tcs : List ToolCall)
    (conv : ConversationState)
    → Adds IsSound conv
        (dispatch_calls dump tools (tc ∷ tcs) (add_assistant_tool_calls (tc ∷ tcs) conv)).0
unfolding add_assistant_tool_calls is_tool calls_tools bytes_eq
round-Adds dump tools tc tcs conv =
    let asked : ConversationState = add_assistant_tool_calls (tc ∷ tcs) conv in
    let msg : Message = record {
      role = codes "assistant";
      content = [];
      tool_call_id = [];
      name = [];
      tool_calls = tc ∷ tcs;
    } in
    let (new, (e, (p, s))) =
      dispatch_calls-Adds dump tools (tc ∷ tcs) (tc ∷ tcs) asked (λ m h. h) in
    (
      msg ∷ new,
      (e ∙ append_assoc conv.messages (msg ∷ []) new, ((λ b. (inl refl, p)), (inl refl, s))),
    )

module _ (infer : ℕ → ConversationState → Answer) (dump : Reply → Option Bytes)
    (tools : ToolRegistry) where
  -- A round, given what the rounds behind it do.
  answered-Adds :
      (left round : ℕ) (conv : ConversationState) (a : Answer)
      → infer round conv ≡ a
      → ((c : ConversationState)
          → Adds IsSound c (turn_rounds infer dump tools left (round + 1) c).0)
      → Adds IsSound conv (turn_rounds infer dump tools (suc left) round conv).0
  unfolding turn_rounds
  answered-Adds left round conv (inference_throws what) e rest =
      rw (e, turn_rounds) (say-Adds (codes "[Inference error: " ++ (what ++ codes "]")) conv)
  answered-Adds left round conv inference_throws_unknown e rest =
      rw (e, turn_rounds) (say-Adds (codes "[Inference error: unknown]") conv)
  answered-Adds left round conv throws_uncaught e rest =
      rw (e, turn_rounds) ([], (sym (append-nil conv.messages), ((λ b. tt), tt)))
  answered-Adds left round conv (replies [] content) e rest =
      rw (e, turn_rounds) (say-Adds (final_content content) conv)
  answered-Adds left round conv (replies (tc ∷ tcs) content) e rest =
      let called =
        dispatch_calls dump tools (tc ∷ tcs) (add_assistant_tool_calls (tc ∷ tcs) conv) in
      let done = round-Adds dump tools tc tcs conv in
      elim (Bool-cases called.1) [
        | inl d ↦
            rw (e, turn_rounds, d)
              (Adds-Adds conv called.0 (turn_rounds infer dump tools left (round + 1) called.0).0
                done (rest called.0))
        | inr d ↦ rw (e, turn_rounds, d) done
      ]

  turn_rounds-Adds :
      (left round : ℕ) (conv : ConversationState)
      → Adds IsSound conv (turn_rounds infer dump tools left round conv).0
  unfolding turn_rounds
  turn_rounds-Adds zero round conv = ([], (sym (append-nil conv.messages), ((λ b. tt), tt)))
  turn_rounds-Adds (suc left) round conv =
      answered-Adds left round conv (infer round conv) refl (turn_rounds-Adds left (round + 1))

  -- Whatever the model answers and the tools return, and if an exception ends it, a turn only adds
  -- messages to the conversation. Each tool's result among them has at most 4014 bytes, and if every
  -- result of the conversation had the id and the tool's name of one of the calls that it stands
  -- behind, every one does afterwards.
  pub agent_turn-IsPaired :
      (max_rounds : ℤ) (conv : ConversationState)
      → IsPaired [] conv.messages
      → let conv' = (agent_turn infer dump tools max_rounds conv).0 in
        IsPaired [] conv'.messages × Adds (All IsShort) conv conv'
  unfolding agent_turn
  agent_turn-IsPaired max_rounds conv p =
      let (new, (e, (q, s))) = turn_rounds-Adds (pos_part max_rounds) 0 conv in
      (rw e (IsPaired-append [] conv.messages new p q), (new, (e, s)))
