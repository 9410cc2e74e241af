-- ===== src/Agent/Tests.antt =====
-- The conversation and the text filter at concrete inputs.
use llamaste.Agent.{ToolCall, Message, ConversationState, truncate, is_tool, calls_tools}
use llamaste.Text.{trim_left, trim_right}
use llamaste.Agent.Residue.{
  closing, strip_blocks, erase_closers, strip_tool_call_residue, strip_tool_call_residue-closing,
}
use llamaste.Agent.Rounds.{Adds, IsShort, agent_turn-IsPaired}
use llamaste.Agent.Turn.{Answer, replies, agent_turn}
use llamaste.Tools.{Reply, result, error, confirm_required}
use llamaste.Agent.Truncation.{IsPaired, IsTruncated, truncate-IsPaired}
use llamaste.Prelude.{
  ℕ, zero, suc, All, ◌≡◌, refl, inl, inr, Option, none, some, List, [], ◌∷◌, Bytes, bytes_eq,
  strip_prefix, codes, cut, pos_part, pos,
}

abbrev says : Bytes → List ToolCall → Message
says who calls = record {
  role = who;
  content = codes "text";
  tool_call_id = [];
  name = [];
  tool_calls = calls;
}

abbrev a_call : ToolCall
a_call = record { id = codes "call_1"; name = codes "uptime"; arguments = codes "{}" }

abbrev answer_of : ToolCall → Message
answer_of tc = record {
  role = codes "tool";
  content = codes "text";
  tool_call_id = tc.id;
  name = tc.name;
  tool_calls = [];
}

abbrev talk : ConversationState
talk = record {
  system_prompt = [];
  conversation_id = codes "c1";
  messages =
      says (codes "user") []
      ∷ says (codes "assistant") (a_call ∷ [])
      ∷ answer_of a_call
      ∷ says (codes "assistant") []
      ∷ [];
}

talk-IsPaired : IsPaired [] talk.messages
unfolding is_tool calls_tools bytes_eq
talk-IsPaired = (inl refl, (inl refl, (inr (inl (refl, refl)), (inl refl, tt))))

-- The limit falls on the tool's result, which goes as well.
truncate-IsPaired_example :
    let c' = truncate (pos 2) talk in
    IsPaired [] c'.messages
    × IsTruncated (pos_part (pos 2)) talk.messages c'.messages
    × (c'.system_prompt ≡ talk.system_prompt)
truncate-IsPaired_example = truncate-IsPaired (pos 2) talk talk-IsPaired

strip_tool_call_residue-closing_example :
    cut closing (strip_tool_call_residue (codes "ok</tool_</tool_call>call> ")) ≡ none
strip_tool_call_residue-closing_example =
    strip_tool_call_residue-closing (codes "ok</tool_</tool_call>call> ")

-- The filter puts an opening tag together out of the text around a block.
opening_left :
    strip_tool_call_residue (codes "<tool_<tool_call>x</tool_call>call>") ≡ codes "<tool_call>"
unfolding strip_tool_call_residue strip_blocks erase_closers trim_left trim_right cut strip_prefix
opening_left = refl

-- A model that asks for a tool once, and then answers.
abbrev model : ℕ → ConversationState → Answer
model zero conv = replies (a_call ∷ []) []
model (suc n) conv = replies [] (codes "up")

abbrev text_of : Reply → Option Bytes
text_of (result text) = some text
text_of (error what) = some what
text_of (confirm_required what) = some what

agent_turn-IsPaired_example :
    let conv' = (agent_turn model text_of [] (pos 5) talk).0 in
    IsPaired [] conv'.messages × Adds (All IsShort) talk conv'
agent_turn-IsPaired_example = agent_turn-IsPaired model text_of [] (pos 5) talk talk-IsPaired
