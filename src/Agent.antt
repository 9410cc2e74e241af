-- ===== src/Agent.antt =====
-- src/llamaste/agent.h and agent.cpp: the conversation of `ConversationState` and its truncation.
-- The text filter and the agent's loop are in the modules below.
pub mod Truncation
pub mod Turn
pub mod Rounds
pub mod Residue
mod Tests
use llamaste.Prelude.{
  ℕ, zero, suc, ◌-◌, Bool, true, false, not, ◌&&◌, List, [], ◌∷◌, ◌++◌, Bytes, codes, bytes_eq, ℤ,
  pos_part, leb, if◌then◌else◌, length, drop,
}

pub record ToolCall : Type 0 where
  pub id : Bytes
  pub name : Bytes
  pub arguments : Bytes

pub record Message : Type 0 where
  pub role : Bytes
  pub content : Bytes
  pub tool_call_id : Bytes
  pub name : Bytes
  pub tool_calls : List ToolCall

pub record ConversationState : Type 0 where
  pub system_prompt : Bytes
  pub conversation_id : Bytes
  pub messages : List Message

abbrev push_message : Message → ConversationState → ConversationState
push_message msg c = record c { messages = c.messages ++ msg ∷ [] }

unfoldable pub add_user_message : Bytes → ConversationState → ConversationState
add_user_message content = push_message (record {
  role = codes "user";
  content = content;
  tool_call_id = [];
  name = [];
  tool_calls = [];
})

unfoldable pub add_assistant_message : Bytes → ConversationState → ConversationState
add_assistant_message content = push_message (record {
  role = codes "assistant";
  content = content;
  tool_call_id = [];
  name = [];
  tool_calls = [];
})

unfoldable pub add_assistant_tool_calls : List ToolCall → ConversationState → ConversationState
add_assistant_tool_calls calls = push_message (record {
  role = codes "assistant";
  content = [];
  tool_call_id = [];
  name = [];
  tool_calls = calls;
})

unfoldable pub add_tool_result : Bytes → Bytes → Bytes → ConversationState → ConversationState
add_tool_result call_id name result = push_message (record {
  role = codes "tool";
  content = result;
  tool_call_id = call_id;
  name = name;
  tool_calls = [];
})

abbrev no_calls : List ToolCall → Bool
no_calls [] = true
no_calls (_ ∷ _) = false

unfoldable pub is_tool : Message → Bool
is_tool msg = bytes_eq msg.role (codes "tool")

unfoldable pub calls_tools : Message → Bool
calls_tools msg = bytes_eq msg.role (codes "assistant") && not (no_calls msg.tool_calls)

-- The inner loop: the results at the front.
unfoldable pub drop_tools : List Message → List Message
drop_tools [] = []
drop_tools (m ∷ ms) = if is_tool m then drop_tools ms else m ∷ ms

-- The outer loop, each round of which erases a message: the fuel is the number of messages.
unfoldable pub drop_orphans : ℕ → List Message → List Message
drop_orphans zero ms = ms
drop_orphans (suc f) [] = []
drop_orphans (suc f) (m ∷ ms) =
    let after_tool = drop_orphans f ms in
    let after_calls = drop_orphans f (drop_tools ms) in
    if is_tool m then after_tool else if calls_tools m then after_calls else m ∷ ms

-- A negative limit counts as 0.
unfoldable pub truncate_messages : ℕ → List Message → List Message
truncate_messages limit ms =
    let recent : List Message = drop (length ms - limit) ms in
    if leb (length ms) limit then ms else drop_orphans (length recent) recent

unfoldable pub truncate : ℤ → ConversationState → ConversationState
truncate max_messages c = record c {
  messages = truncate_messages (pos_part max_messages) c.messages;
}

unfoldable pub message_count : ConversationState → ℕ
message_count c = length c.messages
