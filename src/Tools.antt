-- ===== src/Tools.antt =====
-- src/llamaste/tools.h and tools.cpp: the registry of tools. A handler is a function from the
-- arguments' text to what it does: return a text, or throw. An answer of the registry's own is
-- given by the fields of its JSON object.
pub mod Dispatch
mod Tests
use llamaste.Prelude.{
  ℕ, Bool, true, false, not, ◌&&◌, Option, none, some, ◌++◌, Bytes, codes, Assoc, lookup, insert,
  if◌then◌else◌, length,
}

pub data Handled : Type 0 where
  returns : Bytes → Handled
  throws : Bytes → Handled
  throws_unknown : Handled

pub record ToolDef : Type 0 where
  pub name : Bytes
  pub description : Bytes
  pub parameters : Bytes
  pub handler : Bytes → Handled
  pub requires_confirmation : Bool

abbrev pub ToolRegistry : Type 0
ToolRegistry = Assoc ToolDef

-- The handler's text, or an object with the entry `error` and perhaps `confirm_required`.
pub data Reply : Type 0 where
  result : Bytes → Reply
  error : Bytes → Reply
  confirm_required : Bytes → Reply

unfoldable pub register_tool : ToolDef → ToolRegistry → ToolRegistry
register_tool tool tools = insert tool.name tool tools

unfoldable pub count : ToolRegistry → ℕ
count tools = length tools

abbrev pub run_handler : Handled → Reply
run_handler (returns text) = result text
run_handler (throws what) = error (codes "tool execution failed: " ++ what)
run_handler throws_unknown = error (codes "tool execution failed: unknown error")

abbrev pub run_tool : Bytes → Bytes → Bool → Option ToolDef → Reply
run_tool name args confirmed none = error (codes "unknown tool: " ++ name)
run_tool name args confirmed (some tool) =
    if not confirmed && tool.requires_confirmation
    then confirm_required (codes "confirmation required for tool: " ++ name)
    else run_handler (tool.handler args)

unfoldable pub dispatch : Bytes → Bytes → Bool → ToolRegistry → Reply
dispatch name args confirmed tools = run_tool name args confirmed (lookup name tools)

abbrev asks : Option ToolDef → Bool
asks none = false
asks (some tool) = tool.requires_confirmation

unfoldable pub needs_confirmation : Bytes → ToolRegistry → Bool
needs_confirmation name tools = asks (lookup name tools)
