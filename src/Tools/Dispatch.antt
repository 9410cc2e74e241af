-- ===== src/Tools/Dispatch.antt =====
-- src/llamaste/tools.cpp: what a call of a registered tool does.
use llamaste.Prelude.{
  ◌≡◌, true, false, ◌++◌, Bytes, codes, bytes_eq, bytes_eq_iff, lookup-insert, HasUniqueKeys,
  insert-HasUniqueKeys, if◌then◌else◌, arith,
}
use llamaste.Tools.{
  Handled, ToolDef, ToolRegistry, confirm_required, register_tool, dispatch, needs_confirmation,
  run_handler,
}

-- After a registration the tool's name calls the new handler, and every other name does what it
-- did; a name stands once.
pub dispatch-register_tool :
    (tool : ToolDef) (name args : Bytes) (tools : ToolRegistry)
    → HasUniqueKeys tools
    → (dispatch name args true (register_tool tool tools) ≡ (
        if bytes_eq tool.name name
        then run_handler (tool.handler args)
        else dispatch name args true tools))
      × HasUniqueKeys (register_tool tool tools)
unfolding dispatch register_tool
dispatch-register_tool tool name args tools u = (
  ground (arith, lookup-insert tool.name name tool tools),
  insert-HasUniqueKeys tool.name tool tools u,
)

-- Without the user's confirmation a tool that asks for it does not run: the reply asks for the
-- confirmation, whatever the handlers of the registered tools would do, since it is the same for a
-- registry in which the tool has any other handler.
pub dispatch-unconfirmed :
    (tool : ToolDef) (handler : Bytes → Handled) (args : Bytes) (tools : ToolRegistry)
    → tool.requires_confirmation ≡ true
    → let other = record tool { handler = handler } in
      (dispatch tool.name args false (register_tool tool tools)
        ≡ confirm_required (codes "confirmation required for tool: " ++ tool.name))
      × (dispatch tool.name args false (register_tool tool tools)
          ≡ dispatch tool.name args false (register_tool other tools))
      × (needs_confirmation tool.name (register_tool tool tools) ≡ true)
unfolding dispatch register_tool needs_confirmation
dispatch-unconfirmed tool handler args tools asks = ground (
  arith,
  asks,
  lookup-insert tool.name tool.name tool tools,
  lookup-insert tool.name tool.name (record tool { handler = handler }) tools,
  bytes_eq_iff tool.name tool.name,
)
