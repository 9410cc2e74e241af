-- ===== src/Tools/Tests.antt =====
-- The registry of tools at concrete tools.
use llamaste.Prelude.{
  ◌≡◌, refl, true, false, [], ◌∷◌, ◌++◌, codes, bytes_eq, HasUniqueKeys, lookup, if◌then◌else◌,
}
use llamaste.Tools.{returns, throws, ToolDef, register_tool, dispatch, run_handler}
use llamaste.Tools.Dispatch.{dispatch-register_tool}

abbrev run_shell : ToolDef
run_shell = record {
  name = codes "run_shell";
  description = [];
  parameters = [];
  handler = λ args. returns (codes "ran " ++ args);
  requires_confirmation = true;
}

abbrev uptime : ToolDef
uptime = record {
  name = codes "uptime";
  description = [];
  parameters = [];
  handler = λ args. throws (codes "no clock");
  requires_confirmation = false;
}

one_tool : HasUniqueKeys ((codes "uptime", uptime) ∷ [])
unfolding lookup
one_tool = (refl, tt)

dispatch-register_tool_example :
    (dispatch (codes "uptime") [] true (register_tool run_shell ((codes "uptime", uptime) ∷ [])) ≡ (
      if bytes_eq (codes "run_shell") (codes "uptime")
      then run_handler (run_shell.handler [])
      else dispatch (codes "uptime") [] true ((codes "uptime", uptime) ∷ [])))
    × HasUniqueKeys (register_tool run_shell ((codes "uptime", uptime) ∷ []))
dispatch-register_tool_example =
    dispatch-register_tool run_shell (codes "uptime") [] ((codes "uptime", uptime) ∷ []) one_tool
