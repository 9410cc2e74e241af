-- ===== src/McpServer/Tests.antt =====
-- The MCP server with one tool that asks for a confirmation.
use llamaste.Json.{absent, present}
use llamaste.McpServer.{McpServer, McpEnv, mcp_auth}
use llamaste.McpServer.Answers.{IsAnswered, post_mcp-IsAnswered}
use llamaste.McpServer.Calls.{muted, post_mcp-muted}
use llamaste.McpServer.Posts.{batch_of, one, unauthorized, single, post_mcp, handle_post}
use llamaste.McpServer.Rpc.{
  RpcRequest, rpc_result, called, dispatch_rpc, run_method, other_method, handle_tools_call,
}
use llamaste.Prelude.{
  ◌≡◌, ◌⊎◌, refl, Bool, true, false, none, some, [], ◌∷◌, Bytes, codes, bytes_eq, lookup, decimal,
}
use llamaste.Tools.{returns, ToolRegistry, Reply, confirm_required, dispatch}

abbrev one_tool : ToolRegistry
one_tool =
    (
      codes "system.reboot",
      record {
        name = codes "system.reboot";
        description = [];
        parameters = [];
        handler = λ args. returns (codes "{}");
        requires_confirmation = true;
      },
    )
    ∷ []

abbrev mcp_env : McpEnv
mcp_env = record { now = 5000; random = decimal; key_writable = true }

abbrev server : McpServer
server = record {
  request_count = 0;
  api_key = codes "k";
  key_file = none;
  sessions = [];
  drawn = 0;
}

abbrev reboot : RpcRequest
reboot = record {
  is_jsonrpc_2 = true;
  id = some (codes "7");
  method = present (codes "tools/call");
  params = record {
    client_info = absent;
    name = some (codes "system.reboot");
    arguments = codes "{\"confirm\":true}";
    uri = none;
  };
}

abbrev no_text : Reply → Bytes
no_text r = []

abbrev no_errors : Bytes → Bool
no_errors text = false

-- The parameter `confirm`, which the server's instructions name, does not help.
reboot_refused :
    (handle_post no_errors no_text one_tool mcp_env none (one reboot) server).1.0
    ≡ single (
        rpc_result
          (codes "7")
          (called (confirm_required (codes "confirmation required for tool: system.reboot")) true))
unfolding handle_post dispatch_rpc run_method bytes_eq other_method handle_tools_call dispatch
    lookup
reboot_refused = refl

post_mcp-IsAnswered_example :
    let body = batch_of (some reboot ∷ none ∷ []) in
    let (s', (content, header)) =
      post_mcp no_errors no_text one_tool mcp_env
        (some (codes "Bearer k"))
        false
        none
        body
        server in
    ((mcp_auth (some (codes "Bearer k")) false server ≡ false)
      × ((content ≡ unauthorized) × (s' ≡ server)))
    ⊎ ((mcp_auth (some (codes "Bearer k")) false server ≡ true) × IsAnswered body content)
post_mcp-IsAnswered_example =
    post_mcp-IsAnswered no_errors no_text one_tool mcp_env (some (codes "Bearer k")) false none
      (batch_of (some reboot ∷ none ∷ [])) server

post_mcp-muted_example :
    post_mcp no_errors no_text
      (muted (λ args. returns []) one_tool)
      mcp_env
      none
      true
      none
      (one reboot)
      server
    ≡ post_mcp no_errors no_text one_tool mcp_env none true none (one reboot) server
post_mcp-muted_example =
    post_mcp-muted (λ args. returns []) one_tool no_errors no_text mcp_env none true none
      (one reboot) server
