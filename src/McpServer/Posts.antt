-- ===== src/McpServer/Posts.antt =====
-- src/llamaste/mcp_server.cpp: `handle_post` behind `mcp_auth`, and which requests are answered.

use llamaste.McpServer.{McpServer, McpEnv, touch_session, mcp_auth}
use llamaste.McpServer.Rpc.{
  RpcRequest, Response, rpc_error, Dispatched, invalid_request, dispatch_rpc,
}
use llamaste.Prelude.{
  ◌+◌, Bool, Option, none, some, List, [], ◌∷◌, ◌++◌, Bytes, codes, is_empty, ℤ, negsuc,
  if◌then◌else◌,
}
use llamaste.Tools.{ToolRegistry, Reply}

abbrev parse_error : ℤ
parse_error = negsuc 32699

-- The body of a POST. An element of a batch that is no object is `none`.
pub data Body : Type 0 where
  empty : Body
  discarded : Body
  batch_of : List (Option RpcRequest) → Body
  one : RpcRequest → Body
  other : Body

-- What the client gets. `server_error` is an exception that leaves the handler.
pub data Content : Type 0 where
  unauthorized : Content
  server_error : Content
  accepted : Content
  single : Response → Content
  batch : List Response → Content

-- The content and the values of the headers Mcp-Session-Id, of which each call of `set_header` adds
-- one.
abbrev pub Posted : Type 0
Posted = McpServer × (Content × List Bytes)

abbrev pub header_of : Option Bytes → List Bytes
header_of none = []
header_of (some id) = if is_empty id then [] else id ∷ []

abbrev touch_header : McpEnv → Option Bytes → McpServer → McpServer
touch_header env none s = s
touch_header env (some id) s = touch_session env.now id s

abbrev pub BatchRun : Type 0
BatchRun = McpServer × (Option (List Response) × List Bytes)

abbrev pub push : Response → Option (List Response) → Option (List Response)
push resp none = none
push resp (some rest) = some (resp ∷ rest)

abbrev pub batch_more : Response → Option Bytes → BatchRun → BatchRun
batch_more resp sid (s, (rest, ids)) = (s, (push resp rest, header_of sid ++ ids))

-- One object of a batch; `rest` goes on with the others.
abbrev pub batch_step : Option Bytes → Dispatched → McpServer → (McpServer → BatchRun) → BatchRun
batch_step none d s rest = rest s
batch_step (some id) (s1, (none, sid)) s rest = (s1, (none, []))
batch_step (some id) (s1, (some resp, sid)) s rest = batch_more resp sid (rest s1)

abbrev pub batch_posted : BatchRun → Posted
batch_posted (s, (none, ids)) = (s, (server_error, ids))
batch_posted (s, (some rs, ids)) = (s, (batch rs, ids))

abbrev pub one_posted : Option Bytes → Dispatched → McpServer → Posted
one_posted none d s = (s, (accepted, []))
one_posted (some id) (s1, (none, sid)) s = (s1, (server_error, []))
one_posted (some id) (s1, (some resp, sid)) s = (s1, (single resp, header_of sid))

-- A session is touched once the body is known to be JSON.
abbrev pub touch_for : McpEnv → Body → Option Bytes → McpServer → McpServer
touch_for env empty sid s = s
touch_for env discarded sid s = s
touch_for env (batch_of els) sid s = touch_header env sid s
touch_for env (one r) sid s = touch_header env sid s
touch_for env other sid s = touch_header env sid s

module _ (has_error : Bytes → Bool) (text : Reply → Bytes) (tools : ToolRegistry)
    (env : McpEnv) where
  -- The loop over a batch: the responses, none after an exception.
  unfoldable pub run_batch : List (Option RpcRequest) → McpServer → BatchRun
  run_batch [] s = (s, (some [], []))
  run_batch (none ∷ els) s = run_batch els s
  run_batch (some r ∷ els) s =
      batch_step r.id (dispatch_rpc has_error tools text env r s) s (run_batch els)

  abbrev pub post_body : Body → McpServer → Posted
  post_body empty s =
      (s, (single (rpc_error (codes "null") invalid_request (codes "Empty request body")), []))
  post_body discarded s =
      (s, (single (rpc_error (codes "null") parse_error (codes "JSON parse error")), []))
  post_body (batch_of els) s = batch_posted (run_batch els s)
  post_body (one r) s = one_posted r.id (dispatch_rpc has_error tools text env r s) s
  post_body other s = (
    s,
    (single (rpc_error (codes "null") invalid_request (codes "Expected JSON object or array")), []),
  )

  unfoldable pub handle_post : Option Bytes → Body → McpServer → Posted
  handle_post sid body s =
      post_body body (touch_for env body sid (record s { request_count = s.request_count + 1 }))

  -- The route POST /mcp.
  unfoldable pub post_mcp : Option Bytes → Bool → Option Bytes → Body → McpServer → Posted
  post_mcp authorization cookie_ok sid body s =
      if mcp_auth authorization cookie_ok s then handle_post sid body s else (s, (unauthorized, []))
