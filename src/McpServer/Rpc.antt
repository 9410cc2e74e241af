-- ===== src/McpServer/Rpc.antt =====
-- src/llamaste/mcp_server.cpp: `dispatch_rpc` and the methods. A JSON value that is passed on is its
-- text; the result of a method is given by what it depends on.
use llamaste.Json.{Entry, value}
use llamaste.McpServer.{McpServer, McpEnv, create_session}
use llamaste.Prelude.{
  Bool, true, false, not, Option, none, some, [], ◌++◌, Bytes, codes, is_empty, bytes_eq, ℤ, negsuc,
  if◌then◌else◌,
}
use llamaste.Tools.{ToolRegistry, Reply, result, error, confirm_required, dispatch}

-- What the methods ask of `params`. `client_info` is `absent` if `params` is no object, and
-- `ill_typed` if an entry of the client's is of another type.
pub record Params : Type 0 where
  pub client_info : Entry (Bytes × Bytes)
  pub name : Option Bytes
  pub arguments : Bytes
  pub uri : Option Bytes

pub record RpcRequest : Type 0 where
  pub is_jsonrpc_2 : Bool
  pub id : Option Bytes
  pub method : Entry Bytes
  pub params : Params

pub data RpcResult : Type 0 where
  initialized : RpcResult
  pong : RpcResult
  tools_array : RpcResult
  called : Reply → Bool → RpcResult
  resources_array : RpcResult
  resource : Bytes → RpcResult
  catalog : RpcResult
  no_templates : RpcResult
  no_prompts : RpcResult

-- A method's result, the exception invalid_argument, or another exception, whose text is left out.
pub data Answered : Type 0 where
  answers : RpcResult → Answered
  invalid_argument : Bytes → Answered
  fails : Answered

pub data Response : Type 0 where
  rpc_result : Bytes → RpcResult → Response
  rpc_error : Bytes → ℤ → Bytes → Response

abbrev pub invalid_request : ℤ
invalid_request = negsuc 32599

abbrev pub method_not_found : ℤ
method_not_found = negsuc 32600

abbrev pub invalid_params : ℤ
invalid_params = negsuc 32601

abbrev pub internal_error : ℤ
internal_error = negsuc 32602

-- A response, or none for an exception; and the id of a new session.
abbrev pub Dispatched : Type 0
Dispatched = McpServer × (Option Response × Option Bytes)

abbrev pub id_of : Option Bytes → Bytes
id_of none = codes "null"
id_of (some id) = id

abbrev pub answer : Bytes → Answered → Response
answer id (answers r) = rpc_result id r
answer id (invalid_argument what) = rpc_error id invalid_params what
answer id fails = rpc_error id internal_error (codes "Internal error: ")

abbrev pub response_of : Bytes → Bytes → Option Answered → Response
response_of id method none = rpc_error id method_not_found (codes "Method not found: " ++ method)
response_of id method (some a) = answer id a

abbrev pub opened : Bytes → McpServer × Option Bytes → Dispatched
opened id (s, none) = (s, (some (answer id fails), none))
opened id (s, some session) = (s, (some (rpc_result id initialized), some session))

-- `clientInfo` is looked up before a session is made.
abbrev pub handle_initialize : McpEnv → Bytes → Entry (Bytes × Bytes) → McpServer → Dispatched
handle_initialize env id Entry.absent s = (s, (some (answer id fails), none))
handle_initialize env id Entry.ill_typed s = opened id (create_session env none s)
handle_initialize env id (Entry.present client) s = opened id (create_session env (some client) s)

module _ (has_error : Bytes → Bool) (tools : ToolRegistry) where
  -- The tool's text is a JSON object with an entry `error`.
  abbrev pub is_error : Reply → Bool
  is_error (result text) = has_error text
  is_error (error what) = true
  is_error (confirm_required what) = true

  -- The registry is asked without a confirmation.
  abbrev pub call_named : Bytes → Option Bytes → Answered
  call_named args none = invalid_argument (codes "Missing required parameter: name (string)")
  call_named args (some name) =
      let r : Reply = dispatch name args false tools in answers (called r (is_error r))

  unfoldable pub handle_tools_call : Params → Answered
  handle_tools_call p = call_named p.arguments p.name

  unfoldable pub read_uri : (Reply → Bytes) → Option Bytes → Answered
  read_uri text none = invalid_argument (codes "Missing required parameter: uri (string)")
  read_uri text (some uri) =
      if bytes_eq uri (codes "llamaste://system/status")
      then answers (resource (text (dispatch (codes "system.info") (codes "{}") false tools)))
      else if bytes_eq uri (codes "llamaste://tools/catalog")
      then answers catalog
      else invalid_argument (codes "Unknown resource URI: " ++ uri)

  -- The methods that make no session; `none` is a name of no method. `text` gives the text of a
  -- reply of the registry.
  unfoldable pub other_method : (Reply → Bytes) → Bytes → Params → Option Answered
  other_method text method p =
      if bytes_eq method (codes "ping")
      then some (answers pong)
      else if bytes_eq method (codes "tools/list")
      then some (answers tools_array)
      else if bytes_eq method (codes "tools/call")
      then some (handle_tools_call p)
      else if bytes_eq method (codes "resources/list")
      then some (answers resources_array)
      else if bytes_eq method (codes "resources/read")
      then some (read_uri text p.uri)
      else if bytes_eq method (codes "resources/templates/list")
      then some (answers no_templates)
      else if bytes_eq method (codes "prompts/list")
      then some (answers no_prompts)
      else none

  unfoldable pub run_method :
      (Reply → Bytes) → McpEnv → Bytes → Bytes → Params → McpServer → Dispatched
  run_method text env id method p s =
      if bytes_eq method (codes "initialize")
      then handle_initialize env id p.client_info s
      else (s, (some (response_of id method (other_method text method p)), none))

  abbrev pub named_method :
      (Reply → Bytes) → McpEnv → Bytes → Option Bytes → Params → McpServer → Dispatched
  named_method text env id none p s = (s, (none, none))
  named_method text env id (some method) p s =
      if is_empty method
      then (s, (some (rpc_error id invalid_request (codes "Missing 'method' field")), none))
      else run_method text env id method p s

  unfoldable pub dispatch_rpc : (Reply → Bytes) → McpEnv → RpcRequest → McpServer → Dispatched
  dispatch_rpc text env r s =
      if not r.is_jsonrpc_2
      then (s, (some (rpc_error (id_of r.id) invalid_request (codes "Not JSON-RPC 2.0")), none))
      else named_method text env (id_of r.id) (value r.method []) r.params s
