-- ===== src/McpServer/Calls.antt =====
-- src/llamaste/mcp_server.cpp: which tools a client can run.
use llamaste.Json.{value}
use llamaste.McpServer.{McpServer, McpEnv}
use llamaste.McpServer.Posts.{
  Body, empty, discarded, batch_of, one, other, BatchRun, batch_more, batch_step, batch_posted,
  one_posted, run_batch, post_body, touch_for, handle_post, post_mcp,
}
use llamaste.McpServer.Rpc.{
  Params, RpcRequest, Dispatched, id_of, call_named, handle_tools_call, read_uri, other_method,
  run_method, named_method, dispatch_rpc,
}
use llamaste.Prelude.{
  ◌+◌, ◌≡◌, refl, ap, inl, inr, Bool, false, Option, none, some, List, [], ◌∷◌, Bytes, codes,
  bytes_eq, lookup, if◌then◌else◌, Bool-cases,
}
use llamaste.Tools.{ToolDef, Handled, ToolRegistry, Reply, dispatch, run_tool}

abbrev muted_tool : (Bytes → Handled) → ToolDef → ToolDef
muted_tool f tool = if tool.requires_confirmation then record tool { handler = f } else tool

-- The registry with another handler for each tool that asks for a confirmation.
abbrev pub muted : (Bytes → Handled) → ToolRegistry → ToolRegistry
muted f [] = []
muted f ((name, tool) ∷ tools) = (name, muted_tool f tool) ∷ muted f tools

abbrev muted_entry : (Bytes → Handled) → Option ToolDef → Option ToolDef
muted_entry f none = none
muted_entry f (some tool) = some (muted_tool f tool)

lookup-muted :
    (f : Bytes → Handled) (name : Bytes) (tools : ToolRegistry)
    → lookup name (muted f tools) ≡ muted_entry f (lookup name tools)
unfolding lookup
lookup-muted f name [] = refl
lookup-muted f name ((key, tool) ∷ tools) = elim (Bool-cases (bytes_eq key name)) [
  | inl e ↦ rw e refl
  | inr e ↦ rw e (lookup-muted f name tools)
]

run_tool-muted :
    (f : Bytes → Handled) (name args : Bytes) (o : Option ToolDef)
    → run_tool name args false (muted_entry f o) ≡ run_tool name args false o
run_tool-muted f name args none = refl
run_tool-muted f name args (some tool) = elim (Bool-cases tool.requires_confirmation) [
  | inl e ↦ simp e refl
  | inr e ↦ simp e refl
]

batch_step_same :
    (id : Option Bytes) (d : Dispatched) (s : McpServer) (rest rest' : McpServer → BatchRun)
    → ((s1 : McpServer) → rest s1 ≡ rest' s1)
    → batch_step id d s rest ≡ batch_step id d s rest'
batch_step_same none d s rest rest' h = h s
batch_step_same (some id) (s1, (none, sid)) s rest rest' h = refl
batch_step_same (some id) (s1, (some resp, sid)) s rest rest' h =
    ap (λ (run : BatchRun). batch_more resp sid run) (h s1)

module _ (f : Bytes → Handled) (tools : ToolRegistry) where
  dispatch-muted :
      (name args : Bytes)
      → dispatch name args false (muted f tools) ≡ dispatch name args false tools
  unfolding dispatch
  dispatch-muted name args =
      rw (lookup-muted f name tools) (run_tool-muted f name args (lookup name tools))

  module _ (has_error : Bytes → Bool) (text : Reply → Bytes) where
    handle_tools_call-muted :
        (p : Params)
        → handle_tools_call has_error (muted f tools) p ≡ handle_tools_call has_error tools p
    unfolding handle_tools_call
    handle_tools_call-muted p = go p.name
      where
        go :
            (o : Option Bytes)
            → call_named has_error (muted f tools) p.arguments o
              ≡ call_named has_error tools p.arguments o
        go none = refl
        go (some name) = rw (dispatch-muted name p.arguments) refl

    read_uri-muted :
        (o : Option Bytes)
        → read_uri has_error (muted f tools) text o ≡ read_uri has_error tools text o
    unfolding read_uri
    read_uri-muted none = refl
    read_uri-muted (some uri) = rw (dispatch-muted (codes "system.info") (codes "{}")) refl

    other_method-muted :
        (method : Bytes) (p : Params)
        → other_method has_error (muted f tools) text method p
          ≡ other_method has_error tools text method p
    unfolding other_method
    other_method-muted method p = rw (handle_tools_call-muted p) (rw (read_uri-muted p.uri) refl)

    module _ (env : McpEnv) where
      run_method-muted :
          (id method : Bytes) (p : Params) (s : McpServer)
          → run_method has_error (muted f tools) text env id method p s
            ≡ run_method has_error tools text env id method p s
      unfolding run_method
      run_method-muted id method p s = rw (other_method-muted method p) refl

      dispatch_rpc-muted :
          (r : RpcRequest) (s : McpServer)
          → dispatch_rpc has_error (muted f tools) text env r s
            ≡ dispatch_rpc has_error tools text env r s
      unfolding dispatch_rpc
      dispatch_rpc-muted r s = rw (named (value r.method [])) refl
        where
          named :
              (o : Option Bytes)
              → named_method has_error (muted f tools) text env (id_of r.id) o r.params s
                ≡ named_method has_error tools text env (id_of r.id) o r.params s
          named none = refl
          named (some method) = rw (run_method-muted (id_of r.id) method r.params s) refl

      run_batch-muted :
          (els : List (Option RpcRequest)) (s : McpServer)
          → run_batch has_error text (muted f tools) env els s
            ≡ run_batch has_error text tools env els s
      unfolding run_batch
      run_batch-muted [] s = refl
      run_batch-muted (none ∷ els) s = run_batch-muted els s
      run_batch-muted (some r ∷ els) s = rw (dispatch_rpc-muted r s) (
          batch_step_same r.id (dispatch_rpc has_error tools text env r s) s
            (run_batch has_error text (muted f tools) env els)
            (run_batch has_error text tools env els) (run_batch-muted els))

      post_body-muted :
          (body : Body) (s : McpServer)
          → post_body has_error text (muted f tools) env body s
            ≡ post_body has_error text tools env body s
      post_body-muted empty s = refl
      post_body-muted discarded s = refl
      post_body-muted (batch_of els) s = ap batch_posted (run_batch-muted els s)
      post_body-muted (one r) s =
          ap (λ (d : Dispatched). one_posted r.id d s) (dispatch_rpc-muted r s)
      post_body-muted other s = refl

      -- A POST never runs the handler of a tool that asks for a confirmation, whatever its arguments
      -- are: with another handler in the place of each of these, every POST has the same effect and
      -- the same answer.
      pub post_mcp-muted :
          (authorization : Option Bytes) (cookie_ok : Bool) (sid : Option Bytes) (body : Body)
          (s : McpServer)
          → post_mcp has_error text (muted f tools) env authorization cookie_ok sid body s
            ≡ post_mcp has_error text tools env authorization cookie_ok sid body s
      unfolding post_mcp handle_post
      post_mcp-muted authorization cookie_ok sid body s =
          rw
            (post_body-muted body
              (touch_for env body sid (record s { request_count = s.request_count + 1 })))
            refl
