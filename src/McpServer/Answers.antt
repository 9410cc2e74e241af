-- ===== src/McpServer/Answers.antt =====
-- src/llamaste/mcp_server.cpp: which requests of a POST are answered.
use llamaste.Json.{Entry, value}
use llamaste.McpServer.{McpServer, McpEnv, mcp_auth}
use llamaste.McpServer.Rpc.{
  Params, RpcRequest, Answered, answers, invalid_argument, fails, Response, rpc_result, rpc_error,
  Dispatched, answer, id_of, handle_initialize, response_of, other_method, run_method, named_method,
  dispatch_rpc,
}
use llamaste.Prelude.{
  ◌≡◌, ◌⊎◌, refl, inl, inr, ap, ◌∙◌, sym, Bool, true, false, Option, none, some, List, [], ◌∷◌,
  Bytes, codes, is_empty, bytes_eq, Bool-cases,
}
use llamaste.Tools.{ToolRegistry, Reply}
use llamaste.McpServer.Posts.{
  Body, empty, discarded, batch_of, one, other, Content, unauthorized, server_error, accepted,
  single, batch, BatchRun, push, batch_step, batch_posted, one_posted, run_batch, post_body,
  handle_post, post_mcp,
}

abbrev pub response_id : Response → Bytes
response_id (rpc_result id r) = id
response_id (rpc_error id code what) = id

abbrev pub response_ids : List Response → List Bytes
response_ids [] = []
response_ids (r ∷ rs) = response_id r ∷ response_ids rs

abbrev wanted : Option Bytes → List Bytes → List Bytes
wanted none ids = ids
wanted (some id) ids = id ∷ ids

-- The ids of the objects of a batch that have one.
abbrev pub requested_ids : List (Option RpcRequest) → List Bytes
requested_ids [] = []
requested_ids (none ∷ els) = requested_ids els
requested_ids (some r ∷ els) = wanted r.id (requested_ids els)

-- The method of a request is there and no string.
abbrev pub HasBadMethod : List (Option RpcRequest) → Type 0
HasBadMethod [] = ⊥
HasBadMethod (none ∷ els) = HasBadMethod els
HasBadMethod (some r ∷ els) = (value r.method [] ≡ none) ⊎ HasBadMethod els

abbrev pub requests : Body → List (Option RpcRequest)
requests (batch_of els) = els
requests (one r) = some r ∷ []
requests empty = []
requests discarded = []
requests other = []

-- The id that a single response has.
abbrev pub asked : Body → List Bytes
asked (one r) = requested_ids (some r ∷ [])
asked (batch_of els) = codes "null" ∷ []
asked empty = codes "null" ∷ []
asked discarded = codes "null" ∷ []
asked other = codes "null" ∷ []

abbrev IsFor : RpcRequest → Option Response → Type 0
IsFor r none = value r.method [] ≡ none
IsFor r (some resp) = response_id resp ≡ id_of r.id

answer_id : (id : Bytes) (a : Answered) → response_id (answer id a) ≡ id
answer_id id (answers r) = refl
answer_id id (invalid_argument what) = refl
answer_id id fails = refl

response_of_id :
    (id method : Bytes) (o : Option Answered) → response_id (response_of id method o) ≡ id
response_of_id id method none = refl
response_of_id id method (some a) = answer_id id a

-- A response with the id is there.
abbrev IsWith : Bytes → Option Response → Type 0
IsWith id none = ⊥
IsWith id (some resp) = response_id resp ≡ id

IsFor-IsWith : (r : RpcRequest) (o : Option Response) → IsWith (id_of r.id) o → IsFor r o
IsFor-IsWith r none h = absurd h
IsFor-IsWith r (some resp) h = h

-- The responses of a batch have the ids that are asked for; without them a method was no string.
abbrev IsBatch : List (Option RpcRequest) → Option (List Response) → Type 0
IsBatch els none = HasBadMethod els
IsBatch els (some rs) = response_ids rs ≡ requested_ids els

skipped :
    (r : RpcRequest) (els : List (Option RpcRequest)) (o : Option (List Response))
    → r.id ≡ none
    → IsBatch els o
    → IsBatch (some r ∷ els) o
skipped r els none e h = inr h
skipped r els (some rs) e h = h ∙ ap (λ (i : Option Bytes). wanted i (requested_ids els)) (sym e)

pushed :
    (r : RpcRequest) (els : List (Option RpcRequest)) (id : Bytes) (resp : Response)
    (o : Option (List Response))
    → r.id ≡ some id
    → response_id resp ≡ id_of r.id
    → IsBatch els o
    → IsBatch (some r ∷ els) (push resp o)
pushed r els id resp none e i h = inr h
pushed r els id resp (some rs) e i h =
    rw (i, h)
      (ap (λ (x : Option Bytes). id_of x ∷ requested_ids els) e
        ∙ ap (λ (x : Option Bytes). wanted x (requested_ids els)) (sym e))

batch_step-IsBatch :
    (r : RpcRequest) (els : List (Option RpcRequest)) (id : Option Bytes) (d : Dispatched)
    (s : McpServer) (rest : McpServer → BatchRun)
    → r.id ≡ id
    → IsFor r d.1.0
    → ((s1 : McpServer) → IsBatch els (rest s1).1.0)
    → IsBatch (some r ∷ els) (batch_step id d s rest).1.0
batch_step-IsBatch r els none d s rest e i h = skipped r els (rest s).1.0 e (h s)
batch_step-IsBatch r els (some id) (s1, (none, sid)) s rest e i h = inl i
batch_step-IsBatch r els (some id) (s1, (some resp, sid)) s rest e i h =
    pushed r els id resp (rest s1).1.0 e i (h s1)

-- What a client is told of its POST.
abbrev pub IsAnswered : Body → Content → Type 0
IsAnswered body unauthorized = ⊥
IsAnswered body server_error = HasBadMethod (requests body)
IsAnswered body accepted = (r : RpcRequest) × ((body ≡ one r) × (r.id ≡ none))
IsAnswered body (single resp) = response_ids (resp ∷ []) ≡ asked body
IsAnswered body (batch rs) =
    (els : List (Option RpcRequest)) × ((body ≡ batch_of els)
      × (response_ids rs ≡ requested_ids els))

module _ (has_error : Bytes → Bool) (text : Reply → Bytes) (tools : ToolRegistry)
    (env : McpEnv) where
  handle_initialize-IsWith :
      (id : Bytes) (e : Entry (Bytes × Bytes)) (s : McpServer)
      → IsWith id (handle_initialize env id e s).1.0
  handle_initialize-IsWith id Entry.absent s = refl
  handle_initialize-IsWith id Entry.ill_typed s = refl
  handle_initialize-IsWith id (Entry.present client) s = refl

  run_method-IsWith :
      (id method : Bytes) (p : Params) (s : McpServer)
      → IsWith id (run_method has_error tools text env id method p s).1.0
  unfolding run_method
  run_method-IsWith id method p s = elim (Bool-cases (bytes_eq method (codes "initialize"))) [
    | inl e ↦ rw e (handle_initialize-IsWith id p.client_info s)
    | inr e ↦ rw e (response_of_id id method (other_method has_error tools text method p))
  ]

  named_method-IsFor :
      (r : RpcRequest) (s : McpServer) (o : Option Bytes)
      → value r.method [] ≡ o
      → IsFor r (named_method has_error tools text env (id_of r.id) o r.params s).1.0
  named_method-IsFor r s none e = e
  named_method-IsFor r s (some method) e = elim (Bool-cases (is_empty method)) [
    | inl f ↦ rw f refl
    | inr f ↦ rw f (IsFor-IsWith r _ (run_method-IsWith (id_of r.id) method r.params s))
  ]

  dispatch_rpc-IsFor :
      (r : RpcRequest) (s : McpServer) → IsFor r (dispatch_rpc has_error tools text env r s).1.0
  unfolding dispatch_rpc
  dispatch_rpc-IsFor r s = elim (Bool-cases r.is_jsonrpc_2) [
    | inr e ↦ simp e refl
    | inl e ↦ simp e (named_method-IsFor r s (value r.method []) refl)
  ]

  run_batch-IsBatch :
      (els : List (Option RpcRequest)) (s : McpServer)
      → IsBatch els (run_batch has_error text tools env els s).1.0
  unfolding run_batch
  run_batch-IsBatch [] s = refl
  run_batch-IsBatch (none ∷ els) s = over els _ (run_batch-IsBatch els s)
    where
      over :
          (els : List (Option RpcRequest)) (o : Option (List Response))
          → IsBatch els o
          → IsBatch (none ∷ els) o
      over els none h = h
      over els (some rs) h = h
  run_batch-IsBatch (some r ∷ els) s =
      batch_step-IsBatch r els r.id (dispatch_rpc has_error tools text env r s) s
        (run_batch has_error text tools env els) refl (dispatch_rpc-IsFor r s)
        (run_batch-IsBatch els)

  posted_batch :
      (els : List (Option RpcRequest)) (run : BatchRun)
      → IsBatch els run.1.0
      → IsAnswered (batch_of els) (batch_posted run).1.0
  posted_batch els (s, (none, sid)) h = h
  posted_batch els (s, (some rs, sid)) h = (els, (refl, h))

  posted_one :
      (r : RpcRequest) (id : Option Bytes) (d : Dispatched) (s : McpServer)
      → r.id ≡ id
      → IsFor r d.1.0
      → IsAnswered (one r) (one_posted id d s).1.0
  posted_one r none d s e h = (r, (refl, e))
  posted_one r (some id) (s1, (none, sid)) s e h = inl h
  posted_one r (some id) (s1, (some resp, sid)) s e h = pushed r [] id resp (some []) e h refl

  post_body-IsAnswered :
      (body : Body) (s : McpServer)
      → IsAnswered body (post_body has_error text tools env body s).1.0
  post_body-IsAnswered empty s = refl
  post_body-IsAnswered discarded s = refl
  post_body-IsAnswered (batch_of els) s =
      posted_batch els (run_batch has_error text tools env els s) (run_batch-IsBatch els s)
  post_body-IsAnswered (one r) s =
      posted_one r r.id (dispatch_rpc has_error tools text env r s) s refl (dispatch_rpc-IsFor r s)
  post_body-IsAnswered other s = refl

  -- A POST without the key and without a session of the web interface changes nothing and gets 401.
  -- Every other one is answered: a batch with one response for each object that has an id, in
  -- order and with that id; one object likewise, or without an id with 202; anything else with an
  -- error. It ends in an exception only if a method is there that is no string.
  pub post_mcp-IsAnswered :
      (authorization : Option Bytes) (cookie_ok : Bool) (sid : Option Bytes) (body : Body)
      (s : McpServer)
      → let (s', (content, header)) =
          post_mcp has_error text tools env authorization cookie_ok sid body s in
        ((mcp_auth authorization cookie_ok s ≡ false) × ((content ≡ unauthorized) × (s' ≡ s)))
        ⊎ ((mcp_auth authorization cookie_ok s ≡ true) × IsAnswered body content)
  unfolding post_mcp handle_post
  post_mcp-IsAnswered authorization cookie_ok sid body s =
      elim (Bool-cases (mcp_auth authorization cookie_ok s)) [
        | inr e ↦ rw e (inl (refl, (refl, refl)))
        | inl e ↦ rw e (inr (refl, post_body-IsAnswered body _))
      ]
