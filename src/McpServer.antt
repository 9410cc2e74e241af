-- ===== src/McpServer.antt =====
-- src/llamaste/mcp_server.h and mcp_server.cpp: the server's state, its API key and its sessions.
-- Times are nanoseconds of the steady clock; the random bytes come from a stream.
pub mod Rpc
pub mod Posts
pub mod Answers
pub mod Calls
mod Tests
use llamaste.Prelude.{
  ℕ, ◌+◌, ◌-◌, ◌/◌, Bool, true, false, not, ◌&&◌, ◌||◌, Option, none, some, List, [], ◌∷◌, ◌++◌,
  Bytes, codes, is_empty, bytes_eq, strip_prefix, Assoc, lookup, insert, ltb, leb, ◌==◌,
  if◌then◌else◌, length,
}
use llamaste.Text.{words}

pub record McpSession : Type 0 where
  pub initialized : Bool
  pub last_access : ℕ
  pub client_name : Bytes
  pub client_version : Bytes

-- `key_file` is what api_key_file_ has; `drawn` counts the random texts that were taken.
pub record McpServer : Type 0 where
  pub request_count : ℕ
  pub api_key : Bytes
  pub key_file : Option Bytes
  pub sessions : Assoc McpSession
  pub drawn : ℕ

-- The time, the random texts in hexadecimal (empty if there is no entropy), and whether the key's
-- file can be written.
pub record McpEnv : Type 0 where
  pub now : ℕ
  pub random : ℕ → Bytes
  pub key_writable : Bool

abbrev is_hex : ℕ → Bool
is_hex c = (leb b'0' c && leb c b'9') || (leb b'a' c && leb c b'f')

unfoldable pub all_hex : Bytes → Bool
all_hex [] = true
all_hex (c ∷ cs) = is_hex c && all_hex cs

abbrev first_word : List Bytes → Bytes
first_word [] = []
first_word (word ∷ rest) = word

abbrev stored_key : Option Bytes → Option Bytes
stored_key none = none
stored_key (some text) =
    let key : Bytes = first_word (words [] text) in
    if length key == 64 && all_hex key then some key else none

unfoldable pub regenerate_api_key : McpEnv → McpServer → McpServer
regenerate_api_key env s =
    let key : Bytes = env.random s.drawn in
    record s {
      api_key = key;
      key_file = if env.key_writable then some (key ++ b'\n' ∷ []) else s.key_file;
      drawn = s.drawn + 1;
    }

abbrev load_or_create : McpEnv → Option Bytes → McpServer → McpServer
load_or_create env (some key) s = record s { api_key = key }
load_or_create env none s = regenerate_api_key env s

unfoldable pub load_or_create_api_key : McpEnv → McpServer → McpServer
load_or_create_api_key env s =
    if not (is_empty s.api_key) then s else load_or_create env (stored_key s.key_file) s

unfoldable pub expire : ℕ → Assoc McpSession → Assoc McpSession
expire now [] = []
expire now ((id, sess) ∷ rest) =
    let kept = expire now rest in
    if ltb 30 ((now - sess.last_access) / 60000000000) then kept else (id, sess) ∷ kept

unfoldable pub expire_old_sessions : ℕ → McpServer → McpServer
expire_old_sessions now s = record s { sessions = expire now s.sessions }

abbrev touched : ℕ → Bytes → Option McpSession → McpServer → McpServer
touched now id none s = s
touched now id (some sess) s = record s {
  sessions = insert id (record sess { last_access = now }) s.sessions;
}

unfoldable pub touch_session : ℕ → Bytes → McpServer → McpServer
touch_session now id s = if is_empty id then s else touched now id (lookup id s.sessions) s

-- The client's name and version; `none` is the exception of an entry of another type.
abbrev pub create_session : McpEnv → Option (Bytes × Bytes) → McpServer → McpServer × Option Bytes
create_session env none s = (record (expire_old_sessions env.now s) { drawn = s.drawn + 1 }, none)
create_session env (some (name, version)) s =
    let s1 : McpServer = expire_old_sessions env.now s in
    let id : Bytes = env.random s1.drawn in
    let sess : McpSession = record {
      initialized = true;
      last_access = env.now;
      client_name = name;
      client_version = version;
    } in
    (record s1 { sessions = insert id sess s1.sessions; drawn = s1.drawn + 1 }, some id)

abbrev bearer : Option Bytes → Bytes → Bool
bearer none key = false
bearer (some token) key = not (is_empty token) && bytes_eq token key

-- The wrapper `mcp_auth`: the Authorization header, and what the check of the cookie says.
unfoldable pub mcp_auth : Option Bytes → Bool → McpServer → Bool
mcp_auth none cookie_ok s = cookie_ok
mcp_auth (some header) cookie_ok s =
    bearer (strip_prefix (codes "Bearer ") header) s.api_key || cookie_ok
