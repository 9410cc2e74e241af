-- ===== src/Config.antt =====
-- src/llamaste/tools_config.cpp: the tools config.get, config.set, config.list and config.reset. The
-- directory /data/llamaste/config is the list of its files with their contents, in the order in which
-- `readdir` gives them; the JSON of arguments and replies is the vendored library's.
mod Effects
mod Listing
mod Tests
use llamaste.Prelude.{
  ℕ, zero, suc, ◌+◌, Bool, true, false, not, ◌&&◌, ◌||◌, Option, none, some, List, [], ◌∷◌, ◌++◌,
  Bytes, codes, is_empty, bytes_eq, length, take, leb, ltb, ◌==◌, if◌then◌else◌, Assoc, lookup,
  insert, erase,
}
use llamaste.Json.{Entry, value}
use llamaste.Text.{first_of, getlines}

-- `opens_write` is the opening of a file for writing, `writes` how many bytes of a value reach the
-- opened file, `unlinks` the removal of one, by name.
pub record ConfigSystem : Type 0 where
  pub makes_dir : Bool
  pub opens_write : Bytes → Bool
  pub writes : Bytes → Bytes → ℕ
  pub unlinks : Bytes → Bool

pub record ConfigDir : Type 0 where
  pub is_dir : Bool
  pub files : Assoc Bytes

-- What `args` holds of `value`: nothing, or its text, which for other than a string is its JSON.
pub record ConfigArgs : Type 0 where
  pub key : Entry Bytes
  pub new_value : Option Bytes

pub record ConfigDefault : Type 0 where
  pub key : Bytes
  pub default_value : Bytes
  pub description : Bytes

pub data ConfigSource : Type 0 where
  user : ConfigSource
  default : ConfigSource
  not_found : ConfigSource

-- One entry of the list; a key without a default has no default value and no description.
pub record ConfigEntry : Type 0 where
  pub key : Bytes
  pub current : Bytes
  pub source : ConfigSource
  pub of_default : Option ConfigDefault

pub data ConfigReply : Type 0 where
  config_error : Bytes → ConfigReply
  threw : ConfigReply
  config_value : Bytes → Option Bytes → ConfigSource → Option Bytes → ConfigReply
  config_saved : Bytes → Bytes → ConfigReply
  config_reset_key : Bytes → Option Bytes → ConfigReply
  config_reset_all : ℕ → ConfigReply
  config_entries : List ConfigEntry → ConfigReply

abbrev is_alnum : ℕ → Bool
is_alnum c =
    (leb b'0' c && leb c b'9') || ((leb b'A' c && leb c b'Z') || (leb b'a' c && leb c b'z'))

abbrev pub is_key_byte : ℕ → Bool
is_key_byte c = is_alnum c || (c == b'.' || (c == b'-' || c == b'_'))

unfoldable pub key_bytes : Bytes → Bool
key_bytes [] = true
key_bytes (c ∷ cs) = is_key_byte c && key_bytes cs

unfoldable pub validate_key : Bytes → Bool
validate_key key = if is_empty key || ltb 128 (length key) then false else key_bytes key

abbrev entry : Bytes → Bytes → Bytes → ConfigDefault
entry key default_value description = record {
  key = key;
  default_value = default_value;
  description = description;
}

abbrev pub defaults : List ConfigDefault
defaults =
    entry (codes "system.hostname") (codes "llamaste") (codes "System hostname")
    ∷ entry (codes "system.timezone") (codes "UTC") (codes "System timezone")
    ∷ entry (codes "model.path") [] (codes "Override model path (empty = auto-select by RAM)")
    ∷ entry (codes "model.context_size") (codes "2048") (codes "LLM context window size")
    ∷ entry (codes "model.temperature") (codes "0.7") (codes "LLM sampling temperature")
    ∷ entry (codes "model.max_tokens") (codes "512") (codes "Maximum tokens per response")
    ∷ entry (codes "server.port") (codes "8080") (codes "HTTP server port")
    ∷ entry (codes "server.host") (codes "0.0.0.0") (codes "HTTP server bind address")
    ∷ entry (codes "ui.theme") (codes "dark") (codes "Web UI theme (dark/light)")
    ∷ entry (codes "log.level") (codes "info") (codes "Logging level (debug/info/warn/error)")
    ∷ entry (codes "privacy.retention_days") (codes "90") (codes "Conversation retention in days")
    ∷ []

unfoldable pub find_default : Bytes → List ConfigDefault → Option ConfigDefault
find_default key [] = none
find_default key (d ∷ ds) =
    let rest = find_default key ds in if bytes_eq key d.key then some d else rest

-- The names of the directory itself and of the one above, which open for reading but give no line.
abbrev pub is_dots : Bytes → Bool
is_dots name = bytes_eq name (codes ".") || bytes_eq name (codes "..")

abbrev pub line_of : Option Bytes → Option Bytes
line_of none = none
line_of (some content) = some (first_of (getlines [] content))

-- `std::ifstream f(path)` and, where it is open, `std::getline`.
unfoldable pub read_value : Bytes → ConfigDir → Option Bytes
read_value key d =
    if is_dots key then (if d.is_dir then some [] else none) else line_of (lookup key d.files)

abbrev default_reply : Bytes → Option ConfigDefault → ConfigReply
default_reply key none = config_value key none not_found none
default_reply key (some d) = config_value key (some d.default_value) default (some d.description)

abbrev pub value_reply : Bytes → Option Bytes → ConfigReply
value_reply key none = default_reply key (find_default key defaults)
value_reply key (some v) = config_value key (some v) user none

abbrev pub invalid_key : Bytes
invalid_key = codes "invalid key: only alphanumeric, dots, dashes, underscores allowed"

abbrev pub get_key : ConfigDir → Option Bytes → ConfigReply
get_key d none = threw
get_key d (some key) =
    if is_empty key
    then config_error (codes "key is required")
    else if not (validate_key key)
    then config_error invalid_key
    else value_reply key (read_value key d)

-- `none` are arguments that are no JSON.
unfoldable pub handle_config_get : Option ConfigArgs → ConfigDir → ConfigReply
handle_config_get none d = config_error (codes "invalid JSON arguments")
handle_config_get (some args) d = get_key d (value args.key [])

-- That less than the value is written, as on a full disk, is not seen.
unfoldable pub save_value : ConfigSystem → Bytes → Bytes → ConfigDir → ConfigDir × ConfigReply
save_value s key v d =
    let made : ConfigDir = record d { is_dir = true } in
    if not (d.is_dir || s.makes_dir)
    then (d, config_error (codes "cannot create config directory"))
    else if is_dots key || not (s.opens_write key)
    then (made, config_error (codes "cannot write config: " ++ key))
    else (record made { files = insert key (take (s.writes key v) v) d.files }, config_saved key v)

abbrev set_value : ConfigSystem → Bytes → Option Bytes → ConfigDir → ConfigDir × ConfigReply
set_value s key none d = (d, config_error (codes "value is required"))
set_value s key (some v) d =
    if ltb 4096 (length v)
    then (d, config_error (codes "value too long (max 4096 bytes)"))
    else save_value s key v d

abbrev set_key : ConfigSystem → Option Bytes → Option Bytes → ConfigDir → ConfigDir × ConfigReply
set_key s none v d = (d, threw)
set_key s (some key) v d =
    if is_empty key
    then (d, config_error (codes "key is required"))
    else if not (validate_key key)
    then (d, config_error invalid_key)
    else set_value s key v d

-- The text of an error of the system, behind the key, is left out.
unfoldable pub handle_config_set :
    ConfigSystem → Option ConfigArgs → ConfigDir → ConfigDir × ConfigReply
handle_config_set s none d = (d, config_error (codes "invalid JSON arguments"))
handle_config_set s (some args) d = set_key s (value args.key []) args.new_value d

abbrev pub default_entry : ConfigDefault → Option Bytes → ConfigEntry
default_entry c none = record {
  key = c.key;
  current = c.default_value;
  source = default;
  of_default = some c;
}
default_entry c (some v) = record { key = c.key; current = v; source = user; of_default = some c }

unfoldable pub default_entries : List ConfigDefault → ConfigDir → List ConfigEntry
default_entries [] d = []
default_entries (c ∷ cs) d = default_entry c (read_value c.key d) ∷ default_entries cs d

abbrev pub user_entry : Bytes → Option Bytes → List ConfigEntry → List ConfigEntry
user_entry name none rest = rest
user_entry name (some v) rest =
    record { key = name; current = v; source = user; of_default = none } ∷ rest

abbrev pub is_default : Option ConfigDefault → Bool
is_default none = false
is_default (some _) = true

unfoldable pub user_entries : Assoc Bytes → ConfigDir → List ConfigEntry
user_entries [] d = []
user_entries ((name, content) ∷ names) d =
    if is_dots name || (not (validate_key name) || is_default (find_default name defaults))
    then user_entries names d
    else user_entry name (read_value name d) (user_entries names d)

abbrev pub config_list_entries : ConfigDir → List ConfigEntry
config_list_entries d =
    default_entries defaults d ++ (if d.is_dir then user_entries d.files d else [])

unfoldable pub handle_config_list : ConfigDir → ConfigReply
handle_config_list d = config_entries (config_list_entries d)

abbrev default_of : Option ConfigDefault → Option Bytes
default_of none = none
default_of (some d) = some d.default_value

abbrev unlink_key : ConfigSystem → Bytes → ConfigDir → ConfigDir
unlink_key s key d =
    if is_dots key || not (s.unlinks key) then d else record d { files = erase key d.files }

-- The files that cannot be removed, and how many could.
unfoldable pub unlink_all : ConfigSystem → Assoc Bytes → Assoc Bytes × ℕ
unlink_all s [] = ([], 0)
unlink_all s ((name, content) ∷ names) =
    let rest : Assoc Bytes × ℕ = unlink_all s names in
    if s.unlinks name then (rest.0, suc rest.1) else ((name, content) ∷ rest.0, rest.1)

abbrev reset_all : ConfigSystem → ConfigDir → ConfigDir × ConfigReply
reset_all s d =
    if d.is_dir
    then (record d { files = (unlink_all s d.files).0 }, config_reset_all (unlink_all s d.files).1)
    else (d, config_reset_all 0)

abbrev reset_key : ConfigSystem → Option Bytes → ConfigDir → ConfigDir × ConfigReply
reset_key s none d = (d, threw)
reset_key s (some key) d =
    if is_empty key
    then reset_all s d
    else if not (validate_key key)
    then (d, config_error (codes "invalid key"))
    else (unlink_key s key d, config_reset_key key (default_of (find_default key defaults)))

unfoldable pub handle_config_reset :
    ConfigSystem → Option ConfigArgs → ConfigDir → ConfigDir × ConfigReply
handle_config_reset s none d = reset_all s d
handle_config_reset s (some args) d = reset_key s (value args.key []) d
