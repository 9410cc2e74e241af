-- ===== src/Auth.antt =====
-- src/llamaste/auth.h and auth.cpp: the state of `AuthManager`, its configuration file and its
-- password. Sessions, API keys, headers and failed logins are in the modules below.
--
-- A time is the count of nanoseconds of the steady clock and an argument of each operation that
-- reads it. `disk` is the file device.json; `saving` says how the writing of the temporary file
-- beside it and the renaming go. The mutex makes each operation one step. bcrypt and the entropy source are
-- arguments.
mod Tests
pub mod ApiKey
pub mod Password
pub mod Headers
pub mod Check
pub mod Logins
pub mod Sessions
use llamaste.Json.{Entry, absent, ill_typed, present, value}
use llamaste.Prelude.{
  ℕ, ◌*◌, ◌+◌, ◌-◌, ◌^◌, Bool, true, false, ◌||◌, Option, none, some, List, [], ◌∷◌, ◌++◌, Bytes,
  codes, is_empty, Assoc, ℤ, pos, negsuc, ltb, ltb_ℤ, if◌then◌else◌, length,
}

pub record Session : Type 0 where
  pub created : ℕ
  pub last_seen : ℕ

pub record LoginAttempt : Type 0 where
  pub failures : ℕ
  pub last_failure : ℕ

-- The five entries of device.json.
pub record DeviceDoc : Type 0 where
  pub password_hash : Entry Bytes
  pub api_key : Entry Bytes
  pub device_name : Entry Bytes
  pub session_timeout_seconds : Entry ℤ
  pub setup_complete : Entry Bool

-- `corrupt` is a file that is not a JSON object.
pub data DeviceFile : Type 0 where
  missing : DeviceFile
  corrupt : DeviceFile
  document : DeviceDoc → DeviceFile

-- `stored`: the whole text is written and renamed. `cut_short`: a part of it is, as on a full disk;
-- the source renames that too, and no part of an object is JSON. `refused`: the temporary file cannot
-- be opened or cannot be renamed.
pub data Saving : Type 0 where
  stored : Saving
  cut_short : Saving
  refused : Saving

pub record AuthManager : Type 0 where
  pub password_hash : Bytes
  pub api_key : Bytes
  pub device_name : Bytes
  pub session_timeout_seconds : ℤ
  pub setup_complete : Bool
  pub sessions : Assoc Session
  pub login_attempts : Assoc LoginAttempt
  pub disk : DeviceFile
  pub saving : Saving

-- A manager before `load_config`.
abbrev pub initial : DeviceFile → Saving → AuthManager
initial disk saving = record {
  password_hash = [];
  api_key = [];
  device_name = codes "llamaste";
  session_timeout_seconds = pos 604800;
  setup_complete = false;
  sessions = [];
  login_attempts = [];
  disk = disk;
  saving = saving;
}

-- The handler of a document that cannot be read.
start_fresh : AuthManager → AuthManager
start_fresh m = record m { password_hash = []; setup_complete = false }

-- The five assignments in turn: one that throws leaves those before it done.
read_setup : Option Bool → AuthManager → AuthManager
unfolding start_fresh
read_setup none m = start_fresh m
read_setup (some b) m = record m { setup_complete = b }

read_timeout : Option ℤ → Option Bool → AuthManager → AuthManager
unfolding read_setup
read_timeout none b m = start_fresh m
read_timeout (some t) b m = read_setup b (record m { session_timeout_seconds = t })

read_name : Option Bytes → Option ℤ → Option Bool → AuthManager → AuthManager
unfolding read_timeout
read_name none t b m = start_fresh m
read_name (some n) t b m = read_timeout t b (record m { device_name = n })

read_key : Option Bytes → Option Bytes → Option ℤ → Option Bool → AuthManager → AuthManager
unfolding read_name
read_key none n t b m = start_fresh m
read_key (some k) n t b m = read_name n t b (record m { api_key = k })

read_document : DeviceDoc → AuthManager → AuthManager
unfolding read_key
read_document d m = elim (value d.password_hash []) [
  | none ↦ start_fresh m
  | some h ↦
      read_key (value d.api_key []) (value d.device_name (codes "llamaste"))
        (value d.session_timeout_seconds (pos 604800)) (value d.setup_complete false)
        (record m { password_hash = h })
]

load_from : DeviceFile → AuthManager → AuthManager
unfolding read_document
load_from missing m = m
load_from corrupt m = start_fresh m
load_from (document d) m = read_document d m

pub load_config : AuthManager → AuthManager
unfolding load_from
load_config m = load_from m.disk m

-- The file after `saving` goes as it does with the new text.
stored_as : Saving → DeviceFile → DeviceFile → DeviceFile
stored_as stored new old = new
stored_as cut_short new old = corrupt
stored_as refused new old = old

pub save_config : AuthManager → AuthManager
unfolding stored_as
save_config m = record m {
  disk =
      stored_as m.saving
        (document (record {
          password_hash = present m.password_hash;
          api_key = present m.api_key;
          device_name = present m.device_name;
          session_timeout_seconds = present m.session_timeout_seconds;
          setup_complete = present m.setup_complete;
        }))
        m.disk;
}

pub is_setup_complete : AuthManager → Bool
is_setup_complete m = m.setup_complete

-- `set_device_password` behind its first guard, with the digest that bcrypt returned and the key
-- that would be generated.
store_password : Bytes → Bytes → AuthManager → AuthManager × Bool
unfolding save_config
store_password [] key m = (m, false)
store_password (c ∷ digest) key m = (
  save_config (record m {
    password_hash = c ∷ digest;
    setup_complete = true;
    api_key = (if is_empty m.api_key then key else m.api_key);
  }),
  true,
)

pub set_device_password : (Bytes → ℕ → Bytes) → Bytes → Bytes → AuthManager → AuthManager × Bool
unfolding store_password
set_device_password bcrypt_hash key password m =
    if is_empty password || ltb 72 (length password)
    then (m, false)
    else store_password (bcrypt_hash password 12) key m

pub verify_device_password : (Bytes → Bytes → Bool) → Bytes → AuthManager → Bool
verify_device_password bcrypt_check password m =
    if is_empty m.password_hash then false else bcrypt_check password m.password_hash

pub set_session_timeout : ℤ → AuthManager → AuthManager
unfolding save_config
set_session_timeout seconds m =
    let low : ℤ = if ltb_ℤ seconds (pos 60) then pos 60 else seconds in
    let high : ℤ = if ltb_ℤ (pos 31536000) low then pos 31536000 else low in
    save_config (record m { session_timeout_seconds = high })

-- A duration of whole seconds in nanoseconds.
abbrev pub seconds : ℤ → ℤ
seconds (pos n) = pos (n * 1000000000)
seconds (negsuc n) = negsuc (n * 1000000000 + 999999999)
