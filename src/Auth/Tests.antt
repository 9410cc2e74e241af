-- ===== src/Auth/Tests.antt =====
-- Runs of the authentication, and its theorems at concrete devices.
use llamaste.Auth.{AuthManager, Session, missing, stored, initial, seconds}
use llamaste.Auth.ApiKey.{verify_api_key, verify_api_key_iff, verify_api_key_padded}
use llamaste.Auth.Check.{
  is_authenticated, is_authenticated-denied, authenticate_all, authenticate_all-create_session,
}
use llamaste.Auth.Headers.{
  extract_session_cookie, extract_bearer_token, extract_bearer_token-roundtrip,
}
use llamaste.Auth.Logins.{
  record_failed_login, is_rate_limited, fail_all, burst-is_rate_limited,
  record_failed_login-is_rate_limited,
}
use llamaste.Auth.Sessions.{
  generate_token, to_hex, create_session, is_valid_session, invalidate_session, is_live,
  IsWellFormed, generate_token-injective, is_valid_session-invalidate_session,
}
use llamaste.Prelude.{
  ℕ, ◌*◌, ◌≡◌, ◌≢◌, ◌↔◌, refl, Bool, true, false, Option, none, some, [], ◌∷◌, ◌++◌, Bytes, codes,
  bytes_eq, bytes_eq_iff, bytes_ne, lookup, insert, replicate, length, pos, sub_ℕ, ltb_ℤ, arith,
  cut, strip_prefix, if◌then◌else◌,
}

abbrev device : AuthManager
device = record (initial missing stored) {
  password_hash = codes "$2b$";
  api_key = codes "llm-0123456789abcdef0123";
  setup_complete = true;
}

abbrev entropy : Bytes
entropy = replicate 16 7

abbrev token : Bytes
token = codes "07070707070707070707070707070707"

-- Seconds since the clock's origin.
abbrev at : ℕ → ℕ
at s = s * 1000000000

token_text : generate_token 16 (some entropy) ≡ token
unfolding generate_token to_hex
token_text = refl

logged_in : AuthManager
unfolding create_session
logged_in = (create_session (some entropy) (at 10) device).0

logged_in-IsWellFormed : IsWellFormed logged_in
unfolding logged_in lookup insert
logged_in-IsWellFormed = record { sessions = (refl, tt); login_attempts = tt }

generate_token-injective_example :
    (length (generate_token 16 (some entropy)) ≡ 32)
    × ((generate_token 16 (some entropy) ≡ generate_token 16 (some (replicate 16 8)))
        ↔ (entropy ≡ replicate 16 8))
generate_token-injective_example =
    generate_token-injective 16 entropy (replicate 16 8) (omega arith) refl refl (omega arith)
      (omega arith)

is_valid_session-invalidate_session_example :
    is_valid_session (at 11) token (invalidate_session token logged_in)
    ≡ (if bytes_eq token token then false else is_valid_session (at 11) token logged_in)
is_valid_session-invalidate_session_example =
    is_valid_session-invalidate_session (at 11) token token logged_in logged_in-IsWellFormed

logged_in_valid : is_valid_session (at 11) token logged_in ≡ true
unfolding logged_in is_valid_session lookup insert generate_token to_hex bytes_eq
logged_in_valid = refl

abbrev cookie : Option Bytes
cookie = some (codes "llamaste_sid=07070707070707070707070707070707")

cookie_token : extract_session_cookie cookie ≡ (create_session (some entropy) (at 10) device).1
unfolding extract_session_cookie create_session generate_token to_hex cut strip_prefix
cookie_token = refl

-- Three requests, six days apart.
authenticate_all-create_session_example :
    (authenticate_all cookie
      (at 518410 ∷ at 1036810 ∷ at 1555210 ∷ [])
      (create_session (some entropy) (at 10) device).0).1
    ≡ true
authenticate_all-create_session_example =
    authenticate_all-create_session entropy cookie (at 10)
      (at 518410 ∷ at 1036810 ∷ at 1555210 ∷ []) device refl refl cookie_token
      (refl, (refl, (refl, tt)))

abbrev wrong_bearer : Option Bytes
wrong_bearer = some (codes "Bearer llm-ffff")

wrong_token : extract_bearer_token wrong_bearer ≡ codes "llm-ffff"
unfolding extract_bearer_token bytes_eq
wrong_token = refl

no_session :
    (s : Session)
    → lookup (extract_session_cookie none) device.sessions ≡ some s
    → is_live (at 20) device.session_timeout_seconds s ≡ false
unfolding lookup
no_session s e = ground arith

is_authenticated-denied_example :
    is_authenticated none wrong_bearer (at 20) device ≡ (device, false)
unfolding extract_bearer_token bytes_eq
is_authenticated-denied_example =
    is_authenticated-denied none wrong_bearer (at 20) device refl no_session (omega arith)
      (omega arith) (omega arith) (omega arith) (λ e. cc e)

verify_api_key_iff_example :
    (verify_api_key (codes "llm-ffff") device ≡ true) ↔ (codes "llm-ffff" ≡ device.api_key)
verify_api_key_iff_example =
    verify_api_key_iff (codes "llm-ffff") device (omega arith) (omega arith) (omega arith)
      (omega arith) (λ e. cc e)

verify_api_key_padded_example :
    verify_api_key (device.api_key ++ (replicate 8 0 ++ codes "anything")) device ≡ true
verify_api_key_padded_example = verify_api_key_padded device 8 (codes "anything") (λ e. cc e) refl

extract_bearer_token-roundtrip_example :
    (extract_bearer_token (some (codes "Bearer " ++ codes "llm-1")) ≡ codes "llm-1")
    × (extract_bearer_token (some (codes "Basic abc")) ≡ [])
unfolding bytes_eq
extract_bearer_token-roundtrip_example =
    extract_bearer_token-roundtrip (codes "llm-1") (codes "Basic abc")
      (bytes_ne (codes "llm-1") [] refl) (bytes_ne (codes "Basic a") (codes "Bearer ") refl)

abbrev ip : Bytes
ip = codes "10.0.0.9"

abbrev other_ip : Bytes
other_ip = codes "10.0.0.8"

burst-is_rate_limited_example :
    is_rate_limited ip (at 40) (fail_all ip (at 10 ∷ at 12 ∷ at 15 ∷ at 20 ∷ at 31 ∷ []) device)
    ≡ ltb_ℤ (sub_ℕ (at 40) (at 31)) (seconds (pos 30))
burst-is_rate_limited_example =
    burst-is_rate_limited ip (at 10) (at 12 ∷ at 15 ∷ at 20 ∷ at 31 ∷ []) (at 40) device
      (omega arith) (omega arith)

record_failed_login-is_rate_limited_example :
    let (m, limited) = record_failed_login ip (at 10) device in
    (is_rate_limited ip (at 10) m ≡ limited)
    × (is_rate_limited ip (at 40) m ≡ false)
    × (is_rate_limited other_ip (at 40) m ≡ is_rate_limited other_ip (at 40) device)
unfolding bytes_eq
record_failed_login-is_rate_limited_example =
    record_failed_login-is_rate_limited ip other_ip (at 10) (at 40) device
      (bytes_ne other_ip ip refl) (omega arith)

-- A digest that shows its password, in place of bcrypt.
abbrev plain_hash : Bytes → ℕ → Bytes
plain_hash p cost = b'$' ∷ p

abbrev plain_check : Bytes → Bytes → Bool
plain_check p [] = false
plain_check p (_ ∷ q) = bytes_eq p q

plain_check_hash : (p : Bytes) → plain_hash p 12 ≢ [] → plain_check p (plain_hash p 12) ≡ true
plain_check_hash p h = (bytes_eq_iff p p).1 refl
