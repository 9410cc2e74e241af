-- ===== src/Auth/Check.antt =====
-- src/llamaste/auth.cpp: `is_authenticated`, the check in front of the routes.
use llamaste.Auth.{AuthManager, Session, seconds}
use llamaste.Auth.ApiKey.{verify_api_key, verify_api_key-ne, IsNonzero}
use llamaste.Auth.Headers.{extract_session_cookie, extract_bearer_token}
use llamaste.Auth.Sessions.{
  is_valid_session, touch_session, is_live, create_session, is_valid_session-touch_session,
  is_valid_session-create_session,
}
use llamaste.Prelude.{
  ℕ, ◌≡◌, refl, Bool, true, false, ◌&&◌, not, Option, none, some, Bytes, if◌then◌else◌, arith,
  lookup, length, bytes_eq_refl, ◌≤◌, All, ◌≢◌, Option-cases, inl, inr, List, [], ◌∷◌, ℤ, sub_ℕ,
  ltb_ℤ, ◌∙◌,
}

-- The values of the Cookie and the Authorization header are arguments.
unfoldable pub is_authenticated : Option Bytes → Option Bytes → ℕ → AuthManager → AuthManager × Bool
is_authenticated cookie authorization now m =
    let sid : Bytes = extract_session_cookie cookie in
    if not m.setup_complete
    then (m, true)
    else if is_valid_session now sid m
    then (touch_session now sid m, true)
    else (m, verify_api_key (extract_bearer_token authorization) m)

-- Once the setup is complete a request is refused, and changes nothing, if the session that its
-- cookie names is missing or has timed out and its Bearer token is not the device's key (both of at
-- most 32 bytes and without a zero byte).
pub is_authenticated-denied :
    (cookie authorization : Option Bytes) (now : ℕ) (m : AuthManager)
    → let bearer = extract_bearer_token authorization in
      m.setup_complete ≡ true
      → ((s : Session)
          → lookup (extract_session_cookie cookie) m.sessions ≡ some s
          → is_live now m.session_timeout_seconds s ≡ false)
      → length bearer ≤ 32
      → length m.api_key ≤ 32
      → All IsNonzero bearer
      → All IsNonzero m.api_key
      → bearer ≢ m.api_key
      → is_authenticated cookie authorization now m ≡ (m, false)
unfolding is_authenticated is_valid_session
is_authenticated-denied cookie authorization now m done timed_out h k p q ne =
    let bearer = extract_bearer_token authorization in
    let refused = verify_api_key-ne bearer m h k p q ne in
    elim (Option-cases (lookup (extract_session_cookie cookie) m.sessions)) [
      | inl e ↦ ground (arith, refused)
      | inr (s, e) ↦ ground (arith, refused, timed_out s e)
    ]

-- One request after another with the same cookie and no Bearer token; whether each was let through.
pub authenticate_all : Option Bytes → List ℕ → AuthManager → AuthManager × Bool
authenticate_all cookie [] m = (m, true)
authenticate_all cookie (t ∷ ts) m =
    let (m', passed) = is_authenticated cookie none t m in
    let (m'', all_passed) = authenticate_all cookie ts m' in (m'', passed && all_passed)

-- Each request comes less than the timeout after the one before it.
abbrev pub IsActive : ℤ → ℕ → List ℕ → Type 0
IsActive timeout t [] = Unit
IsActive timeout t (u ∷ us) = (ltb_ℤ (sub_ℕ u t) (seconds timeout) ≡ true) × IsActive timeout u us

is_authenticated-valid :
    (cookie : Option Bytes) (now : ℕ) (m : AuthManager)
    → m.setup_complete ≡ true
    → is_valid_session now (extract_session_cookie cookie) m ≡ true
    → is_authenticated cookie none now m
      ≡ (touch_session now (extract_session_cookie cookie) m, true)
unfolding is_authenticated
is_authenticated-valid cookie now m done valid = ground arith

touch_session_setup :
    (now : ℕ) (token : Bytes) (m : AuthManager)
    → ((touch_session now token m).setup_complete ≡ m.setup_complete)
      × ((touch_session now token m).session_timeout_seconds ≡ m.session_timeout_seconds)
unfolding touch_session
touch_session_setup now token m = ground arith

active_session :
    (cookie : Option Bytes) (t : ℕ) (ts : List ℕ) (m : AuthManager)
    → m.setup_complete ≡ true
    → ((u : ℕ)
        → ltb_ℤ (sub_ℕ u t) (seconds m.session_timeout_seconds) ≡ true
        → is_valid_session u (extract_session_cookie cookie) m ≡ true)
    → IsActive m.session_timeout_seconds t ts
    → (authenticate_all cookie ts m).1 ≡ true
unfolding authenticate_all
active_session cookie t [] m done live active = refl
active_session cookie t (u ∷ us) m done live active =
    let sid = extract_session_cookie cookie in
    let touched = touch_session_setup u sid m in
    let valid = live u active.0 in
    let rest =
      active_session cookie u us (touch_session u sid m) (touched.0 ∙ done)
        (λ v h. is_valid_session-touch_session u v sid m valid ∙ rw (touched.1) at h)
        (rw touched.1 active.1) in
    rw (is_authenticated-valid cookie u m done valid) rest

create_session_setup :
    (entropy : Option Bytes) (now : ℕ) (m : AuthManager)
    → ((create_session entropy now m).0.setup_complete ≡ m.setup_complete)
      × ((create_session entropy now m).0.session_timeout_seconds ≡ m.session_timeout_seconds)
unfolding create_session
create_session_setup entropy now m = (refl, refl)

created_session-is_valid :
    (buf : Bytes) (t u : ℕ) (m : AuthManager)
    → length buf ≡ 16
    → ltb_ℤ (sub_ℕ u t) (seconds m.session_timeout_seconds) ≡ true
    → let (m', token) = create_session (some buf) t m in is_valid_session u token m' ≡ true
created_session-is_valid buf t u m h q =
    let token : Bytes = (create_session (some buf) t m).1 in
    rw (is_valid_session-create_session buf t u token m h, bytes_eq_refl token) q

-- A session that is used never runs out: after a login at `t`, requests that bring the session's
-- cookie, each less than the timeout after the one before, are all let through.
pub authenticate_all-create_session :
    (buf : Bytes) (cookie : Option Bytes) (t : ℕ) (ts : List ℕ) (m : AuthManager)
    → length buf ≡ 16
    → m.setup_complete ≡ true
    → extract_session_cookie cookie ≡ (create_session (some buf) t m).1
    → IsActive m.session_timeout_seconds t ts
    → (authenticate_all cookie ts (create_session (some buf) t m).0).1 ≡ true
authenticate_all-create_session buf cookie t ts m h done e active =
    let m' = (create_session (some buf) t m).0 in
    let same = create_session_setup (some buf) t m in
    active_session cookie t ts m' (same.0 ∙ done)
      (λ u q. rw e (created_session-is_valid buf t u m h (rw same.1 at q))) (rw same.1 active)
