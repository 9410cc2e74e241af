-- ===== src/Auth/Sessions.antt =====
-- src/llamaste/auth.cpp: tokens and the sessions that they name. The entropy source is an argument:
-- the bytes that it gave, or `none` where /dev/urandom cannot be read.
use llamaste.Auth.{AuthManager, Session, LoginAttempt, seconds}
use llamaste.Prelude.{
  ℕ, ◌+◌, ◌-◌, ◌/◌, ◌%◌, ◌≤◌, ◌<◌, ◌≡◌, ◌↔◌, refl, Bool, true, false, Option, none, some, [], ◌∷◌,
  Bytes, is_empty, bytes_eq, bytes_eq_iff, Assoc, lookup, insert, erase, retain, keep_if,
  HasUniqueKeys, lookup-insert, lookup-erase, lookup-retain, insert-HasUniqueKeys,
  erase-HasUniqueKeys, retain-HasUniqueKeys, ℤ, pos, sub_ℕ, ltb_ℤ, leb_ℤ, ltb, if◌then◌else◌,
  length, take, take_all, All, arith, Option-cases, inl, inr,
}

abbrev hex_digit : ℕ → ℕ
hex_digit d = if ltb d 10 then b'0' + d else b'a' + (d - 10)

-- `snprintf(…, "%02x", …)` over the buffer.
unfoldable pub to_hex : Bytes → Bytes
to_hex [] = []
to_hex (b ∷ bs) = hex_digit (b / 16) ∷ hex_digit (b % 16) ∷ to_hex bs

unfoldable pub generate_token : ℕ → Option Bytes → Bytes
unfolding to_hex
generate_token n none = []
generate_token n (some buf) = to_hex (take (if ltb 32 n then 32 else n) buf)

unfoldable pub create_session : Option Bytes → ℕ → AuthManager → AuthManager × Bytes
create_session entropy now m =
    let token : Bytes = generate_token 16 entropy in
    (
      record m { sessions = insert token (record { created = now; last_seen = now }) m.sessions },
      token,
    )

-- Whether a session that was found has not timed out.
abbrev pub is_live : ℕ → ℤ → Session → Bool
is_live now timeout s = ltb_ℤ (sub_ℕ now s.last_seen) (seconds timeout)

abbrev pub live_entry : ℕ → ℤ → Option Session → Bool
live_entry now timeout none = false
live_entry now timeout (some s) = is_live now timeout s

unfoldable pub is_valid_session : ℕ → Bytes → AuthManager → Bool
is_valid_session now token m =
    if is_empty token
    then false
    else live_entry now m.session_timeout_seconds (lookup token m.sessions)

-- The entry that was found is written back with the new time.
abbrev touch_entry : ℕ → Bytes → Option Session → Assoc Session → Assoc Session
touch_entry now token none m = m
touch_entry now token (some s) m = insert token (record s { last_seen = now }) m

unfoldable pub touch_session : ℕ → Bytes → AuthManager → AuthManager
touch_session now token m =
    if is_empty token
    then m
    else record m { sessions = touch_entry now token (lookup token m.sessions) m.sessions }

-- A failed login is forgotten after ten cooldowns.
abbrev is_recent : ℕ → LoginAttempt → Bool
is_recent now a = leb_ℤ (sub_ℕ now a.last_failure) (seconds (pos 300))

unfoldable pub expire_sessions : ℕ → AuthManager → AuthManager
expire_sessions now m = record m {
  sessions = retain (is_live now m.session_timeout_seconds) m.sessions;
  login_attempts = retain (is_recent now) m.login_attempts;
}

unfoldable pub invalidate_session : Bytes → AuthManager → AuthManager
invalidate_session token m = record m { sessions = erase token m.sessions }

-- The tables name each key once.
pub record IsWellFormed (m : AuthManager) : Type 0 where
  pub sessions : HasUniqueKeys m.sessions
  pub login_attempts : HasUniqueKeys m.login_attempts

touch_entry-HasUniqueKeys :
    (now : ℕ) (token : Bytes) (o : Option Session) (m : Assoc Session)
    → HasUniqueKeys m
    → HasUniqueKeys (touch_entry now token o m)
touch_entry-HasUniqueKeys now token none m u = u
touch_entry-HasUniqueKeys now token (some s) m u = insert-HasUniqueKeys token _ m u

touch_session-IsWellFormed :
    (now : ℕ) (token : Bytes) (m : AuthManager)
    → IsWellFormed m
    → IsWellFormed (touch_session now token m)
unfolding touch_session
touch_session-IsWellFormed now [] m w = w
touch_session-IsWellFormed now (c ∷ token) m w = record {
  sessions = touch_entry-HasUniqueKeys now (c ∷ token) _ m.sessions w.sessions;
  login_attempts = w.login_attempts;
}

-- Every session operation keeps the tables free of repeated keys.
pub session_operations-IsWellFormed :
    (entropy : Option Bytes) (now : ℕ) (token : Bytes) (m : AuthManager)
    → IsWellFormed m
    → IsWellFormed (create_session entropy now m).0
      × IsWellFormed (touch_session now token m)
      × IsWellFormed (expire_sessions now m)
      × IsWellFormed (invalidate_session token m)
unfolding create_session expire_sessions invalidate_session
session_operations-IsWellFormed entropy now token m w = (
  record {
    sessions = insert-HasUniqueKeys (generate_token 16 entropy) _ m.sessions w.sessions;
    login_attempts = w.login_attempts;
  },
  touch_session-IsWellFormed now token m w,
  record {
    sessions = retain-HasUniqueKeys _ m.sessions w.sessions;
    login_attempts = retain-HasUniqueKeys _ m.login_attempts w.login_attempts;
  },
  record {
    sessions = erase-HasUniqueKeys token m.sessions w.sessions;
    login_attempts = w.login_attempts;
  },
)

length-to_hex : (bs : Bytes) → length (to_hex bs) ≡ length bs + length bs
unfolding to_hex
length-to_hex [] = refl
length-to_hex (b ∷ bs) = omega (arith, length-to_hex bs)

abbrev pub IsByte : ℕ → Type 0
IsByte b = b < 256

to_hex-injective : (bs cs : Bytes) → All IsByte bs → All IsByte cs → to_hex bs ≡ to_hex cs → bs ≡ cs
unfolding to_hex
to_hex-injective [] [] p q h = refl
to_hex-injective [] (c ∷ cs) p q h = cc
to_hex-injective (b ∷ bs) [] p q h = cc
to_hex-injective (b ∷ bs) (c ∷ cs) p q h = ground (arith, to_hex-injective bs cs p.1 q.1)

-- For at most 32 bytes of entropy: a token has two digits for each byte, and two tokens are one only
-- if the entropy was the same.
pub generate_token-injective :
    (n : ℕ) (a b : Bytes)
    → n ≤ 32
    → length a ≡ n
    → length b ≡ n
    → All IsByte a
    → All IsByte b
    → (length (generate_token n (some a)) ≡ n + n)
      × ((generate_token n (some a) ≡ generate_token n (some b)) ↔ (a ≡ b))
unfolding generate_token
generate_token-injective n a b h p q u v =
    let all_a = take_all n a (omega arith) in
    let all_b = take_all n b (omega arith) in
    (
      ground (arith, all_a, length-to_hex a),
      (λ e. to_hex-injective a b u v (ground (arith, all_a, all_b)), λ e. rw e),
    )

generate_token-not_empty :
    (buf : Bytes) → length buf ≡ 16 → is_empty (generate_token 16 (some buf)) ≡ false
unfolding generate_token to_hex
generate_token-not_empty [] h = absurd (omega arith)
generate_token-not_empty (b ∷ bs) h = refl

-- After a session is created at `now`, its token (when the entropy source gave sixteen bytes) is
-- valid at `later` exactly while less than the timeout has passed, and the validity of any other
-- token is what it was.
pub is_valid_session-create_session :
    (buf : Bytes) (now later : ℕ) (other : Bytes) (m : AuthManager)
    → length buf ≡ 16
    → let (m', token) = create_session (some buf) now m in
      is_valid_session later other m' ≡ (
        if bytes_eq token other
        then ltb_ℤ (sub_ℕ later now) (seconds m.session_timeout_seconds)
        else is_valid_session later other m)
unfolding create_session is_valid_session
is_valid_session-create_session buf now later other m h =
    let token : Bytes = generate_token 16 (some buf) in
    ground (
      arith,
      generate_token-not_empty buf h,
      lookup-insert token other (record { created = now; last_seen = now }) m.sessions,
      bytes_eq_iff token other,
    )

-- A sweep of the expired sessions at `now` leaves exactly the sessions that are live at `now`, and
-- it changes the validity of no token, neither at `now` nor at any later time.
pub is_valid_session-expire_sessions :
    (now later : ℕ) (token : Bytes) (m : AuthManager)
    → IsWellFormed m
    → now ≤ later
    → (is_valid_session later token (expire_sessions now m) ≡ is_valid_session later token m)
      × (lookup token (expire_sessions now m).sessions
          ≡ keep_if (is_live now m.session_timeout_seconds) (lookup token m.sessions))
unfolding is_valid_session expire_sessions
is_valid_session-expire_sessions now later token m w h =
    let swept = lookup-retain (is_live now m.session_timeout_seconds) token m.sessions w.sessions in
    (ground (arith, swept), swept)

-- Logging out makes the token invalid at every time, and changes the validity of no other token.
pub is_valid_session-invalidate_session :
    (now : ℕ) (token other : Bytes) (m : AuthManager)
    → IsWellFormed m
    → is_valid_session now other (invalidate_session token m)
      ≡ (if bytes_eq token other then false else is_valid_session now other m)
unfolding is_valid_session invalidate_session
is_valid_session-invalidate_session now token other m w =
    ground (arith, lookup-erase token other m.sessions w.sessions)

-- Touching a valid session restarts its timeout.
pub is_valid_session-touch_session :
    (now later : ℕ) (token : Bytes) (m : AuthManager)
    → is_valid_session now token m ≡ true
    → is_valid_session later token (touch_session now token m)
      ≡ ltb_ℤ (sub_ℕ later now) (seconds m.session_timeout_seconds)
unfolding is_valid_session touch_session
is_valid_session-touch_session now later token m h = elim (Option-cases (lookup token m.sessions)) [
  | inl e ↦ absurd (ground arith)
  | inr (s, e) ↦ ground (
    arith,
    lookup-insert token token (record s { last_seen = now }) m.sessions,
    bytes_eq_iff token token,
  )
]
