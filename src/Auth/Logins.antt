-- ===== src/Auth/Logins.antt =====
-- src/llamaste/auth.cpp: the count of failed logins from an address, and the cooldown that it sets.
-- The count is an int of the source; it stays below 2 ^ 31.
use llamaste.Auth.{AuthManager, LoginAttempt, seconds}
use llamaste.Auth.Sessions.{expire_sessions, IsWellFormed}
use llamaste.Prelude.{
  ℕ, suc, ◌+◌, ◌≤◌, ◌≡◌, ◌≢◌, Bool, false, Option, none, some, List, [], ◌∷◌, Bytes, bytes_eq_iff,
  lookup, insert, lookup-insert, lookup-retain, ℤ, pos, sub_ℕ, ltb_ℤ, leb_ℤ, ltb, leb,
  if◌then◌else◌, length, arith,
}

abbrev pub max_failures : ℕ
max_failures = 5

abbrev pub cooldown_seconds : ℤ
cooldown_seconds = pos 30

-- `login_attempts_[ip]` makes an entry with no failure at the clock's origin.
abbrev attempt_or_new : Option LoginAttempt → LoginAttempt
attempt_or_new none = record { failures = 0; last_failure = 0 }
attempt_or_new (some a) = a

abbrev count_failure : ℕ → LoginAttempt → LoginAttempt
count_failure now a = record {
  failures =
      (if ltb_ℤ (seconds cooldown_seconds) (sub_ℕ now a.last_failure) then 0 else a.failures) + 1;
  last_failure = now;
}

unfoldable pub record_failed_login : Bytes → ℕ → AuthManager → AuthManager × Bool
record_failed_login ip now m =
    let attempt : LoginAttempt = count_failure now (attempt_or_new (lookup ip m.login_attempts)) in
    (
      record m { login_attempts = insert ip attempt m.login_attempts },
      leb max_failures attempt.failures,
    )

abbrev is_limited : ℕ → Option LoginAttempt → Bool
is_limited now none = false
is_limited now (some a) =
    if ltb a.failures max_failures
    then false
    else ltb_ℤ (sub_ℕ now a.last_failure) (seconds cooldown_seconds)

unfoldable pub is_rate_limited : Bytes → ℕ → AuthManager → Bool
is_rate_limited ip now m = is_limited now (lookup ip m.login_attempts)

-- Failed logins from one address at the times of the list.
pub fail_all : Bytes → List ℕ → AuthManager → AuthManager
fail_all ip [] m = m
fail_all ip (t ∷ ts) m = fail_all ip ts (record_failed_login ip t m).0

-- Each time is at most the cooldown after the one before it.
abbrev pub IsBurst : ℕ → List ℕ → Type 0
IsBurst t [] = Unit
IsBurst t (u ∷ us) = (t ≤ u) × (u ≤ t + 30000000000) × IsBurst u us

abbrev pub last_of : ℕ → List ℕ → ℕ
last_of t [] = t
last_of t (u ∷ us) = last_of u us

lookup-record_failed_login :
    (ip : Bytes) (now : ℕ) (m : AuthManager)
    → lookup ip (record_failed_login ip now m).0.login_attempts
      ≡ some (count_failure now (attempt_or_new (lookup ip m.login_attempts)))
unfolding record_failed_login
lookup-record_failed_login ip now m =
    let a : LoginAttempt = count_failure now (attempt_or_new (lookup ip m.login_attempts)) in
    ground (arith, lookup-insert ip ip a m.login_attempts, bytes_eq_iff ip ip)

-- The count and the time that a burst leaves behind.
burst_count :
    (ip : Bytes) (t : ℕ) (ts : List ℕ) (m : AuthManager) (n : ℕ)
    → lookup ip m.login_attempts ≡ some (record { failures = n; last_failure = t })
    → IsBurst t ts
    → lookup ip (fail_all ip ts m).login_attempts
      ≡ some (record { failures = n + length ts; last_failure = last_of t ts })
unfolding fail_all
burst_count ip t [] m n e b = ground arith
burst_count ip t (u ∷ us) m n e b =
    let m' = (record_failed_login ip u m).0 in
    let first : lookup ip m'.login_attempts ≡ some (record { failures = n + 1; last_failure = u }) =
      rw (lookup-record_failed_login ip u m, e) (ground arith) in
    let rest = burst_count ip u us m' (n + 1) first b.2 in ground arith

-- After a burst of at least five failed logins the address is limited for less than the cooldown,
-- whatever was recorded of it before, and is free again from then on.
pub burst-is_rate_limited :
    (ip : Bytes) (t : ℕ) (ts : List ℕ) (now : ℕ) (m : AuthManager)
    → IsBurst t ts
    → 5 ≤ suc (length ts)
    → is_rate_limited ip now (fail_all ip (t ∷ ts) m)
      ≡ ltb_ℤ (sub_ℕ now (last_of t ts)) (seconds cooldown_seconds)
unfolding is_rate_limited fail_all
burst-is_rate_limited ip t ts now m b h =
    let m' = (record_failed_login ip t m).0 in
    let a : LoginAttempt = count_failure t (attempt_or_new (lookup ip m.login_attempts)) in
    let rest = burst_count ip t ts m' a.failures (lookup-record_failed_login ip t m) b in
    rw rest (ground arith)

-- A failed login reports what the limit says at that moment, the limit is off thirty seconds later,
-- and a different address is not touched.
pub record_failed_login-is_rate_limited :
    (ip other : Bytes) (now later : ℕ) (m : AuthManager)
    → other ≢ ip
    → now + 30000000000 ≤ later
    → let (m', limited) = record_failed_login ip now m in
      (is_rate_limited ip now m' ≡ limited)
      × (is_rate_limited ip later m' ≡ false)
      × (is_rate_limited other later m' ≡ is_rate_limited other later m)
unfolding record_failed_login is_rate_limited
record_failed_login-is_rate_limited ip other now later m ne h =
    let a : LoginAttempt = count_failure now (attempt_or_new (lookup ip m.login_attempts)) in
    ground (
      arith,
      lookup-insert ip ip a m.login_attempts,
      lookup-insert ip other a m.login_attempts,
      bytes_eq_iff ip ip,
      bytes_eq_iff ip other,
    )

-- The sweep at `now` forgets old failures, and lifts no limit at `now` or later.
pub is_rate_limited-expire_sessions :
    (ip : Bytes) (now later : ℕ) (m : AuthManager)
    → IsWellFormed m
    → now ≤ later
    → is_rate_limited ip later (expire_sessions now m) ≡ is_rate_limited ip later m
unfolding is_rate_limited expire_sessions
is_rate_limited-expire_sessions ip now later m w h = ground (
  arith,
  lookup-retain (λ (a : LoginAttempt). leb_ℤ (sub_ℕ now a.last_failure) (seconds (pos 300))) ip
      m.login_attempts w.login_attempts,
)
