-- ===== src/Auth/Headers.antt =====
-- src/llamaste/auth.cpp: the session cookie and the Bearer token. httplib finds the header: a
-- function here takes the header's value, or `none` where the request has none.
use llamaste.Auth.{AuthManager}
use llamaste.Prelude.{
  ℕ, suc, ◌≡◌, ◌≢◌, refl, ◌&&◌, Option, none, some, [], ◌∷◌, ◌++◌, Bytes, codes, bytes_eq,
  bytes_eq_iff, bytes_eq_refl, cut, cut_here, cut_byte, cut_byte_absent, decimal, ℤ, pos, negsuc,
  ltb, if◌then◌else◌, length, take, drop, All, arith,
}

abbrev cookie_name : Bytes
cookie_name = codes "llamaste_sid="

-- Up to the first semicolon, or to the end.
abbrev cookie_value : Bytes → Option (Bytes × Bytes) → Bytes
cookie_value rest none = rest
cookie_value rest (some (v, _)) = v

abbrev behind_name : Option (Bytes × Bytes) → Bytes
behind_name none = []
behind_name (some (_, rest)) = cookie_value rest (cut (b';' ∷ []) rest)

unfoldable pub extract_session_cookie : Option Bytes → Bytes
extract_session_cookie none = []
extract_session_cookie (some cookies) = behind_name (cut (codes "llamaste_sid=") cookies)

unfoldable pub extract_bearer_token : Option Bytes → Bytes
extract_bearer_token none = []
extract_bearer_token (some auth) =
    if ltb 7 (length auth) && bytes_eq (take 7 auth) (codes "Bearer ") then drop 7 auth else []

-- `%d`
pub decimal_ℤ : ℤ → Bytes
decimal_ℤ (pos n) = decimal n
decimal_ℤ (negsuc n) = b'-' ∷ decimal (suc n)

-- `snprintf` into 256 bytes keeps 255 of them.
pub set_session_cookie : Bytes → AuthManager → Bytes
set_session_cookie token m = take 255 (
    codes "llamaste_sid="
    ++ (token
        ++ (codes "; HttpOnly; SameSite=Lax; Path=/; Max-Age="
            ++ decimal_ℤ m.session_timeout_seconds)))

abbrev pub clear_session_cookie : Bytes
clear_session_cookie = codes "llamaste_sid=; HttpOnly; SameSite=Lax; Path=/; Max-Age=0"

abbrev pub IsPlain : ℕ → Type 0
IsPlain b = b ≢ b';'

-- A browser that sends the cookie back is recognised: the token is read back from a header that
-- begins with the session's cookie, alone or before other cookies.
pub extract_session_cookie-roundtrip :
    (token others : Bytes)
    → All IsPlain token
    → (extract_session_cookie (some (codes "llamaste_sid=" ++ token)) ≡ token)
      × (extract_session_cookie (some (codes "llamaste_sid=" ++ (token ++ b';' ∷ others))) ≡ token)
unfolding extract_session_cookie
extract_session_cookie-roundtrip token others h = (
  rw (cut_here (codes "llamaste_sid=") token, cut_byte_absent b';' token h),
  rw (cut_here (codes "llamaste_sid=") (token ++ b';' ∷ others), cut_byte b';' token others h),
)

-- The name is looked for anywhere in the header: where it first occurs inside another cookie's
-- name, behind `before`, that cookie's value is taken for the token.
pub extract_session_cookie-first :
    (before token others : Bytes)
    → cut (codes "llamaste_sid=") (before ++ (codes "llamaste_sid=" ++ (token ++ b';' ∷ others)))
      ≡ some (before, token ++ b';' ∷ others)
    → All IsPlain token
    → extract_session_cookie (some (before ++ (codes "llamaste_sid=" ++ (token ++ b';' ∷ others))))
      ≡ token
unfolding extract_session_cookie
extract_session_cookie-first before token others e h = rw (e, cut_byte b';' token others h)

-- A token that is not empty is read back from its Bearer header, and a header that does not begin
-- with `Bearer ` gives no token.
pub extract_bearer_token-roundtrip :
    (token other : Bytes)
    → token ≢ []
    → take 7 other ≢ codes "Bearer "
    → (extract_bearer_token (some (codes "Bearer " ++ token)) ≡ token)
      × (extract_bearer_token (some other) ≡ [])
unfolding extract_bearer_token
extract_bearer_token-roundtrip [] other ne h = absurd (ne refl)
extract_bearer_token-roundtrip (c ∷ cs) other ne h = (
  rw (bytes_eq_refl (codes "Bearer ")) (ground arith),
  ground (arith, bytes_eq_iff (take 7 other) (codes "Bearer ")),
)
