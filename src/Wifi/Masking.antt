-- ===== src/Wifi/Masking.antt =====
-- src/llamaste/wifi.cpp: `mask_psk`, the filter in front of the log, and the text of the command
-- that sets a password.

use llamaste.Prelude.{
  ℕ, zero, suc, ◌+◌, All-append, ◌≢◌, ◌≡◌, refl, ap, ◌∙◌, ◌||◌, Option, none, some, [], ◌∷◌, ◌++◌,
  Bytes, codes, strip_prefix, ◌==◌, ltb, if◌then◌else◌, length, length-append, All, arith, ℤ, pos,
  negsuc, decimal, decimal_digits, DecimalDigit,
}
use llamaste.Text.{int_text}

unfoldable pub skip_blanks : Bytes → Bytes
skip_blanks [] = []
skip_blanks (c ∷ cs) = if c == b' ' then skip_blanks cs else c ∷ cs

-- Past the closing quote, or at the end.
unfoldable pub past_quote : Bytes → Bytes
past_quote [] = []
past_quote (c ∷ cs) = if c == b'"' then cs else past_quote cs

unfoldable pub past_word : Bytes → Bytes
past_word [] = []
past_word (c ∷ cs) = if c == b' ' then c ∷ cs else past_word cs

abbrev pub past_value : Bytes → Bytes
past_value [] = []
past_value (c ∷ cs) = if c == b'"' then past_quote cs else past_word (c ∷ cs)

abbrev pub masked_value : Bytes → Bytes
masked_value [] = codes "psk ****"
masked_value (c ∷ cs) = if c == b'"' then codes "psk \"****\"" else codes "psk ****"

-- The test `i + 4 <= cmd.size()`: at least one byte is behind the keyword.
abbrev pub nonempty : Option Bytes → Option Bytes
nonempty none = none
nonempty (some []) = none
nonempty (some (c ∷ cs)) = some (c ∷ cs)

-- What is behind the keyword `psk`; `prev` is the byte in front, a blank at the start.
unfoldable pub behind_keyword : ℕ → Bytes → Option Bytes
behind_keyword prev text =
    if prev == b' ' || prev == b'"' then nonempty (strip_prefix (codes "psk") text) else none

-- Behind a value the text ends, or goes on with a blank, which begins no keyword, or stands behind
-- a quote. Each round takes a byte, so the length is enough fuel.
unfoldable pub mask_from : ℕ → ℕ → Bytes → Bytes
mask_from zero prev text = []
mask_from (suc f) prev [] = []
mask_from (suc f) prev (c ∷ cs) = elim (behind_keyword prev (c ∷ cs)) [
  | none ↦ c ∷ mask_from f c cs
  | some rest ↦ masked_value (skip_blanks rest) ++ mask_from f b'"' (past_value (skip_blanks rest))
]

unfoldable pub mask_psk : Bytes → Bytes
mask_psk cmd = mask_from (suc (length cmd)) b' ' cmd

-- The escaped password: control bytes dropped, a backslash before `\` and `"`.
unfoldable pub escaped : Bytes → Bytes
escaped [] = []
escaped (c ∷ cs) =
    let rest = escaped cs in
    if ltb c 32 then rest else if c == b'\\' || c == b'"' then b'\\' ∷ c ∷ rest else c ∷ rest

unfoldable pub set_psk : ℤ → Bytes → Bytes
set_psk id psk =
    codes "SET_NETWORK " ++ (int_text id ++ (codes " psk \"" ++ (escaped psk ++ codes "\"")))

no_keyword : (prev c : ℕ) (cs : Bytes) → c ≢ b'p' → behind_keyword prev (c ∷ cs) ≡ none
unfolding behind_keyword strip_prefix
no_keyword prev c cs h = ground arith

mask_plain :
    (f prev c : ℕ) (cs : Bytes) → c ≢ b'p' → mask_from (suc f) prev (c ∷ cs) ≡ c ∷ mask_from f c cs
unfolding mask_from
mask_plain f prev c cs h = rw (no_keyword prev c cs h, mask_from) refl

mask_prefix :
    (f g prev : ℕ) (pre t : Bytes)
    → All (λ c. c ≢ b'p') pre
    → g ≡ length pre + suc f
    → mask_from g prev (pre ++ (b' ' ∷ t)) ≡ pre ++ (b' ' ∷ mask_from f b' ' t)
mask_prefix f zero prev pre t h e = absurd (omega arith)
mask_prefix f (suc g) prev [] t h e =
    mask_plain g prev b' ' t (λ p. omega (arith, p))
    ∙ ap (λ (k : ℕ). b' ' ∷ mask_from k b' ' t) (omega (arith, e))
mask_prefix f (suc g) prev (c ∷ pre) t h e =
    mask_plain g prev c (pre ++ (b' ' ∷ t)) h.0
    ∙ ap (λ (r : Bytes). c ∷ r) (mask_prefix f g c pre t h.1 (omega (arith, e)))

past_quote_end : (v : Bytes) → All (λ c. c ≢ b'"') v → past_quote (v ++ codes "\"") ≡ []
unfolding past_quote
past_quote_end [] h = refl
past_quote_end (c ∷ v) h = ground (arith, past_quote_end v h.1)

mask_nil : (f prev : ℕ) → mask_from f prev [] ≡ []
unfolding mask_from
mask_nil zero prev = refl
mask_nil (suc f) prev = refl

mask_value :
    (f : ℕ) (v : Bytes)
    → All (λ c. c ≢ b'"') v
    → mask_from (suc f) b' ' (codes "psk \"" ++ (v ++ codes "\"")) ≡ codes "psk \"****\""
unfolding mask_from behind_keyword strip_prefix skip_blanks
mask_value f v h = rw (past_quote_end v h, mask_nil f b'"') refl

escaped_unquoted : (psk : Bytes) → All (λ c. c ≢ b'"') psk → All (λ c. c ≢ b'"') (escaped psk)
unfolding escaped
escaped_unquoted [] h = h
escaped_unquoted (c ∷ psk) h = ground (arith, escaped_unquoted psk h.1)

no_p : (ds : Bytes) → All DecimalDigit ds → All (λ c. c ≢ b'p') ds
no_p [] h = h
no_p (d ∷ ds) h = ((λ e. omega (arith, e, h.0)), no_p ds h.1)

int_text_no_p : (id : ℤ) → All (λ c. c ≢ b'p') (int_text id)
int_text_no_p (pos n) = no_p (decimal n) (decimal_digits n)
int_text_no_p (negsuc n) =
    ((λ e. omega (arith, e)), no_p (decimal (suc n)) (decimal_digits (suc n)))

-- In the log the command that sets a password of any network shows four stars in place of the
-- password, if the password contains no quote.
pub mask_psk-set_psk :
    (id : ℤ) (psk : Bytes)
    → All (λ c. c ≢ b'"') psk
    → mask_psk (set_psk id psk) ≡ codes "SET_NETWORK " ++ (int_text id ++ codes " psk \"****\"")
unfolding mask_psk set_psk
mask_psk-set_psk id psk h =
    let pre : Bytes = codes "SET_NETWORK " ++ int_text id in
    let t : Bytes = codes "psk \"" ++ (escaped psk ++ codes "\"") in
    mask_prefix (suc (length t)) (suc (length (pre ++ (b' ' ∷ t)))) b' ' pre t
      (All-append (λ (c : ℕ). c ≢ b'p') (codes "SET_NETWORK ") (int_text id) (ground arith)
        (int_text_no_p id))
      (omega (arith, length-append pre (b' ' ∷ t)))
    ∙ ap (λ (r : Bytes). pre ++ (b' ' ∷ r))
        (mask_value (length t) (escaped psk) (escaped_unquoted psk h))
