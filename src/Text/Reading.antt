-- ===== src/Text/Reading.antt =====
-- What the readers of Text.antt give: lines, decimal numbers, and fields without blanks around them.
use mathlib.Core.List.{append_assoc, append-nil}
use llamaste.Prelude.{
  ℕ, zero, suc, ◌+◌, ◌-◌, ◌*◌, ◌/◌, ◌%◌, ◌<◌, ◌≡◌, ◌≢◌, refl, ap, sym, ◌∙◌, true, false, Bool, some,
  [], ◌∷◌, ◌++◌, Bytes, ltb, ◌==◌, All, arith, Bool-cases, inl, inr, decimal, decimal_fuel,
  decimal_digits, DecimalDigit, ℤ, pos, negsuc,
}
use llamaste.Text.{
  getlines, getline_by, digits, strtol, stoi, skip_spaces, in_int, unsigned, int_text, is_blank,
  trim_left, trim_right, str_trim,
}

pub getline_by-line :
    (sep : ℕ) (line l r : Bytes)
    → All (λ c. c ≢ sep) l
    → getline_by sep line (l ++ (sep ∷ r)) ≡ (line ++ l) ∷ getline_by sep [] r
unfolding getline_by
getline_by-line sep line [] r h =
    rw (same sep) (ap (λ (x : Bytes). x ∷ getline_by sep [] r) (sym (append-nil line)))
  where
    same : (c : ℕ) → (c == c) ≡ true
    same c = ground arith
getline_by-line sep line (c ∷ l) r h = rw (other c sep h.0) (
    getline_by-line sep (line ++ c ∷ []) l r h.1
    ∙ ap (λ (x : Bytes). x ∷ getline_by sep [] r) (append_assoc line (c ∷ []) l))
  where
    other : (c d : ℕ) → c ≢ d → (c == d) ≡ false
    other c d h = ground arith

pub getline_by-last :
    (sep : ℕ) (line l : Bytes)
    → All (λ c. c ≢ sep) l
    → line ++ l ≢ []
    → getline_by sep line l ≡ (line ++ l) ∷ []
unfolding getline_by
getline_by-last sep [] [] h n = absurd (n refl)
getline_by-last sep (c ∷ line) [] h n = ap (λ (x : Bytes). x ∷ []) (sym (append-nil (c ∷ line)))
getline_by-last sep line (c ∷ l) h n = rw (other c sep h.0) (
    getline_by-last sep (line ++ c ∷ []) l h.1 (rw (append_assoc line (c ∷ []) l) n)
    ∙ ap (λ (x : Bytes). x ∷ []) (append_assoc line (c ∷ []) l))
  where
    other : (c d : ℕ) → c ≢ d → (c == d) ≡ false
    other c d h = ground arith

pub getlines-line :
    (line l r : Bytes)
    → All (λ c. c ≢ b'\n') l
    → getlines line (l ++ (b'\n' ∷ r)) ≡ (line ++ l) ∷ getlines [] r
getlines-line = getline_by-line b'\n'

digits_step :
    (y m d : ℕ) (any : Bool) (out : Bytes)
    → d < 10
    → y * 10 + d ≡ m
    → digits y any ((b'0' + d) ∷ out) ≡ digits m true out
unfolding digits
digits_step y m d any out h e = ground (arith, ap (λ (k : ℕ). digits k true out) (value y m d e))
  where
    value : (y m d : ℕ) → y * 10 + d ≡ m → y * 10 + (b'0' + d - b'0') ≡ m
    value y m d e = omega (arith, e)

digits-decimal_fuel :
    (f n : ℕ) (out : Bytes) (any : Bool)
    → n < f
    → digits 0 any (decimal_fuel f n out) ≡ digits n true out
unfolding digits decimal_fuel
digits-decimal_fuel zero n out any h = absurd (omega arith)
digits-decimal_fuel (suc f) n out any h =
    let digit : Bytes = (b'0' + n % 10) ∷ out in
    elim (Bool-cases (ltb n 10)) [
      | inl e ↦ rw e (digits_step 0 n (n % 10) any out (omega arith) (ground arith))
      | inr e ↦ rw e (
          digits-decimal_fuel f (n / 10) digit any (ground arith)
          ∙ digits_step (n / 10) n (n % 10) true out (omega arith) (omega arith))
    ]

pub digits-decimal : (n : ℕ) (any : Bool) → digits 0 any (decimal n) ≡ some n
unfolding decimal digits
digits-decimal n any = digits-decimal_fuel (suc n) n [] any (omega arith)

-- Decimal text of a number is read back.
pub strtol-decimal : (t : Bytes) → All DecimalDigit t → strtol t ≡ unsigned (digits 0 false t)
unfolding strtol digits
strtol-decimal [] h = refl
strtol-decimal (c ∷ cs) h = ground arith

pub strtol-int_text : (i : ℤ) → strtol (int_text i) ≡ some i
strtol-int_text (pos n) =
    rw (strtol-decimal (decimal n) (decimal_digits n), digits-decimal n false) refl
strtol-int_text (negsuc n) = unfold strtol in rw (digits-decimal (suc n) false) (ground arith)

abbrev pub IsSolid : Bytes → Type 0
IsSolid t = All (λ c. is_blank c ≡ false) t

trim_left_solid : (t : Bytes) → IsSolid t → trim_left t ≡ t
unfolding trim_left
trim_left_solid [] h = refl
trim_left_solid (c ∷ cs) h = rw h.0 refl

pub trim_left_first : (s r : Bytes) → IsSolid s → s ≢ [] → trim_left (s ++ r) ≡ s ++ r
unfolding trim_left
trim_left_first [] r h n = absurd (n refl)
trim_left_first (c ∷ s) r h n = rw h.0 refl

pub trim_right_solid : (t : Bytes) → IsSolid t → trim_right t ≡ t
unfolding trim_right
trim_right_solid [] h = refl
trim_right_solid (c ∷ []) h = rw h.0 refl
trim_right_solid (c ∷ d ∷ ds) h = rw (trim_right_solid (d ∷ ds) h.1) refl

pub str_trim_solid : (t : Bytes) → IsSolid t → str_trim t ≡ t
unfolding str_trim
str_trim_solid t h = rw (trim_left_solid t h, trim_right_solid t h) refl

-- Nothing is cut at the end of a text whose last part keeps its end.
pub trim_right-append : (l r : Bytes) → r ≢ [] → trim_right r ≡ r → trim_right (l ++ r) ≡ l ++ r
unfolding trim_right
trim_right-append [] r h e = e
trim_right-append (c ∷ []) [] h e = absurd (h refl)
trim_right-append (c ∷ []) (d ∷ ds) h e = rw e refl
trim_right-append (c ∷ d ∷ ds) r h e = rw (trim_right-append (d ∷ ds) r h e) refl

pub trim_right_blank :
    (l : Bytes) (c : ℕ) → is_blank c ≡ true → trim_right (l ++ c ∷ []) ≡ trim_right l
unfolding trim_right
trim_right_blank [] c h = rw h refl
trim_right_blank (d ∷ l) c h = rw (trim_right_blank l c h) refl

IsSolid-digits : (ds : Bytes) → All DecimalDigit ds → IsSolid ds
IsSolid-digits [] h = h
IsSolid-digits (d ∷ ds) h = (ground (arith, h.0), IsSolid-digits ds h.1)

pub int_text-IsSolid : (i : ℤ) → IsSolid (int_text i)
int_text-IsSolid (pos n) = IsSolid-digits (decimal n) (decimal_digits n)
int_text-IsSolid (negsuc n) = (refl, IsSolid-digits (decimal (suc n)) (decimal_digits (suc n)))

pub skip_spaces_digits : (t : Bytes) → All DecimalDigit t → skip_spaces t ≡ t
unfolding skip_spaces
skip_spaces_digits [] h = refl
skip_spaces_digits (c ∷ cs) h = ground (arith, h.0)

skip_spaces-int_text : (i : ℤ) → skip_spaces (int_text i) ≡ int_text i
skip_spaces-int_text (pos n) = skip_spaces_digits (decimal n) (decimal_digits n)
skip_spaces-int_text (negsuc n) = unfold skip_spaces in refl

-- The numbers that an `int` holds.
abbrev pub IsInt : ℤ → Type 0
IsInt (pos n) = n < 2147483648
IsInt (negsuc n) = n < 2147483648

in_int_lem : (i : ℤ) → IsInt i → in_int (some i) ≡ some i
in_int_lem (pos n) h = ground arith
in_int_lem (negsuc n) h = ground arith

pub stoi-int_text : (i : ℤ) → IsInt i → stoi (int_text i) ≡ some i
unfolding stoi
stoi-int_text i h = rw (skip_spaces-int_text i, strtol-int_text i) (in_int_lem i h)

nil-strtol : (t : Bytes) (i : ℤ) → strtol t ≡ some i → t ≢ []
unfolding strtol
nil-strtol [] i h e = ground arith
nil-strtol (c ∷ cs) i h e = ground arith

pub int_text_nonempty : (i : ℤ) → int_text i ≢ []
int_text_nonempty i = nil-strtol (int_text i) i (strtol-int_text i)

pub solid_without : (d : ℕ) (t : Bytes) → is_blank d ≡ true → IsSolid t → All (λ c. c ≢ d) t
solid_without d [] b h = h
solid_without d (c ∷ t) b h =
    ((λ e. ground (arith, h.0, b, ap is_blank e)), solid_without d t b h.1)

pub append_cons_nonempty : (a : Bytes) (c : ℕ) (r : Bytes) → a ++ (c ∷ r) ≢ []
append_cons_nonempty [] c r e = ground arith
append_cons_nonempty (x ∷ a) c r e = ground arith
