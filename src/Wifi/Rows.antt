-- ===== src/Wifi/Rows.antt =====
-- src/llamaste/wifi.cpp: one row of the table of LIST_NETWORKS, as `parse_list_networks` reads it.
use mathlib.Core.List.{append_assoc, append-nil}
use llamaste.Prelude.{
  ℕ, suc, ◌≡◌, ◌≢◌, refl, ap, sym, ◌∙◌, Bool, true, false, List, [], ◌∷◌, ◌++◌, Bytes, codes, cut,
  strip_prefix, ◌==◌, All, All-append, arith, ℤ,
}
use llamaste.Text.{str_trim, trim_left, trim_right, int_text, contains}
use llamaste.Text.Reading.{
  IsInt, IsSolid, stoi-int_text, int_text-IsSolid, int_text_nonempty, str_trim_solid,
  trim_right-append, trim_right_blank, trim_right_solid, trim_left_first, solid_without,
  append_cons_nonempty,
}
use llamaste.Wifi.{Network, str_split, full_lines, list_row, saved_network}

-- A network of wpa_supplicant's configuration.
pub record Entry : Type 0 where
  pub id : ℤ
  pub ssid : Bytes
  pub bssid : Bytes
  pub current : Bool
  pub disabled : Bool
  pub temp_disabled : Bool

-- The columns that wpa_supplicant documents; the last has the flags of the network, one behind the
-- other, and is empty for a network without a flag.
abbrev flag_if : Bool → Bytes → Bytes
flag_if true text = text
flag_if false text = []

abbrev pub flags : Bool → Bool → Bool → Bytes
flags current disabled temp_disabled =
    flag_if current (codes "[CURRENT]")
    ++ (flag_if disabled (codes "[DISABLED]") ++ flag_if temp_disabled (codes "[TEMP-DISABLED]"))

abbrev pub flags_of : Entry → Bytes
flags_of e = flags e.current e.disabled e.temp_disabled

abbrev pub columns : ℤ → Bytes → Bytes → Bytes → Bytes
columns id ssid bssid last = int_text id ++ (b'\t' ∷ (ssid ++ (b'\t' ∷ (bssid ++ last))))

abbrev pub row : Entry → Bytes
row e = columns e.id e.ssid e.bssid (b'\t' ∷ flags_of e)

abbrev pub rows : List Entry → Bytes
rows [] = []
rows (e ∷ es) = row e ++ (b'\n' ∷ rows es)

abbrev pub table : List Entry → Bytes
table es = codes "network id / ssid / bssid / flags" ++ (b'\n' ∷ rows es)

abbrev pub network_of : Entry → Network
network_of e = saved_network e.id e.ssid e.bssid e.current

-- No tab or line feed, and no blank at an end.
abbrev pub IsField : Bytes → Type 0
IsField t = All (λ c. (c ≢ b'\t') × (c ≢ b'\n')) t × (str_trim t ≡ t)

abbrev pub IsEntry : Entry → Type 0
IsEntry e = IsInt e.id × (IsField e.ssid × (IsSolid e.bssid × (e.bssid ≢ [])))

to_end : (d : ℕ) (token a : Bytes) → str_split d 0 token a ≡ (token ++ a) ∷ []
unfolding str_split
to_end d token [] = ap (λ (x : Bytes). x ∷ []) (sym (append-nil token))
to_end d token (c ∷ a) =
    to_end d (token ++ c ∷ []) a ∙ ap (λ (x : Bytes). x ∷ []) (append_assoc token (c ∷ []) a)

test_eq : (c d : ℕ) → c ≡ d → (c == d) ≡ true
test_eq c d h = ground arith

test_ne : (c d : ℕ) → c ≢ d → (c == d) ≡ false
test_ne c d h = ground arith

split-field :
    (d k : ℕ) (token a r : Bytes)
    → All (λ c. c ≢ d) a
    → str_split d (suc k) token (a ++ (d ∷ r)) ≡ (token ++ a) ∷ str_split d k [] r
unfolding str_split
split-field d k token [] r h =
    rw (test_eq d d refl) (ap (λ (x : Bytes). x ∷ str_split d k [] r) (sym (append-nil token)))
split-field d k token (c ∷ a) r h = rw (test_ne c d h.0) (
    split-field d k (token ++ c ∷ []) a r h.1
    ∙ ap (λ (x : Bytes). x ∷ str_split d k [] r) (append_assoc token (c ∷ []) a))

split-last :
    (d k : ℕ) (token a : Bytes)
    → All (λ c. c ≢ d) a
    → str_split d (suc k) token a ≡ (token ++ a) ∷ []
unfolding str_split
split-last d k token [] h = ap (λ (x : Bytes). x ∷ []) (sym (append-nil token))
split-last d k token (c ∷ a) h = rw (test_ne c d h.0) (
    split-last d k (token ++ c ∷ []) a h.1
    ∙ ap (λ (x : Bytes). x ∷ []) (append_assoc token (c ∷ []) a))

trim_field :
    (a r : Bytes) (c : ℕ) → r ≢ [] → trim_right r ≡ r → trim_right (a ++ (c ∷ r)) ≡ a ++ (c ∷ r)
trim_field a r c n h =
    trim_right-append a (c ∷ r) (append_cons_nonempty [] c r) (trim_right-append (c ∷ []) r n h)

trim_columns :
    (id : ℤ) (ssid bssid last : Bytes)
    → bssid ++ last ≢ []
    → trim_right (bssid ++ last) ≡ bssid ++ last
    → trim_right (columns id ssid bssid last) ≡ columns id ssid bssid last
trim_columns id ssid bssid last n h =
    trim_field (int_text id) (ssid ++ (b'\t' ∷ (bssid ++ last))) b'\t'
      (append_cons_nonempty ssid b'\t' (bssid ++ last)) (trim_field ssid (bssid ++ last) b'\t' n h)

-- What `str_trim` leaves of a row: a tab at its end is gone.
abbrev pub kept : Bytes → Bytes
kept [] = []
kept (c ∷ cs) = b'\t' ∷ c ∷ cs

str_trim-row :
    (id : ℤ) (ssid bssid text : Bytes)
    → IsSolid bssid
    → bssid ≢ []
    → trim_right text ≡ text
    → trim_right (columns id ssid bssid (b'\t' ∷ text)) ≡ columns id ssid bssid (kept text)
str_trim-row id ssid bssid (c ∷ cs) h n s =
    trim_columns id ssid bssid (b'\t' ∷ c ∷ cs) (append_cons_nonempty bssid b'\t' (c ∷ cs))
      (trim_field bssid (c ∷ cs) b'\t' (λ e. ground arith) s)
str_trim-row id ssid bssid [] h n s =
    let body : Bytes = columns id ssid bssid [] in
    ap trim_right (behind (int_text id) ssid bssid)
    ∙ (trim_right_blank body b'\t' refl
        ∙ trim_columns id ssid bssid [] (rw (append-nil bssid) n)
            (rw (append-nil bssid) (trim_right_solid bssid h)))
  where
    behind :
        (a b c : Bytes)
        → a ++ (b'\t' ∷ (b ++ (b'\t' ∷ (c ++ b'\t' ∷ []))))
          ≡ (a ++ (b'\t' ∷ (b ++ (b'\t' ∷ (c ++ []))))) ++ b'\t' ∷ []
    behind a b c = simp append_assoc

flags_solid : (c d t : Bool) → trim_right (flags c d t) ≡ flags c d t
unfolding trim_right
flags_solid true true true = refl
flags_solid true true false = refl
flags_solid true false true = refl
flags_solid true false false = refl
flags_solid false true true = refl
flags_solid false true false = refl
flags_solid false false true = refl
flags_solid false false false = refl

pub trim-row :
    (e : Entry) → IsEntry e → str_trim (row e) ≡ columns e.id e.ssid e.bssid (kept (flags_of e))
unfolding str_trim
trim-row e h =
    rw
      (trim_left_first (int_text e.id)
        (b'\t' ∷ (e.ssid ++ (b'\t' ∷ (e.bssid ++ (b'\t' ∷ flags_of e))))) (int_text-IsSolid e.id)
        (int_text_nonempty e.id))
      (str_trim-row e.id e.ssid e.bssid (flags_of e) h.1.1.0 h.1.1.1
        (flags_solid e.current e.disabled e.temp_disabled))

-- The network is the current one exactly where its flags say so, whatever the others are.
pub flag_shown : (c d t : Bool) → contains (str_trim (flags c d t)) (codes "CURRENT") ≡ c
unfolding str_trim trim_left trim_right cut strip_prefix
flag_shown true true true = refl
flag_shown true true false = refl
flag_shown true false true = refl
flag_shown true false false = refl
flag_shown false true true = refl
flag_shown false true false = refl
flag_shown false false true = refl
flag_shown false false false = refl

none_shown : contains (str_trim []) (codes "CURRENT") ≡ false
unfolding str_trim trim_left trim_right cut strip_prefix
none_shown = refl

pub list_row-columns :
    (id : ℤ) (ssid bssid text : Bytes) (current : Bool) (nets : List Network)
    → contains (str_trim text) (codes "CURRENT") ≡ current
    → IsInt id
    → str_trim ssid ≡ ssid
    → All (λ c. c ≢ b'\t') ssid
    → IsSolid bssid
    → list_row (str_split b'\t' 3 [] (columns id ssid bssid (kept text))) nets
      ≡ saved_network id ssid bssid current ∷ nets
list_row-columns id ssid bssid (x ∷ xs) current nets shown i t s b =
    rw
      (
        split-field b'\t' 2 [] (int_text id) (ssid ++ (b'\t' ∷ (bssid ++ (b'\t' ∷ x ∷ xs))))
            (solid_without b'\t' (int_text id) refl (int_text-IsSolid id)),
        split-field b'\t' 1 [] ssid (bssid ++ (b'\t' ∷ x ∷ xs)) s,
        split-field b'\t' 0 [] bssid (x ∷ xs) (solid_without b'\t' bssid refl b),
        to_end b'\t' [] (x ∷ xs),
        list_row,
        str_trim_solid (int_text id) (int_text-IsSolid id),
        stoi-int_text id i,
        t,
        str_trim_solid bssid b,
      )
      (ap (λ (c : Bool). saved_network id ssid bssid c ∷ nets) shown)
list_row-columns id ssid bssid [] current nets shown i t s b =
    rw
      (
        append-nil bssid,
        split-field b'\t' 2 [] (int_text id) (ssid ++ (b'\t' ∷ bssid))
            (solid_without b'\t' (int_text id) refl (int_text-IsSolid id)),
        split-field b'\t' 1 [] ssid bssid s,
        split-last b'\t' 0 [] bssid (solid_without b'\t' bssid refl b),
        list_row,
        str_trim_solid (int_text id) (int_text-IsSolid id),
        stoi-int_text id i,
        t,
        str_trim_solid bssid b,
      )
      (ap (λ (c : Bool). saved_network id ssid bssid c ∷ nets) (sym none_shown ∙ shown))

pub no_tab : (t : Bytes) → All (λ c. (c ≢ b'\t') × (c ≢ b'\n')) t → All (λ c. c ≢ b'\t') t
no_tab [] h = h
no_tab (c ∷ t) h = (h.0.0, no_tab t h.1)

no_newline : (t : Bytes) → All (λ c. (c ≢ b'\t') × (c ≢ b'\n')) t → All (λ c. c ≢ b'\n') t
no_newline [] h = h
no_newline (c ∷ t) h = (h.0.1, no_newline t h.1)

flags_newline : (c d t : Bool) → All (λ c. c ≢ b'\n') (b'\t' ∷ flags c d t)
flags_newline true true true = ground arith
flags_newline true true false = ground arith
flags_newline true false true = ground arith
flags_newline true false false = ground arith
flags_newline false true true = ground arith
flags_newline false true false = ground arith
flags_newline false false true = ground arith
flags_newline false false false = ground arith

abbrev pub NoNewline : ℕ → Type 0
NoNewline c = c ≢ b'\n'

pub row_newline : (e : Entry) → IsEntry e → All (λ c. c ≢ b'\n') (row e)
row_newline e h =
    All-append NoNewline (int_text e.id)
      (b'\t' ∷ (e.ssid ++ (b'\t' ∷ (e.bssid ++ (b'\t' ∷ flags_of e)))))
      (solid_without b'\n' (int_text e.id) refl (int_text-IsSolid e.id))
      (
        tab,
        All-append NoNewline e.ssid (b'\t' ∷ (e.bssid ++ (b'\t' ∷ flags_of e)))
            (no_newline e.ssid h.1.0.0)
            (
              tab,
              All-append NoNewline e.bssid (b'\t' ∷ flags_of e)
                  (solid_without b'\n' e.bssid refl h.1.1.0)
                  (flags_newline e.current e.disabled e.temp_disabled),
            ),
      )
  where
    tab : NoNewline b'\t'
    tab e = omega (arith, e)

pub full_lines_cons :
    (t : Bytes) (ls : List Bytes) (t' : Bytes)
    → str_trim t ≡ t'
    → t' ≢ []
    → full_lines (t ∷ ls) ≡ t' ∷ full_lines ls
unfolding full_lines
full_lines_cons t ls [] e n = absurd (n refl)
full_lines_cons t ls (c ∷ cs) e n = rw e refl
