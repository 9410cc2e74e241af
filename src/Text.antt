-- ===== src/Text.antt =====
-- What the components take of the C and C++ libraries to read texts: `isspace`, `>>`, `getline`,
-- `strtol`, `stoi`, and `std::to_string` of an `int`; and the trimming of blanks that
-- src/llamaste/agent.cpp and src/llamaste/wifi.cpp share.
pub mod Reading
use llamaste.Prelude.{
  ℕ, zero, suc, ◌+◌, ◌-◌, ◌*◌, ◌%◌, Bool, true, false, ◌&&◌, ◌||◌, Option, none, some, List, [],
  ◌∷◌, ◌++◌, Bytes, codes, is_empty, ℤ, pos, negsuc, sub_ℕ, leb, ltb, ◌==◌, if◌then◌else◌, decimal,
  cut,
}

abbrev pub is_space : ℕ → Bool
is_space c = c == b' ' || (leb 9 c && leb c 13)

abbrev pub push_word : Bytes → List Bytes → List Bytes
push_word word words = if is_empty word then words else word ∷ words

-- What `>>` reads of the stream, word by word; `word` is the present one.
unfoldable pub words : Bytes → Bytes → List Bytes
words word [] = push_word word []
words word (c ∷ cs) =
    let next = words [] cs in
    let longer = words (word ++ c ∷ []) cs in if is_space c then push_word word next else longer

abbrev pub is_digit : ℕ → Bool
is_digit c = leb b'0' c && leb c b'9'

-- The digits at the front, and whether there are any.
unfoldable pub digits : ℕ → Bool → Bytes → Option ℕ
digits n some_yet [] = if some_yet then some n else none
digits n some_yet (c ∷ cs) =
    let more = digits (n * 10 + (c - b'0')) true cs in
    if is_digit c then more else if some_yet then some n else none

abbrev pub negated : Option ℕ → Option ℤ
negated none = none
negated (some n) = some (sub_ℕ 0 n)

abbrev pub unsigned : Option ℕ → Option ℤ
unsigned none = none
unsigned (some n) = some (pos n)

-- `strtol` of a word, in base 10; `none` is a word that is no number.
unfoldable pub strtol : Bytes → Option ℤ
strtol [] = none
strtol (c ∷ cs) =
    if c == b'-'
    then negated (digits 0 false cs)
    else if c == b'+'
    then unsigned (digits 0 false cs)
    else unsigned (digits 0 false (c ∷ cs))

-- What `strtol` and `stoi` skip in front.
unfoldable pub skip_spaces : Bytes → Bytes
skip_spaces [] = []
skip_spaces (c ∷ cs) = if is_space c then skip_spaces cs else c ∷ cs

-- `none` where `stoi` throws: there is no number, or it is not an `int`.
abbrev pub in_int : Option ℤ → Option ℤ
in_int none = none
in_int (some (pos n)) = if ltb n 2147483648 then some (pos n) else none
in_int (some (negsuc n)) = if ltb n 2147483648 then some (negsuc n) else none

unfoldable pub stoi : Bytes → Option ℤ
stoi s = in_int (strtol (skip_spaces s))

abbrev pub int_text : ℤ → Bytes
int_text (pos n) = decimal n
int_text (negsuc n) = b'-' ∷ decimal (suc n)

-- `std::getline` up to the end of the stream, with its separator; `line` is what was read of the
-- present line.
unfoldable pub getline_by : ℕ → Bytes → Bytes → List Bytes
getline_by sep line [] = if is_empty line then [] else line ∷ []
getline_by sep line (c ∷ cs) =
    let next = getline_by sep [] cs in
    let longer = getline_by sep (line ++ c ∷ []) cs in if c == sep then line ∷ next else longer

abbrev pub getlines : Bytes → Bytes → List Bytes
getlines = getline_by b'\n'

-- What the first `std::getline` reads; nothing of an empty stream.
abbrev pub first_of : List Bytes → Bytes
first_of [] = []
first_of (line ∷ lines) = line

abbrev pub is_blank : ℕ → Bool
is_blank c = c == b' ' || (c == b'\t' || (c == b'\n' || c == b'\r'))

unfoldable pub trim_left : Bytes → Bytes
trim_left [] = []
trim_left (c ∷ cs) = if is_blank c then trim_left cs else c ∷ cs

abbrev pub trim_cons : ℕ → Bytes → Bytes
trim_cons c [] = if is_blank c then [] else c ∷ []
trim_cons c (d ∷ ds) = c ∷ d ∷ ds

unfoldable pub trim_right : Bytes → Bytes
trim_right [] = []
trim_right (c ∷ cs) = trim_cons c (trim_right cs)

-- The text between its first and its last byte that is no blank.
unfoldable pub str_trim : Bytes → Bytes
str_trim s = trim_right (trim_left s)

abbrev pub is_found : Option (Bytes × Bytes) → Bool
is_found none = false
is_found (some _) = true

-- `find` gives a position.
abbrev pub contains : Bytes → Bytes → Bool
contains text needle = is_found (cut needle text)
