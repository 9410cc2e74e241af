-- ===== src/Updater/Grubenv.antt =====
-- src/llamaste/updater.cpp: `grubenv_parse` and `grubenv_serialize`. A `std::map` is the list of its
-- entries in the order of the keys.
use llamaste.Prelude.{
  ℕ, ◌-◌, Option, none, some, List, [], ◌∷◌, ◌++◌, Bytes, codes, bytes_eq, bytes_ltb, cut, ltb,
  ◌==◌, if◌then◌else◌, length, take, replicate,
}
use llamaste.Text.{getlines}

abbrev pub Vars : Type 0
Vars = List (Bytes × Bytes)

-- `vars[key] = val`
unfoldable pub put : Bytes → Bytes → Vars → Vars
put key val [] = (key, val) ∷ []
put key val ((k, v) ∷ rest) =
    let later = put key val rest in
    if bytes_ltb key k
    then (key, val) ∷ (k, v) ∷ rest
    else if bytes_eq key k
    then (k, val) ∷ rest
    else (k, v) ∷ later

abbrev put_pair : Option (Bytes × Bytes) → Vars → Vars
put_pair none vars = vars
put_pair (some (key, val)) vars = put key val vars

unfoldable pub parse_line : Bytes → Vars → Vars
parse_line [] vars = vars
parse_line (c ∷ cs) vars = if c == b'#' then vars else put_pair (cut (codes "=") (c ∷ cs)) vars

unfoldable pub parse_lines : List Bytes → Vars → Vars
parse_lines [] vars = vars
parse_lines (line ∷ lines) vars = parse_lines lines (parse_line line vars)

unfoldable pub grubenv_parse : Bytes → Vars
grubenv_parse content = parse_lines (getlines [] content) []

abbrev pub grubenv_header : Bytes
grubenv_header = codes "# GRUB Environment Block\n"

abbrev pub grubenv_size : ℕ
grubenv_size = 1024

unfoldable pub entry_lines : Vars → Bytes
entry_lines [] = []
entry_lines ((key, val) ∷ rest) = (key ++ (b'=' ∷ val)) ++ (b'\n' ∷ entry_lines rest)

unfoldable pub grubenv_serialize : Vars → Bytes
grubenv_serialize vars =
    let result : Bytes = grubenv_header ++ entry_lines vars in
    if ltb (length result) grubenv_size
    then result ++ replicate (grubenv_size - length result) b'#'
    else take grubenv_size result
