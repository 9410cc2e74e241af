-- ===== src/Wifi.antt =====
-- src/llamaste/wifi.h and src/llamaste/wifi.cpp: the networks, and what is read of the replies of
-- wpa_supplicant: `str_split`, `classify_security`, `parse_scan_results`, `parse_list_networks` and
-- the lines of STATUS.
mod Connect
mod Listing
mod Masking
mod Outcome
mod Rows
mod Sent
mod Status
mod Tests
use llamaste.Prelude.{
  ℕ, zero, suc, Bool, true, false, Option, none, some, List, [], ◌∷◌, ◌++◌, Bytes, codes, is_empty,
  bytes_eq, cut, ℤ, pos, negsuc, ◌==◌, if◌then◌else◌,
}
use llamaste.Text.{getlines, str_trim, stoi, contains}

pub record Network : Type 0 where
  pub ssid : Bytes
  pub bssid : Bytes
  pub signal_dbm : ℤ
  pub freq_mhz : ℤ
  pub security : Bytes
  pub network_id : ℤ
  pub connected : Bool
  pub saved : Bool

-- `str_split` with `max_parts` one more than `k`; `token` is what was read of the present part.
unfoldable pub str_split : ℕ → ℕ → Bytes → Bytes → List Bytes
str_split delim k token [] = token ∷ []
str_split delim zero token (c ∷ cs) = str_split delim zero (token ++ c ∷ []) cs
str_split delim (suc k) token (c ∷ cs) =
    let next = str_split delim k [] cs in
    let longer = str_split delim (suc k) (token ++ c ∷ []) cs in
    if c == delim then token ∷ next else longer

unfoldable pub classify_security : Bytes → Bytes
classify_security flags =
    if contains flags (codes "WPA2")
    then codes "WPA2-PSK"
    else if contains flags (codes "WPA")
    then codes "WPA-PSK"
    else if contains flags (codes "WEP")
    then codes "WEP"
    else codes "OPEN"

-- The member keeps its 0 where `stoi` throws.
abbrev int_or_zero : Option ℤ → ℤ
int_or_zero none = pos 0
int_or_zero (some i) = i

-- The lines of a table: trimmed, without the empty ones.
unfoldable pub full_lines : List Bytes → List Bytes
full_lines [] = []
full_lines (line ∷ lines) =
    let rest = full_lines lines in
    let trimmed : Bytes = str_trim line in if is_empty trimmed then rest else trimmed ∷ rest

-- The first of them is the header.
abbrev pub below_header : List Bytes → List Bytes
below_header [] = []
below_header (header ∷ lines) = lines

abbrev scan_row : List Bytes → List Network → List Network
scan_row (b ∷ f ∷ s ∷ flags ∷ name ∷ []) nets =
    let ssid : Bytes = str_trim name in
    if is_empty ssid
    then nets
    else record {
      ssid = ssid;
      bssid = str_trim b;
      signal_dbm = int_or_zero (stoi (str_trim s));
      freq_mhz = int_or_zero (stoi (str_trim f));
      security = classify_security (str_trim flags);
      network_id = negsuc 0;
      connected = false;
      saved = false;
    }
      ∷ nets
scan_row _ nets = nets

unfoldable pub scan_rows : List Bytes → List Network
scan_rows [] = []
scan_rows (line ∷ lines) = scan_row (str_split b'\t' 4 [] line) (scan_rows lines)

unfoldable pub parse_scan_results : Bytes → List Network
parse_scan_results raw = scan_rows (below_header (full_lines (getlines [] raw)))

abbrev pub saved_network : ℤ → Bytes → Bytes → Bool → Network
saved_network id ssid bssid connected = record {
  ssid = ssid;
  bssid = bssid;
  signal_dbm = pos 0;
  freq_mhz = pos 0;
  security = [];
  network_id = id;
  connected = connected;
  saved = true;
}

-- `catch (...) { continue; }`
abbrev pub with_id : Option ℤ → Bytes → Bytes → Bool → List Network → List Network
with_id none ssid bssid connected nets = nets
with_id (some id) ssid bssid connected nets = saved_network id ssid bssid connected ∷ nets

abbrev pub list_row : List Bytes → List Network → List Network
list_row (id ∷ ssid ∷ bssid ∷ []) nets =
    with_id (stoi (str_trim id)) (str_trim ssid) (str_trim bssid) false nets
list_row (id ∷ ssid ∷ bssid ∷ flags ∷ []) nets =
    with_id (stoi (str_trim id)) (str_trim ssid) (str_trim bssid)
      (contains (str_trim flags) (codes "CURRENT")) nets
list_row _ nets = nets

unfoldable pub list_rows : List Bytes → List Network
list_rows [] = []
list_rows (line ∷ lines) = list_row (str_split b'\t' 3 [] line) (list_rows lines)

unfoldable pub parse_list_networks : Bytes → List Network
parse_list_networks raw = list_rows (below_header (full_lines (getlines [] raw)))

abbrev split_value : Option (Bytes × Bytes) → Option (Bytes × Bytes)
split_value none = none
split_value (some (key, val)) = some (str_trim key, str_trim val)

-- `key=value`, both trimmed; `none` is a line without `=`.
unfoldable pub status_pair : Bytes → Option (Bytes × Bytes)
status_pair line = split_value (cut (codes "=") line)
