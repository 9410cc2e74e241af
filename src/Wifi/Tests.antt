-- ===== src/Wifi/Tests.antt =====
-- The Wi-Fi manager at concrete inputs.
use llamaste.Prelude.{
  ◌≡◌, ◌≢◌, refl, Bool, true, false, [], ◌∷◌, ◌++◌, Bytes, codes, bytes_eq, if◌then◌else◌, arith,
  pos, map, decimal, decimal_fuel, cut, strip_prefix,
}
use llamaste.Text.{
  getline_by, str_trim, trim_left, trim_right, stoi, strtol, digits, skip_spaces, int_text,
  contains,
}
use llamaste.Wifi.{str_split, full_lines, list_rows, parse_list_networks, status_pair}
use llamaste.Wifi.Masking.{
  skip_blanks, past_quote, past_word, behind_keyword, mask_from, mask_psk, escaped, set_psk,
  mask_psk-set_psk,
}
use llamaste.Wifi.Rows.{Entry, IsEntry, table, network_of}
use llamaste.Wifi.Listing.{parse_list_networks-table}
use llamaste.Wifi.Connect.{
  Log, Wpa, find_id, list_networks, ssid_hex, set_network, set_security, set_ssid, create_network,
  state_of, poll, select_network, connect, forget, opened, is_ok,
}
use llamaste.Wifi.Outcome.{IsConnected, connect-IsConnected, forget_lem}

mask_psk-set_psk_example :
    mask_psk (set_psk (pos 0) (codes "secret"))
    ≡ codes "SET_NETWORK " ++ (int_text (pos 0) ++ codes " psk \"****\"")
mask_psk-set_psk_example = mask_psk-set_psk (pos 0) (codes "secret") (ground arith)

-- The filter takes the escaped quote for the end of the password.
leak : mask_psk (set_psk (pos 0) (codes "a\"bc")) ≡ codes "SET_NETWORK 0 psk \"****\"bc\""
unfolding mask_psk mask_from behind_keyword strip_prefix skip_blanks past_quote past_word set_psk
    escaped decimal decimal_fuel
leak = refl

abbrev home : Entry
home = record {
  id = pos 0;
  ssid = codes "home";
  bssid = codes "any";
  current = false;
  disabled = true;
  temp_disabled = false;
}

abbrev cafe : Entry
cafe = record {
  id = pos 1;
  ssid = codes "my cafe";
  bssid = codes "any";
  current = true;
  disabled = false;
  temp_disabled = false;
}

home-IsEntry : IsEntry home
unfolding str_trim trim_left trim_right
home-IsEntry = (ground arith, ((ground arith, refl), (ground arith, λ e. ground arith)))

cafe-IsEntry : IsEntry cafe
unfolding str_trim trim_left trim_right
cafe-IsEntry = (ground arith, ((ground arith, refl), (ground arith, λ e. ground arith)))

parse_list_networks-table_example :
    parse_list_networks (table (home ∷ cafe ∷ [])) ≡ map network_of (home ∷ cafe ∷ [])
parse_list_networks-table_example =
    parse_list_networks-table (home ∷ cafe ∷ []) (home-IsEntry, (cafe-IsEntry, tt))

-- wpa_supplicant with two saved networks; a third gets the id 2.
abbrev demo_reply : Log → Bytes
demo_reply [] = []
demo_reply (cmd ∷ h) =
    if bytes_eq cmd (codes "LIST_NETWORKS")
    then table (home ∷ cafe ∷ [])
    else if bytes_eq cmd (codes "ADD_NETWORK")
    then codes "2\n"
    else if bytes_eq cmd (codes "STATUS")
    then codes "ssid=new\nwpa_state=COMPLETED\n"
    else codes "OK\n"

abbrev demo : Wpa
demo = record {
  iface = codes "wlan0";
  is_open = true;
  is_spawned = false;
  polls = 40;
  reply = demo_reply;
  ip_addr = codes "10.0.0.2";
}

connected : (connect demo (codes "new") (codes "longer one") []).1 ≡ []
unfolding connect opened find_id list_networks parse_list_networks list_rows full_lines getline_by
    bytes_eq str_trim trim_right trim_left decimal str_split stoi strtol skip_spaces digits cut
    strip_prefix decimal_fuel create_network poll select_network set_network set_security set_ssid
    ssid_hex state_of escaped set_psk status_pair
connected = refl

connect-IsConnected_example :
    IsConnected demo.reply (connect demo (codes "new") (codes "longer one") []).0
connect-IsConnected_example =
    connect-IsConnected demo (codes "new") (codes "longer one") [] connected

listed : demo_reply (codes "LIST_NETWORKS" ∷ []) ≡ table (home ∷ cafe ∷ [])
unfolding bytes_eq
listed = refl

other : home.ssid ≢ codes "my cafe"
other e = ground arith

forget_lem_example :
    let h' : Log = (codes "REMOVE_NETWORK " ++ int_text (pos 1)) ∷ codes "LIST_NETWORKS" ∷ [] in
    forget demo (codes "my cafe") [] ≡ (
      if is_ok demo h'
      then (codes "SAVE_CONFIG" ∷ h', [])
      else (h', codes "REMOVE_NETWORK failed: " ++ str_trim (demo_reply h')))
forget_lem_example =
    forget_lem demo (codes "my cafe") [] (home ∷ []) cafe [] (λ e. ground arith) refl
      (home-IsEntry, (cafe-IsEntry, tt)) listed (other, tt) refl refl

-- wpa_supplicant that refuses each password and lists the network once it is added.
abbrev added : Log → Bool
added [] = false
added (cmd ∷ h) = if bytes_eq cmd (codes "ADD_NETWORK") then true else added h

abbrev strict_reply : Log → Bytes
strict_reply [] = []
strict_reply (cmd ∷ h) =
    if bytes_eq cmd (codes "LIST_NETWORKS")
    then table (if added h then home ∷ [] else [])
    else if bytes_eq cmd (codes "ADD_NETWORK")
    then codes "0\n"
    else if contains cmd (codes " psk ")
    then codes "FAIL\n"
    else if bytes_eq cmd (codes "STATUS")
    then codes "wpa_state=SCANNING\n"
    else codes "OK\n"

abbrev strict : Wpa
strict = record demo { polls = 1; reply = strict_reply }

-- The refused attempt leaves the network behind, and the next one gives no password.
retry :
    (connect strict
      (codes "home")
      (codes "right one")
      (connect strict (codes "home") (codes "bad") []).0).0
    ≡ codes "STATUS"
      ∷ codes "SELECT_NETWORK 0"
      ∷ codes "SET_NETWORK 0 bssid any"
      ∷ codes "LIST_NETWORKS"
      ∷ codes "SET_NETWORK 0 psk \"bad\""
      ∷ codes "SET_NETWORK 0 ssid 686f6d65"
      ∷ codes "ADD_NETWORK"
      ∷ codes "LIST_NETWORKS"
      ∷ []
unfolding connect opened find_id list_networks parse_list_networks list_rows full_lines getline_by
    bytes_eq str_trim trim_right trim_left decimal str_split stoi strtol skip_spaces digits cut
    strip_prefix decimal_fuel create_network poll select_network set_network set_security set_ssid
    ssid_hex state_of escaped set_psk status_pair
retry = refl
