-- ===== src/Wifi/Connect.antt =====
-- src/llamaste/wifi.cpp: `connect`, `disconnect`, `forget`, `clear_all_bssids` and
-- `list_networks`. The commands given to `wpa` are a list, the newest first; wpa_supplicant is a function
-- from it to the reply, which is empty where the socket fails.
use Prim.Native.String.{String}
use llamaste.Prelude.{
  ℕ, zero, suc, ◌+◌, ◌-◌, ◌/◌, ◌%◌, Bool, true, false, not, ◌||◌, Option, none, some, List, [], ◌∷◌,
  ◌++◌, Bytes, codes, is_empty, bytes_eq, ℤ, pos, negsuc, ltb, if◌then◌else◌,
}
use llamaste.Text.{getlines, str_trim, stoi, int_text}
use llamaste.Wifi.{Network, parse_list_networks, status_pair}
use llamaste.Wifi.Masking.{set_psk}

abbrev pub Log : Type 0
Log = List Bytes

-- `is_open` is `ctrl_fd_ >= 0 || open_ctrl()`, `is_spawned` the same after the callback that starts
-- the daemon, `polls` how many times the loop of 20 seconds asks for the state.
pub record Wpa : Type 0 where
  pub iface : Bytes
  pub is_open : Bool
  pub is_spawned : Bool
  pub polls : ℕ
  pub reply : Log → Bytes
  pub ip_addr : Bytes

abbrev pub has_wifi : Wpa → Bool
has_wifi w = not (is_empty w.iface)

-- The network with that name that the list has first; -1 is none.
unfoldable pub find_id : Bytes → List Network → ℤ
find_id ssid [] = negsuc 0
find_id ssid (n ∷ nets) =
    let rest = find_id ssid nets in if bytes_eq n.ssid ssid then n.network_id else rest

unfoldable pub list_networks : Wpa → Log → Log × List Network
list_networks w h =
    if not (has_wifi w) || not w.is_open
    then (h, [])
    else (codes "LIST_NETWORKS" ∷ h, parse_list_networks (w.reply (codes "LIST_NETWORKS" ∷ h)))

abbrev hexd : ℕ → ℕ
hexd d = if ltb d 10 then b'0' + d else b'a' + (d - 10)

unfoldable pub ssid_hex : Bytes → Bytes
ssid_hex [] = []
ssid_hex (c ∷ cs) = hexd (c / 16) ∷ hexd (c % 16) ∷ ssid_hex cs

unfoldable pub set_network : ℤ → Bytes → Bytes
set_network id rest = codes "SET_NETWORK " ++ (int_text id ++ rest)

abbrev pub is_ok : Wpa → Log → Bool
is_ok w h = bytes_eq (str_trim (w.reply h)) (codes "OK")

-- Either the error, or the id of the network.
pub data Created : Type 0 where
  refused : Bytes → Created
  network : ℤ → Created

abbrev pub answered : Wpa → Log → ℤ → String → Log × Created
answered w h id error = (h, if is_ok w h then network id else refused (codes error))

unfoldable pub set_security : Wpa → ℤ → Bytes → Log → Log × Created
set_security w id psk h =
    if is_empty psk
    then answered w (set_network id (codes " key_mgmt NONE") ∷ h) id "SET_NETWORK key_mgmt failed"
    else answered w (set_psk id psk ∷ h) id "SET_NETWORK psk failed"

unfoldable pub set_ssid : Wpa → ℤ → Bytes → Bytes → Log → Log × Created
set_ssid w id ssid psk h =
    let h' : Log = set_network id (codes " ssid " ++ ssid_hex ssid) ∷ h in
    if is_ok w h' then set_security w id psk h' else (h', refused (codes "SET_NETWORK ssid failed"))

abbrev added : Wpa → Bytes → Bytes → Log → Bytes → Option ℤ → Log × Created
added w ssid psk h r none = (h, refused (codes "ADD_NETWORK unexpected reply: " ++ r))
added w ssid psk h r (some id) = set_ssid w id ssid psk h

unfoldable pub create_network : Wpa → Bytes → Bytes → Log → Log × Created
create_network w ssid psk h =
    let h' : Log = codes "ADD_NETWORK" ∷ h in
    let r : Bytes = str_trim (w.reply h') in
    if bytes_eq r (codes "FAIL")
    then (h', refused (codes "ADD_NETWORK failed"))
    else added w ssid psk h' r (stoi r)

abbrev pub is_key : Bytes → Option (Bytes × Bytes) → Option Bytes
is_key key none = none
is_key key (some (k, v)) = if bytes_eq k key then some v else none

abbrev or_else : Option Bytes → Bytes → Bytes
or_else none later = later
or_else (some v) later = v

-- The value of the first line with `wpa_state`; without one the state stays.
unfoldable pub state_of : Bytes → List Bytes → Bytes
state_of last [] = last
state_of last (line ∷ lines) =
    or_else (is_key (codes "wpa_state") (status_pair line)) (state_of last lines)

abbrev pub completed : Bytes
completed = codes "COMPLETED"

unfoldable pub poll : Wpa → ℕ → Bytes → Log → Log × Bytes
poll w zero last h = (h, last)
poll w (suc k) last h =
    let h' : Log = codes "STATUS" ∷ h in
    let state : Bytes = state_of last (getlines [] (w.reply h')) in
    let more = poll w k state h' in if bytes_eq state completed then (h', state) else more

-- Behind the loop; `created_new` as in the source.
abbrev pub conclude : Bool → ℤ → Log × Bytes → Log × Bytes
conclude created_new id (h, state) =
    if bytes_eq state completed then (codes "SAVE_CONFIG" ∷ h, []) else (
      if created_new then (codes "REMOVE_NETWORK " ++ int_text id) ∷ h else h,
      codes "Connection failed (state: " ++ (state ++ codes ")"),
    )

unfoldable pub select_network : Wpa → Bool → ℤ → Log → Log × Bytes
select_network w created_new id h =
    let h' : Log =
      (codes "SELECT_NETWORK " ++ int_text id) ∷ set_network id (codes " bssid any") ∷ h in
    if is_ok w h'
    then conclude created_new id (poll w w.polls [] h')
    else (h', codes "SELECT_NETWORK failed")

abbrev pub select_created : Wpa → Log × Created → Log × Bytes
select_created w (h, refused e) = (h, e)
select_created w (h, network id) = select_network w true id h

abbrev pub is_negative : ℤ → Bool
is_negative (pos n) = false
is_negative (negsuc n) = true

abbrev pub join_network : Wpa → Bytes → Bytes → Log × List Network → Log × Bytes
join_network w ssid psk (h, saved) =
    if is_negative (find_id ssid saved)
    then select_created w (create_network w ssid psk h)
    else select_network w false (find_id ssid saved) h

-- The daemon where its socket can be opened, at once or after the callback.
unfoldable pub opened : Wpa → Option Wpa
opened w =
    if w.is_open then some w else if w.is_spawned then some (record w { is_open = true }) else none

abbrev pub connect_over : Option Wpa → Bytes → Bytes → Log → Log × Bytes
connect_over none ssid psk h = (h, codes "wpa_supplicant not running")
connect_over (some w) ssid psk h = join_network w ssid psk (list_networks w h)

-- The commands with the new ones, and the error, which is empty on success.
unfoldable pub connect : Wpa → Bytes → Bytes → Log → Log × Bytes
connect w ssid psk h =
    if not (has_wifi w) then (h, codes "No WiFi interface") else connect_over (opened w) ssid psk h

unfoldable pub disconnect : Wpa → Log → Log × Bytes
disconnect w h =
    if not (has_wifi w)
    then (h, codes "No WiFi interface")
    else if not w.is_open
    then (h, codes "wpa_supplicant not running")
    else let h' : Log = codes "DISCONNECT" ∷ h in
      let r : Bytes = str_trim (w.reply h') in
      (h', if bytes_eq r (codes "OK") then [] else codes "DISCONNECT failed: " ++ r)

abbrev remove_found : Wpa → Bytes → ℤ → Log → Log × Bytes
remove_found w ssid id h =
    if is_negative id
    then (h, codes "Network not found: " ++ ssid)
    else let h' : Log = (codes "REMOVE_NETWORK " ++ int_text id) ∷ h in
      let r : Bytes = str_trim (w.reply h') in
      if bytes_eq r (codes "OK")
      then (codes "SAVE_CONFIG" ∷ h', [])
      else (h', codes "REMOVE_NETWORK failed: " ++ r)

abbrev forget_listed : Wpa → Bytes → Log × List Network → Log × Bytes
forget_listed w ssid (h, saved) = remove_found w ssid (find_id ssid saved) h

unfoldable pub forget : Wpa → Bytes → Log → Log × Bytes
forget w ssid h =
    if not (has_wifi w)
    then (h, codes "No WiFi interface")
    else if not w.is_open
    then (h, codes "wpa_supplicant not running")
    else forget_listed w ssid (list_networks w h)

unfoldable pub clear_bssids : List Network → Log → Log
clear_bssids [] h = h
clear_bssids (n ∷ nets) h =
    clear_bssids nets
      (if is_negative n.network_id then h else set_network n.network_id (codes " bssid any") ∷ h)

abbrev save_cleared : Log × List Network → Log
save_cleared (h, []) = h
save_cleared (h, n ∷ nets) = codes "SAVE_CONFIG" ∷ clear_bssids (n ∷ nets) h

unfoldable pub clear_all_bssids : Wpa → Log → Log
clear_all_bssids w h = if not w.is_open then h else save_cleared (list_networks w h)
