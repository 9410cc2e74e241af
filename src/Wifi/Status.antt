-- ===== src/Wifi/Status.antt =====
-- src/llamaste/wifi.cpp: `status`.
use llamaste.Prelude.{
  Bool, true, false, not, ◌&&◌, Option, none, some, List, [], ◌∷◌, Bytes, codes, is_empty, bytes_eq,
  ℤ, pos, if◌then◌else◌,
}
use llamaste.Text.{getlines, stoi}
use llamaste.Wifi.{status_pair}
use llamaste.Wifi.Connect.{Log, Wpa, has_wifi, completed}

pub record Status : Type 0 where
  pub available : Bool
  pub daemon_running : Bool
  pub iface : Bytes
  pub ssid : Bytes
  pub bssid : Bytes
  pub ip_addr : Bytes
  pub state : Bytes
  pub signal_dbm : ℤ

abbrev signal : Option ℤ → Status → Status
signal none s = s
signal (some dbm) s = record s { signal_dbm = dbm }

abbrev status_value : Option (Bytes × Bytes) → Status → Status
status_value none s = s
status_value (some (key, val)) s =
    if bytes_eq key (codes "wpa_state")
    then record s { state = val }
    else if bytes_eq key (codes "ssid")
    then record s { ssid = val }
    else if bytes_eq key (codes "bssid")
    then record s { bssid = val }
    else if bytes_eq key (codes "ip_address")
    then record s { ip_addr = val }
    else if bytes_eq key (codes "signal_level")
    then signal (stoi val) s
    else s

unfoldable pub status_lines : List Bytes → Status → Status
status_lines [] s = s
status_lines (line ∷ lines) s = status_lines lines (status_value (status_pair line) s)

abbrev known_state : Status → Status
known_state s = if is_empty s.state then record s { state = codes "UNKNOWN" } else s

abbrev known_address : Wpa → Status → Status
known_address w s =
    if is_empty s.ip_addr && bytes_eq s.state completed then record s { ip_addr = w.ip_addr } else s

unfoldable pub wifi_status : Wpa → Log → Log × Status
wifi_status w h =
    let s : Status = record {
      available = has_wifi w;
      daemon_running = false;
      iface = w.iface;
      ssid = [];
      bssid = [];
      ip_addr = [];
      state = [];
      signal_dbm = pos 0;
    } in
    if not (has_wifi w)
    then (h, s)
    else if not w.is_open
    then (h, record s { state = codes "DISCONNECTED" })
    else let h' : Log = codes "STATUS" ∷ h in
      let running : Status = record s { daemon_running = true } in
      if is_empty (w.reply h')
      then (h', record running { state = codes "DISCONNECTED" })
      else (h', known_address w (known_state (status_lines (getlines [] (w.reply h')) running)))
