-- ===== src/Wifi/Sent.antt =====
-- src/llamaste/wifi.cpp: the commands that `connect` and `forget` give to wpa_supplicant, and what
-- they report.
use llamaste.Prelude.{
  ℕ, zero, suc, ◌≤◌, Bool, true, false, not, ◌||◌, List, [], ◌∷◌, ◌++◌, Bytes, codes, bytes_eq,
  if◌then◌else◌, All, All-append, arith, Bool-cases, Option-cases, inl, inr, ℤ, pos, negsuc,
  decimal, decimal_digits, DecimalDigit,
}
use llamaste.Text.{getlines, str_trim, stoi, int_text}
use llamaste.Wifi.{Network}
use llamaste.Wifi.Masking.{escaped, set_psk}
use llamaste.Wifi.Connect.{
  Log, Wpa, has_wifi, find_id, list_networks, ssid_hex, set_network, is_ok, Created, refused,
  network, set_security, set_ssid, create_network, state_of, completed, poll, conclude,
  select_network, select_created, is_negative, join_network, opened, connect,
}

-- No control byte.
abbrev pub IsClean : Bytes → Type 0
IsClean = All (λ c. 32 ≤ c)

IsClean-digits : (ds : Bytes) → All DecimalDigit ds → IsClean ds
IsClean-digits [] h = h
IsClean-digits (d ∷ ds) h = (omega (arith, h.0.0), IsClean-digits ds h.1)

int_text-IsClean : (id : ℤ) → IsClean (int_text id)
int_text-IsClean (pos n) = IsClean-digits (decimal n) (decimal_digits n)
int_text-IsClean (negsuc n) =
    (omega arith, IsClean-digits (decimal (suc n)) (decimal_digits (suc n)))

append-IsClean : (a b : Bytes) → IsClean a → IsClean b → IsClean (a ++ b)
append-IsClean = All-append (λ (c : ℕ). 32 ≤ c)

ssid_hex-IsClean : (ssid : Bytes) → IsClean (ssid_hex ssid)
unfolding ssid_hex
ssid_hex-IsClean [] = ground arith
ssid_hex-IsClean (c ∷ cs) = ground (arith, ssid_hex-IsClean cs)

escaped-IsClean : (psk : Bytes) → IsClean (escaped psk)
unfolding escaped
escaped-IsClean [] = ground arith
escaped-IsClean (c ∷ cs) = ground (arith, escaped-IsClean cs)

set_network-IsClean : (id : ℤ) (rest : Bytes) → IsClean rest → IsClean (set_network id rest)
unfolding set_network
set_network-IsClean id rest h =
    append-IsClean (codes "SET_NETWORK ") (int_text id ++ rest) (ground arith)
      (append-IsClean (int_text id) rest (int_text-IsClean id) h)

set_psk-IsClean : (id : ℤ) (psk : Bytes) → IsClean (set_psk id psk)
unfolding set_psk
set_psk-IsClean id psk =
    let value : Bytes = codes " psk \"" ++ (escaped psk ++ codes "\"") in
    append-IsClean (codes "SET_NETWORK ") (int_text id ++ value) (ground arith) (
      append-IsClean (int_text id) value (int_text-IsClean id) (
        append-IsClean (codes " psk \"") (escaped psk ++ codes "\"") (ground arith)
          (append-IsClean (escaped psk) (codes "\"") (escaped-IsClean psk) (ground arith))))

abbrev pub AllClean : Log → Type 0
AllClean = All IsClean

set_security-IsClean :
    (w : Wpa) (id : ℤ) (psk : Bytes) (h : Log) → AllClean h → AllClean (set_security w id psk h).0
unfolding set_security
set_security-IsClean w id [] h c =
    (set_network-IsClean id (codes " key_mgmt NONE") (ground arith), c)
set_security-IsClean w id (x ∷ psk) h c = (set_psk-IsClean id (x ∷ psk), c)

set_ssid-IsClean :
    (w : Wpa) (id : ℤ) (ssid psk : Bytes) (h : Log)
    → AllClean h
    → AllClean (set_ssid w id ssid psk h).0
unfolding set_ssid
set_ssid-IsClean w id ssid psk h c =
    let name : Bytes = codes " ssid " ++ ssid_hex ssid in
    let h' : Log = set_network id name ∷ h in
    let d : AllClean h' = (
      set_network-IsClean id name
          (append-IsClean (codes " ssid ") (ssid_hex ssid) (ground arith) (ssid_hex-IsClean ssid)),
      c,
    ) in
    elim (Bool-cases (is_ok w h')) [
      | inl e ↦ rw e (set_security-IsClean w id psk h' d)
      | inr e ↦ rw e d
    ]

create_network-IsClean :
    (w : Wpa) (ssid psk : Bytes) (h : Log) → AllClean h → AllClean (create_network w ssid psk h).0
unfolding create_network
create_network-IsClean w ssid psk h c =
    let h' : Log = codes "ADD_NETWORK" ∷ h in
    let r : Bytes = str_trim (w.reply h') in
    let d : AllClean h' = (ground arith, c) in
    elim (Bool-cases (bytes_eq r (codes "FAIL"))) [
      | inl e ↦ rw e d
      | inr e ↦ elim (Option-cases (stoi r)) [
        | inl f ↦ rw (e, f) d
        | inr (id, f) ↦ rw (e, f) (set_ssid-IsClean w id ssid psk h' d)
      ]
    ]

poll-IsClean :
    (w : Wpa) (k : ℕ) (last : Bytes) (h : Log) → AllClean h → AllClean (poll w k last h).0
unfolding poll
poll-IsClean w zero last h c = c
poll-IsClean w (suc k) last h c =
    let h' : Log = codes "STATUS" ∷ h in
    let state : Bytes = state_of last (getlines [] (w.reply h')) in
    let d : AllClean h' = (ground arith, c) in
    elim (Bool-cases (bytes_eq state completed)) [
      | inl e ↦ rw e d
      | inr e ↦ rw e (poll-IsClean w k state h' d)
    ]

conclude-IsClean :
    (created_new : Bool) (id : ℤ) (h : Log) (state : Bytes)
    → AllClean h
    → AllClean (conclude created_new id (h, state)).0
conclude-IsClean created_new id h state c = elim (Bool-cases (bytes_eq state completed)) [
  | inl e ↦ rw e (ground arith, c)
  | inr e ↦ rw e (undone created_new)
]
  where
    undone : (b : Bool) → AllClean (if b then (codes "REMOVE_NETWORK " ++ int_text id) ∷ h else h)
    undone true = (
      append-IsClean (codes "REMOVE_NETWORK ") (int_text id) (ground arith) (int_text-IsClean id),
      c,
    )
    undone false = c

select_network-IsClean :
    (w : Wpa) (created_new : Bool) (id : ℤ) (h : Log)
    → AllClean h
    → AllClean (select_network w created_new id h).0
unfolding select_network
select_network-IsClean w created_new id h c =
    let h' : Log =
      (codes "SELECT_NETWORK " ++ int_text id) ∷ set_network id (codes " bssid any") ∷ h in
    let d : AllClean h' = (
      append-IsClean (codes "SELECT_NETWORK ") (int_text id) (ground arith) (int_text-IsClean id),
      (set_network-IsClean id (codes " bssid any") (ground arith), c),
    ) in
    let polled : Log × Bytes = poll w w.polls [] h' in
    elim (Bool-cases (is_ok w h')) [
      | inl e ↦
          rw e (conclude-IsClean created_new id polled.0 polled.1 (poll-IsClean w w.polls [] h' d))
      | inr e ↦ rw e d
    ]

select_created-IsClean :
    (w : Wpa) (r : Log × Created) → AllClean r.0 → AllClean (select_created w r).0
select_created-IsClean w (h, refused e) c = c
select_created-IsClean w (h, network id) c = select_network-IsClean w true id h c

join_network-IsClean :
    (w : Wpa) (ssid psk : Bytes) (h : Log) (saved : List Network)
    → AllClean h
    → AllClean (join_network w ssid psk (h, saved)).0
join_network-IsClean w ssid psk h saved c = elim (Bool-cases (is_negative (find_id ssid saved))) [
  | inl e ↦ rw e (
      select_created-IsClean w (create_network w ssid psk h)
        (create_network-IsClean w ssid psk h c))
  | inr e ↦ rw e (select_network-IsClean w false (find_id ssid saved) h c)
]

list_networks-IsClean : (w : Wpa) (h : Log) → AllClean h → AllClean (list_networks w h).0
unfolding list_networks
list_networks-IsClean w h c = elim (Bool-cases (not (has_wifi w) || not w.is_open)) [
  | inl e ↦ rw e c
  | inr e ↦ rw e (ground arith, c)
]

-- No command that `connect` gives to wpa_supplicant holds a control byte, whatever the name of the
-- network, the password and the replies are, if no earlier command does.
pub connect-IsClean :
    (w : Wpa) (ssid psk : Bytes) (h : Log) → AllClean h → AllClean (connect w ssid psk h).0
unfolding connect
connect-IsClean w ssid psk h c = elim (Bool-cases (not (has_wifi w))) [
  | inl e ↦ rw e c
  | inr e ↦ elim (Option-cases (opened w)) [
    | inl o ↦ rw (e, o) c
    | inr (v, o) ↦
        rw (e, o)
          (join_network-IsClean v ssid psk (list_networks v h).0 (list_networks v h).1
            (list_networks-IsClean v h c))
  ]
]
