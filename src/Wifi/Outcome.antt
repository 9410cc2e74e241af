-- ===== src/Wifi/Outcome.antt =====
-- src/llamaste/wifi.cpp: what the results of `connect` and `forget` say about the daemon.
use Prim.Native.String.{String}
use llamaste.Prelude.{
  Option, ℕ, zero, suc, ◌≡◌, ◌≢◌, refl, ap, sym, ◌∙◌, ◌⊎◌, Bool, true, false, not, none, some, List,
  [], ◌∷◌, ◌++◌, Bytes, codes, is_empty, bytes_eq, bytes_eq_iff, map, if◌then◌else◌, All, arith,
  Bool-cases, Option-cases, inl, inr, ℤ,
}
use llamaste.Text.{getlines, str_trim, stoi, int_text}
use llamaste.Wifi.{Network, status_pair}
use llamaste.Wifi.Masking.{set_psk}
use llamaste.Wifi.Rows.{Entry, IsEntry, table, network_of}
use llamaste.Wifi.Listing.{parse_list_networks-table}
use llamaste.Wifi.Connect.{
  Log, Wpa, has_wifi, find_id, list_networks, is_ok, Created, refused, network, answered,
  set_security, set_ssid, create_network, state_of, is_key, completed, poll, conclude, set_network,
  opened, ssid_hex, select_network, select_created, is_negative, join_network, connect, forget,
}

-- Of the lines that begin with the key `wpa_state` the first has the value COMPLETED.
abbrev pub ShowsCompleted : List Bytes → Type 0
ShowsCompleted [] = ⊥
ShowsCompleted (line ∷ lines) =
    (status_pair line ≡ some (codes "wpa_state", codes "COMPLETED"))
    ⊎ ((is_key (codes "wpa_state") (status_pair line) ≡ none) × ShowsCompleted lines)

-- The last two commands are STATUS, answered by COMPLETED, and SAVE_CONFIG.
abbrev pub IsConnected : (Log → Bytes) → Log → Type 0
IsConnected reply h =
    (h' : Log) × ((h ≡ codes "SAVE_CONFIG" ∷ codes "STATUS" ∷ h')
      × ShowsCompleted (getlines [] (reply (codes "STATUS" ∷ h'))))

is_key-some :
    (key : Bytes) (o : Option (Bytes × Bytes)) {v : Bytes}
    → is_key key o ≡ some v
    → o ≡ some (key, v)
is_key-some key none {v = v} h = absurd (ground arith)
is_key-some key (some (k, x)) {v = v} h = elim (Bool-cases (bytes_eq k key)) [
  | inl e ↦
      let same : k ≡ key = (bytes_eq_iff k key).0 e in let found : some x ≡ some v = rw e at h in cc
  | inr e ↦ absurd (ground (arith, rw e at h))
]

state_of-ShowsCompleted :
    (last : Bytes) (lines : List Bytes)
    → bytes_eq last completed ≡ false
    → state_of last lines ≡ completed
    → ShowsCompleted lines
unfolding state_of
state_of-ShowsCompleted last [] n h = absurd (ground (arith, (bytes_eq_iff last completed).1 h, n))
state_of-ShowsCompleted last (line ∷ lines) n h =
    elim (Option-cases (is_key (codes "wpa_state") (status_pair line))) [
      | inl e ↦ inr (e, state_of-ShowsCompleted last lines n (rw e at h))
      | inr (v, e) ↦
          let value : v ≡ completed = rw e at h in
          inl (is_key-some (codes "wpa_state") (status_pair line) (e ∙ ap some value))
    ]

poll-completed :
    (w : Wpa) (k : ℕ) (last : Bytes) (h : Log)
    → bytes_eq last completed ≡ false
    → bytes_eq (poll w k last h).1 completed ≡ true
    → IsConnected w.reply (codes "SAVE_CONFIG" ∷ (poll w k last h).0)
unfolding poll
poll-completed w zero last h n e = absurd (ground (arith, n, e))
poll-completed w (suc k) last h n e =
    let h' : Log = codes "STATUS" ∷ h in
    let state : Bytes = state_of last (getlines [] (w.reply h')) in
    elim (Bool-cases (bytes_eq state completed)) [
      | inl f ↦ rw f (
        h,
        (
          refl,
          state_of-ShowsCompleted last (getlines [] (w.reply h')) n
              ((bytes_eq_iff state completed).0 f),
        ),
      )
      | inr f ↦ rw f (poll-completed w k state h' f (rw f at e))
    ]

conclude-connected :
    (w : Wpa) (created_new : Bool) (id : ℤ) (h : Log) (state : Bytes)
    → (conclude created_new id (h, state)).1 ≡ []
    → bytes_eq state completed ≡ true
conclude-connected w created_new id h state e = elim (Bool-cases (bytes_eq state completed)) [
  | inl f ↦ f
  | inr f ↦ absurd (ground (arith, rw f at e))
]

select_network-IsConnected :
    (w : Wpa) (created_new : Bool) (id : ℤ) (h : Log)
    → (select_network w created_new id h).1 ≡ []
    → IsConnected w.reply (select_network w created_new id h).0
unfolding select_network
select_network-IsConnected w created_new id h e =
    let h' : Log =
      (codes "SELECT_NETWORK " ++ int_text id) ∷ set_network id (codes " bssid any") ∷ h in
    let polled : Log × Bytes = poll w w.polls [] h' in
    let start : bytes_eq [] completed ≡ false = unfold bytes_eq in refl in
    elim (Bool-cases (is_ok w h')) [
      | inr f ↦ absurd (ground (arith, rw f at e))
      | inl f ↦
          let done : bytes_eq polled.1 completed ≡ true =
            conclude-connected w created_new id polled.0 polled.1 (rw f at e) in
          rw (f, done) (poll-completed w w.polls [] h' start done)
    ]

-- An error is not empty.
abbrev IsLoud : Log × Created → Type 0
IsLoud (h, refused e) = e ≢ []
IsLoud (h, network id) = Unit

answered-IsLoud :
    (w : Wpa) (h : Log) (id : ℤ) (error : String)
    → codes error ≢ []
    → IsLoud (answered w h id error)
answered-IsLoud w h id error n = elim (Bool-cases (is_ok w h)) [ inl e ↦ rw e tt | inr e ↦ rw e n ]

set_security-IsLoud : (w : Wpa) (id : ℤ) (psk : Bytes) (h : Log) → IsLoud (set_security w id psk h)
unfolding set_security
set_security-IsLoud w id [] h =
    answered-IsLoud w (set_network id (codes " key_mgmt NONE") ∷ h) id "SET_NETWORK key_mgmt failed"
      (λ e. ground arith)
set_security-IsLoud w id (c ∷ psk) h =
    answered-IsLoud w (set_psk id (c ∷ psk) ∷ h) id "SET_NETWORK psk failed" (λ e. ground arith)

set_ssid-IsLoud :
    (w : Wpa) (id : ℤ) (ssid psk : Bytes) (h : Log) → IsLoud (set_ssid w id ssid psk h)
unfolding set_ssid
set_ssid-IsLoud w id ssid psk h =
    let h' : Log = set_network id (codes " ssid " ++ ssid_hex ssid) ∷ h in
    elim (Bool-cases (is_ok w h')) [
      | inl e ↦ rw e (set_security-IsLoud w id psk h')
      | inr e ↦ rw e (λ p. ground arith)
    ]

create_network-IsLoud :
    (w : Wpa) (ssid psk : Bytes) (h : Log) → IsLoud (create_network w ssid psk h)
unfolding create_network
create_network-IsLoud w ssid psk h =
    let h' : Log = codes "ADD_NETWORK" ∷ h in
    let r : Bytes = str_trim (w.reply h') in
    elim (Bool-cases (bytes_eq r (codes "FAIL"))) [
      | inl e ↦ rw e (λ p. ground arith)
      | inr e ↦ elim (Option-cases (stoi r)) [
        | inl f ↦ rw (e, f) (λ p. ground arith)
        | inr (id, f) ↦ rw (e, f) (set_ssid-IsLoud w id ssid psk h')
      ]
    ]

select_created-IsConnected :
    (w : Wpa) (r : Log × Created)
    → IsLoud r
    → (select_created w r).1 ≡ []
    → IsConnected w.reply (select_created w r).0
select_created-IsConnected w (h, refused e) n p = absurd (n p)
select_created-IsConnected w (h, network id) n p = select_network-IsConnected w true id h p

join_network-IsConnected :
    (w : Wpa) (ssid psk : Bytes) (h : Log) (saved : List Network)
    → (join_network w ssid psk (h, saved)).1 ≡ []
    → IsConnected w.reply (join_network w ssid psk (h, saved)).0
join_network-IsConnected w ssid psk h saved p =
    elim (Bool-cases (is_negative (find_id ssid saved))) [
      | inl e ↦ rw e (
          select_created-IsConnected w (create_network w ssid psk h)
            (create_network-IsLoud w ssid psk h) (rw e at p))
      | inr e ↦ rw e (select_network-IsConnected w false (find_id ssid saved) h (rw e at p))
    ]

abbrev reply_of : Wpa → Option Wpa → Log → Bytes
reply_of w none = w.reply
reply_of w (some v) = v.reply

opened-reply : (w v : Wpa) → opened w ≡ some v → v.reply ≡ w.reply
unfolding opened
opened-reply w v o = of_tests w w.is_open w.is_spawned v o
  where
    of_tests :
        (w : Wpa) (now later : Bool) (v : Wpa)
        → (if now then some w else if later then some (record w { is_open = true }) else none)
          ≡ some v
        → v.reply ≡ w.reply
    of_tests w true later v o = ap (λ (u : Option Wpa). reply_of w u) (sym o)
    of_tests w false true v o = ap (λ (u : Option Wpa). reply_of w u) (sym o)
    of_tests w false false v o = absurd (ground arith)

-- The result of `connect` is empty, that is success, only where the last two commands are STATUS,
-- in whose reply the first line of the key `wpa_state` has the value COMPLETED, and SAVE_CONFIG.
pub connect-IsConnected :
    (w : Wpa) (ssid psk : Bytes) (h : Log)
    → (connect w ssid psk h).1 ≡ []
    → IsConnected w.reply (connect w ssid psk h).0
unfolding connect
connect-IsConnected w ssid psk h p = elim (Bool-cases (not (has_wifi w))) [
  | inl e ↦ absurd (ground (arith, rw e at p))
  | inr e ↦ elim (Option-cases (opened w)) [
    | inl o ↦ absurd (ground (arith, rw (e, o) at p))
    | inr (v, o) ↦
        rw (e, o, sym (opened-reply w v o))
          (join_network-IsConnected v ssid psk (list_networks v h).0 (list_networks v h).1
            (rw (e, o) at p))
  ]
]

opened_now : (w : Wpa) → w.is_open ≡ true → opened w ≡ some w
unfolding opened
opened_now w o = simp o

-- Where the socket is open and the list has the network with an id that is not negative, `connect`
-- gives the same commands and the same result whatever the password is.
pub connect_saved :
    (w : Wpa) (ssid psk psk' : Bytes) (h : Log)
    → w.is_open ≡ true
    → is_negative (find_id ssid (list_networks w h).1) ≡ false
    → connect w ssid psk h ≡ connect w ssid psk' h
unfolding connect
connect_saved w ssid psk psk' h o s = elim (Bool-cases (not (has_wifi w))) [
  | inl e ↦ rw e refl
  | inr e ↦ rw (e, opened_now w o, s) refl
]

find_id-network_of :
    (ssid : Bytes) (before : List Entry) (e : Entry) (after : List Entry)
    → All (λ b. b.ssid ≢ ssid) before
    → e.ssid ≡ ssid
    → find_id ssid (map network_of (before ++ (e ∷ after))) ≡ e.id
unfolding find_id
find_id-network_of ssid [] e after n h = rw ((bytes_eq_iff e.ssid ssid).1 h) refl
find_id-network_of ssid (b ∷ before) e after n h = elim (Bool-cases (bytes_eq b.ssid ssid)) [
  | inl f ↦ absurd (n.0 ((bytes_eq_iff b.ssid ssid).0 f))
  | inr f ↦ rw f (find_id-network_of ssid before e after n.1 h)
]

-- Where there is a wireless interface, the socket is open and LIST_NETWORKS is answered by the table
-- of some networks, whose ids are `int`s, whose names hold no tab or line feed and no blank at an
-- end, and whose addresses are not empty and hold no blank, `forget` removes the first with the
-- name, by its id if that is not negative, and no other; if the removal is answered by OK it then saves the
-- configuration and reports no error, else it reports the reply.
pub forget_lem :
    (w : Wpa) (ssid : Bytes) (h : Log) (before : List Entry) (e : Entry) (after : List Entry)
    → w.iface ≢ []
    → w.is_open ≡ true
    → All IsEntry (before ++ (e ∷ after))
    → w.reply (codes "LIST_NETWORKS" ∷ h) ≡ table (before ++ (e ∷ after))
    → All (λ b. b.ssid ≢ ssid) before
    → e.ssid ≡ ssid
    → is_negative e.id ≡ false
    → let h' : Log = (codes "REMOVE_NETWORK " ++ int_text e.id) ∷ codes "LIST_NETWORKS" ∷ h in
      forget w ssid h ≡ (
        if is_ok w h'
        then (codes "SAVE_CONFIG" ∷ h', [])
        else (h', codes "REMOVE_NETWORK failed: " ++ str_trim (w.reply h')))
unfolding forget list_networks
forget_lem w ssid h before e after i o a r n m p =
    rw
      (
        filled w.iface i,
        o,
        r,
        parse_list_networks-table (before ++ (e ∷ after)) a,
        find_id-network_of ssid before e after n m,
        p,
      )
      refl
  where
    filled : (t : Bytes) → t ≢ [] → is_empty t ≡ false
    filled [] n = absurd (n refl)
    filled (c ∷ t) n = refl
