-- ===== src/Cluster.antt =====
-- src/llamaste/cluster.h and cluster.cpp: the peers that a node knows and the election of the
-- coordinator. The model tiers, the capacity and the election's laws are in the modules below.
--
-- A time is the count of nanoseconds of the steady clock. The mutex makes each operation one step.
-- `topology_cb` says whether a callback is set, and `fired` counts its calls.
mod Tests
pub mod Scale
pub mod Tiers
pub mod Capacity
pub mod Selection
pub mod Split
pub mod Election
pub mod Peers
use llamaste.Prelude.{
  ℕ, suc, ◌+◌, ◌*◌, ◌/◌, ◌%◌, ◌^◌, ◌-◌, Bool, true, false, not, ◌&&◌, ◌||◌, List, [], ◌∷◌, ◌++◌,
  Bytes, codes, bytes_eq, bytes_ltb, decimal, ℤ, pos, negsuc, sub_ℕ, ltb_ℤ, leb_ℤ, eqb_ℤ, signed32,
  ◌==◌, if◌then◌else◌, length, ltb,
}

pub record PeerInfo : Type 0 where
  pub hostname : Bytes
  pub ip : Bytes
  pub rpc_port : ℕ
  pub ram_mb : ℕ
  pub cpu_cores : ℕ
  pub model : Bytes
  pub last_seen : ℕ

pub data ClusterState : Type 0 where
  standalone discovering coordinator worker : ClusterState

pub record ClusterManager : Type 0 where
  pub self : PeerInfo
  pub peers : List PeerInfo
  pub state : ClusterState
  pub elected : PeerInfo
  pub topology_cb : Bool
  pub fired : ℕ

-- Both conversions to int and the sum wrap at 32 bits.
unfoldable pub election_score : PeerInfo → ℤ
election_score p = signed32 ((p.ram_mb / 1024 * 10 + p.cpu_cores) % 2 ^ 32)

unfoldable pub elect_loop : PeerInfo → ℤ → List PeerInfo → PeerInfo
elect_loop best best_score [] = best
elect_loop best best_score (p ∷ ps) =
    let s : ℤ = election_score p in
    let wins = ltb_ℤ best_score s || (eqb_ℤ s best_score && bytes_ltb p.ip best.ip) in
    elect_loop (if wins then p else best) (if wins then s else best_score) ps

unfoldable pub elect_coordinator : PeerInfo → List PeerInfo → PeerInfo
elect_coordinator self peers = elect_loop self (election_score self) peers

unfoldable pub set_self_info : PeerInfo → ClusterManager → ClusterManager
set_self_info self c = record c { self = self }

-- The peer with the given endpoint is overwritten, or a new one appended.
unfoldable pub put_peer : PeerInfo → List PeerInfo → List PeerInfo
put_peer peer [] = peer ∷ []
put_peer peer (p ∷ ps) =
    if bytes_eq p.ip peer.ip && p.rpc_port == peer.rpc_port then peer ∷ ps else p ∷ put_peer peer ps

unfoldable pub add_peer : ℕ → PeerInfo → ClusterManager → ClusterManager
add_peer now peer c = record c { peers = put_peer (record peer { last_seen = now }) c.peers }

-- `duration_cast<seconds>` drops the fraction.
abbrev pub whole_seconds : ℤ → ℤ
whole_seconds (pos n) = pos (n / 1000000000)
whole_seconds (negsuc n) = sub_ℕ 0 (suc n / 1000000000)

unfoldable pub is_stale : ℕ → ℤ → PeerInfo → Bool
is_stale now timeout p = leb_ℤ timeout (whole_seconds (sub_ℕ now p.last_seen))

unfoldable pub remove_stale : ℕ → ℤ → List PeerInfo → List PeerInfo × Bool
remove_stale now timeout [] = ([], false)
remove_stale now timeout (p ∷ ps) =
    let (rest, changed) = remove_stale now timeout ps in
    if is_stale now timeout p then (rest, true) else (p ∷ rest, changed)

unfoldable pub notify : Bool → ClusterManager → ClusterManager
notify should_notify c = if should_notify then record c { fired = c.fired + 1 } else c

unfoldable pub expire_peers : ℕ → ℤ → ClusterManager → ClusterManager
unfolding notify
expire_peers now timeout c =
    let (rest, changed) = remove_stale now timeout c.peers in
    notify (changed && c.topology_cb) (record c { peers = rest })

abbrev pub state_eq : ClusterState → ClusterState → Bool
state_eq standalone standalone = true
state_eq discovering discovering = true
state_eq coordinator coordinator = true
state_eq worker worker = true
state_eq _ _ = false

abbrev role : Bool → List PeerInfo → ClusterState
role wins [] = standalone
role wins (p ∷ ps) = if wins then coordinator else worker

unfoldable pub run_election : ClusterManager → ClusterManager
unfolding notify
run_election c =
    let winner : PeerInfo = elect_coordinator c.self c.peers in
    let state : ClusterState = role (bytes_eq winner.ip c.self.ip) c.peers in
    notify (not (state_eq state c.state) && c.topology_cb)
      (record c { elected = winner; state = state })

unfoldable pub role_name : ClusterManager → Bytes
role_name c = elim c.state [
  | standalone ↦ codes "standalone"
  | discovering ↦ codes "discovering"
  | coordinator ↦ codes "coordinator"
  | worker ↦ codes "worker"
]

unfoldable pub peer_count : ClusterManager → ℕ
peer_count c = length c.peers

unfoldable pub is_coordinator : ClusterManager → Bool
is_coordinator c = state_eq c.state coordinator || state_eq c.state standalone

unfoldable pub set_topology_change_callback : Bool → ClusterManager → ClusterManager
set_topology_change_callback cb c = record c { topology_cb = cb }

unfoldable pub fire_topology_callback : ClusterManager → ClusterManager
unfolding notify
fire_topology_callback c = notify c.topology_cb c

abbrev endpoint : PeerInfo → Bytes
endpoint p = p.ip ++ (codes ":" ++ decimal p.rpc_port)

unfoldable pub endpoints : List PeerInfo → Bytes
endpoints [] = []
endpoints (p ∷ ps) = codes "," ++ (endpoint p ++ endpoints ps)

unfoldable pub rpc_endpoint_list : ClusterManager → Bytes
unfolding endpoints
rpc_endpoint_list c = endpoint c.self ++ endpoints c.peers
