-- ===== src/Cluster/Peers.antt =====
-- src/llamaste/cluster.cpp: the table of peers under `add_peer` and `expire_peers`.
use llamaste.Cluster.{
  PeerInfo, ClusterManager, put_peer, add_peer, is_stale, remove_stale, expire_peers,
}
use llamaste.Prelude.{
  ℕ, ◌+◌, ◌≤◌, ◌≡◌, refl, Bool, ◌&&◌, Option, none, some, List, [], ◌∷◌, Bytes, bytes_eq,
  bytes_eq_iff, ℤ, ◌==◌, if◌then◌else◌, ltb, length, arith,
}

-- Whether a peer listens at an address and a port.
abbrev pub listens : Bytes → ℕ → PeerInfo → Bool
listens ip port p = bytes_eq p.ip ip && p.rpc_port == port

-- The first peer at an endpoint.
unfoldable pub find_peer : Bytes → ℕ → List PeerInfo → Option PeerInfo
find_peer ip port [] = none
find_peer ip port (p ∷ ps) = if listens ip port p then some p else find_peer ip port ps

-- No two peers have one endpoint.
abbrev pub HasUniqueEndpoints : List PeerInfo → Type 0
HasUniqueEndpoints [] = Unit
HasUniqueEndpoints (p ∷ ps) = (find_peer p.ip p.rpc_port ps ≡ none) × HasUniqueEndpoints ps

find_peer-put_peer :
    (ip : Bytes) (port : ℕ) (peer : PeerInfo) (ps : List PeerInfo)
    → find_peer ip port (put_peer peer ps)
      ≡ (if listens ip port peer then some peer else find_peer ip port ps)
unfolding find_peer put_peer
find_peer-put_peer ip port peer [] = refl
find_peer-put_peer ip port peer (p ∷ ps) = ground (
  arith,
  find_peer-put_peer ip port peer ps,
  bytes_eq_iff p.ip peer.ip,
  bytes_eq_iff p.ip ip,
  bytes_eq_iff peer.ip ip,
)

put_peer-HasUniqueEndpoints :
    (peer : PeerInfo) (ps : List PeerInfo)
    → HasUniqueEndpoints ps
    → HasUniqueEndpoints (put_peer peer ps)
unfolding find_peer put_peer
put_peer-HasUniqueEndpoints peer [] u = (refl, tt)
put_peer-HasUniqueEndpoints peer (p ∷ ps) u = ground (
  arith,
  put_peer-HasUniqueEndpoints peer ps u.1,
  find_peer-put_peer p.ip p.rpc_port peer ps,
  bytes_eq_iff p.ip peer.ip,
  bytes_eq_iff peer.ip p.ip,
)

abbrev pub keep_fresh : ℕ → ℤ → Option PeerInfo → Option PeerInfo
keep_fresh now timeout none = none
keep_fresh now timeout (some p) = if is_stale now timeout p then none else some p

find_peer-remove_stale :
    (ip : Bytes) (port now : ℕ) (timeout : ℤ) (ps : List PeerInfo)
    → HasUniqueEndpoints ps
    → find_peer ip port (remove_stale now timeout ps).0
      ≡ keep_fresh now timeout (find_peer ip port ps)
unfolding find_peer remove_stale
find_peer-remove_stale ip port now timeout [] u = refl
find_peer-remove_stale ip port now timeout (p ∷ ps) u =
    ground (arith, find_peer-remove_stale ip port now timeout ps u.1, bytes_eq_iff p.ip ip)

remove_stale-HasUniqueEndpoints :
    (now : ℕ) (timeout : ℤ) (ps : List PeerInfo)
    → HasUniqueEndpoints ps
    → HasUniqueEndpoints (remove_stale now timeout ps).0
unfolding remove_stale
remove_stale-HasUniqueEndpoints now timeout [] u = tt
remove_stale-HasUniqueEndpoints now timeout (p ∷ ps) u = ground (
  arith,
  remove_stale-HasUniqueEndpoints now timeout ps u.1,
  find_peer-remove_stale p.ip p.rpc_port now timeout ps u.1,
)

-- The flag that `remove_stale` returns.
remove_stale_changed :
    (now : ℕ) (timeout : ℤ) (ps : List PeerInfo)
    → ((remove_stale now timeout ps).1 ≡ ltb (length (remove_stale now timeout ps).0) (length ps))
      × (length (remove_stale now timeout ps).0 ≤ length ps)
unfolding remove_stale
remove_stale_changed now timeout [] = ground arith
remove_stale_changed now timeout (p ∷ ps) = ground (arith, remove_stale_changed now timeout ps)

-- A peer that is heard of is at its endpoint with the time of now, what is known at any other
-- endpoint stays, and no endpoint is listed twice.
pub find_peer-add_peer :
    (now : ℕ) (peer : PeerInfo) (ip : Bytes) (port : ℕ) (c : ClusterManager)
    → HasUniqueEndpoints c.peers
    → (find_peer ip port (add_peer now peer c).peers ≡ (
        if listens ip port peer
        then some (record peer { last_seen = now })
        else find_peer ip port c.peers))
      × HasUniqueEndpoints (add_peer now peer c).peers
unfolding add_peer
find_peer-add_peer now peer ip port c u = (
  find_peer-put_peer ip port (record peer { last_seen = now }) c.peers,
  put_peer-HasUniqueEndpoints (record peer { last_seen = now }) c.peers u,
)

-- An expiry drops exactly the peers that were not heard of for the timeout, lists no endpoint
-- twice, calls the callback (if one is set) exactly when the number of peers falls, and leaves
-- the state and the elected coordinator alone.
pub expire_peers_lem :
    (now : ℕ) (timeout : ℤ) (ip : Bytes) (port : ℕ) (c : ClusterManager)
    → HasUniqueEndpoints c.peers
    → let c' = expire_peers now timeout c in
      (find_peer ip port c'.peers ≡ keep_fresh now timeout (find_peer ip port c.peers))
      × HasUniqueEndpoints c'.peers
      × (c'.fired ≡ (
          if ltb (length c'.peers) (length c.peers) && c.topology_cb then c.fired + 1 else c.fired))
      × (c'.state ≡ c.state)
      × (c'.elected ≡ c.elected)
unfolding expire_peers
expire_peers_lem now timeout ip port c u = ground (
  arith,
  find_peer-remove_stale ip port now timeout c.peers u,
  remove_stale-HasUniqueEndpoints now timeout c.peers u,
  remove_stale_changed now timeout c.peers,
)
