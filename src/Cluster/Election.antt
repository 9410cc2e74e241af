-- ===== src/Cluster/Election.antt =====
-- src/llamaste/cluster.cpp: the winner of an election, and what nodes with the same view agree on.
use mathlib.Core.Bool.{Bool-set}
use mathlib.Core.List.{Mem, Mem-prop, Perm, mem-cons, mem-cons_self, mem-cons_of_mem, not-mem-nil}
use mathlib.Core.List.Perm
use mathlib.Core.Logic.Or
use mathlib.Core.Path.{subst}
use llamaste.Cluster.{
  PeerInfo, worker, ClusterManager, election_score, elect_loop, elect_coordinator, run_election,
  state_eq,
}
use llamaste.Prelude.{
  ◌≡◌, ◌≢◌, refl, sym, ap, map, ℤ, not, ◌+◌, ◌∙◌, Bool, true, false, ◌&&◌, ◌||◌, List, [], ◌∷◌,
  Bytes, bytes_eq, bytes_eq_iff, bytes_ltb, bytes_ltb_irrefl, bytes_ltb_antisymm, bytes_ltb_asymm,
  bytes_ltb-false_trans, ltb_ℤ, ◌≤ℤ◌, ◌<ℤ◌, eqb_ℤ, eq_of_parts, ◌⊎◌, inl, inr, if◌then◌else◌, arith,
  Bool-cases, All,
}

-- What an election reads of a node. A node never sets the time in its own entry, and each node sets
-- that of its peers by its own clock, so the entries of one node differ.
abbrev pub candidate : PeerInfo → ℤ × Bytes
candidate p = (election_score p, p.ip)

abbrev outdoes : ℤ × Bytes → PeerInfo → Bool
outdoes (score, ip) q =
    ltb_ℤ (election_score q) score || (eqb_ℤ score (election_score q) && bytes_ltb ip q.ip)

-- The test of the loop: `p` takes the place of `q`.
pub beats : PeerInfo → PeerInfo → Bool
beats p q = outdoes (candidate p) q

beats_irrefl : (p : PeerInfo) → beats p p ≡ false
unfolding beats
beats_irrefl p = ground (arith, bytes_ltb_irrefl p.ip)

-- `q` is no worse than `p`, and `r` no worse than `q`.
beats_trans : (p q r : PeerInfo) → beats p q ≡ false → beats q r ≡ false → beats p r ≡ false
unfolding beats
beats_trans p q r h k = ground (arith, bytes_ltb-false_trans p.ip q.ip r.ip)

beats_asymm : (p q : PeerInfo) → beats p q ≡ true → beats q p ≡ false
unfolding beats
beats_asymm p q h = ground (arith, bytes_ltb_asymm p.ip q.ip)

-- Two peers of which neither beats the other have one score and one address.
beats_antisymm :
    (p q : PeerInfo)
    → beats p q ≡ false
    → beats q p ≡ false
    → (election_score p ≡ election_score q) × (p.ip ≡ q.ip)
unfolding beats
beats_antisymm p q h k =
    ground (arith, bytes_ltb_antisymm p.ip q.ip, eq_of_parts (election_score p) (election_score q))

abbrev Unbeaten : PeerInfo → List PeerInfo → Type 0
Unbeaten r ps = All (λ p. beats p r ≡ false) ps

elect_nil : (best : PeerInfo) → elect_loop best (election_score best) [] ≡ best
unfolding elect_loop
elect_nil best = refl

elect_wins :
    (best p : PeerInfo) (ps : List PeerInfo)
    → beats p best ≡ true
    → elect_loop best (election_score best) (p ∷ ps) ≡ elect_loop p (election_score p) ps
unfolding elect_loop beats
elect_wins best p ps e = rw e

elect_loses :
    (best p : PeerInfo) (ps : List PeerInfo)
    → beats p best ≡ false
    → elect_loop best (election_score best) (p ∷ ps) ≡ elect_loop best (election_score best) ps
unfolding elect_loop beats
elect_loses best p ps e = rw e

insert_second :
    {r : PeerInfo} (best p : PeerInfo) (ps : List PeerInfo)
    → Mem r (best ∷ ps)
    → Mem r (best ∷ p ∷ ps)
insert_second best p ps m =
    Or.elim Mem-prop (mem-cons.0 m) (λ e. mem-cons.1 (Or.inl e))
      (λ k. mem-cons_of_mem best (mem-cons_of_mem p k))

Wins : List PeerInfo → PeerInfo → Type 0
Wins ps r = Unbeaten r ps × Mem r ps

elect_loop-Wins :
    (best : PeerInfo) (ps : List PeerInfo)
    → Wins (best ∷ ps) (elect_loop best (election_score best) ps)
unfolding Wins
elect_loop-Wins best [] =
    subst (Wins (best ∷ [])) (sym (elect_nil best)) ((beats_irrefl best, tt), mem-cons_self)
elect_loop-Wins best (p ∷ ps) = elim (Bool-cases (beats p best)) [
  | inl wins ↦
      let r = elect_loop p (election_score p) ps in
      let (u, m) = elect_loop-Wins p ps in
      subst (Wins (best ∷ p ∷ ps)) (sym (elect_wins best p ps wins))
        ((beats_trans best p r (beats_asymm p best wins) u.0, u), mem-cons_of_mem best m)
  | inr loses ↦
      let r = elect_loop best (election_score best) ps in
      let (u, m) = elect_loop-Wins best ps in
      subst (Wins (best ∷ p ∷ ps)) (sym (elect_loses best p ps loses))
        ((u.0, (beats_trans p best r loses u.0, u.1)), insert_second best p ps m)
]

Unbeaten-Mem :
    {p : PeerInfo} (r : PeerInfo) (ps : List PeerInfo)
    → Unbeaten r ps
    → Mem p ps
    → beats p r ≡ false
Unbeaten-Mem r [] u m = absurd (not-mem-nil m)
Unbeaten-Mem r (q ∷ ps) u m =
    Or.elim (Bool-set _ _) (mem-cons.0 m) (λ e. rw e u.0) (Unbeaten-Mem r ps u.1)

-- No entry that an election would take for one of the list wins.
Unbeaten-candidate :
    (p r : PeerInfo) (ps : List PeerInfo)
    → Unbeaten r ps
    → Mem (candidate p) (map candidate ps)
    → beats p r ≡ false
unfolding beats
Unbeaten-candidate p r [] u m = absurd (not-mem-nil m)
Unbeaten-candidate p r (q ∷ ps) u m =
    Or.elim (Bool-set _ _) (mem-cons.0 m) (λ e. ap (λ (c : ℤ × Bytes). outdoes c r) e ∙ u.0)
      (Unbeaten-candidate p r ps u.1)

Mem-candidate :
    {p : PeerInfo} (ps : List PeerInfo) → Mem p ps → Mem (candidate p) (map candidate ps)
Mem-candidate [] m = absurd (not-mem-nil m)
Mem-candidate (q ∷ ps) m =
    Or.elim Mem-prop (mem-cons.0 m) (λ e. mem-cons.1 (Or.inl (ap candidate e)))
      (λ k. mem-cons_of_mem (candidate q) (Mem-candidate ps k))

-- An election by any node: the winner is the node or one of its peers, no candidate has a higher
-- score, and none with the same score has an address that comes first.
pub elect_coordinator-Unbeaten :
    (self p : PeerInfo) (peers : List PeerInfo)
    → Mem p (self ∷ peers)
    → let winner = elect_coordinator self peers in
      Mem winner (self ∷ peers)
      × (election_score p ≤ℤ election_score winner)
      × ((election_score p <ℤ election_score winner) ⊎ (bytes_ltb p.ip winner.ip ≡ false))
unfolding elect_coordinator Wins beats
elect_coordinator-Unbeaten self p peers m =
    let (u, w) = elect_loop-Wins self peers in
    let winner = elect_loop self (election_score self) peers in
    let lost = Unbeaten-Mem winner (self ∷ peers) u m in
    (w, ground (arith, lost), ground (arith, lost))

-- Two nodes that know candidates of the same scores and addresses, in whatever order and each with
-- itself first, elect coordinators of the same address and score.
pub elect_coordinator-agreement :
    (a b : PeerInfo) (ps qs : List PeerInfo)
    → Perm (map candidate (a ∷ ps)) (map candidate (b ∷ qs))
    → let x = elect_coordinator a ps in
      let y = elect_coordinator b qs in (election_score x ≡ election_score y) × (x.ip ≡ y.ip)
unfolding elect_coordinator Wins
elect_coordinator-agreement a b ps qs perm =
    let (u, m) = elect_loop-Wins a ps in
    let (v, n) = elect_loop-Wins b qs in
    let x = elect_loop a (election_score a) ps in
    let y = elect_loop b (election_score b) qs in
    beats_antisymm x y
      (Unbeaten-candidate x y (b ∷ qs) v ((Perm.mem_iff perm).0 (Mem-candidate (a ∷ ps) m)))
      (Unbeaten-candidate y x (a ∷ ps) u ((Perm.mem_iff perm).1 (Mem-candidate (b ∷ qs) n)))

abbrev winner_ip : ClusterManager → Bytes
winner_ip c = (elect_coordinator c.self c.peers).ip

-- A node that knows a peer and does not find its own address elected is a worker.
run_election-worker :
    (c : ClusterManager) → c.peers ≢ [] → winner_ip c ≢ c.self.ip → (run_election c).state ≡ worker
unfolding run_election
run_election-worker c some ne = ground (arith, bytes_eq_iff (winner_ip c) c.self.ip)

-- Of two nodes with different addresses that know candidates of the same scores and addresses, each
-- with itself among them, and whenever each saw the others, at most one is the coordinator after each has run its election: the other is a worker (if both know a peer).
pub run_election-one_coordinator :
    (a b : ClusterManager)
    → Perm (map candidate (a.self ∷ a.peers)) (map candidate (b.self ∷ b.peers))
    → a.self.ip ≢ b.self.ip
    → a.peers ≢ []
    → b.peers ≢ []
    → ((run_election a).state ≡ worker) ⊎ ((run_election b).state ≡ worker)
run_election-one_coordinator a b perm ne some_a some_b =
    let same = (elect_coordinator-agreement a.self b.self a.peers b.peers perm).1 in
    elim (Bool-cases (bytes_eq (winner_ip a) a.self.ip)) [
      | inl e ↦
          let wins = (bytes_eq_iff (winner_ip a) a.self.ip).0 e in
          inr (run_election-worker b some_b (λ f. ne (sym wins ∙ (same ∙ f))))
      | inr e ↦ inl (
          run_election-worker a some_a
            (λ f. ground (arith, bytes_eq_iff (winner_ip a) a.self.ip, f)))
    ]

-- An election elects the winner, calls the callback (if one is set) exactly when the state
-- changes, and changes nothing else.
pub run_election_lem :
    (c : ClusterManager)
    → let c' = run_election c in
      (c'.elected ≡ elect_coordinator c.self c.peers)
      × (c'.fired
          ≡ (if not (state_eq c'.state c.state) && c.topology_cb then c.fired + 1 else c.fired))
      × (c'.peers ≡ c.peers)
      × (c'.self ≡ c.self)
unfolding run_election
run_election_lem c = ground arith
