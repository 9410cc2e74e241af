-- ===== src/Cluster/Tests.antt =====
-- Runs of the cluster, and its theorems at concrete nodes.
use mathlib.Core.List.{Mem, Perm, mem-cons_self, mem-cons_of_mem}
use mathlib.Core.List.Perm
use llamaste.Cluster.{
  PeerInfo, standalone, worker, ClusterManager, election_score, elect_loop, elect_coordinator,
  run_election,
}
use llamaste.Cluster.Capacity.{
  node_usable, peers_usable, divisor, tensor_ratios, compute_tensor_split, upgrade_available,
  ratios, min_from, join_commas,
}
use llamaste.Cluster.Election.{candidate, elect_coordinator-Unbeaten, run_election-one_coordinator}
use llamaste.Cluster.Scale.{times_070, times_070_bounds}
use llamaste.Cluster.Selection.{AscendsFrom, SortsBySize}
use llamaste.Cluster.Split.{
  IsDivisor, Proportional, any_upgrade, tensor_ratios-Proportional, upgrade_available_lem,
}
use llamaste.Cluster.Tiers.{
  ModelTier, DirEntry, scan, scan_entry, find_tier, model_tiers, cluster_usable, sum_usable,
  select_model,
}
use llamaste.Cluster.Selection.{select_model_largest}
use llamaste.Prelude.{
  ℕ, ◌+◌, ◌*◌, ◌≤◌, ◌<◌, ◌≡◌, refl, ◌⊎◌, inl, inr, true, false, some, List, [], ◌∷◌, Bytes, codes,
  bytes_eq, bytes_ne, bytes_ltb, ◌≤ℤ◌, ◌<ℤ◌, if◌then◌else◌, arith, decimal, Bool-cases, leb,
}

abbrev node : Bytes → ℕ → ℕ → PeerInfo
node ip ram cores = record {
  hostname = codes "node";
  ip = ip;
  rpc_port = 50052;
  ram_mb = ram;
  cpu_cores = cores;
  model = codes "none";
  last_seen = 0;
}

abbrev small : PeerInfo
small = node (codes "10.0.0.7") 4096 4

abbrev large : PeerInfo
large = node (codes "10.0.0.8") 16384 8

abbrev twin : PeerInfo
twin = node (codes "10.0.0.6") 16384 8

abbrev knows : PeerInfo → List PeerInfo → ClusterManager
knows self peers = record {
  self = self;
  peers = peers;
  state = standalone;
  elected = self;
  topology_cb = true;
  fired = 0;
}

-- An entry that another node has put into its list at a time.
abbrev seen : ℕ → PeerInfo → PeerInfo
seen now p = record p { last_seen = now }

-- Of the two large nodes the one whose address comes first is elected.
twin_wins : elect_coordinator small (large ∷ twin ∷ []) ≡ twin
unfolding elect_coordinator elect_loop election_score bytes_ltb
twin_wins = refl

elect_coordinator-Unbeaten_example :
    let winner = elect_coordinator small (large ∷ twin ∷ []) in
    Mem winner (small ∷ large ∷ twin ∷ [])
    × (election_score large ≤ℤ election_score winner)
    × ((election_score large <ℤ election_score winner) ⊎ (bytes_ltb large.ip winner.ip ≡ false))
elect_coordinator-Unbeaten_example =
    elect_coordinator-Unbeaten small large (large ∷ twin ∷ []) (mem-cons_of_mem small mem-cons_self)

run_election-one_coordinator_example :
    ((run_election (knows small (seen 7000 large ∷ []))).state ≡ worker)
    ⊎ ((run_election (knows large (seen 9000 small ∷ []))).state ≡ worker)
unfolding bytes_eq election_score
run_election-one_coordinator_example =
    run_election-one_coordinator (knows small (seen 7000 large ∷ []))
      (knows large (seen 9000 small ∷ [])) (Perm.swap (candidate large) (candidate small) [])
      (bytes_ne small.ip large.ip refl) (λ e. cc e) (λ e. cc e)

times_070_bounds_example :
    (10 * times_070 16384 ≤ 7 * 16384) × (7 * 16384 ≤ 10 * times_070 16384 + 10)
times_070_bounds_example = times_070_bounds 16384 (omega arith)

-- Insertion sort, in place of std::sort.
place : ModelTier → List ModelTier → List ModelTier
place m [] = m ∷ []
place m (x ∷ xs) = if leb m.size_mb x.size_mb then m ∷ x ∷ xs else x ∷ place m xs

by_size : List ModelTier → List ModelTier
by_size [] = []
by_size (x ∷ xs) = place x (by_size xs)

place-perm : (m : ModelTier) (xs : List ModelTier) → Perm (place m xs) (m ∷ xs)
unfolding place
place-perm m [] = Perm.refl (m ∷ [])
place-perm m (x ∷ xs) = elim (Bool-cases (leb m.size_mb x.size_mb)) [
  | inl e ↦ rw e (Perm.refl (m ∷ x ∷ xs))
  | inr e ↦ rw e (Perm.trans (Perm.cons x (place-perm m xs)) (Perm.swap m x xs))
]

place-AscendsFrom :
    (low : ℕ) (m : ModelTier) (xs : List ModelTier)
    → low ≤ m.size_mb
    → AscendsFrom low xs
    → AscendsFrom low (place m xs)
unfolding place
place-AscendsFrom low m [] h a = (h, tt)
place-AscendsFrom low m (x ∷ xs) h a = elim (Bool-cases (leb m.size_mb x.size_mb)) [
  | inl e ↦ rw e (h, (ground arith, a.1))
  | inr e ↦ rw e (a.0, place-AscendsFrom x.size_mb m xs (ground arith) a.1)
]

by_size-perm : (xs : List ModelTier) → Perm (by_size xs) xs
unfolding by_size
by_size-perm [] = Perm.refl []
by_size-perm (x ∷ xs) = Perm.trans (place-perm x (by_size xs)) (Perm.cons x (by_size-perm xs))

by_size-AscendsFrom : (xs : List ModelTier) → AscendsFrom 0 (by_size xs)
unfolding by_size
by_size-AscendsFrom [] = tt
by_size-AscendsFrom (x ∷ xs) =
    place-AscendsFrom 0 x (by_size xs) (omega arith) (by_size-AscendsFrom xs)

by_size-SortsBySize : SortsBySize by_size
by_size-SortsBySize = record { permutes = by_size-perm; ascends = by_size-AscendsFrom }

abbrev custom : ModelTier
custom = record {
  name = codes "my";
  gguf_file = codes "my.gguf";
  size_mb = 100;
  min_ram_mb = 612;
  layers = 32;
}

abbrev models_dir : List DirEntry
models_dir =
    record { regular = true; fname = codes "readme.txt"; size = some 10 }
    ∷ record { regular = true; fname = codes "my.gguf"; size = some 104857600 }
    ∷ record {
      regular = true;
      fname = codes "qwen2.5-3b-instruct-q4_k_m.gguf";
      size = some 2147483648;
    }
    ∷ []

custom-Mem : Mem custom (scan models_dir)
unfolding scan scan_entry find_tier model_tiers bytes_eq
custom-Mem = mem-cons_self

small_fits : 612 ≤ cluster_usable (knows small [])
unfolding cluster_usable sum_usable times_070
small_fits = omega arith

select_model_largest_example :
    let r = select_model by_size (some models_dir) (knows small []) in
    Mem r (scan models_dir)
    × (r.min_ram_mb ≤ cluster_usable (knows small []))
    × (custom.size_mb ≤ r.size_mb)
select_model_largest_example =
    select_model_largest by_size models_dir (knows small []) custom by_size-SortsBySize custom-Mem
      small_fits

split_of_two : compute_tensor_split (knows small (seen 7000 large ∷ [])) ≡ codes "1,4"
unfolding compute_tensor_split tensor_ratios ratios divisor min_from peers_usable node_usable
    times_070 join_commas decimal
split_of_two = refl

tensor_ratios-Proportional_example :
    let c = knows small (seen 7000 large ∷ []) in
    let own = node_usable c.self.ram_mb in
    let others = peers_usable c.peers in
    let low = divisor own others in
    (0 < low) × IsDivisor low (own ∷ others) × Proportional low (own ∷ others) (tensor_ratios c)
tensor_ratios-Proportional_example = tensor_ratios-Proportional (knows small (seen 7000 large ∷ []))

upgrade_available_lem_example : upgrade_available 8000 custom ≡ any_upgrade 8000 custom model_tiers
upgrade_available_lem_example = upgrade_available_lem 8000 custom
