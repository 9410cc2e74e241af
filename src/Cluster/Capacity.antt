-- ===== src/Cluster/Capacity.antt =====
-- src/llamaste/cluster.cpp: the tensor split and the analysis of the cluster's capacity.
use llamaste.Cluster.{PeerInfo, ClusterManager}
use llamaste.Cluster.Scale.{times_070}
use llamaste.Cluster.Tiers.{ModelTier, model_tiers, DirEntry, select_model}
use llamaste.Prelude.{
  ℕ, ◌+◌, ◌-◌, ◌/◌, ◌%◌, ◌^◌, Bool, false, ◌||◌, Option, List, [], ◌∷◌, ◌++◌, Bytes, codes,
  is_empty, decimal, ltb, leb, ◌==◌, if◌then◌else◌, length,
}

unfoldable pub node_usable : ℕ → ℕ
node_usable ram_mb = if ltb 300 (times_070 ram_mb) then times_070 ram_mb - 300 else 0

unfoldable pub peers_usable : List PeerInfo → List ℕ
peers_usable [] = []
peers_usable (p ∷ ps) = node_usable p.ram_mb ∷ peers_usable ps

-- `std::min_element` of a list that begins with `m`.
unfoldable pub min_from : ℕ → List ℕ → ℕ
min_from m [] = m
min_from m (x ∷ xs) = min_from (if ltb x m then x else m) xs

abbrev pub ratio : ℕ → ℕ → ℕ
ratio low x = if x / low == 0 then 1 else x / low

unfoldable pub ratios : ℕ → List ℕ → List ℕ
ratios low [] = []
ratios low (x ∷ xs) = ratio low x ∷ ratios low xs

-- The smallest usable memory, or 1 in its place if that is 0.
unfoldable pub divisor : ℕ → List ℕ → ℕ
divisor x xs = if min_from x xs == 0 then 1 else min_from x xs

-- One number for each node, this node first.
unfoldable pub tensor_ratios : ClusterManager → List ℕ
tensor_ratios c =
    let own : ℕ = node_usable c.self.ram_mb in
    let others : List ℕ = peers_usable c.peers in ratios (divisor own others) (own ∷ others)

unfoldable pub join_commas : List ℕ → Bytes
join_commas [] = []
join_commas (x ∷ []) = decimal x
join_commas (x ∷ y ∷ ys) = decimal x ++ (codes "," ++ join_commas (y ∷ ys))

unfoldable pub compute_tensor_split : ClusterManager → Bytes
unfolding tensor_ratios join_commas
compute_tensor_split c = elim c.peers [ [] ↦ [] | _ ∷ _ ↦ join_commas (tensor_ratios c) ]

pub record ClusterCapacity : Type 0 where
  pub total_ram_mb : ℕ
  pub usable_ram_mb : ℕ
  pub total_cores : ℕ
  pub node_count : ℕ
  pub recommended_model : Bytes
  pub recommended_gguf : Bytes
  pub tensor_split : Bytes
  pub upgrade_available : Bool

unfoldable pub sum_ram : ℕ → List PeerInfo → ℕ
sum_ram acc [] = acc
sum_ram acc (p ∷ ps) = sum_ram ((acc + p.ram_mb) % 2 ^ 32) ps

unfoldable pub sum_cores : ℕ → List PeerInfo → ℕ
sum_cores acc [] = acc
sum_cores acc (p ∷ ps) = sum_cores ((acc + p.cpu_cores) % 2 ^ 32) ps

-- The walk from the largest tier down, over the table already turned round: the first that fits
-- decides.
unfoldable pub upgrade_from : ℕ → ModelTier → List ModelTier → Bool
upgrade_from usable best [] = false
upgrade_from usable best (t ∷ ts) =
    if leb t.min_ram_mb usable
    then is_empty best.name || ltb best.size_mb t.size_mb
    else upgrade_from usable best ts

unfoldable pub rev_append : List ModelTier → List ModelTier → List ModelTier
rev_append [] ys = ys
rev_append (x ∷ xs) ys = rev_append xs (x ∷ ys)

unfoldable pub upgrade_available : ℕ → ModelTier → Bool
unfolding upgrade_from rev_append
upgrade_available usable best = upgrade_from usable best (rev_append model_tiers [])

unfoldable pub analyze_capacity :
    (List ModelTier → List ModelTier) → Option (List DirEntry) → ClusterManager → ClusterCapacity
unfolding sum_ram sum_cores
analyze_capacity sort dir c =
    let total : ℕ = sum_ram c.self.ram_mb c.peers in
    let best : ModelTier = select_model sort dir c in
    record {
      total_ram_mb = total;
      usable_ram_mb = times_070 total;
      total_cores = sum_cores c.self.cpu_cores c.peers;
      node_count = 1 + length c.peers;
      recommended_model = (if is_empty best.name then [] else best.name);
      recommended_gguf = (if is_empty best.name then [] else best.gguf_file);
      tensor_split = compute_tensor_split c;
      upgrade_available = upgrade_available (times_070 total) best;
    }
