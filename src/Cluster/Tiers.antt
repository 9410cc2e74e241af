-- ===== src/Cluster/Tiers.antt =====
-- src/llamaste/cluster.cpp: the table of model tiers, the scan of the model directory, and the
-- choice of a model. The directory is an argument: its entries with what readdir and stat say of
-- them, or `none` where it cannot be opened. std::sort is an argument.
use llamaste.Cluster.{PeerInfo, ClusterManager}
use llamaste.Cluster.Scale.{times_070}
use llamaste.Prelude.{
  ℕ, ◌+◌, ◌-◌, ◌/◌, ◌%◌, ◌^◌, ◌*◌, Bool, ◌&&◌, Option, none, some, List, [], ◌∷◌, ◌++◌, Bytes,
  codes, bytes_eq, ltb, leb, if◌then◌else◌, length, take, drop,
}

pub record ModelTier : Type 0 where
  pub name : Bytes
  pub gguf_file : Bytes
  pub size_mb : ℕ
  pub min_ram_mb : ℕ
  pub layers : ℕ

abbrev tier : Bytes → Bytes → ℕ → ℕ → ℕ → ModelTier
tier n g s r l = record { name = n; gguf_file = g; size_mb = s; min_ram_mb = r; layers = l }

unfoldable pub model_tiers : List ModelTier
model_tiers =
    tier (codes "qwen2.5-0.5b-instruct") (codes "qwen2.5-0.5b-instruct-q4_k_m.gguf") 400 1024 24
    ∷ tier (codes "qwen2.5-1.5b-instruct") (codes "qwen2.5-1.5b-instruct-q4_k_m.gguf") 1100 2048 28
    ∷ tier (codes "qwen2.5-3b-instruct") (codes "qwen2.5-3b-instruct-q4_k_m.gguf") 2000 3072 36
    ∷ tier (codes "qwen2.5-7b-instruct") (codes "qwen2.5-7b-instruct-q4_k_m-00001-of-00002.gguf")
        4400 6144 32
    ∷ tier (codes "qwen2.5-14b-instruct") (codes "qwen2.5-14b-instruct-q4_k_m-00001-of-00003.gguf")
        8500 12288 40
    ∷ tier (codes "qwen2.5-32b-instruct") (codes "qwen2.5-32b-instruct-q4_k_m-00001-of-00005.gguf")
        19000 24576 64
    ∷ tier (codes "qwen2.5-72b-instruct") (codes "qwen2.5-72b-instruct-q4_k_m-00001-of-00009.gguf")
        42000 52224 80
    ∷ []

-- `ModelTier best;` before any model fits: an empty name. Its numbers are not read.
abbrev pub no_model : ModelTier
no_model = record { name = []; gguf_file = []; size_mb = 0; min_ram_mb = 0; layers = 0 }

-- `regular` is DT_REG or DT_UNKNOWN; `size` is what stat says, if it succeeds.
pub record DirEntry : Type 0 where
  pub regular : Bool
  pub fname : Bytes
  pub size : Option ℕ

unfoldable pub find_tier : Bytes → List ModelTier → Option ModelTier
find_tier fname [] = none
find_tier fname (t ∷ ts) = if bytes_eq fname t.gguf_file then some t else find_tier fname ts

-- A size above zero, in whole megabytes as a uint32_t.
abbrev size_in_mb : Option ℕ → Option ℕ
size_in_mb none = none
size_in_mb (some bytes) = if ltb 0 bytes then some (bytes / (1024 * 1024) % 2 ^ 32) else none

abbrev known_model : ModelTier → Option ℕ → List ModelTier
known_model t none = []
known_model t (some mb) = record t { size_mb = mb } ∷ []

abbrev custom_model : Bytes → Option ℕ → List ModelTier
custom_model fname none = []
custom_model fname (some mb) =
    record {
      name = take (length fname - 5) fname;
      gguf_file = fname;
      size_mb = mb;
      min_ram_mb = (mb + 512) % 2 ^ 32;
      layers = 32;
    }
    ∷ []

abbrev has_gguf_suffix : Bytes → Bool
has_gguf_suffix fname =
    ltb 5 (length fname) && bytes_eq (drop (length fname - 5) fname) (codes ".gguf")

abbrev scan_named : DirEntry → Option ModelTier → List ModelTier
scan_named e (some t) = known_model t (size_in_mb e.size)
scan_named e none = if has_gguf_suffix e.fname then custom_model e.fname (size_in_mb e.size) else []

unfoldable pub scan_entry : DirEntry → List ModelTier
scan_entry e = if e.regular then scan_named e (find_tier e.fname model_tiers) else []

unfoldable pub scan : List DirEntry → List ModelTier
scan [] = []
scan (e ∷ es) = scan_entry e ++ scan es

unfoldable pub available_models :
    (List ModelTier → List ModelTier) → Option (List DirEntry) → List ModelTier
available_models sort none = []
available_models sort (some es) = sort (scan es)

unfoldable pub sum_usable : ℕ → List PeerInfo → ℕ
sum_usable acc [] = acc
sum_usable acc (p ∷ ps) = sum_usable ((acc + times_070 p.ram_mb) % 2 ^ 32) ps

unfoldable pub cluster_usable : ClusterManager → ℕ
cluster_usable c = sum_usable (times_070 c.self.ram_mb) c.peers

-- The last that fits.
unfoldable pub pick : ℕ → ModelTier → List ModelTier → ModelTier
pick usable best [] = best
pick usable best (m ∷ ms) = pick usable (if leb m.min_ram_mb usable then m else best) ms

unfoldable pub select_model :
    (List ModelTier → List ModelTier) → Option (List DirEntry) → ClusterManager → ModelTier
select_model sort dir c = pick (cluster_usable c) no_model (available_models sort dir)
