-- ===== src/CpuTopology/Detect.antt =====
-- src/llamaste/cpu_topology.h: `read_sysfs_trim` and `detect_cpu_topology`.
use llamaste.Prelude.{
  ℕ, zero, suc, ◌+◌, ◌-◌, ◌/◌, Bool, true, false, ◌||◌, Option, none, some, List, [], ◌∷◌, ◌++◌,
  Bytes, codes, is_empty, bytes_eq, cut, strip_prefix, length, ltb, ◌==◌, if◌then◌else◌, and_then,
  ℤ, pos,
}
use llamaste.Text.{first_of, getlines, stoi, contains}
use llamaste.CpuTopology.{parse_cpulist, format_cpulist}
use llamaste.CpuTopology.Groups.{
  Freqs, max_freq, min_freq, threshold, is_gap, fast_cpus, slow_cpus, int_max,
}

-- The files, empty where they are missing: /proc/cpuinfo, the two lists of
-- /sys/devices/system/cpu/types, and cpuinfo_max_freq of each CPU.
pub record CpuFiles : Type 0 where
  pub cpuinfo : Bytes
  pub intel_core : Bytes
  pub intel_atom : Bytes
  pub cpuinfo_max_freq : ℕ → Bytes

pub record CpuTopology : Type 0 where
  pub logical_cores : ℕ
  pub physical_cores : ℕ
  pub is_hybrid : Bool
  pub p_cores : ℕ
  pub e_cores : ℕ
  pub p_threads : ℕ
  pub e_threads : ℕ
  pub p_core_range : Bytes
  pub cpu_features : Bytes
  pub recommended_threads : ℕ
  pub recommended_batch_threads : ℕ

abbrev is_end : ℕ → Bool
is_end c = c == b'\n' || (c == b'\r' || c == b' ')

abbrev end_cons : ℕ → Bytes → Bytes
end_cons c [] = if is_end c then [] else c ∷ []
end_cons c (d ∷ ds) = c ∷ d ∷ ds

unfoldable pub trim_end : Bytes → Bytes
trim_end [] = []
trim_end (c ∷ cs) = end_cons c (trim_end cs)

unfoldable pub read_sysfs_trim : Bytes → Bytes
read_sysfs_trim content = trim_end (first_of (getlines [] content))

-- The variables of the loop over /proc/cpuinfo; a set is a list without repetition.
pub record CpuInfo : Type 0 where
  pub logical : ℕ
  pub physical_ids : List Bytes
  pub cur_phys_id : Bytes
  pub cur_core_id : Bytes
  pub saw_avx2 : Bool
  pub saw_avx512 : Bool
  pub saw_amx : Bool
  pub saw_vnni : Bool

unfoldable pub insert_text : Bytes → List Bytes → List Bytes
insert_text t [] = t ∷ []
insert_text t (u ∷ us) = let rest = insert_text t us in if bytes_eq t u then u ∷ us else u ∷ rest

unfoldable pub flush : CpuInfo → CpuInfo
flush c = if is_empty c.cur_phys_id || is_empty c.cur_core_id then c else record c {
  physical_ids = insert_text (c.cur_phys_id ++ (b':' ∷ c.cur_core_id)) c.physical_ids;
}

abbrev is_prefix : Option Bytes → Bool
is_prefix none = false
is_prefix (some _) = true

-- `line.find(key) == 0`
abbrev pub begins : Bytes → Bytes → Bool
begins key line = is_prefix (strip_prefix key line)

abbrev pub processor_line : Bytes → CpuInfo → CpuInfo
processor_line line c =
    if begins (codes "processor") line
    then record (flush c) { logical = c.logical + 1; cur_phys_id = []; cur_core_id = [] }
    else c

-- `line.substr(colon + 2)`, which throws where the colon is the last byte.
abbrev behind_colon : Bytes → Option (Bytes × Bytes) → Option Bytes
behind_colon current none = some current
behind_colon current (some (key, [])) = none
behind_colon current (some (key, blank ∷ value)) = some value

abbrev pub id_value : Bytes → Bytes → Bytes → Option Bytes
id_value key line current =
    if begins key line then behind_colon current (cut (codes ":") line) else some current

abbrev pub flags_line : Bytes → CpuInfo → CpuInfo
flags_line line c =
    if begins (codes "flags") line || begins (codes "Features") line
    then record c {
      saw_avx2 = c.saw_avx2 || contains line (codes "avx2");
      saw_avx512 = c.saw_avx512 || contains line (codes "avx512");
      saw_amx = c.saw_amx || contains line (codes "amx_tile");
      saw_vnni =
          c.saw_vnni || (contains line (codes "avx_vnni") || contains line (codes "avx512_vnni"));
    }
    else c

abbrev pub ids_line : Bytes → CpuInfo → Option CpuInfo
ids_line line c = and_then (id_value (codes "physical id") line c.cur_phys_id) λ phys.
    and_then (id_value (codes "core id") line c.cur_core_id)
      λ core. some (flags_line line (record c { cur_phys_id = phys; cur_core_id = core }))

unfoldable pub read_cpuinfo : List Bytes → CpuInfo → Option CpuInfo
read_cpuinfo [] c = some (flush c)
read_cpuinfo (line ∷ lines) c =
    and_then (ids_line line (processor_line line c)) λ d. read_cpuinfo lines d

abbrev pub no_cpuinfo : CpuInfo
no_cpuinfo = record {
  logical = 0;
  physical_ids = [];
  cur_phys_id = [];
  cur_core_id = [];
  saw_avx2 = false;
  saw_avx512 = false;
  saw_amx = false;
  saw_vnni = false;
}

abbrev feature : Bool → Bytes → Bytes
feature true name = name
feature false name = []

abbrev or_sse : Bytes → Bytes
or_sse feats = if is_empty feats then codes "SSE4.2" else feats

unfoldable pub features : CpuInfo → Bytes
features c = or_sse (
    feature c.saw_avx2 (codes "AVX2 ")
    ++ (feature c.saw_avx512 (codes "AVX-512 ")
        ++ (feature c.saw_vnni (codes "VNNI ") ++ feature c.saw_amx (codes "AMX "))))

-- The frequencies of the `n` CPUs from `i` on.
unfoldable pub read_freqs : (ℕ → Bytes) → ℕ → ℕ → Option Freqs
read_freqs file i zero = some []
read_freqs file i (suc n) =
    if is_empty (read_sysfs_trim (file i))
    then read_freqs file (suc i) n
    else and_then (stoi (read_sysfs_trim (file i)))
        λ freq. and_then (read_freqs file (suc i) n) λ rest. some ((i, freq) ∷ rest)

-- The two groups; `none` is a CPU that is not hybrid.
abbrev pub Groups : Type 0
Groups = Option (List ℕ × List ℕ)

abbrev pub gap_groups : ℤ → ℤ → Freqs → Groups
gap_groups high low fs =
    if is_gap high low
    then some (fast_cpus (threshold high low) fs [], slow_cpus (threshold high low) fs [])
    else none

unfoldable pub freq_groups : Freqs → Groups
freq_groups fs =
    if ltb (length fs) 2 then none else gap_groups (max_freq (pos 0) fs) (min_freq int_max fs) fs

abbrev pub measured : CpuFiles → ℕ → Option Groups
measured f logical =
    if ltb logical 2
    then some none
    else and_then (read_freqs f.cpuinfo_max_freq 0 logical) λ fs. some (freq_groups fs)

-- Method A, by the lists of the kernel, or else method B, by the frequencies.
unfoldable pub cpu_groups : CpuFiles → ℕ → Option Groups
cpu_groups f logical =
    if is_empty (read_sysfs_trim f.intel_core) || is_empty (read_sysfs_trim f.intel_atom)
    then measured f logical
    else and_then (parse_cpulist (read_sysfs_trim f.intel_core))
        λ p. and_then (parse_cpulist (read_sysfs_trim f.intel_atom)) λ e. some (some (p, e))

abbrev pub at_least_one : ℕ → ℕ
at_least_one zero = 1
at_least_one (suc n) = suc n

-- `n - e`, or where that is not positive half of the threads, but at least 1.
abbrev physical_estimate : ℕ → ℕ → ℕ → ℕ
physical_estimate physical p e = if ltb e physical then physical - e else at_least_one (p / 2)

abbrev homogeneous : ℕ → ℕ → Bytes → Bool → CpuTopology
homogeneous logical physical feats hybrid = record {
  logical_cores = logical;
  physical_cores = physical;
  is_hybrid = hybrid;
  p_cores = 0;
  e_cores = 0;
  p_threads = 0;
  e_threads = 0;
  p_core_range = [];
  cpu_features = feats;
  recommended_threads = at_least_one physical;
  recommended_batch_threads = at_least_one logical;
}

unfoldable pub recommend : ℕ → ℕ → Bytes → Groups → CpuTopology
recommend logical physical feats none = homogeneous logical physical feats false
recommend logical physical feats (some ([], e)) = homogeneous logical physical feats true
recommend logical physical feats (some (i ∷ is, e)) =
    let cores : ℕ = physical_estimate physical (length (i ∷ is)) (length e) in
    record {
      logical_cores = logical;
      physical_cores = physical;
      is_hybrid = true;
      p_cores = cores;
      e_cores = length e;
      p_threads = length (i ∷ is);
      e_threads = length e;
      p_core_range = format_cpulist (i ∷ is);
      cpu_features = feats;
      recommended_threads = at_least_one cores;
      recommended_batch_threads = at_least_one (length (i ∷ is));
    }

abbrev pub physical_count : ℕ → List Bytes → ℕ
physical_count logical [] = logical
physical_count logical (id ∷ ids) = length (id ∷ ids)

-- `none` is an exception of `stoi` or `substr`.
unfoldable pub detect_cpu_topology : CpuFiles → Option CpuTopology
detect_cpu_topology f = and_then (read_cpuinfo (getlines [] f.cpuinfo) no_cpuinfo) λ c.
    let logical : ℕ = at_least_one c.logical in
    and_then (cpu_groups f logical)
      λ groups. some (recommend logical (physical_count logical c.physical_ids) (features c) groups)
