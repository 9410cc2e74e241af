-- ===== src/CpuTopology/Tests.antt =====
-- Lists of CPUs and the detected topology at concrete inputs.
use llamaste.Prelude.{
  ℕ, zero, suc, ◌≡◌, refl, true, some, [], ◌∷◌, ◌++◌, Bytes, codes, cut, strip_prefix, decimal,
  decimal_fuel, bytes_eq, arith, pos, All, ◌<◌,
}
use llamaste.Text.{getline_by, stoi, strtol, digits, skip_spaces}
use llamaste.CpuTopology.{insert_id, parse_tokens, parse_cpulist, format_from, format_cpulist}
use llamaste.CpuTopology.Groups.{Freqs, max_freq, min_freq, is_gap, fast_cpus, slow_cpus, int_max}
use llamaste.CpuTopology.RoundTrip.{parse_cpulist-format_cpulist}
use llamaste.CpuTopology.Detect.{
  CpuFiles, CpuTopology, trim_end, read_sysfs_trim, insert_text, flush, read_cpuinfo, features,
  read_freqs, freq_groups, cpu_groups, recommend, detect_cpu_topology,
}
use llamaste.CpuTopology.Recommended.{IsUsable, cores_of, detect_cpu_topology-IsUsable}

parse_cpulist-format_cpulist_example :
    parse_cpulist (format_cpulist (0 ∷ 1 ∷ 2 ∷ 7 ∷ 16 ∷ 17 ∷ []))
    ≡ some (0 ∷ 1 ∷ 2 ∷ 7 ∷ 16 ∷ 17 ∷ [])
parse_cpulist-format_cpulist_example =
    parse_cpulist-format_cpulist (0 ∷ 1 ∷ 2 ∷ 7 ∷ 16 ∷ 17 ∷ []) (ground arith) (ground arith)

compact : format_cpulist (0 ∷ 1 ∷ 2 ∷ 7 ∷ 16 ∷ 17 ∷ []) ≡ codes "0-2,7,16-17"
unfolding format_cpulist format_from decimal decimal_fuel
compact = refl

abbrev freqs : Freqs
freqs = (0, pos 4000000) ∷ (1, pos 2000000) ∷ []

gap : is_gap (max_freq (pos 0) freqs) (min_freq int_max freqs) ≡ true
unfolding max_freq min_freq
gap = refl

abbrev demo_freq : ℕ → Bytes
demo_freq zero = codes "4000000\n"
demo_freq (suc i) = codes "2000000\n"

abbrev demo : CpuFiles
demo = record {
  cpuinfo =
      codes "processor\t: 0\nphysical id\t: 0\ncore id\t: 0\nflags\t\t: fpu avx2\n"
      ++ codes "processor\t: 1\nphysical id\t: 0\ncore id\t: 1\n";
  intel_core = [];
  intel_atom = [];
  cpuinfo_max_freq = demo_freq;
}

abbrev demo_topology : CpuTopology
demo_topology = record {
  logical_cores = 2;
  physical_cores = 2;
  is_hybrid = true;
  p_cores = 1;
  e_cores = 1;
  p_threads = 1;
  e_threads = 1;
  p_core_range = codes "0";
  cpu_features = codes "AVX2 ";
  recommended_threads = 1;
  recommended_batch_threads = 1;
}

detected : detect_cpu_topology demo ≡ some demo_topology
unfolding detect_cpu_topology read_cpuinfo flush insert_text features cpu_groups read_freqs
    freq_groups read_sysfs_trim trim_end getline_by stoi strtol digits skip_spaces cut strip_prefix
    max_freq min_freq fast_cpus slow_cpus insert_id recommend format_cpulist format_from decimal
    decimal_fuel bytes_eq
detected = refl

no_fast_file : All (λ i. i < 2147483647) (cores_of demo)
unfolding read_sysfs_trim trim_end parse_cpulist parse_tokens getline_by
no_fast_file = tt

detect_cpu_topology-IsUsable_example : IsUsable demo_topology
detect_cpu_topology-IsUsable_example =
    detect_cpu_topology-IsUsable demo demo_topology (ground arith) no_fast_file detected
