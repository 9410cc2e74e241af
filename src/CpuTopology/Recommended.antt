-- ===== src/CpuTopology/Recommended.antt =====
-- src/llamaste/cpu_topology.h: what `detect_cpu_topology` recommends.
use mathlib.Core.Path.{subst}
use llamaste.Prelude.{
  ℕ, zero, suc, ◌+◌, ◌≤◌, ◌<◌, ◌≡◌, ap, refl, sym, ◌∙◌, ◌⊎◌, inl, inr, ◌||◌, Option, none, some,
  List, [], ◌∷◌, ◌++◌, Bytes, codes, is_empty, length, ltb, All, arith, Bool-cases, Option-cases, ℤ,
  pos,
}
use llamaste.Text.{getlines, getline_by, stoi}
use llamaste.CpuTopology.{parse_cpulist}
use llamaste.CpuTopology.Groups.{Freqs, max_freq, min_freq, threshold, is_gap, int_max}
use llamaste.CpuTopology.RoundTrip.{parse_cpulist-format_cpulist}
use llamaste.CpuTopology.Sets.{IsIdSet, parse_cpulist-IsIdSet, fast_cpus-IsIdSet}
use llamaste.CpuTopology.Detect.{
  CpuFiles, CpuTopology, CpuInfo, read_sysfs_trim, begins, flush, processor_line, id_value,
  flags_line, ids_line, read_cpuinfo, no_cpuinfo, read_freqs, freq_groups, Groups, cpu_groups,
  at_least_one, physical_count, features, recommend, detect_cpu_topology,
}

length-getline_by : (sep : ℕ) (line s : Bytes) → length (getline_by sep line s) ≤ suc (length s)
unfolding getline_by
length-getline_by sep [] [] = omega arith
length-getline_by sep (c ∷ line) [] = omega arith
length-getline_by sep line (c ∷ s) =
    ground (arith, length-getline_by sep [] s, length-getline_by sep (line ++ c ∷ []) s)

flush_logical : (c : CpuInfo) → (flush c).logical ≡ c.logical
unfolding flush
flush_logical c = elim (Bool-cases (is_empty c.cur_phys_id || is_empty c.cur_core_id)) [
  | inl e ↦ rw e refl
  | inr e ↦ rw e refl
]

processor_line_logical :
    (line : Bytes) (c : CpuInfo) → (processor_line line c).logical ≤ suc c.logical
processor_line_logical line c = elim (Bool-cases (begins (codes "processor") line)) [
  | inl e ↦ rw e (omega arith)
  | inr e ↦ rw e (omega arith)
]

flags_line_logical : (line : Bytes) (c : CpuInfo) → (flags_line line c).logical ≡ c.logical
flags_line_logical line c =
    elim (Bool-cases (begins (codes "flags") line || begins (codes "Features") line)) [
      | inl e ↦ rw e refl
      | inr e ↦ rw e refl
    ]

abbrev logical_or : ℕ → Option CpuInfo → ℕ
logical_or n none = n
logical_or n (some c) = c.logical

ids_line_logical : (line : Bytes) (c d : CpuInfo) → ids_line line c ≡ some d → d.logical ≡ c.logical
ids_line_logical line c d e =
    elim (Option-cases (id_value (codes "physical id") line c.cur_phys_id)) [
      | inl f ↦ absurd (ground (arith, rw f at e))
      | inr (phys, f) ↦ elim (Option-cases (id_value (codes "core id") line c.cur_core_id)) [
        | inl g ↦ absurd (ground (arith, rw (f, g) at e))
        | inr (core, g) ↦
            ap (logical_or 0) (sym (rw (f, g) at e))
            ∙ flags_line_logical line (record c { cur_phys_id = phys; cur_core_id = core })
      ]
    ]

read_cpuinfo_logical :
    (lines : List Bytes) (c d : CpuInfo)
    → read_cpuinfo lines c ≡ some d
    → d.logical ≤ c.logical + length lines
unfolding read_cpuinfo
read_cpuinfo_logical [] c d e = omega (arith, ap (logical_or 0) e, flush_logical c)
read_cpuinfo_logical (line ∷ lines) c d e =
    elim (Option-cases (ids_line line (processor_line line c))) [
      | inl f ↦ absurd (ground (arith, rw f at e))
      | inr (m, f) ↦ omega (
        arith,
        read_cpuinfo_logical lines m d (rw f at e),
        ids_line_logical line (processor_line line c) m f,
        processor_line_logical line c,
      )
    ]

abbrev ids_or : Option Freqs → Freqs
ids_or none = []
ids_or (some fs) = fs

read_freqs_ids :
    (file : ℕ → Bytes) (n i : ℕ) (fs : Freqs)
    → i + n ≤ 2147483647
    → read_freqs file i n ≡ some fs
    → All (λ c. c.0 < 2147483647) fs
unfolding read_freqs
read_freqs_ids file zero i fs b e = subst (All (λ (c : ℕ × ℤ). c.0 < 2147483647)) (ap ids_or e) tt
read_freqs_ids file (suc n) i fs b e = elim (Bool-cases (is_empty (read_sysfs_trim (file i)))) [
  | inl f ↦ read_freqs_ids file n (suc i) fs (omega (arith, b)) (rw f at e)
  | inr f ↦ elim (Option-cases (stoi (read_sysfs_trim (file i)))) [
    | inl g ↦ absurd (ground (arith, rw (f, g) at e))
    | inr (v, g) ↦ elim (Option-cases (read_freqs file (suc i) n)) [
      | inl k ↦ absurd (ground (arith, rw (f, g, k) at e))
      | inr (rest, k) ↦
          subst (All (λ (c : ℕ × ℤ). c.0 < 2147483647)) (ap ids_or (rw (f, g, k) at e))
            (omega (arith, b), read_freqs_ids file n (suc i) rest (omega (arith, b)) k)
    ]
  ]
]

-- The fast CPUs are a set of ids.
abbrev IsGrouped : Groups → Type 0
IsGrouped none = Unit
IsGrouped (some (p, e)) = IsIdSet 2147483647 p

freq_groups-IsGrouped : (fs : Freqs) → All (λ c. c.0 < 2147483647) fs → IsGrouped (freq_groups fs)
unfolding freq_groups
freq_groups-IsGrouped fs h =
    let high : ℤ = max_freq (pos 0) fs in
    let low : ℤ = min_freq int_max fs in
    elim (Bool-cases (ltb (length fs) 2)) [
      | inl e ↦ rw e tt
      | inr e ↦ elim (Bool-cases (is_gap high low)) [
        | inl g ↦ rw (e, g) (fast_cpus-IsIdSet (threshold high low) fs [] h (tt, tt))
        | inr g ↦ rw (e, g) tt
      ]
    ]

-- The CPUs of the file of the fast cores, none where it is not read.
abbrev pub cores_or : Option (List ℕ) → List ℕ
cores_or none = []
cores_or (some cpus) = cpus

abbrev pub cores_of : CpuFiles → List ℕ
cores_of f = cores_or (parse_cpulist (read_sysfs_trim f.intel_core))

abbrev groups_or : Option Groups → Groups
groups_or none = none
groups_or (some g) = g

cpu_groups-IsGrouped :
    (f : CpuFiles) (logical : ℕ) (g : Groups)
    → logical ≤ 2147483647
    → All (λ i. i < 2147483647) (cores_of f)
    → cpu_groups f logical ≡ some g
    → IsGrouped g
unfolding cpu_groups
cpu_groups-IsGrouped f logical g b small e =
    elim (Bool-cases
      (is_empty (read_sysfs_trim f.intel_core) || is_empty (read_sysfs_trim f.intel_atom))) [
        | inl m ↦ elim (Bool-cases (ltb logical 2)) [
          | inl s ↦ subst IsGrouped (ap groups_or (rw (m, s) at e)) tt
          | inr s ↦ elim (Option-cases (read_freqs f.cpuinfo_max_freq 0 logical)) [
            | inl r ↦ absurd (ground (arith, rw (m, s, r) at e))
            | inr (fs, r) ↦ subst IsGrouped (ap groups_or (rw (m, s, r) at e)) (
                freq_groups-IsGrouped fs
                  (read_freqs_ids f.cpuinfo_max_freq logical 0 fs (omega (arith, b)) r))
          ]
        ]
        | inr m ↦ elim (Option-cases (parse_cpulist (read_sysfs_trim f.intel_core))) [
          | inl p ↦ absurd (ground (arith, rw (m, p) at e))
          | inr (cores, p) ↦ elim (Option-cases (parse_cpulist (read_sysfs_trim f.intel_atom))) [
            | inl q ↦ absurd (ground (arith, rw (m, p, q) at e))
            | inr (atoms, q) ↦ subst IsGrouped (ap groups_or (rw (m, p, q) at e)) (
              (parse_cpulist-IsIdSet (read_sysfs_trim f.intel_core) cores p).0,
              subst (λ (o : Option (List ℕ)). All (λ i. i < 2147483647) (cores_or o)) p small,
            )
          ]
        ]
      ]

-- The numbers of threads are at least 1, and the text for `--cpu-range` is empty or denotes as many
-- CPUs as there are threads for the prompt.
abbrev pub IsUsable : CpuTopology → Type 0
IsUsable t =
    (1 ≤ t.recommended_threads)
    × ((1 ≤ t.recommended_batch_threads)
        × ((t.p_core_range ≡ [])
            ⊎ ((cpus : List ℕ) × ((parse_cpulist t.p_core_range ≡ some cpus)
                  × (length cpus ≡ t.recommended_batch_threads)))))

at_least_one_lem : (n : ℕ) → 1 ≤ at_least_one n
at_least_one_lem zero = omega arith
at_least_one_lem (suc n) = omega arith

recommend-IsUsable :
    (logical physical : ℕ) (feats : Bytes) (g : Groups)
    → IsGrouped g
    → IsUsable (recommend logical physical feats g)
unfolding recommend
recommend-IsUsable logical physical feats none h =
    (at_least_one_lem physical, (at_least_one_lem logical, inl refl))
recommend-IsUsable logical physical feats (some ([], e)) h =
    (at_least_one_lem physical, (at_least_one_lem logical, inl refl))
recommend-IsUsable logical physical feats (some (i ∷ is, e)) h = (
  at_least_one_lem (recommend logical physical feats (some (i ∷ is, e))).p_cores,
  (omega arith, inr (i ∷ is, (parse_cpulist-format_cpulist (i ∷ is) h.0 h.1, refl))),
)

abbrev IsUsableOr : Option CpuTopology → Type 0
IsUsableOr none = Unit
IsUsableOr (some t) = IsUsable t

-- If /proc/cpuinfo is shorter than 2 ^ 31 - 1 bytes and the file of the fast cores names no CPU
-- 2 ^ 31 - 1, a result of `detect_cpu_topology` recommends at least one
-- thread for each of the two phases, and the text for `--cpu-range` is empty or denotes as many CPUs
-- as there are threads for the prompt.
pub detect_cpu_topology-IsUsable :
    (f : CpuFiles) (t : CpuTopology)
    → length f.cpuinfo < 2147483647
    → All (λ i. i < 2147483647) (cores_of f)
    → detect_cpu_topology f ≡ some t
    → IsUsable t
unfolding detect_cpu_topology
detect_cpu_topology-IsUsable f t b small e =
    elim (Option-cases (read_cpuinfo (getlines [] f.cpuinfo) no_cpuinfo)) [
      | inl r ↦ absurd (ground (arith, rw r at e))
      | inr (c, r) ↦
          let few : at_least_one c.logical ≤ 2147483647 =
            bounded c.logical (length (getlines [] f.cpuinfo)) (length f.cpuinfo)
              (read_cpuinfo_logical (getlines [] f.cpuinfo) no_cpuinfo c r)
              (length-getline_by b'\n' [] f.cpuinfo) b in
          elim (Option-cases (cpu_groups f (at_least_one c.logical))) [
            | inl g ↦ absurd (ground (arith, rw (r, g) at e))
            | inr (groups, g) ↦ subst IsUsableOr (rw (r, g) at e) (
                recommend-IsUsable (at_least_one c.logical)
                  (physical_count (at_least_one c.logical) c.physical_ids) (features c) groups
                  (cpu_groups-IsGrouped f (at_least_one c.logical) groups few small g))
          ]
    ]
  where
    bounded :
        (n lines bytes : ℕ)
        → n ≤ 0 + lines
        → lines ≤ suc bytes
        → bytes < 2147483647
        → at_least_one n ≤ 2147483647
    bounded zero lines bytes p q r = omega arith
    bounded (suc n) lines bytes p q r = omega (arith, p, q, r)
