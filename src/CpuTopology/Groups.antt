-- ===== src/CpuTopology/Groups.antt =====
-- src/llamaste/cpu_topology.h: in `detect_cpu_topology`, the two groups of CPUs by their frequencies.
use llamaste.Prelude.{
  ℕ, suc, ◌+◌, ◌*◌, ◌/◌, ◌%◌, ◌^◌, ◌≡◌, ◌≢◌, Bool, true, false, ◌&&◌, List, [], ◌∷◌, ltb,
  if◌then◌else◌, All, arith, Bool-cases, inl, inr, ℤ, pos, negsuc, pos_part, sub_ℕ, ltb_ℤ, leb_ℤ,
  ◌≤ℤ◌, ◌<ℤ◌, signed32,
}
use llamaste.CpuTopology.{insert_id}

-- A CPU and its greatest frequency in kHz.
abbrev pub Freqs : Type 0
Freqs = List (ℕ × ℤ)

unfoldable pub max_freq : ℤ → Freqs → ℤ
max_freq best [] = best
max_freq best ((id, freq) ∷ rest) = max_freq (if ltb_ℤ best freq then freq else best) rest

unfoldable pub min_freq : ℤ → Freqs → ℤ
min_freq best [] = best
min_freq best ((id, freq) ∷ rest) = min_freq (if ltb_ℤ freq best then freq else best) rest

-- Division of an `int` by 2, towards 0.
abbrev pub half : ℤ → ℤ
half (pos n) = pos (n / 2)
half (negsuc n) = sub_ℕ 0 (suc n / 2)

-- Of two positive frequencies.
abbrev pub threshold : ℤ → ℤ → ℤ
threshold high low = half (signed32 ((pos_part high + pos_part low) % 2 ^ 32))

-- `min_freq > 0 && max_freq > min_freq * 1.2`: the product as a `double` is on the same side of each
-- `int` as the exact one, and equal to it where that is an `int`.
abbrev pub is_gap : ℤ → ℤ → Bool
is_gap high low = ltb_ℤ (pos 0) low && ltb (pos_part low * 6) (pos_part high * 5)

unfoldable pub fast_cpus : ℤ → Freqs → List ℕ → List ℕ
fast_cpus limit [] cpus = cpus
fast_cpus limit ((id, freq) ∷ rest) cpus =
    fast_cpus limit rest (if leb_ℤ limit freq then insert_id id cpus else cpus)

unfoldable pub slow_cpus : ℤ → Freqs → List ℕ → List ℕ
slow_cpus limit [] cpus = cpus
slow_cpus limit ((id, freq) ∷ rest) cpus =
    slow_cpus limit rest (if leb_ℤ limit freq then cpus else insert_id id cpus)

-- INT32_MAX
abbrev pub int_max : ℤ
int_max = pos 2147483647

insert_id_nonempty : (i : ℕ) (cpus : List ℕ) → insert_id i cpus ≢ []
unfolding insert_id
insert_id_nonempty i [] h = ground arith
insert_id_nonempty i (j ∷ js) h = ground arith

fast_cpus_keeps :
    (limit : ℤ) (fs : Freqs) (cpus : List ℕ) → cpus ≢ [] → fast_cpus limit fs cpus ≢ []
unfolding fast_cpus
fast_cpus_keeps limit [] cpus n = n
fast_cpus_keeps limit ((id, freq) ∷ fs) cpus n = elim (Bool-cases (leb_ℤ limit freq)) [
  | inl e ↦ rw e (fast_cpus_keeps limit fs (insert_id id cpus) (insert_id_nonempty id cpus))
  | inr e ↦ rw e (fast_cpus_keeps limit fs cpus n)
]

slow_cpus_keeps :
    (limit : ℤ) (fs : Freqs) (cpus : List ℕ) → cpus ≢ [] → slow_cpus limit fs cpus ≢ []
unfolding slow_cpus
slow_cpus_keeps limit [] cpus n = n
slow_cpus_keeps limit ((id, freq) ∷ fs) cpus n = elim (Bool-cases (leb_ℤ limit freq)) [
  | inl e ↦ rw e (slow_cpus_keeps limit fs cpus n)
  | inr e ↦ rw e (slow_cpus_keeps limit fs (insert_id id cpus) (insert_id_nonempty id cpus))
]

fast_cpus_max :
    (limit best : ℤ) (fs : Freqs) (cpus : List ℕ)
    → leb_ℤ limit best ≡ false
    → leb_ℤ limit (max_freq best fs) ≡ true
    → fast_cpus limit fs cpus ≢ []
unfolding fast_cpus max_freq
fast_cpus_max limit best [] cpus b m = absurd (ground (arith, b, m))
fast_cpus_max limit best ((id, freq) ∷ fs) cpus b m = elim (Bool-cases (leb_ℤ limit freq)) [
  | inl e ↦ rw e (fast_cpus_keeps limit fs (insert_id id cpus) (insert_id_nonempty id cpus))
  | inr e ↦ rw e (
      fast_cpus_max limit (if ltb_ℤ best freq then freq else best) fs cpus
        (greater limit best freq b e) m)
]
  where
    greater :
        (limit best freq : ℤ)
        → leb_ℤ limit best ≡ false
        → leb_ℤ limit freq ≡ false
        → leb_ℤ limit (if ltb_ℤ best freq then freq else best) ≡ false
    greater limit best freq b e = elim (Bool-cases (ltb_ℤ best freq)) [
      | inl f ↦ rw f e
      | inr f ↦ rw f b
    ]

slow_cpus_min :
    (limit best : ℤ) (fs : Freqs) (cpus : List ℕ)
    → leb_ℤ limit best ≡ true
    → leb_ℤ limit (min_freq best fs) ≡ false
    → slow_cpus limit fs cpus ≢ []
unfolding slow_cpus min_freq
slow_cpus_min limit best [] cpus b m = absurd (ground (arith, b, m))
slow_cpus_min limit best ((id, freq) ∷ fs) cpus b m = elim (Bool-cases (leb_ℤ limit freq)) [
  | inr e ↦ rw e (slow_cpus_keeps limit fs (insert_id id cpus) (insert_id_nonempty id cpus))
  | inl e ↦ rw e (
      slow_cpus_min limit (if ltb_ℤ freq best then freq else best) fs cpus
        (less limit best freq b e) m)
]
  where
    less :
        (limit best freq : ℤ)
        → leb_ℤ limit best ≡ true
        → leb_ℤ limit freq ≡ true
        → leb_ℤ limit (if ltb_ℤ freq best then freq else best) ≡ true
    less limit best freq b e = elim (Bool-cases (ltb_ℤ freq best)) [
      | inl f ↦ rw f e
      | inr f ↦ rw f b
    ]

-- From 5 kHz to 1 THz.
abbrev pub IsFreq : ℤ → Type 0
IsFreq f = (pos 5 ≤ℤ f) × (f <ℤ pos 1000000000)

abbrev pub AreFreqs : Freqs → Type 0
AreFreqs = All (λ c. IsFreq c.1)

min_freq_above : (best : ℤ) (fs : Freqs) → pos 5 ≤ℤ best → AreFreqs fs → pos 5 ≤ℤ min_freq best fs
unfolding min_freq
min_freq_above best [] b h = b
min_freq_above best ((id, freq) ∷ fs) b h =
    min_freq_above (if ltb_ℤ freq best then freq else best) fs
      (elim (Bool-cases (ltb_ℤ freq best)) [ inl f ↦ rw f h.0.0 | inr f ↦ rw f b ]) h.1

max_freq_below :
    (best : ℤ) (fs : Freqs)
    → best <ℤ pos 1000000000
    → AreFreqs fs
    → max_freq best fs <ℤ pos 1000000000
unfolding max_freq
max_freq_below best [] b h = b
max_freq_below best ((id, freq) ∷ fs) b h =
    max_freq_below (if ltb_ℤ best freq then freq else best) fs
      (elim (Bool-cases (ltb_ℤ best freq)) [ inl f ↦ rw f h.0.1 | inr f ↦ rw f b ]) h.1

threshold_between :
    (high low : ℤ)
    → pos 5 ≤ℤ low
    → high <ℤ pos 1000000000
    → is_gap high low ≡ true
    → (leb_ℤ (threshold high low) high ≡ true)
      × ((leb_ℤ (threshold high low) low ≡ false)
          × ((leb_ℤ (threshold high low) (pos 0) ≡ false)
              × (leb_ℤ (threshold high low) int_max ≡ true)))
threshold_between (pos a) (pos b) l h g = ground arith
threshold_between (pos a) (negsuc b) l h g = absurd (omega (arith, l))
threshold_between (negsuc a) (pos b) l h g = absurd (ground (arith, g))
threshold_between (negsuc a) (negsuc b) l h g = absurd (omega (arith, l))

-- Where the greatest frequency is more than 1.2 times the least, and each is between 5 kHz and 1 THz,
-- neither the group of the fast CPUs nor the group of the slow ones is empty.
pub frequency_groups :
    (fs : Freqs)
    → AreFreqs fs
    → is_gap (max_freq (pos 0) fs) (min_freq int_max fs) ≡ true
    → let limit : ℤ = threshold (max_freq (pos 0) fs) (min_freq int_max fs) in
      (fast_cpus limit fs [] ≢ []) × (slow_cpus limit fs [] ≢ [])
frequency_groups fs h g =
    let high : ℤ = max_freq (pos 0) fs in
    let low : ℤ = min_freq int_max fs in
    let (m, (n, (z, t))) =
      threshold_between high low (min_freq_above int_max fs (omega arith) h)
        (max_freq_below (pos 0) fs (omega arith) h) g in
    (
      fast_cpus_max (threshold high low) (pos 0) fs [] z m,
      slow_cpus_min (threshold high low) int_max fs [] t n,
    )
