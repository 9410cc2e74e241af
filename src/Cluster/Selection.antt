-- ===== src/Cluster/Selection.antt =====
-- src/llamaste/cluster.cpp: `select_model` picks a largest model that fits. std::sort is known to
-- return the same models in ascending order of size.
use mathlib.Core.List.{Mem, mem-cons, mem-cons_self, mem-cons_of_mem, not-mem-nil, Perm}
use mathlib.Core.List.Perm
use mathlib.Core.Logic.Or
use native.Mathlib.Bridge.{le_prop}
use llamaste.Cluster.{ClusterManager}
use llamaste.Cluster.Tiers.{
  ModelTier, no_model, DirEntry, scan, available_models, cluster_usable, pick, select_model,
}
use llamaste.Prelude.{
  ℕ, ◌≤◌, ◌<◌, ◌≡◌, refl, ap, ◌⊎◌, inl, inr, some, List, [], ◌∷◌, leb, arith, Bool-cases, All,
}

-- Sizes rise along the list, from `low` on.
abbrev pub AscendsFrom : ℕ → List ModelTier → Type 0
AscendsFrom low [] = Unit
AscendsFrom low (m ∷ ms) = (low ≤ m.size_mb) × AscendsFrom m.size_mb ms

-- What std::sort returns with the comparison of the source.
pub record SortsBySize (sort : List ModelTier → List ModelTier) : Type 0 where
  pub permutes : (ms : List ModelTier) → Perm (sort ms) ms
  pub ascends : (ms : List ModelTier) → AscendsFrom 0 (sort ms)

-- The result of a scan that began with `best`.
record Picked (usable : ℕ) (best : ModelTier) (ms : List ModelTier) (r : ModelTier) : Type 0 where
  grows : best.size_mb ≤ r.size_mb
  largest : All (λ m. (usable < m.min_ram_mb) ⊎ (m.size_mb ≤ r.size_mb)) ms
  chosen : ((r ≡ best) × All (λ m. usable < m.min_ram_mb) ms) ⊎ (Mem r ms × (r.min_ram_mb ≤ usable))

AscendsFrom-mono : (k l : ℕ) (ms : List ModelTier) → k ≤ l → AscendsFrom l ms → AscendsFrom k ms
AscendsFrom-mono k l [] h a = tt
AscendsFrom-mono k l (m ∷ ms) h a = (omega arith, a.1)

module _ (usable : ℕ) (best m : ModelTier) (ms : List ModelTier) {r : ModelTier} where
  Picked-fits :
      best.size_mb ≤ m.size_mb
      → m.min_ram_mb ≤ usable
      → Picked usable m ms r
      → Picked usable best (m ∷ ms) r
  Picked-fits h fits p = record {
    grows = omega (arith, p.grows);
    largest = (inr p.grows, p.largest);
    chosen = elim p.chosen [
      | inl (e, none_fits) ↦ inr (rw e mem-cons_self, rw e fits)
      | inr (found, f) ↦ inr (mem-cons_of_mem m found, f)
    ];
  }

  Picked-too_big : usable < m.min_ram_mb → Picked usable best ms r → Picked usable best (m ∷ ms) r
  Picked-too_big h p = record {
    grows = p.grows;
    largest = (inl h, p.largest);
    chosen = elim p.chosen [
      | inl (e, none_fits) ↦ inl (e, (h, none_fits))
      | inr (found, f) ↦ inr (mem-cons_of_mem m found, f)
    ];
  }

pick-Picked :
    (usable : ℕ) (best : ModelTier) (ms : List ModelTier)
    → AscendsFrom best.size_mb ms
    → Picked usable best ms (pick usable best ms)
unfolding pick
pick-Picked usable best [] a = record { grows = omega arith; largest = tt; chosen = inl (refl, tt) }
pick-Picked usable best (m ∷ ms) a = elim (Bool-cases (leb m.min_ram_mb usable)) [
  | inl fits ↦
      rw fits (Picked-fits usable best m ms a.0 (ground arith) (pick-Picked usable m ms a.1))
  | inr too_big ↦ rw too_big (
      Picked-too_big usable best m ms (ground arith)
        (pick-Picked usable best ms (AscendsFrom-mono best.size_mb m.size_mb ms a.0 a.1)))
]

none_fits-Mem :
    {m : ModelTier} (usable : ℕ) (ms : List ModelTier)
    → All (λ m. usable < m.min_ram_mb) ms
    → Mem m ms
    → usable < m.min_ram_mb
none_fits-Mem usable [] a found = absurd (not-mem-nil found)
none_fits-Mem usable (x ∷ ms) a found =
    Or.elim le_prop (mem-cons.0 found) (λ e. rw e a.0) (none_fits-Mem usable ms a.1)

largest-Mem :
    {m : ModelTier} (usable size : ℕ) (ms : List ModelTier)
    → All (λ m. (usable < m.min_ram_mb) ⊎ (m.size_mb ≤ size)) ms
    → m.min_ram_mb ≤ usable
    → Mem m ms
    → m.size_mb ≤ size
largest-Mem usable size [] a h found = absurd (not-mem-nil found)
largest-Mem {m} usable size (x ∷ ms) a h found =
    Or.elim le_prop (mem-cons.0 found) here (largest-Mem usable size ms a.1 h)
  where
    here : m ≡ x → m.size_mb ≤ size
    here e = rw e (ground (arith, h, ap (λ (t : ModelTier). t.min_ram_mb) e))

-- If some model of the directory fits the usable memory, the model that is selected is one of the
-- directory's, fits, and is at least as large as every one that fits.
pub select_model_largest :
    (sort : List ModelTier → List ModelTier) (es : List DirEntry) (c : ClusterManager)
    (m : ModelTier)
    → SortsBySize sort
    → Mem m (scan es)
    → m.min_ram_mb ≤ cluster_usable c
    → let r = select_model sort (some es) c in
      Mem r (scan es) × (r.min_ram_mb ≤ cluster_usable c) × (m.size_mb ≤ r.size_mb)
unfolding select_model available_models
select_model_largest sort es c m s found fits =
    let usable = cluster_usable c in
    let ms = sort (scan es) in
    let p = pick-Picked usable no_model ms (s.ascends (scan es)) in
    let largest =
      largest-Mem usable (pick usable no_model ms).size_mb ms p.largest fits
        ((Perm.mem_iff (s.permutes (scan es))).1 found) in
    elim p.chosen [
      | inl (e, none_fits) ↦ absurd (
          omega (
            arith,
            none_fits-Mem usable ms none_fits ((Perm.mem_iff (s.permutes (scan es))).1 found),
          ))
      | inr (r_found, f) ↦ ((Perm.mem_iff (s.permutes (scan es))).0 r_found, f, largest)
    ]
