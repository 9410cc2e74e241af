-- ===== src/Cluster/Split.antt =====
-- src/llamaste/cluster.cpp: the ratios of `--tensor-split`, and when an upgrade is offered.
use mathlib.Core.Path.{subst}
use llamaste.Cluster.{ClusterManager}
use llamaste.Cluster.Tiers.{ModelTier, model_tiers}
use native.Mathlib.Nat.{div-add-mod, mod-lt}
use llamaste.Cluster.Capacity.{
  ratio, node_usable, peers_usable, min_from, ratios, divisor, tensor_ratios, upgrade_available,
}
use llamaste.Prelude.{
  ℕ, ◌+◌, ◌*◌, ◌/◌, ◌≤◌, ◌<◌, ◌≡◌, refl, sym, ◌⊎◌, inl, inr, Bool, false, ◌&&◌, ◌||◌, List, [], ◌∷◌,
  is_empty, ltb, leb, ◌==◌, if◌then◌else◌, All, arith, Bool-cases, ==_iff, ap,
}

min_from_le : (m : ℕ) (xs : List ℕ) → (min_from m xs ≤ m) × All (λ x. min_from m xs ≤ x) xs
unfolding min_from
min_from_le m [] = (omega arith, tt)
min_from_le m (x ∷ xs) =
    let k : ℕ = if ltb x m then x else m in
    let rest = min_from_le k xs in
    let below : (k ≤ m) × (k ≤ x) = ground arith in
    (omega (arith, rest.0, below), (omega (arith, rest.0, below), rest.1))

-- One of the numbers.
abbrev pub Among : ℕ → List ℕ → Type 0
Among m [] = ⊥
Among m (x ∷ xs) = (m ≡ x) ⊎ Among m xs

-- Of two numbers the one that is kept is among those that follow, or the other.
min_from-Among : (m : ℕ) (xs : List ℕ) → Among (min_from m xs) (m ∷ xs)
unfolding min_from
min_from-Among m [] = inl refl
min_from-Among m (x ∷ xs) = elim (Bool-cases (ltb x m)) [
  | inl e ↦
      let same : min_from m (x ∷ xs) ≡ min_from x xs = rw e refl in
      subst (λ (k : ℕ). Among k (m ∷ x ∷ xs)) (sym same) (inr (min_from-Among x xs))
  | inr e ↦
      let same : min_from m (x ∷ xs) ≡ min_from m xs = rw e refl in
      subst (λ (k : ℕ). Among k (m ∷ x ∷ xs)) (sym same)
        (elim (min_from-Among m xs) [ inl h ↦ inl h | inr h ↦ inr (inr h) ])
]

-- A ratio is at least 1, and is the node's share of `low`, rounded down, wherever that is not 0.
abbrev pub Proportional : ℕ → List ℕ → List ℕ → Type 0
Proportional low [] [] = Unit
Proportional low [] (r ∷ rs) = ⊥
Proportional low (u ∷ us) [] = ⊥
Proportional low (u ∷ us) (r ∷ rs) =
    (1 ≤ r) × ((r ≡ 1) ⊎ (low * r ≤ u)) × (u < low * (r + 1)) × Proportional low us rs

divisor_positive : (x : ℕ) (xs : List ℕ) → 0 < divisor x xs
unfolding divisor
divisor_positive x xs = ground arith

ratio_bounds :
    (low u : ℕ)
    → 0 < low
    → (1 ≤ ratio low u)
      × ((ratio low u ≡ 1) ⊎ (low * ratio low u ≤ u))
      × (u < low * (ratio low u + 1))
ratio_bounds low u h = elim (Bool-cases (u / low == 0)) [
  | inl e ↦
      let zero_share : u / low ≡ 0 = (==_iff (u / low) 0).0 e in
      let facts : u < low =
        omega (arith, div-add-mod u low, mod-lt u h, ap (λ (t : ℕ). low * t) zero_share) in
      rw e (omega arith, inl refl, omega arith)
  | inr e ↦
      let share : 1 ≤ u / low = ground arith in
      rw e (
        share,
        inr (omega (arith, div-add-mod u low)),
        omega (arith, div-add-mod u low, mod-lt u h),
      )
]

ratios-Proportional : (low : ℕ) (us : List ℕ) → 0 < low → Proportional low us (ratios low us)
unfolding ratios
ratios-Proportional low [] h = tt
ratios-Proportional low (u ∷ us) h =
    let b = ratio_bounds low u h in (b.0, b.1, b.2, ratios-Proportional low us h)

-- The divisor is the smallest of the numbers, or 1 where one of them is 0.
abbrev pub IsDivisor : ℕ → List ℕ → Type 0
IsDivisor low us = (Among low us × All (λ x. low ≤ x) us) ⊎ ((low ≡ 1) × Among 0 us)

divisor-IsDivisor : (x : ℕ) (xs : List ℕ) → IsDivisor (divisor x xs) (x ∷ xs)
unfolding divisor
divisor-IsDivisor x xs = elim (Bool-cases (min_from x xs == 0)) [
  | inl e ↦
      let one : divisor x xs ≡ 1 = rw e refl in
      let zero_least = (==_iff (min_from x xs) 0).0 e in
      inr (one, subst (λ (m : ℕ). Among m (x ∷ xs)) zero_least (min_from-Among x xs))
  | inr e ↦
      let same : divisor x xs ≡ min_from x xs = rw e refl in
      subst (λ (k : ℕ). IsDivisor k (x ∷ xs)) (sym same)
        (inl (min_from-Among x xs, min_from_le x xs))
]

-- Every node gets a number of the tensor split. The divisor is positive, and it is the smallest
-- usable memory of the cluster, or 1 where that is 0; each number is at least 1, and is the node's usable memory
-- over the divisor, rounded down, or 1 where that is 0.
pub tensor_ratios-Proportional :
    (c : ClusterManager)
    → let own = node_usable c.self.ram_mb in
      let others = peers_usable c.peers in
      let low = divisor own others in
      (0 < low) × IsDivisor low (own ∷ others) × Proportional low (own ∷ others) (tensor_ratios c)
unfolding tensor_ratios
tensor_ratios-Proportional c =
    let own = node_usable c.self.ram_mb in
    let others = peers_usable c.peers in
    let low = divisor own others in
    let pos = divisor_positive own others in
    (pos, divisor-IsDivisor own others, ratios-Proportional low (own ∷ others) pos)

-- Whether some tier fits and improves on `best`.
pub any_upgrade : ℕ → ModelTier → List ModelTier → Bool
any_upgrade usable best [] = false
any_upgrade usable best (t ∷ ts) =
    (leb t.min_ram_mb usable && (is_empty best.name || ltb best.size_mb t.size_mb))
    || any_upgrade usable best ts

-- An upgrade is offered exactly when some tier of the table fits the usable memory and is larger
-- than the best model of the directory, or fits at all where there is none.
pub upgrade_available_lem :
    (usable : ℕ) (best : ModelTier)
    → upgrade_available usable best ≡ any_upgrade usable best model_tiers
unfolding upgrade_available any_upgrade model_tiers
upgrade_available_lem usable best = ground arith
