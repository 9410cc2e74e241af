-- ===== src/Supervisor/Limits.antt =====
-- src/llamaste/supervisor.cpp: how often one counter lets a daemon start again.
use llamaste.Prelude.{
  ℕ, ◌+◌, ◌-◌, ◌==◌, leb_ℤ, ◌≤◌, ◌≡◌, inl, inr, Bool, true, false, ℤ, pos, ◌+ℤ◌, ◌-ℤ◌, ◌≤ℤ◌, ◌<ℤ◌,
  ltb_ℤ, ltb, if◌then◌else◌, arith, Bool-cases,
}
use llamaste.Supervisor.{Limit, renew, respawn}

-- No restarts have been counted only at the start.
abbrev pub IsLimit : Limit → Type 0
IsLimit l = (l.restarts ≤ 3) × ((l.restarts ≡ 0) → l.restart_window ≡ pos 0)

-- The starts that a counter still allows in the five minutes from `a` on.
abbrev pub left : ℤ → Limit → ℕ
left a l =
    if leb_ℤ a l.restart_window
    then 3 - l.restarts
    else if l.restarts == 0
    then 3
    else 6 - l.restarts

abbrev pub one_if : Bool → ℕ
one_if true = 1
one_if false = 0

-- A window that is renewed began before the five minutes.
renewed_before :
    (a now w : ℤ) → now ≤ℤ a +ℤ pos 300 → ltb_ℤ (pos 300) (now -ℤ w) ≡ true → leb_ℤ a w ≡ false
renewed_before a now w q e = ground (arith, q, e)

-- A window that is not renewed did not begin at 0.
kept_later :
    (a now w : ℤ) → pos 300 <ℤ a → a ≤ℤ now → ltb_ℤ (pos 300) (now -ℤ w) ≡ false → w ≡ pos 0 → ⊥
kept_later a now w b p e z = ground (arith, b, p, e, z)

begun : (a now : ℤ) → a ≤ℤ now → leb_ℤ a now ≡ true
begun a now p = ground (arith, p)

one_less :
    (recent : Bool) (n : ℕ)
    → (n ≡ 0 → ⊥)
    → ltb n 3 ≡ true
    → 1 + (if recent then 3 - (n + 1) else if n + 1 == 0 then 3 else 6 - (n + 1))
      ≤ (if recent then 3 - n else if n == 0 then 3 else 6 - n)
one_less true n h e = ground (arith, e)
one_less false n h e = ground (arith, h, e)

-- What a start takes from the starts that are allowed.
pub respawn-left :
    (a now : ℤ) (l : Limit)
    → pos 300 <ℤ a
    → a ≤ℤ now
    → now ≤ℤ a +ℤ pos 300
    → IsLimit l
    → let (l', started) = respawn now l in (one_if started + left a l' ≤ left a l) × IsLimit l'
unfolding respawn renew
respawn-left a now l b p q (k, z) = elim (Bool-cases (ltb_ℤ (pos 300) (now -ℤ l.restart_window))) [
  | inl e ↦
      let f = renewed_before a now l.restart_window q e in
      let g = begun a now p in
      simp e (ground (arith, f, g, k), (omega arith, λ h. absurd (ground (arith, h))))
  | inr e ↦ elim (Bool-cases (ltb l.restarts 3)) [
    | inl f ↦
        let some_yet = λ (h : l.restarts ≡ 0). kept_later a now l.restart_window b p e (z h) in
        simp (e, f)
          (
            one_less (leb_ℤ a l.restart_window) l.restarts some_yet f,
            (ground (arith, f), λ h. absurd (ground (arith, h))),
          )
    | inr f ↦ simp (e, f) (omega arith, (k, z))
  ]
]
