-- ===== src/Scheduler/CronSearch.antt =====
-- src/llamaste/scheduler.cpp: `compute_next_cron` finds the first minute that an expression names.
use native.Mathlib.Decide.{dec_lt}
use llamaste.Prelude.{
  ℕ, zero, suc, ◌+◌, ◌*◌, ◌%◌, ◌≤◌, ◌<◌, ◌≡◌, refl, sym, eqb_ℤ, eq_of_parts, pos, ◌⊎◌, inl, inr, ap,
  Bool, true, false, Option, none, some, Bytes, ℤ, if◌then◌else◌, arith, Bool-cases, Option-cases,
}
use llamaste.Scheduler.Cron.{
  Tm, Fields, parse_fields, differs, next_month, next_day, next_hour, next_minute, jump,
  search_from, start_at, compute_next_cron,
}

-- What `localtime` and `mktime` do with the jumps: each moves on, and passes over times of the same
-- month, day, hour or minute only. A broken-down time without its seconds is less than a minute
-- earlier. The time zone is a whole number of minutes away, so without seconds it is a whole minute.
pub record IsCalendar (localtime : ℕ → Tm) (mktime : Tm → ℕ) : Type 0 where
  pub month_later : (c : ℕ) → c < mktime (next_month (localtime c))
  pub same_month :
      (c t : ℕ)
      → c ≤ t
      → t < mktime (next_month (localtime c))
      → (localtime t).tm_mon ≡ (localtime c).tm_mon
  pub day_later : (c : ℕ) → c < mktime (next_day (localtime c))
  pub same_day :
      (c t : ℕ)
      → c ≤ t
      → t < mktime (next_day (localtime c))
      → ((localtime t).tm_mday ≡ (localtime c).tm_mday)
        × ((localtime t).tm_wday ≡ (localtime c).tm_wday)
  pub hour_later : (c : ℕ) → c < mktime (next_hour (localtime c))
  pub same_hour :
      (c t : ℕ)
      → c ≤ t
      → t < mktime (next_hour (localtime c))
      → (localtime t).tm_hour ≡ (localtime c).tm_hour
  pub minute_later : (c : ℕ) → c < mktime (next_minute (localtime c))
  pub same_minute :
      (c t : ℕ)
      → c ≤ t
      → t < mktime (next_minute (localtime c))
      → (localtime t).tm_min ≡ (localtime c).tm_min
  pub no_seconds : (c : ℕ) → c < mktime (record (localtime c) { tm_sec = 0 }) + 60
  pub whole_minutes : (t : Tm) → t.tm_sec ≡ 0 → mktime t % 60 ≡ 0

eqb_ℤ_refl : (v : ℤ) → eqb_ℤ v v ≡ true
eqb_ℤ_refl v = ground arith

eqb_ℤ_sound : (a b : ℤ) → eqb_ℤ a b ≡ true → a ≡ b
eqb_ℤ_sound a b h = ground (arith, h, eq_of_parts a b)

-- A wildcard agrees with every value, and a number with itself only.
abbrev pub Agrees : Option ℤ → ℕ → Type 0
Agrees none value = Unit
Agrees (some want) value = pos value ≡ want

-- The time agrees with all five fields; months are counted from 1.
abbrev pub Matches : Fields → Tm → Type 0
Matches f t =
    Agrees f.want_month (t.tm_mon + 1)
    × (Agrees f.want_day t.tm_mday
        × (Agrees f.want_wday t.tm_wday
            × (Agrees f.want_hour t.tm_hour × Agrees f.want_min t.tm_min)))

-- No time from `a` on, and before `b`, matches.
abbrev pub NoMatch : (ℕ → Tm) → Fields → ℕ → ℕ → Type 0
NoMatch localtime f a b = (u : ℕ) → a ≤ u → u < b → Matches f (localtime u) → ⊥

differs-Agrees : (want : Option ℤ) (value : ℕ) → differs want value ≡ false → Agrees want value
unfolding differs
differs-Agrees none value h = tt
differs-Agrees (some want) value h = elim (Bool-cases (eqb_ℤ (pos value) want)) [
  | inl e ↦ eqb_ℤ_sound (pos value) want e
  | inr e ↦ absurd (ground (arith, rw e at h))
]

Agrees-differs : (want : Option ℤ) (value : ℕ) → Agrees want value → differs want value ≡ false
unfolding differs
Agrees-differs none value h = refl
Agrees-differs (some want) value h = rw (sym h, eqb_ℤ_refl (pos value)) refl

if_none :
    (b : Bool) (t : Tm) (rest : Option Tm)
    → (if b then some t else rest) ≡ none
    → (b ≡ false) × (rest ≡ none)
if_none true t rest h = absurd (ground arith)
if_none false t rest h = (refl, h)

-- The search stops only at a match.
jump-Matches : (f : Fields) (u : Tm) → jump f u ≡ none → Matches f u
unfolding jump
jump-Matches f u m =
    let (a, m1) = if_none (differs f.want_month (u.tm_mon + 1)) (next_month u) _ m in
    let (b, m2) = if_none (differs f.want_day u.tm_mday) (next_day u) _ m1 in
    let (c, m3) = if_none (differs f.want_wday u.tm_wday) (next_day u) _ m2 in
    let (d, m4) = if_none (differs f.want_hour u.tm_hour) (next_hour u) _ m3 in
    let (e, _) = if_none (differs f.want_min u.tm_min) (next_minute u) none m4 in
    (
      differs-Agrees _ _ a,
      (differs-Agrees _ _ b, (differs-Agrees _ _ c, (differs-Agrees _ _ d, differs-Agrees _ _ e))),
    )

-- No field differs from a match.
agrees :
    (f : Fields) (u : Tm)
    → Matches f u
    → (differs f.want_month (u.tm_mon + 1) ≡ false)
      × ((differs f.want_day u.tm_mday ≡ false)
          × ((differs f.want_wday u.tm_wday ≡ false)
              × ((differs f.want_hour u.tm_hour ≡ false) × (differs f.want_min u.tm_min ≡ false))))
agrees f u (a, (b, (c, (d, e)))) = (
  Agrees-differs f.want_month (u.tm_mon + 1) a,
  (
    Agrees-differs f.want_day u.tm_mday b,
    (
      Agrees-differs f.want_wday u.tm_wday c,
      (Agrees-differs f.want_hour u.tm_hour d, Agrees-differs f.want_min u.tm_min e),
    ),
  ),
)

clash : {a b : ℕ} (want : Option ℤ) → differs want a ≡ true → b ≡ a → differs want b ≡ false → ⊥
clash want h e g = ground arith

module _ (localtime : ℕ → Tm) (mktime : Tm → ℕ) (cal : IsCalendar localtime mktime) where
  open cal use {
    month_later, same_month, day_later, same_day, hour_later, same_hour, minute_later, same_minute,
    no_seconds, whole_minutes,
  }

  -- A jump moves on to a whole minute, and no time before its end matches.
  abbrev Skips : Fields → ℕ → Option Tm → Type 0
  Skips f c none = Unit
  Skips f c (some t) = (c < mktime t) × ((mktime t % 60 ≡ 0) × NoMatch localtime f c (mktime t))

  jump-Skips : (f : Fields) (c : ℕ) → Skips f c (jump f (localtime c))
  unfolding jump
  jump-Skips f c = elim (Bool-cases (differs f.want_month ((localtime c).tm_mon + 1))) [
    | inl e ↦ rw e (
      month_later c,
      (
        whole_minutes (next_month (localtime c)) refl,
        λ u p q m.
            clash f.want_month e (ap (λ (n : ℕ). n + 1) (same_month c u p q))
              (agrees f (localtime u) m).0,
      ),
    )
    | inr e ↦ rw e (elim (Bool-cases (differs f.want_day (localtime c).tm_mday)) [
      | inl g ↦ rw g (
        day_later c,
        (
          whole_minutes (next_day (localtime c)) refl,
          λ u p q m. clash f.want_day g (same_day c u p q).0 (agrees f (localtime u) m).1.0,
        ),
      )
      | inr g ↦ rw g (elim (Bool-cases (differs f.want_wday (localtime c).tm_wday)) [
        | inl h ↦ rw h (
          day_later c,
          (
            whole_minutes (next_day (localtime c)) refl,
            λ u p q m. clash f.want_wday h (same_day c u p q).1 (agrees f (localtime u) m).1.1.0,
          ),
        )
        | inr h ↦ rw h (elim (Bool-cases (differs f.want_hour (localtime c).tm_hour)) [
          | inl i ↦ rw i (
            hour_later c,
            (
              whole_minutes (next_hour (localtime c)) refl,
              λ u p q m. clash f.want_hour i (same_hour c u p q) (agrees f (localtime u) m).1.1.1.0,
            ),
          )
          | inr i ↦ rw i (elim (Bool-cases (differs f.want_min (localtime c).tm_min)) [
            | inl j ↦ rw j (
              minute_later c,
              (
                whole_minutes (next_minute (localtime c)) refl,
                λ u p q m.
                    clash f.want_min j (same_minute c u p q) (agrees f (localtime u) m).1.1.1.1,
              ),
            )
            | inr j ↦ rw j tt
          ])
        ])
      ])
    ])
  ]

  -- In `n` rounds from `c` on the search found no match, and passed `n` minutes; or it found the
  -- first match.
  abbrev pub IsFirst : ℕ → Fields → ℕ → ℕ → Type 0
  IsFirst n f c r =
      ((r ≡ 0) × NoMatch localtime f c (c + 60 * n))
      ⊎ ((c ≤ r) × (Matches f (localtime r) × NoMatch localtime f c r))

  -- Behind a jump from `c` to `t`.
  later :
      (n : ℕ) (f : Fields) (c : ℕ) (t : Tm)
      → c % 60 ≡ 0
      → Skips f c (some t)
      → (r : ℕ) → IsFirst n f (mktime t) r
      → IsFirst (suc n) f c r
  later n f c t z (p, (w, skip)) r (inl (e, none_later)) = inl (
    e,
    λ u a b x. elim (dec_lt u (mktime t)) [
      | yes l ↦ skip u a l x
      | no l ↦ none_later u (omega arith) (within n c (mktime t) u z w p b) x
    ],
  )
    where
      within : (n c d u : ℕ) → c % 60 ≡ 0 → d % 60 ≡ 0 → c < d → u < c + 60 * suc n → u < d + 60 * n
      within n c d u z w p b = omega (arith, z, w, p, b)
  later n f c t z (p, (w, skip)) r (inr (q, (m, first))) = inr (
    omega arith,
    (
      m,
      λ u a b x. elim (dec_lt u (mktime t)) [
        | yes l ↦ skip u a l x
        | no l ↦ first u (omega arith) b x
      ],
    ),
  )

  search_from-IsFirst :
      (n : ℕ) (f : Fields) (c : ℕ) → c % 60 ≡ 0 → IsFirst n f c (search_from localtime mktime n f c)
  unfolding search_from
  search_from-IsFirst zero f c z = inl (refl, λ u a b x. absurd (omega (arith, a, b)))
  search_from-IsFirst (suc n) f c z = elim (Option-cases (jump f (localtime c))) [
    | inl e ↦
        rw (e, search_from)
          (inr (omega arith, (jump-Matches f (localtime c) e, λ u p q m. absurd (omega arith))))
    | inr (t, e) ↦
        let skips : Skips f c (some t) = rw e at (jump-Skips f c) in
        rw (e, search_from)
          (later n f c t z skips (search_from localtime mktime n f (mktime t))
            (search_from-IsFirst n f (mktime t) skips.1.0))
  ]

  -- Where `localtime` and `mktime` move on with every jump and pass over times of one month, day,
  -- hour or minute only, and minutes are whole: for an expression that is refused
  -- `compute_next_cron` gives 0. Else it gives the first minute
  -- after `after` whose local time agrees with the expression's five fields: the time it gives is
  -- later than `after`, and no time from the start of the search up to it agrees. Or it gives 0, and
  -- no time of the 527040 minutes, that is 366 days, from the start of the search on agrees.
  pub compute_next_cron_lem :
      (expr : Bytes) (after : ℕ)
      → let r = compute_next_cron localtime mktime expr after in
        let c = start_at localtime mktime after in
        ((parse_fields expr ≡ none) × (r ≡ 0))
        ⊎ ((f : Fields) × ((parse_fields expr ≡ some f)
              × (((r ≡ 0) × NoMatch localtime f c (c + 31622400))
                  ⊎ ((after < r) × (Matches f (localtime r) × NoMatch localtime f c r)))))
  unfolding compute_next_cron
  compute_next_cron_lem expr after = elim (Option-cases (parse_fields expr)) [
    | inl e ↦ rw e (inl (refl, refl))
    | inr (f, e) ↦
        let whole = whole_minutes (record (localtime (after + 60)) { tm_sec = 0 }) refl in
        rw e (found f (search_from-IsFirst 527040 f (start_at localtime mktime after) whole))
  ]
    where
      found :
          (f : Fields) {r : ℕ}
          → IsFirst 527040 f (start_at localtime mktime after) r
          → let c = start_at localtime mktime after in
            ((some f ≡ none) × (r ≡ 0))
            ⊎ ((g : Fields) × ((some f ≡ some g)
                  × (((r ≡ 0) × NoMatch localtime g c (c + 31622400))
                      ⊎ ((after < r) × (Matches g (localtime r) × NoMatch localtime g c r)))))
      found f (inl z) = inr (f, (refl, inl z))
      found f (inr (p, (m, first))) =
          inr (f, (refl, inr (omega (arith, no_seconds (after + 60)), (m, first))))
