-- ===== src/Supervisor/Restarts.antt =====
-- src/llamaste/supervisor.cpp: how often `supervisor_run` starts the daemons again.
use llamaste.Prelude.{
  ℕ, ◌+◌, ◌≤◌, ◌≡◌, refl, inl, inr, Bool, true, false, List, [], ◌∷◌, ◌++◌, ℤ, pos, ◌+ℤ◌, ◌-ℤ◌,
  ◌≤ℤ◌, ◌<ℤ◌, ltb_ℤ, ltb, All, if◌then◌else◌, arith, Bool-cases,
}
use llamaste.Supervisor.{
  paused, dbus_actions, bt_actions, Supervisor, Event, loop_head, dbus_exited, bluetoothd_exited,
  unknown_exited, child_exited, Action, start_dbus, start_bluetoothd, respawn, back_off,
  handle_event, step, supervisor_run,
}
use llamaste.Supervisor.Limits.{IsLimit, left, one_if, respawn-left}

-- The starts among the actions.
abbrev pub one_dbus : Action → ℕ
one_dbus start_dbus = 1
one_dbus _ = 0

abbrev pub one_bluetoothd : Action → ℕ
one_bluetoothd start_bluetoothd = 1
one_bluetoothd _ = 0

abbrev pub total : (Action → ℕ) → List Action → ℕ
total f [] = 0
total f (a ∷ actions) = f a + total f actions

pub total-append :
    (f : Action → ℕ) (xs bs : List Action) → total f (xs ++ bs) ≡ total f xs + total f bs
total-append f [] bs = omega arith
total-append f (x ∷ xs) bs = omega (arith, total-append f xs bs)

-- The daemons' exits lie in the five minutes from `a` on.
abbrev pub IsWithin : ℤ → Event → Type 0
IsWithin a (dbus_exited now bt_known) = (a ≤ℤ now) × (now ≤ℤ a +ℤ pos 300)
IsWithin a (bluetoothd_exited now) = (a ≤ℤ now) × (now ≤ℤ a +ℤ pos 300)
IsWithin a (loop_head shutdown ok) = Unit
IsWithin a (unknown_exited) = Unit
IsWithin a (child_exited now shutdown) = Unit

abbrev pub IsSupervisor : Supervisor → Type 0
IsSupervisor s = IsLimit s.dbus × IsLimit s.bt

-- The starts of both daemons are paid for by what the counters allow.
abbrev pub IsPaid : ℤ → Supervisor → Supervisor × List Action → Type 0
IsPaid a s (s', actions) =
    (total one_dbus actions + left a s'.dbus ≤ left a s.dbus)
    × ((total one_bluetoothd actions + (left a s'.dbus + left a s'.bt)
          ≤ left a s.dbus + left a s.bt)
        × IsSupervisor s')

nothing_IsPaid : (a : ℤ) (s : Supervisor) → IsSupervisor s → IsPaid a s (s, [])
nothing_IsPaid a s i = (omega arith, (omega arith, i))

dbus_actions_lem :
    (bt_known started : Bool)
    → (total one_dbus (dbus_actions bt_known started) ≡ one_if started)
      × (total one_bluetoothd (dbus_actions bt_known started) ≡ one_if started)
dbus_actions_lem bt_known false = (refl, refl)
dbus_actions_lem true true = (refl, refl)
dbus_actions_lem false true = (refl, refl)

bt_actions_lem :
    (started : Bool)
    → (total one_dbus (bt_actions started) ≡ 0)
      × (total one_bluetoothd (bt_actions started) ≡ one_if started)
bt_actions_lem false = (refl, refl)
bt_actions_lem true = (refl, refl)

back_off-IsPaid : (a : ℤ) (now : ℤ) (s : Supervisor) → IsSupervisor s → IsPaid a s (back_off now s)
unfolding back_off
back_off-IsPaid a now s i =
    go (if ltb_ℤ (now -ℤ s.last_crash) (pos 60) then s.crash_count + 1 else 1)
  where
    go : (crashes : ℕ) → IsPaid a s (paused crashes (record s { last_crash = now }))
    go crashes = elim (Bool-cases (ltb 3 crashes)) [
      | inl e ↦ rw e (nothing_IsPaid a s i)
      | inr e ↦ rw e (nothing_IsPaid a s i)
    ]

handle_event-IsPaid :
    (a : ℤ) (s : Supervisor) (e : Event)
    → pos 300 <ℤ a
    → IsWithin a e
    → IsSupervisor s
    → IsPaid a s (handle_event s e)
unfolding handle_event
handle_event-IsPaid a s (loop_head true ok) b w i = nothing_IsPaid a s i
handle_event-IsPaid a s (loop_head false true) b w i = nothing_IsPaid a s i
handle_event-IsPaid a s (loop_head false false) b w i = nothing_IsPaid a s i
handle_event-IsPaid a s (dbus_exited now bt_known) b (p, q) (i, j) =
    let (c, i') = respawn-left a now s.dbus b p q i in
    let (d, e) = dbus_actions_lem bt_known (respawn now s.dbus).1 in
    (omega (arith, c, d), (omega (arith, c, e), (i', j)))
handle_event-IsPaid a s (bluetoothd_exited now) b (p, q) (i, j) =
    let (c, j') = respawn-left a now s.bt b p q j in
    let (d, e) = bt_actions_lem (respawn now s.bt).1 in
    (omega (arith, d), (omega (arith, c, e), (i, j')))
handle_event-IsPaid a s unknown_exited b w i = nothing_IsPaid a s i
handle_event-IsPaid a s (child_exited now true) b w i = nothing_IsPaid a s i
handle_event-IsPaid a s (child_exited now false) b w i = back_off-IsPaid a now s i

step-IsPaid :
    (a : ℤ) (s : Supervisor) (e : Event)
    → pos 300 <ℤ a
    → IsWithin a e
    → IsSupervisor s
    → IsPaid a s (step s e)
step-IsPaid a s e b w i = elim (Bool-cases s.stopped) [
  | inl h ↦ simp h (nothing_IsPaid a s i)
  | inr h ↦ simp h (handle_event-IsPaid a s e b w i)
]

pub supervisor_run-IsPaid :
    (a : ℤ) (s : Supervisor) (es : List Event)
    → pos 300 <ℤ a
    → All (IsWithin a) es
    → IsSupervisor s
    → IsPaid a s (supervisor_run s es)
unfolding supervisor_run
supervisor_run-IsPaid a s [] b w i = nothing_IsPaid a s i
supervisor_run-IsPaid a s (e ∷ es) b (v, w) i =
    let (s1, done) = step s e in
    let (p, (q, i1)) = step-IsPaid a s e b v i in
    let (s2, more) = supervisor_run s1 es in
    let (p', (q', i2)) = supervisor_run-IsPaid a s1 es b w i1 in
    (
      omega (arith, total-append one_dbus done more, p, p'),
      (omega (arith, total-append one_bluetoothd done more, q, q'), i2),
    )
