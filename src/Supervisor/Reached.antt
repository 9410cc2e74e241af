-- ===== src/Supervisor/Reached.antt =====
-- src/llamaste/supervisor.cpp: the counters that `supervisor_run` reaches, and what they allow.
use llamaste.Prelude.{
  ℕ, ◌+◌, leb_ℤ, ◌≤◌, refl, inl, inr, true, false, List, [], ◌∷◌, ℤ, pos, ◌-ℤ◌, ◌<ℤ◌, ltb_ℤ, ltb,
  All, if◌then◌else◌, arith, Bool-cases,
}
use llamaste.Supervisor.{
  paused, Limit, Supervisor, Event, loop_head, dbus_exited, bluetoothd_exited, unknown_exited,
  child_exited, supervisor_start, renew, respawn, back_off, handle_event, step, supervisor_run,
}
use llamaste.Supervisor.Limits.{IsLimit, left}
use llamaste.Supervisor.Restarts.{
  one_dbus, one_bluetoothd, total, IsWithin, IsSupervisor, supervisor_run-IsPaid,
}

respawn-IsLimit : (now : ℤ) (l : Limit) → IsLimit l → IsLimit (respawn now l).0
unfolding respawn renew
respawn-IsLimit now l (k, z) = elim (Bool-cases (ltb_ℤ (pos 300) (now -ℤ l.restart_window))) [
  | inl e ↦ simp e (omega arith, λ h. absurd (ground (arith, h)))
  | inr e ↦ elim (Bool-cases (ltb l.restarts 3)) [
    | inl f ↦ simp (e, f) (ground (arith, f), λ h. absurd (ground (arith, h)))
    | inr f ↦ simp (e, f) (k, z)
  ]
]

-- The counters in range.
abbrev pub IsSound : Supervisor → Type 0
IsSound s = IsSupervisor s × (s.crash_count ≤ 3)

handle_event-IsSound : (s : Supervisor) (e : Event) → IsSound s → IsSound (handle_event s e).0
unfolding handle_event back_off
handle_event-IsSound s (loop_head true ok) i = i
handle_event-IsSound s (loop_head false ok) i = i
handle_event-IsSound s (dbus_exited now bt_known) ((i, j), k) =
    ((respawn-IsLimit now s.dbus i, j), k)
handle_event-IsSound s (bluetoothd_exited now) ((i, j), k) = ((i, respawn-IsLimit now s.bt j), k)
handle_event-IsSound s unknown_exited i = i
handle_event-IsSound s (child_exited now true) i = i
handle_event-IsSound s (child_exited now false) (i, k) =
    go (if ltb_ℤ (now -ℤ s.last_crash) (pos 60) then s.crash_count + 1 else 1)
  where
    go : (crashes : ℕ) → IsSound (paused crashes (record s { last_crash = now })).0
    go crashes = elim (Bool-cases (ltb 3 crashes)) [
      | inl e ↦ rw e (i, omega arith)
      | inr e ↦ rw e (i, ground (arith, e))
    ]

step-IsSound : (s : Supervisor) (e : Event) → IsSound s → IsSound (step s e).0
step-IsSound s e i = elim (Bool-cases s.stopped) [
  | inl h ↦ simp h i
  | inr h ↦ simp h (handle_event-IsSound s e i)
]

pub supervisor_run-IsSound :
    (s : Supervisor) (es : List Event) → IsSound s → IsSound (supervisor_run s es).0
unfolding supervisor_run
supervisor_run-IsSound s [] i = i
supervisor_run-IsSound s (e ∷ es) i = supervisor_run-IsSound (step s e).0 es (step-IsSound s e i)

pub start_IsSound : IsSound supervisor_start
start_IsSound = (((omega arith, λ h. refl), (omega arith, λ h. refl)), omega arith)

left_bound : (a : ℤ) (l : Limit) → IsLimit l → left a l ≤ 5
left_bound a l (k, z) = elim (Bool-cases (leb_ℤ a l.restart_window)) [
  | inl e ↦ rw e (omega (arith, k))
  | inr e ↦ rw e (ground (arith, k))
]

-- However the processes exit, in any five minutes (on a clock that is past its first five)
-- dbus-daemon is started at most 5 times and bluetoothd at most 10 times, 5 of them with
-- dbus-daemon: a window of the counter can end and the next begin within the five minutes.
pub supervisor_run-starts :
    (before during : List Event) (a : ℤ)
    → pos 300 <ℤ a
    → All (IsWithin a) during
    → let actions = (supervisor_run (supervisor_run supervisor_start before).0 during).1 in
      (total one_dbus actions ≤ 5) × (total one_bluetoothd actions ≤ 10)
supervisor_run-starts before during a b w =
    let s : Supervisor = (supervisor_run supervisor_start before).0 in
    let ((i, j), k) = supervisor_run-IsSound supervisor_start before start_IsSound in
    let (p, (q, r)) = supervisor_run-IsPaid a s during b w (i, j) in
    let c = left_bound a s.dbus i in
    let d = left_bound a s.bt j in (omega (arith, p, c), omega (arith, q, c, d))
