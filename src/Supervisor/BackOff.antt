-- ===== src/Supervisor/BackOff.antt =====
-- src/llamaste/supervisor.cpp: the pauses of `supervisor_run` before the child is started again.
use llamaste.Prelude.{ℕ, ◌+◌, ◌*◌, ◌≤◌, ◌≡◌, List, [], ◌∷◌, ℤ, pos, ◌-ℤ◌, ◌<ℤ◌, ◌==◌, if◌then◌else◌}
use llamaste.Supervisor.{
  Supervisor, Event, loop_head, dbus_exited, bluetoothd_exited, unknown_exited, child_exited,
  Action, sleep,
}
use llamaste.Supervisor.Restarts.{total}

-- The pauses of exactly 2 and of exactly 30 seconds, and the seconds of all pauses but
-- those of 5 seconds, which follow a fork that failed.
abbrev pub one_short : Action → ℕ
one_short (sleep n) = if n == 2 then 1 else 0
one_short _ = 0

abbrev pub one_long : Action → ℕ
one_long (sleep n) = if n == 30 then 1 else 0
one_long _ = 0

abbrev pub seconds : Action → ℕ
seconds (sleep n) = if n == 5 then 0 else n
seconds _ = 0

-- Each exit of the child comes less than a minute after the one before.
abbrev pub IsQuick : ℤ → List Event → Type 0
IsQuick last [] = Unit
IsQuick last (child_exited now shutdown ∷ es) = ((now -ℤ last) <ℤ pos 60) × IsQuick now es
IsQuick last (loop_head shutdown ok ∷ es) = IsQuick last es
IsQuick last (dbus_exited now bt_known ∷ es) = IsQuick last es
IsQuick last (bluetoothd_exited now ∷ es) = IsQuick last es
IsQuick last (unknown_exited ∷ es) = IsQuick last es

abbrev IsBalanced : Supervisor → Supervisor × List Action → Type 0
IsBalanced s (s', actions) =
    (total one_short actions + s.crash_count ≡ 3 * total one_long actions + s'.crash_count)
    × ((total seconds actions ≡ 2 * total one_short actions + 30 * total one_long actions)
        × (s'.crash_count ≤ 3))
