-- ===== src/Supervisor/Tests.antt =====
-- The supervisor at a few exits.
use llamaste.Prelude.{◌≤◌, ◌≡◌, refl, true, false, List, [], ◌∷◌, codes, pos, decimal, All, arith}
use llamaste.Supervisor.{
  Event, loop_head, dbus_exited, child_exited, supervisor_start, supervisor_run, handle_event,
  respawn, renew,
}
use llamaste.Supervisor.Format.{format_uptime}
use llamaste.Supervisor.Reached.{supervisor_run-starts}
use llamaste.Supervisor.Restarts.{one_dbus, one_bluetoothd, total, IsWithin}

abbrev first_exit : List Event
first_exit = dbus_exited (pos 1000) false ∷ []

abbrev five_exits : List Event
five_exits =
    dbus_exited (pos 1299) true
    ∷ dbus_exited (pos 1300) true
    ∷ dbus_exited (pos 1301) true
    ∷ dbus_exited (pos 1302) true
    ∷ dbus_exited (pos 1303) true
    ∷ []

-- Within five seconds dbus-daemon is started five times.
five_starts :
    total one_dbus (supervisor_run (supervisor_run supervisor_start first_exit).0 five_exits).1 ≡ 5
unfolding supervisor_run handle_event respawn renew
five_starts = refl

five_exits-IsWithin : All (IsWithin (pos 1200)) five_exits
five_exits-IsWithin = ground arith

supervisor_run-starts_example :
    let actions = (supervisor_run (supervisor_run supervisor_start first_exit).0 five_exits).1 in
    (total one_dbus actions ≤ 5) × (total one_bluetoothd actions ≤ 10)
supervisor_run-starts_example =
    supervisor_run-starts first_exit five_exits (pos 1200) (omega arith) five_exits-IsWithin

abbrev one_crash : List Event
one_crash = loop_head false true ∷ child_exited (pos 1000) false ∷ []

abbrev three_crashes : List Event
three_crashes =
    child_exited (pos 1010) false
    ∷ child_exited (pos 1020) false
    ∷ child_exited (pos 1030) false
    ∷ []

one_day : format_uptime (pos 90061) ≡ codes "1d 1h 1m"
unfolding format_uptime decimal
one_day = refl
