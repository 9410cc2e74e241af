-- ===== src/Supervisor.antt =====
-- src/llamaste/supervisor.cpp: the restarts of `supervisor_run`, as steps on the counters. What the
-- loop sees in turn is an event; the times are those of `time`.
pub mod Limits
pub mod Restarts
pub mod Reached
pub mod BackOff
pub mod Format
mod Tests
use llamaste.Prelude.{
  ℕ, ◌+◌, Bool, true, false, not, List, [], ◌∷◌, ◌++◌, ℤ, pos, ◌-ℤ◌, ltb_ℤ, ltb, if◌then◌else◌,
}

-- `dbus_restarts` with `dbus_restart_window`, or the two counters of bluetoothd.
pub record Limit : Type 0 where
  pub restarts : ℕ
  pub restart_window : ℤ

pub record Supervisor : Type 0 where
  pub crash_count : ℕ
  pub last_crash : ℤ
  pub dbus : Limit
  pub bt : Limit
  pub stopped : Bool

-- At the loop's head: whether a shutdown has been requested, and whether the child could be spawned.
-- When a process has exited: the time; for dbus-daemon, whether bluetoothd has a pid; for the child,
-- whether a shutdown has been requested. A failure of `waitpid` counts as the child's exit.
pub data Event : Type 0 where
  loop_head : Bool → Bool → Event
  dbus_exited : ℤ → Bool → Event
  bluetoothd_exited : ℤ → Event
  unknown_exited : Event
  child_exited : ℤ → Bool → Event

pub data Action : Type 0 where
  spawn_child : Action
  start_dbus : Action
  stop_bluetoothd : Action
  start_bluetoothd : Action
  sleep : ℕ → Action

abbrev pub no_restarts : Limit
no_restarts = record { restarts = 0; restart_window = pos 0 }

abbrev pub supervisor_start : Supervisor
supervisor_start = record {
  crash_count = 0;
  last_crash = pos 0;
  dbus = no_restarts;
  bt = no_restarts;
  stopped = false;
}

unfoldable pub renew : ℤ → Limit → Limit
renew now l =
    if ltb_ℤ (pos 300) (now -ℤ l.restart_window)
    then record { restarts = 0; restart_window = now }
    else l

abbrev pub is_allowed : Limit → Bool
is_allowed l = ltb l.restarts 3

-- The counter when a daemon has exited.
unfoldable pub respawn : ℤ → Limit → Limit × Bool
respawn now l =
    let l1 : Limit = renew now l in
    if is_allowed l1 then (record l1 { restarts = l1.restarts + 1 }, true) else (l1, false)

abbrev pub dbus_actions : Bool → Bool → List Action
dbus_actions bt_known false = []
dbus_actions true true = start_dbus ∷ stop_bluetoothd ∷ start_bluetoothd ∷ []
dbus_actions false true = start_dbus ∷ start_bluetoothd ∷ []

abbrev pub bt_actions : Bool → List Action
bt_actions false = []
bt_actions true = start_bluetoothd ∷ []

abbrev pub paused : ℕ → Supervisor → Supervisor × List Action
paused crashes s =
    if ltb 3 crashes
    then (record s { crash_count = 0 }, sleep 30 ∷ [])
    else (record s { crash_count = crashes }, sleep 2 ∷ [])

-- The end of the loop's body, after the child has exited.
unfoldable pub back_off : ℤ → Supervisor → Supervisor × List Action
back_off now s =
    let crashes : ℕ = if ltb_ℤ (now -ℤ s.last_crash) (pos 60) then s.crash_count + 1 else 1 in
    paused crashes (record s { last_crash = now })

abbrev spawn_actions : Bool → List Action
spawn_actions true = spawn_child ∷ []
spawn_actions false = spawn_child ∷ sleep 5 ∷ []

unfoldable pub handle_event : Supervisor → Event → Supervisor × List Action
handle_event s (loop_head true ok) = (record s { stopped = true }, [])
handle_event s (loop_head false ok) = (s, spawn_actions ok)
handle_event s (dbus_exited now bt_known) =
    let (l, started) = respawn now s.dbus in (record s { dbus = l }, dbus_actions bt_known started)
handle_event s (bluetoothd_exited now) =
    let (l, started) = respawn now s.bt in (record s { bt = l }, bt_actions started)
handle_event s unknown_exited = (s, [])
handle_event s (child_exited now true) = (record s { stopped = true }, [])
handle_event s (child_exited now false) = back_off now s

abbrev pub step : Supervisor → Event → Supervisor × List Action
step s e = if s.stopped then (s, []) else handle_event s e

unfoldable pub supervisor_run : Supervisor → List Event → Supervisor × List Action
supervisor_run s [] = (s, [])
supervisor_run s (e ∷ es) =
    let (s1, done) = step s e in let (s2, more) = supervisor_run s1 es in (s2, done ++ more)
