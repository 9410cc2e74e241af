-- ===== src/Scheduler/TaskFiring.antt =====
-- src/llamaste/scheduler.cpp: the notifications of the tasks that are fired.
use mathlib.Core.List.{append_assoc, append-nil}
use llamaste.Prelude.{◌≡◌, sym, ◌∙◌, List, [], ◌∷◌, ◌++◌}
use llamaste.Scheduler.{Notification, Scheduler}
use llamaste.Scheduler.Alerts.{push_notification}
use llamaste.Scheduler.TaskChecks.{Firing, scheduled_notification, fire_task, fire_tasks}
use llamaste.Scheduler.Tasks.{ScheduledTask}

-- The notifications of these tasks, in order.
abbrev pub notices : Firing → List ScheduledTask → List Notification
notices e [] = []
notices e (t ∷ ts) = scheduled_notification e t ∷ notices e ts

pub fire_tasks-pending :
    (e : Firing) (ts : List ScheduledTask) (a : Scheduler)
    → (fire_tasks e ts a).pending_notifications ≡ a.pending_notifications ++ notices e ts
unfolding fire_tasks fire_task push_notification
fire_tasks-pending e [] a = sym (append-nil a.pending_notifications)
fire_tasks-pending e (t ∷ ts) a =
    fire_tasks-pending e ts (fire_task e t a)
    ∙ append_assoc a.pending_notifications (scheduled_notification e t ∷ []) (notices e ts)
