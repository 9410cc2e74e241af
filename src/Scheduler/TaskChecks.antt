-- ===== src/Scheduler/TaskChecks.antt =====
-- src/llamaste/scheduler.cpp: `check_tasks` and `fire_task`. The clock at the begin and at the end of
-- a check is an argument.

use llamaste.Prelude.{
  ℕ, Bool, true, false, not, ◌&&◌, ◌||◌, Option, none, some, List, [], ◌∷◌, ◌++◌, Bytes, codes,
  is_empty, ℤ, pos, ◌+ℤ◌, ltb_ℤ, leb_ℤ, ltb, if◌then◌else◌, length, take,
}
use llamaste.Scheduler.{Notification, Scheduler}
use llamaste.Scheduler.Alerts.{push_notification}
use llamaste.Scheduler.Tasks.{
  ScheduledTask, TaskState, save_tasks, find_task, erase_task, change_task,
}

-- Phase 1 of `check_tasks`.
abbrev pub is_due : ℕ → ScheduledTask → Bool
is_due now t = t.enabled && (ltb_ℤ (pos 0) t.next_run && leb_ℤ t.next_run (pos now))

unfoldable pub due_tasks : ℕ → List ScheduledTask → List ScheduledTask
due_tasks now [] = []
due_tasks now (t ∷ ts) = if is_due now t then t ∷ due_tasks now ts else due_tasks now ts

abbrev pub once_id : Option ScheduledTask → List Bytes
once_id none = []
once_id (some t) = if t.once then t.id ∷ [] else []

unfoldable pub erase_tasks : List Bytes → List ScheduledTask → List ScheduledTask
erase_tasks [] tasks = tasks
erase_tasks (id ∷ ids) tasks = erase_tasks ids (erase_task id tasks)

abbrev pub is_known : Option ScheduledTask → Bool
is_known none = false
is_known (some _) = true

unfoldable pub any_known : List ScheduledTask → List ScheduledTask → Bool
any_known [] tasks = false
any_known (d ∷ due) tasks = is_known (find_task d.id tasks) || any_known due tasks

-- What the inference function does, if one is set; an exception is the text after "Error: ".
pub data Inferred : Type 0 where
  no_function : Inferred
  says : Bytes → Inferred
  fails : Bytes → Inferred

abbrev fire_result : Inferred → Bytes
fire_result no_function = codes "(no inference function configured)"
fire_result (says text) = text
fire_result (fails what) = codes "Error: " ++ what

-- The random id, the clock and the inference of a task that is fired.
pub record Firing : Type 0 where
  pub new_id : ScheduledTask → Bytes
  pub fired_at : ScheduledTask → ℤ
  pub infer : ScheduledTask → Inferred

abbrev pub scheduled_notification : Firing → ScheduledTask → Notification
scheduled_notification e t =
    let result : Bytes = fire_result (e.infer t) in
    record {
      id = e.new_id t;
      type = codes "scheduled";
      title = codes "Scheduled: " ++ t.id;
      body = if ltb 200 (length result) then take 197 result ++ codes "..." else result;
      time = e.fired_at t;
    }

unfoldable pub fire_task : Firing → ScheduledTask → Scheduler → Scheduler
fire_task e t s = push_notification (scheduled_notification e t) s

unfoldable pub fire_tasks : Firing → List ScheduledTask → Scheduler → Scheduler
fire_tasks e [] s = s
fire_tasks e (t ∷ ts) s = fire_tasks e ts (fire_task e t s)

module _ (next_cron : Bytes → ℕ → ℕ) where
  -- Phase 3 for a task that was fired: when it runs next, if it is not a task that runs once.
  unfoldable pub fired : ℕ → ScheduledTask → ScheduledTask
  fired now t =
      let ran : ScheduledTask = record t { last_run = pos now } in
      if t.once
      then ran
      else if not (is_empty t.cron)
      then record ran { next_run = pos (next_cron t.cron now) }
      else if ltb_ℤ (pos 0) t.every_seconds
      then record ran { next_run = pos now +ℤ t.every_seconds }
      else record ran { next_run = pos 0; enabled = false }

  -- The loop over the due tasks: the tasks as they are now, and the ids to remove.
  unfoldable pub settle :
      ℕ → List ScheduledTask → List ScheduledTask → List Bytes → List ScheduledTask × List Bytes
  settle now [] tasks ids = (tasks, ids)
  settle now (d ∷ due) tasks ids =
      settle now due (change_task d.id (fired now) tasks) (ids ++ once_id (find_task d.id tasks))

  unfoldable pub finish_tasks : ℕ → List ScheduledTask → TaskState → TaskState
  finish_tasks now due s =
      let (tasks, ids) = settle now due s.tasks [] in
      let after : TaskState = record s { tasks = erase_tasks ids tasks } in
      if any_known due s.tasks then save_tasks after else after

  -- What a check does to the tasks. `meanwhile` is what other threads do to them while the due ones
  -- are fired.
  unfoldable pub check_table : ℕ → ℕ → (TaskState → TaskState) → TaskState → TaskState
  check_table now later meanwhile s = elim (due_tasks now s.tasks) [
    | [] ↦ s
    | t ∷ ts ↦ finish_tasks later (t ∷ ts) (meanwhile s)
  ]

  unfoldable pub check_tasks :
      Firing → ℕ → ℕ → (TaskState → TaskState) → TaskState × Scheduler → TaskState × Scheduler
  check_tasks e now later meanwhile (s, alerts) =
      (check_table now later meanwhile s, fire_tasks e (due_tasks now s.tasks) alerts)
