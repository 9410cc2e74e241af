-- ===== src/Scheduler/TaskTests.antt =====
-- The tasks at a small table, and cron expressions at a simple calendar.
use llamaste.Prelude.{
  none, ℕ, ◌≡◌, ◌≢◌, ◌⊎◌, ◌<◌, ◌+◌, ◌-◌, ◌*◌, ◌/◌, ◌%◌, suc, bytes_eq, refl, true, false, some, [],
  ◌∷◌, Bytes, codes, ◌++◌, pos, if◌then◌else◌, arith,
}
use llamaste.Text.{words, strtol, digits}
use llamaste.Scheduler.Cron.{
  in_ranges, parse_field, search_from, jump, differs, Tm, Fields, parse_fields, start_at,
  compute_next_cron,
}
use llamaste.Scheduler.CronSearch.{NoMatch, IsCalendar, Matches, compute_next_cron_lem}
use llamaste.Scheduler.{Scheduler}
use llamaste.Scheduler.TaskFiring.{notices}
use llamaste.Scheduler.TaskChecks.{Firing, says, due_tasks, check_tasks}
use llamaste.Scheduler.Tasks.{ScheduledTask, TaskState, find_task}
use llamaste.Scheduler.TaskRuns.{is_due?, outcome, check_tasks_lem}
use llamaste.Scheduler.TaskTable.{HasUniqueIds}

abbrev every_hour : ScheduledTask
every_hour = record {
  id = codes "a";
  enabled = true;
  prompt = codes "p";
  cron = [];
  at = pos 0;
  every_seconds = pos 3600;
  once = false;
  created = pos 0;
  last_run = pos 0;
  next_run = pos 900;
}

abbrev one_time : ScheduledTask
one_time = record every_hour {
  id = codes "b";
  every_seconds = pos 0;
  at = pos 800;
  once = true;
  next_run = pos 800;
}

abbrev two_tasks : TaskState
two_tasks = record { tasks = every_hour ∷ one_time ∷ []; saved = []; saves = true }

abbrev no_cron : Bytes → ℕ → ℕ
no_cron expr after = 0

two_tasks-HasUniqueIds : HasUniqueIds two_tasks.tasks
unfolding find_task bytes_eq
two_tasks-HasUniqueIds = (refl, (refl, tt))

two_due : due_tasks 1000 two_tasks.tasks ≢ []
unfolding due_tasks
two_due h = ground (arith, h)

abbrev firing : Firing
firing = record {
  new_id = λ t. codes "n" ++ t.id;
  fired_at = λ t. pos 1001;
  infer = λ t. says (codes "done");
}

abbrev silent : Scheduler
silent = record {
  start_time = pos 1;
  last_model_alert = pos 0;
  model_unloaded_since = pos 0;
  last_ram_alert = pos 0;
  last_disk_alert = pos 0;
  last_temp_alert = pos 0;
  pending_notifications = [];
  notify = false;
  notified = [];
}

check_tasks_lem_example :
    let (after, alerts) = check_tasks no_cron firing 1000 1002 (λ s. s) (two_tasks, silent) in
    let task = find_task (codes "b") two_tasks.tasks in
    (find_task (codes "b") after.tasks
      ≡ (if is_due? 1000 task then outcome no_cron 1002 task else task))
    × (HasUniqueIds after.tasks
        × (alerts.pending_notifications ≡ [] ++ notices firing (due_tasks 1000 two_tasks.tasks)))
check_tasks_lem_example =
    check_tasks_lem no_cron 1002 firing 1000 (λ s. s) two_tasks silent (codes "b")
      two_tasks-HasUniqueIds two_tasks-HasUniqueIds two_due

-- Twelve months of thirty days; the days of the week go on through them.
abbrev local_time : ℕ → Tm
local_time t = record {
  tm_sec = t % 60;
  tm_min = t / 60 % 60;
  tm_hour = t / 3600 % 24;
  tm_mday = suc (t / 86400 % 30);
  tm_mon = t / 2592000 % 12;
  tm_year = t / 31104000;
  tm_wday = t / 86400 % 7;
  tm_isdst = pos 0;
}

abbrev make_time : Tm → ℕ
make_time t =
    t.tm_year * 31104000
    + t.tm_mon * 2592000
    + (t.tm_mday - 1) * 86400
    + t.tm_hour * 3600
    + t.tm_min * 60
    + t.tm_sec

calendar : IsCalendar local_time make_time
calendar = record {
  month_later = λ c. omega arith;
  same_month = λ c t a b. omega arith;
  day_later = λ c. omega arith;
  same_day = λ c t a b. (omega arith, omega arith);
  hour_later = λ c. omega arith;
  same_hour = λ c t a b. omega arith;
  minute_later = λ c. omega arith;
  same_minute = λ c t a b. omega arith;
  no_seconds = λ c. omega arith;
  whole_minutes = λ t h. omega (arith, h);
}

-- Half past three, every day.
compute_next_cron_lem_example :
    let r = compute_next_cron local_time make_time (codes "30 3 * * *") 1000 in
    let c = start_at local_time make_time 1000 in
    ((parse_fields (codes "30 3 * * *") ≡ none) × (r ≡ 0))
    ⊎ ((f : Fields) × ((parse_fields (codes "30 3 * * *") ≡ some f)
          × (((r ≡ 0) × NoMatch local_time f c (c + 31622400))
              ⊎ ((1000 < r) × (Matches f (local_time r) × NoMatch local_time f c r)))))
compute_next_cron_lem_example =
    compute_next_cron_lem local_time make_time calendar (codes "30 3 * * *") 1000

half_past_three : compute_next_cron local_time make_time (codes "30 3 * * *") 1000 ≡ 12600
unfolding compute_next_cron parse_fields words in_ranges parse_field bytes_eq strtol digits
    search_from jump differs
half_past_three = refl
