-- ===== src/Scheduler/TaskRuns.antt =====
-- src/llamaste/scheduler.cpp: what `check_tasks` does to every task.
use mathlib.Core.Option.{map}
use mathlib.Core.Path.{subst}
use llamaste.Prelude.{
  ℕ, ◌≡◌, ◌≢◌, refl, not, is_empty, ℤ, pos, ◌+ℤ◌, ltb_ℤ, sym, ◌∙◌, Bool, false, ◌&&◌, ◌||◌, Option,
  none, some, List, [], ◌∷◌, ◌++◌, Bytes, bytes_eq, bytes_eq_iff, if◌then◌else◌, arith, Bool-cases,
  inl, inr,
}
use llamaste.Scheduler.{Scheduler}
use llamaste.Scheduler.TaskFiring.{notices, fire_tasks-pending}
use llamaste.Scheduler.TaskChecks.{
  Firing, check_table, is_due, due_tasks, once_id, erase_tasks, is_known, any_known, fired, settle,
  finish_tasks, check_tasks,
}
use llamaste.Scheduler.Tasks.{ScheduledTask, TaskState, save_tasks, find_task, change_task}
use llamaste.Scheduler.TaskTable.{
  HasUniqueIds, mem_id, mem_id-append, find_task-change_task, change_task-HasUniqueIds,
  find_task-erase_tasks,
}

abbrev pub is_due? : ℕ → Option ScheduledTask → Bool
is_due? now none = false
is_due? now (some t) = is_due now t

find_task_unknown :
    (id : Bytes) (now : ℕ) (ts : List ScheduledTask)
    → find_task id ts ≡ none
    → find_task id (due_tasks now ts) ≡ none
unfolding find_task due_tasks
find_task_unknown id now [] h = refl
find_task_unknown id now (t ∷ ts) h = ground (arith, find_task_unknown id now ts)

-- A task is among the due ones exactly when the table's task of its id is due.
due_tasks-is_known :
    (id : Bytes) (now : ℕ) (ts : List ScheduledTask)
    → HasUniqueIds ts
    → is_known (find_task id (due_tasks now ts)) ≡ is_due? now (find_task id ts)
unfolding find_task due_tasks
due_tasks-is_known id now [] u = refl
due_tasks-is_known id now (t ∷ ts) u =
    ground (
      arith,
      bytes_eq_iff t.id id,
      u,
      find_task_unknown id now ts,
      due_tasks-is_known id now ts u.1,
    )

due_tasks-HasUniqueIds :
    (now : ℕ) (ts : List ScheduledTask) → HasUniqueIds ts → HasUniqueIds (due_tasks now ts)
unfolding due_tasks
due_tasks-HasUniqueIds now [] u = tt
due_tasks-HasUniqueIds now (t ∷ ts) u = elim (Bool-cases (is_due now t)) [
  | inl e ↦ rw e (find_task_unknown t.id now ts u.0, due_tasks-HasUniqueIds now ts u.1)
  | inr e ↦ rw e (due_tasks-HasUniqueIds now ts u.1)
]

abbrev is_once? : Option ScheduledTask → Bool
is_once? none = false
is_once? (some t) = t.once

mem_id-once_id :
    (id : Bytes) (ts : List ScheduledTask)
    → mem_id id (once_id (find_task id ts)) ≡ is_once? (find_task id ts)
unfolding find_task
mem_id-once_id id [] = refl
mem_id-once_id id (t ∷ ts) = ground (arith, mem_id-once_id id ts)

mem_id-once_id_other :
    (id k : Bytes) (ts : List ScheduledTask)
    → bytes_eq k id ≡ false
    → mem_id id (once_id (find_task k ts)) ≡ false
unfolding find_task
mem_id-once_id_other id k [] h = refl
mem_id-once_id_other id k (t ∷ ts) h = ground (
  arith,
  bytes_eq_iff t.id k,
  bytes_eq_iff t.id id,
  bytes_eq_iff k id,
  mem_id-once_id_other id k ts h,
)

module _ (next_cron : Bytes → ℕ → ℕ) (later : ℕ) where
  -- When a task that does not run once runs next: at the next minute of its expression, after its
  -- interval, or never again.
  abbrev pub next_time : ScheduledTask → ℤ
  next_time t =
      if not (is_empty t.cron)
      then pos (next_cron t.cron later)
      else if ltb_ℤ (pos 0) t.every_seconds
      then pos later +ℤ t.every_seconds
      else pos 0

  abbrev pub is_recurring : ScheduledTask → Bool
  is_recurring t = not (is_empty t.cron) || ltb_ℤ (pos 0) t.every_seconds

  -- The task after its run: it ran now, its next time is set, it stays switched on if it recurs, and
  -- everything else is as before.
  abbrev pub run_again : ScheduledTask → ScheduledTask
  run_again t = record t {
    last_run = pos later;
    next_run = next_time t;
    enabled = if is_recurring t then t.enabled else false;
  }

  -- What the loop makes of a task that was fired, if it is still there.
  abbrev pub outcome : Option ScheduledTask → Option ScheduledTask
  outcome none = none
  outcome (some t) = if t.once then none else some (run_again t)

  fired-run_again : (t : ScheduledTask) → t.once ≡ false → fired next_cron later t ≡ run_again t
  unfolding fired
  fired-run_again t h = simp h (elim (Bool-cases (is_empty t.cron)) [
    | inr e ↦ rw e refl
    | inl e ↦ rw e (elim (Bool-cases (ltb_ℤ (pos 0) t.every_seconds)) [
      | inl g ↦ rw g refl
      | inr g ↦ rw g refl
    ])
  ])

  fired-id : (t : ScheduledTask) → (fired next_cron later t).id ≡ t.id
  unfolding fired
  fired-id t = ground arith

  -- The table after the loop, and the ids to remove.
  settle_lem :
      (id : Bytes) (due tasks : List ScheduledTask) (ids : List Bytes)
      → HasUniqueIds due
      → HasUniqueIds tasks
      → let (after, gone) = settle next_cron later due tasks ids in
        let known = is_known (find_task id due) in
        (find_task id after ≡ (
          if known then map (fired next_cron later) (find_task id tasks) else find_task id tasks))
        × ((mem_id id gone ≡ (mem_id id ids || (known && is_once? (find_task id tasks))))
            × HasUniqueIds after)
  unfolding settle find_task
  settle_lem id [] tasks ids v u = (refl, (ground arith, u))
  settle_lem id (d ∷ due) tasks ids v u =
      let f : ScheduledTask → ScheduledTask = fired next_cron later in
      let tasks1 : List ScheduledTask = change_task d.id f tasks in
      let found = find_task-change_task id d.id f tasks fired-id in
      let (p, (q, w)) =
        settle_lem id due tasks1 (ids ++ once_id (find_task d.id tasks)) v.1
          (change_task-HasUniqueIds d.id f tasks fired-id u) in
      elim (Bool-cases (bytes_eq d.id id)) [
        | inl e ↦
            let same : d.id ≡ id = (bytes_eq_iff d.id id).0 e in
            let unknown = subst (λ (k : Bytes). find_task k due ≡ none) same v.0 in
            let here =
              subst
                (λ (k : Bytes).
                  mem_id id (once_id (find_task k tasks)) ≡ is_once? (find_task id tasks))
                (sym same) (mem_id-once_id id tasks) in
            (
              ground (arith, e, unknown, p, found),
              (
                ground (
                  arith,
                  e,
                  unknown,
                  q,
                  here,
                  mem_id-append id ids (once_id (find_task d.id tasks)),
                ),
                w,
              ),
            )
        | inr e ↦
            let other = mem_id-once_id_other id d.id tasks e in
            (
              ground (arith, e, p, found),
              (
                ground (
                  arith,
                  e,
                  q,
                  found,
                  other,
                  mem_id-append id ids (once_id (find_task d.id tasks)),
                ),
                w,
              ),
            )
      ]

  outcome_kept :
      (id : Bytes) (o : Option ScheduledTask) (known gone : Bool)
      → gone ≡ (known && is_once? o)
      → (if gone then none else (if known then map (fired next_cron later) o else o))
        ≡ (if known then outcome o else o)
  outcome_kept id none known gone e = ground (arith, e)
  outcome_kept id (some t) known gone e = elim (Bool-cases t.once) [
    | inl h ↦ simp h (ground (arith, e, h))
    | inr h ↦ rw (fired-run_again t h) (ground (arith, e, h))
  ]

  finish_tasks-tasks :
      (due : List ScheduledTask) (s : TaskState)
      → let (tasks, ids) = settle next_cron later due s.tasks [] in
        (finish_tasks next_cron later due s).tasks ≡ erase_tasks ids tasks
  unfolding finish_tasks save_tasks
  finish_tasks-tasks due s = elim (Bool-cases (any_known due s.tasks)) [
    | inr e ↦ rw e refl
    | inl e ↦ rw e (elim (Bool-cases s.saves) [ inl f ↦ simp f refl | inr f ↦ simp f refl ])
  ]

  finish_tasks_lem :
      (id : Bytes) (due : List ScheduledTask) (s : TaskState)
      → HasUniqueIds due
      → HasUniqueIds s.tasks
      → let after = (finish_tasks next_cron later due s).tasks in
        (find_task id after ≡ (
          if is_known (find_task id due)
          then outcome (find_task id s.tasks)
          else find_task id s.tasks))
        × HasUniqueIds after
  finish_tasks_lem id due s v u =
      let (p, (q, w)) = settle_lem id due s.tasks [] v u in
      let (r, x) =
        find_task-erase_tasks id (settle next_cron later due s.tasks []).1
          (settle next_cron later due s.tasks []).0 w in
      rw (finish_tasks-tasks due s)
        (r ∙ (rw p (outcome_kept id (find_task id s.tasks) (is_known (find_task id due)) _ q)), x)

  check_table_lem :
      (now : ℕ) (meanwhile : TaskState → TaskState) (s : TaskState) (id : Bytes)
      → HasUniqueIds s.tasks
      → HasUniqueIds (meanwhile s).tasks
      → due_tasks now s.tasks ≢ []
      → let after = (check_table next_cron now later meanwhile s).tasks in
        let task = find_task id (meanwhile s).tasks in
        (find_task id after ≡ (if is_due? now (find_task id s.tasks) then outcome task else task))
        × HasUniqueIds after
  unfolding check_table
  check_table_lem now meanwhile s id u u' h =
      let ready : List ScheduledTask = due_tasks now s.tasks in
      rw (sym (due_tasks-is_known id now s.tasks u)) (
        rw (checked ready h)
          (finish_tasks_lem id ready (meanwhile s) (due_tasks-HasUniqueIds now s.tasks u) u'))
    where
      checked :
          (due : List ScheduledTask)
          → due ≢ []
          → (elim due [ [] ↦ s | t ∷ ts ↦ finish_tasks next_cron later (t ∷ ts) (meanwhile s) ])
            ≡ finish_tasks next_cron later due (meanwhile s)
      checked [] h = absurd (h refl)
      checked (t ∷ ts) h = refl

  -- When tasks are due, and the ids are distinct, a check does to the table what its description
  -- says: a task that was due is removed if it runs once; else its last run is now and its next run the
  -- next minute of its expression or now and its interval, or, where it has neither, it is switched
  -- off, provided that another thread has not removed it meanwhile; every other task is left as it is,
  -- and the ids are distinct again. Each due task has put one notification behind those that wait.
  pub check_tasks_lem :
      (e : Firing) (now : ℕ) (meanwhile : TaskState → TaskState) (s : TaskState) (a : Scheduler)
      (id : Bytes)
      → HasUniqueIds s.tasks
      → HasUniqueIds (meanwhile s).tasks
      → due_tasks now s.tasks ≢ []
      → let (after, alerts) = check_tasks next_cron e now later meanwhile (s, a) in
        let task = find_task id (meanwhile s).tasks in
        (find_task id after.tasks
          ≡ (if is_due? now (find_task id s.tasks) then outcome task else task))
        × (HasUniqueIds after.tasks
            × (alerts.pending_notifications
                ≡ a.pending_notifications ++ notices e (due_tasks now s.tasks)))
  unfolding check_tasks
  check_tasks_lem e now meanwhile s a id u u' h =
      let (p, v) = check_table_lem now meanwhile s id u u' h in
      (p, (v, fire_tasks-pending e (due_tasks now s.tasks) a))
