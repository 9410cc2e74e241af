-- ===== src/Scheduler/Tasks.antt =====
-- src/llamaste/scheduler.h and scheduler.cpp: the tasks, `create_task` to `load_tasks`. The
-- clock, the random id and `compute_next_cron` at the machine's calendar are arguments. Times of
-- the clock are not negative; a time that a caller gives may be.
use llamaste.Json.{Entry, absent, ill_typed, present, value}
use llamaste.Prelude.{
  ℕ, suc, ◌+◌, ◌-◌, ◌%◌, Bool, true, false, not, ◌&&◌, ◌||◌, Option, none, some, List, [], ◌∷◌,
  ◌++◌, Bytes, is_empty, bytes_eq, ℤ, pos, negsuc, signed32, ◌+ℤ◌, ltb_ℤ, leb_ℤ, eqb_ℤ,
  if◌then◌else◌,
}

pub record ScheduledTask : Type 0 where
  pub id : Bytes
  pub enabled : Bool
  pub prompt : Bytes
  pub cron : Bytes
  pub at : ℤ
  pub every_seconds : ℤ
  pub once : Bool
  pub created : ℤ
  pub last_run : ℤ
  pub next_run : ℤ

-- The tasks in memory and those in schedules.json; `saves` says whether the file can be written.
pub record TaskState : Type 0 where
  pub tasks : List ScheduledTask
  pub saved : List ScheduledTask
  pub saves : Bool

unfoldable pub save_tasks : TaskState → TaskState
save_tasks s = if s.saves then record s { saved = s.tasks } else s

-- A number of 64 bits as an `int`.
abbrev pub as_int : ℤ → ℤ
as_int (pos n) = signed32 (n % 4294967296)
as_int (negsuc n) = signed32 (4294967295 - n % 4294967296)

-- The parameters of a call, as `value(key, default)` reads them.
pub record TaskParams : Type 0 where
  pub prompt : Entry Bytes
  pub enabled : Entry Bool
  pub once : Entry Bool
  pub cron : Entry Bytes
  pub at : Entry ℤ
  pub every_seconds : Entry ℤ

-- `throws` is the exception of a parameter of another type.
pub data TaskReply : Type 0 where
  throws : TaskReply
  prompt_required : TaskReply
  schedule_required : TaskReply
  not_found : Bytes → TaskReply
  deleted : Bytes → TaskReply
  task : ScheduledTask → TaskReply

-- `std::find_if` by id.
unfoldable pub find_task : Bytes → List ScheduledTask → Option ScheduledTask
find_task id [] = none
find_task id (t ∷ ts) = if bytes_eq t.id id then some t else find_task id ts

unfoldable pub erase_task : Bytes → List ScheduledTask → List ScheduledTask
erase_task id [] = []
erase_task id (t ∷ ts) = if bytes_eq t.id id then ts else t ∷ erase_task id ts

-- The assignments through the iterator that `find_if` gave.
unfoldable pub change_task :
    Bytes → (ScheduledTask → ScheduledTask) → List ScheduledTask → List ScheduledTask
change_task id f [] = []
change_task id f (t ∷ ts) = if bytes_eq t.id id then f t ∷ ts else t ∷ change_task id f ts

unfoldable pub delete_task : Bytes → TaskState → TaskState × TaskReply
delete_task id s = elim (find_task id s.tasks) [
  | none ↦ (s, not_found id)
  | some t ↦ (save_tasks (record s { tasks = erase_task id s.tasks }), deleted id)
]

unfoldable pub count_active : List ScheduledTask → ℕ
count_active [] = 0
count_active (t ∷ ts) = if t.enabled then suc (count_active ts) else count_active ts

unfoldable pub active_task_count : TaskState → ℕ
active_task_count s = count_active s.tasks

unfoldable pub earliest_from : ℤ → List ScheduledTask → ℤ
earliest_from earliest [] = earliest
earliest_from earliest (t ∷ ts) =
    let candidate = t.enabled && ltb_ℤ (pos 0) t.next_run in
    let sooner = eqb_ℤ earliest (pos 0) || ltb_ℤ t.next_run earliest in
    earliest_from (if candidate && sooner then t.next_run else earliest) ts

unfoldable pub next_scheduled_time : TaskState → ℤ
next_scheduled_time s = earliest_from (pos 0) s.tasks

-- One `if (params.contains(key))`; `get` of another type throws, and what was assigned stays.
abbrev with_entry :
    {A : Type 0}
    → Entry A
    → (A → ScheduledTask → ScheduledTask)
    → ScheduledTask × Bool
    → ScheduledTask × Bool
with_entry e set (t, false) = (t, false)
with_entry absent set (t, true) = (t, true)
with_entry ill_typed set (t, true) = (t, false)
with_entry (present a) set (t, true) = (set a t, true)

abbrev is_given : {A : Type 0} → Entry A → Bool
is_given absent = false
is_given ill_typed = true
is_given (present _) = true

-- The assignments of `update_task`; the second component is false once one has thrown.
unfoldable pub assign_params : TaskParams → ScheduledTask → ScheduledTask × Bool
assign_params p t =
    with_entry p.every_seconds (λ v t. record t { every_seconds = v })
      (with_entry p.at (λ v t. record t { at = v })
        (with_entry p.cron (λ v t. record t { cron = v })
          (with_entry p.once (λ v t. record t { once = v })
            (with_entry p.enabled (λ v t. record t { enabled = v })
              (with_entry p.prompt (λ v t. record t { prompt = v }) (t, true))))))

module _ (next_cron : Bytes → ℕ → ℕ) where
  -- The chain that sets `next_run`, without its last branch.
  abbrev next_or : ℤ → ℕ → ScheduledTask → ℤ
  next_or otherwise now t =
      if not (is_empty t.cron)
      then pos (next_cron t.cron now)
      else if ltb_ℤ (pos 0) t.at
      then t.at
      else if ltb_ℤ (pos 0) t.every_seconds
      then pos now +ℤ t.every_seconds
      else otherwise

  -- `create_task` once the parameters are read.
  unfoldable pub create_read :
      Bytes → ℕ → Bytes → Bytes → ℤ → ℤ → Bool → Bool → TaskState → TaskState × TaskReply
  create_read new_id now prompt cron at_val every once enabled s =
      let t : ScheduledTask = record {
        id = new_id;
        enabled = enabled;
        prompt = prompt;
        cron = cron;
        at = at_val;
        every_seconds = every;
        once = once;
        created = pos now;
        last_run = pos 0;
        next_run = pos 0;
      } in
      let timed : ScheduledTask = record t { next_run = next_or (pos 0) now t } in
      (save_tasks (record s { tasks = s.tasks ++ timed ∷ [] }), task timed)

  abbrev create_enabled :
      Option Bool → Bytes → ℕ → Bytes → Bytes → ℤ → ℤ → Bool → TaskState → TaskState × TaskReply
  create_enabled none new_id now prompt cron at_val every once s = (s, throws)
  create_enabled (some enabled) new_id now prompt cron at_val every once s =
      create_read new_id now prompt cron at_val every once enabled s

  unfoldable pub create_scheduled :
      Entry Bool
      → Bytes
      → ℕ
      → Bytes
      → Option Bytes
      → Option ℤ
      → Option ℤ
      → Option Bool
      → TaskState
      → TaskState × TaskReply
  create_scheduled enabled new_id now prompt (some cron) (some at_val) (some every) (some once) s =
      if is_empty cron && (eqb_ℤ at_val (pos 0) && eqb_ℤ every (pos 0))
      then (s, schedule_required)
      else create_enabled (value enabled true) new_id now prompt cron at_val every once s
  create_scheduled enabled new_id now prompt _ _ _ _ s = (s, throws)

  abbrev create_prompt : Option Bytes → Bytes → ℕ → TaskParams → TaskState → TaskState × TaskReply
  create_prompt none new_id now p s = (s, throws)
  create_prompt (some prompt) new_id now p s =
      if is_empty prompt
      then (s, prompt_required)
      else create_scheduled p.enabled new_id now prompt (value p.cron []) (value p.at (pos 0))
          (value p.every_seconds (pos 0)) (value p.once false) s

  unfoldable pub create_task : Bytes → ℕ → TaskParams → TaskState → TaskState × TaskReply
  create_task new_id now p s = create_prompt (value p.prompt []) new_id now p s

  abbrev rescheduled : ℕ → TaskParams → ScheduledTask → ScheduledTask
  rescheduled now p t =
      if is_given p.cron || (is_given p.at || is_given p.every_seconds)
      then record t { next_run = next_or (pos 0) now t }
      else t

  abbrev updated : Bytes → ℕ → TaskParams → ScheduledTask × Bool → TaskState → TaskState × TaskReply
  updated id now p (t, false) s = (record s { tasks = change_task id (λ _. t) s.tasks }, throws)
  updated id now p (t, true) s =
      let t' : ScheduledTask = rescheduled now p t in
      (save_tasks (record s { tasks = change_task id (λ _. t') s.tasks }), task t')

  unfoldable pub update_task : Bytes → ℕ → TaskParams → TaskState → TaskState × TaskReply
  update_task id now p s = elim (find_task id s.tasks) [
    | none ↦ (s, not_found id)
    | some t ↦ updated id now p (assign_params p t) s
  ]

  -- `load_tasks`: what the file has, with `next_run` computed anew. Its entries are well typed;
  -- `value(key, 0)` reads a number of 64 bits as an `int`.
  abbrev loaded_next : ℕ → ScheduledTask → ℤ
  loaded_next now t =
      if not (is_empty t.cron)
      then pos (next_cron t.cron now)
      else if ltb_ℤ (pos 0) t.at
      then t.at
      else if ltb_ℤ (pos 0) t.every_seconds
      then (if ltb_ℤ (pos 0) t.last_run
          then (if leb_ℤ (t.last_run +ℤ t.every_seconds) (pos now)
              then pos (now + 1)
              else t.last_run +ℤ t.every_seconds)
          else pos now +ℤ t.every_seconds)
      else pos 0

  unfoldable pub loaded : ℕ → List ScheduledTask → List ScheduledTask
  loaded now [] = []
  loaded now (t ∷ ts) =
      let rest = loaded now ts in
      let read : ScheduledTask = record t {
        at = as_int t.at;
        created = as_int t.created;
        last_run = as_int t.last_run;
      } in
      if is_empty t.id || is_empty t.prompt
      then rest
      else record read { next_run = loaded_next now read } ∷ rest

  unfoldable pub load_tasks : ℕ → TaskState → TaskState
  load_tasks now s = record s { tasks = loaded now s.saved }
