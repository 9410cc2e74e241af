-- ===== src/Scheduler/TaskTable.antt =====
-- src/llamaste/scheduler.cpp: the vector of tasks, seen as a table from ids to tasks.
use mathlib.Core.Option.{map}
use llamaste.Prelude.{
  ◌≡◌, refl, ◌∙◌, Bool, false, ◌||◌, none, List, [], ◌∷◌, ◌++◌, Bytes, bytes_eq, bytes_eq_iff,
  if◌then◌else◌, arith, Bool-cases, inl, inr,
}
use llamaste.Scheduler.TaskChecks.{erase_tasks}
use llamaste.Scheduler.Tasks.{ScheduledTask, find_task, erase_task, change_task}

-- No two tasks have one id.
abbrev pub HasUniqueIds : List ScheduledTask → Type 0
HasUniqueIds [] = Unit
HasUniqueIds (t ∷ ts) = (find_task t.id ts ≡ none) × HasUniqueIds ts

abbrev pub mem_id : Bytes → List Bytes → Bool
mem_id id [] = false
mem_id id (k ∷ ks) = bytes_eq k id || mem_id id ks

pub mem_id-append :
    (id : Bytes) (ks js : List Bytes) → mem_id id (ks ++ js) ≡ (mem_id id ks || mem_id id js)
mem_id-append id [] js = refl
mem_id-append id (k ∷ ks) js = ground (arith, mem_id-append id ks js)

pub find_task-change_task :
    (id k : Bytes) (f : ScheduledTask → ScheduledTask) (ts : List ScheduledTask)
    → ((t : ScheduledTask) → (f t).id ≡ t.id)
    → find_task id (change_task k f ts)
      ≡ (if bytes_eq k id then map f (find_task id ts) else find_task id ts)
unfolding find_task change_task
find_task-change_task id k f [] h = ground arith
find_task-change_task id k f (t ∷ ts) h = ground (
  arith,
  h t,
  bytes_eq_iff k id,
  bytes_eq_iff t.id k,
  bytes_eq_iff t.id id,
  find_task-change_task id k f ts h,
)

pub change_task-HasUniqueIds :
    (k : Bytes) (f : ScheduledTask → ScheduledTask) (ts : List ScheduledTask)
    → ((t : ScheduledTask) → (f t).id ≡ t.id)
    → HasUniqueIds ts
    → HasUniqueIds (change_task k f ts)
unfolding change_task
change_task-HasUniqueIds k f [] h u = tt
change_task-HasUniqueIds k f (t ∷ ts) h u = elim (Bool-cases (bytes_eq t.id k)) [
  | inl e ↦ rw e (rw (h t) u.0, u.1)
  | inr e ↦ rw e (
    ground
        (arith, find_task-change_task t.id k f ts h, bytes_eq_iff t.id k, bytes_eq_iff k t.id, u),
    change_task-HasUniqueIds k f ts h u.1,
  )
]

pub find_task-erase_task :
    (id k : Bytes) (ts : List ScheduledTask)
    → HasUniqueIds ts
    → find_task id (erase_task k ts) ≡ (if bytes_eq k id then none else find_task id ts)
unfolding find_task erase_task
find_task-erase_task id k [] u = ground arith
find_task-erase_task id k (t ∷ ts) u = ground (
  arith,
  u,
  bytes_eq_iff k id,
  bytes_eq_iff t.id k,
  bytes_eq_iff t.id id,
  find_task-erase_task id k ts u.1,
)

pub erase_task-HasUniqueIds :
    (k : Bytes) (ts : List ScheduledTask) → HasUniqueIds ts → HasUniqueIds (erase_task k ts)
unfolding erase_task
erase_task-HasUniqueIds k [] u = tt
erase_task-HasUniqueIds k (t ∷ ts) u = elim (Bool-cases (bytes_eq t.id k)) [
  | inl e ↦ rw e u.1
  | inr e ↦
      rw e
        (find_task-erase_task t.id k ts u.1 ∙ ground (arith, u), erase_task-HasUniqueIds k ts u.1)
]

pub find_task-erase_tasks :
    (id : Bytes) (ks : List Bytes) (ts : List ScheduledTask)
    → HasUniqueIds ts
    → (find_task id (erase_tasks ks ts) ≡ (if mem_id id ks then none else find_task id ts))
      × HasUniqueIds (erase_tasks ks ts)
unfolding erase_tasks
find_task-erase_tasks id [] ts u = (refl, u)
find_task-erase_tasks id (k ∷ ks) ts u =
    let (p, v) = find_task-erase_tasks id ks (erase_task k ts) (erase_task-HasUniqueIds k ts u) in
    (p ∙ ground (arith, find_task-erase_task id k ts u), v)
