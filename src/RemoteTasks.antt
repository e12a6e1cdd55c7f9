-- ===== src/RemoteTasks.antt =====
-- The remote task service (server/app/services/remote_task_service.py) from one start to the next
-- stop. What asyncio runs without a wait is one function; a task's coroutine is where the list that
-- holds it says. A task's `host_key` is its host name, in lower case and stripped. Which of the tasks
-- that wait goes on is an argument, the place in its list.
pub mod Counts
pub mod Bounds
pub mod Limits
pub mod Progress
pub mod Balance
pub mod Accounts
use aether_v.Prelude.Dict
use aether_v.Prelude.Dict.{Dict}
use aether_v.Prelude.{
  ℕ, zero, suc, ◌+◌, ◌-◌, String, ◌≡◌, Bool, true, false, not, Option, none, some, ◌>>=◌, List, [],
  ◌∷◌, ◌++◌, ◌==◌, if◌then◌else◌, eq_string, ltb, length,
}

-- RemoteTaskCategory, once it is normalized.
pub data Category : Type 0 where
  io : Category
  short : Category

-- _normalize_category, by the value of the category
abbrev pub normalize_category : String → Category
normalize_category value = if value == "io" then io else short

pub record RemoteTask : Type 0 where
  pub task_id : String
  pub host_key : String
  pub category : Category

-- `permits` is the value of `_global_semaphore`; a lock of `_host_io_locks` is whether it is held.
-- The tasks of the three last lists are those created by the two workers: IO tasks that wait for the
-- lock of their host, tasks that wait for the semaphore, and tasks that run.
pub record RemoteTaskService : Type 0 where
  pub max_connections : ℕ
  pub permits : ℕ
  pub short_queue : List RemoteTask
  pub io_queue : List RemoteTask
  pub host_io_locks : Dict String Bool
  pub completed_short : ℕ
  pub completed_io : ℕ
  pub short_inflight : ℕ
  pub io_inflight : ℕ
  pub total_connections : ℕ
  pub at_lock : List RemoteTask
  pub at_semaphore : List RemoteTask
  pub running : List RemoteTask

-- start, with the setting max_winrm_connections
abbrev pub start : ℕ → RemoteTaskService
start setting = record {
  max_connections = if ltb setting 1 then 1 else setting;
  permits = if ltb setting 1 then 1 else setting;
  short_queue = [];
  io_queue = [];
  host_io_locks = [];
  completed_short = 0;
  completed_io = 0;
  short_inflight = 0;
  io_inflight = 0;
  total_connections = 0;
  at_lock = [];
  at_semaphore = [];
  running = [];
}

abbrev pub enqueue_task : Category → RemoteTask → RemoteTaskService → RemoteTaskService
enqueue_task io task s = record s { io_queue = s.io_queue ++ task ∷ [] }
enqueue_task short task s = record s { short_queue = s.short_queue ++ task ∷ [] }

-- run_blocking, up to the wait for the future
unfoldable pub run_blocking : String → String → String → RemoteTaskService → RemoteTaskService
run_blocking task_id host_key category s =
    let effective = normalize_category category in
    enqueue_task effective (record { task_id = task_id; host_key = host_key; category = effective })
      s

-- A round of `_short_job_dispatcher`; the first argument is whether the task's future was cancelled.
unfoldable pub dispatch_short : Bool → RemoteTaskService → Option RemoteTaskService
dispatch_short cancelled s = elim s.short_queue [
  | [] ↦ none
  | task ∷ rest ↦ some (
      let popped = record s { short_queue = rest } in
      if cancelled then popped else record popped { at_semaphore = s.at_semaphore ++ task ∷ [] })
]

-- The lock of the host is made if it is not there, and not held then.
abbrev pub with_lock : Option Bool → String → Dict String Bool → Dict String Bool
with_lock none host_key locks = Dict.put locks host_key false
with_lock (some held) host_key locks = locks

-- A round of `_io_job_worker`, and `_execute_io_task` up to the wait for the host's lock.
unfoldable pub dispatch_io : Bool → RemoteTaskService → Option RemoteTaskService
dispatch_io cancelled s = elim s.io_queue [
  | [] ↦ none
  | task ∷ rest ↦ some (
      let popped = record s { io_queue = rest } in
      if cancelled then popped else record popped {
        host_io_locks =
            with_lock (Dict.get s.host_io_locks task.host_key) task.host_key s.host_io_locks;
        at_lock = s.at_lock ++ task ∷ [];
      })
]

-- The entry at a place, and the others.
abbrev pub take_at {ℓ} : {A : Type ℓ} → ℕ → List A → Option (A × List A)
take_at n [] = none
take_at zero (x ∷ xs) = some (x, xs)
take_at (suc n) (x ∷ xs) = do (y, rest) ← take_at n xs; some (y, x ∷ rest)

abbrev pub is_free : Option Bool → Bool
is_free (some false) = true
is_free other = false

-- `async with host_lock`, for the IO task at a place: it gets the lock if that is free.
unfoldable pub acquire_host_lock : ℕ → RemoteTaskService → Option RemoteTaskService
acquire_host_lock place s = do
  (task, rest) ← take_at place s.at_lock
  if is_free (Dict.get s.host_io_locks task.host_key)
      then some (record s {
        host_io_locks = Dict.put s.host_io_locks task.host_key true;
        at_lock = rest;
        at_semaphore = s.at_semaphore ++ task ∷ [];
      })
      else none

abbrev pub count_in : Category → RemoteTaskService → RemoteTaskService
count_in io s = record s { io_inflight = s.io_inflight + 1 }
count_in short s = record s { short_inflight = s.short_inflight + 1 }

abbrev pub enter : RemoteTask → RemoteTaskService → RemoteTaskService
enter task s = count_in task.category (record s {
  permits = s.permits - 1;
  total_connections = s.total_connections + 1;
  running = s.running ++ task ∷ [];
})

-- `async with self._global_semaphore`, for the task at a place: it goes on if a permit is left.
unfoldable pub acquire_permit : ℕ → RemoteTaskService → Option RemoteTaskService
acquire_permit place s = do
  (task, rest) ← take_at place s.at_semaphore
  if ltb 0 s.permits then some (enter task (record s { at_semaphore = rest })) else none

-- The counters of the `finally` clauses, and the lock of an IO task.
abbrev pub count_out : Category → String → RemoteTaskService → RemoteTaskService
count_out io host_key s = record s {
  io_inflight = s.io_inflight - 1;
  completed_io = s.completed_io + 1;
  host_io_locks = Dict.put s.host_io_locks host_key false;
}
count_out short host_key s = record s {
  short_inflight = s.short_inflight - 1;
  completed_short = s.completed_short + 1;
}

abbrev pub leave : RemoteTask → RemoteTaskService → RemoteTaskService
leave task s =
    count_out task.category task.host_key
      (record s { total_connections = s.total_connections - 1; permits = s.permits + 1 })

-- The running task at a place ends, by its result, an exception or its timeout.
unfoldable pub complete : ℕ → RemoteTaskService → Option RemoteTaskService
complete place s = do
  (task, rest) ← take_at place s.running
  some (leave task (record s { running = rest }))

-- What may happen next.
pub data Event : Type 0 where
  submits : (task_id host_key category : String) → Event
  dispatches_short : (cancelled : Bool) → Event
  dispatches_io : (cancelled : Bool) → Event
  takes_lock : (place : ℕ) → Event
  takes_permit : (place : ℕ) → Event
  ends : (place : ℕ) → Event

-- One event, if it can happen.
unfoldable pub next : Event → RemoteTaskService → Option RemoteTaskService
unfolding run_blocking dispatch_short dispatch_io acquire_host_lock acquire_permit complete
next (submits task_id host_key category) s = some (run_blocking task_id host_key category s)
next (dispatches_short cancelled) s = dispatch_short cancelled s
next (dispatches_io cancelled) s = dispatch_io cancelled s
next (takes_lock place) s = acquire_host_lock place s
next (takes_permit place) s = acquire_permit place s
next (ends place) s = complete place s

-- The states of the service.
pub data Reachable : RemoteTaskService → Type 0 where
  started : (setting : ℕ) → Reachable (start setting)
  goes_on : (e : Event) (s t : RemoteTaskService) → Reachable s → next e s ≡ some t → Reachable t
