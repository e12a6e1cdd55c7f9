-- ===== src/Examples/RemoteRuns.antt =====
-- The service of server/app/services/remote_task_service.py with two IO tasks of one host.
use aether_v.Prelude.Dict
use aether_v.Prelude.{◌+◌, ◌≤◌, ◌≡◌, refl, Bool, false, some, none, List, [], ◌∷◌, ◌==◌, eq_string}
use aether_v.RemoteTasks.Balance.{held}
use aether_v.RemoteTasks.Accounts
use aether_v.RemoteTasks.Accounts.{no_event, event, entered_by, Run-accounts}
use aether_v.RemoteTasks.Progress.{Run, Moves, remaining, tasks_drain}
use aether_v.RemoteTasks.{
  RemoteTaskService, start, Event, submits, dispatches_io, takes_lock, takes_permit, ends, next,
  RemoteTask, Reachable, started, goes_on, run_blocking, dispatch_io, dispatch_short,
  acquire_host_lock, acquire_permit, complete,
}

program : Unit {0}
unfolding next run_blocking dispatch_io dispatch_short acquire_host_lock acquire_permit complete
    Dict.get Dict.put
program = tt

-- The state after an event that can happen.
abbrev after : Event → RemoteTaskService → RemoteTaskService
after e s = elim (next e s) [ none ↦ s | some t ↦ t ]

abbrev s0 : RemoteTaskService
s0 = start 0

abbrev s1 : RemoteTaskService
s1 = after (submits "t1" "host" "io") s0

abbrev s2 : RemoteTaskService
s2 = after (submits "t2" "host" "io") s1

abbrev s3 : RemoteTaskService
s3 = after (dispatches_io false) s2

abbrev s4 : RemoteTaskService
s4 = after (dispatches_io false) s3

abbrev s5 : RemoteTaskService
s5 = after (takes_lock 1) s4

abbrev s6 : RemoteTaskService
s6 = after (takes_permit 0) s5

s6-Reachable : Reachable s6
unfolding program
s6-Reachable =
    goes_on (takes_permit 0) s5 s6
      (goes_on (takes_lock 1) s4 s5
        (goes_on (dispatches_io false) s3 s4
          (goes_on (dispatches_io false) s2 s3
            (goes_on (submits "t2" "host" "io") s1 s2
              (goes_on (submits "t1" "host" "io") s0 s1 (started 0) refl) refl)
            refl)
          refl)
        refl)
      refl

-- The second task runs, and the first does not get the lock of its host.
first_waits : next (takes_lock 0) s6 ≡ none
unfolding program
first_waits = refl

abbrev is_first : RemoteTask → Bool
is_first t = t.task_id == "t1"

-- Both tasks are submitted, the first ends, and the second waits.
abbrev both : List Event
both =
    submits "t1" "host" "io"
    ∷ submits "t2" "host" "io"
    ∷ dispatches_io false
    ∷ takes_lock 0
    ∷ takes_permit 0
    ∷ ends 0
    ∷ []

abbrev first_dispatched : RemoteTaskService
first_dispatched = after (dispatches_io false) s2

abbrev first_locked : RemoteTaskService
first_locked = after (takes_lock 0) first_dispatched

abbrev first_runs : RemoteTaskService
first_runs = after (takes_permit 0) first_locked

abbrev first_ended : RemoteTaskService
first_ended = after (ends 0) first_runs

both-Run : Accounts.Run is_first s0 both 1 first_ended
unfolding program
both-Run = event (submits "t1" "host" "io") refl (
    event (submits "t2" "host" "io") refl (
      event (dispatches_io false) refl
        (event (takes_lock 0) refl (event (takes_permit 0) refl (event (ends 0) refl no_event)))))

Run-accounts_example : held is_first first_ended + 1 ≡ held is_first s0 + entered_by is_first both
Run-accounts_example = Run-accounts is_first both-Run

tasks_drain_example :
    ((t : RemoteTaskService) × Run s6 t
      × (t.at_lock ≡ [])
      × (t.at_semaphore ≡ [])
      × (t.running ≡ []))
    × (1 ≤ remaining s6 → Moves s6)
tasks_drain_example = tasks_drain s6 s6-Reachable
