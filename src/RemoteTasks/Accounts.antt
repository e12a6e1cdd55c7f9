-- ===== src/RemoteTasks/Accounts.antt =====
-- No task of server/app/services/remote_task_service.py is lost or doubled in one life of the
-- service, from a start to the next stop.
use aether_v.RemoteTasks.{RemoteTask, RemoteTaskService, Event, next}
use aether_v.RemoteTasks.Balance.{held, entered, gone, IsBalanced, next-IsBalanced}
use aether_v.Prelude.{ℕ, ◌+◌, ◌≡◌, subst, Bool, some, List, [], ◌∷◌, arith}

-- What the events of a run submit.
abbrev pub entered_by : (RemoteTask → Bool) → List Event → ℕ
entered_by p [] = 0
entered_by p (e ∷ es) = entered p e + entered_by p es

-- A run of the service, with the number of the tasks that leave it: those that end, and those that
-- are found cancelled as they are taken from their queue.
pub data Run (p : RemoteTask → Bool)
    : RemoteTaskService → List Event → ℕ → RemoteTaskService → Type 0 where
  no_event : {s : RemoteTaskService} → Run p s [] 0 s
  event :
      {s t u : RemoteTaskService} {es : List Event} {n : ℕ} (e : Event)
      → next e s ≡ some t
      → Run p t es n u
      → Run p s (e ∷ es) (gone p e s + n) u

-- Between a start and the next stop, of the tasks of any kind, for instance those with one id: those
-- that the service had and that were submitted in a run of events are those that it has at the end,
-- in a queue, at a lock, at the semaphore or running, and those that ended or were found cancelled
-- in their queue. So each task is in one place, or has left once.
pub Run-accounts :
    (p : RemoteTask → Bool) {s t : RemoteTaskService} {es : List Event} {n : ℕ}
    → Run p s es n t
    → held p t + n ≡ held p s + entered_by p es
Run-accounts p no_event = omega arith
Run-accounts p (event {s = s} e step run) = omega (
  arith,
  Run-accounts p run,
  subst (IsBalanced p (entered p e) (gone p e s) s) step (next-IsBalanced p e s),
)
