-- ===== src/RemoteTasks/Progress.antt =====
-- The tasks of server/app/services/remote_task_service.py do not wait for each other for ever.
use aether_v.Prelude.Dict
use aether_v.Prelude.{
  ℕ, zero, suc, ◌+◌, ◌*◌, ◌≤◌, ◌<◌, String, ◌≡◌, refl, Bool, true, false, Option, none, some, List,
  [], ◌∷◌, eq_string, ltb, length, length-append, arith, Bool-cases, inl, inr, is_some,
}
use aether_v.RemoteTasks.Bounds.{Inv}
use aether_v.RemoteTasks.Limits.{holds-Inv}
use aether_v.RemoteTasks.{
  Category, io, short, RemoteTask, RemoteTaskService, is_free, acquire_host_lock, enter, leave,
  acquire_permit, complete, Event, takes_lock, takes_permit, ends, next, Reachable, goes_on,
}

-- The steps that the tasks have still to take.
abbrev pub remaining : RemoteTaskService → ℕ
remaining s = 3 * length s.at_lock + 2 * length s.at_semaphore + length s.running

-- A task that was dispatched takes a step.
abbrev pub Moves : RemoteTaskService → Type 0
Moves s = (e : Event) × (t : RemoteTaskService) × (next e s ≡ some t) × (remaining t < remaining s)

free_lem : (o : Option Bool) → is_some o ≡ true → is_free o ≡ false → o ≡ some true
free_lem (some true) a b = refl
free_lem (some false) a b = ground (arith, b)
free_lem none a b = ground (arith, a)

remaining-leave :
    (id host : String) (c : Category) (s : RemoteTaskService)
    → remaining (leave (record { task_id = id; host_key = host; category = c }) s) ≡ remaining s
remaining-leave id host io s = refl
remaining-leave id host short s = refl

remaining-enter :
    (id host : String) (c : Category) (s : RemoteTaskService)
    → remaining (enter (record { task_id = id; host_key = host; category = c }) s) ≡ remaining s + 1
remaining-enter id host io s =
    ground (
      arith,
      length-append s.running (record { task_id = id; host_key = host; category = io } ∷ []),
    )
remaining-enter id host short s = ground (
  arith,
  length-append s.running (record { task_id = id; host_key = host; category = short } ∷ []),
)

moves_lem :
    (a b c : List RemoteTask) (s : RemoteTaskService)
    → let r = record s { at_lock = a; at_semaphore = b; running = c } in
      Inv r → 1 ≤ remaining r → Moves r
unfolding next complete acquire_permit acquire_host_lock
moves_lem a b (t ∷ c) s h some_left =
    let r = record s { at_lock = a; at_semaphore = b; running = c } in
    (ends 0, leave t r, refl, rw (remaining-leave t.task_id t.host_key t.category r) (ground arith))
moves_lem a (t ∷ b) [] s h some_left =
    let r = record s { at_lock = a; at_semaphore = b; running = [] } in
    let left : ltb 0 s.permits ≡ true =
      ground (arith, h.permits_hold.some_limit, h.permits_hold.permits_exact) in
    (
      takes_permit 0,
      enter t r,
      rw left refl,
      rw (remaining-enter t.task_id t.host_key t.category r) (ground arith),
    )
moves_lem (t ∷ a) [] [] s h some_left =
    let r = record s {
      host_io_locks = Dict.put s.host_io_locks t.host_key true;
      at_lock = a;
      at_semaphore = t ∷ [];
      running = [];
    } in
    let unheld = h.locks_hold.lock_exact t.host_key in
    let there = h.locks_hold.locking.0.1 in
    elim (Bool-cases (is_free (Dict.get s.host_io_locks t.host_key))) [
      | inl free ↦ (takes_lock 0, r, rw free refl, ground arith)
      | inr held ↦
          let k = rw (free_lem (Dict.get s.host_io_locks t.host_key) there held) at unheld in
          ground (arith, k)
    ]
moves_lem [] [] [] s h some_left = ground (arith, some_left)

-- Where the service comes by steps of its tasks alone.
pub data Run : RemoteTaskService → RemoteTaskService → Type 0 where
  stays : (s : RemoteTaskService) → Run s s
  moves :
      (e : Event) (s t u : RemoteTaskService)
      → next e s ≡ some t
      → remaining t < remaining s
      → Run t u
      → Run s u

drain :
    (fuel : ℕ) (s : RemoteTaskService)
    → remaining s ≤ fuel
    → Reachable s
    → (t : RemoteTaskService) × Run s t × (remaining t ≡ 0)
drain zero s enough r = (s, stays s, omega (arith, enough))
drain (suc fuel) s enough r = elim (Bool-cases (ltb 0 (remaining s))) [
  | inr none_left ↦ (s, stays s, ground (arith, none_left))
  | inl some_left ↦
      let (e, t, step, less) =
        moves_lem s.at_lock s.at_semaphore s.running s (holds-Inv s r)
          (ground (arith, some_left)) in
      let (u, run, done) = drain fuel t (omega (arith, less, enough)) (goes_on e s t r step) in
      (u, moves e s t u step less run, done)
]

-- No task waits for ever for another: from every state that the service reaches, the tasks that were
-- dispatched can take their steps, without any new task, till none of them waits for a lock or for a
-- permit and none runs; and while one does, some step of a task is possible.
pub tasks_drain :
    (s : RemoteTaskService)
    → Reachable s
    → ((t : RemoteTaskService) × Run s t
        × (t.at_lock ≡ [])
        × (t.at_semaphore ≡ [])
        × (t.running ≡ []))
      × (1 ≤ remaining s → Moves s)
tasks_drain s r =
    let (t, run, done) = drain (remaining s) s (omega arith) r in
    (
      (
        t,
        run,
        nothing t.at_lock (omega (arith, done)),
        nothing t.at_semaphore (omega (arith, done)),
        nothing t.running (omega (arith, done)),
      ),
      λ some_left. moves_lem s.at_lock s.at_semaphore s.running s (holds-Inv s r) some_left,
    )
  where
    nothing : (ts : List RemoteTask) → length ts ≡ 0 → ts ≡ []
    nothing [] e = refl
    nothing (x ∷ ts) e = ground (arith, e)
