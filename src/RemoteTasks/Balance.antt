-- ===== src/RemoteTasks/Balance.antt =====
-- The tasks that server/app/services/remote_task_service.py has before and after an event.
use aether_v.RemoteTasks.{
  Category, io, short, enqueue_task, normalize_category, RemoteTask, RemoteTaskService,
  run_blocking, take_at, is_free, dispatch_short, dispatch_io, acquire_host_lock, acquire_permit,
  complete, enter, leave, Event, submits, dispatches_short, dispatches_io, takes_lock, takes_permit,
  ends, next,
}
use aether_v.RemoteTasks.Counts.{bit, count, count-snoc, take_at-count}
use aether_v.Prelude.Dict
use aether_v.Prelude.{
  ℕ, ◌+◌, String, ◌≡◌, refl, Bool, true, false, Option, none, some, List, [], ◌∷◌, eq_string, ltb,
  arith, inl, inr, Option-cases, Bool-cases,
}

-- Tasks of some kind, for instance those with one id.
module _ (p : RemoteTask → Bool) where
  -- How many of the tasks the service has.
  abbrev pub held : RemoteTaskService → ℕ
  held s =
      count p s.short_queue
      + count p s.io_queue
      + count p s.at_lock
      + count p s.at_semaphore
      + count p s.running

  abbrev pub entered : Event → ℕ
  entered (submits task_id host_key category) = bit (
      p (record { task_id = task_id; host_key = host_key; category = normalize_category category }))
  entered other = 0

  abbrev first_of : List RemoteTask → ℕ
  first_of [] = 0
  first_of (t ∷ ts) = bit (p t)

  abbrev taken_of : Option (RemoteTask × List RemoteTask) → ℕ
  taken_of none = 0
  taken_of (some (t, rest)) = bit (p t)

  -- A task that ends, and one that is found cancelled as it is taken from its queue.
  abbrev pub gone : Event → RemoteTaskService → ℕ
  gone (dispatches_short true) s = first_of s.short_queue
  gone (dispatches_io true) s = first_of s.io_queue
  gone (ends place) s = taken_of (take_at place s.running)
  gone other s = 0

  abbrev pub IsBalanced : ℕ → ℕ → RemoteTaskService → Option RemoteTaskService → Type 0
  IsBalanced inside outside s none = Unit
  IsBalanced inside outside s (some t) = held t + outside ≡ held s + inside

  enqueue-balanced :
      (c : Category) (t : RemoteTask) (s : RemoteTaskService)
      → held (enqueue_task c t s) ≡ held s + bit (p t)
  enqueue-balanced io t s = omega (arith, count-snoc p s.io_queue t)
  enqueue-balanced short t s = omega (arith, count-snoc p s.short_queue t)

  enter-balanced :
      (id host : String) (c : Category) (s : RemoteTaskService)
      → let t : RemoteTask = record { task_id = id; host_key = host; category = c } in
        held (enter t s) ≡ held s + bit (p t)
  enter-balanced id host io s =
      omega
        (arith, count-snoc p s.running (record { task_id = id; host_key = host; category = io }))
  enter-balanced id host short s =
      omega
        (arith, count-snoc p s.running (record { task_id = id; host_key = host; category = short }))

  leave-balanced :
      (id host : String) (c : Category) (s : RemoteTaskService)
      → held (leave (record { task_id = id; host_key = host; category = c }) s) ≡ held s
  leave-balanced id host io s = refl
  leave-balanced id host short s = refl

  pub submit-balanced :
      (task_id host_key category : String) (s : RemoteTaskService)
      → held (run_blocking task_id host_key category s)
        ≡ held s + entered (submits task_id host_key category)
  unfolding run_blocking
  submit-balanced task_id host_key category s =
      enqueue-balanced (normalize_category category)
        (record { task_id = task_id; host_key = host_key; category = normalize_category category })
        s

  pub short-IsBalanced :
      (cancelled : Bool) (q : List RemoteTask) (s : RemoteTaskService)
      → let r = record s { short_queue = q } in
        IsBalanced 0 (gone (dispatches_short cancelled) r) r (dispatch_short cancelled r)
  unfolding dispatch_short
  short-IsBalanced cancelled [] s = tt
  short-IsBalanced true (t ∷ q) s = omega arith
  short-IsBalanced false (t ∷ q) s = omega (arith, count-snoc p s.at_semaphore t)

  pub io-IsBalanced :
      (cancelled : Bool) (q : List RemoteTask) (s : RemoteTaskService)
      → let r = record s { io_queue = q } in
        IsBalanced 0 (gone (dispatches_io cancelled) r) r (dispatch_io cancelled r)
  unfolding dispatch_io
  io-IsBalanced cancelled [] s = tt
  io-IsBalanced true (t ∷ q) s = omega arith
  io-IsBalanced false (t ∷ q) s = omega (arith, count-snoc p s.at_lock t)

  lock-IsBalanced :
      (place : ℕ) (s : RemoteTaskService) → IsBalanced 0 0 s (acquire_host_lock place s)
  unfolding acquire_host_lock
  lock-IsBalanced place s = elim (Option-cases (take_at place s.at_lock)) [
    | inl absent ↦ rw absent tt
    | inr ((t, rest), found) ↦
        rw found (elim (Bool-cases (is_free (Dict.get s.host_io_locks t.host_key))) [
          | inl free ↦ rw free (
              omega (
                arith,
                take_at-count p place s.at_lock rest t found,
                count-snoc p s.at_semaphore t,
              ))
          | inr busy ↦ rw busy tt
        ])
  ]

  permit-IsBalanced :
      (place : ℕ) (s : RemoteTaskService) → IsBalanced 0 0 s (acquire_permit place s)
  unfolding acquire_permit
  permit-IsBalanced place s = elim (Option-cases (take_at place s.at_semaphore)) [
    | inl absent ↦ rw absent tt
    | inr ((t, rest), found) ↦ rw found (elim (Bool-cases (ltb 0 s.permits)) [
      | inl left ↦ rw left (
          omega (
            arith,
            take_at-count p place s.at_semaphore rest t found,
            enter-balanced t.task_id t.host_key t.category (record s { at_semaphore = rest }),
          ))
      | inr busy ↦ rw busy tt
    ])
  ]

  end-IsBalanced :
      (place : ℕ) (s : RemoteTaskService) → IsBalanced 0 (gone (ends place) s) s (complete place s)
  unfolding complete
  end-IsBalanced place s = elim (Option-cases (take_at place s.running)) [
    | inl absent ↦ rw absent tt
    | inr ((t, rest), found) ↦ rw found (
        omega (
          arith,
          take_at-count p place s.running rest t found,
          leave-balanced t.task_id t.host_key t.category (record s { running = rest }),
        ))
  ]

  pub next-IsBalanced :
      (e : Event) (s : RemoteTaskService) → IsBalanced (entered e) (gone e s) s (next e s)
  unfolding next
  next-IsBalanced (submits task_id host_key category) s =
      omega (arith, submit-balanced task_id host_key category s)
  next-IsBalanced (dispatches_short cancelled) s = short-IsBalanced cancelled s.short_queue s
  next-IsBalanced (dispatches_io cancelled) s = io-IsBalanced cancelled s.io_queue s
  next-IsBalanced (takes_lock place) s = lock-IsBalanced place s
  next-IsBalanced (takes_permit place) s = permit-IsBalanced place s
  next-IsBalanced (ends place) s = end-IsBalanced place s
