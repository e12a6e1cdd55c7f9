-- ===== src/RemoteTasks/Limits.antt =====
-- The limits of server/app/services/remote_task_service.py in every state that it reaches
-- between a start and the next stop.
use aether_v.Prelude.Dict
use aether_v.Prelude.{
  ℕ, String, subst, Bool, true, false, Option, none, some, List, [], ◌∷◌, ◌++◌, if◌then◌else◌,
  eq_string, ltb, Option-cases, Bool-cases, inl, inr,
}
use aether_v.RemoteTasks.Bounds.{
  Inv, start-Inv, submit-Queues, short-Locks, io-Locks, take-Locks, enter-Inv, leave-Inv,
}
use aether_v.RemoteTasks.{
  normalize_category, RemoteTask, RemoteTaskService, run_blocking, dispatch_short, with_lock,
  dispatch_io, take_at, is_free, acquire_host_lock, acquire_permit, complete, Event, submits,
  dispatches_short, dispatches_io, takes_lock, takes_permit, ends, next, Reachable, started,
  goes_on,
}

abbrev Kept : Option RemoteTaskService → Type 0
Kept none = Unit
Kept (some t) = Inv t

submit-Inv :
    (task_id host_key category : String) (s : RemoteTaskService)
    → Inv s
    → Inv (run_blocking task_id host_key category s)
unfolding run_blocking
submit-Inv task_id host_key category s h =
    submit-Queues (normalize_category category) task_id host_key s h

-- The task that is popped from the short queue.
popped_short-Inv :
    (t : RemoteTask) (rest : List RemoteTask) (cancelled : Bool) (s : RemoteTaskService)
    → Inv (record s { short_queue = t ∷ rest })
    → Inv (
        if cancelled
        then record s { short_queue = rest }
        else record s { short_queue = rest; at_semaphore = s.at_semaphore ++ t ∷ [] })
popped_short-Inv t rest true s h = record {
  permits_hold = h.permits_hold;
  locks_hold = h.locks_hold;
  queues_hold = record {
    io_queued = h.queues_hold.io_queued;
    short_queued = h.queues_hold.short_queued.1;
  };
}
popped_short-Inv t rest false s h = record {
  permits_hold = h.permits_hold;
  locks_hold =
      short-Locks t s.host_io_locks s.at_lock s.at_semaphore s.running h.queues_hold.short_queued.0
        h.locks_hold;
  queues_hold = record {
    io_queued = h.queues_hold.io_queued;
    short_queued = h.queues_hold.short_queued.1;
  };
}

popped_io-Inv :
    (t : RemoteTask) (rest : List RemoteTask) (cancelled : Bool) (s : RemoteTaskService)
    → Inv (record s { io_queue = t ∷ rest })
    → Inv (
        if cancelled then record s { io_queue = rest } else record s {
          io_queue = rest;
          host_io_locks =
              with_lock (Dict.get s.host_io_locks t.host_key) t.host_key s.host_io_locks;
          at_lock = s.at_lock ++ t ∷ [];
        })
popped_io-Inv t rest true s h = record {
  permits_hold = h.permits_hold;
  locks_hold = h.locks_hold;
  queues_hold = record {
    io_queued = h.queues_hold.io_queued.1;
    short_queued = h.queues_hold.short_queued;
  };
}
popped_io-Inv t rest false s h = record {
  permits_hold = h.permits_hold;
  locks_hold =
      io-Locks t s.host_io_locks s.at_lock s.at_semaphore s.running h.queues_hold.io_queued.0
        h.locks_hold;
  queues_hold = record {
    io_queued = h.queues_hold.io_queued.1;
    short_queued = h.queues_hold.short_queued;
  };
}

short-Kept :
    (q : List RemoteTask) (cancelled : Bool) (s : RemoteTaskService)
    → Inv (record s { short_queue = q })
    → Kept (dispatch_short cancelled (record s { short_queue = q }))
unfolding dispatch_short
short-Kept [] cancelled s h = tt
short-Kept (t ∷ rest) cancelled s h = popped_short-Inv t rest cancelled s h

io-Kept :
    (q : List RemoteTask) (cancelled : Bool) (s : RemoteTaskService)
    → Inv (record s { io_queue = q })
    → Kept (dispatch_io cancelled (record s { io_queue = q }))
unfolding dispatch_io
io-Kept [] cancelled s h = tt
io-Kept (t ∷ rest) cancelled s h = popped_io-Inv t rest cancelled s h

lock-Kept : (place : ℕ) (s : RemoteTaskService) → Inv s → Kept (acquire_host_lock place s)
unfolding acquire_host_lock
lock-Kept place s h = elim (Option-cases (take_at place s.at_lock)) [
  | inl absent ↦ rw absent tt
  | inr ((t, rest), found) ↦
      rw found (elim (Bool-cases (is_free (Dict.get s.host_io_locks t.host_key))) [
        | inl free ↦ rw free (record {
          permits_hold = h.permits_hold;
          locks_hold =
              take-Locks t s.host_io_locks place s.at_lock rest s.at_semaphore s.running found free
                h.locks_hold;
          queues_hold = h.queues_hold;
        })
        | inr held ↦ rw held tt
      ])
]

permit-Kept : (place : ℕ) (s : RemoteTaskService) → Inv s → Kept (acquire_permit place s)
unfolding acquire_permit
permit-Kept place s h = elim (Option-cases (take_at place s.at_semaphore)) [
  | inl absent ↦ rw absent tt
  | inr ((t, rest), found) ↦ rw found (elim (Bool-cases (ltb 0 s.permits)) [
    | inl left ↦ rw left (enter-Inv t.task_id t.host_key t.category place rest s found left h)
    | inr gone ↦ rw gone tt
  ])
]

complete-Kept : (place : ℕ) (s : RemoteTaskService) → Inv s → Kept (complete place s)
unfolding complete
complete-Kept place s h = elim (Option-cases (take_at place s.running)) [
  | inl absent ↦ rw absent tt
  | inr ((t, rest), found) ↦
      rw found (leave-Inv t.task_id t.host_key t.category place rest s found h)
]

next-Kept : (e : Event) (s : RemoteTaskService) → Inv s → Kept (next e s)
unfolding next
next-Kept (submits task_id host_key category) s h = submit-Inv task_id host_key category s h
next-Kept (dispatches_short cancelled) s h = short-Kept s.short_queue cancelled s h
next-Kept (dispatches_io cancelled) s h = io-Kept s.io_queue cancelled s h
next-Kept (takes_lock place) s h = lock-Kept place s h
next-Kept (takes_permit place) s h = permit-Kept place s h
next-Kept (ends place) s h = complete-Kept place s h

pub holds-Inv : (s : RemoteTaskService) → Reachable s → Inv s
holds-Inv s (started setting) = start-Inv setting
holds-Inv s (goes_on e r t from step) = subst Kept step (next-Kept e r (holds-Inv r from))
