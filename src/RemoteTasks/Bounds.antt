-- ===== src/RemoteTasks/Bounds.antt =====
-- The limits that server/app/services/remote_task_service.py keeps.
use aether_v.Prelude.Dict
use aether_v.Prelude.Dict.{Dict, get-put}
use aether_v.Prelude.{
  ℕ, ◌+◌, ◌≤◌, String, ◌≡◌, refl, Bool, true, false, Option, some, List, [], ◌∷◌, ◌++◌, eq_string,
  eq_iff, ltb, length, length-append, All, All-append, is_some, arith, Option-cases, inl, inr,
}
use aether_v.RemoteTasks.Counts.{
  is_io, bit, count, is_io_of, is_io_task, count-snoc, count-bounded, take_at-count, take_at-length,
  take_at-All,
}
use aether_v.RemoteTasks.{
  Category, io, short, RemoteTask, RemoteTaskService, start, enqueue_task, with_lock, take_at,
  is_free, enter, leave,
}

abbrev pub is_held : Option Bool → Bool
is_held (some true) = true
is_held other = false

-- An IO task whose host has a lock.
abbrev pub IsLocking : Dict String Bool → RemoteTask → Type 0
IsLocking locks t = (is_io t.category ≡ true) × (is_some (Dict.get locks t.host_key) ≡ true)

-- Every permit is free or with a running task, which the counters count.
pub record Permits (max_connections permits total io_inflight short_inflight : ℕ)
    (running : List RemoteTask) : Type 0 where
  pub some_limit : 1 ≤ max_connections
  pub permits_exact : permits + length running ≡ max_connections
  pub total_exact : total ≡ length running
  pub io_exact : io_inflight ≡ count is_io_task running
  pub short_exact : short_inflight + count is_io_task running ≡ length running

-- A host's lock is held by just the one IO task of the host that is past it; the tasks that wait for a
-- lock are IO tasks.
pub record Locks (locks : Dict String Bool) (at_lock at_semaphore running : List RemoteTask)
    : Type 0 where
  pub lock_exact :
      (h : String)
      → count (is_io_of h) at_semaphore + count (is_io_of h) running
        ≡ bit (is_held (Dict.get locks h))
  pub locking : All (IsLocking locks) at_lock

abbrev IsIo : RemoteTask → Type 0
IsIo t = is_io t.category ≡ true

abbrev IsShort : RemoteTask → Type 0
IsShort t = is_io t.category ≡ false

-- Each queue has the tasks of its kind.
pub record Queues (io_queue short_queue : List RemoteTask) : Type 0 where
  pub io_queued : All (λ t. is_io t.category ≡ true) io_queue
  pub short_queued : All (λ t. is_io t.category ≡ false) short_queue

pub record Inv (s : RemoteTaskService) : Type 0 where
  pub permits_hold :
      Permits s.max_connections s.permits s.total_connections s.io_inflight s.short_inflight
        s.running
  pub locks_hold : Locks s.host_io_locks s.at_lock s.at_semaphore s.running
  pub queues_hold : Queues s.io_queue s.short_queue

pub start-Inv : (setting : ℕ) → Inv (start setting)
start-Inv setting = record {
  permits_hold = record {
    some_limit = ground arith;
    permits_exact = ground arith;
    total_exact = refl;
    io_exact = refl;
    short_exact = refl;
  };
  locks_hold = record { lock_exact = λ h. unfold Dict.get in refl; locking = tt };
  queues_hold = record { io_queued = tt; short_queued = tt };
}

put-Locking :
    (d : Dict String Bool) (k : String) (v : Bool) (ts : List RemoteTask)
    → All (IsLocking d) ts
    → All (IsLocking (Dict.put d k v)) ts
put-Locking d k v [] h = tt
put-Locking d k v (t ∷ ts) h =
    ((h.0.0, ground (arith, h.0.1, get-put d k v t.host_key)), put-Locking d k v ts h.1)

pub submit-Queues :
    (c : Category) (task_id host_key : String) (s : RemoteTaskService)
    → Inv s
    → Inv (enqueue_task c (record { task_id = task_id; host_key = host_key; category = c }) s)
submit-Queues io task_id host_key s h = record {
  permits_hold = h.permits_hold;
  locks_hold = h.locks_hold;
  queues_hold = record {
    io_queued =
        All-append (λ t. is_io t.category ≡ true) s.io_queue _ h.queues_hold.io_queued (refl, tt);
    short_queued = h.queues_hold.short_queued;
  };
}
submit-Queues short task_id host_key s h = record {
  permits_hold = h.permits_hold;
  locks_hold = h.locks_hold;
  queues_hold = record {
    io_queued = h.queues_hold.io_queued;
    short_queued =
        All-append (λ t. is_io t.category ≡ false) s.short_queue _ h.queues_hold.short_queued
          (refl, tt);
  };
}

-- A short task joins those that wait for a permit.
pub short-Locks :
    (t : RemoteTask) (locks : Dict String Bool) (a b c : List RemoteTask)
    → is_io t.category ≡ false
    → Locks locks a b c
    → Locks locks a (b ++ t ∷ []) c
short-Locks t locks a b c kind h = record {
  lock_exact = λ k. rw (count-snoc (is_io_of k) b t) (ground (arith, h.lock_exact k, kind));
  locking = h.locking;
}

-- An IO task joins those that wait for the lock of its host.
pub io-Locks :
    (t : RemoteTask) (locks : Dict String Bool) (a b c : List RemoteTask)
    → is_io t.category ≡ true
    → Locks locks a b c
    → Locks (with_lock (Dict.get locks t.host_key) t.host_key locks) (a ++ t ∷ []) b c
io-Locks t locks a b c kind h = elim (Option-cases (Dict.get locks t.host_key)) [
  | inl fresh ↦
      rw (fresh, with_lock)
        (record {
          lock_exact = λ k.
              rw (get-put locks t.host_key false k) (
                ground
                  (arith, h.lock_exact k, h.lock_exact t.host_key, fresh, eq_iff t.host_key k));
          locking =
              All-append (IsLocking (Dict.put locks t.host_key false)) a (t ∷ [])
                (put-Locking locks t.host_key false a h.locking)
                (
                  (
                    kind,
                    ground (
                      arith,
                      get-put locks t.host_key false t.host_key,
                      eq_iff t.host_key t.host_key,
                    ),
                  ),
                  tt,
                );
        })
  | inr (held, there) ↦
      rw (there, with_lock)
        (record {
          lock_exact = h.lock_exact;
          locking = All-append (IsLocking locks) a (t ∷ []) h.locking ((kind, rw there refl), tt);
        })
]

pub take-Locks :
    (t : RemoteTask) (locks : Dict String Bool) (place : ℕ) (a rest b c : List RemoteTask)
    → take_at place a ≡ some (t, rest)
    → is_free (Dict.get locks t.host_key) ≡ true
    → Locks locks a b c
    → Locks (Dict.put locks t.host_key true) rest (b ++ t ∷ []) c
take-Locks t locks place a rest b c found free h =
    let (mine, others) = take_at-All (IsLocking locks) place a rest t found h.locking in
    record {
      lock_exact = λ k.
          rw (count-snoc (is_io_of k) b t, get-put locks t.host_key true k)
            (ground
              (arith, h.lock_exact k, h.lock_exact t.host_key, mine.0, free, eq_iff t.host_key k));
      locking = put-Locking locks t.host_key true rest others;
    }

-- A task goes on from those that wait for a permit to those that run.
run-Locks :
    (t : RemoteTask) (locks : Dict String Bool) (place : ℕ) (a b rest c : List RemoteTask)
    → take_at place b ≡ some (t, rest)
    → Locks locks a b c
    → Locks locks a rest (c ++ t ∷ [])
run-Locks t locks place a b rest c found h = record {
  lock_exact = λ k. omega (
    arith,
    count-snoc (is_io_of k) c t,
    h.lock_exact k,
    take_at-count (is_io_of k) place b rest t found,
  );
  locking = h.locking;
}

abbrev pub task_of : String → String → Category → RemoteTask
task_of task_id host_key c = record { task_id = task_id; host_key = host_key; category = c }

pub enter-Inv :
    (task_id host_key : String) (c : Category) (place : ℕ) (rest : List RemoteTask)
    (s : RemoteTaskService)
    → take_at place s.at_semaphore ≡ some (task_of task_id host_key c, rest)
    → ltb 0 s.permits ≡ true
    → Inv s
    → Inv (enter (task_of task_id host_key c) (record s { at_semaphore = rest }))
enter-Inv task_id host_key io place rest s found left h =
    let t = task_of task_id host_key io in
    let p = h.permits_hold in
    record {
      permits_hold = record {
        some_limit = p.some_limit;
        permits_exact = ground (arith, length-append s.running (t ∷ []), p.permits_exact, left);
        total_exact = ground (arith, length-append s.running (t ∷ []), p.total_exact);
        io_exact = ground (arith, count-snoc is_io_task s.running t, p.io_exact);
        short_exact = ground (
          arith,
          length-append s.running (t ∷ []),
          count-snoc is_io_task s.running t,
          p.short_exact,
        );
      };
      locks_hold =
          run-Locks t s.host_io_locks place s.at_lock s.at_semaphore rest s.running found
            h.locks_hold;
      queues_hold = h.queues_hold;
    }
enter-Inv task_id host_key short place rest s found left h =
    let t = task_of task_id host_key short in
    let p = h.permits_hold in
    record {
      permits_hold = record {
        some_limit = p.some_limit;
        permits_exact = ground (arith, length-append s.running (t ∷ []), p.permits_exact, left);
        total_exact = ground (arith, length-append s.running (t ∷ []), p.total_exact);
        io_exact = ground (arith, count-snoc is_io_task s.running t, p.io_exact);
        short_exact = ground (
          arith,
          length-append s.running (t ∷ []),
          count-snoc is_io_task s.running t,
          p.short_exact,
        );
      };
      locks_hold =
          run-Locks t s.host_io_locks place s.at_lock s.at_semaphore rest s.running found
            h.locks_hold;
      queues_hold = h.queues_hold;
    }

pub leave-Inv :
    (task_id host_key : String) (c : Category) (place : ℕ) (rest : List RemoteTask)
    (s : RemoteTaskService)
    → take_at place s.running ≡ some (task_of task_id host_key c, rest)
    → Inv s
    → Inv (leave (task_of task_id host_key c) (record s { running = rest }))
leave-Inv task_id host_key io place rest s found h =
    let t = task_of task_id host_key io in
    let p = h.permits_hold in
    let fewer = take_at-length place s.running rest t found in
    let fewer_io = take_at-count is_io_task place s.running rest t found in
    record {
      permits_hold = record {
        some_limit = p.some_limit;
        permits_exact = omega (arith, fewer, p.permits_exact);
        total_exact = omega (arith, fewer, p.total_exact);
        io_exact = ground (arith, fewer_io, p.io_exact);
        short_exact = ground (arith, fewer, fewer_io, p.short_exact);
      };
      locks_hold = record {
        lock_exact = λ k. rw (get-put s.host_io_locks host_key false k) (
            ground (
              arith,
              h.locks_hold.lock_exact k,
              h.locks_hold.lock_exact host_key,
              take_at-count (is_io_of k) place s.running rest t found,
              take_at-count (is_io_of host_key) place s.running rest t found,
              eq_iff host_key k,
              eq_iff host_key host_key,
            ));
        locking = put-Locking s.host_io_locks host_key false s.at_lock h.locks_hold.locking;
      };
      queues_hold = h.queues_hold;
    }
leave-Inv task_id host_key short place rest s found h =
    let t = task_of task_id host_key short in
    let p = h.permits_hold in
    let fewer = take_at-length place s.running rest t found in
    let fewer_io = take_at-count is_io_task place s.running rest t found in
    record {
      permits_hold = record {
        some_limit = p.some_limit;
        permits_exact = omega (arith, fewer, p.permits_exact);
        total_exact = omega (arith, fewer, p.total_exact);
        io_exact = ground (arith, fewer_io, p.io_exact);
        short_exact = ground (arith, fewer, fewer_io, p.short_exact, count-bounded is_io_task rest);
      };
      locks_hold = record {
        lock_exact = λ k. ground (
          arith,
          h.locks_hold.lock_exact k,
          take_at-count (is_io_of k) place s.running rest t found,
        );
        locking = h.locks_hold.locking;
      };
      queues_hold = h.queues_hold;
    }
