-- ===== src/Jobs/HostSlots.antt =====
-- The host slots of server/app/services/job_service.py: `_acquire_host_slot`, `_release_host_slot`
-- and the tables that they keep under the service's lock. A section of the code between two waits is
-- one function. An `asyncio.Event` is a number, fresh at each `asyncio.Event()`.
pub mod System
pub mod Effects
pub mod Invariant
pub mod Leaving
pub mod Safety
pub mod Line
pub mod Fifo
use aether_v.Prelude.Dict
use aether_v.Prelude.Dict.{Dict}
use aether_v.Prelude.{
  ℕ, String, Bool, true, false, ◌&&◌, not, Option, none, some, List, [], ◌∷◌, ◌++◌, ◌==◌,
  if◌then◌else◌, filter, eq_string, is_empty, nat_eq,
}

pub record Slots : Type 0 where
  pub running : Dict String String  -- _host_running
  pub waiters : Dict String (List (String × ℕ))  -- _host_waiters

unfoldable pub empty_slots : Slots
empty_slots = record { running = []; waiters = [] }

abbrev pub or_empty {ℓ} : {A : Type ℓ} → Option (List A) → List A
or_empty none = []
or_empty (some q) = q

abbrev pub queue : Slots → String → List (String × ℕ)
queue s host = or_empty (Dict.get s.waiters host)

pub data Attempt : Type 0 where
  acquired : Attempt
  enqueued : Attempt

-- One round of the loop of `_acquire_host_slot`, under the lock; `event` is the event that the
-- round creates if it has to wait. A round begins with `enqueued` false.
abbrev contend : Option String → String → String → ℕ → Slots → Slots × Attempt
contend none host job event s = (record s { running = Dict.put s.running host job }, acquired)
contend (some owner) host job event s = if owner == job then (s, acquired) else (
  record s { waiters = Dict.put s.waiters host (queue s host ++ (job, event) ∷ []) },
  enqueued,
)

unfoldable pub acquire_round : String → String → ℕ → Slots → Slots × Attempt
acquire_round host job event s = contend (Dict.get s.running host) host job event s

-- `if not queue: self._host_waiters.pop(host, None)` behind a change of the queue
abbrev pub store_queue : String → List (String × ℕ) → Slots → Slots
store_queue host [] s = record s { waiters = Dict.remove s.waiters host }
store_queue host (w ∷ q) s = record s { waiters = Dict.put s.waiters host (w ∷ q) }

-- pending.remove((job_id, waiter)), which takes the first such pair
abbrev remove_first : String → ℕ → List (String × ℕ) → List (String × ℕ)
remove_first job event [] = []
remove_first job event ((j, e) ∷ q) =
    if j == job && nat_eq e event then q else (j, e) ∷ remove_first job event q

-- The handler of `_acquire_host_slot` for an exception met while waiting.
unfoldable pub abandon : String → String → ℕ → Slots → Slots
abandon host job event s =
    if is_empty (queue s host)
    then s
    else store_queue host (remove_first job event (queue s host)) s

abbrev is_owner : Option String → String → Bool
is_owner none job = false
is_owner (some owner) job = owner == job

abbrev hand_over : String → List (String × ℕ) → Slots → Slots × Option ℕ
hand_over host [] s = (record s { running = Dict.remove s.running host }, none)
hand_over host ((next_job, waiter) ∷ rest) s =
    let t = store_queue host rest s in
    (record t { running = Dict.put t.running host next_job }, some waiter)

-- `_release_host_slot`, with the event that it sets at its end.
unfoldable pub release : String → String → Slots → Slots × Option ℕ
release host job s =
    if host == ""
    then (s, none)
    else if not (is_owner (Dict.get s.running host) job)
    then (s, none)
    else hand_over host (queue s host) s
