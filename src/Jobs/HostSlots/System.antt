-- ===== src/Jobs/HostSlots/System.antt =====
-- The jobs of server/app/services/job_service.py that contend for host slots, as `_process_job`
-- runs them: every interleaving of the rounds of `_acquire_host_slot` and of `_release_host_slot`.
use aether_v.Prelude.{
  ℕ, suc, String, ◌≡◌, ◌≢◌, Bool, true, false, Option, none, some, ◌==◌, nat_eq, if◌then◌else◌,
  eq_string,
}
use aether_v.Jobs.HostSlots.{
  Slots, empty_slots, Attempt, acquired, enqueued, acquire_round, release,
}

-- Where the coroutine of a job stands.
pub data Phase : Type 0 where
  idle : Phase
  waiting : String → ℕ → Phase  -- in `await waiter.wait()`, for a host, on an event
  holding : String → Phase  -- `acquired_host` is true
  finished : Phase

pub record System : Type 0 where
  pub slots : Slots
  pub fired : ℕ → Bool  -- the events that are set
  pub next_event : ℕ
  pub phase : String → Phase

abbrev pub set_phase : String → Phase → System → String → Phase
set_phase job p s j = if job == j then p else s.phase j

abbrev pub settle : String → String → ℕ → Attempt → Phase
settle host job event acquired = holding host
settle host job event enqueued = waiting host event

-- A round of `_acquire_host_slot` by a job.
unfoldable pub contend_for : String → String → System → System
contend_for host job s =
    let (slots', attempt) = acquire_round host job s.next_event s.slots in
    record s {
      slots = slots';
      next_event = suc s.next_event;
      phase = set_phase job (settle host job s.next_event attempt) s;
    }

abbrev pub fire : Option ℕ → (ℕ → Bool) → ℕ → Bool
fire none fired e = fired e
fire (some waiter) fired e = if nat_eq waiter e then true else fired e

-- `_release_host_slot` in the `finally` of `_process_job`
unfoldable pub leave : String → String → System → System
leave host job s =
    let (slots', waiter) = release host job s.slots in
    record s { slots = slots'; fired = fire waiter s.fired; phase = set_phase job finished s }

unfoldable pub start : System
start = record { slots = empty_slots; fired = λ e. false; next_event = 0; phase = λ j. idle }

-- What may happen next, for any job and any host.
pub data Step (s : System) : System → Type 0 where
  arrive : (host job : String) → host ≢ "" → s.phase job ≡ idle → Step s (contend_for host job s)
  wake :
      (host job : String) (event : ℕ)
      → s.phase job ≡ waiting host event
      → s.fired event ≡ true
      → Step s (contend_for host job s)
  depart : (host job : String) → s.phase job ≡ holding host → Step s (leave host job s)

pub data Reach : System → Type 0 where
  begin : Reach start
  next : {s t : System} → Reach s → Step s t → Reach t
