-- ===== src/Jobs/HostSlots/Safety.antt =====
-- What the host slots of server/app/services/job_service.py promise, in every interleaving.
use aether_v.Prelude.{
  ℕ, String, ◌≡◌, ◌≢◌, Bool, true, false, ◌||◌, some, ◌==◌, eq_string, eq_iff, arith, Option-cases,
  inl, inr, ◌⊎◌, nat_eq_iff, Bool-cases, subst,
}
use aether_v.Jobs.HostSlots.{Attempt, acquired, enqueued}
use aether_v.Jobs.HostSlots.System.{
  Phase, idle, waiting, holding, finished, System, contend_for, leave, start, Step, arrive, wake,
  depart, Reach, begin, next, settle, set_phase,
}
use aether_v.Jobs.HostSlots.Effects.{owner_of, attempt-acquire_round}
use aether_v.Jobs.HostSlots.Invariant.{Inv, holds, woken, start-Inv, contend_for-Inv}
use aether_v.Jobs.HostSlots.Leaving.{leave-Inv, one_owner}

-- No job holds or waits for the host without a name: `_process_job` does not contend for it.
abbrev Named : Phase → Type 0
Named idle = Unit
Named (waiting h e) = h ≢ ""
Named (holding h) = h ≢ ""
Named finished = Unit

settle-Named : (h j : String) (e : ℕ) (a : Attempt) → h ≢ "" → Named (settle h j e a)
settle-Named h j e acquired n = n
settle-Named h j e enqueued n = n

set_phase-Named :
    (job : String) (p : Phase) (s : System)
    → Named p
    → ((j : String) → Named (s.phase j))
    → (j : String) → Named (set_phase job p s j)
set_phase-Named job p s n h j = elim (Bool-cases (job == j)) [
  | inl same ↦ rw same n
  | inr other ↦ rw other (h j)
]

record Good (s : System) : Type 0 where
  inv : Inv s
  named : (j : String) → Named (s.phase j)

Step-Good : {s t : System} → Good s → Step s t → Good t
unfolding contend_for leave
Step-Good {s} g (arrive host job n i) = record {
  inv = contend_for-Inv host job s g.inv (inl i);
  named = set_phase-Named job _ s (settle-Named host job s.next_event _ n) g.named;
}
Step-Good {s} g (wake host job e w f) = record {
  inv = contend_for-Inv host job s g.inv (inr (e, w, f));
  named =
      set_phase-Named job _ s (settle-Named host job s.next_event _ (subst Named w (g.named job)))
        g.named;
}
Step-Good {s} g (depart host job h) = record {
  inv = leave-Inv host job s g.inv (subst Named h (g.named job)) h;
  named = set_phase-Named job finished s tt g.named;
}

Reach-Good : {s : System} → Reach s → Good s
Reach-Good begin = record { inv = start-Inv; named = unfold start in (λ j. tt) }
Reach-Good (next r st) = Step-Good (Reach-Good r) st

-- In every state that the jobs reach, in whatever order their rounds come, two jobs that hold the
-- slot of one host are the same job.
pub mutual_exclusion :
    (s : System) (host i j : String)
    → Reach s
    → s.phase i ≡ holding host
    → s.phase j ≡ holding host
    → i ≡ j
mutual_exclusion s host i j r hi hj =
    let inv = (Reach-Good r).inv in
    ground (
      arith,
      inv.owner_exact host i,
      inv.owner_exact host j,
      eq_iff host host,
      one_owner (owner_of s.slots host) i j,
    )

owning_phase :
    (fired : ℕ → Bool) (p : Phase) (host : String)
    → (holds p host || woken fired p host) ≡ true
    → (p ≡ holding host) ⊎ ((d : ℕ) × (p ≡ waiting host d) × (fired d ≡ true))
owning_phase fired (holding h) host e = inl (ground (arith, eq_iff h host))
owning_phase fired (waiting h d) host e = inr (d, ground (arith, eq_iff h host), ground arith)
owning_phase fired _ host e = cc

-- No wake-up is lost: while a job waits for a host on an event that is not set, some job owns the
-- host, and that job holds its slot or waits on an event that is set.
pub waiting_has_owner :
    (s : System) (host j : String) (e : ℕ)
    → Reach s
    → s.phase j ≡ waiting host e
    → s.fired e ≡ false
    → (i : String) × (owner_of s.slots host ≡ some i)
      × ((s.phase i ≡ holding host) ⊎ ((d : ℕ) × (s.phase i ≡ waiting host d) × (s.fired d ≡ true)))
waiting_has_owner s host j e r w f =
    let inv = (Reach-Good r).inv in
    elim (Option-cases (owner_of s.slots host)) [
      | inl free ↦ absurd (
          ground (
            arith,
            inv.free_empty host free,
            inv.queue_exact host j e,
            eq_iff host host,
            nat_eq_iff e e,
          ))
      | inr (i, owns) ↦ (
        i,
        owns,
        owning_phase s.fired (s.phase i) host (ground (arith, inv.owner_exact host i, eq_iff i i)),
      )
    ]

-- A job that is woken acquires the slot in its next round: it never queues a second time.
pub woken_acquires :
    (s : System) (host j : String) (e : ℕ)
    → Reach s
    → s.phase j ≡ waiting host e
    → s.fired e ≡ true
    → (contend_for host j s).phase j ≡ holding host
unfolding contend_for
woken_acquires s host j e r w f =
    let inv = (Reach-Good r).inv in
    rw (attempt-acquire_round host j s.next_event s.slots)
      (ground (arith, inv.owner_exact host j, eq_iff host host, eq_iff j j))
