-- ===== src/Jobs/HostSlots/Invariant.antt =====
-- What holds of the host slots and of the jobs that contend for them
-- (server/app/services/job_service.py) at every moment.
use aether_v.Prelude.Dict
use aether_v.Prelude.{
  ℕ, suc, ◌≤◌, ◌<◌, String, ◌≡◌, refl, Bool, true, false, ◌&&◌, ◌||◌, not, none, List, [], ◌∷◌,
  ◌++◌, ◌==◌, eq_string, eq_iff, arith, inl, inr, nat_eq, nat_eq_iff, Bool-cases, ◌⊎◌,
}
use aether_v.Jobs.HostSlots.{empty_slots, queue, is_owner}
use aether_v.Jobs.HostSlots.System.{Phase, idle, waiting, holding, System, contend_for, start}
use aether_v.Jobs.HostSlots.Effects.{
  blocked, owner_of, attempt-acquire_round, owner-acquire_round, queue-acquire_round,
}

abbrev pub queued : List (String × ℕ) → String → ℕ → Bool
queued [] job event = false
queued ((j, e) ∷ q) job event = (j == job && nat_eq e event) || queued q job event

abbrev pub waits : Phase → String → ℕ → Bool
waits (waiting h e) host event = h == host && nat_eq e event
waits _ host event = false

abbrev pub holds : Phase → String → Bool
holds (holding h) host = h == host
holds _ host = false

abbrev pub woken : (ℕ → Bool) → Phase → String → Bool
woken fired (waiting h e) host = h == host && fired e
woken fired _ host = false

abbrev pub Distinct : List (String × ℕ) → Type 0
Distinct [] = Unit
Distinct ((j, e) ∷ q) = (queued q j e ≡ false) × Distinct q

pub record Inv (s : System) : Type 0 where
  -- a queue holds just the jobs that wait for its host on an event that is not set
  pub queue_exact :
      (h j : String) (e : ℕ)
      → queued (queue s.slots h) j e ≡ (waits (s.phase j) h e && not (s.fired e))
  -- a host belongs to a job that has acquired it, or that has been woken to acquire it
  pub owner_exact :
      (h j : String)
      → is_owner (owner_of s.slots h) j ≡ (holds (s.phase j) h || woken s.fired (s.phase j) h)
  pub free_empty : (h : String) → owner_of s.slots h ≡ none → queue s.slots h ≡ []
  pub distinct : (h : String) → Distinct (queue s.slots h)
  pub unfired : (e : ℕ) → s.next_event ≤ e → s.fired e ≡ false
  pub waits_old : (j h : String) (e : ℕ) → waits (s.phase j) h e ≡ true → e < s.next_event
  pub one_waiter :
      (i j h k : String) (e : ℕ)
      → waits (s.phase i) h e ≡ true
      → waits (s.phase j) k e ≡ true
      → i ≡ j

pub start-Inv : Inv start
unfolding start empty_slots Dict.get
start-Inv = record {
  queue_exact = λ h j e. refl;
  owner_exact = λ h j. refl;
  free_empty = λ h e. refl;
  distinct = λ h. tt;
  unfired = λ e h. refl;
  waits_old = λ j h e w. cc;
  one_waiter = λ i j h k e v w. cc;
}

queued-append :
    (q : List (String × ℕ)) (i : String) (d : ℕ) (j : String) (e : ℕ)
    → queued (q ++ (i, d) ∷ []) j e ≡ (queued q j e || (i == j && nat_eq d e))
queued-append [] i d j e = ground arith
queued-append ((k, c) ∷ q) i d j e = ground (arith, queued-append q i d j e)

Distinct-append :
    (q : List (String × ℕ)) (i : String) (d : ℕ)
    → queued q i d ≡ false
    → Distinct q
    → Distinct (q ++ (i, d) ∷ [])
Distinct-append [] i d new h = (refl, tt)
Distinct-append ((k, c) ∷ q) i d new h = (
  ground (arith, queued-append q i d k c, eq_iff i k, eq_iff k i),
  Distinct-append q i d (ground arith) h.1,
)

-- A job that is idle, or that has been woken for the host, contends for it.
module _ (host job : String) (s : System) (inv : Inv s)
    (comes : (s.phase job ≡ idle)
      ⊎ ((e : ℕ) × (s.phase job ≡ waiting host e) × (s.fired e ≡ true))) where
  open inv use {queue_exact, owner_exact, free_empty, distinct, unfired, waits_old, one_waiter}

  contend_for-queue_exact :
      (h j : String) (e : ℕ)
      → queued (queue (contend_for host job s).slots h) j e
        ≡ (waits ((contend_for host job s).phase j) h e && not (s.fired e))
  unfolding contend_for
  contend_for-queue_exact h j e = rw (queue-acquire_round host job s.next_event s.slots h) (
      rw (attempt-acquire_round host job s.next_event s.slots) (
        ground (
          arith,
          queued-append (queue s.slots h) job s.next_event j e,
          queue_exact h j e,
          owner_exact host job,
          unfired s.next_event,
          waits_old j h e,
          eq_iff job j,
          eq_iff host h,
        )))

  contend_for-owner_exact :
      (h j : String)
      → is_owner (owner_of (contend_for host job s).slots h) j ≡ (
          holds ((contend_for host job s).phase j) h
          || woken s.fired ((contend_for host job s).phase j) h)
  unfolding contend_for
  contend_for-owner_exact h j = rw (owner-acquire_round host job s.next_event s.slots h) (
      rw (attempt-acquire_round host job s.next_event s.slots) (
        ground (
          arith,
          owner_exact h j,
          owner_exact host job,
          unfired s.next_event,
          eq_iff job j,
          eq_iff j job,
          eq_iff host h,
        )))

  contend_for-free_empty :
      (h : String)
      → owner_of (contend_for host job s).slots h ≡ none
      → queue (contend_for host job s).slots h ≡ []
  unfolding contend_for
  contend_for-free_empty h e = ground (
    arith,
    queue-acquire_round host job s.next_event s.slots h,
    owner-acquire_round host job s.next_event s.slots h,
    free_empty h,
    eq_iff host h,
  )

  contend_for-Distinct : (h : String) → Distinct (queue (contend_for host job s).slots h)
  unfolding contend_for
  contend_for-Distinct h =
      rw (queue-acquire_round host job s.next_event s.slots h)
        (elim (Bool-cases (host == h && blocked (owner_of s.slots host) job)) [
          | inl grows ↦ rw grows (
              Distinct-append (queue s.slots h) job s.next_event
                (ground (arith, queue_exact h job s.next_event, waits_old job h s.next_event))
                (distinct h))
          | inr same ↦ rw same (distinct h)
        ])

  contend_for-waits_old :
      (j h : String) (e : ℕ)
      → waits ((contend_for host job s).phase j) h e ≡ true
      → e < suc s.next_event
  unfolding contend_for
  contend_for-waits_old j h e w = ground (
    arith,
    attempt-acquire_round host job s.next_event s.slots,
    waits_old j h e,
    nat_eq_iff s.next_event e,
  )

  contend_for-one_waiter :
      (i j h k : String) (e : ℕ)
      → waits ((contend_for host job s).phase i) h e ≡ true
      → waits ((contend_for host job s).phase j) k e ≡ true
      → i ≡ j
  unfolding contend_for
  contend_for-one_waiter i j h k e v w = ground (
    arith,
    waits_old i h e,
    waits_old j k e,
    one_waiter i j h k e,
    eq_iff job i,
    eq_iff job j,
    nat_eq_iff s.next_event e,
  )

  pub contend_for-Inv : Inv (contend_for host job s)
  unfolding contend_for
  contend_for-Inv = record {
    queue_exact = contend_for-queue_exact;
    owner_exact = contend_for-owner_exact;
    free_empty = contend_for-free_empty;
    distinct = contend_for-Distinct;
    unfired = λ e h. unfired e (omega arith);
    waits_old = contend_for-waits_old;
    one_waiter = contend_for-one_waiter;
  }
