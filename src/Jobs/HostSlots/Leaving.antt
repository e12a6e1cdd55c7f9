-- ===== src/Jobs/HostSlots/Leaving.antt =====
-- `_release_host_slot` of server/app/services/job_service.py keeps the invariant.
use aether_v.Prelude.{
  ℕ, ◌≤◌, ◌<◌, String, ◌≡◌, ◌≢◌, refl, true, false, ◌&&◌, ◌||◌, not, Option, none, some, List, [],
  ◌∷◌, ◌==◌, eq_string, eq_iff, arith, inl, inr, nat_eq_iff, Bool-cases, subst,
}
use aether_v.Jobs.HostSlots.{queue, is_owner}
use aether_v.Jobs.HostSlots.System.{Phase, idle, waiting, holding, finished, System, leave, fire}
use aether_v.Jobs.HostSlots.Effects.{owner_of, rest_of, owner-release, queue-release, event-release}
use aether_v.Jobs.HostSlots.Invariant.{Inv, queued, waits, holds, woken, Distinct}

rest_of-Distinct : (q : List (String × ℕ)) → Distinct q → Distinct (rest_of q)
rest_of-Distinct [] d = tt
rest_of-Distinct ((j, e) ∷ q) d = d.1

pub one_owner :
    (o : Option String) (i j : String) → is_owner o i ≡ true → is_owner o j ≡ true → i ≡ j
one_owner none i j p q = cc
one_owner (some k) i j p q = ground (arith, eq_iff k i, eq_iff k j)

waits_same : (p : Phase) (h k : String) (e : ℕ) → waits p h e ≡ true → waits p k e ≡ true → h ≡ k
waits_same (waiting g d) h k e v w = ground (arith, eq_iff g h, eq_iff g k)
waits_same _ h k e v w = cc

module _ (host job : String) (s : System) (inv : Inv s) (named : host ≢ "")
    (held : s.phase job ≡ holding host) where
  open inv use {queue_exact, owner_exact, free_empty, distinct, unfired, waits_old, one_waiter}

  owns : is_owner (owner_of s.slots host) job ≡ true
  owns = ground (arith, owner_exact host job, eq_iff host host)

  head_waits :
      (n : String) (w : ℕ) (r : List (String × ℕ))
      → queue s.slots host ≡ (n, w) ∷ r
      → (waits (s.phase n) host w ≡ true) × (s.fired w ≡ false)
  head_waits n w r q = ground (arith, queue_exact host n w, eq_iff n n, nat_eq_iff w w)

  head_gone :
      (n : String) (w : ℕ) (r : List (String × ℕ))
      → queue s.slots host ≡ (n, w) ∷ r
      → queued r n w ≡ false
  head_gone n w r q = (subst Distinct q (distinct host)).0

  -- The event that is set wakes the head of the queue, for its host, and nobody else.
  woken_by :
      (n : String) (w : ℕ) (r : List (String × ℕ))
      → queue s.slots host ≡ (n, w) ∷ r
      → (h j : String)
      → woken (fire (some w) s.fired) (s.phase j) h
        ≡ (woken s.fired (s.phase j) h || (host == h && n == j))
  woken_by n w r q h j = woken_at (s.phase j) refl
    where
      woken_at :
          (p : Phase)
          → s.phase j ≡ p
          → woken (fire (some w) s.fired) p h ≡ (woken s.fired p h || (host == h && n == j))
      woken_at idle e = ground (arith, head_waits n w r q, eq_iff n j)
      woken_at (holding g) e = ground (arith, head_waits n w r q, eq_iff n j)
      woken_at finished e = ground (arith, head_waits n w r q, eq_iff n j)
      woken_at (waiting g d) e = ground (
        arith,
        head_waits n w r q,
        one_waiter n j host g d,
        waits_same (s.phase j) host g d,
        eq_iff n j,
        eq_iff g h,
        eq_iff g host,
        eq_iff host h,
        eq_iff g g,
        nat_eq_iff w d,
        nat_eq_iff d w,
        nat_eq_iff d d,
      )

  leave-queue_exact_of :
      (q : List (String × ℕ))
      → queue s.slots host ≡ q
      → (h j : String) (e : ℕ)
      → queued (queue (leave host job s).slots h) j e
        ≡ (waits ((leave host job s).phase j) h e && not ((leave host job s).fired e))
  unfolding leave
  leave-queue_exact_of [] eq h j e = ground (
    arith,
    queue-release host job s.slots named owns h,
    event-release host job s.slots named owns,
    queue_exact h j e,
    eq_iff host h,
    eq_iff job j,
  )
  leave-queue_exact_of ((n, w) ∷ r) eq h j e = ground (
    arith,
    queue-release host job s.slots named owns h,
    event-release host job s.slots named owns,
    queue_exact h j e,
    eq_iff host h,
    eq_iff job j,
    head_waits n w r eq,
    head_gone n w r eq,
    one_waiter n j host h w,
    eq_iff n j,
    nat_eq_iff w e,
    waits_same (s.phase j) host h e,
  )

  leave-queue_exact :
      (h j : String) (e : ℕ)
      → queued (queue (leave host job s).slots h) j e
        ≡ (waits ((leave host job s).phase j) h e && not ((leave host job s).fired e))
  leave-queue_exact = leave-queue_exact_of (queue s.slots host) refl

  leave-owner_exact_of :
      (q : List (String × ℕ))
      → queue s.slots host ≡ q
      → (h j : String)
      → is_owner (owner_of (leave host job s).slots h) j ≡ (
          holds ((leave host job s).phase j) h
          || woken (leave host job s).fired ((leave host job s).phase j) h)
  unfolding leave
  leave-owner_exact_of [] eq h j =
      rw
        (event-release host job s.slots named owns, owner-release host job s.slots named owns h, eq)
        (ground (
          arith,
          owner_exact h j,
          owner_exact host j,
          owns,
          one_owner (owner_of s.slots host) job j,
          eq_iff host h,
          eq_iff job j,
        ))
  leave-owner_exact_of ((n, w) ∷ r) eq h j =
      rw
        (event-release host job s.slots named owns, owner-release host job s.slots named owns h, eq)
        (ground (
          arith,
          owner_exact h j,
          owner_exact host j,
          owns,
          one_owner (owner_of s.slots host) job j,
          eq_iff host h,
          eq_iff job j,
          eq_iff n j,
          eq_iff n job,
          head_waits n w r eq,
          woken_by n w r eq h j,
        ))

  leave-owner_exact :
      (h j : String)
      → is_owner (owner_of (leave host job s).slots h) j ≡ (
          holds ((leave host job s).phase j) h
          || woken (leave host job s).fired ((leave host job s).phase j) h)
  leave-owner_exact = leave-owner_exact_of (queue s.slots host) refl

  leave-free_empty :
      (h : String)
      → owner_of (leave host job s).slots h ≡ none
      → queue (leave host job s).slots h ≡ []
  unfolding leave
  leave-free_empty h e = ground (
    arith,
    owner-release host job s.slots named owns h,
    queue-release host job s.slots named owns h,
    free_empty h,
    eq_iff host h,
  )

  leave-Distinct : (h : String) → Distinct (queue (leave host job s).slots h)
  unfolding leave
  leave-Distinct h =
      rw (queue-release host job s.slots named owns h) (elim (Bool-cases (host == h)) [
        | inl here ↦ rw here (rest_of-Distinct (queue s.slots host) (distinct host))
        | inr there ↦ rw there (distinct h)
      ])

  leave-unfired_of :
      (q : List (String × ℕ))
      → queue s.slots host ≡ q
      → (e : ℕ) → s.next_event ≤ e
      → (leave host job s).fired e ≡ false
  unfolding leave
  leave-unfired_of [] eq e old = rw (event-release host job s.slots named owns, eq) (unfired e old)
  leave-unfired_of ((n, w) ∷ r) eq e old =
      rw (event-release host job s.slots named owns, eq)
        (ground (arith, head_waits n w r eq, waits_old n host w, nat_eq_iff w e, unfired e))

  leave-unfired : (e : ℕ) → s.next_event ≤ e → (leave host job s).fired e ≡ false
  unfolding leave
  leave-unfired e old = leave-unfired_of (queue s.slots host) refl e old

  leave-waits_old :
      (j h : String) (e : ℕ) → waits ((leave host job s).phase j) h e ≡ true → e < s.next_event
  unfolding leave
  leave-waits_old j h e w = ground (arith, waits_old j h e)

  leave-one_waiter :
      (i j h k : String) (e : ℕ)
      → waits ((leave host job s).phase i) h e ≡ true
      → waits ((leave host job s).phase j) k e ≡ true
      → i ≡ j
  unfolding leave
  leave-one_waiter i j h k e v w = ground (arith, one_waiter i j h k e)

  pub leave-Inv : Inv (leave host job s)
  unfolding leave
  leave-Inv = record {
    queue_exact = leave-queue_exact;
    owner_exact = leave-owner_exact;
    free_empty = leave-free_empty;
    distinct = leave-Distinct;
    unfired = leave-unfired;
    waits_old = leave-waits_old;
    one_waiter = leave-one_waiter;
  }
