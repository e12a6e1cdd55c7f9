-- ===== src/Jobs/HostSlots/Effects.antt =====
-- What a round of `_acquire_host_slot` and `_release_host_slot` of
-- server/app/services/job_service.py do to the owner and to the queue of every host.
use aether_v.Prelude.Dict
use aether_v.Prelude.Dict.{dict_laws, get-put, get-remove}
use aether_v.Prelude.{
  ℕ, String, ◌≡◌, ◌≢◌, refl, Bool, true, false, ◌&&◌, not, Option, none, some, List, [], ◌∷◌, ◌++◌,
  ◌==◌, if◌then◌else◌, eq_string, eq_iff, arith,
}
use aether_v.Jobs.HostSlots.{
  Slots, queue, acquired, enqueued, acquire_round, is_owner, release, hand_over, store_queue,
}

-- Another job has the host.
abbrev pub blocked : Option String → String → Bool
blocked none job = false
blocked (some owner) job = not (owner == job)

abbrev pub owner_of : Slots → String → Option String
owner_of s host = Dict.get s.running host

abbrev pub take_free : Option String → String → Option String
take_free none job = some job
take_free (some owner) job = some owner

module _ (host job : String) (event : ℕ) (s : Slots) where
  pub attempt-acquire_round :
      (acquire_round host job event s).1
      ≡ (if blocked (owner_of s host) job then enqueued else acquired)
  unfolding acquire_round
  attempt-acquire_round = ground arith

  pub owner-acquire_round :
      (h : String)
      → owner_of (acquire_round host job event s).0 h
        ≡ (if host == h then take_free (owner_of s host) job else owner_of s h)
  unfolding acquire_round
  owner-acquire_round h = ground (arith, get-put s.running host job h, eq_iff host h)

  pub queue-acquire_round :
      (h : String)
      → queue (acquire_round host job event s).0 h ≡ (
          if host == h && blocked (owner_of s host) job
          then queue s h ++ (job, event) ∷ []
          else queue s h)
  unfolding acquire_round
  queue-acquire_round h =
      ground (arith, get-put s.waiters host (queue s host ++ (job, event) ∷ []) h, eq_iff host h)

abbrev pub first_job : List (String × ℕ) → Option String
first_job [] = none
first_job ((j, e) ∷ q) = some j

abbrev pub first_event : List (String × ℕ) → Option ℕ
first_event [] = none
first_event ((j, e) ∷ q) = some e

abbrev pub rest_of : List (String × ℕ) → List (String × ℕ)
rest_of [] = []
rest_of (w ∷ q) = q

running-store_queue :
    (host : String) (q : List (String × ℕ)) (s : Slots) → (store_queue host q s).running ≡ s.running
running-store_queue host [] s = refl
running-store_queue host (w ∷ q) s = refl

queue-store_queue :
    (host : String) (q : List (String × ℕ)) (s : Slots) (h : String)
    → queue (store_queue host q s) h ≡ (if host == h then q else queue s h)
queue-store_queue host [] s h = ground (arith, get-remove s.waiters host h)
queue-store_queue host (w ∷ q) s h = ground (arith, get-put s.waiters host (w ∷ q) h)

module _ (host job : String) (s : Slots) where
  owner-hand_over :
      (q : List (String × ℕ)) (h : String)
      → owner_of (hand_over host q s).0 h ≡ (if host == h then first_job q else owner_of s h)
  owner-hand_over [] h = get-remove s.running host h
  owner-hand_over ((j, e) ∷ q) h =
      ground (arith, running-store_queue host q s, get-put s.running host j h)

  queue-hand_over :
      (q : List (String × ℕ)) (h : String)
      → queue s host ≡ q
      → queue (hand_over host q s).0 h ≡ (if host == h then rest_of q else queue s h)
  queue-hand_over [] h e = ground (arith, eq_iff host h)
  queue-hand_over ((j, w) ∷ q) h e = queue-store_queue host q s h

  event-hand_over : (q : List (String × ℕ)) → (hand_over host q s).1 ≡ first_event q
  event-hand_over [] = refl
  event-hand_over ((j, e) ∷ q) = refl

  -- A job that does not own the host releases nothing.
  pub release_other : is_owner (owner_of s host) job ≡ false → release host job s ≡ (s, none)
  unfolding release
  release_other other = ground arith

  module _ (named : host ≢ "") (owns : is_owner (owner_of s host) job ≡ true) where
    release-eq-hand_over : release host job s ≡ hand_over host (queue s host) s
    unfolding release
    release-eq-hand_over = ground (arith, eq_iff host "")

    pub owner-release :
        (h : String)
        → owner_of (release host job s).0 h
          ≡ (if host == h then first_job (queue s host) else owner_of s h)
    owner-release h = rw release-eq-hand_over (owner-hand_over (queue s host) h)

    pub queue-release :
        (h : String)
        → queue (release host job s).0 h ≡ (if host == h then rest_of (queue s host) else queue s h)
    queue-release h = rw release-eq-hand_over (queue-hand_over (queue s host) h refl)

    pub event-release : (release host job s).1 ≡ first_event (queue s host)
    event-release = rw release-eq-hand_over (event-hand_over (queue s host))
