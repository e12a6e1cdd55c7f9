-- ===== src/Jobs/HostSlots/Line.antt =====
-- The host slots of server/app/services/job_service.py as one waiting line for each host: its owner
-- in front, then the jobs that wait, in the order of their coming.
use aether_v.Prelude.{
  ℕ, String, ◌≡◌, ◌≢◌, refl, Option, none, some, List, [], ◌∷◌, ◌++◌, ◌==◌, if◌then◌else◌,
  eq_string, eq_iff, arith, inl, inr, Bool-cases, ap,
}
use aether_v.Jobs.HostSlots.{Slots, queue, acquire_round, is_owner, release}
use aether_v.Jobs.HostSlots.Effects.{
  owner_of, owner-acquire_round, queue-acquire_round, first_job, rest_of, owner-release,
  queue-release, release_other,
}

abbrev jobs_of : List (String × ℕ) → List String
jobs_of [] = []
jobs_of ((j, e) ∷ q) = j ∷ jobs_of q

abbrev behind_owner : Option String → List String → List String
behind_owner none l = l
behind_owner (some o) l = o ∷ l

abbrev pub line : Slots → String → List String
line s host = behind_owner (owner_of s host) (jobs_of (queue s host))

-- A job joins the line at its end, unless it is in front already.
abbrev pub join : String → List String → List String
join job [] = job ∷ []
join job (o ∷ l) = if o == job then o ∷ l else o ∷ (l ++ job ∷ [])

-- The job in front leaves the line; a job elsewhere changes nothing.
abbrev pub step_out : String → List String → List String
step_out job [] = []
step_out job (o ∷ l) = if o == job then l else o ∷ l

-- A host that is free has nobody waiting.
abbrev pub IsTidy : Slots → Type 0
IsTidy s = (h : String) → owner_of s h ≡ none → queue s h ≡ []

jobs_of-append :
    (q : List (String × ℕ)) (j : String) (e : ℕ) → jobs_of (q ++ (j, e) ∷ []) ≡ jobs_of q ++ j ∷ []
jobs_of-append [] j e = refl
jobs_of-append ((i, d) ∷ q) j e = ap (λ (l : List String). i ∷ l) (jobs_of-append q j e)

first_behind :
    (q : List (String × ℕ)) → behind_owner (first_job q) (jobs_of (rest_of q)) ≡ jobs_of q
first_behind [] = refl
first_behind ((j, e) ∷ q) = refl

module _ (host job : String) (s : Slots) (tidy : IsTidy s) where
  -- A round of `_acquire_host_slot` joins the line of its host, and leaves every other line alone.
  pub line-acquire_round :
      (event : ℕ) (h : String)
      → line (acquire_round host job event s).0 h
        ≡ (if host == h then join job (line s h) else line s h)
  line-acquire_round event h = ground (
    arith,
    owner-acquire_round host job event s h,
    queue-acquire_round host job event s h,
    tidy h,
    eq_iff host h,
    jobs_of-append (queue s h) job event,
  )

  pub acquire_round-IsTidy : (event : ℕ) → IsTidy (acquire_round host job event s).0
  acquire_round-IsTidy event h e = ground (
    arith,
    owner-acquire_round host job event s h,
    queue-acquire_round host job event s h,
    tidy h,
    eq_iff host h,
  )

  module _ (named : host ≢ "") where
    pub line-release :
        (h : String)
        → line (release host job s).0 h ≡ (if host == h then step_out job (line s h) else line s h)
    line-release h = elim (Bool-cases (is_owner (owner_of s host) job)) [
      | inl owns ↦ ground (
        arith,
        owner-release host job s named owns h,
        queue-release host job s named owns h,
        eq_iff host h,
        first_behind (queue s host),
      )
      | inr other ↦ rw (release_other host job s other) (ground (arith, tidy h, eq_iff host h))
    ]

    pub release-IsTidy : IsTidy (release host job s).0
    release-IsTidy h e = elim (Bool-cases (is_owner (owner_of s host) job)) [
      | inl owns ↦ ground (
        arith,
        owner-release host job s named owns h,
        queue-release host job s named owns h,
        tidy h,
        eq_iff host h,
      )
      | inr other ↦
          rw (release_other host job s other) (tidy h (rw (release_other host job s other) at e))
    ]

-- On tables where a free host has nobody waiting, a round of `_acquire_host_slot` puts the job at
-- the end of the line of its host unless it is in front there; `_release_host_slot` takes the job
-- out of that line if it is in front; the lines of the other hosts stay as they are; and a free host
-- has nobody waiting after either.
pub slots_refine_lines :
    (host job : String) (event : ℕ) (s : Slots)
    → host ≢ ""
    → IsTidy s
    → let entered = (acquire_round host job event s).0 in
      let released = (release host job s).0 in
      ((h : String) → line entered h ≡ (if host == h then join job (line s h) else line s h))
      × ((h : String) → line released h ≡ (if host == h then step_out job (line s h) else line s h))
      × IsTidy entered
      × IsTidy released
slots_refine_lines host job event s named tidy = (
  line-acquire_round host job s tidy event,
  line-release host job s tidy named,
  acquire_round-IsTidy host job s tidy event,
  release-IsTidy host job s tidy named,
)
