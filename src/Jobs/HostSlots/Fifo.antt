-- ===== src/Jobs/HostSlots/Fifo.antt =====
-- The host slots of server/app/services/job_service.py are handed on first come, first served.
use aether_v.Prelude.{
  ℕ, suc, String, ◌≡◌, ◌≢◌, refl, Bool, true, false, ◌&&◌, some, List, [], ◌∷◌, ◌++◌, ◌==◌,
  if◌then◌else◌, eq_string, eq_iff, arith, inl, inr, ◌⊎◌, Bool-cases, append_assoc, append-nil, sym,
  ◌∙◌, ap, length, All,
}
use aether_v.Jobs.HostSlots.{Slots, acquire_round, is_owner, release}
use aether_v.Jobs.HostSlots.Effects.{owner_of}
use aether_v.Jobs.HostSlots.Line.{
  line, join, IsTidy, line-acquire_round, acquire_round-IsTidy, line-release, release-IsTidy,
}

-- What happens at a host between two moments, as the lock orders it.
pub data Turn : Type 0 where
  enter : (host job : String) (event : ℕ) → Turn
  exit : (host job : String) → Turn

take_turn : Turn → Slots → Slots
take_turn (enter host job event) s = (acquire_round host job event s).0
take_turn (exit host job) s = (release host job s).0

pub run : List Turn → Slots → Slots
unfolding take_turn
run [] s = s
run (t ∷ ts) s = run ts (take_turn t s)

-- Every turn is at a host with a name, and no release of the host is by the job.
abbrev IsPatient : String → String → Turn → Type 0
IsPatient host job (enter h j e) = Unit
IsPatient host job (exit h j) = (h ≢ "") × (h ≡ host → j ≢ job)

-- The turn is the release of the host by its owner.
abbrev hands_on : String → Turn → Slots → Bool
hands_on host (enter h j e) s = false
hands_on host (exit h j) s = h == host && is_owner (owner_of s host) j

-- How many of the turns hand the host on.
pub handovers : String → List Turn → Slots → ℕ
unfolding take_turn
handovers host [] s = 0
handovers host (t ∷ ts) s =
    let later = handovers host ts (take_turn t s) in if hands_on host t s then suc later else later

-- Where a job is in the line, if it stood between `ahead` and `behind` before: `count` jobs of
-- `ahead` have left, in their order, and the newcomers stand behind the job.
pub record StandsBehind (host job : String) (ahead behind : List String) (count : ℕ) (s : Slots)
    : Type 0 where
  pub gone : List String
  pub left : List String
  pub newcomers : List String
  pub in_order : ahead ≡ gone ++ left
  pub all_counted : length gone ≡ count
  pub line_is : line s host ≡ left ++ job ∷ (behind ++ newcomers)

join-append :
    (ahead : List String) (job : String) (behind : List String) (j : String)
    → (join j (ahead ++ job ∷ behind) ≡ ahead ++ job ∷ behind)
      ⊎ (join j (ahead ++ job ∷ behind) ≡ ahead ++ job ∷ (behind ++ j ∷ []))
join-append [] job behind j = ground arith
join-append (o ∷ ahead) job behind j = ground (arith, append_assoc ahead (job ∷ behind) (j ∷ []))

module _ (host job : String) where
  -- A newcomer that has joined behind the job is among the newcomers.
  newcomer :
      (ahead behind : List String) (j : String) (count : ℕ) (s : Slots)
      → StandsBehind host job ahead (behind ++ j ∷ []) count s
      → StandsBehind host job ahead behind count s
  newcomer ahead behind j count s b = record {
    gone = b.gone;
    left = b.left;
    newcomers = j ∷ b.newcomers;
    in_order = b.in_order;
    all_counted = b.all_counted;
    line_is =
        b.line_is
        ∙ ap (λ (l : List String). b.left ++ job ∷ l) (append_assoc behind (j ∷ []) b.newcomers);
  }

  departed :
      (o : String) (ahead behind : List String) (count : ℕ) (s : Slots)
      → StandsBehind host job ahead behind count s
      → StandsBehind host job (o ∷ ahead) behind (suc count) s
  departed o ahead behind count s b = record {
    gone = o ∷ b.gone;
    left = b.left;
    newcomers = b.newcomers;
    in_order = ap (λ (l : List String). o ∷ l) b.in_order;
    all_counted = omega (arith, b.all_counted);
    line_is = b.line_is;
  }

  line-head :
      (s : Slots) (o : String) (l : List String)
      → IsTidy s
      → line s host ≡ o ∷ l
      → owner_of s host ≡ some o
  line-head s o l tidy e = ground (arith, tidy host)

  -- A release that does not hand the host on leaves its line as it is.
  line-exit_other :
      (h j : String) (s : Slots)
      → IsTidy s
      → h ≢ ""
      → hands_on host (exit h j) s ≡ false
      → line (release h j s).0 host ≡ line s host
  line-exit_other h j s tidy named no_turn =
      rw (line-release h j s tidy named host) (ground (arith, tidy host, eq_iff h host))

  line-exit_front :
      (h j : String) (s : Slots) (o : String) (l : List String)
      → IsTidy s
      → h ≢ ""
      → hands_on host (exit h j) s ≡ true
      → line s host ≡ o ∷ l
      → (o ≡ j) × (h ≡ host) × (line (release h j s).0 host ≡ l)
  line-exit_front h j s o l tidy named turn here =
      rw (line-release h j s tidy named host)
        (ground (arith, line-head s o l tidy here, eq_iff h host, eq_iff o j))

  -- First come, first served.
  pub fifo :
      (turns : List Turn) (s : Slots) (ahead behind : List String)
      → IsTidy s
      → line s host ≡ ahead ++ job ∷ behind
      → All (IsPatient host job) turns
      → StandsBehind host job ahead behind (handovers host turns s) (run turns s)
  unfolding run handovers
  fifo [] s ahead behind tidy here patient = record {
    gone = [];
    left = ahead;
    newcomers = [];
    in_order = refl;
    all_counted = refl;
    line_is = rw (append-nil behind) here;
  }
  fifo (enter h j e ∷ turns) s ahead behind tidy here patient =
      let t = (acquire_round h j e s).0 in
      let tidy' : IsTidy t = acquire_round-IsTidy h j s tidy e in
      elim (Bool-cases (h == host)) [
        | inl at ↦ elim (join-append ahead job behind j) [
          | inl same ↦
              fifo turns t ahead behind tidy' (ground (arith, line-acquire_round h j s tidy e host))
                patient.1
          | inr grew ↦ newcomer ahead behind j (handovers host turns t) (run turns t) (
              fifo turns t ahead (behind ++ j ∷ []) tidy'
                (ground (arith, line-acquire_round h j s tidy e host)) patient.1)
        ]
        | inr other ↦
            fifo turns t ahead behind tidy' (ground (arith, line-acquire_round h j s tidy e host))
              patient.1
      ]
  fifo (exit h j ∷ turns) s [] behind tidy here patient =
      let t = (release h j s).0 in
      let named : h ≢ "" = patient.0.0 in
      let tidy' : IsTidy t = release-IsTidy h j s tidy named in
      elim (Bool-cases (hands_on host (exit h j) s)) [
        | inl turn ↦
            let (front, at, _) = line-exit_front h j s job behind tidy named turn here in
            absurd (patient.0.1 at (sym front))
        | inr no_turn ↦ rw no_turn (
            fifo turns t [] behind tidy' (line-exit_other h j s tidy named no_turn ∙ here)
              patient.1)
      ]
  fifo (exit h j ∷ turns) s (o ∷ ahead) behind tidy here patient =
      let t = (release h j s).0 in
      let named : h ≢ "" = patient.0.0 in
      let tidy' : IsTidy t = release-IsTidy h j s tidy named in
      elim (Bool-cases (hands_on host (exit h j) s)) [
        | inl turn ↦
            let (_, _, moved) =
              line-exit_front h j s o (ahead ++ job ∷ behind) tidy named turn here in
            rw turn (
              departed o ahead behind (handovers host turns t) (run turns t)
                (fifo turns t ahead behind tidy' moved patient.1))
        | inr no_turn ↦ rw no_turn (
            fifo turns t (o ∷ ahead) behind tidy' (line-exit_other h j s tidy named no_turn ∙ here)
              patient.1)
      ]
