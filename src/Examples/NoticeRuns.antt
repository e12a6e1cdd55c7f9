-- ===== src/Examples/NoticeRuns.antt =====
-- The notification of a job of server/app/services/job_service.py, once it is processed.
use Prim.Native.Char.{char}
use aether_v.Examples.JobRuns.{disk_job, service, service_job, libraries, agent_run}
use aether_v.Examples.NotificationRuns.{empty_service}
use aether_v.Jobs.LineBuffer.{Text}
use aether_v.Jobs.Service.{Job, prepare_job_response, has_parent}
use aether_v.Jobs.Service.Notices.{action, deliver_calls}
use aether_v.Jobs.Service.Noticed.{Unlike, IsReady, Tells}
use aether_v.Jobs.Service.Notified.{process_job-Tells}
use aether_v.Jobs.Service.Outcomes.{IsOver}
use aether_v.Jobs.Service.Process.{process_job}
use aether_v.Jobs.Service.Texts.{codes}
use aether_v.Prelude.Dict
use aether_v.Prelude.Json
use aether_v.Prelude.Json.{end}
use aether_v.Prelude.{
  ℕ, zero, suc, String, ◌≡◌, refl, ap, false, some, none, ◌==◌, eq_string, eq_iff, arith, length,
  inl, inr, Bool-cases,
}

-- Ids of another length each.
abbrev ids : ℕ → String
ids zero = String.[]
ids (suc n) = String.◌∷◌ (char 120 tt) (ids n)

length-ids : (n : ℕ) → length (codes (ids n)) ≡ n
length-ids zero = refl
length-ids (suc n) = ap suc (length-ids n)

ids-Unlike : Unlike ids
ids-Unlike = λ a b h. elim (Bool-cases (ids a == ids b)) [
  | inr differs ↦ differs
  | inl same ↦
      let e : ids a ≡ ids b = ground (arith, eq_iff (ids a) (ids b), same) in
      absurd (omega (arith, ap (λ i. length (codes i)) e, length-ids a, length-ids b))
]

written : Text → String
written t = "text"

empty-IsReady : IsReady ids 0 empty_service
unfolding Dict.get
empty-IsReady = record { runs = refl; table = tt; unused = λ m le. refl }

not_a_child : has_parent disk_job.parameters ≡ false
unfolding has_parent Json.get_field
not_a_child = refl

create_is_named : action disk_job ≡ codes "Create"
create_is_named = refl

process_job-Tells_example :
    let t = process_job libraries (λ j s. (s, none)) "j1" (λ j. end) agent_run 6 7 service in
    (now : Job) × (Dict.get t.jobs "j1" ≡ some now)
    × IsOver disk_job now
    × Tells written "j1"
        (some (prepare_job_response now))
        (deliver_calls written ids (λ i. i) 0 t.calls empty_service).notifications
process_job-Tells_example =
    process_job-Tells libraries (λ j s. (s, none)) agent_run 6 7 written ids (λ i. i) ids-Unlike
      (λ j. end) service disk_job empty_service service_job refl not_a_child empty-IsReady refl
