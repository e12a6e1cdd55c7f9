-- ===== src/Jobs/Service/Notified.antt =====
-- What the users see of a job that server/app/services/job_service.py has processed.
use aether_v.Jobs.LineBuffer.{Text}
use aether_v.Jobs.Service.{
  Job, JobService, acquire_slot, release_slot, call, store_job, has_parent, prepare_job_response,
}
use aether_v.Jobs.Service.Agent.{Libraries, AgentRun, Outcome}
use aether_v.Jobs.Service.Heard.{heard_of, heard_of-call}
use aether_v.Jobs.Service.Lifecycle.{enrich-Quiet, since-IsOver}
use aether_v.Jobs.Service.Notices.{deliver_calls}
use aether_v.Jobs.Service.Noticed.{IsReady, Tells, Unlike, deliver_calls-Tells}
use aether_v.Jobs.Service.Outcomes.{IsOver, run_job-Processed}
use aether_v.Jobs.Service.Process.{
  enrich_job_metadata, run_job, needs_serialization, normalise_host, process_job,
}
use aether_v.Jobs.Service.Steps.{Quiet, get-store_job}
use aether_v.Notifications.{NotificationService}
use aether_v.Notifications.Keyed.{is_job_of}
use aether_v.Notifications.Valid.{count}
use aether_v.Prelude.Dict
use aether_v.Prelude.Json.{Fields}
use aether_v.Prelude.{
  ℕ, String, ◌≡◌, refl, ◌∙◌, subst, false, some, none, ◌==◌, eq_string, inl, inr, Bool-cases,
}

-- A job is over, and the notification service was last told so.
record IsTold (id : String) (old : Job) (t : JobService) : Type 0 where
  now : Job
  there : Dict.get t.jobs id ≡ some now
  over : IsOver old now
  heard : heard_of id t ≡ some (prepare_job_response now)

module _ (lib : Libraries) (managed : Job → JobService → Outcome) (run : AgentRun) (a b : ℕ) where
  run_job-IsTold :
      (j e : Job) (s : JobService)
      → Dict.get s.jobs e.job_id ≡ some e
      → Quiet j e
      → (j.job_type == "managed_deployment") ≡ false
      → has_parent j.parameters ≡ false
      → IsTold e.job_id j (run_job lib managed e run a b s)
  run_job-IsTold j e s here q command own =
      let p = run_job-Processed lib managed e run a b s here (rw q.same_type command) in
      record {
        now = p.now;
        there = p.there;
        over = since-IsOver j e p.now q.same_error p.over;
        heard = p.heard (p.same_family ∙ q.same_family ∙ own);
      }

  process_job-IsTold :
      (device_metadata : Job → Fields) (s : JobService) (j : Job)
      → Dict.get s.jobs j.job_id ≡ some j
      → (j.job_type == "managed_deployment") ≡ false
      → has_parent j.parameters ≡ false
      → IsTold j.job_id j (process_job lib managed j.job_id device_metadata run a b s)
  unfolding process_job
  process_job-IsTold device_metadata s j here command own =
      let e = enrich_job_metadata device_metadata j in
      let q = enrich-Quiet device_metadata j in
      let host = normalise_host e.target_host in
      let stored = store_job e s in
      let there = get-store_job e.job_id e s refl in
      rw here (elim (Bool-cases (needs_serialization e)) [
        | inl slot ↦ rw slot (
            let holding = call (acquire_slot host e.job_id) stored in
            let told = run_job-IsTold j e holding there q command own in
            let ran = run_job lib managed e run a b holding in
            subst (λ id. IsTold id j (call (release_slot host e.job_id) ran)) q.same_id
              (record {
                now = told.now;
                there = told.there;
                over = told.over;
                heard = heard_of-call e.job_id (release_slot host e.job_id) ran ∙ told.heard;
              }))
        | inr free ↦ rw free (
            subst (λ id. IsTold id j (run_job lib managed e run a b stored)) q.same_id
              (run_job-IsTold j e stored there q command own))
      ])

  -- A worker has processed a job that is neither a managed deployment nor a child job, and the calls
  -- that the job service has made are delivered in their order to a running notification service that
  -- had no notification of the job: then the job is completed, or failed with an error, and has
  -- just one notification, unread, with the title, the message and the level of this end.
  pub process_job-Tells :
      (written : Text → String) (ids : ℕ → String) (times : ℕ → ℕ) (unlike : Unlike ids)
      (device_metadata : Job → Fields) (s : JobService) (j : Job) (n : NotificationService)
      → Dict.get s.jobs j.job_id ≡ some j
      → (j.job_type == "managed_deployment") ≡ false
      → has_parent j.parameters ≡ false
      → IsReady ids 0 n
      → count (is_job_of j.job_id) n.notifications ≡ 0
      → let t = process_job lib managed j.job_id device_metadata run a b s in
        (now : Job) × (Dict.get t.jobs j.job_id ≡ some now)
        × IsOver j now
        × Tells written j.job_id
            (some (prepare_job_response now))
            (deliver_calls written ids times 0 t.calls n).notifications
  process_job-Tells written ids times unlike device_metadata s j n here command own ready absent =
      let t = process_job lib managed j.job_id device_metadata run a b s in
      let told = process_job-IsTold device_metadata s j here command own in
      let tells =
        deliver_calls-Tells written ids times unlike t.calls 0 n j.job_id none ready absent in
      (
        told.now,
        told.there,
        told.over,
        subst
            (λ o.
              Tells written j.job_id o (deliver_calls written ids times 0 t.calls n).notifications)
            told.heard tells,
      )
