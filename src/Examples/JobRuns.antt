-- ===== src/Examples/JobRuns.antt =====
-- The job service of server/app/services/job_service.py on one job.
use aether_v.Jobs.Chunks.{stream_lines}
use aether_v.Jobs.LineBuffer.{Text}
use aether_v.Jobs.Redaction.{
  redact_sensitive_parameters, CleanFields, AlikeFields, secret, no_fields, redaction_hides,
  redaction_tells_nothing,
}
use aether_v.Jobs.Service.{Job, JobService}
use aether_v.Jobs.Service.Agent.{
  Libraries, AgentRun, stdout, stderr, zero_exit, Stream, stream_command,
}
use aether_v.Jobs.Service.Children.{update_child_job_summary, build_child_job_summary}
use aether_v.Jobs.Service.Families.{child_of, AreDistinct, update_child_lem}
use aether_v.Jobs.Service.Capture.{chunks_of, result_lines_lem}
use aether_v.Jobs.Service.Lifecycle.{Done, slots_of, process_job-Done}
use aether_v.Jobs.Service.Process.{process_job, enrich_job_metadata}
use aether_v.Jobs.Service.Intake.{submit_resource_job, new_job}
use aether_v.Jobs.Service.Submitting.{Answers, resource_job, submit_resource_lem}
use aether_v.Jobs.Service.Texts.{codes, strip, starts_with_brace}
use aether_v.Prelude.Dict
use aether_v.Prelude.Dict.{values}
use aether_v.Prelude.Json.{Fields, text, obj, end, field}
use aether_v.Prelude.{
  String, ◌≡◌, refl, true, some, none, inl, List, [], ◌∷◌, filter, map, flatten, eq_string,
  if◌then◌else◌, ◌==◌, false,
}

abbrev guest : String → Fields
guest pw = field "vm" (obj (field "guest_la_pw" (text pw) (field "vm_name" (text "web") end))) end

redaction_hides_example :
    let view = redact_sensitive_parameters (some (guest "secret")) in
    CleanFields view × AlikeFields (guest "secret") view
redaction_hides_example = redaction_hides (guest "secret")

redaction_tells_nothing_example :
    redact_sensitive_parameters (some (field "guest_la_pw" (text "secret") end))
    ≡ redact_sensitive_parameters (some (field "guest_la_pw" (text "other") end))
redaction_tells_nothing_example =
    redaction_tells_nothing (field "guest_la_pw" (text "secret") end)
      (field "guest_la_pw" (text "other") end)
      (secret "guest_la_pw" (text "secret") (text "other") end end refl refl refl no_fields)

abbrev pub disk_job : Job
disk_job =
    new_job "j1" "create_disk" 5 (codes "host1")
      (field "definition" (obj (field "fields" (obj (field "vm_id" (text "v1") end)) end)) end)

abbrev pub service : JobService
service = record { jobs = ("j1", disk_job) ∷ []; started = true; queue = "j1" ∷ []; calls = [] }

-- A library for which every text is the envelope of a success.
abbrev pub libraries : Libraries
libraries = record {
  loads = λ t. inl (obj (field "status" (text "success") (field "message" (text "made") end)));
  validation_error = λ fields. [];
  dumps = λ fields. [];
}

abbrev chunks : List (Stream × Text)
chunks =
    (stdout, codes "working\n  {\"sta")
    ∷ (stderr, codes "{ warning }\n")
    ∷ (stdout, codes "tus\": 1}\n")
    ∷ []

abbrev pub agent_run : AgentRun
agent_run = record { prepared = true; chunks = chunks; exit = zero_exit }

pub service_job : Dict.get service.jobs disk_job.job_id ≡ some disk_job
unfolding Dict.get
service_job = refl

process_job-Done_example :
    Done "j1" disk_job 6 7
      (slots_of (enrich_job_metadata (λ j. end) disk_job))
      service
      (process_job libraries (λ j s. (s, none)) "j1" (λ j. end) agent_run 6 7 service)
process_job-Done_example =
    process_job-Done libraries (λ j s. (s, none)) agent_run 6 7 (λ j. end) service disk_job
      service_job refl

result_lines_example :
    (stream_command "j1" chunks service).result_json_lines
    ≡ filter starts_with_brace (map strip (stream_lines (flatten (chunks_of stdout chunks))))
result_lines_example = result_lines_lem "j1" chunks service

submit_resource_example :
    Answers
      (submit_resource_job "j2" 5 "create_disk" "disk"
        (guest "secret")
        (codes "host1")
        none
        service)
      service
      (codes "host1")
      (resource_job "j2" 5 "create_disk" "disk" (guest "secret") (codes "host1") none)
submit_resource_example =
    submit_resource_lem "j2" 5 "create_disk" "disk" (guest "secret") (codes "host1") none service

abbrev parent : Job
parent = new_job "p1" "managed_deployment" 4 (codes "host1") end

abbrev family : JobService
family = record {
  jobs = ("p1", parent) ∷ ("j1", disk_job) ∷ [];
  started = true;
  queue = [];
  calls = [];
}

family_parent : Dict.get family.jobs parent.job_id ≡ some parent
unfolding Dict.get
family_parent = refl

family_child : Dict.get family.jobs disk_job.job_id ≡ some disk_job
unfolding Dict.get
family_child = refl

update_child_example :
    let t = update_child_job_summary parent.job_id disk_job.job_id family in
    (now : Job) × (Dict.get t.jobs parent.job_id ≡ some now)
    × (now ≡ record parent { child_jobs = now.child_jobs })
    × ((id : String)
        → child_of now.child_jobs id ≡ (
            if disk_job.job_id == id
            then some (build_child_job_summary disk_job)
            else child_of parent.child_jobs id))
    × (AreDistinct parent.child_jobs → AreDistinct now.child_jobs)
    × ((k : String) → (parent.job_id == k) ≡ false → Dict.get t.jobs k ≡ Dict.get family.jobs k)
update_child_example = update_child_lem family parent disk_job family_parent family_child
