-- ===== src/Examples/DeploymentRuns.antt =====
-- Runs of `_execute_managed_deployment_job` of server/app/services/job_service.py.
use aether_v.Jobs.LineBuffer.{Text}
use aether_v.Jobs.Service.Texts.{codes, strip, strip_string, output_lines}
use aether_v.Jobs.Service.{
  Job, JobStatus, running, completed, failed, JobService, store_job, append_job_output, update_job,
  prepare_job_response, after_job_update, has_parent, broadcast_job_status, extract_vm_name,
}
use aether_v.Jobs.Service.Intake.{submit_resource_job, enqueue}
use aether_v.Jobs.Service.Children.{
  poll_child_job, update_child_job_summary, build_child_job_summary, merge_child_job_list,
  job_type_label,
}
use aether_v.Jobs.Redaction.{redact_sensitive_parameters}
use aether_v.Jobs.Service.Deployment.{
  Request, Surroundings, Turn, Session, Result, ok, raised, unfinished,
  validate_job_against_host_config, extract_vm_id_from_output, detect_os_family_from_image_name,
}
use aether_v.Jobs.Service.Deployment.ChildJobs.{
  definition_of, parent_host, run_child, queue_child_job, wait_for_child_job_completion,
}
use aether_v.Jobs.Service.Deployment.Stages.{
  deploy, create_vm, create_disk, create_nic, initialize_guest,
}
use aether_v.Jobs.Service.Deployment.Due.{due}
use aether_v.Jobs.Service.Deployment.Ran.{labels}
use aether_v.Jobs.Service.Deployment.Order.{InOrder, deploy-InOrder}
use aether_v.Jobs.Service.Deployment.Errors.{Ends, run_child-Ends}
use aether_v.Prelude.Dict
use aether_v.Prelude.Json
use aether_v.Prelude.Json.{Json, Fields, text, obj, field, end, set_field, get_field}
use aether_v.Prelude.{String, ◌≡◌, refl, true, Option, none, some, inr, List, [], ◌∷◌, eq_string}

abbrev deployment : Job
deployment = record {
  job_id = "deploy";
  job_type = "managed_deployment";
  status = running;
  created_at = 0;
  started_at = some 1;
  completed_at = none;
  target_host = some (codes "hv1");
  parameters = end;
  output = [];
  error = none;
  child_jobs = [];
}

abbrev session : Session
session = record {
  service = record { jobs = ("deploy", deployment) ∷ []; started = true; queue = []; calls = [] };
  log = [];
}

-- Another worker brings a child job to an end, with a result.
abbrev settle : JobStatus → Option Job → JobService → JobService
settle st none s = s
settle st (some j) s =
    store_job
      (record j {
        status = st;
        parameters = set_field j.parameters "result_data" (obj (field "vm_id" (text " vm-7 ") end));
      })
      s

abbrev turn : String → JobStatus → Turn
turn id st = record {
  new_id = id;
  now = 2;
  rounds = (λ s. s) ∷ (λ s. settle st (Dict.get s.jobs id) s) ∷ [];
}

abbrev surroundings : JobStatus → Surroundings
surroundings disk = record {
  read_request = λ fields. inr [];
  prepared = true;
  host_config = some (record { networks = none; storage_classes = none });
  str_of = λ v. "";
  vm_turn = turn "c1" completed;
  disk_turn = turn "c2" disk;
  nic_turn = turn "c3" completed;
  init_turn = turn "c4" completed;
}

abbrev request : Request
request = record {
  vm_name = "web";
  vm_storage_class = none;
  vm_dump = end;
  disk_spec = some (record { image_name = none; storage_class = none; dump = end });
  nic_spec = none;
  guest_config = none;
  requested_host = codes " hv1 ";
}

deploy-InOrder_example :
    InOrder
      (surroundings completed)
      deployment
      (due request)
      []
      (deploy (surroundings completed) deployment request session)
deploy-InOrder_example = deploy-InOrder (surroundings completed) deployment request session

run_child-Ends_example :
    Ends "deploy"
      (codes "Disk creation failed: ")
      (submit_resource_job "c2" 2 "create_disk" "disk.create"
        (definition_of (surroundings failed) deployment "disk.create" end)
        (parent_host (surroundings failed) deployment deployment.target_host)
        (some "deploy")
        session.service)
      (run_child
        (surroundings failed)
        deployment
        "create_disk"
        "disk.create"
        end
        (turn "c2" failed)
        (codes "Disk creation failed: ")
        session)
run_child-Ends_example =
    run_child-Ends (surroundings failed) deployment "create_disk" "disk.create" end
      (turn "c2" failed) (codes "Disk creation failed: ") session

-- What a run comes to: the error if it has one, and the types of the child jobs that
-- were queued, with `none` for the return of one.
abbrev summary : Result (Unit {0}) → Option Text × List (Option String)
summary (ok a t) = (none, labels t.log)
summary (raised e t) = (some e, labels t.log)
summary (unfinished t) = (some [], labels t.log)

whole_deployment :
    summary (deploy (surroundings completed) deployment request session)
    ≡ (none, some "create_vm" ∷ none ∷ some "create_disk" ∷ none ∷ [])
unfolding deploy create_vm create_disk create_nic initialize_guest run_child queue_child_job
    wait_for_child_job_completion validate_job_against_host_config extract_vm_id_from_output
    detect_os_family_from_image_name strip strip_string submit_resource_job enqueue poll_child_job
    update_child_job_summary build_child_job_summary merge_child_job_list job_type_label update_job
    append_job_output prepare_job_response has_parent after_job_update broadcast_job_status
    extract_vm_name redact_sensitive_parameters output_lines Dict.get Dict.put Json.get_field
    Json.set_field
whole_deployment = refl

broken_disk : summary (deploy (surroundings failed) deployment request session) ≡ (
  some (codes "Disk creation failed: unknown error"),
  some "create_vm" ∷ none ∷ some "create_disk" ∷ none ∷ [],
)
unfolding deploy create_vm create_disk create_nic initialize_guest run_child queue_child_job
    wait_for_child_job_completion validate_job_against_host_config extract_vm_id_from_output
    detect_os_family_from_image_name strip strip_string submit_resource_job enqueue poll_child_job
    update_child_job_summary build_child_job_summary merge_child_job_list job_type_label update_job
    append_job_output prepare_job_response has_parent after_job_update broadcast_job_status
    extract_vm_name redact_sensitive_parameters output_lines Dict.get Dict.put Json.get_field
    Json.set_field
broken_disk = refl
