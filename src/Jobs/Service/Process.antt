-- ===== src/Jobs/Service/Process.antt =====
-- How server/app/services/job_service.py processes a job. The parameters of a job have
-- the shape that the submit functions give them: `definition` and its `fields` are dicts. Two things
-- are arguments: the execution of a managed deployment, and the metadata of NIC and disk jobs, which
-- come from the inventory.
use aether_v.Jobs.LineBuffer.{Text}
use aether_v.Jobs.Service.Texts.{codes, strip, lower}
use aether_v.Jobs.Service.{
  Job, running, completed, failed, JobService, no_changes, call, invoke_agent, acquire_slot,
  release_slot, host_of, text_of, fields_of, or_else, append_job_output, store_job, update_job,
}
use aether_v.Jobs.Service.Agent.{
  Libraries, AgentRun, Exit, Session, Outcome, JobResultEnvelope, parse_job_result, is_error,
  or_text, status_name, status_value, execute_new_protocol_operation, zero_exit, nonzero, raised,
  stream_command, handle_stream_chunk, finalize_job_streams,
}
use aether_v.Jobs.Redaction.{is_present}
use aether_v.Prelude.Dict
use aether_v.Prelude.Dict.{Dict, values}
use aether_v.Prelude.Json
use aether_v.Prelude.Json.{
  Json, Fields, null, bool, int, float, text, arr, obj, end, field, set_field, truthy,
}
use aether_v.Prelude.{
  ℕ, String, Bool, false, ◌&&◌, not, Option, none, some, ◌⊎◌, inl, inr, List, [], ◌∷◌, ◌++◌, ◌==◌,
  if◌then◌else◌, eq_string, is_empty, any,
}

abbrev pub one_of : List String → String → Bool
one_of names name = any (λ n. n == name) names

abbrev pub io_intensive : List String
io_intensive = "create_disk" ∷ "update_disk" ∷ "delete_disk" ∷ "initialize_vm" ∷ []

-- _normalise_host
abbrev pub normalise_host : Option Text → Text
normalise_host none = []
normalise_host (some host) = lower (strip host)

abbrev pub field_or_none : Fields → String → Json
field_or_none fields key = elim (Json.get_field fields key) [ none ↦ null | some v ↦ v ]

abbrev pub definition_fields : Job → Fields
definition_fields j =
    fields_of (Json.get_field (fields_of (Json.get_field j.parameters "definition")) "fields")

abbrev vm_metadata : Option String → Fields
vm_metadata none = end
vm_metadata (some vm_name) =
    field "resource_type" (text "VM")
      (field "resource_name" (text vm_name) (field "vm_name" (text vm_name) end))

abbrev pub with_metadata : Job → Fields → Job
with_metadata j end = j
with_metadata j (field k v rest) = record j {
  parameters = set_field j.parameters "_metadata" (obj (field k v rest));
}

-- _enrich_job_metadata
unfoldable pub enrich_job_metadata : (Job → Fields) → Job → Job
enrich_job_metadata device_metadata j =
    let request = fields_of (Json.get_field j.parameters "request") in
    with_metadata j (
      if one_of ("create_vm" ∷ "update_vm" ∷ "delete_vm" ∷ "initialize_vm" ∷ []) j.job_type
      then vm_metadata (
          or_else (text_of (Json.get_field (definition_fields j) "vm_name"))
            (text_of (Json.get_field j.parameters "vm_name")))
      else if j.job_type == "managed_deployment"
      then vm_metadata
          (text_of (Json.get_field (fields_of (Json.get_field request "vm_spec")) "vm_name"))
      else device_metadata j)

-- `is_child_job` and `needs_serialization` of `_process_job`
abbrev pub is_child_job : Job → Bool
is_child_job j = is_present (field_or_none j.parameters "parent_job_id")

abbrev pub needs_serialization : Job → Bool
needs_serialization j =
    one_of io_intensive j.job_type
    && not (is_empty (normalise_host j.target_host))
    && not (is_child_job j)

module _ (lib : Libraries) where
  -- What the validators and extractors of the `_execute_*_job` methods make of a job.
  abbrev pub with_vm_id : String → Fields → Fields ⊎ Text
  with_vm_id what spec =
      if truthy (field_or_none spec "vm_id")
      then inl spec
      else inr (codes what ++ codes " creation requires vm_id")

  abbrev pub delete_spec : Job → Fields
  delete_spec j = field "vm_id" (field_or_none j.parameters "vm_id") (
      field "vm_name" (field_or_none j.parameters "vm_name") (
        field "delete_disks"
          (elim (Json.get_field j.parameters "delete_disks") [ none ↦ bool false | some v ↦ v ])
          end))

  abbrev pub run_operation : Job → String → String → Fields ⊎ Text → AgentRun → JobService → Outcome
  run_operation j operation name spec run s =
      execute_new_protocol_operation lib j operation (codes name) spec run s

  -- The job that is executed is the one in the store, if it is there.
  abbrev pub stored : Option Job → Job → Job
  stored none j = j
  stored (some new) j = new

  abbrev pub noop_parameters : JobResultEnvelope → Fields → Fields
  noop_parameters envelope parameters =
      set_field (set_field parameters "result_data" (obj envelope.data_fields)) "result_status"
        (text (status_value envelope.status))

  abbrev pub keep_noop_result : Job → JobResultEnvelope → JobService → JobService
  keep_noop_result j envelope s =
      let now = stored (Dict.get s.jobs j.job_id) j in
      update_job j.job_id
        (record no_changes { parameters = some (noop_parameters envelope now.parameters) }) s

  abbrev pub noop_result : Job → JobResultEnvelope ⊎ Text → JobService → Outcome
  noop_result j (inr message) s = (s, some (codes "Failed to parse job result: " ++ message))
  noop_result j (inl envelope) s =
      if is_error envelope.status
      then (
        s,
        some (
            codes "Noop-test failed ("
            ++ codes (or_text envelope.code "UNKNOWN")
            ++ codes "): "
            ++ codes (or_text (some envelope.message) "Unknown error")),
      )
      else (
        keep_noop_result j envelope (
            append_job_output j.job_id
              ((codes "Noop-test completed: " ++ codes envelope.message)
                ∷ (codes "Result status: " ++ codes (status_name envelope.status))
                ∷ [])
              s),
        none,
      )

  abbrev pub noop_after : Job → Exit → Session → Outcome
  noop_after j (raised message) n = (n.service, some message)
  noop_after j (nonzero code) n =
      (n.service, some (codes "Noop-test script exited with code " ++ code))
  noop_after j zero_exit n = elim n.result_json_lines [
    | [] ↦ (n.service, some (codes "No JSON result returned from noop-test operation"))
    | result_json ∷ more ↦ noop_result j (parse_job_result lib result_json) n.service
  ]

  unfoldable pub execute_noop_test_job : Job → AgentRun → JobService → Outcome
  unfolding append_job_output update_job parse_job_result handle_stream_chunk finalize_job_streams
  execute_noop_test_job j run s =
      let target_host = host_of j in
      if is_empty target_host
      then (s, some (codes "Noop-test job is missing a target host"))
      else if not run.prepared
      then (s, some (codes "Failed to prepare host " ++ target_host ++ codes " for noop-test"))
      else noop_after j run.exit (
          stream_command j.job_id run.chunks (
            call
              (invoke_agent target_host "noop-test"
                (fields_of (Json.get_field j.parameters "resource_spec")) j.job_id)
              s))

  module _ (execute_managed_deployment_job : Job → JobService → Outcome) where
    -- The chain of `elif` in `_process_job`, with the methods that it calls.
    unfoldable pub execute_job : Job → AgentRun → JobService → Outcome
    unfolding execute_new_protocol_operation execute_noop_test_job
    execute_job j run s =
        let fields = definition_fields j in
        if j.job_type == "delete_vm"
        then run_operation j "vm.delete" "VM deletion" (inl (delete_spec j)) run s
        else if j.job_type == "create_vm"
        then run_operation j "vm.create" "VM creation" (inl fields) run s
        else if j.job_type == "create_disk"
        then run_operation j "disk.create" "Disk creation" (with_vm_id "Disk" fields) run s
        else if j.job_type == "create_nic"
        then run_operation j "nic.create" "NIC creation" (with_vm_id "NIC" fields) run s
        else if j.job_type == "update_vm"
        then run_operation j "vm.update" "VM update" (inl fields) run s
        else if j.job_type == "update_disk"
        then run_operation j "disk.update" "Disk update" (inl fields) run s
        else if j.job_type == "update_nic"
        then run_operation j "nic.update" "NIC update" (inl fields) run s
        else if j.job_type == "delete_disk"
        then run_operation j "disk.delete" "Disk deletion" (inl fields) run s
        else if j.job_type == "delete_nic"
        then run_operation j "nic.delete" "NIC deletion" (inl fields) run s
        else if j.job_type == "managed_deployment"
        then execute_managed_deployment_job j s
        else if j.job_type == "initialize_vm"
        then run_operation j "vm.initialize" "VM initialization" (inl fields) run s
        else if j.job_type == "noop_test"
        then execute_noop_test_job j run s
        else (s, some (codes "Job type '" ++ codes j.job_type ++ codes "' is not supported"))

    -- The `except` clause and what follows the inner `try`.
    abbrev pub finish : String → ℕ → Outcome → JobService
    finish job_id now (s, none) =
        update_job job_id (record no_changes { status = some completed; completed_at = some now }) s
    finish job_id now (s, some message) =
        update_job job_id
          (record no_changes {
            status = some failed;
            completed_at = some now;
            error = some message;
          })
          (append_job_output job_id ((codes "ERROR: " ++ message) ∷ []) s)

    abbrev pub run_job : Job → AgentRun → ℕ → ℕ → JobService → JobService
    run_job j run started_at completed_at s =
        let begun =
          update_job j.job_id
            (record no_changes { status = some running; started_at = some started_at }) s in
        finish j.job_id completed_at
          (execute_job (stored (Dict.get begun.jobs j.job_id) j) run begun)

    abbrev pub process_found :
        Option Job → (Job → Fields) → AgentRun → ℕ → ℕ → JobService → JobService
    process_found none device_metadata run started_at completed_at s = s
    process_found (some found) device_metadata run started_at completed_at s =
        let j = enrich_job_metadata device_metadata found in
        let host_key = normalise_host j.target_host in
        let enriched = store_job j s in
        if needs_serialization j
        then call (release_slot host_key j.job_id)
            (run_job j run started_at completed_at (call (acquire_slot host_key j.job_id) enriched))
        else run_job j run started_at completed_at enriched

    unfoldable pub process_job :
        String → (Job → Fields) → AgentRun → ℕ → ℕ → JobService → JobService
    unfolding enrich_job_metadata execute_job update_job append_job_output strip
    process_job job_id device_metadata run started_at completed_at s =
        process_found (Dict.get s.jobs job_id) device_metadata run started_at completed_at s
