-- ===== src/Jobs/Service/Commands.antt =====
-- The execution of a job in server/app/services/job_service.py is made of steps that leave its state.
use aether_v.Jobs.LineBuffer.{Text, push, finalize}
use aether_v.Jobs.Service.{
  Job, JobService, no_changes, call, fields_of, invoke_agent, changed, append_job_output, host_of,
  has_parent,
}
use aether_v.Jobs.Service.Agent.{
  Stream, Session, deliver, formatted, buffer_of, handle_stream_chunk, finalize_each,
  finalize_job_streams, handle_chunks, stream_command, Libraries, JobResultEnvelope,
  parse_job_result, Exit, zero_exit, nonzero, raised, AgentRun, Outcome, keep_result_data, is_error,
  succeed, conclude, after_command, operate, execute_new_protocol_operation, status_name,
  status_value, eq_stream,
}
use aether_v.Jobs.Service.Frames.{call-CallsOnly}
use aether_v.Jobs.Service.Process.{
  execute_noop_test_job, noop_after, noop_result, noop_parameters, keep_noop_result, stored,
}
use aether_v.Jobs.Service.Steps.{
  Step, Step-trans, Step-refl, calls-Step, append-Step, keep-Step, update_job_lem, parameters-Quiet,
  set_field-has_parent,
}
use aether_v.Jobs.Service.Texts.{codes}
use aether_v.Prelude.Dict
use aether_v.Prelude.Dict.{Dict}
use aether_v.Prelude.Json
use aether_v.Prelude.Json.{Json, Fields, obj, set_field, truthy, text}
use aether_v.Prelude.{
  ◌≡◌, ◌∙◌, String, refl, Bool, true, false, not, some, List, [], ◌∷◌, ◌++◌, if◌then◌else◌,
  eq_string, ◌⊎◌, inl, inr, Bool-cases, is_empty,
}

deliver-Step :
    (id : String) (stream : Stream) (lines : List Text) (n : Session)
    → Step id n.service (deliver id stream lines n).service
deliver-Step id stream lines n = elim (Bool-cases (is_empty lines)) [
  | inl e ↦ rw e (Step-refl id n.service)
  | inr e ↦ rw e (append-Step id (formatted stream lines) n.service)
]

if-Step :
    (id : String) (b : Bool) (s t u : JobService)
    → Step id s t
    → Step id s u
    → Step id s (if b then t else u)
if-Step id true s t u p q = p
if-Step id false s t u p q = q

session-Step :
    (id : String) (b : Bool) (s : JobService) (n m : Session)
    → Step id s n.service
    → Step id s m.service
    → Step id s (if b then n else m).service
session-Step id true s n m p q = p
session-Step id false s n m p q = q

pub outcome-Step :
    (id : String) (b : Bool) (s : JobService) (x y : Outcome)
    → Step id s x.0
    → Step id s y.0
    → Step id s (if b then x else y).0
outcome-Step id true s x y p q = p
outcome-Step id false s x y p q = q

chunk-Step :
    (id : String) (stream : Stream) (payload : Text) (n : Session)
    → Step id n.service (handle_stream_chunk id stream payload n).service
unfolding handle_stream_chunk
chunk-Step id stream payload n =
    let (buffer, lines) = push (buffer_of (Dict.get n.buffers stream)) payload in
    let pushed = record n { buffers = Dict.put n.buffers stream buffer } in
    session-Step id (is_empty payload) n.service n (deliver id stream lines pushed)
      (Step-refl id n.service) (deliver-Step id stream lines pushed)

finalize-Step :
    (id : String) (pending : Dict Stream Text) (n : Session)
    → Step id n.service (finalize_each id pending n).service
finalize-Step id [] n = Step-refl id n.service
finalize-Step id ((stream, buffer) ∷ pending) n =
    let next = deliver id stream (finalize buffer).1 n in
    Step-trans id n.service next.service (finalize_each id pending next).service
      (deliver-Step id stream (finalize buffer).1 n) (finalize-Step id pending next)

chunks-Step :
    (id : String) (chunks : List (Stream × Text)) (n : Session)
    → Step id n.service (handle_chunks id chunks n).service
chunks-Step id [] n = Step-refl id n.service
chunks-Step id ((stream, payload) ∷ chunks) n =
    let next = handle_stream_chunk id stream payload n in
    Step-trans id n.service next.service (handle_chunks id chunks next).service
      (chunk-Step id stream payload n) (chunks-Step id chunks next)

stream-Step :
    (id : String) (chunks : List (Stream × Text)) (s : JobService)
    → Step id s (stream_command id chunks s).service
unfolding finalize_job_streams
stream-Step id chunks s =
    let start : Session = record { buffers = []; result_json_lines = []; service = s } in
    let fed = handle_chunks id chunks start in
    Step-trans id s fed.service (finalize_job_streams id fed).service (chunks-Step id chunks start)
      (finalize-Step id fed.buffers (record fed { buffers = [] }))

module _ (lib : Libraries) (j : Job) (operation : String) (operation_name : Text) where
  succeed-Step :
      (envelope : JobResultEnvelope) (s : JobService)
      → Step j.job_id s (succeed lib j operation operation_name envelope s)
  succeed-Step envelope s =
      let id = j.job_id in
      let told =
        append_job_output id
          ((operation_name ++ codes " completed: " ++ codes envelope.message)
            ∷ (codes "Result status: " ++ codes (status_name envelope.status))
            ∷ [])
          s in
      let kept = keep_result_data (Dict.get told.jobs id) envelope.data_fields told in
      let first =
        Step-trans id s told kept
          (append-Step id
            ((operation_name ++ codes " completed: " ++ codes envelope.message)
              ∷ (codes "Result status: " ++ codes (status_name envelope.status))
              ∷ [])
            s)
          (keep-Step id envelope.data_fields told) in
      elim (Bool-cases (truthy (obj envelope.data_fields))) [
        | inl e ↦ rw e (
            Step-trans id s kept (append_job_output id (lib.dumps envelope.data_fields ∷ []) kept)
              first (append-Step id (lib.dumps envelope.data_fields ∷ []) kept))
        | inr e ↦ rw e first
      ]

  conclude-Step :
      (r : JobResultEnvelope ⊎ Text) (s : JobService)
      → Step j.job_id s (conclude lib j operation operation_name r s).0
  conclude-Step (inr message) s = Step-refl j.job_id s
  conclude-Step (inl envelope) s = elim (Bool-cases (is_error envelope.status)) [
    | inl e ↦ rw e (Step-refl j.job_id s)
    | inr e ↦ rw e (succeed-Step envelope s)
  ]

  after-Step :
      (exit : Exit) (n : Session)
      → Step j.job_id n.service (after_command lib j operation operation_name exit n).0
  after-Step (raised message) n = Step-refl j.job_id n.service
  after-Step (nonzero code) n = Step-refl j.job_id n.service
  after-Step zero_exit n = captured n.result_json_lines n
    where
      captured :
          (lines : List Text) (n : Session)
          → Step j.job_id n.service
              (after_command lib j operation operation_name zero_exit
                (record n { result_json_lines = lines })).0
      captured [] n = Step-refl j.job_id n.service
      captured (line ∷ lines) n = conclude-Step (parse_job_result lib line) n.service

  operate-Step :
      (spec : Fields ⊎ Text) (run : AgentRun) (s : JobService)
      → Step j.job_id s (operate lib j operation operation_name spec run s).0
  operate-Step (inr message) run s = Step-refl j.job_id s
  operate-Step (inl fields) run s =
      let called = call (invoke_agent (host_of j) operation fields j.job_id) s in
      let streamed = stream_command j.job_id run.chunks called in
      Step-trans j.job_id s called
        (after_command lib j operation operation_name run.exit streamed).0
        (calls-Step j.job_id s called
          (call-CallsOnly (invoke_agent (host_of j) operation fields j.job_id) s refl tt))
        (Step-trans j.job_id called streamed.service
          (after_command lib j operation operation_name run.exit streamed).0
          (stream-Step j.job_id run.chunks called) (after-Step run.exit streamed))

  pub operation-Step :
      (spec : Fields ⊎ Text) (run : AgentRun) (s : JobService)
      → Step j.job_id s (execute_new_protocol_operation lib j operation operation_name spec run s).0
  unfolding execute_new_protocol_operation
  operation-Step spec run s =
      let host = host_of j in
      let lost : Outcome = (s, some (operation_name ++ codes " job is missing a target host")) in
      let unprepared : Outcome =
        (s, some (codes "Failed to prepare host " ++ host ++ codes " for " ++ operation_name)) in
      let operated : Outcome = operate lib j operation operation_name spec run s in
      outcome-Step j.job_id (is_empty host) s lost
        (if not run.prepared then unprepared else operated) (Step-refl j.job_id s)
        (outcome-Step j.job_id (not run.prepared) s unprepared operated (Step-refl j.job_id s)
          (operate-Step spec run s))

noop_parameters-has_parent :
    (lib : Libraries) (envelope : JobResultEnvelope) (fields : Fields)
    → has_parent (noop_parameters lib envelope fields) ≡ has_parent fields
noop_parameters-has_parent lib envelope fields =
    set_field-has_parent (set_field fields "result_data" (obj envelope.data_fields)) "result_status"
      (text (status_value envelope.status)) refl
    ∙ set_field-has_parent fields "result_data" (obj envelope.data_fields) refl

module _ (lib : Libraries) (j : Job) where
  keep_noop-Step :
      (envelope : JobResultEnvelope) (s : JobService)
      → Step j.job_id s (keep_noop_result lib j envelope s)
  keep_noop-Step envelope s = λ k h.
      let parameters = noop_parameters lib envelope k.parameters in
      let c = record no_changes { parameters = some parameters } in
      let (there, beside) = update_job_lem j.job_id k c s h in
      rw (h.0, stored)
        (record {
          now = changed c k;
          there = there;
          quiet =
              parameters-Quiet k parameters (noop_parameters-has_parent lib envelope k.parameters);
          beside = beside;
        })

  noop_result-Step :
      (r : JobResultEnvelope ⊎ Text) (s : JobService) → Step j.job_id s (noop_result lib j r s).0
  noop_result-Step (inr message) s = Step-refl j.job_id s
  noop_result-Step (inl envelope) s = elim (Bool-cases (is_error envelope.status)) [
    | inl e ↦ rw e (Step-refl j.job_id s)
    | inr e ↦ rw e (
        let id = j.job_id in
        let messages : List Text =
          (codes "Noop-test completed: " ++ codes envelope.message)
          ∷ (codes "Result status: " ++ codes (status_name envelope.status))
          ∷ [] in
        let told = append_job_output id messages s in
        Step-trans id s told (keep_noop_result lib j envelope told) (append-Step id messages s)
          (keep_noop-Step envelope told))
  ]

  noop_after-Step :
      (exit : Exit) (n : Session) → Step j.job_id n.service (noop_after lib j exit n).0
  noop_after-Step (raised message) n = Step-refl j.job_id n.service
  noop_after-Step (nonzero code) n = Step-refl j.job_id n.service
  noop_after-Step zero_exit n = captured n.result_json_lines n
    where
      captured :
          (lines : List Text) (n : Session)
          → Step j.job_id n.service
              (noop_after lib j zero_exit (record n { result_json_lines = lines })).0
      captured [] n = Step-refl j.job_id n.service
      captured (line ∷ lines) n = noop_result-Step (parse_job_result lib line) n.service

  pub noop-Step :
      (run : AgentRun) (s : JobService) → Step j.job_id s (execute_noop_test_job lib j run s).0
  unfolding execute_noop_test_job
  noop-Step run s =
      let host = host_of j in
      let sent =
        invoke_agent host "noop-test" (fields_of (Json.get_field j.parameters "resource_spec"))
          j.job_id in
      let called = call sent s in
      let streamed = stream_command j.job_id run.chunks called in
      let lost : Outcome = (s, some (codes "Noop-test job is missing a target host")) in
      let unprepared : Outcome =
        (s, some (codes "Failed to prepare host " ++ host ++ codes " for noop-test")) in
      let ran : Outcome = noop_after lib j run.exit streamed in
      outcome-Step j.job_id (is_empty host) s lost (if not run.prepared then unprepared else ran)
        (Step-refl j.job_id s)
        (outcome-Step j.job_id (not run.prepared) s unprepared ran (Step-refl j.job_id s) (
          Step-trans j.job_id s called ran.0
            (calls-Step j.job_id s called (call-CallsOnly sent s refl tt))
            (Step-trans j.job_id called streamed.service ran.0
              (stream-Step j.job_id run.chunks called) (noop_after-Step run.exit streamed))))
