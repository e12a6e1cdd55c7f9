-- ===== src/Jobs/Service/Agent.antt =====
-- A job's command on a host, in server/app/services/job_service.py: the output of the agent, its
-- result (server/app/core/job_envelope.py), and `_execute_new_protocol_operation`. What the host does
-- is an argument, and so is what the `json` module and Pydantic make of a text or a value.
use aether_v.Jobs.LineBuffer.{Text, push, finalize}
use aether_v.Jobs.Service.Texts.{codes, strip, starts_with_brace}
use aether_v.Jobs.Service.{
  Job, JobService, call, invoke_agent, host_of, append_job_output, store_job,
}
use aether_v.Prelude.Dict
use aether_v.Prelude.Dict.{Dict}
use aether_v.Prelude.Json
use aether_v.Prelude.Json.{
  Json, Items, Fields, null, bool, int, float, text, arr, obj, nil, cons, end, field, set_field,
  truthy,
}
use aether_v.Prelude.{
  String, ◌≡◌, ◌↔◌, refl, Bool, true, false, ◌&&◌, ◌||◌, not, Option, none, some, ◌⊎◌, inl, inr,
  List, [], ◌∷◌, ◌++◌, ◌==◌, if◌then◌else◌, eq_string, Comparable, arith, map, filter, is_empty,
  is_some, ◌>>=◌,
}

pub data Stream : Type 0 where
  stdout : Stream
  stderr : Stream

abbrev pub same_stream : Stream → Stream → Bool
same_stream stdout stdout = true
same_stream stderr stderr = true
same_stream a b = false

pub same_stream_iff : (a b : Stream) → (same_stream a b ≡ true) ↔ (a ≡ b)
same_stream_iff stdout stdout = (λ e. refl, λ e. refl)
same_stream_iff stderr stderr = (λ e. refl, λ e. refl)
same_stream_iff stdout stderr = ground arith
same_stream_iff stderr stdout = ground arith

instance abbrev pub eq_stream : Comparable Stream
eq_stream = record { same = same_stream; same_iff = same_stream_iff }

-- The line buffers of the job (the entries of `_line_buffers` with its id), the JSON lines that were
-- captured, and the service.
pub record Session : Type 0 where
  pub buffers : Dict Stream Text
  pub result_json_lines : List Text
  pub service : JobService

-- capture_json_output, on each of the lines; it gets those of stdout
abbrev pub capture : Stream → List Text → List Text
capture stdout lines = filter starts_with_brace (map strip lines)
capture stderr lines = []

abbrev pub formatted : Stream → List Text → List Text
formatted stdout lines = lines
formatted stderr lines = map (λ line. codes "STDERR: " ++ line) lines

abbrev pub deliver : String → Stream → List Text → Session → Session
deliver job_id stream lines n = if is_empty lines then n else record n {
  result_json_lines = n.result_json_lines ++ capture stream lines;
  service = append_job_output job_id (formatted stream lines) n.service;
}

abbrev pub buffer_of : Option Text → Text
buffer_of none = []
buffer_of (some buffer) = buffer

unfoldable pub handle_stream_chunk : String → Stream → Text → Session → Session
unfolding push append_job_output
handle_stream_chunk job_id stream payload n =
    if is_empty payload
    then n
    else let (buffer, lines) = push (buffer_of (Dict.get n.buffers stream)) payload in
      deliver job_id stream lines (record n { buffers = Dict.put n.buffers stream buffer })

abbrev pub finalize_each : String → Dict Stream Text → Session → Session
finalize_each job_id [] n = n
finalize_each job_id ((stream, buffer) ∷ pending) n =
    finalize_each job_id pending (deliver job_id stream (finalize buffer).1 n)

unfoldable pub finalize_job_streams : String → Session → Session
unfolding finalize append_job_output
finalize_job_streams job_id n = finalize_each job_id n.buffers (record n { buffers = [] })

abbrev pub handle_chunks : String → List (Stream × Text) → Session → Session
handle_chunks job_id [] n = n
handle_chunks job_id ((stream, payload) ∷ chunks) n =
    handle_chunks job_id chunks (handle_stream_chunk job_id stream payload n)

-- The loop of `_execute_agent_command` over the chunks that a command puts out.
abbrev pub stream_command : String → List (Stream × Text) → JobService → Session
stream_command job_id chunks s =
    finalize_job_streams job_id
      (handle_chunks job_id chunks (record { buffers = []; result_json_lines = []; service = s }))

pub data JobResultStatus : Type 0 where
  success : JobResultStatus
  error : JobResultStatus
  partial : JobResultStatus

pub record JobResultEnvelope : Type 0 where
  pub status : JobResultStatus
  pub message : String
  pub data_fields : Fields
  pub code : Option String

-- The libraries: `json.loads`, with the message of its error; the message of Pydantic's error on a
-- value that is no envelope; `json.dumps`.
pub record Libraries : Type 0 where
  pub loads : Text → Json ⊎ Text
  pub validation_error : Fields → Text
  pub dumps : Fields → Text

abbrev status_of : Option Json → Option JobResultStatus
status_of (some (text t)) =
    if t == "success"
    then some success
    else if t == "error"
    then some error
    else if t == "partial"
    then some partial
    else none
status_of other = none

abbrev message_of : Option Json → Option String
message_of (some (text t)) = some t
message_of other = none

abbrev data_of : Option Json → Option Fields
data_of none = some end
data_of (some (obj fields)) = some fields
data_of other = none

abbrev optional_text : Option Json → Option (Option String)
optional_text none = some none
optional_text (some null) = some none
optional_text (some (text t)) = some (some t)
optional_text other = none

abbrev all_texts : Items → Bool
all_texts nil = true
all_texts (cons (text t) items) = all_texts items
all_texts (cons other items) = false

abbrev is_logs : Option Json → Bool
is_logs none = true
is_logs (some (arr items)) = all_texts items
is_logs other = false

-- JobResultEnvelope(**data)
abbrev pub envelope_of : Fields → Option JobResultEnvelope
envelope_of fields = do
  status ← status_of (Json.get_field fields "status")
  message ← message_of (Json.get_field fields "message")
  data_fields ← data_of (Json.get_field fields "data")
  code ← optional_text (Json.get_field fields "code")
  if is_logs (Json.get_field fields "logs")
        && is_some (optional_text (Json.get_field fields "correlation_id"))
      then some
          (record { status = status; message = message; data_fields = data_fields; code = code })
      else none

abbrev type_name : Json → String
type_name null = "NoneType"
type_name (bool b) = "bool"
type_name (int minus n) = "int"
type_name (float bits) = "float"
type_name (text t) = "str"
type_name (arr items) = "list"
type_name (obj fields) = "dict"

-- parse_job_result: the envelope or the error
unfoldable pub parse_job_result : Libraries → Text → JobResultEnvelope ⊎ Text
unfolding strip
parse_job_result lib raw_json =
    if is_empty raw_json || is_empty (strip raw_json)
    then inr (codes "Empty or whitespace-only JSON response")
    else elim (lib.loads raw_json) [
      | inr message ↦ inr (codes "Invalid JSON: " ++ message)
      | inl (obj fields) ↦ elim (envelope_of fields) [
        | none ↦ inr (codes "Failed to parse job result: " ++ lib.validation_error fields)
        | some envelope ↦ inl envelope
      ]
      | inl other ↦ inr (codes "Expected JSON object, got " ++ codes (type_name other))
    ]

-- How a command ends: with exit code 0, with another code, by its decimal digits, or by an exception.
pub data Exit : Type 0 where
  zero_exit : Exit
  nonzero : (code : Text) → Exit
  raised : (message : Text) → Exit

-- What happens at the host when a job runs its command there.
pub record AgentRun : Type 0 where
  pub prepared : Bool
  pub chunks : List (Stream × Text)
  pub exit : Exit

-- What `_execute_*` makes: the service, and the message of the exception that it raises, if any.
abbrev pub Outcome : Type 0
Outcome = JobService × Option Text

-- job.parameters["result_data"] = envelope.data
abbrev pub keep_result_data : Option Job → Fields → JobService → JobService
keep_result_data none data_fields s = s
keep_result_data (some j) data_fields s =
    store_job (record j { parameters = set_field j.parameters "result_data" (obj data_fields) }) s

abbrev pub status_name : JobResultStatus → String
status_name success = "JobResultStatus.SUCCESS"
status_name error = "JobResultStatus.ERROR"
status_name partial = "JobResultStatus.PARTIAL"

abbrev pub status_value : JobResultStatus → String
status_value success = "success"
status_value error = "error"
status_value partial = "partial"

abbrev pub or_text : Option String → String → String
or_text none fallback = fallback
or_text (some t) fallback = if t == "" then fallback else t

abbrev pub is_error : JobResultStatus → Bool
is_error error = true
is_error other = false

module _ (lib : Libraries) (j : Job) (operation : String) (operation_name : Text) where
  abbrev pub succeed : JobResultEnvelope → JobService → JobService
  succeed envelope s =
      let told =
        append_job_output j.job_id
          ((operation_name ++ codes " completed: " ++ codes envelope.message)
            ∷ (codes "Result status: " ++ codes (status_name envelope.status))
            ∷ [])
          s in
      let kept = keep_result_data (Dict.get told.jobs j.job_id) envelope.data_fields told in
      if truthy (obj envelope.data_fields)
      then append_job_output j.job_id (lib.dumps envelope.data_fields ∷ []) kept
      else kept

  abbrev pub conclude : JobResultEnvelope ⊎ Text → JobService → Outcome
  conclude (inr message) s = (s, some (codes "Failed to parse job result: " ++ message))
  conclude (inl envelope) s =
      if is_error envelope.status
      then (
        s,
        some (
            operation_name
            ++ codes " failed ("
            ++ codes (or_text envelope.code "UNKNOWN")
            ++ codes "): "
            ++ codes (or_text (some envelope.message) "Unknown error")),
      )
      else (succeed envelope s, none)

  abbrev pub after_command : Exit → Session → Outcome
  after_command (raised message) n = (n.service, some message)
  after_command (nonzero code) n =
      (n.service, some (operation_name ++ codes " script exited with code " ++ code))
  after_command zero_exit n = elim n.result_json_lines [
    | [] ↦ (
      n.service,
      some (codes "No JSON result returned from " ++ codes operation ++ codes " operation"),
    )
    | result_json ∷ more ↦ conclude (parse_job_result lib result_json) n.service
  ]

  -- The command, if there is a specification to send.
  abbrev pub operate : Fields ⊎ Text → AgentRun → JobService → Outcome
  operate (inr message) run s = (s, some message)
  operate (inl resource_spec) run s = after_command run.exit (
      stream_command j.job_id run.chunks
        (call (invoke_agent (host_of j) operation resource_spec j.job_id) s))

  -- `spec` is what `extract_resource_spec` and `validate_resource_spec` make of the job: the
  -- specification, or the message of what they raise.
  unfoldable pub execute_new_protocol_operation : Fields ⊎ Text → AgentRun → JobService → Outcome
  unfolding append_job_output parse_job_result handle_stream_chunk finalize_job_streams
  execute_new_protocol_operation spec run s =
      let target_host = host_of j in
      if is_empty target_host
      then (s, some (operation_name ++ codes " job is missing a target host"))
      else if not run.prepared
      then (
        s,
        some (codes "Failed to prepare host " ++ target_host ++ codes " for " ++ operation_name),
      )
      else operate spec run s
