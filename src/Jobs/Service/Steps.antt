-- ===== src/Jobs/Service/Steps.antt =====
-- The steps of an agent's command in server/app/services/job_service.py leave the state of their job.
use aether_v.Jobs.LineBuffer.{Text}
use aether_v.Jobs.Service.{
  Job, JobService, Changes, output, broadcast_job_event, prepare_job_response, after_job_update,
  update_job, changed, store_job, has_parent, names_parent, append_job_output, extend_output,
}
use aether_v.Jobs.Service.Agent.{keep_result_data}
use aether_v.Jobs.Service.Frames.{
  Beside, CallsOnly, Extends, Beside-trans, calls-Beside, store-Beside, event-CallsOnly,
  after-CallsOnly,
}
use aether_v.Jobs.Service.Texts.{output_lines}
use aether_v.Prelude.Dict
use aether_v.Prelude.Dict.{Dict, get-put}
use aether_v.Prelude.Json
use aether_v.Prelude.Json.{Json, Fields, obj, set_field, get_field-set_field}
use aether_v.Prelude.{
  String, false, ◌==◌, ◌≡◌, refl, sym, ap, ◌∙◌, some, List, [], ◌++◌, eq_string, eq_self,
  append_assoc, append-nil, inl, inr, Bool-cases, is_empty,
}

abbrev pub Has : String → Job → JobService → Type 0
Has id j s = (Dict.get s.jobs id ≡ some j) × (j.job_id ≡ id)

-- The job's state is the same, and of its output nothing is lost.
pub record Quiet (old new : Job) : Type 0 where
  pub same_id : new.job_id ≡ old.job_id
  pub same_type : new.job_type ≡ old.job_type
  pub same_state : new.status ≡ old.status
  pub same_start : new.started_at ≡ old.started_at
  pub same_end : new.completed_at ≡ old.completed_at
  pub same_error : new.error ≡ old.error
  pub same_host : new.target_host ≡ old.target_host
  pub same_family : has_parent new.parameters ≡ has_parent old.parameters
  pub more_output : Extends old.output new.output

pub record Frame (id : String) (j : Job) (s t : JobService) : Type 0 where
  pub now : Job
  pub there : Dict.get t.jobs id ≡ some now
  pub quiet : Quiet j now
  pub beside : Beside id s t

-- A step of the job.
abbrev pub Step : String → JobService → JobService → Type 0
Step id s t = (j : Job) → Has id j s → Frame id j s t

pub Extends-refl : (xs : List Text) → Extends xs xs
Extends-refl xs = ([], sym (append-nil xs))

pub Extends-trans : (xs ys zs : List Text) → Extends xs ys → Extends ys zs → Extends xs zs
Extends-trans xs ys zs (more, e) (most, f) =
    (more ++ most, f ∙ ap (λ w. w ++ most) e ∙ append_assoc xs more most)

-- A field of the parameters that is not the id of the parent.
pub set_field-has_parent :
    (fields : Fields) (k : String) (v : Json)
    → (k == "parent_job_id") ≡ false
    → has_parent (set_field fields k v) ≡ has_parent fields
unfolding has_parent
set_field-has_parent fields k v other =
    ap names_parent {y = Json.get_field fields "parent_job_id"}
      (get_field-set_field fields k v "parent_job_id" ∙ rw other refl)

-- Whatever the parameters are, if they name the same parent, and whatever is added to the output.
pub parameters-Quiet :
    (j : Job) (parameters : Fields)
    → has_parent parameters ≡ has_parent j.parameters
    → Quiet j (record j { parameters = parameters })
parameters-Quiet j parameters e = record {
  same_family = e;
  same_id = refl;
  same_type = refl;
  same_state = refl;
  same_start = refl;
  same_end = refl;
  same_error = refl;
  same_host = refl;
  more_output = Extends-refl j.output;
}

output-Quiet : (j : Job) (lines : List Text) → Quiet j (record j { output = j.output ++ lines })
output-Quiet j lines = record {
  same_family = refl;
  same_id = refl;
  same_type = refl;
  same_state = refl;
  same_start = refl;
  same_end = refl;
  same_error = refl;
  same_host = refl;
  more_output = (lines, refl);
}

pub Quiet-refl : (j : Job) → Quiet j j
Quiet-refl j = parameters-Quiet j j.parameters refl

Quiet-trans : (i j k : Job) → Quiet i j → Quiet j k → Quiet i k
Quiet-trans i j k p q = record {
  same_family = q.same_family ∙ p.same_family;
  same_id = q.same_id ∙ p.same_id;
  same_type = q.same_type ∙ p.same_type;
  same_state = q.same_state ∙ p.same_state;
  same_start = q.same_start ∙ p.same_start;
  same_end = q.same_end ∙ p.same_end;
  same_error = q.same_error ∙ p.same_error;
  same_host = q.same_host ∙ p.same_host;
  more_output = Extends-trans i.output j.output k.output p.more_output q.more_output;
}

pub now-Has :
    (id : String) (j : Job) (s t : JobService) → Has id j s → (f : Frame id j s t) → Has id f.now t
now-Has id j s t h f = (f.there, f.quiet.same_id ∙ h.1)

pub Step-trans : (id : String) (s t u : JobService) → Step id s t → Step id t u → Step id s u
Step-trans id s t u p q = λ j h.
    let f = p j h in
    let g = q f.now (now-Has id j s t h f) in
    record {
      now = g.now;
      there = g.there;
      quiet = Quiet-trans j f.now g.now f.quiet g.quiet;
      beside = Beside-trans id s t u f.beside g.beside;
    }

pub calls-Step : (id : String) (s t : JobService) → CallsOnly s t → Step id s t
calls-Step id s t c = λ j h. record {
  now = j;
  there = ap (λ d. Dict.get d id) c.same_jobs ∙ h.0;
  quiet = Quiet-refl j;
  beside = calls-Beside id s t c;
}

pub Step-refl : (id : String) (s : JobService) → Step id s s
Step-refl id s = calls-Step id s s (record { same_jobs = refl; slots = refl; discreet = λ h. h })

pub get-store_job :
    (id : String) (j : Job) (s : JobService)
    → j.job_id ≡ id
    → Dict.get (store_job j s).jobs id ≡ some j
get-store_job id j s e = get-put s.jobs j.job_id j id ∙ rw (e, eq_self id) refl

-- `_update_job` on a job that is there.
pub update_job_lem :
    (id : String) (j : Job) (c : Changes) (s : JobService)
    → Has id j s
    → (Dict.get (update_job id c s).jobs id ≡ some (changed c j)) × Beside id s (update_job id c s)
unfolding update_job
update_job_lem id j c s h =
    let new = changed c j in
    let stored = store_job new s in
    let after = after-CallsOnly (prepare_job_response new) j.status c stored in
    rw h.0 (
      ap (λ d. Dict.get d id) after.same_jobs ∙ get-store_job id new s h.1,
      Beside-trans id s stored (after_job_update (prepare_job_response new) j.status c stored)
          (store-Beside id new s h.1)
          (calls-Beside id stored (after_job_update (prepare_job_response new) j.status c stored)
            after),
    )

pub stored-Step :
    (id : String) (j k : Job) (s : JobService)
    → Has id j s
    → Quiet j k
    → Frame id j s (store_job k s)
stored-Step id j k s h q = record {
  now = k;
  there = get-store_job id k s (q.same_id ∙ h.1);
  quiet = q;
  beside = store-Beside id k s (q.same_id ∙ h.1);
}

extend-Step :
    (id : String) (lines : List Text) (s : JobService)
    → Step id s (extend_output (Dict.get s.jobs id) lines s)
extend-Step id lines s = λ j h.
    rw h.0 (stored-Step id j (record j { output = j.output ++ lines }) s h (output-Quiet j lines))

pub append-Step :
    (id : String) (messages : List Text) (s : JobService)
    → Step id s (append_job_output id messages s)
unfolding append_job_output
append-Step id messages s =
    let lines = output_lines messages in
    let extended = extend_output (Dict.get s.jobs id) lines s in
    elim (Bool-cases (is_empty lines)) [
      | inl e ↦ rw e (Step-refl id s)
      | inr e ↦ rw e (
          Step-trans id s extended (broadcast_job_event id (output lines) extended)
            (extend-Step id lines s)
            (calls-Step id extended (broadcast_job_event id (output lines) extended)
              (event-CallsOnly id (output lines) extended tt tt)))
    ]

pub keep-Step :
    (id : String) (data_fields : Fields) (s : JobService)
    → Step id s (keep_result_data (Dict.get s.jobs id) data_fields s)
keep-Step id data_fields s = λ j h. rw h.0 (
    stored-Step id j
      (record j { parameters = set_field j.parameters "result_data" (obj data_fields) }) s h
      (parameters-Quiet j (set_field j.parameters "result_data" (obj data_fields))
        (set_field-has_parent j.parameters "result_data" (obj data_fields) refl)))
