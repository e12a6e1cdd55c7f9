-- ===== src/Jobs/Service/Lifecycle.antt =====
-- What `_process_job` of server/app/services/job_service.py does with a job that runs one command.
use aether_v.Jobs.LineBuffer.{Text}
use aether_v.Jobs.Service.{Job, JobService, Call, acquire_slot, release_slot, call, store_job}
use aether_v.Jobs.Service.Agent.{Libraries, AgentRun, Outcome}
use aether_v.Jobs.Service.Frames.{
  Extends, IsDiscreet, slot_calls, is_slot_call, Beside-trans, store-Beside,
}
use aether_v.Jobs.Service.Outcomes.{IsOver, run_job-Processed}
use aether_v.Jobs.Service.Process.{
  with_metadata, enrich_job_metadata, run_job, needs_serialization, normalise_host, process_job,
}
use aether_v.Jobs.Service.Steps.{
  Quiet, Quiet-refl, parameters-Quiet, set_field-has_parent, Extends-trans, get-store_job,
}
use aether_v.Prelude.Dict
use aether_v.Prelude.Json.{Fields, end, field, set_field, obj}
use aether_v.Prelude.{
  ℕ, String, ◌≡◌, refl, sym, ap, ◌∙◌, subst, true, false, some, List, [], ◌∷◌, ◌++◌, ◌==◌,
  if◌then◌else◌, eq_string, append_assoc, append-nil, inl, inr, Bool-cases, All, All-append, filter,
}

with_metadata-Quiet : (j : Job) (metadata : Fields) → Quiet j (with_metadata j metadata)
with_metadata-Quiet j end = Quiet-refl j
with_metadata-Quiet j (field k v rest) =
    parameters-Quiet j (set_field j.parameters "_metadata" (obj (field k v rest)))
      (set_field-has_parent j.parameters "_metadata" (obj (field k v rest)) refl)

pub enrich-Quiet :
    (device_metadata : Job → Fields) (j : Job) → Quiet j (enrich_job_metadata device_metadata j)
unfolding enrich_job_metadata
enrich-Quiet device_metadata j = with_metadata-Quiet j _

pub since-IsOver : (j e k : Job) → e.error ≡ j.error → IsOver e k → IsOver j k
since-IsOver j e k same (inl (st, err)) = inl (st, err ∙ same)
since-IsOver j e k same (inr (st, err)) = inr (st, err)

slot_calls-call :
    (c : Call) (s : JobService)
    → is_slot_call c ≡ true
    → slot_calls (call c s) ≡ slot_calls s ++ c ∷ []
slot_calls-call c s e = go s.calls
  where
    go : (cs : List Call) → filter is_slot_call (cs ++ c ∷ []) ≡ filter is_slot_call cs ++ c ∷ []
    go [] = rw e refl
    go (x ∷ cs) = elim (Bool-cases (is_slot_call x)) [
      | inl f ↦ rw (f, go cs) refl
      | inr f ↦ rw f (go cs)
    ]

-- The job is over: its run is recorded, its output only grew, the other jobs are as they were, the
-- calls about host slots are those of the list, and no secret was shown.
pub record Done (id : String) (old : Job) (started_at completed_at : ℕ) (taken : List Call)
    (s t : JobService) : Type 0 where
  pub now : Job
  pub there : Dict.get t.jobs id ≡ some now
  pub over : IsOver old now
  pub started : now.started_at ≡ some started_at
  pub ended : now.completed_at ≡ some completed_at
  pub more_output : Extends old.output now.output
  pub others : (k : String) → (id == k) ≡ false → Dict.get t.jobs k ≡ Dict.get s.jobs k
  pub slots : slot_calls t ≡ slot_calls s ++ taken
  pub discreet : All IsDiscreet s.calls → All IsDiscreet t.calls

-- The calls about host slots that a job makes.
abbrev pub slots_of : Job → List Call
slots_of j =
    if needs_serialization j
    then acquire_slot (normalise_host j.target_host) j.job_id
      ∷ release_slot (normalise_host j.target_host) j.job_id
      ∷ []
    else []

module _ (lib : Libraries) (managed : Job → JobService → Outcome) (run : AgentRun) (a b : ℕ) where
  plain-Done :
      (j e : Job) (s : JobService)
      → Quiet j e
      → (j.job_type == "managed_deployment") ≡ false
      → Done e.job_id j a b [] s (run_job lib managed e run a b (store_job e s))
  plain-Done j e s q command =
      let stored = store_job e s in
      let p =
        run_job-Processed lib managed e run a b stored (get-store_job e.job_id e s refl)
          (rw q.same_type command) in
      let all =
        Beside-trans e.job_id s stored (run_job lib managed e run a b stored)
          (store-Beside e.job_id e s refl) p.beside in
      record {
        now = p.now;
        there = p.there;
        over = since-IsOver j e p.now q.same_error p.over;
        started = p.started;
        ended = p.ended;
        more_output = Extends-trans j.output e.output p.now.output q.more_output p.more_output;
        others = all.others;
        slots = all.slots ∙ sym (append-nil (slot_calls s));
        discreet = all.discreet;
      }

  slotted-Done :
      (j e : Job) (host : Text) (s : JobService)
      → Quiet j e
      → (j.job_type == "managed_deployment") ≡ false
      → Done e.job_id j a b (acquire_slot host e.job_id ∷ release_slot host e.job_id ∷ []) s (
          call
            (release_slot host e.job_id)
            (run_job lib managed e run a b (call (acquire_slot host e.job_id) (store_job e s))))
  slotted-Done j e host s q command =
      let acquire = acquire_slot host e.job_id in
      let release = release_slot host e.job_id in
      let stored = store_job e s in
      let holding = call acquire stored in
      let p =
        run_job-Processed lib managed e run a b holding (get-store_job e.job_id e s refl)
          (rw q.same_type command) in
      let ran = run_job lib managed e run a b holding in
      record {
        now = p.now;
        there = p.there;
        over = since-IsOver j e p.now q.same_error p.over;
        started = p.started;
        ended = p.ended;
        more_output = Extends-trans j.output e.output p.now.output q.more_output p.more_output;
        others = λ k f. p.beside.others k f ∙ (store-Beside e.job_id e s refl).others k f;
        slots =
            slot_calls-call release ran refl
            ∙ ap (λ cs. cs ++ release ∷ []) (p.beside.slots ∙ slot_calls-call acquire stored refl)
            ∙ append_assoc (slot_calls s) (acquire ∷ []) (release ∷ []);
        discreet = λ h.
            All-append IsDiscreet ran.calls (release ∷ [])
              (p.beside.discreet (All-append IsDiscreet s.calls (acquire ∷ []) h (tt, tt)))
              (tt, tt);
      }

  moved :
      (j e : Job) (taken : List Call) (t s : JobService)
      → Quiet j e
      → Done e.job_id j a b taken s t
      → Done j.job_id j a b taken s t
  moved j e taken t s q d = subst (λ id. Done id j a b taken s t) q.same_id d

  -- A worker that takes up a job of any type but a managed deployment brings it to an end, whatever
  -- the host and the agent do: the job is completed, or failed with an error; its times are recorded
  -- and none of its output is lost; no other job is touched; a job that needs the slot of its host
  -- takes it once and gives it back once, at the end, and other jobs
  -- never do; and no status that shows a sensitive parameter is added to what the clients are sent.
  pub process_job-Done :
      (device_metadata : Job → Fields) (s : JobService) (j : Job)
      → Dict.get s.jobs j.job_id ≡ some j
      → (j.job_type == "managed_deployment") ≡ false
      → Done j.job_id j a b
          (slots_of (enrich_job_metadata device_metadata j))
          s
          (process_job lib managed j.job_id device_metadata run a b s)
  unfolding process_job
  process_job-Done device_metadata s j here command =
      let e = enrich_job_metadata device_metadata j in
      let q = enrich-Quiet device_metadata j in
      let host = normalise_host e.target_host in
      rw here (elim (Bool-cases (needs_serialization e)) [
        | inl slot ↦ rw slot (moved j e _ _ s q (slotted-Done j e host s q command))
        | inr free ↦ rw free (moved j e _ _ s q (plain-Done j e s q command))
      ])
