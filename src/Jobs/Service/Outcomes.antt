-- ===== src/Jobs/Service/Outcomes.antt =====
-- How `_process_job` of server/app/services/job_service.py ends, for the jobs that run one command.
use aether_v.Jobs.LineBuffer.{Text}
use aether_v.Jobs.Service.{
  Job, running, completed, failed, JobService, no_changes, update_job, changed, append_job_output,
  has_parent, prepare_job_response,
}
use aether_v.Jobs.Service.Agent.{Libraries, AgentRun, Outcome}
use aether_v.Jobs.Service.Commands.{outcome-Step, operation-Step, noop-Step}
use aether_v.Jobs.Service.Heard.{heard_of, heard_of-changed}
use aether_v.Jobs.Service.Frames.{Beside, Extends, Beside-trans}
use aether_v.Jobs.Service.Process.{
  definition_fields, with_vm_id, delete_spec, run_operation, execute_job, finish, run_job,
}
use aether_v.Jobs.Service.Steps.{
  Has, Step, Extends-trans, now-Has, Step-refl, append-Step, update_job_lem,
}
use aether_v.Jobs.Service.Texts.{codes}
use aether_v.Prelude.Dict
use aether_v.Prelude.Json.{Fields}
use aether_v.Prelude.{
  ℕ, String, ◌≡◌, refl, ◌∙◌, true, false, none, some, is_some, [], ◌∷◌, ◌++◌, ◌==◌, if◌then◌else◌,
  eq_string, ◌⊎◌, inl, inr,
}

-- The job is over, by success or by a failure that is told.
abbrev pub IsOver : Job → Job → Type 0
IsOver old new =
    ((new.status ≡ completed) × (new.error ≡ old.error))
    ⊎ ((new.status ≡ failed) × (is_some new.error ≡ true))

-- A job was processed between two times, and nothing else was touched.
pub record Processed (id : String) (old : Job) (started_at completed_at : ℕ) (s t : JobService)
    : Type 0 where
  pub now : Job
  pub there : Dict.get t.jobs id ≡ some now
  pub over : IsOver old now
  pub started : now.started_at ≡ some started_at
  pub ended : now.completed_at ≡ some completed_at
  pub more_output : Extends old.output now.output
  pub beside : Beside id s t
  pub same_family : has_parent now.parameters ≡ has_parent old.parameters
  pub heard : has_parent now.parameters ≡ false → heard_of id t ≡ some (prepare_job_response now)

module _ (lib : Libraries) (managed : Job → JobService → Outcome) where
  operation_of :
      (j : Job) (operation name : String) (spec : Fields ⊎ Text) (run : AgentRun) (s : JobService)
      → Step j.job_id s (run_operation lib j operation name spec run s).0
  operation_of j operation name spec run s = operation-Step lib j operation (codes name) spec run s

  either :
      (j : Job) (name : String) (s : JobService) (x y : Outcome)
      → Step j.job_id s x.0
      → Step j.job_id s y.0
      → Step j.job_id s (if j.job_type == name then x else y).0
  either j name s x y p q = outcome-Step j.job_id (j.job_type == name) s x y p q

  execute-Step :
      (j : Job) (run : AgentRun) (s : JobService)
      → (j.job_type == "managed_deployment") ≡ false
      → Step j.job_id s (execute_job lib managed j run s).0
  unfolding execute_job
  execute-Step j run s command =
      let fields : Fields ⊎ Text = inl (definition_fields j) in
      either j "delete_vm" s _ _
        (operation_of j "vm.delete" "VM deletion" (inl (delete_spec lib j)) run s)
        (either j "create_vm" s _ _ (operation_of j "vm.create" "VM creation" fields run s) (
          either j "create_disk" s _ _
            (operation_of j "disk.create" "Disk creation"
              (with_vm_id lib "Disk" (definition_fields j)) run s)
            (either j "create_nic" s _ _
              (operation_of j "nic.create" "NIC creation"
                (with_vm_id lib "NIC" (definition_fields j)) run s)
              (either j "update_vm" s _ _ (operation_of j "vm.update" "VM update" fields run s) (
                either j "update_disk" s _ _
                  (operation_of j "disk.update" "Disk update" fields run s)
                  (either j "update_nic" s _ _
                    (operation_of j "nic.update" "NIC update" fields run s)
                    (either j "delete_disk" s _ _
                      (operation_of j "disk.delete" "Disk deletion" fields run s)
                      (either j "delete_nic" s _ _
                        (operation_of j "nic.delete" "NIC deletion" fields run s)
                        (rw command (
                          either j "initialize_vm" s _ _
                            (operation_of j "vm.initialize" "VM initialization" fields run s)
                            (either j "noop_test" s _ _ (noop-Step lib j run s)
                              (Step-refl j.job_id s))))))))))))

  finish-Processed :
      (id : String) (j : Job) (a b : ℕ) (o : Outcome) (s : JobService)
      → Has id j s
      → j.started_at ≡ some a
      → j.status ≡ running
      → Step id s o.0
      → Processed id j a b s (finish lib managed id b o)
  finish-Processed id j a b (t, none) s h started runs step =
      let f = step j h in
      let c = record no_changes { status = some completed; completed_at = some b } in
      let (there, beside) = update_job_lem id f.now c t (now-Has id j s t h f) in
      record {
        now = changed c f.now;
        there = there;
        over = inl (refl, f.quiet.same_error);
        started = f.quiet.same_start ∙ started;
        ended = refl;
        more_output = f.quiet.more_output;
        beside = Beside-trans id s t (update_job id c t) f.beside beside;
        same_family = f.quiet.same_family;
        heard =
            heard_of-changed id f.now c t (now-Has id j s t h f)
              (rw (f.quiet.same_state ∙ runs) refl);
      }
  finish-Processed id j a b (t, some message) s h started runs step =
      let f = step j h in
      let told = append_job_output id ((codes "ERROR: " ++ message) ∷ []) t in
      let g = append-Step id ((codes "ERROR: " ++ message) ∷ []) t f.now (now-Has id j s t h f) in
      let c = record no_changes {
        status = some failed;
        completed_at = some b;
        error = some message;
      } in
      let (there, beside) =
        update_job_lem id g.now c told (now-Has id f.now t told (now-Has id j s t h f) g) in
      record {
        now = changed c g.now;
        there = there;
        over = inr (refl, refl);
        started = g.quiet.same_start ∙ f.quiet.same_start ∙ started;
        ended = refl;
        more_output =
            Extends-trans j.output f.now.output g.now.output f.quiet.more_output
              g.quiet.more_output;
        beside =
            Beside-trans id s t (update_job id c told) f.beside
              (Beside-trans id t told (update_job id c told) g.beside beside);
        same_family = g.quiet.same_family ∙ f.quiet.same_family;
        heard =
            heard_of-changed id g.now c told (now-Has id f.now t told (now-Has id j s t h f) g)
              (rw (g.quiet.same_state ∙ f.quiet.same_state ∙ runs) refl);
      }

  pub run_job-Processed :
      (j : Job) (run : AgentRun) (a b : ℕ) (s : JobService)
      → Dict.get s.jobs j.job_id ≡ some j
      → (j.job_type == "managed_deployment") ≡ false
      → Processed j.job_id j a b s (run_job lib managed j run a b s)
  run_job-Processed j run a b s here command =
      let id = j.job_id in
      let c = record no_changes { status = some running; started_at = some a } in
      let begun = update_job id c s in
      let (there, beside) = update_job_lem id j c s (here, refl) in
      let k = changed c j in
      rw there (
        let p =
          finish-Processed id k a b (execute_job lib managed k run begun) begun (there, refl) refl
            refl (execute-Step k run begun command) in
        record {
          now = p.now;
          there = p.there;
          over = p.over;
          started = p.started;
          ended = p.ended;
          more_output = p.more_output;
          beside =
              Beside-trans id s begun
                (finish lib managed id b (execute_job lib managed k run begun)) beside p.beside;
          same_family = p.same_family;
          heard = p.heard;
        })
