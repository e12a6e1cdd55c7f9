-- ===== src/Jobs/Service/Deployment/Made.antt =====
-- How a deployment makes its VM, in server/app/services/job_service.py.
use aether_v.Jobs.Service.Texts.{codes}
use aether_v.Jobs.Service.{Job, JobService}
use aether_v.Jobs.Service.Deployment.{
  OsFamily, family_name, Request, Surroundings, Happening, child_queued, child_returned, Session,
  Result, ok, raised, unfinished, Action, and_then, extract_vm_id_from_output,
}
use aether_v.Jobs.Service.Deployment.ChildJobs.{run_child}
use aether_v.Jobs.Service.Deployment.Stages.{create_vm, require_vm_id}
use aether_v.Jobs.Service.Deployment.Given.{IsGiven, any-Gives}
use aether_v.Jobs.Service.Deployment.Ran.{Began}
use aether_v.Jobs.Service.Deployment.Logged.{Logs, Logged-Began, run_child-Logs}
use aether_v.Prelude.Json.{text, set_field}
use aether_v.Prelude.{
  String, ◌≡◌, refl, ap, ◌∙◌, All, Option, none, some, inl, inr, List, [], ◌∷◌, ◌++◌, ◌==◌,
  eq_string, Bool-cases,
}

module _ (env : Surroundings) (parent : Job) where
  -- After a first child job, which creates the VM, and the return of the wait for it, each child job
  -- that is queued is given the id that is read from the job that this wait returned.
  abbrev pub FromVm : List Happening → Type 0
  FromVm (child_queued service child ∷ child_returned id vm ∷ later) =
      (id ≡ child.job_id) × All (IsGiven (extract_vm_id_from_output env.str_of vm)) later
  FromVm other = Unit

  -- The VM's job, and the id that is read from what it returned.
  abbrev pub Made : List Happening → Result String → Type 0
  Made old (ok vm_id t) =
      (service : JobService) × (child vm : Job) × (t.log
        ≡ old ++ child_queued service child ∷ child_returned child.job_id vm ∷ [])
      × (child.job_type ≡ "create_vm")
      × (extract_vm_id_from_output env.str_of vm ≡ some vm_id)
  Made old (raised e t) = Began (some "create_vm" ∷ none ∷ []) FromVm old t.log
  Made old (unfinished t) = Began (some "create_vm" ∷ none ∷ []) FromVm old t.log

  both_done :
      (service : JobService) (child vm : Job) (old new : List Happening)
      → new ≡ old ++ child_queued service child ∷ child_returned child.job_id vm ∷ []
      → child.job_type ≡ "create_vm"
      → Began (some "create_vm" ∷ none ∷ []) FromVm old new
  both_done service child vm old new e same = record {
    more = child_queued service child ∷ child_returned child.job_id vm ∷ [];
    left = [];
    grown = e;
    ordered = ap (λ n. some n ∷ none ∷ []) same;
    each = (refl, tt);
  }

  require_vm_id-Made :
      (o : Option String) (service : JobService) (child vm : Job) (old : List Happening)
      (t : Session) (f : String → Action String)
      → extract_vm_id_from_output env.str_of vm ≡ o
      → t.log ≡ old ++ child_queued service child ∷ child_returned child.job_id vm ∷ []
      → child.job_type ≡ "create_vm"
      → ((vm_id : String) (u : Session)
          → (v : Session) × (v.log ≡ u.log) × (f vm_id u ≡ ok vm_id v))
      → Made old (and_then (require_vm_id env parent o t) f)
  require_vm_id-Made none service child vm old t f e g same k =
      both_done service child vm old t.log g same
  require_vm_id-Made (some vm_id) service child vm old t f e g same k =
      elim (Bool-cases (vm_id == "")) [
        | inl blank ↦ rw blank (both_done service child vm old t.log g same)
        | inr named ↦
            let (v, quiet, e') = k vm_id t in
            rw (named, e') (service, child, vm, quiet ∙ g, same, e)
      ]

  run_vm-Made :
      (result : Result Job) (old : List Happening) (f : Job → Action String)
      → Logs "create_vm" (λ h. Unit {0}) old result
      → ((service : JobService) (child vm : Job) (t : Session)
          → t.log ≡ old ++ child_queued service child ∷ child_returned child.job_id vm ∷ []
          → child.job_type ≡ "create_vm"
          → Made old (f vm t))
      → Made old (and_then result f)
  run_vm-Made (ok vm t) old f (service, child, g, same, p) k = k service child vm t g same
  run_vm-Made (raised e t) old f h k =
      Logged-Began "create_vm" (λ x. Unit {0}) FromVm old t.log tt (λ x p. one x)
        (λ service child j p. (refl, tt)) h
    where
      one : (x : Happening) → FromVm (x ∷ [])
      one (child_queued service child) = tt
      one (child_returned id j) = tt
  run_vm-Made (unfinished t) old f h k =
      Logged-Began "create_vm" (λ x. Unit {0}) FromVm old t.log tt (λ x p. one x)
        (λ service child j p. (refl, tt)) h
    where
      one : (x : Happening) → FromVm (x ∷ [])
      one (child_queued service child) = tt
      one (child_returned id j) = tt

  pub create_vm-Made :
      (r : Request) (family : OsFamily) (s : Session) → Made s.log (create_vm env parent r family s)
  unfolding create_vm
  create_vm-Made r family s =
      let fields = set_field r.vm_dump "os_family" (text (family_name family)) in
      run_vm-Made
        (run_child env parent "create_vm" "vm.create" fields env.vm_turn
          (codes "VM creation failed: ") _)
        s.log _
        (run_child-Logs env parent (λ h. Unit {0}) "create_vm" "vm.create" fields env.vm_turn
          (codes "VM creation failed: ") _
          (any-Gives env parent env.vm_turn "create_vm" "vm.create" fields _))
        (λ service child vm t g same.
          require_vm_id-Made (extract_vm_id_from_output env.str_of vm) service child vm s.log t _
            refl g same (λ vm_id u. (_, refl, refl)))
