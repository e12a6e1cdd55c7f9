-- ===== src/Jobs/Service/Deployment/Order.antt =====
-- The order in which a deployment queues its child jobs and waits for them, in server/app/services/job_service.py.
use aether_v.Jobs.Service.Deployment.Due.{later_due, due, finish_stages, finish_stages-Ran}
use aether_v.Jobs.Service.Deployment.Made.{FromVm, Made, create_vm-Made}
use aether_v.Jobs.LineBuffer.{Text}
use aether_v.Jobs.Service.Texts.{codes, strip}
use aether_v.Jobs.Service.{Job, JobService}
use aether_v.Jobs.Service.Deployment.{
  OsFamily, detect_os_family_from_image_name, Request, Surroundings, HostConfig, Happening,
  child_queued, child_returned, Session, Result, ok, raised, unfinished, Action, and_then, require,
  validate_job_against_host_config, require_name, has_name, storage_class_of, network_of, image_of,
  extract_vm_id_from_output,
}
use aether_v.Jobs.Service.Deployment.Stages.{create_vm, tell_family, deploy}
use aether_v.Jobs.Service.Deployment.Given.{IsGiven}
use aether_v.Jobs.Service.Deployment.Ran.{Ran, Began, labels}
use aether_v.Prelude.{
  String, ◌≡◌, refl, ap, sym, ◌∙◌, append_assoc, All, Bool, true, false, not, Option, none, some,
  inl, inr, List, [], ◌∷◌, ◌++◌, eq_string, is_empty, append-nil, subst, Bool-cases,
}

module _ (env : Surroundings) (parent : Job) where
  -- What happened is what a request asks for, as far as the deployment came.
  abbrev pub InOrder {ℓ} : {A : Type ℓ} → List (Option String) → List Happening → Result A → Type 0
  InOrder names old result = Ran names (FromVm env parent) old result

  -- A stage that queues nothing.
  abbrev Quiet {ℓ} : {A : Type ℓ} → List Happening → Result A → Type 0
  Quiet old (ok a t) = t.log ≡ old
  Quiet old (raised e t) = t.log ≡ old
  Quiet old (unfinished t) = t.log ≡ old

  none_yet :
      (names : List (Option String)) (old new : List Happening)
      → new ≡ old
      → Began names (FromVm env parent) old new
  none_yet names old new e = record {
    more = [];
    left = names;
    grown = e ∙ sym (append-nil old);
    ordered = refl;
    each = tt;
  }

  InOrder-and_then {ℓ} :
      {A : Type ℓ} (names : List (Option String)) (old : List Happening) (result : Result A)
      (f : A → Action (Unit {0}))
      → Quiet old result
      → ((a : A) (t : Session) → InOrder names t.log (f a t))
      → InOrder names old (and_then result f)
  InOrder-and_then names old (ok a t) f q k =
      subst (λ (l : List Happening). InOrder names l (f a t)) q (k a t)
  InOrder-and_then names old (raised e t) f q k = none_yet names old t.log q
  InOrder-and_then names old (unfinished t) f q k = none_yet names old t.log q

  require-Quiet : (b : Bool) (e : Text) (s : Session) → Quiet s.log (require b e s)
  require-Quiet true e s = refl
  require-Quiet false e s = refl

  require_name-Quiet :
      (what plural : Text) (names : Option (List String)) (o : Option String) (host : Text)
      (s : Session)
      → Quiet s.log (require_name what plural names o host s)
  require_name-Quiet what plural names none host s = refl
  require_name-Quiet what plural names (some name) host s = require-Quiet (has_name names name) _ s

  Quiet-and_then {ℓ κ} :
      {A : Type ℓ} {B : Type κ} (old : List Happening) (result : Result A) (f : A → Action B)
      → Quiet old result
      → ((a : A) (t : Session) → Quiet t.log (f a t))
      → Quiet old (and_then result f)
  Quiet-and_then old (ok a t) f q k = subst (λ (l : List Happening). Quiet l (f a t)) q (k a t)
  Quiet-and_then old (raised e t) f q k = q
  Quiet-and_then old (unfinished t) f q k = q

  validate-Quiet :
      (c : Option HostConfig) (storage network : Option String) (host : Text) (s : Session)
      → Quiet s.log (validate_job_against_host_config c storage network host s)
  unfolding validate_job_against_host_config
  validate-Quiet none storage network host s = refl
  validate-Quiet (some c) storage network host s =
      Quiet-and_then s.log
        (require_name (codes "Network") (codes "networks") c.networks network host s) _
        (require_name-Quiet (codes "Network") (codes "networks") c.networks network host s)
        (λ a t.
          require_name-Quiet (codes "Storage class") (codes "storage classes") c.storage_classes
            storage host t)

  tell_family-Quiet :
      (family : OsFamily) (o : Option Text) (s : Session)
      → Quiet s.log (tell_family env parent family o s)
  tell_family-Quiet family none s = refl
  tell_family-Quiet family (some image) s = elim (Bool-cases (is_empty image)) [
    | inl blank ↦ rw blank refl
    | inr named ↦ rw named refl
  ]

  longer :
      (later : List (Option String)) (old new : List Happening)
      → Began (some "create_vm" ∷ none ∷ []) (FromVm env parent) old new
      → Began (some "create_vm" ∷ none ∷ later) (FromVm env parent) old new
  longer later old new b = record {
    more = b.more;
    left = b.left ++ later;
    grown = b.grown;
    ordered = sym (append_assoc (labels b.more) b.left later) ∙ ap (λ m. m ++ later) b.ordered;
    each = b.each;
  }

  module _ (names : List (Option String)) (vm_id : String) (old mid : List Happening)
      (service : JobService) (child vm : Job)
      (g : mid ≡ old ++ child_queued service child ∷ child_returned child.job_id vm ∷ [])
      (same : child.job_type ≡ "create_vm")
      (e : extract_vm_id_from_output env.str_of vm ≡ some vm_id) where
    Began-after_vm :
        (new : List Happening)
        → Began names (All (IsGiven (some vm_id))) mid new
        → Began (some "create_vm" ∷ none ∷ names) (FromVm env parent) old new
    Began-after_vm new b = record {
      more = child_queued service child ∷ child_returned child.job_id vm ∷ b.more;
      left = b.left;
      grown =
          b.grown
          ∙ ap (λ m. m ++ b.more) g
          ∙ append_assoc old (child_queued service child ∷ child_returned child.job_id vm ∷ [])
              b.more;
      ordered =
          ap (λ n. some n ∷ none ∷ labels b.more ++ b.left) same
          ∙ ap (λ m. some "create_vm" ∷ none ∷ m) b.ordered;
      each = (refl, subst (λ (o : Option String). All (IsGiven o) b.more) (sym e) b.each);
    }

    after_vm {ℓ} :
        {A : Type ℓ} (result : Result A)
        → Ran names (All (IsGiven (some vm_id))) mid result
        → InOrder (some "create_vm" ∷ none ∷ names) old result
    after_vm (ok a t) (more, h, ordered, each) = (
      child_queued service child ∷ child_returned child.job_id vm ∷ more,
      h
          ∙ ap (λ m. m ++ more) g
          ∙ append_assoc old (child_queued service child ∷ child_returned child.job_id vm ∷ [])
              more,
      ap (λ n. some n ∷ none ∷ labels more) same ∙ ap (λ m. some "create_vm" ∷ none ∷ m) ordered,
      (refl, subst (λ (o : Option String). All (IsGiven o) more) (sym e) each),
    )
    after_vm (raised message t) b = Began-after_vm t.log b
    after_vm (unfinished t) b = Began-after_vm t.log b

  -- The stages after the VM, for the id that the first one gives.
  staged :
      (r : Request) (family : OsFamily) (farewell : Text) (old : List Happening)
      (result : Result String)
      → Made env parent old result
      → InOrder
          (due r)
          old
          (and_then result (λ vm_id. finish_stages env parent r vm_id family farewell))
  staged r family farewell old (ok vm_id t) (service, child, vm, g, same, e) =
      after_vm (later_due r) vm_id old t.log service child vm g same e
        (finish_stages env parent r vm_id family farewell t)
        (finish_stages-Ran env parent r vm_id family farewell t)
  staged r family farewell old (raised e t) b = longer (later_due r) old t.log b
  staged r family farewell old (unfinished t) b = longer (later_due r) old t.log b

  -- A deployment queues its child jobs in the order VM, disk, network adapter, guest, and gets a job
  -- back from a wait before it queues the next: what it has queued and got back when it ends by an
  -- error, or is still waiting, is a beginning of what the request asks for, and all of it when it
  -- ends without one. The first job that it gets back is from the wait for the VM's job, and each
  -- child job that it queues later is stored with the id among its fields that is read from that.
  pub deploy-InOrder : (r : Request) (s : Session) → InOrder (due r) s.log (deploy env parent r s)
  unfolding deploy
  deploy-InOrder r s =
      let host = strip r.requested_host in
      let family = detect_os_family_from_image_name (image_of r.disk_spec) in
      InOrder-and_then (due r) s.log (require (not (is_empty host)) _ s) _
        (require-Quiet (not (is_empty host)) _ s)
        (λ a t.
          InOrder-and_then (due r) t.log (require env.prepared _ _) _
            (require-Quiet env.prepared _ _)
            (λ b u.
              InOrder-and_then (due r) u.log
                (validate_job_against_host_config env.host_config (storage_class_of r)
                  (network_of r.nic_spec) host u)
                _
                (validate-Quiet env.host_config (storage_class_of r) (network_of r.nic_spec) host u)
                (λ c v.
                  InOrder-and_then (due r) v.log
                    (tell_family env parent family (image_of r.disk_spec) v) _
                    (tell_family-Quiet family (image_of r.disk_spec) v)
                    (λ d w.
                      staged r family _ w.log (create_vm env parent r family w)
                        (create_vm-Made env parent r family w)))))
