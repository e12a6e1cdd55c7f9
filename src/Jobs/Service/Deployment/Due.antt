-- ===== src/Jobs/Service/Deployment/Due.antt =====
-- The child jobs that a deployment is due to queue, and those after the VM's, in server/app/services/job_service.py.
use aether_v.GuestConfig.{GuestConfigSpec, generate_guest_config, Config}
use aether_v.Jobs.LineBuffer.{Text}
use aether_v.Jobs.Service.Texts.{codes}
use aether_v.Jobs.Service.{Job}
use aether_v.Jobs.Service.Deployment.{
  OsFamily, DiskSpec, NicSpec, Request, Surroundings, Turn, Happening, Session, Result, Action,
  and_then, ◌>>◌,
}
use aether_v.Jobs.Service.Deployment.ChildJobs.{say, run_child}
use aether_v.Jobs.Service.Deployment.Stages.{
  create_disk, create_nic, send_guest_config, initialize_guest, init_fields,
}
use aether_v.Jobs.Service.Deployment.GuestFields.{
  IsSendable, generated-IsSendable, get-set_id, get-init_fields,
}
use aether_v.Jobs.Service.Deployment.Given.{IsGiven, id-Gives}
use aether_v.Jobs.Service.Deployment.Ran.{Ran, Ran-and_then, ok-Ran}
use aether_v.Jobs.Service.Deployment.Logged.{Logs-Ran, run_child-Logs}
use aether_v.Prelude.Json
use aether_v.Prelude.Json.{Json, Fields, text, field, end, set_field, get_field-set_field}
use aether_v.Prelude.{
  String, ◌≡◌, All, true, false, Option, none, some, List, [], ◌∷◌, ◌++◌, eq_string, append-nil,
  subst,
}

-- The child jobs of a request, in order: the type of each as it is queued, then its return.
abbrev pub disk_due : Option DiskSpec → List (Option String)
disk_due none = []
disk_due (some d) = some "create_disk" ∷ none ∷ []

abbrev pub nic_due : Option NicSpec → List (Option String)
nic_due none = []
nic_due (some n) = some "create_nic" ∷ none ∷ []

abbrev pub guest_due : Option GuestConfigSpec → List (Option String)
guest_due none = []
guest_due (some g) = some "initialize_vm" ∷ none ∷ []

abbrev pub later_due : Request → List (Option String)
later_due r = disk_due r.disk_spec ++ (nic_due r.nic_spec ++ guest_due r.guest_config)

abbrev pub due : Request → List (Option String)
due r = some "create_vm" ∷ none ∷ later_due r

module _ (env : Surroundings) (parent : Job) (r : Request) (vm_id : String) where
  abbrev P : Happening → Type 0
  P = IsGiven (some vm_id)

  given_child-Ran :
      (job_type schema_id : String) (fields : Fields) (turn : Turn) (failure : Text) (s : Session)
      → Json.get_field fields "vm_id" ≡ some (text vm_id)
      → Ran
          (some job_type ∷ none ∷ [])
          (All P)
          s.log
          (run_child env parent job_type schema_id fields turn failure s)
  given_child-Ran job_type schema_id fields turn failure s given =
      Logs-Ran job_type P (λ id j. tt) s.log
        (run_child env parent job_type schema_id fields turn failure s)
        (run_child-Logs env parent P job_type schema_id fields turn failure s
          (id-Gives env parent turn job_type schema_id fields s.service vm_id given))

  -- A stage that queues nothing of its own, before one that does.
  create_disk-Ran :
      (o : Option DiskSpec) (s : Session)
      → Ran (disk_due o) (All P) s.log (create_disk env parent o vm_id s)
  unfolding create_disk
  create_disk-Ran none s = ok-Ran {0} P tt s
  create_disk-Ran (some d) s =
      Ran-and_then P s.log (some "create_disk" ∷ none ∷ []) []
        (run_child env parent "create_disk" "disk.create" (set_field d.dump "vm_id" (text vm_id))
          env.disk_turn (codes "Disk creation failed: ") _)
        _
        (given_child-Ran "create_disk" "disk.create" (set_field d.dump "vm_id" (text vm_id))
          env.disk_turn (codes "Disk creation failed: ") _ (get-set_id d.dump vm_id))
        (λ j t. ok-Ran {0} P tt t)

  create_nic-Ran :
      (o : Option NicSpec) (s : Session)
      → Ran (nic_due o) (All P) s.log (create_nic env parent o vm_id s)
  unfolding create_nic
  create_nic-Ran none s = ok-Ran {0} P tt s
  create_nic-Ran (some n) s =
      Ran-and_then P s.log (some "create_nic" ∷ none ∷ []) []
        (run_child env parent "create_nic" "nic.create" (set_field n.dump "vm_id" (text vm_id))
          env.nic_turn (codes "NIC creation failed: ") _)
        _
        (given_child-Ran "create_nic" "nic.create" (set_field n.dump "vm_id" (text vm_id))
          env.nic_turn (codes "NIC creation failed: ") _ (get-set_id n.dump vm_id))
        (λ j t. ok-Ran {0} P tt t)

  send-Ran :
      (family : OsFamily) (config : Config) (s : Session)
      → IsSendable config
      → Ran
          (some "initialize_vm" ∷ none ∷ [])
          (All P)
          s.log
          (send_guest_config env parent r family vm_id config s)
  unfolding send_guest_config
  send-Ran family [] s h = let e : true ≡ false = h.0 in absurd cc
  send-Ran family (entry ∷ config) s h =
      let fields = init_fields env parent r family vm_id (entry ∷ config) in
      let failure = codes "Guest initialization failed: " in
      Ran-and_then P s.log (some "initialize_vm" ∷ none ∷ []) []
        (run_child env parent "initialize_vm" "initialize-vm" fields env.init_turn failure s) _
        (given_child-Ran "initialize_vm" "initialize-vm" fields env.init_turn failure s
          (get-init_fields r family vm_id (entry ∷ config) env parent h.1))
        (λ j t. ok-Ran {0} P tt t)

  initialize-Ran :
      (family : OsFamily) (o : Option GuestConfigSpec) (s : Session)
      → Ran (guest_due o) (All P) s.log (initialize_guest env parent r family vm_id o s)
  unfolding initialize_guest
  initialize-Ran family none s = ok-Ran {0} P tt s
  initialize-Ran family (some g) s =
      send-Ran family (generate_guest_config (some g)) _ (generated-IsSendable g)

  -- What follows once the VM is there.
  abbrev pub finish_stages : OsFamily → Text → Action (Unit {0})
  finish_stages family farewell = do
    create_disk env parent r.disk_spec vm_id
    create_nic env parent r.nic_spec vm_id
    initialize_guest env parent r family vm_id r.guest_config
    say env parent farewell

  pub finish_stages-Ran :
      (family : OsFamily) (farewell : Text) (s : Session)
      → Ran
          (disk_due r.disk_spec ++ (nic_due r.nic_spec ++ guest_due r.guest_config))
          (All P)
          s.log
          (finish_stages family farewell s)
  finish_stages-Ran family farewell s =
      Ran-and_then P s.log (disk_due r.disk_spec) (nic_due r.nic_spec ++ guest_due r.guest_config)
        (create_disk env parent r.disk_spec vm_id s) _ (create_disk-Ran r.disk_spec s)
        (λ a t.
          Ran-and_then P t.log (nic_due r.nic_spec) (guest_due r.guest_config)
            (create_nic env parent r.nic_spec vm_id t) _ (create_nic-Ran r.nic_spec t)
            (λ b u.
              let last : Result (Unit {0}) =
                and_then (initialize_guest env parent r family vm_id r.guest_config u)
                  (λ c. say env parent farewell) in
              subst (λ (names : List (Option String)). Ran names (All P) u.log last)
                (append-nil (guest_due r.guest_config))
                (Ran-and_then P u.log (guest_due r.guest_config) []
                  (initialize_guest env parent r family vm_id r.guest_config u)
                  (λ c. say env parent farewell) (initialize-Ran family r.guest_config u)
                  (λ c v. ok-Ran {0} P tt v))))
