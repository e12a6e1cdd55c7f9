-- ===== src/Jobs/Service/Deployment/Stages.antt =====
-- The stages of `_execute_managed_deployment_job` of server/app/services/job_service.py, in the order
-- in which the code runs them.
use aether_v.GuestConfig.{GuestConfigSpec, generate_guest_config, Config}
use aether_v.Jobs.LineBuffer.{Text}
use aether_v.Jobs.Service.Texts.{codes, strip}
use aether_v.Jobs.Service.{Job, JobService, no_changes, update_job, fields_of}
use aether_v.Jobs.Service.Deployment.{
  OsFamily, family_name, detect_os_family_from_image_name, DiskSpec, NicSpec, Request, Surroundings,
  Action, pure, raise, require, ◌>>=◌, ◌>>◌, validate_job_against_host_config, storage_class_of,
  network_of, extract_vm_id_from_output, image_of, with_config, ok,
}
use aether_v.Jobs.Service.Deployment.ChildJobs.{say, run_child}
use aether_v.Prelude.Dict
use aether_v.Prelude.Json
use aether_v.Prelude.Json.{Fields, text, field, end, set_field}
use aether_v.Prelude.{
  ℕ, zero, suc, ◌+◌, String, not, Option, none, some, ◌⊎◌, inl, inr, [], ◌∷◌, ◌++◌, ◌==◌,
  if◌then◌else◌, eq_string, is_empty, ltb, length,
}
use Prim.Native.Nat.{◌/◌, ◌%◌}

-- The digits of a number below ten to the power of the fuel.
abbrev pub decimal : ℕ → ℕ → Text
decimal zero n = []
decimal (suc fuel) n =
    let rest = decimal fuel (n / 10) in
    if ltb n 10 then (48 + n) ∷ [] else rest ++ (48 + n % 10) ∷ []

-- str(n)
unfoldable pub decimal_of : ℕ → Text
decimal_of n = decimal (suc n) n

module _ (env : Surroundings) (parent : Job) where
  -- The VM and its id, which is kept in the parameters of the deployment.
  abbrev pub write_vm_id : String → Option Job → JobService → JobService
  write_vm_id vm_id none s = s
  write_vm_id vm_id (some j) s =
      update_job j.job_id
        (record no_changes { parameters = some (set_field j.parameters "vm_id" (text vm_id)) }) s

  abbrev pub keep_vm_id : String → Action (Unit {0})
  keep_vm_id vm_id s =
      ok tt
        (record s { service = write_vm_id vm_id (Dict.get s.service.jobs parent.job_id) s.service })

  abbrev pub require_vm_id : Option String → Action String
  require_vm_id none =
      raise (codes "VM creation completed but no VM ID could be extracted from output")
  require_vm_id (some vm_id) =
      if vm_id == ""
      then raise (codes "VM creation completed but no VM ID could be extracted from output")
      else pure vm_id

  unfoldable pub create_vm : Request → OsFamily → Action String
  unfolding run_child extract_vm_id_from_output
  create_vm r family = do
    say env parent (codes "Creating VM '" ++ codes r.vm_name ++ codes "'...")
    result ←
        run_child env parent "create_vm" "vm.create"
          (set_field r.vm_dump "os_family" (text (family_name family))) env.vm_turn
          (codes "VM creation failed: ")
    vm_id ← require_vm_id (extract_vm_id_from_output env.str_of result)
    say env parent (codes "VM created successfully with ID: " ++ codes vm_id)
    keep_vm_id vm_id
    pure vm_id

  unfoldable pub create_disk : Option DiskSpec → String → Action (Unit {0})
  unfolding run_child
  create_disk none vm_id = pure tt
  create_disk (some d) vm_id = do
    say env parent (codes "Creating disk...")
    run_child env parent "create_disk" "disk.create" (set_field d.dump "vm_id" (text vm_id))
        env.disk_turn (codes "Disk creation failed: ")
    say env parent (codes "Disk created successfully")

  unfoldable pub create_nic : Option NicSpec → String → Action (Unit {0})
  unfolding run_child
  create_nic none vm_id = pure tt
  create_nic (some n) vm_id = do
    say env parent (codes "Creating NIC...")
    run_child env parent "create_nic" "nic.create" (set_field n.dump "vm_id" (text vm_id))
        env.nic_turn (codes "NIC creation failed: ")
    say env parent (codes "NIC created successfully")

  -- `init_fields`
  abbrev pub init_fields : Request → OsFamily → String → Config → Fields
  init_fields r family vm_id config =
      set_field
        (with_config config (field "vm_id" (text vm_id) (field "vm_name" (text r.vm_name) end)))
        "os_family" (text (family_name family))

  unfoldable pub send_guest_config : Request → OsFamily → String → Config → Action (Unit {0})
  unfolding run_child
  send_guest_config r family vm_id [] = pure tt
  send_guest_config r family vm_id (entry ∷ config) = do
    run_child env parent "initialize_vm" "initialize-vm"
        (init_fields r family vm_id (entry ∷ config)) env.init_turn
        (codes "Guest initialization failed: ")
    say env parent (codes "Guest configuration sent successfully")

  unfoldable pub initialize_guest :
      Request → OsFamily → String → Option GuestConfigSpec → Action (Unit {0})
  unfolding send_guest_config decimal_of
  initialize_guest r family vm_id none = pure tt
  initialize_guest r family vm_id (some g) = do
    say env parent (codes "Generating guest configuration using Pydantic models...")
    say env parent (
        codes "Generated guest config with "
        ++ decimal_of (length (generate_guest_config (some g)))
        ++ codes " keys")
    send_guest_config r family vm_id (generate_guest_config (some g))

  abbrev pub tell_family : OsFamily → Option Text → Action (Unit {0})
  tell_family family none = pure tt
  tell_family family (some image) =
      if is_empty image
      then pure tt
      else say env parent (
          codes "Detected OS family '"
          ++ codes (family_name family)
          ++ codes "' from image '"
          ++ image
          ++ codes "'")

  -- What follows once the request is read.
  unfoldable pub deploy : Request → Action (Unit {0})
  unfolding create_vm create_disk create_nic initialize_guest validate_job_against_host_config
  deploy r = do
    let host = strip r.requested_host
    let family = detect_os_family_from_image_name (image_of r.disk_spec)
    require (not (is_empty host)) (codes "Managed deployment job is missing a target host")
    say env parent (codes "Managed deployment starting - using Pydantic protocol")
    require env.prepared (codes "Failed to prepare host " ++ host ++ codes " for deployment")
    validate_job_against_host_config env.host_config (storage_class_of r) (network_of r.nic_spec)
        host
    tell_family family (image_of r.disk_spec)
    vm_id ← create_vm r family
    create_disk r.disk_spec vm_id
    create_nic r.nic_spec vm_id
    initialize_guest r family vm_id r.guest_config
    say env parent (
        codes "Managed deployment complete. VM '"
        ++ codes r.vm_name
        ++ codes "' fully deployed on "
        ++ host
        ++ codes ".")

  abbrev pub deploy_read : Request ⊎ Text → Action (Unit {0})
  deploy_read (inl r) = deploy r
  deploy_read (inr e) = raise e

  unfoldable pub execute_managed_deployment_job : Action (Unit {0})
  unfolding deploy
  execute_managed_deployment_job =
      deploy_read (env.read_request (fields_of (Json.get_field parent.parameters "request")))
