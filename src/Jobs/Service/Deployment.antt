-- ===== src/Jobs/Service/Deployment.antt =====
-- `_execute_managed_deployment_job` of server/app/services/job_service.py, which queues the child
-- jobs of a deployment and waits for each. What other tasks do to the store between two polls is an
-- argument, as are the requests that Pydantic reads and the configuration of the host.
pub mod ChildJobs
pub mod Stages
pub mod Ran
pub mod Logged
pub mod Given
pub mod Due
pub mod Made
pub mod GuestFields
pub mod Order
pub mod Errors
use aether_v.GuestConfig.{GuestConfigSpec, generate_guest_config, Config}
use aether_v.Jobs.LineBuffer.{Text}
use aether_v.Jobs.Service.Texts.{codes, strip, strip_string, lower, has_part}
use aether_v.Jobs.Service.{
  Job, JobStatus, completed, JobService, no_changes, append_job_output, update_job, fields_of,
}
use aether_v.Jobs.Service.Children.{
  Poll, not_found, waits, returns, poll_child_job, update_child_job_summary,
}
use aether_v.Jobs.Service.Intake.{submit_resource_job, Submitted}
use aether_v.Jobs.Service.Process.{field_or_none}
use aether_v.Prelude.Dict
use aether_v.Prelude.Json
use aether_v.Prelude.Json.{Json, Fields, int, text, obj, end, field, set_field, truthy}
use aether_v.Prelude.{
  ℕ, String, Bool, true, false, not, ◌||◌, Option, none, some, ◌⊎◌, inl, inr, List, [], ◌∷◌, ◌++◌,
  ◌==◌, if◌then◌else◌, eq_string, is_empty, any, nat_eq,
}

pub data OsFamily : Type 0 where
  windows linux : OsFamily

-- `.value` of an OS family
abbrev pub family_name : OsFamily → String
family_name windows = "windows"
family_name linux = "linux"

abbrev pub linux_image_keywords : List String
linux_image_keywords =
    "linux" ∷ "ubuntu" ∷ "debian" ∷ "centos" ∷ "rhel" ∷ "redhat" ∷ "fedora" ∷ "suse" ∷ "opensuse"
    ∷ "arch" ∷ "alpine" ∷ "rocky" ∷ "alma" ∷ "oracle linux" ∷ "amazon linux" ∷ "kali" ∷ "mint" ∷ []

unfoldable pub detect_os_family_from_image_name : Option Text → OsFamily
unfolding strip
detect_os_family_from_image_name none = windows
detect_os_family_from_image_name (some name) =
    if is_empty (strip name)
    then windows
    else if any (λ keyword. has_part (codes keyword) (lower name)) linux_image_keywords
    then linux
    else windows

-- What the deployment reads of a disk and of a network adapter, and their dumps.
pub record DiskSpec : Type 0 where
  pub image_name : Option Text
  pub storage_class : Option String
  pub dump : Fields

pub record NicSpec : Type 0 where
  pub network : String
  pub dump : Fields

pub record Request : Type 0 where
  pub vm_name : String
  pub vm_storage_class : Option String
  pub vm_dump : Fields
  pub disk_spec : Option DiskSpec
  pub nic_spec : Option NicSpec
  pub guest_config : Option GuestConfigSpec
  pub requested_host : Text

-- The names in a host's configuration, where it has the lists.
pub record HostConfig : Type 0 where
  pub networks : Option (List String)
  pub storage_classes : Option (List String)

-- A child job: its id, its time, and what happens to the store before each poll.
pub record Turn : Type 0 where
  pub new_id : String
  pub now : ℕ
  pub rounds : List (JobService → JobService)

pub record Surroundings : Type 0 where
  pub read_request : Fields → Request ⊎ Text
  pub prepared : Bool
  pub host_config : Option HostConfig
  pub str_of : Json → String
  pub vm_turn : Turn
  pub disk_turn : Turn
  pub nic_turn : Turn
  pub init_turn : Turn

-- What a deployment got of its child jobs: the store after a submission, with the job that the
-- submission returned; and the job that the wait for a child job returned, with the
-- id of that child.
pub data Happening : Type 0 where
  child_queued : JobService → Job → Happening
  child_returned : String → Job → Happening

-- The store, and what happened so far.
pub record Session : Type 0 where
  pub service : JobService
  pub log : List Happening

pub data Result {ℓ} (A : Type ℓ) : Type ℓ where
  ok : A → Session → Result A
  raised : Text → Session → Result A
  unfinished : Session → Result A  -- the wait for a child job goes on

abbrev pub Action {ℓ} : Type ℓ → Type ℓ
Action A = Session → Result A

abbrev pub pure {ℓ} : {A : Type ℓ} → A → Action A
pure a s = ok a s

abbrev pub and_then {ℓ κ} : {A : Type ℓ} {B : Type κ} → Result A → (A → Action B) → Result B
and_then (ok a s) f = f a s
and_then (raised e s) f = raised e s
and_then (unfinished s) f = unfinished s

infixl 5 ◌>>=◌ ◌>>◌
abbrev pub ◌>>=◌ {ℓ κ} : {A : Type ℓ} {B : Type κ} → Action A → (A → Action B) → Action B
m >>= f = λ s. and_then (m s) f

abbrev pub ◌>>◌ {ℓ κ} : {A : Type ℓ} {B : Type κ} → Action A → Action B → Action B
m >> n = m >>= λ a. n

abbrev pub raise {ℓ} : {A : Type ℓ} → Text → Action A
raise e s = raised e s

abbrev pub require : Bool → Text → Action (Unit {0})
require true e s = ok tt s
require false e s = raised e s

-- `value`, if it is true
abbrev pub provided : Option String → Option String
provided none = none
provided (some s) = if s == "" then none else some s

abbrev pub has_name : Option (List String) → String → Bool
has_name none name = false
has_name (some names) name = any (λ n. n == name) names

-- `validation_fields`: the storage class, of the disk before that of the machine, and the network.
abbrev pub disk_storage_class : Option DiskSpec → Option String
disk_storage_class none = none
disk_storage_class (some d) = provided d.storage_class

abbrev pub either {ℓ} : {A : Type ℓ} → Option A → Option A → Option A
either none o = o
either (some a) o = some a

abbrev pub storage_class_of : Request → Option String
storage_class_of r = either (disk_storage_class r.disk_spec) (provided r.vm_storage_class)

abbrev pub network_of : Option NicSpec → Option String
network_of none = none
network_of (some n) = provided (some n.network)

-- ', '.join(available) if available else 'none'
abbrev pub join_rest : List String → Text
join_rest [] = []
join_rest (name ∷ names) = codes ", " ++ codes name ++ join_rest names

abbrev pub listed : Option (List String) → Text
listed (some (name ∷ names)) = codes name ++ join_rest names
listed other = codes "none"

abbrev pub require_name :
    Text → Text → Option (List String) → Option String → Text → Action (Unit {0})
require_name what plural names none host = pure tt
require_name what plural names (some name) host = require (has_name names name) (
    what
    ++ codes " '"
    ++ codes name
    ++ codes "' not found on host "
    ++ host
    ++ codes ". Available "
    ++ plural
    ++ codes ": "
    ++ listed names)

unfoldable pub validate_job_against_host_config :
    Option HostConfig → Option String → Option String → Text → Action (Unit {0})
validate_job_against_host_config none storage_class network host = raise (
    codes "Host resources configuration not found on "
    ++ host
    ++ codes
        ". Ensure C:\\ProgramData\\Aether-V\\hostresources.json or hostresources.yaml exists and is valid.")
validate_job_against_host_config (some config) storage_class network host = do
  require_name (codes "Network") (codes "networks") config.networks network host
  require_name (codes "Storage class") (codes "storage classes") config.storage_classes
      storage_class host

-- `_extract_vm_id_from_output`
abbrev pub vm_id_of : (Json → String) → Json → Option String
vm_id_of str_of (text t) = if t == "" then none else some (strip_string t)
vm_id_of str_of other = if truthy other then some (strip_string (str_of other)) else none

unfoldable pub extract_vm_id_from_output : (Json → String) → Job → Option String
unfolding strip_string
extract_vm_id_from_output str_of j =
    vm_id_of str_of (field_or_none (fields_of (Json.get_field j.parameters "result_data")) "vm_id")

-- `vm_job_result.error or 'unknown error'`
abbrev pub error_of : Option Text → Text
error_of none = codes "unknown error"
error_of (some e) = if is_empty e then codes "unknown error" else e

abbrev pub is_completed : JobStatus → Bool
is_completed completed = true
is_completed other = false

abbrev pub image_of : Option DiskSpec → Option Text
image_of none = none
image_of (some d) = d.image_name

-- {**fields, ...}: the fields of a guest's configuration, after some others.
abbrev pub with_config : Config → Fields → Fields
with_config [] fields = fields
with_config ((key, value) ∷ config) fields = with_config config (set_field fields key value)
