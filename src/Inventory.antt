-- ===== src/Inventory.antt =====
-- The inventory of server/app/services/inventory_service.py: its state, and
-- what its parts share. Texts are lists of code points, times and durations are in
-- milliseconds. A virtual machine is an object at an address, since `vms` and `vms_by_id` share
-- it and `mark_vm_deleting` writes to it.
pub mod Machines
pub mod Readiness
pub mod Snapshots
pub mod Valid
pub mod Tables
pub mod Deletion
pub mod Contents
pub mod Refreshed
pub mod Sequences
pub mod Ordering
pub mod Pruning
pub mod Counting
pub mod Reachable
pub mod Told
pub mod Lookup
pub mod Sound
pub mod Runs
pub mod JobVms
pub mod Clusters
pub mod Prune
pub mod Refresh
pub mod Coercion
pub mod Parsing
pub mod Collection
use aether_v.Prelude.Dict
use aether_v.Prelude.Dict.{Dict, values}
use aether_v.Jobs.Service.Deployment.{OsFamily}
use aether_v.Prelude.Json.{Json, null, Fields}
use aether_v.Jobs.LineBuffer.{Text}
use aether_v.Jobs.Service.Texts.{codes, lower}
use aether_v.Prelude.{
  ℕ, suc, Bool, true, false, ◌&&◌, ◌||◌, not, Option, none, some, List, [], ◌∷◌, ◌++◌, map, ◌==◌,
  if◌then◌else◌, eq_text, eq_nat, is_empty, any, filter, flatten, nat_eq, String,
}

pub data VmState : Type 0 where
  running off paused saved starting stopping unknown creating deleting : VmState

pub record VmDisk : Type 0 where
  pub id : Option Text
  pub name : Json
  pub path : Json
  pub location : Json
  pub type : Json
  pub size_gb : Option ℕ
  pub file_size_gb : Option ℕ

pub record VmNetworkAdapter : Type 0 where
  pub id : Option Text
  pub name : Json
  pub adapter_name : Json
  pub network : Json
  pub virtual_switch : Json
  pub vlan : Option Text
  pub network_name : Option Text
  pub ip_addresses : List Text
  pub mac_address : Option Text

-- The fields that the service only carries; a float is its 64 bits.
pub record VmDetails : Type 0 where
  pub memory_gb : ℕ
  pub memory_startup_gb : Option ℕ
  pub memory_min_gb : Option ℕ
  pub memory_max_gb : Option ℕ
  pub dynamic_memory_enabled : Option Bool
  pub ip_address : Option Text
  pub ip_addresses : List Text
  pub notes : Option Text
  pub os_family : Option OsFamily
  pub os_name : Option Text
  pub generation : Option ℕ
  pub version : Option Text
  pub created_at : Json
  pub disks : List VmDisk
  pub networks : List VmNetworkAdapter

-- The defaults of the model.
abbrev pub no_details : VmDetails
no_details = record {
  memory_gb = 0;
  memory_startup_gb = none;
  memory_min_gb = none;
  memory_max_gb = none;
  dynamic_memory_enabled = none;
  ip_address = none;
  ip_addresses = [];
  notes = none;
  os_family = none;
  os_name = none;
  generation = none;
  version = none;
  created_at = null;
  disks = [];
  networks = [];
}

pub record Vm : Type 0 where
  pub id : Option Text
  pub name : Text
  pub host : Text
  pub state : VmState
  pub cpu_cores : ℕ
  pub details : VmDetails

pub record Host : Type 0 where
  pub hostname : Text
  pub cluster : Option Text
  pub connected : Bool
  pub last_seen : Option ℕ
  pub error : Option Text
  pub total_cpu_cores : ℕ
  pub details : Fields

pub record Cluster : Type 0 where
  pub name : Text
  pub hosts : List Text
  pub connected_hosts : ℕ
  pub total_hosts : ℕ

-- The objects, `vms` and `vms_by_id`, both by address.
pub record Fleet : Type 0 where
  pub objects : Dict ℕ Vm
  pub next_object : ℕ
  pub vms : Dict Text ℕ
  pub vms_by_id : Dict Text ℕ

-- A call of the notification service.
pub data Notice : Type 0 where
  preparing_shown preparing_cleared slow_shown slow_cleared reconnected unreachable : Text → Notice
  overrun_shown overrun_cleared status_empty status_current : Notice

pub record Inventory : Type 0 where
  pub fleet : Fleet
  pub hosts : Dict Text Host
  pub clusters : Dict Text Cluster
  pub job_vm_placeholders : Dict Text (List Text)
  pub job_vm_originals : Dict Text (Dict Text (Option Vm))
  pub host_last_refresh : Dict Text ℕ
  pub preparing_hosts : List Text
  pub slow_hosts : List Text
  pub total_duration : ℕ
  pub samples : ℕ
  pub next_sequence : ℕ
  pub last_applied : Dict Text ℕ
  pub overrun_active : Bool
  pub last_refresh : Option ℕ
  pub notices : List Notice

abbrev pub empty_fleet : Fleet
empty_fleet = record { objects = []; next_object = 0; vms = []; vms_by_id = [] }

abbrev pub empty_inventory : Inventory
empty_inventory = record {
  fleet = empty_fleet;
  hosts = [];
  clusters = [];
  job_vm_placeholders = [];
  job_vm_originals = [];
  host_last_refresh = [];
  preparing_hosts = [];
  slow_hosts = [];
  total_duration = 0;
  samples = 0;
  next_sequence = 0;
  last_applied = [];
  overrun_active = false;
  last_refresh = none;
  notices = [];
}

-- f"{host}:{name}"
unfoldable pub vm_key : Text → Text → Text
vm_key host name = host ++ 58 ∷ name

-- text.startswith(prefix)
unfoldable pub starts_with : Text → Text → Bool
starts_with [] text = true
starts_with (c ∷ prefix) [] = false
starts_with (c ∷ prefix) (d ∷ text) = nat_eq c d && starts_with prefix text

-- key.startswith(f"{hostname}:")
abbrev pub is_of_host : Text → Text → Bool
is_of_host hostname key = starts_with (hostname ++ 58 ∷ []) key

-- x in xs, on a set
abbrev pub contains : List Text → Text → Bool
contains xs x = any (λ y. y == x) xs

-- s.add(x)
abbrev pub add : List Text → Text → List Text
add xs x = if contains xs x then xs else xs ++ x ∷ []

-- s.discard(x)
abbrev pub discard : List Text → Text → List Text
discard xs x = filter (λ y. not (y == x)) xs

abbrev pub or_empty {ℓ} : {A : Type ℓ} → Option (List A) → List A
or_empty none = []
or_empty (some xs) = xs

-- The first of two values that is there.
abbrev pub or_else {ℓ} : {A : Type ℓ} → Option A → Option A → Option A
or_else none o = o
or_else (some a) o = some a
