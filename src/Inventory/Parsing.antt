-- ===== src/Inventory/Parsing.antt =====
-- `_parse_inventory_snapshot` of server/app/services/inventory_service.py: from a host's answer to the
-- machines of its snapshot. Whether Pydantic refuses the machine of an entry is an argument.
use aether_v.Prelude.Json
use aether_v.Prelude.Json.{
  Json, Items, Fields, null, bool, int, float, text, arr, obj, nil, cons, truthy, end, field,
}
use aether_v.Jobs.LineBuffer.{Text}
use aether_v.Jobs.Service.Texts.{codes}
use aether_v.Prelude.{
  ℕ, Bool, ◌||◌, ◌&&◌, not, Option, none, some, ◌⊎◌, inl, inr, List, [], ◌∷◌, ◌++◌, ◌==◌,
  if◌then◌else◌, eq_string, nat_eq,
}
use aether_v.Inventory.{
  or_else, VmState, running, off, paused, saved, starting, stopping, unknown, creating, deleting,
  Vm, VmDetails,
}
use aether_v.Inventory.Coercion.{
  Builtins, at, string_of, coerce_float, coerce_int, coerce_str, coerce_bool, infer_os_family,
  normalise_ip_list, collect_ips_from_networks, deserialize_networks, deserialize_disks,
}
use aether_v.Inventory.Refresh.{Collected, collected, failed}

-- VMState(state_str)
abbrev pub state_of : Json → VmState
state_of (text s) =
    if s == "Running"
    then running
    else if s == "Off"
    then off
    else if s == "Paused"
    then paused
    else if s == "Saved"
    then saved
    else if s == "Starting"
    then starting
    else if s == "Stopping"
    then stopping
    else if s == "Creating"
    then creating
    else if s == "Deleting"
    then deleting
    else unknown
state_of other = unknown

-- Whether a float of 64 bits is 0.0 or -0.0.
abbrev pub is_zero : ℕ → Bool
is_zero bits = nat_eq bits 0 || nat_eq bits 0x8000000000000000

-- The memory, or the start-up memory if there is none.
abbrev pub memory_of : ℕ → Option ℕ → ℕ
memory_of memory none = memory
memory_of memory (some startup) =
    if is_zero memory && not (is_zero startup) then startup else memory

abbrev pub or_zero : Option ℕ → ℕ
or_zero none = 0
or_zero (some n) = n

abbrev pub name_of : Option Json → Text
name_of (some (text s)) = codes s
name_of other = []

abbrev pub first_of : List Text → Option Text
first_of [] = none
first_of (ip ∷ ips) = some ip

abbrev pub or_ips : List Text → List Text → List Text
or_ips [] others = others
or_ips (ip ∷ ips) others = ip ∷ ips

module _ (b : Builtins) (refused : Fields → Option Text) (hostname : Text) where
  -- The machine of an entry.
  unfoldable pub vm_of : Fields → Vm
  unfolding coerce_float coerce_int coerce_str coerce_bool infer_os_family normalise_ip_list
      collect_ips_from_networks deserialize_networks deserialize_disks
  vm_of d =
      let startup = coerce_float b (at d "StartupMemoryGB") none in
      let os_name = coerce_str b (at d "OperatingSystem") in
      let networks = deserialize_networks b (at d "Networks") in
      let ips =
        or_ips (normalise_ip_list b (at d "IPAddresses"))
          (collect_ips_from_networks b networks []) in
      let details : VmDetails = record {
        memory_gb = memory_of (or_zero (coerce_float b (at d "MemoryGB") (some 0))) startup;
        memory_startup_gb = startup;
        memory_min_gb = coerce_float b (at d "MinimumMemoryGB") none;
        memory_max_gb = coerce_float b (at d "MaximumMemoryGB") none;
        dynamic_memory_enabled = coerce_bool b (at d "DynamicMemoryEnabled");
        ip_address = or_else (coerce_str b (at d "IPAddress")) (first_of ips);
        ip_addresses = ips;
        notes = coerce_str b (at d "Notes");
        os_family = infer_os_family b os_name;
        os_name = os_name;
        generation = coerce_int b (at d "Generation") none;
        version = coerce_str b (at d "Version");
        created_at = at d "CreationTime";
        disks = deserialize_disks b (at d "Disks");
        networks = networks;
      } in
      record {
        id = coerce_str b (at d "Id");
        name = name_of (Json.get_field d "Name");
        host = hostname;
        state = state_of (at d "State");
        cpu_cores = or_zero (coerce_int b (at d "ProcessorCount") (some 0));
        details = details;
      }

  abbrev pub after_refusal : Option Text → Vm → List Vm ⊎ Text → List Vm ⊎ Text
  after_refusal (some e) vm rest = inr e
  after_refusal none vm (inl vms) = inl (vm ∷ vms)
  after_refusal none vm (inr e) = inr e

  -- The loop of `_deserialize_vms`; the first entry that is refused ends it.
  unfoldable pub vms_of_items : Items → List Vm ⊎ Text
  unfolding vm_of
  vms_of_items nil = inl []
  vms_of_items (cons (obj d) items) = after_refusal (refused d) (vm_of d) (vms_of_items items)
  vms_of_items (cons other items) = vms_of_items items

  abbrev pub type_name : Json → Text
  type_name null = codes "NoneType"
  type_name (bool v) = codes "bool"
  type_name (int minus n) = codes "int"
  type_name (float bits) = codes "float"
  type_name (text s) = codes "str"
  type_name (arr items) = codes "list"
  type_name (obj fields) = codes "dict"

  unfoldable pub deserialize_vms : Json → List Vm ⊎ Text
  unfolding vms_of_items
  deserialize_vms null = inl []
  deserialize_vms (obj d) = vms_of_items (cons (obj d) nil)
  deserialize_vms (arr items) = vms_of_items items
  deserialize_vms other =
      inr (codes "Unexpected VM payload type from " ++ hostname ++ codes ": " ++ type_name other)

  abbrev pub section_of : Json → Fields
  section_of (obj fields) = fields
  section_of other = end

  -- `host_section.get("ClusterName") or "Default"`
  abbrev pub cluster_of_section : Json → Option Text
  cluster_of_section v = if truthy v then some (string_of b v) else some (codes "Default")

  abbrev pub collected_of : Option Text → ℕ → Fields → List Vm ⊎ Text → Collected
  collected_of cluster cores details (inl vms) = collected cluster cores details vms
  collected_of cluster cores details (inr e) = failed e

  unfoldable pub parse_inventory_snapshot : Fields → Collected
  unfolding deserialize_vms coerce_int coerce_float
  parse_inventory_snapshot payload =
      let host = section_of (at payload "Host") in
      let error = at host "Error" in
      let memory = or_zero (coerce_float b (at host "TotalMemoryGB") (some 0)) in
      if truthy error
      then failed (codes "Inventory script reported an error: " ++ string_of b error)
      else collected_of (cluster_of_section (at host "ClusterName"))
          (or_zero (coerce_int b (at host "TotalCpuCores") (some 0)))
          (field "total_memory_gb" (float memory) end)
          (deserialize_vms (at payload "VirtualMachines"))
