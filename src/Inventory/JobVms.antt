-- ===== src/Inventory/JobVms.antt =====
-- The machines that a running job creates or deletes, and the lookups, of
-- server/app/services/inventory_service.py.
use aether_v.Prelude.Dict
use aether_v.Prelude.Dict.{Dict, values}
use aether_v.Jobs.LineBuffer.{Text}
use aether_v.Jobs.Service.Texts.{lower}
use aether_v.Prelude.{
  ℕ, Bool, true, false, ◌||◌, not, Option, none, some, List, [], ◌∷◌, ◌==◌, if◌then◌else◌, eq_text,
  eq_nat, is_empty, filter,
}
use aether_v.Inventory.{
  no_details, VmState, creating, deleting, Vm, Host, Fleet, Inventory, vm_key, add, or_empty,
}
use aether_v.Inventory.Machines.{load, find_vm, index_of, set_vm, remove_vm, set_state}

-- VM(name=..., host=..., state=..., cpu_cores=0, memory_gb=0.0)
abbrev pub placeholder_vm : Text → Text → VmState → Vm
placeholder_vm name host state = record {
  id = none;
  name = name;
  host = host;
  state = state;
  cpu_cores = 0;
  details = no_details;
}

-- `if not job_id or not vm_name or not host: return`
abbrev pub is_unnamed : Text → Text → Text → Bool
is_unnamed job_id name host = is_empty job_id || is_empty name || is_empty host

-- self._job_vm_placeholders.setdefault(job_id, set()).add(key)
abbrev pub hold : Text → Text → Dict Text (List Text) → Dict Text (List Text)
hold job_id key d = Dict.put d job_id (add (or_empty (Dict.get d job_id)) key)

unfoldable pub track_job_vm : Text → Text → Text → Inventory → Inventory
track_job_vm job_id name host s =
    let key = vm_key host name in
    if is_unnamed job_id name host then s else record s {
      fleet = set_vm key (placeholder_vm name host creating) s.fleet;
      job_vm_placeholders = hold job_id key s.job_vm_placeholders;
      job_vm_originals = Dict.remove s.job_vm_originals job_id;
    }

-- vm.state in {VMState.CREATING, VMState.DELETING}
abbrev pub is_transient : Option Vm → Bool
is_transient none = false
is_transient (some vm) = elim vm.state [ creating ↦ true | deleting ↦ true | _ ↦ false ]

-- `for key in keys:`, removing what is still transient
unfoldable pub drop_transient : List Text → Fleet → Fleet
drop_transient [] f = f
drop_transient (key ∷ ks) f =
    drop_transient ks (if is_transient (find_vm f key) then remove_vm key f else f)

unfoldable pub clear_job_vm : Text → Inventory → Inventory
unfolding drop_transient
clear_job_vm job_id s = record s {
  fleet = drop_transient (or_empty (Dict.get s.job_vm_placeholders job_id)) s.fleet;
  job_vm_placeholders = Dict.remove s.job_vm_placeholders job_id;
  job_vm_originals = Dict.remove s.job_vm_originals job_id;
}

-- The machine as `mark_vm_deleting` leaves it.
abbrev pub mark_found : Text → Text → Text → Option Vm → Fleet → Fleet
mark_found key name host none f = set_vm key (placeholder_vm name host deleting) f
mark_found key name host (some vm) f = set_state key deleting f

unfoldable pub mark_vm_deleting : Text → Text → Text → Inventory → Inventory
mark_vm_deleting job_id name host s =
    let key = vm_key host name in
    let existing = find_vm s.fleet key in
    let originals = or_empty (Dict.get s.job_vm_originals job_id) in
    if is_unnamed job_id name host then s else record s {
      fleet = mark_found key name host existing s.fleet;
      job_vm_originals = Dict.put s.job_vm_originals job_id (Dict.put originals key existing);
      job_vm_placeholders = hold job_id key s.job_vm_placeholders;
    }

-- original_map.get(key), of a table whose values may be None
abbrev pub or_none {ℓ} : {A : Type ℓ} → Option (Option A) → Option A
or_none none = none
or_none (some o) = o

abbrev pub restore : Text → Option Vm → Fleet → Fleet
restore key none f = remove_vm key f
restore key (some vm) f = set_vm key vm f

unfoldable pub finalize_vm_deletion : Text → Text → Text → Bool → Inventory → Inventory
unfolding drop_transient
finalize_vm_deletion job_id name host success s =
    let key = vm_key host name in
    let original = or_none (Dict.get (or_empty (Dict.get s.job_vm_originals job_id)) key) in
    let held = or_empty (Dict.get s.job_vm_placeholders job_id) in
    let finished = if success then remove_vm key s.fleet else restore key original s.fleet in
    if is_unnamed job_id name host then s else record s {
      fleet = drop_transient (filter (λ k. not (k == key)) held) finished;
      job_vm_originals = Dict.remove s.job_vm_originals job_id;
      job_vm_placeholders = Dict.remove s.job_vm_placeholders job_id;
    }

-- The objects that `vms` gives, in order.
unfoldable pub vm_list : Dict ℕ Vm → Dict Text ℕ → List Vm
vm_list objects [] = []
vm_list objects ((key, a) ∷ d) = elim (Dict.get objects a) [
  | none ↦ vm_list objects d
  | some vm ↦ vm ∷ vm_list objects d
]

unfoldable pub get_all_vms : Inventory → List Vm
unfolding vm_list
get_all_vms s = vm_list s.fleet.objects s.fleet.vms

unfoldable pub get_host_vms : Text → Inventory → List Vm
unfolding get_all_vms
get_host_vms hostname s = filter (λ vm. vm.host == hostname) (get_all_vms s)

unfoldable pub get_vm : Text → Text → Inventory → Option Vm
get_vm hostname name s = find_vm s.fleet (vm_key hostname name)

unfoldable pub get_connected_hosts : Inventory → List Host
get_connected_hosts s = filter (λ h. h.connected) (values s.hosts)

unfoldable pub get_disconnected_hosts : Inventory → List Host
get_disconnected_hosts s = filter (λ h. not h.connected) (values s.hosts)

-- `candidate.id and candidate.id.lower() == vm_id.lower()`
abbrev pub has_index : Text → Option Text → Bool
has_index i none = false
has_index i (some j) = j == i

-- The address of the first machine of `vms` with an id, by the scan of `get_vm_by_id`.
unfoldable pub scan : Dict ℕ Vm → Text → Dict Text ℕ → Option ℕ
scan objects i [] = none
scan objects i ((key, a) ∷ d) =
    let rest = scan objects i d in
    elim (Dict.get objects a) [
      | none ↦ rest
      | some vm ↦ if has_index i (index_of vm.id) then some a else rest
    ]

-- What the scan found goes into the index.
abbrev pub index_found : Text → Option ℕ → Fleet → Fleet × Option ℕ
index_found i none f = (f, none)
index_found i (some a) f = (record f { vms_by_id = Dict.put f.vms_by_id i a }, some a)

abbrev pub find_index : Text → Option ℕ → Fleet → Fleet × Option ℕ
find_index i (some a) f = (f, some a)
find_index i none f = index_found i (scan f.objects i f.vms) f

-- The fleet that `get_vm_by_id` leaves, and the address of what it returns.
unfoldable pub find_by_id : Text → Fleet → Fleet × Option ℕ
unfolding scan
find_by_id vm_id f =
    let i = lower vm_id in
    if is_empty vm_id then (f, none) else find_index i (Dict.get f.vms_by_id i) f

unfoldable pub get_vm_by_id : Text → Inventory → Inventory × Option Vm
unfolding find_by_id
get_vm_by_id vm_id s =
    let (f, a) = find_by_id vm_id s.fleet in (record s { fleet = f }, load f.objects a)
