-- ===== src/Inventory/Machines.antt =====
-- The tables of machines and placeholders of server/app/services/inventory_service.py.
use aether_v.Inventory.{VmState, Vm, Fleet, is_of_host, contains, discard}
use aether_v.Prelude.Dict
use aether_v.Prelude.Dict.{Dict, values}
use aether_v.Jobs.LineBuffer.{Text}
use aether_v.Jobs.Service.Texts.{lower}
use aether_v.Prelude.{
  ℕ, suc, ◌&&◌, not, Option, none, some, List, [], ◌∷◌, if◌then◌else◌, eq_text, eq_nat, is_empty,
  filter, flatten,
}

-- `vm.id.lower()`, of an id that is true
abbrev pub index_of : Option Text → Option Text
index_of none = none
index_of (some id) = if is_empty id then none else some (lower id)

-- The object at an address that a table gave.
abbrev pub load : Dict ℕ Vm → Option ℕ → Option Vm
load objects none = none
load objects (some a) = Dict.get objects a

-- self.vms.get(key)
unfoldable pub find_vm : Fleet → Text → Option Vm
find_vm f key = load f.objects (Dict.get f.vms key)

abbrev pub index_of_vm : Option Vm → Option Text
index_of_vm none = none
index_of_vm (some vm) = index_of vm.id

-- self.vms_by_id.pop(id, None), for the id of a machine if it has one
abbrev pub unindex : Option Text → Dict Text ℕ → Dict Text ℕ
unindex none d = d
unindex (some i) d = Dict.remove d i

abbrev pub reindex : Option Text → ℕ → Dict Text ℕ → Dict Text ℕ
reindex none a d = d
reindex (some i) a d = Dict.put d i a

-- `_set_vm`, with an object that has not been in a table
unfoldable pub set_vm : Text → Vm → Fleet → Fleet
set_vm key vm f =
    let a = f.next_object in
    let by_id = unindex (index_of_vm (find_vm f key)) f.vms_by_id in
    record {
      objects = Dict.put f.objects a vm;
      next_object = suc a;
      vms = Dict.put f.vms key a;
      vms_by_id = reindex (index_of vm.id) a by_id;
    }

-- `_remove_vm`
unfoldable pub remove_vm : Text → Fleet → Fleet
remove_vm key f = record f {
  vms = Dict.remove f.vms key;
  vms_by_id = unindex (index_of_vm (find_vm f key)) f.vms_by_id;
}

-- `for key in keys: self._remove_vm(key)`
unfoldable pub remove_each : List Text → Fleet → Fleet
remove_each [] f = f
remove_each (key ∷ ks) f = remove_each ks (remove_vm key f)

-- `existing.state = state`, on the object at an address
abbrev pub overwrite : ℕ → VmState → Fleet → Option Vm → Fleet
overwrite a state f none = f
overwrite a state f (some vm) = record f {
  objects = Dict.put f.objects a (record vm { state = state });
}

abbrev pub write_state : VmState → Fleet → Option ℕ → Fleet
write_state state f none = f
write_state state f (some a) = overwrite a state f (Dict.get f.objects a)

unfoldable pub set_state : Text → VmState → Fleet → Fleet
set_state key state f = write_state state f (Dict.get f.vms key)

-- `_active_placeholder_keys`
unfoldable pub active_placeholder_keys : Dict Text (List Text) → List Text
active_placeholder_keys placeholders = flatten (values placeholders)

-- `_detach_placeholder_key`: the key leaves each set, and a set that it empties leaves the table.
unfoldable pub detach_placeholder_key : Text → Dict Text (List Text) → Dict Text (List Text)
detach_placeholder_key key [] = []
detach_placeholder_key key ((job, held) ∷ d) =
    let rest = detach_placeholder_key key d in
    let left = discard held key in
    if contains held key && is_empty left then rest else (job, left) ∷ rest

-- The keys of `vms`, in order.
abbrev pub vm_keys : Fleet → List Text
vm_keys f = Dict.keys f.vms

-- `_clear_host_vms`, with the keys that it keeps
unfoldable pub clear_host_vms : Text → List Text → Fleet → Fleet
clear_host_vms hostname kept f =
    remove_each (filter (λ key. is_of_host hostname key && not (contains kept key)) (vm_keys f)) f
