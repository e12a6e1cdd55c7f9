-- ===== src/Inventory/Contents.antt =====
-- What the machines of a host are after a snapshot of it, in server/app/services/inventory_service.py.
use aether_v.Prelude.Dict
use aether_v.Prelude.Dict.{Dict, get-put, get-remove, keys}
use aether_v.Jobs.LineBuffer.{Text}
use aether_v.Prelude.{
  ℕ, ◌≡◌, refl, Bool, true, false, not, ◌&&◌, Option, none, some, List, [], ◌∷◌, ◌++◌, ◌==◌,
  if◌then◌else◌, eq_text, arith, inl, inr, Bool-cases, Option-cases, same_text_iff, filter, eq_self,
  is_empty, ap, is_some, map, flatten, nat_eq_iff, subst, sym,
}
use aether_v.Inventory.{
  or_else, Vm, Fleet, Inventory, vm_key, contains, discard, is_of_host, starts_with,
}
use aether_v.Inventory.Machines.{
  find_vm, set_vm, remove_each, vm_keys, active_placeholder_keys, detach_placeholder_key,
  clear_host_vms,
}
use aether_v.Inventory.Snapshots.{place_vms, drop_unexpected, unexpected}
use aether_v.Inventory.Valid.{IsFleet, set_vm-IsFleet}
use aether_v.Inventory.Tables.{find-set_vm, find-remove_each}
use aether_v.Inventory.Told.{contains-append, contains-discard}

-- The last of some machines that stands under a key of a host.
abbrev pub newest : Text → List Vm → Text → Option Vm
newest hostname [] key = none
newest hostname (vm ∷ vms) key =
    or_else (newest hostname vms key) (if vm_key hostname vm.name == key then some vm else none)

find-place_vms :
    (hostname : Text) (vms : List Vm) (s : Inventory) (k : Text)
    → IsFleet s.fleet
    → find_vm (place_vms hostname vms s).fleet k
      ≡ or_else (newest hostname vms k) (find_vm s.fleet k)
unfolding place_vms
find-place_vms hostname [] s k h = refl
find-place_vms hostname (vm ∷ vms) s k h =
    let key = vm_key hostname vm.name in
    let t : Inventory = record s {
      job_vm_placeholders = detach_placeholder_key key s.job_vm_placeholders;
      fleet = set_vm key vm s.fleet;
    } in
    rw (find-place_vms hostname vms t k (set_vm-IsFleet h key vm), find-set_vm h key vm k)
      (ground (arith, same_text_iff key k))

-- `contains` through a filter, and the keys of `vms`.
pub contains-filter :
    (p : Text → Bool) (xs : List Text) (k : Text)
    → contains (filter p xs) k ≡ (contains xs k && p k)
contains-filter p [] k = refl
contains-filter p (x ∷ xs) k = elim (Bool-cases (x == k)) [
  | inl here ↦
      let same : x ≡ k = (same_text_iff x k).0 here in
      subst (λ z. contains (filter p (z ∷ xs)) k ≡ (contains (z ∷ xs) k && p k)) (sym same)
        (ground (arith, contains-filter p xs k, eq_self k))
  | inr there ↦ ground (arith, contains-filter p xs k, there)
]

pub contains-keys :
    {V : Type 0} (d : Dict Text V) (k : Text) → contains (keys d) k ≡ is_some (Dict.get d k)
unfolding Dict.get
contains-keys [] k = refl
contains-keys ((j, v) ∷ d) k = ground (arith, contains-keys d k)

pub find-filter :
    (p : Text → Bool) (f : Fleet) (k : Text)
    → find_vm (remove_each (filter p (vm_keys f)) f) k ≡ (if p k then none else find_vm f k)
find-filter p f k = elim (Option-cases (Dict.get f.vms k)) [
  | inl gone ↦
      rw
        (
          find-remove_each (filter p (vm_keys f)) f k,
          contains-filter p (vm_keys f) k,
          contains-keys f.vms k,
          gone,
        )
        (unfold find_vm in rw gone (ground arith))
  | inr (a, at) ↦
      rw
        (
          find-remove_each (filter p (vm_keys f)) f k,
          contains-filter p (vm_keys f) k,
          contains-keys f.vms k,
          at,
        )
        refl
]

starts_with-append : (s t : Text) → starts_with s (s ++ t) ≡ true
unfolding starts_with
starts_with-append [] t = refl
starts_with-append (c ∷ s) t = ground (arith, starts_with-append s t, nat_eq_iff c c)

prefix_append : (s : Text) (c : ℕ) (t : Text) → (s ++ c ∷ []) ++ t ≡ s ++ c ∷ t
prefix_append [] c t = refl
prefix_append (x ∷ s) c t = ap (λ r. x ∷ r) (prefix_append s c t)

is_of_host-vm_key : (hostname name : Text) → is_of_host hostname (vm_key hostname name) ≡ true
unfolding vm_key
is_of_host-vm_key hostname name =
    rw (sym (prefix_append hostname 58 name)) (starts_with-append (hostname ++ 58 ∷ []) name)

-- A key at which a machine of a host stands is one of that host, and an expected one.
newest-is_of_host :
    (hostname : Text) (vms : List Vm) (k : Text)
    → is_some (newest hostname vms k) ≡ true
    → is_of_host hostname k ≡ true
newest-is_of_host hostname [] k e = cc
newest-is_of_host hostname (vm ∷ vms) k e = elim (Bool-cases (vm_key hostname vm.name == k)) [
  | inl here ↦
      subst (λ z. is_of_host hostname z ≡ true) ((same_text_iff (vm_key hostname vm.name) k).0 here)
        (is_of_host-vm_key hostname vm.name)
  | inr there ↦ newest-is_of_host hostname vms k (ground (arith, there))
]

contains-expected :
    (hostname : Text) (vms : List Vm) (k : Text)
    → contains (map (λ vm. vm_key hostname vm.name) vms) k ≡ is_some (newest hostname vms k)
contains-expected hostname [] k = refl
contains-expected hostname (vm ∷ vms) k = ground (arith, contains-expected hostname vms k)

pub contains-empty : (xs : List Text) (k : Text) → is_empty xs ≡ true → contains xs k ≡ false
contains-empty [] k e = refl
contains-empty (x ∷ xs) k e = cc

-- A detached key is no longer a placeholder, and the others stay.
pub active-detach :
    (key : Text) (d : Dict Text (List Text)) (k : Text)
    → contains (active_placeholder_keys (detach_placeholder_key key d)) k
      ≡ (contains (active_placeholder_keys d) k && not (key == k))
unfolding detach_placeholder_key active_placeholder_keys
active-detach key [] k = refl
active-detach key ((job, held) ∷ d) k =
    let others = flatten (map (λ p. p.1) d) in
    elim (Bool-cases (contains held key && is_empty (discard held key))) [
      | inl emptied ↦ rw emptied (
          ground (
            arith,
            emptied,
            contains-append held others k,
            active-detach key d k,
            contains-discard held key k,
            contains-empty (discard held key) k,
          ))
      | inr left ↦
          rw
            (
              left,
              contains-append held others k,
              contains-append (discard held key)
                  (flatten (map (λ p. p.1) (detach_placeholder_key key d))) k,
            )
            (ground (arith, active-detach key d k, contains-discard held key k))
    ]

active-place :
    (hostname : Text) (vms : List Vm) (s : Inventory) (k : Text)
    → contains (active_placeholder_keys (place_vms hostname vms s).job_vm_placeholders) k ≡ (
        contains (active_placeholder_keys s.job_vm_placeholders) k
        && not (is_some (newest hostname vms k)))
unfolding place_vms
active-place hostname [] s k = ground arith
active-place hostname (vm ∷ vms) s k =
    let key = vm_key hostname vm.name in
    let t : Inventory = record s {
      job_vm_placeholders = detach_placeholder_key key s.job_vm_placeholders;
      fleet = set_vm key vm s.fleet;
    } in
    rw (active-place hostname vms t k, active-detach key s.job_vm_placeholders k) (ground arith)

module _ (hostname : Text) (s : Inventory) where
  -- The machine under a key once the host has been refreshed with some machines.
  abbrev pub refreshed_vm : List Vm → Text → Option Vm
  refreshed_vm vms k =
      let held = contains (active_placeholder_keys s.job_vm_placeholders) k in
      if is_of_host hostname k
      then or_else (newest hostname vms k) (if held then find_vm s.fleet k else none)
      else find_vm s.fleet k

  -- The machines that a host gives, as `apply_vms` places them.
  pub find-placed :
      (vms : List Vm) (k : Text)
      → IsFleet s.fleet
      → find_vm
          (drop_unexpected hostname
            (some (map (λ vm. vm_key hostname vm.name) vms))
            (place_vms hostname vms s)).fleet
          k
        ≡ refreshed_vm vms k
  unfolding drop_unexpected
  find-placed vms k h =
      let expected = map (λ vm. vm_key hostname vm.name) vms in
      let t = place_vms hostname vms s in
      let active = active_placeholder_keys t.job_vm_placeholders in
      rw
        (
          find-filter (unexpected hostname expected active) t.fleet k,
          find-place_vms hostname vms s k h,
          contains-expected hostname vms k,
          active-place hostname vms s k,
        )
        (elim (Option-cases (newest hostname vms k)) [
          | inl gone ↦ rw gone (ground arith)
          | inr (vm, e) ↦
              let of_host = newest-is_of_host hostname vms k (rw e refl) in
              rw (e, of_host) (ground arith)
        ])

  -- The machines of a host that fails, as `apply_vms` drops them.
  pub find-dropped :
      (k : Text)
      → find_vm (clear_host_vms hostname (active_placeholder_keys s.job_vm_placeholders) s.fleet) k
        ≡ refreshed_vm [] k
  unfolding clear_host_vms
  find-dropped k =
      let active = active_placeholder_keys s.job_vm_placeholders in
      rw (find-filter (λ key. is_of_host hostname key && not (contains active key)) s.fleet k)
        (ground arith)
