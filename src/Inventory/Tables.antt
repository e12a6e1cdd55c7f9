-- ===== src/Inventory/Tables.antt =====
-- What `vms` gives after each operation on the tables of server/app/services/inventory_service.py.
use aether_v.Prelude.Dict
use aether_v.Prelude.Dict.{Dict, get-put, get-remove}
use aether_v.Jobs.LineBuffer.{Text}
use aether_v.Prelude.{
  ◌≡◌, refl, false, none, some, List, [], ◌∷◌, ◌==◌, if◌then◌else◌, eq_text, eq_nat, arith, inl,
  inr, Bool-cases, Option-cases, same_text_iff, nat_eq_iff, eq_self,
}
use aether_v.Inventory.{Vm, Fleet, VmState, contains}
use aether_v.Inventory.Machines.{find_vm, set_vm, remove_vm, remove_each, set_state}
use aether_v.Inventory.Valid.{IsFleet}

pub find-remove_vm :
    (key : Text) (f : Fleet) (k : Text)
    → find_vm (remove_vm key f) k ≡ (if key == k then none else find_vm f k)
unfolding find_vm remove_vm
find-remove_vm key f k = elim (Bool-cases (key == k)) [
  | inl here ↦ rw (get-remove f.vms key k, here) refl
  | inr there ↦ rw (get-remove f.vms key k, there) refl
]

pub find-remove_each :
    (ks : List Text) (f : Fleet) (k : Text)
    → find_vm (remove_each ks f) k ≡ (if contains ks k then none else find_vm f k)
unfolding remove_each
find-remove_each [] f k = refl
find-remove_each (j ∷ ks) f k =
    rw (find-remove_each ks (remove_vm j f) k, find-remove_vm j f k)
      (ground (arith, same_text_iff j k))

module _ {f : Fleet} (h : IsFleet f) (key : Text) where
  pub find-set_vm :
      (vm : Vm) (k : Text)
      → find_vm (set_vm key vm f) k ≡ (if key == k then some vm else find_vm f k)
  unfolding find_vm set_vm
  find-set_vm vm k = elim (Bool-cases (key == k)) [
    | inl here ↦
        rw (get-put f.vms key f.next_object k, here)
          (ground (arith, get-put f.objects f.next_object vm f.next_object, eq_self f.next_object))
    | inr there ↦ elim (Option-cases (Dict.get f.vms k)) [
      | inl gone ↦ rw (get-put f.vms key f.next_object k, there, gone) refl
      | inr (a, at) ↦
          rw (get-put f.vms key f.next_object k, there, at)
            (ground (
              arith,
              get-put f.objects f.next_object vm a,
              h.placed.below k a at,
              nat_eq_iff f.next_object a,
            ))
    ]
  ]

  pub find-set_state_other :
      (state : VmState) (k : Text)
      → (key == k) ≡ false
      → find_vm (set_state key state f) k ≡ find_vm f k
  unfolding find_vm set_state
  find-set_state_other state k there = elim (Option-cases (Dict.get f.vms key)) [
    | inl gone ↦ rw gone refl
    | inr (a, at) ↦
        let (vm, o) = h.placed.stored key a at in
        rw (at, o)
          (elim (Option-cases (Dict.get f.vms k)) [
            | inl gone ↦ rw gone refl
            | inr (b, bt) ↦ rw bt (
                ground (
                  arith,
                  get-put f.objects a (record vm { state = state }) b,
                  nat_eq_iff a b,
                  h.placed.apart key k a at,
                  same_text_iff key k,
                ))
          ])
  ]
