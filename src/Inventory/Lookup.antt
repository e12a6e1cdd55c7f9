-- ===== src/Inventory/Lookup.antt =====
-- `get_vm_by_id` of server/app/services/inventory_service.py: what the index and the scan find.
use aether_v.Prelude.Dict
use aether_v.Prelude.Dict.{Dict, get-put, get-nil}
use aether_v.Jobs.LineBuffer.{Text}
use aether_v.Jobs.Service.Texts.{lower}
use aether_v.Prelude.{
  ℕ, ◌≡◌, refl, true, false, Option, none, some, [], ◌∷◌, ◌==◌, eq_text, eq_nat, arith, inl, inr,
  Bool-cases, Option-cases, same_text_iff, any, eq_self, is_empty, sym, ap, ◌∙◌,
}
use aether_v.Inventory.{Vm, Fleet, Inventory}
use aether_v.Inventory.Machines.{find_vm, index_of, load}
use aether_v.Inventory.JobVms.{
  scan, has_index, find_index, index_found, find_by_id, get_vm_by_id, get_all_vms, vm_list,
}
use aether_v.Inventory.Valid.{Indexed, IsFleet, find_vm-at}

has_index_iff : (i : Text) (o : Option Text) → has_index i o ≡ true → o ≡ some i
has_index_iff i none e = cc
has_index_iff i (some j) e = ground (arith, same_text_iff j i)

-- A longer table has what a shorter one has.
Indexed-cons :
    (objects : Dict ℕ Vm) (j : Text) (b : ℕ) (d : Dict Text ℕ) (i : Text) (a : ℕ)
    → Dict.get d j ≡ none
    → Indexed objects d i a
    → Indexed objects ((j, b) ∷ d) i a
Indexed-cons objects j b d i a gone (k, vm, at, o, n) =
    (k, vm, unfold Dict.get in ground (arith, same_text_iff j k), o, n)

Indexed-eq :
    (objects : Dict ℕ Vm) (d : Dict Text ℕ) (i j : Text) (a b : ℕ)
    → i ≡ j
    → a ≡ b
    → Indexed objects d i a
    → Indexed objects d j b
Indexed-eq objects d i j a b e q (k, vm, at, o, n) =
    (k, vm, at ∙ ap (λ x. some x) q, ap (Dict.get objects) (sym q) ∙ o, n ∙ ap (λ x. some x) e)

scan-Indexed :
    (objects : Dict ℕ Vm) (i : Text) (d : Dict Text ℕ) (a : ℕ)
    → Dict.IsDict d
    → scan objects i d ≡ some a
    → Indexed objects d i a
unfolding scan
scan-Indexed objects i [] a u e = ground arith
scan-Indexed objects i ((j, b) ∷ d) a u e = elim (Option-cases (Dict.get objects b)) [
  | inl gone ↦
      let k = rw (gone, scan) at e in
      Indexed-cons objects j b d i a u.0 (scan-Indexed objects i d a u.1 k)
  | inr (vm, o) ↦ elim (Bool-cases (has_index i (index_of vm.id))) [
    | inl is ↦
        let k = rw (o, is, scan) at e in
        (
          j,
          vm,
          unfold Dict.get in ground (arith, eq_self j),
          ground arith,
          has_index_iff i (index_of vm.id) is,
        )
    | inr other ↦
        let k = rw (o, other, scan) at e in
        Indexed-cons objects j b d i a u.0 (scan-Indexed objects i d a u.1 k)
  ]
]

-- A scan that finds nothing has seen every machine.
scan-none :
    (objects : Dict ℕ Vm) (i : Text) (d : Dict Text ℕ)
    → scan objects i d ≡ none
    → any (λ vm. has_index i (index_of vm.id)) (vm_list objects d) ≡ false
unfolding scan vm_list
scan-none objects i [] e = refl
scan-none objects i ((j, b) ∷ d) e = elim (Option-cases (Dict.get objects b)) [
  | inl gone ↦ let k = rw (gone, scan) at e in rw (gone, vm_list) (scan-none objects i d k)
  | inr (vm, o) ↦ elim (Bool-cases (has_index i (index_of vm.id))) [
    | inl is ↦ let k = rw (o, is, scan) at e in ground arith
    | inr other ↦
        let k = rw (o, other, scan) at e in rw (o, other, vm_list) (scan-none objects i d k)
  ]
]

-- What a lookup by an id in lower case may return.
abbrev pub Finds : Text → Inventory → Option Vm → Type 0
Finds i s none = any (λ vm. has_index i (index_of vm.id)) (get_all_vms s) ≡ false
Finds i s (some vm) = (key : Text) × (find_vm s.fleet key ≡ some vm) × (index_of vm.id ≡ some i)

module _ {f : Fleet} (h : IsFleet f) where
  index_found-IsFleet :
      (i : Text) (o : Option ℕ) → scan f.objects i f.vms ≡ o → IsFleet (index_found i o f).0
  index_found-IsFleet i none e = h
  index_found-IsFleet i (some a) e = record {
    placed = h.placed;
    indexed = λ j b g. elim (Bool-cases (i == j)) [
      | inl here ↦
          Indexed-eq f.objects f.vms i j a b ((same_text_iff i j).0 here)
            (ground (arith, get-put f.vms_by_id i a j))
            (scan-Indexed f.objects i f.vms a h.placed.unique e)
      | inr there ↦ h.indexed j b (ground (arith, get-put f.vms_by_id i a j))
    ];
  }

  find_index-IsFleet : (i : Text) (o : Option ℕ) → IsFleet (find_index i o f).0
  find_index-IsFleet i (some a) = h
  find_index-IsFleet i none = index_found-IsFleet i (scan f.objects i f.vms) refl

  pub find_by_id-IsFleet : (id : Text) → IsFleet (find_by_id id f).0
  unfolding find_by_id
  find_by_id-IsFleet id = elim (Bool-cases (is_empty id)) [
    | inl blank ↦ rw blank h
    | inr named ↦ rw named (find_index-IsFleet (lower id) (Dict.get f.vms_by_id (lower id)))
  ]

module _ (s : Inventory) (h : IsFleet s.fleet) where
  Indexed-Finds :
      (i : Text) (a : ℕ)
      → Indexed s.fleet.objects s.fleet.vms i a
      → Finds i s (load s.fleet.objects (some a))
  Indexed-Finds i a (k, vm, at, o, n) = rw o (k, find_vm-at s.fleet k a vm at o, n)

  found-Finds :
      (i : Text) (o : Option ℕ)
      → scan s.fleet.objects i s.fleet.vms ≡ o
      → Finds i s (load (index_found i o s.fleet).0.objects (index_found i o s.fleet).1)
  unfolding get_all_vms
  found-Finds i none e = scan-none s.fleet.objects i s.fleet.vms e
  found-Finds i (some a) e =
      Indexed-Finds i a (scan-Indexed s.fleet.objects i s.fleet.vms a h.placed.unique e)

  index-Finds :
      (i : Text) (o : Option ℕ)
      → Dict.get s.fleet.vms_by_id i ≡ o
      → Finds i s (load (find_index i o s.fleet).0.objects (find_index i o s.fleet).1)
  index-Finds i none e = found-Finds i (scan s.fleet.objects i s.fleet.vms) refl
  index-Finds i (some a) e = Indexed-Finds i a (h.indexed i a e)

  pub get_vm_by_id-Finds :
      (id : Text) → is_empty id ≡ false → Finds (lower id) s (get_vm_by_id id s).1
  unfolding get_vm_by_id find_by_id
  get_vm_by_id-Finds id named =
      rw named (index-Finds (lower id) (Dict.get s.fleet.vms_by_id (lower id)) refl)
