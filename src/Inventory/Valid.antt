-- ===== src/Inventory/Valid.antt =====
-- What holds of the tables of machines of server/app/services/inventory_service.py, and that each
-- operation on them keeps it.
use aether_v.Prelude.Dict
use aether_v.Prelude.Dict.{Dict, get-put, get-remove, put-IsDict, remove-IsDict}
use aether_v.Jobs.LineBuffer.{Text}
use aether_v.Prelude.{
  ℕ, ◌<◌, ◌≡◌, ◌≢◌, refl, false, Option, none, some, [], ◌==◌, eq_text, eq_nat, arith, inl, inr,
  ◌⊎◌, Bool-cases, Option-cases, same_text_iff, nat_eq_iff, eq_self, ap, ◌∙◌, sym,
}
use aether_v.Inventory.{Vm, Fleet, VmState}
use aether_v.Inventory.Machines.{
  find_vm, index_of, index_of_vm, unindex, reindex, set_vm, remove_vm, set_state,
}

-- The addresses in `vms` are those of objects, below the next one, and each stands under one key.
pub record IsPlaced (objects : Dict ℕ Vm) (bound : ℕ) (vms : Dict Text ℕ) : Type 0 where
  pub below : (k : Text) (a : ℕ) → Dict.get vms k ≡ some a → a < bound
  pub stored :
      (k : Text) (a : ℕ) → Dict.get vms k ≡ some a → (vm : Vm) × (Dict.get objects a ≡ some vm)
  pub unique : Dict.IsDict vms
  pub apart : (j k : Text) (a : ℕ) → Dict.get vms j ≡ some a → Dict.get vms k ≡ some a → j ≡ k

-- An address is that of a machine of `vms` with an id.
abbrev pub Indexed : Dict ℕ Vm → Dict Text ℕ → Text → ℕ → Type 0
Indexed objects vms i a =
    (k : Text) × (vm : Vm) × (Dict.get vms k ≡ some a)
    × (Dict.get objects a ≡ some vm)
    × (index_of vm.id ≡ some i)

-- Every entry of `vms_by_id` is a machine of `vms`, under its id in lower case.
pub record IsFleet (f : Fleet) : Type 0 where
  pub placed : IsPlaced f.objects f.next_object f.vms
  pub indexed : (i : Text) (a : ℕ) → Dict.get f.vms_by_id i ≡ some a → Indexed f.objects f.vms i a

pub find_vm-at :
    (f : Fleet) (k : Text) (a : ℕ) (vm : Vm)
    → Dict.get f.vms k ≡ some a
    → Dict.get f.objects a ≡ some vm
    → find_vm f k ≡ some vm
unfolding find_vm
find_vm-at f k a vm e o = rw (e, o) refl

-- An entry of the index that survives `unindex` is that of another key.
pub get-unindex :
    (o : Option Text) (d : Dict Text ℕ) (i : Text) (a : ℕ)
    → Dict.get (unindex o d) i ≡ some a
    → (Dict.get d i ≡ some a) × (o ≢ some i)
get-unindex none d i a h = (h, λ e. cc)
get-unindex (some j) d i a h = ground (arith, get-remove d j i, same_text_iff j i)

-- An entry of the index after `reindex` is the new one, or was there.
pub get-reindex :
    (o : Option Text) (b : ℕ) (d : Dict Text ℕ) (i : Text) (a : ℕ)
    → Dict.get (reindex o b d) i ≡ some a
    → ((o ≡ some i) × (b ≡ a)) ⊎ (Dict.get d i ≡ some a)
get-reindex none b d i a h = inr h
get-reindex (some j) b d i a h = elim (Bool-cases (j == i)) [
  | inl here ↦ inl (ground (arith, get-put d j b i, same_text_iff j i))
  | inr there ↦ inr (ground (arith, get-put d j b i))
]

same_index :
    (d : Dict ℕ Vm) (a b : ℕ) (v w : Vm) (i : Text)
    → Dict.get d b ≡ some v
    → Dict.get d a ≡ some w
    → b ≡ a
    → index_of w.id ≡ some i
    → index_of v.id ≡ some i
same_index d a b v w i o r e n =
    let same : some w ≡ some v = sym r ∙ ap (Dict.get d) (sym e) ∙ o in
    ap (λ m. index_of_vm m) (sym same) ∙ n

pub no_vms-IsFleet :
    (objects : Dict ℕ Vm) (n : ℕ)
    → IsFleet (record { objects = objects; next_object = n; vms = []; vms_by_id = [] })
unfolding Dict.get
no_vms-IsFleet objects n = record {
  placed = record {
    below = λ k a e. cc;
    stored = λ k a e. absurd cc;
    unique = tt;
    apart = λ j k a e d. cc;
  };
  indexed = λ i a e. absurd cc;
}

module _ {f : Fleet} (h : IsFleet f) (key : Text) where
  pub unindex-Indexed :
      (i : Text) (a : ℕ)
      → Dict.get (unindex (index_of_vm (find_vm f key)) f.vms_by_id) i ≡ some a
      → (k : Text) × (vm : Vm) × (Dict.get f.vms k ≡ some a)
        × (Dict.get f.objects a ≡ some vm)
        × (index_of vm.id ≡ some i)
        × ((key == k) ≡ false)
  unindex-Indexed i a e =
      let u = get-unindex (index_of_vm (find_vm f key)) f.vms_by_id i a e in
      let (k, vm, at, o, n) = h.indexed i a u.0 in
      elim (Bool-cases (key == k)) [
        | inl here ↦
            let same : key ≡ k = (same_text_iff key k).0 here in
            absurd (u.1 (rw (same, find_vm-at f k a vm at o) n))
        | inr there ↦ (k, vm, at, o, n, there)
      ]

  pub remove_vm-IsFleet : IsFleet (remove_vm key f)
  unfolding remove_vm
  remove_vm-IsFleet = record {
    placed = record {
      below = λ k a e. ground (arith, get-remove f.vms key k, h.placed.below k a);
      stored = λ k a e. h.placed.stored k a (ground (arith, get-remove f.vms key k));
      unique = remove-IsDict f.vms key h.placed.unique;
      apart = λ j k a d e.
          h.placed.apart j k a (ground (arith, get-remove f.vms key j))
            (ground (arith, get-remove f.vms key k));
    };
    indexed = λ i a e.
        let (k, vm, at, o, n, there) = unindex-Indexed i a e in
        (k, vm, ground (arith, get-remove f.vms key k), o, n);
  }

  pub set_vm-IsFleet : (vm : Vm) → IsFleet (set_vm key vm f)
  unfolding set_vm
  set_vm-IsFleet vm = record {
    placed = record {
      below = λ k a e. ground (arith, get-put f.vms key f.next_object k, h.placed.below k a);
      stored = λ k a e. elim (Bool-cases (key == k)) [
        | inl here ↦ (
          vm,
          ground (
            arith,
            get-put f.vms key f.next_object k,
            get-put f.objects f.next_object vm a,
            nat_eq_iff f.next_object a,
          ),
        )
        | inr there ↦
            let old : Dict.get f.vms k ≡ some a =
              ground (arith, get-put f.vms key f.next_object k) in
            let (w, o) = h.placed.stored k a old in
            (
              w,
              ground (
                arith,
                h.placed.below k a old,
                get-put f.objects f.next_object vm a,
                nat_eq_iff f.next_object a,
              ),
            )
      ];
      unique = put-IsDict f.vms key f.next_object h.placed.unique;
      apart = λ j k a d e. ground (
        arith,
        get-put f.vms key f.next_object k,
        get-put f.vms key f.next_object j,
        h.placed.below j a,
        h.placed.below k a,
        h.placed.apart j k a,
        same_text_iff key j,
        same_text_iff key k,
      );
    };
    indexed = λ i a e.
        elim (get-reindex (index_of vm.id) f.next_object
          (unindex (index_of_vm (find_vm f key)) f.vms_by_id) i a e) [
            | inl new ↦ (
              key,
              vm,
              ground (arith, get-put f.vms key f.next_object key, eq_self key),
              ground (arith, get-put f.objects f.next_object vm a, nat_eq_iff f.next_object a),
              new.0,
            )
            | inr old ↦
                let (k, w, at, o, n, there) = unindex-Indexed i a old in
                (
                  k,
                  w,
                  ground (arith, get-put f.vms key f.next_object k),
                  ground (
                    arith,
                    h.placed.below k a at,
                    get-put f.objects f.next_object vm a,
                    nat_eq_iff f.next_object a,
                  ),
                  n,
                )
          ];
  }

  pub set_state-IsFleet : (state : VmState) → IsFleet (set_state key state f)
  unfolding set_state
  set_state-IsFleet state = elim (Option-cases (Dict.get f.vms key)) [
    | inl gone ↦ rw gone h
    | inr (b, at) ↦
        let (vm, o) = h.placed.stored key b at in
        rw (at, o)
          (record {
            placed = record {
              below = h.placed.below;
              stored = λ k a e. elim (Bool-cases (b == a)) [
                | inl here ↦ (
                  record vm { state = state },
                  ground (arith, get-put f.objects b (record vm { state = state }) a),
                )
                | inr there ↦
                    let (w, q) = h.placed.stored k a e in
                    (w, ground (arith, get-put f.objects b (record vm { state = state }) a))
              ];
              unique = h.placed.unique;
              apart = h.placed.apart;
            };
            indexed = λ i a e.
                let (k, w, q, r, n) = h.indexed i a e in
                elim (Bool-cases (b == a)) [
                  | inl here ↦ (
                    k,
                    record vm { state = state },
                    q,
                    ground (arith, get-put f.objects b (record vm { state = state }) a),
                    same_index f.objects a b vm w i o r ((nat_eq_iff b a).0 here) n,
                  )
                  | inr there ↦ (
                    k,
                    w,
                    q,
                    ground (arith, get-put f.objects b (record vm { state = state }) a),
                    n,
                  )
                ];
          })
  ]
