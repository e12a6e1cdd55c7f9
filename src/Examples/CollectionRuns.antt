-- ===== src/Examples/CollectionRuns.antt =====
-- Runs of the collection of a host in server/app/services/inventory_service.py.
use aether_v.Prelude.Json.{Json, null, text, arr, obj, nil, cons, end}
use aether_v.Jobs.LineBuffer.{Text}
use aether_v.Jobs.Service.Texts.{codes, strip}
use aether_v.Prelude.{ℕ, ◌≡◌, refl, true, none, some, ◌⊎◌, inl, [], ◌∷◌, nat_eq, if◌then◌else◌}
use aether_v.Inventory.Coercion.{Builtins, normalise_ip_list, normalise_ips}
use aether_v.Inventory.Collection.{
  Scripted, collect_host_inventory, collect_loop, collect_with_recovery, recovered,
  collect_loop_lem,
}

abbrev builtins : Builtins
builtins = record { str_of = λ v. []; int_of = λ v. some 4; float_of = λ v. none }

abbrev loads : Text → Json ⊎ Text
loads t = inl (obj end)

abbrev script_path : Text
script_path = codes "C:\\Inventory.Collect.ps1"

-- The script is missing at the first call, and there at the second.
abbrev script : ℕ → Scripted
script attempt =
    collect_host_inventory loads builtins (λ d. none) (codes "hv1") script_path (codes "{}")
      (codes "c:\\inventory.collect.ps1 is not recognized")
      (if nat_eq attempt 1 then some (codes "1") else none)

collect_loop_lem_example :
    (collect_loop loads builtins (λ d. none) (codes "hv1") script true (λ n. true) 5 1
      ≡ some
          (recovered loads builtins (λ d. none) (codes "hv1") script true (λ n. true) (script 1)))
    × (collect_with_recovery loads builtins (λ d. none) (codes "hv1") script true (λ n. true)
        ≡ some
            (recovered loads builtins (λ d. none) (codes "hv1") script true (λ n. true) (script 1)))
collect_loop_lem_example =
    collect_loop_lem loads builtins (λ d. none) (codes "hv1") script true (λ n. true) 3

recovers :
    collect_with_recovery loads builtins (λ d. none) (codes "hv1") script true (λ n. true)
    ≡ some (inl end)
unfolding collect_with_recovery collect_loop collect_host_inventory strip
recovers = refl

-- Addresses are trimmed; link-local ones, blanks and repetitions are dropped.
addresses :
    normalise_ip_list builtins (
      arr
        (cons (text " 10.0.0.1 ") (cons (text "FE80::1") (cons (text "10.0.0.1") (cons null nil)))))
    ≡ codes "10.0.0.1" ∷ []
unfolding normalise_ip_list normalise_ips strip
addresses = refl
