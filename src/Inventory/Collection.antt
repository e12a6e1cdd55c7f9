-- ===== src/Inventory/Collection.antt =====
-- `_collect_host_inventory` and `_collect_with_recovery` of server/app/services/inventory_service.py.
-- What the script prints at a host, the `json` module and the deployment of scripts are arguments.
use aether_v.Prelude.Json.{Json, Fields, obj}
use aether_v.Jobs.LineBuffer.{Text, bom}
use aether_v.Jobs.Service.Texts.{codes, strip, lower, has_part}
use aether_v.Prelude.{
  ℕ, zero, suc, ◌≡◌, refl, Bool, true, ◌||◌, ◌&&◌, not, Option, none, some, ◌⊎◌, inl, inr, [], ◌∷◌,
  ◌++◌, if◌then◌else◌, is_empty, nat_eq, leb, Bool-cases,
}
use aether_v.Inventory.Coercion.{Builtins}
use aether_v.Inventory.Parsing.{type_name, parse_inventory_snapshot}
use aether_v.Inventory.Refresh.{Collected, failed}

-- What a call of the script comes to: the payload, a script that is missing, or another error.
pub data Scripted : Type 0 where
  payload : Fields → Scripted
  missing : Text → Scripted
  broken : Text → Scripted

-- s.lstrip("\ufeff")
abbrev pub lstrip_bom : Text → Text
lstrip_bom [] = []
lstrip_bom (c ∷ s) = if nat_eq c bom then lstrip_bom s else c ∷ s

abbrev pub or_text : Text → Text → Text
or_text [] t = t
or_text (c ∷ s) t = c ∷ s

module _ (loads : Text → Json ⊎ Text) (b : Builtins) (refused : Fields → Option Text)
    (hostname : Text) where
  abbrev pub payload_of : Json ⊎ Text → Scripted
  payload_of (inr e) = broken e
  payload_of (inl (obj fields)) = payload fields
  payload_of (inl other) = broken (
      codes "Unexpected inventory payload type from "
      ++ hostname
      ++ codes ": "
      ++ type_name b refused hostname other)

  abbrev pub read_output : Text → Scripted
  read_output raw_output =
      if is_empty raw_output
      then broken (codes "Inventory script returned no data")
      else payload_of (loads raw_output)

  -- `missing_tokens and mentions_script`
  abbrev pub tells_missing : Text → Text → Bool
  tells_missing script_path preview =
      (has_part (codes "not recognized") (lower preview)
        || has_part (codes "cannot find") (lower preview)
        || has_part (codes "cannot be found") (lower preview))
      && has_part (lower script_path) (lower preview)

  -- The exit code is none for 0, and else its text.
  unfoldable pub collect_host_inventory :
      (script_path stdout stderr : Text) → Option Text → Scripted
  unfolding strip
  collect_host_inventory script_path stdout stderr none = read_output (lstrip_bom (strip stdout))
  collect_host_inventory script_path stdout stderr (some code) =
      let preview = or_text (strip stderr) (strip stdout) in
      if tells_missing script_path preview
      then missing (codes "Inventory script missing on " ++ hostname ++ codes ": " ++ preview)
      else broken (codes "Inventory collection failed (exit=" ++ code ++ codes "): " ++ preview)

  abbrev pub still_missing : Text
  still_missing = codes "Inventory scripts still missing after redeployment"

  abbrev pub redeployment_failed : Text
  redeployment_failed = codes "Redeployment failed while recovering missing inventory scripts"

  abbrev pub deployment_disabled : Text
  deployment_disabled =
      codes "Required inventory scripts are missing and host deployment service is disabled"

  module _ (script : ℕ → Scripted) (is_enabled : Bool) (redeployed : ℕ → Bool) where
    -- What an attempt comes to, where the next one is `again`.
    abbrev pub attempted : ℕ → Scripted → Option (Fields ⊎ Text) → Option (Fields ⊎ Text)
    attempted attempt (payload p) again = some (inl p)
    attempted attempt (broken e) again = some (inr e)
    attempted attempt (missing e) again =
        if not is_enabled
        then some (inr deployment_disabled)
        else if not (redeployed attempt)
        then some (inr redeployment_failed)
        else if leb 2 attempt
        then some (inr still_missing)
        else again

    -- The loop, for a number of rounds, from an attempt on.
    unfoldable pub collect_loop : ℕ → ℕ → Option (Fields ⊎ Text)
    collect_loop zero attempt = none
    collect_loop (suc rounds) attempt =
        attempted attempt (script attempt) (collect_loop rounds (suc attempt))

    -- Two rounds are enough for the loop.
    unfoldable pub collect_with_recovery : Option (Fields ⊎ Text)
    unfolding collect_loop
    collect_with_recovery = collect_loop 2 1

    -- `_collect_with_recovery` and `_parse_inventory_snapshot`
    abbrev pub parsed : Option (Fields ⊎ Text) → Option Collected
    parsed none = none
    parsed (some (inr e)) = some (failed e)
    parsed (some (inl p)) = some (parse_inventory_snapshot b refused hostname p)

    unfoldable pub ask_host : Option Collected
    unfolding collect_with_recovery
    ask_host = parsed collect_with_recovery

    -- How the collection should end: by its first call, or, where the script is missing and is deployed
    -- anew, by its second, which has no third after it.
    abbrev pub second_answer : Scripted → Fields ⊎ Text
    second_answer (payload p) = inl p
    second_answer (broken e) = inr e
    second_answer (missing e) = inr (if redeployed 2 then still_missing else redeployment_failed)

    abbrev pub recovered : Scripted → Fields ⊎ Text
    recovered (payload p) = inl p
    recovered (broken e) = inr e
    recovered (missing e) =
        if is_enabled && redeployed 1
        then second_answer (script 2)
        else inr (if is_enabled then redeployment_failed else deployment_disabled)

    second_lem :
        (s : Scripted) (again : Option (Fields ⊎ Text))
        → is_enabled ≡ true
        → attempted 2 s again ≡ some (second_answer s)
    second_lem (payload p) again e = refl
    second_lem (broken m) again e = refl
    second_lem (missing m) again e = elim (Bool-cases (redeployed 2)) [
      | inl again ↦ rw (e, again) refl
      | inr not_again ↦ rw (e, not_again) refl
    ]

    first_lem :
        (s : Scripted) (rounds : ℕ)
        → attempted 1 s (attempted 2 (script 2) (collect_loop rounds 3)) ≡ some (recovered s)
    first_lem (payload p) rounds = refl
    first_lem (broken m) rounds = refl
    first_lem (missing m) rounds = elim (Bool-cases is_enabled) [
      | inr disabled ↦ rw disabled refl
      | inl enabled ↦ elim (Bool-cases (redeployed 1)) [
        | inr fails ↦ rw (enabled, fails) refl
        | inl works ↦
            rw (second_lem (script 2) (collect_loop rounds 3) enabled, works, enabled) refl
      ]
    ]

    -- The collection of a host ends after at most two calls of the script, however often it would be
    -- missing: however many rounds the loop may have above two, it gives the answer of the first
    -- call, or of the second where the script was missing and could be deployed anew.
    pub collect_loop_lem :
        (rounds : ℕ)
        → (collect_loop (suc (suc rounds)) 1 ≡ some (recovered (script 1)))
          × (collect_with_recovery ≡ some (recovered (script 1)))
    unfolding collect_loop collect_with_recovery
    collect_loop_lem rounds = (first_lem (script 1) rounds, first_lem (script 1) 0)
