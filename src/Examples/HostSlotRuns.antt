-- ===== src/Examples/HostSlotRuns.antt =====
-- Two jobs at one host of server/app/services/job_service.py.
use aether_v.Prelude.Dict
use aether_v.Prelude.{
  ℕ, String, ◌≡◌, ◌≢◌, refl, true, some, List, [], ◌∷◌, ◌==◌, ◌⊎◌, if◌then◌else◌, eq_string, eq_iff,
  arith,
}
use aether_v.Jobs.HostSlots.{Slots, empty_slots, acquire_round, release}
use aether_v.Jobs.HostSlots.System.{
  waiting, holding, System, contend_for, leave, start, arrive, depart, Reach, begin, next,
}
use aether_v.Jobs.HostSlots.Effects.{owner_of}
use aether_v.Jobs.HostSlots.Safety.{mutual_exclusion, waiting_has_owner, woken_acquires}
use aether_v.Jobs.HostSlots.Line.{IsTidy, line, join, step_out, slots_refine_lines}
use aether_v.Jobs.HostSlots.Fifo.{StandsBehind, enter, exit, Turn, run, handovers, fifo}

host_named : ◌≢◌ {A = String} "hv1" ""
host_named = ground (arith, eq_iff "hv1" "")

program : Unit {0}
unfolding contend_for leave start acquire_round release empty_slots Dict.get Dict.put Dict.remove
program = tt

abbrev one_in : System
one_in = contend_for "hv1" "a" start

abbrev one_waits : System
one_waits = contend_for "hv1" "b" one_in

abbrev one_left : System
one_left = leave "hv1" "a" one_waits

reach_in : Reach one_in
unfolding program
reach_in = next begin (arrive "hv1" "a" host_named refl)

reach_waits : Reach one_waits
unfolding program
reach_waits = next reach_in (arrive "hv1" "b" host_named refl)

reach_left : Reach one_left
unfolding program
reach_left = next reach_waits (depart "hv1" "a" refl)

mutual_exclusion_example : ◌≡◌ {A = String} "a" "a"
unfolding program
mutual_exclusion_example = mutual_exclusion one_waits "hv1" "a" "a" reach_waits refl refl

waiting_has_owner_example :
    (i : String) × (owner_of one_waits.slots "hv1" ≡ some i)
    × ((one_waits.phase i ≡ holding "hv1")
        ⊎ ((d : ℕ) × (one_waits.phase i ≡ waiting "hv1" d) × (one_waits.fired d ≡ true)))
unfolding program
waiting_has_owner_example = waiting_has_owner one_waits "hv1" "b" 1 reach_waits refl refl

woken_acquires_example : (contend_for "hv1" "b" one_left).phase "b" ≡ holding "hv1"
unfolding program
woken_acquires_example = woken_acquires one_left "hv1" "b" 1 reach_left refl refl

empty-IsTidy : IsTidy empty_slots
unfolding program
empty-IsTidy h e = refl

slots_refine_lines_example :
    let entered = (acquire_round "hv1" "a" 0 empty_slots).0 in
    let released = (release "hv1" "a" empty_slots).0 in
    ((h : String)
      → line entered h ≡ (if "hv1" == h then join "a" (line empty_slots h) else line empty_slots h))
    × ((h : String)
        → line released h
          ≡ (if "hv1" == h then step_out "a" (line empty_slots h) else line empty_slots h))
    × IsTidy entered
    × IsTidy released
slots_refine_lines_example = slots_refine_lines "hv1" "a" 0 empty_slots host_named empty-IsTidy

abbrev held : Slots
held = (acquire_round "hv1" "b" 1 (acquire_round "hv1" "a" 0 empty_slots).0).0

held-IsTidy : IsTidy held
held-IsTidy =
    (slots_refine_lines "hv1" "b" 1 _ host_named
      (slots_refine_lines "hv1" "a" 0 empty_slots host_named empty-IsTidy).2).2

abbrev turns : List Turn
turns = enter "hv1" "c" 2 ∷ exit "hv1" "a" ∷ []

fifo_example : StandsBehind "hv1" "b" ("a" ∷ []) [] (handovers "hv1" turns held) (run turns held)
unfolding program
fifo_example =
    fifo "hv1" "b" turns held ("a" ∷ []) [] held-IsTidy refl
      (tt, ((host_named, λ _. ground (arith, eq_iff "a" "b")), tt))
