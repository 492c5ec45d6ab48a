-- ===== src/Server/Groups/Runs.antt =====
-- The groups of rust_frp_server/src/proxy_manager.rs at concrete inputs.
use rust_frp.Common.{ℕ, ◌<◌, none, some, ok, err, true, false, List, [], ◌∷◌, ◌≡◌, refl, arith}
use rust_frp.Common.Equality.{string_eq, nat_eq}
use rust_frp.Common.Map.{find, get-empty}
use rust_frp.Common.Map
use rust_frp.Server.Groups.{
  GroupState, GroupRegistry, bound_to_other_port, key_mismatch, port_of_other_group, new, join,
  leave, pick, member_count,
}
use rust_frp.Server.Groups.Registry.{IsConsistent, Call, joins, run}
use rust_frp.Server.Groups.Interleaving.{
  Step, checking, entering, leaving, picking, step, run_steps, Calm, run_steps-IsConsistent,
}
use rust_frp.Server.Groups.Rotation.{after_picks, pick-every_member}

abbrev three : List Call
three = joins "g" "k" 80 "a" ∷ joins "g" "k" 80 "b" ∷ joins "g" "k" 80 "c" ∷ []

abbrev trio : GroupRegistry
trio = run new three

joins_are_checked :
    ((join trio "g" "k" 81 "d").1 ≡ err (bound_to_other_port 80))
    × ((join trio "h" "k" 80 "d").1 ≡ err (port_of_other_group "g"))
    × ((join trio "g" "x" 80 "d").1 ≡ err key_mismatch)
    × ((join trio "h" "k" 81 "d").1 ≡ ok true)
    × ((join trio "g" "k" 80 "d").1 ≡ ok false)
    × (member_count trio 80 ≡ 3)
unfolding run join new Map.get Map.insert Map.modify Map.empty find
joins_are_checked = (refl, refl, refl, refl, refl, refl)

new-IsConsistent : IsConsistent new
unfolding new
new-IsConsistent = record {
  bound = λ port s found. absurd (ground (arith, get-empty {V = GroupState} port));
  held = λ group port found. absurd (ground (arith, get-empty {V = ℕ} group));
}

-- Two joins of one group that both check before one of them enters.
abbrev overlapping : List Step
overlapping =
    checking "g" 80
    ∷ checking "g" 80
    ∷ entering "g" "k" 80 "a"
    ∷ picking 80
    ∷ entering "g" "k" 80 "b"
    ∷ leaving 80 "a"
    ∷ []

overlapping-Calm : Calm (record { registry = new; asked = [] }) overlapping
unfolding step new Map.get Map.empty
overlapping-Calm =
    (tt, (tt, (((λ h. refl), ((λ h. refl), tt)), (tt, (((λ h. refl), tt), (tt, tt))))))

run_steps-IsConsistent_example :
    IsConsistent (run_steps (record { registry = new; asked = [] }) overlapping).registry
run_steps-IsConsistent_example =
    run_steps-IsConsistent new overlapping new-IsConsistent overlapping-Calm

-- With two ports the group gets both, and its name stands for the second one only.
abbrev raced : GroupRegistry
raced =
    let s =
      run_steps (record { registry = new; asked = [] })
        (checking "g" 80
          ∷ checking "g" 81
          ∷ entering "g" "k" 80 "a"
          ∷ entering "g" "k" 81 "b"
          ∷ []) in
    s.registry

two_ports :
    (member_count raced 80 ≡ 1)
    × (member_count raced 81 ≡ 1)
    × (Map.get "g" raced.group_ports ≡ some 81)
    × (Map.get "g" (leave raced 80 "a").0.group_ports ≡ none)
    × (member_count (leave raced 80 "a").0 81 ≡ 1)
unfolding run_steps step leave new Map.get Map.insert Map.modify Map.remove Map.empty find
two_ports = (refl, refl, refl, refl, refl)

abbrev trio_state : GroupState
trio_state = record { group = "g"; group_key = "k"; members = "a" ∷ "b" ∷ "c" ∷ []; rr_index = 0 }

trio_at : Map.get 80 trio.groups ≡ some trio_state
unfolding run join new Map.get Map.insert Map.modify Map.empty find
trio_at = refl

pick-every_member_example : (k : ℕ) × (k < 3) × ((pick (after_picks k 80 trio) 80).1 ≡ some "b")
pick-every_member_example =
    pick-every_member trio 80 trio_state 1 "b" trio_at refl (omega arith) (omega arith) refl
