-- ===== src/Server/Bridge/Runs.antt =====
-- The bridges of rust_frp_server/src/control.rs at concrete inputs: connections are numbers.
use rust_frp.Common.{ℕ, none, some, ok, err, ◌≡◌, ◌≢◌, refl, List, [], ◌∷◌, true, arith}
use rust_frp.Common.Equality.{string_eq}
use rust_frp.Common.Map.{Map, find, get-empty}
use rust_frp.Common.Map
use rust_frp.Util.ConstantTime.{constant_time_eq}
use rust_frp.Server.Bridge.{
  owner, visitor, BridgeState, BridgeManager, Request, secs, already_used, reap, is_alive,
  expired_reason, is_recent, forget_old, make_room, new_state, create_bridge, authorize, claim,
  reserve_as, reserve_found, reserve_leg, install_leg, Call, creates, reserves, installs, step, run,
}
use rust_frp.Server.Bridge.Invariant.{Inv, run-Inv}
use rust_frp.Server.Bridge.Replay.{create_bridge-run_used}
use rust_frp.Server.Bridge.Legs.{
  MayTake, reserve_leg-MayTake, reserve_leg-reserve_leg, install_leg-install_leg,
}

abbrev nobody : BridgeManager ℕ
nobody = record { bridges = Map.empty; recent = Map.empty }

abbrev visit : Request
visit = record {
  proxy_name = "ssh";
  bridge_id = "b1";
  owner_run_id = "o";
  visitor_run_id = "v";
  owner_key = 1 ∷ 2 ∷ [];
  visitor_key = 3 ∷ [];
}

abbrev calls : List (ℕ × Call ℕ)
calls =
    (secs 1, reserves "b1" "o" (1 ∷ 2 ∷ []))
    ∷ (secs 2, reserves "b1" "v" (3 ∷ []))
    ∷ (secs 3, installs "b1" owner 7)
    ∷ (secs 4, installs "b1" visitor 8)
    ∷ []

nobody-Inv : Inv nobody
nobody-Inv = record {
  few_bridges = unfold Map.empty in omega arith;
  few_ids = unfold Map.empty in omega arith;
  legs = λ id s found. absurd (ground (arith, get-empty {V = BridgeState ℕ} id));
}

run-Inv_example : Inv (run nobody ((0, creates visit) ∷ calls))
run-Inv_example = run-Inv nobody ((0, creates visit) ∷ calls) nobody-Inv

created : (create_bridge nobody 0 visit).1 ≡ ok tt
unfolding create_bridge reap forget_old Map.retain Map.get Map.insert Map.empty make_room find
    is_recent
created = refl

created_size : Map.size (create_bridge nobody 0 visit).0.recent ≡ 1
unfolding create_bridge reap forget_old Map.retain Map.get Map.insert Map.empty make_room find
    is_recent
created_size = refl

create_bridge-run_used_example :
    (create_bridge (run (create_bridge nobody 0 visit).0 calls) (secs 100) visit).1
    ≡ err already_used
create_bridge-run_used_example =
    create_bridge-run_used nobody 0 visit calls (secs 100) visit created refl
      (rw created_size (omega arith)) (omega arith, (omega arith, (omega arith, (omega arith, tt))))
      (omega arith)

abbrev asked : BridgeManager ℕ
asked = (create_bridge nobody 0 visit).0

granted : (reserve_leg asked (secs 1) "b1" "o" (1 ∷ 2 ∷ [])).1 ≡ ok owner
unfolding create_bridge reap forget_old Map.retain Map.get Map.insert Map.empty make_room find
    is_recent new_state reserve_leg reserve_found reserve_as claim authorize constant_time_eq
    is_alive expired_reason
granted = refl

reserve_leg-MayTake_example : MayTake asked (secs 1) "b1" "o" (1 ∷ 2 ∷ []) owner
reserve_leg-MayTake_example = reserve_leg-MayTake asked (secs 1) "b1" "o" (1 ∷ 2 ∷ []) owner granted

reserve_leg-reserve_leg_example :
    (reserve_leg
      (reserve_leg asked (secs 1) "b1" "o" (1 ∷ 2 ∷ [])).0
      (secs 2)
      "b1"
      "o"
      (1 ∷ 2 ∷ [])).1
    ≢ ok owner
reserve_leg-reserve_leg_example =
    reserve_leg-reserve_leg asked (secs 1) (secs 2) "b1" "o" "o" (1 ∷ 2 ∷ []) (1 ∷ 2 ∷ []) owner
      granted

abbrev waiting : BridgeState ℕ
waiting = record {
  proxy_name = "ssh";
  owner_run_id = "o";
  visitor_run_id = "v";
  owner_key = 1 ∷ 2 ∷ [];
  visitor_key = 3 ∷ [];
  owner_conn = none;
  visitor_conn = none;
  owner_reserved = true;
  visitor_reserved = true;
  created_at = 0;
}

abbrev reserved_twice : BridgeManager ℕ
reserved_twice =
    run asked ((secs 1, reserves "b1" "o" (1 ∷ 2 ∷ [])) ∷ (secs 2, reserves "b1" "v" (3 ∷ [])) ∷ [])

both_wait : Map.get "b1" reserved_twice.bridges ≡ some waiting
unfolding run step create_bridge reap forget_old Map.retain Map.modify Map.get Map.insert Map.empty
    make_room find is_recent new_state reserve_leg reserve_found reserve_as claim authorize
    constant_time_eq is_alive expired_reason
both_wait = refl

install_leg-install_leg_example :
    let first = install_leg reserved_twice "b1" visitor 8 in
    let second = install_leg first.0 "b1" owner 7 in
    (first.1 ≡ ok none) × (second.1 ≡ ok (some (7, 8))) × (Map.get "b1" second.0.bridges ≡ none)
install_leg-install_leg_example =
    install_leg-install_leg reserved_twice "b1" visitor 8 7 waiting both_wait (refl, refl)
      (refl, refl)
