-- ===== src/Server/Bridge/Replay.antt =====
-- The bridge ids that rust_frp_server/src/control.rs remembers against replays.
use rust_frp.Common.{
  ℕ, suc, ◌+◌, ◌≤◌, ◌<◌, Option, none, some, ok, err, String, ◌≡◌, refl, List, [], ◌∷◌, length, All,
  arith,
}
use rust_frp.Common.Equality.{=?_iff, string_eq}
use rust_frp.Common.Map.{Map, get-insert_self, get-insert, get-retain, size-insert, size-retain-le}
use rust_frp.Common.Map
use rust_frp.Server.Bridge.{
  Role, BridgeState, BridgeManager, already_used, Request, max_recent_bridge_ids, replay_window,
  reap, is_recent, forget_old, make_room, create_bridge, reserve_as, reserve_found, reserve_leg,
  release_leg, install_pair, install_found, install_leg, cleanup, cleanup_bridge, sweep_stale, Call,
  creates, reserves, releases, installs, cleans, cleans_bridge, sweeps, step, run,
}

module _ {ℓ} {Conn : Type ℓ} where
  -- `id` was used at time `used`, and there is room for `n` more ids.
  abbrev pub Remembers : BridgeManager Conn → String → ℕ → ℕ → Type 0
  Remembers m id used n =
      (Map.get id m.recent ≡ some used) × (Map.size m.recent + n ≤ max_recent_bridge_ids)

get-forget_old :
    (recent : Map String ℕ) (id : String) (used now : ℕ)
    → now ≤ used + replay_window
    → Map.get id recent ≡ some used
    → Map.get id (forget_old now recent) ≡ some used
unfolding forget_old is_recent
get-forget_old recent id used now fresh found = ground (arith, get-retain (is_recent now) id recent)

make_room_small :
    (recent : Map String ℕ) → Map.size recent < max_recent_bridge_ids → make_room recent ≡ recent
unfolding make_room
make_room_small recent small = ground arith

module _ {ℓ} {Conn : Type ℓ} where
  create_bridge-Remembers :
      (m : BridgeManager Conn) (now : ℕ) (r : Request) (id : String) (used n : ℕ)
      → now ≤ used + replay_window
      → Remembers m id used (suc n)
      → Remembers (create_bridge m now r).0 id used n
  unfolding create_bridge
  create_bridge-Remembers m now r id used n fresh (found, room) =
      let kept = get-forget_old m.recent id used now fresh found in
      let few : Map.size (forget_old now m.recent) + suc n ≤ max_recent_bridge_ids =
        unfold forget_old in omega (arith, room, size-retain-le (is_recent now) m.recent) in
      let small = make_room_small (forget_old now m.recent) (omega (arith, few)) in
      ground (
        arith,
        kept,
        few,
        small,
        size-insert r.bridge_id now (forget_old now m.recent),
        get-insert r.bridge_id id now (forget_old now m.recent),
        =?_iff r.bridge_id id,
      )

  recent-reserve_found :
      (m : BridgeManager Conn) (id run_id : String) (key : List ℕ) (o : Option (BridgeState Conn))
      → (reserve_found m id run_id key o).0.recent ≡ m.recent
  unfolding reserve_found reserve_as
  recent-reserve_found m id run_id key none = refl
  recent-reserve_found m id run_id key (some s) = ground arith

  recent-install_found :
      (m : BridgeManager Conn) (id : String) (role : Role) (conn : Conn)
      (o : Option (BridgeState Conn))
      → (install_found m id role conn o).0.recent ≡ m.recent
  unfolding install_found install_pair
  recent-install_found m id role conn none = refl
  recent-install_found m id role conn (some s) = ground arith

  step-Remembers :
      (m : BridgeManager Conn) (now : ℕ) (c : Call Conn) (id : String) (used n : ℕ)
      → now ≤ used + replay_window
      → Remembers m id used (suc n)
      → Remembers (step m now c) id used n
  unfolding step reserve_leg install_leg release_leg cleanup cleanup_bridge sweep_stale forget_old
  step-Remembers m now (creates r) id used n fresh v =
      create_bridge-Remembers m now r id used n fresh v
  step-Remembers m now (reserves bridge run_id key) id used n fresh (found, room) =
      rw
        (recent-reserve_found (record m { bridges = reap now m.bridges }) bridge run_id key
          (Map.get bridge (reap now m.bridges)))
        (found, omega arith)
  step-Remembers m now (releases bridge role) id used n fresh (found, room) = (found, omega arith)
  step-Remembers m now (installs bridge role conn) id used n fresh (found, room) =
      rw (recent-install_found m bridge role conn (Map.get bridge m.bridges)) (found, omega arith)
  step-Remembers m now (cleans name) id used n fresh (found, room) = (found, omega arith)
  step-Remembers m now (cleans_bridge bridge) id used n fresh (found, room) = (found, omega arith)
  step-Remembers m now sweeps id used n fresh (found, room) = (
    get-forget_old m.recent id used now fresh found,
    omega (arith, room, size-retain-le (is_recent now) m.recent),
  )

  -- Every call is made no later than `until`.
  abbrev pub Before : ℕ → List (ℕ × Call Conn) → Type 0
  Before until = All λ (c : ℕ × Call Conn). c.0 ≤ until

  run-Remembers :
      (m : BridgeManager Conn) (calls : List (ℕ × Call Conn)) (id : String) (used n : ℕ)
      → Before (used + replay_window) calls
      → Remembers m id used (length calls + n)
      → Remembers (run m calls) id used n
  unfolding run
  run-Remembers m [] id used n fresh v = (v.0, omega (arith, v.1))
  run-Remembers m ((now, c) ∷ rest) id used n (now_fresh, fresh) v =
      run-Remembers (step m now c) rest id used n fresh
        (step-Remembers m now c id used (length rest + n) now_fresh (v.0, omega (arith, v.1)))

  create_bridge-used :
      (m : BridgeManager Conn) (now : ℕ) (r : Request) (used n : ℕ)
      → now ≤ used + replay_window
      → Remembers m r.bridge_id used n
      → (create_bridge m now r).1 ≡ err already_used
  unfolding create_bridge
  create_bridge-used m now r used n fresh (found, room) =
      ground (arith, get-forget_old m.recent r.bridge_id used now fresh found)

  create_bridge-remembered :
      (m : BridgeManager Conn) (now : ℕ) (r : Request)
      → (create_bridge m now r).1 ≡ ok tt
      → Map.get r.bridge_id (create_bridge m now r).0.recent ≡ some now
  unfolding create_bridge
  create_bridge-remembered m now r done =
      ground (arith, get-insert_self r.bridge_id now (make_room (forget_old now m.recent)))

  -- An id that a bridge was created under cannot be used again within the replay window: whatever
  -- calls follow (the bridge may be removed meanwhile), a `create_bridge` with that id is refused
  -- as already used, provided that the table of ids has room for one id per call.
  pub create_bridge-run_used :
      (m : BridgeManager Conn) (used : ℕ) (r : Request) (calls : List (ℕ × Call Conn)) (now : ℕ)
      (again : Request)
      → (create_bridge m used r).1 ≡ ok tt
      → again.bridge_id ≡ r.bridge_id
      → Map.size (create_bridge m used r).0.recent + length calls ≤ max_recent_bridge_ids
      → Before (used + replay_window) calls
      → now ≤ used + replay_window
      → (create_bridge (run (create_bridge m used r).0 calls) now again).1 ≡ err already_used
  create_bridge-run_used m used r calls now again done same room fresh now_fresh =
      create_bridge-used _ now again used 0 now_fresh (
        run-Remembers _ calls again.bridge_id used 0 fresh
          (rw same (create_bridge-remembered m used r done), omega arith))
