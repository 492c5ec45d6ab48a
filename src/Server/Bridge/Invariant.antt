-- ===== src/Server/Bridge/Invariant.antt =====
-- What every call on the bridges of rust_frp_server/src/control.rs keeps: the tables stay within
-- their limits, and a leg is never both reserved and filled.
use rust_frp.Common.{
  ℕ, ◌+◌, ◌≤◌, Option, none, some, true, false, ◌||◌, Result, ok, err, String, leb, is_some, ◌≡◌,
  refl, subst, inl, inr, List, [], ◌∷◌, length, arith, Option-cases, Bool-cases,
}
use rust_frp.Common.Equality.{◌=?◌, =?_iff, string_eq}
use rust_frp.Common.Map.{
  Map, find, get-insert_cases, get-remove-some, get-retain-some, get-modify, size-insert,
  size-remove, size-remove-le, size-retain-le, size-modify, count_option,
}
use rust_frp.Common.Map
use rust_frp.Server.Bridge.Claims.{LegsOk, claim-free, reserve-LegsOk, release-LegsOk}
use rust_frp.Server.Bridge.{
  Role, BridgeState, BridgeManager, Request, max_pending_bridges, max_recent_bridge_ids, is_alive,
  reap, is_recent, forget_old, oldest, make_room, new_state, create_bridge, set_reserved, fill,
  claim, reserve_as, reserve_found, reserve_leg, install_pair, install_found, BridgeError,
  release_leg, install_leg, is_of_other, cleanup, cleanup_bridge, sweep_stale, Call, creates,
  reserves, releases, installs, cleans, cleans_bridge, sweeps, step, run,
}

module _ {ℓ} {Conn : Type ℓ} where
  pub record Inv (m : BridgeManager Conn) : Type ℓ where
    pub few_bridges : Map.size m.bridges ≤ max_pending_bridges
    pub few_ids : Map.size m.recent ≤ max_recent_bridge_ids
    pub legs : (id : String) (s : BridgeState Conn) → Map.get id m.bridges ≡ some s → LegsOk s

  reap-legs :
      (m : BridgeManager Conn) (now : ℕ) (id : String) (s : BridgeState Conn)
      → Inv m
      → Map.get id (reap now m.bridges) ≡ some s
      → LegsOk s
  unfolding reap
  reap-legs m now id s v found = v.legs id s (get-retain-some (is_alive now) id s m.bridges found).0

  -- The state with its pruned tables, as the calls leave it when they fail.
  reap-Inv :
      (m : BridgeManager Conn) (now : ℕ) → Inv m → Inv (record m { bridges = reap now m.bridges })
  unfolding reap
  reap-Inv m now v = record {
    few_bridges = omega (arith, v.few_bridges, size-retain-le (is_alive now) m.bridges);
    few_ids = v.few_ids;
    legs = λ id s found. v.legs id s (get-retain-some (is_alive now) id s m.bridges found).0;
  }

  forget-Inv :
      (m : BridgeManager Conn) (now : ℕ)
      → Inv m
      → Inv (record m { recent = forget_old now m.recent })
  unfolding forget_old
  forget-Inv m now v = record {
    few_bridges = v.few_bridges;
    few_ids = omega (arith, v.few_ids, size-retain-le (is_recent now) m.recent);
    legs = v.legs;
  }

  -- One bridge changes, to a state whose legs are in order.
  modify-Inv :
      (m : BridgeManager Conn) (id : String) (f : BridgeState Conn → BridgeState Conn)
      → Inv m
      → ((s : BridgeState Conn) → Map.get id m.bridges ≡ some s → LegsOk (f s))
      → Inv (record m { bridges = Map.modify id f m.bridges })
  modify-Inv m id f v good = record {
    few_bridges = omega (arith, v.few_bridges, size-modify id f m.bridges);
    few_ids = v.few_ids;
    legs = λ j s found. elim (Bool-cases (id =? j)) [
      | inl same ↦ elim (Option-cases (Map.get id m.bridges)) [
        | inl missing ↦ absurd (ground (arith, =?_iff id j, get-modify id j f m.bridges))
        | inr (old, here) ↦
            subst LegsOk {x = f old} {y = s}
              (ground (arith, =?_iff id j, get-modify id j f m.bridges)) (good old here)
      ]
      | inr other ↦ v.legs j s (ground (arith, get-modify id j f m.bridges))
    ];
  }

  -- Bridges go.
  shrink-Inv :
      (m : BridgeManager Conn) (bridges : Map String (BridgeState Conn))
      → Inv m
      → Map.size bridges ≤ Map.size m.bridges
      → ((id : String) (s : BridgeState Conn)
          → Map.get id bridges ≡ some s
          → Map.get id m.bridges ≡ some s)
      → Inv (record m { bridges = bridges })
  shrink-Inv m bridges v fewer sub = record {
    few_bridges = omega (arith, v.few_bridges);
    few_ids = v.few_ids;
    legs = λ id s found. v.legs id s (sub id s found);
  }

  remove-Inv :
      (m : BridgeManager Conn) (id : String)
      → Inv m
      → Inv (record m { bridges = Map.remove id m.bridges })
  remove-Inv m id v =
      shrink-Inv m _ v (size-remove-le id m.bridges)
        λ j s found. (get-remove-some id j s m.bridges found).1

-- The oldest id is one of the table's.
oldest-found :
    (l : List (String × ℕ)) (id : String) (at : ℕ)
    → oldest l ≡ some (id, at)
    → count_option (find id l) ≡ 1
unfolding find
oldest-found [] id at h = cc
oldest-found ((j, t) ∷ l) id at h = elim (Option-cases (oldest l)) [
  | inl none_left ↦ ground (arith, =?_iff j id)
  | inr ((id', at'), rest) ↦ ground (arith, =?_iff j id, oldest-found l id at)
]

oldest-none : (l : List (String × ℕ)) → oldest l ≡ none → length l ≡ 0
oldest-none [] h = refl
oldest-none ((j, t) ∷ l) h = ground (arith, oldest-none l)

size-make_room :
    (recent : Map String ℕ)
    → Map.size recent ≤ max_recent_bridge_ids
    → Map.size (make_room recent) + 1 ≤ max_recent_bridge_ids
unfolding make_room Map.get
size-make_room recent few = elim (Option-cases (oldest (Map.entries recent))) [
  | inl none_left ↦ ground (arith, oldest-none (Map.entries recent) none_left)
  | inr ((id, at), found) ↦
      ground (arith, oldest-found (Map.entries recent) id at found, size-remove id recent)
]

module _ {ℓ} {Conn : Type ℓ} where
  create_bridge-Inv :
      (m : BridgeManager Conn) (now : ℕ) (r : Request) → Inv m → Inv (create_bridge m now r).0
  unfolding create_bridge
  create_bridge-Inv m now r v =
      elim (Bool-cases
        (is_some (Map.get r.bridge_id bridges) || is_some (Map.get r.bridge_id recent))) [
          | inl used ↦ rw used pruned
          | inr unused ↦ elim (Bool-cases (leb max_pending_bridges (Map.size bridges))) [
            | inl many ↦ rw (unused, many) pruned
            | inr room ↦
                rw (unused, room)
                  (record {
                    few_bridges = ground (arith, size-insert r.bridge_id (new_state now r) bridges);
                    few_ids = ground (
                      arith,
                      size-insert r.bridge_id now (make_room recent),
                      size-make_room recent pruned.few_ids,
                    );
                    legs = λ id s found. elim (get-insert_cases r.bridge_id id _ s bridges found) [
                      | inl (same, new) ↦ subst LegsOk new (unfold new_state in (refl, refl, refl))
                      | inr (other, old) ↦ pruned.legs id s old
                    ];
                  })
          ]
        ]
    where
      bridges : Map String (BridgeState Conn)
      bridges = reap now m.bridges

      recent : Map String ℕ
      recent = forget_old now m.recent

      pruned : Inv (record { bridges = bridges; recent = recent })
      pruned = forget-Inv (record m { bridges = bridges }) now (reap-Inv m now v)

  reserve_as-Inv :
      (m : BridgeManager Conn) (id run_id : String) (key : List ℕ) (s : BridgeState Conn)
      (r : Result BridgeError Role)
      → Inv m
      → Map.get id m.bridges ≡ some s
      → claim s run_id key ≡ r
      → Inv (reserve_as m id r).0
  unfolding reserve_as
  reserve_as-Inv m id run_id key s (err e) v found h = v
  reserve_as-Inv m id run_id key s (ok role) v found granted =
      modify-Inv m id (set_reserved role true) v
        λ t here. reserve-LegsOk t role (claim-free t run_id key role (cc)) (v.legs id t here)

  reserve_found-Inv :
      (m : BridgeManager Conn) (id run_id : String) (key : List ℕ) (o : Option (BridgeState Conn))
      → Inv m
      → Map.get id m.bridges ≡ o
      → Inv (reserve_found m id run_id key o).0
  unfolding reserve_found
  reserve_found-Inv m id run_id key none v found = v
  reserve_found-Inv m id run_id key (some s) v found =
      reserve_as-Inv m id run_id key s (claim s run_id key) v found refl

  install_found-Inv :
      (m : BridgeManager Conn) (id : String) (role : Role) (conn : Conn)
      (o : Option (BridgeState Conn))
      → Inv m
      → Map.get id m.bridges ≡ o
      → Inv (install_found m id role conn o).0
  unfolding install_found install_pair
  install_found-Inv m id role conn none v found = v
  install_found-Inv m id role conn (some s) v found =
      ground (arith, modify-Inv m id (fill role conn) v, remove-Inv m id v)

  -- No call, at whatever time, takes a table over its limit, makes a leg both reserved and filled, or
  -- leaves a bridge with two connections waiting.
  pub step-Inv : (m : BridgeManager Conn) (now : ℕ) (c : Call Conn) → Inv m → Inv (step m now c)
  unfolding step reserve_leg install_leg release_leg cleanup cleanup_bridge sweep_stale
  step-Inv m now (creates r) v = create_bridge-Inv m now r v
  step-Inv m now (reserves id run_id key) v =
      reserve_found-Inv _ id run_id key _ (reap-Inv m now v) refl
  step-Inv m now (releases id role) v =
      modify-Inv m id (set_reserved role false) v
        λ s found. release-LegsOk s role (v.legs id s found)
  step-Inv m now (installs id role conn) v = install_found-Inv m id role conn _ v refl
  step-Inv m now (cleans name) v =
      shrink-Inv m _ v (size-retain-le (is_of_other name) m.bridges)
        λ id s found. (get-retain-some (is_of_other name) id s m.bridges found).0
  step-Inv m now (cleans_bridge id) v = remove-Inv m id v
  step-Inv m now sweeps v =
      forget-Inv (record m { bridges = reap now m.bridges }) now (reap-Inv m now v)

  pub run-Inv : (m : BridgeManager Conn) (calls : List (ℕ × Call Conn)) → Inv m → Inv (run m calls)
  unfolding run
  run-Inv m [] v = v
  run-Inv m ((now, c) ∷ rest) v = run-Inv (step m now c) rest (step-Inv m now c v)
