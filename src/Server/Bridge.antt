-- ===== src/Server/Bridge.antt =====
-- rust_frp_server/src/control.rs, `StcpBridgeManager`: bridges between the two work connections of an
-- STCP visit. The clock is an argument of each call, and the locks make each call one step.
-- A connection is a value of the parameter `Conn`; it is never looked at.
mod State
pub mod Claims
pub mod Invariant
pub mod Replay
pub mod Legs
mod Runs
use rust_frp.Common.{
  ℕ, ◌-◌, Option, none, some, Bool, true, false, not, ◌||◌, Result, ok, err, String, leb, is_some,
  List, [], ◌∷◌, retain, if◌then◌else◌,
}
use rust_frp.Common.Equality.{◌=?◌, string_eq}
use rust_frp.Common.Map.{Map}
use rust_frp.Common.Map
pub use State.{
  secs, empty_ttl, zombie_ttl, replay_window, max_pending_bridges, max_recent_bridge_ids, Role,
  owner, visitor, Reason, half_open, is_empty, BridgeError, already_used, too_many, not_found,
  unauthorized, already_claimed, BridgeState, Request, reserved, conn_of, set_reserved, fill,
  take_leg,
}
unfoldable pub use State.{expired_reason, is_alive, new_state, authorize, claim}

pub record BridgeManager {ℓ} (Conn : Type ℓ) : Type ℓ where
  pub bridges : Map String (BridgeState Conn)
  pub recent : Map String ℕ

-- `min_by_key` over the instants: an id that was used first.
abbrev oldest : List (String × ℕ) → Option (String × ℕ)
oldest [] = none
oldest ((id, at) ∷ rest) = elim (oldest rest) [
  | none ↦ some (id, at)
  | some (id', at') ↦ if leb at at' then some (id, at) else some (id', at')
]

module _ {ℓ} {Conn : Type ℓ} where
  -- `reap_zombie_bridges`
  pub reap : ℕ → Map String (BridgeState Conn) → Map String (BridgeState Conn)
  reap now = Map.retain (is_alive now)

-- The test of `recent.retain` in `create_bridge` and `sweep_stale`.
pub is_recent : ℕ → String → ℕ → Bool
is_recent now id used_at = leb (now - used_at) replay_window

pub forget_old : ℕ → Map String ℕ → Map String ℕ
forget_old now = Map.retain (is_recent now)

-- Room for one more id: the oldest goes if the table is full.
pub make_room : Map String ℕ → Map String ℕ
make_room recent =
    if leb max_recent_bridge_ids (Map.size recent)
    then elim (oldest (Map.entries recent)) [ none ↦ recent | some (id, at) ↦ Map.remove id recent ]
    else recent

module _ {ℓ} {Conn : Type ℓ} where
  pub create_bridge :
      BridgeManager Conn → ℕ → Request → BridgeManager Conn × Result BridgeError (Unit {0})
  create_bridge m now r =
      let bridges = reap now m.bridges in
      let recent = forget_old now m.recent in
      if is_some (Map.get r.bridge_id bridges) || is_some (Map.get r.bridge_id recent)
      then (record { bridges = bridges; recent = recent }, err already_used)
      else if leb max_pending_bridges (Map.size bridges)
      then (record { bridges = bridges; recent = recent }, err too_many)
      else (
        record {
          bridges = Map.insert r.bridge_id (new_state now r) bridges;
          recent = Map.insert r.bridge_id now (make_room recent);
        },
        ok tt,
      )

  pub reserve_as :
      BridgeManager Conn
      → String
      → Result BridgeError Role
      → BridgeManager Conn × Result BridgeError Role
  reserve_as m bridge_id (err e) = (m, err e)
  reserve_as m bridge_id (ok role) =
      (record m { bridges = Map.modify bridge_id (set_reserved role true) m.bridges }, ok role)

  pub reserve_found :
      BridgeManager Conn
      → String
      → String
      → List ℕ
      → Option (BridgeState Conn)
      → BridgeManager Conn × Result BridgeError Role
  reserve_found m bridge_id run_id sign_key none = (m, err not_found)
  reserve_found m bridge_id run_id sign_key (some s) =
      reserve_as m bridge_id (claim s run_id sign_key)

  pub reserve_leg :
      BridgeManager Conn
      → ℕ
      → String
      → String
      → List ℕ
      → BridgeManager Conn × Result BridgeError Role
  reserve_leg m now bridge_id run_id sign_key =
      let bridges = reap now m.bridges in
      reserve_found (record m { bridges = bridges }) bridge_id run_id sign_key
        (Map.get bridge_id bridges)

  pub release_leg : BridgeManager Conn → String → Role → BridgeManager Conn
  release_leg m bridge_id role = record m {
    bridges = Map.modify bridge_id (set_reserved role false) m.bridges;
  }

  -- `owner_conn.take().zip(visitor_conn.take())`
  abbrev pub both : Option Conn → Option Conn → Option (Conn × Conn)
  both none v = none
  both (some o) none = none
  both (some o) (some v) = some (o, v)

  pub install_pair :
      BridgeManager Conn
      → String
      → Role
      → Conn
      → Option (Conn × Conn)
      → BridgeManager Conn × Result Conn (Option (Conn × Conn))
  install_pair m bridge_id role conn none =
      (record m { bridges = Map.modify bridge_id (fill role conn) m.bridges }, ok none)
  install_pair m bridge_id role conn (some pair) =
      (record m { bridges = Map.remove bridge_id m.bridges }, ok (some pair))

  pub install_found :
      BridgeManager Conn
      → String
      → Role
      → Conn
      → Option (BridgeState Conn)
      → BridgeManager Conn × Result Conn (Option (Conn × Conn))
  install_found m bridge_id role conn none = (m, err conn)
  install_found m bridge_id role conn (some s) =
      if not (reserved role s) || is_some (conn_of role s)
      then (m, err conn)
      else install_pair m bridge_id role conn
          (both (fill role conn s).owner_conn (fill role conn s).visitor_conn)

  -- The connection comes back in the error if there is no reserved, empty leg for it.
  pub install_leg :
      BridgeManager Conn
      → String
      → Role
      → Conn
      → BridgeManager Conn × Result Conn (Option (Conn × Conn))
  install_leg m bridge_id role conn =
      install_found m bridge_id role conn (Map.get bridge_id m.bridges)

  pub is_of_other : String → String → BridgeState Conn → Bool
  is_of_other name id s = not (s.proxy_name =? name)

  pub cleanup : BridgeManager Conn → String → BridgeManager Conn
  cleanup m name = record m { bridges = Map.retain (is_of_other name) m.bridges }

  pub cleanup_bridge : BridgeManager Conn → String → BridgeManager Conn
  cleanup_bridge m bridge_id = record m { bridges = Map.remove bridge_id m.bridges }

  -- The counts are the entries that went.
  pub sweep_stale : BridgeManager Conn → ℕ → BridgeManager Conn × (ℕ × ℕ)
  sweep_stale m now =
      let bridges = reap now m.bridges in
      let recent = forget_old now m.recent in
      (
        record { bridges = bridges; recent = recent },
        (Map.size m.bridges - Map.size bridges, Map.size m.recent - Map.size recent),
      )

-- Calls by the work connections, the control sessions and the collector, each at its time.
pub data Call {ℓ} (Conn : Type ℓ) : Type ℓ where
  creates : Request → Call Conn
  reserves : String → String → List ℕ → Call Conn
  releases : String → Role → Call Conn
  installs : String → Role → Conn → Call Conn
  cleans cleans_bridge : String → Call Conn
  sweeps : Call Conn

module _ {ℓ} {Conn : Type ℓ} where
  pub step : BridgeManager Conn → ℕ → Call Conn → BridgeManager Conn
  step m now (creates r) = (create_bridge m now r).0
  step m now (reserves id run_id key) = (reserve_leg m now id run_id key).0
  step m now (releases id role) = release_leg m id role
  step m now (installs id role conn) = (install_leg m id role conn).0
  step m now (cleans name) = cleanup m name
  step m now (cleans_bridge id) = cleanup_bridge m id
  step m now sweeps = (sweep_stale m now).0

  pub run : BridgeManager Conn → List (ℕ × Call Conn) → BridgeManager Conn
  run m [] = m
  run m ((now, c) ∷ rest) = run (step m now c) rest
