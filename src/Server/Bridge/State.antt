-- ===== src/Server/Bridge/State.antt =====
-- The state of one STCP bridge in rust_frp_server/src/control.rs: its legs and its age.
use rust_frp.Common.{
  ℕ, ◌-◌, ◌*◌, Option, none, some, Bool, false, not, ◌&&◌, ◌||◌, Result, ok, err, String, ltb,
  is_some, List, if◌then◌else◌,
}
use rust_frp.Common.Equality.{◌=?◌, string_eq}
use rust_frp.Util.ConstantTime.{constant_time_eq}

abbrev pub secs : ℕ → ℕ
secs n = n * 1_000_000_000

abbrev pub empty_ttl : ℕ
empty_ttl = secs 15

abbrev pub zombie_ttl : ℕ
zombie_ttl = secs 45

abbrev pub replay_window : ℕ
replay_window = secs 120

abbrev pub max_pending_bridges : ℕ
max_pending_bridges = 4096

abbrev pub max_recent_bridge_ids : ℕ
max_recent_bridge_ids = max_pending_bridges * 2

pub data Role : Type 0 where
  owner visitor : Role

pub data Reason : Type 0 where
  half_open is_empty : Reason

pub data BridgeError : Type 0 where
  already_used too_many not_found unauthorized already_claimed : BridgeError

pub record BridgeState {ℓ} (Conn : Type ℓ) : Type ℓ where
  pub proxy_name : String
  pub owner_run_id : String
  pub visitor_run_id : String
  pub owner_key : List ℕ
  pub visitor_key : List ℕ
  pub owner_conn : Option Conn
  pub visitor_conn : Option Conn
  pub owner_reserved : Bool
  pub visitor_reserved : Bool
  pub created_at : ℕ

-- The arguments of `create_bridge`.
pub record Request : Type 0 where
  pub proxy_name : String
  pub bridge_id : String
  pub owner_run_id : String
  pub visitor_run_id : String
  pub owner_key : List ℕ
  pub visitor_key : List ℕ

module _ {ℓ} {Conn : Type ℓ} where
  unfoldable pub expired_reason : ℕ → BridgeState Conn → Option Reason
  expired_reason now s =
      let age : ℕ = now - s.created_at in
      if is_some s.owner_conn || is_some s.visitor_conn || s.owner_reserved || s.visitor_reserved
      then (if ltb zombie_ttl age then some half_open else none)
      else (if ltb empty_ttl age then some is_empty else none)

  -- The test of the `retain` in `reap_zombie_bridges`.
  unfoldable pub is_alive : ℕ → String → BridgeState Conn → Bool
  unfolding expired_reason
  is_alive now id s = not (is_some (expired_reason now s))

  unfoldable pub new_state : ℕ → Request → BridgeState Conn
  new_state now r = record {
    proxy_name = r.proxy_name;
    owner_run_id = r.owner_run_id;
    visitor_run_id = r.visitor_run_id;
    owner_key = r.owner_key;
    visitor_key = r.visitor_key;
    owner_conn = none;
    visitor_conn = none;
    owner_reserved = false;
    visitor_reserved = false;
    created_at = now;
  }

  unfoldable pub authorize : BridgeState Conn → String → List ℕ → Option Role
  authorize s run_id sign_key =
      if (run_id =? s.owner_run_id) && constant_time_eq sign_key s.owner_key
      then some owner
      else if (run_id =? s.visitor_run_id) && constant_time_eq sign_key s.visitor_key
      then some visitor
      else none

  -- The two fields of a leg.
  abbrev pub reserved : Role → BridgeState Conn → Bool
  reserved owner s = s.owner_reserved
  reserved visitor s = s.visitor_reserved

  abbrev pub conn_of : Role → BridgeState Conn → Option Conn
  conn_of owner s = s.owner_conn
  conn_of visitor s = s.visitor_conn

  abbrev pub set_reserved : Role → Bool → BridgeState Conn → BridgeState Conn
  set_reserved owner b s = record s { owner_reserved = b }
  set_reserved visitor b s = record s { visitor_reserved = b }

  -- `*reserved = false; *slot = Some(conn)`
  abbrev pub fill : Role → Conn → BridgeState Conn → BridgeState Conn
  fill owner c s = record s { owner_reserved = false; owner_conn = some c }
  fill visitor c s = record s { visitor_reserved = false; visitor_conn = some c }

  -- The end of `reserve_leg`, for the role that the caller may take.
  abbrev pub take_leg : BridgeState Conn → Option Role → Result BridgeError Role
  take_leg s none = err unauthorized
  take_leg s (some role) =
      if reserved role s || is_some (conn_of role s) then err already_claimed else ok role

  -- `reserve_leg` on the state that it finds.
  unfoldable pub claim : BridgeState Conn → String → List ℕ → Result BridgeError Role
  claim s run_id sign_key = take_leg s (authorize s run_id sign_key)
