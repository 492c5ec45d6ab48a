-- ===== src/Server/Clients.antt =====
-- rust_frp_server/src/control.rs: the sessions that ControlManager keeps. Senders, authentication
-- managers and kick signals are known by numbers; the clocks are arguments. A call is one step.
pub mod Calls
pub mod History
pub mod Takeover
mod Runs
use rust_frp.Common.{
  ℕ, ◌-◌, Option, none, some, Bool, true, false, not, ◌&&◌, ◌||◌, ◌==◌, List, [], ◌∷◌, ◌++◌, map,
  length, drop, retain, if◌then◌else◌,
}
use rust_frp.Common.Equality.{◌=?◌, bytes_eq}
use rust_frp.Common.Text.{Text}
use rust_frp.Common.Map.{Map, map_option}
use rust_frp.Common.Map
use rust_frp.Server.Throttle.{LoginThrottle}

abbrev pub max_offline_clients : ℕ
max_offline_clients = 200

pub record ClientInfo : Type 0 where
  pub run_id : Text
  pub client_id : Text
  pub user : Text
  pub version : Text
  pub hostname : Text
  pub client_ip : Text
  pub wire_protocol : Text
  pub cert_fingerprint : Option Text
  pub connected_at : ℕ
  pub last_heartbeat : ℕ
  pub first_connected_at : ℕ
  pub disconnected_at : Option ℕ
  pub online : Bool

pub record ClientRegistration : Type 0 where
  pub run_id : Text
  pub client_id : Text
  pub user : Text
  pub version : Text
  pub hostname : Text
  pub client_ip : Text
  pub wire_protocol : Text
  pub cert_fingerprint : Option Text

pub data ClientIdPolicy : Type 0 where
  warn reject : ClientIdPolicy

pub record ControlManager : Type 0 where
  pub msg_channels : Map Text ℕ
  pub auth_managers : Map Text ℕ
  pub clients : Map Text ClientInfo
  pub offline_clients : List ClientInfo
  pub kick_signals : Map Text ℕ
  pub login_throttle : Option LoginThrottle
  pub client_id_policy : ClientIdPolicy
  pub kick_require_same_cert : Bool

unfoldable pub with_security : Option LoginThrottle → ClientIdPolicy → Bool → ControlManager
with_security throttle policy same_cert = record {
  msg_channels = Map.empty;
  auth_managers = Map.empty;
  clients = Map.empty;
  offline_clients = [];
  kick_signals = Map.empty;
  login_throttle = throttle;
  client_id_policy = policy;
  kick_require_same_cert = same_cert;
}

-- Why a client id does not tell clients apart.
pub data Degraded : Type 0 where
  empty_id equals_hostname : Degraded

unfoldable pub degraded_client_id_reason : Text → Text → Option Degraded
degraded_client_id_reason [] hostname = some empty_id
degraded_client_id_reason (c ∷ id) hostname =
    if c ∷ id =? hostname then some equals_hostname else none

unfoldable pub add : ControlManager → Text → ℕ → ControlManager
add m run_id tx = record m { msg_channels = Map.insert run_id tx m.msg_channels }

abbrev pub is_other : Text → ClientInfo → Bool
is_other run_id c = not (c.run_id =? run_id)

-- The oldest entries of the history go once there are more than 200.
abbrev pub newest : List ClientInfo → List ClientInfo
newest offline = drop (length offline - max_offline_clients) offline

abbrev pub gone : ℕ → ClientInfo → ClientInfo
gone now c = record c { online = false; disconnected_at = some now }

abbrev pub to_history : Text → ℕ → Option ClientInfo → ControlManager → ControlManager
to_history run_id now none m = m
to_history run_id now (some c) m = record m {
  clients = Map.remove run_id m.clients;
  offline_clients = newest (retain (is_other c.run_id) m.offline_clients ++ gone now c ∷ []);
}

abbrev pub forget_channels : ControlManager → Text → ControlManager
forget_channels m run_id = record m {
  msg_channels = Map.remove run_id m.msg_channels;
  auth_managers = Map.remove run_id m.auth_managers;
}

unfoldable pub remove : ControlManager → Text → ℕ → ControlManager
remove m run_id now =
    let m' = to_history run_id now (Map.get run_id m.clients) (forget_channels m run_id) in
    record m' { kick_signals = Map.remove run_id m'.kick_signals }

unfoldable pub register_kick : ControlManager → Text → ℕ → ControlManager
register_kick m run_id signal = record m { kick_signals = Map.insert run_id signal m.kick_signals }

abbrev pub get_msg_tx : ControlManager → Text → Option ℕ
get_msg_tx m run_id = Map.get run_id m.msg_channels

unfoldable pub set_auth_manager : ControlManager → Text → ℕ → ControlManager
set_auth_manager m run_id auth = record m { auth_managers = Map.insert run_id auth m.auth_managers }

abbrev pub get_auth_manager : ControlManager → Text → Option ℕ
get_auth_manager m run_id = Map.get run_id m.auth_managers

-- `now` is the monotonic clock, `timestamp` the Unix time in seconds.
abbrev pub registered : ClientRegistration → ℕ → ℕ → ClientInfo
registered reg now timestamp = record {
  run_id = reg.run_id;
  client_id = reg.client_id;
  user = reg.user;
  version = reg.version;
  hostname = reg.hostname;
  client_ip = reg.client_ip;
  wire_protocol = reg.wire_protocol;
  cert_fingerprint = reg.cert_fingerprint;
  connected_at = now;
  last_heartbeat = now;
  first_connected_at = timestamp;
  disconnected_at = none;
  online = true;
}

unfoldable pub add_client : ControlManager → ClientRegistration → ℕ → ℕ → ControlManager
add_client m reg now timestamp = record m {
  offline_clients = retain (is_other reg.run_id) m.offline_clients;
  clients = Map.insert reg.run_id (registered reg now timestamp) m.clients;
}

abbrev pub beat : ℕ → ClientInfo → ClientInfo
beat now c = record c { last_heartbeat = now }

unfoldable pub update_heartbeat : ControlManager → Text → ℕ → ControlManager
update_heartbeat m run_id now = record m { clients = Map.modify run_id (beat now) m.clients }

abbrev pub get_clients : ControlManager → List ClientInfo
get_clients m = map (λ entry. entry.1) m.clients.entries

abbrev pub get_all_clients : ControlManager → List ClientInfo
get_all_clients m = get_clients m ++ m.offline_clients

unfoldable pub clear_offline_clients : ControlManager → ControlManager × ℕ
clear_offline_clients m = (record m { offline_clients = [] }, length m.offline_clients)

abbrev pub get_user_by_run_id : ControlManager → Text → Option Text
get_user_by_run_id m run_id = map_option (λ (c : ClientInfo). c.user) (Map.get run_id m.clients)

abbrev pub first_such : (ClientInfo → Bool) → List ClientInfo → Option ClientInfo
first_such p [] = none
first_such p (c ∷ cs) = if p c then some c else first_such p cs

-- The encoding is `URL_SAFE_NO_PAD` of the crate base64.
module _ (encode : Text → Text) where
  abbrev pub key : ClientInfo → Text
  key c = encode (c.user ++ b'|' ∷ c.client_id ++ b'|' ∷ c.run_id)

  abbrev pub or_offline : Option ClientInfo → Text → List ClientInfo → Option ClientInfo
  or_offline (some c) k offline = some c
  or_offline none k offline = first_such (λ c. key c =? k) offline

  unfoldable pub get_client_by_key : ControlManager → Text → Option ClientInfo
  get_client_by_key m k =
      or_offline (first_such (λ c. key c =? k) (get_clients m)) k m.offline_clients
