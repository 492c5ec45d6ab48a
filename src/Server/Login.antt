-- ===== src/Server/Login.antt =====
-- The login at the start of `Control::run` in rust_frp_server/src/control.rs, up to the answer that is
-- sent. The authentication, the plugins and what other tasks do are arguments; `metas` and texts
-- that the plugins give are as their JSON accessors answer.
pub mod Entry
pub mod Outcomes
mod Runs
use rust_frp.Common.{
  ℕ, ◌/◌, ◌%◌, ◌^◌, Option, none, some, Bool, true, false, Result, ok, err, unwrap_or, List, [],
  ◌∷◌, if◌then◌else◌,
}
use rust_frp.Common.Text.{Text}
use rust_frp.Common.Map.{map_option}
use rust_frp.Server.Throttle.{
  IpAddr, ThrottleKey, LoginThrottle, new_key, check, record_failure, record_success,
}
use rust_frp.Server.Clients.{
  ControlManager, ClientRegistration, ClientIdPolicy, warn, reject, Degraded,
  degraded_client_id_reason, add_client, set_auth_manager, register_kick,
}
use rust_frp.Server.Clients.Calls.{Call}
use rust_frp.Server.Clients.Takeover.{kick_same_client}

pub record LoginMsg : Type 0 where
  pub user : Text
  pub token : Text
  pub run_id : Text
  pub client_id : Text
  pub hostname : Text
  pub version : Text
  pub pool_count : ℕ
  pub metas : List (Text × Text)

-- What the control takes over from the content that the plugins may have rewritten.
pub record PluginContent : Type 0 where
  pub user : Option Text
  pub run_id : Option Text
  pub client_id : Option Text
  pub pool_count : Option ℕ
  pub metas : List (Text × Option Text)

pub record Session : Type 0 where
  pub user : Text
  pub run_id : Text
  pub client_id : Text
  pub pool_count : ℕ
  pub metas : List (Text × Text)

pub data Outcome : Type 0 where
  throttled : ℕ → Outcome
  bad_credentials plugin_rejected degraded_rejected : Outcome
  accepted : Session → Outcome

-- The connection: who is at the other end, and the authentication in force.
pub record Connection : Type 0 where
  pub remote_ip : Option IpAddr
  pub wire_protocol : Text
  pub peer_cert_fingerprint : Option Text
  pub auth_manager : ℕ
  pub kick_signal : ℕ

-- The clocks when the lock is looked at, a failure recorded and the client added.
pub record Times : Type 0 where
  pub checked : ℕ
  pub failed : ℕ
  pub added : ℕ
  pub timestamp : ℕ

-- `verify_login` with the authentication of the connection, the plugins' answer, the text of an
-- address, and the calls of others while a session is taken over.
pub record World : Type 0 where
  pub verify_login : Text → Text → Bool
  pub plugin : PluginContent → Result (Unit {0}) PluginContent
  pub ip_text : IpAddr → Text
  pub meanwhile : Text → List Call

abbrev pub all_texts : List (Text × Text) → List (Text × Option Text)
all_texts [] = []
all_texts ((k, v) ∷ rest) = (k, some v) ∷ all_texts rest

abbrev pub content_of : LoginMsg → PluginContent
content_of msg = record {
  user = some msg.user;
  run_id = some msg.run_id;
  client_id = some msg.client_id;
  pool_count = some msg.pool_count;
  metas = all_texts msg.metas;
}

abbrev pub texts_only : List (Text × Option Text) → List (Text × Text)
texts_only [] = []
texts_only ((k, none) ∷ rest) = texts_only rest
texts_only ((k, some v) ∷ rest) = (k, v) ∷ texts_only rest

abbrev pub session_of : PluginContent → Session
session_of content = record {
  user = unwrap_or content.user [];
  run_id = unwrap_or content.run_id [];
  client_id = unwrap_or content.client_id [];
  pool_count = unwrap_or content.pool_count 0 % 2 ^ 32;
  metas = texts_only content.metas;
}

abbrev pub check_lock :
    ControlManager
    → Option LoginThrottle
    → Option ThrottleKey
    → ℕ
    → ControlManager × Result ℕ (Unit {0})
check_lock m (some t) (some key) now =
    let (t', answer) = check t key now in (record m { login_throttle = some t' }, answer)
check_lock m (some t) none now = (m, ok tt)
check_lock m none key now = (m, ok tt)

abbrev pub note_failure :
    ControlManager → Option LoginThrottle → Option ThrottleKey → ℕ → ControlManager
note_failure m (some t) (some key) now = record m {
  login_throttle = some (record_failure t key now).0;
}
note_failure m (some t) none now = m
note_failure m none key now = m

abbrev pub note_success :
    ControlManager → Option LoginThrottle → Option ThrottleKey → ControlManager
note_success m (some t) (some key) = record m { login_throttle = some (record_success t key) }
note_success m (some t) none = m
note_success m none key = m

abbrev pub is_rejected : ClientIdPolicy → Option Degraded → Bool
is_rejected reject (some reason) = true
is_rejected reject none = false
is_rejected warn reason = false

module _ (w : World) (c : Connection) (times : Times) (msg : LoginMsg) where
  abbrev pub registration : Session → ClientRegistration
  registration s = record {
    run_id = s.run_id;
    client_id = s.client_id;
    user = s.user;
    version = msg.version;
    hostname = msg.hostname;
    client_ip = unwrap_or (map_option w.ip_text c.remote_ip) [];
    wire_protocol = c.wire_protocol;
    cert_fingerprint = c.peer_cert_fingerprint;
  }

  abbrev pub enrolled : ControlManager → Session → ControlManager
  enrolled m s =
      set_auth_manager (add_client m (registration s) times.added times.timestamp) s.run_id
        c.auth_manager

  -- The client is added, its earlier sessions are kicked, and it can be kicked itself.
  unfoldable pub enter : ControlManager → Session → ControlManager
  enter m s =
      register_kick
        (kick_same_client w.meanwhile (enrolled m s) s.client_id s.run_id c.peer_cert_fingerprint).0
        s.run_id c.kick_signal

  abbrev pub login_as : ControlManager → Session → ControlManager × Outcome
  login_as m s =
      if is_rejected m.client_id_policy (degraded_client_id_reason s.client_id msg.hostname)
      then (m, degraded_rejected)
      else (enter m s, accepted s)

  abbrev pub login_plugged :
      ControlManager → Result (Unit {0}) PluginContent → ControlManager × Outcome
  login_plugged m (err reason) = (m, plugin_rejected)
  login_plugged m (ok content) = login_as m (session_of content)

  abbrev pub throttle_key : Option ThrottleKey
  throttle_key = new_key msg.client_id c.remote_ip

  abbrev pub login_verified : ControlManager → Bool → ControlManager × Outcome
  login_verified m false =
      (note_failure m m.login_throttle throttle_key times.failed, bad_credentials)
  login_verified m true =
      login_plugged (note_success m m.login_throttle throttle_key) (w.plugin (content_of msg))

  -- The answer to a refused client gives the time left in whole seconds.
  abbrev pub login_checked : ControlManager × Result ℕ (Unit {0}) → ControlManager × Outcome
  login_checked (m, err remaining) = (m, throttled (remaining / 1_000_000_000))
  login_checked (m, ok u) = login_verified m (w.verify_login msg.user msg.token)

  unfoldable pub handle_login : ControlManager → ControlManager × Outcome
  handle_login m = login_checked (check_lock m m.login_throttle throttle_key times.checked)
