-- ===== src/Server/Clients/Calls.antt =====
-- The calls that change the ControlManager of rust_frp_server/src/control.rs. `kick_same_client` is not
-- one call: it gives up its locks, so its parts (`takes_signal`, `drops_session`) stand here.
use rust_frp.Common.{ℕ, List, [], ◌∷◌, ◌≡◌}
use rust_frp.Common.Equality.{bytes_eq}
use rust_frp.Common.Text.{Text}
use rust_frp.Common.Map
use rust_frp.Server.Clients.{
  ControlManager, ClientRegistration, add, remove, register_kick, set_auth_manager, add_client,
  update_heartbeat, clear_offline_clients,
}

unfoldable pub take_signal : ControlManager → Text → ControlManager
take_signal m run_id = record m { kick_signals = Map.remove run_id m.kick_signals }

unfoldable pub drop_session : ControlManager → Text → ControlManager
drop_session m run_id = record m {
  msg_channels = Map.remove run_id m.msg_channels;
  auth_managers = Map.remove run_id m.auth_managers;
  clients = Map.remove run_id m.clients;
}

pub data Call : Type 0 where
  adds : Text → ℕ → Call
  removes : Text → ℕ → Call
  registers_kick : Text → ℕ → Call
  sets_auth : Text → ℕ → Call
  adds_client : ClientRegistration → ℕ → ℕ → Call
  heartbeats : Text → ℕ → Call
  clears_offline : Call
  takes_signal : Text → Call
  drops_session : Text → Call

unfoldable pub step : ControlManager → Call → ControlManager
step m (adds run_id tx) = add m run_id tx
step m (removes run_id now) = remove m run_id now
step m (registers_kick run_id signal) = register_kick m run_id signal
step m (sets_auth run_id auth) = set_auth_manager m run_id auth
step m (adds_client reg now timestamp) = add_client m reg now timestamp
step m (heartbeats run_id now) = update_heartbeat m run_id now
step m clears_offline = (clear_offline_clients m).0
step m (takes_signal run_id) = take_signal m run_id
step m (drops_session run_id) = drop_session m run_id

unfoldable pub run : ControlManager → List Call → ControlManager
unfolding step
run m [] = m
run m (call ∷ calls) = run (step m call) calls

-- What a session does on its own behalf while it ends.
abbrev pub EndsSession : Text → Call → Type 0
EndsSession k (removes run_id now) = run_id ≡ k
EndsSession k (heartbeats run_id now) = run_id ≡ k
EndsSession k other = ⊥
