-- ===== src/Server/Clients/Takeover.antt =====
-- `kick_same_client` in rust_frp_server/src/control.rs: a client that logs in again takes over from its
-- earlier sessions. While it waits for one of them to end, other tasks make calls.
pub mod Effect
pub mod Sessions
use rust_frp.Common.{
  ℕ, Option, none, some, Bool, true, false, not, ◌&&◌, List, [], ◌∷◌, if◌then◌else◌,
}
use rust_frp.Common.Equality.{◌=?◌, bytes_eq}
use rust_frp.Common.Text.{Text}
use rust_frp.Common.Map.{
  Map, find, Distinct, get-remove_self, get-remove_ne, get-remove, get-modify_ne, get-modify,
  map_option,
}
use rust_frp.Common.Map
use rust_frp.Server.Clients.{ClientInfo, ControlManager}
use rust_frp.Server.Clients.Calls.{Call, take_signal, drop_session, run}

-- The sessions with this client id but another run id, and their certificates.
unfoldable pub old_sessions : Text → Text → List (Text × ClientInfo) → List (Text × Option Text)
old_sessions client_id new_run_id [] = []
old_sessions client_id new_run_id ((k, c) ∷ entries) =
    let rest = old_sessions client_id new_run_id entries in
    if c.client_id =? client_id && not (c.run_id =? new_run_id)
    then (c.run_id, c.cert_fingerprint) ∷ rest
    else rest

-- Certificates are needed to match, both sides have one, and they differ.
abbrev pub refuses : Bool → Option Text → Option Text → Bool
refuses true (some old) (some new) = not (old =? new)
refuses same_cert old new = false

-- The session's signal is sent, if it has one, and the end of the session waited for.
abbrev pub await_end : ControlManager → Option ℕ → List Call → ControlManager
await_end m none meanwhile = m
await_end m (some signal) meanwhile = run m meanwhile

unfoldable pub kick_session : ControlManager → Text → List Call → ControlManager
kick_session m old meanwhile =
    drop_session (await_end (take_signal m old) (Map.get old m.kick_signals) meanwhile) old

-- `meanwhile` says what calls other tasks make while the end of a session is waited for; the answers
-- are the manager and the run ids of the sessions kicked.
unfoldable pub kick_sessions :
    (Text → List Call)
    → Bool
    → Option Text
    → ControlManager
    → List (Text × Option Text)
    → ControlManager × List Text
kick_sessions meanwhile same_cert new m [] = (m, [])
kick_sessions meanwhile same_cert new m ((old, fingerprint) ∷ sessions) =
    elim (refuses same_cert fingerprint new) [
      | true ↦ kick_sessions meanwhile same_cert new m sessions
      | false ↦
          let (m', kicked) =
            kick_sessions meanwhile same_cert new (kick_session m old (meanwhile old)) sessions in
          (m', old ∷ kicked)
    ]

unfoldable pub kick_same_client :
    (Text → List Call) → ControlManager → Text → Text → Option Text → ControlManager × List Text
unfolding kick_sessions old_sessions
kick_same_client meanwhile m client_id new_run_id fingerprint =
    kick_sessions meanwhile m.kick_require_same_cert fingerprint m
      (old_sessions client_id new_run_id m.clients.entries)
