-- ===== src/Server/Clients/Runs.antt =====
-- The sessions of rust_frp_server/src/control.rs at concrete inputs.
use rust_frp.Common.{Option, none, some, true, List, [], ◌∷◌, ◌++◌, ◌≡◌, refl, All, length, arith}
use rust_frp.Common.Equality.{bytes_eq, bytes_beq}
use rust_frp.Common.Text.{Text}
use rust_frp.Common.Map.{find, get-empty, Map}
use rust_frp.Common.Map
use rust_frp.Server.Clients.{
  ClientInfo, ClientRegistration, ControlManager, reject, with_security, degraded_client_id_reason,
  empty_id, equals_hostname, add_client, register_kick, remove, get_user_by_run_id, get_all_clients,
}
use rust_frp.Server.Clients.Calls.{
  Call, removes, registers_kick, drop_session, take_signal, adds_client, step, run, EndsSession,
}
use rust_frp.Server.Clients.History.{IsConsistent}
use rust_frp.Server.Clients.Takeover.{kick_same_client, kick_session}
use rust_frp.Server.Clients.Takeover.Effect.{held, nothing_held}
use rust_frp.Server.Clients.Takeover.Sessions.{
  contains, Event, calls, kicks, serve, kick_same_client-held, serve-IsConsistent,
}

abbrev office : Text
office = b'o' ∷ b'f' ∷ b'f' ∷ b'i' ∷ b'c' ∷ b'e' ∷ []

abbrev alice : Text
alice = b'u' ∷ []

abbrev release : Text
release = b'1' ∷ []

abbrev host : Text
host = b'h' ∷ []

abbrev wire_v2 : Text
wire_v2 = b'v' ∷ b'2' ∷ []

abbrev first_run : Text
first_run = b'r' ∷ b'1' ∷ []

abbrev cert_a : Text
cert_a = b'a' ∷ b'a' ∷ []

abbrev second_run : Text
second_run = b'r' ∷ b'2' ∷ []

abbrev cert_b : Text
cert_b = b'b' ∷ b'b' ∷ []

abbrev third_run : Text
third_run = b'r' ∷ b'3' ∷ []

abbrev other_id : Text
other_id = b'c' ∷ []

abbrev fresh : ControlManager
fresh = with_security none reject true

fresh-IsConsistent : IsConsistent fresh
unfolding with_security
fresh-IsConsistent = record {
  history = record { offline = tt; distinct = tt; bounded = omega arith };
  on_line = λ k c found. absurd (ground (arith, get-empty {V = ClientInfo} k));
}

abbrev login : Text → Option Text → ClientRegistration
login run_id fingerprint = record {
  run_id = run_id;
  client_id = office;
  user = alice;
  version = release;
  hostname = host;
  client_ip = [];
  wire_protocol = wire_v2;
  cert_fingerprint = fingerprint;
}

-- Three sessions of one client, two of them with a certificate.
abbrev logins : List Event
logins =
    calls (adds_client (login first_run (some cert_a)) 1 100)
    ∷ calls (adds_client (login second_run (some cert_b)) 2 200)
    ∷ calls (adds_client (login third_run none) 3 300)
    ∷ calls (registers_kick first_run 7)
    ∷ []

abbrev own_end : Text → List Call
own_end r = removes r 400 ∷ []

own_end-EndsSession : (r : Text) → All (EndsSession r) (own_end r)
own_end-EndsSession r = (refl, tt)

abbrev three : ControlManager
three = serve fresh logins

three-IsConsistent : IsConsistent three
three-IsConsistent = serve-IsConsistent fresh logins fresh-IsConsistent

serve-IsConsistent_example :
    IsConsistent (serve fresh (logins ++ kicks own_end office third_run (some cert_a) ∷ []))
serve-IsConsistent_example =
    serve-IsConsistent fresh (logins ++ kicks own_end office third_run (some cert_a) ∷ [])
      fresh-IsConsistent

-- The session with the same certificate goes, the one with another stays.
only_the_same_certificate :
    let (m, kicked) = kick_same_client own_end three office third_run (some cert_a) in
    (kicked ≡ first_run ∷ [])
    × (length (get_all_clients m) ≡ 3)
    × (get_user_by_run_id m first_run ≡ none)
    × (get_user_by_run_id m second_run ≡ some alice)
unfolding kick_same_client serve with_security register_kick add_client Map.insert Map.empty
    bytes_beq kick_session drop_session Map.remove Map.get run remove take_signal
only_the_same_certificate = (refl, refl, refl, refl)

reasons :
    (degraded_client_id_reason [] host ≡ some empty_id)
    × (degraded_client_id_reason host host ≡ some equals_hostname)
    × (degraded_client_id_reason other_id host ≡ none)
unfolding degraded_client_id_reason bytes_beq
reasons = (refl, refl, refl)

kick_same_client-held_example :
    let (m, kicked) = kick_same_client own_end three office third_run (some cert_a) in
    (held first_run m ≡ nothing_held) × (contains first_run kicked ≡ true)
unfolding serve with_security step add_client Map.get register_kick Map.insert Map.empty bytes_beq
kick_same_client-held_example =
    kick_same_client-held own_end three office third_run (some cert_a) first_run three-IsConsistent
      own_end-EndsSession
