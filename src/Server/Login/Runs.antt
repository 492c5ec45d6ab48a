-- ===== src/Server/Login/Runs.antt =====
-- Logins of rust_frp_server/src/control.rs at concrete inputs.
use rust_frp.Common.{
  ℕ, ◌+◌, ◌-◌, ◌/◌, ◌≤◌, none, some, false, ok, [], ◌∷◌, ◌≡◌, refl, ap, inl, inr, arith,
}
use rust_frp.Common.Equality.{◌=?◌, bytes_eq, bytes_beq}
use rust_frp.Common.Text.{Text, trim}
use rust_frp.Common.Map.{Map, find, get-insert_self, get-insert_cases, get-empty}
use rust_frp.Common.Map
use rust_frp.Server.Throttle.{v4, client, new_key, Entry, LoginThrottle, key_eq, run, checks, secs}
use rust_frp.Server.Throttle.Lockout.{IsSound, LockedFor}
use rust_frp.Server.Clients.{
  ClientInfo, ControlManager, reject, with_security, add_client, register_kick, set_auth_manager,
  degraded_client_id_reason, get_user_by_run_id,
}
use rust_frp.Server.Clients.Calls.{removes}
use rust_frp.Server.Clients.History.{IsConsistent}
use rust_frp.Server.Clients.Takeover.{kick_same_client}
use rust_frp.Server.Login.{
  World, Connection, Times, LoginMsg, throttled, bad_credentials, degraded_rejected, enter,
  handle_login,
}
use rust_frp.Server.Login.Outcomes.{Ended, handle_login-Ended, handle_login-locked}

abbrev alice : Text
alice = b'a' ∷ []

abbrev secret : Text
secret = b's' ∷ []

abbrev first_run : Text
first_run = b'1' ∷ []

abbrev host : Text
host = b'h' ∷ []

abbrev world : World
world = record {
  verify_login = λ user token. token =? secret;
  plugin = λ content. ok content;
  ip_text = λ addr. [];
  meanwhile = λ r. removes r 9 ∷ [];
}

abbrev link : Connection
link = record {
  remote_ip = some (v4 7);
  wire_protocol = [];
  peer_cert_fingerprint = none;
  auth_manager = 1;
  kick_signal = 2;
}

abbrev clock_times : Times
clock_times = record { checked = 8; failed = 9; added = 10; timestamp = 11 }

abbrev hello : Text → Text → LoginMsg
hello token client_id = record {
  user = alice;
  token = token;
  run_id = first_run;
  client_id = client_id;
  hostname = host;
  version = [];
  pool_count = 1;
  metas = [];
}

abbrev open_manager : ControlManager
open_manager = with_security none reject false

open_manager-IsConsistent : IsConsistent open_manager
unfolding with_security
open_manager-IsConsistent = record {
  history = record { offline = tt; distinct = tt; bounded = omega arith };
  on_line = λ k c found. absurd (ground (arith, get-empty {V = ClientInfo} k));
}

outcomes :
    ((handle_login world link clock_times (hello alice alice) open_manager).1 ≡ bad_credentials)
    × ((handle_login world link clock_times (hello secret host) open_manager).1 ≡ degraded_rejected)
    × (get_user_by_run_id
          (handle_login world link clock_times (hello secret alice) open_manager).0
          first_run
        ≡ some alice)
unfolding handle_login with_security enter add_client bytes_beq degraded_client_id_reason Map.get
    register_kick kick_same_client set_auth_manager Map.insert Map.empty
outcomes = (refl, refl, refl)

handle_login-Ended_example :
    Ended world link clock_times
      (hello secret alice)
      open_manager
      (handle_login world link clock_times (hello secret alice) open_manager)
handle_login-Ended_example =
    handle_login-Ended world link clock_times (hello secret alice) open_manager
      open_manager-IsConsistent λ r. (refl, tt)

-- A lock of alice that was set at 5.
abbrev locked_entry : Entry
locked_entry = record { failures = 3; last_failure = 5; locked_until = some (5 + secs 600) }

abbrev locked : LoginThrottle
locked = record {
  max_failures = 3;
  lockout = secs 600;
  window = secs 3600;
  state = Map.insert (client alice) locked_entry Map.empty;
}

locked-IsSound : IsSound locked 5
locked-IsSound = record {
  window_covers = omega arith;
  timely = λ k e found. elim (get-insert_cases (client alice) k locked_entry e Map.empty found) [
    | inl (same, is_entry) ↦ (
      ground (arith, ap (λ (x : Entry). x.last_failure) is_entry),
      λ until lock. ground (
        arith,
        ap (λ (x : Entry). x.last_failure) is_entry,
        ap (λ (x : Entry). x.locked_until) is_entry,
      ),
    )
    | inr (other, old) ↦ absurd (ground (arith, get-empty {V = Entry} k))
  ];
}

locked-LockedFor : LockedFor locked (client alice) (5 + secs 600)
locked-LockedFor = (
  locked_entry,
  5 + secs 600,
  get-insert_self (client alice) locked_entry Map.empty,
  refl,
  omega arith,
)

abbrev guarded : ControlManager
guarded = record open_manager {
  login_throttle = some (run locked ((6, checks (client alice)) ∷ []));
}

handle_login-locked_example :
    (u : ℕ) × (5 + secs 600 ≤ u)
    × (handle_login world link clock_times (hello secret alice) guarded
        ≡ (guarded, throttled ((u - 8) / 1_000_000_000)))
unfolding new_key trim
handle_login-locked_example =
    handle_login-locked world link clock_times (hello secret alice) guarded locked (client alice) 5
      (5 + secs 600) ((6, checks (client alice)) ∷ []) refl refl locked-IsSound locked-LockedFor
      (omega arith, omega arith, (λ e. cc), tt) (omega arith)
