-- ===== src/Server/Session/Runs.antt =====
-- The proxies of a session of rust_frp_server/src/control.rs at concrete inputs.
use rust_frp.Common.{none, some, true, false, String, List, [], ◌∷◌, ◌≡◌, refl, arith}
use rust_frp.Common.Equality.{=?_iff, string_eq, nat_eq}
use rust_frp.Common.Map.{Map, find}
use rust_frp.Common.Map
use rust_frp.Server.Proxies.{
  ProxyConfig, ProxyTables, StartEnv, charge, start_proxy, add_proxy_inner,
}
use rust_frp.Server.Session.{
  Shared, Control, RegisterProxyMsg, refuses, rewrites, cleanup_proxies, handle_register_proxy,
}
use rust_frp.Server.Session.Ending.{
  Request, register_all, cleanup_proxies-register_all, cleanup_proxies-renamed,
}

abbrev tables : ProxyTables
tables = record {
  proxies = Map.empty;
  user_port_counts = Map.empty;
  proxy_user_ports = Map.empty;
  max_ports_per_user = none;
  allow_ports = [];
  group_registry = record { groups = Map.empty; group_ports = Map.empty };
}

abbrev shared : Shared
shared = record { tables = tables; proxy_owners = Map.empty; secrets = Map.empty }

abbrev control : Control
control = record { run_id = b'1' ∷ []; user = "u"; registered_proxies = [] }

abbrev stcp : String → ProxyConfig
stcp name = record {
  name = name;
  kind = "stcp";
  group = none;
  group_key = none;
  has_plugin = false;
  remote_port = none;
}

abbrev message : RegisterProxyMsg
message = record { proxy = stcp "a"; secret_key = some "k" }

abbrev up : StartEnv
up = record { binds = true; others_start = true }

abbrev requests : List Request
requests =
    record { env = up; reply = rewrites (stcp "a"); msg = message }
    ∷ record { env = up; reply = refuses; msg = message }
    ∷ []

registers :
    ((register_all requests shared control).1.registered_proxies ≡ "a" ∷ [])
    × (Map.get "a" (register_all requests shared control).0.secrets ≡ some "k")
unfolding register_all handle_register_proxy add_proxy_inner charge start_proxy Map.get Map.insert
    Map.empty find
registers = (refl, refl)

cleanup_proxies-register_all_example :
    let (later, ended) = register_all requests shared control in
    let after = cleanup_proxies ended.registered_proxies later in
    (Map.get "a" after.tables.proxies ≡ none)
    × (Map.get "a" after.proxy_owners ≡ none)
    × (Map.get "a" after.secrets ≡ none)
unfolding register_all handle_register_proxy add_proxy_inner charge start_proxy Map.get Map.insert
    Map.empty find
cleanup_proxies-register_all_example =
    cleanup_proxies-register_all requests shared control "a" (refl, (tt, tt)) refl

abbrev renamed : ProxyTables
renamed = (add_proxy_inner up tables (stcp "b") (some "u")).0

cleanup_proxies-renamed_example :
    let done = handle_register_proxy up (rewrites (stcp "b")) true shared control message in
    Map.get "b" (cleanup_proxies done.control.registered_proxies done.shared).tables.proxies
    ≡ some (stcp "b")
cleanup_proxies-renamed_example =
    cleanup_proxies-renamed up (stcp "b") shared control message renamed
      (unfold add_proxy_inner charge start_proxy Map.get Map.insert Map.empty find in refl)
      (λ p. ground (arith, (=?_iff {A = String} "b" "a").1 p)) refl
