-- ===== src/Server/Proxies/Runs.antt =====
-- The accounts of rust_frp_server/src/proxy_manager.rs at concrete inputs.
use rust_frp.Common.{ℕ, some, none, ok, err, true, false, Option, String, [], ◌∷◌, ◌≡◌, refl, arith}
use rust_frp.Common.Equality.{string_eq, nat_eq}
use rust_frp.Common.Map.{find, get-empty}
use rust_frp.Common.Map
use rust_frp.Server.Groups as Groups
use rust_frp.Server.Proxies.{
  PortRange, ProxyConfig, bind_failed, over_limit, ProxyTables, StartEnv, port_allowed,
  start_tcp_proxy, start_proxy, release_user_quota, charge, add_proxy_inner, adds, removes, clears,
  run,
}
use rust_frp.Server.Proxies.Limits.{UnderLimit, run-UnderLimit}
use rust_frp.Server.Proxies.Rollback.{Restored, add_proxy_inner-Restored}
use rust_frp.Server.Proxies.StaleGroup.{member, add_proxy_inner-add_proxy_inner}

abbrev range : PortRange
range = record { single = none; start = some 8000; last = some 8010 }

abbrev no_groups : Groups.GroupRegistry
no_groups = record { groups = Map.empty; group_ports = Map.empty }

abbrev limited : Option ℕ → ProxyTables
limited limit = record {
  proxies = Map.empty;
  user_port_counts = Map.empty;
  proxy_user_ports = Map.empty;
  max_ports_per_user = limit;
  allow_ports = range ∷ [];
  group_registry = no_groups;
}

abbrev tcp : String → ℕ → ProxyConfig
tcp name port = record {
  name = name;
  kind = "tcp";
  group = none;
  group_key = none;
  has_plugin = false;
  remote_port = some port;
}

abbrev up : StartEnv
up = record { binds = true; others_start = true }

abbrev down : StartEnv
down = record { binds = false; others_start = false }

ports :
    (port_allowed 8010 (range ∷ []) ≡ true)
    × (port_allowed 8011 (range ∷ []) ≡ false)
    × (port_allowed 80 [] ≡ false)
unfolding port_allowed
ports = (refl, refl, refl)

second_is_over :
    (add_proxy_inner up
      (run (limited (some 1)) (adds up (tcp "a" 8000) (some "u") ∷ []))
      (tcp "b" 8001)
      (some "u")).1
    ≡ err over_limit
unfolding run add_proxy_inner charge start_proxy start_tcp_proxy port_allowed Map.get Map.insert
    Map.empty find
second_is_over = refl

limited-UnderLimit : UnderLimit (limited (some 1))
limited-UnderLimit user n most is_most found = absurd (ground (arith, get-empty {V = ℕ} user))

run-UnderLimit_example :
    UnderLimit
      (run (limited (some 1)) (adds up (tcp "a" 8000) (some "u") ∷ removes "a" ∷ clears ∷ []))
run-UnderLimit_example =
    run-UnderLimit (limited (some 1))
      (adds up (tcp "a" 8000) (some "u") ∷ removes "a" ∷ clears ∷ []) limited-UnderLimit

start_fails :
    (add_proxy_inner down (limited (some 1)) (tcp "a" 8000) (some "u")).1 ≡ err bind_failed
unfolding add_proxy_inner charge start_proxy start_tcp_proxy port_allowed release_user_quota Map.get
    Map.insert Map.remove Map.empty find
start_fails = refl

add_proxy_inner-Restored_example :
    Restored
      (limited (some 1))
      (add_proxy_inner down (limited (some 1)) (tcp "a" 8000) (some "u")).0
add_proxy_inner-Restored_example =
    add_proxy_inner-Restored down (limited (some 1)) (tcp "a" 8000) (some "u") bind_failed
      (λ free. get-empty "a") (λ user zero_count. absurd (ground (arith, get-empty {V = ℕ} user)))
      start_fails

in_range : port_allowed 8000 (range ∷ []) ≡ true
unfolding port_allowed
in_range = refl

add_proxy_inner-add_proxy_inner_example :
    let first = add_proxy_inner down (limited none) (member "a" "g" "k" 8000) none in
    (first.1 ≡ err bind_failed)
    × ((add_proxy_inner down first.0 (member "b" "g" "k" 8000) none).1 ≡ ok tt)
add_proxy_inner-add_proxy_inner_example =
    add_proxy_inner-add_proxy_inner down down (limited none) "a" "b" "g" "k" 8000 none none refl
      refl in_range (get-empty "a") (get-empty "b") (get-empty "g") (get-empty 8000)
