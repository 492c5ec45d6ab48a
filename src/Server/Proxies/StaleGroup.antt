-- ===== src/Server/Proxies/StaleGroup.antt =====
-- A member of a group whose listener could not be opened, in rust_frp_server/src/proxy_manager.rs.
use rust_frp.Common.{
  ℕ, Option, none, some, true, false, ok, err, String, ◌==◌, ==_iff, ◌≡◌, refl, ◌∙◌, [], ◌∷◌, arith,
}
use rust_frp.Common.Equality.{=?_self, string_eq, nat_eq}
use rust_frp.Common.Map.{Map, get-insert_self}
use rust_frp.Common.Map
use rust_frp.Server.Groups.{GroupState, GroupRegistry, join}
use rust_frp.Server.Proxies.Rollback.{entry-restored}
use rust_frp.Server.Proxies.{
  ProxyConfig, bind_failed, ProxyTables, StartEnv, start_tcp_proxy, start_proxy, port_allowed,
  charge, add_proxy_inner,
}

-- A TCP proxy that is a member of a group at a port.
abbrev pub member : String → String → String → ℕ → ProxyConfig
member name group key port = record {
  name = name;
  kind = "tcp";
  group = some group;
  group_key = some key;
  has_plugin = false;
  remote_port = some port;
}

abbrev first_registry : GroupRegistry → String → String → ℕ → String → GroupRegistry
first_registry r group key port name = record {
  groups =
      Map.insert port (record { group = group; group_key = key; members = name ∷ []; rr_index = 0 })
        r.groups;
  group_ports = Map.insert group port r.group_ports;
}

add_first-member :
    (env : StartEnv) (m : ProxyTables) (name group key : String) (port : ℕ) (user : Option String)
    → env.binds ≡ false
    → m.max_ports_per_user ≡ none
    → port_allowed port m.allow_ports ≡ true
    → Map.get name m.proxies ≡ none
    → Map.get group m.group_registry.group_ports ≡ none
    → Map.get port m.group_registry.groups ≡ none
    → add_proxy_inner env m (member name group key port) user ≡ (
      record m {
        proxies = Map.remove name (Map.insert name (member name group key port) m.proxies);
        group_registry = first_registry m.group_registry group key port name;
      },
      err bind_failed,
    )
unfolding add_proxy_inner charge start_proxy start_tcp_proxy join
add_first-member env m name group key port none fails limit allowed free unbound unused =
    rw (fails, limit, allowed, free, unbound, unused) refl
add_first-member env m name group key port (some user) fails limit allowed free unbound unused =
    rw (fails, limit, allowed, free, unbound, unused) refl

add_next-member :
    (env : StartEnv) (m : ProxyTables) (s : GroupState) (name group key : String) (port : ℕ)
    (user : Option String)
    → m.max_ports_per_user ≡ none
    → port_allowed port m.allow_ports ≡ true
    → Map.get name m.proxies ≡ none
    → Map.get group m.group_registry.group_ports ≡ some port
    → Map.get port m.group_registry.groups ≡ some s
    → s.group ≡ group
    → s.group_key ≡ key
    → (add_proxy_inner env m (member name group key port) user).1 ≡ ok tt
unfolding add_proxy_inner charge start_proxy start_tcp_proxy join
add_next-member env m s name group key port none limit allowed free bound at same_group same_key =
    let itself : (port == port) ≡ true = ground (arith, ==_iff port port) in
    rw (limit, allowed, free, bound, itself, at, same_group, same_key, =?_self group, =?_self key)
      refl
add_next-member env m s name group key port (some user) limit allowed free bound at same_group
      same_key =
    let itself : (port == port) ≡ true = ground (arith, ==_iff port port) in
    rw (limit, allowed, free, bound, itself, at, same_group, same_key, =?_self group, =?_self key)
      refl

-- The rollback forgets the group: when the first member of a group cannot bind the port, its
-- registration fails, but the group keeps it as a member; any later proxy that joins the group with
-- the same key and port is then registered successfully although nobody listens on the port, even
-- where the port could not be bound (`env'` is arbitrary).
pub add_proxy_inner-add_proxy_inner :
    (env env' : StartEnv) (m : ProxyTables) (name next group key : String) (port : ℕ)
    (user user' : Option String)
    → env.binds ≡ false
    → m.max_ports_per_user ≡ none
    → port_allowed port m.allow_ports ≡ true
    → Map.get name m.proxies ≡ none
    → Map.get next m.proxies ≡ none
    → Map.get group m.group_registry.group_ports ≡ none
    → Map.get port m.group_registry.groups ≡ none
    → let first = add_proxy_inner env m (member name group key port) user in
      (first.1 ≡ err bind_failed)
      × ((add_proxy_inner env' first.0 (member next group key port) user').1 ≡ ok tt)
add_proxy_inner-add_proxy_inner env env' m name next group key port user user' fails limit allowed
      free next_free unbound unused =
    let state : GroupState = record {
      group = group;
      group_key = key;
      members = name ∷ [];
      rr_index = 0;
    } in
    let left : ProxyTables = record m {
      proxies = Map.remove name (Map.insert name (member name group key port) m.proxies);
      group_registry = first_registry m.group_registry group key port name;
    } in
    rw (add_first-member env m name group key port user fails limit allowed free unbound unused) (
      refl,
      add_next-member env' left state next group key port user' limit allowed
          (entry-restored name next (member name group key port) m.proxies free ∙ next_free)
          (get-insert_self group port m.group_registry.group_ports)
          (get-insert_self port state m.group_registry.groups) refl refl,
    )
