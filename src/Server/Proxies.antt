-- ===== src/Server/Proxies.antt =====
-- The accounts of rust_frp_server/src/proxy_manager.rs (`ServerProxyManager`): which proxies there are,
-- how many ports each user holds, and the groups that TCP proxies join.
pub mod Limits
pub mod Rollback
pub mod StaleGroup
mod Runs
use rust_frp.Common.{
  ℕ, ◌+◌, ◌-◌, Option, none, some, Bool, false, not, ◌&&◌, ◌||◌, Result, ok, err, String, leb, ltb,
  ◌==◌, unwrap_or, is_some, List, [], ◌∷◌, if◌then◌else◌,
}
use rust_frp.Common.Equality.{◌=?◌, string_eq}
use rust_frp.Common.Map.{Map}
use rust_frp.Common.Map
use rust_frp.Server.Groups.{GroupRegistry, GroupError, join, leave}

pub record PortRange : Type 0 where
  pub single : Option ℕ
  pub start : Option ℕ
  pub last : Option ℕ

-- The fields of a proxy's configuration that are read here.
pub record ProxyConfig : Type 0 where
  pub name : String
  pub kind : String
  pub group : Option String
  pub group_key : Option String
  pub has_plugin : Bool
  pub remote_port : Option ℕ

pub data ProxyError : Type 0 where
  already_exists group_needs_tcp group_with_plugin group_needs_port over_limit : ProxyError
  port_not_allowed bind_failed start_failed : ProxyError
  group_refused : GroupError → ProxyError

pub record ProxyTables : Type 0 where
  pub proxies : Map String ProxyConfig
  pub user_port_counts : Map String ℕ
  pub proxy_user_ports : Map String (String × ℕ)
  pub max_ports_per_user : Option ℕ
  pub allow_ports : List PortRange
  pub group_registry : GroupRegistry

abbrev pub is_single : ℕ → Option ℕ → Bool
is_single port none = false
is_single port (some single) = port == single

abbrev pub is_between : ℕ → Option ℕ → Option ℕ → Bool
is_between port (some start) (some last) = leb start port && leb port last
is_between port (some start) none = false
is_between port none last = false

unfoldable pub port_allowed : ℕ → List PortRange → Bool
port_allowed port [] = false
port_allowed port (range ∷ ranges) =
    is_single port range.single
    || is_between port range.start range.last
    || port_allowed port ranges

-- What the system answers: whether the port can be bound, and whether a proxy of another type starts.
pub record StartEnv : Type 0 where
  pub binds : Bool
  pub others_start : Bool

-- Binding the port, once it is known that this proxy opens the listener.
abbrev pub bind_port : StartEnv → ProxyTables → ProxyTables × Result ProxyError (Unit {0})
bind_port env m = if env.binds then (m, ok tt) else (m, err bind_failed)

-- After `join`: the first member binds the port, the others share the listener.
abbrev pub joined :
    StartEnv
    → ProxyTables
    → GroupRegistry × Result GroupError Bool
    → ProxyTables × Result ProxyError (Unit {0})
joined env m (r, err e) = (record m { group_registry = r }, err (group_refused e))
joined env m (r, ok first) =
    if first
    then bind_port env (record m { group_registry = r })
    else (record m { group_registry = r }, ok tt)

abbrev pub start_at :
    StartEnv
    → ProxyTables
    → ProxyConfig
    → ℕ
    → Option String
    → ProxyTables × Result ProxyError (Unit {0})
start_at env m c port none = bind_port env m
start_at env m c port (some group) =
    joined env m (join m.group_registry group (unwrap_or c.group_key "") port c.name)

abbrev pub start_on :
    StartEnv → ProxyTables → ProxyConfig → Option ℕ → ProxyTables × Result ProxyError (Unit {0})
start_on env m c none = (m, ok tt)
start_on env m c (some port) =
    if port_allowed port m.allow_ports
    then start_at env m c port c.group
    else (m, err port_not_allowed)

unfoldable pub start_tcp_proxy :
    StartEnv → ProxyTables → ProxyConfig → ProxyTables × Result ProxyError (Unit {0})
unfolding port_allowed
start_tcp_proxy env m c = start_on env m c c.remote_port

unfoldable pub start_proxy :
    StartEnv → ProxyTables → ProxyConfig → ProxyTables × Result ProxyError (Unit {0})
unfolding start_tcp_proxy
start_proxy env m c =
    if c.kind =? "tcp"
    then start_tcp_proxy env m c
    else (if env.others_start then (m, ok tt) else (m, err start_failed))

abbrev pub lower_count : String → ℕ → Map String ℕ → Option ℕ → Map String ℕ
lower_count user ports counts none = counts
lower_count user ports counts (some current) =
    if current - ports == 0
    then Map.remove user counts
    else Map.insert user (current - ports) counts

abbrev pub release_entry : ProxyTables → String → Option (String × ℕ) → ProxyTables
release_entry m name none = record m { proxy_user_ports = Map.remove name m.proxy_user_ports }
release_entry m name (some (user, ports)) = record m {
  proxy_user_ports = Map.remove name m.proxy_user_ports;
  user_port_counts = lower_count user ports m.user_port_counts (Map.get user m.user_port_counts);
}

unfoldable pub release_user_quota : ProxyTables → String → ProxyTables
release_user_quota m name = release_entry m name (Map.get name m.proxy_user_ports)

-- The checks on a proxy that names a group.
abbrev pub check_group : ProxyConfig → Option ProxyError
check_group c =
    if not (is_some c.group)
    then none
    else if not (c.kind =? "tcp")
    then some group_needs_tcp
    else if c.has_plugin
    then some group_with_plugin
    else if not (is_some c.remote_port)
    then some group_needs_port
    else none

abbrev pub ports_used : ProxyConfig → ℕ
ports_used c = if (c.kind =? "tcp") || (c.kind =? "udp") then 1 else 0

abbrev pub charge_user : ProxyTables → ProxyConfig → String → ℕ → Result ProxyError ProxyTables
charge_user m c user limit =
    let current : ℕ = unwrap_or (Map.get user m.user_port_counts) 0 in
    if ltb limit (current + ports_used c)
    then err over_limit
    else ok (record m {
      user_port_counts = Map.insert user (current + ports_used c) m.user_port_counts;
      proxy_user_ports = Map.insert c.name (user, ports_used c) m.proxy_user_ports;
    })

abbrev pub charge_limited :
    ProxyTables → ProxyConfig → Option String → Option ℕ → Result ProxyError ProxyTables
charge_limited m c (some user) (some limit) = charge_user m c user limit
charge_limited m c (some user) none = ok m
charge_limited m c none limit = ok m

-- The ports of a TCP or UDP proxy are counted if there is a limit and a user.
unfoldable pub charge : ProxyTables → ProxyConfig → Option String → Result ProxyError ProxyTables
charge m c user =
    if ltb 0 (ports_used c) then charge_limited m c user m.max_ports_per_user else ok m

-- The rollback when the proxy does not start.
abbrev pub settle :
    ProxyConfig
    → ProxyTables × Result ProxyError (Unit {0})
    → ProxyTables × Result ProxyError (Unit {0})
settle c (m, ok done) = (m, ok tt)
settle c (m, err e) =
    let without : ProxyTables = record m { proxies = Map.remove c.name m.proxies } in
    if ltb 0 (ports_used c) && is_some m.max_ports_per_user
    then (release_user_quota without c.name, err e)
    else (without, err e)

abbrev pub add_charged :
    StartEnv
    → ProxyTables
    → ProxyConfig
    → Result ProxyError ProxyTables
    → ProxyTables × Result ProxyError (Unit {0})
add_charged env m c (err e) = (m, err e)
add_charged env m c (ok m') =
    settle c (start_proxy env (record m' { proxies = Map.insert c.name c m'.proxies }) c)

abbrev pub add_checked :
    StartEnv
    → ProxyTables
    → ProxyConfig
    → Option String
    → Option ProxyError
    → ProxyTables × Result ProxyError (Unit {0})
add_checked env m c user (some e) = (m, err e)
add_checked env m c user none = add_charged env m c (charge m c user)

-- `add_proxy_inner` where no other call comes between its locks.
unfoldable pub add_proxy_inner :
    StartEnv
    → ProxyTables
    → ProxyConfig
    → Option String
    → ProxyTables × Result ProxyError (Unit {0})
unfolding charge start_proxy release_user_quota
add_proxy_inner env m c user =
    if is_some (Map.get c.name m.proxies)
    then (m, err already_exists)
    else add_checked env m c user (check_group c)

-- `c.group.as_ref().and(c.remote_port)`
abbrev pub group_port : Option ProxyConfig → Option ℕ
group_port none = none
group_port (some c) = if is_some c.group then c.remote_port else none

abbrev pub leave_group : ProxyTables → String → Option ℕ → ProxyTables
leave_group m name none = m
leave_group m name (some port) = record m { group_registry = (leave m.group_registry port name).0 }

-- What `stop_proxy` does to these tables.
unfoldable pub stop_proxy : ProxyTables → String → ProxyTables
stop_proxy m name = leave_group m name (group_port (Map.get name m.proxies))

unfoldable pub remove_proxy : ProxyTables → String → ProxyTables
unfolding stop_proxy release_user_quota
remove_proxy m name =
    let stopped = stop_proxy m name in
    release_user_quota (record stopped { proxies = Map.remove name stopped.proxies }) name

unfoldable pub clear : ProxyTables → ProxyTables
clear m = record m {
  proxies = Map.empty;
  user_port_counts = Map.empty;
  proxy_user_ports = Map.empty;
}

-- The calls that change the tables.
pub data Call : Type 0 where
  adds : StartEnv → ProxyConfig → Option String → Call
  removes : String → Call
  clears : Call

unfoldable pub run : ProxyTables → List Call → ProxyTables
unfolding add_proxy_inner remove_proxy clear
run m [] = m
run m (adds env c user ∷ calls) = run (add_proxy_inner env m c user).0 calls
run m (removes name ∷ calls) = run (remove_proxy m name) calls
run m (clears ∷ calls) = run (clear m) calls
