-- ===== src/Server/Proxies/Limits.antt =====
-- The limit on a user's ports in rust_frp_server/src/proxy_manager.rs.
use rust_frp.Common.{
  ℕ, ◌+◌, ◌-◌, ◌≤◌, Option, none, some, Bool, true, false, ◌&&◌, Result, ok, err, String, ltb, ◌==◌,
  unwrap_or, is_some, ◌≡◌, refl, sym, ◌∙◌, ap, subst, inl, inr, List, [], ◌∷◌, arith, Bool-cases,
}
use rust_frp.Common.Equality.{string_eq}
use rust_frp.Common.Map.{Map, get-insert_cases, get-remove-some, get-empty}
use rust_frp.Common.Map
use rust_frp.Server.Groups.{GroupRegistry, GroupError, join}
use rust_frp.Server.Proxies.{
  ProxyConfig, ProxyError, ProxyTables, StartEnv, bind_port, joined, start_at, start_on,
  start_tcp_proxy, start_proxy, lower_count, release_entry, release_user_quota, check_group,
  ports_used, charge_user, charge_limited, charge, settle, add_charged, add_checked,
  add_proxy_inner, group_port, leave_group, stop_proxy, remove_proxy, clear, Call, adds, removes,
  clears, run,
}

-- No user is over the limit, if there is one.
abbrev pub Limited : Option ℕ → Map String ℕ → Type 0
Limited limit counts =
    (user : String) (n most : ℕ) → limit ≡ some most → Map.get user counts ≡ some n → n ≤ most

abbrev pub UnderLimit : ProxyTables → Type 0
UnderLimit m = Limited m.max_ports_per_user m.user_port_counts

-- The tables that `start_proxy` leaves alone.
abbrev pub SameAccounts : ProxyTables → ProxyTables → Type 0
SameAccounts m m' =
    (m'.proxies ≡ m.proxies)
    × (m'.user_port_counts ≡ m.user_port_counts)
    × (m'.proxy_user_ports ≡ m.proxy_user_ports)
    × (m'.max_ports_per_user ≡ m.max_ports_per_user)

bind_port-SameAccounts : (env : StartEnv) (m : ProxyTables) → SameAccounts m (bind_port env m).0
bind_port-SameAccounts env m = ground arith

joined-SameAccounts :
    (env : StartEnv) (m : ProxyTables) (r : GroupRegistry) (res : Result GroupError Bool)
    → SameAccounts m (joined env m (r, res)).0
joined-SameAccounts env m r (err e) = (refl, refl, refl, refl)
joined-SameAccounts env m r (ok true) = bind_port-SameAccounts env (record m { group_registry = r })
joined-SameAccounts env m r (ok false) = (refl, refl, refl, refl)

start_at-SameAccounts :
    (env : StartEnv) (m : ProxyTables) (c : ProxyConfig) (port : ℕ) (group : Option String)
    → SameAccounts m (start_at env m c port group).0
start_at-SameAccounts env m c port none = bind_port-SameAccounts env m
start_at-SameAccounts env m c port (some group) =
    joined-SameAccounts env m (join m.group_registry group (unwrap_or c.group_key "") port c.name).0
      (join m.group_registry group (unwrap_or c.group_key "") port c.name).1

start_on-SameAccounts :
    (env : StartEnv) (m : ProxyTables) (c : ProxyConfig) (port : Option ℕ)
    → SameAccounts m (start_on env m c port).0
start_on-SameAccounts env m c none = (refl, refl, refl, refl)
start_on-SameAccounts env m c (some port) =
    ground (arith, start_at-SameAccounts env m c port c.group)

pub start_proxy-SameAccounts :
    (env : StartEnv) (m : ProxyTables) (c : ProxyConfig) → SameAccounts m (start_proxy env m c).0
unfolding start_proxy start_tcp_proxy
start_proxy-SameAccounts env m c = ground (arith, start_on-SameAccounts env m c c.remote_port)

lower_count-Limited :
    (limit : Option ℕ) (user : String) (ports : ℕ) (counts : Map String ℕ) (o : Option ℕ)
    → Map.get user counts ≡ o
    → Limited limit counts
    → Limited limit (lower_count user ports counts o)
lower_count-Limited limit user ports counts none at v = v
lower_count-Limited limit user ports counts (some current) at v = λ other n most is_most found.
    elim (Bool-cases (current - ports == 0)) [
      | inl nothing ↦
          v other n most is_most (get-remove-some user other n counts (rw nothing at found)).1
      | inr left ↦
          elim (get-insert_cases user other (current - ports) n counts (rw left at found)) [
            | inl (same, less) ↦ omega (arith, less, v user current most is_most at)
            | inr (differs, old) ↦ v other n most is_most old
          ]
    ]

release_entry-Limited :
    (m : ProxyTables) (name : String) (o : Option (String × ℕ))
    → UnderLimit m
    → UnderLimit (release_entry m name o)
release_entry-Limited m name none v = v
release_entry-Limited m name (some (user, ports)) v =
    lower_count-Limited m.max_ports_per_user user ports m.user_port_counts _ refl v

release_user_quota-UnderLimit :
    (m : ProxyTables) (name : String) → UnderLimit m → UnderLimit (release_user_quota m name)
unfolding release_user_quota
release_user_quota-UnderLimit m name v =
    release_entry-Limited m name (Map.get name m.proxy_user_ports) v

charge_user-UnderLimit :
    (m m' : ProxyTables) (c : ProxyConfig) (user : String) (limit : ℕ)
    → m.max_ports_per_user ≡ some limit
    → UnderLimit m
    → charge_user m c user limit ≡ ok m'
    → UnderLimit m'
charge_user-UnderLimit m m' c user limit at v h =
    let current : ℕ = unwrap_or (Map.get user m.user_port_counts) 0 in
    let charged : ProxyTables = record m {
      user_port_counts = Map.insert user (current + ports_used c) m.user_port_counts;
      proxy_user_ports = Map.insert c.name (user, ports_used c) m.proxy_user_ports;
    } in
    elim (Bool-cases (ltb limit (current + ports_used c))) [
      | inl over ↦ absurd (ground arith)
      | inr fits ↦
          subst UnderLimit {x = charged} {y = m'} (ground arith) λ other n most is_most found.
            elim (get-insert_cases user other (current + ports_used c) n m.user_port_counts found) [
              | inl (same, new) ↦ ground arith
              | inr (differs, old) ↦ v other n most is_most old
            ]
    ]

charge_limited-UnderLimit :
    (m m' : ProxyTables) (c : ProxyConfig) (user : Option String) (limit : Option ℕ)
    → m.max_ports_per_user ≡ limit
    → UnderLimit m
    → charge_limited m c user limit ≡ ok m'
    → UnderLimit m'
charge_limited-UnderLimit m m' c none limit at v h =
    subst UnderLimit {x = m} {y = m'} (ground arith) v
charge_limited-UnderLimit m m' c (some user) none at v h =
    subst UnderLimit {x = m} {y = m'} (ground arith) v
charge_limited-UnderLimit m m' c (some user) (some limit) at v h =
    charge_user-UnderLimit m m' c user limit at v h

charge-UnderLimit :
    (m m' : ProxyTables) (c : ProxyConfig) (user : Option String)
    → UnderLimit m
    → charge m c user ≡ ok m'
    → UnderLimit m'
unfolding charge
charge-UnderLimit m m' c user v h = elim (Bool-cases (ltb 0 (ports_used c))) [
  | inl counted ↦
      charge_limited-UnderLimit m m' c user m.max_ports_per_user refl v (rw counted at h)
  | inr free ↦ subst UnderLimit {x = m} {y = m'} (ground arith) v
]

settle-UnderLimit :
    (c : ProxyConfig) (m : ProxyTables) (r : Result ProxyError (Unit {0}))
    → UnderLimit m
    → UnderLimit (settle c (m, r)).0
settle-UnderLimit c m (ok done) v = v
settle-UnderLimit c m (err e) v =
    elim (Bool-cases (ltb 0 (ports_used c) && is_some m.max_ports_per_user)) [
      | inl counted ↦ rw counted (
          release_user_quota-UnderLimit (record m { proxies = Map.remove c.name m.proxies }) c.name
            v)
      | inr free ↦ rw free v
    ]

add_charged-UnderLimit :
    (env : StartEnv) (m : ProxyTables) (c : ProxyConfig) (r : Result ProxyError ProxyTables)
    → UnderLimit m
    → ((m' : ProxyTables) → r ≡ ok m' → UnderLimit m')
    → UnderLimit (add_charged env m c r).0
add_charged-UnderLimit env m c (err e) v charged = v
add_charged-UnderLimit env m c (ok m') v charged =
    let (same_proxies, same_counts, same_ports, same_limit) =
      start_proxy-SameAccounts env (record m' { proxies = Map.insert c.name c m'.proxies }) c in
    settle-UnderLimit c _
      (start_proxy env (record m' { proxies = Map.insert c.name c m'.proxies }) c).1
      (λ user n most is_most found.
        charged m' refl user n most (sym same_limit ∙ is_most)
          (ap (Map.get user) (sym same_counts) ∙ found))

add_checked-UnderLimit :
    (env : StartEnv) (m : ProxyTables) (c : ProxyConfig) (user : Option String)
    (o : Option ProxyError)
    → UnderLimit m
    → UnderLimit (add_checked env m c user o).0
add_checked-UnderLimit env m c user (some e) v = v
add_checked-UnderLimit env m c user none v =
    add_charged-UnderLimit env m c (charge m c user) v λ m' h. charge-UnderLimit m m' c user v h

add_proxy_inner-UnderLimit :
    (env : StartEnv) (m : ProxyTables) (c : ProxyConfig) (user : Option String)
    → UnderLimit m
    → UnderLimit (add_proxy_inner env m c user).0
unfolding add_proxy_inner
add_proxy_inner-UnderLimit env m c user v = elim (Bool-cases (is_some (Map.get c.name m.proxies))) [
  | inl taken ↦ rw taken v
  | inr free ↦ rw free (add_checked-UnderLimit env m c user (check_group c) v)
]

leave_group-UnderLimit :
    (m : ProxyTables) (name : String) (port : Option ℕ)
    → UnderLimit m
    → UnderLimit (leave_group m name port)
leave_group-UnderLimit m name none v = v
leave_group-UnderLimit m name (some port) v = v

remove_proxy-UnderLimit :
    (m : ProxyTables) (name : String) → UnderLimit m → UnderLimit (remove_proxy m name)
unfolding remove_proxy stop_proxy
remove_proxy-UnderLimit m name v =
    release_user_quota-UnderLimit _ name
      (leave_group-UnderLimit m name (group_port (Map.get name m.proxies)) v)

-- Whatever proxies are added and removed, whether their start succeeds or fails, no user is ever
-- charged with more ports than the limit per user.
pub run-UnderLimit : (m : ProxyTables) (calls : List Call) → UnderLimit m → UnderLimit (run m calls)
unfolding run clear
run-UnderLimit m [] v = v
run-UnderLimit m (adds env c user ∷ calls) v =
    run-UnderLimit (add_proxy_inner env m c user).0 calls
      (add_proxy_inner-UnderLimit env m c user v)
run-UnderLimit m (removes name ∷ calls) v =
    run-UnderLimit (remove_proxy m name) calls (remove_proxy-UnderLimit m name v)
run-UnderLimit m (clears ∷ calls) v =
    run-UnderLimit (clear m) calls
      λ user n most is_most found. absurd (ground (arith, get-empty {V = ℕ} user))
