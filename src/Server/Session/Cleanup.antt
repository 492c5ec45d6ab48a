-- ===== src/Server/Session/Cleanup.antt =====
-- What a session of rust_frp_server/src/control.rs that ends leaves of its proxies.
use rust_frp.Common.{
  ℕ, Option, none, some, Bool, false, ◌&&◌, ◌||◌, Result, ok, err, String, ltb, is_some, ◌≡◌, refl,
  ◌∙◌, ap, inl, inr, List, [], ◌∷◌, if◌then◌else◌, arith, Bool-cases, Option-cases,
}
use rust_frp.Common.Equality.{◌=?◌, =?_iff, string_eq}
use rust_frp.Common.Map.{Map, get-insert, get-remove}
use rust_frp.Common.Map
use rust_frp.Server.Proxies.{
  ProxyConfig, ProxyError, ProxyTables, StartEnv, start_proxy, release_entry, release_user_quota,
  settle, charge, charge_limited, check_group, add_charged, add_checked, add_proxy_inner,
  group_port, leave_group, stop_proxy, remove_proxy, ports_used,
}
use rust_frp.Server.Proxies.Limits.{start_proxy-SameAccounts}
use rust_frp.Server.Session.{Shared, cleanup_proxy, cleanup_proxies}

abbrev pub contains : String → List String → Bool
contains j [] = false
contains j (name ∷ names) = name =? j || contains j names

release_user_quota-proxies :
    (m : ProxyTables) (name : String) (o : Option (String × ℕ))
    → (release_entry m name o).proxies ≡ m.proxies
release_user_quota-proxies m name none = refl
release_user_quota-proxies m name (some (user, ports)) = refl

leave_group-proxies :
    (m : ProxyTables) (name : String) (o : Option ℕ) → (leave_group m name o).proxies ≡ m.proxies
leave_group-proxies m name none = refl
leave_group-proxies m name (some port) = refl

remove_proxy-proxies :
    (m : ProxyTables) (name : String) → (remove_proxy m name).proxies ≡ Map.remove name m.proxies
unfolding remove_proxy stop_proxy release_user_quota
remove_proxy-proxies m name =
    let stopped = leave_group m name (group_port (Map.get name m.proxies)) in
    release_user_quota-proxies (record stopped { proxies = Map.remove name stopped.proxies }) name
      (Map.get name stopped.proxy_user_ports)
    ∙ ap (Map.remove name) (leave_group-proxies m name (group_port (Map.get name m.proxies)))

-- A proxy is in its table under its name if it was added, and the table is as it was if not.
abbrev pub Added : ProxyTables → ProxyConfig → ProxyTables × Result ProxyError (Unit {0}) → Type 0
Added m c (m', ok u) =
    (Map.get c.name m.proxies ≡ none)
    × ((j : String) → Map.get j m'.proxies ≡ (if c.name =? j then some c else Map.get j m.proxies))
Added m c (m', err e) = (j : String) → Map.get j m'.proxies ≡ Map.get j m.proxies

settle-Added :
    (m m2 : ProxyTables) (c : ProxyConfig) (r : Result ProxyError (Unit {0}))
    → Map.get c.name m.proxies ≡ none
    → m2.proxies ≡ Map.insert c.name c m.proxies
    → Added m c (settle c (m2, r))
unfolding release_user_quota
settle-Added m m2 c (ok u) free same =
    (free, λ j. ap (Map.get j) same ∙ get-insert c.name j c m.proxies)
settle-Added m m2 c (err e) free same =
    let back : (j : String) → Map.get j (Map.remove c.name m2.proxies) ≡ Map.get j m.proxies = λ j.
      ap (λ (t : Map String ProxyConfig). Map.get j (Map.remove c.name t)) same
      ∙ ground (
        arith,
        =?_iff c.name j,
        get-remove c.name j (Map.insert c.name c m.proxies),
        get-insert c.name j c m.proxies,
      ) in
    let without : ProxyTables = record m2 { proxies = Map.remove c.name m2.proxies } in
    elim (Bool-cases (ltb 0 (ports_used c) && is_some m2.max_ports_per_user)) [
      | inl counted ↦ rw counted λ j.
          ap (Map.get j)
            (release_user_quota-proxies without c.name (Map.get c.name m2.proxy_user_ports))
          ∙ back j
      | inr uncounted ↦ rw uncounted back
    ]

charge_limited-proxies :
    (m m' : ProxyTables) (c : ProxyConfig) (user : Option String) (limit : Option ℕ)
    → charge_limited m c user limit ≡ ok m'
    → m'.proxies ≡ m.proxies
charge_limited-proxies m m' c (some user) (some limit) h = ground (arith, h)
charge_limited-proxies m m' c (some user) none h = ground (arith, h)
charge_limited-proxies m m' c none limit h = ground (arith, h)

charge-proxies :
    (m m' : ProxyTables) (c : ProxyConfig) (user : Option String)
    → charge m c user ≡ ok m'
    → m'.proxies ≡ m.proxies
unfolding charge
charge-proxies m m' c user h = elim (Bool-cases (ltb 0 (ports_used c))) [
  | inl counted ↦ charge_limited-proxies m m' c user m.max_ports_per_user (rw counted at h)
  | inr uncounted ↦ ground (arith, h)
]

add_charged-Added :
    (env : StartEnv) (m : ProxyTables) (c : ProxyConfig) (r : Result ProxyError ProxyTables)
    → Map.get c.name m.proxies ≡ none
    → ((m' : ProxyTables) → r ≡ ok m' → m'.proxies ≡ m.proxies)
    → Added m c (add_charged env m c r)
add_charged-Added env m c (err e) free same = λ j. refl
add_charged-Added env m c (ok m') free same =
    let listed : ProxyTables = record m' { proxies = Map.insert c.name c m'.proxies } in
    let (proxies, counts, ports, limit) = start_proxy-SameAccounts env listed c in
    settle-Added m (start_proxy env listed c).0 c (start_proxy env listed c).1 free
      (proxies ∙ ap (Map.insert c.name c) (same m' refl))

add_checked-Added :
    (env : StartEnv) (m : ProxyTables) (c : ProxyConfig) (user : Option String)
    (o : Option ProxyError)
    → Map.get c.name m.proxies ≡ none
    → Added m c (add_checked env m c user o)
add_checked-Added env m c user (some e) free = λ j. refl
add_checked-Added env m c user none free =
    add_charged-Added env m c (charge m c user) free λ m' h. charge-proxies m m' c user h

pub add_proxy_inner-Added :
    (env : StartEnv) (m : ProxyTables) (c : ProxyConfig) (user : Option String)
    → Added m c (add_proxy_inner env m c user)
unfolding add_proxy_inner
add_proxy_inner-Added env m c user = elim (Option-cases (Map.get c.name m.proxies)) [
  | inl free ↦ rw free (add_checked-Added env m c user (check_group c) free)
  | inr (old, found) ↦ rw found λ j. refl
]

-- The cleanup takes the names out of every table, and leaves the others.
pub cleanup_proxies-contains :
    (names : List String) (sh : Shared) (j : String)
    → let after = cleanup_proxies names sh in
      (Map.get j after.tables.proxies
        ≡ (if contains j names then none else Map.get j sh.tables.proxies))
      × (Map.get j after.proxy_owners
          ≡ (if contains j names then none else Map.get j sh.proxy_owners))
      × (Map.get j after.secrets ≡ (if contains j names then none else Map.get j sh.secrets))
unfolding cleanup_proxies cleanup_proxy
cleanup_proxies-contains [] sh j = (refl, refl, refl)
cleanup_proxies-contains (name ∷ names) sh j =
    let (proxies, owners, secrets) = cleanup_proxies-contains names (cleanup_proxy sh name) j in
    let removed = ap (Map.get j) (remove_proxy-proxies sh.tables name) in
    (
      ground (arith, proxies, removed, get-remove name j sh.tables.proxies),
      ground (arith, owners, get-remove name j sh.proxy_owners),
      ground (arith, secrets, get-remove name j sh.secrets),
    )
