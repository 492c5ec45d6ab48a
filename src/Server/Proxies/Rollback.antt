-- ===== src/Server/Proxies/Rollback.antt =====
-- What a proxy that fails to start leaves behind in rust_frp_server/src/proxy_manager.rs.
use rust_frp.Common.{
  ℕ, ◌+◌, ◌-◌, Option, none, some, true, ◌&&◌, Result, ok, err, String, ltb, unwrap_or, is_some,
  ◌≡◌, ◌≢◌, refl, sym, ◌∙◌, ap, subst, ◌⊎◌, inl, inr, arith, Option-cases, Bool-cases,
}
use rust_frp.Common.Equality.{=?_iff, string_eq, nat_eq}
use rust_frp.Common.Map.{Map, get-insert, get-insert_self, get-remove}
use rust_frp.Common.Map
use rust_frp.Server.Proxies.Limits.{SameAccounts, start_proxy-SameAccounts}
use rust_frp.Server.Proxies.{
  ProxyConfig, ProxyError, ProxyTables, StartEnv, start_proxy, lower_count, release_user_quota,
  check_group, ports_used, charge_limited, charge, settle, add_charged, add_checked,
  add_proxy_inner,
}

-- The accounts of `m'`, entry by entry, are those of `m`.
abbrev pub Restored : ProxyTables → ProxyTables → Type 0
Restored m m' =
    (j : String)
    → (Map.get j m'.proxies ≡ Map.get j m.proxies)
      × (Map.get j m'.user_port_counts ≡ Map.get j m.user_port_counts)
      × (Map.get j m'.proxy_user_ports ≡ Map.get j m.proxy_user_ports)

-- A count of 0 is removed from the table.
abbrev pub NoZero : Map String ℕ → Type 0
NoZero counts = (user : String) → Map.get user counts ≢ some 0

counts-restored :
    (user j : String) (ports : ℕ) (counts : Map String ℕ)
    → NoZero counts
    → let current : ℕ = unwrap_or (Map.get user counts) 0 in
      Map.get j
        (lower_count user ports (Map.insert user (current + ports) counts) (some (current + ports)))
      ≡ Map.get j counts
counts-restored user j ports counts no_zero =
    let current : ℕ = unwrap_or (Map.get user counts) 0 in
    ground (
      arith,
      no_zero user,
      =?_iff user j,
      get-insert user j (current + ports) counts,
      get-remove user j (Map.insert user (current + ports) counts),
      get-insert user j (current + ports - ports) (Map.insert user (current + ports) counts),
    )

pub entry-restored :
    {V : Type 0} (name j : String) (v : V) (m : Map String V)
    → Map.get name m ≡ none
    → Map.get j (Map.remove name (Map.insert name v m)) ≡ Map.get j m
entry-restored name j v m free =
    ground (arith, =?_iff name j, get-remove name j (Map.insert name v m), get-insert name j v m)

absent-restored :
    {V : Type 0} (name j : String) (m : Map String V)
    → Map.get name m ≡ none
    → Map.get j (Map.remove name m) ≡ Map.get j m
absent-restored name j m free = ground (arith, =?_iff name j, get-remove name j m)

settle-uncharged :
    (m m2 : ProxyTables) (c : ProxyConfig) (e : ProxyError)
    → Map.get c.name m.proxies ≡ none
    → Map.get c.name m.proxy_user_ports ≡ none
    → SameAccounts (record m { proxies = Map.insert c.name c m.proxies }) m2
    → Restored m (settle c (m2, err e)).0
unfolding release_user_quota
settle-uncharged m m2 c e free unheld (proxies, counts, ports, limit) j =
    let absent : Map.get c.name m2.proxy_user_ports ≡ none = ap (Map.get c.name) ports ∙ unheld in
    let back : Map.get j (Map.remove c.name m2.proxies) ≡ Map.get j m.proxies =
      ap (λ (t : Map String ProxyConfig). Map.get j (Map.remove c.name t)) proxies
      ∙ entry-restored c.name j c m.proxies free in
    elim (Bool-cases (ltb 0 (ports_used c) && is_some m2.max_ports_per_user)) [
      | inl counted ↦
          rw (counted, absent)
            (
              back,
              ap (Map.get j) counts,
              ap (λ (t : Map String (String × ℕ)). Map.get j (Map.remove c.name t)) ports
                  ∙ absent-restored c.name j m.proxy_user_ports unheld,
            )
      | inr uncounted ↦ rw uncounted (back, ap (Map.get j) counts, ap (Map.get j) ports)
    ]

-- The tables after `user` was charged.
abbrev charged : ProxyTables → ProxyConfig → String → ProxyTables
charged m c user = record m {
  user_port_counts =
      Map.insert user (unwrap_or (Map.get user m.user_port_counts) 0 + ports_used c)
        m.user_port_counts;
  proxy_user_ports = Map.insert c.name (user, ports_used c) m.proxy_user_ports;
}

settle-charged :
    (m m2 : ProxyTables) (c : ProxyConfig) (user : String) (e : ProxyError)
    → Map.get c.name m.proxies ≡ none
    → Map.get c.name m.proxy_user_ports ≡ none
    → NoZero m.user_port_counts
    → ltb 0 (ports_used c) && is_some m.max_ports_per_user ≡ true
    → SameAccounts (record (charged m c user) { proxies = Map.insert c.name c m.proxies }) m2
    → Restored m (settle c (m2, err e)).0
unfolding release_user_quota
settle-charged m m2 c user e free unheld no_zero counted (proxies, counts, ports, limit) j =
    let current : ℕ = unwrap_or (Map.get user m.user_port_counts) 0 in
    let still : ltb 0 (ports_used c) && is_some m2.max_ports_per_user ≡ true =
      ap (λ o. ltb 0 (ports_used c) && is_some o) limit ∙ counted in
    let held : Map.get c.name m2.proxy_user_ports ≡ some (user, ports_used c) =
      ap (Map.get c.name) ports ∙ get-insert_self c.name (user, ports_used c) m.proxy_user_ports in
    let count : Map.get user m2.user_port_counts ≡ some (current + ports_used c) =
      ap (Map.get user) counts ∙ get-insert_self user (current + ports_used c) m.user_port_counts in
    rw (still, held, count)
      (
        ap (λ (t : Map String ProxyConfig). Map.get j (Map.remove c.name t)) proxies
            ∙ entry-restored c.name j c m.proxies free,
        ap
              (λ (t : Map String ℕ).
                Map.get j (lower_count user (ports_used c) t (some (current + ports_used c))))
              counts
            ∙ counts-restored user j (ports_used c) m.user_port_counts no_zero,
        ap (λ (t : Map String (String × ℕ)). Map.get j (Map.remove c.name t)) ports
            ∙ entry-restored c.name j (user, ports_used c) m.proxy_user_ports unheld,
      )

charge_limited-cases :
    (m m' : ProxyTables) (c : ProxyConfig) (user : Option String) (limit : Option ℕ)
    → charge_limited m c user limit ≡ ok m'
    → (m ≡ m') ⊎ ((u : String) × (is_some limit ≡ true) × (charged m c u ≡ m'))
charge_limited-cases m m' c none limit h = inl (ground arith)
charge_limited-cases m m' c (some user) none h = inl (ground arith)
charge_limited-cases m m' c (some user) (some limit) h = inr (user, refl, ground arith)

charge-cases :
    (m m' : ProxyTables) (c : ProxyConfig) (user : Option String)
    → charge m c user ≡ ok m'
    → (m ≡ m')
      ⊎ ((u : String) × (ltb 0 (ports_used c) && is_some m.max_ports_per_user ≡ true)
          × (charged m c u ≡ m'))
unfolding charge
charge-cases m m' c user h = elim (Bool-cases (ltb 0 (ports_used c))) [
  | inl counted ↦ elim (charge_limited-cases m m' c user m.max_ports_per_user (rw counted at h)) [
    | inl same ↦ inl same
    | inr (u, limited, is_charged) ↦ inr (u, rw (counted, limited) refl, is_charged)
  ]
  | inr uncounted ↦ inl (ground arith)
]

settle-Restored :
    (m m' m2 : ProxyTables) (c : ProxyConfig) (user : Option String)
    (r : Result ProxyError (Unit {0})) (e : ProxyError)
    → Map.get c.name m.proxies ≡ none
    → Map.get c.name m.proxy_user_ports ≡ none
    → NoZero m.user_port_counts
    → charge m c user ≡ ok m'
    → SameAccounts (record m' { proxies = Map.insert c.name c m'.proxies }) m2
    → (settle c (m2, r)).1 ≡ err e
    → Restored m (settle c (m2, r)).0
settle-Restored m m' m2 c user (ok done) e free unheld no_zero h same failed = absurd (ground arith)
settle-Restored m m' m2 c user (err e') e free unheld no_zero h same failed =
    elim (charge-cases m m' c user h) [
      | inl uncharged ↦ settle-uncharged m m2 c e' free unheld (
          subst (λ t. SameAccounts (record t { proxies = Map.insert c.name c t.proxies }) m2)
            (sym uncharged) same)
      | inr (u, counted, is_charged) ↦ settle-charged m m2 c u e' free unheld no_zero counted (
          subst (λ t. SameAccounts (record t { proxies = Map.insert c.name c t.proxies }) m2)
            (sym is_charged) same)
    ]

add_charged-Restored :
    (env : StartEnv) (m : ProxyTables) (c : ProxyConfig) (user : Option String)
    (r : Result ProxyError ProxyTables) (e : ProxyError)
    → Map.get c.name m.proxies ≡ none
    → Map.get c.name m.proxy_user_ports ≡ none
    → NoZero m.user_port_counts
    → charge m c user ≡ r
    → (add_charged env m c r).1 ≡ err e
    → Restored m (add_charged env m c r).0
add_charged-Restored env m c user (err e') e free unheld no_zero h failed = λ j. (refl, refl, refl)
add_charged-Restored env m c user (ok m') e free unheld no_zero h failed =
    let m1 : ProxyTables = record m' { proxies = Map.insert c.name c m'.proxies } in
    settle-Restored m m' (start_proxy env m1 c).0 c user (start_proxy env m1 c).1 e free unheld
      no_zero h (start_proxy-SameAccounts env m1 c) failed

add_checked-Restored :
    (env : StartEnv) (m : ProxyTables) (c : ProxyConfig) (user : Option String)
    (o : Option ProxyError) (e : ProxyError)
    → Map.get c.name m.proxies ≡ none
    → Map.get c.name m.proxy_user_ports ≡ none
    → NoZero m.user_port_counts
    → (add_checked env m c user o).1 ≡ err e
    → Restored m (add_checked env m c user o).0
add_checked-Restored env m c user (some e') e free unheld no_zero failed = λ j. (refl, refl, refl)
add_checked-Restored env m c user none e free unheld no_zero failed =
    add_charged-Restored env m c user (charge m c user) e free unheld no_zero refl failed

-- A proxy that is refused or that does not start leaves the accounts as they were, entry by entry: the
-- proxies, the counts per user and the record of who holds what. (The name holds no ports while it
-- is no proxy's, and no count is 0, which the table does not keep; no other call comes between.)
pub add_proxy_inner-Restored :
    (env : StartEnv) (m : ProxyTables) (c : ProxyConfig) (user : Option String) (e : ProxyError)
    → (Map.get c.name m.proxies ≡ none → Map.get c.name m.proxy_user_ports ≡ none)
    → NoZero m.user_port_counts
    → (add_proxy_inner env m c user).1 ≡ err e
    → Restored m (add_proxy_inner env m c user).0
unfolding add_proxy_inner
add_proxy_inner-Restored env m c user e unheld no_zero failed =
    elim (Option-cases (Map.get c.name m.proxies)) [
      | inl free ↦ rw free (
          add_checked-Restored env m c user (check_group c) e free (unheld free) no_zero
            (rw free at failed))
      | inr (old, taken) ↦ rw taken (λ j. (refl, refl, refl))
    ]
