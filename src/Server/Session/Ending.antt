-- ===== src/Server/Session/Ending.antt =====
-- A whole session of rust_frp_server/src/control.rs: its registrations, and the cleanup at its end.
use rust_frp.Common.{
  Option, none, some, true, false, ◌||◌, Result, ok, err, String, ◌≡◌, ◌≢◌, refl, sym, ◌∙◌, ap,
  subst, inl, inr, List, [], ◌∷◌, ◌++◌, All, if◌then◌else◌, arith, Bool-cases,
}
use rust_frp.Common.Equality.{◌=?◌, =?_iff, =?_self, string_eq}
use rust_frp.Common.Text.{Text}
use rust_frp.Common.Map.{Map, get-insert}
use rust_frp.Common.Map
use rust_frp.Server.Proxies.{ProxyConfig, ProxyError, ProxyTables, StartEnv, add_proxy_inner}
use rust_frp.Server.Session.{
  Shared, Control, RegisterProxyMsg, PluginReply, refuses, unreadable, rewrites, keeps_secret,
  register_secret, noted, settle_registration, handle_register_proxy, cleanup_proxies,
}
use rust_frp.Server.Session.Cleanup.{
  contains, Added, add_proxy_inner-Added, cleanup_proxies-contains,
}

pub record Request : Type 0 where
  pub env : StartEnv
  pub reply : PluginReply
  pub msg : RegisterProxyMsg

-- The registrations of a session whose answers are all sent.
unfoldable pub register_all : List Request → Shared → Control → Shared × Control
unfolding handle_register_proxy
register_all [] sh c = (sh, c)
register_all (r ∷ requests) sh c =
    let done = handle_register_proxy r.env r.reply true sh c r.msg in
    register_all requests done.shared done.control

-- The plugins leave the name of the proxy as it was.
abbrev pub LeavesName : PluginReply → String → Type 0
LeavesName (rewrites proxy) name = proxy.name ≡ name
LeavesName refuses name = Unit
LeavesName unreadable name = Unit

abbrev pub KeepsName : Request → Type 0
KeepsName r = LeavesName r.reply r.msg.proxy.name

-- What the tables hold on a name.
abbrev pub holds : String → Shared → Option ProxyConfig × Option Text × Option String
holds j sh = (Map.get j sh.tables.proxies, Map.get j sh.proxy_owners, Map.get j sh.secrets)

-- The names of a session were free before it, and the tables hold on other names what they held.
record Keeps (before sh : Shared) (c : Control) : Type 0 where
  free :
      (j : String) → contains j c.registered_proxies ≡ true → Map.get j before.tables.proxies ≡ none
  others : (j : String) → contains j c.registered_proxies ≡ false → holds j sh ≡ holds j before

contains-append :
    (j name : String) (names : List String)
    → contains j (names ++ name ∷ []) ≡ contains j names || name =? j
contains-append j name [] = ground arith
contains-append j name (x ∷ names) = ground (arith, contains-append j name names)

register_secret-get :
    (j name : String) (key : Option String) (secrets : Map String String)
    → (name =? j) ≡ false
    → Map.get j (register_secret name key secrets) ≡ Map.get j secrets
register_secret-get j name none secrets other = refl
register_secret-get j name (some key) secrets other = ground (arith, get-insert name j key secrets)

noted-holds :
    (j : String) (sh : Shared) (c : Control) (msg : RegisterProxyMsg)
    → (msg.proxy.name =? j) ≡ false
    → holds j (noted sh c msg) ≡ holds j sh
noted-holds j sh c msg other =
    let owner : Map.get j (Map.insert msg.proxy.name c.run_id sh.proxy_owners)
        ≡ Map.get j sh.proxy_owners =
      ground (arith, get-insert msg.proxy.name j c.run_id sh.proxy_owners) in
    elim (Bool-cases (keeps_secret msg.proxy.kind)) [
      | inl secret ↦
          rw (secret, owner, register_secret-get j msg.proxy.name msg.secret_key sh.secrets other)
            refl
      | inr public ↦ rw (public, owner) refl
    ]

settle_registration-Keeps :
    (before sh : Shared) (c : Control) (msg : RegisterProxyMsg) (proxy : ProxyConfig)
    (r : ProxyTables × Result ProxyError (Unit {0}))
    → proxy.name ≡ msg.proxy.name
    → Added sh.tables proxy r
    → Keeps before sh c
    → Keeps before
        (settle_registration true sh c msg r).shared
        (settle_registration true sh c msg r).control
settle_registration-Keeps before sh c msg proxy (tables, ok u) same (free, added) v =
    let name = msg.proxy.name in
    record {
      free = λ j listed. elim (Bool-cases (contains j c.registered_proxies)) [
        | inl old ↦ v.free j old
        | inr fresh ↦
            let here : name ≡ j =
              ground (arith, contains-append j name c.registered_proxies, =?_iff name j, listed) in
            ap (λ (h : Option ProxyConfig × Option Text × Option String). h.0)
              (sym (v.others j fresh))
            ∙ ap (λ i. Map.get i sh.tables.proxies) (sym here ∙ sym same)
            ∙ free
      ];
      others = λ j unlisted.
          let both = contains-append j name c.registered_proxies in
          let fresh : contains j c.registered_proxies ≡ false = ground (arith, both, unlisted) in
          let other : (name =? j) ≡ false = ground (arith, both, unlisted) in
          let kept : Map.get j tables.proxies ≡ Map.get j sh.tables.proxies =
            added j
            ∙ ap (λ i. if i =? j then some proxy else Map.get j sh.tables.proxies) same
            ∙ ap (λ b. if b then some proxy else Map.get j sh.tables.proxies) other in
          noted-holds j (record sh { tables = tables }) c msg other
          ∙ ap (λ (o : Option ProxyConfig). (o, Map.get j sh.proxy_owners, Map.get j sh.secrets))
              kept
          ∙ v.others j fresh;
    }
settle_registration-Keeps before sh c msg proxy (tables, err e) same added v = record {
  free = v.free;
  others = λ j unlisted.
      ap (λ (o : Option ProxyConfig). (o, Map.get j sh.proxy_owners, Map.get j sh.secrets))
        (added j)
      ∙ v.others j unlisted;
}

handle_register_proxy-Keeps :
    (before sh : Shared) (c : Control) (env : StartEnv) (reply : PluginReply)
    (msg : RegisterProxyMsg)
    → LeavesName reply msg.proxy.name
    → Keeps before sh c
    → Keeps before
        (handle_register_proxy env reply true sh c msg).shared
        (handle_register_proxy env reply true sh c msg).control
unfolding handle_register_proxy
handle_register_proxy-Keeps before sh c env refuses msg named v = v
handle_register_proxy-Keeps before sh c env unreadable msg named v =
    settle_registration-Keeps before sh c msg msg.proxy _ refl
      (add_proxy_inner-Added env sh.tables msg.proxy (some c.user)) v
handle_register_proxy-Keeps before sh c env (rewrites proxy) msg named v =
    settle_registration-Keeps before sh c msg proxy _ named
      (add_proxy_inner-Added env sh.tables proxy (some c.user)) v

register_all-Keeps :
    (before sh : Shared) (c : Control) (requests : List Request)
    → All KeepsName requests
    → Keeps before sh c
    → Keeps before (register_all requests sh c).0 (register_all requests sh c).1
unfolding register_all
register_all-Keeps before sh c [] named v = v
register_all-Keeps before sh c (r ∷ requests) (first, named) v =
    let done = handle_register_proxy r.env r.reply true sh c r.msg in
    register_all-Keeps before done.shared done.control requests named
      (handle_register_proxy-Keeps before sh c r.env r.reply r.msg first v)

-- A session that ends leaves the proxies as it found them: after any registrations, whether they
-- succeed or not, in which the plugins leave the proxies their names, the cleanup of all that a new
-- session has on record gives every name the proxy that it had before, and takes the owner and the
-- secret key of every name on record, leaving those of other names as they were.
pub cleanup_proxies-register_all :
    (requests : List Request) (sh : Shared) (c : Control) (j : String)
    → All KeepsName requests
    → c.registered_proxies ≡ []
    → let (later, ended) = register_all requests sh c in
      let after = cleanup_proxies ended.registered_proxies later in
      (Map.get j after.tables.proxies ≡ Map.get j sh.tables.proxies)
      × (Map.get j after.proxy_owners
          ≡ (if contains j ended.registered_proxies then none else Map.get j sh.proxy_owners))
      × (Map.get j after.secrets
          ≡ (if contains j ended.registered_proxies then none else Map.get j sh.secrets))
cleanup_proxies-register_all requests sh c j named new =
    let (later, ended) = register_all requests sh c in
    let start : Keeps sh sh c = record {
      free = λ i listed. absurd (ground (arith, ap (contains i) new, listed));
      others = λ i unlisted. refl;
    } in
    let v = register_all-Keeps sh sh c requests named start in
    let (proxies, owners, secrets) = cleanup_proxies-contains ended.registered_proxies later j in
    elim (Bool-cases (contains j ended.registered_proxies)) [
      | inl listed ↦ rw listed (
        (rw listed at proxies) ∙ sym (v.free j listed),
        (rw listed at owners),
        (rw listed at secrets),
      )
      | inr unlisted ↦
          let same = v.others j unlisted in
          rw unlisted (
            (rw unlisted at proxies)
                ∙ ap (λ (h : Option ProxyConfig × Option Text × Option String). h.0) same,
            (rw unlisted at owners)
                ∙ ap (λ (h : Option ProxyConfig × Option Text × Option String). h.1) same,
            (rw unlisted at secrets)
                ∙ ap (λ (h : Option ProxyConfig × Option Text × Option String). h.2) same,
          )
    ]

-- A proxy that a plugin renames outlives its session: if it was added under a name that is neither that of
-- the message nor on the session's record, then after the session's cleanup it is still there.
pub cleanup_proxies-renamed :
    (env : StartEnv) (proxy : ProxyConfig) (sh : Shared) (c : Control) (msg : RegisterProxyMsg)
    (tables : ProxyTables)
    → add_proxy_inner env sh.tables proxy (some c.user) ≡ (tables, ok tt)
    → proxy.name ≢ msg.proxy.name
    → contains proxy.name c.registered_proxies ≡ false
    → let done = handle_register_proxy env (rewrites proxy) true sh c msg in
      Map.get proxy.name
        (cleanup_proxies done.control.registered_proxies done.shared).tables.proxies
      ≡ some proxy
unfolding handle_register_proxy
cleanup_proxies-renamed env proxy sh c msg tables added renamed unlisted =
    let there : Map.get proxy.name tables.proxies ≡ some proxy =
      (subst (Added sh.tables proxy) added
          (add_proxy_inner-Added env sh.tables proxy (some c.user))).1
        proxy.name
      ∙ ap (λ b. if b then some proxy else Map.get proxy.name sh.tables.proxies)
          (=?_self proxy.name) in
    let names = c.registered_proxies ++ msg.proxy.name ∷ [] in
    let still : contains proxy.name names ≡ false = ground (
      arith,
      contains-append proxy.name msg.proxy.name c.registered_proxies,
      =?_iff msg.proxy.name proxy.name,
      unlisted,
    ) in
    rw added (
      (cleanup_proxies-contains names (noted (record sh { tables = tables }) c msg) proxy.name).0
      ∙ ap (λ b. if b then none else Map.get proxy.name tables.proxies) still
      ∙ there)
