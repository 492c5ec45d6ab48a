-- ===== src/Server/Session.antt =====
-- The proxies of a control session in rust_frp_server/src/control.rs: handle_register_proxy and
-- cleanup_proxies, on the tables that all sessions share. Metrics, the pools and the notice that a
-- plugin is given of a proxy's end are left out.
pub mod Cleanup
pub mod Ending
mod Runs
use rust_frp.Common.{
  Option, none, some, Bool, true, false, not, ◌&&◌, ◌||◌, Result, ok, err, String, List, [], ◌∷◌,
  ◌++◌, if◌then◌else◌,
}
use rust_frp.Common.Equality.{◌=?◌, string_eq}
use rust_frp.Common.Text.{Text}
use rust_frp.Common.Map.{Map}
use rust_frp.Common.Map
use rust_frp.Server.Proxies.{
  ProxyConfig, ProxyError, ProxyTables, StartEnv, add_proxy_inner, remove_proxy,
}

-- The tables of the proxies, of their owners' run ids, and the registry of secret keys.
pub record Shared : Type 0 where
  pub tables : ProxyTables
  pub proxy_owners : Map String Text
  pub secrets : Map String String

pub record Control : Type 0 where
  pub run_id : Text
  pub user : String
  pub registered_proxies : List String

pub record RegisterProxyMsg : Type 0 where
  pub proxy : ProxyConfig
  pub secret_key : Option String

-- The plugins refuse, or leave a content that is a configuration or is none.
pub data PluginReply : Type 0 where
  refuses unreadable : PluginReply
  rewrites : ProxyConfig → PluginReply

pub data RegisterError : Type 0 where
  by_plugin : RegisterError
  by_manager : ProxyError → RegisterError

-- What the session leaves, the error in its answer, and whether it goes on.
pub record Registered : Type 0 where
  pub shared : Shared
  pub control : Control
  pub error : Option RegisterError
  pub goes_on : Bool

-- One round of the loop of `cleanup_proxies`.
unfoldable pub cleanup_proxy : Shared → String → Shared
cleanup_proxy sh name = record {
  tables = remove_proxy sh.tables name;
  proxy_owners = Map.remove name sh.proxy_owners;
  secrets = Map.remove name sh.secrets;
}

unfoldable pub cleanup_proxies : List String → Shared → Shared
unfolding cleanup_proxy
cleanup_proxies [] sh = sh
cleanup_proxies (name ∷ names) sh = cleanup_proxies names (cleanup_proxy sh name)

abbrev pub keeps_secret : String → Bool
keeps_secret kind = kind =? "stcp" || kind =? "xtcp" || kind =? "sudp"

-- `ProxySecretRegistry::register`, for a key that is not empty.
abbrev pub register_secret : String → Option String → Map String String → Map String String
register_secret name none secrets = secrets
register_secret name (some key) secrets = if key =? "" then secrets else Map.insert name key secrets

-- The answer is sent or not; if not, the session ends.
abbrev pub respond : Bool → Shared → Control → Option RegisterError → Registered
respond true sh c error = record { shared = sh; control = c; error = error; goes_on = true }
respond false sh c error = record {
  shared = cleanup_proxies c.registered_proxies sh;
  control = c;
  error = error;
  goes_on = false;
}

-- The proxy is noted under the name, the type and the key of the message.
abbrev pub noted : Shared → Control → RegisterProxyMsg → Shared
noted sh c msg = record sh {
  proxy_owners = Map.insert msg.proxy.name c.run_id sh.proxy_owners;
  secrets =
      if keeps_secret msg.proxy.kind
      then register_secret msg.proxy.name msg.secret_key sh.secrets
      else sh.secrets;
}

abbrev pub with_proxy : Control → String → Control
with_proxy c name = record c { registered_proxies = c.registered_proxies ++ name ∷ [] }

abbrev pub settle_registration :
    Bool
    → Shared
    → Control
    → RegisterProxyMsg
    → ProxyTables × Result ProxyError (Unit {0})
    → Registered
settle_registration sent sh c msg (tables, ok u) =
    respond sent (noted (record sh { tables = tables }) c msg) (with_proxy c msg.proxy.name) none
settle_registration sent sh c msg (tables, err e) =
    respond sent (record sh { tables = tables }) c (some (by_manager e))

unfoldable pub handle_register_proxy :
    StartEnv → PluginReply → Bool → Shared → Control → RegisterProxyMsg → Registered
unfolding cleanup_proxies
handle_register_proxy env refuses sent sh c msg = respond sent sh c (some by_plugin)
handle_register_proxy env unreadable sent sh c msg =
    settle_registration sent sh c msg (add_proxy_inner env sh.tables msg.proxy (some c.user))
handle_register_proxy env (rewrites proxy) sent sh c msg =
    settle_registration sent sh c msg (add_proxy_inner env sh.tables proxy (some c.user))
