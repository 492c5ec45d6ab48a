-- ===== src/Server/Vhost.antt =====
-- rust_frp_server/src/vhost.rs: the router from host names to HTTP proxies (`HttpVhostRouter`). A domain
-- is its bytes; what a proxy's configuration holds does not matter here.
pub mod Lookup
mod Runs
use rust_frp.Common.{Option, none, some, Bool, not, String, List, [], ◌∷◌, if◌then◌else◌}
use rust_frp.Common.Equality.{◌=?◌, string_eq, bytes_eq}
use rust_frp.Common.Text.{Text, ends_with}
use rust_frp.Common.Map.{Map}
use rust_frp.Common.Map

pub record HttpVhostRouter {ℓ} (Config : Type ℓ) : Type ℓ where
  pub domain_map : Map Text String
  pub proxy_configs : Map String Config

-- The loop of `register_proxy`.
unfoldable pub add_domains : String → List Text → Map Text String → Map Text String
add_domains name [] domains = domains
add_domains name (d ∷ ds) domains = add_domains name ds (Map.insert d name domains)

abbrev pub is_of_other : String → Text → String → Bool
is_of_other name d owner = not (owner =? name)

-- The loop of `find_proxy_by_host`, over the domains as the map gives them.
unfoldable pub by_suffix : Text → List (Text × String) → Option String
by_suffix host [] = none
by_suffix host ((domain, name) ∷ rest) =
    let later = by_suffix host rest in if ends_with domain host then some name else later

abbrev pub exact_or_suffix : Text → Map Text String → Option String → Option String
exact_or_suffix host domains (some name) = some name
exact_or_suffix host domains none = by_suffix host (Map.entries domains)

module _ {ℓ} {Config : Type ℓ} where
  unfoldable pub register_proxy :
      HttpVhostRouter Config → String → List Text → Config → HttpVhostRouter Config
  unfolding add_domains
  register_proxy r name domains config = record {
    domain_map = add_domains name domains r.domain_map;
    proxy_configs = Map.insert name config r.proxy_configs;
  }

  unfoldable pub unregister_proxy : HttpVhostRouter Config → String → HttpVhostRouter Config
  unregister_proxy r name = record {
    domain_map = Map.retain (is_of_other name) r.domain_map;
    proxy_configs = Map.remove name r.proxy_configs;
  }

  unfoldable pub find_proxy_by_host : HttpVhostRouter Config → Text → Option String
  unfolding by_suffix
  find_proxy_by_host r host = exact_or_suffix host r.domain_map (Map.get host r.domain_map)

  abbrev pub get_proxy_config : HttpVhostRouter Config → String → Option Config
  get_proxy_config r name = Map.get name r.proxy_configs
