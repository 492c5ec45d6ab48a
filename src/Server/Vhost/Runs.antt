-- ===== src/Server/Vhost/Runs.antt =====
-- The router of rust_frp_server/src/vhost.rs at concrete inputs: a configuration is a number.
use rust_frp.Common.{ℕ, none, some, true, ◌≡◌, ◌≢◌, refl, [], ◌∷◌}
use rust_frp.Common.Equality.{bytes_beq, bytes_eq, string_eq}
use rust_frp.Common.Text.{Text, ends_with}
use rust_frp.Common.Map.{find}
use rust_frp.Common.Map
use rust_frp.Server.Vhost.{
  HttpVhostRouter, add_domains, by_suffix, register_proxy, unregister_proxy, find_proxy_by_host,
  get_proxy_config,
}
use rust_frp.Server.Vhost.Lookup.{lists, find_proxy_by_host-unregister_proxy}

abbrev site : Text
site = b'a' ∷ b'.' ∷ b'b' ∷ []

-- A name that ends with `site` but is no subdomain of it.
abbrev look_alike : Text
look_alike = b'x' ∷ site

abbrev empty : HttpVhostRouter ℕ
empty = record { domain_map = Map.empty; proxy_configs = Map.empty }

abbrev router : HttpVhostRouter ℕ
router = register_proxy empty "p" (site ∷ []) 5

finds :
    (find_proxy_by_host router site ≡ some "p")
    × (find_proxy_by_host router (b'x' ∷ b'.' ∷ site) ≡ some "p")
    × (find_proxy_by_host router look_alike ≡ some "p")
    × (find_proxy_by_host router (b'b' ∷ []) ≡ none)
    × (get_proxy_config router "p" ≡ some 5)
unfolding register_proxy add_domains find_proxy_by_host by_suffix ends_with bytes_beq Map.get
    Map.insert Map.empty find
finds = (refl, refl, refl, refl, refl)

find_alike : find_proxy_by_host router look_alike ≡ some "p"
find_alike = finds.2

find_proxy_by_host-unregister_proxy_example :
    find_proxy_by_host (unregister_proxy router "p") look_alike ≢ some "p"
find_proxy_by_host-unregister_proxy_example =
    find_proxy_by_host-unregister_proxy router look_alike "p"

listed : lists site (site ∷ []) ≡ true
unfolding bytes_beq
listed = refl
