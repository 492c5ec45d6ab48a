-- ===== src/Server/TcpMux/Runs.antt =====
-- The router of rust_frp_server/src/tcpmux.rs at concrete inputs.
use rust_frp.Common.{none, some, true, ◌≡◌, refl, subst, inl, inr, List, [], ◌∷◌, arith, All}
use rust_frp.Common.Text.{Text, ends_with}
use rust_frp.Common.Equality.{string_eq, bytes_eq, bytes_beq}
use rust_frp.Common.Map.{find, get-insert_cases, get-empty}
use rust_frp.Common.Map
use rust_frp.Util.ConstantTime.{constant_time_eq}
use rust_frp.Server.TcpMux.{
  TcpMuxRoute, TcpMuxRouter, not_found, unauthorized, matched, add_routes, register, drop_routes,
  unregister, credential_match, by_suffix, first_match, resolve,
}
use rust_frp.Server.TcpMux.Removal.{Without, contains, OnRecord, unregister-Without}

abbrev site : Text
site = b'a' ∷ b'.' ∷ b'b' ∷ []

abbrev below_site : Text
below_site = b'x' ∷ b'.' ∷ site

abbrev secret : TcpMuxRoute
secret = record {
  proxy_name = "p";
  http_user = some (b'u' ∷ []);
  http_password = some (b'w' ∷ []);
  route_by_http_user = none;
}

abbrev router : TcpMuxRouter
router = register (record { routes = Map.empty; proxy_domains = Map.empty }) (site ∷ []) secret

resolves :
    (resolve router site (some (b'u' ∷ [])) (some (b'w' ∷ [])) ≡ matched secret)
    × (resolve router below_site (some (b'u' ∷ [])) (some (b'w' ∷ [])) ≡ matched secret)
    × (resolve router site (some (b'u' ∷ [])) none ≡ unauthorized)
    × (resolve router (b'c' ∷ []) none none ≡ not_found)
    × (resolve (unregister router "p") site none none ≡ not_found)
unfolding resolve register add_routes unregister drop_routes by_suffix first_match credential_match
    constant_time_eq ends_with bytes_beq Map.get Map.insert Map.remove Map.empty find
resolves = (refl, refl, refl, refl, refl)

-- A second proxy at the same domain.
abbrev open_route : TcpMuxRoute
open_route = record {
  proxy_name = "q";
  http_user = none;
  http_password = none;
  route_by_http_user = none;
}

abbrev pair : TcpMuxRouter
pair = record {
  routes = Map.insert site (secret ∷ open_route ∷ []) Map.empty;
  proxy_domains = Map.insert "p" (site ∷ []) (Map.insert "q" (site ∷ []) Map.empty);
}

domains_of_p : Map.get "p" pair.proxy_domains ≡ some (site ∷ [])
unfolding Map.get Map.insert Map.empty find
domains_of_p = refl

domains_of_q : Map.get "q" pair.proxy_domains ≡ some (site ∷ [])
unfolding Map.get Map.insert Map.empty find
domains_of_q = refl

site_held : contains site (site ∷ []) ≡ true
unfolding bytes_beq
site_held = refl

pair-OnRecord : OnRecord pair
pair-OnRecord d list found =
    elim (get-insert_cases site d (secret ∷ open_route ∷ []) list Map.empty found) [
      | inl (here, same) ↦
          let holds = subst (λ e. contains e (site ∷ []) ≡ true) here site_held in
          subst
            (All λ (route : TcpMuxRoute).
              (ds : List Text) × (Map.get route.proxy_name pair.proxy_domains ≡ some ds)
              × (contains d ds ≡ true))
            same ((site ∷ [], domains_of_p, holds), ((site ∷ [], domains_of_q, holds), tt))
      | inr (elsewhere, nothing) ↦ absurd (ground (arith, get-empty {V = List TcpMuxRoute} d))
    ]

left_at_site : Map.get site (unregister pair "p").routes ≡ some (open_route ∷ [])
unfolding unregister drop_routes Map.get Map.insert Map.remove Map.empty find bytes_beq
left_at_site = refl

unregister-Without_example : Without "p" (open_route ∷ [])
unregister-Without_example =
    unregister-Without "p" pair site (open_route ∷ []) pair-OnRecord left_at_site
