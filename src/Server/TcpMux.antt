-- ===== src/Server/TcpMux.antt =====
-- rust_frp_server/src/tcpmux.rs: the router of CONNECT requests to tcpmux proxies (`TcpMuxRouter`).
-- Domains, users and passwords are their bytes.
pub mod Removal
pub mod Candidates
pub mod Credentials
mod Runs
use rust_frp.Common.{
  Option, none, some, Bool, true, false, not, ◌&&◌, String, unwrap_or, List, [], ◌∷◌, ◌++◌, retain,
  if◌then◌else◌,
}
use rust_frp.Common.Equality.{◌=?◌, string_eq, bytes_eq}
use rust_frp.Common.Text.{Text, ends_with}
use rust_frp.Common.Map.{Map}
use rust_frp.Common.Map
use rust_frp.Util.ConstantTime.{constant_time_eq}

pub record TcpMuxRoute : Type 0 where
  pub proxy_name : String
  pub http_user : Option Text
  pub http_password : Option Text
  pub route_by_http_user : Option Text

pub data RouteOutcome : Type 0 where
  not_found unauthorized : RouteOutcome
  matched : TcpMuxRoute → RouteOutcome

pub record TcpMuxRouter : Type 0 where
  pub routes : Map Text (List TcpMuxRoute)
  pub proxy_domains : Map String (List Text)

abbrev pub is_empty {ℓ} : {A : Type ℓ} → List A → Bool
is_empty [] = true
is_empty (x ∷ xs) = false

abbrev pub is_of_other : String → TcpMuxRoute → Bool
is_of_other name r = not (r.proxy_name =? name)

abbrev pub add_route : TcpMuxRoute → List TcpMuxRoute → List TcpMuxRoute
add_route route list = retain (is_of_other route.proxy_name) list ++ route ∷ []

-- The loop of `register`.
unfoldable pub add_routes :
    TcpMuxRoute → List Text → Map Text (List TcpMuxRoute) → Map Text (List TcpMuxRoute)
add_routes route [] routes = routes
add_routes route (d ∷ ds) routes =
    add_routes route ds (Map.insert d (add_route route (unwrap_or (Map.get d routes) [])) routes)

unfoldable pub register : TcpMuxRouter → List Text → TcpMuxRoute → TcpMuxRouter
unfolding add_routes
register r domains route = record {
  routes = add_routes route domains r.routes;
  proxy_domains = Map.insert route.proxy_name domains r.proxy_domains;
}

abbrev pub drop_listed :
    String
    → Text
    → Map Text (List TcpMuxRoute)
    → Option (List TcpMuxRoute)
    → Map Text (List TcpMuxRoute)
drop_listed name d routes none = routes
drop_listed name d routes (some list) =
    if is_empty (retain (is_of_other name) list)
    then Map.remove d routes
    else Map.insert d (retain (is_of_other name) list) routes

-- The loop of `unregister`.
unfoldable pub drop_routes :
    String → List Text → Map Text (List TcpMuxRoute) → Map Text (List TcpMuxRoute)
drop_routes name [] routes = routes
drop_routes name (d ∷ ds) routes =
    drop_routes name ds (drop_listed name d routes (Map.get d routes))

abbrev pub unregister_from : TcpMuxRouter → String → Option (List Text) → TcpMuxRouter
unregister_from r name none = r
unregister_from r name (some domains) = record {
  routes = drop_routes name domains r.routes;
  proxy_domains = Map.remove name r.proxy_domains;
}

unfoldable pub unregister : TcpMuxRouter → String → TcpMuxRouter
unfolding drop_routes
unregister r name = unregister_from r name (Map.get name r.proxy_domains)

unfoldable pub credential_match : TcpMuxRoute → Option Text → Option Text → Bool
credential_match route user password =
    let expect_user : Text = unwrap_or route.http_user [] in
    let expect_password : Text = unwrap_or route.http_password [] in
    if is_empty expect_user && is_empty expect_password
    then true
    else constant_time_eq (unwrap_or user []) expect_user
      && constant_time_eq (unwrap_or password []) expect_password

abbrev pub same_user : Option Text → Text → Bool
same_user none expected = false
same_user (some user) expected = user =? expected

abbrev pub is_routed_by : Option Text → Option Text → Bool
is_routed_by user none = true
is_routed_by user (some expected) = same_user user expected

-- The routes of the domains that the wanted domain ends with, as the map gives them.
unfoldable pub by_suffix : Text → List (Text × List TcpMuxRoute) → List TcpMuxRoute
by_suffix domain [] = []
by_suffix domain ((registered, list) ∷ rest) =
    let others = by_suffix domain rest in
    if ends_with registered domain then list ++ others else others

abbrev pub candidates : TcpMuxRouter → Text → List TcpMuxRoute
candidates r domain =
    let exact : List TcpMuxRoute = unwrap_or (Map.get domain r.routes) [] in
    if is_empty exact then by_suffix domain (Map.entries r.routes) else exact

-- The loop over the candidates.
unfoldable pub first_match : List TcpMuxRoute → Option Text → Option Text → RouteOutcome
unfolding credential_match
first_match [] user password = unauthorized
first_match (route ∷ rest) user password =
    let later = first_match rest user password in
    if credential_match route user password then matched route else later

abbrev pub choose : List TcpMuxRoute → Option Text → Option Text → RouteOutcome
choose list user password = if is_empty list then not_found else first_match list user password

unfoldable pub resolve : TcpMuxRouter → Text → Option Text → Option Text → RouteOutcome
unfolding by_suffix first_match
resolve r domain user password =
    choose (retain (λ route. is_routed_by user route.route_by_http_user) (candidates r domain)) user
      password
