-- ===== src/Server/TcpMux/Credentials.antt =====
-- Whom `resolve` of rust_frp_server/src/tcpmux.rs lets through.
use rust_frp.Common.{Option, none, some, unwrap_or, ◌≡◌, ◌⊎◌, List, [], retain}
use rust_frp.Common.Equality.{bytes_eq}
use rust_frp.Common.Text.{Text}
use rust_frp.Server.TcpMux.{
  TcpMuxRoute, TcpMuxRouter, RouteOutcome, not_found, unauthorized, matched, is_routed_by,
  candidates,
}
use mathlib.Core.List.{Memᴰ}
use mathlib.Core.List.Memᴰ
use rust_frp.Server.TcpMux.Candidates.{IsCandidate}

-- A route is for any user, or for this one.
abbrev pub IsFor : Option Text → TcpMuxRoute → Type 0
IsFor user route =
    (route.route_by_http_user ≡ none)
    ⊎ ((name : Text) × (route.route_by_http_user ≡ some name) × (user ≡ some name))

-- A route asks for no credentials, or for these.
abbrev pub Admits : Option Text → Option Text → TcpMuxRoute → Type 0
Admits user password route =
    ((unwrap_or route.http_user [] ≡ []) × (unwrap_or route.http_password [] ≡ []))
    ⊎ ((unwrap_or user [] ≡ unwrap_or route.http_user [])
        × (unwrap_or password [] ≡ unwrap_or route.http_password []))

-- What an outcome says about the routes in the table.
abbrev pub Explained : TcpMuxRouter → Text → Option Text → Option Text → RouteOutcome → Type 0
Explained r domain user password not_found =
    (route : TcpMuxRoute) → IsCandidate r domain route → IsFor user route → ⊥
Explained r domain user password unauthorized =
    ((route : TcpMuxRoute) × IsCandidate r domain route × IsFor user route)
    × ((route : TcpMuxRoute)
        → IsCandidate r domain route
        → IsFor user route
        → Admits user password route
        → ⊥)
Explained r domain user password (matched route) =
    IsCandidate r domain route × IsFor user route × Admits user password route

-- What the loop over some candidates says of them.
Tried : List TcpMuxRoute → Option Text → Option Text → RouteOutcome → Type 0
Tried list user password not_found = ⊥
Tried list user password unauthorized =
    (route : TcpMuxRoute) → Memᴰ route list → Admits user password route → ⊥
Tried list user password (matched route) = Memᴰ route list × Admits user password route

module _ (r : TcpMuxRouter) (domain : Text) (user password : Option Text) where
  abbrev routed : List TcpMuxRoute
  routed = retain (λ route. is_routed_by user route.route_by_http_user) (candidates r domain)
