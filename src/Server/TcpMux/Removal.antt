-- ===== src/Server/TcpMux/Removal.antt =====
-- What `unregister` of rust_frp_server/src/tcpmux.rs leaves.
use rust_frp.Common.{
  Option, none, some, Bool, true, false, ◌||◌, String, ◌≡◌, ◌≢◌, ◌⊎◌, inl, inr, refl, sym, ◌∙◌, ap,
  subst, List, [], ◌∷◌, retain, All, arith, Bool-cases,
}
use rust_frp.Common.Equality.{◌=?◌, =?_iff, string_eq, bytes_eq}
use rust_frp.Common.Text.{Text}
use rust_frp.Common.Map.{Map, get-insert_cases, get-remove-some}
use rust_frp.Common.Map
use rust_frp.Server.TcpMux.{
  TcpMuxRoute, TcpMuxRouter, is_empty, is_of_other, drop_listed, drop_routes, unregister_from,
  unregister,
}

-- None of these routes leads to the proxy.
abbrev pub Without : String → List TcpMuxRoute → Type 0
Without name = All λ (r : TcpMuxRoute). r.proxy_name ≢ name

abbrev pub contains : Text → List Text → Bool
contains d [] = false
contains d (e ∷ es) = (e =? d) || contains d es

-- Every route stands under a domain that is on record for its proxy.
abbrev pub OnRecord : TcpMuxRouter → Type 0
OnRecord r =
    (d : Text) (list : List TcpMuxRoute)
    → Map.get d r.routes ≡ some list
    → All
        (λ (route : TcpMuxRoute).
          (ds : List Text) × (Map.get route.proxy_name r.proxy_domains ≡ some ds)
          × (contains d ds ≡ true))
        list

retain-Without :
    (name : String) (list : List TcpMuxRoute) → Without name (retain (is_of_other name) list)
retain-Without name [] = tt
retain-Without name (r ∷ rest) = elim (Bool-cases (r.proxy_name =? name)) [
  | inl same ↦ rw same (retain-Without name rest)
  | inr other ↦ rw other ((λ p. ground (arith, =?_iff r.proxy_name name)), retain-Without name rest)
]

get-drop_listed :
    (name : String) (d e : Text) (routes : Map Text (List TcpMuxRoute))
    (o : Option (List TcpMuxRoute)) (list : List TcpMuxRoute)
    → Map.get d routes ≡ o
    → Map.get e (drop_listed name d routes o) ≡ some list
    → Without name list ⊎ ((Map.get e routes ≡ some list) × ((d =? e) ≡ false))
get-drop_listed name d e routes none list at found = inr (found, ground (arith, =?_iff d e))
get-drop_listed name d e routes (some old) list at found =
    elim (Bool-cases (is_empty (retain (is_of_other name) old))) [
      | inl gone ↦
          let (differs, there) = get-remove-some d e list routes (rw gone at found) in
          inr (there, ground (arith, =?_iff d e))
      | inr left ↦
          elim (get-insert_cases d e (retain (is_of_other name) old) list routes
            (rw left at found)) [
              | inl (same, kept) ↦ inl (subst (Without name) kept (retain-Without name old))
              | inr (differs, there) ↦ inr (there, ground (arith, =?_iff d e))
            ]
    ]

get-drop_routes :
    (name : String) (ds : List Text) (e : Text) (routes : Map Text (List TcpMuxRoute))
    (list : List TcpMuxRoute)
    → Map.get e (drop_routes name ds routes) ≡ some list
    → Without name list ⊎ ((Map.get e routes ≡ some list) × (contains e ds ≡ false))
unfolding drop_routes
get-drop_routes name [] e routes list found = inr (found, refl)
get-drop_routes name (d ∷ ds) e routes list found =
    elim (get-drop_routes name ds e (drop_listed name d routes (Map.get d routes)) list found) [
      | inl clean ↦ inl clean
      | inr (there, missing) ↦
          elim (get-drop_listed name d e routes (Map.get d routes) list refl there) [
            | inl clean ↦ inl clean
            | inr (before, differs) ↦ inr (before, rw (differs, missing) refl)
          ]
    ]

-- A route to `name` would be on record.
OnRecord-Without :
    (name : String) (r : TcpMuxRouter) (d : Text) (list : List TcpMuxRoute)
    → ((ds : List Text) → Map.get name r.proxy_domains ≡ some ds → contains d ds ≡ false)
    → All
        (λ (route : TcpMuxRoute).
          (ds : List Text) × (Map.get route.proxy_name r.proxy_domains ≡ some ds)
          × (contains d ds ≡ true))
        list
    → Without name list
OnRecord-Without name r d [] never v = tt
OnRecord-Without name r d (route ∷ rest) never ((ds, known, held), v) = (
  (λ same. ground (arith, never ds (ap (λ n. Map.get n r.proxy_domains) (sym same) ∙ known))),
  OnRecord-Without name r d rest never v,
)

unregister_from-Without :
    (name : String) (r : TcpMuxRouter) (o : Option (List Text)) (d : Text) (list : List TcpMuxRoute)
    → OnRecord r
    → Map.get name r.proxy_domains ≡ o
    → Map.get d (unregister_from r name o).routes ≡ some list
    → Without name list
unregister_from-Without name r none d list v at found =
    OnRecord-Without name r d list (λ ds known. absurd (ground arith)) (v d list found)
unregister_from-Without name r (some domains) d list v at found =
    elim (get-drop_routes name domains d r.routes list found) [
      | inl clean ↦ clean
      | inr (before, missing) ↦
          OnRecord-Without name r d list (λ ds known. ground arith) (v d list before)
    ]

-- After `unregister` no request reaches the proxy any more: no domain has a route that leads to it,
-- provided that every route stood under a domain that is on record for its proxy.
pub unregister-Without :
    (name : String) (r : TcpMuxRouter) (d : Text) (list : List TcpMuxRoute)
    → OnRecord r
    → Map.get d (unregister r name).routes ≡ some list
    → Without name list
unfolding unregister
unregister-Without name r d list v found =
    unregister_from-Without name r (Map.get name r.proxy_domains) d list v refl found
