-- ===== src/Server/TcpMux/Candidates.antt =====
-- The candidates of `resolve` of rust_frp_server/src/tcpmux.rs, by where they stand in the table.
use rust_frp.Common.{
  ◌-◌, Option, none, some, unwrap_or, true, ◌≡◌, ◌↔◌, inl, inr, refl, sym, ◌∙◌, ap, subst, List, [],
  ◌∷◌, ◌++◌, length, take, drop, length-append, drop-append, take-append-drop, arith, Bool-cases,
}
use rust_frp.Common.Equality.{=?_iff, bytes_eq}
use rust_frp.Common.Text.{Text, ends_with}
use rust_frp.Common.Map
use rust_frp.Common.Members.{get_of_mem, mem_of_get}
use rust_frp.Server.TcpMux.{TcpMuxRoute, TcpMuxRouter, is_empty, by_suffix, candidates}
use mathlib.Core.List.{Memᴰ}
use mathlib.Core.List.Memᴰ
use mathlib.Core.List.Memᴰ.{head, tail}

-- A route that stands in the table and may serve a domain: one of that domain or, if the domain has
-- none, one of a domain that it ends with.
pub data IsCandidate (r : TcpMuxRouter) (domain : Text) (route : TcpMuxRoute) : Type 0 where
  exact :
      (list : List TcpMuxRoute)
      → Map.get domain r.routes ≡ some list
      → Memᴰ route list
      → IsCandidate r domain route
  by_ending :
      (front registered : Text) (list : List TcpMuxRoute)
      → unwrap_or (Map.get domain r.routes) [] ≡ []
      → domain ≡ front ++ registered
      → Map.get registered r.routes ≡ some list
      → Memᴰ route list
      → IsCandidate r domain route

pub is_empty_iff : {A : Type 0} (xs : List A) → (is_empty xs ≡ true) ↔ (xs ≡ [])
is_empty_iff [] = ground arith
is_empty_iff (x ∷ xs) = ground arith

ends_with-append : (front t : Text) → ends_with t (front ++ t) ≡ true
unfolding ends_with
ends_with-append front t =
    let sum = length-append front t in
    let there : drop (length (front ++ t) - length t) (front ++ t) ≡ t =
      ap (λ n. drop n (front ++ t)) (omega (arith, sum)) ∙ drop-append front t in
    let last = (=?_iff (drop (length (front ++ t) - length t) (front ++ t)) t).1 there in
    ground arith

ends_with_iff : (t s : Text) → (ends_with t s ≡ true) ↔ ((front : Text) × (s ≡ front ++ t))
unfolding ends_with
ends_with_iff t s = (
  λ h.
      let n = length s - length t in
      let last : drop n s ≡ t = (=?_iff (drop n s) t).0 (ground arith) in
      (take n s, sym (take-append-drop n s) ∙ ap (λ l. take n s ++ l) last),
  λ (front, same). subst (λ w. ends_with t w ≡ true) (sym same) (ends_with-append front t),
)

by_suffix-member :
    (domain : Text) (entries : List (Text × List TcpMuxRoute)) (route : TcpMuxRoute)
    → Memᴰ route (by_suffix domain entries)
    → (d : Text) × (list : List TcpMuxRoute) × Memᴰ (d, list) entries
      × (ends_with d domain ≡ true)
      × Memᴰ route list
unfolding by_suffix
by_suffix-member domain [] route m = absurd (Memᴰ.not-nil m)
by_suffix-member domain ((d, list) ∷ rest) route m = elim (Bool-cases (ends_with d domain)) [
  | inl fits ↦ elim (Memᴰ.append_cases list (rw fits at m)) [
    | inl here ↦ (d, list, Memᴰ.head refl, fits, here)
    | inr later ↦
        let (d', list', at, fits', there) = by_suffix-member domain rest route later in
        (d', list', Memᴰ.tail at, fits', there)
  ]
  | inr misses ↦
      let (d', list', at, fits', there) = by_suffix-member domain rest route (rw misses at m) in
      (d', list', Memᴰ.tail at, fits', there)
]

member-by_suffix :
    (domain d : Text) (entries : List (Text × List TcpMuxRoute)) (list : List TcpMuxRoute)
    (route : TcpMuxRoute)
    → Memᴰ (d, list) entries
    → ends_with d domain ≡ true
    → Memᴰ route list
    → Memᴰ route (by_suffix domain entries)
unfolding by_suffix
member-by_suffix domain d [] list route at fits m = absurd (Memᴰ.not-nil at)
member-by_suffix domain d ((e, other) ∷ rest) list route (head same) fits m =
    let fits' : ends_with e domain ≡ true =
      subst (λ (t : Text × List TcpMuxRoute). ends_with t.0 domain ≡ true) same fits in
    rw fits' (
      Memᴰ.append_left (by_suffix domain rest)
        (subst (λ (t : Text × List TcpMuxRoute). Memᴰ route t.1) same m))
member-by_suffix domain d ((e, other) ∷ rest) list route (tail at) fits m =
    let below = member-by_suffix domain d rest list route at fits m in
    elim (Bool-cases (ends_with e domain)) [
      | inl too ↦ rw too (Memᴰ.append_right other below)
      | inr misses ↦ rw misses below
    ]

unwrap_or-member :
    {A : Type 0} (o : Option (List A)) (a : A)
    → Memᴰ a (unwrap_or o [])
    → (list : List A) × (o ≡ some list) × Memᴰ a list
unwrap_or-member none a m = absurd (Memᴰ.not-nil m)
unwrap_or-member (some list) a m = (list, refl, m)

-- The candidates of `resolve` are those.
pub candidates-IsCandidate :
    (r : TcpMuxRouter) (domain : Text) (route : TcpMuxRoute)
    → Memᴰ route (candidates r domain)
    → IsCandidate r domain route
candidates-IsCandidate r domain route m =
    elim (Bool-cases (is_empty (unwrap_or (Map.get domain r.routes) []))) [
      | inl nothing ↦
          let (d, list, at, fits, there) =
            by_suffix-member domain r.routes.entries route (rw nothing at m) in
          let (front, same) = (ends_with_iff d domain).0 fits in
          by_ending front d list ((is_empty_iff _).0 nothing) same (get_of_mem d list r.routes at)
            there
      | inr some_left ↦
          let (list, at, there) =
            unwrap_or-member (Map.get domain r.routes) route (rw some_left at m) in
          exact list at there
    ]

pub IsCandidate-candidates :
    (r : TcpMuxRouter) (domain : Text) (route : TcpMuxRoute)
    → IsCandidate r domain route
    → Memᴰ route (candidates r domain)
IsCandidate-candidates r domain route (exact [] at m) = absurd (Memᴰ.not-nil m)
IsCandidate-candidates r domain route (exact (x ∷ list) at m) = rw at m
IsCandidate-candidates r domain route (by_ending front d list nothing same at m) = rw nothing (
    member-by_suffix domain d r.routes.entries list route (mem_of_get d list r.routes at)
      ((ends_with_iff d domain).1 (front, same)) m)
