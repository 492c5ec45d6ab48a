-- ===== src/Server/Vhost/Lookup.antt =====
-- What `find_proxy_by_host` of rust_frp_server/src/vhost.rs finds.
use rust_frp.Common.{
  ◌-◌, Option, none, some, Bool, true, false, ◌||◌, String, drop, length, ◌≡◌, ◌≢◌, ◌⊎◌, inl, inr,
  refl, ◌∙◌, ap, List, [], ◌∷◌, arith, Bool-cases,
}
use rust_frp.Common.Equality.{◌=?◌, =?_iff, =?_self, string_eq, bytes_eq}
use rust_frp.Common.Text.{Text, ends_with}
use rust_frp.Common.Map.{Map, Distinct, find, get-insert, get-retain-some}
use rust_frp.Common.Map
use rust_frp.Server.Vhost.{
  HttpVhostRouter, add_domains, is_of_other, by_suffix, exact_or_suffix, register_proxy,
  unregister_proxy, find_proxy_by_host,
}

by_suffix-found :
    (host : Text) (entries : List (Text × String)) (name : String)
    → Distinct entries
    → by_suffix host entries ≡ some name
    → (d : Text) × (find d entries ≡ some name) × (ends_with d host ≡ true)
unfolding by_suffix find
by_suffix-found host [] name v h = absurd (ground arith)
by_suffix-found host ((domain, owner) ∷ rest) name (fresh, v) h =
    elim (Bool-cases (ends_with domain host)) [
      | inl fits ↦ (domain, ground (arith, =?_self domain), fits)
      | inr misses ↦
          let (d, found, fits) = by_suffix-found host rest name v (rw misses at h) in
          (d, ground (arith, =?_iff domain d), fits)
    ]

ends_with_self : (s : Text) → ends_with s s ≡ true
unfolding ends_with
ends_with_self s =
    let whole : drop (length s - length s) s ≡ s =
      ap (λ n. drop n s) {x = length s - length s} {y = 0} (omega arith) in
    ground (arith, =?_self s)

exact_or_suffix-found :
    (host : Text) (domains : Map Text String) (o : Option String) (name : String)
    → Map.get host domains ≡ o
    → exact_or_suffix host domains o ≡ some name
    → (d : Text) × (Map.get d domains ≡ some name) × (ends_with d host ≡ true)
unfolding Map.get
exact_or_suffix-found host domains (some owner) name at h = (host, at ∙ h, ends_with_self host)
exact_or_suffix-found host domains none name at h =
    by_suffix-found host domains.entries name domains.distinct h

abbrev pub lists : Text → List Text → Bool
lists d [] = false
lists d (e ∷ es) = (e =? d) || lists d es

get-add_domains :
    (name : String) (ds : List Text) (d : Text) (domains : Map Text String)
    → (lists d ds ≡ true) ⊎ (Map.get d domains ≡ some name)
    → Map.get d (add_domains name ds domains) ≡ some name
unfolding add_domains
get-add_domains name [] d domains (inl listed) = absurd (ground arith)
get-add_domains name [] d domains (inr there) = there
get-add_domains name (e ∷ es) d domains (inr there) =
    get-add_domains name es d (Map.insert e name domains)
      (inr (ground (arith, get-insert e d name domains)))
get-add_domains name (e ∷ es) d domains (inl listed) = elim (Bool-cases (e =? d)) [
  | inl same ↦
      get-add_domains name es d (Map.insert e name domains)
        (inr (ground (arith, get-insert e d name domains)))
  | inr other ↦ get-add_domains name es d (Map.insert e name domains) (inl (rw other at listed))
]

module _ {ℓ} {Config : Type ℓ} where
  -- A proxy is found only through a domain that it is registered for, and that the host ends with.
  pub find_proxy_by_host-found :
      (r : HttpVhostRouter Config) (host : Text) (name : String)
      → find_proxy_by_host r host ≡ some name
      → (d : Text) × (Map.get d r.domain_map ≡ some name) × (ends_with d host ≡ true)
  unfolding find_proxy_by_host
  find_proxy_by_host-found r host name h =
      exact_or_suffix-found host r.domain_map (Map.get host r.domain_map) name refl h

  -- After `unregister_proxy` no host leads to the proxy, by its own name or by a suffix.
  pub find_proxy_by_host-unregister_proxy :
      (r : HttpVhostRouter Config) (host : Text) (name : String)
      → find_proxy_by_host (unregister_proxy r name) host ≢ some name
  unfolding unregister_proxy
  find_proxy_by_host-unregister_proxy r host name h =
      let (d, found, fits) = find_proxy_by_host-found (unregister_proxy r name) host name h in
      let (before, kept) = get-retain-some (is_of_other name) d name r.domain_map found in
      ground (arith, =?_self name)

  -- A domain that was just registered leads to its proxy, whatever was registered for it or for its
  -- suffixes before.
  pub find_proxy_by_host-register_proxy :
      (r : HttpVhostRouter Config) (name : String) (domains : List Text) (config : Config)
      (d : Text)
      → lists d domains ≡ true
      → find_proxy_by_host (register_proxy r name domains config) d ≡ some name
  unfolding find_proxy_by_host register_proxy
  find_proxy_by_host-register_proxy r name domains config d listed =
      rw (get-add_domains name domains d r.domain_map (inl listed)) refl
