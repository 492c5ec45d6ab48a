-- ===== src/Server/Groups/Rotation.antt =====
-- The round robin of `GroupRegistry::pick` in rust_frp_server/src/proxy_manager.rs.
use rust_frp.Common.{
  ℕ, zero, suc, ◌+◌, ◌-◌, ◌%◌, ◌^◌, ◌≤◌, ◌<◌, some, false, String, leb, ◌≡◌, inl, inr, refl, sym,
  ◌∙◌, ap, length, get_elem?, arith, Bool-cases,
}
use native.Mathlib.Nat.{mod-add-mod, mod-lt, mod-eq_of_lt, add-mod_right}
use rust_frp.Common.Equality.{nat_eq}
use rust_frp.Common.Map.{Map, get-modify_self, map_option}
use rust_frp.Common.Map
use rust_frp.Server.Groups.{GroupState, GroupRegistry, no_members, advance, pick}

-- The registry after `n` picks at one port.
unfoldable pub after_picks : ℕ → ℕ → GroupRegistry → GroupRegistry
after_picks zero port r = r
after_picks (suc n) port r = after_picks n port (pick r port).0

pick-some :
    (r : GroupRegistry) (port : ℕ) (s : GroupState)
    → Map.get port r.groups ≡ some s
    → no_members s.members ≡ false
    → pick r port ≡ (
      record r { groups = Map.modify port advance r.groups },
      get_elem? s.members (s.rr_index % length s.members),
    )
unfolding pick
pick-some r port s at full = rw (at, full) refl

pick-after_picks :
    (n : ℕ) (r : GroupRegistry) (port : ℕ) (s : GroupState)
    → Map.get port r.groups ≡ some s
    → no_members s.members ≡ false
    → s.rr_index + n < 2 ^ 64
    → (pick (after_picks n port r) port).1
      ≡ get_elem? s.members ((s.rr_index + n) % length s.members)
unfolding after_picks
pick-after_picks zero r port s at full small =
    let same : s.rr_index ≡ s.rr_index + 0 = omega arith in
    rw (pick-some r port s at full) (ap (λ i. get_elem? s.members (i % length s.members)) same)
pick-after_picks (suc n) r port s at full small =
    let next : (s.rr_index + 1) % 2 ^ 64 ≡ s.rr_index + 1 = omega arith in
    let total : (s.rr_index + 1) % 2 ^ 64 + n ≡ s.rr_index + suc n = omega arith in
    rw (pick-some r port s at full) (
      pick-after_picks n (record r { groups = Map.modify port advance r.groups }) port (advance s)
        (get-modify_self port advance r.groups ∙ ap (map_option advance) at) full (omega arith)
      ∙ ap (λ i. get_elem? s.members (i % length s.members)) total)

-- Every place of the round comes up within one round.
round_reaches : (start len i : ℕ) → i < len → (k : ℕ) × (k < len) × ((start + k) % len ≡ i)
round_reaches start len i below =
    let q = start % len in
    let q_below : q < len = mod-lt start (omega arith) in
    elim (Bool-cases (leb q i)) [
      | inl later ↦ (
        i - q,
        omega arith,
        sym (mod-add-mod start len (i - q)) ∙ ap (λ n. n % len) (ground arith) ∙ mod-eq_of_lt below,
      )
      | inr earlier ↦ (
        i + len - q,
        ground arith,
        sym (mod-add-mod start len (i + len - q))
            ∙ ap (λ n. n % len) (ground arith)
            ∙ add-mod_right i len
            ∙ mod-eq_of_lt below,
      )
    ]

-- Nobody is passed over: in any round of as many picks as the group has members, every member is
-- picked, wherever the rotation stands when the round begins, as long as its counter does not
-- wrap around at 2^64 meanwhile.
pub pick-every_member :
    (r : GroupRegistry) (port : ℕ) (s : GroupState) (i : ℕ) (name : String)
    → Map.get port r.groups ≡ some s
    → no_members s.members ≡ false
    → s.rr_index + length s.members ≤ 2 ^ 64
    → i < length s.members
    → get_elem? s.members i ≡ some name
    → (k : ℕ) × (k < length s.members) × ((pick (after_picks k port r) port).1 ≡ some name)
pick-every_member r port s i name at full small below here =
    let (k, in_round, reaches) = round_reaches s.rr_index (length s.members) i below in
    (
      k,
      in_round,
      pick-after_picks k r port s at full (omega arith) ∙ ap (get_elem? s.members) reaches ∙ here,
    )
