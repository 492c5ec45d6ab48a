-- ===== src/Server/Groups/Registry.antt =====
-- The two tables of the groups in rust_frp_server/src/proxy_manager.rs agree: a group has one port and a
-- port one group.
use rust_frp.Common.{
  ℕ, Option, none, some, false, Result, ok, err, String, ==_iff, ◌≡◌, inl, inr, refl, sym, ◌∙◌, ap,
  List, [], ◌∷◌, ◌++◌, arith, Option-cases, Bool-cases,
}
use rust_frp.Common.Equality.{◌=?◌, =?_iff, nat_eq, string_eq}
use rust_frp.Common.Map.{
  Map, get-insert, get-insert_cases, get-remove, get-remove-some, get-modify, get-insert_self,
}
use rust_frp.Common.Map
use rust_frp.Server.Groups.{
  GroupState, GroupRegistry, add_member, GroupError, join_at, join_check, join_checked, join,
  without, no_members, leave_at, leave, advance, pick_of, pick,
}

-- The port of a group is where its state is, and the state at a port has a member and a group whose
-- port that is.
pub record IsConsistent (r : GroupRegistry) : Type 0 where
  pub bound :
      (port : ℕ) (s : GroupState)
      → Map.get port r.groups ≡ some s
      → (Map.get s.group r.group_ports ≡ some port) × (no_members s.members ≡ false)
  pub held :
      (group : String) (port : ℕ)
      → Map.get group r.group_ports ≡ some port
      → (s : GroupState) × (Map.get port r.groups ≡ some s) × (s.group ≡ group)

-- A state changes, but neither its group nor that it has members.
modify-IsConsistent :
    (r : GroupRegistry) (port : ℕ) (f : GroupState → GroupState)
    → IsConsistent r
    → ((s : GroupState) → (f s).group ≡ s.group)
    → ((s : GroupState) → Map.get port r.groups ≡ some s → no_members (f s).members ≡ false)
    → IsConsistent (record r { groups = Map.modify port f r.groups })
modify-IsConsistent r port f v same_group kept = record {
  bound = λ p s found. elim (Bool-cases (port =? p)) [
    | inl here ↦ elim (Option-cases (Map.get p r.groups)) [
      | inl missing ↦ absurd (ground (arith, get-modify port p f r.groups))
      | inr (old, at) ↦
          let is_new : f old ≡ s = ground (arith, get-modify port p f r.groups) in
          (
            ap (λ (t : GroupState). Map.get t.group r.group_ports) (sym is_new)
                ∙ ap (λ g. Map.get g r.group_ports) (same_group old)
                ∙ (v.bound p old at).0,
            ap (λ (t : GroupState). no_members t.members) (sym is_new)
                ∙ kept old (ground (arith, =?_iff port p)),
          )
    ]
    | inr other ↦ v.bound p s (ground (arith, get-modify port p f r.groups))
  ];
  held = λ group p found.
      let (s, at, is_group) = v.held group p found in
      elim (Bool-cases (port =? p)) [
        | inl here ↦ (f s, ground (arith, get-modify port p f r.groups), same_group s ∙ is_group)
        | inr other ↦ (s, ground (arith, get-modify port p f r.groups), is_group)
      ];
}

no_members-append : (ms : List String) (name : String) → no_members (ms ++ name ∷ []) ≡ false
no_members-append [] name = refl
no_members-append (m ∷ ms) name = refl

-- A new group at a free port, for a group that has no other.
first-IsConsistent :
    (r : GroupRegistry) (port : ℕ) (s : GroupState)
    → IsConsistent r
    → no_members s.members ≡ false
    → Map.get port r.groups ≡ none
    → ((p : ℕ) → Map.get s.group r.group_ports ≡ some p → p ≡ port)
    → IsConsistent (record {
      groups = Map.insert port s r.groups;
      group_ports = Map.insert s.group port r.group_ports;
    })
first-IsConsistent r port s v full free only = record {
  bound = λ p t found. elim (get-insert_cases port p s t r.groups found) [
    | inl (here, is_new) ↦ ground (arith, get-insert_self s.group port r.group_ports)
    | inr (other, old) ↦ ground (
      arith,
      =?_iff s.group t.group,
      get-insert s.group t.group port r.group_ports,
      v.bound p t old,
      only p,
    )
  ];
  held = λ group p found. elim (get-insert_cases s.group group port p r.group_ports found) [
    | inl (is_group, here) ↦ (s, ground (arith, get-insert_self port s r.groups), is_group)
    | inr (other, old) ↦
        let (t, at, is_group) = v.held group p old in
        (t, ground (arith, =?_iff port p, get-insert port p s r.groups), is_group)
  ];
}

-- The last member is gone, and its group with it.
last-IsConsistent :
    (r : GroupRegistry) (port : ℕ) (s : GroupState)
    → IsConsistent r
    → Map.get port r.groups ≡ some s
    → IsConsistent (record {
      groups = Map.remove port r.groups;
      group_ports = Map.remove s.group r.group_ports;
    })
last-IsConsistent r port s v here = record {
  bound = λ p t found.
      let (other, old) = get-remove-some port p t r.groups found in
      ground (
        arith,
        =?_iff s.group t.group,
        get-remove s.group t.group r.group_ports,
        v.bound p t old,
        v.bound port s here,
      );
  held = λ group p found.
      let (other, old) = get-remove-some s.group group p r.group_ports found in
      let (t, at, is_group) = v.held group p old in
      (t, ground (arith, =?_iff port p, get-remove port p r.groups), is_group);
}

pub join_at-IsConsistent :
    (r : GroupRegistry) (group key : String) (port : ℕ) (name : String) (o : Option GroupState)
    → IsConsistent r
    → Map.get port r.groups ≡ o
    → ((p : ℕ) → Map.get group r.group_ports ≡ some p → p ≡ port)
    → IsConsistent (join_at r group key port name o).0
join_at-IsConsistent r group key port name none v at only =
    first-IsConsistent r port
      (record { group = group; group_key = key; members = name ∷ []; rr_index = 0 }) v refl at only
join_at-IsConsistent r group key port name (some s) v at only =
    let joined =
      modify-IsConsistent r port (add_member name) v (λ t. refl)
        λ t found. no_members-append t.members name in
    ground (arith, joined)

-- A check that passes finds the group unbound or bound to the port.
pub join_check-ok :
    (r : GroupRegistry) (group : String) (port bound : ℕ)
    → join_check r group port ≡ ok tt
    → Map.get group r.group_ports ≡ some bound
    → bound ≡ port
join_check-ok r group port bound h found = ground (arith, ==_iff bound port)

join_checked-IsConsistent :
    (r : GroupRegistry) (group key : String) (port : ℕ) (name : String)
    (checked : Result GroupError (Unit {0}))
    → IsConsistent r
    → join_check r group port ≡ checked
    → IsConsistent (join_checked r group key port name checked).0
join_checked-IsConsistent r group key port name (err e) v h = v
join_checked-IsConsistent r group key port name (ok tt) v h =
    join_at-IsConsistent r group key port name _ v refl λ p. join_check-ok r group port p h

pub leave_at-IsConsistent :
    (r : GroupRegistry) (port : ℕ) (name : String) (o : Option GroupState)
    → IsConsistent r
    → Map.get port r.groups ≡ o
    → IsConsistent (leave_at r port name o).0
leave_at-IsConsistent r port name none v at = v
leave_at-IsConsistent r port name (some s) v at =
    elim (Bool-cases (no_members (without name s).members)) [
      | inl gone ↦ rw gone (last-IsConsistent r port s v at)
      | inr left ↦
          rw left (modify-IsConsistent r port (without name) v (λ t. refl) λ t found. ground arith)
    ]

pub pick_of-IsConsistent :
    (r : GroupRegistry) (port : ℕ) (o : Option GroupState)
    → IsConsistent r
    → IsConsistent (pick_of r port o).0
pick_of-IsConsistent r port none v = v
pick_of-IsConsistent r port (some s) v =
    let picked =
      modify-IsConsistent r port advance v (λ t. refl) λ t found. (v.bound port t found).1 in
    ground (arith, picked)

-- The calls that change the registry.
pub data Call : Type 0 where
  joins : String → String → ℕ → String → Call
  leaves : ℕ → String → Call
  picks : ℕ → Call

unfoldable pub run : GroupRegistry → List Call → GroupRegistry
unfolding join leave pick
run r [] = r
run r (joins group key port name ∷ calls) = run (join r group key port name).0 calls
run r (leaves port name ∷ calls) = run (leave r port name).0 calls
run r (picks port ∷ calls) = run (pick r port).0 calls

-- The two tables of the registry agree after any calls of `join`, `leave` and `pick`, one after the
-- other, whether they succeed or not: a group that is bound to a port has its state there, the
-- state at a port belongs to a group that is bound to it, and no group is empty.
pub run-IsConsistent :
    (r : GroupRegistry) (calls : List Call) → IsConsistent r → IsConsistent (run r calls)
unfolding run join leave pick
run-IsConsistent r [] v = v
run-IsConsistent r (joins group key port name ∷ calls) v =
    run-IsConsistent (join r group key port name).0 calls
      (join_checked-IsConsistent r group key port name _ v refl)
run-IsConsistent r (leaves port name ∷ calls) v =
    run-IsConsistent (leave r port name).0 calls (leave_at-IsConsistent r port name _ v refl)
run-IsConsistent r (picks port ∷ calls) v =
    run-IsConsistent (pick r port).0 calls (pick_of-IsConsistent r port _ v)
