-- ===== src/Server/Groups.antt =====
-- The groups of rust_frp_server/src/proxy_manager.rs (`GroupRegistry`): TCP proxies that share one port.
pub mod Registry
pub mod Interleaving
pub mod Rotation
mod Runs
use rust_frp.Common.{
  ℕ, ◌+◌, ◌%◌, ◌^◌, Option, none, some, Bool, true, false, not, Result, ok, err, String, ◌==◌, List,
  [], ◌∷◌, ◌++◌, length, get_elem?, retain, if◌then◌else◌,
}
use rust_frp.Common.Equality.{◌=?◌, nat_eq, string_eq}
use rust_frp.Common.Map.{Map}
use rust_frp.Common.Map

pub data GroupError : Type 0 where
  bound_to_other_port : ℕ → GroupError
  port_of_other_group : String → GroupError
  key_mismatch : GroupError

pub record GroupState : Type 0 where
  pub group : String
  pub group_key : String
  pub members : List String
  pub rr_index : ℕ

pub record GroupRegistry : Type 0 where
  pub groups : Map ℕ GroupState
  pub group_ports : Map String ℕ

unfoldable pub new : GroupRegistry
new = record { groups = Map.empty; group_ports = Map.empty }

abbrev pub add_member : String → GroupState → GroupState
add_member name s = record s { members = s.members ++ name ∷ [] }

-- The match of `join` on the state at the port; the answer is whether the proxy is the first member.
abbrev pub join_at :
    GroupRegistry
    → String
    → String
    → ℕ
    → String
    → Option GroupState
    → GroupRegistry × Result GroupError Bool
join_at r group key port name none = (
  record {
    groups =
        Map.insert port
          (record { group = group; group_key = key; members = name ∷ []; rr_index = 0 }) r.groups;
    group_ports = Map.insert group port r.group_ports;
  },
  ok true,
)
join_at r group key port name (some s) =
    if not (s.group =? group)
    then (r, err (port_of_other_group s.group))
    else if not (s.group_key =? key)
    then (r, err key_mismatch)
    else (record r { groups = Map.modify port (add_member name) r.groups }, ok false)

-- The first half of `join`: whether the group is bound to another port.
abbrev pub check_bound : ℕ → Option ℕ → Result GroupError (Unit {0})
check_bound port none = ok tt
check_bound port (some bound) = if bound == port then ok tt else err (bound_to_other_port bound)

abbrev pub join_check : GroupRegistry → String → ℕ → Result GroupError (Unit {0})
join_check r group port = check_bound port (Map.get group r.group_ports)

-- The second half, which takes its own locks: other calls may come before it.
abbrev pub join_enter :
    GroupRegistry → String → String → ℕ → String → GroupRegistry × Result GroupError Bool
join_enter r group key port name = join_at r group key port name (Map.get port r.groups)

abbrev pub join_checked :
    GroupRegistry
    → String
    → String
    → ℕ
    → String
    → Result GroupError (Unit {0})
    → GroupRegistry × Result GroupError Bool
join_checked r group key port name (err e) = (r, err e)
join_checked r group key port name (ok tt) = join_enter r group key port name

-- Both halves, with no other call between them.
unfoldable pub join :
    GroupRegistry → String → String → ℕ → String → GroupRegistry × Result GroupError Bool
join r group key port name = join_checked r group key port name (join_check r group port)

abbrev pub without : String → GroupState → GroupState
without name s = record s { members = retain (λ m. not (m =? name)) s.members }

abbrev pub no_members : List String → Bool
no_members [] = true
no_members (m ∷ ms) = false

abbrev pub leave_at : GroupRegistry → ℕ → String → Option GroupState → GroupRegistry × Bool
leave_at r port name none = (r, false)
leave_at r port name (some s) =
    if no_members (without name s).members
    then (
      record { groups = Map.remove port r.groups; group_ports = Map.remove s.group r.group_ports },
      true,
    )
    else (record r { groups = Map.modify port (without name) r.groups }, false)

-- Whether the group is now gone.
unfoldable pub leave : GroupRegistry → ℕ → String → GroupRegistry × Bool
leave r port name = leave_at r port name (Map.get port r.groups)

abbrev pub advance : GroupState → GroupState
advance s = record s { rr_index = (s.rr_index + 1) % 2 ^ 64 }

abbrev pub pick_of : GroupRegistry → ℕ → Option GroupState → GroupRegistry × Option String
pick_of r port none = (r, none)
pick_of r port (some s) = if no_members s.members then (r, none) else (
  record r { groups = Map.modify port advance r.groups },
  get_elem? s.members (s.rr_index % length s.members),
)

unfoldable pub pick : GroupRegistry → ℕ → GroupRegistry × Option String
pick r port = pick_of r port (Map.get port r.groups)

abbrev pub member_count : GroupRegistry → ℕ → ℕ
member_count r port = elim (Map.get port r.groups) [ none ↦ 0 | some s ↦ length s.members ]
