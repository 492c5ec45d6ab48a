-- ===== src/Server/Groups/Interleaving.antt =====
-- The groups of rust_frp_server/src/proxy_manager.rs when calls of `join` overlap: each is a check and
-- an entry, with other steps between them. The check reads the table of ports alone, which `join` and
-- `leave` change last, so each of these steps is one.
use rust_frp.Common.{
  ℕ, Option, none, some, Bool, true, false, ◌&&◌, ◌||◌, Result, ok, err, String, ◌==◌, ==_iff, ◌≡◌,
  inl, inr, refl, sym, ◌∙◌, subst, List, [], ◌∷◌, All, All-map, arith, Bool-cases, if◌then◌else◌,
}
use rust_frp.Common.Equality.{◌=?◌, =?_iff, nat_eq, string_eq}
use rust_frp.Common.Map.{get-insert_cases, get-remove-some}
use rust_frp.Common.Map
use rust_frp.Server.Groups.{
  GroupState, GroupRegistry, GroupError, join_at, join_check, join_enter, leave, leave_at, without,
  no_members, pick, pick_of,
}
use rust_frp.Server.Groups.Registry.{
  IsConsistent, join_check-ok, join_at-IsConsistent, leave_at-IsConsistent, pick_of-IsConsistent,
}

-- The registry, and the groups and ports of the calls of `join` that have passed their check and
-- have not entered yet.
pub record Joining : Type 0 where
  pub registry : GroupRegistry
  pub asked : List (String × ℕ)

pub data Step : Type 0 where
  checking : String → ℕ → Step
  entering : String → String → ℕ → String → Step
  leaving : ℕ → String → Step
  picking : ℕ → Step

abbrev pub is_asked : String → ℕ → List (String × ℕ) → Bool
is_asked group port [] = false
is_asked group port ((g, p) ∷ rest) = (g =? group && p == port) || is_asked group port rest

-- One call that asked for it has entered.
abbrev pub entered : String → ℕ → List (String × ℕ) → List (String × ℕ)
entered group port [] = []
entered group port ((g, p) ∷ rest) =
    let below = entered group port rest in if g =? group && p == port then rest else (g, p) ∷ below

abbrev pub asks : Joining → String → ℕ → Result GroupError (Unit {0}) → Joining
asks s group port (err e) = s
asks s group port (ok tt) = record s { asked = (group, port) ∷ s.asked }

unfoldable pub step : Joining → Step → Joining
unfolding leave pick
step s (checking group port) = asks s group port (join_check s.registry group port)
step s (entering group key port name) =
    if is_asked group port s.asked
    then record {
      registry = (join_enter s.registry group key port name).0;
      asked = entered group port s.asked;
    }
    else s
step s (leaving port name) = record s { registry = (leave s.registry port name).0 }
step s (picking port) = record s { registry = (pick s.registry port).0 }

unfoldable pub run_steps : Joining → List Step → Joining
unfolding step
run_steps s [] = s
run_steps s (next ∷ steps) = run_steps (step s next) steps

-- No call of `join` waits with a group for which another one now enters at another port.
abbrev pub Undisputed : Joining → Step → Type 0
Undisputed s (entering group key port name) =
    All (λ ((g, p) : String × ℕ). g ≡ group → p ≡ port) s.asked
Undisputed s others = Unit

abbrev pub Calm : Joining → List Step → Type 0
Calm s [] = Unit
Calm s (next ∷ steps) = Undisputed s next × Calm (step s next) steps

-- What was checked still holds.
abbrev StillFree : GroupRegistry → String × ℕ → Type 0
StillFree r (group, port) = (bound : ℕ) → Map.get group r.group_ports ≡ some bound → bound ≡ port

abbrev AllFree : Joining → Type 0
AllFree s = All (StillFree s.registry) s.asked

is_asked-All :
    (P : String × ℕ → Type 0) (group : String) (port : ℕ) (asked : List (String × ℕ))
    → All P asked
    → is_asked group port asked ≡ true
    → P (group, port)
is_asked-All P group port [] v h = absurd (ground arith)
is_asked-All P group port ((g, p) ∷ rest) (here, below) h =
    elim (Bool-cases (g =? group && p == port)) [
      | inl same ↦
          let same_group : g ≡ group = ground (arith, =?_iff g group) in
          let same_port : p ≡ port = ground (arith, ==_iff p port) in
          subst (λ n. P (group, n)) same_port (subst (λ t. P (t, p)) same_group here)
      | inr other ↦ is_asked-All P group port rest below (rw other at h)
    ]

entered-All :
    (P : String × ℕ → Type 0) (group : String) (port : ℕ) (asked : List (String × ℕ))
    → All P asked
    → All P (entered group port asked)
entered-All P group port [] v = v
entered-All P group port ((g, p) ∷ rest) (here, below) =
    elim (Bool-cases (g =? group && p == port)) [
      | inl same ↦ rw same below
      | inr other ↦ rw other (here, entered-All P group port rest below)
    ]

All-zip :
    {P Q R : String × ℕ → Type 0}
    → ((x : String × ℕ) → P x → Q x → R x)
    → (xs : List (String × ℕ)) → All P xs
    → All Q xs
    → All R xs
All-zip f [] v w = tt
All-zip f (x ∷ xs) (hx, v) (kx, w) = (f x hx kx, All-zip f xs v w)

join_at-StillFree :
    (r : GroupRegistry) (group key : String) (port : ℕ) (name : String) (o : Option GroupState)
    (x : String × ℕ)
    → (x.0 ≡ group → x.1 ≡ port)
    → StillFree r x
    → StillFree (join_at r group key port name o).0 x
join_at-StillFree r group key port name none (g, p) agrees free = λ bound found.
    elim (get-insert_cases group g port bound r.group_ports found) [
      | inl (same, is_port) ↦ sym is_port ∙ sym (agrees (sym same))
      | inr (other, old) ↦ free bound old
    ]
join_at-StillFree r group key port name (some s) x agrees free = ground (arith, free)

leave_at-StillFree :
    (r : GroupRegistry) (port : ℕ) (name : String) (o : Option GroupState) (x : String × ℕ)
    → StillFree r x
    → StillFree (leave_at r port name o).0 x
leave_at-StillFree r port name none x free = free
leave_at-StillFree r port name (some s) (g, p) free =
    elim (Bool-cases (no_members (without name s).members)) [
      | inl gone ↦
          rw gone λ bound found. free bound (get-remove-some s.group g bound r.group_ports found).1
      | inr left ↦ rw left free
    ]

pick_of-StillFree :
    (r : GroupRegistry) (port : ℕ) (o : Option GroupState) (x : String × ℕ)
    → StillFree r x
    → StillFree (pick_of r port o).0 x
pick_of-StillFree r port none x free = free
pick_of-StillFree r port (some s) x free = ground (arith, free)

asks-AllFree :
    (s : Joining) (group : String) (port : ℕ) (checked : Result GroupError (Unit {0}))
    → join_check s.registry group port ≡ checked
    → AllFree s
    → AllFree (asks s group port checked)
asks-AllFree s group port (err e) h v = v
asks-AllFree s group port (ok tt) h v = (λ bound. join_check-ok s.registry group port bound h, v)

asks_registry :
    (s : Joining) (group : String) (port : ℕ) (checked : Result GroupError (Unit {0}))
    → (asks s group port checked).registry ≡ s.registry
asks_registry s group port (err e) = refl
asks_registry s group port (ok tt) = refl

step-Agrees :
    (s : Joining) (next : Step)
    → Undisputed s next
    → IsConsistent s.registry
    → AllFree s
    → IsConsistent (step s next).registry × AllFree (step s next)
unfolding step leave pick
step-Agrees s (checking group port) calm v free = (
  subst IsConsistent (sym (asks_registry s group port (join_check s.registry group port))) v,
  asks-AllFree s group port _ refl free,
)
step-Agrees s (entering group key port name) calm v free =
    elim (Bool-cases (is_asked group port s.asked)) [
      | inl asked ↦
          let o = Map.get port s.registry.groups in
          rw asked (
            join_at-IsConsistent s.registry group key port name o v refl
                (is_asked-All (StillFree s.registry) group port s.asked free asked),
            entered-All _ group port s.asked
                (All-zip (join_at-StillFree s.registry group key port name o) s.asked calm free),
          )
      | inr unasked ↦ rw unasked (v, free)
    ]
step-Agrees s (leaving port name) calm v free = (
  leave_at-IsConsistent s.registry port name _ v refl,
  All-map (leave_at-StillFree s.registry port name _) s.asked free,
)
step-Agrees s (picking port) calm v free = (
  pick_of-IsConsistent s.registry port _ v,
  All-map (pick_of-StillFree s.registry port _) s.asked free,
)

steps-IsConsistent :
    (s : Joining) (steps : List Step)
    → IsConsistent s.registry
    → AllFree s
    → Calm s steps
    → IsConsistent (run_steps s steps).registry
unfolding run_steps
steps-IsConsistent s [] v free calm = v
steps-IsConsistent s (next ∷ steps) v free (undisputed, calm) =
    let (v', free') = step-Agrees s next undisputed v free in
    steps-IsConsistent (step s next) steps v' free' calm

-- The two tables of the registry agree after any steps of `join`, `leave` and `pick`, where other
-- steps may come between the check of a `join` and its entry: a group that is bound to a port has
-- its state there, the state at a port belongs to a group that is bound to it, and no group is
-- empty. This holds if no `join` enters while another one that has passed its check waits with the
-- same group for another port.
pub run_steps-IsConsistent :
    (r : GroupRegistry) (steps : List Step)
    → IsConsistent r
    → Calm (record { registry = r; asked = [] }) steps
    → IsConsistent (run_steps (record { registry = r; asked = [] }) steps).registry
run_steps-IsConsistent r steps v calm =
    steps-IsConsistent (record { registry = r; asked = [] }) steps v tt calm
