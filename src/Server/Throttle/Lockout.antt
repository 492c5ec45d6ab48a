-- ===== src/Server/Throttle/Lockout.antt =====
-- How long a lock of rust_frp_server/src/login_throttle.rs lasts, and what sets it.
use rust_frp.Common.{
  ℕ, ◌+◌, ◌-◌, ◌≤◌, ◌<◌, some, err, unwrap_or, ◌≡◌, ◌≢◌, ◌∙◌, ap, subst, inl, inr, List, [], ◌∷◌,
  arith, Option-cases, Bool-cases,
}
use rust_frp.Common.Equality.{◌=?◌, =?_iff}
use rust_frp.Common.Map.{
  get-insert, get-insert_self, get-insert_cases, get-remove, get-remove_ne, get-remove-some,
  get-retain,
}
use rust_frp.Common.Map
use rust_frp.Server.Throttle.{
  ThrottleKey, key_eq, Entry, LoginThrottle, survives, check, prune, bump, fresh, record_failure,
  record_success, Call, fails, succeeds, checks, step, run,
}

-- What holds of an entry at time `clock`: its failure is past, and its lock ends in time.
abbrev pub IsTimely : LoginThrottle → ℕ → Entry → Type 0
IsTimely t clock e =
    (e.last_failure ≤ clock)
    × ((until : ℕ) → e.locked_until ≡ some until → until ≤ e.last_failure + t.lockout)

pub record IsSound (t : LoginThrottle) (clock : ℕ) : Type 0 where
  pub window_covers : t.lockout ≤ t.window
  pub timely : (k : ThrottleKey) (e : Entry) → Map.get k t.state ≡ some e → IsTimely t clock e

-- `k` is locked until `until` at least.
abbrev pub LockedFor : LoginThrottle → ThrottleKey → ℕ → Type 0
LockedFor t k until =
    (e : Entry) × (u : ℕ) × (Map.get k t.state ≡ some e) × (e.locked_until ≡ some u) × (until ≤ u)

-- The pruning keeps every entry whose lock is still running, as it is.
get-prune_locked :
    (t : LoginThrottle) (now : ℕ) (k : ThrottleKey) (e : Entry) (u : ℕ)
    → IsSound t now
    → Map.get k t.state ≡ some e
    → e.locked_until ≡ some u
    → now < u
    → Map.get k (prune t now) ≡ some e
unfolding prune survives
get-prune_locked t now k e u s found locked later = ground (
  arith,
  get-retain (survives t now) k t.state,
  s.window_covers,
  (s.timely k e found).0,
  (s.timely k e found).1 u,
)

get-prune-some :
    (t : LoginThrottle) (now : ℕ) (k : ThrottleKey) (e : Entry)
    → Map.get k (prune t now) ≡ some e
    → Map.get k t.state ≡ some e
unfolding prune
get-prune-some t now k e found = ground (arith, get-retain (survives t now) k t.state)

bump-IsTimely :
    (t : LoginThrottle) (now : ℕ) (e : Entry) → IsTimely t now e → IsTimely t now (bump t now e)
unfolding bump
bump-IsTimely t now e h = (omega arith, λ until locked. ground (arith, h.1 until))

base-IsTimely :
    (t : LoginThrottle) (key : ThrottleKey) (now : ℕ)
    → IsSound t now
    → IsTimely t now (unwrap_or (Map.get key (prune t now)) (fresh now))
base-IsTimely t key now s = elim (Option-cases (Map.get key (prune t now))) [
  | inl missing ↦ rw missing (omega arith, λ until locked. cc)
  | inr (e, found) ↦ rw found (s.timely key e (get-prune-some t now key e found))
]

pub record_failure-IsSound :
    (t : LoginThrottle) (key : ThrottleKey) (now : ℕ)
    → IsSound t now
    → IsSound (record_failure t key now).0 now
unfolding record_failure
record_failure-IsSound t key now s = record {
  window_covers = s.window_covers;
  timely = λ k e found. elim (get-insert_cases key k _ e (prune t now) found) [
    | inl (same, new) ↦
        subst (IsTimely t now) new (bump-IsTimely t now _ (base-IsTimely t key now s))
    | inr (other, old) ↦ s.timely k e (get-prune-some t now k e old)
  ];
}

remove-IsSound :
    (t : LoginThrottle) (key : ThrottleKey) (now : ℕ)
    → IsSound t now
    → IsSound (record t { state = Map.remove key t.state }) now
remove-IsSound t key now s = record {
  window_covers = s.window_covers;
  timely = λ k e found. s.timely k e (get-remove-some key k e t.state found).1;
}

check-IsSound :
    (t : LoginThrottle) (key : ThrottleKey) (now : ℕ)
    → IsSound t now
    → IsSound (check t key now).0 now
unfolding check
check-IsSound t key now s = ground (arith, remove-IsSound t key now s)

-- Time passes.
IsSound-later : (t : LoginThrottle) (c now : ℕ) → c ≤ now → IsSound t c → IsSound t now
IsSound-later t c now h s = record {
  window_covers = s.window_covers;
  timely = λ k e found. (omega (arith, (s.timely k e found).0), (s.timely k e found).1);
}

step-IsSound : (t : LoginThrottle) (now : ℕ) (c : Call) → IsSound t now → IsSound (step t now c) now
unfolding step record_success
step-IsSound t now (fails key) s = record_failure-IsSound t key now s
step-IsSound t now (succeeds key) s = remove-IsSound t key now s
step-IsSound t now (checks key) s = check-IsSound t key now s

-- A further failure prolongs a lock or leaves it.
bump-locked :
    (t : LoginThrottle) (now until u : ℕ) (e : Entry)
    → IsTimely t now e
    → e.locked_until ≡ some u
    → until ≤ u
    → (u' : ℕ) × ((bump t now e).locked_until ≡ some u') × (until ≤ u')
unfolding bump
bump-locked t now until u e h locked enough =
    (unwrap_or (bump t now e).locked_until 0, ground (arith, h.1 u), ground (arith, h.1 u))

record_failure-LockedFor :
    (t : LoginThrottle) (key k : ThrottleKey) (now until : ℕ)
    → IsSound t now
    → now < until
    → LockedFor t k until
    → LockedFor (record_failure t key now).0 k until
unfolding record_failure
record_failure-LockedFor t key k now until s later (e, u, found, locked, enough) =
    let kept = get-prune_locked t now k e u s found locked (omega arith) in
    elim (Bool-cases (key =? k)) [
      | inl same ↦
          let (u', locked', enough') =
            bump-locked t now until u e (s.timely k e found) locked enough in
          (
            bump t now e,
            u',
            ground (arith, =?_iff key k, kept, get-insert_self k (bump t now e) (prune t now)),
            locked',
            enough',
          )
      | inr other ↦ (
        e,
        u,
        ground (
          arith,
          kept,
          get-insert key k (bump t now (unwrap_or (Map.get key (prune t now)) (fresh now)))
              (prune t now),
        ),
        locked,
        enough,
      )
    ]

-- A check of a locked key refuses, and tells the time left.
check_locked :
    (t : LoginThrottle) (k : ThrottleKey) (now until : ℕ)
    → now < until
    → LockedFor t k until
    → (u : ℕ) × (until ≤ u) × (check t k now ≡ (t, err (u - now)))
unfolding check
check_locked t k now until later (e, u, found, locked, enough) =
    (u, enough, rw found (ground arith))

check-LockedFor :
    (t : LoginThrottle) (key k : ThrottleKey) (now until : ℕ)
    → now < until
    → LockedFor t k until
    → LockedFor (check t key now).0 k until
unfolding check
check-LockedFor t key k now until later (e, u, found, locked, enough) =
    (e, u, ground (arith, get-remove key k t.state, =?_iff key k), locked, enough)

step-LockedFor :
    (t : LoginThrottle) (k : ThrottleKey) (now until : ℕ) (c : Call)
    → IsSound t now
    → now < until
    → c ≢ succeeds k
    → LockedFor t k until
    → LockedFor (step t now c) k until
unfolding step record_success
step-LockedFor t k now until (fails key) s later other lock =
    record_failure-LockedFor t key k now until s later lock
step-LockedFor t k now until (succeeds key) s later other (e, u, found, locked, enough) =
    (e, u, get-remove_ne key k t.state (λ same. other (ap succeeds same)) ∙ found, locked, enough)
step-LockedFor t k now until (checks key) s later other lock =
    check-LockedFor t key k now until later lock

-- The calls' times ascend from `clock` and lie before `until`, and no login succeeds under `k`.
abbrev pub AreBefore : ℕ → ℕ → ThrottleKey → List (ℕ × Call) → Type 0
AreBefore clock until k [] = Unit
AreBefore clock until k ((now, c) ∷ rest) =
    (clock ≤ now) × (now < until) × (c ≢ succeeds k) × AreBefore now until k rest

run-LockedFor :
    (t : LoginThrottle) (k : ThrottleKey) (clock until : ℕ) (calls : List (ℕ × Call))
    → IsSound t clock
    → AreBefore clock until k calls
    → LockedFor t k until
    → LockedFor (run t calls) k until
unfolding run
run-LockedFor t k clock until [] s h lock = lock
run-LockedFor t k clock until ((now, c) ∷ rest) s (ascends, early, other, h) lock =
    let sound = IsSound-later t clock now ascends s in
    run-LockedFor (step t now c) k now until rest (step-IsSound t now c sound) h
      (step-LockedFor t k now until c sound early other lock)

-- A key whose lock runs until `until` stays locked through any further calls before that time,
-- on any keys and with any pruning, as long as no login succeeds under it: a check before `until`
-- changes nothing and is refused, with at least the time to `until` left.
pub check-run_locked :
    (t : LoginThrottle) (k : ThrottleKey) (clock until now : ℕ) (calls : List (ℕ × Call))
    → IsSound t clock
    → LockedFor t k until
    → AreBefore clock until k calls
    → now < until
    → (u : ℕ) × (until ≤ u) × (check (run t calls) k now ≡ (run t calls, err (u - now)))
check-run_locked t k clock until now calls s lock h later =
    check_locked (run t calls) k now until later (run-LockedFor t k clock until calls s h lock)
