-- ===== src/Server/Throttle/Prune.antt =====
-- Counting in rust_frp_server/src/login_throttle.rs: what a failure adds, which keys it touches, and
-- what the pruning of a full table does to the counts.
use rust_frp.Common.{
  ℕ, ◌+◌, ◌-◌, ◌≤◌, ◌<◌, min, none, some, err, ◌≡◌, ◌≢◌, refl, subst, List, [], ◌∷◌, length, arith,
}
use rust_frp.Common.Map.{get-insert_self, get-insert_ne, get-retain, size-insert, count_option}
use rust_frp.Common.Map
use rust_frp.Server.Throttle.{
  ThrottleKey, key_eq, Entry, LoginThrottle, max_entries, u32_max, survives, is_locked, check,
  prune, bump, fresh, record_failure,
}

-- A table below its limit is not pruned.
prune_small : (t : LoginThrottle) (now : ℕ) → Map.size t.state < max_entries → prune t now ≡ t.state
unfolding prune
prune_small t now small = ground arith

-- As long as the table is below its limit, a failure under one key leaves the entry of any other.
pub get-record_failure_ne :
    (t : LoginThrottle) (key k : ThrottleKey) (now : ℕ)
    → Map.size t.state < max_entries
    → key ≢ k
    → Map.get k (record_failure t key now).0.state ≡ Map.get k t.state
unfolding record_failure
get-record_failure_ne t key k now small other =
    rw (prune_small t now small) (get-insert_ne key k _ t.state other)

-- Failures under one key, at the given times, with nothing else between them.
abbrev pub fail_all : LoginThrottle → ThrottleKey → List ℕ → LoginThrottle
fail_all t key [] = t
fail_all t key (now ∷ times) = fail_all (record_failure t key now).0 key times

-- The times ascend from `last` by at most `window` each.
abbrev pub AreClose : ℕ → ℕ → List ℕ → Type 0
AreClose window last [] = Unit
AreClose window last (now ∷ times) =
    (last ≤ now) × (now ≤ last + window) × AreClose window now times

abbrev pub last_of : ℕ → List ℕ → ℕ
last_of last [] = last
last_of last (now ∷ times) = last_of now times

-- After `n` counted failures, the last at time `last`: a count that reached the limit has locked.
abbrev Counts : LoginThrottle → ThrottleKey → ℕ → ℕ → Type 0
Counts t key n last =
    (e : Entry) × (Map.get key t.state ≡ some e)
    × (min n u32_max ≤ e.failures)
    × (e.last_failure ≡ last)
    × (t.max_failures ≤ n → e.locked_until ≡ some (last + t.lockout))

first-Counts :
    (t : LoginThrottle) (key : ThrottleKey) (now : ℕ)
    → Map.size t.state < max_entries
    → Map.get key t.state ≡ none
    → Counts (record_failure t key now).0 key 1 now
unfolding record_failure bump
first-Counts t key now small missing = (
  bump t now (fresh now),
  rw (prune_small t now small, missing) (get-insert_self key _ t.state),
  omega arith,
  refl,
  λ reached. ground arith,
)

next-Counts :
    (t : LoginThrottle) (key : ThrottleKey) (n last now : ℕ)
    → Map.size t.state < max_entries
    → t.max_failures ≤ u32_max
    → last ≤ now
    → now ≤ last + t.window
    → Counts t key n last
    → Counts (record_failure t key now).0 key (n + 1) now
unfolding record_failure bump
next-Counts t key n last now small fits ascends close (e, found, count, when, locked) = (
  bump t now e,
  rw (prune_small t now small, found) (get-insert_self key _ t.state),
  ground arith,
  refl,
  λ reached. ground arith,
)

-- A failure under a key that is in the table adds no entry.
size-record_failure :
    (t : LoginThrottle) (key : ThrottleKey) (now : ℕ)
    → Map.size t.state < max_entries
    → (Map.size (record_failure t key now).0.state + count_option (Map.get key t.state)
        ≡ Map.size t.state + 1)
unfolding record_failure
size-record_failure t key now small = rw (prune_small t now small) (size-insert key _ t.state)

fail_all-Counts :
    (t : LoginThrottle) (key : ThrottleKey) (n total last : ℕ) (times : List ℕ)
    → total ≡ n + length times
    → Map.size t.state < max_entries
    → t.max_failures ≤ u32_max
    → AreClose t.window last times
    → Counts t key n last
    → Counts (fail_all t key times) key total (last_of last times)
fail_all-Counts t key n total last [] sum small fits close c =
    let same : n ≡ total = omega arith in subst (λ m. Counts t key m last) same c
fail_all-Counts t key n total last (now ∷ times) sum small fits (ascends, near, close) c =
    fail_all-Counts (record_failure t key now).0 key (n + 1) total now times (omega arith)
      (ground (arith, size-record_failure t key now, c.1)) (unfold record_failure in fits)
      (unfold record_failure in close) (next-Counts t key n last now small fits ascends near c)

fail_all_config :
    (t : LoginThrottle) (key : ThrottleKey) (times : List ℕ)
    → ((fail_all t key times).max_failures ≡ t.max_failures)
      × ((fail_all t key times).lockout ≡ t.lockout)
unfolding record_failure
fail_all_config t key [] = (refl, refl)
fail_all_config t key (now ∷ times) = fail_all_config (record_failure t key now).0 key times

check_refuses :
    (t : LoginThrottle) (key : ThrottleKey) (now u : ℕ) (e : Entry)
    → Map.get key t.state ≡ some e
    → e.locked_until ≡ some u
    → now < u
    → (check t key now).1 ≡ err (u - now)
unfolding check
check_refuses t key now u e found locked early = rw found (ground arith)

-- A key that has no entry, in a table with room for it, is locked by `max_failures` failures that
-- follow one another within the window: then a check is refused until the lockout after the last
-- failure has passed, and is told the time that is left.
pub check-fail_all :
    (t : LoginThrottle) (key : ThrottleKey) (first now : ℕ) (times : List ℕ)
    → Map.size t.state + 1 < max_entries
    → Map.get key t.state ≡ none
    → t.max_failures ≤ u32_max
    → t.max_failures ≤ length (first ∷ times)
    → AreClose t.window first times
    → now < last_of first times + t.lockout
    → (check (fail_all t key (first ∷ times)) key now).1
      ≡ err (last_of first times + t.lockout - now)
check-fail_all t key first now times small missing fits enough close early =
    let u : LoginThrottle = (record_failure t key first).0 in
    let (e, found, count, when, locked) =
      fail_all-Counts u key 1 (1 + length times) first times refl
        (ground (arith, size-record_failure t key first)) (unfold record_failure in fits)
        (unfold record_failure in close) (first-Counts t key first (omega arith) missing) in
    let (same_max, same_lockout) = fail_all_config t key (first ∷ times) in
    check_refuses _ key now _ e found (ground (arith, locked (omega arith), same_lockout)) early

-- When the table is full, a failure under a key that is counted but not locked starts its count
-- again at one, however recent its failures are: the pruning keeps only entries that are locked.
pub record_failure_full :
    (t : LoginThrottle) (key : ThrottleKey) (now : ℕ) (e : Entry)
    → max_entries ≤ Map.size t.state
    → Map.get key t.state ≡ some e
    → e.locked_until ≡ none
    → (record_failure t key now).1 ≡ 1
unfolding record_failure prune survives is_locked bump
record_failure_full t key now e full found unlocked =
    ground (arith, get-retain (survives t now) key t.state)
