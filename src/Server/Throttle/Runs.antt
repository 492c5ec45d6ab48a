-- ===== src/Server/Throttle/Runs.antt =====
-- The throttle of rust_frp_server/src/login_throttle.rs at concrete inputs.
use rust_frp.Common.{
  ℕ, zero, suc, ◌+◌, ◌-◌, ◌≤◌, none, some, err, ◌≡◌, refl, List, [], ◌∷◌, length, arith,
}
use rust_frp.Common.Text.{trim}
use rust_frp.Common.Map.{Map, Distinct, find}
use rust_frp.Common.Map
use rust_frp.Server.Throttle.{
  ThrottleKey, key_beq, key_eq, client, ip, v4, Entry, LoginThrottle, secs, new, new_key, check,
  prune, bump, record_failure, locked_count, fails, checks, run,
}
use rust_frp.Server.Throttle.Lockout.{IsSound, LockedFor, record_failure-IsSound, check-run_locked}
use rust_frp.Server.Throttle.Prune.{fail_all, check-fail_all, record_failure_full}

abbrev idle : LoginThrottle
idle = record { max_failures = 3; lockout = secs 600; window = secs 3600; state = Map.empty }

abbrev alice : ThrottleKey
alice = client (b'a' ∷ [])

abbrev bob : ThrottleKey
bob = client (b'b' ∷ [])

new_disabled : (new 0 600 ≡ none) × (new 5 0 ≡ none) × (new 3 600 ≡ some idle)
unfolding new
new_disabled = (refl, refl, refl)

key_falls_back :
    (new_key (32 ∷ 32 ∷ []) (some (v4 9)) ≡ some (ip (v4 9))) × (new_key [] none ≡ none)
unfolding new_key trim
key_falls_back = (refl, refl)

counts_up :
    ((record_failure idle alice 5).1 ≡ 1)
    × ((record_failure (record_failure idle alice 5).0 alice 6).1 ≡ 2)
    × (locked_count (fail_all idle alice (5 ∷ 6 ∷ 7 ∷ [])) 8 ≡ 1)
unfolding record_failure prune bump locked_count Map.get Map.insert Map.empty key_beq
counts_up = (refl, refl, refl)

idle-IsSound : IsSound idle 0
unfolding Map.empty Map.get
idle-IsSound = record { window_covers = omega arith; timely = λ k e found. cc }

abbrev locked : LoginThrottle
locked = fail_all (record idle { max_failures = 1 }) alice (5 ∷ [])

locked-IsSound : IsSound locked 5
unfolding Map.empty Map.get
locked-IsSound =
    record_failure-IsSound (record idle { max_failures = 1 }) alice 5
      (record { window_covers = omega arith; timely = λ k e found. cc })

locked-LockedFor : LockedFor locked alice (5 + secs 600)
unfolding record_failure prune bump Map.get Map.insert Map.empty key_beq
locked-LockedFor = (
  record { failures = 1; last_failure = 5; locked_until = some (5 + secs 600) },
  5 + secs 600,
  refl,
  refl,
  omega arith,
)

check-run_locked_example :
    let t = run locked ((6, fails bob) ∷ (7, checks alice) ∷ []) in
    (u : ℕ) × (5 + secs 600 ≤ u) × (check t alice 8 ≡ (t, err (u - 8)))
check-run_locked_example =
    check-run_locked locked alice 5 (5 + secs 600) 8 ((6, fails bob) ∷ (7, checks alice) ∷ [])
      locked-IsSound locked-LockedFor
      (omega arith, omega arith, (λ e. cc), (omega arith, omega arith, (λ e. cc), tt)) (omega arith)

check-fail_all_example :
    (check (fail_all idle alice (5 ∷ 6 ∷ 7 ∷ [])) alice 9).1 ≡ err (7 + secs 600 - 9)
unfolding Map.empty Map.get
check-fail_all_example =
    check-fail_all idle alice 5 9 (6 ∷ 7 ∷ []) (omega arith) refl (omega arith) (omega arith)
      (omega arith) (omega arith)

-- A table of `n` addresses, each with two recent failures and no lock.
crowd : ℕ → List (ThrottleKey × Entry)
crowd zero = []
crowd (suc n) =
    (ip (v4 n), record { failures = 2; last_failure = 5; locked_until = none }) ∷ crowd n

find-crowd : (m n : ℕ) → n ≤ m → find (ip (v4 m)) (crowd n) ≡ none
unfolding crowd find key_beq
find-crowd m zero h = refl
find-crowd m (suc n) h = ground (arith, find-crowd m n)

Distinct-crowd : (n : ℕ) → Distinct (crowd n)
unfolding crowd
Distinct-crowd zero = tt
Distinct-crowd (suc n) = (find-crowd n n (omega arith), Distinct-crowd n)

length-crowd : (n : ℕ) → length (crowd n) ≡ n
unfolding crowd
length-crowd zero = refl
length-crowd (suc n) = omega (arith, length-crowd n)

abbrev full : ℕ → LoginThrottle
full n = record idle { state = record { entries = crowd n; distinct = Distinct-crowd n } }

get-full :
    (n : ℕ)
    → Map.get (ip (v4 n)) (full (suc n)).state
      ≡ some (record { failures = 2; last_failure = 5; locked_until = none })
unfolding Map.get find crowd key_beq
get-full n = ground arith

record_failure_full_example : (record_failure (full 4096) (ip (v4 4095)) 6).1 ≡ 1
record_failure_full_example =
    record_failure_full (full 4096) (ip (v4 4095)) 6
      (record { failures = 2; last_failure = 5; locked_until = none })
      (omega (arith, length-crowd 4096)) (get-full 4095) refl
