-- ===== src/Server/Throttle.antt =====
-- rust_frp_server/src/login_throttle.rs: the login throttle. The clock is an argument of each call.
-- Instants and durations are numbers of nanoseconds; the mutex makes each call one step.
pub mod Lockout
pub mod Prune
mod Runs
use rust_frp.Common.{
  ℕ, ◌+◌, ◌-◌, ◌*◌, ◌^◌, min, max, Option, none, some, Bool, false, ◌&&◌, ◌||◌, Result, ok, err,
  ltb, leb, ◌==◌, if◌then◌else◌, unwrap_or, ◌≡◌, ◌↔◌, ap, arith, List, [], ◌∷◌,
}
use rust_frp.Common.Equality.{Eq, ◌=?◌, bytes_eq, bytes_beq, bytes_beq_iff}
use rust_frp.Common.Text.{Text, trim}
use rust_frp.Common.Map.{Map}
use rust_frp.Common.Map

pub data IpAddr : Type 0 where
  v4 : ℕ → IpAddr
  v6 : ℕ → IpAddr

pub data ThrottleKey : Type 0 where
  client : Text → ThrottleKey
  ip : IpAddr → ThrottleKey

unfoldable pub key_beq : ThrottleKey → ThrottleKey → Bool
unfolding bytes_beq
key_beq (client a) (client b) = bytes_beq a b
key_beq (client a) (ip b) = false
key_beq (ip a) (client b) = false
key_beq (ip (v4 a)) (ip (v4 b)) = a == b
key_beq (ip (v4 a)) (ip (v6 b)) = false
key_beq (ip (v6 a)) (ip (v4 b)) = false
key_beq (ip (v6 a)) (ip (v6 b)) = a == b

client_injective : {a b : Text} → client a ≡ client b → a ≡ b
client_injective p = cc

pub key_beq_iff : (a b : ThrottleKey) → (key_beq a b ≡ Bool.true) ↔ (a ≡ b)
unfolding key_beq
key_beq_iff (client a) (client b) =
    (λ h. ap client ((bytes_beq_iff a b).0 h), λ p. (bytes_beq_iff a b).1 (client_injective p))
key_beq_iff (client a) (ip b) = ground arith
key_beq_iff (ip a) (client b) = ground arith
key_beq_iff (ip (v4 a)) (ip (v4 b)) = ground arith
key_beq_iff (ip (v4 a)) (ip (v6 b)) = ground arith
key_beq_iff (ip (v6 a)) (ip (v4 b)) = ground arith
key_beq_iff (ip (v6 a)) (ip (v6 b)) = ground arith

instance abbrev pub key_eq : Eq ThrottleKey
key_eq = record { beq = key_beq; beq_iff = key_beq_iff }

-- `ThrottleKey::new`
unfoldable pub new_key : Text → Option IpAddr → Option ThrottleKey
new_key client_id addr = elim (trim client_id) [
  | [] ↦ Map.map_option ip addr
  | c ∷ s ↦ some (client (c ∷ s))
]

pub record Entry : Type 0 where
  pub failures : ℕ
  pub last_failure : ℕ
  pub locked_until : Option ℕ

pub record LoginThrottle : Type 0 where
  pub max_failures : ℕ
  pub lockout : ℕ
  pub window : ℕ
  pub state : Map ThrottleKey Entry

abbrev pub max_entries : ℕ
max_entries = 4096

abbrev pub u32_max : ℕ
u32_max = 2 ^ 32 - 1

-- `Duration::from_secs`
abbrev pub secs : ℕ → ℕ
secs n = n * 1_000_000_000

-- `LoginThrottle::new`
pub new : ℕ → ℕ → Option LoginThrottle
new max_failures lockout_secs =
    if max_failures == 0 || lockout_secs == 0
    then none
    else some (record {
      max_failures = max_failures;
      lockout = secs lockout_secs;
      window = max (secs lockout_secs) (secs 3600);
      state = Map.empty;
    })

-- `e.locked_until.map(|u| u > now).unwrap_or(false)`
pub is_locked : ℕ → Entry → Bool
is_locked now e = elim e.locked_until [ none ↦ false | some until ↦ ltb now until ]

check_entry : LoginThrottle → ThrottleKey → ℕ → Option Entry → LoginThrottle × Result ℕ (Unit {0})
check_entry t key now none = (t, ok tt)
check_entry t key now (some e) = elim e.locked_until [
  | none ↦ (t, ok tt)
  | some until ↦
      if ltb now until
      then (t, err (until - now))
      else (record t { state = Map.remove key t.state }, ok tt)
]

-- The table after the call, and the time left if the attempt is refused.
pub check : LoginThrottle → ThrottleKey → ℕ → LoginThrottle × Result ℕ (Unit {0})
unfolding check_entry
check t key now = check_entry t key now (Map.get key t.state)

-- The test of the `retain` in `record_failure`.
pub survives : LoginThrottle → ℕ → ThrottleKey → Entry → Bool
unfolding is_locked
survives t now key e = ltb (now - e.last_failure) t.window && is_locked now e

-- The pruning of a table that has reached `max_entries`.
pub prune : LoginThrottle → ℕ → Map ThrottleKey Entry
prune t now =
    if leb max_entries (Map.size t.state) then Map.retain (survives t now) t.state else t.state

-- The entry that one more failure leaves.
pub bump : LoginThrottle → ℕ → Entry → Entry
bump t now e =
    let base : ℕ = if ltb t.window (now - e.last_failure) then 0 else e.failures in
    let failures : ℕ = min (base + 1) u32_max in
    record {
      failures = failures;
      last_failure = now;
      locked_until = if leb t.max_failures failures then some (now + t.lockout) else e.locked_until;
    }

abbrev pub fresh : ℕ → Entry
fresh now = record { failures = 0; last_failure = now; locked_until = none }

pub record_failure : LoginThrottle → ThrottleKey → ℕ → LoginThrottle × ℕ
record_failure t key now =
    let pruned = prune t now in
    let entry = bump t now (unwrap_or (Map.get key pruned) (fresh now)) in
    (record t { state = Map.insert key entry pruned }, entry.failures)

pub record_success : LoginThrottle → ThrottleKey → LoginThrottle
record_success t key = record t { state = Map.remove key t.state }

-- The calls that logins make on the throttle they share, each at its time.
pub data Call : Type 0 where
  fails succeeds checks : ThrottleKey → Call

pub step : LoginThrottle → ℕ → Call → LoginThrottle
step t now (fails key) = (record_failure t key now).0
step t now (succeeds key) = record_success t key
step t now (checks key) = (check t key now).0

pub run : LoginThrottle → List (ℕ × Call) → LoginThrottle
run t [] = t
run t ((now, c) ∷ rest) = run (step t now c) rest

-- `values().filter(…).count()`
count_locked : ℕ → List (ThrottleKey × Entry) → ℕ
unfolding is_locked
count_locked now [] = 0
count_locked now ((k, e) ∷ rest) = (if is_locked now e then 1 else 0) + count_locked now rest

pub locked_count : LoginThrottle → ℕ → ℕ
unfolding count_locked
locked_count t now = count_locked now (Map.entries t.state)
