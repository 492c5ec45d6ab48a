-- ===== src/Server/WorkPool/Runs.antt =====
-- The pools of rust_frp_server/src/work_conn.rs at concrete inputs: connections are numbers.
use rust_frp.Common.{
  ℕ, ◌*◌, ◌==◌, none, ok, err, true, false, List, [], ◌∷◌, ◌≡◌, ◌⊎◌, inl, inr, refl, length, arith,
}
use rust_frp.Server.WorkPool.{
  PooledWorkConn, WorkConnPool, delivered, idled, discarded, retries_exhausted, WrappedConn,
  Attempt, arrived, is_fresh_at, place, register_entry, is_usable, wrap, get_loop, get_from_pool,
  classify_work_conn, is_tls, is_plain, reject, max_idle_time,
}
use rust_frp.Server.WorkPool.Delivery.{PlacedAt, register_entry-PlacedAt, arrivals}
use rust_frp.Server.WorkPool.Handing.{HandedOut, get_from_pool-HandedOut}
use rust_frp.Server.WorkPool.Retries.{get_from_pool-fresh, get_from_pool-exhausted}

abbrev plain_conn : ℕ → ℕ → PooledWorkConn ℕ
plain_conn c at = record {
  conn = c;
  use_compression = true;
  use_encryption = false;
  encryption_key = none;
  created_at = at;
}

abbrev pool : List (PooledWorkConn ℕ) → WorkConnPool ℕ
pool idle = record {
  idle = idle;
  waiters = [];
  capacity = 2;
  refilling = false;
  next_waiter_id = 5;
}

abbrev minute : ℕ
minute = 2 * max_idle_time

-- A minute after the start the client answers with connection 9.
abbrev env : ℕ → Attempt ℕ
env n = record {
  others = λ p. p;
  can_send = true;
  arrival = arrived (plain_conn 9 minute);
  now = minute;
  is_reusable = λ c. true;
  starts = λ c. true;
  prefix = [];
}

abbrev result : WrappedConn ℕ
result = record { conn = 9; compressed = true; encrypted = none }

classes :
    (classify_work_conn 22 true false ≡ is_tls)
    × (classify_work_conn 22 false false ≡ reject)
    × (classify_work_conn 0 true true ≡ reject)
    × (classify_work_conn 0 true false ≡ is_plain)
unfolding classify_work_conn
classes = (refl, refl, refl, refl)

places :
    ((register_entry (λ w. w == 4) (record (pool []) { waiters = 3 ∷ 4 ∷ [] }) (plain_conn 1 0)).1
      ≡ delivered 4)
    × ((register_entry (λ w. true) (pool []) (plain_conn 1 0)).1 ≡ idled)
    × ((register_entry (λ w. true) (pool (plain_conn 1 0 ∷ plain_conn 2 0 ∷ [])) (plain_conn 3 0)).1
        ≡ discarded)
unfolding register_entry place
places = (refl, refl, refl)

abbrev waiting : WorkConnPool ℕ
waiting = record (pool []) { waiters = 3 ∷ 4 ∷ [] }

register_entry-PlacedAt_example :
    let (p', at) = register_entry (λ w. w == 4) waiting (plain_conn 1 0) in
    PlacedAt (λ w. w == 4) waiting (3 ∷ 4 ∷ []) (plain_conn 1 0) p' at
register_entry-PlacedAt_example = register_entry-PlacedAt (λ w. w == 4) waiting (plain_conn 1 0)

abbrev one_old : WorkConnPool ℕ
one_old = pool (plain_conn 1 0 ∷ [])

got_result : (get_from_pool env one_old).1 ≡ ok result
unfolding get_from_pool get_loop is_usable is_fresh_at wrap
got_result = refl

-- The two connections of this run.
abbrev Seen : PooledWorkConn ℕ → Type 0
Seen e = (e ≡ plain_conn 1 0) ⊎ (e ≡ plain_conn 9 minute)

arrival_is_Seen : (n : ℕ) (e : PooledWorkConn ℕ) → (env n).arrival ≡ arrived e → Seen e
arrival_is_Seen n e h = inr (ground arith)

get_from_pool-HandedOut_example : HandedOut Seen env result
get_from_pool-HandedOut_example =
    get_from_pool-HandedOut Seen env one_old result ((inl refl, tt), (λ n q v. v), arrival_is_Seen)
      got_result

old_is_useless : (n : ℕ) → is_usable (env n) (plain_conn 1 0) ≡ false
unfolding is_usable is_fresh_at
old_is_useless n = refl

new_is_usable : is_usable (env 2) (plain_conn 9 minute) ≡ true
unfolding is_usable is_fresh_at
new_is_usable = refl

new_is_wrapped : wrap [] (plain_conn 9 minute) ≡ ok result
unfolding wrap
new_is_wrapped = refl

abbrev two_old : WorkConnPool ℕ
two_old = pool (plain_conn 1 0 ∷ plain_conn 1 0 ∷ [])

get_from_pool-fresh_example :
    ((get_from_pool env two_old).0.requests ≡ 1) × ((get_from_pool env two_old).1 ≡ ok result)
get_from_pool-fresh_example =
    get_from_pool-fresh env two_old (plain_conn 9 minute) result (λ n p. refl)
      (old_is_useless, (old_is_useless, tt)) (omega arith)
      (refl, refl, new_is_usable, new_is_wrapped)

abbrev three_old : WorkConnPool ℕ
three_old = pool (plain_conn 1 0 ∷ plain_conn 1 0 ∷ plain_conn 1 0 ∷ [])

get_from_pool-exhausted_example :
    ((get_from_pool env three_old).0.requests ≡ 0)
    × ((get_from_pool env three_old).1 ≡ err retries_exhausted)
get_from_pool-exhausted_example =
    get_from_pool-exhausted env three_old (λ n p. refl)
      (old_is_useless, (old_is_useless, (old_is_useless, tt))) refl (omega arith)

-- A refill can leave one connection more than the capacity behind.
refill_overshoots :
    length
      (arrivals
        (record (pool (plain_conn 1 0 ∷ [])) { refilling = true })
        (((λ w. false), plain_conn 1 0) ∷ ((λ w. false), plain_conn 1 0) ∷ [])).idle
    ≡ 3
unfolding arrivals register_entry place
refill_overshoots = refl
