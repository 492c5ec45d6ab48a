-- ===== src/Server/WorkPool.antt =====
-- rust_frp_server/src/work_conn.rs: the pools of connections that wait for visitors
-- (`ServerWorkConnManager`). What other tasks do between two steps of `get_work_conn`, and what the
-- network answers, are arguments.
pub mod Delivery
pub mod Handing
pub mod Retries
mod Runs
use rust_frp.Common.{
  ℕ, zero, suc, ◌+◌, ◌-◌, ◌*◌, min, max, Option, none, some, Bool, false, not, ◌&&◌, ◌||◌, Result,
  ok, err, String, ltb, ◌==◌, List, [], ◌∷◌, ◌++◌, length, retain, if◌then◌else◌,
}
use rust_frp.Common.Equality.{string_eq}
use rust_frp.Common.Map.{Map}
use rust_frp.Common.Map
use rust_frp.Net.Crypto.{Stream, StreamError, new_directional}

abbrev pub max_idle_time : ℕ
max_idle_time = 30 * 1_000_000_000

pub record PooledWorkConn {ℓ} (Conn : Type ℓ) : Type ℓ where
  pub conn : Conn
  pub use_compression : Bool
  pub use_encryption : Bool
  pub encryption_key : Option (List ℕ)
  pub created_at : ℕ

-- A waiter is the number of its channel.
pub record WorkConnPool {ℓ} (Conn : Type ℓ) : Type ℓ where
  pub idle : List (PooledWorkConn Conn)
  pub waiters : List ℕ
  pub capacity : ℕ
  pub refilling : Bool
  pub next_waiter_id : ℕ

-- What `register_work_conn` does with a connection.
pub data Placed : Type 0 where
  delivered : ℕ → Placed
  idled discarded : Placed

pub data GetError : Type 0 where
  pool_not_found send_failed waiter_canceled timed_out no_server_token retries_exhausted : GetError
  wrap_failed : StreamError → GetError

-- The layers around a connection: compression, then encryption.
pub record WrappedConn {ℓ} (Conn : Type ℓ) : Type ℓ where
  pub conn : Conn
  pub compressed : Bool
  pub encrypted : Option Stream

-- What comes through the channel of a waiter before the timeout.
pub data Arrival {ℓ} (Conn : Type ℓ) : Type ℓ where
  arrived : PooledWorkConn Conn → Arrival Conn
  canceled late : Arrival Conn

-- What one retry of `get_work_conn` meets: `others` is what other tasks did to the pool before it,
-- `can_send` whether ReqWorkConn could be sent, `is_reusable` the probe of the connection, `starts`
-- whether StartWorkConn was written, `prefix` the random bytes of an encrypted stream.
pub record Attempt {ℓ} (Conn : Type ℓ) : Type ℓ where
  pub others : WorkConnPool Conn → WorkConnPool Conn
  pub can_send : Bool
  pub arrival : Arrival Conn
  pub now : ℕ
  pub is_reusable : Conn → Bool
  pub starts : Conn → Bool
  pub prefix : List ℕ

pub data WorkConnClass : Type 0 where
  is_tls is_plain reject : WorkConnClass

unfoldable pub classify_work_conn : ℕ → Bool → Bool → WorkConnClass
classify_work_conn first_byte tls_available tls_only =
    if first_byte == 0x16
    then (if tls_available then is_tls else reject)
    else (if tls_only then reject else is_plain)

module _ {ℓ} {Conn : Type ℓ} where
  unfoldable pub is_fresh_at : ℕ → PooledWorkConn Conn → Bool
  is_fresh_at now e = ltb (now - e.created_at) max_idle_time

  unfoldable pub new_pool : ℕ → ℕ → WorkConnPool Conn
  new_pool pool_size requested = record {
    idle = [];
    waiters = [];
    capacity = if pool_size == 0 then requested else min requested pool_size;
    refilling = false;
    next_waiter_id = 0;
  }

  abbrev pub has_room : WorkConnPool Conn → Bool
  has_room p = ltb (length p.idle) p.capacity || (p.refilling && length p.idle == p.capacity)

  -- The loop of `register_work_conn` over the waiters; `listens` tells whose receiver still exists.
  unfoldable pub place :
      (ℕ → Bool) → WorkConnPool Conn → PooledWorkConn Conn → List ℕ → WorkConnPool Conn × Placed
  place listens p e [] =
      if has_room p
      then (record p { waiters = []; idle = p.idle ++ e ∷ [] }, idled)
      else (record p { waiters = [] }, discarded)
  place listens p e (w ∷ ws) =
      let rest = place listens p e ws in
      if listens w then (record p { waiters = ws }, delivered w) else rest

  unfoldable pub register_entry :
      (ℕ → Bool) → WorkConnPool Conn → PooledWorkConn Conn → WorkConnPool Conn × Placed
  unfolding place
  register_entry listens p e = place listens p e p.waiters

  -- `retain(|(id, _)| *id != waiter_id)`
  abbrev pub forget_waiter : ℕ → WorkConnPool Conn → WorkConnPool Conn
  forget_waiter id p = record p { waiters = retain (λ w. not (w == id)) p.waiters }

  abbrev pub add_waiter : WorkConnPool Conn → WorkConnPool Conn
  add_waiter p = record p {
    waiters = p.waiters ++ p.next_waiter_id ∷ [];
    next_waiter_id = p.next_waiter_id + 1;
  }

  -- The wrapping at the end of a retry.
  abbrev pub wrapped_stream :
      Conn → Bool → Result StreamError Stream → Result GetError (WrappedConn Conn)
  wrapped_stream c compressed (err e) = err (wrap_failed e)
  wrapped_stream c compressed (ok s) =
      ok (record { conn = c; compressed = compressed; encrypted = some s })

  abbrev pub wrap_key : Conn → Bool → List ℕ → Option (List ℕ) → Result GetError (WrappedConn Conn)
  wrap_key c compressed prefix none = err no_server_token
  wrap_key c compressed prefix (some key) =
      wrapped_stream c compressed (new_directional key key prefix)

  unfoldable pub wrap : List ℕ → PooledWorkConn Conn → Result GetError (WrappedConn Conn)
  unfolding new_directional
  wrap prefix e =
      if e.use_encryption
      then wrap_key e.conn e.use_compression prefix e.encryption_key
      else ok (record { conn = e.conn; compressed = e.use_compression; encrypted = none })

  -- Whether a connection that was obtained is used; if not, the next retry follows.
  unfoldable pub is_usable : Attempt Conn → PooledWorkConn Conn → Bool
  unfolding is_fresh_at
  is_usable t e = is_fresh_at t.now e && t.is_reusable e.conn && t.starts e.conn

-- `get_work_conn` while it runs: the pool, and how many ReqWorkConn messages it has sent.
pub record GetState {ℓ} (Conn : Type ℓ) : Type ℓ where
  pub pool : WorkConnPool Conn
  pub requests : ℕ

module _ {ℓ} {Conn : Type ℓ} where
  abbrev pub receive :
      GetState Conn → ℕ → Arrival Conn → GetState Conn × Result GetError (PooledWorkConn Conn)
  receive g id (arrived e) = (record g { pool = forget_waiter id g.pool }, ok e)
  receive g id canceled = (g, err waiter_canceled)
  receive g id late = (record g { pool = forget_waiter id g.pool }, err timed_out)

  -- A request for a new connection, and the wait for it.
  abbrev pub request :
      Attempt Conn → GetState Conn → GetState Conn × Result GetError (PooledWorkConn Conn)
  request t g =
      if t.can_send
      then receive (record { pool = add_waiter g.pool; requests = g.requests + 1 })
          g.pool.next_waiter_id t.arrival
      else (
        record g { pool = forget_waiter g.pool.next_waiter_id (add_waiter g.pool) },
        err send_failed,
      )

  -- The oldest idle connection, or a new one.
  abbrev pub obtain :
      Attempt Conn
      → GetState Conn
      → List (PooledWorkConn Conn)
      → GetState Conn × Result GetError (PooledWorkConn Conn)
  obtain t g [] = request t g
  obtain t g (e ∷ rest) = (record g { pool = record g.pool { idle = rest } }, ok e)

  -- The end of a retry: `retry` is what follows if the connection is not used.
  abbrev pub use_entry :
      Attempt Conn
      → (GetState Conn → GetState Conn × Result GetError (WrappedConn Conn))
      → GetState Conn × Result GetError (PooledWorkConn Conn)
      → GetState Conn × Result GetError (WrappedConn Conn)
  use_entry t retry (g, err e) = (g, err e)
  use_entry t retry (g, ok e) =
      let next = retry g in if is_usable t e then (g, wrap t.prefix e) else next

  -- The retries that are left, the first of them with number `n`.
  unfoldable pub get_loop :
      (ℕ → Attempt Conn)
      → ℕ
      → ℕ
      → GetState Conn
      → GetState Conn × Result GetError (WrappedConn Conn)
  unfolding is_usable wrap
  get_loop env zero n g = (g, err retries_exhausted)
  get_loop env (suc left) n g =
      let t = env n in
      let g' : GetState Conn = record g { pool = t.others g.pool } in
      use_entry t (get_loop env left (n + 1)) (obtain t g' g'.pool.idle)

  abbrev pub max_retries : WorkConnPool Conn → ℕ
  max_retries p = max p.capacity 1 + 1

  unfoldable pub get_from_pool :
      (ℕ → Attempt Conn) → WorkConnPool Conn → GetState Conn × Result GetError (WrappedConn Conn)
  unfolding get_loop
  get_from_pool env p = get_loop env (max_retries p) 0 (record { pool = p; requests = 0 })

pub record ServerWorkConnManager {ℓ} (Conn : Type ℓ) : Type ℓ where
  pub pools : Map String (WorkConnPool Conn)
  pub pool_size : ℕ

module _ {ℓ} {Conn : Type ℓ} where
  unfoldable pub init_pool_with_capacity :
      ServerWorkConnManager Conn → String → ℕ → ServerWorkConnManager Conn
  unfolding new_pool
  init_pool_with_capacity m name requested = record m {
    pools = Map.insert name (new_pool m.pool_size requested) m.pools;
  }

  unfoldable pub remove_pool : ServerWorkConnManager Conn → String → ServerWorkConnManager Conn
  remove_pool m name = record m { pools = Map.remove name m.pools }

  abbrev pub register_in :
      (ℕ → Bool)
      → ServerWorkConnManager Conn
      → String
      → PooledWorkConn Conn
      → Option (WorkConnPool Conn)
      → ServerWorkConnManager Conn × Placed
  register_in listens m name e none = (m, discarded)
  register_in listens m name e (some p) =
      let (p', placed) = register_entry listens p e in
      (record m { pools = Map.insert name p' m.pools }, placed)

  unfoldable pub register_work_conn :
      (ℕ → Bool)
      → ServerWorkConnManager Conn
      → String
      → PooledWorkConn Conn
      → ServerWorkConnManager Conn × Placed
  unfolding register_entry
  register_work_conn listens m name e = register_in listens m name e (Map.get name m.pools)
