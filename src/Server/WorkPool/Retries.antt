-- ===== src/Server/WorkPool/Retries.antt =====
-- `get_work_conn` of rust_frp_server/src/work_conn.rs: when its retries are enough.
use rust_frp.Common.{
  ℕ, zero, suc, ◌+◌, ◌≤◌, ◌<◌, max, true, false, ok, err, ◌≡◌, refl, subst, List, [], ◌∷◌, length,
  All, arith,
}
use rust_frp.Server.WorkPool.{
  PooledWorkConn, WorkConnPool, retries_exhausted, WrappedConn, Attempt, arrived, is_usable, wrap,
  GetState, get_loop, max_retries, get_from_pool,
}

module _ {ℓ} {Conn : Type ℓ} where
  -- No other task touches the pool.
  abbrev pub Quiet : (ℕ → Attempt Conn) → Type ℓ
  Quiet env = (n : ℕ) (p : WorkConnPool Conn) → (env n).others p ≡ p

  -- None of these is of use to any retry.
  abbrev pub Useless : (ℕ → Attempt Conn) → List (PooledWorkConn Conn) → Type 0
  Useless env = All λ (e : PooledWorkConn Conn). (n : ℕ) → is_usable (env n) e ≡ false

  -- Retry `n` asks for a connection and gets `e`, which becomes `w`.
  abbrev pub Answers : Attempt Conn → PooledWorkConn Conn → WrappedConn Conn → Type ℓ
  Answers t e w =
      (t.can_send ≡ true)
      × (t.arrival ≡ arrived e)
      × (is_usable t e ≡ true)
      × (wrap t.prefix e ≡ ok w)

  get_loop-request :
      (env : ℕ → Attempt Conn) (left n : ℕ) (g : GetState Conn) (e : PooledWorkConn Conn)
      (w : WrappedConn Conn)
      → Quiet env
      → g.pool.idle ≡ []
      → Answers (env n) e w
      → ((get_loop env (suc left) n g).0.requests ≡ g.requests + 1)
        × ((get_loop env (suc left) n g).1 ≡ ok w)
  unfolding get_loop
  get_loop-request env left n g e w quiet nothing (sends, comes, usable, wrapped) =
      rw (quiet n g.pool, nothing, sends, comes, usable, wrapped) (refl, refl)

  get_loop-skip :
      (env : ℕ → Attempt Conn) (left n : ℕ) (g : GetState Conn) (e : PooledWorkConn Conn)
      (rest : List (PooledWorkConn Conn))
      → Quiet env
      → g.pool.idle ≡ e ∷ rest
      → is_usable (env n) e ≡ false
      → get_loop env (suc left) n g
        ≡ get_loop env left (n + 1) (record g { pool = record g.pool { idle = rest } })
  unfolding get_loop
  get_loop-skip env left n g e rest quiet here useless = rw (quiet n g.pool, here, useless) refl

  get_loop-fresh :
      (idle : List (PooledWorkConn Conn)) (env : ℕ → Attempt Conn) (left n : ℕ) (g : GetState Conn)
      (e : PooledWorkConn Conn) (w : WrappedConn Conn)
      → Quiet env
      → g.pool.idle ≡ idle
      → Useless env idle
      → length idle < left
      → Answers (env (n + length idle)) e w
      → ((get_loop env left n g).0.requests ≡ g.requests + 1) × ((get_loop env left n g).1 ≡ ok w)
  get_loop-fresh idle env zero n g e w quiet here useless enough answers = absurd (omega arith)
  get_loop-fresh [] env (suc left) n g e w quiet here useless enough answers =
      let same : n + 0 ≡ n = omega arith in
      get_loop-request env left n g e w quiet here (subst (λ i. Answers (env i) e w) same answers)
  get_loop-fresh (old ∷ rest) env (suc left) n g e w quiet here (bad, useless) enough answers =
      let same : n + suc (length rest) ≡ n + 1 + length rest = omega arith in
      rw (get_loop-skip env left n g old rest quiet here (bad n)) (
        get_loop-fresh rest env left (n + 1) (record g { pool = record g.pool { idle = rest } }) e w
          quiet refl useless (omega arith) (subst (λ i. Answers (env i) e w) same answers))

  -- Stale idle connections do not use up the retries: if no more connections are idle than the pool's
  -- capacity (or than one, for a capacity of 0), all of them are useless, no other task interferes
  -- and the client answers a request with a good connection, then `get_work_conn` sends one request
  -- and returns that connection.
  pub get_from_pool-fresh :
      (env : ℕ → Attempt Conn) (p : WorkConnPool Conn) (e : PooledWorkConn Conn)
      (w : WrappedConn Conn)
      → Quiet env
      → Useless env p.idle
      → length p.idle ≤ max p.capacity 1
      → Answers (env (length p.idle)) e w
      → ((get_from_pool env p).0.requests ≡ 1) × ((get_from_pool env p).1 ≡ ok w)
  unfolding get_from_pool
  get_from_pool-fresh env p e w quiet useless few answers =
      get_loop-fresh p.idle env (max_retries p) 0 (record { pool = p; requests = 0 }) e w quiet refl
        useless (omega arith) (subst (λ i. Answers (env i) e w) (omega arith) answers)

  get_loop-exhausted :
      (idle : List (PooledWorkConn Conn)) (env : ℕ → Attempt Conn) (left n : ℕ) (g : GetState Conn)
      → Quiet env
      → g.pool.idle ≡ idle
      → Useless env idle
      → left ≤ length idle
      → ((get_loop env left n g).0.requests ≡ g.requests)
        × ((get_loop env left n g).1 ≡ err retries_exhausted)
  unfolding get_loop
  get_loop-exhausted idle env zero n g quiet here useless many = (refl, refl)
  get_loop-exhausted [] env (suc left) n g quiet here useless many = absurd (omega arith)
  get_loop-exhausted (old ∷ rest) env (suc left) n g quiet here (bad, useless) many =
      rw (get_loop-skip env left n g old rest quiet here (bad n)) (
        get_loop-exhausted rest env left (n + 1) (record g { pool = record g.pool { idle = rest } })
          quiet refl useless (omega arith))

  -- One more is too many: with capacity + 1 useless idle connections, which a refill can leave behind
  -- where the capacity is at least 1, `get_work_conn` fails without having asked the client for a
  -- connection at all, if no other task interferes.
  pub get_from_pool-exhausted :
      (env : ℕ → Attempt Conn) (p : WorkConnPool Conn)
      → Quiet env
      → Useless env p.idle
      → length p.idle ≡ p.capacity + 1
      → 1 ≤ p.capacity
      → ((get_from_pool env p).0.requests ≡ 0) × ((get_from_pool env p).1 ≡ err retries_exhausted)
  unfolding get_from_pool
  get_from_pool-exhausted env p quiet useless full some_room =
      get_loop-exhausted p.idle env (max_retries p) 0 (record { pool = p; requests = 0 }) quiet refl
        useless (omega arith)
