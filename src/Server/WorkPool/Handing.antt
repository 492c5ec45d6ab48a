-- ===== src/Server/WorkPool/Handing.antt =====
-- What `get_work_conn` of rust_frp_server/src/work_conn.rs hands out.
use rust_frp.Common.{
  ℕ, zero, suc, ◌+◌, ◌*◌, ◌<◌, Option, none, some, Bool, true, Result, ok, err, is_some, ◌≡◌, refl,
  sym, ◌∙◌, ap, inl, inr, List, [], ◌∷◌, All, arith, Bool-cases,
}
use mathlib.Core.Option.{some-injective}
use rust_frp.Net.Crypto.{Stream, StreamError, new_directional}
use rust_frp.Server.WorkPool.{
  PooledWorkConn, WorkConnPool, GetError, WrappedConn, Arrival, Attempt, arrived, canceled, late,
  add_waiter, is_fresh_at, is_usable, wrap, wrap_key, wrapped_stream, GetState, receive, obtain,
  use_entry, get_loop, max_retries, get_from_pool,
}

new_directional_keys :
    (key prefix : List ℕ) (s : Stream)
    → new_directional key key prefix ≡ ok s
    → (key ≡ s.read_key) × (key ≡ s.write_key)
unfolding new_directional
new_directional_keys key prefix s h = (ground arith, ground arith)

module _ {ℓ} {Conn : Type ℓ} where
  -- A stream that is encrypted has the key that the connection was registered with.
  abbrev pub IsKeyed : PooledWorkConn Conn → WrappedConn Conn → Type 0
  IsKeyed e w =
      (s : Stream)
      → w.encrypted ≡ some s
      → (e.encryption_key ≡ some s.read_key) × (e.encryption_key ≡ some s.write_key)

  -- `w` is `c` with these layers, the outer one with this key.
  abbrev Encrypts : Conn → Bool → Option (List ℕ) → WrappedConn Conn → Type ℓ
  Encrypts c compressed key w =
      (s : Stream) × (w.encrypted ≡ some s)
      × (key ≡ some s.read_key)
      × (key ≡ some s.write_key)
      × (w.conn ≡ c)
      × (w.compressed ≡ compressed)

  wrapped_stream-Encrypts :
      (c : Conn) (compressed : Bool) (key : List ℕ) (r : Result StreamError Stream)
      (w : WrappedConn Conn)
      → ((s : Stream) → r ≡ ok s → (key ≡ s.read_key) × (key ≡ s.write_key))
      → wrapped_stream c compressed r ≡ ok w
      → Encrypts c compressed (some key) w
  wrapped_stream-Encrypts c compressed key (err e) w keyed h = absurd (ground arith)
  wrapped_stream-Encrypts c compressed key (ok s) w keyed h =
      let (reads, writes) = keyed s refl in
      (s, ground arith, ap some reads, ap some writes, ground arith, ground arith)

  wrap_key-Encrypts :
      (c : Conn) (compressed : Bool) (prefix : List ℕ) (key : Option (List ℕ))
      (w : WrappedConn Conn)
      → wrap_key c compressed prefix key ≡ ok w
      → Encrypts c compressed key w
  wrap_key-Encrypts c compressed prefix none w h = absurd (ground arith)
  wrap_key-Encrypts c compressed prefix (some key) w h =
      wrapped_stream-Encrypts c compressed key (new_directional key key prefix) w
        (new_directional_keys key prefix) h

  -- The layers are those that the connection was registered with.
  wrap-ok :
      (prefix : List ℕ) (e : PooledWorkConn Conn) (w : WrappedConn Conn)
      → wrap prefix e ≡ ok w
      → (w.conn ≡ e.conn)
        × (w.compressed ≡ e.use_compression)
        × (is_some w.encrypted ≡ e.use_encryption)
        × IsKeyed e w
  unfolding wrap
  wrap-ok prefix e w h = elim (Bool-cases e.use_encryption) [
    | inl secret ↦
        let (s, encrypted, reads, writes, same, layer) =
          wrap_key-Encrypts e.conn e.use_compression prefix e.encryption_key w (rw secret at h) in
        (
          same,
          layer,
          ap is_some encrypted ∙ sym secret,
          λ t found.
              let one : s ≡ t = some-injective s t (sym encrypted ∙ found) in
              (
                reads ∙ ap (λ (u : Stream). some u.read_key) one,
                writes ∙ ap (λ (u : Stream). some u.write_key) one,
              ),
        )
    | inr open_conn ↦
        let plain : w.encrypted ≡ none = ground arith in
        (
          ground arith,
          ground arith,
          ap is_some plain ∙ sym open_conn,
          λ t found. absurd (ground arith),
        )
  ]

  -- All connections that reach the pool are of a kind: those in it, those that other tasks leave in
  -- it, and those that arrive.
  abbrev pub AllOf :
      (PooledWorkConn Conn → Type ℓ) → (ℕ → Attempt Conn) → WorkConnPool Conn → Type ℓ
  AllOf Kind env p =
      All Kind p.idle
      × ((n : ℕ) (q : WorkConnPool Conn) → All Kind q.idle → All Kind ((env n).others q).idle)
      × ((n : ℕ) (e : PooledWorkConn Conn) → (env n).arrival ≡ arrived e → Kind e)

  -- The pair of a retry and a connection of the kind that was registered less than 30 seconds before,
  -- answered the probe, took StartWorkConn, and became what is handed out.
  abbrev pub HandedOut :
      (PooledWorkConn Conn → Type ℓ) → (ℕ → Attempt Conn) → WrappedConn Conn → Type ℓ
  HandedOut Kind env w =
      (n : ℕ) × (e : PooledWorkConn Conn) × Kind e
      × ((env n).now < e.created_at + 30 * 1_000_000_000)
      × ((env n).is_reusable e.conn ≡ true)
      × ((env n).starts e.conn ≡ true)
      × (w.conn ≡ e.conn)
      × (w.compressed ≡ e.use_compression)
      × (is_some w.encrypted ≡ e.use_encryption)
      × IsKeyed e w

  is_usable-ok :
      (t : Attempt Conn) (e : PooledWorkConn Conn)
      → is_usable t e ≡ true
      → (t.now < e.created_at + 30 * 1_000_000_000)
        × (t.is_reusable e.conn ≡ true)
        × (t.starts e.conn ≡ true)
  unfolding is_usable is_fresh_at
  is_usable-ok t e h = (ground arith, ground arith, ground arith)

  module _ (Kind : PooledWorkConn Conn → Type ℓ) where
    -- What a retry obtains is of the kind, and so is all that it leaves in the pool.
    abbrev IsObtained : GetState Conn × Result GetError (PooledWorkConn Conn) → Type ℓ
    IsObtained (g, err e) = All Kind g.pool.idle
    IsObtained (g, ok e) = All Kind g.pool.idle × Kind e

    receive-IsObtained :
        (g : GetState Conn) (id : ℕ) (a : Arrival Conn)
        → All Kind g.pool.idle
        → ((e : PooledWorkConn Conn) → a ≡ arrived e → Kind e)
        → IsObtained (receive g id a)
    receive-IsObtained g id (arrived e) v comes = (v, comes e refl)
    receive-IsObtained g id canceled v comes = v
    receive-IsObtained g id late v comes = v

    obtain-IsObtained :
        (t : Attempt Conn) (g : GetState Conn) (idle : List (PooledWorkConn Conn))
        → All Kind g.pool.idle
        → All Kind idle
        → ((e : PooledWorkConn Conn) → t.arrival ≡ arrived e → Kind e)
        → IsObtained (obtain t g idle)
    obtain-IsObtained t g (e ∷ rest) v (here, below) comes = (below, here)
    obtain-IsObtained t g [] v w comes = elim (Bool-cases t.can_send) [
      | inl sends ↦ rw sends (
          receive-IsObtained (record { pool = add_waiter g.pool; requests = g.requests + 1 })
            g.pool.next_waiter_id t.arrival v comes)
      | inr fails ↦ rw fails v
    ]

    use_entry-HandedOut :
        (env : ℕ → Attempt Conn) (n : ℕ)
        (retry : GetState Conn → GetState Conn × Result GetError (WrappedConn Conn))
        (got : GetState Conn × Result GetError (PooledWorkConn Conn)) (w : WrappedConn Conn)
        → IsObtained got
        → ((g : GetState Conn) → All Kind g.pool.idle → (retry g).1 ≡ ok w → HandedOut Kind env w)
        → (use_entry (env n) retry got).1 ≡ ok w
        → HandedOut Kind env w
    use_entry-HandedOut env n retry (g, err e) w v later h = absurd (ground arith)
    use_entry-HandedOut env n retry (g, ok e) w (v, known) later h =
        elim (Bool-cases (is_usable (env n) e)) [
          | inl usable ↦
              let (same, layer, stream, keyed) = wrap-ok (env n).prefix e w (rw usable at h) in
              let (fresh, answers, starts) = is_usable-ok (env n) e usable in
              (n, e, known, fresh, answers, starts, same, layer, stream, keyed)
          | inr useless ↦ later g v (rw useless at h)
        ]

    get_loop-HandedOut :
        (env : ℕ → Attempt Conn) (p : WorkConnPool Conn) (left n : ℕ) (g : GetState Conn)
        (w : WrappedConn Conn)
        → AllOf Kind env p
        → All Kind g.pool.idle
        → (get_loop env left n g).1 ≡ ok w
        → HandedOut Kind env w
    unfolding get_loop
    get_loop-HandedOut env p zero n g w known v h = absurd (ground arith)
    get_loop-HandedOut env p (suc left) n g w known v h =
        let v' = known.1 n g.pool v in
        use_entry-HandedOut env n (get_loop env left (n + 1)) _ w
          (obtain-IsObtained (env n) (record g { pool = (env n).others g.pool })
            ((env n).others g.pool).idle v' v' (known.2 n))
          (λ g' below. get_loop-HandedOut env p left (n + 1) g' w known below) h

  -- Nothing stale, nothing unprotected and nothing from elsewhere is handed out. Let all connections
  -- that reach the pool, before the call or while it runs, be of a kind. Then a connection that
  -- `get_work_conn` returns is one of that kind which, in one and the same retry, was registered
  -- less than 30 seconds ago, answered the probe and took StartWorkConn; and it is compressed and
  -- encrypted exactly if that one was registered so, with the key that it was registered with.
  pub get_from_pool-HandedOut :
      (Kind : PooledWorkConn Conn → Type ℓ) (env : ℕ → Attempt Conn) (p : WorkConnPool Conn)
      (w : WrappedConn Conn)
      → AllOf Kind env p
      → (get_from_pool env p).1 ≡ ok w
      → HandedOut Kind env w
  unfolding get_from_pool
  get_from_pool-HandedOut Kind env p w known h =
      get_loop-HandedOut Kind env p (max_retries p) 0 _ w known known.0 h
