-- ===== src/Server/WorkPool/Delivery.antt =====
-- Where a connection that arrives in rust_frp_server/src/work_conn.rs goes.
use rust_frp.Common.{
  ℕ, ◌+◌, ◌≤◌, Bool, true, false, ◌≡◌, refl, ap, inl, inr, List, [], ◌∷◌, ◌++◌, length, All, arith,
  Bool-cases, length-append,
}
use rust_frp.Server.WorkPool.{
  PooledWorkConn, WorkConnPool, Placed, delivered, idled, discarded, has_room, place,
  register_entry,
}

-- Nobody listens on these channels any more.
abbrev pub Deaf : (ℕ → Bool) → List ℕ → Type 0
Deaf listens = All λ (w : ℕ). listens w ≡ false

module _ {ℓ} {Conn : Type ℓ} where
  -- What is true of the pool before and after, for each place a connection can go to.
  abbrev pub PlacedAt :
      (ℕ → Bool)
      → WorkConnPool Conn
      → List ℕ
      → PooledWorkConn Conn
      → WorkConnPool Conn
      → Placed
      → Type ℓ
  PlacedAt listens p ws e p' (delivered w) =
      (listens w ≡ true)
      × (p'.idle ≡ p.idle)
      × ((gone : List ℕ) × Deaf listens gone × (ws ≡ gone ++ w ∷ p'.waiters))
  PlacedAt listens p ws e p' idled =
      Deaf listens ws × (has_room p ≡ true) × (p'.idle ≡ p.idle ++ e ∷ []) × (p'.waiters ≡ [])
  PlacedAt listens p ws e p' discarded =
      Deaf listens ws × (has_room p ≡ false) × (p'.idle ≡ p.idle) × (p'.waiters ≡ [])

  PlacedAt-deaf :
      (listens : ℕ → Bool) (p : WorkConnPool Conn) (ws : List ℕ) (e : PooledWorkConn Conn)
      (p' : WorkConnPool Conn) (w : ℕ) (at : Placed)
      → listens w ≡ false
      → PlacedAt listens p ws e p' at
      → PlacedAt listens p (w ∷ ws) e p' at
  PlacedAt-deaf listens p ws e p' w (delivered v) deaf (hears, same, (gone, all_deaf, split)) =
      (hears, same, (w ∷ gone, (deaf, all_deaf), ap (λ l. w ∷ l) split))
  PlacedAt-deaf listens p ws e p' w idled deaf (all_deaf, room, added, none_left) =
      ((deaf, all_deaf), room, added, none_left)
  PlacedAt-deaf listens p ws e p' w discarded deaf (all_deaf, full, same, none_left) =
      ((deaf, all_deaf), full, same, none_left)

  place-PlacedAt :
      (listens : ℕ → Bool) (p : WorkConnPool Conn) (e : PooledWorkConn Conn) (ws : List ℕ)
      → PlacedAt listens p ws e (place listens p e ws).0 (place listens p e ws).1
  unfolding place
  place-PlacedAt listens p e [] = elim (Bool-cases (has_room p)) [
    | inl room ↦ rw room (tt, room, refl, refl)
    | inr full ↦ rw full (tt, full, refl, refl)
  ]
  place-PlacedAt listens p e (w ∷ ws) = elim (Bool-cases (listens w)) [
    | inl hears ↦ rw hears (hears, refl, ([], tt, refl))
    | inr deaf ↦ rw deaf (
        PlacedAt-deaf listens p ws e (place listens p e ws).0 w (place listens p e ws).1 deaf
          (place-PlacedAt listens p e ws))
  ]

  -- A connection goes to one place, and to the right one: to the first waiter in the queue whose
  -- receiver still exists, and then the idle connections stay as they are; if there is no such
  -- waiter, to the end of the idle queue if that has room; and only otherwise is it discarded.
  -- Waiters that have gone are dropped from the front of the queue.
  pub register_entry-PlacedAt :
      (listens : ℕ → Bool) (p : WorkConnPool Conn) (e : PooledWorkConn Conn)
      → let (p', at) = register_entry listens p e in PlacedAt listens p p.waiters e p' at
  unfolding register_entry
  register_entry-PlacedAt listens p e = place-PlacedAt listens p e p.waiters

  place-capacity :
      (listens : ℕ → Bool) (p : WorkConnPool Conn) (e : PooledWorkConn Conn) (ws : List ℕ)
      → ((place listens p e ws).0.capacity ≡ p.capacity)
        × (length p.idle ≤ p.capacity + 1 → length (place listens p e ws).0.idle ≤ p.capacity + 1)
  unfolding place
  place-capacity listens p e [] = ground (arith, length-append p.idle (e ∷ []))
  place-capacity listens p e (w ∷ ws) = ground (arith, place-capacity listens p e ws)

  -- Arrivals, each with the receivers that exist when it comes.
  unfoldable pub arrivals :
      WorkConnPool Conn → List ((ℕ → Bool) × PooledWorkConn Conn) → WorkConnPool Conn
  arrivals p [] = p
  arrivals p ((listens, e) ∷ rest) = arrivals (register_entry listens p e).0 rest

  -- However many connections arrive, and whatever waiters there are, a pool keeps at most one idle
  -- connection more than its capacity.
  length-arrivals :
      (p : WorkConnPool Conn) (es : List ((ℕ → Bool) × PooledWorkConn Conn))
      → length p.idle ≤ p.capacity + 1
      → length (arrivals p es).idle ≤ p.capacity + 1
  unfolding arrivals register_entry
  length-arrivals p [] small = small
  length-arrivals p ((listens, e) ∷ rest) small =
      let (same, fits) = place-capacity listens p e p.waiters in
      let ih =
        length-arrivals (register_entry listens p e).0 rest (omega (arith, same, fits small)) in
      omega (arith, same, ih)
