-- ===== src/Server/Bridge/Legs.antt =====
-- A visit through the bridge of rust_frp_server/src/control.rs: who gets a leg, and the pair of
-- connections that two installed legs give.
use rust_frp.Common.{
  ℕ, Option, none, some, true, false, ◌||◌, Result, ok, err, String, is_some, ◌≡◌, ◌≢◌, refl, ◌∙◌,
  ap, List, arith,
}
use rust_frp.Common.Equality.{=?_iff, string_eq}
use rust_frp.Common.Map.{Map, get-remove_self, get-modify_self, get-retain, map_option}
use rust_frp.Common.Map
use rust_frp.Util.ConstantTime.{constant_time_eq_iff}
use rust_frp.Server.Bridge.Claims.{claim-authorize}
use rust_frp.Server.Bridge.{
  Role, owner, visitor, BridgeState, BridgeManager, BridgeError, is_alive, expired_reason, reap,
  authorize, reserved, conn_of, set_reserved, fill, claim, reserve_as, reserve_found, reserve_leg,
  install_pair, install_found, both, install_leg,
}

abbrev pub other : Role → Role
other owner = visitor
other visitor = owner

module _ {ℓ} {Conn : Type ℓ} where
  -- The run id and the key that a role must show.
  abbrev pub run_id_of : Role → BridgeState Conn → String
  run_id_of owner s = s.owner_run_id
  run_id_of visitor s = s.visitor_run_id

  abbrev pub key_of : Role → BridgeState Conn → List ℕ
  key_of owner s = s.owner_key
  key_of visitor s = s.visitor_key

  authorize-credentials :
      (s : BridgeState Conn) (run_id : String) (key : List ℕ) (role : Role)
      → authorize s run_id key ≡ some role
      → (run_id ≡ run_id_of role s) × (key ≡ key_of role s)
  unfolding authorize
  authorize-credentials s run_id key owner h =
      ground (arith, =?_iff run_id s.owner_run_id, constant_time_eq_iff key s.owner_key)
  authorize-credentials s run_id key visitor h =
      ground (arith, =?_iff run_id s.visitor_run_id, constant_time_eq_iff key s.visitor_key)

  reserve_as-ok :
      (m : BridgeManager Conn) (id : String) (r : Result BridgeError Role) (role : Role)
      → (reserve_as m id r).1 ≡ ok role
      → r ≡ ok role
  unfolding reserve_as
  reserve_as-ok m id (ok role') role h = h
  reserve_as-ok m id (err e) role h = h

  -- `id` has a bridge that is alive, on which `role` is free and these are its credentials.
  abbrev pub MayTake : BridgeManager Conn → ℕ → String → String → List ℕ → Role → Type ℓ
  MayTake m now id run_id key role =
      (s : BridgeState Conn) × (Map.get id m.bridges ≡ some s)
      × (expired_reason now s ≡ none)
      × (run_id ≡ run_id_of role s)
      × (key ≡ key_of role s)
      × (reserved role s || is_some (conn_of role s) ≡ false)

  reserve_found-ok :
      (m : BridgeManager Conn) (id run_id : String) (key : List ℕ) (role : Role)
      (o : Option (BridgeState Conn))
      → (reserve_found m id run_id key o).1 ≡ ok role
      → (s : BridgeState Conn) × (o ≡ some s) × (claim s run_id key ≡ ok role)
  unfolding reserve_found
  reserve_found-ok m id run_id key role none h = absurd (ground arith)
  reserve_found-ok m id run_id key role (some s) h =
      (s, refl, reserve_as-ok m id (claim s run_id key) role h)

  get-reap :
      (m : BridgeManager Conn) (now : ℕ) (id : String) (s : BridgeState Conn)
      → Map.get id (reap now m.bridges) ≡ some s
      → (Map.get id m.bridges ≡ some s) × (expired_reason now s ≡ none)
  unfolding reap is_alive
  get-reap m now id s h = (
    ground (arith, get-retain (is_alive now) id m.bridges),
    ground (arith, get-retain (is_alive now) id m.bridges),
  )

  -- A leg is given only to the party it is for: if `reserve_leg` grants a role, the bridge exists and
  -- has not expired, the caller gave the run id and the key that the bridge holds for that role, and
  -- nobody held or filled that leg.
  pub reserve_leg-MayTake :
      (m : BridgeManager Conn) (now : ℕ) (id run_id : String) (key : List ℕ) (role : Role)
      → (reserve_leg m now id run_id key).1 ≡ ok role
      → MayTake m now id run_id key role
  unfolding reserve_leg
  reserve_leg-MayTake m now id run_id key role h =
      let (s, found, claimed) = reserve_found-ok _ id run_id key role _ h in
      let (allowed, free) = claim-authorize s run_id key role claimed in
      let (here, alive) = get-reap m now id s found in
      let (same_id, same_key) = authorize-credentials s run_id key role allowed in
      (s, here, alive, same_id, same_key, free)

  reserved-set_reserved :
      (role : Role) (s : BridgeState Conn) → reserved role (set_reserved role true s) ≡ true
  reserved-set_reserved owner s = refl
  reserved-set_reserved visitor s = refl

  reserve_found-marks :
      (m : BridgeManager Conn) (id run_id : String) (key : List ℕ) (role : Role)
      (s : BridgeState Conn)
      → Map.get id m.bridges ≡ some s
      → (reserve_found m id run_id key (some s)).1 ≡ ok role
      → Map.get id (reserve_found m id run_id key (some s)).0.bridges
        ≡ some (set_reserved role true s)
  unfolding reserve_found reserve_as
  reserve_found-marks m id run_id key role s found h =
      let claimed = reserve_as-ok m id (claim s run_id key) role h in
      rw claimed (
        get-modify_self id (set_reserved role true) m.bridges
        ∙ ap (map_option (set_reserved role true)) found)

  reserve_leg-marks :
      (m : BridgeManager Conn) (now : ℕ) (id run_id : String) (key : List ℕ) (role : Role)
      → (reserve_leg m now id run_id key).1 ≡ ok role
      → (s : BridgeState Conn) × (Map.get id (reserve_leg m now id run_id key).0.bridges
          ≡ some (set_reserved role true s))
  unfolding reserve_leg
  reserve_leg-marks m now id run_id key role h =
      let (s, found, claimed) = reserve_found-ok _ id run_id key role _ h in
      (
        s,
        rw found (
            reserve_found-marks (record m { bridges = reap now m.bridges }) id run_id key role s
              found (rw found at h)),
      )

  -- A leg that was just given is not given again: whoever asks next, with whatever credentials and at
  -- whatever time, does not get the same role on that bridge.
  pub reserve_leg-reserve_leg :
      (m : BridgeManager Conn) (now later : ℕ) (id run_id run_id' : String) (key key' : List ℕ)
      (role : Role)
      → (reserve_leg m now id run_id key).1 ≡ ok role
      → (reserve_leg (reserve_leg m now id run_id key).0 later id run_id' key').1 ≢ ok role
  reserve_leg-reserve_leg m now later id run_id run_id' key key' role first second =
      let (s, marked) = reserve_leg-marks m now id run_id key role first in
      let (t, found, alive, same_id, same_key, free) =
        reserve_leg-MayTake (reserve_leg m now id run_id key).0 later id run_id' key' role second in
      ground (arith, reserved-set_reserved role s)

  -- The pair as `install_leg` returns it: the owner's connection first.
  abbrev pub paired : Role → Conn → Conn → Conn × Conn
  paired owner mine theirs = (mine, theirs)
  paired visitor mine theirs = (theirs, mine)

  -- A leg that is reserved and has no connection yet.
  abbrev pub Waits : Role → BridgeState Conn → Type 0
  Waits role s = (reserved role s ≡ true) × (is_some (conn_of role s) ≡ false)

  both-first :
      (role : Role) (c : Conn) (s : BridgeState Conn)
      → Waits (other role) s
      → both (fill role c s).owner_conn (fill role c s).visitor_conn ≡ none
  both-first owner c s v = ground arith
  both-first visitor c s v = ground arith

  both-second :
      (role : Role) (c d : Conn) (s : BridgeState Conn)
      → both
          (fill (other role) d (fill role c s)).owner_conn
          (fill (other role) d (fill role c s)).visitor_conn
        ≡ some (paired role c d)
  both-second owner c d s = refl
  both-second visitor c d s = refl

  fill-Waits :
      (role : Role) (c : Conn) (s : BridgeState Conn)
      → Waits (other role) s
      → Waits (other role) (fill role c s)
  fill-Waits owner c s v = v
  fill-Waits visitor c s v = v

  install_leg-first :
      (m : BridgeManager Conn) (id : String) (role : Role) (c : Conn) (s : BridgeState Conn)
      → Map.get id m.bridges ≡ some s
      → Waits role s
      → Waits (other role) s
      → install_leg m id role c
        ≡ (record m { bridges = Map.modify id (fill role c) m.bridges }, ok none)
  unfolding install_leg install_found install_pair
  install_leg-first m id role c s found (held, empty) rest =
      rw (found, held, empty, both-first role c s rest) refl

  install_leg-second :
      (m : BridgeManager Conn) (id : String) (role : Role) (c d : Conn) (s : BridgeState Conn)
      → Map.get id m.bridges ≡ some (fill role c s)
      → Waits (other role) (fill role c s)
      → install_leg m id (other role) d
        ≡ (record m { bridges = Map.remove id m.bridges }, ok (some (paired role c d)))
  unfolding install_leg install_found install_pair
  install_leg-second m id role c d s found (held, empty) =
      rw (found, held, empty, both-second role c d s) refl

  -- When both legs of a bridge are reserved, in whatever order the two connections are installed:
  -- the first waits, the second completes the pair, which comes out with the owner's connection
  -- before the visitor's, and the bridge is gone.
  pub install_leg-install_leg :
      (m : BridgeManager Conn) (id : String) (role : Role) (c d : Conn) (s : BridgeState Conn)
      → Map.get id m.bridges ≡ some s
      → Waits role s
      → Waits (other role) s
      → let first = install_leg m id role c in
        let second = install_leg first.0 id (other role) d in
        (first.1 ≡ ok none)
        × (second.1 ≡ ok (some (paired role c d)))
        × (Map.get id second.0.bridges ≡ none)
  install_leg-install_leg m id role c d s found mine theirs =
      let one = install_leg-first m id role c s found mine theirs in
      let two =
        install_leg-second (record m { bridges = Map.modify id (fill role c) m.bridges }) id role c
          d s (get-modify_self id (fill role c) m.bridges ∙ ap (map_option (fill role c)) found)
          (fill-Waits role c s theirs) in
      rw one (
        refl,
        ap (λ r. r.1) two,
        rw two (get-remove_self id (Map.modify id (fill role c) m.bridges)),
      )
