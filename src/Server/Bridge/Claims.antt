-- ===== src/Server/Bridge/Claims.antt =====
-- One bridge of rust_frp_server/src/control.rs: who may claim a leg, and what a claim, a release and
-- an installed connection do to the legs.
use rust_frp.Common.{
  ℕ, Option, none, some, true, false, ◌&&◌, ◌||◌, ok, String, is_some, ◌≡◌, List, arith,
}
use rust_frp.Common.Equality.{string_eq}
use rust_frp.Server.Bridge.{
  Role, owner, visitor, BridgeState, authorize, reserved, conn_of, set_reserved, fill, claim,
  take_leg,
}

module _ {ℓ} {Conn : Type ℓ} where
  -- A reserved leg is empty, and a bridge with both connections is gone.
  abbrev pub LegsOk : BridgeState Conn → Type 0
  LegsOk s =
      (s.owner_reserved && is_some s.owner_conn ≡ false)
      × (s.visitor_reserved && is_some s.visitor_conn ≡ false)
      × (is_some s.owner_conn && is_some s.visitor_conn ≡ false)

  take_leg-eq-ok :
      (s : BridgeState Conn) (o : Option Role) (role : Role)
      → take_leg s o ≡ ok role
      → (o ≡ some role) × (reserved role s || is_some (conn_of role s) ≡ false)
  take_leg-eq-ok s none role h = absurd (ground arith)
  take_leg-eq-ok s (some owner) owner h = ground arith
  take_leg-eq-ok s (some owner) visitor h = absurd (ground arith)
  take_leg-eq-ok s (some visitor) owner h = absurd (ground arith)
  take_leg-eq-ok s (some visitor) visitor h = ground arith

  -- A granted claim was authorised, for a leg that is free.
  pub claim-authorize :
      (s : BridgeState Conn) (run_id : String) (key : List ℕ) (role : Role)
      → claim s run_id key ≡ ok role
      → (authorize s run_id key ≡ some role) × (reserved role s || is_some (conn_of role s) ≡ false)
  unfolding claim
  claim-authorize s run_id key role h = take_leg-eq-ok s (authorize s run_id key) role h

  pub claim-free :
      (s : BridgeState Conn) (run_id : String) (key : List ℕ) (role : Role)
      → claim s run_id key ≡ ok role
      → reserved role s || is_some (conn_of role s) ≡ false
  claim-free s run_id key role h = (claim-authorize s run_id key role h).1

  pub reserve-LegsOk :
      (s : BridgeState Conn) (role : Role)
      → reserved role s || is_some (conn_of role s) ≡ false
      → LegsOk s
      → LegsOk (set_reserved role true s)
  reserve-LegsOk s owner free v = ground arith
  reserve-LegsOk s visitor free v = ground arith

  pub release-LegsOk :
      (s : BridgeState Conn) (role : Role) → LegsOk s → LegsOk (set_reserved role false s)
  release-LegsOk s owner v = ground arith
  release-LegsOk s visitor v = ground arith

  pub fill-LegsOk :
      (s : BridgeState Conn) (role : Role) (c : Conn)
      → is_some (fill role c s).owner_conn && is_some (fill role c s).visitor_conn ≡ false
      → LegsOk s
      → LegsOk (fill role c s)
  fill-LegsOk s owner c one v = ground arith
  fill-LegsOk s visitor c one v = ground arith
