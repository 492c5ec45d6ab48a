-- ===== src/Server/Login/Outcomes.antt =====
-- What the login of rust_frp_server/src/control.rs leaves behind, accepted or not.
use rust_frp.Common.{
  ℕ, Option, none, some, Bool, true, false, ◌&&◌, Result, ok, err, ◌≡◌, ◌⊎◌, refl, sym, ◌∙◌, ap,
  subst, inl, inr, All, Bool-cases, ◌-◌, ◌/◌, ◌≤◌, ◌<◌, List,
}
use rust_frp.Common.Equality.{bytes_eq}
use rust_frp.Common.Text.{Text}
use rust_frp.Server.Throttle.{LoginThrottle, ThrottleKey}
use rust_frp.Server.Clients.{ControlManager, degraded_client_id_reason}
use rust_frp.Server.Clients.Calls.{EndsSession}
use rust_frp.Server.Clients.History.{IsConsistent, keep-IsConsistent}
use rust_frp.Server.Clients.Takeover.Sessions.{differ}
use rust_frp.Server.Login.{
  World, Connection, Times, LoginMsg, PluginContent, Outcome, throttled, bad_credentials,
  plugin_rejected, degraded_rejected, accepted, session_of, content_of, check_lock, note_failure,
  note_success, is_rejected, login_as, login_plugged, throttle_key, login_verified, login_checked,
  handle_login,
}
use rust_frp.Server.Throttle.{run}
use rust_frp.Server.Throttle
use rust_frp.Server.Throttle.Lockout.{IsSound, LockedFor, AreBefore, check-run_locked}
use rust_frp.Server.Login.Entry.{Entered, enter-Entered}

-- Only the throttle differs.
abbrev pub SameSessions : ControlManager → ControlManager → Type 0
SameSessions m m' = m' ≡ record m { login_throttle = m'.login_throttle }

SameSessions-trans :
    (a b c : ControlManager) → SameSessions a b → SameSessions b c → SameSessions a c
SameSessions-trans a b c p q =
    q ∙ ap (λ (m : ControlManager). record m { login_throttle = c.login_throttle }) p

check_lock-SameSessions :
    (m : ControlManager) (t : Option LoginThrottle) (key : Option ThrottleKey) (now : ℕ)
    → SameSessions m (check_lock m t key now).0
check_lock-SameSessions m (some t) (some key) now = refl
check_lock-SameSessions m (some t) none now = refl
check_lock-SameSessions m none key now = refl

note_failure-SameSessions :
    (m : ControlManager) (t : Option LoginThrottle) (key : Option ThrottleKey) (now : ℕ)
    → SameSessions m (note_failure m t key now)
note_failure-SameSessions m (some t) (some key) now = refl
note_failure-SameSessions m (some t) none now = refl
note_failure-SameSessions m none key now = refl

note_success-SameSessions :
    (m : ControlManager) (t : Option LoginThrottle) (key : Option ThrottleKey)
    → SameSessions m (note_success m t key)
note_success-SameSessions m (some t) (some key) = refl
note_success-SameSessions m (some t) none = refl
note_success-SameSessions m none key = refl

module _ (w : World) (c : Connection) (times : Times) (msg : LoginMsg) where
  -- The two ways a login ends.
  abbrev pub Ended : ControlManager → ControlManager × Outcome → Type 0
  Ended m (m', accepted s) = Entered w c times msg m m' s
  Ended m (m', throttled seconds) = SameSessions m m'
  Ended m (m', bad_credentials) = SameSessions m m'
  Ended m (m', plugin_rejected) = SameSessions m m'
  Ended m (m', degraded_rejected) = SameSessions m m'

  -- A login that gets as far as the plugins, on a manager of which only the throttle has changed.
  login_as-Ended :
      (m : ControlManager) (content : PluginContent)
      → IsConsistent m
      → ((r : Text) → All (EndsSession r) (w.meanwhile r))
      → w.verify_login msg.user msg.token ≡ true
      → w.plugin (content_of msg) ≡ ok content
      → Ended m (login_as w c times msg m (session_of content))
  login_as-Ended m content v own verified plugged =
      let s = session_of content in
      elim (Bool-cases
        (is_rejected m.client_id_policy (degraded_client_id_reason s.client_id msg.hostname))) [
          | inl rejected ↦ rw rejected refl
          | inr fit ↦
              rw fit (enter-Entered w c times msg m content s v own verified plugged refl fit)
        ]

  -- What holds of the manager with another throttle holds of the manager.
  same-Ended :
      (m m1 : ControlManager) (r : ControlManager × Outcome)
      → SameSessions m m1
      → Ended m1 r
      → Ended m r
  same-Ended m m1 (m', accepted s) same e = record {
    verified = e.verified;
    allowed = e.allowed;
    fit =
        subst (λ p. is_rejected p (degraded_client_id_reason s.client_id msg.hostname) ≡ false)
          (ap (λ (n : ControlManager). n.client_id_policy) same) e.fit;
    on_line = e.on_line;
    authenticated = e.authenticated;
    can_be_kicked = e.can_be_kicked;
    alone = λ k other found own_id.
        subst
          (λ b.
            (k ≡ s.run_id) ⊎ ((b && differ other.cert_fingerprint c.peer_cert_fingerprint) ≡ true))
          (ap (λ (n : ControlManager). n.kick_require_same_cert) same)
          (e.alone k other found own_id);
  }
  same-Ended m m1 (m', throttled seconds) same e = SameSessions-trans m m1 m' same e
  same-Ended m m1 (m', bad_credentials) same e = SameSessions-trans m m1 m' same e
  same-Ended m m1 (m', plugin_rejected) same e = SameSessions-trans m m1 m' same e
  same-Ended m m1 (m', degraded_rejected) same e = SameSessions-trans m m1 m' same e

  same-IsConsistent : (m m1 : ControlManager) → SameSessions m m1 → IsConsistent m → IsConsistent m1
  same-IsConsistent m m1 same v =
      keep-IsConsistent m m1 (ap (λ (n : ControlManager). n.clients) same)
        (ap (λ (n : ControlManager). n.offline_clients) same) v

  login_plugged-Ended :
      (m : ControlManager) (answer : Result (Unit {0}) PluginContent)
      → IsConsistent m
      → ((r : Text) → All (EndsSession r) (w.meanwhile r))
      → w.verify_login msg.user msg.token ≡ true
      → w.plugin (content_of msg) ≡ answer
      → Ended m (login_plugged w c times msg m answer)
  login_plugged-Ended m (err reason) v own verified plugged = refl
  login_plugged-Ended m (ok content) v own verified plugged =
      login_as-Ended m content v own verified plugged

  login_verified-Ended :
      (m : ControlManager) (verdict : Bool)
      → IsConsistent m
      → ((r : Text) → All (EndsSession r) (w.meanwhile r))
      → w.verify_login msg.user msg.token ≡ verdict
      → Ended m (login_verified w c times msg m verdict)
  login_verified-Ended m false v own is_verdict =
      note_failure-SameSessions m m.login_throttle (throttle_key w c times msg) times.failed
  login_verified-Ended m true v own is_verdict =
      let m1 = note_success m m.login_throttle (throttle_key w c times msg) in
      let same = note_success-SameSessions m m.login_throttle (throttle_key w c times msg) in
      same-Ended m m1 (login_plugged w c times msg m1 (w.plugin (content_of msg))) same
        (login_plugged-Ended m1 _ (same-IsConsistent m m1 same v) own is_verdict refl)

  login_checked-Ended :
      (m : ControlManager) (r : ControlManager × Result ℕ (Unit {0}))
      → IsConsistent m
      → SameSessions m r.0
      → ((k : Text) → All (EndsSession k) (w.meanwhile k))
      → Ended m (login_checked w c times msg r)
  login_checked-Ended m (m1, err remaining) v same own = same
  login_checked-Ended m (m1, ok u) v same own =
      same-Ended m m1 (login_verified w c times msg m1 (w.verify_login msg.user msg.token)) same
        (login_verified-Ended m1 _ (same-IsConsistent m m1 same v) own refl)

-- A login ends in one of two ways, while the manager's tables agree and a session that is taken
-- over calls the manager only to end. Accepted: the credentials were verified, the plugins let the
-- login pass, and the policy allows its client id; the session is on line with what was registered,
-- has the authentication of its connection and can be kicked; and every other session of that
-- client that is left is one that a differing certificate protects. Or not accepted: no table and
-- no history of the manager has changed, but for the throttle.
pub handle_login-Ended :
    (w : World) (c : Connection) (times : Times) (msg : LoginMsg) (m : ControlManager)
    → IsConsistent m
    → ((k : Text) → All (EndsSession k) (w.meanwhile k))
    → Ended w c times msg m (handle_login w c times msg m)
unfolding handle_login
handle_login-Ended w c times msg m v own =
    login_checked-Ended w c times msg m
      (check_lock m m.login_throttle (throttle_key w c times msg) times.checked) v
      (check_lock-SameSessions m m.login_throttle (throttle_key w c times msg) times.checked) own

-- While a lockout lasts, no login of the locked client gets through, whatever its credentials, the
-- plugins and the policy say: the manager stays as it is and the answer says how many seconds are
-- left. This holds after any calls on the throttle since the lock, if their times ascend, lie before
-- the end of the lock, and none of them is the success of a login of the same client.
pub handle_login-locked :
    (w : World) (c : Connection) (times : Times) (msg : LoginMsg) (m : ControlManager)
    (t : LoginThrottle) (k : ThrottleKey) (clock until : ℕ) (others : List (ℕ × Throttle.Call))
    → m.login_throttle ≡ some (run t others)
    → throttle_key w c times msg ≡ some k
    → IsSound t clock
    → LockedFor t k until
    → AreBefore clock until k others
    → times.checked < until
    → (u : ℕ) × (until ≤ u)
      × (handle_login w c times msg m ≡ (m, throttled ((u - times.checked) / 1_000_000_000)))
unfolding handle_login
handle_login-locked w c times msg m t k clock until others is_run is_key sound lock before early =
    let (u, late, refused) =
      check-run_locked t k clock until times.checked others sound lock before early in
    (
      u,
      late,
      ap
            (λ (o : Option LoginThrottle).
              login_checked w c times msg
                (check_lock m o (throttle_key w c times msg) times.checked))
            is_run
          ∙ ap
              (λ (o : Option ThrottleKey).
                login_checked w c times msg (check_lock m (some (run t others)) o times.checked))
              is_key
          ∙ ap
              (λ (r : LoginThrottle × Result ℕ (Unit {0})).
                login_checked w c times msg (record m { login_throttle = some r.0 }, r.1))
              refused
          ∙ ap
              (λ (o : Option LoginThrottle).
                (record m { login_throttle = o }, throttled ((u - times.checked) / 1_000_000_000)))
              (sym is_run),
    )
