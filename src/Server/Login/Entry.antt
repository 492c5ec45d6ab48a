-- ===== src/Server/Login/Entry.antt =====
-- What an accepted login of rust_frp_server/src/control.rs leaves behind.
use rust_frp.Common.{
  Option, some, Bool, true, false, ◌&&◌, ok, ◌≡◌, ◌⊎◌, refl, sym, ◌∙◌, ap, subst, inl, inr, All,
  if◌then◌else◌, arith,
}
use rust_frp.Common.Equality.{=?_iff, =?_self, bytes_eq}
use rust_frp.Common.Text.{Text}
use rust_frp.Common.Map.{Map, get-insert_self, get-insert}
use rust_frp.Common.Map
use rust_frp.Server.Clients.{
  ClientInfo, ControlManager, add_client, set_auth_manager, register_kick, registered,
  degraded_client_id_reason,
}
use rust_frp.Server.Clients.Calls.{EndsSession, adds_client, sets_auth, step}
use rust_frp.Server.Clients.History.{IsConsistent, step-IsConsistent}
use rust_frp.Server.Clients.Takeover.{kick_same_client}
use rust_frp.Server.Clients.Takeover.Effect.{Held, held, nothing_held}
use rust_frp.Server.Clients.Takeover.Sessions.{differ, taken_over, kick_same_client-held}
use rust_frp.Server.Login.{
  World, Connection, Times, LoginMsg, Session, PluginContent, session_of, content_of, is_rejected,
  registration, enrolled, enter,
}

held-stays :
    (b : Bool) (x y : Held) (other : ClientInfo)
    → x ≡ (if b then nothing_held else y)
    → x.2 ≡ some other
    → (b ≡ false) × (y.2 ≡ some other)
held-stays true x y other p found = absurd (ground (arith, ap (λ (h : Held). h.2) p))
held-stays false x y other p found = (refl, ap (λ (h : Held). h.2) (sym p) ∙ found)

not_taken_over :
    (client_id run_id : Text) (same_cert : Bool) (new : Option Text) (other : ClientInfo)
    → taken_over client_id run_id same_cert new (some other) ≡ false
    → other.client_id ≡ client_id
    → (other.run_id ≡ run_id) ⊎ ((same_cert && differ other.cert_fingerprint new) ≡ true)
not_taken_over client_id run_id same_cert new other stays same =
    ground (arith, =?_iff other.client_id client_id, =?_iff other.run_id run_id)

-- The session that a login opens, and what must hold of it.
module _ (w : World) (c : Connection) (times : Times) (msg : LoginMsg) where
  abbrev pub info : Session → ClientInfo
  info s = registered (registration w c times msg s) times.added times.timestamp

  -- What an accepted login has shown and left behind.
  pub record Entered (m m' : ControlManager) (s : Session) : Type 0 where
    pub verified : w.verify_login msg.user msg.token ≡ true
    pub allowed :
        (content : PluginContent) × (w.plugin (content_of msg) ≡ ok content)
        × (session_of content ≡ s)
    pub fit :
        is_rejected m.client_id_policy (degraded_client_id_reason s.client_id msg.hostname) ≡ false
    pub on_line : Map.get s.run_id m'.clients ≡ some (info s)
    pub authenticated : Map.get s.run_id m'.auth_managers ≡ some c.auth_manager
    pub can_be_kicked : Map.get s.run_id m'.kick_signals ≡ some c.kick_signal
    pub alone :
        (k : Text) (other : ClientInfo)
        → Map.get k m'.clients ≡ some other
        → other.client_id ≡ s.client_id
        → (k ≡ s.run_id)
          ⊎ ((m.kick_require_same_cert && differ other.cert_fingerprint c.peer_cert_fingerprint)
              ≡ true)

  enrolled-IsConsistent :
      (m : ControlManager) (s : Session)
      → IsConsistent m
      → IsConsistent (enrolled w c times msg m s)
  unfolding step
  enrolled-IsConsistent m s v =
      step-IsConsistent (add_client m (registration w c times msg s) times.added times.timestamp)
        (sets_auth s.run_id c.auth_manager)
        (step-IsConsistent m
          (adds_client (registration w c times msg s) times.added times.timestamp) v)

  enrolled-held :
      (m : ControlManager) (s : Session)
      → (Map.get s.run_id (enrolled w c times msg m s).clients ≡ some (info s))
        × (Map.get s.run_id (enrolled w c times msg m s).auth_managers ≡ some c.auth_manager)
  unfolding add_client set_auth_manager
  enrolled-held m s = (
    get-insert_self s.run_id (info s) m.clients,
    get-insert_self s.run_id c.auth_manager m.auth_managers,
  )

  -- The takeover of a login: the session itself stays, and of the client's others only those that a
  -- certificate protects.
  module _ (m : ControlManager) (s : Session) (v : IsConsistent m)
      (own : (r : Text) → All (EndsSession r) (w.meanwhile r)) where
    abbrev kicked : ControlManager
    kicked =
        (kick_same_client w.meanwhile (enrolled w c times msg m s) s.client_id s.run_id
          c.peer_cert_fingerprint).0

    kicked-held :
        (k : Text)
        → held k kicked ≡ (
            if taken_over s.client_id s.run_id
              (enrolled w c times msg m s).kick_require_same_cert
              c.peer_cert_fingerprint
              (Map.get k (enrolled w c times msg m s).clients)
            then nothing_held
            else held k (enrolled w c times msg m s))
    kicked-held k =
        (kick_same_client-held w.meanwhile (enrolled w c times msg m s) s.client_id s.run_id
          c.peer_cert_fingerprint k (enrolled-IsConsistent m s v) own).0

    kicked_self : held s.run_id kicked ≡ held s.run_id (enrolled w c times msg m s)
    kicked_self =
        let (there, auth) = enrolled-held m s in
        let stays : taken_over s.client_id s.run_id
              (enrolled w c times msg m s).kick_require_same_cert c.peer_cert_fingerprint
              (Map.get s.run_id (enrolled w c times msg m s).clients)
            ≡ false =
          rw there (ground (arith, =?_self s.run_id, =?_self s.client_id)) in
        kicked-held s.run_id
        ∙ ap (λ b. if b then nothing_held else held s.run_id (enrolled w c times msg m s)) stays

    kicked_alone :
        (k : Text) (other : ClientInfo)
        → Map.get k kicked.clients ≡ some other
        → other.client_id ≡ s.client_id
        → (k ≡ s.run_id)
          ⊎ (((enrolled w c times msg m s).kick_require_same_cert
                && differ other.cert_fingerprint c.peer_cert_fingerprint)
              ≡ true)
    kicked_alone k other found same =
        let (stays, before) =
          held-stays _ (held k kicked) (held k (enrolled w c times msg m s)) other (kicked-held k)
            found in
        let key = ((enrolled-IsConsistent m s v).on_line k other before).0 in
        elim (not_taken_over s.client_id s.run_id
          (enrolled w c times msg m s).kick_require_same_cert c.peer_cert_fingerprint other
          (ap
              (taken_over s.client_id s.run_id (enrolled w c times msg m s).kick_require_same_cert
                c.peer_cert_fingerprint)
              (sym before)
            ∙ stays)
          same) [ inl self ↦ inl (sym key ∙ self) | inr refused ↦ inr refused ]

  enrolled-same_cert :
      (m : ControlManager) (s : Session)
      → (enrolled w c times msg m s).kick_require_same_cert ≡ m.kick_require_same_cert
  unfolding add_client set_auth_manager
  enrolled-same_cert m s = refl

  pub enter-Entered :
      (m : ControlManager) (content : PluginContent) (s : Session)
      → IsConsistent m
      → ((r : Text) → All (EndsSession r) (w.meanwhile r))
      → w.verify_login msg.user msg.token ≡ true
      → w.plugin (content_of msg) ≡ ok content
      → session_of content ≡ s
      → is_rejected m.client_id_policy (degraded_client_id_reason s.client_id msg.hostname) ≡ false
      → Entered m (enter w c times msg m s) s
  unfolding enter register_kick
  enter-Entered m content s v own verified plugged content_session fit = record {
    verified = verified;
    allowed = (content, plugged, content_session);
    fit = fit;
    on_line = ap (λ (h : Held). h.2) (kicked_self m s v own) ∙ (enrolled-held m s).0;
    authenticated = ap (λ (h : Held). h.1) (kicked_self m s v own) ∙ (enrolled-held m s).1;
    can_be_kicked = get-insert_self s.run_id c.kick_signal (kicked m s v own).kick_signals;
    alone = λ k other found same.
        subst
          (λ b.
            (k ≡ s.run_id) ⊎ ((b && differ other.cert_fingerprint c.peer_cert_fingerprint) ≡ true))
          (enrolled-same_cert m s) (kicked_alone m s v own k other found same);
  }
