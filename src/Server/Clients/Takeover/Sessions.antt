-- ===== src/Server/Clients/Takeover/Sessions.antt =====
-- Which sessions `kick_same_client` in rust_frp_server/src/control.rs ends, and that it leaves the tables of
-- the manager consistent.
use rust_frp.Common.{
  ℕ, Option, none, some, Bool, false, not, ◌&&◌, ◌||◌, ◌≡◌, refl, ◌∙◌, ap, inl, inr, List, [], ◌∷◌,
  All, if◌then◌else◌, arith, Bool-cases, true,
}
use rust_frp.Common.Equality.{◌=?◌, =?_iff, =?_self, bytes_eq}
use rust_frp.Common.Text.{Text}
use rust_frp.Common.Map.{find, Distinct, Map}
use rust_frp.Common.Map
use rust_frp.Server.Clients.{ClientInfo, ControlManager}
use rust_frp.Server.Clients.Calls.{
  Call, takes_signal, drops_session, take_signal, step, EndsSession,
}
use rust_frp.Server.Clients.History.{IsConsistent, step-IsConsistent, run-IsConsistent}
use rust_frp.Server.Clients.Takeover.{
  old_sessions, refuses, await_end, kick_session, kick_sessions, kick_same_client,
}
use rust_frp.Server.Clients.Takeover.Effect.{held, nothing_held, is_kicked, kick_sessions-held}

abbrev pub contains : Text → List Text → Bool
contains k [] = false
contains k (x ∷ xs) = x =? k || contains k xs

kick_sessions-kicked :
    (meanwhile : Text → List Call) (same_cert : Bool) (new : Option Text) (m : ControlManager)
    (sessions : List (Text × Option Text)) (k : Text)
    → contains k (kick_sessions meanwhile same_cert new m sessions).1
      ≡ is_kicked k same_cert new sessions
unfolding kick_sessions is_kicked
kick_sessions-kicked meanwhile same_cert new m [] k = refl
kick_sessions-kicked meanwhile same_cert new m ((old, fingerprint) ∷ sessions) k =
    elim (Bool-cases (refuses same_cert fingerprint new)) [
      | inl refused ↦
          rw refused (ground (arith, kick_sessions-kicked meanwhile same_cert new m sessions k))
      | inr allowed ↦ rw allowed (
          ground (
            arith,
            kick_sessions-kicked meanwhile same_cert new (kick_session m old (meanwhile old))
                sessions k,
          ))
    ]

-- Both sides have a certificate, and the two are not the same.
abbrev pub differ : Option Text → Option Text → Bool
differ none new = false
differ (some old) none = false
differ (some old) (some new) = not (old =? new)

refuses-differ :
    (same_cert : Bool) (old new : Option Text)
    → refuses same_cert old new ≡ same_cert && differ old new
refuses-differ true none none = refl
refuses-differ true none (some b) = refl
refuses-differ true (some a) none = refl
refuses-differ true (some a) (some b) = refl
refuses-differ false none none = refl
refuses-differ false none (some b) = refl
refuses-differ false (some a) none = refl
refuses-differ false (some a) (some b) = refl

-- Whether a session, if there is one, is taken over: it is another session of the client, and no
-- certificate speaks against it.
abbrev pub taken_over : Text → Text → Bool → Option Text → Option ClientInfo → Bool
taken_over client_id new_run_id same_cert new none = false
taken_over client_id new_run_id same_cert new (some c) =
    (c.client_id =? client_id && not (c.run_id =? new_run_id))
    && not (same_cert && differ c.cert_fingerprint new)

is_kicked-old_sessions :
    (client_id new_run_id : Text) (same_cert : Bool) (new : Option Text) (k : Text)
    (entries : List (Text × ClientInfo))
    → Distinct entries
    → ((j : Text) (c : ClientInfo) → find j entries ≡ some c → c.run_id ≡ j)
    → is_kicked k same_cert new (old_sessions client_id new_run_id entries)
      ≡ taken_over client_id new_run_id same_cert new (find k entries)
unfolding is_kicked old_sessions find
is_kicked-old_sessions client_id new_run_id same_cert new k [] distinct keys = refl
is_kicked-old_sessions client_id new_run_id same_cert new k ((j, c) ∷ entries) (fresh, distinct)
      keys =
    let key : c.run_id ≡ j = keys j c (ground (arith, =?_self j)) in
    let verdict = refuses-differ same_cert c.cert_fingerprint new in
    let rest =
      is_kicked-old_sessions client_id new_run_id same_cert new k entries distinct
        λ i d found. keys i d (ground (arith, =?_iff j i)) in
    elim (Bool-cases (j =? k)) [
      | inl here ↦
          let missing : find k entries ≡ none = ground (arith, =?_iff j k) in
          ground (arith, rest, verdict, =?_iff j k)
      | inr other ↦ ground (arith, rest, verdict)
    ]

-- A login of a client ends the sessions that it takes over and no others. While the manager waits
-- for one of them, only that session itself calls it. Then, for any run id: nothing is left in any
-- of the tables if its session had the same client id, was not the new one, and was not protected
-- by a certificate that differs from the new one; otherwise all the tables hold on it what they
-- held before. The answer lists exactly the sessions that were ended.
pub kick_same_client-held :
    (meanwhile : Text → List Call) (m : ControlManager) (client_id new_run_id : Text)
    (new : Option Text) (k : Text)
    → IsConsistent m
    → ((r : Text) → All (EndsSession r) (meanwhile r))
    → let (m', kicked) = kick_same_client meanwhile m client_id new_run_id new in
      let taken =
        taken_over client_id new_run_id m.kick_require_same_cert new (Map.get k m.clients) in
      (held k m' ≡ (if taken then nothing_held else held k m)) × (contains k kicked ≡ taken)
unfolding kick_same_client Map.get
kick_same_client-held meanwhile m client_id new_run_id new k v own =
    let sessions = old_sessions client_id new_run_id m.clients.entries in
    let same_cert = m.kick_require_same_cert in
    let kicks =
      is_kicked-old_sessions client_id new_run_id same_cert new k m.clients.entries
        m.clients.distinct λ j c found. (v.on_line j c found).0 in
    (
      kick_sessions-held meanwhile same_cert new m sessions k own
          ∙ ap (λ b. if b then nothing_held else held k m) kicks,
      kick_sessions-kicked meanwhile same_cert new m sessions k ∙ kicks,
    )

await_end-IsConsistent :
    (m : ControlManager) (signal : Option ℕ) (calls : List Call)
    → IsConsistent m
    → IsConsistent (await_end m signal calls)
await_end-IsConsistent m none calls v = v
await_end-IsConsistent m (some signal) calls v = run-IsConsistent m calls v

kick_session-IsConsistent :
    (m : ControlManager) (old : Text) (calls : List Call)
    → IsConsistent m
    → IsConsistent (kick_session m old calls)
unfolding kick_session step
kick_session-IsConsistent m old calls v =
    step-IsConsistent (await_end (take_signal m old) (Map.get old m.kick_signals) calls)
      (drops_session old)
      (await_end-IsConsistent (take_signal m old) (Map.get old m.kick_signals) calls
        (step-IsConsistent m (takes_signal old) v))

kick_sessions-IsConsistent :
    (meanwhile : Text → List Call) (same_cert : Bool) (new : Option Text) (m : ControlManager)
    (sessions : List (Text × Option Text))
    → IsConsistent m
    → IsConsistent (kick_sessions meanwhile same_cert new m sessions).0
unfolding kick_sessions
kick_sessions-IsConsistent meanwhile same_cert new m [] v = v
kick_sessions-IsConsistent meanwhile same_cert new m ((old, fingerprint) ∷ sessions) v =
    elim (Bool-cases (refuses same_cert fingerprint new)) [
      | inl refused ↦
          rw (kick_sessions, refused)
            (kick_sessions-IsConsistent meanwhile same_cert new m sessions v)
      | inr allowed ↦
          rw (kick_sessions, allowed)
            (kick_sessions-IsConsistent meanwhile same_cert new (kick_session m old (meanwhile old))
              sessions (kick_session-IsConsistent m old (meanwhile old) v))
    ]

-- A task of the server: single calls, and logins that take over.
pub data Event : Type 0 where
  calls : Call → Event
  kicks : (Text → List Call) → Text → Text → Option Text → Event

unfoldable pub serve : ControlManager → List Event → ControlManager
unfolding step kick_same_client
serve m [] = m
serve m (calls call ∷ events) = serve (step m call) events
serve m (kicks meanwhile client_id new_run_id new ∷ events) =
    serve (kick_same_client meanwhile m client_id new_run_id new).0 events

-- Whatever calls are made of the manager, those included that other tasks make while a takeover
-- waits: the history holds at most 200 sessions, all of them off line and none of them twice, and a
-- session that is on line is filed under its own run id and is not in the history as well.
pub serve-IsConsistent :
    (m : ControlManager) (events : List Event) → IsConsistent m → IsConsistent (serve m events)
unfolding serve kick_same_client
serve-IsConsistent m [] v = v
serve-IsConsistent m (calls call ∷ events) v =
    serve-IsConsistent (step m call) events (step-IsConsistent m call v)
serve-IsConsistent m (kicks meanwhile client_id new_run_id new ∷ events) v =
    serve-IsConsistent (kick_same_client meanwhile m client_id new_run_id new).0 events (
      kick_sessions-IsConsistent meanwhile m.kick_require_same_cert new m
        (old_sessions client_id new_run_id m.clients.entries) v)
