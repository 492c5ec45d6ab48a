-- ===== src/Server/Clients/Takeover/Effect.antt =====
-- Which sessions `kick_same_client` in rust_frp_server/src/control.rs ends, and that it keeps the tables of
-- the manager consistent.
use rust_frp.Common.{
  ℕ, Option, none, some, Bool, false, not, ◌&&◌, ◌||◌, ◌≡◌, ◌≢◌, refl, sym, ◌∙◌, ap, subst, inl,
  inr, List, [], ◌∷◌, All, if◌then◌else◌, arith, Bool-cases,
}
use rust_frp.Common.Equality.{◌=?◌, =?_iff, bytes_eq}
use rust_frp.Common.Text.{Text}
use rust_frp.Common.Map.{
  Map, find, Distinct, get-remove_self, get-remove_ne, get-remove, get-modify_ne, map_option,
}
use rust_frp.Common.Map
use rust_frp.Server.Clients.{
  ClientInfo, ControlManager, remove, update_heartbeat, to_history, forget_channels, beat,
}
use rust_frp.Server.Clients.Calls.{
  Call, removes, heartbeats, take_signal, drop_session, step, run, EndsSession, adds,
  registers_kick, sets_auth, adds_client, clears_offline, takes_signal, drops_session,
}
use rust_frp.Server.Clients.Takeover.{refuses, await_end, kick_session, kick_sessions}

-- What the manager's tables hold on a run id.
abbrev pub Held : Type 0
Held = Option ℕ × Option ℕ × Option ClientInfo × Option ℕ

abbrev pub held : Text → ControlManager → Held
held k m = (
  Map.get k m.msg_channels,
  Map.get k m.auth_managers,
  Map.get k m.clients,
  Map.get k m.kick_signals,
)

abbrev held_of : Option ℕ → Option ℕ → Option ClientInfo → Option ℕ → Held
held_of a b c d = (a, b, c, d)

abbrev pub nothing_held : Held
nothing_held = (none, none, none, none)

held_cong :
    {a a' b b' : Option ℕ} {c c' : Option ClientInfo} {d d' : Option ℕ}
    → a ≡ a'
    → b ≡ b'
    → c ≡ c'
    → d ≡ d'
    → held_of a b c d ≡ held_of a' b' c' d'
held_cong p q r s = cc

-- Taking a session out of the tables and into the history leaves the channels and signals.
to_history-held :
    (k run_id : Text) (now : ℕ) (m : ControlManager) (o : Option ClientInfo)
    → run_id ≢ k
    → held k (to_history run_id now o m) ≡ held k m
to_history-held k run_id now m none other = refl
to_history-held k run_id now m (some c) other =
    held_cong refl refl (get-remove_ne run_id k m.clients other) refl

remove-held :
    (k run_id : Text) (now : ℕ) (m : ControlManager)
    → run_id ≢ k
    → held k (remove m run_id now) ≡ held k m
unfolding remove
remove-held k run_id now m other =
    let m1 = forget_channels m run_id in
    let m2 = to_history run_id now (Map.get run_id m.clients) m1 in
    let first : held k (record m2 { kick_signals = Map.remove run_id m2.kick_signals })
        ≡ held k m2 =
      held_cong refl refl refl (get-remove_ne run_id k m2.kick_signals other) in
    first
    ∙ to_history-held k run_id now m1 (Map.get run_id m.clients) other
    ∙ held_cong (get-remove_ne run_id k m.msg_channels other)
        (get-remove_ne run_id k m.auth_managers other) refl refl

step-held :
    (k run_id : Text) (m : ControlManager) (call : Call)
    → run_id ≢ k
    → EndsSession run_id call
    → held k (step m call) ≡ held k m
unfolding step update_heartbeat
step-held k run_id m (removes r now) other own = remove-held k r now m λ p. other (sym own ∙ p)
step-held k run_id m (heartbeats r now) other own =
    held_cong refl refl (get-modify_ne r k (beat now) m.clients λ p. other (sym own ∙ p)) refl
step-held k run_id m (adds r tx) other own = absurd own
step-held k run_id m (registers_kick r signal) other own = absurd own
step-held k run_id m (sets_auth r auth) other own = absurd own
step-held k run_id m (adds_client reg now timestamp) other own = absurd own
step-held k run_id m clears_offline other own = absurd own
step-held k run_id m (takes_signal r) other own = absurd own
step-held k run_id m (drops_session r) other own = absurd own

run-held :
    (k run_id : Text) (m : ControlManager) (calls : List Call)
    → run_id ≢ k
    → All (EndsSession run_id) calls
    → held k (run m calls) ≡ held k m
unfolding run
run-held k run_id m [] other own = refl
run-held k run_id m (call ∷ calls) other (first, own) =
    run-held k run_id (step m call) calls other own ∙ step-held k run_id m call other first

step-unsignalled :
    (k : Text) (m : ControlManager) (call : Call)
    → EndsSession k call
    → Map.get k m.kick_signals ≡ none
    → Map.get k (step m call).kick_signals ≡ none
unfolding step remove update_heartbeat
step-unsignalled k m (removes r now) own none_yet =
    let m2 = to_history r now (Map.get r m.clients) (forget_channels m r) in
    ap (λ j. Map.get k (Map.remove j m2.kick_signals)) own ∙ get-remove_self k m2.kick_signals
step-unsignalled k m (heartbeats r now) own none_yet = none_yet
step-unsignalled k m (adds r tx) own none_yet = absurd own
step-unsignalled k m (registers_kick r signal) own none_yet = absurd own
step-unsignalled k m (sets_auth r auth) own none_yet = absurd own
step-unsignalled k m (adds_client reg now timestamp) own none_yet = absurd own
step-unsignalled k m clears_offline own none_yet = absurd own
step-unsignalled k m (takes_signal r) own none_yet = absurd own
step-unsignalled k m (drops_session r) own none_yet = absurd own

run-unsignalled :
    (k : Text) (m : ControlManager) (calls : List Call)
    → All (EndsSession k) calls
    → Map.get k m.kick_signals ≡ none
    → Map.get k (run m calls).kick_signals ≡ none
unfolding run
run-unsignalled k m [] own none_yet = none_yet
run-unsignalled k m (call ∷ calls) (first, own) none_yet =
    run-unsignalled k (step m call) calls own (step-unsignalled k m call first none_yet)

await_end-unsignalled :
    (k : Text) (m : ControlManager) (signal : Option ℕ) (calls : List Call)
    → All (EndsSession k) calls
    → Map.get k m.kick_signals ≡ none
    → Map.get k (await_end m signal calls).kick_signals ≡ none
await_end-unsignalled k m none calls own none_yet = none_yet
await_end-unsignalled k m (some signal) calls own none_yet = run-unsignalled k m calls own none_yet

await_end-held :
    (k old : Text) (m : ControlManager) (signal : Option ℕ) (calls : List Call)
    → old ≢ k
    → All (EndsSession old) calls
    → held k (await_end m signal calls) ≡ held k m
await_end-held k old m none calls other own = refl
await_end-held k old m (some signal) calls other own = run-held k old m calls other own

drop_session-held_ne :
    (k old : Text) (m : ControlManager) → old ≢ k → held k (drop_session m old) ≡ held k m
unfolding drop_session
drop_session-held_ne k old m other =
    held_cong (get-remove_ne old k m.msg_channels other) (get-remove_ne old k m.auth_managers other)
      (get-remove_ne old k m.clients other) refl

drop_session-held_self :
    (k : Text) (m : ControlManager)
    → Map.get k m.kick_signals ≡ none
    → held k (drop_session m k) ≡ nothing_held
unfolding drop_session
drop_session-held_self k m unsignalled =
    held_cong (get-remove_self k m.msg_channels) (get-remove_self k m.auth_managers)
      (get-remove_self k m.clients) unsignalled

kick_session-held_ne :
    (k old : Text) (m : ControlManager) (calls : List Call)
    → old ≢ k
    → All (EndsSession old) calls
    → held k (kick_session m old calls) ≡ held k m
unfolding kick_session take_signal
kick_session-held_ne k old m calls other own =
    let taken : ControlManager = take_signal m old in
    let waited = await_end taken (Map.get old m.kick_signals) calls in
    drop_session-held_ne k old waited other
    ∙ await_end-held k old taken (Map.get old m.kick_signals) calls other own
    ∙ held_cong refl refl refl (get-remove_ne old k m.kick_signals other)

kick_session-held_self :
    (k : Text) (m : ControlManager) (calls : List Call)
    → All (EndsSession k) calls
    → held k (kick_session m k calls) ≡ nothing_held
unfolding kick_session take_signal
kick_session-held_self k m calls own =
    drop_session-held_self k (await_end (take_signal m k) (Map.get k m.kick_signals) calls) (
      await_end-unsignalled k (take_signal m k) (Map.get k m.kick_signals) calls own
        (get-remove_self k m.kick_signals))

kick_session-held :
    (k old : Text) (m : ControlManager) (calls : List Call)
    → All (EndsSession old) calls
    → held k (kick_session m old calls) ≡ (if old =? k then nothing_held else held k m)
kick_session-held k old m calls own = elim (Bool-cases (old =? k)) [
  | inl same ↦
      let here = (=?_iff old k).0 same in
      rw same (
        ap (λ r. held k (kick_session m r calls)) here
        ∙ kick_session-held_self k m calls (subst (λ r. All (EndsSession r) calls) here own))
  | inr other ↦
      rw other (kick_session-held_ne k old m calls (λ p. ground (arith, =?_iff old k)) own)
]

-- Whether a session is among those that are kicked.
unfoldable pub is_kicked : Text → Bool → Option Text → List (Text × Option Text) → Bool
is_kicked k same_cert new [] = false
is_kicked k same_cert new ((old, fingerprint) ∷ sessions) =
    (old =? k && not (refuses same_cert fingerprint new)) || is_kicked k same_cert new sessions

pub kick_sessions-held :
    (meanwhile : Text → List Call) (same_cert : Bool) (new : Option Text) (m : ControlManager)
    (sessions : List (Text × Option Text)) (k : Text)
    → ((r : Text) → All (EndsSession r) (meanwhile r))
    → held k (kick_sessions meanwhile same_cert new m sessions).0
      ≡ (if is_kicked k same_cert new sessions then nothing_held else held k m)
unfolding kick_sessions is_kicked
kick_sessions-held meanwhile same_cert new m [] k own = refl
kick_sessions-held meanwhile same_cert new m ((old, fingerprint) ∷ sessions) k own =
    elim (Bool-cases (refuses same_cert fingerprint new)) [
      | inl refused ↦
          let rest = kick_sessions-held meanwhile same_cert new m sessions k own in
          rw refused (ground (arith, rest))
      | inr allowed ↦
          let m' = kick_session m old (meanwhile old) in
          let rest = kick_sessions-held meanwhile same_cert new m' sessions k own in
          let one = kick_session-held k old m (meanwhile old) (own old) in
          rw allowed (ground (arith, rest, one))
    ]
