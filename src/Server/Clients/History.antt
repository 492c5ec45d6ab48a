-- ===== src/Server/Clients/History.antt =====
-- The sessions on line and the history of rust_frp_server/src/control.rs do not mix.
use rust_frp.Common.{
  ℕ, zero, suc, ◌-◌, ◌≤◌, Option, none, some, Bool, true, false, ◌≡◌, ◌≢◌, refl, sym, ◌∙◌, ap,
  subst, inl, inr, List, [], ◌∷◌, ◌++◌, length, drop, retain, All, All-append, All-retain, All-drop,
  arith, Bool-cases, Option-cases, length-drop, length-retain-le,
}
use rust_frp.Common.Equality.{◌=?◌, =?_iff, bytes_eq}
use rust_frp.Common.Text.{Text}
use rust_frp.Common.Map.{
  Map, get-insert_cases, get-remove-some, get-modify, get-remove_self, get-empty, map_option,
}
use rust_frp.Common.Map
use rust_frp.Server.Clients.{
  ClientInfo, ControlManager, ClientRegistration, max_offline_clients, is_other, newest, gone,
  to_history, forget_channels, remove, registered, add_client, beat, update_heartbeat, add,
  register_kick, set_auth_manager, clear_offline_clients,
}
use rust_frp.Server.Clients.Calls.{
  Call, adds, removes, registers_kick, sets_auth, adds_client, heartbeats, clears_offline,
  takes_signal, drops_session, take_signal, drop_session, step, run,
}

abbrev pub Lacks : Text → List ClientInfo → Type 0
Lacks run_id = All (λ (c : ClientInfo). c.run_id ≢ run_id)

abbrev pub DistinctIds : List ClientInfo → Type 0
DistinctIds [] = Unit
DistinctIds (c ∷ cs) = Lacks c.run_id cs × DistinctIds cs

abbrev pub IsOffline : ClientInfo → Type 0
IsOffline c = c.online ≡ false

pub record IsHistory (cs : List ClientInfo) : Type 0 where
  pub offline : All IsOffline cs
  pub distinct : DistinctIds cs
  pub bounded : length cs ≤ max_offline_clients

pub record IsConsistent (m : ControlManager) : Type 0 where
  pub history : IsHistory m.offline_clients
  pub on_line :
      (k : Text) (c : ClientInfo)
      → Map.get k m.clients ≡ some c
      → (c.run_id ≡ k) × (c.online ≡ true) × Lacks k m.offline_clients

DistinctIds-retain :
    (p : ClientInfo → Bool) (cs : List ClientInfo) → DistinctIds cs → DistinctIds (retain p cs)
DistinctIds-retain p [] d = tt
DistinctIds-retain p (c ∷ cs) (lacks, d) = elim (Bool-cases (p c)) [
  | inl kept ↦ rw kept (All-retain _ p cs lacks, DistinctIds-retain p cs d)
  | inr dropped ↦ rw dropped (DistinctIds-retain p cs d)
]

DistinctIds-drop : (n : ℕ) (cs : List ClientInfo) → DistinctIds cs → DistinctIds (drop n cs)
DistinctIds-drop zero cs d = d
DistinctIds-drop (suc n) [] d = tt
DistinctIds-drop (suc n) (c ∷ cs) (lacks, d) = DistinctIds-drop n cs d

DistinctIds-append :
    (c : ClientInfo) (cs : List ClientInfo)
    → Lacks c.run_id cs
    → DistinctIds cs
    → DistinctIds (cs ++ c ∷ [])
DistinctIds-append c [] lacks d = (tt, tt)
DistinctIds-append c (x ∷ cs) (other, lacks) (first, d) =
    (All-append _ cs (c ∷ []) first ((λ p. other (sym p)), tt), DistinctIds-append c cs lacks d)

Lacks-retain : (k : Text) (cs : List ClientInfo) → Lacks k (retain (is_other k) cs)
Lacks-retain k [] = tt
Lacks-retain k (c ∷ cs) = elim (Bool-cases (c.run_id =? k)) [
  | inl same ↦ rw same (Lacks-retain k cs)
  | inr other ↦ rw other ((λ p. ground (arith, =?_iff c.run_id k)), Lacks-retain k cs)
]

retain-IsHistory :
    (p : ClientInfo → Bool) (cs : List ClientInfo) → IsHistory cs → IsHistory (retain p cs)
retain-IsHistory p cs v = record {
  offline = All-retain _ p cs v.offline;
  distinct = DistinctIds-retain p cs v.distinct;
  bounded = omega (arith, length-retain-le p cs, v.bounded);
}

newest-IsHistory :
    (c : ClientInfo) (cs : List ClientInfo)
    → IsHistory cs
    → IsOffline c
    → Lacks c.run_id cs
    → IsHistory (newest (cs ++ c ∷ []))
newest-IsHistory c cs v is_off lacks =
    let all = cs ++ c ∷ [] in
    let extra = length all - max_offline_clients in
    record {
      offline = All-drop _ extra all (All-append _ cs (c ∷ []) v.offline (is_off, tt));
      distinct = DistinctIds-drop extra all (DistinctIds-append c cs lacks v.distinct);
      bounded = omega (arith, length-drop extra all);
    }

-- Only the entries of the tables of the channels, managers and signals differ.
pub keep-IsConsistent :
    (m m' : ControlManager)
    → m'.clients ≡ m.clients
    → m'.offline_clients ≡ m.offline_clients
    → IsConsistent m
    → IsConsistent m'
keep-IsConsistent m m' clients offline v = record {
  history = subst IsHistory (sym offline) v.history;
  on_line = λ k c found.
      let (key, is_on, lacks) =
        v.on_line k c (ap (λ (t : Map Text ClientInfo). Map.get k t) (sym clients) ∙ found) in
      (key, is_on, subst (Lacks k) (sym offline) lacks);
}

to_history-IsConsistent :
    (m : ControlManager) (run_id : Text) (now : ℕ) (o : Option ClientInfo)
    → Map.get run_id m.clients ≡ o
    → IsConsistent m
    → IsConsistent (to_history run_id now o m)
to_history-IsConsistent m run_id now none at v = v
to_history-IsConsistent m run_id now (some c) at v =
    let kept = retain (is_other c.run_id) m.offline_clients in
    let (key, is_on, lacks) = v.on_line run_id c at in
    record {
      history =
          newest-IsHistory (gone now c) kept
            (retain-IsHistory (is_other c.run_id) m.offline_clients v.history) refl
            (Lacks-retain c.run_id m.offline_clients);
      on_line = λ k d found.
          let (other, before) = get-remove-some run_id k d m.clients found in
          let (d_key, d_on, d_lacks) = v.on_line k d before in
          (
            d_key,
            d_on,
            All-drop _ (length (kept ++ gone now c ∷ []) - max_offline_clients)
                (kept ++ gone now c ∷ [])
                (All-append _ kept (gone now c ∷ [])
                  (All-retain _ (is_other c.run_id) m.offline_clients d_lacks)
                  ((λ p. other (sym key ∙ p)), tt)),
          );
    }

remove-IsConsistent :
    (m : ControlManager) (run_id : Text) (now : ℕ)
    → IsConsistent m
    → IsConsistent (remove m run_id now)
unfolding remove
remove-IsConsistent m run_id now v =
    keep-IsConsistent (to_history run_id now (Map.get run_id m.clients) (forget_channels m run_id))
      _ refl refl
      (to_history-IsConsistent (forget_channels m run_id) run_id now _ refl
        (keep-IsConsistent m _ refl refl v))

add_client-IsConsistent :
    (m : ControlManager) (reg : ClientRegistration) (now timestamp : ℕ)
    → IsConsistent m
    → IsConsistent (add_client m reg now timestamp)
unfolding add_client
add_client-IsConsistent m reg now timestamp v = record {
  history = retain-IsHistory (is_other reg.run_id) m.offline_clients v.history;
  on_line = λ k c found.
      elim (get-insert_cases reg.run_id k (registered reg now timestamp) c m.clients found) [
        | inl (same, is_new) ↦ (
          ap (λ (d : ClientInfo). d.run_id) (sym is_new) ∙ same,
          ap (λ (d : ClientInfo). d.online) (sym is_new),
          subst (λ j. Lacks j (retain (is_other reg.run_id) m.offline_clients)) same
              (Lacks-retain reg.run_id m.offline_clients),
        )
        | inr (other, before) ↦
            let (key, is_on, lacks) = v.on_line k c before in
            (key, is_on, All-retain _ (is_other reg.run_id) m.offline_clients lacks)
      ];
}

update_heartbeat-IsConsistent :
    (m : ControlManager) (run_id : Text) (now : ℕ)
    → IsConsistent m
    → IsConsistent (update_heartbeat m run_id now)
unfolding update_heartbeat
update_heartbeat-IsConsistent m run_id now v = record {
  history = v.history;
  on_line = λ k c found. elim (Option-cases (Map.get k m.clients)) [
    | inl missing ↦ absurd (ground (arith, get-modify run_id k (beat now) m.clients))
    | inr (old, at) ↦
        let (key, is_on, lacks) = v.on_line k old at in
        elim (Bool-cases (run_id =? k)) [
          | inl here ↦
              let is_new : beat now old ≡ c =
                ground (arith, get-modify run_id k (beat now) m.clients) in
              (
                ap (λ (d : ClientInfo). d.run_id) (sym is_new) ∙ key,
                ap (λ (d : ClientInfo). d.online) (sym is_new) ∙ is_on,
                lacks,
              )
          | inr other ↦ v.on_line k c (ground (arith, get-modify run_id k (beat now) m.clients))
        ]
  ];
}

drop_session-IsConsistent :
    (m : ControlManager) (run_id : Text) → IsConsistent m → IsConsistent (drop_session m run_id)
unfolding drop_session
drop_session-IsConsistent m run_id v = record {
  history = v.history;
  on_line = λ k c found. v.on_line k c (get-remove-some run_id k c m.clients found).1;
}

pub step-IsConsistent :
    (m : ControlManager) (call : Call) → IsConsistent m → IsConsistent (step m call)
unfolding step add register_kick set_auth_manager clear_offline_clients take_signal
step-IsConsistent m (adds run_id tx) v = keep-IsConsistent m _ refl refl v
step-IsConsistent m (removes run_id now) v = remove-IsConsistent m run_id now v
step-IsConsistent m (registers_kick run_id signal) v = keep-IsConsistent m _ refl refl v
step-IsConsistent m (sets_auth run_id auth) v = keep-IsConsistent m _ refl refl v
step-IsConsistent m (adds_client reg now timestamp) v =
    add_client-IsConsistent m reg now timestamp v
step-IsConsistent m (heartbeats run_id now) v = update_heartbeat-IsConsistent m run_id now v
step-IsConsistent m clears_offline v = record {
  history = record { offline = tt; distinct = tt; bounded = omega arith };
  on_line = λ k c found. let (key, is_on, lacks) = v.on_line k c found in (key, is_on, tt);
}
step-IsConsistent m (takes_signal run_id) v = keep-IsConsistent m _ refl refl v
step-IsConsistent m (drops_session run_id) v = drop_session-IsConsistent m run_id v

-- Whatever calls are made of the manager, and however those of several tasks are interleaved, the
-- history holds at most 200 sessions, each of them off line and none of them twice, and a session
-- that is on line is filed under its own run id and is not in the history as well.
pub run-IsConsistent :
    (m : ControlManager) (calls : List Call) → IsConsistent m → IsConsistent (run m calls)
unfolding run
run-IsConsistent m [] v = v
run-IsConsistent m (call ∷ calls) v =
    run-IsConsistent (step m call) calls (step-IsConsistent m call v)
