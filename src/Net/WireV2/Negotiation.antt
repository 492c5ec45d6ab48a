-- ===== src/Net/WireV2/Negotiation.antt =====
-- What the hellos of rust_frp_net/src/wire_v2.rs agree on, as each side checks it.
use rust_frp.Common.{
  ℕ, Option, none, some, Bool, true, false, Result, ok, err, ◌>>◌, guard, Option-cases, ==_iff, ◌≡◌,
  refl, ◌⊎◌, ◌↔◌, inl, inr, List, [], ◌∷◌, length, arith, Bool-cases,
}
use rust_frp.Common.Equality.{◌=?◌, =?_iff, =?_self, bytes_eq}
use rust_frp.Net.WireV2.Hello.{
  ClientHello, ServerHello, udp_binary, json_codec, crypto_random_size, supported_algorithms,
  contains, is_supported_aead_algorithm, select_aead_algorithm, select_udp_packet_codec,
  selected_algorithm, hello_selecting, new_server_hello, validate_udp_codec,
  validate_server_hello_for_client,
}

select_aead_algorithm-some :
    (offered : List (List ℕ)) (a : List ℕ)
    → select_aead_algorithm offered ≡ some a
    → (contains a offered ≡ true) × (contains a supported_algorithms ≡ true)
unfolding select_aead_algorithm contains
select_aead_algorithm-some [] a h = absurd (ground arith)
select_aead_algorithm-some (b ∷ rest) a h =
    ground (arith, select_aead_algorithm-some rest a, =?_iff b a, contains b supported_algorithms)

-- The conditions that a client puts on the server's answer: JSON for messages, whatever it advertised
-- for them; for UDP packets nothing or the binary codec, if it advertised that; and an algorithm
-- that is known and that it advertised.
abbrev pub Acceptable : ClientHello → ServerHello → Type 0
Acceptable c s =
    (s.selected.message.codec ≡ json_codec)
    × ((s.selected.message.udp_packet_codec ≡ [])
        ⊎ ((s.selected.message.udp_packet_codec ≡ udp_binary)
            × (contains s.selected.message.udp_packet_codec c.capabilities.message.udp_packet_codecs
                ≡ true)))
    × (is_supported_aead_algorithm s.selected.crypto.algorithm ≡ true)
    × (contains s.selected.crypto.algorithm c.capabilities.crypto.algorithms ≡ true)
    × (length s.selected.crypto.server_random ≡ crypto_random_size)

guard-ok : {E : Type 0} (b : Bool) (e : E) → (guard b e ≡ ok tt) → b ≡ true
guard-ok true e h = refl
guard-ok false e h = absurd (ground arith)

guard-then :
    {E A : Type 0} (b : Bool) (e : E) (k : Result E A) (a : A)
    → (guard b e >> k) ≡ ok a
    → (b ≡ true) × (k ≡ ok a)
guard-then true e k a h = (refl, h)
guard-then false e k a h = absurd (ground arith)

then-ok :
    {E A : Type 0} (r : Result E (Unit {0})) (k : Result E A) (a : A)
    → (r >> k) ≡ ok a
    → (r ≡ ok tt) × (k ≡ ok a)
then-ok (ok tt) k a h = (refl, h)
then-ok (err e) k a h = absurd (ground arith)

validate_udp_codec-ok :
    (c : ClientHello) (codec : List ℕ)
    → validate_udp_codec c codec ≡ ok tt
    → (codec ≡ [])
      ⊎ ((codec ≡ udp_binary) × (contains codec c.capabilities.message.udp_packet_codecs ≡ true))
validate_udp_codec-ok c [] h = inl refl
validate_udp_codec-ok c (x ∷ xs) h =
    let (is_binary, rest) = guard-then ((x ∷ xs) =? udp_binary) _ _ tt h in
    inr ((=?_iff (x ∷ xs) udp_binary).0 is_binary, guard-ok _ _ rest)

ok-validate_udp_codec :
    (c : ClientHello) (codec : List ℕ)
    → (codec ≡ [])
      ⊎ ((codec ≡ udp_binary) × (contains codec c.capabilities.message.udp_packet_codecs ≡ true))
    → validate_udp_codec c codec ≡ ok tt
ok-validate_udp_codec c [] h = refl
ok-validate_udp_codec c (x ∷ xs) (inl none_chosen) = absurd (ground arith)
ok-validate_udp_codec c (x ∷ xs) (inr (binary, advertised)) =
    rw ((=?_iff (x ∷ xs) udp_binary).1 binary, advertised) refl

-- A client accepts a server's hello exactly if the codec of messages is JSON, the codec of UDP packets
-- is left out or is the binary one and was advertised by this client, the algorithm is known and
-- was advertised by this client, and the random part has 32 bytes. The codecs of messages that the
-- client advertised are not looked at.
pub validate_server_hello_for_client-Acceptable :
    (c : ClientHello) (s : ServerHello)
    → (validate_server_hello_for_client c s ≡ ok tt) ↔ Acceptable c s
unfolding validate_server_hello_for_client
validate_server_hello_for_client-Acceptable c s = (
  λ h. (
    ground (arith, =?_iff s.selected.message.codec json_codec),
    validate_udp_codec-ok c s.selected.message.udp_packet_codec (ground arith),
    ground arith,
    ground arith,
    ground (arith, ==_iff (length s.selected.crypto.server_random) crypto_random_size),
  ),
  λ (json, udp, known, advertised, sized).
      rw
        (
          (=?_iff s.selected.message.codec json_codec).1 json,
          ok-validate_udp_codec c s.selected.message.udp_packet_codec udp,
          known,
          advertised,
          (==_iff (length s.selected.crypto.server_random) crypto_random_size).1 sized,
        )
        refl,
)

validate-select_udp_packet_codec :
    (c : ClientHello)
    → validate_udp_codec c (select_udp_packet_codec c.capabilities.message.udp_packet_codecs)
      ≡ ok tt
unfolding select_udp_packet_codec
validate-select_udp_packet_codec c =
    elim (Bool-cases (contains udp_binary c.capabilities.message.udp_packet_codecs)) [
      | inl offered ↦ rw offered (rw (=?_self udp_binary, offered) refl)
      | inr missing ↦ rw missing refl
    ]

selected_algorithm-ok :
    (o : Option (List ℕ)) (a : List ℕ) → selected_algorithm o ≡ ok a → o ≡ some a
selected_algorithm-ok none a h = absurd (ground arith)
selected_algorithm-ok (some b) a h = ground arith

new_server_hello-ok :
    (c : ClientHello) (random : List ℕ) (s : ServerHello)
    → new_server_hello c (ok random) ≡ ok s
    → (a : List ℕ) × (select_aead_algorithm c.capabilities.crypto.algorithms ≡ some a)
      × (s ≡ hello_selecting c random a)
unfolding new_server_hello
new_server_hello-ok c random s h =
    elim (Option-cases (select_aead_algorithm c.capabilities.crypto.algorithms)) [
      | inl nothing ↦ absurd (ground arith)
      | inr (a, chosen) ↦ (a, chosen, ground arith)
    ]

-- The two sides fit: whatever hello a client sends, an answer that `new_server_hello` gives to it, with
-- 32 random bytes, passes the client's check.
pub validate_server_hello_for_client-new_server_hello :
    (c : ClientHello) (random : List ℕ) (s : ServerHello)
    → length random ≡ crypto_random_size
    → new_server_hello c (ok random) ≡ ok s
    → validate_server_hello_for_client c s ≡ ok tt
unfolding validate_server_hello_for_client is_supported_aead_algorithm
validate_server_hello_for_client-new_server_hello c random s sized h =
    let (a, chosen, same) = new_server_hello-ok c random s h in
    let (offered, supported) =
      select_aead_algorithm-some c.capabilities.crypto.algorithms a chosen in
    rw (same, =?_self json_codec, validate-select_udp_packet_codec c, supported, offered, sized)
      refl
