-- ===== src/Core/Messages/Runs.antt =====
-- Messages of rust_frp_core/src/lib.rs at concrete inputs: a message is a byte, and so is its text.
use rust_frp.Common.{ℕ, Option, none, some, ok, err, List, [], ◌∷◌, ◌++◌, ◌≡◌, refl, sym, ap, arith}
use rust_frp.Net.WireV2.Frame.{read_exact, write_frame}
use rust_frp.Core.Messages.{
  v1, v2, too_large, conn_read, conn_write, max_preauth_message_size, read_message_with_limit,
  read_body, write_v2_message,
}
use rust_frp.Core.Messages.RoundTrip.{ReadsBack, conn_read-conn_write}
use rust_frp.Core.Messages.Limits.{IsBounded, conn_read-IsBounded}

abbrev to_text : ℕ → Option (List ℕ)
to_text n = some (n ∷ [])

abbrev from_text : List ℕ → Option ℕ
from_text (n ∷ []) = some n
from_text other = none

to_text-ReadsBack : ReadsBack to_text from_text
to_text-ReadsBack msg body is_text =
    let same : msg ∷ [] ≡ body = ground (arith, is_text) in ap from_text (sym same)

abbrev input : List ℕ
input = 0 ∷ 0 ∷ 0 ∷ 1 ∷ 65 ∷ 9 ∷ []

conn_read-conn_write_example :
    conn_read to_text from_text v2 max_preauth_message_size
      ((0 ∷ 16 ∷ 0 ∷ 0 ∷ 0 ∷ 0 ∷ 0 ∷ 1 ∷ 65 ∷ []) ++ 9 ∷ [])
    ≡ ok (65, 9 ∷ [])
conn_read-conn_write_example =
    conn_read-conn_write to_text from_text v2 max_preauth_message_size 65
      (0 ∷ 16 ∷ 0 ∷ 0 ∷ 0 ∷ 0 ∷ 0 ∷ 1 ∷ 65 ∷ []) (9 ∷ []) to_text-ReadsBack (omega arith)
      (65 ∷ [], refl, omega arith) (unfold conn_write write_v2_message write_frame in refl)

conn_read-IsBounded_example : IsBounded to_text from_text 1 input 65 (9 ∷ [])
conn_read-IsBounded_example =
    conn_read-IsBounded to_text from_text v1 1 input 65 (9 ∷ [])
      (unfold conn_read read_message_with_limit read_body read_exact in refl)

-- A message beyond the limit is refused before its body is read.
refused :
    conn_read to_text from_text v1 max_preauth_message_size (1 ∷ 0 ∷ 0 ∷ 0 ∷ [])
    ≡ err (too_large 16_777_216 65_536)
unfolding conn_read read_message_with_limit read_body
refused = refl
