-- ===== src/Net/Crypto/Tagging.antt =====
-- A cipher that only adds its tag, for the tests of rust_frp_net/src/crypto.rs.
use rust_frp.Common.{
  ℕ, ◌-◌, ◌+◌, ◌≡◌, refl, sym, ◌∙◌, ap, some, List, ◌++◌, length, take, replicate, arith,
  take-append, length-append,
}
use rust_frp.Net.Crypto.{Aead}
use rust_frp.Net.Crypto.Frames.{Opens}
use rust_frp.Net.Crypto.Transfer.{Seals}

abbrev pub tagging : Aead
tagging = record {
  seal = λ key nonce plain. some (plain ++ replicate 16 0);
  open_in_place = λ key nonce body. some (take (length body - 16) body);
}

pub tagging-Opens : Opens tagging
tagging-Opens key nonce plain body sealed =
    let whole : plain ++ replicate 16 0 ≡ body = ground arith in
    let size : length body ≡ length plain + 16 =
      sym (ap length whole) ∙ length-append plain (replicate 16 0) in
    (
      ap (λ (l : List ℕ). some (take (length l - 16) l)) (sym whole)
          ∙ ap (λ n. some (take n (plain ++ replicate 16 0))) (omega (arith, size, ap length whole))
          ∙ ap some (take-append plain (replicate 16 0)),
      size,
    )

pub tagging-Seals : Seals tagging
tagging-Seals key nonce plain fits = (plain ++ replicate 16 0, refl)
