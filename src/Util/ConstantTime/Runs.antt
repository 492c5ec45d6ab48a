-- ===== src/Util/ConstantTime/Runs.antt =====
-- The comparison of rust_frp_util/src/lib.rs at concrete inputs.
use rust_frp.Common.{ℕ, true, false, ◌≡◌, ◌↔◌, refl, List, [], ◌∷◌}
use rust_frp.Util.ConstantTime.{constant_time_eq, constant_time_eq_iff}

compares :
    (constant_time_eq (1 ∷ 255 ∷ []) (1 ∷ 255 ∷ []) ≡ true)
    × (constant_time_eq (1 ∷ 255 ∷ []) (1 ∷ 254 ∷ []) ≡ false)
    × (constant_time_eq (1 ∷ []) (1 ∷ 0 ∷ []) ≡ false)
unfolding constant_time_eq
compares = (refl, refl, refl)

constant_time_eq_iff_example :
    (constant_time_eq (7 ∷ 9 ∷ []) (7 ∷ 9 ∷ []) ≡ true)
    ↔ (◌≡◌ {A = List ℕ} (7 ∷ 9 ∷ []) (7 ∷ 9 ∷ []))
constant_time_eq_iff_example = constant_time_eq_iff (7 ∷ 9 ∷ []) (7 ∷ 9 ∷ [])
