-- ===== src/Engine/Matcher/Query.antt =====
-- The invariant accounting of engine/matcher.hpp.
use itchbook.Base.{ℕ, ◌/◌, Bool, ◌&&◌, [], ◌∷◌, ◌==◌, if◌then◌else◌}
use itchbook.Base.Words.{add32, add64, sub64}
use itchbook.Engine.Matcher.{Meta, Orders}

-- The check of `conserves_shares` on one order, in 32 bits.
unfoldable pub conserves_order : Meta → Bool
conserves_order m =
    if m.entered
    then add32 (add32 (add32 m.filled_shares m.cancelled_shares) m.resting) m.hidden
      == m.req.quantity
    else m.filled_shares == 0 && (m.cancelled_shares == 0 && (m.resting == 0 && m.hidden == 0))

unfoldable pub shares_resting : Orders → ℕ
shares_resting [] = 0
shares_resting ((i, m) ∷ os) = add64 (add32 m.resting m.hidden) (shares_resting os)

unfoldable pub volume_traded : ℕ → ℕ → ℕ
volume_traded filled_total external_filled =
    add64 (sub64 filled_total external_filled / 2) external_filled
