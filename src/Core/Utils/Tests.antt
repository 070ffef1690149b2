-- ===== src/Core/Utils/Tests.antt =====
-- core/utils/misc.go on two fields with a separator, a quote and a backslash in them.
use ricochet_go.Common.{[], ◌∷◌, ◌≡◌, arith}
use ricochet_go.Core.Utils.{quote, backslash, unquote_string_split}
use ricochet_go.Core.Utils.Splitting.{join, split_round_trip}

split_round_trip_example :
    unquote_string_split (join 0x20 (0x61 ∷ 0x20 ∷ quote ∷ []) ((backslash ∷ []) ∷ [])) 0x20
    ≡ (0x61 ∷ 0x20 ∷ quote ∷ []) ∷ (backslash ∷ []) ∷ []
split_round_trip_example =
    split_round_trip 0x20 (0x61 ∷ 0x20 ∷ quote ∷ []) ((backslash ∷ []) ∷ []) (λ e. omega (arith, e))
      (λ e. omega (arith, e))
