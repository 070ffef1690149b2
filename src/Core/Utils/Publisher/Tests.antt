-- ===== src/Core/Utils/Publisher/Tests.antt =====
-- core/utils/publisher.go with a subscriber whose queue holds three values.
use ricochet_go.Common.{ℕ, List, [], ◌∷◌, refl, true, ◌≡◌, ◌⊎◌}
use ricochet_go.Core.Utils.Publisher.{
  Action, publishes, receives, subscribes, unsubscribes, perform, perform_all,
}
use ricochet_go.Core.Utils.Publisher.Finding.{published}
use ricochet_go.Core.Utils.Publisher.Wholeness.{overflows, IsGiven}
use ricochet_go.Core.Utils.Publisher.Delivery.{Delivers, perform_all-Delivers}

abbrev actions : List (Action ℕ)
actions =
    subscribes 8 1
    ∷ publishes 1
    ∷ receives 7
    ∷ publishes 2
    ∷ unsubscribes 8
    ∷ publishes 3
    ∷ publishes 4
    ∷ []

perform_all-Delivers_example :
    let cs = perform_all actions (perform (subscribes 7 3) []) in
    Delivers 7 (published actions) cs
    × ((overflows 7 3 0 actions ≡ true) ⊎ IsGiven 7 (published actions) cs)
perform_all-Delivers_example =
    perform_all-Delivers 7 3 [] actions refl
      (refl, (refl, (refl, (refl, (refl, (refl, (refl, tt)))))))
