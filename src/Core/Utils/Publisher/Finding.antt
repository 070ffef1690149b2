-- ===== src/Core/Utils/Publisher/Finding.antt =====
-- core/utils/publisher.go: the channel of one subscriber among the others.
use ricochet_go.Common.{
  ℕ, Bool, true, not, Option, none, some, List, [], ◌∷◌, ◌++◌, append_assoc, append-nil, ◌==◌,
  if◌then◌else◌, ◌≡◌, inl, inr, refl, arith, Bool-cases, none_not_some,
}
use ricochet_go.Core.Utils.Publisher.{
  Channel, Action, subscribes, unsubscribes, publishes, receives, offer, offer_all, remove,
  take_first, drain_first, at, drains, new_channel,
}

module _ {V : Type 0} where
  abbrev pub find : ℕ → List (Channel V) → Option (Channel V)
  find id [] = none
  find id (c ∷ cs) = if c.id == id then some c else find id cs

  abbrev pub published : List (Action V) → List V
  published [] = []
  published (publishes v ∷ rest) = v ∷ published rest
  published (subscribes id capacity ∷ rest) = published rest
  published (unsubscribes id ∷ rest) = published rest
  published (receives id ∷ rest) = published rest
  published (drains id ∷ rest) = published rest

  -- The subscriber keeps its channel.
  abbrev pub is_spared : ℕ → Action V → Bool
  is_spared id (unsubscribes j) = not (j == id)
  is_spared id (subscribes j capacity) = not (j == id)
  is_spared id _ = true

  pub find-at :
      (f : Channel V → Channel V) (j id : ℕ) (cs : List (Channel V)) (c : Channel V)
      → ((x : Channel V) → (f x).id ≡ x.id)
      → find id cs ≡ some c
      → find id (at f j cs) ≡ some (if j == id then f c else c)
  unfolding at
  find-at f j id [] c same e = absurd (none_not_some e)
  find-at f j id (x ∷ cs) c same e = elim (Bool-cases (x.id == j)) [
    | inl here ↦ simp here (ground (arith, same x, e, here))
    | inr there ↦ simp there (ground (arith, e, there, find-at f j id cs c same))
  ]

  pub offer_id : (v : V) (c : Channel V) → (offer v c).id ≡ c.id
  unfolding offer
  offer_id v c = ground arith

  pub find-offer_all :
      (v : V) (id : ℕ) (cs : List (Channel V)) (c : Channel V)
      → find id cs ≡ some c
      → find id (offer_all v cs) ≡ some (offer v c)
  unfolding offer_all
  find-offer_all v id [] c e = absurd (none_not_some e)
  find-offer_all v id (x ∷ cs) c e = elim (Bool-cases (x.id == id)) [
    | inl here ↦ ground (arith, offer_id v x, e, here)
    | inr there ↦ ground (arith, offer_id v x, e, there, find-offer_all v id cs c)
  ]

  pub find-append :
      (id : ℕ) (cs ds : List (Channel V)) (c : Channel V)
      → find id cs ≡ some c
      → find id (cs ++ ds) ≡ some c
  find-append id [] ds c e = absurd (none_not_some e)
  find-append id (x ∷ cs) ds c e = ground (arith, e, find-append id cs ds c)

  pub find-remove :
      (id j : ℕ) (cs : List (Channel V)) (c : Channel V)
      → not (j == id) ≡ true
      → find id cs ≡ some c
      → find id (remove j cs) ≡ some c
  unfolding remove
  find-remove id j [] c other e = absurd (none_not_some e)
  find-remove id j (x ∷ cs) c other e = ground (arith, e, other, find-remove id j cs c)

  pub take_first_id : (q : List V) (c : Channel V) → (take_first q c).id ≡ c.id
  unfolding take_first
  take_first_id [] c = refl
  take_first_id (v ∷ q) c = refl

  pub drain_first_id : (q : List V) (c : Channel V) → (drain_first q c).id ≡ c.id
  unfolding drain_first
  drain_first_id [] c = refl
  drain_first_id (v ∷ q) c = ground arith

  pub find_new :
      (id capacity : ℕ) (cs : List (Channel V))
      → find id cs ≡ none
      → find id (cs ++ new_channel id capacity ∷ []) ≡ some (new_channel id capacity)
  find_new id capacity [] e = ground arith
  find_new id capacity (x ∷ cs) e = ground (arith, e, find_new id capacity cs)

  pub published_first :
      (log : List V) (a : Action V) (rest : List (Action V))
      → (log ++ published (a ∷ [])) ++ published rest ≡ log ++ published (a ∷ rest)
  published_first log (subscribes j capacity) rest = rw append-nil
  published_first log (unsubscribes j) rest = rw append-nil
  published_first log (publishes v) rest = append_assoc log (v ∷ []) (published rest)
  published_first log (receives j) rest = rw append-nil
  published_first log (drains j) rest = rw append-nil
