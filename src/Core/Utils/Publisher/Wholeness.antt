-- ===== src/Core/Utils/Publisher/Wholeness.antt =====
-- core/utils/publisher.go: a subscriber that takes its values in time loses none.
use ricochet_go.Common.{
  ℕ, suc, ◌-◌, Bool, true, false, none, some, List, [], ◌∷◌, ◌++◌, append_assoc, append-nil, length,
  length-append, ltb, ◌==◌, if◌then◌else◌, All, ◌≡◌, ◌⊎◌, inl, inr, refl, sym, ap, subst, ◌∙◌,
  arith, Bool-cases,
}
use ricochet_go.Core.Utils.Publisher.{
  Channel, Action, subscribes, unsubscribes, publishes, receives, offer, take_first, drain_first,
  drains, new_channel, perform, perform_all,
}
use ricochet_go.Core.Utils.Publisher.Finding.{
  find, published, is_spared, find-at, find-offer_all, find-append, find-remove, take_first_id,
  drain_first_id, find_new, published_first,
}

module _ {V : Type 0} where
  -- Whether a queue with `n` values is full when one of the actions publishes, counted from the actions
  -- alone: the subscriber makes room when it receives.
  abbrev pub overflows : ℕ → ℕ → ℕ → List (Action V) → Bool
  overflows id capacity n [] = false
  overflows id capacity n (publishes v ∷ rest) =
      let later = overflows id capacity (suc n) rest in if ltb n capacity then later else true
  overflows id capacity n (receives j ∷ rest) =
      overflows id capacity (if j == id then n - 1 else n) rest
  overflows id capacity n (subscribes j k ∷ rest) = overflows id capacity n rest
  overflows id capacity n (unsubscribes j ∷ rest) = overflows id capacity n rest
  overflows id capacity n (drains j ∷ rest) = overflows id capacity n rest

  -- The subscriber has received, or will find in its queue, the whole log.
  abbrev pub IsGiven : ℕ → List V → List (Channel V) → Type 0
  IsGiven id log cs = (c : Channel V) × (find id cs ≡ some c) × (c.received ++ c.queue ≡ log)

  record IsWhole (capacity n : ℕ) (log : List V) (c : Channel V) : Type 0 where
    room : c.capacity ≡ capacity
    waiting : length c.queue ≡ n
    kept : c.dropped ≡ false
    whole : c.received ++ c.queue ≡ log

  offer-IsWhole :
      (capacity n : ℕ) (log : List V) (v : V) (c : Channel V)
      → ltb n capacity ≡ true
      → IsWhole capacity n log c
      → IsWhole capacity (suc n) (log ++ v ∷ []) (offer v c)
  unfolding offer
  offer-IsWhole capacity n log v c fits h =
      let free : ltb (length c.queue) c.capacity ≡ true = rw (h.room, h.waiting) fits in
      rw free (record {
        room = h.room;
        waiting = omega (arith, length-append c.queue (v ∷ []), h.waiting);
        kept = h.kept;
        whole = sym (append_assoc c.received c.queue (v ∷ [])) ∙ ap (λ l. l ++ v ∷ []) h.whole;
      })

  take_first-IsWhole :
      (capacity n : ℕ) (log q : List V) (c : Channel V)
      → c.queue ≡ q
      → IsWhole capacity n log c
      → IsWhole capacity (n - 1) log (take_first q c)
  unfolding take_first
  take_first-IsWhole capacity n log [] c e h = record {
    room = h.room;
    waiting = omega (arith, h.waiting, ap length e);
    kept = h.kept;
    whole = h.whole;
  }
  take_first-IsWhole capacity n log (v ∷ rest) c e h = record {
    room = h.room;
    waiting = omega (arith, h.waiting, ap length e);
    kept = h.kept;
    whole = append_assoc c.received (v ∷ []) rest ∙ sym (ap (λ q. c.received ++ q) e) ∙ h.whole;
  }

  drain_first-IsWhole :
      (capacity n : ℕ) (log q : List V) (c : Channel V)
      → IsWhole capacity n log c
      → IsWhole capacity n log (drain_first q c)
  unfolding drain_first
  drain_first-IsWhole capacity n log [] c h = h
  drain_first-IsWhole capacity n log (v ∷ rest) c h = simp h.kept h

  abbrev Whole : ℕ → ℕ → ℕ → List V → List (Channel V) → Type 0
  Whole id capacity n log cs = (c : Channel V) × (find id cs ≡ some c) × IsWhole capacity n log c

  received-IsWhole :
      (b : Bool) (capacity n : ℕ) (log : List V) (c : Channel V)
      → IsWhole capacity n log c
      → IsWhole capacity (if b then n - 1 else n) log (if b then take_first c.queue c else c)
  received-IsWhole true capacity n log c h = take_first-IsWhole capacity n log c.queue c refl h
  received-IsWhole false capacity n log c h = h

  drained-IsWhole :
      (b : Bool) (capacity n : ℕ) (log : List V) (c : Channel V)
      → IsWhole capacity n log c
      → IsWhole capacity n log (if b then drain_first c.queue c else c)
  drained-IsWhole true capacity n log c h = drain_first-IsWhole capacity n log c.queue c h
  drained-IsWhole false capacity n log c h = h

  -- The number of values that wait behind an action.
  abbrev count : ℕ → ℕ → Action V → ℕ
  count id n (publishes v) = suc n
  count id n (receives j) = if j == id then n - 1 else n
  count id n (subscribes j k) = n
  count id n (unsubscribes j) = n
  count id n (drains j) = n

  perform-Whole :
      (a : Action V) (id capacity n : ℕ) (log : List V) (cs : List (Channel V))
      → is_spared id a ≡ true
      → overflows id capacity n (a ∷ []) ≡ false
      → Whole id capacity n log cs
      → Whole id capacity (count id n a) (log ++ published (a ∷ [])) (perform a cs)
  unfolding perform
  perform-Whole (subscribes j k) id capacity n log cs spared calm (c, e, h) =
      rw append-nil (c, find-append id cs (new_channel j k ∷ []) c e, h)
  perform-Whole (unsubscribes j) id capacity n log cs spared calm (c, e, h) =
      rw append-nil (c, find-remove id j cs c spared e, h)
  perform-Whole (publishes v) id capacity n log cs spared calm (c, e, h) =
      (offer v c, find-offer_all v id cs c e, offer-IsWhole capacity n log v c (ground arith) h)
  perform-Whole (receives j) id capacity n log cs spared calm (c, e, h) = rw append-nil (
    _,
    find-at (λ k. take_first k.queue k) j id cs c (λ k. take_first_id k.queue k) e,
    received-IsWhole (j == id) capacity n log c h,
  )
  perform-Whole (drains j) id capacity n log cs spared calm (c, e, h) = rw append-nil (
    _,
    find-at (λ k. drain_first k.queue k) j id cs c (λ k. drain_first_id k.queue k) e,
    drained-IsWhole (j == id) capacity n log c h,
  )

  overflows_first :
      (id capacity n : ℕ) (a : Action V) (rest : List (Action V))
      → overflows id capacity n (a ∷ rest) ≡ false
      → (overflows id capacity n (a ∷ []) ≡ false)
        × (overflows id capacity (count id n a) rest ≡ false)
  overflows_first id capacity n (subscribes j k) rest h = (refl, h)
  overflows_first id capacity n (unsubscribes j) rest h = (refl, h)
  overflows_first id capacity n (drains j) rest h = (refl, h)
  overflows_first id capacity n (receives j) rest h = (refl, h)
  overflows_first id capacity n (publishes v) rest h = elim (Bool-cases (ltb n capacity)) [
    | inl e ↦ (rw e, rw e at h)
    | inr e ↦ absurd (ground arith)
  ]

  perform_all-IsGiven :
      (actions : List (Action V)) (id capacity n : ℕ) (log : List V) (cs : List (Channel V))
      → All (λ a. is_spared id a ≡ true) actions
      → overflows id capacity n actions ≡ false
      → Whole id capacity n log cs
      → IsGiven id (log ++ published actions) (perform_all actions cs)
  unfolding perform_all
  perform_all-IsGiven [] id capacity n log cs spared calm (c, e, h) = rw append-nil (c, e, h.whole)
  perform_all-IsGiven (a ∷ rest) id capacity n log cs spared calm h =
      let (now, later) = overflows_first id capacity n a rest calm in
      subst (λ l. IsGiven id l (perform_all rest (perform a cs))) (published_first log a rest)
        (perform_all-IsGiven rest id capacity (count id n a) (log ++ published (a ∷ []))
          (perform a cs) spared.1 later (perform-Whole a id capacity n log cs spared.0 now h))

  pub subscribed-IsGiven :
      (id capacity : ℕ) (cs : List (Channel V)) (actions : List (Action V))
      → find id cs ≡ none
      → All (λ a. is_spared id a ≡ true) actions
      → (overflows id capacity 0 actions ≡ true)
        ⊎ IsGiven id (published actions) (perform_all actions (perform (subscribes id capacity) cs))
  subscribed-IsGiven id capacity cs actions fresh spared =
      elim (Bool-cases (overflows id capacity 0 actions)) [
        | inl full ↦ inl full
        | inr calm ↦ inr (
            perform_all-IsGiven actions id capacity 0 [] (perform (subscribes id capacity) cs)
              spared calm
              (unfold perform in
                (
                  new_channel id capacity,
                  find_new id capacity cs fresh,
                  record { room = refl; waiting = refl; kept = refl; whole = refl },
                )))
      ]
