-- ===== src/Core/Utils/Publisher/Delivery.antt =====
-- What a subscriber of core/utils/publisher.go is given.
use ricochet_go.Common.{
  ℕ, ◌≤◌, Bool, true, false, none, some, List, [], ◌∷◌, ◌++◌, append_assoc, append-nil, length,
  length-append, ltb, ltb→lt, ◌==◌, if◌then◌else◌, All, ◌≡◌, ◌⊎◌, inl, inr, refl, sym, ap, subst,
  ◌∙◌, arith, Bool-cases,
}
use ricochet_go.Core.Utils.Publisher.{
  Channel, Action, subscribes, unsubscribes, publishes, receives, offer, take_first, drain_first,
  at, drains, new_channel, perform, perform_all,
}
use ricochet_go.Core.Utils.Publisher.Finding.{
  find, published, is_spared, find-at, find-offer_all, find-append, find-remove, take_first_id,
  drain_first_id, find_new, published_first,
}
use ricochet_go.Core.Utils.Publisher.Wholeness.{overflows, IsGiven, subscribed-IsGiven}
use ricochet_go.Core.Utils.Publisher.Parts.{IsPart, nothing, skips_last, keeps_last, thin, one_less}

module _ {V : Type 0} where
  -- What a channel has been given, of what was published since it was subscribed.
  pub record IsDelivered (id : ℕ) (log : List V) (c : Channel V) : Type 0 where
    pub own_id : c.id ≡ id
    pub in_order : IsPart (c.received ++ c.queue) log
    pub complete : (c.dropped ≡ true) ⊎ (c.received ++ c.queue ≡ log)
    pub bounded : length c.queue ≤ c.capacity

  offer-IsDelivered :
      (id : ℕ) (log : List V) (v : V) (c : Channel V)
      → IsDelivered id log c
      → IsDelivered id (log ++ v ∷ []) (offer v c)
  unfolding offer
  offer-IsDelivered id log v c h = elim (Bool-cases (ltb (length c.queue) c.capacity)) [
    | inl fits ↦ rw fits (record {
      own_id = h.own_id;
      in_order =
          subst (λ l. IsPart l (log ++ v ∷ [])) (append_assoc c.received c.queue (v ∷ []))
            (keeps_last v h.in_order);
      complete = elim h.complete [
        | inl d ↦ inl d
        | inr e ↦ inr (sym (append_assoc c.received c.queue (v ∷ [])) ∙ ap (λ l. l ++ v ∷ []) e)
      ];
      bounded =
          omega (arith, length-append c.queue (v ∷ []), ltb→lt (length c.queue) c.capacity fits);
    })
    | inr full ↦ rw full (record {
      own_id = h.own_id;
      in_order = skips_last v h.in_order;
      complete = inl refl;
      bounded = h.bounded;
    })
  ]

  take_first-IsDelivered :
      (id : ℕ) (log : List V) (q : List V) (c : Channel V)
      → c.queue ≡ q
      → IsDelivered id log c
      → IsDelivered id log (take_first q c)
  unfolding take_first
  take_first-IsDelivered id log [] c e h = h
  take_first-IsDelivered id log (v ∷ rest) c e h =
      let moved : c.received ++ c.queue ≡ (c.received ++ v ∷ []) ++ rest =
        ap (λ q. c.received ++ q) e ∙ sym (append_assoc c.received (v ∷ []) rest) in
      record {
        own_id = h.own_id;
        in_order = subst (λ l. IsPart l log) moved h.in_order;
        complete = elim h.complete [ inl d ↦ inl d | inr k ↦ inr (sym moved ∙ k) ];
        bounded = omega (arith, h.bounded, ap length e);
      }

  drain_first-IsDelivered :
      (id : ℕ) (log : List V) (q : List V) (c : Channel V)
      → c.queue ≡ q
      → IsDelivered id log c
      → IsDelivered id log (drain_first q c)
  unfolding drain_first
  drain_first-IsDelivered id log [] c e h = h
  drain_first-IsDelivered id log (v ∷ rest) c e h = elim (Bool-cases c.dropped) [
    | inr kept ↦ simp kept h
    | inl dropped ↦ simp dropped (record {
      own_id = h.own_id;
      in_order =
          thin (subst (λ q. IsPart (c.received ++ q) log) e h.in_order)
            (one_less c.received v rest);
      complete = inl refl;
      bounded = omega (arith, h.bounded, ap length e);
    })
  ]

  -- The channel of the subscriber is there, and has been given what it should have.
  abbrev pub Delivers : ℕ → List V → List (Channel V) → Type 0
  Delivers id log cs = (c : Channel V) × (find id cs ≡ some c) × IsDelivered id log c

  either-IsDelivered :
      (b : Bool) (id : ℕ) (log : List V) (c d : Channel V)
      → IsDelivered id log c
      → IsDelivered id log d
      → IsDelivered id log (if b then c else d)
  either-IsDelivered true id log c d h k = h
  either-IsDelivered false id log c d h k = k

  at-Delivers :
      (f : Channel V → Channel V) (j id : ℕ) (log : List V) (cs : List (Channel V))
      → ((c : Channel V) → (f c).id ≡ c.id)
      → ((c : Channel V) → IsDelivered id log c → IsDelivered id log (f c))
      → Delivers id log cs
      → Delivers id log (at f j cs)
  at-Delivers f j id log cs same h (c, e, d) =
      (_, find-at f j id cs c same e, either-IsDelivered (j == id) id log (f c) c (h c d) d)

  -- After one action, with what it has published.
  perform-Delivers :
      (a : Action V) (id : ℕ) (log : List V) (cs : List (Channel V))
      → is_spared id a ≡ true
      → Delivers id log cs
      → Delivers id (log ++ published (a ∷ [])) (perform a cs)
  unfolding perform
  perform-Delivers (subscribes j capacity) id log cs spared (c, e, d) =
      rw append-nil (c, find-append id cs (new_channel j capacity ∷ []) c e, d)
  perform-Delivers (unsubscribes j) id log cs spared (c, e, d) =
      rw append-nil (c, find-remove id j cs c spared e, d)
  perform-Delivers (publishes v) id log cs spared (c, e, d) =
      (offer v c, find-offer_all v id cs c e, offer-IsDelivered id log v c d)
  perform-Delivers (receives j) id log cs spared h = rw append-nil (
      at-Delivers (λ c. take_first c.queue c) j id log cs (λ c. take_first_id c.queue c)
        (λ c d. take_first-IsDelivered id log c.queue c refl d) h)
  perform-Delivers (drains j) id log cs spared h = rw append-nil (
      at-Delivers (λ c. drain_first c.queue c) j id log cs (λ c. drain_first_id c.queue c)
        (λ c d. drain_first-IsDelivered id log c.queue c refl d) h)

  perform_all-Delivers_log :
      (actions : List (Action V)) (id : ℕ) (log : List V) (cs : List (Channel V))
      → All (λ a. is_spared id a ≡ true) actions
      → Delivers id log cs
      → Delivers id (log ++ published actions) (perform_all actions cs)
  unfolding perform_all
  perform_all-Delivers_log [] id log cs spared h = rw append-nil h
  perform_all-Delivers_log (a ∷ rest) id log cs spared h =
      subst (λ l. Delivers id l (perform_all rest (perform a cs))) (published_first log a rest)
        (perform_all-Delivers_log rest id (log ++ published (a ∷ [])) (perform a cs) spared.1
          (perform-Delivers a id log cs spared.0 h))

  delivered :
      (id capacity : ℕ) (cs : List (Channel V)) (actions : List (Action V))
      → find id cs ≡ none
      → All (λ a. is_spared id a ≡ true) actions
      → Delivers id (published actions) (perform_all actions (perform (subscribes id capacity) cs))
  delivered id capacity cs actions fresh spared =
      perform_all-Delivers_log actions id [] (perform (subscribes id capacity) cs) spared (
        unfold perform in
        (
          new_channel id capacity,
          find_new id capacity cs fresh,
          record { own_id = refl; in_order = nothing; complete = inr refl; bounded = omega arith },
        ))

  -- Until it is unsubscribed, and whatever the others do: a subscriber has been given, with what waits in its
  -- queue, values published since it subscribed, in their order. If a value did not fit, its unsubscription has
  -- been started; otherwise, and in particular if at no publication its queue was full, as counted from the
  -- actions alone, it has been given all of them. The queue never holds more than its capacity.
  pub perform_all-Delivers :
      (id capacity : ℕ) (cs : List (Channel V)) (actions : List (Action V))
      → find id cs ≡ none
      → All (λ a. is_spared id a ≡ true) actions
      → let cs' = perform_all actions (perform (subscribes id capacity) cs) in
        Delivers id (published actions) cs'
        × ((overflows id capacity 0 actions ≡ true) ⊎ IsGiven id (published actions) cs')
  perform_all-Delivers id capacity cs actions fresh spared = (
    delivered id capacity cs actions fresh spared,
    subscribed-IsGiven id capacity cs actions fresh spared,
  )
