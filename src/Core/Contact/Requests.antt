-- ===== src/Core/Contact/Requests.antt =====
-- core/contact.go: what the outbound connector achieves, with and without a contact request.
use ricochet_go.Common.{◌≡◌, refl, sym, subst, false, none, some, List}
use ricochet_go.Common.Exec.{Ends, Reaches}
use ricochet_go.Rpc.{ContactRequest}
use ricochet_go.Core.Contact.{State, Clock}
use ricochet_go.Core.Contact.Outbound.{Attempt, connect_outbound}
use ricochet_go.Core.Contact.Locking.{with_lock, with_request}
use ricochet_go.Core.Contact.Fruitless.{
  asking, asking-Waits, assignments, Fruitless, Assigns, connect_loop-Fruitless,
}
use ricochet_go.Core.Contact.Settling.{Settles, connect_loop-Settles}

-- A contact with a request, whose mutex is free, never gets a connection from its connector: whatever
-- the attempts and the peer's replies are, the connector assigns no connection, neither in a run that returns,
-- which leaves the request as it was, nor in one that blocks for ever.
pub connect_outbound_request :
    (clock : Clock) (attempts : List Attempt) (r : ContactRequest) (s : State)
    → s.contact.locked ≡ false
    → s.contact.contact_data.request ≡ some r
    → Reaches
        (Fruitless r (assignments s.trace))
        (Assigns (assignments s.trace))
        (connect_outbound clock attempts s)
unfolding connect_outbound
connect_outbound_request clock attempts r s free q =
    asking-Waits r
      (λ t.
        Reaches (Fruitless r (assignments t.trace)) (Assigns (assignments t.trace))
          (connect_outbound clock attempts t))
      s (free, q)
      (connect_loop-Fruitless clock attempts r (assignments s.trace) (asking r s) (refl, refl) refl)

-- For a contact without a request, whose mutex is free, the connector makes its attempts without blocking, up to
-- the first whose peer is authenticated and knows us or whose context is cancelled. It assigns the connection of
-- that first peer, closes each other connection that got to its authentication, and changes neither the contact nor
-- the configuration.
pub connect_outbound_contact :
    (clock : Clock) (attempts : List Attempt) (s : State)
    → s.contact.locked ≡ false
    → s.contact.contact_data.request ≡ none
    → Ends (Settles attempts s) (connect_outbound clock attempts s)
unfolding connect_outbound
connect_outbound_contact clock attempts s free q =
    subst (λ b. Ended (with_lock b s)) (sym free)
      (subst (λ x. Ended (with_lock false (with_request x s))) (sym q)
        (connect_loop-Settles clock attempts (with_lock false (with_request none s))))
  where
    Ended : State → Type 0
    Ended t = Ends (Settles attempts t) (connect_outbound clock attempts t)
