-- ===== src/Core/Contact/Online.antt =====
-- core/contact.go: what holds of a contact between two rounds of its connection loop.
use ricochet_go.Common.{
  ℕ, ◌≡◌, inl, inr, refl, sym, ap, subst, ◌∙◌, Bool, true, false, Option, none, some, is_some, List,
  [], ◌∷◌, ◌++◌, Bytes, Dict, arith, Bool-cases, some_eq, none_not_some,
}
use ricochet_go.Common.Exec.{Ends, Ends-bind, Ends-then, ◌>>◌, return}
use ricochet_go.Rpc.{ContactData, is_online}
use ricochet_go.Core.Address.{is_address_valid}
use ricochet_go.Core.Contact.{
  Contact, Connection, Effect, State, Clock, Discarded, get_locked, address,
  should_make_outbound_connections, emit, close_unhandled, initial_status, contact_from_config,
  connection_to_close, close_if, handle, await_closed, unlock, judge_connection,
  consider_using_connection, on_connection_state_changed,
}
use ricochet_go.Core.Contact.Loop.{
  Input, new_connection, connection_closed, enable, take_over, discard, settle, receive_connection,
  lose_connection, receive, round, disabled_round, enabled_round, begin_outbound, start_outbound,
  cancel,
}
use ricochet_go.Core.Contact.Settled.{
  IsTrusted, Agrees, IsSettled, with_lock, with_connection, judge_connection-IsTrusted,
  changed-IsSettled, unlocked, unlocked_back,
}

-- Closing, discarding and starting attempts change neither the contact nor the mutex.
take_over-IsSettled :
    (clock : Clock) (conn : Connection) (s : State)
    → s.contact.locked ≡ true
    → IsTrusted s.contact conn
    → Ends (λ _ s'. IsSettled s') (take_over clock conn s)
unfolding take_over
take_over-IsSettled clock conn s h t =
    subst (λ b. Ends (λ _ s'. IsSettled s') (take_over clock conn (with_lock b s))) (sym h)
      (go s.contact.connection)
  where
    settled :
        (trace : List Effect)
        → let u = record s {
          contact = record (s.contact) { locked = true; connection = some conn };
          trace = trace;
        } in
          Ends (λ _ s'. IsSettled s') ((on_connection_state_changed clock >> unlock) u)
    settled trace =
        changed-IsSettled clock
          (record s {
            contact = record (s.contact) { locked = true; connection = some conn };
            trace = trace;
          })
          refl (λ k e. subst (IsTrusted s.contact) (some_eq conn k e) t)

    go :
        (old : Option Connection)
        → Ends
            (λ _ s'. IsSettled s')
            (take_over clock conn (with_lock true (with_connection old s)))
    go none = settled (s.trace ++ handle conn.id ∷ [])
    go (some old) = settled ((s.trace ++ await_closed ∷ []) ++ handle conn.id ∷ [])

-- The decision is that of `judge_connection`, and the contact stays as it is.
consider_using_connection-judge :
    (mine : Bytes) (clock : Clock) (conn : Connection) (s : State)
    → Ends
        (λ v s'. (v ≡ judge_connection mine clock.now s.contact conn) × (s'.contact ≡ s.contact))
        (consider_using_connection mine clock conn s)
unfolding consider_using_connection
consider_using_connection-judge mine clock conn s =
    go (judge_connection mine clock.now s.contact conn) (
      connection_to_close (judge_connection mine clock.now s.contact conn) conn
        s.contact.connection)
  where
    go :
        (v : Option Discarded) (id : Option ℕ)
        → Ends (λ w s'. (w ≡ v) × (s'.contact ≡ s.contact)) ((close_if id >> return v) s)
    go v none = (refl, refl)
    go v (some id) = (refl, refl)

settle-IsSettled :
    (mine : Bytes) (clock : Clock) (conn : Connection) (s : State) (v : Option Discarded)
    → s.contact.locked ≡ true
    → Agrees s.contact s.contact.connection
    → v ≡ judge_connection mine clock.now s.contact conn
    → Ends (λ _ s'. IsSettled s') (settle clock conn v s)
unfolding settle
settle-IsSettled mine clock conn s none h a e =
    take_over-IsSettled clock conn s h
      (judge_connection-IsTrusted mine clock.now s.contact conn (sym e))
settle-IsSettled mine clock conn s (some d) h a e =
    subst (λ b. Ends (λ _ s'. IsSettled s') (discard conn (with_lock b s))) (sym h)
      (unfold discard in record { free = refl; agrees = unlocked s.contact s.contact.connection a })

receive_connection-IsSettled :
    (mine : Bytes) (clock : Clock) (conn : Connection) (s : State)
    → IsSettled s
    → Ends (λ _ s'. IsSettled s') (receive_connection mine clock conn s)
unfolding receive_connection
receive_connection-IsSettled mine clock conn s v =
    subst (λ b. Ends (λ _ s'. IsSettled s') (receive_connection mine clock conn (with_lock b s)))
      (sym v.free)
      (Ends-bind
        (λ w s'.
          (w ≡ judge_connection mine clock.now (record (s.contact) { locked = true }) conn)
          × (s'.contact ≡ record (s.contact) { locked = true }))
        (λ _ s'. IsSettled s') (consider_using_connection mine clock conn)
        (λ w. settle clock conn w) (with_lock true s)
        (consider_using_connection-judge mine clock conn (with_lock true s))
        (λ w s' (e, c).
          settle-IsSettled mine clock conn s' w (ap (λ k. k.locked) c)
            (subst (λ k. Agrees k k.connection) (sym c)
              (unlocked_back s.contact s.contact.connection v.agrees))
            (e ∙ ap (λ k. judge_connection mine clock.now k conn) (sym c))))

lose_connection-IsSettled :
    (clock : Clock) (s : State)
    → s.contact.locked ≡ false
    → Ends (λ _ s'. IsSettled s') (lose_connection clock s)
unfolding lose_connection
lose_connection-IsSettled clock s h =
    subst (λ b. Ends (λ _ s'. IsSettled s') (lose_connection clock (with_lock b s))) (sym h)
      (changed-IsSettled clock _ refl (λ k e. absurd (none_not_some e)))

-- Reading a field under the mutex.
read-IsSettled :
    {A : Type 0} (read : Contact → A) (s : State)
    → IsSettled s
    → Ends (λ _ s'. IsSettled s') (get_locked read s)
unfolding get_locked
read-IsSettled read s v =
    subst (λ b. Ends (λ _ s'. IsSettled s') (get_locked read (with_lock b s))) (sym v.free)
      (record { free = refl; agrees = unlocked s.contact s.contact.connection v.agrees })

receive-IsSettled :
    (mine : Bytes) (clock : Clock) (input : Input) (s : State)
    → IsSettled s
    → Ends (λ _ s'. IsSettled s') (receive mine clock input s)
unfolding receive
receive-IsSettled mine clock (new_connection none) s v = v
receive-IsSettled mine clock (new_connection (some conn)) s v =
    Ends-then IsSettled IsSettled (receive_connection mine clock conn) (return true) s
      (receive_connection-IsSettled mine clock conn s v) (λ s' v'. v')
receive-IsSettled mine clock connection_closed s v =
    Ends-then IsSettled IsSettled (lose_connection clock) (return true) s
      (lose_connection-IsSettled clock s v.free) (λ s' v'. v')
receive-IsSettled mine clock (enable true) s v = v
receive-IsSettled mine clock (enable false) s v =
    Ends-bind (λ _ s'. IsSettled s') (λ _ s'. IsSettled s') address (λ a. return false) s
      (unfold address in read-IsSettled _ s v) (λ a s' v'. v')

begin_outbound-IsSettled :
    (s : State) → IsSettled s → Ends (λ _ s'. IsSettled s') (begin_outbound s)
unfolding begin_outbound
begin_outbound-IsSettled s v = elim (Bool-cases (is_some s.contact.connection)) [
  | inl e ↦ rw e v
  | inr e ↦ rw e (
      Ends-bind (λ _ s'. IsSettled s') (λ _ s'. IsSettled s') should_make_outbound_connections
        start_outbound s (unfold should_make_outbound_connections in read-IsSettled _ s v)
        (λ may s' v'. start s' v' may))
]
  where
    start :
        (s' : State)
        → IsSettled s'
        → (may : Bool) → Ends (λ _ t. IsSettled t) (start_outbound may s')
    start s' v' true = record { free = v'.free; agrees = v'.agrees }
    start s' v' false = v'

cancel-IsSettled :
    (started : Bool) (s : State) → IsSettled s → Ends (λ _ s'. IsSettled s') (cancel started s)
unfolding cancel
cancel-IsSettled true s v = record { free = v.free; agrees = v.agrees }
cancel-IsSettled false s v = v

disabled_round-IsSettled :
    (input : Input) (s : State) → IsSettled s → Ends (λ _ s'. IsSettled s') (disabled_round input s)
unfolding disabled_round address
disabled_round-IsSettled (new_connection none) s v = v
disabled_round-IsSettled (new_connection (some conn)) s v =
    Ends-bind (λ _ s'. IsSettled s') (λ _ s'. IsSettled s') address
      (λ a. emit (close_unhandled conn.id) >> return false) s (read-IsSettled _ s v)
      (λ a s' v'. unfold emit in record { free = v'.free; agrees = v'.agrees })
disabled_round-IsSettled connection_closed s v = v
disabled_round-IsSettled (enable true) s v =
    Ends-bind (λ _ s'. IsSettled s') (λ _ s'. IsSettled s') address (λ a. return true) s
      (read-IsSettled _ s v) (λ a s' v'. v')
disabled_round-IsSettled (enable false) s v = v

-- From a settled state, in which the mutex is free and the contact is online exactly if it has a
-- connection, which is authenticated as the contact's hostname, a round of the connection loop always
-- ends: it neither blocks on the contact's own mutex nor faults. The state after it is settled again.
pub round-IsSettled :
    (mine : Bytes) (clock : Clock) (enabled : Bool) (input : Input) (s : State)
    → IsSettled s
    → Ends (λ _ s'. IsSettled s') (round mine clock enabled input s)
unfolding round enabled_round
round-IsSettled mine clock false input s v = disabled_round-IsSettled input s v
round-IsSettled mine clock true input s v =
    Ends-bind (λ _ s'. IsSettled s') (λ _ s'. IsSettled s') begin_outbound
      (λ started. cancel started >> receive mine clock input) s (begin_outbound-IsSettled s v)
      (λ started s' v'.
        Ends-then IsSettled IsSettled (cancel started) (receive mine clock input) s'
          (cancel-IsSettled started s' v') (λ s'' v''. receive-IsSettled mine clock input s'' v''))

initial_status_offline : (d : ContactData) → is_online (initial_status d) ≡ false
unfolding initial_status
initial_status_offline d = ground arith

-- A contact that is loaded starts settled, also if it was stored as online.
pub contact_from_config-IsSettled :
    (d : ContactData) (c : Contact) (config : Dict ContactData)
    → contact_from_config d ≡ some c
    → IsSettled (record { contact = c; config = config; trace = [] })
unfolding contact_from_config
contact_from_config-IsSettled d c config e = elim (Bool-cases (is_address_valid d.address)) [
  | inl v ↦ loaded (some_eq _ c (rw v at e))
  | inr v ↦ absurd (none_not_some (rw v at e))
]
  where
    loaded :
        record {
          contact_data = record d { status = initial_status d };
          locked = false;
          conn_enabled = false;
          connection = none;
          time_connected = 0;
        }
          ≡ c
        → IsSettled (record { contact = c; config = config; trace = [] })
    loaded p =
        subst (λ k. IsSettled (record { contact = k; config = config; trace = [] })) p
          (record { free = refl; agrees = initial_status_offline d })
