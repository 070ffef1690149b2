-- ===== src/Core/Contact/Loop.antt =====
-- core/contact.go: the goroutine `contactConnection`, one round of its loop at a time.
use ricochet_go.Common.{Bool, true, false, Option, none, some, is_some, Bytes, if◌then◌else◌}
use ricochet_go.Common.Exec.{done, ◌>>=◌, ◌>>◌, return}
use ricochet_go.Core.Contact.{
  Connection, M, Clock, Discarded, lock, unlock, emit, get, put, address,
  should_make_outbound_connections, consider_using_connection, on_connection_state_changed,
  close_unhandled, handle, await_closed, connect_outbound, cancel_outbound,
}

-- What the `select` receives: on `connChannel`, on `connClosedChannel`, on `connEnabledSignal`.
pub data Input : Type 0 where
  new_connection : Option Connection → Input
  connection_closed : Input
  enable : Bool → Input

unfoldable pub set_connection : Option Connection → M (Unit {0})
unfolding put
set_connection conn = put (λ c. record c { connection = conn })

-- A round while connections are disabled; the result is `connectionsEnabled`. The closing of a
-- connection is not received in it.
unfoldable pub disabled_round : Input → M Bool
unfolding address emit
disabled_round (new_connection none) = return false
disabled_round (new_connection (some conn)) = do
  a ← address
  emit (close_unhandled conn.id)
  return false
disabled_round connection_closed = return false
disabled_round (enable true) = do a ← address; return true
disabled_round (enable false) = return false

unfoldable pub start_outbound : Bool → M Bool
unfolding emit
start_outbound may s = if may then (emit connect_outbound >> return true) s else done false s

-- The outbound attempt that a round starts if there is no connection; the result says whether one was
-- started.
unfoldable pub begin_outbound : M Bool
unfolding start_outbound should_make_outbound_connections
begin_outbound s =
    if is_some s.contact.connection
    then done false s
    else (should_make_outbound_connections >>= start_outbound) s

unfoldable pub cancel : Bool → M (Unit {0})
unfolding emit
cancel started s = if started then emit cancel_outbound s else done tt s

-- Waiting for the handler of the connection that is replaced.
unfoldable pub await_old : Bool → M (Unit {0})
unfolding lock unlock emit
await_old replacing s = if replacing then (unlock >> (emit await_closed >> lock)) s else done tt s

-- Taking over a connection that `considerUsingConnection` lets pass; the mutex is let go while the
-- old handler ends.
unfoldable pub take_over : Clock → Connection → M (Unit {0})
unfolding get set_connection await_old lock unlock emit on_connection_state_changed
take_over clock conn = do
  c ← get
  set_connection (some conn)
  await_old (is_some c.connection)
  emit (handle conn.id)
  on_connection_state_changed clock
  unlock

unfoldable pub discard : Connection → M (Unit {0})
unfolding emit unlock
discard conn = do emit (close_unhandled conn.id); unlock

unfoldable pub settle : Clock → Connection → Option Discarded → M (Unit {0})
unfolding discard take_over
settle clock conn (some e) = discard conn
settle clock conn none = take_over clock conn

unfoldable pub receive_connection : Bytes → Clock → Connection → M (Unit {0})
unfolding lock consider_using_connection settle
receive_connection mine clock conn = do
  lock
  verdict ← consider_using_connection mine clock conn
  settle clock conn verdict

unfoldable pub lose_connection : Clock → M (Unit {0})
unfolding lock unlock set_connection on_connection_state_changed
lose_connection clock = do lock; set_connection none; on_connection_state_changed clock; unlock

unfoldable pub receive : Bytes → Clock → Input → M Bool
unfolding receive_connection lose_connection address
receive mine clock (new_connection none) = return true
receive mine clock (new_connection (some conn)) = receive_connection mine clock conn >> return true
receive mine clock connection_closed = lose_connection clock >> return true
receive mine clock (enable true) = return true
receive mine clock (enable false) = do a ← address; return false

unfoldable pub enabled_round : Bytes → Clock → Input → M Bool
unfolding begin_outbound cancel receive
enabled_round mine clock input = do
  started ← begin_outbound
  cancel started
  receive mine clock input

unfoldable pub round : Bytes → Clock → Bool → Input → M Bool
unfolding disabled_round enabled_round
round mine clock enabled input s =
    if enabled then enabled_round mine clock input s else disabled_round input s
