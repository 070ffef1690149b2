-- ===== src/Core/Contact/Outbound.antt =====
-- core/contact.go: the outbound connector `connectOutbound` and `sendContactRequest`.
-- The protocol library, the network and the context answer: each attempt comes with its answers.
use ricochet_go.Common.{Bool, true, false, not, Option, none, some, is_some, List, [], ◌∷◌}
use ricochet_go.Common.Exec.{◌>>=◌, ◌>>◌, return}
use ricochet_go.Core.Contact.{
  Connection, M, Clock, RequestStatus, accepted, close, close_unhandled, assign, lock, unlock, emit,
  get, update_contact_request,
}

-- How the wait for the reply to a contact request ends: opening the channel fails, `Process` returns
-- (`true`: with a nil error), a reply comes (the flag: whether `Process` ends without an error after
-- it), or the context is cancelled.
pub data Reply : Type 0 where
  open_fails : Reply
  process_ends : Bool → Reply
  replied : RequestStatus → Bool → Reply
  cancelled : Reply

-- The answers to one attempt. The flag behind a failure says that the context is cancelled, in the
-- connector or in its backoff.
pub data Attempt : Type 0 where
  connect_fails : Bool → Attempt
  version_fails : Bool → Attempt
  auth_fails : Connection → Bool → Attempt
  authenticates : Connection → Bool → Reply → Bool → Attempt

-- `sendContactRequest`; the result says whether it returns an error.
unfoldable pub send_contact_request : Clock → Connection → Reply → M Bool
unfolding emit update_contact_request
send_contact_request clock conn open_fails = emit (close conn.id) >> return true
send_contact_request clock conn (process_ends true) = emit (close_unhandled conn.id) >> return true
send_contact_request clock conn (process_ends false) = return true
send_contact_request clock conn (replied accepted alive) = do
  keep ← update_contact_request clock accepted
  return (not alive)
send_contact_request clock conn (replied status alive) = do
  keep ← update_contact_request clock status
  emit (close conn.id)
  return true
send_contact_request clock conn cancelled = emit (close conn.id) >> return true

-- How the connector ends: a connection was assigned, its context was cancelled, or it would make
-- another attempt than those given.
pub data Outcome : Type 0 where
  assigned stopped unfinished : Outcome

-- After a failure: the backoff, cut short by the context. `none` is `continue`.
unfoldable pub back_off : Bool → M (Option Outcome)
back_off true = return (some stopped)
back_off false = return none

unfoldable pub conclude : Connection → Bool → Bool → M (Option Outcome)
unfolding emit back_off
conclude conn gone true = back_off gone
conclude conn gone false = emit (assign conn.id) >> return (some assigned)

-- An attempt that got as far as the authentication: what the peer says of the contact (`known`), and
-- whether the contact is a request.
unfoldable pub use_authenticated :
    Clock → Connection → Bool → Reply → Bool → Bool → M (Option Outcome)
unfolding emit update_contact_request send_contact_request conclude back_off
use_authenticated clock conn false reply gone false =
    emit (close_unhandled conn.id) >> back_off gone
use_authenticated clock conn true reply gone false = conclude conn gone false
use_authenticated clock conn true reply gone true = do
  keep ← update_contact_request clock accepted
  conclude conn gone false
use_authenticated clock conn false reply gone true = do
  failed ← send_contact_request clock conn reply
  conclude conn gone failed

unfoldable pub attempt_once : Clock → Attempt → Bool → M (Option Outcome)
unfolding emit back_off use_authenticated
attempt_once clock (connect_fails true) is_request = return (some stopped)
attempt_once clock (connect_fails false) is_request = return none
attempt_once clock (version_fails gone) is_request = back_off gone
attempt_once clock (auth_fails conn gone) is_request =
    emit (close_unhandled conn.id) >> back_off gone
attempt_once clock (authenticates conn known reply gone) is_request =
    use_authenticated clock conn known reply gone is_request

unfoldable pub finish_or : Option Outcome → M Outcome → M Outcome
finish_or (some o) again = return o
finish_or none again = again

-- The loop, over the attempts that there is time for.
unfoldable pub connect_loop : Clock → List Attempt → Bool → M Outcome
unfolding attempt_once finish_or
connect_loop clock [] is_request = return unfinished
connect_loop clock (a ∷ rest) is_request =
    attempt_once clock a is_request >>= λ o. finish_or o (connect_loop clock rest is_request)

unfoldable pub connect_outbound : Clock → List Attempt → M Outcome
unfolding lock unlock get connect_loop
connect_outbound clock attempts = do
  lock
  c ← get
  unlock
  connect_loop clock attempts (is_some c.contact_data.request)
