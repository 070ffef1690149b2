-- ===== src/Core/Contact/Settling.antt =====
-- core/contact.go: the outbound connector of a contact without a request.
use ricochet_go.Common.{
  ◌≡◌, refl, sym, Bool, true, false, ◌||◌, if◌then◌else◌, Option, none, some, List, [], ◌∷◌, ◌++◌,
  append_assoc, append-nil, ◌∙◌,
}
use ricochet_go.Common.Exec.{Ends, Ends-weaken}
use ricochet_go.Core.Contact.{Connection, State, Clock, Effect, close_unhandled, assign}
use ricochet_go.Core.Contact.Outbound.{
  Attempt, connect_fails, version_fails, auth_fails, authenticates, Outcome, assigned, stopped,
  unfinished, connect_loop,
}

-- What an attempt comes to for an established contact: the peer knows us, or the attempt has failed,
-- and is or is not the last one as the context is cancelled.
abbrev pub is_known : Attempt → Bool
is_known (authenticates conn known reply gone) = known
is_known _ = false

abbrev pub is_cancelled : Attempt → Bool
is_cancelled (connect_fails gone) = gone
is_cancelled (version_fails gone) = gone
is_cancelled (auth_fails conn gone) = gone
is_cancelled (authenticates conn known reply gone) = gone

abbrev pub connection_of : Attempt → Option Connection
connection_of (connect_fails gone) = none
connection_of (version_fails gone) = none
connection_of (auth_fails conn gone) = some conn
connection_of (authenticates conn known reply gone) = some conn

-- The attempts that are made: up to the first whose peer knows us or whose context is cancelled.
abbrev pub made : List Attempt → List Attempt
made [] = []
made (a ∷ rest) = let later = made rest in a ∷ (if is_known a || is_cancelled a then [] else later)

abbrev pub on_each : (Connection → Effect) → Option Connection → List Effect
on_each f none = []
on_each f (some conn) = f conn ∷ []

-- The last of the connections is assigned if its peer knows us, and all others are closed.
abbrev pub effects : List Attempt → List Effect
effects [] = []
effects (a ∷ rest) =
    let f : Connection → Effect =
      λ conn. if is_known a then assign conn.id else close_unhandled conn.id in
    on_each f (connection_of a) ++ effects rest

abbrev pub outcome : List Attempt → Outcome
outcome [] = unfinished
outcome (a ∷ rest) =
    let later = outcome rest in
    if is_known a then assigned else if is_cancelled a then stopped else later

-- The contact and the configuration are as before, and the connections are treated as they should be.
abbrev pub Settles : List Attempt → State → Outcome → State → Type 0
Settles attempts s o s' =
    (o ≡ outcome attempts)
    × (s'.contact ≡ s.contact)
    × (s'.config ≡ s.config)
    × (s'.trace ≡ s.trace ++ effects (made attempts))

with_effect : Effect → State → State
with_effect e s = record s { trace = s.trace ++ e ∷ [] }

-- An attempt that closes its connection, with another one behind it.
then_again :
    (clock : Clock) (conn : Connection) (rest : List Attempt) (s : State)
    → Ends
        (Settles rest (with_effect (close_unhandled conn.id) s))
        (connect_loop clock rest false (with_effect (close_unhandled conn.id) s))
    → Ends
        (λ o s'.
          (o ≡ outcome rest)
          × (s'.contact ≡ s.contact)
          × (s'.config ≡ s.config)
          × (s'.trace ≡ s.trace ++ close_unhandled conn.id ∷ effects (made rest)))
        (connect_loop clock rest false (with_effect (close_unhandled conn.id) s))
unfolding with_effect
then_again clock conn rest s h =
    Ends-weaken (Settles rest (with_effect (close_unhandled conn.id) s)) _
      (connect_loop clock rest false (with_effect (close_unhandled conn.id) s))
      (λ o s' (e, c, f, t).
        (e, c, f, t ∙ append_assoc s.trace (close_unhandled conn.id ∷ []) (effects (made rest))))
      h

pub connect_loop-Settles :
    (clock : Clock) (attempts : List Attempt) (s : State)
    → Ends (Settles attempts s) (connect_loop clock attempts false s)
unfolding connect_loop with_effect
connect_loop-Settles clock [] s = (refl, refl, refl, sym (append-nil s.trace))
connect_loop-Settles clock (connect_fails true ∷ rest) s =
    (refl, refl, refl, sym (append-nil s.trace))
connect_loop-Settles clock (connect_fails false ∷ rest) s = connect_loop-Settles clock rest s
connect_loop-Settles clock (version_fails true ∷ rest) s =
    (refl, refl, refl, sym (append-nil s.trace))
connect_loop-Settles clock (version_fails false ∷ rest) s = connect_loop-Settles clock rest s
connect_loop-Settles clock (auth_fails conn true ∷ rest) s = (refl, refl, refl, refl)
connect_loop-Settles clock (auth_fails conn false ∷ rest) s =
    then_again clock conn rest s
      (connect_loop-Settles clock rest (with_effect (close_unhandled conn.id) s))
connect_loop-Settles clock (authenticates conn true reply gone ∷ rest) s = (refl, refl, refl, refl)
connect_loop-Settles clock (authenticates conn false reply true ∷ rest) s = (refl, refl, refl, refl)
connect_loop-Settles clock (authenticates conn false reply false ∷ rest) s =
    then_again clock conn rest s
      (connect_loop-Settles clock rest (with_effect (close_unhandled conn.id) s))
