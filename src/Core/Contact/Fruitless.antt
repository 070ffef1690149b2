-- ===== src/Core/Contact/Fruitless.antt =====
-- core/contact.go: the outbound connector of a contact with a request.
use ricochet_go.Common.{
  ℕ, ◌≡◌, ◌≢◌, refl, sym, subst, Bool, true, false, Option, none, some, List, [], ◌∷◌, ◌++◌, ap,
}
use ricochet_go.Common.Exec.{Reaches, Reaches-bind}
use ricochet_go.Rpc.{ContactRequest}
use ricochet_go.Core.Contact.{
  Connection, State, Clock, pending, accepted, rejected, error, other, Effect, close,
  close_unhandled, handle, await_closed, cancel_outbound, publish, send_queued, assign,
}
use ricochet_go.Core.Contact.Outbound.{
  Reply, open_fails, process_ends, replied, cancelled, Attempt, connect_fails, version_fails,
  auth_fails, authenticates, Outcome, assigned, send_contact_request, conclude, attempt_once,
  finish_or, connect_loop,
}
use ricochet_go.Core.Contact.Locking.{with_lock, with_request}

-- A contact with the request `r`, its mutex free.
abbrev pub asking : ContactRequest → State → State
asking r s = with_lock false (with_request (some r) s)

abbrev pub Waits : ContactRequest → State → Type 0
Waits r s = (s.contact.locked ≡ false) × (s.contact.contact_data.request ≡ some r)

pub asking-Waits :
    (r : ContactRequest) (P : State → Type 0) (s : State) → Waits r s → P (asking r s) → P s
asking-Waits r P s (free, q) p =
    subst (λ b. P (with_lock b s)) (sym free)
      (subst (λ x. P (with_lock false (with_request x s))) (sym q) p)

-- The connections assigned to the contact in a trace.
abbrev pub assignments : List Effect → List ℕ
assignments [] = []
assignments (assign id ∷ rest) = id ∷ assignments rest
assignments (_ ∷ rest) = assignments rest

-- An effect that assigns nothing.
abbrev pub AssignsNone : Effect → Type 0
AssignsNone e = (rest : List Effect) → assignments (e ∷ rest) ≡ assignments rest

assignments_kept :
    (e : Effect) → AssignsNone e → (t : List Effect) → assignments (t ++ e ∷ []) ≡ assignments t
assignments_kept e h [] = h []
assignments_kept e h (assign id ∷ t) = ap (λ l. id ∷ l) (assignments_kept e h t)
assignments_kept e h (close id ∷ t) = assignments_kept e h t
assignments_kept e h (close_unhandled id ∷ t) = assignments_kept e h t
assignments_kept e h (handle id ∷ t) = assignments_kept e h t
assignments_kept e h (await_closed ∷ t) = assignments_kept e h t
assignments_kept e h (Effect.connect_outbound ∷ t) = assignments_kept e h t
assignments_kept e h (cancel_outbound ∷ t) = assignments_kept e h t
assignments_kept e h (publish x ∷ t) = assignments_kept e h t
assignments_kept e h (send_queued ∷ t) = assignments_kept e h t

abbrev Idle : List ℕ → State → Type 0
Idle before s' = assignments s'.trace ≡ before

-- The request is as it was, and no connection has been assigned.
abbrev Unassigned : ContactRequest → List ℕ → Option Outcome → State → Type 0
Unassigned r before o s' = (o ≢ some assigned) × Waits r s' × Idle before s'

abbrev Failed : ContactRequest → List ℕ → Bool → State → Type 0
Failed r before failed s' = (failed ≡ true) × Waits r s' × Idle before s'

closed_idle : (id : ℕ) (t : List Effect) → assignments (t ++ close id ∷ []) ≡ assignments t
closed_idle id t = assignments_kept (close id) (λ rest. refl) t

unhandled_idle :
    (id : ℕ) (t : List Effect) → assignments (t ++ close_unhandled id ∷ []) ≡ assignments t
unhandled_idle id t = assignments_kept (close_unhandled id) (λ rest. refl) t

send_contact_request-Failed :
    (clock : Clock) (conn : Connection) (reply : Reply) (r : ContactRequest) (s : State)
    → Reaches
        (Failed r (assignments s.trace))
        (Idle (assignments s.trace))
        (send_contact_request clock conn reply (asking r s))
unfolding send_contact_request
send_contact_request-Failed clock conn open_fails r s =
    (refl, (refl, refl), closed_idle conn.id s.trace)
send_contact_request-Failed clock conn (process_ends true) r s =
    (refl, (refl, refl), unhandled_idle conn.id s.trace)
send_contact_request-Failed clock conn (process_ends false) r s = (refl, (refl, refl), refl)
send_contact_request-Failed clock conn (replied pending alive) r s = refl
send_contact_request-Failed clock conn (replied accepted alive) r s = refl
send_contact_request-Failed clock conn (replied rejected alive) r s = refl
send_contact_request-Failed clock conn (replied error alive) r s = refl
send_contact_request-Failed clock conn (replied other alive) r s = refl
send_contact_request-Failed clock conn cancelled r s =
    (refl, (refl, refl), closed_idle conn.id s.trace)

conclude-Unassigned :
    (conn : Connection) (gone failed : Bool) (r : ContactRequest) (before : List ℕ) (s : State)
    → Failed r before failed s
    → Reaches (Unassigned r before) (Idle before) (conclude conn gone failed s)
unfolding conclude
conclude-Unassigned conn true true r before s (h, w, i) = (λ e. cc, w, i)
conclude-Unassigned conn false true r before s (h, w, i) = (λ e. cc, w, i)
conclude-Unassigned conn gone false r before s (h, w, i) = cc

attempt_once-Unassigned :
    (clock : Clock) (a : Attempt) (r : ContactRequest) (s : State)
    → Reaches
        (Unassigned r (assignments s.trace))
        (Idle (assignments s.trace))
        (attempt_once clock a true (asking r s))
unfolding attempt_once
attempt_once-Unassigned clock (connect_fails true) r s = (λ e. cc, (refl, refl), refl)
attempt_once-Unassigned clock (connect_fails false) r s = (λ e. cc, (refl, refl), refl)
attempt_once-Unassigned clock (version_fails true) r s = (λ e. cc, (refl, refl), refl)
attempt_once-Unassigned clock (version_fails false) r s = (λ e. cc, (refl, refl), refl)
attempt_once-Unassigned clock (auth_fails conn true) r s =
    (λ e. cc, (refl, refl), unhandled_idle conn.id s.trace)
attempt_once-Unassigned clock (auth_fails conn false) r s =
    (λ e. cc, (refl, refl), unhandled_idle conn.id s.trace)
attempt_once-Unassigned clock (authenticates conn true reply gone) r s = refl
attempt_once-Unassigned clock (authenticates conn false reply gone) r s =
    Reaches-bind (Failed r (assignments s.trace)) (Unassigned r (assignments s.trace))
      (Idle (assignments s.trace)) (send_contact_request clock conn reply)
      (λ failed. conclude conn gone failed) (asking r s)
      (send_contact_request-Failed clock conn reply r s)
      (λ failed s' h. conclude-Unassigned conn gone failed r (assignments s.trace) s' h)

-- The connector of a contact with a request: where it returns, it has assigned no connection and the
-- contact keeps the request.
abbrev pub Fruitless : ContactRequest → List ℕ → Outcome → State → Type 0
Fruitless r before o s' =
    (o ≢ assigned) × (s'.contact.contact_data.request ≡ some r) × (assignments s'.trace ≡ before)

abbrev pub Assigns : List ℕ → State → Type 0
Assigns ids s' = assignments s'.trace ≡ ids

pub connect_loop-Fruitless :
    (clock : Clock) (attempts : List Attempt) (r : ContactRequest) (before : List ℕ) (s : State)
    → Waits r s
    → assignments s.trace ≡ before
    → Reaches (Fruitless r before) (Assigns before) (connect_loop clock attempts true s)
unfolding connect_loop
connect_loop-Fruitless clock [] r before s w i = (λ e. cc, w.1, i)
connect_loop-Fruitless clock (a ∷ rest) r before s w i =
    Reaches-bind (Unassigned r before) (Fruitless r before) (Assigns before)
      (attempt_once clock a true) (λ o. finish_or o (connect_loop clock rest true)) s
      (subst (λ b. Reaches (Unassigned r b) (Assigns b) (attempt_once clock a true s)) i
        (asking-Waits r
          (λ t.
            Reaches (Unassigned r (assignments t.trace)) (Assigns (assignments t.trace))
              (attempt_once clock a true t))
          s w (attempt_once-Unassigned clock a r s)))
      (λ o s' (h, w', i').
        finish o s' h w' i' (connect_loop-Fruitless clock rest r before s' w' i'))
  where
    finish :
        (o : Option Outcome) (s' : State)
        → o ≢ some assigned
        → Waits r s'
        → assignments s'.trace ≡ before
        → Reaches (Fruitless r before) (Assigns before) (connect_loop clock rest true s')
        → Reaches
            (Fruitless r before)
            (Assigns before)
            (finish_or o (connect_loop clock rest true) s')
    finish none s' h w' i' k = k
    finish (some o) s' h w' i' k = (λ e. h (ap some e), w'.1, i')
