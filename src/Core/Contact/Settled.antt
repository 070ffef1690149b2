-- ===== src/Core/Contact/Settled.antt =====
-- core/contact.go: the status of a contact follows its connection, through `onConnectionStateChanged`.
use ricochet_go.Common.{
  ℕ, ◌≡◌, inl, inr, refl, sym, ap, subst, ◌∙◌, Bool, true, false, ◌&&◌, Option, none, some, is_some,
  Bytes, arith, bytes_eq_iff, Bool-cases, Option-cases,
}
use ricochet_go.Common.Exec.{Ends, Ends-then, Ends-map, ◌>>◌}
use ricochet_go.Rpc.{is_online}
use ricochet_go.Core.Address.{plain_host_from_address}
use ricochet_go.Core.Contact.{
  Contact, Connection, State, Clock, unlock, judge_connection, is_inbound_connection,
  on_connection_state_changed, update_status, announce_change,
}

-- The connection is authenticated as the contact's hostname.
abbrev pub IsTrusted : Contact → Connection → Type 0
IsTrusted c conn =
    (conn.authenticated ≡ true)
    × ((plain_host_from_address c.contact_data.address).0 ≡ conn.remote_hostname)

abbrev pub Agrees : Contact → Option Connection → Type 0
Agrees c none = is_online c.contact_data.status ≡ false
Agrees c (some conn) = (is_online c.contact_data.status ≡ true) × IsTrusted c conn

-- The mutex is free, and the status is online exactly if there is a connection, which is then trusted.
pub record IsSettled (s : State) : Type 0 where
  pub free : s.contact.locked ≡ false
  pub agrees : Agrees s.contact s.contact.connection

-- After `onConnectionStateChanged`, which leaves the connection and the address alone.
record Changed (s s' : State) : Type 0 where
  held : s'.contact.locked ≡ true
  same_connection : s'.contact.connection ≡ s.contact.connection
  same_address : s'.contact.contact_data.address ≡ s.contact.contact_data.address
  online : is_online s'.contact.contact_data.status ≡ is_some s.contact.connection

update_status-Changed :
    (clock : Clock) (s : State)
    → s.contact.locked ≡ true
    → Ends (λ _ s'. Changed s s') (update_status clock s)
unfolding update_status
update_status-Changed clock s h = elim (Bool-cases (is_some s.contact.connection)) [
  | inl e ↦
      elim (Bool-cases
        (is_some s.contact.contact_data.request && is_inbound_connection s.contact.connection)) [
          | inl f ↦
              rw (e, f)
                (record { held = h; same_connection = refl; same_address = refl; online = sym e })
          | inr f ↦
              rw (e, f)
                (record { held = h; same_connection = refl; same_address = refl; online = sym e })
        ]
  | inr e ↦ elim (Bool-cases (is_online s.contact.contact_data.status)) [
    | inl f ↦
        rw (e, f) (record { held = h; same_connection = refl; same_address = refl; online = sym e })
    | inr f ↦
        rw (e, f)
          (record { held = h; same_connection = refl; same_address = refl; online = f ∙ sym e })
  ]
]

-- The rest of it changes neither the connection, nor the address, nor the status.
abbrev Announced : State → State → Type 0
Announced s s' =
    (s'.contact.locked ≡ true)
    × (s'.contact.connection ≡ s.contact.connection)
    × (s'.contact.contact_data.address ≡ s.contact.contact_data.address)
    × (s'.contact.contact_data.status ≡ s.contact.contact_data.status)

abbrev pub with_lock : Bool → State → State
with_lock b s = record s { contact = record (s.contact) { locked = b } }

abbrev pub with_connection : Option Connection → State → State
with_connection conn s = record s { contact = record (s.contact) { connection = conn } }

announce_change-Announced :
    (clock : Clock) (s : State)
    → s.contact.locked ≡ true
    → Ends (λ _ s'. Announced s s') (announce_change clock s)
unfolding announce_change
announce_change-Announced clock s h =
    subst (λ b. Ends (λ _ s'. Announced (with_lock b s) s') (announce_change clock (with_lock b s)))
      (sym h) (go s.contact.connection)
  where
    go :
        (conn : Option Connection)
        → let t = with_lock true (with_connection conn s) in
          Ends (λ _ s'. Announced t s') (announce_change clock t)
    go none = (refl, refl, refl, refl)
    go (some conn) = (refl, refl, refl, refl)

on_connection_state_changed-Changed :
    (clock : Clock) (s : State)
    → s.contact.locked ≡ true
    → Ends (λ _ s'. Changed s s') (on_connection_state_changed clock s)
unfolding on_connection_state_changed
on_connection_state_changed-Changed clock s h =
    Ends-then (λ s1. Changed s s1) (λ s'. Changed s s') (update_status clock)
      (announce_change clock) s (update_status-Changed clock s h)
      (λ s1 c.
        Ends-map (λ s'. Announced s1 s') (λ s'. Changed s s') (announce_change clock s1)
          (λ s' (l, n, a, t). record {
            held = l;
            same_connection = n ∙ c.same_connection;
            same_address = a ∙ c.same_address;
            online = ap is_online t ∙ c.online;
          })
          (announce_change-Announced clock s1 c.held))

pub judge_connection-IsTrusted :
    (mine : Bytes) (now : ℕ) (c : Contact) (conn : Connection)
    → judge_connection mine now c conn ≡ none
    → IsTrusted c conn
unfolding judge_connection
judge_connection-IsTrusted mine now c conn h =
    ground
      (arith, bytes_eq_iff (plain_host_from_address c.contact_data.address).0 conn.remote_hostname)

-- A change of connection, from setting it to letting the mutex go.
pub changed-IsSettled :
    (clock : Clock) (s : State)
    → s.contact.locked ≡ true
    → ((conn : Connection) → s.contact.connection ≡ some conn → IsTrusted s.contact conn)
    → Ends (λ _ s'. IsSettled s') ((on_connection_state_changed clock >> unlock) s)
unfolding unlock
changed-IsSettled clock s h t =
    Ends-then (λ s1. Changed s s1) IsSettled (on_connection_state_changed clock) unlock s
      (on_connection_state_changed-Changed clock s h)
      (λ s1 c. rw (c.held, unlock) (record { free = refl; agrees = agrees_now s1 c }))
  where
    agrees_now :
        (s1 : State)
        → Changed s s1
        → Agrees (record (s1.contact) { locked = false }) s1.contact.connection
    agrees_now s1 c = elim (Option-cases s.contact.connection) [
      | inl e ↦ rw (c.same_connection, e) (c.online ∙ ap is_some e)
      | inr (conn, e) ↦
          let (auth, host) = t conn e in
          rw (c.same_connection, e)
            (
              c.online ∙ ap is_some e,
              (auth, ap (λ a. (plain_host_from_address a).0) c.same_address ∙ host),
            )
    ]

pub unlocked :
    (c : Contact) (conn : Option Connection)
    → Agrees c conn
    → Agrees (record c { locked = false }) conn
unlocked c none a = a
unlocked c (some conn) a = a

pub unlocked_back :
    (c : Contact) (conn : Option Connection)
    → Agrees c conn
    → Agrees (record c { locked = true }) conn
unlocked_back c none a = a
unlocked_back c (some conn) a = a
