-- ===== src/Cli/Client/Invariant.antt =====
-- What the handlers of ricochet-cli/client.go keep true of the client.
use ricochet_go.Common.{
  true, false, not, ◌&&◌, Bytes, bytes_eq, bytes_eq_iff, bytes_eq→eq, Dict, lookup, erase,
  lookup-insert, lookup-erase, if◌then◌else◌, is_some, Option, some, none, ◌≡◌, inl, inr, refl, sym,
  ap, subst, ◌∙◌, arith, Bool-cases, Option-cases, List,
}
use ricochet_go.Rpc.{ContactData}
use ricochet_go.Cli.Contacts.{
  Contact, put_contact, init_contact, contact_updated, add_contact, delete_contact,
}
use ricochet_go.Cli.Client.{
  Client, Effect, is_current, is_at, on_contact_added, on_contact_updated, on_contact_deleted,
  check_if_populated,
}
use ricochet_go.Cli.Client.Listed.{
  IsListed, IsWellListed, put-IsListed, init_contact-IsWellListed, contact_updated-IsWellListed,
}

-- Every contact is listed under its own address, with a conversation between it and the identity
-- whose count of unread messages is exact and which is shown exactly if the contact is the current one; the current contact is
-- listed; the client is initialized exactly when all three parts have been populated.
pub record IsWellFormed (c : Client) : Type 0 where
  pub listed : IsListed c.identity (λ a. is_current a c) c.list.contacts
  pub current_listed : (a : Bytes) → c.current ≡ some a → is_some (lookup a c.list.contacts) ≡ true
  pub ready :
      c.initialized ≡ (c.populated_contacts && c.populated_conversations && c.populated_network)

-- Where the three parts are populated but the client is not marked so, the check marks it.
pub check_if_populated-IsWellFormed :
    (c : Client)
    → IsListed c.identity (λ a. is_current a c) c.list.contacts
    → ((a : Bytes) → c.current ≡ some a → is_some (lookup a c.list.contacts) ≡ true)
    → (c.initialized ≡ true
        → (c.populated_contacts && c.populated_conversations && c.populated_network) ≡ true)
    → IsWellFormed (check_if_populated c)
unfolding check_if_populated
check_if_populated-IsWellFormed c l cur r =
    elim (Bool-cases (
      not c.initialized
      && c.populated_contacts
      && c.populated_conversations
      && c.populated_network)) [
        | inl due ↦
            rw due (record { listed = l; current_listed = cur; ready = ground (arith, due) })
        | inr not_due ↦
            rw not_due
              (record { listed = l; current_listed = cur; ready = ground (arith, not_due, r) })
      ]

-- A client whose list has a new value for a contact that is there.
pub put-IsWellFormed :
    (c : Client) (a : Bytes) (k k' : Contact) (trace : List Effect)
    → IsWellFormed c
    → lookup a c.list.contacts ≡ some k
    → IsWellListed c.identity (is_current a c) a k'
    → IsWellFormed (record c { list = put_contact a k' c.list; trace = trace })
put-IsWellFormed c a k k' trace w e good = record {
  listed = put-IsListed c.identity (λ x. is_current x c) c.list.contacts a k' w.listed good;
  current_listed =
      λ b h. ground (arith, w.current_listed b, h, lookup-insert a b k' c.list.contacts);
  ready = w.ready;
}

pub on_contact_updated-IsWellFormed :
    (d : ContactData) (c : Client) → IsWellFormed c → IsWellFormed (on_contact_updated d c)
unfolding on_contact_updated
on_contact_updated-IsWellFormed d c w = elim (Option-cases (lookup d.address c.list.contacts)) [
  | inl missing ↦ rw (missing, on_contact_updated) w
  | inr (k, there) ↦
      rw (there, on_contact_updated)
        (put-IsWellFormed c d.address k (contact_updated d k) c.trace w there (
          contact_updated-IsWellListed c.identity (is_current d.address c) d k
            (w.listed d.address k there)))
]

-- The current contact is one that is listed.
not_current :
    (c : Client) (a : Bytes)
    → IsWellFormed c
    → lookup a c.list.contacts ≡ none
    → is_current a c ≡ false
not_current c a w missing = go c.current w.current_listed
  where
    go :
        (o : Option Bytes)
        → ((b : Bytes) → o ≡ some b → is_some (lookup b c.list.contacts) ≡ true)
        → is_at a o ≡ false
    go none h = refl
    go (some b) h = elim (Bool-cases (bytes_eq b a)) [
      | inl same ↦
          let p : b ≡ a = bytes_eq→eq b a same in
          let q : is_some (lookup b c.list.contacts) ≡ true = h b refl in
          let r : is_some (lookup a c.list.contacts) ≡ true =
            subst (λ x. is_some (lookup x c.list.contacts) ≡ true) p q in
          let t : false ≡ true = ap is_some (sym missing) ∙ r in cc
      | inr other ↦ other
    ]

pub on_contact_added-IsWellFormed :
    (d : ContactData) (c : Client) → IsWellFormed c → IsWellFormed (on_contact_added d c)
unfolding on_contact_added add_contact
on_contact_added-IsWellFormed d c w = elim (Option-cases (lookup d.address c.list.contacts)) [
  | inr (k, there) ↦ rw (there, on_contact_added, add_contact) w
  | inl missing ↦
      let k = init_contact c.identity d in
      rw (missing, on_contact_added, add_contact)
        (record {
          listed =
              put-IsListed c.identity (λ x. is_current x c) c.list.contacts d.address k w.listed
                (subst (λ b. IsWellListed c.identity b d.address k)
                  (sym (not_current c d.address w missing))
                  (init_contact-IsWellListed c.identity d));
          current_listed = λ b h.
              ground (arith, w.current_listed b, h, lookup-insert d.address b k c.list.contacts);
          ready = w.ready;
        })
]

is_at_deleted :
    (a b : Bytes) (o : Option Bytes)
    → bytes_eq a b ≡ false
    → is_at b (if is_at a o then none else o) ≡ is_at b o
is_at_deleted a b none other = refl
is_at_deleted a b (some x) other =
    ground (arith, bytes_eq_iff x a, bytes_eq_iff x b, bytes_eq_iff a b, other)

current_kept :
    (a b : Bytes) (o : Option Bytes)
    → (if is_at a o then none else o) ≡ some b
    → (o ≡ some b) × (bytes_eq a b ≡ false)
current_kept a b none h = cc
current_kept a b (some x) h = ground (arith, bytes_eq_iff x a, bytes_eq_iff a b)

erased :
    (a b : Bytes) (k : Contact) (contacts : Dict Contact)
    → lookup b (erase a contacts) ≡ some k
    → (lookup b contacts ≡ some k) × (bytes_eq a b ≡ false)
erased a b k contacts h = ground (arith, lookup-erase a b contacts)

pub on_contact_deleted-IsWellFormed :
    (a : Bytes) (c : Client) → IsWellFormed c → IsWellFormed (on_contact_deleted a c)
unfolding on_contact_deleted delete_contact
on_contact_deleted-IsWellFormed a c w = elim (Option-cases (lookup a c.list.contacts)) [
  | inl missing ↦ rw (missing, on_contact_deleted, delete_contact) w
  | inr (k, there) ↦
      rw (there, on_contact_deleted, delete_contact)
        (record {
          listed = λ b k' e.
              (let (h, other) = erased a b k' c.list.contacts e in
                subst (λ x. IsWellListed c.identity x b k')
                  (sym (is_at_deleted a b c.current other)) (w.listed b k' h));
          current_listed = λ b h.
              (let (same, other) = current_kept a b c.current h in
                ground (arith, w.current_listed b same, other, lookup-erase a b c.list.contacts));
          ready = w.ready;
        })
]
