-- ===== src/Cli/Client/Listed.antt =====
-- What ricochet-cli/client.go and contact.go keep true of the contacts in the list, one change at a time.
use ricochet_go.Common.{
  Bool, false, Bytes, bytes_eq, bytes_eq→eq, Dict, lookup, insert, erase, lookup-insert,
  lookup-erase, bool_eq, some, ◌≡◌, inl, inr, refl, sym, ap, subst, ◌∙◌, arith, Bool-cases,
}
use ricochet_go.Common.Int.{pos}
use ricochet_go.Rpc.{Message, ContactData}
use ricochet_go.Cli.Conversation.{Conversation, add_message, update_message, set_active, is_unread}
use ricochet_go.Cli.Conversation.Unread.{
  IsCounted, count_unread_nothing, add_message-IsCounted, update_message-IsCounted,
}
use ricochet_go.Cli.Conversation.Ends.{SameEnds, add_message-SameEnds, update_message-SameEnds}
use ricochet_go.Cli.Contacts.{Contact, init_contact, contact_updated}

-- A contact listed at an address, with what its conversation knows of it.
pub record IsWellListed (identity : Bytes) (shown : Bool) (a : Bytes) (k : Contact) : Type 0 where
  pub own_address : k.contact_data.address ≡ a
  pub contact : k.conversation.contact ≡ a
  pub local : k.conversation.identity ≡ identity
  pub counted : IsCounted k.conversation
  pub active : k.conversation.active ≡ shown

abbrev pub IsListed : Bytes → (Bytes → Bool) → Dict Contact → Type 0
IsListed identity active contacts =
    (a : Bytes) (k : Contact) → lookup a contacts ≡ some k → IsWellListed identity (active a) a k

-- A new value at an address, where the others are as they should be.
pub put-IsListed_others :
    (identity : Bytes) (active : Bytes → Bool) (contacts : Dict Contact) (a : Bytes) (k : Contact)
    → ((b : Bytes) (k' : Contact)
        → lookup b contacts ≡ some k'
        → bytes_eq a b ≡ false
        → IsWellListed identity (active b) b k')
    → IsWellListed identity (active a) a k
    → IsListed identity active (insert a k contacts)
put-IsListed_others identity active contacts a k h good b k' e = elim (Bool-cases (bytes_eq a b)) [
  | inl same ↦
      let p : a ≡ b = bytes_eq→eq a b same in
      let q : k ≡ k' = ground (arith, e, lookup-insert a b k contacts, same) in
      subst (λ x. IsWellListed identity (active b) b x) q
        (subst (λ x. IsWellListed identity (active x) x k) p good)
  | inr other ↦ h b k' (ground (arith, e, lookup-insert a b k contacts, other)) other
]

pub put-IsListed :
    (identity : Bytes) (active : Bytes → Bool) (contacts : Dict Contact) (a : Bytes) (k : Contact)
    → IsListed identity active contacts
    → IsWellListed identity (active a) a k
    → IsListed identity active (insert a k contacts)
put-IsListed identity active contacts a k h good =
    put-IsListed_others identity active contacts a k (λ b k' e other. h b k' e) good

pub erase-IsListed :
    (identity : Bytes) (active : Bytes → Bool) (contacts : Dict Contact) (a : Bytes)
    → IsListed identity active contacts
    → IsListed identity active (erase a contacts)
erase-IsListed identity active contacts a h b k e =
    h b k (ground (arith, e, lookup-erase a b contacts))

pub init_contact-IsWellListed :
    (identity : Bytes) (d : ContactData)
    → IsWellListed identity false d.address (init_contact identity d)
unfolding init_contact
init_contact-IsWellListed identity d = record {
  own_address = refl;
  contact = refl;
  local = refl;
  counted = ap pos (sym count_unread_nothing);
  active = refl;
}

pub contact_updated-IsWellListed :
    (identity : Bytes) (active : Bool) (d : ContactData) (k : Contact)
    → IsWellListed identity active d.address k
    → IsWellListed identity active d.address (contact_updated d k)
unfolding contact_updated
contact_updated-IsWellListed identity active d k h =
    elim (Bool-cases (bytes_eq d.address k.contact_data.address)) [
      | inl same ↦ rw same (record {
        own_address = refl;
        contact = h.contact;
        local = h.local;
        counted = h.counted;
        active = h.active;
      })
      | inr other ↦ rw other h
    ]

-- The same contact with its conversation moved on.
conversation-IsWellListed :
    (identity : Bytes) (active : Bool) (a : Bytes) (k : Contact) (c : Conversation)
    → IsWellListed identity active a k
    → SameEnds k.conversation c
    → IsCounted c
    → IsWellListed identity active a (record k { conversation = c })
conversation-IsWellListed identity active a k c h same n = record {
  own_address = h.own_address;
  contact = same.same_contact ∙ h.contact;
  local = same.same_identity ∙ h.local;
  counted = n;
  active = same.same_active ∙ h.active;
}

pub add_message-IsWellListed :
    (identity : Bytes) (active : Bool) (a : Bytes) (k : Contact) (m : Message) (populating : Bool)
    → IsWellListed identity active a k
    → IsWellListed identity active a
        (record k { conversation = (add_message k.conversation m populating).0 })
add_message-IsWellListed identity active a k m populating h =
    conversation-IsWellListed identity active a k (add_message k.conversation m populating).0 h
      (add_message-SameEnds k.conversation m populating)
      (add_message-IsCounted k.conversation m populating h.counted)

pub update_message-IsWellListed :
    (identity : Bytes) (active : Bool) (a : Bytes) (k : Contact) (m : Message)
    → is_unread m ≡ false
    → IsWellListed identity active a k
    → IsWellListed identity active a (record k { conversation = update_message k.conversation m })
update_message-IsWellListed identity active a k m r h =
    conversation-IsWellListed identity active a k (update_message k.conversation m) h
      (update_message-SameEnds k.conversation m)
      (update_message-IsCounted k.conversation m r h.counted)

pub set_active-IsWellListed :
    (identity : Bytes) (was now : Bool) (a : Bytes) (k : Contact)
    → IsWellListed identity was a k
    → IsWellListed identity now a (record k { conversation = (set_active k.conversation now).0 })
unfolding set_active
set_active-IsWellListed identity was now a k h =
    elim (Bool-cases (bool_eq now k.conversation.active)) [
      | inl same ↦ rw same (record {
        own_address = h.own_address;
        contact = h.contact;
        local = h.local;
        counted = h.counted;
        active = ground (arith, same);
      })
      | inr other ↦ rw other (record {
        own_address = h.own_address;
        contact = h.contact;
        local = h.local;
        counted = h.counted;
        active = refl;
      })
    ]
