-- ===== src/Cli/Contacts.antt =====
-- ricochet-cli/contact.go: the contacts and requests that the frontend knows.
-- A contact stands in the map by its value: nothing else of the frontend writes to it, and the user
-- interface refers to the current contact by its address.
use ricochet_go.Common.{
  false, Option, none, some, is_some, [], Bytes, bytes_eq, Dict, lookup, insert, erase,
  if◌then◌else◌,
}
use ricochet_go.Common.Int.{pos}
use ricochet_go.Rpc.{ContactData, ContactRequest}
use ricochet_go.Cli.Conversation.{Conversation}

pub record Contact : Type 0 where
  pub contact_data : ContactData
  pub conversation : Conversation

pub record ContactList : Type 0 where
  pub contacts : Dict Contact
  pub requests : Dict ContactRequest

abbrev pub new_contact_list : ContactList
new_contact_list = record { contacts = []; requests = [] }

-- `identity` is the address of the client's identity.
unfoldable pub init_contact : Bytes → ContactData → Contact
init_contact identity d = record {
  contact_data = d;
  conversation = record {
    identity = identity;
    contact = d.address;
    messages = [];
    num_unread = pos 0;
    active = false;
  };
}

-- `Populate` and `Added`; `none` is an error.
unfoldable pub add_contact : Bytes → ContactData → ContactList → Option ContactList
unfolding init_contact
add_contact identity d list =
    if is_some (lookup d.address list.contacts)
    then none
    else some (record list { contacts = insert d.address (init_contact identity d) list.contacts })

-- `Deleted`; `none` is an error.
unfoldable pub delete_contact : Bytes → ContactList → Option ContactList
delete_contact address list =
    if is_some (lookup address list.contacts)
    then some (record list { contacts = erase address list.contacts })
    else none

-- `Contact.Updated`; an error leaves the contact as it is.
unfoldable pub contact_updated : ContactData → Contact → Contact
contact_updated d c =
    if bytes_eq d.address c.contact_data.address then record c { contact_data = d } else c

abbrev pub put_contact : Bytes → Contact → ContactList → ContactList
put_contact address c list = record list { contacts = insert address c list.contacts }
