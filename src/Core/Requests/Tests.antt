-- ===== src/Core/Requests/Tests.antt =====
-- core/contactlist.go, core/inboundcontactrequest.go with one inbound request, whose connection
-- listens or has left.
use ricochet_go.Common.{
  ℕ, Bool, true, false, none, some, [], ◌∷◌, Bytes, codes, bytes_eq, bytes_eq_iff, lookup, ◌≡◌,
  refl, inl, inr, Bool-cases, some_eq, none_not_some, subst, ◌<◌, arith,
}
use ricochet_go.Common.Exec.{IsBlocked, EndsUnless}
use ricochet_go.Rpc.{ContactData, ContactRequest, ContactStatus, Direction}
use ricochet_go.Core.Address.{is_address_valid}
use ricochet_go.Core.Sanitize.{
  is_nickname_acceptable, nickname_loop, is_rune_refused, decode_rune, is_format,
}
use ricochet_go.Core.Contact.{Contact, Clock}
use ricochet_go.Core.ContactList.{World, add_new_contact, has_nickname}
use ricochet_go.Core.InboundRequest.{create_inbound_contact_request, reject}
use ricochet_go.Core.Requests.{
  refusal, outbound_data, add_contact_request, add_or_update_inbound_contact_request, find_contact,
}
use ricochet_go.Core.Requests.Consistency.{Consistent}
use ricochet_go.Core.Requests.Loading.{load_contacts-Consistent}
use ricochet_go.Core.ContactList.{load_contacts, update_at}
use ricochet_go.Core.Contact.{contact_from_config, initial_status}
use ricochet_go.Common.{insert}
use ricochet_go.Core.Requests.Steps.{IsUnheard}
use ricochet_go.Core.Requests.Adding.{Added, Obstructed, add_new_contact_outcome}
use ricochet_go.Core.Requests.Answers.{Closed, reject_outcome}
use ricochet_go.Core.Requests.Invariant.{accepts, Blocks, perform, perform-Consistent}
use ricochet_go.Core.Requests.Deadlocks.{add_contact_request_blocks, add_or_update_blocks}

abbrev pub theirs : Bytes
theirs = codes "ricochet:abcdefghij234567"

abbrev clock : Clock
clock = record { now = 5; stamp = codes "2016" }

abbrev friend : ContactData
friend = record {
  address = theirs;
  nickname = codes "bob";
  when_created = [];
  last_connected = [];
  request = none;
  status = ContactStatus.offline;
}

abbrev contact : ContactData → Contact
contact d = record {
  contact_data = d;
  locked = false;
  conn_enabled = true;
  connection = none;
  time_connected = 0;
}

abbrev pub asked : ContactRequest
asked = record {
  direction = Direction.inbound;
  address = theirs;
  nickname = [];
  text = codes "hi";
  from_nickname = codes "bob";
  when_created = codes "2016";
  rejected = false;
  when_delivered = [];
  when_rejected = [];
  remote_error = [];
}

-- The request waits on channel 0.
abbrev pub asking : Bool → World
asking heard = record {
  contacts = [];
  requests = (theirs, 0) ∷ [];
  contact_at = λ i. contact friend;
  request_at = λ i. record { request_data = asked; result_channel = some 0; notifies = true };
  next = 1;
  channels = 1;
  listens = λ c. heard;
  list_locked = false;
  request_locked = λ i. false;
  config = [];
  trace = [];
}

-- A contact that we have sent a request.
abbrev pending : World
pending = record {
  contacts = (theirs, 0) ∷ [];
  requests = [];
  contact_at = λ i. contact (outbound_data [] theirs (codes "bob") [] []);
  request_at = λ i. create_inbound_contact_request [] [] [] [];
  next = 1;
  channels = 0;
  listens = λ c. true;
  list_locked = false;
  request_locked = λ i. false;
  config = [];
  trace = [];
}

only_request :
    (a : Bytes) (id : ℕ) → lookup a ((theirs, 0) ∷ []) ≡ some id → (theirs ≡ a) × (0 ≡ id)
unfolding lookup
only_request a id l = elim (Bool-cases (bytes_eq theirs a)) [
  | inl e ↦ ((bytes_eq_iff theirs a).0 e, some_eq 0 id (rw e at l))
  | inr e ↦ absurd (none_not_some (rw e at l))
]

no_contacts : (a : Bytes) (id : ℕ) → lookup {V = ℕ} a [] ≡ some id → ⊥
unfolding lookup
no_contacts a id l = none_not_some l

pub asking-Consistent : (heard : Bool) → Consistent (asking heard)
asking-Consistent heard = record {
  contacts_own = λ a id l. absurd (no_contacts a id l);
  requests_own =
      λ a id l. let (e, i) = only_request a id l in (e, subst (λ k. k < 1) i (omega arith));
  pending = λ a id l. refl;
  apart = λ a. inl (unfold lookup in refl);
  free = record { list = refl; contacts = λ i. refl; requests = λ i. refl };
}

perform-Consistent_example :
    EndsUnless
      (Blocks (accepts theirs) (asking true))
      (λ _ w'. Consistent w')
      (perform (accepts theirs) (asking true))
perform-Consistent_example =
    perform-Consistent (accepts theirs) (asking true) (asking-Consistent true)

add_new_contact_outcome_example :
    EndsUnless
      (Obstructed friend (asking true))
      (λ r w'. Added friend (asking true) r w')
      (add_new_contact friend (asking true))
add_new_contact_outcome_example = add_new_contact_outcome friend (asking true)

reject_outcome_example :
    EndsUnless
      (IsUnheard 0 (asking true))
      (λ _ w'. Closed theirs (asking true) w')
      (reject 0 (asking true))
reject_outcome_example =
    reject_outcome theirs 0 (asking true) (asking-Consistent true) (unfold lookup bytes_eq in refl)

add_contact_request_blocks_example :
    IsBlocked (add_contact_request clock theirs (codes "bob") [] [] (asking true))
unfolding refusal is_address_valid bytes_eq lookup has_nickname is_nickname_acceptable nickname_loop
    is_rune_refused decode_rune is_format
add_contact_request_blocks_example =
    add_contact_request_blocks clock theirs (codes "bob") [] [] 0 (asking true) refl
      (record { valid = refl; not_listed = refl; no_namesake = refl }) refl

add_or_update_blocks_example :
    IsBlocked (add_or_update_inbound_contact_request clock theirs [] [] pending)
unfolding lookup find_contact bytes_eq
add_or_update_blocks_example =
    add_or_update_blocks clock theirs [] [] pending refl (0, _, refl, refl)

abbrev empty : World
empty = record {
  contacts = [];
  requests = [];
  contact_at = λ i. contact friend;
  request_at = λ i. create_inbound_contact_request [] [] [] [];
  next = 0;
  channels = 0;
  listens = λ c. true;
  list_locked = false;
  request_locked = λ i. false;
  config = [];
  trace = [];
}

empty-Consistent : Consistent empty
empty-Consistent = record {
  contacts_own = λ a id l. absurd (no_contacts a id l);
  requests_own = λ a id l. absurd (no_contacts a id l);
  pending = λ a id l. absurd (no_contacts a id l);
  apart = λ a. inl (unfold lookup in refl);
  free = record { list = refl; contacts = λ i. refl; requests = λ i. refl };
}

abbrev loaded : World
loaded = record empty {
  contacts = (theirs, 0) ∷ [];
  contact_at =
      update_at 0
        (record (contact (record friend { status = ContactStatus.unknown })) {
          conn_enabled = false;
        })
        (λ i. contact friend);
  next = 1;
}

load_contacts-Consistent_example : Consistent loaded
load_contacts-Consistent_example =
    load_contacts-Consistent ((theirs, friend) ∷ []) empty loaded (λ b. unfold lookup in refl)
      empty-Consistent
      (unfold load_contacts contact_from_config initial_status is_address_valid bytes_eq lookup
          insert in
        refl)
