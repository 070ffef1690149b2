-- ===== src/Core/InboundHandler/Tests.antt =====
-- core/inboundcontactrequest.go: a connection of a new peer.
use ricochet_go.Common.{
  ℕ, true, ◌||◌, none, some, [], codes, lookup, ◌≡◌, refl, none_not_some, inl, Bytes, bytes_eq,
  false,
}
use ricochet_go.Common.Exec.{Ends, EndsUnless}
use ricochet_go.Rpc.{ContactStatus}
use ricochet_go.Core.Address.{is_address_valid, address_from_plain_host}
use ricochet_go.Core.Contact.{Contact, Clock}
use ricochet_go.Core.ContactList.{World, has_nickname}
use ricochet_go.Core.InboundRequest.{create_inbound_contact_request, accept, accepted_data, reject}
use ricochet_go.Core.Requests.Deadlocks.{IsWelcome}
use ricochet_go.Core.Requests.Tests.{theirs, asked, asking, asking-Consistent}
use ricochet_go.Core.InboundHandler.Stranding.{Strands, answers_strand}
use ricochet_go.Core.Requests.Consistency.{Consistent}
use ricochet_go.Core.Requests.Calls.{HasRequest}
use ricochet_go.Core.InboundHandler.{Peer, request_received, answered, begin, resume}
use ricochet_go.Core.InboundHandler.Ownership.{Owned, is_over, is_lost, begin-Owned, resume-Owned}

abbrev peer : Peer
peer = record {
  remote_hostname = codes "abcdefghij234567";
  close_error = true;
  break_fails = false;
}

abbrev clock : Clock
clock = record { now = 5; stamp = codes "2016" }

abbrev nobody : Contact
nobody = record {
  contact_data = record {
    address = [];
    nickname = [];
    when_created = [];
    last_connected = [];
    request = none;
    status = ContactStatus.unknown;
  };
  locked = false;
  conn_enabled = false;
  connection = none;
  time_connected = 0;
}

abbrev empty : World
empty = record {
  contacts = [];
  requests = [];
  contact_at = λ i. nobody;
  request_at = λ i. create_inbound_contact_request [] [] [] [];
  next = 0;
  channels = 0;
  listens = λ c. true;
  list_locked = false;
  request_locked = λ i. false;
  config = [];
  trace = [];
}

nothing_listed : (a : Bytes) (id : ℕ) → lookup {V = ℕ} a [] ≡ some id → ⊥
unfolding lookup
nothing_listed a id l = none_not_some l

empty-Consistent : Consistent empty
empty-Consistent = record {
  contacts_own = λ a id l. absurd (nothing_listed a id l);
  requests_own = λ a id l. absurd (nothing_listed a id l);
  pending = λ a id l. absurd (nothing_listed a id l);
  apart = λ a. inl (unfold lookup in refl);
  free = record { list = refl; contacts = λ i. refl; requests = λ i. refl };
}

begin-Owned_example :
    EndsUnless
      (HasRequest (address_from_plain_host peer.remote_hostname).0 empty)
      (λ p w'.
        Owned (is_over (request_received [] (codes "hi")) || peer.break_fails) p × Consistent w')
      (begin clock peer (request_received [] (codes "hi")) empty)
begin-Owned_example =
    begin-Owned clock peer (request_received [] (codes "hi")) empty refl empty-Consistent

resume-Owned_example :
    Ends
      (λ p w'. Owned (is_lost (answered (some 0)) || peer.break_fails) p × Consistent w')
      (resume peer 0 0 (answered (some 0)) empty)
resume-Owned_example = resume-Owned peer 0 0 (answered (some 0)) empty refl refl empty-Consistent

asking-IsWelcome : IsWelcome (accepted_data asked) (asking false)
unfolding is_address_valid bytes_eq lookup has_nickname
asking-IsWelcome = record { valid = refl; not_listed = refl; no_namesake = refl }

answers_strand_example :
    Strands peer 0 0 (accept 0 (asking false)) × Strands peer 0 0 (reject 0 (asking false))
answers_strand_example =
    answers_strand peer theirs 0 0 (asking false) (asking-Consistent false)
      (unfold lookup bytes_eq in refl) (0, refl, refl) asking-IsWelcome
