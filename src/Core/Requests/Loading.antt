-- ===== src/Core/Requests/Loading.antt =====
-- core/contactlist.go: the lists that `LoadContactList` builds.
use ricochet_go.Common.{
  suc, ◌≡◌, inl, inr, sym, ◌∙◌, true, false, none, some, is_some, subst, [], ◌∷◌, Bytes, bytes_eq,
  bytes_eq_iff, Dict, lookup, insert, lookup-insert, arith, Bool-cases, Option-cases, some_eq,
  none_not_some, ◌==◌, ==_iff,
}
use ricochet_go.Rpc.{ContactData}
use ricochet_go.Core.Contact.{Contact, contact_from_config}
use ricochet_go.Core.ContactList.{World, update_at, load_contacts}
use ricochet_go.Core.Requests.Consistency.{Consistent}
use ricochet_go.Core.Requests.Adding.{loaded_address}

abbrev with_loaded : Bytes → Contact → World → World
with_loaded a c w = record w {
  contacts = insert a w.next w.contacts;
  contact_at = update_at w.next c w.contact_at;
  next = suc w.next;
}

with_loaded-Consistent :
    (a : Bytes) (c : Contact) (w : World)
    → c.contact_data.address ≡ a
    → c.locked ≡ false
    → ((b : Bytes) → lookup b w.requests ≡ none)
    → Consistent w
    → Consistent (with_loaded a c w)
with_loaded-Consistent a c w own unlocked empty k = record {
  contacts_own = λ b i l. elim (Bool-cases (bytes_eq a b)) [
    | inl e ↦
        let same : w.next ≡ i =
          some_eq w.next i (rw e at (sym (lookup-insert a b w.next w.contacts) ∙ l)) in
        let here : (w.next == i) ≡ true = (==_iff w.next i).1 same in
        (rw here (own ∙ (bytes_eq_iff a b).0 e), omega (arith, same))
    | inr e ↦
        let (o, lt) =
          k.contacts_own b i (rw e at (sym (lookup-insert a b w.next w.contacts) ∙ l)) in
        let old : (w.next == i) ≡ false = ground arith in (rw old o, omega (arith, lt))
  ];
  requests_own = λ b i l. absurd (none_not_some (sym (empty b) ∙ l));
  pending = λ b i l. absurd (none_not_some (sym (empty b) ∙ l));
  apart = λ b. inr (empty b);
  free = record {
    list = k.free.list;
    contacts = λ i. elim (Bool-cases (w.next == i)) [
      | inl e ↦ rw e unlocked
      | inr e ↦ rw e (k.free.contacts i)
    ];
    requests = k.free.requests;
  };
}

-- If loading the contacts of a configuration succeeds, from consistent lists without requests, such as
-- empty ones, then the lists are consistent.
pub load_contacts-Consistent :
    (config : Dict ContactData) (w w' : World)
    → ((b : Bytes) → lookup b w.requests ≡ none)
    → Consistent w
    → load_contacts config w ≡ some w'
    → Consistent w'
unfolding load_contacts
load_contacts-Consistent [] w w' empty k h = subst Consistent (some_eq w w' h) k
load_contacts-Consistent ((a, d) ∷ rest) w w' empty k h =
    elim (Bool-cases (is_some (lookup a w.contacts))) [
      | inl e ↦ absurd (none_not_some (rw e at h))
      | inr e ↦ elim (Bool-cases (bytes_eq a d.address)) [
        | inr f ↦ absurd (none_not_some (rw (e, f) at h))
        | inl f ↦ elim (Option-cases (contact_from_config d)) [
          | inl g ↦ absurd (none_not_some (rw (e, f, g) at h))
          | inr (c, g) ↦
              let own : c.contact_data.address ≡ a =
                (loaded_address d c g).1 ∙ sym ((bytes_eq_iff a d.address).0 f) in
              load_contacts-Consistent rest (with_loaded a c w) w' empty
                (with_loaded-Consistent a c w own (loaded_address d c g).3 empty k)
                (rw (e, f, g) at h)
        ]
      ]
    ]
