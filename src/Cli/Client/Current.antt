-- ===== src/Cli/Client/Current.antt =====
-- The current contact of the user interface (ricochet-cli/ui.go and client.go): its conversation alone
-- is shown.
use ricochet_go.Common.{
  Bool, true, false, ◌&&◌, Bytes, bytes_eq, bytes_eq_iff, bytes_eq→eq, bytes_eq_refl, lookup,
  lookup-insert, if◌then◌else◌, is_some, Option, some, none, ◌≡◌, inl, inr, refl, sym, ap, subst,
  ◌∙◌, arith, Bool-cases, Option-cases, Dict, none_not_some,
}
use ricochet_go.Cli.Conversation.{set_active}
use ricochet_go.Cli.Contacts.{Contact}
use ricochet_go.Cli.Client.{
  Client, is_current, is_at, activate, set_current_contact, deactivate_current,
}
use ricochet_go.Cli.Client.Listed.{
  IsListed, IsWellListed, put-IsListed_others, set_active-IsWellListed,
}
use ricochet_go.Cli.Client.Invariant.{IsWellFormed}

-- A client in which one conversation has been shown or hidden.
record IsSwitched (a : Bytes) (shown : Bool) (c c' : Client) : Type 0 where
  switched :
      (active : Bytes → Bool)
      → IsListed c.identity active c.list.contacts
      → IsListed c'.identity (λ x. if bytes_eq a x then shown else active x) c'.list.contacts
  same_keys : (x : Bytes) → is_some (lookup x c'.list.contacts) ≡ is_some (lookup x c.list.contacts)
  same_ready :
      c.initialized ≡ (c.populated_contacts && c.populated_conversations && c.populated_network)
      → c'.initialized
        ≡ (c'.populated_contacts && c'.populated_conversations && c'.populated_network)
  same_current : c'.current ≡ c.current

activate-IsSwitched :
    (shown : Bool) (a : Bytes) (c : Client) → IsSwitched a shown c (activate shown a c)
unfolding activate
activate-IsSwitched shown a c = elim (Option-cases (lookup a c.list.contacts)) [
  | inl missing ↦
      rw (missing, activate)
        (record {
          switched = λ active h b k e. (elim (Bool-cases (bytes_eq a b)) [
            | inl same ↦
                let p : a ≡ b = bytes_eq→eq a b same in
                let q : none ≡ some k = sym missing ∙ (rw p e) in cc
            | inr other ↦ rw other (h b k e)
          ]);
          same_keys = λ x. refl;
          same_ready = λ h. h;
          same_current = refl;
        })
  | inr (k, there) ↦
      rw (there, activate)
        (record {
          switched = λ active h.
              (put-IsListed_others c.identity (λ x. if bytes_eq a x then shown else active x)
                c.list.contacts a (record k { conversation = (set_active k.conversation shown).0 })
                (λ b k' e other. rw other (h b k' e))
                (rw (bytes_eq_refl a)
                  (set_active-IsWellListed c.identity (active a) shown a k (h a k there))));
          same_keys = λ x. ground (
            arith,
            lookup-insert a x (record k { conversation = (set_active k.conversation shown).0 })
                c.list.contacts,
            there,
            bytes_eq_iff a x,
          );
          same_ready = λ h. h;
          same_current = refl;
        })
]

-- The list with no conversation shown.
record IsHidden (c c' : Client) : Type 0 where
  hidden : IsListed c'.identity (λ x. false) c'.list.contacts
  same_keys : (x : Bytes) → is_some (lookup x c'.list.contacts) ≡ is_some (lookup x c.list.contacts)
  ready :
      c'.initialized ≡ (c'.populated_contacts && c'.populated_conversations && c'.populated_network)

IsListed-same :
    (identity : Bytes) (f g : Bytes → Bool) (contacts : Dict Contact)
    → ((x : Bytes) → f x ≡ g x)
    → IsListed identity f contacts
    → IsListed identity g contacts
IsListed-same identity f g contacts same h a k e =
    subst (λ b. IsWellListed identity b a k) (same a) (h a k e)

if_same : (b : Bool) → (if b then false else b) ≡ false
if_same true = refl
if_same false = refl

if_itself : (b : Bool) → (if b then true else false) ≡ b
if_itself true = refl
if_itself false = refl

deactivate_current-IsHidden : (c : Client) → IsWellFormed c → IsHidden c (deactivate_current c)
unfolding deactivate_current
deactivate_current-IsHidden c w = elim (Option-cases c.current) [
  | inl nobody ↦
      rw (nobody, deactivate_current)
        (record {
          hidden =
              IsListed-same c.identity (λ x. is_current x c) (λ x. false) c.list.contacts
                (λ x. ap (is_at x) nobody) w.listed;
          same_keys = λ x. refl;
          ready = w.ready;
        })
  | inr (b, somebody) ↦
      let c' = activate false b c in
      let s = activate-IsSwitched false b c in
      rw (somebody, deactivate_current)
        (record {
          hidden =
              IsListed-same c'.identity (λ x. if bytes_eq b x then false else is_current x c)
                (λ x. false) c'.list.contacts
                (λ x.
                  ap (λ o. if bytes_eq b x then false else is_at x o) somebody
                  ∙ if_same (bytes_eq b x))
                (s.switched (λ x. is_current x c) w.listed);
          same_keys = s.same_keys;
          ready = s.same_ready w.ready;
        })
]

pub set_current_contact-IsWellFormed :
    (o : Option Bytes) (c : Client)
    → ((a : Bytes) → o ≡ some a → is_some (lookup a c.list.contacts) ≡ true)
    → IsWellFormed c
    → IsWellFormed (set_current_contact o c)
unfolding set_current_contact
set_current_contact-IsWellFormed none c known w =
    let h = deactivate_current-IsHidden c w in
    record { listed = h.hidden; current_listed = λ a e. absurd (none_not_some e); ready = h.ready }
set_current_contact-IsWellFormed (some a) c known w = elim (Bool-cases (is_current a c)) [
  | inl same ↦ rw (same, set_current_contact) w
  | inr other ↦
      let c1 = record (deactivate_current c) { current = some a } in
      let h = deactivate_current-IsHidden c w in
      let c' = activate true a c1 in
      let s = activate-IsSwitched true a c1 in
      rw (other, set_current_contact)
        (record {
          listed =
              IsListed-same c'.identity (λ x. if bytes_eq a x then true else false)
                (λ x. is_current x c') c'.list.contacts
                (λ x. if_itself (bytes_eq a x) ∙ ap (is_at x) (sym s.same_current))
                (s.switched (λ x. false) h.hidden);
          current_listed =
              λ b e. s.same_keys b ∙ (h.same_keys b ∙ known b (sym s.same_current ∙ e));
          ready = s.same_ready h.ready;
        })
]
