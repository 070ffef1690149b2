-- ===== src/Cli/Prefixes/Tests.antt =====
-- ricochet-cli/ui.go on two addresses whose hosts begin with the same three letters.
use ricochet_go.Common.{
  Bytes, codes, [], ◌∷◌, ◌++◌, none, some, bytes_eq, bytes_eq_refl, ◌≡◌, ◌≢◌, refl, true, false, ap,
  sym, ◌∙◌,
}
use ricochet_go.Core.Address.{is_address_valid}
use ricochet_go.Cli.Prefixes.RoundTrip.{
  IsValid, Identifies, prefix_names_contact, prefix_names_request,
}

abbrev bob : Bytes
bob = codes "ricochet:abcdefghij234567"

abbrev eve : Bytes
eve = codes "ricochet:abcddefhij234567"

bob-IsValid : IsValid bob
bob-IsValid = unfold is_address_valid bytes_eq in refl

eve-IsValid : IsValid eve
eve-IsValid = unfold is_address_valid bytes_eq in refl

differ : bytes_eq eve bob ≡ false
differ = unfold bytes_eq in refl

eve_not_bob : eve ≢ bob
eve_not_bob e =
    let p : true ≡ false = sym (bytes_eq_refl bob) ∙ (ap (λ x. bytes_eq x bob) (sym e) ∙ differ) in
    cc

prefix_names_contact_example : Identifies ([] ++ bob ∷ []) (eve ∷ []) bob (some bob, none)
prefix_names_contact_example =
    prefix_names_contact bob [] [] (eve ∷ []) bob-IsValid (bob-IsValid, tt) (eve-IsValid, tt) tt tt
      (eve_not_bob, tt)

prefix_names_request_example : Identifies (eve ∷ []) ([] ++ bob ∷ []) bob (none, some bob)
prefix_names_request_example =
    prefix_names_request bob (eve ∷ []) [] [] bob-IsValid (eve-IsValid, tt) (bob-IsValid, tt)
      (eve_not_bob, tt) tt tt
