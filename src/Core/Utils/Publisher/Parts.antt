-- ===== src/Core/Utils/Publisher/Parts.antt =====
-- Parts of a list in its order, for what a subscriber of core/utils/publisher.go is given.
use ricochet_go.Common.{List, [], ◌∷◌, ◌++◌}

-- Some of the elements of a list, in its order.
pub data IsPart {V : Type 0} : List V → List V → Type 0 where
  nothing : IsPart [] []
  keeps : {x : V} {xs ys : List V} → IsPart xs ys → IsPart (x ∷ xs) (x ∷ ys)
  skips : {y : V} {xs ys : List V} → IsPart xs ys → IsPart xs (y ∷ ys)

module _ {V : Type 0} where
  pub skips_last : (v : V) {xs ys : List V} → IsPart xs ys → IsPart xs (ys ++ v ∷ [])
  skips_last v nothing = skips nothing
  skips_last v (keeps h) = keeps (skips_last v h)
  skips_last v (skips h) = skips (skips_last v h)

  pub keeps_last : (v : V) {xs ys : List V} → IsPart xs ys → IsPart (xs ++ v ∷ []) (ys ++ v ∷ [])
  keeps_last v nothing = keeps nothing
  keeps_last v (keeps h) = keeps (keeps_last v h)
  keeps_last v (skips h) = skips (keeps_last v h)

  pub thin : {ys zs : List V} → IsPart ys zs → {xs : List V} → IsPart xs ys → IsPart xs zs
  thin nothing h = h
  thin (keeps k) (keeps h) = keeps (thin k h)
  thin (keeps k) (skips h) = skips (thin k h)
  thin (skips k) h = skips (thin k h)

  all_kept : (xs : List V) → IsPart xs xs
  all_kept [] = nothing
  all_kept (x ∷ xs) = keeps (all_kept xs)

  pub one_less : (xs : List V) (v : V) (ys : List V) → IsPart (xs ++ ys) (xs ++ v ∷ ys)
  one_less [] v ys = skips (all_kept ys)
  one_less (x ∷ xs) v ys = keeps (one_less xs v ys)
