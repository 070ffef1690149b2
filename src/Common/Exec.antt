-- ===== src/Common/Exec.antt =====
-- Code that runs on shared state and takes mutexes: it ends with a value and the new state, it blocks
-- for ever, or the runtime aborts.

use ricochet_go.Common.{◌≡◌, refl}

pub data Exec (S A : Type 0) : Type 0 where
  done : A → S → Exec S A
  deadlock : S → Exec S A  -- with the state that it blocks in
  fault : Exec S A

infixl 5 ◌>>=◌ ◌>>◌
abbrev pub ◌>>=◌ : {S A B : Type 0} → (S → Exec S A) → (A → S → Exec S B) → S → Exec S B
◌>>=◌ m f s = elim (m s) [ done a s' ↦ f a s' | deadlock s'' ↦ deadlock s'' | fault ↦ fault ]

abbrev pub ◌>>◌ : {S A B : Type 0} → (S → Exec S A) → (S → Exec S B) → S → Exec S B
◌>>◌ m k s = elim (m s) [ done a s' ↦ k s' | deadlock s'' ↦ deadlock s'' | fault ↦ fault ]

abbrev pub return : {S A : Type 0} → A → S → Exec S A
return a s = done a s

-- The run ends, with a value and a state that satisfy the predicate.
abbrev pub Ends : {S A : Type 0} → (A → S → Type 0) → Exec S A → Type 0
Ends P (done a s) = P a s
Ends P (deadlock s) = ⊥
Ends P fault = ⊥

-- If the run ends, its value and state satisfy the predicate.
abbrev pub IfEnds : {S A : Type 0} → (A → S → Type 0) → Exec S A → Type 0
IfEnds P (done a s) = P a s
IfEnds P (deadlock s) = Unit
IfEnds P fault = Unit

pub Ends-bind :
    {S A B : Type 0} (P : A → S → Type 0) (Q : B → S → Type 0) (m : S → Exec S A)
    (f : A → S → Exec S B) (s : S)
    → Ends P (m s)
    → ((a : A) (s' : S) → P a s' → Ends Q (f a s'))
    → Ends Q ((m >>= f) s)
Ends-bind {S} {A} {B} P Q m f s h k = go (m s) h
  where
    go :
        (r : Exec S A)
        → Ends P r
        → Ends Q (elim r [ done a s' ↦ f a s' | deadlock s'' ↦ deadlock s'' | fault ↦ fault ])
    go (done a s') p = k a s' p
    go (deadlock s') p = p
    go fault p = p

pub Ends-map :
    {S A : Type 0} (P Q : S → Type 0) (r : Exec S A)
    → ((s : S) → P s → Q s)
    → Ends (λ _ s. P s) r
    → Ends (λ _ s. Q s) r
Ends-map P Q (done a s) f h = f s h
Ends-map P Q (deadlock s) f h = h
Ends-map P Q fault f h = h

pub Ends-then :
    {S A B : Type 0} (P Q : S → Type 0) (m : S → Exec S A) (k : S → Exec S B) (s : S)
    → Ends (λ _ s'. P s') (m s)
    → ((s' : S) → P s' → Ends (λ _ s''. Q s'') (k s'))
    → Ends (λ _ s'. Q s') ((m >> k) s)
Ends-then {S} {A} {B} P Q m k s h f = go (m s) h
  where
    go :
        (r : Exec S A)
        → Ends (λ _ s'. P s') r
        → Ends
            (λ _ s'. Q s')
            (elim r [ done a s' ↦ k s' | deadlock s'' ↦ deadlock s'' | fault ↦ fault ])
    go (done a s') p = f s' p
    go (deadlock s') p = p
    go fault p = p

pub IfEnds-bind :
    {S A B : Type 0} (P : A → S → Type 0) (Q : B → S → Type 0) (m : S → Exec S A)
    (f : A → S → Exec S B) (s : S)
    → IfEnds P (m s)
    → ((a : A) (s' : S) → P a s' → IfEnds Q (f a s'))
    → IfEnds Q ((m >>= f) s)
IfEnds-bind {S} {A} {B} P Q m f s h k = go (m s) h
  where
    go :
        (r : Exec S A)
        → IfEnds P r
        → IfEnds Q (elim r [ done a s' ↦ f a s' | deadlock s'' ↦ deadlock s'' | fault ↦ fault ])
    go (done a s') p = k a s' p
    go (deadlock s') p = tt
    go fault p = tt

-- The run ends, with a value and a state that satisfy the predicate, or it blocks, and then `D` holds.
abbrev pub EndsUnless : {S A : Type 0} → Type 0 → (A → S → Type 0) → Exec S A → Type 0
EndsUnless D P (done a s) = P a s
EndsUnless D P (deadlock s) = D
EndsUnless D P fault = ⊥

pub EndsUnless-bind :
    {S A B : Type 0} (D : Type 0) (P : A → S → Type 0) (Q : B → S → Type 0) (m : S → Exec S A)
    (f : A → S → Exec S B) (s : S)
    → EndsUnless D P (m s)
    → ((a : A) (s' : S) → P a s' → EndsUnless D Q (f a s'))
    → EndsUnless D Q ((m >>= f) s)
EndsUnless-bind {S} {A} {B} D P Q m f s h k = go (m s) h
  where
    go :
        (r : Exec S A)
        → EndsUnless D P r
        → EndsUnless D Q
            (elim r [ done a s' ↦ f a s' | deadlock s'' ↦ deadlock s'' | fault ↦ fault ])
    go (done a s') p = k a s' p
    go (deadlock s') p = p
    go fault p = p

pub EndsUnless-map :
    {S A : Type 0} (D D' : Type 0) (P Q : A → S → Type 0) (r : Exec S A)
    → (D → D')
    → ((a : A) (s : S) → P a s → Q a s)
    → EndsUnless D P r
    → EndsUnless D' Q r
EndsUnless-map D D' P Q (done a s) g f h = f a s h
EndsUnless-map D D' P Q (deadlock s) g f h = g h
EndsUnless-map D D' P Q fault g f h = h

pub Ends-EndsUnless :
    {S A : Type 0} (D : Type 0) (P : A → S → Type 0) (r : Exec S A) → Ends P r → EndsUnless D P r
Ends-EndsUnless D P (done a s) h = h
Ends-EndsUnless D P (deadlock s) h = absurd h
Ends-EndsUnless D P fault h = h

-- A run that blocks only where it cannot ends.
pub EndsUnless-Ends :
    {S A : Type 0} (D : Type 0) (P : A → S → Type 0) (r : Exec S A)
    → ¬ D
    → EndsUnless D P r
    → Ends P r
EndsUnless-Ends D P (done a s) n h = h
EndsUnless-Ends D P (deadlock s) n h = n h
EndsUnless-Ends D P fault n h = h

-- The run blocks for ever.
abbrev pub IsBlocked : {S A : Type 0} → Exec S A → Type 0
IsBlocked (done a s) = ⊥
IsBlocked (deadlock s) = Unit
IsBlocked fault = ⊥

pub blocked_in : {S A : Type 0} (r : Exec S A) → IsBlocked r → (s : S) × (r ≡ deadlock s)
blocked_in (done a s) h = absurd h
blocked_in (deadlock s) h = (s, refl)
blocked_in fault h = absurd h

-- The run ends, with a value and a state that satisfy the first predicate, or it blocks in a state that
-- satisfies the second.
abbrev pub Reaches : {S A : Type 0} → (A → S → Type 0) → (S → Type 0) → Exec S A → Type 0
Reaches P Q (done a s) = P a s
Reaches P Q (deadlock s) = Q s
Reaches P Q fault = ⊥

pub Reaches-bind :
    {S A B : Type 0} (P : A → S → Type 0) (P' : B → S → Type 0) (Q : S → Type 0) (m : S → Exec S A)
    (f : A → S → Exec S B) (s : S)
    → Reaches P Q (m s)
    → ((a : A) (s' : S) → P a s' → Reaches P' Q (f a s'))
    → Reaches P' Q ((m >>= f) s)
Reaches-bind {S} {A} {B} P P' Q m f s h k = go (m s) h
  where
    go :
        (r : Exec S A)
        → Reaches P Q r
        → Reaches P' Q (elim r [ done a s' ↦ f a s' | deadlock s'' ↦ deadlock s'' | fault ↦ fault ])
    go (done a s') p = k a s' p
    go (deadlock s') p = p
    go fault p = p

pub Ends-weaken :
    {S A : Type 0} (P Q : A → S → Type 0) (r : Exec S A)
    → ((a : A) (s : S) → P a s → Q a s)
    → Ends P r
    → Ends Q r
Ends-weaken P Q (done a s) f h = f a s h
Ends-weaken P Q (deadlock s) f h = h
Ends-weaken P Q fault f h = h
