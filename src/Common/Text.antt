-- ===== src/Common/Text.antt =====
-- Go strings as lists of bytes, with the functions of package strings that the program calls.
use Prim.Native.Nat.{ℕ, ◌-◌}
use Prim.Native.Char.{code}
use Prim.Native.String.{String}
use mathlib.Core.Path.{◌≡◌, refl}
use mathlib.Core.Logic.{◌↔◌, ◌≢◌}
use mathlib.Core.Bool.{Bool, true, false, not, ◌&&◌}
use mathlib.Core.List.{List, [], ◌∷◌, ◌++◌}
use native.Mathlib.Decide.{ℕ_discrete}
use native.Mathlib.Omega.{arith}
use ricochet_go.Common.Tests.{leb, ltb, ◌==◌}
use ricochet_go.Common.Lists.{length, take, drop, take-append-drop, length-append, drop-append_left}

abbrev pub Bytes : Type 0
Bytes = List ℕ

-- The code points of a literal; these are its bytes when the text is ASCII.
abbrev pub codes : String → Bytes
codes String.[] = []
codes (String.◌∷◌ c s) = code c ∷ codes s

-- Go's `s == t` on strings.
unfoldable pub bytes_eq : Bytes → Bytes → Bool
bytes_eq [] [] = true
bytes_eq [] (y ∷ t) = false
bytes_eq (x ∷ s) [] = false
bytes_eq (x ∷ s) (y ∷ t) = x == y && bytes_eq s t

-- Go's `s < t` on strings: the first byte that differs decides.
unfoldable pub bytes_lt : Bytes → Bytes → Bool
bytes_lt s [] = false
bytes_lt [] (y ∷ t) = true
bytes_lt (x ∷ s) (y ∷ t) = elim (ltb x y) [
  | true ↦ true
  | false ↦ elim (x == y) [ true ↦ bytes_lt s t | false ↦ false ]
]

-- `strings.HasPrefix` and `strings.HasSuffix`.
unfoldable pub has_prefix : Bytes → Bytes → Bool
has_prefix s p = leb (length p) (length s) && bytes_eq (take (length p) s) p

unfoldable pub has_suffix : Bytes → Bytes → Bool
has_suffix s p = leb (length p) (length s) && bytes_eq (drop (length s - length p) s) p

pub bytes_eq_refl : (s : Bytes) → bytes_eq s s ≡ true
unfolding bytes_eq
bytes_eq_refl [] = refl
bytes_eq_refl (x ∷ s) = ground (arith, bytes_eq_refl s)

pub bytes_eq→eq : (s t : Bytes) → bytes_eq s t ≡ true → s ≡ t
unfolding bytes_eq
bytes_eq→eq [] [] h = refl
bytes_eq→eq [] (y ∷ t) h = ground arith
bytes_eq→eq (x ∷ s) [] h = ground arith
bytes_eq→eq (x ∷ s) (y ∷ t) h = ground (arith, bytes_eq→eq s t)

pub bytes_eq_iff : (s t : Bytes) → (bytes_eq s t ≡ true) ↔ (s ≡ t)
bytes_eq_iff s t = (bytes_eq→eq s t, λ e. rw e (bytes_eq_refl t))

pub has_prefix→eq : (s p : Bytes) → has_prefix s p ≡ true → p ++ drop (length p) s ≡ s
unfolding has_prefix
has_prefix→eq s p h =
    let e : take (length p) s ≡ p = ground (arith, bytes_eq→eq (take (length p) s) p) in
    rw e at (take-append-drop (length p) s)

pub has_suffix-append : (s p : Bytes) → has_suffix (s ++ p) p ≡ true
unfolding has_suffix
has_suffix-append s p =
    let n : length (s ++ p) - length p ≡ length s = omega (arith, length-append s p) in
    rw (n, drop-append_left s p, bytes_eq_refl p) (ground (arith, length-append s p))

cons_eq : (x y : ℕ) (s t : Bytes) → x ≡ y → s ≡ t → x ∷ s ≡ y ∷ t
cons_eq x y s t e p = cc

-- Two different texts are ordered one way or the other.
pub bytes_lt_swap : (s t : Bytes) → s ≢ t → bytes_lt s t ≡ not (bytes_lt t s)
unfolding bytes_lt
bytes_lt_swap [] [] h = absurd (h refl)
bytes_lt_swap [] (y ∷ t) h = refl
bytes_lt_swap (x ∷ s) [] h = refl
bytes_lt_swap (x ∷ s) (y ∷ t) h = elim (ℕ_discrete x y) [
  | yes e ↦ ground (arith, e, bytes_lt_swap s t (λ p. h (cons_eq x y s t e p)))
  | no ne ↦ ground (arith, ne)
]
