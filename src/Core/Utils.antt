-- ===== src/Core/Utils.antt =====
-- core/utils/misc.go: splitting a line into fields. A string is the list of the runes that `range`
-- yields; the output is the list of runes of each field.
pub mod Splitting
pub mod Publisher
pub mod Tests
use ricochet_go.Common.{ℕ, Bool, true, false, not, ◌&&◌, List, [], ◌∷◌, ◌++◌, ◌==◌}

abbrev pub quote : ℕ
quote = 0x22

abbrev pub backslash : ℕ
backslash = 0x5c

-- The loop, with `quoted`, `escaped` and `current`; the result is what it appends to `re`.
unfoldable pub split_loop : ℕ → Bool → Bool → List ℕ → List ℕ → List (List ℕ)
split_loop sep quoted escaped current [] = current ∷ []
split_loop sep quoted escaped current (c ∷ s) = elim (c == quote && not escaped) [
  | true ↦ split_loop sep (not quoted) escaped current s
  | false ↦ elim (c == backslash && not escaped) [
    | true ↦ split_loop sep quoted true current s
    | false ↦ elim (c == sep && (not quoted && not escaped)) [
      | true ↦ current ∷ split_loop sep quoted escaped [] s
      | false ↦ split_loop sep quoted false (current ++ c ∷ []) s
    ]
  ]
]

unfoldable pub unquote_string_split : List ℕ → ℕ → List (List ℕ)
unfolding split_loop
unquote_string_split s sep = split_loop sep false false [] s
