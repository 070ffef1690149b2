-- ===== src/Core/Utils/Splitting.antt =====
-- core/utils/misc.go: what is quoted is split into the same fields again.
use mathlib.Core.List.{append-nil, append_assoc}
use ricochet_go.Common.{
  ℕ, ◌≡◌, ◌≢◌, refl, sym, ap, ◌∙◌, true, false, ◌||◌, List, [], ◌∷◌, ◌++◌, ◌==◌, if◌then◌else◌,
  arith,
}
use ricochet_go.Core.Utils.{quote, backslash, split_loop, unquote_string_split}

-- Quotes and backslashes get a backslash in front.
abbrev pub escape : List ℕ → List ℕ
escape [] = []
escape (c ∷ s) = if c == quote || c == backslash then backslash ∷ c ∷ escape s else c ∷ escape s

abbrev pub quoted : List ℕ → List ℕ
quoted s = quote ∷ escape s ++ quote ∷ []

-- The fields, each in quotes, with the separator between them.
abbrev pub join : ℕ → List ℕ → List (List ℕ) → List ℕ
join sep f [] = quoted f
join sep f (g ∷ fs) = quoted f ++ sep ∷ join sep g fs

-- Inside the quotes, up to the closing one.
quoted_rest :
    (sep : ℕ) (f current rest : List ℕ)
    → split_loop sep true false current (escape f ++ quote ∷ rest)
      ≡ split_loop sep false false (current ++ f) rest
unfolding split_loop
quoted_rest sep [] current rest =
    ap (λ c. split_loop sep false false c rest) (sym (append-nil current))
quoted_rest sep (c ∷ f) current rest =
    let later =
      quoted_rest sep f (current ++ c ∷ []) rest
      ∙ ap (λ k. split_loop sep false false k rest) (append_assoc current (c ∷ []) f) in
    ground (arith, later)

quoted_field :
    (sep : ℕ) (f rest : List ℕ)
    → split_loop sep false false [] (quoted f ++ rest) ≡ split_loop sep false false f rest
quoted_field sep f rest =
    ap (split_loop sep false false []) (append_assoc (quote ∷ escape f) (quote ∷ []) rest)
    ∙ unfold split_loop in quoted_rest sep f [] rest

-- Fields of any runes, at least one, put in quotes, with quotes and backslashes escaped, and joined by
-- the separator, are split into the same fields again; the separator is neither quote nor backslash.
pub split_round_trip :
    (sep : ℕ) (f : List ℕ) (fs : List (List ℕ))
    → sep ≢ quote
    → sep ≢ backslash
    → unquote_string_split (join sep f fs) sep ≡ f ∷ fs
unfolding unquote_string_split
split_round_trip sep f [] q b =
    ap (split_loop sep false false []) (sym (append-nil (quoted f)))
    ∙ quoted_field sep f []
    ∙ unfold split_loop in refl
split_round_trip sep f (g ∷ fs) q b =
    quoted_field sep f (sep ∷ join sep g fs)
    ∙ at_separator
    ∙ ap (λ r. f ∷ r) (split_round_trip sep g fs q b)
  where
    at_separator :
        split_loop sep false false f (sep ∷ join sep g fs)
        ≡ f ∷ split_loop sep false false [] (join sep g fs)
    at_separator = unfold split_loop in ground arith
