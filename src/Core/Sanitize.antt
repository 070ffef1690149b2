-- ===== src/Core/Sanitize.antt =====
-- core/sanitize.go: which nicknames and messages are acceptable, and what it uses of the packages
-- unicode/utf8 and unicode (Unicode 9.0 for the category Cf).
use ricochet_go.Common.{
  ℕ, zero, suc, ◌+◌, ◌-◌, ◌*◌, Bool, true, false, ◌&&◌, ◌||◌, [], ◌∷◌, Bytes, length, drop, ltb,
  leb, ◌==◌, if◌then◌else◌,
}

abbrev pub max_message_length : ℕ
max_message_length = 2000

abbrev pub max_nickname_length : ℕ
max_nickname_length = 30

abbrev pub rune_error : ℕ
rune_error = 0xfffd

abbrev between : ℕ → ℕ → ℕ → Bool
between lo hi c = leb lo c && leb c hi

-- A byte that continues a sequence.
abbrev continues : ℕ → Bool
continues = between 0x80 0xbf

-- The second byte, whose range depends on the first.
abbrev second : ℕ → ℕ → Bool
second b0 b1 =
    between (if b0 == 0xe0 then 0xa0 else if b0 == 0xf0 then 0x90 else 0x80)
      (if b0 == 0xed then 0x9f else if b0 == 0xf4 then 0x8f else 0xbf) b1

decode_two : ℕ → Bytes → ℕ × ℕ
decode_two b0 (b1 ∷ s) =
    if second b0 b1 then ((b0 - 0xc0) * 64 + (b1 - 0x80), 2) else (rune_error, 1)
decode_two b0 [] = (rune_error, 1)

decode_three : ℕ → Bytes → ℕ × ℕ
decode_three b0 (b1 ∷ b2 ∷ s) =
    if second b0 b1 && continues b2
    then ((b0 - 0xe0) * 4096 + (b1 - 0x80) * 64 + (b2 - 0x80), 3)
    else (rune_error, 1)
decode_three b0 _ = (rune_error, 1)

decode_four : ℕ → Bytes → ℕ × ℕ
decode_four b0 (b1 ∷ b2 ∷ b3 ∷ s) =
    if second b0 b1 && continues b2 && continues b3
    then ((b0 - 0xf0) * 262144 + (b1 - 0x80) * 4096 + (b2 - 0x80) * 64 + (b3 - 0x80), 4)
    else (rune_error, 1)
decode_four b0 _ = (rune_error, 1)

-- `utf8.DecodeRuneInString`: the rune and its width in bytes.
unfoldable pub decode_rune : Bytes → ℕ × ℕ
unfolding decode_two decode_three decode_four
decode_rune [] = (rune_error, 0)
decode_rune (b0 ∷ s) =
    if ltb b0 0x80
    then (b0, 1)
    else if between 0xc2 0xdf b0
    then decode_two b0 s
    else if between 0xe0 0xef b0
    then decode_three b0 s
    else if between 0xf0 0xf4 b0
    then decode_four b0 s
    else (rune_error, 1)

-- `unicode.Cc`.
abbrev pub is_control : ℕ → Bool
is_control r = leb r 0x1f || between 0x7f 0x9f r

-- `unicode.Cf`.
unfoldable pub is_format : ℕ → Bool
is_format r =
    r == 0xad
    || between 0x600 0x605 r
    || r == 0x61c
    || r == 0x6dd
    || r == 0x70f
    || r == 0x8e2
    || r == 0x180e
    || between 0x200b 0x200f r
    || between 0x202a 0x202e r
    || between 0x2060 0x2064 r
    || between 0x2066 0x206f r
    || r == 0xfeff
    || between 0xfff9 0xfffb r
    || r == 0x110bd
    || between 0x1bca0 0x1bca3 r
    || between 0x1d173 0x1d17a r
    || r == 0xe0001
    || between 0xe0020 0xe007f r

-- The characters `"<>&\`.
abbrev pub is_blacklisted : ℕ → Bool
is_blacklisted r = r == 0x22 || r == 0x3c || r == 0x3e || r == 0x26 || r == 0x5c

-- What the loop refuses in a decoded rune.
unfoldable pub is_rune_refused : ℕ → Bool
unfolding is_format
is_rune_refused r = r == rune_error || (is_format r || is_control r) || is_blacklisted r

-- The loop of `IsNicknameAcceptable`: `count` runes are read. Each round takes a byte at least, so
-- the number of bytes is fuel enough.
unfoldable pub nickname_loop : ℕ → ℕ → Bytes → Bool
unfolding decode_rune is_rune_refused
nickname_loop zero count nickname = ltb 0 count
nickname_loop (suc fuel) count nickname =
    let (r, size) = decode_rune nickname in
    let rest = nickname_loop fuel (count + 1) (drop size nickname) in
    if length nickname == 0
    then ltb 0 count
    else if is_rune_refused r
    then false
    else if ltb max_nickname_length (count + 1)
    then false
    else rest

unfoldable pub is_nickname_acceptable : Bytes → Bool
unfolding nickname_loop
is_nickname_acceptable nickname = nickname_loop (length nickname) 0 nickname

-- `utf8.ValidString`, with the number of bytes as fuel.
pub valid_loop : ℕ → Bytes → Bool
unfolding decode_rune
valid_loop zero s = true
valid_loop (suc fuel) s =
    let (r, size) = decode_rune s in
    let rest = valid_loop fuel (drop size s) in
    if length s == 0 then true else if r == rune_error && size == 1 then false else rest

unfoldable pub is_message_acceptable : Bytes → Bool
unfolding valid_loop
is_message_acceptable message =
    ltb 0 (length message)
    && leb (length message) max_message_length
    && valid_loop (length message) message
