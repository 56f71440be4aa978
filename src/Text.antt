-- ===== src/Text.antt =====
-- What the program uses of Rust's `str`, over lists of code points: white space, trimming, splitting,
-- ASCII case, UTF-8 and hexadecimal digits. A list of code points stands for a `String`.
use Prim.Native.Char.{code}
use Prim.Native.String.{String}
use agentchat.Prelude.{
  ℕ, zero, suc, ◌+◌, ◌-◌, ◌/◌, ◌%◌, Bool, true, false, ◌&&◌, ◌||◌, List, [], ◌∷◌, ◌++◌, Option,
  none, some, ltb, leb, if◌then◌else◌, ◌==◌, length, is_empty, nat_eq,
}
use mathlib.Core.List.{reverse}

abbrev pub Text : Type 0
Text = List ℕ

-- The code points of a literal.
abbrev pub codes : String → Text
codes String.[] = []
codes (String.◌∷◌ c s) = code c ∷ codes s

abbrev within : ℕ → ℕ → ℕ → Bool
within lo hi c = leb lo c && leb c hi

-- `char::is_whitespace`: Unicode's White_Space.
unfoldable pub is_whitespace : ℕ → Bool
is_whitespace c =
    within 9 13 c
    || c == 0x20
    || c == 0x85
    || c == 0xa0
    || c == 0x1680
    || within 0x2000 0x200a c
    || c == 0x2028
    || c == 0x2029
    || c == 0x202f
    || c == 0x205f
    || c == 0x3000

unfoldable pub is_ascii_digit : ℕ → Bool
is_ascii_digit c = within b'0' b'9' c

unfoldable pub to_ascii_lowercase : Text → Text
to_ascii_lowercase [] = []
to_ascii_lowercase (c ∷ cs) = (if within b'A' b'Z' c then c + 32 else c) ∷ to_ascii_lowercase cs

unfoldable pub trim_start : Text → Text
trim_start [] = []
trim_start (c ∷ cs) = let rest = trim_start cs in if is_whitespace c then rest else c ∷ cs

unfoldable pub trim_end : Text → Text
unfolding trim_start
trim_end s = reverse (trim_start (reverse s))

unfoldable pub trim : Text → Text
unfolding trim_start trim_end
trim s = trim_end (trim_start s)

-- The word that starts here, and what follows it.
unfoldable pub split_words : Text → Text → List Text
split_words [] [] = []
split_words (c ∷ word) [] = reverse (c ∷ word) ∷ []
split_words [] (c ∷ cs) = split_words (if is_whitespace c then [] else c ∷ []) cs
split_words (d ∷ word) (c ∷ cs) =
    let ended = split_words [] cs in
    let longer = split_words (c ∷ d ∷ word) cs in
    if is_whitespace c then reverse (d ∷ word) ∷ ended else longer

unfoldable pub split_whitespace : Text → List Text
unfolding split_words
split_whitespace s = split_words [] s

-- `parts.join(sep)`.
unfoldable pub join : Text → List Text → Text
join sep [] = []
join sep (w ∷ []) = w
join sep (w ∷ v ∷ ws) = w ++ (sep ++ join sep (v ∷ ws))

-- `s.split_once(c)`: around the first `c`.
unfoldable pub split_once : ℕ → Text → Option (Text × Text)
split_once d [] = none
split_once d (c ∷ cs) =
    let rest = split_once d cs in
    if c == d then some ([], cs) else elim rest [ none ↦ none | some (h, t) ↦ some (c ∷ h, t) ]

-- `s.rsplit_once(c)`: around the last `c`.
unfoldable pub rsplit_once : ℕ → Text → Option (Text × Text)
rsplit_once d [] = none
rsplit_once d (c ∷ cs) = elim (rsplit_once d cs) [
  | none ↦ if c == d then some ([], cs) else none
  | some (h, t) ↦ some (c ∷ h, t)
]

-- The bytes of one code point.
unfoldable pub encode_char : ℕ → List ℕ
encode_char c =
    if ltb c 0x80
    then c ∷ []
    else if ltb c 0x800
    then (0xc0 + c / 64) ∷ (0x80 + c % 64) ∷ []
    else if ltb c 0x10000
    then (0xe0 + c / 4096) ∷ (0x80 + c / 64 % 64) ∷ (0x80 + c % 64) ∷ []
    else (0xf0 + c / 262144) ∷ (0x80 + c / 4096 % 64) ∷ (0x80 + c / 64 % 64) ∷ (0x80 + c % 64) ∷ []

unfoldable pub as_bytes : Text → List ℕ
unfolding encode_char
as_bytes [] = []
as_bytes (c ∷ cs) = encode_char c ++ as_bytes cs

-- `s.len()`: bytes.
unfoldable pub byte_len : Text → ℕ
unfolding as_bytes
byte_len s = length (as_bytes s)

-- The digits of a number, the last first; a number has fewer digits than its successor counts.
abbrev pub digits_from : ℕ → ℕ → Text
digits_from zero n = []
digits_from (suc fuel) n =
    let rest = digits_from fuel (n / 10) in
    if ltb n 10 then (b'0' + n) ∷ [] else (b'0' + n % 10) ∷ rest

-- `format!("{n}")`.
unfoldable pub show_number : ℕ → Text
show_number n = reverse (digits_from (suc n) n)

unfoldable pub hex_digit : ℕ → ℕ
hex_digit n = if ltb n 10 then b'0' + n else b'a' + (n - 10)

-- `format!("{byte:02x}")`.
unfoldable pub hex_byte : ℕ → Text
unfolding hex_digit
hex_byte b = hex_digit (b / 16) ∷ hex_digit (b % 16) ∷ []

-- `Ord for str`: bytes in order, which UTF-8 makes the order of the code points.
unfoldable pub text_leb : Text → Text → Bool
text_leb [] _ = true
text_leb (x ∷ xs) [] = false
text_leb (x ∷ xs) (y ∷ ys) = ltb x y || (x == y && text_leb xs ys)

-- Whether a text starts with the code point.
abbrev pub starts_with_char : ℕ → Text → Bool
starts_with_char c [] = false
starts_with_char c (d ∷ ds) = c == d

-- `path.join(name)` on Unix, over the text of a path.
unfoldable pub path_join : Text → Text → Text
path_join path name =
    if starts_with_char b'/' name || is_empty path
    then name
    else if starts_with_char b'/' (reverse path)
    then path ++ name
    else path ++ (b'/' ∷ name)
