-- ===== src/Config/Json/RoundTrip.antt =====
-- `JsonEscape` of daemon/src/config.cpp against a reader of JSON strings.
use vcames.Common.{
  ℕ, zero, suc, ◌+◌, ◌-◌, ◌*◌, ◌/◌, ◌%◌, ◌<◌, ◌≡◌, refl, ap, ◌∙◌, inl, inr, ◌&&◌, Option, none,
  some, [], ◌∷◌, ◌++◌, append_assoc, arith, ltb, leb, ◌==◌, if◌then◌else◌, Bool-cases, Bytes,
}
use vcames.Config.Json.{hex_digit, escape_byte, json_escape}

-- The value of a lower-case hexadecimal digit.
pub hex_value : ℕ → Option ℕ
hex_value d =
    if leb b'0' d && leb d b'9'
    then some (d - b'0')
    else if leb b'a' d && leb d b'f'
    then some (d - b'a' + 10)
    else none

-- The byte that `\` and a letter stand for, other than `\u`.
pub short_escape : ℕ → Option ℕ
short_escape e =
    if e == b'"'
    then some b'"'
    else if e == b'\\'
    then some b'\\'
    else if e == b'/'
    then some b'/'
    else if e == b'b'
    then some 0x08
    else if e == b'f'
    then some 0x0c
    else if e == b'n'
    then some b'\n'
    else if e == b'r'
    then some b'\r'
    else if e == b't'
    then some b'\t'
    else none

-- Where a reader of a JSON string is: between characters, behind `\`, or in the digits of `\u`,
-- with their number so far and how many are to come.
pub data Mode : Type 0 where
  plain escaped : Mode
  unicode : ℕ → ℕ → Mode

-- What one character does: it closes the string, is refused, or adds to the text.
pub data Move : Type 0 where
  closes refused : Move
  goes : Mode → Bytes → Move

pub unicode_digit : ℕ → ℕ → Option ℕ → Move
unicode_digit acc more none = refused
unicode_digit acc zero (some d) = goes plain ((acc * 16 + d) ∷ [])
unicode_digit acc (suc more) (some d) = goes (unicode (acc * 16 + d) more) []

pub move : Mode → ℕ → Move
unfolding hex_value short_escape unicode_digit
move plain c =
    if c == b'"'
    then closes
    else if c == b'\\'
    then goes escaped []
    else if ltb c 0x20
    then refused
    else goes plain (c ∷ [])
move escaped c =
    if c == b'u'
    then goes (unicode 0 3) []
    else elim (short_escape c) [ none ↦ refused | some d ↦ goes plain (d ∷ []) ]
move (unicode acc more) c = unicode_digit acc more (hex_value c)

abbrev in_front : Bytes → Option (Bytes × Bytes) → Option (Bytes × Bytes)
in_front out none = none
in_front out (some (s, rest)) = some (out ++ s, rest)

-- A reader of a JSON string behind its opening quote: the text that it holds and what follows the
-- closing quote. A bare control character is refused.
pub read_string : Mode → Bytes → Option (Bytes × Bytes)
unfolding move
read_string m [] = none
read_string m (c ∷ s) = elim (move m c) [
  | closes ↦ some ([], s)
  | refused ↦ none
  | goes m' out ↦ in_front out (read_string m' s)
]

hex_value-hex_digit : (n : ℕ) → n < 16 → hex_value (hex_digit n) ≡ some n
unfolding hex_value
hex_value-hex_digit n h = ground arith

in_front-nil : (o : Option (Bytes × Bytes)) → in_front [] o ≡ o
in_front-nil none = refl
in_front-nil (some (s, rest)) = refl

read_control :
    (c : ℕ) (r : Bytes)
    → c < 0x20
    → read_string (unicode 0 3) (b'0' ∷ b'0' ∷ hex_digit (c / 16 % 16) ∷ hex_digit (c % 16) ∷ r)
      ≡ in_front (c ∷ []) (read_string plain r)
unfolding read_string move
read_control c r h =
    rw (hex_value-hex_digit (c / 16 % 16) (omega arith), hex_value-hex_digit (c % 16) (omega arith))
      (simp in_front-nil (ap (λ x. in_front (x ∷ []) (read_string plain r)) (omega arith)))

read-escape_byte :
    (c : ℕ) (r : Bytes)
    → read_string plain (escape_byte c ++ r) ≡ in_front (c ∷ []) (read_string plain r)
unfolding escape_byte read_string
read-escape_byte c r = elim (Bool-cases (ltb c 0x20)) [
  | inl low ↦
      ground (arith, read_control c r, in_front-nil (in_front (c ∷ []) (read_string plain r)))
  | inr high ↦ ground (arith, in_front-nil (in_front (c ∷ []) (read_string plain r)))
]

-- Whatever bytes a text holds, a JSON reader takes the escaped text, up to the closing quote that the
-- daemon puts behind it, for that text.
pub read_string-json_escape :
    (s rest : Bytes) → read_string plain (json_escape s ++ b'"' ∷ rest) ≡ some (s, rest)
unfolding json_escape
read_string-json_escape [] rest = unfold read_string in refl
read_string-json_escape (c ∷ s) rest =
    rw (append_assoc (escape_byte c) (json_escape s) (b'"' ∷ rest)) (
      read-escape_byte c (json_escape s ++ b'"' ∷ rest)
      ∙ ap (in_front (c ∷ [])) (read_string-json_escape s rest))
