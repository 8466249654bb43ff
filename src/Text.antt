-- ===== src/Text.antt =====
-- Texts as JavaScript sees them: UTF-16 code units, UTF-8 byte lengths, and the anchored
-- patterns of fixed shape that the journals test with regular expressions.
mod Tests
pub mod Order
use Prim.Native.Char.{code}
use threema_beeper.Prelude.{
  ℕ, zero, suc, ◌+◌, ◌-◌, ◌/◌, ◌%◌, String, Bool, true, false, not, ◌&&◌, ◌||◌, List, [], ◌∷◌, ◌++◌,
  leb, ltb, ◌==◌, if◌then◌else◌, length,
}

-- A character above U+FFFF is a surrogate pair.
abbrev unit_list : ℕ → List ℕ
unit_list c =
    if ltb c 0x10000
    then c ∷ []
    else (0xD800 + (c - 0x10000) / 0x400) ∷ (0xDC00 + (c - 0x10000) % 0x400) ∷ []

-- The code units of a text: `text.length` is their number.
unfoldable pub units : String → List ℕ
units String.[] = []
units (String.◌∷◌ c s) = unit_list (code c) ++ units s

unfoldable pub utf16_length : String → ℕ
unfolding units
utf16_length s = length (units s)

abbrev utf8_width : ℕ → ℕ
utf8_width c = if ltb c 0x80 then 1 else if ltb c 0x800 then 2 else if ltb c 0x10000 then 3 else 4

-- `Buffer.byteLength(text)`.
unfoldable pub byte_length : String → ℕ
byte_length String.[] = 0
byte_length (String.◌∷◌ c s) = utf8_width (code c) + byte_length s

-- `text.startsWith(prefix)` of code units.
unfoldable pub starts_with_units : List ℕ → List ℕ → Bool
starts_with_units [] us = true
starts_with_units (_ ∷ _) [] = false
starts_with_units (p ∷ ps) (u ∷ us) = p == u && starts_with_units ps us

unfoldable pub starts_with : String → String → Bool
unfolding starts_with_units units
starts_with prefix s = starts_with_units (units prefix) (units s)

abbrev in_range : ℕ → ℕ → ℕ → Bool
in_range lo hi c = leb lo c && leb c hi

abbrev pub is_digit : ℕ → Bool
is_digit = in_range b'0' b'9'

-- [A-Z0-9]
abbrev pub is_upper_alnum : ℕ → Bool
is_upper_alnum c = in_range b'A' b'Z' c || is_digit c

-- [A-Za-z0-9]
abbrev pub is_alnum : ℕ → Bool
is_alnum c = is_upper_alnum c || in_range b'a' b'z' c

-- [A-Z0-9*]
abbrev pub is_identity_head : ℕ → Bool
is_identity_head c = is_upper_alnum c || c == b'*'

-- [0-9a-f]
abbrev pub is_hex : ℕ → Bool
is_hex c = is_digit c || in_range b'a' b'f' c

abbrev pub lit : ℕ → ℕ → Bool
lit k c = k == c

-- `n` times the class `p`, before the rest of a pattern.
abbrev pub times : ℕ → (ℕ → Bool) → List (ℕ → Bool) → List (ℕ → Bool)
times zero p rest = rest
times (suc n) p rest = p ∷ times n p rest

-- A pattern ^...$ with one class for each code unit.
unfoldable pub matches : List (ℕ → Bool) → List ℕ → Bool
matches [] [] = true
matches [] (_ ∷ _) = false
matches (_ ∷ _) [] = false
matches (p ∷ ps) (u ∷ us) = p u && matches ps us

-- [A-Z0-9*][A-Z0-9]{7}
abbrev identity_then : List (ℕ → Bool) → List (ℕ → Bool)
identity_then rest = is_identity_head ∷ times 7 is_upper_alnum rest

-- /^[A-Z0-9*][A-Z0-9]{7}$/
unfoldable pub is_profile : String → Bool
unfolding matches units
is_profile s = matches (identity_then []) (units s)

-- /^m:[0-9a-f]{16}$/
unfoldable pub is_message_id : String → Bool
unfolding matches units
is_message_id s = matches (lit b'm' ∷ lit b':' ∷ times 16 is_hex []) (units s)

-- /^(c:[A-Z0-9*][A-Z0-9]{7}|g:[A-Z0-9*][A-Z0-9]{7}:[0-9a-f]{16})$/
unfoldable pub is_chat_id : String → Bool
unfolding matches units
is_chat_id s =
    matches (lit b'c' ∷ lit b':' ∷ identity_then []) (units s)
    || matches (lit b'g' ∷ lit b':' ∷ identity_then (lit b':' ∷ times 16 is_hex [])) (units s)

abbrev is_variant : ℕ → Bool
is_variant c = c == b'8' || c == b'9' || c == b'a' || c == b'b'

-- /^[0-9a-f]{8}-[0-9a-f]{4}-7[0-9a-f]{3}-[89ab][0-9a-f]{3}-[0-9a-f]{12}$/
unfoldable pub is_uuid7 : String → Bool
unfolding matches units
is_uuid7 s =
    matches
      (times 8 is_hex (
        lit b'-'
        ∷ times 4 is_hex (
            lit b'-'
            ∷ lit b'7'
            ∷ times 3 is_hex
                (lit b'-' ∷ is_variant ∷ times 3 is_hex (lit b'-' ∷ times 12 is_hex [])))))
      (units s)

-- JavaScript's \s.
abbrev is_space : ℕ → Bool
is_space c =
    in_range 9 13 c
    || c == 32
    || c == 0xA0
    || c == 0x1680
    || in_range 0x2000 0x200A c
    || c == 0x2028
    || c == 0x2029
    || c == 0x202F
    || c == 0x205F
    || c == 0x3000
    || c == 0xFEFF

unfoldable pub no_spaces : List ℕ → Bool
no_spaces [] = true
no_spaces (c ∷ cs) = not (is_space c) && no_spaces cs

-- /^\$[^\s]{1,1024}$/
unfoldable pub is_event_id : String → Bool
unfolding no_spaces units
is_event_id s = elim (units s) [
  | [] ↦ false
  | c ∷ rest ↦ c == b'$' && (leb 1 (length rest) && leb (length rest) 1024) && no_spaces rest
]

-- A colon with at least one unit before it, at most `n` units before it, and one after it.
colon_within : ℕ → List ℕ → Bool
colon_within zero us = false
colon_within (suc n) [] = false
colon_within (suc n) (u ∷ []) = false
colon_within (suc n) (u ∷ v ∷ []) = false
colon_within (suc n) (u ∷ v ∷ w ∷ rest) = v == b':' || colon_within n (v ∷ w ∷ rest)

-- /^S[^\s]{1,1024}:[^\s]+$/ for the sigil S.
unfoldable pub is_server_id : ℕ → String → Bool
unfolding no_spaces units colon_within
is_server_id sigil s = elim (units s) [
  | [] ↦ false
  | c ∷ rest ↦ c == sigil && no_spaces rest && colon_within 1024 rest
]

-- /^S[^\s]+:[^\s]+$/ for the sigil S.
unfoldable pub is_matrix_id : ℕ → String → Bool
unfolding no_spaces units colon_within
is_matrix_id sigil s = elim (units s) [
  | [] ↦ false
  | c ∷ rest ↦ c == sigil && no_spaces rest && colon_within (length rest) rest
]
