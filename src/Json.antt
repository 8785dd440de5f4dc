-- ===== src/Json.antt =====
-- `json.dumps` of Python's standard library, with its default `ensure_ascii`. A value is written
-- from the texts of its parts, so a payload of known shape is one term. All of the output is ASCII:
-- its length is the length of its UTF-8 bytes.
pub mod Size
use ohmic_bridge.Prelude.{
  ℕ, zero, suc, ◌+◌, ◌-◌, ◌*◌, ◌/◌, ◌%◌, ◌≤◌, ◌≡◌, refl, Bool, true, false, ◌&&◌, ◌||◌, Option,
  none, some, List, [], ◌∷◌, ◌++◌, map, arith, ltb, leb, ◌==◌, if◌then◌else◌, Text, codes, length,
  length-append,
}
use ohmic_bridge.Prelude.Int.{ℤ, pos, negsuc}
use ohmic_bridge.Decimal.{decimal}

-- The separators between items and after a key.
pub record Style : Type 0 where
  pub item_sep : Text
  pub key_sep : Text

abbrev pub default : Style
default = record { item_sep = codes ", "; key_sep = codes ": " }

-- `separators=(",", ":")`
abbrev pub compact : Style
compact = record { item_sep = codes ","; key_sep = codes ":" }

hex_digit : ℕ → ℕ
hex_digit d = if ltb d 10 then 48 + d else 87 + d

-- \uXXXX
unicode_escape : ℕ → Text
unfolding hex_digit
unicode_escape u =
    b'\\'
    ∷ b'u'
    ∷ hex_digit (u / 4096 % 16)
    ∷ hex_digit (u / 256 % 16)
    ∷ hex_digit (u / 16 % 16)
    ∷ hex_digit (u % 16)
    ∷ []

escape_char : ℕ → Text
unfolding unicode_escape
escape_char c =
    if c == 34
    then b'\\' ∷ 34 ∷ []
    else if c == 92
    then b'\\' ∷ b'\\' ∷ []
    else if c == 10
    then b'\\' ∷ b'n' ∷ []
    else if c == 13
    then b'\\' ∷ b'r' ∷ []
    else if c == 9
    then b'\\' ∷ b't' ∷ []
    else if c == 12
    then b'\\' ∷ b'f' ∷ []
    else if c == 8
    then b'\\' ∷ b'b' ∷ []
    else if leb 32 c && leb c 126
    then c ∷ []
    else if ltb c 65536
    then unicode_escape c
    else unicode_escape (55296 + (c - 65536) / 1024) ++ unicode_escape (56320 + (c - 65536) % 1024)

escape : Text → Text
unfolding escape_char
escape [] = []
escape (c ∷ s) = escape_char c ++ escape s

unfoldable pub json_str : Text → Text
unfolding escape
json_str s = 34 ∷ (escape s ++ 34 ∷ [])

unfoldable pub json_int : ℤ → Text
json_int (pos n) = decimal n
json_int (negsuc n) = b'-' ∷ decimal (n + 1)

abbrev pub json_null : Text
json_null = codes "null"

abbrev pub json_bool : Bool → Text
json_bool b = if b then codes "true" else codes "false"

abbrev pub json_option {ℓ} : {A : Type ℓ} → (A → Text) → Option A → Text
json_option enc none = json_null
json_option enc (some a) = enc a

-- The texts after the first, each behind a separator.
unfoldable pub more : Text → List Text → Text
more sep [] = []
more sep (x ∷ xs) = sep ++ (x ++ more sep xs)

unfoldable pub join : Text → List Text → Text
unfolding more
join sep [] = []
join sep (x ∷ xs) = x ++ more sep xs

unfoldable pub json_array : Style → List Text → Text
unfolding join
json_array st items = b'[' ∷ (join st.item_sep items ++ b']' ∷ [])

-- A member of an object, from its key and the text of its value.
unfoldable pub member : Style → Text × Text → Text
member st e = json_str e.0 ++ (st.key_sep ++ e.1)

unfoldable pub json_object : Style → List (Text × Text) → Text
unfolding join member
json_object st members = b'{' ∷ (join st.item_sep (map (member st) members) ++ b'}' ∷ [])

sample :
    json_object default (
      (codes "a", json_array compact (json_int (negsuc 6) ∷ json_bool true ∷ []))
      ∷ (codes "é\n", json_null)
      ∷ [])
    ≡ codes "{\"a\": [-7,true], \"\\u00e9\\n\": null}"
unfolding json_object json_array json_int json_str decimal
sample = refl
