-- ===== src/Color.antt =====
-- A colour of Live's as the text `#rrggbb`: `_color_hex` of abletonosc/arrangement_view.py, and the
-- same format in `session_info` and `clip_grid` of abletonosc/song.py.
use ohmic_bridge.Prelude.{
  ℕ, ◌+◌, ◌-◌, ◌/◌, ◌%◌, ◌^◌, ◌≡◌, refl, [], ◌∷◌, ◌++◌, ltb, if◌then◌else◌, Text, codes,
}
use ohmic_bridge.Prelude.Int.{ℤ, pos, negsuc}

-- `(c >> k) & 0xFF`, of a negative number too.
abbrev pub color_byte : ℤ → ℕ → ℕ
color_byte (pos c) k = c / 2 ^ k % 256
color_byte (negsuc c) k = 255 - c / 2 ^ k % 256

hex_digit : ℕ → ℕ
hex_digit d = if ltb d 10 then 48 + d else 87 + d

-- `%02x` of a byte.
hex_byte : ℕ → Text
unfolding hex_digit
hex_byte b = hex_digit (b / 16) ∷ hex_digit (b % 16) ∷ []

unfoldable pub color_hex : ℤ → Text
unfolding hex_byte
color_hex c =
    b'#' ∷ (hex_byte (color_byte c 16) ++ hex_byte (color_byte c 8) ++ hex_byte (color_byte c 0))

color_hex_runs : color_hex (pos 16744448) ≡ codes "#ff8000"
unfolding color_hex
color_hex_runs = refl
