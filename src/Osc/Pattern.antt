-- ===== src/Osc/Pattern.antt =====
-- The address patterns of `OSCServer.process_message`: `re.match` for the address with each `*`
-- replaced by `[^/]+`. Of an address whose other characters stand for themselves in a regular
-- expression, the match is computed here; `re.match` of any other is a parameter of the server.
pub mod Meaning
use ohmic_bridge.Prelude.{
  ℕ, Bool, true, false, ◌&&◌, ◌||◌, not, ◌==◌, leb, if◌then◌else◌, List, [], ◌∷◌, Text,
}

-- Letters, digits, `_` and `/`.
pub is_plain_char : ℕ → Bool
is_plain_char c =
    (leb 97 c && leb c 122) || (leb 65 c && leb c 90) || (leb 47 c && leb c 57) || c == 95

-- `"*" in address`
unfoldable pub has_star : Text → Bool
has_star [] = false
has_star (c ∷ s) = c == 42 || has_star s

unfoldable pub is_plain : Text → Bool
unfolding is_plain_char
is_plain [] = true
is_plain (c ∷ s) = (c == 42 || is_plain_char c) && is_plain s

-- Does a prefix of the address match?
unfoldable pub glob : Text → Text → Bool
glob [] a = true
glob (p ∷ ps) [] = false
glob (p ∷ ps) (c ∷ a) =
    if p == 42 then not (c == 47) && (glob ps a || glob (p ∷ ps) a) else p == c && glob ps a
