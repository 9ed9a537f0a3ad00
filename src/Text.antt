-- ===== src/Text.antt =====
-- std::string as the list of its bytes, and the <cctype> tests of the "C" locale.
use Prim.Native.Char.{code}
use internet_relay_chat_msn.Base.{
  ℕ, ◌-◌, String, Bool, ◌&&◌, ◌||◌, List, [], ◌∷◌, leb, if◌then◌else◌,
}

abbrev pub Text : Type 0
Text = List ℕ

-- A literal of the source, as bytes.
unfoldable pub bytes : String → Text
bytes String.[] = []
bytes (String.◌∷◌ c s) = code c ∷ bytes s

-- The character with which messages end.
abbrev pub space : ℕ
space = 32

unfoldable pub is_digit : ℕ → Bool
is_digit c = leb b'0' c && leb c b'9'

unfoldable pub is_alpha : ℕ → Bool
is_alpha c = leb b'A' c && leb c b'Z' || leb b'a' c && leb c b'z'

unfoldable pub is_alnum : ℕ → Bool
unfolding is_alpha is_digit
is_alnum c = is_alpha c || is_digit c

unfoldable pub to_upper : ℕ → ℕ
to_upper c = if leb b'a' c && leb c b'z' then c - 32 else c
