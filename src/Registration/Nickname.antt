-- ===== src/Registration/Nickname.antt =====
-- `isValidNickname`, `stripNickSuffix` and `isNicknameVariant` of src/Registration.cpp, and the test
-- of `handleNick` whether another client has the nickname.
use internet_relay_chat_msn.Base.{
  ℕ, zero, suc, Bool, true, false, not, ◌&&◌, ◌||◌, Option, none, some, List, [], ◌∷◌, ◌==◌,
  if◌then◌else◌, nat_key, bytes_key, is_empty, length, leb, ltb, get_elem?, take,
}
use internet_relay_chat_msn.Map.{Map}
use internet_relay_chat_msn.Text.{Text, is_digit, is_alpha, is_alnum}
use internet_relay_chat_msn.Client.{Client}

-- The punctuation that a nickname may hold; 92 is the backslash.
unfoldable pub is_special : ℕ → Bool
is_special c =
    c == b'['
    || c == b']'
    || c == 92
    || c == b'^'
    || c == b'_'
    || c == b'`'
    || c == b'{'
    || c == b'|'
    || c == b'}'

unfoldable pub all_nick_chars : Text → Bool
all_nick_chars [] = true
all_nick_chars (c ∷ nick) = (is_alnum c || is_special c) && all_nick_chars nick

unfoldable pub is_valid_nickname : Text → Bool
is_valid_nickname [] = false
is_valid_nickname (c ∷ nick) = (is_alpha c || is_special c) && all_nick_chars nick

unfoldable pub is_suffix_char : Option ℕ → Bool
is_suffix_char none = false
is_suffix_char (some c) = c == b'_' || is_digit c

-- The loop of `stripNickSuffix`, from `end` down.
unfoldable pub strip_from : ℕ → Text → Text
strip_from zero nick = []
strip_from (suc end) nick =
    let shorter = strip_from end nick in
    if is_suffix_char (get_elem? nick end) then shorter else take (suc end) nick

unfoldable pub strip_nick_suffix : Text → Text
strip_nick_suffix nick = strip_from (length nick) nick

unfoldable pub is_variant_of : Text → Text → Bool
is_variant_of nick rejected =
    let candidate = strip_nick_suffix nick in
    let base = strip_nick_suffix rejected in
    not (nick == rejected || is_empty candidate || is_empty base)
    && leb (if ltb (length base) 8 then length base else 8) (length candidate)
    && take (length candidate) base == candidate

unfoldable pub is_nickname_variant : Text → List Text → Bool
is_nickname_variant nick [] = false
is_nickname_variant nick (rejected ∷ rest) =
    is_variant_of nick rejected || is_nickname_variant nick rest

unfoldable pub is_taken : ℕ → Text → Map ℕ Client → Bool
is_taken fd nick [] = false
is_taken fd nick ((other, c) ∷ rest) =
    not (other == fd) && c.nickname == nick || is_taken fd nick rest
