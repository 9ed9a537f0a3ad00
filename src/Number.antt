-- ===== src/Number.antt =====
-- atoi() as glibc has it: strtol(), which saturates at the bounds of a 64-bit long, cut down to a
-- 32-bit int.
use internet_relay_chat_msn.Base.{
  ℕ, ◌+◌, ◌-◌, ◌*◌, ◌%◌, ◌^◌, Bool, ◌&&◌, ◌||◌, [], ◌∷◌, ◌==◌, if◌then◌else◌, nat_key, bytes_key,
  leb, ltb, min,
}
use internet_relay_chat_msn.Text.{Text, is_digit}

-- `negsuc n` is -(n + 1).
pub data ℤ : Type 0 where
  pos : ℕ → ℤ
  negsuc : ℕ → ℤ

unfoldable pub is_space : ℕ → Bool
is_space c = c == 32 || leb 9 c && leb c 13

unfoldable pub skip_white : Text → Text
skip_white [] = []
skip_white (c ∷ text) = if is_space c then skip_white text else c ∷ text

-- The value of the digits that begin the text, after those read so far.
unfoldable pub leading_number : ℕ → Text → ℕ
leading_number n [] = n
leading_number n (c ∷ text) =
    let rest = leading_number (n * 10 + (c - b'0')) text in if is_digit c then rest else n

-- The low 32 bits, read as a signed int.
unfoldable pub low_int : ℕ → ℤ
low_int bits =
    let low = bits % 2 ^ 32 in if ltb low (2 ^ 31) then pos low else negsuc (2 ^ 32 - low - 1)

unfoldable pub int_of_positive : ℕ → ℤ
int_of_positive n = low_int (min n (2 ^ 63 - 1))

unfoldable pub int_of_negative : ℕ → ℤ
int_of_negative n = low_int (2 ^ 64 - min n (2 ^ 63))

unfoldable pub signed : Text → ℤ
signed [] = pos 0
signed (c ∷ text) =
    if c == b'-'
    then int_of_negative (leading_number 0 text)
    else if c == b'+'
    then int_of_positive (leading_number 0 text)
    else int_of_positive (leading_number 0 (c ∷ text))

unfoldable pub atoi : Text → ℤ
atoi text = signed (skip_white text)
