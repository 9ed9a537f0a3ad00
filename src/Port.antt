-- ===== src/Port.antt =====
-- `isValidPort` of src/main.cpp.
use internet_relay_chat_msn.Number.{leading_number}
use internet_relay_chat_msn.Text.{Text, is_digit}
use internet_relay_chat_msn.Base.{
  ℕ, ◌≡◌, refl, true, false, Option, none, some, ◌∷◌, [], Bool, arith, ◌↔◌, ◌*◌, if◌then◌else◌, min,
  ◌^◌, ◌+◌, is_empty, not, ◌&&◌, ◌-◌, ◌≤◌, leb, ◌||◌, ltb, sym, ◌∙◌,
}

unfoldable pub all_digits : Text → Bool
all_digits [] = true
all_digits (c ∷ text) = is_digit c && all_digits text

-- atol() of a text of digits: it saturates at the greatest long.
unfoldable pub atol_of_digits : Text → ℕ
atol_of_digits text = min (leading_number 0 text) (2 ^ 63 - 1)

-- The port that goes to `outPort`, `none` for false.
unfoldable pub is_valid_port : Text → Option ℕ
is_valid_port text =
    if is_empty text
    then none
    else if not (all_digits text)
    then none
    else if leb (atol_of_digits text) 0 || ltb 65535 (atol_of_digits text)
    then none
    else some (atol_of_digits text)

-- The number that a text of digits writes.
unfoldable pub number_from : ℕ → Text → ℕ
number_from n [] = n
number_from n (c ∷ text) = number_from (n * 10 + (c - b'0')) text

leading_number-all_digits :
    (n : ℕ) (text : Text) → all_digits text ≡ true → leading_number n text ≡ number_from n text
unfolding leading_number number_from all_digits
leading_number-all_digits n [] h = refl
leading_number-all_digits n (c ∷ text) h =
    ground (arith, leading_number-all_digits (n * 10 + (c - b'0')) text)

-- The test of the range, on a number that has been cut off at the greatest long.
unfoldable in_range : ℕ → Option ℕ
in_range n = if leb n 0 || ltb 65535 n then none else some n

in_range-min :
    (v port : ℕ)
    → in_range (min v (2 ^ 63 - 1)) ≡ some port
    → (v ≡ port) × (1 ≤ port) × (port ≤ 65535)
unfolding in_range
in_range-min v port h = ground arith

in_range_kept :
    (v port : ℕ) → v ≡ port → 1 ≤ port → port ≤ 65535 → in_range (min v (2 ^ 63 - 1)) ≡ some port
unfolding in_range
in_range_kept v port e low high = ground arith

-- A port is accepted exactly when it is a text of digits, not empty, that writes a number from 1 to
-- 65535, and that number, however many the digits, is the port.
pub is_valid_port_exact :
    (text : Text) (port : ℕ)
    → (is_valid_port text ≡ some port) ↔ (
        (is_empty text ≡ false)
        × (all_digits text ≡ true)
        × (number_from 0 text ≡ port)
        × (1 ≤ port)
        × (port ≤ 65535))
unfolding is_valid_port atol_of_digits in_range
is_valid_port_exact text port = (accepted, sound)
  where
    by_tests :
        (blank digits : Bool)
        → is_empty text ≡ blank
        → all_digits text ≡ digits
        → (if blank then none else if not digits then none else in_range (atol_of_digits text))
          ≡ some port
        → (is_empty text ≡ false)
          × (all_digits text ≡ true)
          × (number_from 0 text ≡ port)
          × (1 ≤ port)
          × (port ≤ 65535)
    by_tests true digits e d h = cc
    by_tests false false e d h = cc
    by_tests false true e d h =
        let (value, low, high) = in_range-min (leading_number 0 text) port h in
        (e, d, sym (leading_number-all_digits 0 text d) ∙ value, low, high)

    accepted :
        is_valid_port text ≡ some port
        → (is_empty text ≡ false)
          × (all_digits text ≡ true)
          × (number_from 0 text ≡ port)
          × (1 ≤ port)
          × (port ≤ 65535)
    accepted h = by_tests (is_empty text) (all_digits text) refl refl h

    sound :
        (is_empty text ≡ false)
          × (all_digits text ≡ true)
          × (number_from 0 text ≡ port)
          × (1 ≤ port)
          × (port ≤ 65535)
        → is_valid_port text ≡ some port
    sound (full, digits, value, low, high) =
        rw (full, digits)
          (in_range_kept (leading_number 0 text) port
            (leading_number-all_digits 0 text digits ∙ value) low high)
