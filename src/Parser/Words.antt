-- ===== src/Parser/Words.antt =====
-- The words and parameters of a line, printed and read again by src/Parser.cpp.
use Prim.Native.Nat.{ℕ, suc}
use internet_relay_chat_msn.Text.{Text, space}
use internet_relay_chat_msn.Base.{
  List, contains, is_empty, ◌++◌, ◌∷◌, [], ◌≡◌, refl, false, nat_key, length, suc, zero, ◌≤◌, ◌∙◌,
  ap, if◌then◌else◌, arith,
}
use internet_relay_chat_msn.Parser.{
  IrcCommand, parse_params, skip_spaces, word, after_word, starts_with_colon,
}

-- A text without spaces; and one that can stand in the middle of a line, a word that no colon begins.
abbrev pub IsWord : Text → Type 0
IsWord text = contains text space ≡ false

abbrev pub IsMiddle : Text → Type 0
IsMiddle text = IsWord text × (is_empty text ≡ false) × (starts_with_colon text ≡ false)

-- Only the last parameter may be any text.
abbrev pub ArePrintable : List Text → Type 0
ArePrintable [] = Unit
ArePrintable (param ∷ []) = Unit
ArePrintable (param ∷ next ∷ params) = IsMiddle param × ArePrintable (next ∷ params)

unfoldable pub print_params : List Text → Text
print_params [] = []
print_params (param ∷ []) = space ∷ b':' ∷ param
print_params (param ∷ next ∷ params) = space ∷ (param ++ print_params (next ∷ params))

unfoldable pub print_prefix : Text → Text
print_prefix prefix = if is_empty prefix then [] else b':' ∷ (prefix ++ space ∷ [])

unfoldable pub print : IrcCommand → Text
print c = print_prefix c.prefix ++ (c.command ++ print_params c.params)

-- What follows a word: nothing, or a text that a space begins.
abbrev pub EndsWord : Text → Type 0
EndsWord [] = Unit
EndsWord (c ∷ rest) = c ≡ space

pub word-append : (text rest : Text) → IsWord text → EndsWord rest → word (text ++ rest) ≡ text
unfolding word contains
word-append [] [] h e = refl
word-append [] (c ∷ rest) h e = ground arith
word-append (c ∷ text) rest h e = ground (arith, word-append text rest)

pub after_word-append :
    (text rest : Text) → IsWord text → EndsWord rest → after_word (text ++ rest) ≡ rest
unfolding after_word contains
after_word-append [] [] h e = refl
after_word-append [] (c ∷ rest) h e = ground arith
after_word-append (c ∷ text) rest h e = ground (arith, after_word-append text rest)

-- A text that starts with no space is where the skipping ends.
pub skip_spaces-append :
    (text rest : Text)
    → IsWord text
    → is_empty text ≡ false
    → skip_spaces (text ++ rest) ≡ text ++ rest
unfolding skip_spaces contains
skip_spaces-append [] rest h e = cc
skip_spaces-append (c ∷ text) rest h e = ground arith

pub print_params-EndsWord : (params : List Text) → EndsWord (print_params params)
unfolding print_params
print_params-EndsWord [] = tt
print_params-EndsWord (param ∷ []) = refl
print_params-EndsWord (param ∷ next ∷ params) = refl

skip_spaces_idem : (text : Text) → skip_spaces (skip_spaces text) ≡ skip_spaces text
unfolding skip_spaces
skip_spaces_idem [] = refl
skip_spaces_idem (c ∷ text) = ground (arith, skip_spaces_idem text)

pub parse_params-skip_spaces :
    (fuel : ℕ) (text : Text) → parse_params fuel (skip_spaces text) ≡ parse_params fuel text
unfolding parse_params
parse_params-skip_spaces zero text = refl
parse_params-skip_spaces (suc fuel) text = rw (skip_spaces_idem text) refl

-- A middle parameter is read as the word that it is, and the rest is read on.
parse_params-middle :
    (fuel : ℕ) (param rest : Text)
    → IsMiddle param
    → EndsWord rest
    → parse_params (suc fuel) (space ∷ (param ++ rest)) ≡ param ∷ parse_params fuel rest
unfolding parse_params
parse_params-middle fuel param rest (w, full, plain) e =
    rw (skipped)
      (rw (is_full, is_plain, word-append param rest w e, after_word-append param rest w e) refl)
  where
    skipped : skip_spaces (space ∷ (param ++ rest)) ≡ param ++ rest
    skipped = unfold skip_spaces in skip_spaces-append param rest w full

    is_full : is_empty (param ++ rest) ≡ false
    is_full = go param full
      where
        go : (p : Text) → is_empty p ≡ false → is_empty (p ++ rest) ≡ false
        go [] h = cc
        go (c ∷ p) h = refl

    is_plain : starts_with_colon (param ++ rest) ≡ false
    is_plain = go param full plain
      where
        go :
            (p : Text)
            → is_empty p ≡ false
            → starts_with_colon p ≡ false
            → starts_with_colon (p ++ rest) ≡ false
        go [] h q = cc
        go (c ∷ p) h q = q

parse_params-last :
    (fuel : ℕ) (param : Text) → parse_params (suc fuel) (space ∷ b':' ∷ param) ≡ param ∷ []
unfolding parse_params skip_spaces
parse_params-last fuel param = refl

parse_params-nil : (fuel : ℕ) → parse_params fuel [] ≡ []
unfolding parse_params skip_spaces
parse_params-nil zero = refl
parse_params-nil (suc fuel) = refl

-- Parameters are parsed back, given fuel for each.
pub parse_params-print_params :
    (fuel : ℕ) (params : List Text)
    → ArePrintable params
    → length params ≤ fuel
    → parse_params fuel (print_params params) ≡ params
unfolding print_params
parse_params-print_params fuel [] ok h = parse_params-nil fuel
parse_params-print_params zero (param ∷ params) ok h = absurd (omega arith)
parse_params-print_params (suc fuel) (param ∷ []) ok h = parse_params-last fuel param
parse_params-print_params (suc fuel) (param ∷ next ∷ params) (m, ok) h =
    parse_params-middle fuel param (print_params (next ∷ params)) m
      (print_params-EndsWord (next ∷ params))
    ∙ ap (◌∷◌ param) (parse_params-print_params fuel (next ∷ params) ok (omega arith))
