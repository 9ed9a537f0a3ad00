-- ===== src/Parser/RoundTrip.antt =====
-- src/Parser.cpp and a printer of commands.
use internet_relay_chat_msn.Parser.Words.{
  IsMiddle, parse_params-skip_spaces, ArePrintable, parse_params-print_params, print,
  skip_spaces-append, word-append, IsWord, EndsWord, after_word-append, print_params, print_prefix,
  print_params-EndsWord,
}
use internet_relay_chat_msn.Text.{Text, space, to_upper}
use internet_relay_chat_msn.Base.{
  List, is_empty, ◌++◌, ◌∷◌, [], ◌≡◌, refl, false, nat_key, map, length, ◌≤◌, ◌<◌, length-append,
  arith, true, Bool-cases, inl, inr,
}
use internet_relay_chat_msn.Parser.{
  IrcCommand, parse_params, parse_command, skip_spaces, starts_with_colon, parse_from, parse,
  parse_prefix,
}
use mathlib.Core.List.{append_assoc}

-- The line is long enough for the fuel that `parse` gives.
length-print_params :
    (params : List Text)
    → ArePrintable params
    → length params ≤ length (skip_spaces (print_params params))
unfolding print_params skip_spaces
length-print_params [] ok = omega arith
length-print_params (param ∷ []) ok = omega arith
length-print_params (param ∷ next ∷ params) ((w, full, plain), ok) =
    rw (skip_spaces-append param (print_params (next ∷ params)) w full) (
      omega (
        arith,
        length-append param (print_params (next ∷ params)),
        length-print_params (next ∷ params) ok,
        some_length param full,
        length-skip_spaces (next ∷ params),
      ))
  where
    some_length : (p : Text) → is_empty p ≡ false → 0 < length p
    some_length [] h = cc
    some_length (c ∷ p) h = omega arith

    length-skip_spaces :
        (ps : List Text) → length (skip_spaces (print_params ps)) ≤ length (print_params ps)
    length-skip_spaces ps = go (print_params ps)
      where
        go : (t : Text) → length (skip_spaces t) ≤ length t
        go [] = omega arith
        go (c ∷ t) = ground (arith, go t)

-- What the parser must find to give a command back: a word in upper case that no colon begins,
-- parameters that can be printed, and a prefix, perhaps empty, without spaces.
pub record IsPrintable (c : IrcCommand) : Type 0 where
  pub command : IsMiddle c.command
  pub upper : map to_upper c.command ≡ c.command
  pub params : ArePrintable c.params
  pub prefix : IsWord c.prefix

module _ (c : IrcCommand) (ok : IsPrintable c) where
  body : Text
  body = c.command ++ print_params c.params

  parse_from-body : (before : Text) → skip_spaces before ≡ body → parse_from c.prefix before ≡ c
  unfolding parse_from parse_command body
  parse_from-body before e = rw e (
      rw
        (
          word-append c.command (print_params c.params) ok.command.0 ends,
          after_word-append c.command (print_params c.params) ok.command.0 ends,
          ok.upper,
          parse_params-skip_spaces,
          parsed,
        )
        refl)
    where
      ends : EndsWord (print_params c.params)
      ends = print_params-EndsWord c.params

      parsed :
          parse_params (length (skip_spaces (print_params c.params))) (print_params c.params)
          ≡ c.params
      parsed =
          parse_params-print_params _ c.params ok.params (length-print_params c.params ok.params)

  skip_spaces-body : skip_spaces body ≡ body
  unfolding body
  skip_spaces-body = skip_spaces-append c.command (print_params c.params) ok.command.0 ok.command.1

is_empty-append : (xs ys : Text) → is_empty xs ≡ false → is_empty (xs ++ ys) ≡ false
is_empty-append [] ys h = cc
is_empty-append (x ∷ xs) ys h = refl

starts_with_colon-append :
    (xs ys : Text) → is_empty xs ≡ false → starts_with_colon (xs ++ ys) ≡ starts_with_colon xs
starts_with_colon-append [] ys h = cc
starts_with_colon-append (x ∷ xs) ys h = refl

-- A line without a prefix.
parse-body :
    (c : IrcCommand)
    → IsPrintable c
    → c.prefix ≡ []
    → parse (c.command ++ print_params c.params) ≡ c
unfolding parse
parse-body c ok none_given =
    rw (skip_spaces-append c.command (print_params c.params) ok.command.0 ok.command.1) (
      rw (is_empty-append c.command (print_params c.params) ok.command.1) (
        unfold parse_prefix in
        rw (starts_with_colon-append c.command (print_params c.params) ok.command.1, ok.command.2)
          (rw (← none_given) (parse_from-body c ok _ (unfold body in skip_spaces-body c ok)))))

-- A line with one.
parse-prefixed :
    (c : IrcCommand)
    → IsPrintable c
    → parse (b':' ∷ (c.prefix ++ space ∷ (c.command ++ print_params c.params))) ≡ c
unfolding parse parse_prefix skip_spaces
parse-prefixed c ok =
    rw
      (
        word-append c.prefix (space ∷ (c.command ++ print_params c.params)) ok.prefix refl,
        after_word-append c.prefix (space ∷ (c.command ++ print_params c.params)) ok.prefix refl,
      )
      (parse_from-body c ok _ (unfold skip_spaces body in skip_spaces-body c ok))

-- A printable command (its name and every parameter but the last are words that no colon begins, the
-- name in capitals, the prefix without spaces, the last parameter any text) is parsed back from what
-- `print` writes, whole.
pub parse-print : (c : IrcCommand) → IsPrintable c → parse (print c) ≡ c
unfolding print print_prefix
parse-print c ok = elim (Bool-cases (is_empty c.prefix)) [
  | inl none_given ↦ rw none_given (parse-body c ok (empty c.prefix none_given))
  | inr given ↦ rw given (
      rw (append_assoc c.prefix (space ∷ []) (c.command ++ print_params c.params))
        (parse-prefixed c ok))
]
  where
    empty : (t : Text) → is_empty t ≡ true → t ≡ []
    empty [] h = refl
    empty (x ∷ t) h = cc
