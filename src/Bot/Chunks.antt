-- ===== src/Bot/Chunks.antt =====
-- The input of bot/main.cpp as it is cut by recv().
use internet_relay_chat_msn.Bot.Reading.{handle_line-input}
use mathlib.Core.List.{append_assoc}
use internet_relay_chat_msn.Base.{some}
use internet_relay_chat_msn.Extraction.{after_newline-empty, length-after_newline}
use mathlib.Core.Option.{some-injective}
use Prim.Native.Nat.{zero, suc}
use internet_relay_chat_msn.Base.{
  on_found, ◌≡◌, ℕ, arith, Option-cases, length, some, ◌++◌, ◌≤◌, inl, ◌∷◌, [], inr, Bool-cases,
  ◌==◌, refl, ap, nat_key, ◌∙◌, sym, length-append,
}
use internet_relay_chat_msn.Text.{Text, bytes}
use internet_relay_chat_msn.Dispatch.{after_newline, before_newline, chomp}
use internet_relay_chat_msn.Bot.{
  Bot, answer_command, answer_user, handle_line, handle_message, read_lines, report_channels,
  report_users, send_command, position, get_message_target, get_nick, receive,
}

-- Answering a line reads nothing of the input.
abbrev pub IgnoresInput : (Bot → Bot) → Type 0
IgnoresInput f = (t : Text) (b : Bot) → f (record b { input = t }) ≡ record (f b) { input = t }

report_users-IgnoresInput : (message : Text) → IgnoresInput (report_users message)
unfolding report_users on_found send_command
report_users-IgnoresInput message t b = elim (Option-cases (position (bytes " :Users: ") message)) [
  | inl absent ↦ rw absent refl
  | inr (pos, there) ↦ rw there refl
]

report_channels-IgnoresInput : (message : Text) → IgnoresInput (report_channels message)
unfolding report_channels on_found send_command
report_channels-IgnoresInput message t b =
    elim (Option-cases (position (bytes " :Channels: ") message)) [
      | inl absent ↦ rw absent refl
      | inr (pos, there) ↦ rw there refl
    ]

answer_command-IgnoresInput :
    (nick target message : Text) → IgnoresInput (answer_command nick target message)
unfolding answer_command send_command
answer_command-IgnoresInput nick target message t b = ground arith

answer_user-IgnoresInput : (nick message : Text) → IgnoresInput (answer_user nick message)
unfolding answer_user
answer_user-IgnoresInput nick message t b = ground (
  arith,
  answer_command-IgnoresInput nick b.response_target message t b,
  answer_command-IgnoresInput nick (get_message_target message) message t
      (record b { response_target = get_message_target message }),
)

handle_message-IgnoresInput : (message : Text) → IgnoresInput (handle_message message)
unfolding handle_message
handle_message-IgnoresInput message t b = ground (
  arith,
  report_users-IgnoresInput message t b,
  report_channels-IgnoresInput message t b,
  answer_user-IgnoresInput (get_nick message) message t b,
)

pub handle_line-IgnoresInput : (line : Text) → IgnoresInput (handle_line line)
unfolding handle_line send_command
handle_line-IgnoresInput line t b = ground (arith, handle_message-IgnoresInput line t b)

-- More input does not change the first line of it.
before_newline-append :
    (x y rest : Text) → after_newline x ≡ some rest → before_newline (x ++ y) ≡ before_newline x
unfolding after_newline before_newline
before_newline-append [] y rest h = cc
before_newline-append (c ∷ x) y rest h = ground (arith, before_newline-append x y rest)

after_newline-append :
    (x y rest : Text) → after_newline x ≡ some rest → after_newline (x ++ y) ≡ some (rest ++ y)
unfolding after_newline
after_newline-append [] y rest h = cc
after_newline-append (c ∷ x) y rest h = elim (Bool-cases (c == 10)) [
  | inl ends ↦ rw ends (ap (λ r. some (r ++ y)) (some-injective x rest (rw ends at h)))
  | inr more ↦ rw more (after_newline-append x y rest (rw more at h))
]

-- Any fuel that is enough gives the same.
pub read_lines-enough :
    (n m : ℕ) (b : Bot) → length b.input ≤ n → length b.input ≤ m → read_lines n b ≡ read_lines m b
unfolding read_lines on_found
read_lines-enough zero zero b h g = refl
read_lines-enough zero (suc m) b h g = rw (after_newline-empty b.input h) refl
read_lines-enough (suc n) zero b h g = rw (after_newline-empty b.input g) refl
read_lines-enough (suc n) (suc m) b h g = elim (Option-cases (after_newline b.input)) [
  | inl last ↦ rw last refl
  | inr (rest, more) ↦
      rw more (read_lines-enough n m (next rest) (shorter n rest more h) (shorter m rest more g))
]
  where
    next : Text → Bot
    next rest = handle_line (chomp (before_newline b.input)) (record b { input = rest })

    shorter :
        (k : ℕ) (rest : Text)
        → after_newline b.input ≡ some rest
        → length b.input ≤ suc k
        → length (next rest).input ≤ k
    shorter k rest more e =
        rw (handle_line-input (chomp (before_newline b.input)) (record b { input = rest }))
          (omega (arith, length-after_newline b.input rest more, e))

-- More of the input has come.
unfoldable extend : Text → Bot → Bot
extend y b = record b { input = b.input ++ y }

handle_line-extend :
    (line t y : Text) (b : Bot)
    → handle_line line (record b { input = t ++ y })
      ≡ extend y (handle_line line (record b { input = t }))
unfolding extend
handle_line-extend line t y b =
    handle_line-IgnoresInput line (t ++ y) b
    ∙ sym (ap (extend y) (handle_line-IgnoresInput line t b))

-- What is read later waits behind what is read now.
read_lines-extend :
    (n m k : ℕ) (y : Text) (b : Bot)
    → length b.input ≤ n
    → length (extend y b).input ≤ m
    → length (extend y (read_lines n b)).input ≤ k
    → read_lines m (extend y b) ≡ read_lines k (extend y (read_lines n b))
unfolding read_lines on_found extend
read_lines-extend zero m k y b h g e = read_lines-enough m k (extend y b) g e
read_lines-extend (suc n) zero k y b h g e =
    let last = after_newline-empty b.input (omega (arith, g, length-append b.input y)) in
    rw last (read_lines-enough zero k (extend y b) g (rw last at e))
read_lines-extend (suc n) (suc m) k y b h g e = elim (Option-cases (after_newline b.input)) [
  | inl last ↦ rw last (read_lines-enough (suc m) k (extend y b) g (rw last at e))
  | inr (rest, more) ↦
      rw (more, after_newline-append b.input y rest more, before_newline-append b.input y rest more)
        (ap (read_lines m) (handle_line-extend line rest y b)
          ∙ read_lines-extend n m k y (next rest)
              (omega (arith, h, taken rest, length-after_newline b.input rest more))
              (omega (
                arith,
                g,
                taken rest,
                length-append (next rest).input y,
                length-append b.input y,
                length-after_newline b.input rest more,
              ))
              (rw more at e))
]
  where
    line : Text
    line = chomp (before_newline b.input)

    next : Text → Bot
    next rest = handle_line line (record b { input = rest })

    taken : (rest : Text) → length (next rest).input ≡ length rest
    taken rest = ap length (handle_line-input line (record b { input = rest }))

-- However recv() cuts what the server sends, the bot does the same.
pub receive-append : (x y : Text) (b : Bot) → receive (x ++ y) b ≡ receive y (receive x b)
unfolding receive extend
receive-append x y b = rw (← append_assoc b.input x y) (
    read_lines-extend (length (b.input ++ x)) _ _ y (record b { input = b.input ++ x })
      (omega arith) (omega arith) (omega arith))
