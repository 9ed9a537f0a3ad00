-- ===== src/Bot/Session.antt =====
-- The whole run of bot/main.cpp, over what recv() returns.
use internet_relay_chat_msn.Parser.{starts_with_colon}
use internet_relay_chat_msn.Bot.Lines.{
  IsOrderly, AreCommands, append-IsOneLine, take-IsOneLine, answer_command-IsOrderly,
  drop-IsOneLine, chomp-IsOneLine, before_newline-IsOneLine, send_command-IsOrderly,
  report_users-IsOrderly, report_channels-IsOrderly,
}
use internet_relay_chat_msn.Dispatch.{after_newline, chomp, before_newline}
use internet_relay_chat_msn.Base.{
  List, contains, on_found, ◌≡◌, ℕ, ◌∷◌, suc, false, Option-cases, Bool, refl, [], nat_key,
  Bool-cases, ◌++◌, inl, if◌then◌else◌, inr, drop, not, ◌&&◌, ◌+◌, ◌-◌, is_empty, ◌||◌, arith, ◌==◌,
  true, zero, bytes_key,
}
use internet_relay_chat_msn.Text.{Text, bytes}
use internet_relay_chat_msn.Bot.{
  answer_user, get_message_target, get_nick, handle_line, handle_message, read_lines, run_bot,
  started_bot, receive, Bot, position, answer_command, report_users, report_channels, starts_with,
  occurs_in,
}

get_nick-IsOneLine :
    (message : Text) → contains message 10 ≡ false → contains (get_nick message) 10 ≡ false
unfolding get_nick on_found
get_nick-IsOneLine message one = elim (Bool-cases (starts_with_colon message)) [
  | inr unnamed ↦ rw unnamed nothing
  | inl named ↦ elim (Option-cases (position (bytes "!") message)) [
    | inl absent ↦ rw (named, absent) nothing
    | inr (end, there) ↦
        rw (named, there) (take-IsOneLine (end - 1) _ (drop-IsOneLine 1 message one))
  ]
]
  where
    nothing : contains {A = ℕ} [] 10 ≡ false
    nothing = unfold contains in refl

get_message_target-IsOneLine :
    (message : Text)
    → contains message 10 ≡ false
    → contains (get_message_target message) 10 ≡ false
unfolding get_message_target on_found
get_message_target-IsOneLine message one =
    elim (Option-cases (position (bytes " PRIVMSG ") message)) [
      | inl absent ↦ rw absent nothing
      | inr (pos, there) ↦ elim (Option-cases (position (bytes " ") (drop (pos + 9) message))) [
        | inl absent ↦ rw (there, absent) nothing
        | inr (end, at) ↦
            rw (there, at) (take-IsOneLine end _ (drop-IsOneLine (pos + 9) message one))
      ]
    ]
  where
    nothing : contains {A = ℕ} [] 10 ≡ false
    nothing = unfold contains in refl

answer_user-IsOrderly :
    (message : Text) (b : Bot)
    → contains message 10 ≡ false
    → IsOrderly b
    → IsOrderly (answer_user (get_nick message) message b)
unfolding answer_user
answer_user-IsOrderly message b one v =
    by_tests (is_empty (get_nick message) || get_nick message == bytes "ircbot")
      (is_empty (get_message_target message))
  where
    nick : contains (get_nick message) 10 ≡ false
    nick = get_nick-IsOneLine message one

    target : contains (get_message_target message) 10 ≡ false
    target = get_message_target-IsOneLine message one

    by_tests :
        (ignored untargeted : Bool)
        → IsOrderly (
            if ignored
            then b
            else if untargeted
            then answer_command (get_nick message) b.response_target message b
            else answer_command
                (get_nick message)
                (get_message_target message)
                message
                (record b { response_target = get_message_target message }))
    by_tests true untargeted = v
    by_tests false true = answer_command-IsOrderly _ b.response_target message b nick v.target v
    by_tests false false =
        answer_command-IsOrderly _ _ message _ nick target
          (record { target = target; commands = v.commands })

handle_message-IsOrderly :
    (message : Text) (b : Bot)
    → contains message 10 ≡ false
    → IsOrderly b
    → IsOrderly (handle_message message b)
unfolding handle_message
handle_message-IsOrderly message b one v =
    by_tests (occurs_in (bytes "PRIVMSG ") message) (occurs_in (bytes " 900 ") message)
      (occurs_in (bytes " 901 ") message)
  where
    by_tests :
        (private users channels : Bool)
        → IsOrderly (
            if not private && not users && not channels
            then b
            else if users
            then report_users message b
            else if channels
            then report_channels message b
            else answer_user (get_nick message) message b)
    by_tests private true channels = ground (arith, report_users-IsOrderly message b one v)
    by_tests private false true = ground (arith, report_channels-IsOrderly message b one v)
    by_tests true false false = answer_user-IsOrderly message b one v
    by_tests false false false = v

handle_line-IsOrderly :
    (line : Text) (b : Bot)
    → contains line 10 ≡ false
    → IsOrderly b
    → IsOrderly (handle_line line b)
unfolding handle_line
handle_line-IsOrderly line b one v = elim (Bool-cases (starts_with (bytes "PING ") line)) [
  | inr other ↦ rw other (handle_message-IsOrderly line b one v)
  | inl ping ↦ rw ping (send_command-IsOrderly _ b (bytes "PONG " ++ drop 5 line, pong, pong_one) v)
]
  where
    pong :
        bytes "PONG " ++ (drop 5 line ++ bytes "\r\n")
        ≡ (bytes "PONG " ++ drop 5 line) ++ bytes "\r\n"
    pong = unfold bytes in refl

    pong_one : contains (bytes "PONG " ++ drop 5 line) 10 ≡ false
    pong_one =
        append-IsOneLine (bytes "PONG ") _ (unfold bytes in unfold contains in refl)
          (drop-IsOneLine 5 line one)

read_lines-IsOrderly : (fuel : ℕ) (b : Bot) → IsOrderly b → IsOrderly (read_lines fuel b)
unfolding read_lines on_found
read_lines-IsOrderly zero b v = v
read_lines-IsOrderly (suc fuel) b v = elim (Option-cases (after_newline b.input)) [
  | inl last ↦ rw last v
  | inr (rest, more) ↦ rw more (
      read_lines-IsOrderly fuel _ (
        handle_line-IsOrderly (chomp (before_newline b.input)) (record b { input = rest })
          (chomp-IsOneLine _ (before_newline-IsOneLine b.input))
          (record { target = v.target; commands = v.commands })))
]

run_bot-IsOrderly : (texts : List Text) (b : Bot) → IsOrderly b → IsOrderly (run_bot texts b)
unfolding run_bot receive
run_bot-IsOrderly [] b v = v
run_bot-IsOrderly (text ∷ texts) b v =
    run_bot-IsOrderly texts (receive text b)
      (read_lines-IsOrderly _ _ (record { target = v.target; commands = v.commands }))

started_bot-IsOrderly :
    (password : Text) → contains password 10 ≡ false → IsOrderly (started_bot password)
unfolding started_bot
started_bot-IsOrderly password one =
    unfold bytes in
    unfold contains in
    record {
      target = refl;
      commands = (
        (bytes "PASS " ++ password, refl, one),
        (
          (bytes "NICK ircbot", refl, refl),
          ((bytes "USER bot 0 * :IRC Bot", refl, refl), ((bytes "JOIN #bot", refl, refl), tt)),
        ),
      );
    }

-- Whatever recv() returns, and however it is cut into pieces, everything that the bot sends is one whole
-- command: a text without newlines, and its end. The password is a text without newlines.
pub run_bot-AreCommands :
    (password : Text) (texts : List Text)
    → contains password 10 ≡ false
    → AreCommands (run_bot texts (started_bot password)).sent
run_bot-AreCommands password texts one =
    (run_bot-IsOrderly texts (started_bot password) (started_bot-IsOrderly password one)).commands
