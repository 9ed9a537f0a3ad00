-- ===== src/Bot.antt =====
-- bot/main.cpp: the bot, which reads the lines that the server sends it and answers the commands of
-- other users. What recv() returned is an argument, and what is given to send() is kept, oldest first.
use internet_relay_chat_msn.Parser.{starts_with_colon}
use internet_relay_chat_msn.Dispatch.{after_newline, chomp, before_newline}
use internet_relay_chat_msn.Map.Keys.{is_some}
use internet_relay_chat_msn.Text.{Text, bytes}
use internet_relay_chat_msn.Base.{
  List, ℕ, ◌∷◌, Option, on_found, Bool, suc, if◌then◌else◌, ◌++◌, true, is_empty, [], length, not,
  drop, some, none, ◌+◌, ◌||◌, false, ◌&&◌, take, ◌==◌, ◌-◌, zero, bytes_key, nat_key,
}
pub mod Search
pub mod Reading
pub mod Chunks
pub mod Lines
pub mod Session
pub mod Heard
pub mod Reports
pub mod Replies
pub mod Answers
pub mod Users

-- `std::string::find` of a text: where it first occurs.
unfoldable pub starts_with : Text → Text → Bool
starts_with [] text = true
starts_with (c ∷ sub) [] = false
starts_with (c ∷ sub) (d ∷ text) = c == d && starts_with sub text

unfoldable pub position : Text → Text → Option ℕ
position sub [] = if is_empty sub then some 0 else none
position sub (c ∷ text) =
    if starts_with sub (c ∷ text)
    then some 0
    else elim (position sub text) [ none ↦ none | some n ↦ some (suc n) ]

unfoldable pub occurs_in : Text → Text → Bool
occurs_in sub text = is_some (position sub text)

-- The static variable of `handleMessage`, the input that is not read yet, and what has been sent.
pub record Bot : Type 0 where
  pub response_target : Text
  pub input : Text
  pub sent : List Text

unfoldable pub send_command : Text → Bot → Bot
send_command command b = record b { sent = b.sent ++ command ∷ [] }

unfoldable pub get_nick : Text → Text
get_nick message =
    if not (starts_with_colon message)
    then []
    else on_found (position (bytes "!") message) [] (λ end. take (end - 1) (drop 1 message))

unfoldable pub get_message_target : Text → Text
get_message_target message = on_found (position (bytes " PRIVMSG ") message) [] λ pos.
    let after = drop (pos + 9) message in
    on_found (position (bytes " ") after) [] (λ end. take end after)

unfoldable pub reply : Text → Text → Text
reply target text = bytes "PRIVMSG " ++ (target ++ (bytes " :" ++ (text ++ bytes "\r\n")))

-- A numeric reply to the bot's own query, with what follows its label.
unfoldable pub report_users : Text → Bot → Bot
report_users message b = on_found (position (bytes " :Users: ") message) b λ pos.
    send_command
      (reply b.response_target (bytes "Utilisateurs connectes: " ++ drop (pos + 9) message)) b

unfoldable pub report_channels : Text → Bot → Bot
report_channels message b = on_found (position (bytes " :Channels: ") message) b λ pos.
    send_command (reply b.response_target (bytes "Channels actifs:" ++ drop (pos + 11) message)) b

unfoldable pub answer_command : Text → Text → Text → Bot → Bot
answer_command nick target message b =
    if occurs_in (bytes ":!help") message
    then send_command (reply target (bytes "Commandes: !help !ping !hello !users !channels !send"))
        b
    else if occurs_in (bytes ":!ping") message
    then send_command (reply target (bytes "PONG !")) b
    else if occurs_in (bytes ":!hello") message
    then send_command (reply target (bytes "Bonjour " ++ (nick ++ bytes " !"))) b
    else if occurs_in (bytes ":!users") message
    then send_command (bytes "BOTUSERS\r\n") b
    else if occurs_in (bytes ":!channels") message
    then send_command (bytes "BOTCHANNELS\r\n") b
    else b

-- The commands of users: the answer goes where the message came, and that is where the next reports go.
unfoldable pub answer_user : Text → Text → Bot → Bot
answer_user nick message b =
    let target = get_message_target message in
    if is_empty nick || nick == bytes "ircbot"
    then b
    else if is_empty target
    then answer_command nick b.response_target message b
    else answer_command nick target message (record b { response_target = target })

unfoldable pub handle_message : Text → Bot → Bot
handle_message message b =
    if not (occurs_in (bytes "PRIVMSG ") message)
      && not (occurs_in (bytes " 900 ") message)
      && not (occurs_in (bytes " 901 ") message)
    then b
    else if occurs_in (bytes " 900 ") message
    then report_users message b
    else if occurs_in (bytes " 901 ") message
    then report_channels message b
    else answer_user (get_nick message) message b

-- The body of `main`'s loop over the lines.
unfoldable pub handle_line : Text → Bot → Bot
handle_line line b =
    if starts_with (bytes "PING ") line
    then send_command (bytes "PONG " ++ (drop 5 line ++ bytes "\r\n")) b
    else handle_message line b

unfoldable pub read_lines : ℕ → Bot → Bot
read_lines zero b = b
read_lines (suc fuel) b = on_found (after_newline b.input) b λ rest.
    read_lines fuel (handle_line (chomp (before_newline b.input)) (record b { input = rest }))

-- Each line takes its newline, so that the length of the input is fuel enough.
unfoldable pub receive : Text → Bot → Bot
receive text b =
    let input = b.input ++ text in read_lines (length input) (record b { input = input })

-- The commands with which the bot registers.
unfoldable pub started_bot : Text → Bot
started_bot password = record {
  response_target = bytes "#bot";
  input = [];
  sent =
      (bytes "PASS " ++ (password ++ bytes "\r\n"))
      ∷ bytes "NICK ircbot\r\n"
      ∷ bytes "USER bot 0 * :IRC Bot\r\n"
      ∷ bytes "JOIN #bot\r\n"
      ∷ [];
}

-- The loop of `main`, over what recv() returns until it fails or the connection is closed.
unfoldable pub run_bot : List Text → Bot → Bot
run_bot [] b = b
run_bot (text ∷ texts) b = run_bot texts (receive text b)
