-- ===== src/Bot/Reading.antt =====
-- The loop of `main` in bot/main.cpp over the lines of what recv() returned.
use internet_relay_chat_msn.Bot.Search.{after_newline-message, before_newline-message, chomp-append}
use internet_relay_chat_msn.Extraction.{after_newline-empty, length-after_newline}
use internet_relay_chat_msn.Base.{
  on_found, ◌≡◌, arith, contains, ℕ, Option-cases, none, [], ◌≤◌, length, false, ◌++◌, suc,
  length-append, inl, zero, nat_key, inr, refl,
}
use internet_relay_chat_msn.Text.{Text, bytes}
use internet_relay_chat_msn.Dispatch.{after_newline, chomp, before_newline}
use internet_relay_chat_msn.Bot.{
  Bot, answer_command, answer_user, handle_line, handle_message, read_lines, receive,
  report_channels, report_users, send_command, position, get_message_target, get_nick,
}

-- Answering a line reads nothing.
abbrev LeavesInput : (Bot → Bot) → Type 0
LeavesInput f = (b : Bot) → (f b).input ≡ b.input

report_users-input : (message : Text) → LeavesInput (report_users message)
unfolding report_users on_found send_command
report_users-input message b = elim (Option-cases (position (bytes " :Users: ") message)) [
  | inl absent ↦ rw absent refl
  | inr (pos, there) ↦ rw there refl
]

report_channels-input : (message : Text) → LeavesInput (report_channels message)
unfolding report_channels on_found send_command
report_channels-input message b = elim (Option-cases (position (bytes " :Channels: ") message)) [
  | inl absent ↦ rw absent refl
  | inr (pos, there) ↦ rw there refl
]

answer_command-input :
    (nick target message : Text) → LeavesInput (answer_command nick target message)
unfolding answer_command send_command
answer_command-input nick target message b = ground arith

answer_user-input : (nick message : Text) → LeavesInput (answer_user nick message)
unfolding answer_user
answer_user-input nick message b = ground (
  arith,
  answer_command-input nick b.response_target message b,
  answer_command-input nick (get_message_target message) message
      (record b { response_target = get_message_target message }),
)

handle_message-input : (message : Text) → LeavesInput (handle_message message)
unfolding handle_message
handle_message-input message b = ground (
  arith,
  report_users-input message b,
  report_channels-input message b,
  answer_user-input (get_nick message) message b,
)

pub handle_line-input : (line : Text) → LeavesInput (handle_line line)
unfolding handle_line send_command
handle_line-input line b = ground (arith, handle_message-input line b)

read_lines-done :
    (fuel : ℕ) (b : Bot) → length b.input ≤ fuel → after_newline (read_lines fuel b).input ≡ none
unfolding read_lines on_found
read_lines-done zero b enough = after_newline-empty b.input enough
read_lines-done (suc fuel) b enough = elim (Option-cases (after_newline b.input)) [
  | inl last ↦ rw last last
  | inr (rest, more) ↦ rw more (
      read_lines-done fuel _ (
        rw (handle_line-input (chomp (before_newline b.input)) (record b { input = rest }))
          (omega (arith, length-after_newline b.input rest more, enough))))
]

-- Whatever recv() returns, no newline is left in the input of the bot.
pub receive-done : (text : Text) (b : Bot) → after_newline (receive text b).input ≡ none
unfolding receive
receive-done text b = read_lines-done _ _ (omega arith)

read_lines-idle : (fuel : ℕ) (b : Bot) → b.input ≡ [] → read_lines fuel b ≡ b
unfolding read_lines after_newline on_found
read_lines-idle zero b idle = refl
read_lines-idle (suc fuel) b idle = rw idle refl

read_lines-once :
    (fuel : ℕ) (line : Text) (b : Bot)
    → 1 ≤ fuel
    → contains line 10 ≡ false
    → b.input ≡ line ++ bytes "\r\n"
    → read_lines fuel b ≡ handle_line line (record b { input = [] })
unfolding read_lines on_found
read_lines-once zero line b some_fuel one e = absurd (omega (arith, some_fuel))
read_lines-once (suc fuel) line b some_fuel one e =
    rw (e, after_newline-message line one, before_newline-message line one, chomp-append line)
      (read_lines-idle fuel _ (handle_line-input line (record b { input = [] })))

-- A message that ends as the server's do, read where no part of a line is waiting, is one line.
pub receive-line :
    (line : Text) (b : Bot)
    → contains line 10 ≡ false
    → b.input ≡ []
    → receive (line ++ bytes "\r\n") b ≡ handle_line line (record b { input = [] })
unfolding receive
receive-line line b one idle =
    read_lines-once _ line (record b { input = b.input ++ (line ++ bytes "\r\n") })
      (ground (
        arith,
        length-append b.input (line ++ bytes "\r\n"),
        length-append line (bytes "\r\n"),
        crlf,
      ))
      one (rw idle refl)
  where
    crlf : length (bytes "\r\n") ≡ 2
    crlf = unfold bytes in refl
