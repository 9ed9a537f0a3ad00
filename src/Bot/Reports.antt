-- ===== src/Bot/Reports.antt =====
-- bot/main.cpp and the server: the bot's lines as src/Parser.cpp parses them, and the server's answer
-- to its query.
use internet_relay_chat_msn.Parser.RoundTrip.{IsPrintable}
use internet_relay_chat_msn.Bot.Reading.{receive-line}
use internet_relay_chat_msn.Bot.Reading.{receive-line}
use internet_relay_chat_msn.Bot.Search.{contains-append, before_newline-message, chomp-append}
use internet_relay_chat_msn.Server.{server_line}
use internet_relay_chat_msn.Dispatch.{chomp, before_newline}
use internet_relay_chat_msn.Parser.{parse, IrcCommand}
use internet_relay_chat_msn.Base.{
  contains, ◌≡◌, true, false, [], arith, ◌++◌, ◌∷◌, on_found, ◌∙◌, nat_key, refl, ap,
}
use internet_relay_chat_msn.Parser.Words.{IsMiddle, print, print_params, print_prefix}
use internet_relay_chat_msn.Parser.RoundTrip.{IsPrintable, parse-print}
use internet_relay_chat_msn.Bot.{
  handle_message, Bot, occurs_in, report_users, receive, reply, send_command, position, starts_with,
  handle_line,
}
use internet_relay_chat_msn.Text.{Text, bytes, to_upper}
use mathlib.Core.List.{append_assoc}

-- What the bot tells is a message of its own to the server: its line is parsed as PRIVMSG with the
-- target and the text, where the target is a word that no colon begins and the text has no newline.
pub parse-reply :
    (target text : Text)
    → IsMiddle target
    → contains target 10 ≡ false
    → contains text 10 ≡ false
    → parse (chomp (before_newline (reply target text)))
      ≡ record { prefix = []; command = bytes "PRIVMSG"; params = target ∷ text ∷ [] }
parse-reply target text middle one one' =
    rw (split, before_newline-message line line_one, chomp-append line)
      (ap parse printed ∙ parse-print command printable)
  where
    line : Text
    line = bytes "PRIVMSG " ++ (target ++ (bytes " :" ++ text))

    split : reply target text ≡ line ++ bytes "\r\n"
    split = unfold reply in unfold bytes in simp append_assoc

    line_one : contains line 10 ≡ false
    line_one =
        unfold bytes in
        unfold contains in ground (arith, contains-append target (bytes " :" ++ text) 10, one, one')

    command : IrcCommand
    command = record { prefix = []; command = bytes "PRIVMSG"; params = target ∷ text ∷ [] }

    printed : line ≡ print command
    printed = unfold bytes in unfold print in unfold print_params in unfold print_prefix in refl

    printable : IsPrintable command
    printable =
        unfold bytes in
        record {
          command = (unfold contains in refl, refl, refl);
          upper = unfold to_upper in refl;
          params = (middle, tt);
          prefix = unfold contains in refl;
        }

handle_message-numeric :
    (message : Text) (b : Bot)
    → occurs_in (bytes " 900 ") message ≡ true
    → handle_message message b ≡ report_users message b
unfolding handle_message
handle_message-numeric message b h = ground (arith, h)

-- A list of users goes to the bot's response target.
pub receive-users :
    (names : Text) (b : Bot)
    → contains names 10 ≡ false
    → b.input ≡ []
    → receive (server_line (bytes "900 " ++ (bytes "ircbot" ++ (bytes " :Users: " ++ names)))) b
      ≡ send_command
          (reply b.response_target (bytes "Utilisateurs connectes: " ++ names))
          (record b { input = [] })
receive-users names b one idle = rw (split, receive-line line b line_one idle) handled
  where
    line : Text
    line = bytes ":ircserv 900 ircbot :Users: " ++ names

    split :
        server_line (bytes "900 " ++ (bytes "ircbot" ++ (bytes " :Users: " ++ names)))
        ≡ line ++ bytes "\r\n"
    split = unfold server_line in unfold bytes in refl

    line_one : contains line 10 ≡ false
    line_one = unfold bytes in unfold contains in ground (arith, one)

    numeric : occurs_in (bytes " 900 ") line ≡ true
    numeric = unfold occurs_in in unfold position in unfold starts_with in unfold bytes in refl

    reported :
        report_users line (record b { input = [] })
        ≡ send_command
            (reply b.response_target (bytes "Utilisateurs connectes: " ++ names))
            (record b { input = [] })
    reported =
        unfold report_users in
        unfold position in unfold starts_with in unfold on_found in unfold bytes in refl

    handled :
        handle_line line (record b { input = [] })
        ≡ send_command
            (reply b.response_target (bytes "Utilisateurs connectes: " ++ names))
            (record b { input = [] })
    handled =
        unfold handle_line in
        unfold starts_with in
        unfold bytes in handle_message-numeric line (record b { input = [] }) numeric ∙ reported
