-- ===== src/Bot/Replies.antt =====
-- bot/main.cpp: what the bot makes of the lines of src/Server.cpp, and the server of the bot's.
use internet_relay_chat_msn.Effects.Accounts.{is_valid_nickname-nonempty}
use internet_relay_chat_msn.Bot.Reading.{receive-line}
use internet_relay_chat_msn.Bot.Search.{
  is_valid_nickname-lacks, position-behind, take-append, contains-append, drop_behind,
  occurs_in-tail,
}
use mathlib.Core.List.{append_assoc}
use internet_relay_chat_msn.Registration.Nickname.{is_valid_nickname, is_special}
use internet_relay_chat_msn.Base.{
  on_found, ◌++◌, false, ◌≡◌, true, contains, ◌∷◌, [], nat_key, refl, ◌-◌, suc, arith, length, ◌+◌,
  some, ◌==◌, is_empty, bytes_key,
}
use internet_relay_chat_msn.Server.{user_line}
use internet_relay_chat_msn.Bot.{
  get_message_target, get_nick, Bot, occurs_in, receive, handle_message, handle_line, starts_with,
  position, answer_user, answer_command,
}
use internet_relay_chat_msn.Messages.{message_line, command_name}
use internet_relay_chat_msn.Text.{Text, bytes, space, is_alnum}

-- A private message as the bot reads it, the end of the line taken off.
unfoldable pub private_line : Text → Text → Text → Text
private_line nick target text =
    bytes ":" ++ (nick ++ (bytes "!user@localhost PRIVMSG " ++ (target ++ (bytes " :" ++ text))))

message_line-ends :
    (nick target text : Text)
    → message_line false nick target text ≡ private_line nick target text ++ bytes "\r\n"
unfolding message_line private_line user_line command_name bytes
message_line-ends nick target text = simp append_assoc

get_nick-private_line :
    (nick target text : Text)
    → is_valid_nickname nick ≡ true
    → get_nick (private_line nick target text) ≡ nick
unfolding get_nick private_line bytes on_found
get_nick-private_line nick target text valid =
    rw
      (
        position-behind b'!' [] (b':' ∷ nick)
            (bytes "user@localhost PRIVMSG " ++ (target ++ (bytes " :" ++ text))) lacks,
        one_less,
      )
      (take-append nick _)
  where
    one_less : suc (length nick) - 1 ≡ length nick
    one_less = omega arith

    lacks : contains (b':' ∷ nick) b'!' ≡ false
    lacks =
        unfold contains in
        is_valid_nickname-lacks b'!' nick (unfold is_alnum in unfold is_special in refl) valid

-- What stands before the command, and what follows it.
sender : Text → Text
sender nick = b':' ∷ (nick ++ bytes "!user@localhost")

private_line-split :
    (nick target text : Text)
    → private_line nick target text
      ≡ sender nick ++ (bytes " PRIVMSG " ++ (target ++ (bytes " :" ++ text)))
unfolding private_line sender bytes
private_line-split nick target text = simp append_assoc

position-private_line :
    (nick target text : Text)
    → is_valid_nickname nick ≡ true
    → position (bytes " PRIVMSG ") (private_line nick target text) ≡ some (length (sender nick))
unfolding bytes
position-private_line nick target text valid =
    rw private_line-split (
      position-behind space (bytes "PRIVMSG ") (sender nick) (target ++ (bytes " :" ++ text)) lacks)
  where
    lacks : contains (sender nick) space ≡ false
    lacks =
        unfold sender in
        unfold contains in
        ground (
          arith,
          contains-append nick (bytes "!user@localhost") space,
          is_valid_nickname-lacks space nick (unfold is_alnum in unfold is_special in refl) valid,
        )

get_message_target-private_line :
    (nick target text : Text)
    → is_valid_nickname nick ≡ true
    → contains target space ≡ false
    → get_message_target (private_line nick target text) ≡ target
unfolding get_message_target on_found bytes
get_message_target-private_line nick target text valid word =
    rw
      (
        position-private_line nick target text valid,
        private_line-split,
        drop_behind 9 (length (sender nick) + 9) (sender nick) (bytes " PRIVMSG " ++ after) refl,
        position-behind space [] target (b':' ∷ text) word,
      )
      (take-append target _)
  where
    after : Text
    after = target ++ (bytes " :" ++ text)

private_line-one_line :
    (nick target text : Text)
    → is_valid_nickname nick ≡ true
    → contains target 10 ≡ false
    → contains text 10 ≡ false
    → contains (private_line nick target text) 10 ≡ false
unfolding private_line bytes contains
private_line-one_line nick target text valid one one' = ground (
  arith,
  contains-append nick (bytes "!user@localhost PRIVMSG " ++ (target ++ (bytes " :" ++ text))) 10,
  contains-append target (bytes " :" ++ text) 10,
  is_valid_nickname-lacks 10 nick (unfold is_alnum in unfold is_special in refl) valid,
  one,
  one',
)

-- What a private message makes the bot do, once the bot is on the line of a user with a valid nickname,
-- other than its own, to a target that is a word.
module _ (nick target text : Text) (b : Bot) (valid : is_valid_nickname nick ≡ true)
    (word : contains target space ≡ false) (one : contains target 10 ≡ false)
    (one' : contains text 10 ≡ false) (idle : b.input ≡ []) where
  is_private : occurs_in (bytes "PRIVMSG ") (private_line nick target text) ≡ true
  unfolding bytes
  is_private = occurs_in-tail space (bytes "PRIVMSG ") (private_line nick target text) found
    where
      found : occurs_in (bytes " PRIVMSG ") (private_line nick target text) ≡ true
      found = unfold occurs_in in rw (position-private_line nick target text valid) refl

  receive-private_line :
      receive (message_line false nick target text) b
      ≡ handle_message (private_line nick target text) (record b { input = [] })
  receive-private_line =
      rw
        (
          message_line-ends nick target text,
          receive-line (private_line nick target text) b
              (private_line-one_line nick target text valid one one') idle,
        )
        not_ping
    where
      not_ping :
          handle_line (private_line nick target text) (record b { input = [] })
          ≡ handle_message (private_line nick target text) (record b { input = [] })
      not_ping =
          unfold handle_line in unfold private_line in unfold bytes in unfold starts_with in refl

  module _ (plain : occurs_in (bytes " 900 ") (private_line nick target text) ≡ false)
      (plain' : occurs_in (bytes " 901 ") (private_line nick target text) ≡ false) where
    handled :
        (c : Bot)
        → handle_message (private_line nick target text) c
          ≡ answer_user nick (private_line nick target text) c
    unfolding handle_message
    handled c = rw (is_private, plain, plain', get_nick-private_line nick target text valid) refl

    -- The message of another user gets to the commands, with its own target.
    pub receive-answers :
        (nick == bytes "ircbot") ≡ false
        → is_empty target ≡ false
        → receive (message_line false nick target text) b
          ≡ answer_command nick target
              (private_line nick target text)
              (record b { response_target = target; input = [] })
    unfolding answer_user
    receive-answers other some_target =
        rw
          (
            receive-private_line,
            handled,
            is_valid_nickname-nonempty nick valid,
            other,
            get_message_target-private_line nick target text valid word,
            some_target,
          )
          refl

    -- A private message of the server from the nickname ircbot, to a target that is a word, without
    -- newlines and without " 900 " or " 901 ", read by the bot when no part of a line is waiting, is
    -- not answered.
    pub receive-own :
        (nick == bytes "ircbot") ≡ true
        → receive (message_line false nick target text) b ≡ record b { input = [] }
    unfolding answer_user
    receive-own own =
        rw (receive-private_line, handled, own, is_valid_nickname-nonempty nick valid) refl
