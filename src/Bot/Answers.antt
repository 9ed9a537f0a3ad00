-- ===== src/Bot/Answers.antt =====
-- What `handleMessage` of bot/main.cpp answers to a message of a user.
use internet_relay_chat_msn.Effects.Accounts.{is_valid_nickname-nonempty}
use internet_relay_chat_msn.Bot.Replies.{private_line, receive-answers}
use internet_relay_chat_msn.Bot.Search.{occurs_in-step, is_valid_nickname-lacks, contains-append}
use internet_relay_chat_msn.Registration.Nickname.{is_valid_nickname, is_special}
use internet_relay_chat_msn.Messages.{message_line}
use internet_relay_chat_msn.Bot.{
  Bot, receive, answer_command, send_command, reply, occurs_in, starts_with, position,
}
use internet_relay_chat_msn.Text.{Text, bytes, space, is_alnum}
use internet_relay_chat_msn.Base.{
  List, Bool, ◌≡◌, ◌∷◌, [], ◌++◌, true, false, contains, nat_key, nat_beq_iff, arith, refl,
  is_empty, ◌==◌, bytes_key, if◌then◌else◌, ◌||◌,
}
use mathlib.Core.List.{append_assoc, append-nil}

-- What the bot sends, byte for byte, where a user says the text to the target.
unfoldable pub answer_to : Text → Text → Text → List Text
answer_to nick target text =
    if starts_with (bytes "!help") text
    then (bytes "PRIVMSG "
        ++ (target ++ bytes " :Commandes: !help !ping !hello !users !channels !send\r\n"))
      ∷ []
    else if starts_with (bytes "!ping") text
    then (bytes "PRIVMSG " ++ (target ++ bytes " :PONG !\r\n")) ∷ []
    else if starts_with (bytes "!hello") text
    then (bytes "PRIVMSG " ++ (target ++ (bytes " :Bonjour " ++ (nick ++ bytes " !\r\n")))) ∷ []
    else if starts_with (bytes "!users") text
    then bytes "BOTUSERS\r\n" ∷ []
    else if starts_with (bytes "!channels") text
    then bytes "BOTCHANNELS\r\n" ∷ []
    else []

-- A text with a colon in front is not found before the first colon.
occurs_in-behind :
    (sub before after : Text)
    → contains before b':' ≡ false
    → occurs_in (b':' ∷ sub) (before ++ after) ≡ occurs_in (b':' ∷ sub) after
unfolding contains starts_with
occurs_in-behind sub [] after h = refl
occurs_in-behind sub (d ∷ before) after h = ground (
  arith,
  occurs_in-step (b':' ∷ sub) d (before ++ after),
  nat_beq_iff b':' d,
  nat_beq_iff d b':',
  occurs_in-behind sub before after,
  h,
)

starts_with-shorter :
    (sub text : Text)
    → starts_with (bytes ":!") text ≡ false
    → starts_with (b':' ∷ b'!' ∷ sub) text ≡ false
unfolding starts_with bytes
starts_with-shorter sub [] h = refl
starts_with-shorter sub (c ∷ []) h = h
starts_with-shorter sub (c ∷ d ∷ text) h = ground (arith, h)

occurs_in-shorter :
    (sub text : Text)
    → occurs_in (bytes ":!") text ≡ false
    → occurs_in (b':' ∷ b'!' ∷ sub) text ≡ false
occurs_in-shorter sub [] h = unfold occurs_in in unfold position in refl
occurs_in-shorter sub (d ∷ text) h = ground (
  arith,
  h,
  occurs_in-step (bytes ":!") d text,
  occurs_in-step (b':' ∷ b'!' ∷ sub) d text,
  starts_with-shorter sub (d ∷ text),
  occurs_in-shorter sub text,
)

-- What stands before the text of a message, without its first colon.
front : Text → Text → Text
front nick target = nick ++ (bytes "!user@localhost PRIVMSG " ++ (target ++ bytes " "))

private_line-front :
    (nick target text : Text)
    → private_line nick target text ≡ b':' ∷ (front nick target ++ (b':' ∷ text))
unfolding private_line front bytes
private_line-front nick target text = simp append_assoc

-- The colon in front of the text is the first that an exclamation mark follows.
at_start :
    (sub text tail : Text)
    → starts_with (b'!' ∷ sub) tail ≡ false
    → (starts_with (b':' ∷ b'!' ∷ sub) (b':' ∷ tail)
        || (starts_with (b':' ∷ b'!' ∷ sub) (b':' ∷ text) || false))
      ≡ starts_with (b'!' ∷ sub) text
unfolding starts_with
at_start sub text tail h = rw h (ground arith)

-- One command at most is answered.
first_of :
    (p q r u w : Bool) (x y z m n : Text) (b : Bot)
    → (if p
        then send_command x b
        else if q
        then send_command y b
        else if r
        then send_command z b
        else if u
        then send_command m b
        else if w
        then send_command n b
        else b)
      ≡ record b {
        sent =
            b.sent
            ++ (if p
                then x ∷ []
                else if q
                then y ∷ []
                else if r
                then z ∷ []
                else if u
                then m ∷ []
                else if w
                then n ∷ []
                else []);
      }
unfolding send_command
first_of true q r u w x y z m n b = refl
first_of false true r u w x y z m n b = refl
first_of false false true u w x y z m n b = refl
first_of false false false true w x y z m n b = refl
first_of false false false false true x y z m n b = refl
first_of false false false false false x y z m n b = rw append-nil refl

module _ (nick target text : Text) (valid : is_valid_nickname nick ≡ true)
    (word : contains target b':' ≡ false) (quiet : occurs_in (bytes ":!") text ≡ false) where
  front-lacks : contains (front nick target) b':' ≡ false
  unfolding front bytes contains
  front-lacks = ground (
    arith,
    contains-append nick (bytes "!user@localhost PRIVMSG " ++ (target ++ bytes " ")) b':',
    contains-append target (bytes " ") b':',
    is_valid_nickname-lacks b':' nick (unfold is_alnum in unfold is_special in refl) valid,
    word,
  )

  -- A nickname does not begin with an exclamation mark.
  starts_with-front :
      (sub after : Text) → starts_with (b'!' ∷ sub) (front nick target ++ after) ≡ false
  starts_with-front sub after =
      by_nick nick valid
        (is_valid_nickname-lacks b'!' nick (unfold is_alnum in unfold is_special in refl) valid)
    where
      by_nick :
          (x : Text)
          → is_valid_nickname x ≡ true
          → contains x b'!' ≡ false
          → starts_with (b'!' ∷ sub) (front x target ++ after) ≡ false
      by_nick [] v h = cc (is_valid_nickname-nonempty [] v)
      by_nick (d ∷ x) v h =
          unfold front in
          unfold starts_with in
          unfold contains in ground (arith, h, nat_beq_iff b'!' d, nat_beq_iff d b'!')

  -- The bot finds a command in the line where the text begins with it.
  occurs_in-private_line :
      (sub : Text)
      → occurs_in (b':' ∷ b'!' ∷ sub) (private_line nick target text)
        ≡ starts_with (b'!' ∷ sub) text
  occurs_in-private_line sub =
      rw
        (
          private_line-front nick target text,
          occurs_in-step (b':' ∷ b'!' ∷ sub) b':' (front nick target ++ (b':' ∷ text)),
          occurs_in-behind (b'!' ∷ sub) (front nick target) (b':' ∷ text) front-lacks,
          occurs_in-step (b':' ∷ b'!' ∷ sub) b':' text,
          occurs_in-shorter sub text quiet,
        )
        (at_start sub text (front nick target ++ (b':' ∷ text))
          (starts_with-front sub (b':' ∷ text)))

  answer_command-answer_to :
      (b : Bot)
      → answer_command nick target (private_line nick target text) b
        ≡ record b { sent = b.sent ++ answer_to nick target text }
  unfolding answer_command answer_to send_command reply bytes
  answer_command-answer_to b =
      rw
        (
          occurs_in-private_line (bytes "help"),
          occurs_in-private_line (bytes "ping"),
          occurs_in-private_line (bytes "hello"),
          occurs_in-private_line (bytes "users"),
          occurs_in-private_line (bytes "channels"),
          append_assoc nick (bytes " !") (bytes "\r\n"),
        )
        (first_of (starts_with (bytes "!help") text) (starts_with (bytes "!ping") text)
          (starts_with (bytes "!hello") text) (starts_with (bytes "!users") text)
          (starts_with (bytes "!channels") text)
          (bytes "PRIVMSG "
            ++ (target ++ bytes " :Commandes: !help !ping !hello !users !channels !send\r\n"))
          (bytes "PRIVMSG " ++ (target ++ bytes " :PONG !\r\n"))
          (bytes "PRIVMSG " ++ (target ++ (bytes " :Bonjour " ++ (nick ++ bytes " !\r\n"))))
          (bytes "BOTUSERS\r\n") (bytes "BOTCHANNELS\r\n") b)

-- A private message of the server, from a valid nickname other than ircbot, read by the bot when no part of a
-- line is waiting: the bot sends what `answer_to` says, one message to the target for a text that begins with
-- !help, !ping or !hello, one query to the server for !users or !channels, and nothing for any other text; and
-- the target is where its next reports go. The target is not empty and has no space, newline or colon; the text
-- has no newline and no ":!"; and the line has no " 900 " or " 901 ".
pub receive-answer_to :
    (nick target text : Text) (b : Bot)
    → is_valid_nickname nick ≡ true
    → (nick == bytes "ircbot") ≡ false
    → is_empty target ≡ false
    → contains target space ≡ false
    → contains target 10 ≡ false
    → contains target b':' ≡ false
    → contains text 10 ≡ false
    → occurs_in (bytes ":!") text ≡ false
    → occurs_in (bytes " 900 ") (private_line nick target text) ≡ false
    → occurs_in (bytes " 901 ") (private_line nick target text) ≡ false
    → b.input ≡ []
    → receive (message_line false nick target text) b ≡ record b {
      response_target = target;
      input = [];
      sent = b.sent ++ answer_to nick target text;
    }
receive-answer_to nick target text b valid other some_target word one colon one' quiet plain plain'
      idle =
    rw (receive-answers nick target text b valid word one one' idle plain plain' other some_target)
      (answer_command-answer_to nick target text valid colon quiet
        (record b { response_target = target; input = [] }))
