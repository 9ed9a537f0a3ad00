-- ===== src/Examples/Robot.antt =====
-- The bot, on the line of a user.
use internet_relay_chat_msn.Bot.Chunks.{receive-append}
use internet_relay_chat_msn.Messages.{message_line}
use internet_relay_chat_msn.Bot.Reports.{parse-reply}
use internet_relay_chat_msn.Bot.Users.{ReportsUsers, receive-handle_bot_users}
use internet_relay_chat_msn.Bot.Answers.{answer_to, receive-answer_to}
use internet_relay_chat_msn.Client.{Client, new_client}
use internet_relay_chat_msn.Server.{Server}
use internet_relay_chat_msn.Examples.{two_connections}
use internet_relay_chat_msn.Map.{find}
use internet_relay_chat_msn.Effects.Accounts.{AreHonest, IsHonest}
use mathlib.Core.Option.{some-injective}
use internet_relay_chat_msn.Bot.Session.{run_bot-AreCommands}
use internet_relay_chat_msn.Bot.Heard.{HearsLines, run_bot-HearsLines}
use internet_relay_chat_msn.Parser.{parse}
use internet_relay_chat_msn.Bot.Lines.{AreCommands}
use internet_relay_chat_msn.Registration.Nickname.{is_valid_nickname, all_nick_chars, is_special}
use internet_relay_chat_msn.Bot.Replies.{private_line, receive-own}
use internet_relay_chat_msn.Base.{
  [], contains, ◌∷◌, ◌++◌, ◌≡◌, refl, same_bytes, false, ℕ, some, true, ◌⊎◌, Bool-cases, ◌==◌, inl,
  ◌∙◌, sym, nat_beq_iff, inr, nat_key,
}
use internet_relay_chat_msn.Dispatch.{chomp, before_newline}
use internet_relay_chat_msn.Text.{Text, bytes, is_alpha, is_alnum, is_digit}
use internet_relay_chat_msn.Bot.{
  Bot, run_bot, occurs_in, receive, position, started_bot, starts_with, reply,
}

robot : Bot
robot = record { response_target = bytes "#bot"; input = []; sent = [] }

hello : Text
hello = bytes "!hello"

receive-answer_to_example :
    receive (message_line false (bytes "ann") (bytes "#talk") hello) robot ≡ record robot {
      response_target = bytes "#talk";
      input = [];
      sent = [] ++ answer_to (bytes "ann") (bytes "#talk") hello;
    }
unfolding bytes private_line hello is_valid_nickname all_nick_chars is_special is_alpha is_alnum
    is_digit contains position starts_with occurs_in robot same_bytes
receive-answer_to_example =
    receive-answer_to (bytes "ann") (bytes "#talk") hello robot refl refl refl refl refl refl refl
      refl refl refl refl

receive-own_example :
    receive (message_line false (bytes "ircbot") (bytes "#talk") hello) robot
    ≡ record robot { input = [] }
unfolding bytes private_line hello is_valid_nickname all_nick_chars is_special is_alpha is_alnum
    is_digit contains position starts_with occurs_in robot same_bytes
receive-own_example =
    receive-own (bytes "ircbot") (bytes "#talk") hello robot refl refl refl refl refl refl refl refl

-- The answer to !hello.
hello_answered :
    answer_to (bytes "ann") (bytes "#talk") hello ≡ bytes "PRIVMSG #talk :Bonjour ann !\r\n" ∷ []
unfolding answer_to starts_with hello bytes
hello_answered = refl

-- A text that is no command.
hi_unanswered : answer_to (bytes "ann") (bytes "#talk") (bytes "hi") ≡ []
unfolding answer_to starts_with bytes
hi_unanswered = refl

-- A server with the bot and a user.
abbrev robot_client : Client
robot_client = record (new_client (some 4)) {
  nickname = bytes "ircbot";
  username = bytes "bot";
  authenticated = true;
  sent_pass = true;
  registered = true;
}

abbrev ann_client : Client
ann_client = record robot_client { nickname = bytes "ann"; username = bytes "a" }

abbrev with_robot : Server
with_robot = record two_connections { clients = (4, robot_client) ∷ (5, ann_client) ∷ [] }

robot_client-IsHonest : IsHonest robot_client
unfolding new_client bytes is_valid_nickname all_nick_chars is_special is_alpha is_alnum is_digit
robot_client-IsHonest = record {
  password = refl;
  nickname = λ h. refl;
  passed = λ h. refl;
  named = λ h. refl;
  identified = λ h. refl;
}

ann_client-IsHonest : IsHonest ann_client
unfolding new_client bytes is_valid_nickname all_nick_chars is_special is_alpha is_alnum is_digit
ann_client-IsHonest = record {
  password = refl;
  nickname = λ h. refl;
  passed = λ h. refl;
  named = λ h. refl;
  identified = λ h. refl;
}

-- Whatever descriptor finds a client, it is one of the two.
with_robot-only :
    (fd : ℕ) (c : Client)
    → find fd with_robot.clients ≡ some c
    → ((fd ≡ 4) × (c ≡ robot_client)) ⊎ ((fd ≡ 5) × (c ≡ ann_client))
unfolding find
with_robot-only fd c h = elim (Bool-cases (4 == fd)) [
  | inl first ↦
      inl (sym ((nat_beq_iff 4 fd).0 first), sym (some-injective robot_client c (rw first at h)))
  | inr other ↦ elim (Bool-cases (5 == fd)) [
    | inl second ↦ inr (
      sym ((nat_beq_iff 5 fd).0 second),
      sym (some-injective ann_client c (rw (other, second) at h)),
    )
    | inr neither ↦ cc (rw (other, neither) at h)
  ]
]

apart : robot_client.nickname ≡ ann_client.nickname → ⊥
unfolding bytes
apart e = cc e

with_robot-AreHonest : AreHonest with_robot.clients
with_robot-AreHonest = record {
  each = λ fd c h. elim (with_robot-only fd c h) [
    | inl (at, same) ↦ rw same robot_client-IsHonest
    | inr (at, same) ↦ rw same ann_client-IsHonest
  ];
  unique = λ fd other c d f g e n.
      same_fd fd other c d (with_robot-only fd c f) (with_robot-only other d g) e;
}
  where
    same_fd :
        (fd other : ℕ) (c d : Client)
        → ((fd ≡ 4) × (c ≡ robot_client)) ⊎ ((fd ≡ 5) × (c ≡ ann_client))
        → ((other ≡ 4) × (d ≡ robot_client)) ⊎ ((other ≡ 5) × (d ≡ ann_client))
        → c.nickname ≡ d.nickname
        → fd ≡ other
    same_fd fd other c d (inl (p, q)) (inl (p', q')) e = p ∙ sym p'
    same_fd fd other c d (inr (p, q)) (inr (p', q')) e = p ∙ sym p'
    same_fd fd other c d (inl (p, q)) (inr (p', q')) e = absurd (apart (cc (q, q', e)))
    same_fd fd other c d (inr (p, q)) (inl (p', q')) e = absurd (apart (cc (q, q', e)))

receive-handle_bot_users_example : ReportsUsers 4 robot_client with_robot robot
unfolding contains find robot
receive-handle_bot_users_example =
    receive-handle_bot_users 4 robot_client with_robot robot with_robot-AreHonest (refl, (refl, tt))
      refl refl refl

parse-reply_example :
    parse (chomp (before_newline (reply (bytes "#talk") (bytes "PONG !")))) ≡ record {
      prefix = [];
      command = bytes "PRIVMSG";
      params = bytes "#talk" ∷ bytes "PONG !" ∷ [];
    }
unfolding bytes contains
parse-reply_example = parse-reply (bytes "#talk") (bytes "PONG !") (refl, refl, refl) refl refl

run_bot-AreCommands_example :
    AreCommands
      (run_bot
        (bytes "PING x\r\n:ann!user@localhost PRIV" ∷ bytes "MSG #bot :!ping\r\n" ∷ [])
        (started_bot (bytes "pw"))).sent
unfolding bytes contains
run_bot-AreCommands_example =
    run_bot-AreCommands (bytes "pw")
      (bytes "PING x\r\n:ann!user@localhost PRIV" ∷ bytes "MSG #bot :!ping\r\n" ∷ []) refl

run_bot-HearsLines_example :
    HearsLines
      (bytes "PING x\r\nNOTI" ∷ bytes "CE\nend" ∷ [])
      (started_bot (bytes "pw"))
      (run_bot (bytes "PING x\r\nNOTI" ∷ bytes "CE\nend" ∷ []) (started_bot (bytes "pw")))
run_bot-HearsLines_example =
    run_bot-HearsLines (bytes "pw") (bytes "PING x\r\nNOTI" ∷ bytes "CE\nend" ∷ [])

receive-append_example :
    receive (bytes "PI" ++ bytes "NG x\r\n") robot
    ≡ receive (bytes "NG x\r\n") (receive (bytes "PI") robot)
receive-append_example = receive-append (bytes "PI") (bytes "NG x\r\n") robot
