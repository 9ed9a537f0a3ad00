-- ===== src/Bot/Lines.antt =====
-- What bot/main.cpp gives to send(): whole lines of the protocol, one at a time.
use mathlib.Core.List.{append_assoc}
use internet_relay_chat_msn.Bot.Search.{contains-append}
use internet_relay_chat_msn.Text.{Text, bytes}
use internet_relay_chat_msn.Base.{
  List, contains, on_found, ◌≡◌, ◌∷◌, ℕ, ◌++◌, Bool, drop, false, take, [], if◌then◌else◌, arith,
  Option-cases, suc, ◌∙◌, refl, nat_key, zero, true, inl, inr, ◌+◌,
}
use internet_relay_chat_msn.Bot.{
  Bot, answer_command, reply, report_channels, report_users, send_command, occurs_in, position,
}
use internet_relay_chat_msn.Dispatch.{before_newline, chomp}

-- A text without newlines.
abbrev pub IsOneLine : Text → Type 0
IsOneLine text = contains text 10 ≡ false

-- A command as it is sent: one line, and its end.
abbrev pub IsCommand : Text → Type 0
IsCommand text = (line : Text) × (text ≡ line ++ bytes "\r\n") × (contains line 10 ≡ false)

abbrev pub AreCommands : List Text → Type 0
AreCommands [] = Unit
AreCommands (text ∷ texts) = IsCommand text × AreCommands texts

pub AreCommands-push_back :
    (texts : List Text) (text : Text)
    → AreCommands texts
    → IsCommand text
    → AreCommands (texts ++ text ∷ [])
AreCommands-push_back [] text v c = (c, tt)
AreCommands-push_back (first ∷ texts) text v c = (v.0, AreCommands-push_back texts text v.1 c)

pub drop-IsOneLine : (n : ℕ) (text : Text) → IsOneLine text → IsOneLine (drop n text)
unfolding contains
drop-IsOneLine zero text h = h
drop-IsOneLine (suc n) [] h = refl
drop-IsOneLine (suc n) (c ∷ text) h = drop-IsOneLine n text (ground (arith, h))

pub take-IsOneLine : (n : ℕ) (text : Text) → IsOneLine text → IsOneLine (take n text)
unfolding contains
take-IsOneLine zero text h = refl
take-IsOneLine (suc n) [] h = refl
take-IsOneLine (suc n) (c ∷ text) h = ground (arith, take-IsOneLine n text)

pub before_newline-IsOneLine : (text : Text) → IsOneLine (before_newline text)
unfolding before_newline contains
before_newline-IsOneLine [] = refl
before_newline-IsOneLine (c ∷ text) = ground (arith, before_newline-IsOneLine text)

pub chomp-IsOneLine : (text : Text) → IsOneLine text → IsOneLine (chomp text)
unfolding chomp contains
chomp-IsOneLine [] h = refl
chomp-IsOneLine (c ∷ []) h = ground arith
chomp-IsOneLine (c ∷ d ∷ text) h = ground (arith, chomp-IsOneLine (d ∷ text))

pub append-IsOneLine : (a b : Text) → IsOneLine a → IsOneLine b → IsOneLine (a ++ b)
append-IsOneLine a b h g = contains-append a b 10 ∙ rw (h, g) refl

-- What the bot has to say, and where.
pub record IsOrderly (b : Bot) : Type 0 where
  pub target : contains b.response_target 10 ≡ false
  pub commands : AreCommands b.sent

pub send_command-IsOrderly :
    (text : Text) (b : Bot) → IsCommand text → IsOrderly b → IsOrderly (send_command text b)
unfolding send_command
send_command-IsOrderly text b c v = record {
  target = v.target;
  commands = AreCommands-push_back b.sent text v.commands c;
}

reply-IsCommand :
    (target text : Text) → IsOneLine target → IsOneLine text → IsCommand (reply target text)
unfolding reply bytes contains
reply-IsCommand target text h g = (
  bytes "PRIVMSG " ++ (target ++ (bytes " :" ++ text)),
  simp append_assoc,
  ground (arith, contains-append target (bytes " :" ++ text) 10, h, g),
)

tell :
    (target text : Text) (b : Bot)
    → IsOneLine target
    → IsOneLine text
    → IsOrderly b
    → IsOrderly (send_command (reply target text) b)
tell target text b h g v =
    send_command-IsOrderly (reply target text) b (reply-IsCommand target text h g) v

pub report_users-IsOrderly :
    (message : Text) (b : Bot)
    → IsOneLine message
    → IsOrderly b
    → IsOrderly (report_users message b)
unfolding report_users on_found
report_users-IsOrderly message b one v =
    elim (Option-cases (position (bytes " :Users: ") message)) [
      | inl absent ↦ rw absent v
      | inr (pos, there) ↦ rw there (
          tell b.response_target _ b v.target
            (append-IsOneLine (bytes "Utilisateurs connectes: ") _
              (unfold bytes in unfold contains in refl) (drop-IsOneLine (pos + 9) message one))
            v)
    ]

pub report_channels-IsOrderly :
    (message : Text) (b : Bot)
    → IsOneLine message
    → IsOrderly b
    → IsOrderly (report_channels message b)
unfolding report_channels on_found
report_channels-IsOrderly message b one v =
    elim (Option-cases (position (bytes " :Channels: ") message)) [
      | inl absent ↦ rw absent v
      | inr (pos, there) ↦ rw there (
          tell b.response_target _ b v.target
            (append-IsOneLine (bytes "Channels actifs:") _ (unfold bytes in unfold contains in refl)
              (drop-IsOneLine (pos + 11) message one))
            v)
    ]

pub answer_command-IsOrderly :
    (nick target message : Text) (b : Bot)
    → IsOneLine nick
    → IsOneLine target
    → IsOrderly b
    → IsOrderly (answer_command nick target message b)
unfolding answer_command
answer_command-IsOrderly nick target message b one one' v =
    by_tests (occurs_in (bytes ":!help") message) (occurs_in (bytes ":!ping") message)
      (occurs_in (bytes ":!hello") message) (occurs_in (bytes ":!users") message)
      (occurs_in (bytes ":!channels") message)
  where
    by_tests :
        (help ping hello users channels : Bool)
        → IsOrderly (
            if help
            then send_command
                (reply target (bytes "Commandes: !help !ping !hello !users !channels !send"))
                b
            else if ping
            then send_command (reply target (bytes "PONG !")) b
            else if hello
            then send_command (reply target (bytes "Bonjour " ++ (nick ++ bytes " !"))) b
            else if users
            then send_command (bytes "BOTUSERS\r\n") b
            else if channels
            then send_command (bytes "BOTCHANNELS\r\n") b
            else b)
    by_tests true ping hello users channels =
        tell target _ b one' (unfold bytes in unfold contains in refl) v
    by_tests false true hello users channels =
        tell target _ b one' (unfold bytes in unfold contains in refl) v
    by_tests false false true users channels =
        tell target _ b one'
          (unfold bytes in
            unfold contains in ground (arith, contains-append nick (bytes " !") 10, one))
          v
    by_tests false false false true channels =
        send_command-IsOrderly _ b
          (bytes "BOTUSERS", unfold bytes in refl, unfold bytes in unfold contains in refl) v
    by_tests false false false false true =
        send_command-IsOrderly _ b
          (bytes "BOTCHANNELS", unfold bytes in refl, unfold bytes in unfold contains in refl) v
    by_tests false false false false false = v
