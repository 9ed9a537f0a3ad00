-- ===== src/Effects/Refinement.antt =====
-- `processCommand` of src/Server.cpp against the specification of its effects.
use internet_relay_chat_msn.Map.{find}
use internet_relay_chat_msn.Server.{Server}
use internet_relay_chat_msn.Parser.{IrcCommand, parse}
use internet_relay_chat_msn.Text.{Text}
use internet_relay_chat_msn.Base.{List, ℕ, ◌≢◌, false, nat_key, true, refl}
use internet_relay_chat_msn.Effects.{Action, other, Run, here}
use internet_relay_chat_msn.Effects.Membership.{ArePeopled, Run-ArePeopled}
use internet_relay_chat_msn.Effects.Accounts.{AreHonest}
use internet_relay_chat_msn.Effects.Honesty.{Run-AreHonest}
use internet_relay_chat_msn.Effects.Rules.{Run-on_found, Run-deliver}
use internet_relay_chat_msn.Effects.Joining.{handle_join-Run}
use internet_relay_chat_msn.Effects.Leaving.{handle_part-Run, handle_kick-Run}
use internet_relay_chat_msn.Effects.Speaking.{
  handle_topic-Run, handle_invite-Run, handle_privmsg-Run, handle_ping-Run, handle_who-Run,
  handle_whois-Run, handle_whowas-Run, handle_bot_users-Run, handle_bot_channels-Run,
}
use internet_relay_chat_msn.Effects.Modes.{handle_mode-Run}
use internet_relay_chat_msn.Effects.Registering.{
  pass_action, nick_action, user_action, handle_pass-Run, handle_cap-Run, handle_user-Run,
}
use internet_relay_chat_msn.Effects.Renaming.{handle_nick-Run}
use internet_relay_chat_msn.Dispatch.{
  Verb, pass, cap, nick, user, join, part, privmsg, notice, ping, quit, topic, mode, invite, kick,
  bot_users, bot_channels, who, whois, whowas, unknown, run_verb, run_command, process_command,
  verb_of,
}

unfoldable pub action_of : Verb → List Text → Action
action_of pass params = pass_action params
action_of nick params = nick_action params
action_of user params = user_action params
action_of _ params = other

pub run_verb-Run :
    (verb : Verb) (fd : ℕ) (command : IrcCommand) (s : Server)
    → verb ≢ quit
    → ArePeopled s
    → Run fd (action_of verb command.params) s (run_verb verb fd command s)
unfolding action_of run_verb
run_verb-Run pass fd command s h v = handle_pass-Run fd command.params s
run_verb-Run cap fd command s h v = handle_cap-Run other fd command.params s
run_verb-Run nick fd command s h v = handle_nick-Run fd command.params s
run_verb-Run user fd command s h v = handle_user-Run fd command.params s
run_verb-Run join fd command s h v = handle_join-Run fd other fd command.params s
run_verb-Run part fd command s h v = handle_part-Run other fd command.params s v
run_verb-Run privmsg fd command s h v = handle_privmsg-Run other false fd command.params s
run_verb-Run notice fd command s h v = handle_privmsg-Run other true fd command.params s
run_verb-Run ping fd command s h v = handle_ping-Run other fd command.params s
run_verb-Run quit fd command s h v = absurd (h refl)
run_verb-Run topic fd command s h v = handle_topic-Run other fd command.params s
run_verb-Run mode fd command s h v = handle_mode-Run other fd command.params s v
run_verb-Run invite fd command s h v = handle_invite-Run other fd command.params s
run_verb-Run kick fd command s h v = handle_kick-Run other fd command.params s v
run_verb-Run bot_users fd command s h v = handle_bot_users-Run other fd s
run_verb-Run bot_channels fd command s h v = handle_bot_channels-Run other fd s
run_verb-Run who fd command s h v = handle_who-Run other fd command.params s
run_verb-Run whois fd command s h v = handle_whois-Run other fd command.params s
run_verb-Run whowas fd command s h v = handle_whowas-Run other fd command.params s
run_verb-Run unknown fd command s h v = Run-deliver fd _ here

-- What a line asks of the registration.
unfoldable pub action_of_line : Text → Action
action_of_line line = action_of (verb_of (parse line).command) (parse line).params

-- Where every channel is sound and its members registered, a line of a client, other than QUIT,
-- changes the server by a run of effects, each of which the specification permits to that client.
pub process_command-Run :
    (fd : ℕ) (line : Text) (s : Server)
    → verb_of (parse line).command ≢ quit
    → ArePeopled s
    → Run fd (action_of_line line) s (process_command fd line s)
unfolding process_command run_command action_of_line
process_command-Run fd line s h v =
    Run-on_found (find fd s.clients) s _ here
      (λ c _. run_verb-Run (verb_of (parse line).command) fd (parse line) s h v)

-- A line of a client, other than QUIT, keeps every channel sound (no member, operator, halfop or
-- invitation twice, operators and halfops among the members, a limit that is set above 0) and every
-- member of a channel registered.
pub process_command-ArePeopled :
    (fd : ℕ) (line : Text) (s : Server)
    → verb_of (parse line).command ≢ quit
    → ArePeopled s
    → ArePeopled (process_command fd line s)
process_command-ArePeopled fd line s h v = Run-ArePeopled (process_command-Run fd line s h v) v

-- Where every channel is sound and its members registered, a line of a client, other than QUIT, keeps
-- the accounts honest: who is registered has passed the
-- password and has a nickname and a username, a nickname that is not empty is valid, and no two
-- clients share one.
pub process_command-AreHonest :
    (fd : ℕ) (line : Text) (s : Server)
    → verb_of (parse line).command ≢ quit
    → ArePeopled s
    → AreHonest s.clients
    → AreHonest (process_command fd line s).clients
process_command-AreHonest fd line s h v w = Run-AreHonest (process_command-Run fd line s h v) w
