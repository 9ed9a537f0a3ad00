-- ===== src/Rejections.antt =====
-- The commands of src/Server.cpp that are for registered clients, from one that is not.
use internet_relay_chat_msn.Map.{find}
use internet_relay_chat_msn.Dispatch.{
  Verb, pass, cap, nick, user, join, part, privmsg, notice, ping, quit, topic, mode, invite, kick,
  bot_users, bot_channels, who, whois, whowas, unknown,
}
use internet_relay_chat_msn.Queries.{handle_who, handle_whois, handle_whowas}
use internet_relay_chat_msn.Parser.{parse, IrcCommand}
use internet_relay_chat_msn.ChannelCommands.Kick.{handle_kick}
use internet_relay_chat_msn.ChannelCommands.Invite.{handle_invite}
use internet_relay_chat_msn.Server.{Server, send_reply, deliver, not_registered}
use internet_relay_chat_msn.Client.{Client}
use internet_relay_chat_msn.Mode.{handle_mode}
use internet_relay_chat_msn.Text.{Text}
use internet_relay_chat_msn.ChannelCommands.Topic.{handle_topic}
use internet_relay_chat_msn.Messages.{handle_privmsg, complain}
use internet_relay_chat_msn.ChannelCommands.Part.{handle_part}
use internet_relay_chat_msn.ChannelCommands.Join.{handle_join}
use internet_relay_chat_msn.Base.{Bool, true, on_found, false, ℕ, ◌≡◌, some, nat_key, refl}
use internet_relay_chat_msn.Dispatch.{
  Verb, process_command, run_verb, run_command, join, part, privmsg, verb_of, topic, mode, invite,
  kick, who, whois, whowas, pass, cap,
}

-- The verbs whose handlers test `isRegistered` first.
unfoldable pub needs_registration : Verb → Bool
needs_registration join = true
needs_registration part = true
needs_registration privmsg = true
needs_registration topic = true
needs_registration mode = true
needs_registration invite = true
needs_registration kick = true
needs_registration who = true
needs_registration whois = true
needs_registration whowas = true
needs_registration pass = false
needs_registration cap = false
needs_registration nick = false
needs_registration user = false
needs_registration notice = false
needs_registration ping = false
needs_registration quit = false
needs_registration bot_users = false
needs_registration bot_channels = false
needs_registration unknown = false

run_verb-rejects :
    (v : Verb) (fd : ℕ) (command : IrcCommand) (c : Client) (s : Server)
    → needs_registration v ≡ true
    → find fd s.clients ≡ some c
    → c.registered ≡ false
    → run_verb v fd command s ≡ deliver fd not_registered s
unfolding run_verb needs_registration handle_join handle_part handle_privmsg handle_topic
    handle_mode handle_invite handle_kick handle_who handle_whois handle_whowas on_found send_reply
    complain not_registered
run_verb-rejects join fd command c s g f r = rw (f, r) refl
run_verb-rejects part fd command c s g f r = rw (f, r) refl
run_verb-rejects privmsg fd command c s g f r = rw (f, r) refl
run_verb-rejects topic fd command c s g f r = rw (f, r) refl
run_verb-rejects mode fd command c s g f r = rw (f, r) refl
run_verb-rejects invite fd command c s g f r = rw (f, r) refl
run_verb-rejects kick fd command c s g f r = rw (f, r) refl
run_verb-rejects who fd command c s g f r = rw (f, r) refl
run_verb-rejects whois fd command c s g f r = rw (f, r) refl
run_verb-rejects whowas fd command c s g f r = rw (f, r) refl
run_verb-rejects pass fd command c s g f r = cc g
run_verb-rejects cap fd command c s g f r = cc g
run_verb-rejects nick fd command c s g f r = cc g
run_verb-rejects user fd command c s g f r = cc g
run_verb-rejects notice fd command c s g f r = cc g
run_verb-rejects ping fd command c s g f r = cc g
run_verb-rejects quit fd command c s g f r = cc g
run_verb-rejects bot_users fd command c s g f r = cc g
run_verb-rejects bot_channels fd command c s g f r = cc g
run_verb-rejects unknown fd command c s g f r = cc g

-- JOIN, PART, PRIVMSG, TOPIC, MODE, INVITE, KICK, WHO, WHOIS and WHOWAS of a client that is not
-- registered, whatever their parameters, do nothing but send it the error 451.
pub process_command-rejects :
    (fd : ℕ) (line : Text) (c : Client) (s : Server)
    → needs_registration (verb_of (parse line).command) ≡ true
    → find fd s.clients ≡ some c
    → c.registered ≡ false
    → process_command fd line s ≡ deliver fd not_registered s
unfolding process_command run_command on_found
process_command-rejects fd line c s g f r =
    rw f (run_verb-rejects (verb_of (parse line).command) fd (parse line) c s g f r)
