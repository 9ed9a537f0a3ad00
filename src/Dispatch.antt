-- ===== src/Dispatch.antt =====
-- src/Server.cpp: the lines of a client's input, and the command that each one is.
pub mod Verbs
use internet_relay_chat_msn.Base.{
  ℕ, zero, suc, true, false, Option, none, some, List, [], ◌∷◌, ◌++◌, ◌==◌, on_found, if◌then◌else◌,
  nat_key, bytes_key, is_empty, length,
}
use internet_relay_chat_msn.Map.{find, insert}
use internet_relay_chat_msn.Text.{Text, bytes}
use internet_relay_chat_msn.Client.{Client, new_client, append_to_in_buffer}
use internet_relay_chat_msn.Server.{Server, modify_client, server_line, deliver}
use internet_relay_chat_msn.ChannelCommands.Join.{handle_join}
use internet_relay_chat_msn.ChannelCommands.Part.{handle_part}
use internet_relay_chat_msn.ChannelCommands.Kick.{handle_kick}
use internet_relay_chat_msn.ChannelCommands.Invite.{handle_invite}
use internet_relay_chat_msn.ChannelCommands.Topic.{handle_topic}
use internet_relay_chat_msn.Parser.{IrcCommand, parse}
use internet_relay_chat_msn.Connection.{disconnect_fd}
use internet_relay_chat_msn.Registration.{handle_cap, handle_pass, handle_nick, handle_user}
use internet_relay_chat_msn.Messages.{handle_privmsg, handle_ping, handle_quit}
use internet_relay_chat_msn.Mode.{handle_mode}
use internet_relay_chat_msn.Queries.{
  handle_who, handle_whois, handle_whowas, handle_bot_users, handle_bot_channels,
}

-- The commands that `processCommand` knows.
pub data Verb : Type 0 where
  pass cap nick user join part privmsg notice ping quit topic mode invite kick : Verb
  bot_users bot_channels who whois whowas unknown : Verb

unfoldable pub verb_table : List (Text × Verb)
verb_table =
    (bytes "PASS", pass)
    ∷ (bytes "CAP", cap)
    ∷ (bytes "NICK", nick)
    ∷ (bytes "USER", user)
    ∷ (bytes "JOIN", join)
    ∷ (bytes "PART", part)
    ∷ (bytes "PRIVMSG", privmsg)
    ∷ (bytes "NOTICE", notice)
    ∷ (bytes "PING", ping)
    ∷ (bytes "QUIT", quit)
    ∷ (bytes "TOPIC", topic)
    ∷ (bytes "MODE", mode)
    ∷ (bytes "INVITE", invite)
    ∷ (bytes "KICK", kick)
    ∷ (bytes "BOTUSERS", bot_users)
    ∷ (bytes "BOTCHANNELS", bot_channels)
    ∷ (bytes "WHO", who)
    ∷ (bytes "WHOIS", whois)
    ∷ (bytes "WHOWAS", whowas)
    ∷ []

-- The ladder of comparisons, from the top.
unfoldable pub verb_from : List (Text × Verb) → Text → Verb
verb_from [] command = unknown
verb_from ((name, verb) ∷ rest) command = if command == name then verb else verb_from rest command

unfoldable pub verb_of : Text → Verb
verb_of command = verb_from verb_table command

unfoldable pub run_verb : Verb → ℕ → IrcCommand → Server → Server
run_verb pass fd command s = handle_pass fd command.params s
run_verb cap fd command s = handle_cap fd command.params s
run_verb nick fd command s = handle_nick fd command.params s
run_verb user fd command s = handle_user fd command.params s
run_verb join fd command s = handle_join fd command.params s
run_verb part fd command s = handle_part fd command.params s
run_verb privmsg fd command s = handle_privmsg false fd command.params s
run_verb notice fd command s = handle_privmsg true fd command.params s
run_verb ping fd command s = handle_ping fd command.params s
run_verb quit fd command s = handle_quit fd command.params s
run_verb topic fd command s = handle_topic fd command.params s
run_verb mode fd command s = handle_mode fd command.params s
run_verb invite fd command s = handle_invite fd command.params s
run_verb kick fd command s = handle_kick fd command.params s
run_verb bot_users fd command s = handle_bot_users fd s
run_verb bot_channels fd command s = handle_bot_channels fd s
run_verb who fd command s = handle_who fd command.params s
run_verb whois fd command s = handle_whois fd command.params s
run_verb whowas fd command s = handle_whowas fd command.params s
run_verb unknown fd command s =
    deliver fd (server_line (bytes "421 * " ++ (command.command ++ bytes " :Unknown command"))) s

unfoldable pub run_command : ℕ → IrcCommand → Server → Server
run_command fd command s =
    on_found (find fd s.clients) s (λ c. run_verb (verb_of command.command) fd command s)

unfoldable pub process_command : ℕ → Text → Server → Server
process_command fd line s = run_command fd (parse line) s

-- `buf.find('\n')`: what stands before the newline, and what follows it if there is one.
unfoldable pub before_newline : Text → Text
before_newline [] = []
before_newline (c ∷ text) = if c == 10 then [] else c ∷ before_newline text

unfoldable pub after_newline : Text → Option Text
after_newline [] = none
after_newline (c ∷ text) = if c == 10 then some text else after_newline text

-- A carriage return at the end of the line goes.
unfoldable pub chomp : Text → Text
chomp [] = []
chomp (c ∷ []) = if c == 13 then [] else c ∷ []
chomp (c ∷ d ∷ text) = c ∷ chomp (d ∷ text)

unfoldable pub set_in_buffer : Text → Client → Client
set_in_buffer text c = record c { in_buffer = text }

unfoldable pub process_line : ℕ → Text → Server → Server
process_line fd line s = if is_empty line then s else process_command fd line s

-- The loop of `extractCommands`; it ends with the client, or when no newline is left.
unfoldable pub extract_loop : ℕ → ℕ → Server → Server
extract_loop zero fd s = s
extract_loop (suc fuel) fd s = on_found (find fd s.clients) s λ c.
    on_found (after_newline c.in_buffer) s λ rest. extract_loop fuel fd (
      process_line fd (chomp (before_newline c.in_buffer))
        (modify_client fd (set_in_buffer rest) s))

-- `_clients[fd]` makes a client where there is none. Each round takes a newline out of the input, so
-- its length is fuel enough.
unfoldable pub extract_commands : ℕ → Server → Server
extract_commands fd s =
    let s' = record s { clients = insert fd (new_client none) s.clients } in
    on_found (find fd s'.clients) s' (λ c. extract_loop (length c.in_buffer) fd s')

-- `received` is what recv() gave, `none` if it returned 0 or failed.
unfoldable pub handle_client_read : ℕ → Option Text → Server → Server
handle_client_read fd received s = on_found (find fd s.clients) s λ c. elim received [
  | none ↦ disconnect_fd fd s
  | some text ↦ extract_commands fd (modify_client fd (append_to_in_buffer text) s)
]
