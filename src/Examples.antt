-- ===== src/Examples.antt =====
-- A server with two connections, for the examples of src/Server.cpp's handlers.
mod Lines
mod Rooms
mod Talk
mod Rounds
mod Visitors
mod Robot
use internet_relay_chat_msn.Base.{◌≡◌, refl, true, false, some, [], ◌∷◌, is_empty, same_bytes}
use internet_relay_chat_msn.Text.{Text, bytes, to_upper}
use internet_relay_chat_msn.Client.{new_client}
use internet_relay_chat_msn.Server.{Server, Revents}
use internet_relay_chat_msn.Parser.{
  parse, parse_from, parse_prefix, parse_command, parse_params, skip_spaces, word, after_word,
}
use internet_relay_chat_msn.Dispatch.{Verb, pass, verb_of, verb_table, verb_from}

abbrev pub silent : Revents
silent = record { pollin = false; pollout = false; pollerr_or_nval = false; pollhup = false }

abbrev pub two_connections : Server
two_connections = record {
  password = bytes "pw";
  listen_fd = 3;
  poll_fds =
      record { fd = 4; pollin = true; pollout = false; revents = silent }
      ∷ record { fd = 5; pollin = true; pollout = false; revents = silent }
      ∷ [];
  clients = (4, new_client (some 4)) ∷ (5, new_client (some 5)) ∷ [];
  channels = [];
  pending_joins = [];
}

abbrev pub pass_line : Text
pass_line = bytes "PASS pw"

abbrev pub nick_line : Text
nick_line = bytes "NICK ann"

abbrev pub user_command : Text
user_command = bytes "USER ann 0 * :Ann"

abbrev pub join_line : Text
join_line = bytes "JOIN #room"
