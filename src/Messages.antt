-- ===== src/Messages.antt =====
-- src/Messages.cpp: PRIVMSG, NOTICE, PING and QUIT.
use internet_relay_chat_msn.Base.{
  ℕ, Bool, not, ◌&&◌, some, List, [], ◌∷◌, ◌++◌, ◌==◌, on_found, if◌then◌else◌, nat_key, bytes_key,
}
use internet_relay_chat_msn.Map.{Map, find}
use internet_relay_chat_msn.Text.{Text, bytes}
use internet_relay_chat_msn.Channel.{Channel, has_client}
use internet_relay_chat_msn.Server.{
  Server, put_channel, broadcast_to_channel, server_line, user_line, deliver, find_nickname,
  visit_channels,
}
use internet_relay_chat_msn.ChannelCommands.Join.{starts_with_hash}
use internet_relay_chat_msn.ChannelCommands.Part.{settle, without_member}
use internet_relay_chat_msn.Connection.{disconnect_fd}

-- A NOTICE is never answered by an error.
unfoldable pub complain : Bool → ℕ → Text → Server → Server
complain is_notice fd text s = if is_notice then s else deliver fd (server_line text) s

unfoldable pub command_name : Bool → Text
command_name is_notice = if is_notice then bytes "NOTICE" else bytes "PRIVMSG"

unfoldable pub message_line : Bool → Text → Text → Text → Text
message_line is_notice nick target text =
    user_line nick (command_name is_notice ++ (bytes " " ++ (target ++ (bytes " :" ++ text))))

unfoldable pub message_nick : Bool → ℕ → Text → Text → Text → Server → Server
message_nick is_notice fd nick target text s =
    on_found (find_nickname target s.clients)
      (complain is_notice fd (bytes "401 " ++ (target ++ bytes " :No such nick/channel")) s)
      (λ receiver. deliver receiver.0 (message_line is_notice nick target text) s)

unfoldable pub message_channel : Bool → ℕ → Text → Text → Text → Server → Server
message_channel is_notice fd nick target text s =
    on_found (find target s.channels)
      (complain is_notice fd (bytes "403 " ++ (target ++ bytes " :No such channel")) s)
      λ channel.
        if not (has_client channel fd) && not (nick == bytes "ircbot")
        then complain is_notice fd
            (bytes "442 " ++ (target ++ bytes " :You're not on that channel")) s
        else broadcast_to_channel channel (some fd) (message_line is_notice nick target text) s

unfoldable pub privmsg_params : Bool → ℕ → Text → List Text → Server → Server
privmsg_params is_notice fd nick (target ∷ text ∷ rest) s =
    if not (starts_with_hash target)
    then message_nick is_notice fd nick target text s
    else message_channel is_notice fd nick target text s
privmsg_params is_notice fd nick params s =
    complain is_notice fd (bytes "461 * PRIVMSG :Not enough parameters") s

unfoldable pub handle_privmsg : Bool → ℕ → List Text → Server → Server
handle_privmsg is_notice fd params s = on_found (find fd s.clients) s λ c.
    if not c.registered
    then complain is_notice fd (bytes "451 * :You have not registered") s
    else privmsg_params is_notice fd c.nickname params s

unfoldable pub ping_params : ℕ → List Text → Server → Server
ping_params fd [] s = deliver fd (server_line (bytes "461 * PING :Not enough parameters")) s
ping_params fd (token ∷ rest) s = deliver fd (server_line (bytes "PONG ircserv :" ++ token)) s

unfoldable pub handle_ping : ℕ → List Text → Server → Server
handle_ping fd params s = on_found (find fd s.clients) s (λ c. ping_params fd params s)

unfoldable pub quit_reason : List Text → Text
quit_reason [] = bytes "Quit"
quit_reason (reason ∷ rest) = reason

unfoldable pub quit_channel : ℕ → Text → Text → Channel → Server → Server
quit_channel fd message name channel s =
    if has_client channel fd
    then settle name (without_member fd channel) (
        put_channel name (without_member fd channel)
          (broadcast_to_channel channel (some fd) message s))
    else s

unfoldable pub quit_channels : ℕ → Text → Map Text Channel → Server → Server
quit_channels fd message = visit_channels (quit_channel fd message)

unfoldable pub handle_quit : ℕ → List Text → Server → Server
handle_quit fd params s = on_found (find fd s.clients) s λ c.
    disconnect_fd fd
      (quit_channels fd (user_line c.nickname (bytes "QUIT :" ++ quit_reason params)) s.channels s)
