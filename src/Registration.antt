-- ===== src/Registration.antt =====
-- src/Registration.cpp: CAP, PASS, NICK, USER, and the end of the registration.
pub mod Nickname
use internet_relay_chat_msn.Base.{
  ℕ, zero, suc, ◌+◌, ◌-◌, ◌*◌, ◌%◌, ◌^◌, Bool, true, false, not, ◌&&◌, ◌||◌, Option, none, some,
  List, [], ◌∷◌, ◌++◌, ◌==◌, on_found, if◌then◌else◌, nat_key, bytes_key, is_empty, length, leb,
  ltb, map, contains, get_elem?, take, drop, min,
}
use internet_relay_chat_msn.Map.{Map, find, insert, modify, erase, set_insert, set_erase}
use internet_relay_chat_msn.Text.{Text, bytes, is_digit, is_alpha, is_alnum}
use internet_relay_chat_msn.Client.{
  Client, new_client, append_to_in_buffer, set_authenticated, set_sent_pass, set_nickname,
  add_rejected_nickname, set_username, set_registered, can_register,
}
use internet_relay_chat_msn.Channel.{
  Channel, has_client, has_operator, is_operator, is_half_operator, add_operator, add_half_operator,
  remove_operator, remove_half_operator, set_topic_restricted, set_invite_only, set_key, remove_key,
  set_limit, remove_limit,
}
use internet_relay_chat_msn.Server.{
  Server, PollFd, Revents, put_channel, modify_client, broadcast_to_channel, server_line, user_line,
  append_out, enable_write, deliver, send_reply, not_registered, find_nickname,
}
use internet_relay_chat_msn.ChannelCommands.Succession.{promote_successor}
use internet_relay_chat_msn.ChannelCommands.Join.{handle_join, starts_with_hash}
use internet_relay_chat_msn.ChannelCommands.Part.{
  settle, erase_channel, without_member, no_such_channel, not_on_channel, handle_part,
}
use internet_relay_chat_msn.ChannelCommands.Kick.{
  not_operator, no_such_nick, target_not_on_channel, handle_kick,
}
use internet_relay_chat_msn.ChannelCommands.Invite.{handle_invite}
use internet_relay_chat_msn.ChannelCommands.Topic.{handle_topic}
use internet_relay_chat_msn.Parser.{IrcCommand, parse}
use Nickname.{is_valid_nickname, is_nickname_variant, is_taken}

unfoldable pub cap_request : ℕ → List Text → Server → Server
cap_request fd [] s = s
cap_request fd (capabilities ∷ rest) s =
    deliver fd (server_line (bytes "CAP * ACK :" ++ capabilities)) s

unfoldable pub cap_params : ℕ → List Text → Server → Server
cap_params fd [] s = s
cap_params fd (subcommand ∷ rest) s =
    if subcommand == bytes "LS"
    then deliver fd (server_line (bytes "CAP * LS :")) s
    else if subcommand == bytes "REQ"
    then cap_request fd rest s
    else s

unfoldable pub handle_cap : ℕ → List Text → Server → Server
handle_cap fd params s = on_found (find fd s.clients) s (λ c. cap_params fd params s)

-- `if (!getOutBuffer().empty()) enableWrite(fd);`
unfoldable pub enable_write_if_queued : ℕ → Server → Server
enable_write_if_queued fd s =
    on_found (find fd s.clients) s
      (λ c. if not (is_empty c.out_buffer) then enable_write fd s else s)

unfoldable pub accept_password : Client → Client
accept_password c = set_sent_pass true (set_authenticated true c)

unfoldable pub check_password : ℕ → Text → Server → Server
check_password fd given s = enable_write_if_queued fd (
    if given == s.password
    then modify_client fd accept_password s
    else append_out fd (server_line (bytes "464 * :Password incorrect")) s)

unfoldable pub pass_params : ℕ → Client → List Text → Server → Server
pass_params fd c (given ∷ []) s =
    if c.sent_pass
    then deliver fd (server_line (bytes "462 * :You may not reregister")) s
    else check_password fd given s
pass_params fd c params s = deliver fd (server_line (bytes "461 * PASS :Not enough parameters")) s

unfoldable pub handle_pass : ℕ → List Text → Server → Server
handle_pass fd params s = on_found (find fd s.clients) s (λ c. pass_params fd c params s)

unfoldable pub general_is_closed : Server → Bool
general_is_closed s =
    on_found (find (bytes "#general") s.channels) false (λ channel. channel.invite_only)

unfoldable pub welcome_line : Text → Text
welcome_line nick = server_line (bytes "001 " ++ (nick ++ bytes " :Welcome to the IRC network"))

unfoldable pub enter_network : ℕ → Text → Server → Server
enter_network fd nick s =
    let s' = deliver fd (welcome_line nick) (modify_client fd (set_registered true) s) in
    if general_is_closed s' then s' else handle_join fd (bytes "#general" ∷ []) s'

-- `completeRegistration`: PASS, NICK and USER have all been accepted, in whatever order.
unfoldable pub complete_registration : ℕ → Server → Server
complete_registration fd s =
    on_found (find fd s.clients) s
      (λ c. if can_register c then enter_network fd c.nickname s else s)

-- Who is told of a new nickname: the client and the members of its channels, as a set.
unfoldable pub add_members : List ℕ → List ℕ → List ℕ
add_members [] recipients = recipients
add_members (fd ∷ fds) recipients = add_members fds (set_insert fd recipients)

unfoldable pub recipients_of : ℕ → Map Text Channel → List ℕ → List ℕ
recipients_of fd [] recipients = recipients
recipients_of fd ((name, channel) ∷ rest) recipients =
    recipients_of fd rest
      (if has_client channel fd then add_members channel.clients recipients else recipients)

unfoldable pub tell_all : List ℕ → Text → Server → Server
tell_all [] message s = s
tell_all (fd ∷ fds) message s = tell_all fds message (send_reply fd message s)

unfoldable pub announce_nick : ℕ → Text → Text → Server → Server
announce_nick fd old_nick nick s =
    if is_empty old_nick
    then s
    else tell_all (recipients_of fd s.channels (fd ∷ []))
        (user_line old_nick (bytes "NICK :" ++ nick)) s

unfoldable pub take_nick : ℕ → Client → Text → Server → Server
take_nick fd c nick s =
    if c.nickname == nick
    then s
    else if not c.registered
    then complete_registration fd (modify_client fd (set_nickname nick) s)
    else announce_nick fd c.nickname nick (modify_client fd (set_nickname nick) s)

unfoldable pub remember_rejected : ℕ → Client → Text → Server → Server
remember_rejected fd c nick s =
    if not c.registered then modify_client fd (add_rejected_nickname nick) s else s

unfoldable pub refuse_taken : ℕ → Client → Text → Server → Server
refuse_taken fd c nick s = enable_write fd (
    append_out fd (server_line (bytes "433 * " ++ (nick ++ bytes " :Nickname is already in use"))) (
      append_out fd (server_line (bytes "NOTICE * :Nickname already in use"))
        (remember_rejected fd c nick s)))

unfoldable pub variant_line : Text → Text
variant_line nick = server_line (
    bytes "NOTICE * :Nickname "
    ++ (nick
        ++ bytes
            " refused, choose another one with NICK <nickname> (irssi: /quote NICK <nickname>)"))

unfoldable pub nick_params : ℕ → Client → List Text → Server → Server
nick_params fd c (nick ∷ []) s =
    if not (is_valid_nickname nick)
    then deliver fd (server_line (bytes "432 " ++ (nick ++ bytes " :Erroneous nickname"))) s
    else if not c.registered && is_nickname_variant nick c.rejected_nicknames
    then deliver fd (variant_line nick) s
    else if is_taken fd nick s.clients
    then refuse_taken fd c nick s
    else take_nick fd c nick s
nick_params fd c params s = deliver fd (server_line (bytes "431 * :No nickname given")) s

unfoldable pub handle_nick : ℕ → List Text → Server → Server
handle_nick fd params s = on_found (find fd s.clients) s (λ c. nick_params fd c params s)

unfoldable pub user_params : ℕ → Client → List Text → Server → Server
user_params fd c (username ∷ mode ∷ unused ∷ realname ∷ []) s =
    if not c.authenticated
    then deliver fd (server_line (bytes "464 * :Password incorrect")) s
    else if not (is_empty c.username)
    then deliver fd (server_line (bytes "462 * :You may not reregister")) s
    else complete_registration fd (modify_client fd (set_username username) s)
user_params fd c params s = deliver fd (server_line (bytes "461 * USER :Not enough parameters")) s

unfoldable pub handle_user : ℕ → List Text → Server → Server
handle_user fd params s = on_found (find fd s.clients) s (λ c. user_params fd c params s)
