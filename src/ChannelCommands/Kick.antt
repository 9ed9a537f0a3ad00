-- ===== src/ChannelCommands/Kick.antt =====
-- `handleKick` of src/ChannelCommands.cpp.
use internet_relay_chat_msn.Base.{
  ℕ, not, some, List, ◌∷◌, ◌++◌, on_found, if◌then◌else◌, nat_key, bytes_key,
}
use internet_relay_chat_msn.Map.{find}
use internet_relay_chat_msn.Text.{Text, bytes}
use internet_relay_chat_msn.Channel.{Channel, has_client, is_operator}
use internet_relay_chat_msn.Server.{
  Server, put_channel, broadcast_to_channel, server_line, user_line, deliver, not_registered,
  find_nickname,
}
use internet_relay_chat_msn.ChannelCommands.Part.{
  settle, without_member, reason_suffix, no_such_channel, not_on_channel,
}

unfoldable pub not_operator : Text → Text
not_operator name = server_line (bytes "482 " ++ (name ++ bytes " :You're not channel operator"))

unfoldable pub no_such_nick : Text → Text
no_such_nick nick = server_line (bytes "401 " ++ (nick ++ bytes " :No such nick"))

unfoldable pub target_not_on_channel : Text → Text → Text
target_not_on_channel nick name =
    server_line
      (bytes "441 " ++ (nick ++ (bytes " " ++ (name ++ bytes " :They aren't on that channel"))))

unfoldable pub expel : ℕ → Text → ℕ → Text → List Text → Text → Channel → Server → Server
expel fd nick target target_nick reasons name channel s =
    let message =
      user_line nick
        (bytes "KICK " ++ (name ++ (bytes " " ++ (target_nick ++ reason_suffix reasons)))) in
    let channel' = without_member target channel in
    settle name channel' (
      put_channel name channel'
        (deliver fd message (broadcast_to_channel channel (some fd) message s)))

unfoldable pub kick_target : ℕ → Text → Text → List Text → Text → Channel → Server → Server
kick_target fd nick target_nick reasons name channel s =
    on_found (find_nickname target_nick s.clients) (deliver fd (no_such_nick target_nick) s)
      λ target.
        if not (has_client channel target.0)
        then deliver fd (target_not_on_channel target_nick name) s
        else expel fd nick target.0 target_nick reasons name channel s

unfoldable pub kick_params : ℕ → Text → List Text → Server → Server
kick_params fd nick (name ∷ target_nick ∷ reasons) s =
    on_found (find name s.channels) (deliver fd (no_such_channel name) s) λ channel.
      if not (has_client channel fd)
      then deliver fd (not_on_channel name) s
      else if not (is_operator channel fd)
      then deliver fd (not_operator name) s
      else kick_target fd nick target_nick reasons name channel s
kick_params fd nick params s =
    deliver fd (server_line (bytes "461 * KICK :Not enough parameters")) s

unfoldable pub handle_kick : ℕ → List Text → Server → Server
handle_kick fd params s = on_found (find fd s.clients) s λ c.
    if not c.registered then deliver fd not_registered s else kick_params fd c.nickname params s
