-- ===== src/ChannelCommands/Invite.antt =====
-- `handleInvite` of src/ChannelCommands.cpp.
use internet_relay_chat_msn.Base.{
  ℕ, not, List, ◌∷◌, ◌++◌, on_found, if◌then◌else◌, nat_key, bytes_key,
}
use internet_relay_chat_msn.Map.{find}
use internet_relay_chat_msn.Text.{Text, bytes}
use internet_relay_chat_msn.Channel.{Channel, has_client, is_operator, add_invite}
use internet_relay_chat_msn.Server.{
  Server, put_channel, server_line, user_line, deliver, not_registered, find_nickname,
}
use internet_relay_chat_msn.ChannelCommands.Part.{no_such_channel, not_on_channel}
use internet_relay_chat_msn.ChannelCommands.Kick.{not_operator, no_such_nick}

unfoldable pub invite_line : Text → Text → Text → Text
invite_line nick target_nick name =
    user_line nick (bytes "INVITE " ++ (target_nick ++ (bytes " " ++ name)))

unfoldable pub invite_sent_line : Text → Text → Text → Text
invite_sent_line nick target_nick name = server_line (
    bytes "341 "
    ++ (nick ++ (bytes " " ++ (target_nick ++ (bytes " " ++ (name ++ bytes " :INVITE sent"))))))

unfoldable pub invite_target : ℕ → Text → Text → Text → Channel → Server → Server
invite_target fd nick target_nick name channel s =
    on_found (find_nickname target_nick s.clients) (deliver fd (no_such_nick target_nick) s)
      λ target. deliver fd (invite_sent_line nick target_nick name) (
        deliver target.0 (invite_line nick target_nick name)
          (put_channel name (add_invite target.0 channel) s))

unfoldable pub invite_params : ℕ → Text → List Text → Server → Server
invite_params fd nick (target_nick ∷ name ∷ rest) s =
    on_found (find name s.channels) (deliver fd (no_such_channel name) s) λ channel.
      if not (has_client channel fd)
      then deliver fd (not_on_channel name) s
      else if not (is_operator channel fd)
      then deliver fd (not_operator name) s
      else invite_target fd nick target_nick name channel s
invite_params fd nick params s =
    deliver fd (server_line (bytes "461 * INVITE :Not enough parameters")) s

unfoldable pub handle_invite : ℕ → List Text → Server → Server
handle_invite fd params s = on_found (find fd s.clients) s λ c.
    if not c.registered then deliver fd not_registered s else invite_params fd c.nickname params s
