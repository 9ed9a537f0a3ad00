-- ===== src/ChannelCommands/Part.antt =====
-- `handlePart` of src/ChannelCommands.cpp.
use internet_relay_chat_msn.Base.{
  ℕ, not, none, some, List, [], ◌∷◌, ◌++◌, on_found, if◌then◌else◌, nat_key, bytes_key, is_empty,
  length,
}
use internet_relay_chat_msn.Map.{find, erase}
use internet_relay_chat_msn.Text.{Text, bytes}
use internet_relay_chat_msn.Channel.{Channel, has_client, remove_client, remove_invite}
use internet_relay_chat_msn.Server.{
  Server, put_channel, broadcast_to_channel, server_line, user_line, deliver, not_registered,
}
use internet_relay_chat_msn.ChannelCommands.Succession.{promote_successor}
use internet_relay_chat_msn.ChannelCommands.Join.{channel_names}

unfoldable pub erase_channel : Text → Server → Server
erase_channel name s = record s { channels = erase name s.channels }

-- What becomes of a channel that a member has left: it goes, or it gets an operator.
unfoldable pub settle : Text → Channel → Server → Server
settle name channel s =
    if is_empty channel.clients then erase_channel name s else promote_successor name channel none s

unfoldable pub without_member : ℕ → Channel → Channel
without_member fd channel = remove_invite fd (remove_client fd channel)

unfoldable pub reason_suffix : List Text → Text
reason_suffix [] = []
reason_suffix (reason ∷ rest) = bytes " :" ++ reason

unfoldable pub no_such_channel : Text → Text
no_such_channel name = server_line (bytes "403 " ++ (name ++ bytes " :No such channel"))

unfoldable pub not_on_channel : Text → Text
not_on_channel name = server_line (bytes "442 " ++ (name ++ bytes " :You're not on that channel"))

unfoldable pub leave : ℕ → Text → List Text → Text → Channel → Server → Server
leave fd nick reasons name channel s =
    let message = user_line nick (bytes "PART " ++ (name ++ reason_suffix reasons)) in
    let channel' = without_member fd channel in
    settle name channel' (
      deliver fd message
        (broadcast_to_channel channel' (some fd) message (put_channel name channel' s)))

unfoldable pub part_one : ℕ → Text → List Text → Text → Server → Server
part_one fd nick reasons name s =
    on_found (find name s.channels) (deliver fd (no_such_channel name) s) λ channel.
      if not (has_client channel fd)
      then deliver fd (not_on_channel name) s
      else leave fd nick reasons name channel s

unfoldable pub part_all : ℕ → Text → List Text → List Text → Server → Server
part_all fd nick reasons [] s = s
part_all fd nick reasons (name ∷ names) s =
    part_all fd nick reasons names (part_one fd nick reasons name s)

unfoldable pub part_params : ℕ → Text → List Text → Server → Server
part_params fd nick [] s = deliver fd (server_line (bytes "461 * PART :Not enough parameters")) s
part_params fd nick (channels ∷ reasons) s =
    part_all fd nick reasons (channel_names (length channels) channels) s

unfoldable pub handle_part : ℕ → List Text → Server → Server
handle_part fd params s = on_found (find fd s.clients) s λ c.
    if not c.registered then deliver fd not_registered s else part_params fd c.nickname params s
