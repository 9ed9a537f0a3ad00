-- ===== src/ChannelCommands/Topic.antt =====
-- `handleTopic` of src/ChannelCommands.cpp.
use internet_relay_chat_msn.Base.{
  ℕ, not, ◌&&◌, some, List, [], ◌∷◌, ◌++◌, on_found, if◌then◌else◌, nat_key, bytes_key, is_empty,
}
use internet_relay_chat_msn.Map.{find}
use internet_relay_chat_msn.Text.{Text, bytes}
use internet_relay_chat_msn.Channel.{Channel, has_client, is_operator, set_topic}
use internet_relay_chat_msn.Server.{
  Server, put_channel, broadcast_to_channel, server_line, user_line, deliver, not_registered,
}
use internet_relay_chat_msn.ChannelCommands.Part.{no_such_channel, not_on_channel}
use internet_relay_chat_msn.ChannelCommands.Kick.{not_operator}

unfoldable pub topic_line : Text → Channel → Text
topic_line name channel =
    if is_empty channel.topic
    then server_line (bytes "331 " ++ (name ++ bytes " :No topic is set"))
    else server_line (bytes "332 " ++ (name ++ (bytes " :" ++ channel.topic)))

unfoldable pub change_topic : ℕ → Text → Text → Text → Channel → Server → Server
change_topic fd nick name topic channel s =
    if channel.topic_restricted && not (is_operator channel fd)
    then deliver fd (not_operator name) s
    else let channel' = set_topic topic channel in
      let message = user_line nick (bytes "TOPIC " ++ (name ++ (bytes " :" ++ topic))) in
      deliver fd message
        (broadcast_to_channel channel' (some fd) message (put_channel name channel' s))

unfoldable pub topic_action : ℕ → Text → Text → List Text → Channel → Server → Server
topic_action fd nick name [] channel s = deliver fd (topic_line name channel) s
topic_action fd nick name (topic ∷ rest) channel s = change_topic fd nick name topic channel s

unfoldable pub topic_params : ℕ → Text → List Text → Server → Server
topic_params fd nick [] s = deliver fd (server_line (bytes "461 * TOPIC :Not enough parameters")) s
topic_params fd nick (name ∷ rest) s =
    on_found (find name s.channels) (deliver fd (no_such_channel name) s) λ channel.
      if not (has_client channel fd)
      then deliver fd (not_on_channel name) s
      else topic_action fd nick name rest channel s

unfoldable pub handle_topic : ℕ → List Text → Server → Server
handle_topic fd params s = on_found (find fd s.clients) s λ c.
    if not c.registered then deliver fd not_registered s else topic_params fd c.nickname params s
