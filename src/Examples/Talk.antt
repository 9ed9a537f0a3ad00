-- ===== src/Examples/Talk.antt =====
-- Two members of a room, and what one of them says.
use internet_relay_chat_msn.Port.{is_valid_port, all_digits, number_from, is_valid_port_exact}
use internet_relay_chat_msn.ChannelNames.{join_names, channel_names-join_names}
use internet_relay_chat_msn.Broadcast.{heard, handle_privmsg-heard}
use internet_relay_chat_msn.Messages.{handle_privmsg, message_line}
use internet_relay_chat_msn.Map.{find}
use internet_relay_chat_msn.ChannelCommands.Join.{starts_with_hash, channel_names}
use internet_relay_chat_msn.Client.{Client, new_client}
use internet_relay_chat_msn.Text.{bytes, Text}
use internet_relay_chat_msn.Channel.{Channel, new_channel, has_client}
use internet_relay_chat_msn.Server.{Server}
use internet_relay_chat_msn.Examples.{two_connections}
use internet_relay_chat_msn.Base.{
  ◌≡◌, refl, true, false, ◌∷◌, [], some, same_bytes, contains, not, ◌==◌, nat_key, ℕ, List, length,
  ◌↔◌, is_empty, ◌≤◌,
}

abbrev ann : Client
ann = record (new_client (some 4)) { nickname = bytes "ann"; registered = true }

abbrev talk : Channel
talk = record (new_channel (bytes "#talk")) { clients = 4 ∷ 5 ∷ [] }

abbrev talking : Server
talking = record two_connections {
  clients = (4, ann) ∷ (5, new_client (some 5)) ∷ [];
  channels = (bytes "#talk", talk) ∷ [];
}

handle_privmsg-heard_example :
    find 5 (handle_privmsg false 4 (bytes "#talk" ∷ bytes "hi" ∷ []) talking).clients
    ≡ some (
        heard
          (not (◌==◌ {A = ℕ} 5 4))
          (message_line false ann.nickname (bytes "#talk") (bytes "hi"))
          (new_client (some 5)))
unfolding bytes starts_with_hash find same_bytes contains has_client new_channel new_client
handle_privmsg-heard_example =
    handle_privmsg-heard false 4 5 (bytes "#talk") (bytes "hi") [] talk ann (new_client (some 5))
      talking refl refl (refl, (refl, tt)) refl refl refl refl refl

abbrev two_names : List Text
two_names = bytes "#a" ∷ bytes "#bc" ∷ []

channel_names-join_names_example :
    channel_names (length (join_names two_names)) (join_names two_names) ≡ two_names
unfolding bytes contains
channel_names-join_names_example =
    channel_names-join_names two_names ((refl, refl), ((refl, refl), tt))

is_valid_port_exact_example : (is_valid_port (bytes "6667") ≡ some 6667) ↔ (
    (is_empty (bytes "6667") ≡ false)
    × (all_digits (bytes "6667") ≡ true)
    × (number_from 0 (bytes "6667") ≡ 6667)
    × (1 ≤ 6667)
    × (6667 ≤ 65535))
is_valid_port_exact_example = is_valid_port_exact (bytes "6667") 6667
