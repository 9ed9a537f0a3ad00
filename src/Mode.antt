-- ===== src/Mode.antt =====
-- src/Mode.cpp: MODE, the change of a rank, and the clients that wait for an invite-only channel.
use internet_relay_chat_msn.Base.{
  ℕ, suc, Bool, true, false, not, ◌&&◌, ◌||◌, some, List, [], ◌∷◌, ◌++◌, ◌==◌, on_found,
  if◌then◌else◌, nat_key, bytes_key, is_empty,
}
use internet_relay_chat_msn.Map.{find, erase}
use internet_relay_chat_msn.Text.{Text, bytes}
use internet_relay_chat_msn.Channel.{
  Channel, has_client, has_operator, is_operator, is_half_operator, add_operator, add_half_operator,
  remove_operator, remove_half_operator, set_topic_restricted, set_invite_only, set_key, remove_key,
  set_limit, remove_limit,
}
use internet_relay_chat_msn.Server.{
  Server, put_channel, broadcast_to_channel, server_line, user_line, send_reply, not_registered,
  find_nickname,
}
use internet_relay_chat_msn.ChannelCommands.Succession.{promote_successor}
use internet_relay_chat_msn.ChannelCommands.Join.{handle_join}
use internet_relay_chat_msn.ChannelCommands.Part.{no_such_channel, not_on_channel}
use internet_relay_chat_msn.ChannelCommands.Kick.{not_operator, no_such_nick, target_not_on_channel}
use internet_relay_chat_msn.Number.{ℤ, pos, atoi}

-- The mode strings that `handleMode` tells apart.
pub data ModeName : Type 0 where
  restrict unrestrict invite_only invite_off key key_off limit limit_off op op_off ban_list :
      ModeName
  unknown : ModeName

unfoldable pub mode_name : Text → ModeName
mode_name mode =
    if mode == bytes "b"
    then ban_list
    else if mode == bytes "+t"
    then restrict
    else if mode == bytes "-t"
    then unrestrict
    else if mode == bytes "+i"
    then invite_only
    else if mode == bytes "-i"
    then invite_off
    else if mode == bytes "+k"
    then key
    else if mode == bytes "-k"
    then key_off
    else if mode == bytes "+l"
    then limit
    else if mode == bytes "-l"
    then limit_off
    else if mode == bytes "+o"
    then op
    else if mode == bytes "-o"
    then op_off
    else unknown

abbrev pub is_rank_change : ModeName → Bool
is_rank_change op = true
is_rank_change op_off = true
is_rank_change _ = false

-- `joinPendingClients`: each client that waits and is still connected sends its JOIN again.
unfoldable pub join_waiting : List ℕ → Text → Server → Server
join_waiting [] name s = s
join_waiting (fd ∷ fds) name s = join_waiting fds name (handle_join fd (name ∷ []) s)

unfoldable pub join_pending_clients : Text → Server → Server
join_pending_clients name s =
    on_found (find name s.pending_joins) s
      λ waiting. join_waiting waiting name (record s { pending_joins = erase name s.pending_joins })

-- The message of a mode that has changed, to the channel and to the client itself.
unfoldable pub announce_mode : ℕ → Text → Text → Text → Channel → Server → Server
announce_mode fd nick name change channel s =
    let message = user_line nick (bytes "MODE " ++ (name ++ (bytes " " ++ change))) in
    send_reply fd message (broadcast_to_channel channel (some fd) message s)

unfoldable pub change_mode : ℕ → Text → Text → Text → Channel → Server → Server
change_mode fd nick name change channel s =
    announce_mode fd nick name change channel (put_channel name channel s)

-- The rank that `setChannelOperator` gives, and the mode that it announces.
unfoldable pub grant_rank : ℕ → Channel → Channel
grant_rank target channel =
    if has_operator channel then add_half_operator target channel else add_operator target channel

unfoldable pub granted : ℕ → Channel → Text
granted target channel =
    if has_operator channel && not (is_operator channel target) then bytes "+h" else bytes "+o"

unfoldable pub withdraw_rank : ℕ → Channel → Channel
withdraw_rank target channel = remove_half_operator target (remove_operator target channel)

unfoldable pub withdrawn : ℕ → Channel → Text
withdrawn target channel =
    if not (is_operator channel target) && is_half_operator channel target
    then bytes "-h"
    else bytes "-o"

unfoldable pub set_rank : ModeName → ℕ → Text → ℕ → Text → Text → Channel → Server → Server
set_rank op_off fd nick target target_nick name channel s =
    let channel' = withdraw_rank target channel in
    promote_successor name channel' (some target) (
      announce_mode fd nick channel.name (withdrawn target channel ++ (bytes " " ++ target_nick))
        channel' (put_channel name channel' s))
set_rank _ fd nick target target_nick name channel s =
    let channel' = grant_rank target channel in
    announce_mode fd nick channel.name (granted target channel ++ (bytes " " ++ target_nick))
      channel' (put_channel name channel' s)

unfoldable pub set_channel_operator : ModeName → ℕ → Text → Text → Text → Channel → Server → Server
set_channel_operator mode fd nick target_nick name channel s =
    on_found (find_nickname target_nick s.clients) (send_reply fd (no_such_nick target_nick) s)
      λ target.
        if not (has_client channel target.0)
        then send_reply fd (target_not_on_channel target_nick channel.name) s
        else set_rank mode fd nick target.0 target_nick name channel s

unfoldable pub no_mode_parameter : Text
no_mode_parameter = server_line (bytes "461 * MODE :Not enough parameters")

unfoldable pub limit_mode : ℕ → Text → Text → Text → Channel → ℤ → Server → Server
limit_mode fd nick name text channel (pos (suc n)) s =
    change_mode fd nick name (bytes "+l " ++ text) (set_limit (suc n) channel) s
limit_mode fd nick name text channel _ s =
    send_reply fd (server_line (bytes "461 * MODE :Invalid limit")) s

-- The modes of a client that has the right to change them; `args` is what follows the mode string.
unfoldable pub apply_mode :
    ModeName → ℕ → Text → Text → Text → List Text → Channel → Server → Server
apply_mode ban_list fd nick name mode args channel s =
    send_reply fd
      (server_line
        (bytes "368 " ++ (nick ++ (bytes " " ++ (name ++ bytes " :End of channel ban list")))))
      s
apply_mode restrict fd nick name mode args channel s =
    change_mode fd nick name mode (set_topic_restricted true channel) s
apply_mode unrestrict fd nick name mode args channel s =
    change_mode fd nick name mode (set_topic_restricted false channel) s
apply_mode invite_only fd nick name mode args channel s =
    change_mode fd nick name mode (set_invite_only true channel) s
apply_mode invite_off fd nick name mode args channel s =
    let s' = join_pending_clients name (put_channel name (set_invite_only false channel) s) in
    on_found (find name s'.channels) s' (λ now. announce_mode fd nick name mode now s')
apply_mode key fd nick name mode (text ∷ args) channel s =
    change_mode fd nick name (mode ++ (bytes " " ++ text)) (set_key text channel) s
apply_mode key_off fd nick name mode args channel s =
    change_mode fd nick name mode (remove_key channel) s
apply_mode limit fd nick name mode (text ∷ args) channel s =
    limit_mode fd nick name text channel (atoi text) s
apply_mode limit_off fd nick name mode args channel s =
    change_mode fd nick name mode (remove_limit channel) s
apply_mode op fd nick name mode (target ∷ args) channel s =
    set_channel_operator op fd nick target name channel s
apply_mode op_off fd nick name mode (target ∷ args) channel s =
    set_channel_operator op_off fd nick target name channel s
apply_mode unknown fd nick name mode args channel s =
    send_reply fd (server_line (bytes "472 " ++ (mode ++ bytes " :is unknown mode char to me"))) s
apply_mode _ fd nick name mode [] channel s = send_reply fd no_mode_parameter s

-- Halfops can change every mode except +o/-o.
unfoldable pub may_change : ModeName → ℕ → Channel → Bool
may_change mode fd channel =
    is_operator channel fd || is_half_operator channel fd && not (is_rank_change mode)

unfoldable pub mode_action : ℕ → Text → Text → List Text → Channel → Server → Server
mode_action fd nick name [] channel s =
    send_reply fd (server_line (bytes "324 " ++ (nick ++ (bytes " " ++ (name ++ bytes " +"))))) s
mode_action fd nick name (mode ∷ args) channel s =
    if not (has_client channel fd)
    then send_reply fd (not_on_channel name) s
    else if not (may_change (mode_name mode) fd channel)
    then send_reply fd (not_operator name) s
    else apply_mode (mode_name mode) fd nick name mode args channel s

-- `params.size() >= 2 && params[0] == nickname`: a client's own modes are left alone.
unfoldable pub is_own_mode : Text → Text → List Text → Bool
is_own_mode nick name rest = not (is_empty rest) && name == nick

unfoldable pub mode_params : ℕ → Text → List Text → Server → Server
mode_params fd nick [] s = s
mode_params fd nick (name ∷ rest) s =
    if is_own_mode nick name rest
    then s
    else on_found (find name s.channels) (send_reply fd (no_such_channel name) s)
        (λ channel. mode_action fd nick name rest channel s)

unfoldable pub handle_mode : ℕ → List Text → Server → Server
handle_mode fd params s = on_found (find fd s.clients) s λ c.
    if not c.registered then send_reply fd not_registered s else mode_params fd c.nickname params s
