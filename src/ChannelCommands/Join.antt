-- ===== src/ChannelCommands/Join.antt =====
-- `getOrCreateChannel` and `handleJoin` of src/ChannelCommands.cpp.
use internet_relay_chat_msn.Base.{
  ℕ, zero, suc, Bool, false, not, ◌&&◌, ◌||◌, Option, none, some, List, [], ◌∷◌, ◌++◌, ◌==◌,
  on_found, if◌then◌else◌, nat_key, bytes_key, is_empty, length, leb,
}
use internet_relay_chat_msn.Map.{Map, find, insert, modify, set_insert, set_erase}
use internet_relay_chat_msn.Text.{Text, bytes}
use internet_relay_chat_msn.Client.{Client}
use internet_relay_chat_msn.Channel.{
  Channel, new_channel, has_client, is_invited, is_operator, is_half_operator, add_client,
  add_operator, remove_invite,
}
use internet_relay_chat_msn.Server.{
  Server, put_channel, broadcast_to_channel, server_line, user_line, append_out, enable_write,
  deliver, not_registered,
}
use internet_relay_chat_msn.ChannelCommands.Succession.{is_bot}

-- `channels.find(',')`: what stands before the comma, and what follows it if there is one.
unfoldable pub before_comma : Text → Text
before_comma [] = []
before_comma (c ∷ text) = if c == b',' then [] else c ∷ before_comma text

unfoldable pub after_comma : Text → Option Text
after_comma [] = none
after_comma (c ∷ text) = if c == b',' then some text else after_comma text

-- The names that the loop of JOIN and PART visits. Each round takes at least one character, so the
-- length of the text is fuel enough.
unfoldable pub channel_names : ℕ → Text → List Text
channel_names zero text = []
channel_names (suc fuel) [] = []
channel_names (suc fuel) (c ∷ text) =
    before_comma (c ∷ text)
    ∷ elim (after_comma (c ∷ text)) [ none ↦ [] | some rest ↦ channel_names fuel rest ]

unfoldable pub get_or_create_channel : Text → Server → Server
get_or_create_channel name s = record s { channels = insert name (new_channel name) s.channels }

-- `_pendingJoins[name]`, which makes an empty set where there is none, and a change of it.
unfoldable pub modify_pending : Text → (List ℕ → List ℕ) → Server → Server
modify_pending name f s = record s {
  pending_joins = modify name f (insert name [] s.pending_joins);
}

unfoldable pub is_human : Map ℕ Client → ℕ → Bool
is_human clients fd = on_found (find fd clients) false (λ c. not (is_bot c))

unfoldable pub has_human_member : List ℕ → Map ℕ Client → Bool
has_human_member [] clients = false
has_human_member (fd ∷ fds) clients = is_human clients fd || has_human_member fds clients

unfoldable pub rank_mark : Channel → ℕ → Text
rank_mark channel fd =
    if is_operator channel fd
    then bytes "@"
    else if is_half_operator channel fd
    then bytes "%"
    else []

-- One round of the loop that lists the members' names.
unfoldable pub add_name : Channel → Map ℕ Client → Text → ℕ → Text
add_name channel clients names fd = on_found (find fd clients) names (λ c.
    names ++ ((if is_empty names then [] else bytes " ") ++ (rank_mark channel fd ++ c.nickname)))

unfoldable pub names_of : Channel → Map ℕ Client → Text → List ℕ → Text
names_of channel clients names [] = names
names_of channel clients names (fd ∷ fds) =
    names_of channel clients (add_name channel clients names fd) fds

-- The member's entry into the channel, before anybody is told.
unfoldable pub enter : ℕ → Text → Map ℕ Client → Channel → Channel
enter fd nick clients channel =
    let entered = remove_invite fd (add_client fd channel) in
    if not (nick == bytes "ircbot") && not (has_human_member channel.clients clients)
    then add_operator fd entered
    else entered

unfoldable pub names_line : Text → Text → Text → Text
names_line nick name names =
    server_line (bytes "353 " ++ (nick ++ (bytes " = " ++ (name ++ (bytes " :" ++ names)))))

unfoldable pub end_of_names_line : Text → Text → Text
end_of_names_line nick name =
    server_line (bytes "366 " ++ (nick ++ (bytes " " ++ (name ++ bytes " :End of /NAMES list."))))

unfoldable pub welcome : ℕ → Text → Text → Channel → Server → Server
welcome fd nick name channel s =
    let message = user_line nick (bytes "JOIN " ++ name) in
    let told = append_out fd message (broadcast_to_channel channel (some fd) message s) in
    let names = names_of channel told.clients [] channel.clients in
    enable_write fd (
      append_out fd (end_of_names_line nick name) (append_out fd (names_line nick name names) told))

unfoldable pub admit : ℕ → Text → Text → Channel → Server → Server
admit fd nick name channel s =
    let channel' = enter fd nick s.clients channel in
    welcome fd nick name channel' (put_channel name channel' (modify_pending name (set_erase fd) s))

-- A channel that the client may not enter answers 473, 475 or 471.
unfoldable pub refuse : ℕ → Text → Text → Text → Server → Server
refuse fd number name mode s =
    deliver fd
      (server_line (
        number
        ++ (bytes " " ++ (name ++ (bytes " :Cannot join channel (" ++ (mode ++ bytes ")"))))))
      s

unfoldable pub lacks_invite : ℕ → Channel → Bool
lacks_invite fd channel = channel.invite_only && not (is_invited channel fd)

-- `keys` is what follows the channels among the parameters; its first is the key that is offered.
unfoldable pub wrong_key : List Text → Channel → Bool
wrong_key [] channel = channel.key_enabled
wrong_key (key ∷ keys) channel = channel.key_enabled && not (key == channel.key)

unfoldable pub is_full : Channel → Bool
is_full channel = channel.limit_enabled && leb channel.limit (length channel.clients)

unfoldable pub knock : ℕ → Text → List Text → Text → Channel → Server → Server
knock fd nick keys name channel s =
    if has_client channel fd
    then s
    else if lacks_invite fd channel
    then refuse fd (bytes "473") name (bytes "+i") (modify_pending name (set_insert fd) s)
    else if wrong_key keys channel
    then refuse fd (bytes "475") name (bytes "+k") s
    else if is_full channel
    then refuse fd (bytes "471") name (bytes "+l") s
    else admit fd nick name channel s

unfoldable pub starts_with_hash : Text → Bool
starts_with_hash [] = false
starts_with_hash (c ∷ text) = c == b'#'

unfoldable pub join_channel : ℕ → Text → List Text → Text → Server → Server
join_channel fd nick keys name s =
    let s' = get_or_create_channel name s in
    on_found (find name s'.channels) s' (λ channel. knock fd nick keys name channel s')

unfoldable pub join_one : ℕ → Text → List Text → Text → Server → Server
join_one fd nick keys name s =
    if name == bytes "0"
    then s
    else if starts_with_hash name
    then join_channel fd nick keys name s
    else s

unfoldable pub join_all : ℕ → Text → List Text → List Text → Server → Server
join_all fd nick keys [] s = s
join_all fd nick keys (name ∷ names) s = join_all fd nick keys names (join_one fd nick keys name s)

unfoldable pub join_params : ℕ → Text → List Text → Server → Server
join_params fd nick [] s = deliver fd (server_line (bytes "461 * JOIN :Not enough parameters")) s
join_params fd nick (channels ∷ keys) s =
    join_all fd nick keys (channel_names (length channels) channels) s

-- `handleJoin` reads nothing of the command but its parameters.
unfoldable pub handle_join : ℕ → List Text → Server → Server
handle_join fd params s = on_found (find fd s.clients) s λ c.
    if not c.registered then deliver fd not_registered s else join_params fd c.nickname params s
