-- ===== src/ChannelCommands/Succession.antt =====
-- `promoteSuccessor` of src/ChannelCommands.cpp: what it does where an operator is missing.
use internet_relay_chat_msn.Base.{
  ℕ, Bool, false, not, ◌&&◌, ◌||◌, Option, none, some, List, [], ◌∷◌, ◌++◌, ◌==◌, on_found,
  if◌then◌else◌, nat_key, bytes_key, is_empty,
}
use internet_relay_chat_msn.Map.{Map, find}
use internet_relay_chat_msn.Text.{Text, bytes}
use internet_relay_chat_msn.Client.{Client}
use internet_relay_chat_msn.Channel.{
  Channel, has_operator, is_half_operator, remove_half_operator, add_operator,
}
use internet_relay_chat_msn.Server.{Server, is_fd, put_channel, broadcast_to_channel, server_line}

unfoldable pub is_bot : Client → Bool
is_bot c = c.nickname == bytes "ircbot"

-- The loop over the members: the first that is connected, not excluded and not the bot.
unfoldable pub can_succeed : Option ℕ → Map ℕ Client → ℕ → Bool
can_succeed excluded clients fd =
    on_found (find fd clients) false (λ c. not (is_fd excluded fd) && not (is_bot c))

unfoldable pub first_successor : List ℕ → Option ℕ → Map ℕ Client → Option ℕ
first_successor [] excluded clients = none
first_successor (fd ∷ fds) excluded clients =
    if can_succeed excluded clients fd then some fd else first_successor fds excluded clients

unfoldable pub or_excluded : Option ℕ → Option ℕ → Option ℕ
or_excluded none excluded = excluded
or_excluded (some fd) excluded = some fd

unfoldable pub choose_successor : List ℕ → List ℕ → Option ℕ → Map ℕ Client → Option ℕ
choose_successor [] members excluded clients =
    or_excluded (first_successor members excluded clients) excluded
choose_successor (half ∷ halves) members excluded clients = some half

unfoldable pub without_half : ℕ → Channel → Channel
without_half fd channel =
    if is_half_operator channel fd then remove_half_operator fd channel else channel

unfoldable pub mode_line : Text → Text → Text → Text
mode_line name mode nick =
    server_line (bytes "MODE " ++ (name ++ (bytes " " ++ (mode ++ (bytes " " ++ nick)))))

unfoldable pub announce_half : Text → ℕ → Text → Channel → Server → Server
announce_half name fd nick channel s =
    if is_half_operator channel fd
    then broadcast_to_channel (remove_half_operator fd channel) none
        (mode_line channel.name (bytes "-h") nick)
        (put_channel name (remove_half_operator fd channel) s)
    else s

unfoldable pub promote : Text → ℕ → Text → Channel → Server → Server
promote name fd nick channel s =
    let promoted = add_operator fd (without_half fd channel) in
    broadcast_to_channel promoted none (mode_line channel.name (bytes "+o") nick)
      (put_channel name promoted (announce_half name fd nick channel s))

-- `channel` is what stands in the map under `name`.
unfoldable pub promote_successor : Text → Channel → Option ℕ → Server → Server
promote_successor name channel excluded s =
    if has_operator channel || is_empty channel.clients
    then s
    else on_found (choose_successor channel.half_operators channel.clients excluded s.clients) s
        (λ fd. on_found (find fd s.clients) s (λ c. promote name fd c.nickname channel s))
