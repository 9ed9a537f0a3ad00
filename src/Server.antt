-- ===== src/Server.antt =====
-- inc/Server.hpp and the output helpers of src/Server.cpp: the server's state, a client's output
-- queue and its wake-up, and the delivery of a message to a channel.
use internet_relay_chat_msn.Map.Keys.{is_some}
use internet_relay_chat_msn.Base.{
  ℕ, Bool, true, false, not, ◌&&◌, Option, none, some, List, [], ◌∷◌, ◌==◌, on_found, ◌++◌,
  if◌then◌else◌, nat_key, bytes_key,
}
use internet_relay_chat_msn.Map.{Map, find, modify}
use internet_relay_chat_msn.Text.{Text, bytes}
use internet_relay_chat_msn.Client.{Client, append_to_out_buffer}
use internet_relay_chat_msn.Channel.{Channel, has_client}

-- What poll() reported of a descriptor.
pub record Revents : Type 0 where
  pub pollin : Bool
  pub pollout : Bool
  pub pollerr_or_nval : Bool
  pub pollhup : Bool

-- struct pollfd; `pollin` and `pollout` are the two bits of its `events`.
pub record PollFd : Type 0 where
  pub fd : ℕ
  pub pollin : Bool
  pub pollout : Bool
  pub revents : Revents

pub record Server : Type 0 where
  pub password : Text
  pub listen_fd : ℕ
  pub poll_fds : List PollFd
  pub clients : Map ℕ Client
  pub channels : Map Text Channel
  pub pending_joins : Map Text (List ℕ)

-- `_clients.find(fd)->second`, written through.
unfoldable pub modify_client : ℕ → (Client → Client) → Server → Server
modify_client fd f s = record s { clients = modify fd f s.clients }

unfoldable pub append_out : ℕ → Text → Server → Server
append_out fd message = modify_client fd (append_to_out_buffer message)

-- The first entry of the descriptor asks for POLLOUT too.
unfoldable pub ask_pollout : ℕ → List PollFd → List PollFd
ask_pollout fd [] = []
ask_pollout fd (p ∷ ps) =
    if p.fd == fd then record p { pollout = true } ∷ ps else p ∷ ask_pollout fd ps

unfoldable pub enable_write : ℕ → Server → Server
enable_write fd s = record s { poll_fds = ask_pollout fd s.poll_fds }

-- `appendToOutBuffer` and `enableWrite`, the pair that ends most branches of the handlers.
unfoldable pub deliver : ℕ → Text → Server → Server
deliver fd message s = enable_write fd (append_out fd message s)

unfoldable pub send_reply : ℕ → Text → Server → Server
send_reply fd message s = on_found (find fd s.clients) s (λ c. deliver fd message s)

-- `_clients.find(fd) != _clients.end()`.
unfoldable pub is_connected : ℕ → Map ℕ Client → Bool
is_connected fd clients = is_some (find fd clients)

-- The write through a `Channel &` that stands in the map.
unfoldable pub put_channel : Text → Channel → Server → Server
put_channel name c s = record s { channels = modify name (λ _. c) s.channels }

-- An int that is a descriptor, or -1 as `none`: a message from the server has no sender.
unfoldable pub is_fd : Option ℕ → ℕ → Bool
is_fd none fd = false
is_fd (some other) fd = fd == other

-- The first loop of `broadcastToChannel`, over the members that are left.

unfoldable pub broadcast_members : List ℕ → Option ℕ → Text → Server → Server
broadcast_members [] sender message s = s
broadcast_members (fd ∷ fds) sender message s =
    broadcast_members fds sender message (if is_fd sender fd then s else send_reply fd message s)

-- The second loop, over the entries of `_clients`: every bot that is not a member listens in.
unfoldable pub hears_as_bot : Channel → Option ℕ → ℕ → Client → Bool
hears_as_bot channel sender fd c =
    not (is_fd sender fd) && c.nickname == bytes "ircbot" && not (has_client channel fd)

unfoldable pub broadcast_bots : Map ℕ Client → Channel → Option ℕ → Text → Server → Server
broadcast_bots [] channel sender message s = s
broadcast_bots ((fd, c) ∷ rest) channel sender message s =
    broadcast_bots rest channel sender message
      (if hears_as_bot channel sender fd c then deliver fd message s else s)

unfoldable pub broadcast_to_channel : Channel → Option ℕ → Text → Server → Server
broadcast_to_channel channel sender message s =
    let s' = broadcast_members channel.clients sender message s in
    broadcast_bots s'.clients channel sender message s'

-- ":ircserv TEXT\r\n" and ":NICK!user@localhost TEXT\r\n", the two forms of a message.
unfoldable pub server_line : Text → Text
server_line text = bytes ":ircserv " ++ (text ++ bytes "\r\n")

unfoldable pub user_line : Text → Text → Text
user_line nick text = bytes ":" ++ (nick ++ (bytes "!user@localhost " ++ (text ++ bytes "\r\n")))

unfoldable pub not_registered : Text
not_registered = server_line (bytes "451 * :You have not registered")

-- The first entry of `_clients` whose nickname is the given one, with its descriptor.
unfoldable pub find_nickname : Text → Map ℕ Client → Option (ℕ × Client)
find_nickname nick [] = none
find_nickname nick ((fd, c) ∷ rest) =
    if c.nickname == nick then some (fd, c) else find_nickname nick rest

-- `while (channel != _channels.end())`: each entry of the map in turn, whose channel a round may
-- change or erase.
unfoldable pub visit_channels :
    (Text → Channel → Server → Server) → Map Text Channel → Server → Server
visit_channels visit [] s = s
visit_channels visit ((name, channel) ∷ rest) s = visit_channels visit rest (visit name channel s)
