-- ===== src/Connection.antt =====
-- src/Server.cpp: a connection accepted, written to and closed. What accept(), fcntl() and send()
-- returned is an argument.
use internet_relay_chat_msn.Base.{
  ℕ, zero, suc, Bool, true, false, Option, none, some, List, [], ◌∷◌, ◌++◌, ◌==◌, on_found,
  if◌then◌else◌, nat_key, bytes_key, is_empty, get_elem?, take, drop,
}
use internet_relay_chat_msn.Map.{Map, find, insert, erase, set_erase}
use internet_relay_chat_msn.Text.{Text}
use internet_relay_chat_msn.Client.{Client, new_client}
use internet_relay_chat_msn.Channel.{Channel, has_client}
use internet_relay_chat_msn.Server.{
  Server, PollFd, Revents, put_channel, modify_client, visit_channels,
}
use internet_relay_chat_msn.ChannelCommands.Succession.{promote_successor}
use internet_relay_chat_msn.ChannelCommands.Part.{erase_channel, without_member}

-- `_pollFds[index] = _pollFds.back(); _pollFds.pop_back();`
unfoldable pub last_or : PollFd → List PollFd → PollFd
last_or p [] = p
last_or p (q ∷ ps) = last_or q ps

unfoldable pub pop_back : List PollFd → List PollFd
pop_back [] = []
pop_back (p ∷ []) = []
pop_back (p ∷ q ∷ ps) = p ∷ pop_back (q ∷ ps)

unfoldable pub write_at : ℕ → PollFd → List PollFd → List PollFd
write_at index v [] = []
write_at zero v (p ∷ ps) = v ∷ ps
write_at (suc index) v (p ∷ ps) = p ∷ write_at index v ps

unfoldable pub swap_remove : ℕ → List PollFd → List PollFd
swap_remove index [] = []
swap_remove index (p ∷ ps) = pop_back (write_at index (last_or p ps) (p ∷ ps))

-- The first loop of `disconnectClient`: the client leaves every channel.
unfoldable pub disconnect_channel : ℕ → Text → Channel → Server → Server
disconnect_channel fd name channel s =
    let channel' = without_member fd channel in
    let s' = put_channel name channel' s in
    if is_empty channel'.clients
    then erase_channel name s'
    else if has_client channel fd
    then promote_successor name channel' none s'
    else s'

unfoldable pub disconnect_channels : ℕ → Map Text Channel → Server → Server
disconnect_channels fd = visit_channels (disconnect_channel fd)

-- The second loop: the client waits for no channel, and a set left empty goes.
unfoldable pub forget_pending : ℕ → Map Text (List ℕ) → Map Text (List ℕ)
forget_pending fd [] = []
forget_pending fd ((name, waiting) ∷ rest) =
    let left = set_erase fd waiting in
    let others = forget_pending fd rest in if is_empty left then others else (name, left) ∷ others

unfoldable pub forget_client : ℕ → Server → Server
forget_client fd s = record s {
  clients = erase fd s.clients;
  pending_joins = forget_pending fd s.pending_joins;
}

unfoldable pub drop_poll_fd : ℕ → Server → Server
drop_poll_fd index s = record s { poll_fds = swap_remove index s.poll_fds }

-- An index out of range does not occur: the callers take it from a search of `_pollFds`.
unfoldable pub disconnect_client : ℕ → Server → Server
disconnect_client index s =
    on_found (get_elem? s.poll_fds index) s
      λ p. drop_poll_fd index (forget_client p.fd (disconnect_channels p.fd s.channels s))

unfoldable pub poll_index : ℕ → List PollFd → Option ℕ
poll_index fd [] = none
poll_index fd (p ∷ ps) =
    if p.fd == fd
    then some 0
    else elim (poll_index fd ps) [ none ↦ none | some index ↦ some (suc index) ]

-- The loop over `_pollFds` that QUIT, a failed read and a failed write share.
unfoldable pub disconnect_fd : ℕ → Server → Server
disconnect_fd fd s = on_found (poll_index fd s.poll_fds) s (λ index. disconnect_client index s)

unfoldable pub no_events : Revents
no_events = record { pollin = false; pollout = false; pollerr_or_nval = false; pollhup = false }

unfoldable pub new_poll_fd : ℕ → PollFd
new_poll_fd fd = record { fd = fd; pollin = true; pollout = false; revents = no_events }

unfoldable pub add_client : ℕ → Server → Server
add_client fd s = record s {
  poll_fds = s.poll_fds ++ new_poll_fd fd ∷ [];
  clients = insert fd (new_client (some fd)) s.clients;
}

-- `accepted` is the descriptor of accept(), `none` if it failed; `non_blocking` is whether fcntl() did.
unfoldable pub accept_new_client : Option ℕ → Bool → Server → Server
accept_new_client accepted non_blocking s =
    on_found accepted s (λ fd. if non_blocking then add_client fd s else s)

unfoldable pub clear_pollout : ℕ → List PollFd → List PollFd
clear_pollout fd [] = []
clear_pollout fd (p ∷ ps) =
    if p.fd == fd then record p { pollin = true; pollout = false } ∷ ps else p ∷ clear_pollout fd ps

unfoldable pub disable_write : ℕ → Server → Server
disable_write fd s = record s { poll_fds = clear_pollout fd s.poll_fds }

unfoldable pub erase_out : ℕ → Client → Client
erase_out n c = record c { out_buffer = drop n c.out_buffer }

-- What send() is given at most, and the bytes that it is given.
abbrev pub max_send : ℕ
max_send = 4096

unfoldable pub offered : Client → Text
offered c = take max_send c.out_buffer

unfoldable pub flush_sent : ℕ → ℕ → Client → Server → Server
flush_sent fd n c s =
    if is_empty (drop n c.out_buffer)
    then disable_write fd (modify_client fd (erase_out n) s)
    else modify_client fd (erase_out n) s

-- `sent` is what send() returned, `none` if it failed. A queue that is empty is not sent.
unfoldable pub flush_client_write : ℕ → Option ℕ → Server → Server
flush_client_write fd sent s = on_found (find fd s.clients) s λ c.
    if is_empty c.out_buffer then s else elim sent [
      | none ↦ disconnect_fd fd s
      | some n ↦ if n == 0 then s else flush_sent fd n c s
    ]
