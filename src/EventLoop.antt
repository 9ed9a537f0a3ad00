-- ===== src/EventLoop.antt =====
-- `Server::run` of src/Server.cpp: the rounds over `_pollFds`. What poll(), accept(), fcntl(), recv() and
-- send() return is an argument.
pub mod Measure
pub mod Ends
pub mod Runs
pub mod Turns
pub mod Entry
use internet_relay_chat_msn.Dispatch.{handle_client_read}
use internet_relay_chat_msn.Base.{none, some}
use internet_relay_chat_msn.Connection.{
  new_poll_fd, flush_client_write, disconnect_client, accept_new_client,
}
use internet_relay_chat_msn.Server.{Revents, Server, PollFd, is_connected}
use internet_relay_chat_msn.Text.{Text}
use internet_relay_chat_msn.Base.{
  Bool, List, Option, ℕ, ◌∷◌, suc, not, on_found, ◌&&◌, length, if◌then◌else◌, [], get_elem?, ◌==◌,
  zero, nat_key,
}

-- What the system answers while one entry is served: `accepted` and `sent` as for `acceptNewClient` and
-- `flushClientWrite`, `received` as for `handleClientRead`.
pub record Answer : Type 0 where
  pub accepted : Option ℕ
  pub non_blocking : Bool
  pub received : Option Text
  pub sent : Option ℕ

-- `events == 0`.
unfoldable pub is_idle : Revents → Bool
is_idle e = not e.pollin && not e.pollout && not e.pollerr_or_nval && not e.pollhup

-- The parts of the body of the loop, each with the index of the next round: an entry that was taken
-- away has another in its place, so that the index stays.
unfoldable pub hang_up : ℕ → PollFd → Server → ℕ × Server
hang_up i p s = if p.revents.pollhup then (i, disconnect_client i s) else (suc i, s)

unfoldable pub serve_output : Answer → ℕ → PollFd → Server → ℕ × Server
serve_output a i p s =
    let t = flush_client_write p.fd a.sent s in
    if not p.revents.pollout
    then hang_up i p s
    else if is_connected p.fd t.clients
    then hang_up i p t
    else (i, t)

unfoldable pub serve_input : Answer → ℕ → PollFd → Server → ℕ × Server
serve_input a i p s =
    let t = handle_client_read p.fd a.received s in
    if not p.revents.pollin
    then serve_output a i p s
    else if is_connected p.fd t.clients
    then serve_output a i p t
    else (i, t)

unfoldable pub serve_entry : Answer → ℕ → PollFd → Server → ℕ × Server
serve_entry a i p s =
    if is_idle p.revents
    then (suc i, s)
    else if p.fd == s.listen_fd
    then (suc i, (if p.revents.pollin then accept_new_client a.accepted a.non_blocking s else s))
    else if p.revents.pollerr_or_nval
    then (i, disconnect_client i s)
    else serve_input a i p s

-- What the system answers to the n-th entry that is served in a round.
abbrev pub Answers : Type 0
Answers = ℕ → Server → Answer

-- `for (size_t i = 0; i < _pollFds.size();)`, from the n-th entry on, with the index at which it ends.
unfoldable pub serve_from : ℕ → Answers → ℕ → ℕ → Server → ℕ × Server
serve_from zero answers n i s = (i, s)
serve_from (suc fuel) answers n i s =
    on_found (get_elem? s.poll_fds i) (i, s)
      λ p.
        let next = serve_entry (answers n s) i p s in serve_from fuel answers (suc n) next.0 next.1

-- One entry more than are polled is fuel enough: a round accepts once.
unfoldable pub serve_round : Answers → Server → Server
serve_round answers s = (serve_from (suc (length s.poll_fds)) answers 0 0 s).1

-- poll() writes `revents` of every entry.
unfoldable pub report : (ℕ → Revents) → List PollFd → List PollFd
report reported [] = []
report reported (p ∷ ps) = record p { revents = reported p.fd } ∷ report reported ps

-- What happens from one test of `_shutdown` to the next: `polled` is how many descriptors poll() found
-- ready and what it reported of each, `none` if it failed.
pub record Round : Type 0 where
  pub shut_down : Bool
  pub polled : Option (ℕ × (ℕ → Revents))
  pub shut_down_while_polling : Bool
  pub answers : Answers

-- `run` returns when it is shut down, throws when poll() fails, and has not ended where its rounds have.
pub data Progress : Type 0 where
  running : Server → Progress
  returned : Server → Progress
  threw : Server → Progress

unfoldable pub run : List Round → Server → Progress
run [] s = running s
run (r ∷ rounds) s = if r.shut_down then returned s else elim r.polled [
  | none ↦ if r.shut_down_while_polling then returned s else threw s
  | some (ready, reported) ↦
      if ready == 0
      then run rounds s
      else run rounds (serve_round r.answers (record s { poll_fds = report reported s.poll_fds }))
]

-- The server after `setupSocket`: its own descriptor is polled, and nothing else is there.
unfoldable pub started : Text → ℕ → Server
started password listen_fd = record {
  password = password;
  listen_fd = listen_fd;
  poll_fds = new_poll_fd listen_fd ∷ [];
  clients = [];
  channels = [];
  pending_joins = [];
}
