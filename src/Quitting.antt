-- ===== src/Quitting.antt =====
-- QUIT (`handleQuit` of src/Messages.cpp) as a run of effects, and the end of the connection.
use internet_relay_chat_msn.Validity.Kept.{Run-Polls}
use internet_relay_chat_msn.Serving.Indices.{poll_index-Polls}
use internet_relay_chat_msn.Forgotten.{index-of_client}
use internet_relay_chat_msn.Departure.Loop.{disconnect_channels-Run, quit_channels-Run}
use internet_relay_chat_msn.Effects.Rules.{Run-trans}
use internet_relay_chat_msn.Polling.{poll_index-get_elem?, same_fd_at}
use internet_relay_chat_msn.Parser.{parse}
use internet_relay_chat_msn.Map.{find}
use internet_relay_chat_msn.Client.{Client}
use internet_relay_chat_msn.Validity.{IsValid, Run-IsValid}
use internet_relay_chat_msn.Text.{Text, bytes}
use internet_relay_chat_msn.Server.{Server, user_line, PollFd}
use internet_relay_chat_msn.Messages.{handle_quit, quit_reason, quit_channels}
use internet_relay_chat_msn.Dispatch.{process_command, run_command, run_verb, verb_of, quit}
use internet_relay_chat_msn.Base.{ℕ, get_elem?, on_found, List, ◌≡◌, some, nat_key, ◌++◌, refl, ◌∙◌}
use internet_relay_chat_msn.Connection.{
  disconnect_fd, disconnect_client, drop_poll_fd, poll_index, forget_client, disconnect_channels,
}
use internet_relay_chat_msn.Effects.{other, Run}

-- What the client does to the channels and to the other clients, and then it is forgotten, with the entry
-- of its own descriptor in the table of polled descriptors.
pub record LeavesBy (fd : ℕ) (s t : Server) : Type 0 where
  pub last : Server
  pub run : Run fd other s last
  pub index : ℕ
  pub entry : PollFd
  pub there : get_elem? last.poll_fds index ≡ some entry
  pub own : entry.fd ≡ fd
  pub ended : t ≡ drop_poll_fd index (forget_client fd last)

disconnect_fd-LeavesBy :
    (fd i : ℕ) (s t : Server)
    → Run fd other s t
    → IsValid t
    → poll_index fd t.poll_fds ≡ some i
    → LeavesBy fd s (disconnect_fd fd t)
unfolding disconnect_fd disconnect_client on_found
disconnect_fd-LeavesBy fd i s t r v at_index =
    let (p, there, same) = poll_index-get_elem? fd i t.poll_fds at_index in
    let leaves = disconnect_channels-Run fd t v.tables.channels v.peopled in
    let u = disconnect_channels fd t.channels t in
    let (q, kept, own) = same_fd_at i p t.poll_fds u.poll_fds ((Run-Polls leaves).0) there in
    record {
      last = u;
      run = Run-trans r leaves;
      index = i;
      entry = q;
      there = kept;
      own = own ∙ same;
      ended = rw (at_index, there, same) refl;
    }

handle_quit-LeavesBy :
    (fd : ℕ) (params : List Text) (c : Client) (s : Server)
    → IsValid s
    → find fd s.clients ≡ some c
    → LeavesBy fd s (handle_quit fd params s)
unfolding handle_quit on_found
handle_quit-LeavesBy fd params c s v f =
    let message = user_line c.nickname (bytes "QUIT :" ++ quit_reason params) in
    let t = quit_channels fd message s.channels s in
    let r : Run fd other s t = quit_channels-Run fd message s v.tables.channels v.peopled in
    let (i, at_index) = index-of_client fd c s v f in
    rw f (
      disconnect_fd-LeavesBy fd i s t r (Run-IsValid r v)
        (poll_index-Polls fd s t (Run-Polls r) ∙ at_index))

-- In a valid state, QUIT of a connected client changes the server by a run of effects, each of which the
-- specification permits to that client as to one that asks nothing of the registration; then the client is
-- erased from `_clients` and `_pendingJoins`, and one entry of its own descriptor from `_pollFds`.
pub process_command-LeavesBy :
    (fd : ℕ) (line : Text) (c : Client) (s : Server)
    → verb_of (parse line).command ≡ quit
    → IsValid s
    → find fd s.clients ≡ some c
    → LeavesBy fd s (process_command fd line s)
unfolding process_command run_command run_verb on_found
process_command-LeavesBy fd line c s quits v f =
    rw (f, quits) (handle_quit-LeavesBy fd (parse line).params c s v f)
