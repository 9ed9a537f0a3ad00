-- ===== src/Forgotten.antt =====
-- A client that has left: `handleQuit` of src/Messages.cpp and `disconnectClient` of src/Server.cpp.
use internet_relay_chat_msn.Departure.{IsAbsentAt, IsOutside}
use internet_relay_chat_msn.Departure.Loop.{disconnect_channels-absent, quit_channels-Run}
use internet_relay_chat_msn.Channel.Roles.{IsSound}
use internet_relay_chat_msn.Validity.Kept.{Run-Polls}
use internet_relay_chat_msn.Serving.Indices.{poll_index-Polls}
use internet_relay_chat_msn.Effects.{other, Run}
use internet_relay_chat_msn.Polling.{poll_index-get_elem?}
use internet_relay_chat_msn.Messages.{quit_reason, quit_channels}
use internet_relay_chat_msn.Serving.Lines.{disconnect_fd-Serves, handle_quit-Serves}
use internet_relay_chat_msn.Extraction.Line.{disconnect_fd-gone, handle_quit-gone}
use internet_relay_chat_msn.Messages.{handle_quit}
use internet_relay_chat_msn.Events.{client-apart, disconnect_fd-IsValid, handle_quit-IsValid}
use internet_relay_chat_msn.Parser.{parse}
use internet_relay_chat_msn.Channel.{Channel, has_client, is_operator, is_half_operator, is_invited}
use internet_relay_chat_msn.Polling.{fds_of}
use internet_relay_chat_msn.Text.{Text, bytes}
use internet_relay_chat_msn.Validity.{IsValid, Run-IsValid}
use internet_relay_chat_msn.Serving.{Serves, stays, goes}
use internet_relay_chat_msn.Map.{find}
use internet_relay_chat_msn.Client.{Client}
use internet_relay_chat_msn.Effects.{is_registered}
use internet_relay_chat_msn.Server.{is_connected, Server, PollFd, user_line}
use internet_relay_chat_msn.Connection.{
  poll_index, disconnect_fd, disconnect_client, drop_poll_fd, forget_client,
}
use internet_relay_chat_msn.Base.{
  ◌++◌, ℕ, contains, List, on_found, ◌≡◌, some, none, true, ◌∙◌, ◌==◌, nat_key, ◌∷◌, false,
  bytes_key, Bool-cases, refl, inl, inr, suc, [],
}
use internet_relay_chat_msn.Dispatch.{process_command, run_command, run_verb, verb_of, quit}

-- None of a channel's sets has the descriptor.
pub record IsForgottenBy (fd : ℕ) (ch : Channel) : Type 0 where
  pub client : has_client ch fd ≡ false
  pub operator : is_operator ch fd ≡ false
  pub half_operator : is_half_operator ch fd ≡ false
  pub invitation : is_invited ch fd ≡ false

-- No table of the server names the descriptor.
pub record IsForgotten (fd : ℕ) (t : Server) : Type 0 where
  pub client : find fd t.clients ≡ none
  pub channels : (name : Text) (ch : Channel) → find name t.channels ≡ some ch → IsForgottenBy fd ch
  pub pending_joins :
      (name : Text) (fds : List ℕ) → find name t.pending_joins ≡ some fds → contains fds fd ≡ false
  pub poll_fds : contains (fds_of t.poll_fds) fd ≡ false

-- Whoever is outside a sound channel has no role in it.
outside-IsForgottenBy : (fd : ℕ) (ch : Channel) → IsSound ch → IsOutside fd ch → IsForgottenBy fd ch
unfolding has_client is_operator is_half_operator is_invited
outside-IsForgottenBy fd ch v (out, uninvited) = record {
  client = out;
  operator = elim (Bool-cases (contains ch.operators fd)) [
    | inr none_such ↦ none_such
    | inl runs ↦ cc (out, v.operator_member fd runs)
  ];
  half_operator = elim (Bool-cases (contains ch.half_operators fd)) [
    | inr none_such ↦ none_such
    | inl helps ↦ cc (out, v.half_member fd helps)
  ];
  invitation = uninvited;
}

-- In a valid state, a descriptor without a client, which is outside every channel, is nowhere.
gone-IsForgotten :
    (fd : ℕ) (t : Server)
    → IsValid t
    → find fd t.clients ≡ none
    → (t.listen_fd == fd) ≡ false
    → ((name : Text) → IsAbsentAt fd name t)
    → IsForgotten fd t
unfolding is_connected is_registered on_found
gone-IsForgotten fd t v gone client absent = record {
  client = gone;
  channels =
      λ name ch h. outside-IsForgottenBy fd ch (v.peopled name ch h).sound (absent name ch h);
  pending_joins = λ name fds h. elim (Bool-cases (contains fds fd)) [
    | inr out ↦ out
    | inl waits ↦ cc (gone, v.tables.waiting name fds h fd waits)
  ];
  poll_fds = v.tables.polled fd ∙ rw (gone, client) refl;
}

-- `disconnectClient` takes the client out of every channel, and its invitations with it.
disconnect_fd-absent :
    (fd i : ℕ) (s : Server)
    → IsValid s
    → poll_index fd s.poll_fds ≡ some i
    → (name : Text) → IsAbsentAt fd name (disconnect_fd fd s)
unfolding disconnect_fd disconnect_client on_found drop_poll_fd forget_client
disconnect_fd-absent fd i s v at_index name =
    let (p, there, same) = poll_index-get_elem? fd i s.poll_fds at_index in
    rw (at_index, there, same) (disconnect_channels-absent fd s v.tables.channels v.peopled name)

-- QUIT ends with `disconnectClient`, whatever it does before.
handle_quit-absent :
    (fd i : ℕ) (params : List Text) (c : Client) (s : Server)
    → IsValid s
    → poll_index fd s.poll_fds ≡ some i
    → find fd s.clients ≡ some c
    → (name : Text) → IsAbsentAt fd name (handle_quit fd params s)
unfolding handle_quit on_found
handle_quit-absent fd i params c s v at_index f name =
    let message = user_line c.nickname (bytes "QUIT :" ++ quit_reason params) in
    let t = quit_channels fd message s.channels s in
    let r : Run fd other s t = quit_channels-Run fd message s v.tables.channels v.peopled in
    rw f (
      disconnect_fd-absent fd i t (Run-IsValid r v)
        (poll_index-Polls fd s t (Run-Polls r) ∙ at_index) name)

poll_index-polled :
    (fd : ℕ) (ps : List PollFd)
    → contains (fds_of ps) fd ≡ true
    → (i : ℕ) × (poll_index fd ps ≡ some i)
unfolding poll_index contains
poll_index-polled fd [] h = cc
poll_index-polled fd (p ∷ ps) h = elim (Bool-cases (p.fd == fd)) [
  | inl hit ↦ (0, rw hit refl)
  | inr miss ↦
      let (i, found) = poll_index-polled fd ps (rw miss at h) in (suc i, rw (miss, found) refl)
]

-- A connected client is polled.
pub index-of_client :
    (fd : ℕ) (c : Client) (s : Server)
    → IsValid s
    → find fd s.clients ≡ some c
    → (i : ℕ) × (poll_index fd s.poll_fds ≡ some i)
unfolding is_connected
index-of_client fd c s v f = poll_index-polled fd s.poll_fds (v.tables.polled fd ∙ rw f refl)

listen_fd-Serves : {fd i : ℕ} {s t : Server} → Serves fd i s t → t.listen_fd ≡ s.listen_fd
listen_fd-Serves (stays p c) = p.1
listen_fd-Serves (goes h listen gone) = listen

-- Where the state is valid, a client that is disconnected, for a failed read or write, is forgotten: it is
-- no longer among the clients, in no channel a member, an operator or a halfop, invited to none, waits for
-- none, and is not polled.
pub disconnect_fd-IsForgotten :
    (fd : ℕ) (c : Client) (s : Server)
    → IsValid s
    → find fd s.clients ≡ some c
    → IsForgotten fd (disconnect_fd fd s)
disconnect_fd-IsForgotten fd c s v f =
    let (i, at_index) = index-of_client fd c s v f in
    let client = client-apart fd c s v f in
    gone-IsForgotten fd (disconnect_fd fd s) (disconnect_fd-IsValid fd s client v)
      (disconnect_fd-gone fd i s at_index)
      (rw (listen_fd-Serves (disconnect_fd-Serves fd i s v at_index)) client)
      (disconnect_fd-absent fd i s v at_index)

-- Where the state is valid, a client that sends QUIT, whatever its parameters, is forgotten: it is no
-- longer among the clients, in no channel a member, an operator or a halfop, invited to none, waits for
-- none, and is not polled.
pub process_command-IsForgotten :
    (fd : ℕ) (line : Text) (c : Client) (s : Server)
    → verb_of (parse line).command ≡ quit
    → IsValid s
    → find fd s.clients ≡ some c
    → IsForgotten fd (process_command fd line s)
unfolding process_command run_command run_verb on_found
process_command-IsForgotten fd line c s quits v f =
    let params = (parse line).params in
    let (i, at_index) = index-of_client fd c s v f in
    rw (f, quits)
      (gone-IsForgotten fd (handle_quit fd params s) (handle_quit-IsValid fd params c s f v)
        (handle_quit-gone fd i params c s f at_index)
        (rw (listen_fd-Serves (handle_quit-Serves fd i params c s v at_index f))
          (client-apart fd c s v f))
        (handle_quit-absent fd i params c s v at_index f))
