-- ===== src/Events.antt =====
-- A client read, and its lines run, by src/Server.cpp: each event on the whole state.
use internet_relay_chat_msn.Server.{is_connected}
use internet_relay_chat_msn.Validity.Kept.{Run-Polls}
use internet_relay_chat_msn.Base.{some, none, inl, inr}
use internet_relay_chat_msn.Departure.Loop.{quit_channels-Run}
use internet_relay_chat_msn.Effects.Refinement.{process_command-Run}
use internet_relay_chat_msn.Disconnection.{disconnect_client-IsValid}
use internet_relay_chat_msn.Effects.Accounts.{keep-AreHonest}
use internet_relay_chat_msn.Parser.{parse}
use internet_relay_chat_msn.Extraction.{
  modify_client-ArePeopled, extract_commands-found, find-modify_client,
}
use internet_relay_chat_msn.Dispatch.Verbs.{quit-cases}
use internet_relay_chat_msn.Effects.Wakeup.{modify_client-AreAwake}
use internet_relay_chat_msn.Polling.{poll_index-get_elem?}
use internet_relay_chat_msn.Validity.{IsValid, Run-IsValid}
use internet_relay_chat_msn.Map.{find}
use internet_relay_chat_msn.Client.{Client, append_to_in_buffer}
use internet_relay_chat_msn.Server.{Server, modify_client, user_line}
use internet_relay_chat_msn.Text.{Text, bytes}
use internet_relay_chat_msn.Validity.Entries.{modify_client-Tables}
use internet_relay_chat_msn.Messages.{handle_quit, quit_reason}
use internet_relay_chat_msn.Dispatch.{
  extract_loop, handle_client_read, process_command, process_line, run_command, run_verb,
  set_in_buffer, verb_of, after_newline, chomp, before_newline, extract_commands,
}
use internet_relay_chat_msn.Base.{
  ℕ, on_found, List, ◌==◌, suc, Bool-cases, ◌≡◌, Option, Option-cases, some, is_empty, false, arith,
  inl, inr, nat_beq_iff, refl, nat_key, ◌++◌, zero,
}
use internet_relay_chat_msn.Connection.{disconnect_fd, poll_index}

-- A client that is connected is not the server's own descriptor.
pub client-apart :
    (fd : ℕ) (c : Client) (s : Server)
    → IsValid s
    → find fd s.clients ≡ some c
    → (s.listen_fd == fd) ≡ false
unfolding is_connected
client-apart fd c s v f = ground (arith, v.tables.listening, nat_beq_iff s.listen_fd fd)

pub disconnect_fd-IsValid :
    (fd : ℕ) (s : Server) → (s.listen_fd == fd) ≡ false → IsValid s → IsValid (disconnect_fd fd s)
unfolding disconnect_fd on_found
disconnect_fd-IsValid fd s client v = elim (Option-cases (poll_index fd s.poll_fds)) [
  | inl absent ↦ rw absent v
  | inr (index, at_index) ↦
      let (p, there, same) = poll_index-get_elem? fd index s.poll_fds at_index in
      rw at_index (disconnect_client-IsValid index p s there (rw same client) v)
]

pub handle_quit-IsValid :
    (fd : ℕ) (params : List Text) (c : Client) (s : Server)
    → find fd s.clients ≡ some c
    → IsValid s
    → IsValid (handle_quit fd params s)
unfolding handle_quit on_found
handle_quit-IsValid fd params c s f v =
    let message = user_line c.nickname (bytes "QUIT :" ++ quit_reason params) in
    let r = quit_channels-Run fd message s v.tables.channels v.peopled in
    rw f (
      disconnect_fd-IsValid fd _ (rw ((Run-Polls r).1) (client-apart fd c s v f)) (Run-IsValid r v))

-- A line of any client, QUIT included, keeps the state valid.
pub process_command-IsValid :
    (fd : ℕ) (line : Text) (s : Server) → IsValid s → IsValid (process_command fd line s)
unfolding process_command run_command run_verb on_found
process_command-IsValid fd line s v = elim (quit-cases (verb_of (parse line).command)) [
  | inl quits ↦ elim (Option-cases (find fd s.clients)) [
    | inl gone ↦ rw gone v
    | inr (c, f) ↦ rw (f, quits) (handle_quit-IsValid fd (parse line).params c s f v)
  ]
  | inr stays ↦ Run-IsValid (process_command-Run fd line s stays v.peopled) v
]

pub process_line-IsValid :
    (fd : ℕ) (line : Text) (s : Server) → IsValid s → IsValid (process_line fd line s)
unfolding process_line
process_line-IsValid fd line s v = elim (Bool-cases (is_empty line)) [
  | inl blank ↦ rw blank v
  | inr text ↦ rw text (process_command-IsValid fd line s v)
]

-- A write to a client's input.
pub input-IsValid :
    (fd : ℕ) (f : Client → Text) (s : Server)
    → IsValid s
    → IsValid (modify_client fd (λ c. record c { in_buffer = f c }) s)
input-IsValid fd f s v = record {
  peopled = modify_client-ArePeopled fd _ s (λ c r. r) v.peopled;
  honest =
      unfold modify_client in
      keep-AreHonest fd _ s.clients (λ c. refl)
        (λ c g h. record {
          password = h.password;
          nickname = h.nickname;
          passed = h.passed;
          named = h.named;
          identified = h.identified;
        })
        v.honest;
  awake = modify_client-AreAwake fd _ s (λ c. refl) v.awake;
  tables = modify_client-Tables fd _ s (λ c r. r) v.tables;
}

extract_loop-IsValid : (fuel fd : ℕ) (s : Server) → IsValid s → IsValid (extract_loop fuel fd s)
unfolding extract_loop on_found set_in_buffer
extract_loop-IsValid zero fd s v = v
extract_loop-IsValid (suc fuel) fd s v = elim (Option-cases (find fd s.clients)) [
  | inl gone ↦ rw gone v
  | inr (c, f) ↦ elim (Option-cases (after_newline c.in_buffer)) [
    | inl last ↦ rw (f, last) v
    | inr (rest, more) ↦
        rw (f, more)
          (extract_loop-IsValid fuel fd _ (
            process_line-IsValid fd (chomp (before_newline c.in_buffer)) _
              (input-IsValid fd (λ d. rest) s v)))
  ]
]

pub handle_client_read-IsValid :
    (fd : ℕ) (received : Option Text) (s : Server)
    → IsValid s
    → IsValid (handle_client_read fd received s)
unfolding handle_client_read on_found append_to_in_buffer
handle_client_read-IsValid fd received s v = elim (Option-cases (find fd s.clients)) [
  | inl gone ↦ rw gone v
  | inr (c, f) ↦ rw f (by_bytes c f received)
]
  where
    by_bytes :
        (c : Client)
        → find fd s.clients ≡ some c
        → (o : Option Text)
        → IsValid (elim o [
          | none ↦ disconnect_fd fd s
          | some text ↦ extract_commands fd (modify_client fd (append_to_in_buffer text) s)
        ])
    by_bytes c f none = disconnect_fd-IsValid fd s (client-apart fd c s v f) v
    by_bytes c f (some text) =
        rw
          (extract_commands-found fd (append_to_in_buffer text c)
            (modify_client fd (append_to_in_buffer text) s)
            (find-modify_client fd (append_to_in_buffer text) c s f))
          (extract_loop-IsValid _ fd _ (input-IsValid fd (λ d. d.in_buffer ++ text) s v))
