-- ===== src/Extraction/Line.antt =====
-- `processCommand` of src/Server.cpp: the client that sent the line, afterwards.
use internet_relay_chat_msn.Polling.{poll_index-get_elem?}
use internet_relay_chat_msn.Dispatch.Verbs.{quit-cases}
use internet_relay_chat_msn.Effects.Refinement.{process_command-Run, process_command-ArePeopled}
use internet_relay_chat_msn.Parser.{parse}
use internet_relay_chat_msn.Dispatch.{process_command, verb_of}
use internet_relay_chat_msn.Effects.Membership.{ArePeopled}
use internet_relay_chat_msn.Map.{find, find-erase}
use internet_relay_chat_msn.Client.{Client}
use internet_relay_chat_msn.Text.{Text, bytes}
use internet_relay_chat_msn.Server.{Server, user_line}
use internet_relay_chat_msn.Messages.{handle_quit, quit_reason}
use internet_relay_chat_msn.Connection.{
  disconnect_fd, poll_index, disconnect_client, drop_poll_fd, forget_client,
}
use internet_relay_chat_msn.Base.{
  ℕ, ◌≡◌, refl, Option, none, some, List, on_found, nat_beq_iff, nat_key, ◌++◌, ◌∙◌, ◌⊎◌, inr, inl,
}
use internet_relay_chat_msn.Dispatch.{run_command, run_verb}
use mathlib.Core.Option.{some-injective}
use internet_relay_chat_msn.Extraction.Frame.{input_of, Run-Keeps, quit_channels-Keeps}

-- Nothing of a client is found once its descriptor is disconnected.
pub disconnect_fd-gone :
    (fd index : ℕ) (s : Server)
    → poll_index fd s.poll_fds ≡ some index
    → find fd (disconnect_fd fd s).clients ≡ none
unfolding disconnect_fd disconnect_client drop_poll_fd forget_client on_found
disconnect_fd-gone fd index s at_index =
    let (p, there, same) = poll_index-get_elem? fd index s.poll_fds at_index in
    rw (at_index, there, same, find-erase, (nat_beq_iff fd fd).1 refl) refl

-- After QUIT, a client that was polled is gone.
pub handle_quit-gone :
    (fd index : ℕ) (params : List Text) (c : Client) (s : Server)
    → find fd s.clients ≡ some c
    → poll_index fd s.poll_fds ≡ some index
    → find fd (handle_quit fd params s).clients ≡ none
unfolding handle_quit on_found
handle_quit-gone fd index params c s f at_index = rw f (
    disconnect_fd-gone fd index _ (
      (quit_channels-Keeps fd fd (user_line c.nickname (bytes "QUIT :" ++ quit_reason params))
        s.channels s).index
      ∙ at_index))

-- A client that a line of its own may have disconnected, and otherwise the input that it had.
abbrev pub Continues : (fd index : ℕ) (input : Text) (t : Server) → Type 0
Continues fd index input t =
    (find fd t.clients ≡ none)
    ⊎ (ArePeopled t
        × (poll_index fd t.poll_fds ≡ some index)
        × ((d : Client) × (find fd t.clients ≡ some d) × (d.in_buffer ≡ input)))

input_of-found :
    (fd : ℕ) (input : Text) (t : Server)
    → input_of fd t.clients ≡ some input
    → (d : Client) × (find fd t.clients ≡ some d) × (d.in_buffer ≡ input)
unfolding input_of
input_of-found fd input t h = go (find fd t.clients) h
  where
    go :
        (o : Option Client)
        → on_found o none (λ c. some c.in_buffer) ≡ some input
        → (d : Client) × (o ≡ some d) × (d.in_buffer ≡ input)
    go none e = unfold on_found in cc
    go (some d) e = (d, refl, some-injective _ _ (unfold on_found in e))

pub process_command-Continues :
    (fd index : ℕ) (line : Text) (c : Client) (s : Server)
    → ArePeopled s
    → poll_index fd s.poll_fds ≡ some index
    → find fd s.clients ≡ some c
    → Continues fd index c.in_buffer (process_command fd line s)
unfolding process_command run_command run_verb on_found
process_command-Continues fd index line c s v at_index f =
    elim (quit-cases (verb_of (parse line).command)) [
      | inl quits ↦
          inl (rw (f, quits) (handle_quit-gone fd index (parse line).params c s f at_index))
      | inr stays ↦
          let k = Run-Keeps fd (process_command-Run fd line s stays v) in
          inr (
            process_command-ArePeopled fd line s stays v,
            k.index ∙ at_index,
            input_of-found fd c.in_buffer (process_command fd line s) (k.input ∙ known),
          )
    ]
  where
    known : input_of fd s.clients ≡ some c.in_buffer
    known = unfold input_of in unfold on_found in rw f refl
