-- ===== src/Effects/Wakeup.antt =====
-- `enableWrite` of src/Server.cpp: a client with output waiting is polled for POLLOUT.
use internet_relay_chat_msn.Effects.Refinement.{process_command-Run}
use internet_relay_chat_msn.Effects.{
  rejects, delivers, authenticates, renames, identifies, registers, creates, changes, drops, waits,
  stops_waiting, serves_waiting, here, next,
}
use internet_relay_chat_msn.Effects.Membership.{ArePeopled}
use internet_relay_chat_msn.Registration.{accept_password}
use internet_relay_chat_msn.Parser.{parse}
use internet_relay_chat_msn.ChannelCommands.Part.{erase_channel}
use internet_relay_chat_msn.Dispatch.{verb_of, quit, process_command}
use internet_relay_chat_msn.ChannelCommands.Join.{get_or_create_channel, modify_pending}
use internet_relay_chat_msn.Map.{Map, modify, map_value, find-modify, find}
use internet_relay_chat_msn.Text.{Text}
use internet_relay_chat_msn.Effects.{
  Action, append_all, Run, next, here, drop_pending, Effect, delivers, authenticates, rejects,
}
use internet_relay_chat_msn.Server.{
  PollFd, Server, ask_pollout, enable_write, modify_client, put_channel, append_out,
}
use internet_relay_chat_msn.Client.{
  Client, append_to_out_buffer, set_sent_pass, set_authenticated, add_rejected_nickname,
  set_nickname, set_username, set_registered,
}
use internet_relay_chat_msn.Base.{
  ℕ, ◌≡◌, refl, true, false, Option, none, some, List, ◌∷◌, [], Bool, if◌then◌else◌, ◌==◌, on_found,
  ◌||◌, nat_key, ◌∙◌, arith, ◌≢◌, is_empty, nat_beq_iff, ap,
}

-- Does the first entry of a descriptor, where it has one, ask for POLLOUT?
unfoldable pub wants_write : ℕ → List PollFd → Bool
wants_write fd [] = true
wants_write fd (p ∷ ps) = if p.fd == fd then p.pollout else wants_write fd ps

-- Has a client nothing to send?
unfoldable pub is_quiet : ℕ → Map ℕ Client → Bool
is_quiet fd clients = on_found (find fd clients) true (λ c. is_empty c.out_buffer)

-- Whoever has something to send is polled for it.
abbrev pub AreAwake : Server → Type 0
AreAwake s = (fd : ℕ) → (is_quiet fd s.clients || wants_write fd s.poll_fds) ≡ true

wants_write-ask_pollout :
    (k j : ℕ) (ps : List PollFd)
    → wants_write j (ask_pollout k ps) ≡ (if k == j then true else wants_write j ps)
unfolding wants_write ask_pollout
wants_write-ask_pollout k j [] = ground arith
wants_write-ask_pollout k j (p ∷ ps) =
    ground (
      arith,
      nat_beq_iff k j,
      nat_beq_iff p.fd k,
      nat_beq_iff p.fd j,
      wants_write-ask_pollout k j ps,
    )

pub is_quiet-modify_ne :
    (k j : ℕ) (f : Client → Client) (m : Map ℕ Client)
    → (k == j) ≡ false
    → is_quiet j (modify k f m) ≡ is_quiet j m
unfolding is_quiet
is_quiet-modify_ne k j f m h = rw (find-modify, h) refl

is_quiet-modify_same :
    (k j : ℕ) (f : Client → Client) (m : Map ℕ Client)
    → ((c : Client) → (f c).out_buffer ≡ c.out_buffer)
    → is_quiet j (modify k f m) ≡ is_quiet j m
unfolding is_quiet
is_quiet-modify_same k j f m same = rw find-modify (go (find j m) (k == j))
  where
    go :
        (o : Option Client) (b : Bool)
        → on_found (if b then map_value f o else o) true (λ c. is_empty c.out_buffer)
          ≡ on_found o true (λ c. is_empty c.out_buffer)
    go none true = refl
    go none false = refl
    go (some c) true = unfold on_found in ap is_empty (same c)
    go (some c) false = refl

is_quiet-append_all :
    (k j : ℕ) (messages : List Text) (s : Server)
    → (k == j) ≡ false
    → is_quiet j (append_all k messages s).clients ≡ is_quiet j s.clients
unfolding append_all append_out modify_client
is_quiet-append_all k j [] s h = refl
is_quiet-append_all k j (message ∷ messages) s h =
    is_quiet-append_all k j messages (append_out k message s) h
    ∙ is_quiet-modify_ne k j (append_to_out_buffer message) s.clients h

pub poll_fds-append_all :
    (k : ℕ) (messages : List Text) (s : Server) → (append_all k messages s).poll_fds ≡ s.poll_fds
unfolding append_all append_out modify_client
poll_fds-append_all k [] s = refl
poll_fds-append_all k (message ∷ messages) s =
    poll_fds-append_all k messages (append_out k message s)

pub or_true : (b : Bool) → (b || true) ≡ true
or_true true = refl
or_true false = refl

delivers-AreAwake :
    (k : ℕ) (messages : List Text) (s : Server)
    → AreAwake s
    → AreAwake (enable_write k (append_all k messages s))
unfolding enable_write
delivers-AreAwake k messages s v j =
    rw (wants_write-ask_pollout, poll_fds-append_all) (by_test (k == j) refl)
  where
    by_test :
        (h : Bool)
        → (k == j) ≡ h
        → (is_quiet j (append_all k messages s).clients
            || (if h then true else wants_write j s.poll_fds))
          ≡ true
    by_test true e = or_true _
    by_test false e = rw (is_quiet-append_all k j messages s e) (v j)

-- A write to a client that leaves its queue alone.
pub modify_client-AreAwake :
    (k : ℕ) (f : Client → Client) (s : Server)
    → ((c : Client) → (f c).out_buffer ≡ c.out_buffer)
    → AreAwake s
    → AreAwake (modify_client k f s)
unfolding modify_client
modify_client-AreAwake k f s same v j = rw (is_quiet-modify_same k j f s.clients same) (v j)

Effect-AreAwake :
    {actor : ℕ} {action : Action} {s t : Server} → Effect actor action s t → AreAwake s → AreAwake t
unfolding put_channel get_or_create_channel erase_channel modify_pending drop_pending
    accept_password set_sent_pass set_authenticated add_rejected_nickname set_nickname set_username
    set_registered
Effect-AreAwake (delivers s fd messages) v = delivers-AreAwake fd messages s v
Effect-AreAwake {actor} (authenticates s e) v = modify_client-AreAwake actor _ s (λ c. refl) v
Effect-AreAwake {actor} (rejects s nick e) v = modify_client-AreAwake actor _ s (λ c. refl) v
Effect-AreAwake {actor} (renames s nick e g f) v = modify_client-AreAwake actor _ s (λ c. refl) v
Effect-AreAwake {actor} (identifies s name c e f a u) v =
    modify_client-AreAwake actor _ s (λ c. refl) v
Effect-AreAwake {actor} (registers s c f k) v = modify_client-AreAwake actor _ s (λ c. refl) v
Effect-AreAwake (creates s made e) v = v
Effect-AreAwake (changes s at_name c c' f r) v = v
Effect-AreAwake (drops s gone c f e) v = v
Effect-AreAwake (waits s at_name fd e) v = v
Effect-AreAwake (stops_waiting s at_name fd) v = v
Effect-AreAwake (serves_waiting s at_name) v = v

pub Run-AreAwake :
    {actor : ℕ} {action : Action} {s t : Server} → Run actor action s t → AreAwake s → AreAwake t
Run-AreAwake here v = v
Run-AreAwake (next r e) v = Effect-AreAwake e (Run-AreAwake r v)

-- Where every channel is sound and its members registered, a line of a client, other than QUIT, leaves
-- no reply asleep: if every client with output waiting was polled for POLLOUT, where it is polled at
-- all, it is so afterwards.
pub process_command-AreAwake :
    (fd : ℕ) (line : Text) (s : Server)
    → verb_of (parse line).command ≢ quit
    → ArePeopled s
    → AreAwake s
    → AreAwake (process_command fd line s)
process_command-AreAwake fd line s h v w = Run-AreAwake (process_command-Run fd line s h v) w
