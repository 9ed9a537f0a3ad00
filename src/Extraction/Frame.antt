-- ===== src/Extraction/Frame.antt =====
-- What the handlers of src/Server.cpp leave alone: a client's input and its place in the poll table.
use internet_relay_chat_msn.OneChannel.{IsClosed, quit_channel-closed}
use internet_relay_chat_msn.Messages.{quit_channels}
use internet_relay_chat_msn.Effects.{
  rejects, delivers, authenticates, renames, identifies, registers, creates, changes, drops, waits,
  stops_waiting, serves_waiting, here, next, other,
}
use internet_relay_chat_msn.Registration.{accept_password}
use internet_relay_chat_msn.Effects.Wakeup.{poll_fds-append_all}
use internet_relay_chat_msn.Effects.Rules.{Run-broadcast}
use internet_relay_chat_msn.ChannelCommands.Part.{erase_channel}
use internet_relay_chat_msn.ChannelCommands.Join.{get_or_create_channel, modify_pending}
use internet_relay_chat_msn.Text.{Text}
use internet_relay_chat_msn.Connection.{poll_index}
use internet_relay_chat_msn.Channel.{Channel}
use internet_relay_chat_msn.Client.{
  Client, append_to_out_buffer, set_sent_pass, set_authenticated, add_rejected_nickname,
  set_nickname, set_username, set_registered,
}
use internet_relay_chat_msn.Map.{Map, modify, find, map_value, find-modify}
use internet_relay_chat_msn.Effects.{
  Action, append_all, Run, next, here, other, drop_pending, Effect, delivers, authenticates,
  rejects,
}
use internet_relay_chat_msn.Server.{
  Server, ask_pollout, enable_write, modify_client, put_channel, append_out, PollFd, visit_channels,
}
use internet_relay_chat_msn.Base.{
  ℕ, ◌≡◌, refl, true, false, Option, none, some, List, ◌∷◌, [], ◌∙◌, on_found, Bool, ap, Bool-cases,
  if◌then◌else◌, ◌==◌, nat_key, inl, inr,
}

-- The input that a client has left.
unfoldable pub input_of : ℕ → Map ℕ Client → Option Text
input_of fd clients = on_found (find fd clients) none (λ c. some c.in_buffer)

input_of-modify_same :
    (j k : ℕ) (f : Client → Client) (m : Map ℕ Client)
    → ((c : Client) → (f c).in_buffer ≡ c.in_buffer)
    → input_of j (modify k f m) ≡ input_of j m
unfolding input_of
input_of-modify_same j k f m same = rw find-modify (go (find j m) (k == j))
  where
    go :
        (o : Option Client) (b : Bool)
        → on_found (if b then map_value f o else o) none (λ c. some c.in_buffer)
          ≡ on_found o none (λ c. some c.in_buffer)
    go none true = refl
    go none false = refl
    go (some c) true = unfold on_found in ap some (same c)
    go (some c) false = refl

input_of-append_all :
    (j k : ℕ) (messages : List Text) (s : Server)
    → input_of j (append_all k messages s).clients ≡ input_of j s.clients
unfolding append_all append_out modify_client append_to_out_buffer
input_of-append_all j k [] s = refl
input_of-append_all j k (message ∷ messages) s =
    input_of-append_all j k messages (append_out k message s)
    ∙ input_of-modify_same j k (append_to_out_buffer message) s.clients (λ c. refl)

poll_index-ask_pollout :
    (j k : ℕ) (ps : List PollFd) → poll_index j (ask_pollout k ps) ≡ poll_index j ps
unfolding ask_pollout poll_index
poll_index-ask_pollout j k [] = refl
poll_index-ask_pollout j k (p ∷ ps) = elim (Bool-cases (p.fd == k)) [
  | inl hit ↦ rw hit refl
  | inr miss ↦ rw (miss, poll_index-ask_pollout j k ps) refl
]

-- What one change keeps: the input of every client, and its place in the poll table.
pub record Keeps (j : ℕ) (s t : Server) : Type 0 where
  pub input : input_of j t.clients ≡ input_of j s.clients
  pub index : poll_index j t.poll_fds ≡ poll_index j s.poll_fds

Keeps-refl : {j : ℕ} {s : Server} → Keeps j s s
Keeps-refl = record { input = refl; index = refl }

Keeps-trans : {j : ℕ} {s t u : Server} → Keeps j s t → Keeps j t u → Keeps j s u
Keeps-trans a b = record { input = b.input ∙ a.input; index = b.index ∙ a.index }

modify_client-Keeps :
    (j k : ℕ) (f : Client → Client) (s : Server)
    → ((c : Client) → (f c).in_buffer ≡ c.in_buffer)
    → Keeps j s (modify_client k f s)
unfolding modify_client
modify_client-Keeps j k f s same = record {
  input = input_of-modify_same j k f s.clients same;
  index = refl;
}

delivers-Keeps :
    (j k : ℕ) (messages : List Text) (s : Server)
    → Keeps j s (enable_write k (append_all k messages s))
unfolding enable_write
delivers-Keeps j k messages s = record {
  input = input_of-append_all j k messages s;
  index = poll_index-ask_pollout j k _ ∙ ap (poll_index j) (poll_fds-append_all k messages s);
}

Effect-Keeps :
    {actor : ℕ} {action : Action} {s t : Server} (j : ℕ) → Effect actor action s t → Keeps j s t
unfolding put_channel get_or_create_channel erase_channel modify_pending drop_pending
    accept_password set_sent_pass set_authenticated add_rejected_nickname set_nickname set_username
    set_registered
Effect-Keeps j (delivers s fd messages) = delivers-Keeps j fd messages s
Effect-Keeps {actor} j (authenticates s e) = modify_client-Keeps j actor _ s (λ c. refl)
Effect-Keeps {actor} j (rejects s nick e) = modify_client-Keeps j actor _ s (λ c. refl)
Effect-Keeps {actor} j (renames s nick e g f) = modify_client-Keeps j actor _ s (λ c. refl)
Effect-Keeps {actor} j (identifies s name c e f a u) = modify_client-Keeps j actor _ s (λ c. refl)
Effect-Keeps {actor} j (registers s c f k) = modify_client-Keeps j actor _ s (λ c. refl)
Effect-Keeps j (creates s made e) = record { input = refl; index = refl }
Effect-Keeps j (changes s at_name c c' f r) = record { input = refl; index = refl }
Effect-Keeps j (drops s gone c f e) = record { input = refl; index = refl }
Effect-Keeps j (waits s at_name fd e) = record { input = refl; index = refl }
Effect-Keeps j (stops_waiting s at_name fd) = record { input = refl; index = refl }
Effect-Keeps j (serves_waiting s at_name) = record { input = refl; index = refl }

pub Run-Keeps :
    {actor : ℕ} {action : Action} {s t : Server} (j : ℕ) → Run actor action s t → Keeps j s t
Run-Keeps j here = Keeps-refl
Run-Keeps j (next r e) = Keeps-trans (Run-Keeps j r) (Effect-Keeps j e)

-- What changes one channel keeps the clients' input and places.
Keeps-IsClosed : (j : ℕ) (name : Text) → IsClosed name (Keeps j)
unfolding put_channel erase_channel
Keeps-IsClosed j name = record {
  unchanged = λ s. Keeps-refl;
  both = λ s t u a b. Keeps-trans a b;
  told = λ ch sender message s.
      Run-Keeps j (Run-broadcast {actor = j} {action = other} ch sender message here);
  written = λ ch s. record { input = refl; index = refl };
  erased = λ s. record { input = refl; index = refl };
}

pub quit_channels-Keeps :
    (j fd : ℕ) (message : Text) (channels : Map Text Channel) (s : Server)
    → Keeps j s (quit_channels fd message channels s)
unfolding quit_channels visit_channels
quit_channels-Keeps j fd message [] s = Keeps-refl
quit_channels-Keeps j fd message ((name, ch) ∷ rest) s =
    Keeps-trans (quit_channel-closed (Keeps-IsClosed j name) fd message ch s)
      (quit_channels-Keeps j fd message rest _)
