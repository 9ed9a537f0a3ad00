-- ===== src/Effects/Steps.antt =====
-- Who is registered, under every effect of the handlers of src/*.cpp.
use internet_relay_chat_msn.Base.{
  ℕ, ◌≡◌, refl, true, false, Option, none, some, List, [], ◌∷◌, nat_key, bytes_key, on_found, ◌==◌,
  if◌then◌else◌, inl, inr, Bool-cases,
}
use internet_relay_chat_msn.Map.{Map, find, modify, find-modify, map_value}
use internet_relay_chat_msn.Text.{Text}
use internet_relay_chat_msn.Client.{
  Client, append_to_out_buffer, set_nickname, set_username, add_rejected_nickname, set_registered,
  set_authenticated, set_sent_pass,
}
use internet_relay_chat_msn.Server.{Server, modify_client, append_out, enable_write, put_channel}
use internet_relay_chat_msn.ChannelCommands.Join.{get_or_create_channel, modify_pending}
use internet_relay_chat_msn.ChannelCommands.Part.{erase_channel}
use internet_relay_chat_msn.Registration.{accept_password}
use internet_relay_chat_msn.Effects.{
  Action, Effect, delivers, authenticates, rejects, renames, identifies, registers, creates,
  changes, drops, waits, stops_waiting, serves_waiting, Run, here, next, append_all, is_registered,
  drop_pending,
}

-- A change of one client that takes no registration away.
pub is_registered-modify :
    (fd k : ℕ) (f : Client → Client) (clients : Map ℕ Client)
    → ((c : Client) → c.registered ≡ true → (f c).registered ≡ true)
    → is_registered fd clients ≡ true
    → is_registered fd (modify k f clients) ≡ true
unfolding is_registered on_found
is_registered-modify fd k f clients keep h = rw find-modify (go (find fd clients) h)
  where
    go :
        (o : Option Client)
        → on_found o false (λ c. c.registered) ≡ true
        → on_found (if k == fd then map_value f o else o) false (λ c. c.registered) ≡ true
    go none e = cc
    go (some c) e = elim (Bool-cases (k == fd)) [
      | inl hit ↦ rw hit (keep c e)
      | inr miss ↦ rw miss e
    ]

pub channels-append_all :
    (fd : ℕ) (messages : List Text) (s : Server) → (append_all fd messages s).channels ≡ s.channels
unfolding append_all append_out modify_client
channels-append_all fd [] s = refl
channels-append_all fd (message ∷ messages) s =
    channels-append_all fd messages (append_out fd message s)

is_registered-append_all :
    (j fd : ℕ) (messages : List Text) (s : Server)
    → is_registered j s.clients ≡ true
    → is_registered j (append_all fd messages s).clients ≡ true
unfolding append_all append_out modify_client append_to_out_buffer
is_registered-append_all j fd [] s h = h
is_registered-append_all j fd (message ∷ messages) s h =
    is_registered-append_all j fd messages (append_out fd message s)
      (is_registered-modify j fd (append_to_out_buffer message) s.clients (λ c e. e) h)

-- A registered client stays registered while it is connected.
pub Effect-is_registered :
    {actor : ℕ} {action : Action} {s t : Server} (j : ℕ)
    → Effect actor action s t
    → is_registered j s.clients ≡ true
    → is_registered j t.clients ≡ true
unfolding modify_client put_channel get_or_create_channel erase_channel modify_pending drop_pending
    enable_write accept_password set_authenticated set_sent_pass set_nickname add_rejected_nickname
    set_username set_registered
Effect-is_registered j (delivers s fd messages) h = is_registered-append_all j fd messages s h
Effect-is_registered {actor} j (authenticates s e) h =
    is_registered-modify j actor accept_password s.clients (λ c k. k) h
Effect-is_registered {actor} j (rejects s nick e) h =
    is_registered-modify j actor (add_rejected_nickname nick) s.clients (λ c k. k) h
Effect-is_registered {actor} j (renames s nick e v f) h =
    is_registered-modify j actor (set_nickname nick) s.clients (λ c k. k) h
Effect-is_registered {actor} j (identifies s name c e f a u) h =
    is_registered-modify j actor (set_username name) s.clients (λ c k. k) h
Effect-is_registered {actor} j (registers s c f k) h =
    is_registered-modify j actor (set_registered true) s.clients (λ c k. refl) h
Effect-is_registered j (creates s name e) h = h
Effect-is_registered j (changes s name ch ch' f r) h = h
Effect-is_registered j (drops s name ch f e) h = h
Effect-is_registered j (waits s name fd e) h = h
Effect-is_registered j (stops_waiting s name fd) h = h
Effect-is_registered j (serves_waiting s name) h = h

pub Run-is_registered :
    {actor : ℕ} {action : Action} {s t : Server} (j : ℕ)
    → Run actor action s t
    → is_registered j s.clients ≡ true
    → is_registered j t.clients ≡ true
Run-is_registered j here h = h
Run-is_registered j (next r e) h = Effect-is_registered j e (Run-is_registered j r h)
